-- ===== src/Servers/Wire.antt =====
-- python/io_multiplexing: queued and sent bytes, for each of the echo servers.
use mathlib.Core.List.{append_assoc}
use cocurrency.Common.{ℕ, ◌≡◌, sym, ap, ◌∙◌, ◌++◌}
use cocurrency.Servers.{Bytes, drop, take, take-drop, upper, upper-append}

pub queue_echoed :
    (out queue heard bs : Bytes)
    → out ++ queue ≡ upper heard
    → out ++ (queue ++ upper bs) ≡ upper (heard ++ bs)
queue_echoed out queue heard bs h =
    sym (append_assoc out queue (upper bs))
    ∙ ap (λ l. l ++ upper bs) h
    ∙ sym (upper-append heard bs)

pub send_echoed :
    (n : ℕ) (out queue heard : Bytes)
    → out ++ queue ≡ upper heard
    → (out ++ take n queue) ++ drop n queue ≡ upper heard
send_echoed n out queue heard h =
    append_assoc out (take n queue) (drop n queue) ∙ ap (λ l. out ++ l) (take-drop n queue) ∙ h
