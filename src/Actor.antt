-- ===== src/Actor.antt =====
-- python/actor/print_server.py: the actor with its mailbox, the clients' calls, and the turns of its
-- thread. A reply queue is a number, in the order of creation. The waits of `ask` (for its reply)
-- and of `stop` (for the thread's end) change no state.
pub mod Delivery
mod Tests
use cocurrency.Common.{
  ℕ, suc, Bool, true, false, Option, none, some, List, [], ◌∷◌, ◌++◌, ◌==◌, if◌then◌else◌,
}

-- A text, by the codes of its characters.
abbrev pub Text : Type 0
Text = List ℕ

pub record PrintJob : Type 0 where
  pub text : Text
  pub reply_to : Option ℕ

pub data Message : Type 0 where
  print_job : PrintJob → Message
  shutdown : Message

pub record PrintServer : Type 0 where
  pub mailbox : List Message
  pub running : Bool
  -- The lines on the terminal.
  pub printed : List Text
  -- What each reply queue holds.
  pub replies : ℕ → List Text
  -- How many reply queues there are.
  pub queues : ℕ

abbrev pub create : PrintServer
create = record { mailbox = []; running = false; printed = []; replies = λ q. []; queues = 0 }

abbrev pub start : PrintServer → PrintServer
start s = record s { running = true }

-- `"[PrintServer] printed: " + text`.
abbrev pub output : Text → Text
output text =
    91 ∷ 80 ∷ 114 ∷ 105 ∷ 110 ∷ 116 ∷ 83 ∷ 101 ∷ 114 ∷ 118 ∷ 101 ∷ 114 ∷ 93 ∷ 32 ∷ 112 ∷ 114 ∷ 105
    ∷ 110 ∷ 116 ∷ 101 ∷ 100 ∷ 58 ∷ 32 ∷ text

-- Where a client puts a message in the mailbox.
abbrev pub post : Message → PrintServer → PrintServer
post m s = record s { mailbox = s.mailbox ++ m ∷ [] }

abbrev pub tell : Text → PrintServer → PrintServer
tell text s = post (print_job (record { text = text; reply_to = none })) s

abbrev pub ask : Text → PrintServer → PrintServer
ask text s =
    post (print_job (record { text = text; reply_to = some s.queues }))
      (record s { queues = suc s.queues })

abbrev pub stop : PrintServer → PrintServer
stop s = post shutdown s

-- What a reply puts in a queue.
abbrev pub reply : Option ℕ → Text → ℕ → List Text
reply none line q = []
reply (some r) line q = if r == q then line ∷ [] else []

unfoldable pub handle : PrintJob → PrintServer → PrintServer
handle job s = record s {
  printed = s.printed ++ output job.text ∷ [];
  replies = λ q. s.replies q ++ reply job.reply_to (output job.text) q;
}

-- One pass of the loop of `_run`, for the message at the mailbox's front.
unfoldable pub receive : List Message → PrintServer → PrintServer
receive [] s = s
receive (shutdown ∷ ms) s = record s { mailbox = ms; running = false }
receive (print_job job ∷ ms) s = handle job (record s { mailbox = ms })

unfoldable pub serve : PrintServer → PrintServer
serve s = if s.running then receive s.mailbox s else s

-- What happens next: a client's call, or a turn of the actor's thread.
pub data Event : Type 0 where
  tells : Text → Event
  asks : Text → Event
  stops : Event
  serves : Event

unfoldable pub act : Event → PrintServer → PrintServer
act (tells text) s = tell text s
act (asks text) s = ask text s
act stops s = stop s
act serves s = serve s

unfoldable pub run : List Event → PrintServer → PrintServer
run [] s = s
run (e ∷ es) s = run es (act e s)
