-- ===== src/Servers/Select/Cleanup.antt =====
-- python/io_multiplexing/select_server.py: the end of the loop closes each client.
use mathlib.Core.Path.{subst}
use cocurrency.Common.{
  ℕ, ◌≡◌, ◌⊎◌, inl, inr, true, List, [], ◌∷◌, if◌then◌else◌, Bool-cases, ◌==◌, In, arith,
}
use cocurrency.Servers.{is_some}
use cocurrency.Servers.Select.{SelectEchoServer, close_client, cleanup}

abbrev IsListed : List ℕ → SelectEchoServer → Type 0
IsListed fds s = (j : ℕ) → is_some (s.fd_to_sock j) ≡ true → (j ≡ s.server_fd) ⊎ In j fds

close_client-IsListed :
    (fd : ℕ) (fds : List ℕ) (s : SelectEchoServer)
    → IsListed (fd ∷ fds) s
    → IsListed fds (close_client fd true s)
unfolding close_client
close_client-IsListed fd fds s listed j there = elim (Bool-cases (fd == j)) [
  | inl same ↦ absurd (ground arith)
  | inr other ↦ elim (listed j (ground arith)) [
    | inl server ↦ inl server
    | inr (inl e) ↦ absurd (ground (arith, e))
    | inr (inr later) ↦ inr later
  ]
]

server-IsListed :
    (fd : ℕ) (fds : List ℕ) (s : SelectEchoServer)
    → fd ≡ s.server_fd
    → IsListed (fd ∷ fds) s
    → IsListed fds s
server-IsListed fd fds s is listed j there = elim (listed j there) [
  | inl server ↦ inl server
  | inr (inl e) ↦ inl (omega arith)
  | inr (inr later) ↦ inr later
]

-- If the keys name every open descriptor, then `_cleanup` leaves no connection open but the server's
-- own socket.
pub cleanup-closes :
    (fds : List ℕ) (s : SelectEchoServer)
    → ((j : ℕ) → is_some (s.fd_to_sock j) ≡ true → (j ≡ s.server_fd) ⊎ In j fds)
    → (j : ℕ) → is_some ((cleanup fds s).fd_to_sock j) ≡ true
    → j ≡ s.server_fd
unfolding cleanup close_client
cleanup-closes [] s listed j there = elim (listed j there) [
  | inl e ↦ e
  | inr impossible ↦ absurd impossible
]
cleanup-closes (fd ∷ fds) s listed j there = elim (Bool-cases (fd == s.server_fd)) [
  | inl server ↦ cleanup-closes fds s (server-IsListed fd fds s (ground arith) listed) j (
      subst
        (λ b. is_some ((cleanup fds (if b then s else close_client fd true s)).fd_to_sock j) ≡ true)
        server there)
  | inr client ↦
      cleanup-closes fds (close_client fd true s) (close_client-IsListed fd fds s listed) j (
        subst
          (λ b.
            is_some ((cleanup fds (if b then s else close_client fd true s)).fd_to_sock j) ≡ true)
          client there)
]
