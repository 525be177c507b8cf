-- ===== src/Servers.antt =====
-- python/io_multiplexing: what its echo servers share. A socket is its file descriptor; what the
-- calls of the operating system return is an argument, and `Net` records what went over the wire.
pub mod Wire
pub mod Select
pub mod Poll
pub mod Epoll
pub mod Reactor
pub mod Proactor
use cocurrency.Common.{
  ℕ, zero, suc, ◌+◌, ◌-◌, ◌≡◌, refl, ap, Bool, true, false, ◌&&◌, Option, none, some, List, [], ◌∷◌,
  ◌++◌, map, leb, ◌==◌, if◌then◌else◌, arith,
}

-- A Python dict keyed by descriptors.
abbrev pub Map : Type 0 → Type 0
Map V = ℕ → Option V

module _ {V : Type 0} where
  abbrev pub set : ℕ → V → Map V → Map V
  set k v m = λ j. if k == j then some v else m j

  -- `m.pop(k, None)`
  abbrev pub pop : ℕ → Map V → Map V
  pop k m = λ j. if k == j then none else m j

  -- What `m.setdefault(k, v)` returns.
  abbrev pub get_or : V → Option V → V
  get_or v none = v
  get_or v (some w) = w

  abbrev pub is_some : Option V → Bool
  is_some none = false
  is_some (some v) = true

abbrev pub Bytes : Type 0
Bytes = List ℕ

abbrev pub take : ℕ → Bytes → Bytes
take zero bs = []
take (suc n) [] = []
take (suc n) (b ∷ bs) = b ∷ take n bs

-- `bs[n:]`
abbrev pub drop : ℕ → Bytes → Bytes
drop zero bs = bs
drop (suc n) [] = []
drop (suc n) (b ∷ bs) = drop n bs

pub take-drop : (n : ℕ) (bs : Bytes) → take n bs ++ drop n bs ≡ bs
take-drop zero bs = refl
take-drop (suc n) [] = refl
take-drop (suc n) (b ∷ bs) = ap (λ l. b ∷ l) (take-drop n bs)

-- `bytes.upper`, for one byte.
unfoldable pub upper_byte : ℕ → ℕ
upper_byte b = if leb 97 b && leb b 122 then b - 32 else b

abbrev pub upper : Bytes → Bytes
upper [] = []
upper (b ∷ bs) = upper_byte b ∷ upper bs

pub upper-append : (xs ys : Bytes) → upper (xs ++ ys) ≡ upper xs ++ upper ys
upper-append [] ys = refl
upper-append (x ∷ xs) ys = ap (λ l. upper_byte x ∷ l) (upper-append xs ys)

-- What `sock.recv(4096)` does: no bytes are the end of the stream, `reset` stands for
-- ConnectionResetError and ConnectionAbortedError, `recv_blocks` for BlockingIOError.
pub data Recv : Type 0 where
  bytes : Bytes → Recv
  reset : Recv
  recv_blocks : Recv

-- What `sock.send(buf)` does: it sends as many of the first bytes as the number says.
pub data Send : Type 0 where
  sends : ℕ → Send
  broken : Send
  send_blocks : Send

-- The bytes that came from, and went to, the connection of a descriptor.
pub record Net : Type 0 where
  pub heard : ℕ → Bytes
  pub wire : ℕ → Bytes

-- A new connection.
abbrev pub connect : ℕ → Net → Net
connect fd net = record {
  heard = λ j. if fd == j then [] else net.heard j;
  wire = λ j. if fd == j then [] else net.wire j;
}

abbrev pub hear : ℕ → Bytes → Net → Net
hear fd bs net = record net { heard = λ j. if fd == j then net.heard j ++ bs else net.heard j }

abbrev pub transmit : ℕ → Bytes → Net → Net
transmit fd bs net = record net { wire = λ j. if fd == j then net.wire j ++ bs else net.wire j }

-- A handler goes on, or an exception leaves it.
pub data Ran (S : Type 0) : Type 0 where
  goes_on : S → Ran S
  raised : S → Ran S

module _ {S : Type 0} where
  abbrev pub state : Ran S → S
  state (goes_on s) = s
  state (raised s) = s

  -- The next statement runs if no exception came.
  abbrev pub then_run : Ran S → (S → Ran S) → Ran S
  then_run (goes_on s) f = f s
  then_run (raised s) f = raised s

-- A ready descriptor, and what the calls on it return.
pub record Ready : Type 0 where
  pub fd : ℕ
  -- The descriptor that `accept` returns, if it does not block.
  pub accepts : Option ℕ
  pub recv : Recv
  pub send : Send
