-- ===== src/Csp.antt =====
-- python/csp/channel_demo.py: a channel over a `queue.Queue`.
-- A method holds the channel's lock, so each is one step; a round of the loop in `send` or `recv` that
-- has to wait is a step too. The events only cut the waits short, which a timeout ends anyway.
pub mod Fifo
pub mod Workers
mod Tests
use cocurrency.Common.{
  ℕ, ◌+◌, Bool, true, false, ◌&&◌, Option, none, some, List, [], ◌∷◌, ◌++◌, length, ltb, leb,
  if◌then◌else◌,
}

-- Items are numbers. In a `queue.Queue` a `maxsize` of 0 sets no bound.
pub record Channel : Type 0 where
  pub maxsize : ℕ
  pub buf : List ℕ
  pub closed : Bool

-- `Channel(maxsize)`
abbrev pub create : ℕ → Channel
create maxsize = record { maxsize = maxsize; buf = []; closed = false }

-- `queue.Queue.full()`
abbrev pub is_full : Channel → Bool
is_full c = ltb 0 c.maxsize && leb c.maxsize (length c.buf)

-- The calls: `send` and `recv` by one round of their loops.
pub data Call : Type 0 where
  send : ℕ → Call
  recv : Call
  try_send : ℕ → Call
  try_recv : Call
  close : Call
  len : Call

pub data Reply : Type 0 where
  -- `send` returns, or `try_send` returns `True`
  sent : ℕ → Reply
  -- `try_send` returns `False`
  not_sent : Reply
  -- `recv` or `try_recv` gives an item
  received : ℕ → Reply
  -- `try_recv` returns `(None, False)`
  not_received : Reply
  -- `recv` returns `None`
  ended : Reply
  -- the loop of `send` or `recv` waits and goes round again
  waits : Reply
  -- `ChannelClosed`
  channel_closed : Reply
  returned : Reply
  size : ℕ → Reply

put_item : ℕ → Reply → Channel → Reply × Channel
put_item item when_full c =
    if c.closed
    then (channel_closed, c)
    else if is_full c
    then (when_full, c)
    else (sent item, record c { buf = c.buf ++ item ∷ [] })

get_item : Reply → List ℕ → Channel → Reply × Channel
get_item when_empty [] c = (when_empty, c)
get_item when_empty (item ∷ rest) c = (received item, record c { buf = rest })

pub call : Call → Channel → Reply × Channel
unfolding put_item get_item
call (send item) c = put_item item waits c
call recv c = get_item (if c.closed then ended else waits) c.buf c
call (try_send item) c = put_item item not_sent c
call try_recv c = get_item not_received c.buf c
call close c = (returned, record c { closed = true })
call len c = (size (length c.buf), c)

-- The calls of all threads in the order in which they get the lock.
pub run : List Call → Channel → List Reply × Channel
run [] c = ([], c)
run (x ∷ xs) c = let (r, c') = call x c in let (rs, c'') = run xs c' in (r ∷ rs, c'')
