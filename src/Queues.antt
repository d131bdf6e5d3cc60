-- ===== src/Queues.antt =====
-- app/services/queue.py: the queue of ingestion jobs and the queue of events. The Redis list is part
-- of the state; whether a call reaches Redis is an argument, and one that does not leaves the list
-- as it is. Only one caller at a time is modelled, but for `may_push`, which tells what a caller
-- does on a size that it read before.
pub mod Fifo
mod Examples
use lrllm.Prelude.{
  ℕ, Bool, true, false, not, ◌&&◌, ◌||◌, String, Option, none, some, List, [], ◌∷◌, ◌++◌, length,
  ltb, leb, if◌then◌else◌,
}

-- A queue object and its list in Redis: whether it has a client, and whether a call has failed.
pub record QueueState : Type 0 where
  pub connected : Bool
  pub broken : Bool
  pub items : List String

-- `usable`
abbrev pub usable : QueueState → Bool
usable q = q.connected && not q.broken

-- `self._broken = True`
abbrev pub break_down : QueueState → QueueState
break_down q = record q { broken = true }

-- `rpush` of one payload, and whether it was accepted.
unfoldable pub push : QueueState → String → Bool → QueueState × Bool
push q payload up =
    if up then (record q { items = q.items ++ payload ∷ [] }, true) else (break_down q, false)

-- `IngestionQueue.enqueue`; the flag, which the code does not return, tells if the job is queued.
unfoldable pub enqueue_job : QueueState → String → Bool → QueueState × Bool
unfolding push
enqueue_job q job_id up = if usable q then push q job_id up else (q, false)

-- The first item of the list, taken off.
abbrev pub pop : QueueState → List String → QueueState × Option String
pop q [] = (q, none)
pop q (x ∷ xs) = (record q { items = xs }, some x)

-- `dequeue` of either queue, where an empty list is a wait that ran out, and `dequeue_nowait`.
unfoldable pub dequeue : QueueState → Bool → QueueState × Option String
dequeue q up =
    let broken : QueueState × Option String = (break_down q, none) in
    if usable q then (if up then pop q q.items else broken) else (q, none)

-- Whether the size that `llen` told leaves room; a limit of 0 is none.
abbrev pub may_push : ℕ → ℕ → Bool
may_push maxlen size = not (ltb 0 maxlen && leb maxlen size)

-- `EventQueue.enqueue`: `size_up` tells if `llen` reaches Redis, `push_up` if `rpush` does.
unfoldable pub enqueue_event : ℕ → QueueState → String → Bool → Bool → QueueState × Bool
unfolding push
enqueue_event maxlen q payload size_up push_up =
    if not (usable q)
    then (q, false)
    else if ltb 0 maxlen && not size_up
    then (break_down q, false)
    else if may_push maxlen (length q.items)
    then push q payload push_up
    else (q, false)
