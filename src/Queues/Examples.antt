-- ===== src/Queues/Examples.antt =====
-- Runs of the event queue, with room for two events.
use lrllm.Prelude.{◌≡◌, ◌≤◌, refl, true, false, List, [], ◌∷◌, length, arith}
use lrllm.Queues.{QueueState, push, may_push, enqueue_event, dequeue}
use lrllm.Queues.Fifo.{Call, add_event, take_item, run, Conserves, run-Conserves, length-run}

abbrev empty_queue : QueueState
empty_queue = record { connected = true; broken = false; items = [] }

abbrev calls : List Call
calls =
    add_event "a" true true
    ∷ add_event "b" true true
    ∷ add_event "c" true true
    ∷ take_item true
    ∷ add_event "d" true true
    ∷ take_item false
    ∷ add_event "e" true true
    ∷ []

refuses_when_full : (run 2 calls empty_queue).accepted ≡ "a" ∷ "b" ∷ "d" ∷ []
unfolding enqueue_event dequeue push
refuses_when_full = refl

-- Two callers that both read the size before either adds go past the limit.
both_push :
    let full = record empty_queue { items = "a" ∷ [] } in may_push 2 (length full.items) ≡ true
both_push = refl

past_the_limit :
    let first = push (record empty_queue { items = "a" ∷ [] }) "b" true in
    length (push first.0 "c" true).0.items ≡ 3
unfolding push
past_the_limit = refl

run-Conserves_example : Conserves 2 empty_queue (run 2 calls empty_queue)
run-Conserves_example = run-Conserves 2 calls empty_queue

length-run_example : length (run 2 calls empty_queue).state.items ≤ 2
length-run_example = length-run 2 calls empty_queue (omega arith) (omega arith) refl
