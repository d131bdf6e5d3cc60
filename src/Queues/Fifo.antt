-- ===== src/Queues/Fifo.antt =====
-- The queues over time: what is accepted is delivered once and in order, and the events are bounded.
use lrllm.Prelude.{
  ℕ, ◌+◌, ◌≤◌, ◌≡◌, refl, sym, ap, ◌∙◌, Bool, true, false, not, ◌&&◌, String, Option, none, some,
  List, [], ◌∷◌, ◌++◌, length, length-append, append-nil, append_assoc, arith, ltb, Bool-cases, inl,
  inr, if_both, all_of,
}
use lrllm.Queues.{QueueState, usable, push, enqueue_job, pop, dequeue, may_push, enqueue_event}

-- A call on a queue, with whether it reaches Redis: for the events one that adds, one that takes.
pub data Call : Type 0 where
  add_job : String → Bool → Call
  add_event : String → Bool → Bool → Call
  take_item : Bool → Call

-- What was accepted and what was delivered.
pub record Run : Type 0 where
  pub state : QueueState
  pub accepted : List String
  pub delivered : List String

abbrev pub if_accepted : Bool → String → List String
if_accepted true payload = payload ∷ []
if_accepted false payload = []

abbrev pub if_delivered : Option String → List String
if_delivered none = []
if_delivered (some x) = x ∷ []

module _ (maxlen : ℕ) where
  abbrev pub apply : Call → QueueState → Run
  apply (add_job job up) q =
      let r = enqueue_job q job up in
      record { state = r.0; accepted = if_accepted r.1 job; delivered = [] }
  apply (add_event event size_up push_up) q =
      let r = enqueue_event maxlen q event size_up push_up in
      record { state = r.0; accepted = if_accepted r.1 event; delivered = [] }
  apply (take_item up) q =
      let r = dequeue q up in record { state = r.0; accepted = []; delivered = if_delivered r.1 }

  abbrev pub run : List Call → QueueState → Run
  run [] q = record { state = q; accepted = []; delivered = [] }
  run (c ∷ cs) q =
      let first = apply c q in
      let rest = run cs first.state in
      record {
        state = rest.state;
        accepted = first.accepted ++ rest.accepted;
        delivered = first.delivered ++ rest.delivered;
      }

  -- Nothing is lost, doubled or moved between a queue before and a run from there.
  abbrev pub Conserves : QueueState → Run → Type 0
  Conserves q r = r.delivered ++ r.state.items ≡ q.items ++ r.accepted

  abbrev Pushed : QueueState → String → QueueState × Bool → Type 0
  Pushed q payload r = r.0.items ≡ q.items ++ if_accepted r.1 payload

  push-Pushed :
      (q : QueueState) (payload : String) (up : Bool) → Pushed q payload (push q payload up)
  unfolding push
  push-Pushed q payload true = refl
  push-Pushed q payload false = sym (append-nil q.items)

  enqueue_job-Pushed :
      (q : QueueState) (job : String) (up : Bool) → Pushed q job (enqueue_job q job up)
  unfolding enqueue_job
  enqueue_job-Pushed q job up =
      if_both (Pushed q job) (usable q) (push-Pushed q job up) (sym (append-nil q.items))

  enqueue_event-Pushed :
      (q : QueueState) (event : String) (size_up push_up : Bool)
      → Pushed q event (enqueue_event maxlen q event size_up push_up)
  unfolding enqueue_event
  enqueue_event-Pushed q event size_up push_up =
      if_both (Pushed q event) (not (usable q)) (sym (append-nil q.items)) (
        if_both (Pushed q event) (ltb 0 maxlen && not size_up) (sym (append-nil q.items)) (
          if_both (Pushed q event) (may_push maxlen (length q.items)) (push-Pushed q event push_up)
            (sym (append-nil q.items))))

  abbrev Popped : QueueState → QueueState × Option String → Type 0
  Popped q r = if_delivered r.1 ++ r.0.items ≡ q.items

  dequeue-Popped : (q : QueueState) (up : Bool) → Popped q (dequeue q up)
  unfolding dequeue
  dequeue-Popped q up =
      if_both (Popped q) (usable q) (if_both (Popped q) up (popped q.items refl) refl) refl
    where
      popped : (xs : List String) → q.items ≡ xs → Popped q (pop q xs)
      popped [] h = refl
      popped (x ∷ xs) h = sym h

  apply-Conserves : (c : Call) (q : QueueState) → Conserves q (apply c q)
  apply-Conserves (add_job job up) q = enqueue_job-Pushed q job up
  apply-Conserves (add_event event size_up push_up) q = enqueue_event-Pushed q event size_up push_up
  apply-Conserves (take_item up) q = dequeue-Popped q up ∙ sym (append-nil q.items)

  -- Through any calls, of which any may fail to reach Redis, what was delivered, followed by what is
  -- still queued, is what was queued at first, followed by what was accepted: nothing that was
  -- accepted is lost, delivered twice or overtaken, and nothing that was refused is delivered.
  pub run-Conserves : (cs : List Call) (q : QueueState) → Conserves q (run cs q)
  run-Conserves [] q = sym (append-nil q.items)
  run-Conserves (c ∷ cs) q =
      let first = apply c q in
      let rest = run cs first.state in
      append_assoc first.delivered rest.delivered rest.state.items
      ∙ ap (λ xs. first.delivered ++ xs) (run-Conserves cs first.state)
      ∙ sym (append_assoc first.delivered first.state.items rest.accepted)
      ∙ ap (λ xs. xs ++ rest.accepted) (apply-Conserves c q)
      ∙ append_assoc q.items first.accepted rest.accepted

  -- A call that only handles events.
  abbrev pub is_event_call : Call → Bool
  is_event_call (add_job job up) = false
  is_event_call _ = true

  length-push :
      (q : QueueState) (payload : String) (up : Bool)
      → length q.items + 1 ≤ maxlen
      → length (push q payload up).0.items ≤ maxlen
  unfolding push
  length-push q payload true h = omega (arith, length-append q.items (payload ∷ []))
  length-push q payload false h = omega arith

  length-enqueue_event :
      (q : QueueState) (event : String) (size_up push_up : Bool)
      → 1 ≤ maxlen
      → length q.items ≤ maxlen
      → length (enqueue_event maxlen q event size_up push_up).0.items ≤ maxlen
  unfolding enqueue_event
  length-enqueue_event q event size_up push_up m h =
      let fits : QueueState × Bool → Type 0 = λ r. length r.0.items ≤ maxlen in
      if_both fits (not (usable q)) h (
        if_both fits (ltb 0 maxlen && not size_up) h
          (elim (Bool-cases (may_push maxlen (length q.items))) [
            | inl room ↦ rw room (length-push q event push_up (ground arith))
            | inr full ↦ rw full h
          ]))

  length-dequeue : (q : QueueState) (up : Bool) → length (dequeue q up).0.items ≤ length q.items
  length-dequeue q up = omega (
    arith,
    ap length (dequeue-Popped q up),
    length-append (if_delivered (dequeue q up).1) (dequeue q up).0.items,
  )

  -- The queue of events never holds more than its limit, whatever calls are made and whichever
  -- of them fail, if one caller at a time makes them, the limit is not 0 and it held no more at first.
  pub length-run :
      (cs : List Call) (q : QueueState)
      → 1 ≤ maxlen
      → length q.items ≤ maxlen
      → all_of is_event_call cs ≡ true
      → length (run cs q).state.items ≤ maxlen
  length-run [] q m h e = h
  length-run (add_job job up ∷ cs) q m h e = cc
  length-run (add_event event size_up push_up ∷ cs) q m h e =
      length-run cs _ m (length-enqueue_event q event size_up push_up m h) e
  length-run (take_item up ∷ cs) q m h e = length-run cs _ m (omega (arith, length-dequeue q up)) e
