-- ===== src/Core/Examples.antt =====
-- Runs of the retries: two server errors, then an answer; and a request that is refused.
use lrllm.Prelude.{ℕ, zero, suc, ◌≡◌, refl, [], ◌∷◌}
use lrllm.Core.Retry.{
  CallOutcome, responds, fails, status_error, called, slept, response, raising, with_retry,
}

abbrev third_time : ℕ → CallOutcome ℕ
third_time i = elim i [
  | zero ↦ responds 0
  | suc j ↦ elim j [
    | zero ↦ fails (status_error 503)
    | suc k ↦ elim k [ zero ↦ fails (status_error 429) | suc l ↦ responds 7 ]
  ]
]

abbrev refused : ℕ → CallOutcome ℕ
refused i = fails (status_error 401)

retries_twice :
    with_retry third_time 5 10
    ≡ (response 7, called 1 ∷ slept 10 ∷ called 2 ∷ slept 20 ∷ called 3 ∷ [])
unfolding with_retry
retries_twice = refl

raises_at_once : with_retry refused 5 10 ≡ (raising (status_error 401), called 1 ∷ [])
unfolding with_retry
raises_at_once = refl
