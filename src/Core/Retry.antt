-- ===== src/Core/Retry.antt =====
-- app/core/retry.py: an outbound call, tried again after transient failures. The calls are outside
-- code: `call i` is what the i-th one does. Delays are in the unit of the backoff.
use lrllm.Prelude.{
  ℕ, zero, suc, ◌+◌, ◌*◌, ◌≤◌, ◌≡◌, max, Bool, true, false, not, ◌||◌, List, [], ◌∷◌, leb, elem,
  ℕ_eq, if◌then◌else◌, ◌⊎◌,
}

-- The exceptions of a request, by the classes that `_is_retryable` tells apart.
pub data HttpError : Type 0 where
  connect_error timeout_error read_error remote_protocol_error write_error : HttpError
  status_error : ℕ → HttpError
  other_error : HttpError

-- `_RETRYABLE_STATUS`
abbrev pub retryable_status : List ℕ
retryable_status = 408 ∷ 409 ∷ 425 ∷ 429 ∷ 500 ∷ 502 ∷ 503 ∷ 504 ∷ []

-- `_is_retryable`
abbrev pub is_retryable : HttpError → Bool
is_retryable (status_error code) = elem code retryable_status
is_retryable other_error = false
is_retryable _ = true

pub data CallOutcome (R : Type 0) : Type 0 where
  responds : R → CallOutcome R
  fails : HttpError → CallOutcome R

-- What `with_retry` does to the outside, in order.
pub data RetryEffect : Type 0 where
  called : ℕ → RetryEffect
  slept : ℕ → RetryEffect

-- How `with_retry` ends: the last lines of the body, below the loop, are `unreachable`.
pub data RetryResult (R : Type 0) : Type 0 where
  response : R → RetryResult R
  raising : HttpError → RetryResult R
  unreachable : RetryResult R

module _ {R : Type 0} (call : ℕ → CallOutcome R) (attempts backoff : ℕ) where
  -- `for attempt in range(1, attempts + 1)`, with the number of rounds that are left.
  unfoldable pub retry_from : ℕ → ℕ → RetryResult R × List RetryEffect
  retry_from zero attempt = (unreachable, [])
  retry_from (suc rounds) attempt =
      let rest = retry_from rounds (suc attempt) in
      elim (call attempt) [
        | responds r ↦ (response r, called attempt ∷ [])
        | fails e ↦
            if leb attempts attempt || not (is_retryable e)
            then (raising e, called attempt ∷ [])
            else (rest.0, called attempt ∷ slept (backoff * attempt) ∷ rest.1)
      ]

-- `with_retry`
unfoldable pub with_retry :
    {R : Type 0} → (ℕ → CallOutcome R) → ℕ → ℕ → RetryResult R × List RetryEffect
unfolding retry_from
with_retry call max_attempts backoff =
    let attempts = max 1 max_attempts in retry_from call attempts backoff attempts 1

module _ {R : Type 0} (call : ℕ → CallOutcome R) (attempts backoff : ℕ) where
  -- A call that is worth another try.
  abbrev pub transient : CallOutcome R → Bool
  transient (responds r) = false
  transient (fails e) = is_retryable e

  -- How the last call ends the whole.
  abbrev pub ends : CallOutcome R → RetryResult R
  ends (responds r) = response r
  ends (fails e) = raising e

  -- The effects of `n` tries that fail and one more, from a try on.
  abbrev pub tries : ℕ → ℕ → List RetryEffect
  tries zero attempt = called attempt ∷ []
  tries (suc n) attempt = called attempt ∷ slept (backoff * attempt) ∷ tries n (suc attempt)

  -- The `n` tries from a try on all fail in a way that is worth another try.
  abbrev pub AllTransient : ℕ → ℕ → Type 0
  AllTransient zero attempt = Unit
  AllTransient (suc n) attempt = (transient (call attempt) ≡ true) × AllTransient n (suc attempt)

  -- The tries from one on: `retries` failures that are tried again, then the end.
  pub record IsRetry (attempt : ℕ) (result : RetryResult R × List RetryEffect) : Type 0 where
    pub retries : ℕ
    pub final : ℕ
    pub is_final : final ≡ attempt + retries
    pub bound : final ≤ attempts
    pub earlier : AllTransient retries attempt
    pub effects : result.1 ≡ tries retries attempt
    pub last : result.0 ≡ ends (call final)
    pub over : (final ≡ attempts) ⊎ (transient (call final) ≡ false)
