-- ===== src/Transport/Attempts.antt =====
-- How often a request is sent, and what it comes to.
use tekbreed_oss.Prelude.{
  ℕ, zero, suc, ◌+◌, ◌≤◌, ◌≡◌, ◌⊎◌, refl, sym, ap, inl, inr, Bool, true, false, ◌&&◌, not, Option,
  none, some, List, [], ◌∷◌, arith, length, All, Bool-cases,
}
use tekbreed_oss.Prelude.Json.{Json}
use tekbreed_oss.Prelude.Result.{Result, ok, throw}
use tekbreed_oss.Transport.{
  Runtime, CloudError, Fetched, RetryOptions, is_retryable, should_retry, get_retry_delay_ms,
  attempts_of, attempt_once, round, request_loop, request,
}

-- The longest delay, and how many retries there may be.
abbrev pub max_delay : Option RetryOptions → ℕ
max_delay none = 0
max_delay (some retry) = retry.max_delay_ms

abbrev pub max_retries : Option RetryOptions → ℕ
max_retries none = 0
max_retries (some retry) = retry.retries

abbrev pub is_retried : Option RetryOptions → Result CloudError Json → Bool
is_retried none r = false
is_retried (some retry) (ok payload) = false
is_retried (some retry) (throw e) = is_retryable retry e

-- What the last attempt gives the caller.
abbrev pub final : Result CloudError Json → Result (Option CloudError) Json
final (ok payload) = ok payload
final (throw e) = throw (some e)

get_retry_delay_ms-le :
    (jitter : ℕ → ℕ) (e : CloudError) (n : ℕ) (retry : Option RetryOptions)
    → get_retry_delay_ms jitter e n retry ≤ max_delay retry
unfolding get_retry_delay_ms
get_retry_delay_ms-le jitter e n none = omega arith
get_retry_delay_ms-le jitter e n (some retry) = ground arith

module _ (runtime : Runtime) (now : ℕ → ℕ) (jitter : ℕ → ℕ) (fetch : ℕ → Fetched)
    (retry : Option RetryOptions) where
  abbrev pub attempt : ℕ → Result CloudError Json
  attempt n = attempt_once runtime now jitter fetch retry n

  -- The `k` attempts from `n` on failed with errors that are retried.
  abbrev pub all_retried : ℕ → ℕ → Bool
  all_retried n zero = true
  all_retried n (suc k) = is_retried retry (attempt n) && all_retried (suc n) k

  -- The loop from attempt `n` on gives what attempt `m` gives, after one delay for each attempt
  -- before it: the first one that is not retried, or the last one.
  abbrev pub Ends : ℕ → ℕ → Result (Option CloudError) Json × List ℕ → Type 0
  Ends last n (outcome, delays) =
      (m : ℕ) × (m ≡ n + length delays)
      × (m ≤ last)
      × (all_retried n (length delays) ≡ true)
      × (outcome ≡ final (attempt m))
      × ((m ≡ last) ⊎ (is_retried retry (attempt m) ≡ false))
      × All (λ d. d ≤ max_delay retry) delays

  is_retried-ok : (payload : Json) → is_retried retry (ok payload) ≡ false
  is_retried-ok payload = ground arith

  should_retry-true :
      (e : CloudError) (n : ℕ)
      → should_retry e n (attempts_of retry) retry ≡ true
      → (is_retried retry (throw e) ≡ true) × (suc n + 1 ≤ attempts_of retry)
  unfolding should_retry
  should_retry-true e n y = ground arith

  should_retry-false :
      (e : CloudError) (n : ℕ)
      → should_retry e n (attempts_of retry) retry ≡ false
      → (attempts_of retry ≤ suc n) ⊎ (is_retried retry (throw e) ≡ false)
  unfolding should_retry
  should_retry-false e n y = ground arith

  attempts_of-max_retries : attempts_of retry ≡ suc (max_retries retry)
  attempts_of-max_retries = ground arith

  stops :
      (left n : ℕ) (r : Result CloudError Json)
      → attempt n ≡ r
      → n + suc left ≡ attempts_of retry
      → (attempts_of retry ≤ suc n) ⊎ (is_retried retry r ≡ false)
      → Ends (max_retries retry) n (final r, [])
  stops left n r got fits why = (
    n,
    omega arith,
    omega (arith, attempts_of-max_retries),
    refl,
    ap final (sym got),
    stop why,
    tt,
  )
    where
      stop :
          (attempts_of retry ≤ suc n) ⊎ (is_retried retry r ≡ false)
          → (n ≡ max_retries retry) ⊎ (is_retried retry (attempt n) ≡ false)
      stop (inl le) = inl (omega (arith, attempts_of-max_retries))
      stop (inr f) = inr (rw got f)

  goes_on :
      (n : ℕ) (e : CloudError) (rest : Result (Option CloudError) Json × List ℕ)
      → attempt n ≡ throw e
      → is_retried retry (throw e) ≡ true
      → Ends (max_retries retry) (suc n) rest
      → Ends (max_retries retry) n (rest.0, get_retry_delay_ms jitter e n retry ∷ rest.1)
  goes_on n e rest got again (m, at, le, all, same, last, short) = (
    m,
    omega arith,
    le,
    rw got (ground (arith, again, all)),
    same,
    last,
    (get_retry_delay_ms-le jitter e n retry, short),
  )

  round-Ends :
      (left n : ℕ) (r : Result CloudError Json)
      (rest : CloudError → Result (Option CloudError) Json × List ℕ)
      → attempt n ≡ r
      → n + suc left ≡ attempts_of retry
      → ((e : CloudError) → (left ≡ 0) ⊎ Ends (max_retries retry) (suc n) (rest e))
      → Ends (max_retries retry) n (round runtime now jitter fetch retry n r rest)
  round-Ends left n (ok payload) rest got fits later =
      stops left n (ok payload) got fits (inr (is_retried-ok payload))
  round-Ends left n (throw e) rest got fits later =
      elim (Bool-cases (should_retry e n (attempts_of retry) retry)) [
        | inr y ↦ let ends = stops left n (throw e) got fits (should_retry-false e n y) in rw y ends
        | inl y ↦
            let (again, room) = should_retry-true e n y in
            elim (later e) [
              | inl z ↦ absurd (omega arith)
              | inr ends ↦ rw y (goes_on n e (rest e) got again ends)
            ]
      ]

  request_loop-Ends :
      (left n : ℕ) (last_error : Option CloudError)
      → n + suc left ≡ attempts_of retry
      → Ends
          (max_retries retry)
          n
          (request_loop runtime now jitter fetch retry (suc left) n last_error)
  unfolding request_loop
  request_loop-Ends zero n last_error fits =
      round-Ends zero n (attempt n) (λ e. (throw (some e), [])) refl fits (λ e. inl refl)
  request_loop-Ends (suc left) n last_error fits =
      round-Ends (suc left) n (attempt n)
        (λ e. request_loop runtime now jitter fetch retry (suc left) (suc n) (some e)) refl fits
        (λ e. inr (request_loop-Ends left (suc n) (some e) (omega arith)))

  -- With an API key where one is needed, request sends at most one more request than the retries
  -- allow: it pauses once after each attempt that fails with an error that is retried, never for
  -- longer than the maximal delay, and its outcome is that of the first attempt that succeeds or
  -- fails otherwise, or of the last one allowed.
  pub request_lem :
      (needs_key has_key : Bool)
      → (needs_key && not has_key) ≡ false
      → Ends (max_retries retry) 0 (request runtime now jitter fetch retry needs_key has_key)
  unfolding request
  request_lem needs_key has_key keyed = ground (
    arith,
    keyed,
    request_loop-Ends (max_retries retry) 0 none (omega (arith, attempts_of-max_retries)),
  )
