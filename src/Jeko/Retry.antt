-- ===== src/Jeko/Retry.antt =====
-- The attempts of `JekoClient._request` (app/services/jeko_client.py).
use backend_ayak_bine.Base.{
  ℕ, zero, suc, ◌+◌, ◌≤◌, ◌<◌, ◌≡◌, refl, sym, Bool, true, false, arith, inl, inr, ◌⊎◌, ◌∙◌,
}
use mathlib.Core.Path.{subst}
use backend_ayak_bine.Jeko.Client.{
  HttpOutcome, JekoResult, received, api_error, network_error, uncaught, attempt, max_attempts,
  retrying, request,
}

abbrev pub is_network_error : JekoResult → Bool
is_network_error network_error = true
is_network_error (received d) = false
is_network_error (api_error s d) = false
is_network_error uncaught = false

retrying-now :
    (left : ℕ) (http : ℕ → HttpOutcome) (n : ℕ)
    → (is_network_error (attempt (http n)) ≡ false) ⊎ (0 ≡ left)
    → retrying left http n ≡ (attempt (http n), suc n)
unfolding retrying
retrying-now zero http n h = refl
retrying-now (suc left) http n (inl h) = ground (arith, h)
retrying-now (suc left) http n (inr h) = absurd (omega arith)

retrying-later :
    (left : ℕ) (http : ℕ → HttpOutcome) (n : ℕ)
    → is_network_error (attempt (http n)) ≡ true
    → retrying (suc left) http n ≡ retrying left http (suc n)
unfolding retrying
retrying-later left http n h = ground (arith, h)

-- The attempts from `n` to `m` fail with a network error, and `m` does not or is the last one.
retrying_lem :
    (k left : ℕ) (http : ℕ → HttpOutcome) (n m : ℕ)
    → m ≡ n + k
    → k ≤ left
    → ((i : ℕ) → n ≤ i → i < m → is_network_error (attempt (http i)) ≡ true)
    → (is_network_error (attempt (http m)) ≡ false) ⊎ (k ≡ left)
    → retrying left http n ≡ (attempt (http m), suc m)
retrying_lem zero left http n m e le before last =
    let same : n ≡ m = omega (arith, e) in
    subst (λ i. retrying left http i ≡ (attempt (http m), suc m)) (sym same)
      (retrying-now left http m last)
retrying_lem (suc k) zero http n m e le before last = absurd (omega arith)
retrying_lem (suc k) (suc left) http n m e le before last =
    retrying-later left http n (before n (omega arith) (omega (arith, e)))
    ∙ retrying_lem k left http (suc n) m (omega (arith, e)) (omega (arith, le))
        (λ i lo hi. before i (omega (arith, lo)) hi)
        (elim last [ inl a ↦ inl a | inr b ↦ inr (omega (arith, b)) ])

-- A call to JEKO answers what its first attempt without a network error got, and after three network
-- errors it raises the last: for attempt number `k` of 0, 1 and 2, if all attempts before it are network
-- errors and it is none or is number 2, its answer is the call's, after `k + 1` attempts.
pub request_first :
    (http : ℕ → HttpOutcome) (k : ℕ)
    → k < max_attempts
    → ((i : ℕ) → i < k → is_network_error (attempt (http i)) ≡ true)
    → (is_network_error (attempt (http k)) ≡ false) ⊎ (suc k ≡ max_attempts)
    → request http ≡ (attempt (http k), suc k)
unfolding request
request_first http k lt before last =
    retrying_lem k 2 http 0 k (omega arith) (omega (arith, lt)) (λ i lo hi. before i hi)
      (elim last [ inl a ↦ inl a | inr b ↦ inr (omega (arith, b)) ])

-- The call ends with its attempt number `k`.
pub record Ends (http : ℕ → HttpOutcome) (k : ℕ) : Type 0 where
  pub bounded : k < max_attempts
  pub answered : request http ≡ (attempt (http k), suc k)
  pub retried : (i : ℕ) → i < k → is_network_error (attempt (http i)) ≡ true
  pub last : (is_network_error (attempt (http k)) ≡ false) ⊎ (suc k ≡ max_attempts)
