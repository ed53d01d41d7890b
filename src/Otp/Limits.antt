-- ===== src/Otp/Limits.antt =====
-- How often a code can be tried (app/services/otp_service.py).
use backend_ayak_bine.Base.{
  ℕ, suc, ◌+◌, ◌≤◌, ◌<◌, ◌≡◌, refl, true, Option, none, some, List, [], ◌∷◌, arith,
}
use backend_ayak_bine.Otp.{
  Keys, Entry, get, otp_ttl_seconds, otp_max_attempts, OtpResult, sent, verified, rate_limited,
  delivery_failed, too_many_attempts, code_expired, wrong_code, generate_and_send_otp,
  attempts_made, verify_otp,
}

-- A code is accepted once: after it was accepted, no code is accepted at any time until the next one is sent.
pub verify_otp_once :
    (now later code code' : ℕ) (keys : Keys)
    → (verify_otp now code keys).0 ≡ verified
    → (verify_otp later code' (verify_otp now code keys).1).0 ≡ code_expired
unfolding verify_otp attempts_made get
verify_otp_once now later code code' keys h = ground (arith, h)

-- A code that was sent is accepted until it expires, if it is the first that is tried.
pub sent_code_verified :
    (now later code : ℕ) (keys : Keys)
    → (generate_and_send_otp now code true keys).0 ≡ sent
    → later < now + otp_ttl_seconds
    → (verify_otp later code (generate_and_send_otp now code true keys).1).0 ≡ verified
unfolding generate_and_send_otp verify_otp attempts_made get
sent_code_verified now later code keys h lt = ground (arith, h, lt)

-- A code that was sent is accepted until it expires, if it is the first that is tried, and after that no code
-- is accepted at any time until the next one is sent.
pub sent_code_single_use :
    (now tried later code other : ℕ) (keys : Keys)
    → (generate_and_send_otp now code true keys).0 ≡ sent
    → tried < now + otp_ttl_seconds
    → let with_code = (generate_and_send_otp now code true keys).1 in
      ((verify_otp tried code with_code).0 ≡ verified)
      × ((verify_otp later other (verify_otp tried code with_code).1).0 ≡ code_expired)
sent_code_single_use now tried later code other keys h lt =
    let accepted = sent_code_verified now tried code keys h lt in
    (
      accepted,
      verify_otp_once tried later code other (generate_and_send_otp now code true keys).1 accepted,
    )

-- Codes that are tried one after another, each at its second; the number of those that are examined and
-- found wrong.
abbrev count_wrong : OtpResult → ℕ → ℕ
count_wrong wrong_code n = suc n
count_wrong _ n = n

unfoldable pub wrong_tries : List (ℕ × ℕ) → Keys → ℕ
wrong_tries [] keys = 0
wrong_tries ((now, code) ∷ tries) keys =
    let rest = wrong_tries tries (verify_otp now code keys).1 in
    count_wrong (verify_otp now code keys).0 rest

-- The attempts that are counted, where the counter outlives the second `e`.
abbrev Counted : ℕ → ℕ → Option Entry → Type 0
Counted e n none = n ≡ 0
Counted e n (some a) = (a.value ≡ n) × (e ≤ a.expires)

-- The code that is stored expires at `e`, and `n` wrong codes have been tried.
abbrev AfterWrong : ℕ → ℕ → Option Entry → Option Entry → Type 0
AfterWrong e n none attempts = Unit
AfterWrong e n (some c) attempts = (c.expires ≡ e) × Counted e n attempts

abbrev Verified : ℕ → ℕ → OtpResult × Keys → Type 0
Verified e n (wrong_code, keys) =
    (n < otp_max_attempts) × AfterWrong e (suc n) keys.code keys.attempts
Verified e n (_, keys) = AfterWrong e n keys.code keys.attempts

verify_otp-Verified :
    (e n now code : ℕ) (c a : Option Entry) (keys : Keys)
    → keys.code ≡ c
    → keys.attempts ≡ a
    → e ≤ now + otp_ttl_seconds
    → AfterWrong e n keys.code keys.attempts
    → Verified e n (verify_otp now code keys)
unfolding verify_otp attempts_made get
verify_otp-Verified e n now code none a keys p q le h = ground arith
verify_otp-Verified e n now code (some c) none keys p q le h = ground arith
verify_otp-Verified e n now code (some c) (some a) keys p q le h = ground arith

-- Every try is at the second `sent` or later.
abbrev pub AllFrom : ℕ → List (ℕ × ℕ) → Type 0
AllFrom start [] = Unit
AllFrom start ((now, code) ∷ tries) = (start ≤ now) × AllFrom start tries

count_tried :
    (start n now code : ℕ) (tries : List (ℕ × ℕ)) (keys : Keys)
    → n ≤ otp_max_attempts
    → Verified (start + otp_ttl_seconds) n (verify_otp now code keys)
    → ((m : ℕ)
        → m ≤ otp_max_attempts
        → AllFrom start tries
        → AfterWrong
            (start + otp_ttl_seconds)
            m
            (verify_otp now code keys).1.code
            (verify_otp now code keys).1.attempts
        → wrong_tries tries (verify_otp now code keys).1 + m ≤ otp_max_attempts)
    → AllFrom start tries
    → wrong_tries ((now, code) ∷ tries) keys + n ≤ otp_max_attempts
unfolding wrong_tries
count_tried start n now code tries keys le v ih all = go (verify_otp now code keys) v ih
  where
    go :
        (r : OtpResult × Keys)
        → Verified (start + otp_ttl_seconds) n r
        → ((m : ℕ)
            → m ≤ otp_max_attempts
            → AllFrom start tries
            → AfterWrong (start + otp_ttl_seconds) m r.1.code r.1.attempts
            → wrong_tries tries r.1 + m ≤ otp_max_attempts)
        → count_wrong r.0 (wrong_tries tries r.1) + n ≤ otp_max_attempts
    go (wrong_code, keys') v ih = omega (arith, ih (suc n) v.0 all v.1)
    go (sent, keys') v ih = ih n le all v
    go (verified, keys') v ih = ih n le all v
    go (rate_limited, keys') v ih = ih n le all v
    go (delivery_failed, keys') v ih = ih n le all v
    go (too_many_attempts, keys') v ih = ih n le all v
    go (code_expired, keys') v ih = ih n le all v

wrong_tries_bound :
    (start n : ℕ) (tries : List (ℕ × ℕ)) (keys : Keys)
    → n ≤ otp_max_attempts
    → AllFrom start tries
    → AfterWrong (start + otp_ttl_seconds) n keys.code keys.attempts
    → wrong_tries tries keys + n ≤ otp_max_attempts
unfolding wrong_tries
wrong_tries_bound start n [] keys le all h = omega (arith, le)
wrong_tries_bound start n ((now, code) ∷ tries) keys le all h =
    count_tried start n now code tries keys le
      (verify_otp-Verified (start + otp_ttl_seconds) n now code keys.code keys.attempts keys refl
        refl (omega (arith, all.0)) h)
      (λ m. wrong_tries_bound start m tries (verify_otp now code keys).1) all.1

sent-AfterWrong :
    (start code : ℕ) (keys : Keys)
    → (generate_and_send_otp start code true keys).0 ≡ sent
    → let keys' = (generate_and_send_otp start code true keys).1 in
      AfterWrong (start + otp_ttl_seconds) 0 keys'.code keys'.attempts
unfolding generate_and_send_otp get
sent-AfterWrong start code keys h = ground (arith, h)

-- Of the codes that are tried after one was sent, at any seconds and before the next one is sent, at most
-- five are compared with it and found wrong: the counter of attempts outlives the code.
pub wrong_tries_limit :
    (start code : ℕ) (keys : Keys) (tries : List (ℕ × ℕ))
    → (generate_and_send_otp start code true keys).0 ≡ sent
    → AllFrom start tries
    → wrong_tries tries (generate_and_send_otp start code true keys).1 ≤ otp_max_attempts
wrong_tries_limit start code keys tries h all = omega (
  arith,
  wrong_tries_bound start 0 tries (generate_and_send_otp start code true keys).1 (omega arith) all
      (sent-AfterWrong start code keys h),
)
