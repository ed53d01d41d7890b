-- ===== src/Sms/Contract.antt =====
-- The contract of `SmsProvider.send` (app/services/sms/base.py): the message is sent, or SmsSendError is raised.
use backend_ayak_bine.Base.{
  ℕ, zero, suc, ◌≡◌, ◌<◌, ◌≤◌, refl, ap, Bool, true, false, arith, inl, inr, ◌⊎◌,
}
use backend_ayak_bine.Sms.{
  HttpReply, connect_error, read_timeout, write_timeout, other_error, replied, garbled, SendResult,
  sent, sms_send_error, network_error, uncaught, classify, retrying, as_send_error, twilio_step,
  twilio_send, TokenReply, failed, issued, bad_lifetime, no_token, Attempt, Cache, is_fresh,
  token_error, get_access_token, send_with_token, orange_step, orange_send, orange_attempt,
}

-- The providers' own network error does not leave `send`, nor does any exception but SmsSendError.
abbrev pub MeetsContract : SendResult → Type 0
MeetsContract r = (r ≡ sent) ⊎ (r ≡ sms_send_error)

-- Not an exception that the provider lets through.
abbrev is_caught : SendResult → Bool
is_caught sent = true
is_caught sms_send_error = true
is_caught network_error = true
is_caught uncaught = false

retrying_caught :
    {S : Type 0} (step : ℕ → S → SendResult × S) (left n : ℕ) (s : S)
    → ((i : ℕ) (x : S) → is_caught (step i x).0 ≡ true)
    → is_caught (retrying left step n s).0 ≡ true
unfolding retrying
retrying_caught step zero n s h = h n s
retrying_caught step (suc left) n s h =
    ground (arith, h n s, retrying_caught step left (suc n) (step n s).1 h)

caught-MeetsContract : (r : SendResult) → is_caught r ≡ true → MeetsContract (as_send_error r)
caught-MeetsContract sent h = inl refl
caught-MeetsContract sms_send_error h = inr refl
caught-MeetsContract network_error h = inr refl
caught-MeetsContract uncaught h = absurd (cc h)

-- The providers name the exception, and the content of a refusal (a status from 400 to 499) is readable.
abbrev pub Expected : HttpReply → Type 0
Expected connect_error = Unit
Expected read_timeout = Unit
Expected write_timeout = Unit
Expected other_error = ⊥
Expected (replied n) = Unit
Expected (garbled n) = (n < 400) ⊎ (500 ≤ n)

-- The same of the request for a token, where a write timeout is not named and a success has a token.
abbrev pub ExpectedToken : TokenReply → Type 0
ExpectedToken (failed connect_error) = Unit
ExpectedToken (failed read_timeout) = Unit
ExpectedToken (failed write_timeout) = ⊥
ExpectedToken (failed other_error) = ⊥
ExpectedToken (failed (replied n)) = Unit
ExpectedToken (failed (garbled n)) = ⊥
ExpectedToken (issued token expires_in) = Unit
ExpectedToken (bad_lifetime token) = ⊥
ExpectedToken no_token = ⊥

classify_caught : (r : HttpReply) → Expected r → is_caught (classify r) ≡ true
unfolding classify
classify_caught connect_error h = refl
classify_caught read_timeout h = refl
classify_caught write_timeout h = refl
classify_caught other_error h = absurd h
classify_caught (replied n) h = ground arith
classify_caught (garbled n) (inl h) = ground arith
classify_caught (garbled n) (inr h) = ground arith

-- The Twilio provider ends with a message sent or with SmsSendError, whatever its three requests get, but for
-- exceptions that it does not name and refusals whose content it cannot read.
pub twilio_send-MeetsContract :
    (http : ℕ → HttpReply) → ((i : ℕ) → Expected (http i)) → MeetsContract (twilio_send http)
unfolding twilio_send
twilio_send-MeetsContract http h =
    caught-MeetsContract (retrying 2 (twilio_step http) 0 tt).0
      (retrying_caught (twilio_step http) 2 0 tt (λ i x. classify_caught (http i) (h i)))

orange_attempt_caught :
    (a : Attempt) (t : TokenReply) (cache : Cache)
    → a.token_reply ≡ t
    → ExpectedToken t
    → Expected a.send_reply
    → is_caught (orange_attempt a cache).0 ≡ true
unfolding orange_attempt get_access_token token_error send_with_token
orange_attempt_caught a (failed connect_error) cache e h k =
    ground (arith, e, classify_caught a.send_reply k)
orange_attempt_caught a (failed read_timeout) cache e h k =
    ground (arith, e, classify_caught a.send_reply k)
orange_attempt_caught a (failed write_timeout) cache e h k = absurd h
orange_attempt_caught a (failed other_error) cache e h k = absurd h
orange_attempt_caught a (failed (replied n)) cache e h k =
    ground (arith, e, classify_caught a.send_reply k)
orange_attempt_caught a (failed (garbled n)) cache e h k = absurd h
orange_attempt_caught a (issued token expires_in) cache e h k =
    ground (arith, e, classify_caught a.send_reply k)
orange_attempt_caught a (bad_lifetime token) cache e h k = absurd h
orange_attempt_caught a no_token cache e h k = absurd h

-- The Orange provider ends with a message sent or with SmsSendError, whatever token it holds, if no request
-- ends in an exception that the provider does not name, and the content of each refusal is readable; a
-- request for a token must not end in a write timeout either, its content is readable, and a success has a
-- token with a lifetime that is missing or an integer.
pub orange_send-MeetsContract :
    (attempts : ℕ → Attempt) (cache : Cache)
    → ((i : ℕ) → ExpectedToken (attempts i).token_reply)
    → ((i : ℕ) → Expected (attempts i).send_reply)
    → MeetsContract (orange_send attempts cache).0
unfolding orange_send
orange_send-MeetsContract attempts cache h k =
    caught-MeetsContract (retrying 2 (orange_step attempts) 0 cache).0 (
      retrying_caught (orange_step attempts) 2 0 cache
        (λ i x. orange_attempt_caught (attempts i) (attempts i).token_reply x refl (h i) (k i)))

-- With a fresh token an attempt sends, and a network error keeps the token.
fresh_attempt :
    (a : Attempt) (cache : Cache)
    → is_fresh a.now cache ≡ true
    → ((orange_attempt a cache).0 ≡ classify a.send_reply)
      × (classify a.send_reply ≡ network_error → (orange_attempt a cache).1 ≡ cache)
unfolding orange_attempt get_access_token send_with_token classify
fresh_attempt a cache h = (ground (arith, h), λ e. keeps a.send_reply refl e)
  where
    keeps :
        (r : HttpReply)
        → a.send_reply ≡ r
        → classify r ≡ network_error
        → (orange_attempt a cache).1 ≡ cache
    keeps connect_error q e = ground (arith, h, q)
    keeps read_timeout q e = ground (arith, h, q)
    keeps write_timeout q e = ground (arith, h, q)
    keeps other_error q e = absurd (cc e)
    keeps (replied n) q e = ground (arith, h, q, e)
    keeps (garbled n) q e = ground (arith, h, q, e)

retrying-same :
    (attempts : ℕ → Attempt) (left n : ℕ) (cache : Cache) (k : SendResult)
    → classify (attempts n).send_reply ≡ k
    → (orange_attempt (attempts n) cache).0 ≡ k
    → (k ≡ network_error → (orange_attempt (attempts n) cache).1 ≡ cache)
    → (retrying left (orange_step attempts) (suc n) cache).0
      ≡ (retrying left (twilio_step (λ i. (attempts i).send_reply)) (suc n) tt).0
    → (retrying (suc left) (orange_step attempts) n cache).0
      ≡ (retrying (suc left) (twilio_step (λ i. (attempts i).send_reply)) n tt).0
unfolding retrying
retrying-same attempts left n cache sent p q r ih = rw (q, retrying) (rw (p, retrying) refl)
retrying-same attempts left n cache sms_send_error p q r ih =
    rw (q, retrying) (rw (p, retrying) refl)
retrying-same attempts left n cache uncaught p q r ih = rw (q, retrying) (rw (p, retrying) refl)
retrying-same attempts left n cache network_error p q r ih =
    rw (q, retrying) (rw (p, retrying) (rw (r refl) ih))

retrying-fresh :
    (attempts : ℕ → Attempt) (left n : ℕ) (cache : Cache)
    → ((i : ℕ) → is_fresh (attempts i).now cache ≡ true)
    → (retrying left (orange_step attempts) n cache).0
      ≡ (retrying left (twilio_step (λ i. (attempts i).send_reply)) n tt).0
unfolding retrying
retrying-fresh attempts zero n cache h = (fresh_attempt (attempts n) cache (h n)).0
retrying-fresh attempts (suc left) n cache h =
    let step = fresh_attempt (attempts n) cache (h n) in
    retrying-same attempts left n cache (classify (attempts n).send_reply) refl step.0 step.1
      (retrying-fresh attempts left (suc n) cache h)

-- While the Orange provider holds a token that is fresh at each attempt, it ends as the Twilio provider does
-- on the same answers.
pub orange_send-eq-twilio :
    (attempts : ℕ → Attempt) (cache : Cache)
    → ((i : ℕ) → is_fresh (attempts i).now cache ≡ true)
    → (orange_send attempts cache).0 ≡ twilio_send (λ i. (attempts i).send_reply)
unfolding orange_send twilio_send
orange_send-eq-twilio attempts cache h = ap as_send_error (retrying-fresh attempts 2 0 cache h)
