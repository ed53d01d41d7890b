-- ===== src/Sms.antt =====
-- The SMS providers: app/services/sms. What httpx gets for each request is a parameter.
pub mod Contract
use backend_ayak_bine.Base.{
  ℕ, zero, suc, ◌+◌, Bool, true, false, Option, none, some, Text, codes, text_eq, lower, is_empty,
  ltb, leb, ◌==◌, ◌&&◌, not, if◌then◌else◌,
}

-- `self._client.post(…)`: the exceptions that the providers name, another one, or a response with its status
-- code, whose content is empty or JSON, or `garbled`.
pub data HttpReply : Type 0 where
  connect_error read_timeout write_timeout other_error : HttpReply
  replied garbled : ℕ → HttpReply

-- What an attempt to send ends with: success, SmsSendError, the provider's own network error, or an
-- exception that the provider does not catch.
pub data SendResult : Type 0 where
  sent sms_send_error network_error uncaught : SendResult

-- The end of both functions `_send_with_retry`.
unfoldable pub classify : HttpReply → SendResult
classify connect_error = network_error
classify read_timeout = network_error
classify write_timeout = network_error
classify other_error = uncaught
classify (replied status_code) =
    if leb 500 status_code
    then network_error
    else if leb 400 status_code
    then sms_send_error
    else sent
classify (garbled status_code) =
    if leb 500 status_code then network_error else if leb 400 status_code then uncaught else sent

-- The decorator `retry` with `stop_after_attempt(3)`: a network error is tried again while attempts are left.
unfoldable pub retrying {ℓ} : {S : Type ℓ} → ℕ → (ℕ → S → SendResult × S) → ℕ → S → SendResult × S
retrying zero step n s = step n s
retrying (suc left) step n s =
    let rest = retrying left step (suc n) (step n s).1 in
    elim (step n s).0 [
      | network_error ↦ rest
      | sent ↦ (sent, (step n s).1)
      | sms_send_error ↦ (sms_send_error, (step n s).1)
      | uncaught ↦ (uncaught, (step n s).1)
    ]

-- `except _TwilioNetworkError` and `except _OrangeNetworkError`
abbrev pub as_send_error : SendResult → SendResult
as_send_error network_error = sms_send_error
as_send_error sent = sent
as_send_error sms_send_error = sms_send_error
as_send_error uncaught = uncaught

abbrev pub twilio_step : (ℕ → HttpReply) → ℕ → Unit {0} → SendResult × Unit {0}
twilio_step http n u = (classify (http n), u)

-- `TwilioSmsProvider.send`
unfoldable pub twilio_send : (ℕ → HttpReply) → SendResult
twilio_send http = as_send_error (retrying 2 (twilio_step http) 0 tt).0

-- The answer of Orange's OAuth server: a failure, a token with its `expires_in` if that is there, a token with
-- an `expires_in` that is no integer, or a success with no token in it.
pub data TokenReply : Type 0 where
  failed : HttpReply → TokenReply
  issued : ℕ → Option ℕ → TokenReply
  bad_lifetime : ℕ → TokenReply
  no_token : TokenReply

-- One attempt of OrangeSmsProvider: the clock before and after a token is asked for, and the two answers.
pub record Attempt : Type 0 where
  pub now : ℕ
  pub later : ℕ
  pub token_reply : TokenReply
  pub send_reply : HttpReply

-- `_access_token`, and `_token_expires_at` with the safety margin added to it.
pub record Cache : Type 0 where
  pub access_token : Option ℕ
  pub expires : ℕ

-- `_TOKEN_SAFETY_MARGIN_SECONDS`
abbrev pub token_safety_margin_seconds : ℕ
token_safety_margin_seconds = 30

abbrev expires_in_or_default : Option ℕ → ℕ
expires_in_or_default none = 3600
expires_in_or_default (some n) = n

-- `self._access_token and time.monotonic() < self._token_expires_at`
unfoldable pub is_fresh : ℕ → Cache → Bool
is_fresh now cache = elim cache.access_token [
  | none ↦ false
  | some t ↦ ltb (now + token_safety_margin_seconds) cache.expires
]

-- What asking for a token raises; a status below 400 comes with a token.
unfoldable pub token_error : HttpReply → SendResult
token_error connect_error = network_error
token_error read_timeout = network_error
token_error write_timeout = uncaught
token_error other_error = uncaught
token_error (replied status_code) = sms_send_error
token_error (garbled status_code) = uncaught

-- `_get_access_token`: none is a token that the cache now holds.
unfoldable pub get_access_token : Attempt → Cache → Option SendResult × Cache
get_access_token a cache = if is_fresh a.now cache then (none, cache) else elim a.token_reply [
  | failed r ↦ (some (token_error r), cache)
  | no_token ↦ (some uncaught, cache)
  | bad_lifetime token ↦ (some uncaught, record cache { access_token = some token })
  | issued token expires_in ↦ (
    none,
    record { access_token = some token; expires = a.later + expires_in_or_default expires_in },
  )
]

abbrev is_unauthorized : HttpReply → Bool
is_unauthorized (replied n) = n == 401
is_unauthorized connect_error = false
is_unauthorized read_timeout = false
is_unauthorized write_timeout = false
is_unauthorized other_error = false
is_unauthorized (garbled n) = false

-- The request with the token; a 401 whose content is readable forgets it.
unfoldable pub send_with_token : Attempt → Cache → SendResult × Cache
send_with_token a cache = (
  classify a.send_reply,
  if is_unauthorized a.send_reply then record cache { access_token = none } else cache,
)

-- `OrangeSmsProvider._send_with_retry`, once.
unfoldable pub orange_attempt : Attempt → Cache → SendResult × Cache
orange_attempt a cache = elim (get_access_token a cache).0 [
  | some e ↦ (e, (get_access_token a cache).1)
  | none ↦ send_with_token a (get_access_token a cache).1
]

abbrev pub orange_step : (ℕ → Attempt) → ℕ → Cache → SendResult × Cache
orange_step attempts n cache = orange_attempt (attempts n) cache

-- `OrangeSmsProvider.send`
unfoldable pub orange_send : (ℕ → Attempt) → Cache → SendResult × Cache
orange_send attempts cache =
    let r = retrying 2 (orange_step attempts) 0 cache in (as_send_error r.0, r.1)

pub data Provider : Type 0 where
  console twilio orange : Provider

-- `get_sms_provider` on the first call: none is a RuntimeError.
unfoldable pub get_sms_provider : Text → Bool → Bool → Option Provider
get_sms_provider sms_provider twilio_configured orange_configured =
    if text_eq (lower sms_provider) (codes "twilio")
    then if twilio_configured then some twilio else none
    else if text_eq (lower sms_provider) (codes "orange")
    then if orange_configured then some orange else none
    else if text_eq (lower sms_provider) (codes "console")
    then some console
    else none
