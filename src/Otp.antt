-- ===== src/Otp.antt =====
-- One-time passwords: app/services/otp_service.py. The three keys of one phone number in Redis, each with
-- the second at which it expires; no key is shared by two phone numbers.
pub mod Limits
use backend_ayak_bine.Base.{
  ℕ, suc, ◌+◌, Bool, true, false, not, Option, none, some, ltb, leb, ◌==◌, if◌then◌else◌,
}

abbrev pub otp_ttl_seconds : ℕ
otp_ttl_seconds = 300

abbrev pub otp_max_attempts : ℕ
otp_max_attempts = 5

abbrev pub resend_cooldown_seconds : ℕ
resend_cooldown_seconds = 60

-- A value and the second at which it expires; INCR on a missing key makes one that does not, until
-- EXPIRE.
pub record Entry : Type 0 where
  pub value : ℕ
  pub expires : ℕ

pub record Keys : Type 0 where
  pub code : Option Entry
  pub cooldown : Option Entry
  pub attempts : Option Entry

-- `redis.get`
unfoldable pub get : ℕ → Option Entry → Option ℕ
get now none = none
get now (some e) = if ltb now e.expires then some e.value else none

-- `redis.set(…, ex=ttl)`
abbrev pub set : ℕ → ℕ → ℕ → Option Entry
set now value ttl = some (record { value = value; expires = now + ttl })

pub data OtpResult : Type 0 where
  sent verified rate_limited delivery_failed : OtpResult
  too_many_attempts code_expired wrong_code : OtpResult

-- `random_code` is `random.randint(0, 999999)`, and `delivered` tells whether the provider's `send` returned.
unfoldable pub generate_and_send_otp : ℕ → ℕ → Bool → Keys → OtpResult × Keys
generate_and_send_otp now random_code delivered keys = elim (get now keys.cooldown) [
  | some v ↦ (rate_limited, keys)
  | none ↦ if not delivered then (delivery_failed, keys) else (
    sent,
    record {
      code = set now random_code otp_ttl_seconds;
      cooldown = set now 1 resend_cooldown_seconds;
      attempts = none;
    },
  )
]

-- `int(await redis.get(attempts_key) or 0)`
unfoldable pub attempts_made : ℕ → Keys → ℕ
attempts_made now keys = elim (get now keys.attempts) [ none ↦ 0 | some n ↦ n ]

unfoldable pub verify_otp : ℕ → ℕ → Keys → OtpResult × Keys
verify_otp now submitted_code keys =
    if leb otp_max_attempts (attempts_made now keys)
    then (too_many_attempts, keys)
    else elim (get now keys.code) [
      | none ↦ (code_expired, keys)
      | some stored_code ↦
          if not (stored_code == submitted_code)
          then (
            wrong_code,
            record keys { attempts = set now (suc (attempts_made now keys)) otp_ttl_seconds },
          )
          else (verified, record keys { code = none; attempts = none })
    ]
