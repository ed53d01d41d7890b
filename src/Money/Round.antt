-- ===== src/Money/Round.antt =====
-- Rounding to the nearest: its error, its monotonicity, and where it is exact.
use native.Mathlib.Nat.{pow-suc, pow-zero, add_comm}
use Prim.Native.Nat.add
use backend_ayak_bine.Base.{ℕ, zero, suc, ◌+◌, ◌-◌, ◌*◌, ◌^◌, ◌≤◌, ◌<◌, ◌≡◌, arith, false}
use backend_ayak_bine.Money.Defs.{
  Decimal, scale, round_half_up, to_cents, sub_to_cents, add_to_cents, exceeds_cents, times,
}

pow_pos : (e : ℕ) → 0 < 10 ^ e
pow_pos zero = omega arith
pow_pos (suc e) = rw pow-suc (grind (arith, pow_pos e))

pub scale_pos : (x : Decimal) → 0 < scale x
unfolding scale
scale_pos x = pow_pos x.exponent

pow-add : (d e : ℕ) → 10 ^ (d + e) ≡ 10 ^ d * 10 ^ e
pow-add zero e = simp (add.zero, pow-zero) (omega arith)
pow-add (suc d) e = simp (add.suc, pow-suc) (grind (arith, pow-add d e))

pub scale-times : (x y : Decimal) → scale (times x y) ≡ scale x * scale y
unfolding scale times
scale-times x y = pow-add x.exponent y.exponent

-- The rounded value is at most half a unit above the quotient.
pub round_half_up_lower : (n d : ℕ) → 0 < d → 2 * (round_half_up n d * d) ≤ 2 * n + d
unfolding round_half_up
round_half_up_lower n d h = grind arith

pub round_half_up_upper : (n d : ℕ) → 0 < d → 2 * n + d < 2 * (round_half_up n d * d) + 2 * d
unfolding round_half_up
round_half_up_upper n d h = grind arith

-- It is the only such value.
pub round_half_up_unique :
    (n d r : ℕ)
    → 0 < d
    → 2 * (r * d) ≤ 2 * n + d
    → 2 * n + d < 2 * (r * d) + 2 * d
    → round_half_up n d ≡ r
round_half_up_unique n d r h lo hi =
    grind (arith, round_half_up_lower n d h, round_half_up_upper n d h)

pub round_half_up_add_mul :
    (n k d : ℕ) → 0 < d → round_half_up (n + k * d) d ≡ round_half_up n d + k
round_half_up_add_mul n k d h =
    round_half_up_unique (n + k * d) d (round_half_up n d + k) h
      (omega (arith, round_half_up_lower n d h)) (omega (arith, round_half_up_upper n d h))

pub round_half_up_mul : (k d : ℕ) → 0 < d → round_half_up (k * d) d ≡ k
round_half_up_mul k d h = round_half_up_unique (k * d) d k h (omega arith) (omega arith)

pub round_half_up_mono : (n m d : ℕ) → 0 < d → n ≤ m → round_half_up n d ≤ round_half_up m d
round_half_up_mono n m d h le = grind (arith, round_half_up_lower n d h, round_half_up_upper m d h)

-- A decimal with at most two digits after the point.
abbrev pub HasCents : Decimal → ℕ → Type 0
HasCents x c = x.coefficient * 100 ≡ c * scale x

pub to_cents_exact : (x : Decimal) (c : ℕ) → HasCents x c → to_cents x ≡ c
unfolding to_cents
to_cents_exact x c h = rw h (round_half_up_mul c (scale x) (scale_pos x))

pub add_to_cents_lem : (b : ℕ) (x : Decimal) → add_to_cents b x ≡ b + to_cents x
unfolding add_to_cents to_cents
add_to_cents_lem b x =
    rw (add_comm (b * scale x))
      (rw (round_half_up_add_mul (x.coefficient * 100) b (scale x) (scale_pos x)) (omega arith))

le_of_scaled : (b c s : ℕ) → c * s ≤ b * s → 0 < s → c ≤ b
le_of_scaled b c s h p = grind arith

mul_sub_distrib : (b c s : ℕ) → c ≤ b → b * s - c * s ≡ (b - c) * s
mul_sub_distrib b c s h = grind arith

pub sub_to_cents_exact :
    (b : ℕ) (x : Decimal) (c : ℕ)
    → HasCents x c
    → exceeds_cents b x ≡ false
    → (c ≤ b) × (sub_to_cents b x ≡ b - c)
unfolding sub_to_cents exceeds_cents
sub_to_cents_exact b x c h e =
    let le = le_of_scaled b c (scale x) (ground (arith, h)) (scale_pos x) in
    (
      le,
      rw (h, mul_sub_distrib b c (scale x) le) (round_half_up_mul (b - c) (scale x) (scale_pos x)),
    )
