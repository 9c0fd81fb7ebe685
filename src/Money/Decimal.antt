-- ===== src/Money/Decimal.antt =====
-- Python's `decimal.Decimal` in the default context of 28 significant digits: a sign, a
-- coefficient and a number of fractional digits. Signals of the context (an overflow, a
-- quantize beyond 28 digits) are not modelled.
pub mod Rounding
use papertrail.Base.{
  ℕ, zero, suc, ◌+◌, ◌-◌, ◌*◌, ◌/◌, ◌%◌, ◌^◌, Bool, true, false, not, ◌&&◌, ◌||◌, ltb, leb, ◌==◌,
  if◌then◌else◌, ℤ, pos, sub_ℕ,
}

pub record Decimal : Type 0 where
  pub negative : Bool
  pub coefficient : ℕ
  pub scale : ℕ

abbrev pub precision : ℕ
precision = 28

-- `Decimal(n)` and the literal `Decimal("0.<c>")` with `s` fractional digits.
abbrev pub of_ℕ : ℕ → Decimal
of_ℕ n = record { negative = false; coefficient = n; scale = 0 }

abbrev pub fraction : ℕ → ℕ → Decimal
fraction c s = record { negative = false; coefficient = c; scale = s }

digits_from : ℕ → ℕ → ℕ
digits_from zero n = 1
digits_from (suc fuel) n =
    let rest = suc (digits_from fuel (n / 10)) in if n / 10 == 0 then 1 else rest

-- The number of decimal digits; `n` halves too slowly to run out of `n` rounds.
unfoldable pub digits : ℕ → ℕ
unfolding digits_from
digits n = digits_from n n

-- `n / d` to the nearest integer. A tie goes to the even one, or away from zero.
unfoldable pub half_even : ℕ → ℕ → ℕ
half_even n d =
    if ltb d (2 * (n % d)) || (2 * (n % d) == d && (n / d) % 2 == 1) then n / d + 1 else n / d

unfoldable pub half_up : ℕ → ℕ → ℕ
half_up n d = (2 * n + d) / (2 * d)

-- `n / d` rounded up.
unfoldable pub ceiling : ℕ → ℕ → ℕ
ceiling n d = (n + (d - 1)) / d

-- The last `k` digits of the coefficient become zeros.
unfoldable pub round_off : ℕ → Decimal → Decimal
unfolding half_even
round_off k a = record a { coefficient = half_even a.coefficient (10 ^ k) * 10 ^ k }

-- A result is rounded to the precision of the context.
unfoldable pub fix : Decimal → Decimal
fix a = round_off (digits a.coefficient - precision) a

unfoldable pub is_zero : Decimal → Bool
is_zero a = a.coefficient == 0

-- `a <= 0`.
unfoldable pub is_nonpositive : Decimal → Bool
is_nonpositive a = a.negative || a.coefficient == 0

abbrev pub xor : Bool → Bool → Bool
xor true b = not b
xor false b = b

unfoldable pub multiply : Decimal → Decimal → Decimal
multiply a b = fix (record {
  negative = xor a.negative b.negative;
  coefficient = a.coefficient * b.coefficient;
  scale = a.scale + b.scale;
})

signed_sum : Bool → ℕ → Bool → ℕ → ℕ → Decimal
signed_sum true x true y s = record { negative = true; coefficient = x + y; scale = s }
signed_sum false x false y s = record { negative = false; coefficient = x + y; scale = s }
signed_sum true x false y s =
    if ltb y x
    then record { negative = true; coefficient = x - y; scale = s }
    else record { negative = false; coefficient = y - x; scale = s }
signed_sum false x true y s =
    if ltb x y
    then record { negative = true; coefficient = y - x; scale = s }
    else record { negative = false; coefficient = x - y; scale = s }

unfoldable pub add : Decimal → Decimal → Decimal
unfolding signed_sum
add a b =
    let s = if ltb a.scale b.scale then b.scale else a.scale in
    fix (
      signed_sum a.negative (a.coefficient * 10 ^ (s - a.scale)) b.negative
        (b.coefficient * 10 ^ (s - b.scale)) s)

-- The quotient's coefficient has at least 28 digits and a sticky last one.
sticky : ℕ → ℕ → ℕ
sticky n d = if not (n % d == 0) && (n / d) % 5 == 0 then n / d + 1 else n / d

-- `a / b` for a `b` that is not zero.
unfoldable pub divide : Decimal → Decimal → Decimal
unfolding sticky
divide a b =
    let wanted = digits b.coefficient + precision + 1 in
    let up = wanted - digits a.coefficient in
    let down = digits a.coefficient - wanted in
    let quotient = sticky (a.coefficient * 10 ^ up) (b.coefficient * 10 ^ down) in
    fix (record {
      negative = xor a.negative b.negative;
      coefficient = quotient * 10 ^ (b.scale + down - (a.scale + up));
      scale = a.scale + up - (b.scale + down);
    })

-- `a.quantize(Decimal("1"))` and `a.quantize(Decimal("0.0…"))` with `s` fractional digits.
quantize_with : (ℕ → ℕ → ℕ) → ℕ → Decimal → Decimal
quantize_with round s a =
    if leb a.scale s
    then record a { coefficient = a.coefficient * 10 ^ (s - a.scale); scale = s }
    else record a { coefficient = round a.coefficient (10 ^ (a.scale - s)); scale = s }

-- `rounding=ROUND_HALF_UP`.
unfoldable pub quantize_half_up : ℕ → Decimal → Decimal
unfolding quantize_with
quantize_half_up = quantize_with half_up

floor : ℕ → ℕ → ℕ
floor n d = n / d

-- `rounding=ROUND_CEILING`: the size of a negative amount is rounded down.
unfoldable pub quantize_ceiling : ℕ → Decimal → Decimal
unfolding quantize_with floor
quantize_ceiling s a = if a.negative then quantize_with floor s a else quantize_with ceiling s a

-- `int(a)`: the fraction is cut off.
unfoldable pub to_int : Decimal → ℤ
to_int a = let n = a.coefficient / 10 ^ a.scale in if a.negative then sub_ℕ 0 n else pos n
