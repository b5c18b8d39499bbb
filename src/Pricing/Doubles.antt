-- ===== src/Pricing/Doubles.antt =====
-- JavaScript's numbers as far as prices need them: the doubles from 0 on, with products and quotients
-- rounded as IEEE 754 has it (to the nearest double, and of two to the even one), and Math.round.
use Prim.Native.Nat.{◌^◌}
use ticketvault.Prelude.{ℕ, zero, suc, ◌+◌, ◌*◌, ◌/◌, ◌%◌, Bool, ltb, if◌then◌else◌}

-- The number `mantissa / 2 ^ shift`. Numbers above 2 ^ 53, which would need a negative shift, are far
-- above the prices of the column NUMERIC(10,2), and numbers below 2 ^ -12 are below a cent.
pub record Double : Type 0 where
  pub mantissa : ℕ
  pub shift : ℕ

-- The whole number nearest to `n / d`, and of two the even one.
unfoldable pub half_even : ℕ → ℕ → ℕ
half_even n d =
    let q = n / d in
    let r = n % d in if ltb (2 * r) d then q else if ltb d (2 * r) then q + 1 else q + q % 2

-- Doubles `n / d` until it has 53 binary digits, at most `fuel` times.
unfoldable pub scaled : (fuel n d shift : ℕ) → Double
unfolding half_even
scaled zero n d shift = record { mantissa = half_even n d; shift = shift }
scaled (suc fuel) n d shift = elim (ltb n (2 ^ 52 * d)) [
  | Bool.true ↦ scaled fuel (2 * n) d (shift + 1)
  | Bool.false ↦ record { mantissa = half_even n d; shift = shift }
]

-- The double nearest to `n / d`.
unfoldable pub nearest : (n d : ℕ) → Double
unfolding scaled
nearest n d = scaled 64 n d 0

unfoldable pub times : Double → Double → Double
unfolding nearest
times x y = nearest (x.mantissa * y.mantissa) (2 ^ (x.shift + y.shift))

-- `Math.round`: the whole number next to `x`, upwards from a half.
unfoldable pub math_round : Double → ℕ
math_round x = (2 * x.mantissa + 2 ^ x.shift) / (2 * 2 ^ x.shift)
