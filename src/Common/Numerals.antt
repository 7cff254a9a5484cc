-- ===== src/Common/Numerals.antt =====
-- Numbers as text: `BigInt("0x…")` on hexadecimal digits, and the decimal digits of `toString`.
use po_vdeposit.Common.Tests.{leb, ltb, if◌then◌else◌, Bool-cases}
use po_vdeposit.Common.Lists.{length, all}
use po_vdeposit.Common.Texts.{Text, is_hex}
use Prim.Native.Nat.{ℕ, zero, suc, ◌+◌, ◌-◌, ◌*◌, ◌/◌, ◌%◌, ◌^◌, ◌≤◌, ◌<◌}
use native.Mathlib.Nat.{pow-suc, pow-le-pow_right}
use mathlib.Core.Logic.{inl, inr}
use mathlib.Core.Path.{◌≡◌, ap, sym, ◌∙◌}
use mathlib.Core.Bool.{true, and-eq-true_iff}
use mathlib.Core.List.{[], ◌∷◌}
use native.Mathlib.Omega.{arith}

abbrev pub hex_digit : ℕ → ℕ
hex_digit c = if leb b'a' c then c - 87 else if leb b'A' c then c - 55 else c - 48

-- The value of hexadecimal digits, read after the value `acc`.
pub hex_from : ℕ → Text → ℕ
hex_from acc [] = acc
hex_from acc (c ∷ s) = hex_from (acc * 16 + hex_digit c) s

unfoldable pub hex_value : Text → ℕ
unfolding hex_from
hex_value s = hex_from 0 s

-- The decimal digits of `n` in front of `rest`, by as many divisions as the fuel allows.
pub decimal_onto : ℕ → ℕ → Text → Text
decimal_onto zero n rest = rest
decimal_onto (suc fuel) n rest =
    let onto = (48 + n % 10) ∷ rest in
    let more = decimal_onto fuel (n / 10) onto in if ltb n 10 then onto else more

-- `n.toString()`: `n + 1` rounds are enough.
unfoldable pub decimal : ℕ → Text
unfolding decimal_onto
decimal n = decimal_onto (suc n) n []

-- The value of decimal digits, read after the value `acc`.
unfoldable pub value_from : ℕ → Text → ℕ
value_from acc [] = acc
value_from acc (c ∷ s) = value_from (acc * 10 + (c - 48)) s

-- Reading the digits of `n` back gives `n`, whatever follows.
value_from-decimal_onto :
    (fuel n : ℕ) (rest : Text)
    → n < fuel
    → value_from 0 (decimal_onto fuel n rest) ≡ value_from n rest
unfolding decimal_onto value_from
value_from-decimal_onto zero n rest h = elim h [ ]
value_from-decimal_onto (suc fuel) n rest h = elim (Bool-cases (ltb n 10)) [
  | inl small ↦ rw small (ap (λ x. value_from x rest) (ground arith))
  | inr large ↦
      let onto = (48 + n % 10) ∷ rest in
      rw large (
        value_from-decimal_onto fuel (n / 10) onto (ground arith)
        ∙ ap (λ x. value_from x rest) (omega arith))
]

pub value-decimal : (n : ℕ) → value_from 0 (decimal n) ≡ n
unfolding decimal value_from
value-decimal n = value_from-decimal_onto (suc n) n [] (omega arith)

-- Different numbers have different digits.
pub decimal_injective : (m n : ℕ) → decimal m ≡ decimal n → m ≡ n
decimal_injective m n e = sym (value-decimal m) ∙ ap (value_from 0) e ∙ value-decimal n

hex_digit-lt : (c : ℕ) → is_hex c ≡ true → hex_digit c < 16
hex_digit-lt c h = ground arith

hex_from-lt :
    (acc : ℕ) (s : Text) → all is_hex s ≡ true → hex_from acc s < (acc + 1) * 16 ^ length s
unfolding hex_from
hex_from-lt acc [] h = omega arith
hex_from-lt acc (c ∷ s) h =
    let (digit, rest) = (and-eq-true_iff _ _).0 h in
    let d : hex_digit c < 16 = hex_digit-lt c digit in
    let ih : hex_from (acc * 16 + hex_digit c) s < (acc * 16 + hex_digit c + 1) * 16 ^ length s =
      hex_from-lt (acc * 16 + hex_digit c) s rest in
    let scaled : (acc * 16 + hex_digit c + 1) * 16 ^ length s ≤ (acc + 1) * 16 * 16 ^ length s =
      grind arith in
    rw (pow-suc 16 (length s)) (omega arith)

-- `k` hexadecimal digits stand for a number below `16 ^ k`.
pub hex_value-lt : (s : Text) → all is_hex s ≡ true → hex_value s < 16 ^ length s
unfolding hex_value
hex_value-lt s h = omega (arith, hex_from-lt 0 s h)

-- At most 16 of them stand for an unsigned number of 64 bits.
pub hex_value-u64 : (s : Text) → all is_hex s ≡ true → length s ≤ 16 → hex_value s < 2 ^ 64
hex_value-u64 s h short =
    let grows : 16 ^ length s ≤ 16 ^ 16 = pow-le-pow_right (omega arith) short in
    omega (arith, hex_value-lt s h)
