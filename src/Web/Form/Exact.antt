-- ===== src/Web/Form/Exact.antt =====
-- The deposit in stroops (apps/web/components/booking-form.tsx) is the number that was typed.
use po_vdeposit.Common.{
  ℕ, ◌+◌, ◌*◌, ◌/◌, ◌%◌, ◌^◌, ◌≤◌, ◌<◌, ◌≡◌, ◌⊎◌, inl, inr, ltb, arith, Bool-cases,
}
use native.Mathlib.Nat.{
  pow-le-pow_right, div-add-mod', mod-lt, mul-le-mul_right, div-lt_iff_lt-mul, le-div_iff_mul-le,
}
use po_vdeposit.Web.Form.{Double}
use po_vdeposit.Web.Form.Deposit.{
  excess, round_even, times_ten_million, math_round, stroops, most_excess,
}
use po_vdeposit.Web.Form.Bounds.{excess-large, zero_le}

bit : (q : ℕ) → (q % 2 ≡ 0) ⊎ (q % 2 ≡ 1)
bit q = elim (Bool-cases (ltb (q % 2) 1)) [
  | inl low ↦ inl (ground arith)
  | inr high ↦ inr (ground arith)
]

-- Twice the error of a rounding is at most the scale.
round_even-near :
    (n shift : ℕ)
    → (2 * (round_even n shift * 2 ^ shift) ≤ 2 * n + 2 ^ shift)
      × (2 * n ≤ 2 * (round_even n shift * 2 ^ shift) + 2 ^ shift)
unfolding round_even
round_even-near n shift =
    let e = 2 ^ shift in
    let q = n / e in
    let r = n % e in
    let whole : q * e + r ≡ n = div-add-mod' n e in
    let rest : r < e = mod-lt n (pow-le-pow_right {n = 2} (omega arith) (zero_le shift)) in
    elim (Bool-cases (ltb (2 * r) e)) [
      | inl low ↦
          let h : 2 * r < e = ground (arith, low) in
          rw low (omega (arith, whole, h), omega (arith, whole, h))
      | inr not_low ↦
          let h : e ≤ 2 * r = ground (arith, not_low) in
          let up : (q + 1) * e ≡ q * e + e = grind arith in
          elim (Bool-cases (ltb e (2 * r))) [
            | inl high ↦
                rw (not_low, high)
                  (omega (arith, whole, h, up, rest), omega (arith, whole, h, up, rest))
            | inr not_high ↦
                let even : 2 * r ≤ e = ground (arith, not_high) in
                let b : (q % 2 ≡ 0) ⊎ (q % 2 ≡ 1) = bit q in
                rw (not_low, not_high)
                  (elim b [
                    | inl z ↦ rw z (grind (arith, whole, h, even), grind (arith, whole, h, even))
                    | inr o ↦
                        rw o (omega (arith, whole, h, even, up), omega (arith, whole, h, even, up))
                  ])
          ]
    ]

-- The product is as near: a number that is rounded has a scale far below its denominator.
times_ten_million-near :
    (x : Double)
    → let n = x.mantissa * 10000000 in
      let k = 2 ^ x.halvings in
      n ≤ 1000000001 * k
      → (4 * (times_ten_million x).mantissa ≤ 4 * n + k)
        × (4 * n ≤ 4 * (times_ten_million x).mantissa + k)
unfolding times_ten_million
times_ten_million-near x h =
    let n = x.mantissa * 10000000 in
    let s = excess most_excess n in
    elim (excess-large most_excess n) [
      | inl none ↦
          let (above, below) = round_even-near n 0 in
          rw none (omega (arith, above, below), omega (arith, above, below))
      | inr large ↦
          let (above, below) = round_even-near n s in
          let small : 2 * 2 ^ s ≤ 2 ^ x.halvings = omega (arith, h, large) in
          (omega (arith, above, small), omega (arith, below, small))
    ]

math_round-near :
    (y : Double) (n : ℕ)
    → 4 * y.mantissa < 4 * (n * 2 ^ y.halvings) + 2 * 2 ^ y.halvings
    → 4 * (n * 2 ^ y.halvings) < 4 * y.mantissa + 2 * 2 ^ y.halvings
    → math_round y ≡ n
unfolding math_round
math_round-near y n above below =
    let e = 2 ^ y.halvings in
    let positive : 0 < 2 * e =
      omega (arith, pow-le-pow_right {n = 2} (omega arith) (zero_le y.halvings)) in
    let high : 2 * y.mantissa + e < (n + 1) * (2 * e) = grind (arith, above) in
    let low : n * (2 * e) ≤ 2 * y.mantissa + e = grind (arith, below) in
    omega (arith, (div-lt_iff_lt-mul positive).1 high, (le-div_iff_mul-le positive).1 low)

-- Where the double that stands for what was typed is within a quarter of a stroop of `n` stroops, for
-- `n` up to 1,000,000,000, the amount that is sent is `n` exactly: the rounding of the product never
-- moves it to a neighbour.
pub stroops-exact :
    (x : Double) (n : ℕ)
    → n ≤ 1000000000
    → 4 * (x.mantissa * 10000000) < 4 * (n * 2 ^ x.halvings) + 2 ^ x.halvings
    → 4 * (n * 2 ^ x.halvings) < 4 * (x.mantissa * 10000000) + 2 ^ x.halvings
    → stroops x ≡ n
unfolding stroops
stroops-exact x n most above below =
    let k = 2 ^ x.halvings in
    let bound : n * k ≤ 1000000000 * k = mul-le-mul_right k most in
    let (up, down) = times_ten_million-near x (omega (arith, bound, above)) in
    math_round-near (times_ten_million x) n (omega (arith, up, above)) (omega (arith, down, below))
