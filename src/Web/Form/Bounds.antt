-- ===== src/Web/Form/Bounds.antt =====
-- The deposit in stroops (apps/web/components/booking-form.tsx) is at most what the contract takes,
-- whatever the rounding.
use po_vdeposit.Common.{
  ℕ, zero, suc, ◌+◌, ◌-◌, ◌*◌, ◌/◌, ◌%◌, ◌^◌, ◌≤◌, ◌<◌, ◌≡◌, refl, ap, ◌∙◌, ◌⊎◌, inl, inr, true,
  ltb, leb, arith, Bool-cases,
}
use native.Mathlib.Nat.{
  pow-suc, pow-le-pow_right, div-le_of_le-mul, div-add-mod', mul-le-mul_right, div-lt_iff_lt-mul,
}
use po_vdeposit.Escrow.Defs.{max_deposit}
use po_vdeposit.Web.Form.{Double}
use po_vdeposit.Web.Form.Deposit.{
  excess, round_even, times_ten_million, math_round, stroops, most_excess, is_deposit,
}

pub zero_le : (n : ℕ) → 0 ≤ n
zero_le n = omega arith

-- The rounding drops bits only of a number that has more than 53.
pub excess-large : (fuel n : ℕ) → (excess fuel n ≡ 0) ⊎ (2 ^ 52 * 2 ^ excess fuel n ≤ n)
unfolding excess
excess-large zero n = inl refl
excess-large (suc fuel) n = elim (Bool-cases (ltb n (2 ^ 53))) [
  | inl small ↦ inl (ground arith)
  | inr large ↦
      let more = excess fuel (n / 2) in
      let now : excess (suc fuel) n ≡ suc more = rw large refl in
      inr (
        rw now (elim (excess-large fuel (n / 2)) [
          | inl none ↦ rw none (ground arith)
          | inr h ↦ rw (pow-suc 2 more) (omega (arith, h))
        ]))
]

excess-fits : (fuel n : ℕ) → n < 2 ^ 53 * 2 ^ fuel → n < 2 ^ 53 * 2 ^ excess fuel n
unfolding excess
excess-fits zero n h = h
excess-fits (suc fuel) n h = elim (Bool-cases (ltb n (2 ^ 53))) [
  | inl small ↦
      let none : excess (suc fuel) n ≡ 0 = rw small refl in rw none (ground (arith, small))
  | inr large ↦
      let more = excess fuel (n / 2) in
      let now : excess (suc fuel) n ≡ suc more = rw large refl in
      let half : n / 2 < 2 ^ 53 * 2 ^ fuel = omega (arith, h, pow-suc 2 fuel) in
      rw now (omega (arith, pow-suc 2 more, excess-fits fuel (n / 2) half))
]

-- For every double, whose mantissa has at most 53 bits, the loop that counts the surplus bits of the
-- product ends with a scale on which the product has at most 53 bits.
excess-enough :
    (x : Double)
    → x.mantissa < 2 ^ 53
    → let n = x.mantissa * 10000000 in n / 2 ^ excess most_excess n < 2 ^ 53
excess-enough x h =
    let n = x.mantissa * 10000000 in
    let s = excess most_excess n in
    let fits : n < 2 ^ 53 * 2 ^ s = excess-fits most_excess n (omega (arith, h)) in
    (div-lt_iff_lt-mul (pow-le-pow_right {n = 2} (omega arith) (zero_le s))).1 fits

-- A bound that the scale divides is a bound of the rounded number.
round_even-le : (n shift bound : ℕ) → n ≤ bound * 2 ^ shift → round_even n shift ≤ bound
unfolding round_even
round_even-le n shift bound h =
    let e = 2 ^ shift in
    let q = n / e in
    let positive : 0 < e = pow-le-pow_right (omega arith) (zero_le shift) in
    let below : q ≤ bound = div-le_of_le-mul e (omega (arith, h)) in
    elim (Bool-cases (ltb q bound)) [
      | inl less ↦ ground (arith, less, below)
      | inr most ↦
          let all_of_it : q ≡ bound = ground (arith, most, below) in
          let left : n % e ≡ 0 = omega (arith, h, div-add-mod' n e, ap (λ x. x * e) all_of_it) in
          ground (arith, positive, left, all_of_it)
    ]

-- The contract's bound is a multiple of the scale, where there is one.
scale-divides : (m k s : ℕ) → m ≤ 100 * 2 ^ k → 2 ^ 52 * 2 ^ s ≤ m * 10000000 → s ≤ k
scale-divides m k s h large = elim (Bool-cases (leb s k)) [
  | inl fine ↦ ground (arith, fine)
  | inr over ↦
      let more : 2 ^ k ≤ 2 ^ s = pow-le-pow_right (omega arith) (ground (arith, over)) in
      let positive : 0 < 2 ^ s = pow-le-pow_right (omega arith) (zero_le s) in
      absurd (omega (arith, h, large, more, positive))
]

add_zero : (n : ℕ) → n + 0 ≡ n
add_zero n = omega arith

add_suc : (j s : ℕ) → j + suc s ≡ suc (j + s)
add_suc j s = omega arith

pow_split : (j s : ℕ) → 2 ^ (j + s) ≡ 2 ^ j * 2 ^ s
pow_split j zero = ap (λ i. 2 ^ i) (add_zero j) ∙ omega arith
pow_split j (suc s) =
    ap (λ i. 2 ^ i) (add_suc j s)
    ∙ pow-suc 2 (j + s)
    ∙ ap (λ x. x * 2) (pow_split j s)
    ∙ grind (arith, pow-suc 2 s)

times_ten_million-le :
    (x : Double)
    → x.mantissa ≤ 100 * 2 ^ x.halvings
    → (times_ten_million x).mantissa ≤ 1000000000 * 2 ^ (times_ten_million x).halvings
unfolding times_ten_million
times_ten_million-le x h =
    let n = x.mantissa * 10000000 in
    let k = x.halvings in
    let s = excess most_excess n in
    elim (excess-large most_excess n) [
      | inl none ↦
          let r : round_even n 0 ≤ 1000000000 * 2 ^ k =
            round_even-le n 0 (1000000000 * 2 ^ k) (omega (arith, h)) in
          rw none (omega (arith, r))
      | inr large ↦
          let fits : s ≤ k = scale-divides x.mantissa k s h large in
          let split : 2 ^ k ≡ 2 ^ (k - s) * 2 ^ s =
            ap (λ i. 2 ^ i) (omega (arith, fits)) ∙ pow_split (k - s) s in
          let r : round_even n s ≤ 1000000000 * 2 ^ (k - s) =
            round_even-le n s (1000000000 * 2 ^ (k - s)) (grind (arith, h, split)) in
          let scaled : round_even n s * 2 ^ s ≤ 1000000000 * 2 ^ (k - s) * 2 ^ s =
            mul-le-mul_right (2 ^ s) r in
          grind (arith, scaled, split)
    ]

math_round-le : (y : Double) (n : ℕ) → y.mantissa ≤ n * 2 ^ y.halvings → math_round y ≤ n
unfolding math_round
math_round-le y n h =
    let e = 2 ^ y.halvings in
    let positive : 0 < 2 * e =
      omega (arith, pow-le-pow_right {n = 2} (omega arith) (zero_le y.halvings)) in
    let below : 2 * y.mantissa + e < (n + 1) * (2 * e) = grind (arith, h, positive) in
    omega (arith, (div-lt_iff_lt-mul positive).1 below)

-- A deposit that the form accepts, of at most 100 XLM, is at most 1,000,000,000 stroops, the most
-- that the contract takes, whichever way the product of the doubles is rounded.
pub stroops-le : (x : Double) → is_deposit x ≡ true → stroops x ≤ max_deposit
unfolding stroops
stroops-le x h =
    math_round-le (times_ten_million x) max_deposit (times_ten_million-le x (ground (arith, h)))
