-- ===== src/Web/Form/Deposit.antt =====
-- The deposit of apps/web/components/booking-form.tsx in stroops,
-- `String(Math.round(fields.depositXlm * 10_000_000))`, on doubles: the product is rounded to 53
-- bits, half to even, and the sum in `Math.round` is exact.
use po_vdeposit.Common.{ℕ, zero, suc, ◌+◌, ◌*◌, ◌/◌, ◌%◌, ◌^◌, Bool, ◌&&◌, leb, ltb, if◌then◌else◌}
use po_vdeposit.Web.Form.{Double}

-- How many bits `n` has above 53.
unfoldable pub excess : ℕ → ℕ → ℕ
excess zero n = 0
excess (suc fuel) n = let more = excess fuel (n / 2) in if ltb n (2 ^ 53) then 0 else suc more

-- `n / 2 ^ shift`, rounded to the nearest, half to even.
unfoldable pub round_even : ℕ → ℕ → ℕ
round_even n shift =
    let q = n / 2 ^ shift in
    let r = n % 2 ^ shift in
    if ltb (2 * r) (2 ^ shift) then q else if ltb (2 ^ shift) (2 * r) then q + 1 else q + q % 2

-- A factor of 10,000,000 adds fewer than 24 bits.
abbrev pub most_excess : ℕ
most_excess = 24

unfoldable pub times_ten_million : Double → Double
unfolding excess round_even
times_ten_million x =
    let n = x.mantissa * 10000000 in
    let shift = excess most_excess n in
    record { mantissa = round_even n shift * 2 ^ shift; halvings = x.halvings }

-- `Math.round`: the integer below the number and a half.
unfoldable pub math_round : Double → ℕ
math_round x = (2 * x.mantissa + 2 ^ x.halvings) / (2 * 2 ^ x.halvings)

unfoldable pub stroops : Double → ℕ
unfolding times_ten_million math_round
stroops x = math_round (times_ten_million x)

-- `z.number().positive().max(100)`.
abbrev pub is_deposit : Double → Bool
is_deposit x = ltb 0 x.mantissa && leb x.mantissa (100 * 2 ^ x.halvings)
