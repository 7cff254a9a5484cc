-- ===== src/Common/Times.antt =====
-- JavaScript's `Date` as its time value, in milliseconds: `none` is an Invalid Date. A text that
-- holds a date stands for the date that `new Date` reads from it. No instant before 1970 is used.
use Prim.Native.Nat.{ℕ}
use mathlib.Core.Bool.{Bool, false}
use mathlib.Core.Option.{Option, some}
use po_vdeposit.Common.Tests.{leb, ltb}

abbrev pub Time : Type 0
Time = Option ℕ

-- `a <= b` and `a < b` on dates: false where one of them is invalid.
abbrev pub not_after : Time → Time → Bool
not_after (some a) (some b) = leb a b
not_after _ _ = false

abbrev pub before : Time → Time → Bool
before (some a) (some b) = ltb a b
before _ _ = false
