-- ===== src/Common/Texts.antt =====
-- A JavaScript string: the list of its UTF-16 code units. A literal has one unit for each of
-- its characters.
use Prim.Native.Nat.{ℕ, ◌-◌}
use Prim.Native.Char.{code}
use Prim.Native.String.{String}
use mathlib.Core.Path.{◌≡◌, refl}
use mathlib.Core.Bool.{Bool, true, false, ◌&&◌, ◌||◌}
use mathlib.Core.List.{List, [], ◌∷◌, map}
use native.Mathlib.Decide.{ℕ_discrete}
use po_vdeposit.Common.Tests.{leb, ◌==◌, if◌then◌else◌}
use po_vdeposit.Common.Lists.{length, all}

abbrev pub Text : Type 0
Text = List ℕ

abbrev pub codes : String → Text
codes String.[] = []
codes (String.◌∷◌ c s) = code c ∷ codes s

unfoldable pub Text-discrete : Discrete Text
unfolding ℕ_discrete
Text-discrete = hlevel ℕ_discrete

-- `a === b`. It computes to a decision, so that a proof has the equation.
infix 50 ◌===◌
abbrev pub ◌===◌ : Text → Text → Bool
a === b = elim (Text-discrete a b) [ yes _ ↦ true | no _ ↦ false ]

-- The test decides equality.
pub same-eq : (a b : Text) → (a === b) ≡ true → a ≡ b
same-eq a b = decided (Text-discrete a b)
  where
    decided : (d : Dec (a ≡ b)) → (elim d [ yes _ ↦ true | no _ ↦ false ]) ≡ true → a ≡ b
    decided (yes p) h = p
    decided (no p) h = cc

pub same_self : (a : Text) → (a === a) ≡ true
same_self a = decided (Text-discrete a a)
  where
    decided : (d : Dec (a ≡ a)) → (elim d [ yes _ ↦ true | no _ ↦ false ]) ≡ true
    decided (yes p) = refl
    decided (no p) = absurd (p refl)

-- `/^[a-f0-9]{64}$/i`.
abbrev pub is_digit : ℕ → Bool
is_digit c = leb b'0' c && leb c b'9'

abbrev pub is_hex : ℕ → Bool
is_hex c = is_digit c || (leb b'a' c && leb c b'f') || (leb b'A' c && leb c b'F')

abbrev pub is_hash : Text → Bool
is_hash s = length s == 64 && all is_hex s

-- `toUpperCase` on an ASCII letter.
abbrev pub upper : ℕ → ℕ
upper c = if leb b'a' c && leb c b'z' then c - 32 else c

abbrev pub starts_with : Text → Text → Bool
starts_with [] s = true
starts_with (c ∷ p) [] = false
starts_with (c ∷ p) (d ∷ s) = (c == d) && starts_with p s

-- Whether the pattern stands in the text, up to the case of ASCII letters.
abbrev pub mentions : Text → Text → Bool
mentions p [] = starts_with (map upper p) []
mentions p (c ∷ s) = starts_with (map upper p) (map upper (c ∷ s)) || mentions p s

-- `s.split(…)` by one character: the first part and the others.
unfoldable pub split_on : ℕ → Text → Text × List Text
split_on by [] = ([], [])
split_on by (c ∷ s) = let (p, ps) = split_on by s in if c == by then ([], p ∷ ps) else (c ∷ p, ps)
