-- ===== src/Web/Form.antt =====
-- The booking form (apps/web/components/booking-form.tsx): what it accepts, and what it asks of the
-- API and of the contract, in order. `digest` gives the bytes of SHA-256 of a text in UTF-8.
pub mod Deposit
pub mod Steps
pub mod Payment
pub mod Laws
pub mod Bounds
pub mod Exact
use po_vdeposit.Common.{
  ℕ, ◌/◌, ◌%◌, ◌+◌, Bool, true, false, not, ◌&&◌, ◌||◌, Option, none, some, List, [], ◌∷◌, ◌++◌,
  find, length, all, leb, ltb, Text, codes, ◌===◌, if◌then◌else◌, ◌==◌,
}

pub record Slot : Type 0 where
  pub id : Text
  pub starts_at : Text

pub record Property : Type 0 where
  pub id : Text
  pub slug : Text
  pub title : Text
  pub host_address : Text
  pub slots : List Slot

-- A positive double that is finite: `mantissa / 2 ^ halvings`.
pub record Double : Type 0 where
  pub mantissa : ℕ
  pub halvings : ℕ

pub record Fields : Type 0 where
  pub selection : Text
  pub renter : Text
  pub deposit_xlm : Double
  pub rules_accepted : Bool

-- `/^G[A-Z2-7]{55}$/`.
abbrev pub is_base32 : ℕ → Bool
is_base32 c = (leb b'A' c && leb c b'Z') || (leb b'2' c && leb c b'7')

unfoldable pub is_address : Text → Bool
is_address [] = false
is_address (c ∷ s) = (c == b'G') && (length s == 55) && all is_base32 s
