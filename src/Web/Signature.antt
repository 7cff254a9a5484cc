-- ===== src/Web/Signature.antt =====
-- The signature that a wallet hands back, in base64 (`toBase64Signature` of
-- apps/web/lib/wallet-auth.ts). `encode` is `btoa`, of one character for each byte.
pub mod RoundTrip
use po_vdeposit.Common.{
  ℕ, ◌+◌, ◌-◌, ◌*◌, ◌/◌, ◌%◌, Bool, true, false, Option, none, some, List, [], ◌∷◌, map, all, Text,
  codes, ltb, ◌==◌, Result, ok, err, if◌then◌else◌,
}
use po_vdeposit.Common.Int.{ℤ, pos, negsuc}
use po_vdeposit.Web.Requests.{Thrown}

-- An item of an array: an integer, or anything else with the integer that `Uint8Array.from` takes it
-- for.
pub data Item : Type 0 where
  integer other_item : ℤ → Item

-- The shapes that are told apart: a text, raw bytes in either form, an array, an object with `data`
-- that is an array or not, and the rest.
pub data Signature : Type 0 where
  base64 : Text → Signature
  typed_array array_buffer : List ℕ → Signature
  items : List Item → Signature
  with_data : Option (List Item) → Signature
  unsupported : Signature

abbrev pub is_integer : Item → Bool
is_integer (integer z) = true
is_integer (other_item z) = false

-- A number as an unsigned byte: modulo 256.
abbrev pub byte_of : ℤ → ℕ
byte_of (pos n) = n % 256
byte_of (negsuc n) = 255 - n % 256

abbrev pub item_byte : Item → ℕ
item_byte (integer z) = byte_of z
item_byte (other_item z) = byte_of z

abbrev pub letter : ℕ → ℕ
letter n =
    if ltb n 26
    then 65 + n
    else if ltb n 52
    then 71 + n
    else if ltb n 62
    then n - 4
    else if n == 62
    then b'+'
    else b'/'

unfoldable pub encode : List ℕ → Text
encode [] = []
encode (a ∷ []) = letter (a / 4) ∷ letter (a % 4 * 16) ∷ b'=' ∷ b'=' ∷ []
encode (a ∷ b ∷ []) =
    letter (a / 4) ∷ letter (a % 4 * 16 + b / 16) ∷ letter (b % 16 * 4) ∷ b'=' ∷ []
encode (a ∷ b ∷ c ∷ bytes) =
    letter (a / 4)
    ∷ letter (a % 4 * 16 + b / 16)
    ∷ letter (b % 16 * 4 + c / 64)
    ∷ letter (c % 64)
    ∷ encode bytes

-- `bytesToBase64`.
abbrev pub bytes_to_base64 : List ℕ → Text
bytes_to_base64 bytes = encode bytes

unfoldable pub to_base64_signature : Signature → Result Thrown Text
unfolding encode
to_base64_signature (base64 s) = ok s
to_base64_signature (typed_array bytes) = ok (bytes_to_base64 bytes)
to_base64_signature (array_buffer bytes) = ok (bytes_to_base64 bytes)
to_base64_signature (items xs) =
    if all is_integer xs
    then ok (bytes_to_base64 (map item_byte xs))
    else err (some (codes "Freighter returned a signature in an unsupported format"))
to_base64_signature (with_data (some xs)) = ok (bytes_to_base64 (map item_byte xs))
to_base64_signature (with_data none) =
    err (some (codes "Freighter returned a signature in an unsupported format"))
to_base64_signature unsupported =
    err (some (codes "Freighter returned a signature in an unsupported format"))
