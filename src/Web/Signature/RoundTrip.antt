-- ===== src/Web/Signature/RoundTrip.antt =====
-- What the API reads of a signature (`Buffer.from(…, "base64")` in
-- apps/api/src/auth/wallet-auth.service.ts) that apps/web/lib/wallet-auth.ts has put in base64.
use po_vdeposit.Common.{
  ℕ, ◌+◌, ◌-◌, ◌*◌, ◌/◌, ◌%◌, ◌<◌, ◌≤◌, ◌≡◌, refl, ap, Bool, true, false, Option, none, some, List,
  [], ◌∷◌, map, all, Text, ltb, leb, ◌==◌, length, ok, if◌then◌else◌, arith, is_digit,
}
use po_vdeposit.Common.Int.{pos}
use po_vdeposit.Web.Signature
use po_vdeposit.Web.Signature.{Item, integer, letter, encode, to_base64_signature}

-- The value of a letter of the alphabet.
abbrev pub value : ℕ → ℕ
value c =
    if leb b'a' c
    then c - 71
    else if leb b'A' c
    then c - 65
    else if is_digit c
    then c + 4
    else if c == b'+'
    then 62
    else 63

abbrev three : ℕ → ℕ → ℕ → Option (List ℕ) → Option (List ℕ)
three x y z none = none
three x y z (some bytes) = some (x ∷ y ∷ z ∷ bytes)

-- The bytes of a text in base64, by groups of four letters.
unfoldable pub decode : Text → Option (List ℕ)
decode [] = some []
decode (a ∷ b ∷ c ∷ d ∷ rest) =
    let bytes = decode rest in
    if c == b'='
    then some ((value a * 4 + value b / 16) ∷ [])
    else if d == b'='
    then some ((value a * 4 + value b / 16) ∷ (value b % 16 * 16 + value c / 4) ∷ [])
    else three (value a * 4 + value b / 16) (value b % 16 * 16 + value c / 4)
        (value c % 4 * 64 + value d) bytes
decode _ = none

abbrev pub is_byte : ℕ → Bool
is_byte n = ltb n 256

value-letter : (n : ℕ) → n < 64 → value (letter n) ≡ n
value-letter n h = ground arith

letter-ne : (n : ℕ) → n < 64 → (letter n == b'=') ≡ false
letter-ne n h = ground arith

-- The three bytes of a group, from its four letters.
first_byte : (a b : ℕ) → a < 256 → b < 256 → a / 4 * 4 + (a % 4 * 16 + b / 16) / 16 ≡ a
first_byte a b h k = omega arith

second_byte :
    (a b c : ℕ)
    → b < 256
    → c < 256
    → (a % 4 * 16 + b / 16) % 16 * 16 + (b % 16 * 4 + c / 64) / 4 ≡ b
second_byte a b c h k = omega arith

third_byte : (b c : ℕ) → b < 256 → c < 256 → (b % 16 * 4 + c / 64) % 4 * 64 + c % 64 ≡ c
third_byte b c h k = omega arith

last_byte : (a b : ℕ) → b < 256 → (a % 4 * 16 + b / 16) % 16 * 16 + b % 16 * 4 / 4 ≡ b
last_byte a b h = omega arith

pub decode-encode : (bytes : List ℕ) → all is_byte bytes ≡ true → decode (encode bytes) ≡ some bytes
unfolding decode encode
decode-encode [] h = refl
decode-encode (a ∷ []) h =
    let p : a < 256 = ground arith in
    rw (value-letter (a / 4) (omega arith), value-letter (a % 4 * 16) (omega arith))
      (ap (λ x. some (x ∷ [])) (omega arith))
decode-encode (a ∷ b ∷ []) h =
    let p : (a < 256) × (b < 256) = (ground arith, ground arith) in
    rw
      (
        letter-ne (b % 16 * 4) (omega arith),
        value-letter (a / 4) (omega arith),
        value-letter (a % 4 * 16 + b / 16) (omega (arith, p)),
        value-letter (b % 16 * 4) (omega arith),
      )
      (rw (first_byte a b p.0 p.1, last_byte a b p.1) refl)
decode-encode (a ∷ b ∷ c ∷ bytes) h =
    let p : (a < 256) × (b < 256) × (c < 256) × (all is_byte bytes ≡ true) =
      (ground arith, ground arith, ground arith, ground arith) in
    rw
      (
        letter-ne (b % 16 * 4 + c / 64) (omega (arith, p)),
        letter-ne (c % 64) (omega arith),
        value-letter (a / 4) (omega (arith, p)),
        value-letter (a % 4 * 16 + b / 16) (omega (arith, p)),
        value-letter (b % 16 * 4 + c / 64) (omega (arith, p)),
        value-letter (c % 64) (omega arith),
      )
      (rw (first_byte a b p.0 p.1, second_byte a b c p.1 p.2, third_byte b c p.1 p.2)
        (ap (three a b c) (decode-encode bytes p.3)))

length-encode :
    (bytes : List ℕ)
    → (4 * length bytes ≤ 3 * length (encode bytes))
      × (3 * length (encode bytes) ≤ 4 * length bytes + 8)
unfolding encode
length-encode [] = (omega arith, omega arith)
length-encode (a ∷ []) = (omega arith, omega arith)
length-encode (a ∷ b ∷ []) = (omega arith, omega arith)
length-encode (a ∷ b ∷ c ∷ bytes) =
    let (low, high) = length-encode bytes in (omega (arith, low), omega (arith, high))

-- The shapes in which a wallet can hand back the bytes of a signature.
pub data Carries (bytes : List ℕ) : Signature.Signature → Type 0 where
  base64 : Carries bytes (Signature.base64 (encode bytes))
  typed_array : Carries bytes (Signature.typed_array bytes)
  array_buffer : Carries bytes (Signature.array_buffer bytes)
  items : Carries bytes (Signature.items (map (λ n. integer (pos n)) bytes))
  with_data : Carries bytes (Signature.with_data (some (map (λ n. integer (pos n)) bytes)))

small_mod : (n : ℕ) → n < 256 → n % 256 ≡ n
small_mod n h = omega arith

items-bytes :
    (bytes : List ℕ)
    → all is_byte bytes ≡ true
    → (all Signature.is_integer (map (λ n. integer (pos n)) bytes) ≡ true)
      × (map Signature.item_byte (map (λ n. integer (pos n)) bytes) ≡ bytes)
items-bytes [] h = (refl, refl)
items-bytes (n ∷ bytes) h =
    let p : (n < 256) × (all is_byte bytes ≡ true) = (ground arith, ground arith) in
    let (whole, same) = items-bytes bytes p.1 in (whole, rw (same, small_mod n p.0) refl)

-- Whichever shape a wallet gives the bytes of a signature in (the text in base64, a typed array, an
-- array buffer, an array of integers, or an object with one), the text that is sent is one that the
-- API decodes to these very bytes, and a signature of 64 bytes has a length that the API accepts.
pub to_base64_signature-decode :
    (bytes : List ℕ) (signed : Signature.Signature)
    → all is_byte bytes ≡ true
    → Carries bytes signed
    → (sent : Text) × (to_base64_signature signed ≡ ok sent)
      × (decode sent ≡ some bytes)
      × (length bytes ≡ 64 → (80 ≤ length sent) × (length sent ≤ 256))
unfolding to_base64_signature
to_base64_signature-decode bytes signed h shape = (
  encode bytes,
  sends shape,
  decode-encode bytes h,
  λ e. let (low, high) = length-encode bytes in (omega (arith, e, low), omega (arith, e, high)),
)
  where
    sends : {x : Signature.Signature} → Carries bytes x → to_base64_signature x ≡ ok (encode bytes)
    sends base64 = refl
    sends typed_array = refl
    sends array_buffer = refl
    sends items = let (whole, same) = items-bytes bytes h in rw (whole, same) refl
    sends with_data = let (whole, same) = items-bytes bytes h in rw same refl
