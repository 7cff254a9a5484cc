-- ===== src/WalletAuth/Endpoints.antt =====
-- `AuthController` (apps/api/src/auth/auth.controller.ts): the checks in front of the service. The
-- `Origin` header may be missing; every error is answered with 400.
use po_vdeposit.Common.{
  ℕ, Bool, not, ◌&&◌, Option, none, some, List, [], Text, ◌===◌, ◌==◌, leb, length, ok, err, Action,
  if◌then◌else◌, throw_if, ◌>>=◌, ◌>>◌,
}
use po_vdeposit.WalletAuth.Store
use po_vdeposit.WalletAuth.Store.{Keys, Store}
use po_vdeposit.WalletAuth.Service
use po_vdeposit.WalletAuth.Service.{Auth, Issued, Session, Login}

-- The message of a 400.
pub data BadRequest : Type 0 where
  origin_required invalid_challenge_request invalid_verification_request : BadRequest
  rejected : Store.Error → BadRequest

pub record VerifyBody : Type 0 where
  pub challenge_id : Text
  pub address : Text
  pub signature : Text

abbrev or_bad_request : {S A : Type 0} → Action S Store.Error A → Action S BadRequest A
or_bad_request m s =
    let (r, s') = m s in elim r [ ok a ↦ (ok a, s') | err e ↦ (err (rejected e), s') ]

abbrev require_origin : {S : Type 0} → Option Text → Action S BadRequest Text
require_origin none = λ s. (err origin_required, s)
require_origin (some origin) = λ s. (if origin === [] then err origin_required else ok origin, s)

abbrev is_verify_body : (Text → Bool) → VerifyBody → Bool
is_verify_body is_uuid body =
    is_uuid body.challenge_id
    && length body.address == 56
    && leb 80 (length body.signature)
    && leb (length body.signature) 256

module _ (is_uuid : Text → Bool) (keys : Keys) (origins : List Text) (network : Text) {D : Type 0}
    (store : Store D) where
  unfoldable pub challenge :
      (now : ℕ) (id : Text) → Option Text → (address : Text) → Action (Auth D) BadRequest Issued
  challenge now id origin address = do
    from ← require_origin origin
    throw_if (not (length address == 56)) invalid_challenge_request
    or_bad_request (Service.issue keys origins network store now id address from)

  unfoldable pub verify :
      (now later last : ℕ) (token : Text)
      → Option Text
      → VerifyBody
      → Action (Auth D) BadRequest Session
  verify now later last token origin body = do
    from ← require_origin origin
    throw_if (not (is_verify_body is_uuid body)) invalid_verification_request
    let login : Login = record {
      challenge_id = body.challenge_id;
      address = body.address;
      origin = from;
      signature = body.signature;
    }
    or_bad_request (Service.verify keys origins network store now later last token login)
