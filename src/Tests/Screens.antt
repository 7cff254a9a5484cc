-- ===== src/Tests/Screens.antt =====
-- The browser's screens (apps/web/components) at work, with partners that agree to everything.
use po_vdeposit.Common.{
  ℕ, ◌≤◌, ◌≡◌, ◌≢◌, ◌⊎◌, refl, true, false, none, some, List, [], ◌∷◌, Text, codes, Time, ok, arith,
  length,
}
use po_vdeposit.Common.Int.{pos}
use po_vdeposit.Config
use po_vdeposit.Booking.Types
use po_vdeposit.Booking.Types.{Booking}
use po_vdeposit.Escrow.Defs.{max_deposit}
use po_vdeposit.Web.{confirm}
use po_vdeposit.Web.Invoke.{profile_of, confirm_visit}
use po_vdeposit.Web.Requests
use po_vdeposit.Web.Requests.{Call, Partners, Encoder, Challenge, Reply, Thrown}
use po_vdeposit.Web.Actions.{Session, run}
use po_vdeposit.Web.Actions.Laws.{Settles, run-Settles}
use po_vdeposit.Web.Form.{Double, Fields, Property}
use po_vdeposit.Web.Form.Deposit.{stroops}
use po_vdeposit.Web.Form.Steps.{book}
use po_vdeposit.Web.Form.Laws.{Progress, book-Progress}
use po_vdeposit.Web.Form.Bounds.{stroops-le}
use po_vdeposit.Web.Form.Exact.{stroops-exact}
use po_vdeposit.Web.Signature
use po_vdeposit.Web.Signature.{to_base64_signature}
use po_vdeposit.Web.Signature.RoundTrip
use po_vdeposit.Web.Signature.RoundTrip.{decode, to_base64_signature-decode}
use po_vdeposit.Web.Wallet
use po_vdeposit.Web.Wallet.{Extensions, Login, Dialog, WalletSession, connect}
use po_vdeposit.Web.Wallet.Laws.{IsConnected, connect-IsConnected}

abbrev alice : Text
alice = codes "GALICE"

abbrev booking : Booking
booking = record {
  input = record {
    listing_id = codes "loft";
    renter = alice;
    host = codes "GBOB";
    deposit_amount = pos 1000000;
    visit_time = some 1000;
    evidence_hash = codes "0f";
  };
  id = codes "b1";
  on_chain_booking_id = codes "7";
  state = Types.checked_in;
  funding_transaction_hash = none;
  check_in_proof_hash = none;
  settlement_transaction_hash = none;
  created_at = 0;
  updated_at = 0;
}

abbrev answer : {A : Type 0} → A → Reply A
answer a = Requests.answered true 200 (ok (record { message = none; value = a }))

abbrev challenge : Challenge
challenge = record { token = codes "t0ken"; expires_at = some 9000 }

abbrev partners : Partners Text
partners = record {
  booking = λ calls. answer booking;
  challenge = λ calls. answer challenge;
  config = λ calls. answer (some (codes "CC"));
  created = λ calls.
      answer
        (record { id = some (codes "b1"); on_chain_booking_id = some (codes "7"); error = none });
  funded = λ calls. answer tt;
  invoked = λ calls. ok (codes "h4sh");
}

abbrev encoder : Encoder Text
encoder = record {
  address = λ t. ok t;
  u64 = λ t. ok t;
  i128 = λ t. ok t;
  seconds = λ t. ok (codes "1");
}

abbrev clock : Time → Text
clock t = codes "noon"

abbrev before : Session Text
before = record {
  screen = record {
    reference = codes "b1";
    booking = some booking;
    status = [];
    code = [];
    busy = false;
  };
  calls = [];
}

someone : alice ≢ []
someone e = ground (arith, e)

run-Settles_example :
    Settles partners encoder booking challenge clock confirm confirm_visit booking alice before
      (run partners encoder booking challenge clock (some alice) confirm before)
run-Settles_example =
    run-Settles partners encoder booking challenge clock confirm confirm_visit booking alice before
      refl someone refl

-- The double nearest to 0.1.
abbrev tenth : Double
tenth = record { mantissa = 3602879701896397; halvings = 55 }

abbrev fields : Fields
fields = record {
  selection = codes "p1:s1";
  renter = alice;
  deposit_xlm = tenth;
  rules_accepted = true;
}

abbrev loft : Property
loft = record {
  id = codes "p1";
  slug = codes "loft";
  title = codes "Loft";
  host_address = codes "GBOB";
  slots = record { id = codes "s1"; starts_at = codes "soon" } ∷ [];
}

abbrev digest : Text → List ℕ
digest t = 15 ∷ []

abbrev date : Text → Time
date t = some 1000

book-Progress_example :
    let (r, after) =
      book partners encoder booking digest date (some (loft ∷ [])) (some alice) fields [] in
    Progress partners encoder booking digest date (some (loft ∷ [])) (some alice) fields [] after r
book-Progress_example =
    book-Progress partners encoder booking digest date (some (loft ∷ [])) (some alice) fields []

stroops-le_example : stroops tenth ≤ max_deposit
stroops-le_example = stroops-le tenth refl

stroops-exact_example : stroops tenth ≡ 1000000
stroops-exact_example = stroops-exact tenth 1000000 (omega arith) (omega arith) (omega arith)

abbrev four : List ℕ
four = 1 ∷ 2 ∷ 3 ∷ 255 ∷ []

to_base64_signature-decode_example :
    (sent : Text) × (to_base64_signature (Signature.typed_array four) ≡ ok sent)
    × (decode sent ≡ some four)
    × (length four ≡ 64 → (80 ≤ length sent) × (length sent ≤ 256))
to_base64_signature-decode_example =
    to_base64_signature-decode four (Signature.typed_array four) refl RoundTrip.typed_array

abbrev extensions : Extensions
extensions = record {
  is_connected = true;
  network = record { network = some (codes "TESTNET"); network_passphrase = none };
  request_access = record { address = some alice; error = none };
  sign_message =
      λ message address. record { signed_message = Signature.typed_array four; error = none };
  rabet = none;
  rabet_disconnect = ok tt;
}

abbrev empty : Wallet.AuthChallenge
empty = record { id = []; message = [] }

abbrev login : Login
login = record { challenge = λ address. answer empty; verify = λ id address signature. answer tt }

abbrev dialog : Dialog
dialog = record { session = none; status = []; stored = none; shown = true }

connect-IsConnected_example :
    let d' = connect (profile_of Config.testnet) extensions login empty Wallet.freighter dialog in
    ((d'.session ≡ none) × (d'.stored ≡ none))
    ⊎ ((w : WalletSession) × (d'.session ≡ some w)
        × (d'.stored ≡ some w.address)
        × IsConnected (profile_of Config.testnet) extensions login empty Wallet.freighter w)
connect-IsConnected_example =
    connect-IsConnected (profile_of Config.testnet) extensions login empty Wallet.freighter dialog
