-- ===== src/Web/Actions/Laws.antt =====
-- What a press of a button in apps/web/components/booking-actions.tsx leads to.
use po_vdeposit.Common.{
  ℕ, ◌≡◌, ◌≢◌, refl, sym, ◌∙◌, ap, subst, some_inj, pure, ◌>>=◌, ◌⊎◌, inl, inr, Bool, true, false,
  Option, none, some, List, [], ◌∷◌, Text, Time, codes, ◌===◌, Result, ok, err, arith, Result-cases,
  Bool-cases, Option-cases,
}
use po_vdeposit.Booking.Types.{Booking}
use po_vdeposit.Web.{BookingAction, confirm, cancel}
use po_vdeposit.Web.Invoke.{EscrowMethod, confirm_visit, cancel_booking}
use po_vdeposit.Web.Requests
use po_vdeposit.Web.Requests.{
  Thrown, Call, Partners, Encoder, Challenge, receive, contract_of, post_failed, with_status,
  fetch_booking, request_check_in_challenge, post_booking_action, stellar_config, invoke_escrow,
}
use po_vdeposit.Web.Actions.{Step, ending, set_busy, Session, body_of, settle, attempt, finish, run}

-- The entry point that an action calls, where it calls one.
abbrev pub method_of : BookingAction → Option EscrowMethod
method_of confirm = some confirm_visit
method_of cancel = some cancel_booking
method_of _ = none

module _ {V : Type 0} (partners : Partners V) (encoder : Encoder V) (blank : Booking)
    (empty : Challenge) (time_text : Time → Text) where
  abbrev pub sending : Text → EscrowMethod → V → V → Text → List (Call V) → List (Call V)
  sending contract_id method who which wallet before =
      Requests.invoke contract_id method (who ∷ which ∷ []) wallet ∷ Requests.get_config ∷ before

  -- The calls of a settlement, in order, and how it ends.
  pub data Settlement (action : BookingAction) (method : EscrowMethod) (b : Booking) (wallet : Text)
      (before after : List (Call V)) (r : Result Thrown Booking) : Type 0 where
    unsent :
        (e : Thrown)
        → after ≡ Requests.get_config ∷ before
        → r ≡ err e
        → Settlement action method b wallet before after r
    refused :
        (contract_id : Text) (who which : V) (e : Thrown)
        → after ≡ sending contract_id method who which wallet before
        → partners.invoked after ≡ err e
        → r ≡ err e
        → Settlement action method b wallet before after r
    told :
        (contract_id hash : Text) (who which : V)
        → encoder.address wallet ≡ ok who
        → encoder.u64 b.on_chain_booking_id ≡ ok which
        → partners.invoked (sending contract_id method who which wallet before) ≡ ok hash
        → after
          ≡ Requests.post_action b.id action (body_of wallet (codes "transactionHash") hash)
            ∷ sending contract_id method who which wallet before
        → r ≡ receive blank post_failed (partners.booking after)
        → Settlement action method b wallet before after r

  settle-Settlement :
      (action : BookingAction) (method : EscrowMethod) (b : Booking) (wallet : Text) (s : Session V)
      → let (r, s') = settle partners encoder blank empty time_text action method b wallet s in
        Settlement action method b wallet s.calls s'.calls r
        × (s'.screen.booking ≡ s.screen.booking)
  unfolding settle stellar_config invoke_escrow post_booking_action
  settle-Settlement action method b wallet s =
      let asked = Requests.get_config ∷ s.calls in
      elim (Result-cases (contract_of (partners.config asked))) [
        | inl (e, x) ↦ (unsent e (ground arith) (ground arith), ground arith)
        | inr (c, x) ↦ elim (Result-cases (encoder.address wallet)) [
          | inl (e, y) ↦ (unsent e (ground arith) (ground arith), ground arith)
          | inr (who, y) ↦ elim (Result-cases (encoder.u64 b.on_chain_booking_id)) [
            | inl (e, z) ↦ (unsent e (ground arith) (ground arith), ground arith)
            | inr (which, z) ↦
                let sent = Requests.invoke c method (who ∷ which ∷ []) wallet ∷ asked in
                elim (Result-cases (partners.invoked sent)) [
                  | inl (e, w) ↦ (
                    refused c who which e (ground arith) (ground arith) (ground arith),
                    ground arith,
                  )
                  | inr (hash, w) ↦
                      (told c hash who which y z w (ground arith) (ground arith), ground arith)
                ]
          ]
        ]
      ]

  abbrev pub shown_after : Booking → Result Thrown Booking → Booking
  shown_after b (ok updated) = updated
  shown_after b (err e) = b

  -- A press that settles: its calls, the booking that is shown, and that the buttons work again.
  pub record Settles (action : BookingAction) (method : EscrowMethod) (b : Booking) (wallet : Text)
      (s s' : Session V) : Type 0 where
    pub result : Result Thrown Booking
    pub course : Settlement action method b wallet s.calls s'.calls result
    pub shown : s'.screen.booking ≡ some (shown_after b result)
    pub idle : s'.screen.busy ≡ false

  -- What is left to do after the calls.
  abbrev close : Result Thrown Booking × Session V → Session V
  close (r, s) = ending ((elim r [ ok updated ↦ ok (some updated) | err e ↦ err e ]), s)

  abbrev settled :
      BookingAction → EscrowMethod → Booking → Text → Session V → Result Thrown Booking × Session V
  settled action method b wallet s =
      settle partners encoder blank empty time_text action method b wallet (set_busy true s)

  ending-close :
      (m : Step V Booking) (s : Session V)
      → ending ((m >>= λ updated. pure (some updated)) s) ≡ close (m s)
  ending-close m s = go (m s)
    where
      go :
          (out : Result Thrown Booking × Session V)
          → ending (
              let (r, s') = out in
              elim r [ ok updated ↦ (ok (some updated), s') | err e ↦ (err e, s') ])
            ≡ close out
      go (ok updated, s') = refl
      go (err x, s') = refl

  finish-close :
      (action : BookingAction) (method : EscrowMethod) (b : Booking) (wallet : Text) (s : Session V)
      → method_of action ≡ some method
      → finish partners encoder blank empty time_text action b wallet s
        ≡ close (settled action method b wallet s)
  unfolding finish attempt
  finish-close confirm method b wallet s is =
      ending-close (settle partners encoder blank empty time_text confirm confirm_visit b wallet)
        (set_busy true s)
      ∙ ap (λ m. close (settled confirm m b wallet s)) (some_inj is)
  finish-close cancel method b wallet s is =
      ending-close (settle partners encoder blank empty time_text cancel cancel_booking b wallet)
        (set_busy true s)
      ∙ ap (λ m. close (settled cancel m b wallet s)) (some_inj is)
  finish-close _ method b wallet s is = ground arith

  close-Settles :
      (action : BookingAction) (method : EscrowMethod) (b : Booking) (wallet : Text) (s : Session V)
      → s.screen.booking ≡ some b
      → Settles action method b wallet s (close (settled action method b wallet s))
  close-Settles action method b wallet s there =
      let (course, same) = settle-Settlement action method b wallet (set_busy true s) in
      go (settled action method b wallet s) course (same ∙ there)
    where
      go :
          (out : Result Thrown Booking × Session V)
          → Settlement action method b wallet s.calls out.1.calls out.0
          → out.1.screen.booking ≡ some b
          → Settles action method b wallet s (close out)
      go (ok updated, s') course same = record {
        result = ok updated;
        course = course;
        shown = refl;
        idle = refl;
      }
      go (err e, s') course same = record {
        result = err e;
        course = course;
        shown = same;
        idle = refl;
      }

  pub run-finish :
      (action : BookingAction) (b : Booking) (wallet : Text) (s : Session V)
      → s.screen.booking ≡ some b
      → wallet ≢ []
      → run partners encoder blank empty time_text (some wallet) action s
        ≡ finish partners encoder blank empty time_text action b wallet s
  unfolding run finish po_vdeposit.Common.Text-discrete
  run-finish action b [] s there named = absurd (named refl)
  run-finish action b (c ∷ w) s there named = rw there refl

  -- A press of "confirm" or "cancel", with a booking on the screen and a wallet: the contract's
  -- entry point for the action is called at most once, after the settings are known, for this
  -- wallet and the booking's number in the contract. Only when that call has succeeded is the API
  -- told, with the hash that the call gave. The screen shows the booking that the API answers with,
  -- and the one from before where anything failed, and its buttons work again.
  pub run-Settles :
      (action : BookingAction) (method : EscrowMethod) (b : Booking) (wallet : Text) (s : Session V)
      → s.screen.booking ≡ some b
      → wallet ≢ []
      → method_of action ≡ some method
      → Settles action method b wallet s
          (run partners encoder blank empty time_text (some wallet) action s)
  unfolding run
  run-Settles action method b wallet s there named is =
      subst (Settles action method b wallet s)
        (sym (run-finish action b wallet s there named ∙ finish-close action method b wallet s is))
        (close-Settles action method b wallet s there)
