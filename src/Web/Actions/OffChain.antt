-- ===== src/Web/Actions/OffChain.antt =====
-- The presses in apps/web/components/booking-actions.tsx that do not go to the contract.
use po_vdeposit.Common.{
  ◌≡◌, ◌≢◌, ◌⊎◌, inl, inr, none, some, [], ◌∷◌, Text, Time, codes, ◌===◌, arith, Result-cases,
  Bool-cases,
}
use po_vdeposit.Booking.Types.{Booking}
use po_vdeposit.Config.{trim}
use po_vdeposit.Web.{BookingAction, issue_challenge, check_in}
use po_vdeposit.Web.Requests
use po_vdeposit.Web.Requests.{
  Thrown, Call, Partners, Encoder, Challenge, receive, contract_of, post_failed, with_status,
  fetch_booking, request_check_in_challenge, post_booking_action, stellar_config, invoke_escrow,
}
use po_vdeposit.Web.Actions.{Session, body_of, show_code, record_check_in, attempt, finish, run}
use po_vdeposit.Web.Actions.Laws.{method_of, run-finish}

module _ {V : Type 0} (partners : Partners V) (encoder : Encoder V) (blank : Booking)
    (empty : Challenge) (time_text : Time → Text) where
  finish-off_chain :
      (action : BookingAction) (b : Booking) (wallet : Text) (s : Session V)
      → method_of action ≡ none
      → let s' = finish partners encoder blank empty time_text action b wallet s in
        (s'.calls ≡ s.calls)
        ⊎ ((s'.calls ≡ Requests.get_challenge b.id wallet ∷ s.calls)
            ⊎ (s'.calls
                ≡ Requests.post_action b.id check_in
                    (body_of wallet (codes "token") (trim s.screen.code))
                  ∷ s.calls))
  unfolding finish attempt show_code record_check_in request_check_in_challenge post_booking_action
  finish-off_chain issue_challenge b wallet s is =
      elim (Result-cases (
        receive empty (with_status (codes "Could not issue a challenge"))
          (partners.challenge (Requests.get_challenge b.id wallet ∷ s.calls)))) [
            | inl (e, x) ↦ inr (inl (ground arith))
            | inr (c, x) ↦ inr (inl (ground arith))
          ]
  finish-off_chain check_in b wallet s is =
      let called =
        Requests.post_action b.id check_in (body_of wallet (codes "token") (trim s.screen.code))
        ∷ s.calls in
      elim (Bool-cases (trim s.screen.code === [])) [
        | inl none_given ↦ inl (ground arith)
        | inr given ↦ elim (Result-cases (receive blank post_failed (partners.booking called))) [
          | inl (e, x) ↦ inr (inr (ground arith))
          | inr (c, x) ↦ inr (inr (ground arith))
        ]
      ]
  finish-off_chain _ b wallet s is = ground arith

  -- The other two presses make at most one call, and it is not one of the contract.
  pub run-off_chain :
      (action : BookingAction) (b : Booking) (wallet : Text) (s : Session V)
      → s.screen.booking ≡ some b
      → wallet ≢ []
      → method_of action ≡ none
      → let s' = run partners encoder blank empty time_text (some wallet) action s in
        (s'.calls ≡ s.calls)
        ⊎ ((s'.calls ≡ Requests.get_challenge b.id wallet ∷ s.calls)
            ⊎ (s'.calls
                ≡ Requests.post_action b.id check_in
                    (body_of wallet (codes "token") (trim s.screen.code))
                  ∷ s.calls))
  run-off_chain action b wallet s there named is =
      rw (run-finish partners encoder blank empty time_text action b wallet s there named)
        (finish-off_chain action b wallet s is)
