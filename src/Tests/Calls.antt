-- ===== src/Tests/Calls.antt =====
-- A call of the contract from the browser that is confirmed at the third attempt.
use po_vdeposit.Common.{ℕ, ◌≡◌, ◌<◌, refl, false, none, Text, codes, ok, ltb, if◌then◌else◌}
use po_vdeposit.Web.Invoke
use po_vdeposit.Web.Invoke.{Chain, invoke_escrow, invoke_escrow-ok, name_of}

abbrev chain : Chain ℕ
chain = record {
  prepare = λ contract address method n. ok method;
  sign = λ prepared. record { signed_tx_xdr = prepared; error = none };
  send = λ xdr. record { hash = codes "c0ffee"; is_error = false };
  get_transaction = λ hash attempt. if ltb attempt 2 then Invoke.not_found else Invoke.success;
}

done : invoke_escrow chain (codes "CC") Invoke.fund_booking 7 (codes "GALICE") ≡ ok (codes "c0ffee")
unfolding invoke_escrow Invoke.submit Invoke.poll po_vdeposit.Common.Text-discrete
    po_vdeposit.Common.ℕ_discrete
done = refl

invoke_escrow-ok_example :
    (prepared : Text) × (n : ℕ) × (chain.prepare
        (codes "CC")
        (codes "GALICE")
        (name_of Invoke.fund_booking)
        7
      ≡ ok prepared)
    × ((chain.sign prepared).error ≡ none)
    × (chain.send (chain.sign prepared).signed_tx_xdr
        ≡ record { hash = codes "c0ffee"; is_error = false })
    × (n < 30)
    × (chain.get_transaction (codes "c0ffee") n ≡ Invoke.success)
    × ((m : ℕ) → m < n → chain.get_transaction (codes "c0ffee") m ≡ Invoke.not_found)
invoke_escrow-ok_example =
    invoke_escrow-ok chain (codes "CC") Invoke.fund_booking 7 (codes "GALICE") (codes "c0ffee") done
