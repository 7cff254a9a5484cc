-- ===== src/Web/Listings.antt =====
-- The lists that the pages show: apps/web/components/property-detail.tsx, property-list.tsx and
-- recent-activity.tsx, without their markup.
use po_vdeposit.Common.{
  ℕ, ◌-◌, Bool, true, false, Option, none, some, [], ◌++◌, take, drop, length, Text, codes, ◌===◌,
  ok, err, if◌then◌else◌, ◌==◌,
}
use po_vdeposit.Config.{text_or}
use po_vdeposit.Web.Invoke.{NetworkProfile, explorer_transaction_url}
use po_vdeposit.Web.Requests.{Reply, unreachable, answered, with_status}

pub data State (A : Type 0) : Type 0 where
  loading : State A
  ready : A → State A
  failed : Text → State A

-- What an answer makes of the state; `words` is "Listing unavailable" or "Listings unavailable".
unfoldable pub arrived : {A : Type 0} → Text → Reply A → State A
arrived words (unreachable m) = failed m
arrived words (answered true status (ok j)) = ready j.value
arrived words (answered true status (err e)) = failed e
arrived words (answered false status body) = failed (with_status words status)

-- An answer that comes after the component has gone, or shows another slug, is dropped.
abbrev pub settle_state : {A : Type 0} → (active : Bool) → Text → Reply A → State A → State A
settle_state active words reply state = if active then arrived words reply else state

-- `slice(0, 8)` and `slice(-6)`.
abbrev pub shortened : Text → Text
shortened s = take 8 s ++ codes "…" ++ drop (length s - 6) s

-- `property.host?.address`, where it is given.
abbrev pub host_label : Option Text → Text
host_label address =
    if text_or address [] === [] then codes "Not published" else shortened (text_or address [])

abbrev pub slots_label : ℕ → Text
slots_label n = if n == 1 then codes "open slot" else codes "open slots"

-- The transaction that an entry of the recent activity links to.
abbrev pub activity_link : NetworkProfile → (funding settlement : Option Text) → Option Text
activity_link profile funding settlement =
    let hash = text_or settlement (text_or funding []) in
    if hash === [] then none else some (explorer_transaction_url hash profile)
