-- ===== src/Web/Wallet/Laws.antt =====
-- What a session that apps/web/components/wallet-dialog.tsx shows stands for.
use po_vdeposit.Common.{
  ℕ, ◌≡◌, ◌≢◌, refl, sym, ◌∙◌, subst, ◌⊎◌, inl, inr, true, false, Option, none, some, [], ◌∷◌, ◌||◌,
  same_self, Text, Result, ok, err, arith, Result-cases, Bool-cases, Option-cases, ◌===◌,
}
use po_vdeposit.Web.{is_expected_network}
use po_vdeposit.Web.Invoke.{NetworkProfile}
use po_vdeposit.Web.Requests
use po_vdeposit.Config.{text_or}
use po_vdeposit.Web.Requests.{Thrown, Reply, receive, post_failed}
use po_vdeposit.Web.Signature.{to_base64_signature}
use po_vdeposit.Web.Wallet
use po_vdeposit.Web.Wallet.{
  Kind, WalletSession, Dialog, Extensions, Login, AuthChallenge, Access, is_given, network_name,
  granted, connect_freighter, connect_rabet, authenticate, attempt, checked, reached, connect,
  sending,
}

-- A challenge that the API has answered with; where the body is no JSON, what the empty object is
-- read as.
pub data IsGiven {A : Type 0} (blank a : A) : Reply A → Type 0 where
  read :
      (status : ℕ) (j : Requests.Json A)
      → a ≡ j.value
      → IsGiven blank a (Requests.answered true status (ok j))
  unread :
      (status : ℕ) (e : Text) → a ≡ blank → IsGiven blank a (Requests.answered true status (err e))

receive-IsGiven :
    {A : Type 0} (blank : A) (fallback : ℕ → Text) (r : Reply A) (a : A)
    → receive blank fallback r ≡ ok a
    → IsGiven blank a r
unfolding receive
receive-IsGiven blank fallback (Requests.unreachable m) a e = ground arith
receive-IsGiven blank fallback (Requests.answered true status (ok j)) a e =
    read status j (ground arith)
receive-IsGiven blank fallback (Requests.answered true status (err x)) a e =
    unread status x (ground arith)
receive-IsGiven blank fallback (Requests.answered false status (ok j)) a e = ground arith
receive-IsGiven blank fallback (Requests.answered false status (err x)) a e = ground arith

-- An answer that `response.ok` lets pass.
pub record IsOk {A : Type 0} (r : Reply A) : Type 0 where
  pub status : ℕ
  pub body : Result Text (Requests.Json A)
  pub answered : r ≡ Requests.answered true status body

receive-ok :
    {A : Type 0} (blank : A) (fallback : ℕ → Text) (r : Reply A) (a : A)
    → receive blank fallback r ≡ ok a
    → IsOk r
unfolding receive
receive-ok blank fallback (Requests.unreachable m) a e = ground arith
receive-ok blank fallback (Requests.answered true status body) a e = record {
  status = status;
  body = body;
  answered = refl;
}
receive-ok blank fallback (Requests.answered false status (ok j)) a e = ground arith
receive-ok blank fallback (Requests.answered false status (err x)) a e = ground arith

false-ne-true : false ≢ true
false-ne-true e = cc

-- A text that is not taken for false is there, and is not empty.
given-some :
    (o : Option Text)
    → (text_or o [] === []) ≡ false
    → (text_or o [] ≢ []) × (o ≡ some (text_or o []))
given-some none h = absurd (false-ne-true (sym h ∙ same_self []))
given-some (some []) h = absurd (false-ne-true (sym h ∙ same_self []))
given-some (some (c ∷ s)) h = (λ e. cc, refl)

granted-ok :
    (kind : Kind) (a : Access) (w : WalletSession)
    → granted kind a ≡ ok w
    → (w.kind ≡ kind) × (w.address ≢ []) × (a.address ≡ some w.address)
granted-ok kind a w e = elim (Bool-cases (is_given a.error || (text_or a.address [] === []))) [
  | inl refused ↦ ground arith
  | inr fine ↦
      let (ne, there) = given-some a.address (ground arith) in
      let same : w ≡ record { kind = kind; address = text_or a.address [] } = ground arith in
      rw same (refl, ne, there)
]

unrefused :
    (kind : Kind) (a : Access) (w : WalletSession)
    → granted kind a ≡ ok w
    → is_given a.error ≡ false
unrefused kind a w e = elim (Bool-cases (is_given a.error)) [
  | inl refused ↦ ground arith
  | inr fine ↦ fine
]

module _ (profile : NetworkProfile) (extensions : Extensions) (login : Login)
    (blank : AuthChallenge) where
  -- The wallet has signed a challenge of the API for this address, and the API has taken the
  -- signature.
  pub record IsProven (address : Text) : Type 0 where
    pub challenge : AuthChallenge
    pub signature : Text
    pub given : IsGiven blank challenge (login.challenge address)
    pub signed : (extensions.sign_message challenge.message address).error ≡ none
    pub encoded :
        to_base64_signature (extensions.sign_message challenge.message address).signed_message
        ≡ ok signature
    pub accepted : IsOk (login.verify challenge.id address signature)

  authenticate-IsProven :
      (address : Text)
      → authenticate profile extensions login blank address ≡ ok tt
      → IsProven address
  unfolding authenticate
  authenticate-IsProven address e =
      elim (Result-cases (receive blank post_failed (login.challenge address))) [
        | inl (x, failed) ↦ ground arith
        | inr (c, given) ↦
            let signed = extensions.sign_message c.message address in
            elim (Option-cases signed.error) [
              | inr (x, failed) ↦ ground arith
              | inl fine ↦ elim (Result-cases (to_base64_signature signed.signed_message)) [
                | inl (x, failed) ↦ ground arith
                | inr (signature, encoded) ↦ record {
                  challenge = c;
                  signature = signature;
                  given = receive-IsGiven blank post_failed _ c given;
                  signed = fine;
                  encoded = encoded;
                  accepted = receive-ok tt post_failed _ tt (ground arith);
                }
              ]
            ]
      ]

  -- What stands behind a session of the kind that was asked for.
  pub record IsConnected (kind : Kind) (w : WalletSession) : Type 0 where
    pub same_kind : w.kind ≡ kind
    pub some_address : w.address ≢ []
    pub proven :
        kind ≡ Wallet.freighter
        → (extensions.is_connected ≡ true)
          × (is_expected_network extensions.network (network_name profile.network) ≡ true)
          × (extensions.request_access.address ≡ some w.address)
          × IsProven w.address
    pub unproven :
        kind ≡ Wallet.rabet
        → (a : Access) × (extensions.rabet ≡ some a)
          × (is_given a.error ≡ false)
          × (a.address ≡ some w.address)

  connect_freighter-ok :
      (n : WalletSession)
      → connect_freighter profile extensions login blank ≡ ok n
      → (extensions.is_connected ≡ true)
        × (is_expected_network extensions.network (network_name profile.network) ≡ true)
        × (granted Wallet.freighter extensions.request_access ≡ ok n)
  unfolding connect_freighter
  connect_freighter-ok n e = (ground arith, ground arith, ground arith)

  attempt-IsConnected :
      (kind : Kind) (w : WalletSession)
      → attempt profile extensions login blank kind ≡ ok w
      → IsConnected kind w
  attempt-IsConnected Wallet.freighter w e =
      elim (Result-cases (connect_freighter profile extensions login blank)) [
        | inl (x, failed) ↦ ground arith
        | inr (n, found) ↦
            let (plugged, expected, given) = connect_freighter-ok n found in
            let (kind, ne, there) = granted-ok Wallet.freighter extensions.request_access n given in
            elim (Result-cases (authenticate profile extensions login blank n.address)) [
              | inl (x, failed) ↦ ground arith
              | inr (tt, fine) ↦
                  let same : n ≡ w = ground arith in
                  subst (IsConnected Wallet.freighter) same (record {
                    same_kind = kind;
                    some_address = ne;
                    proven = λ f. (plugged, expected, there, authenticate-IsProven n.address fine);
                    unproven = λ f. ground arith;
                  })
            ]
      ]
  attempt-IsConnected Wallet.rabet w e = elim (Option-cases extensions.rabet) [
    | inl missing ↦ unfold connect_rabet in ground arith
    | inr (access, there) ↦ elim (Result-cases (granted Wallet.rabet access)) [
      | inl (x, failed) ↦ unfold connect_rabet in ground arith
      | inr (n, given) ↦
          let (kind, ne, address) = granted-ok Wallet.rabet access n given in
          let same : n ≡ w = unfold connect_rabet in ground arith in
          subst (IsConnected Wallet.rabet) same (record {
            same_kind = kind;
            some_address = ne;
            proven = λ f. ground arith;
            unproven = λ f. (access, there, unrefused Wallet.rabet access n given, address);
          })
    ]
  ]

  -- After every attempt to connect, either a session is shown and its address is the stored one, or
  -- neither is there. A session of Freighter stands for a wallet on the network that the build is
  -- for, which gave this address and signed the message of the challenge that the API answered with for
  -- it, and the API has accepted that signature under that challenge's id (an answer that is no JSON
  -- counts as the empty challenge); one of Rabet stands for the address that its extension gave,
  -- without an error.
  pub connect-IsConnected :
      (kind : Kind) (d : Dialog)
      → let d' = connect profile extensions login blank kind d in
        ((d'.session ≡ none) × (d'.stored ≡ none))
        ⊎ ((w : WalletSession) × (d'.session ≡ some w)
            × (d'.stored ≡ some w.address)
            × IsConnected kind w)
  unfolding connect
  connect-IsConnected kind d = elim (Result-cases (attempt profile extensions login blank kind)) [
    | inl (e, failed) ↦ inl (ground arith, ground arith)
    | inr (w, fine) ↦ inr (w, ground arith, ground arith, attempt-IsConnected kind w fine)
  ]
