-- ===== src/Authorization/Invitations/Settled.antt =====
-- An invitation that is settled stays settled.
use nest_backend.Common.{
  ℕ, ◌≡◌, refl, sym, ◌∙◌, ap, inl, inr, List, [], ◌∷◌, ◌++◌, some, true, false, arith, Bool-cases,
}
use nest_backend.Common.Text.{Text, text_eq}
use nest_backend.Common.Text.Order.{text_eq_refl}
use nest_backend.Authorization.Invitations.{
  AdminInvitation, find_by_token_hash, update_row, mark_revoked, is_outstanding, revoke_each,
}

-- The invitation that a token's digest finds was accepted or revoked.
abbrev pub HasSettled : List AdminInvitation → Text → Type 0
HasSettled invitations token_hash =
    (invitation : AdminInvitation) × (find_by_token_hash invitations token_hash ≡ some invitation)
    × (is_outstanding invitation ≡ false)

-- A change of a row that keeps its digest and settles no less.
pub record Settling (patch : AdminInvitation → AdminInvitation) : Type 0 where
  pub keeps : (i : AdminInvitation) → (patch i).token_hash ≡ i.token_hash
  pub settles : (i : AdminInvitation) → is_outstanding (patch i) ≡ false

head_settled :
    (i : AdminInvitation) (invitations : List AdminInvitation) (h : Text)
    → text_eq i.token_hash h ≡ true
    → is_outstanding i ≡ false
    → HasSettled (i ∷ invitations) h
head_settled i invitations h same settled = (i, rw same refl, settled)

tail_settled :
    (i : AdminInvitation) (invitations : List AdminInvitation) (h : Text)
    → text_eq i.token_hash h ≡ false
    → HasSettled invitations h
    → HasSettled (i ∷ invitations) h
tail_settled i invitations h other (found, there, settled) = (found, rw other there, settled)

settled_head :
    (i : AdminInvitation) (invitations : List AdminInvitation) (h : Text)
    → text_eq i.token_hash h ≡ true
    → HasSettled (i ∷ invitations) h
    → is_outstanding i ≡ false
settled_head i invitations h same (found, there, settled) =
    let one : i ≡ found = ground (arith, rw same at there) in ap is_outstanding one ∙ settled

settled_tail :
    (i : AdminInvitation) (invitations : List AdminInvitation) (h : Text)
    → text_eq i.token_hash h ≡ false
    → HasSettled (i ∷ invitations) h
    → HasSettled invitations h
settled_tail i invitations h other (found, there, settled) = (found, rw other at there, settled)

module _ (patch : AdminInvitation → AdminInvitation) (settling : Settling patch) where
  pub HasSettled-update_row :
      (id : Text) (invitations : List AdminInvitation) (h : Text)
      → HasSettled invitations h
      → HasSettled (update_row patch id invitations) h
  HasSettled-update_row id [] h settled = settled
  HasSettled-update_row id (i ∷ invitations) h settled = elim (Bool-cases (text_eq i.id id)) [
    | inl here ↦
        let digest : text_eq (patch i).token_hash h ≡ text_eq i.token_hash h =
          ap (λ (t : Text). text_eq t h) (settling.keeps i) in
        rw here (elim (Bool-cases (text_eq i.token_hash h)) [
          | inl same ↦
              head_settled (patch i) (update_row patch id invitations) h (digest ∙ same)
                (settling.settles i)
          | inr other ↦
              tail_settled (patch i) (update_row patch id invitations) h (digest ∙ other) (
                HasSettled-update_row id invitations h (settled_tail i invitations h other settled))
        ])
    | inr elsewhere ↦ rw elsewhere (elim (Bool-cases (text_eq i.token_hash h)) [
      | inl same ↦
          head_settled i (update_row patch id invitations) h same
            (settled_head i invitations h same settled)
      | inr other ↦
          tail_settled i (update_row patch id invitations) h other
            (HasSettled-update_row id invitations h (settled_tail i invitations h other settled))
    ])
  ]

  -- The change settles the row that it finds.
  pub update_row-HasSettled :
      (invitations : List AdminInvitation) (h : Text) (found : AdminInvitation)
      → find_by_token_hash invitations h ≡ some found
      → HasSettled (update_row patch found.id invitations) h
  update_row-HasSettled [] h found e = absurd (ground arith)
  update_row-HasSettled (i ∷ invitations) h found e =
      let digest : text_eq (patch i).token_hash h ≡ text_eq i.token_hash h =
        ap (λ (t : Text). text_eq t h) (settling.keeps i) in
      elim (Bool-cases (text_eq i.token_hash h)) [
        | inl same ↦
            let one : i ≡ found = ground (arith, rw same at e) in
            let here : text_eq i.id found.id ≡ true =
              ap (λ (j : AdminInvitation). text_eq i.id j.id) (sym one) ∙ text_eq_refl i.id in
            rw here (
              head_settled (patch i) (update_row patch found.id invitations) h (digest ∙ same)
                (settling.settles i))
        | inr other ↦
            let rest = update_row-HasSettled invitations h found (rw other at e) in
            elim (Bool-cases (text_eq i.id found.id)) [
              | inl here ↦ rw here (
                  tail_settled (patch i) (update_row patch found.id invitations) h (digest ∙ other)
                    rest)
              | inr elsewhere ↦
                  rw elsewhere (tail_settled i (update_row patch found.id invitations) h other rest)
            ]
      ]

pub revoking : (now : ℕ) → Settling (λ i. record i { revoked_at = some now })
revoking now = record { keeps = λ i. refl; settles = λ i. ground arith }

pub accepting :
    (now : ℕ) (user_id : Text)
    → Settling (λ i. record i { accepted_at = some now; accepted_user_id = some user_id })
accepting now user_id = record { keeps = λ i. refl; settles = λ i. refl }

pub HasSettled-revoke_each :
    (stale : List AdminInvitation) (now : ℕ) (invitations : List AdminInvitation) (h : Text)
    → HasSettled invitations h
    → HasSettled (revoke_each stale now invitations) h
HasSettled-revoke_each [] now invitations h settled = settled
HasSettled-revoke_each (i ∷ stale) now invitations h settled =
    HasSettled-revoke_each stale now (mark_revoked i.id now invitations) h (
      HasSettled-update_row (λ j. record j { revoked_at = some now }) (revoking now) i.id
        invitations h settled)

pub HasSettled-append :
    (invitations more : List AdminInvitation) (h : Text)
    → HasSettled invitations h
    → HasSettled (invitations ++ more) h
HasSettled-append [] more h (found, there, settled) = absurd (ground arith)
HasSettled-append (i ∷ invitations) more h settled = elim (Bool-cases (text_eq i.token_hash h)) [
  | inl same ↦
      head_settled i (invitations ++ more) h same (settled_head i invitations h same settled)
  | inr other ↦
      tail_settled i (invitations ++ more) h other
        (HasSettled-append invitations more h (settled_tail i invitations h other settled))
]
