-- ===== src/Authorization/Invitations/SingleUse.antt =====
-- A token makes at most one account.
use nest_backend.Common.{
  ℕ, ◌≡◌, refl, ap, inl, inr, List, [], ◌∷◌, ◌++◌, Option, none, some, Bool, true, false,
  if◌then◌else◌, arith, Bool-cases,
}
use nest_backend.Common.Text.{Text}
use nest_backend.Authorization.{
  admin, Permission, Verdict, allowed, refused, is_set, status_of, assert_acceptable,
  assert_revocable, assert_role_assignable, invitation_not_pending, email_already_exists,
}
use nest_backend.Authorization.Tables.{grant}
use nest_backend.Authorization.Invitations.{
  User, AdminInvitation, State, Outcome, completes, throws, lifecycle, find_by_token_hash,
  find_by_id, mark_revoked, mark_accepted, find_pending_by_email, revoke_each, email_taken,
  username_taken, find_by_email_or_username, after_check, with_invitation, insert_user, new_account,
  accept_found, revoke_invitation, accept_invitation, invite_admin,
}
use nest_backend.Authorization.Invitations.Settled.{
  HasSettled, revoking, accepting, HasSettled-update_row, update_row-HasSettled,
  HasSettled-revoke_each, HasSettled-append,
}

-- A run that completes passed its checks.
invitation_found :
    (i : Option AdminInvitation) (run : AdminInvitation → Outcome) (v : State)
    → with_invitation i run ≡ completes v
    → (found : AdminInvitation) × (i ≡ some found) × (run found ≡ completes v)
invitation_found none run v h = absurd (ground arith)
invitation_found (some found) run v h = (found, refl, h)

passed :
    (verdict : Verdict) (next : Outcome) (v : State)
    → after_check verdict next ≡ completes v
    → next ≡ completes v
passed allowed next v h = h
passed (refused refusal) next v h = absurd (ground arith)

inserted :
    (users : List User) (account : User) (next : Outcome) (v : State)
    → insert_user users account next ≡ completes v
    → next ≡ completes v
inserted users account next v h = elim (Bool-cases (email_taken users account.email)) [
  | inl taken ↦ absurd (ground arith)
  | inr free ↦ elim (Bool-cases (username_taken users account.username)) [
    | inl taken ↦ absurd (ground arith)
    | inr unused ↦ rw (free, unused) at h
  ]
]

completed : (s v : State) → completes s ≡ completes v → s ≡ v
completed s v h = cc

module _ (sha256_hex hash_password trim to_lower_case : Text → Text) where
  -- The three requests, with what the clock, the database and the generator give.
  pub data InvitationRequest : Type 0 where
    invites : ℕ → Text → Text → List Permission → Text → Text → InvitationRequest
    accepts : ℕ → Text → Text → Text → Text → Option Text → InvitationRequest
    revokes : ℕ → Text → InvitationRequest

  abbrev pub respond : State → InvitationRequest → Outcome
  respond s (invites now actor_id address permissions token invitation_id) =
      invite_admin sha256_hex hash_password trim to_lower_case s now actor_id address permissions
        token invitation_id
  respond s (accepts now token user_id username password name) =
      accept_invitation sha256_hex hash_password trim to_lower_case s now token user_id username
        password name
  respond s (revokes now invitation_id) = revoke_invitation s now invitation_id

  -- Requests one after another; those that throw change nothing.
  pub data Leads : State → State → Type 0 where
    stays : (s : State) → Leads s s
    goes_on :
        (s next v : State) (request : InvitationRequest)
        → respond s request ≡ completes next
        → Leads next v
        → Leads s v

  accepted_row :
      (s v : State) (now : ℕ) (token user_id username password : Text) (name : Option Text)
      → respond s (accepts now token user_id username password name) ≡ completes v
      → (found : AdminInvitation) × (find_by_token_hash s.invitations (sha256_hex token)
          ≡ some found)
        × (mark_accepted found.id now user_id s.invitations ≡ v.invitations)
  unfolding accept_invitation
  accepted_row s v now token user_id username password name h =
      let account = λ (found : AdminInvitation).
        new_account sha256_hex hash_password trim to_lower_case found user_id username password
          name in
      let accept = λ (found : AdminInvitation).
        accept_found sha256_hex hash_password trim to_lower_case s now found (account found) in
      let (found, there, ran) =
        invitation_found (find_by_token_hash s.invitations (sha256_hex token))
          (λ found.
            after_check (assert_acceptable (lifecycle found) now)
              (after_check (assert_role_assignable admin) (accept found)))
          v h in
      let assignable =
        passed (assert_acceptable (lifecycle found) now)
          (after_check (assert_role_assignable admin) (accept found)) v ran in
      let insertion = passed (assert_role_assignable admin) (accept found) v assignable in
      let after : State = record {
        users = s.users ++ account found ∷ [];
        grants = grant s.grants user_id found.permissions found.invited_by_id;
        invitations = mark_accepted found.id now user_id s.invitations;
      } in
      let done =
        completed after v (inserted s.users (account found) (completes after) v insertion) in
      (found, there, ap (λ (r : State). r.invitations) done)

  revoked_row :
      (s v : State) (now : ℕ) (invitation_id : Text)
      → respond s (revokes now invitation_id) ≡ completes v
      → (found : AdminInvitation) × (find_by_id s.invitations invitation_id ≡ some found)
        × (mark_revoked found.id now s.invitations ≡ v.invitations)
  unfolding revoke_invitation
  revoked_row s v now invitation_id h =
      let after = λ (found : AdminInvitation).
        completes (record s { invitations = mark_revoked found.id now s.invitations }) in
      let (found, there, ran) =
        invitation_found (find_by_id s.invitations invitation_id)
          (λ found. after_check (assert_revocable (lifecycle found)) (after found)) v h in
      let done =
        completed (record s { invitations = mark_revoked found.id now s.invitations }) v
          (passed (assert_revocable (lifecycle found)) (after found) v ran) in
      (found, there, ap (λ (r : State). r.invitations) done)

  invited :
      (taken : Bool) (after v : State)
      → (if taken then throws email_already_exists else completes after) ≡ completes v
      → after ≡ v
  invited true after v h = absurd (ground arith)
  invited false after v h = completed after v h

  respond-HasSettled :
      (s v : State) (request : InvitationRequest) (h : Text)
      → respond s request ≡ completes v
      → HasSettled s.invitations h
      → HasSettled v.invitations h
  unfolding invite_admin
  respond-HasSettled s v (invites now actor_id address permissions token invitation_id) h ran
        settled =
      let email = to_lower_case (trim address) in
      let same = invited (find_by_email_or_username s.users email) _ v ran in
      rw (← same) (
        HasSettled-append
          (revoke_each (find_pending_by_email s.invitations email) now s.invitations) _ h
          (HasSettled-revoke_each (find_pending_by_email s.invitations email) now s.invitations h
            settled))
  respond-HasSettled s v (accepts now token user_id username password name) h ran settled =
      let (found, there, same) = accepted_row s v now token user_id username password name ran in
      rw (← same) (
        HasSettled-update_row
          (λ i. record i { accepted_at = some now; accepted_user_id = some user_id })
          (accepting now user_id) found.id s.invitations h settled)
  respond-HasSettled s v (revokes now invitation_id) h ran settled =
      let (found, there, same) = revoked_row s v now invitation_id ran in
      rw (← same) (
        HasSettled-update_row (λ i. record i { revoked_at = some now }) (revoking now) found.id
          s.invitations h settled)

  Leads-HasSettled :
      (s v : State) (h : Text) → Leads s v → HasSettled s.invitations h → HasSettled v.invitations h
  Leads-HasSettled s v h (stays s') settled = settled
  Leads-HasSettled s v h (goes_on s' next v' request ran rest) settled =
      Leads-HasSettled next v h rest (respond-HasSettled s next request h ran settled)

  settled_refused :
      (s : State) (now : ℕ) (token user_id username password : Text) (name : Option Text)
      → HasSettled s.invitations (sha256_hex token)
      → respond s (accepts now token user_id username password name) ≡ throws invitation_not_pending
  unfolding accept_invitation assert_acceptable status_of
  settled_refused s now token user_id username password name (found, there, settled) =
      rw there (elim (Bool-cases (is_set found.accepted_at)) [
        | inl accepted_before ↦ rw accepted_before refl
        | inr unaccepted ↦
            let withdrawn : is_set found.revoked_at ≡ true = ground arith in
            rw (unaccepted, withdrawn) refl
      ])

  -- Once a token has been accepted, every later attempt to accept it, after any sequence of
  -- requests that invite, accept or revoke and at any time, is refused because the invitation is
  -- not pending.
  pub accept_once :
      (s next v : State) (now later : ℕ) (token user_id username password : Text)
      (name : Option Text) (user_id' username' password' : Text) (name' : Option Text)
      → respond s (accepts now token user_id username password name) ≡ completes next
      → Leads next v
      → respond v (accepts later token user_id' username' password' name')
        ≡ throws invitation_not_pending
  accept_once s next v now later token user_id username password name user_id' username' password'
        name' ran rest =
      let (found, there, same) = accepted_row s next now token user_id username password name ran in
      let settled : HasSettled next.invitations (sha256_hex token) = rw (← same) (
        update_row-HasSettled
          (λ i. record i { accepted_at = some now; accepted_user_id = some user_id })
          (accepting now user_id) s.invitations (sha256_hex token) found there) in
      settled_refused v later token user_id' username' password' name'
        (Leads-HasSettled next v (sha256_hex token) rest settled)

  -- Once the invitation that a token and its identifier find has been revoked, every attempt to
  -- accept the token, after any sequence of requests that invite, accept or revoke and at any
  -- time, is refused because the invitation is not pending.
  pub accept_revoked :
      (s next v : State) (now later : ℕ) (invitation : AdminInvitation)
      (token user_id username password : Text) (name : Option Text)
      → find_by_token_hash s.invitations (sha256_hex token) ≡ some invitation
      → find_by_id s.invitations invitation.id ≡ some invitation
      → respond s (revokes now invitation.id) ≡ completes next
      → Leads next v
      → respond v (accepts later token user_id username password name)
        ≡ throws invitation_not_pending
  accept_revoked s next v now later invitation token user_id username password name there known ran
        rest =
      let (found, by_id, same) = revoked_row s next now invitation.id ran in
      let one : found ≡ invitation = ground (arith, by_id, known) in
      let row : mark_revoked invitation.id now s.invitations ≡ next.invitations = rw one at same in
      let settled : HasSettled next.invitations (sha256_hex token) = rw (← row) (
        update_row-HasSettled (λ i. record i { revoked_at = some now }) (revoking now) s.invitations
          (sha256_hex token) invitation there) in
      settled_refused v later token user_id username password name
        (Leads-HasSettled next v (sha256_hex token) rest settled)
