-- ===== src/Authorization/Invitations.antt =====
-- invite-admin.use-case.ts, accept-admin-invitation.use-case.ts and revoke-admin-invitation.use-case.ts
-- in src/features/authorization/application/use-cases, on the tables of users, grants and invitations.
-- Parameters: `sha256_hex`, the digest of node's crypto library, `hash_password`, and `trim` and
-- `toLowerCase`. Mail and log lines are left out.
pub mod Settled
pub mod SingleUse
mod Witnesses
use nest_backend.Common.{
  ℕ, ◌+◌, ◌*◌, List, [], ◌∷◌, ◌++◌, Option, none, some, Bool, true, false, not, ◌&&◌, ◌||◌,
  if◌then◌else◌, any, filter_by,
}
use nest_backend.Common.Text.{Text, codes, text_eq}
use nest_backend.Authorization.{
  UserRole, admin, Permission, Verdict, allowed, refused, Refusal, InvitationLifecycle, is_set,
  assert_acceptable, assert_revocable, assert_role_assignable, invitation_not_found,
  email_already_exists, username_already_exists, database_error,
}
use nest_backend.Authorization.Tables.{AdminPermission, grant}

pub data UserStatus : Type 0 where
  activate deactivate suspend pending_verification : UserStatus

pub record User : Type 0 where
  pub id : Text
  pub email : Text
  pub username : Text
  pub password : Text
  pub name : Option Text
  pub role : UserRole
  pub status : UserStatus
  pub is_deleted : Bool

pub record AdminInvitation : Type 0 where
  pub id : Text
  pub email : Text
  pub token_hash : Text
  pub permissions : List Permission
  pub expires_at : ℕ
  pub accepted_at : Option ℕ
  pub revoked_at : Option ℕ
  pub invited_by_id : Option Text
  pub accepted_user_id : Option Text

pub record State : Type 0 where
  pub users : List User
  pub grants : List AdminPermission
  pub invitations : List AdminInvitation

pub data Outcome : Type 0 where
  completes : State → Outcome
  throws : Refusal → Outcome

abbrev pub lifecycle : AdminInvitation → InvitationLifecycle
lifecycle invitation = record {
  expires_at = invitation.expires_at;
  accepted_at = invitation.accepted_at;
  revoked_at = invitation.revoked_at;
}

abbrev pub find_by_token_hash : List AdminInvitation → Text → Option AdminInvitation
find_by_token_hash [] token_hash = none
find_by_token_hash (invitation ∷ invitations) token_hash =
    if text_eq invitation.token_hash token_hash
    then some invitation
    else find_by_token_hash invitations token_hash

abbrev pub find_by_id : List AdminInvitation → Text → Option AdminInvitation
find_by_id [] id = none
find_by_id (invitation ∷ invitations) id =
    if text_eq invitation.id id then some invitation else find_by_id invitations id

-- An update of the row with an identifier.
abbrev pub update_row :
    (AdminInvitation → AdminInvitation) → Text → List AdminInvitation → List AdminInvitation
update_row patch id [] = []
update_row patch id (invitation ∷ invitations) =
    let rest = update_row patch id invitations in
    if text_eq invitation.id id then patch invitation ∷ rest else invitation ∷ rest

abbrev pub mark_revoked : Text → ℕ → List AdminInvitation → List AdminInvitation
mark_revoked id revoked_at =
    update_row (λ invitation. record invitation { revoked_at = some revoked_at }) id

abbrev pub mark_accepted : Text → ℕ → Text → List AdminInvitation → List AdminInvitation
mark_accepted id accepted_at user_id =
    update_row
      (λ invitation. record invitation {
        accepted_at = some accepted_at;
        accepted_user_id = some user_id;
      })
      id

abbrev pub is_outstanding : AdminInvitation → Bool
is_outstanding invitation =
    not (is_set invitation.accepted_at) && not (is_set invitation.revoked_at)

unfoldable pub find_pending_by_email : List AdminInvitation → Text → List AdminInvitation
find_pending_by_email invitations email =
    filter_by (λ invitation. text_eq invitation.email email && is_outstanding invitation)
      invitations

abbrev pub revoke_each : List AdminInvitation → ℕ → List AdminInvitation → List AdminInvitation
revoke_each [] now invitations = invitations
revoke_each (stale ∷ outstanding) now invitations =
    revoke_each outstanding now (mark_revoked stale.id now invitations)

-- `s.startsWith(t)` and `s.includes(t)`
abbrev pub has_prefix : Text → Text → Bool
has_prefix s [] = true
has_prefix [] (d ∷ t) = false
has_prefix (c ∷ s) (d ∷ t) = text_eq (c ∷ []) (d ∷ []) && has_prefix s t

abbrev pub includes : Text → Text → Bool
includes [] t = has_prefix [] t
includes (c ∷ s) t = has_prefix (c ∷ s) t || includes s t

-- `throwOnUniqueConstraint`, on the detail of a unique violation.
unfoldable pub throw_on_unique_constraint : Text → Refusal
throw_on_unique_constraint detail =
    if includes detail (codes "email")
    then email_already_exists
    else if includes detail (codes "username")
    then username_already_exists
    else database_error

-- The detail of PostgreSQL for a key that is there.
abbrev pub unique_detail : Text → Text → Text
unique_detail column value =
    codes "Key (" ++ (column ++ (codes ")=(" ++ (value ++ codes ") already exists.")))

abbrev pub email_taken : List User → Text → Bool
email_taken users email = any (λ account. text_eq account.email email) users

abbrev pub username_taken : List User → Text → Bool
username_taken users username = any (λ account. text_eq account.username username) users

-- The existing account behind an address: the row that signs in with it, deleted rows left out.
unfoldable pub find_by_email_or_username : List User → Text → Bool
find_by_email_or_username users identifier =
    any
      (λ account.
        not account.is_deleted
        && (text_eq account.email identifier || text_eq account.username identifier))
      users

abbrev pub after_check : Verdict → Outcome → Outcome
after_check allowed outcome = outcome
after_check (refused refusal) outcome = throws refusal

abbrev pub with_invitation : Option AdminInvitation → (AdminInvitation → Outcome) → Outcome
with_invitation none run = throws invitation_not_found
with_invitation (some invitation) run = run invitation

-- `RevokeAdminInvitationUseCase.execute`
unfoldable pub revoke_invitation : State → ℕ → Text → Outcome
revoke_invitation s now invitation_id =
    with_invitation (find_by_id s.invitations invitation_id) (λ invitation.
      after_check (assert_revocable (lifecycle invitation))
        (completes (record s { invitations = mark_revoked invitation.id now s.invitations })))

-- The insertion of an account, which the unique keys of the users may refuse.
abbrev pub insert_user : List User → User → Outcome → Outcome
insert_user users account next =
    if email_taken users account.email
    then throws (throw_on_unique_constraint (unique_detail (codes "email") account.email))
    else if username_taken users account.username
    then throws (throw_on_unique_constraint (unique_detail (codes "username") account.username))
    else next

abbrev pub invitation_ttl_ms : ℕ
invitation_ttl_ms = 48 * 60 * 60 * 1000

module _ (sha256_hex hash_password trim to_lower_case : Text → Text) where
  abbrev pub new_account : AdminInvitation → Text → Text → Text → Option Text → User
  new_account invitation user_id username password name = record {
    id = user_id;
    email = invitation.email;
    username = username;
    password = hash_password password;
    name = name;
    role = admin;
    status = activate;
    is_deleted = false;
  }

  -- The transaction of an acceptance; `user_id` is the identifier that the database makes.
  abbrev pub accept_found : State → ℕ → AdminInvitation → User → Outcome
  accept_found s now invitation account = insert_user s.users account (
      completes (record {
        users = s.users ++ account ∷ [];
        grants = grant s.grants account.id invitation.permissions invitation.invited_by_id;
        invitations = mark_accepted invitation.id now account.id s.invitations;
      }))

  -- `AcceptAdminInvitationUseCase.execute`
  unfoldable pub accept_invitation : State → ℕ → Text → Text → Text → Text → Option Text → Outcome
  accept_invitation s now token user_id username password name =
      with_invitation (find_by_token_hash s.invitations (sha256_hex token)) (λ invitation.
        after_check (assert_acceptable (lifecycle invitation) now) (
          after_check (assert_role_assignable admin) (
            accept_found s now invitation (new_account invitation user_id username password name))))

  -- `InviteAdminUseCase.execute`; `token` and `invitation_id` are what the generator and the database
  -- make, a token that is there already left out.
  unfoldable pub invite_admin : State → ℕ → Text → Text → List Permission → Text → Text → Outcome
  invite_admin s now actor_id address permissions token invitation_id =
      let email = to_lower_case (trim address) in
      let superseded = revoke_each (find_pending_by_email s.invitations email) now s.invitations in
      let invitation : AdminInvitation = record {
        id = invitation_id;
        email = email;
        token_hash = sha256_hex token;
        permissions = permissions;
        expires_at = now + invitation_ttl_ms;
        accepted_at = none;
        revoked_at = none;
        invited_by_id = some actor_id;
        accepted_user_id = none;
      } in
      if find_by_email_or_username s.users email
      then throws email_already_exists
      else completes (record s { invitations = superseded ++ invitation ∷ [] })
