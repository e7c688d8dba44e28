-- ===== src/Authorization.antt =====
-- src/features/authorization/domain: roles, permissions and the policies on accounts, roles and
-- invitations. An identifier is a text, and an assertion returns whether it refuses and why.
pub mod Evaluation
pub mod Invitation
pub mod Accounts
pub mod Tables
pub mod UseCases
pub mod Invitations
mod Witnesses
use nest_backend.Common.{
  ℕ, ◌≡◌, List, [], ◌∷◌, ◌++◌, Option, none, some, Bool, true, false, not, ◌&&◌, ◌||◌,
  if◌then◌else◌, leb, ltb, ◌==◌, any, all, is_empty,
}
use nest_backend.Common.Text.{Text, text_eq}

pub data UserRole : Type 0 where
  owner admin user : UserRole

-- `RANK`
abbrev pub rank : UserRole → ℕ
rank owner = 30
rank admin = 20
rank user = 10

abbrev pub admin_rank : ℕ
admin_rank = 20

unfoldable pub satisfies : UserRole → UserRole → Bool
satisfies role minimum = leb (rank minimum) (rank role)

abbrev pub bypasses_authorization : UserRole → Bool
bypasses_authorization owner = true
bypasses_authorization admin = false
bypasses_authorization user = false

unfoldable pub is_administrative : UserRole → Bool
is_administrative role = leb admin_rank (rank role)

pub data Permission : Type 0 where
  user_read user_create user_update user_delete user_suspend user_unsuspend : Permission
  admin_read admin_invite admin_update admin_delete admin_status role_assign : Permission
  role_read role_create role_update role_delete audit_read system_settings : Permission

-- The place of a permission in the enum, which tells permissions apart.
abbrev pub code : Permission → ℕ
code user_read = 0
code user_create = 1
code user_update = 2
code user_delete = 3
code user_suspend = 4
code user_unsuspend = 5
code admin_read = 6
code admin_invite = 7
code admin_update = 8
code admin_delete = 9
code admin_status = 10
code role_assign = 11
code role_read = 12
code role_create = 13
code role_update = 14
code role_delete = 15
code audit_read = 16
code system_settings = 17

-- `ALL_PERMISSIONS`
abbrev pub all_permissions : List Permission
all_permissions =
    user_read ∷ user_create ∷ user_update ∷ user_delete ∷ user_suspend ∷ user_unsuspend ∷ admin_read
    ∷ admin_invite ∷ admin_update ∷ admin_delete ∷ admin_status ∷ role_assign ∷ role_read
    ∷ role_create ∷ role_update ∷ role_delete ∷ audit_read ∷ system_settings ∷ []

-- `isOwnerOnly`, by `PERMISSION_CATALOG`.
abbrev pub is_owner_only : Permission → Bool
is_owner_only user_read = false
is_owner_only user_create = false
is_owner_only user_update = false
is_owner_only user_delete = false
is_owner_only user_suspend = false
is_owner_only user_unsuspend = false
is_owner_only admin_read = true
is_owner_only admin_invite = true
is_owner_only admin_update = true
is_owner_only admin_delete = true
is_owner_only admin_status = true
is_owner_only role_assign = true
is_owner_only role_read = true
is_owner_only role_create = true
is_owner_only role_update = true
is_owner_only role_delete = true
is_owner_only audit_read = false
is_owner_only system_settings = false

-- `held.has(permission)`
abbrev pub has : List Permission → Permission → Bool
has [] p = false
has (q ∷ held) p = (code q == code p) || has held p

abbrev pub filter : (Permission → Bool) → List Permission → List Permission
filter test [] = []
filter test (p ∷ permissions) =
    if test p then p ∷ filter test permissions else filter test permissions

-- `DELEGABLE_PERMISSIONS`
abbrev pub delegable_permissions : List Permission
delegable_permissions = filter (λ p. not (is_owner_only p)) all_permissions

pub data ProtectedAction : Type 0 where
  suspend unsuspend delete status_change role_change profile_update permission_grant
        permission_revoke :
      ProtectedAction

-- What an assertion throws.
pub data Refusal : Type 0 where
  owner_immutable self_management_forbidden : ProtectedAction → Refusal
  owner_role_not_assignable invitation_expired invitation_not_pending access_denied : Refusal
  role_not_found role_has_assignments invitation_not_found : Refusal
  email_already_exists username_already_exists database_error : Refusal
  role_protected user_not_found role_name_conflict : Text → Refusal
  permission_reserved_to_owner permission_not_held : List Permission → Refusal

pub data Verdict : Type 0 where
  allowed : Verdict
  refused : Refusal → Verdict

pub record ProtectedAccount : Type 0 where
  pub id : Text
  pub role : UserRole

unfoldable pub assert_not_owner : ProtectedAccount → ProtectedAction → Verdict
assert_not_owner account action =
    if bypasses_authorization account.role then refused (owner_immutable action) else allowed

unfoldable pub assert_deletable : ProtectedAccount → Verdict
assert_deletable account = assert_not_owner account delete

unfoldable pub assert_role_assignable : UserRole → Verdict
assert_role_assignable role =
    if bypasses_authorization role then refused owner_role_not_assignable else allowed

unfoldable pub assert_not_self : Text → Text → ProtectedAction → Verdict
assert_not_self actor_id target_id action =
    if text_eq actor_id target_id then refused (self_management_forbidden action) else allowed

-- `RoleProtectionPolicy.assertMutable`
unfoldable pub assert_mutable : Bool → Text → Verdict
assert_mutable is_system action = if is_system then refused (role_protected action) else allowed

pub data AdminInvitationStatus : Type 0 where
  pending accepted revoked expired : AdminInvitationStatus

-- Dates are their milliseconds.
pub record InvitationLifecycle : Type 0 where
  pub expires_at : ℕ
  pub accepted_at : Option ℕ
  pub revoked_at : Option ℕ

abbrev pub is_set : Option ℕ → Bool
is_set none = false
is_set (some date) = true

unfoldable pub status_of : InvitationLifecycle → ℕ → AdminInvitationStatus
status_of invitation now =
    if is_set invitation.accepted_at
    then accepted
    else if is_set invitation.revoked_at
    then revoked
    else if leb invitation.expires_at now
    then expired
    else pending

abbrev pub is_pending_status : AdminInvitationStatus → Bool
is_pending_status pending = true
is_pending_status accepted = false
is_pending_status revoked = false
is_pending_status expired = false

unfoldable pub is_pending : InvitationLifecycle → ℕ → Bool
is_pending invitation now = is_pending_status (status_of invitation now)

abbrev pub acceptance : AdminInvitationStatus → Verdict
acceptance pending = allowed
acceptance expired = refused invitation_expired
acceptance accepted = refused invitation_not_pending
acceptance revoked = refused invitation_not_pending

unfoldable pub assert_acceptable : InvitationLifecycle → ℕ → Verdict
assert_acceptable invitation now = acceptance (status_of invitation now)

unfoldable pub assert_revocable : InvitationLifecycle → Verdict
assert_revocable invitation =
    if is_set invitation.accepted_at || is_set invitation.revoked_at
    then refused invitation_not_pending
    else allowed

-- src/features/authorization/application/services/permission-evaluation.service.ts. The two
-- repositories are functions of the account.
pub record AuthorizationActor : Type 0 where
  pub id : Text
  pub role : UserRole

-- `findByUserId` and `permissionsForUser`
pub record Grants : Type 0 where
  pub direct : Text → List Permission
  pub via_roles : Text → List Permission

-- A `Set` is the list of its members in the order of insertion.
abbrev pub add_all : List Permission → List Permission → List Permission
add_all set [] = set
add_all set (p ∷ permissions) =
    if has set p then add_all set permissions else add_all (set ++ p ∷ []) permissions

unfoldable pub held_permissions : Grants → Text → List Permission
held_permissions grants id = add_all [] (grants.direct id ++ grants.via_roles id)

unfoldable pub can : Grants → AuthorizationActor → List Permission → Bool
can grants actor required =
    if bypasses_authorization actor.role
    then true
    else if is_empty required
    then true
    else if any is_owner_only required
    then false
    else all (has (held_permissions grants actor.id)) required

unfoldable pub assert_can : Grants → AuthorizationActor → List Permission → Verdict
assert_can grants actor required =
    if can grants actor required then allowed else refused access_denied

unfoldable pub effective_permissions_of : Grants → AuthorizationActor → List Permission
effective_permissions_of grants actor =
    if bypasses_authorization actor.role
    then all_permissions
    else filter (λ p. not (is_owner_only p)) (held_permissions grants actor.id)

unfoldable pub assert_can_delegate : Grants → AuthorizationActor → List Permission → Verdict
assert_can_delegate grants actor permissions =
    let reserved = filter is_owner_only permissions in
    let missing = filter (λ p. not (has (effective_permissions_of grants actor) p)) permissions in
    if not (is_empty reserved)
    then refused (permission_reserved_to_owner reserved)
    else if not (is_empty missing)
    then refused (permission_not_held missing)
    else allowed

-- src/features/authorization/application/services/admin-account.service.ts. The repository is the
-- function `find_user_for_admin`.
pub data Loaded : Type 0 where
  found : ProtectedAccount → Loaded
  failed : Refusal → Loaded

abbrev pub is_admin : UserRole → Bool
is_admin owner = false
is_admin admin = true
is_admin user = false

abbrev pub and_then : Verdict → Loaded → Loaded
and_then allowed loaded = loaded
and_then (refused refusal) loaded = failed refusal

abbrev pub admin_only : Text → Text → ProtectedAction → ProtectedAccount → Loaded
admin_only actor_id target_id action target =
    if not (is_admin target.role)
    then failed (user_not_found target_id)
    else and_then (assert_not_self actor_id target_id action) (found target)

abbrev pub manageable : Text → Text → ProtectedAction → Option ProtectedAccount → Loaded
manageable actor_id target_id action none = failed (user_not_found target_id)
manageable actor_id target_id action (some target) = admin_only actor_id target_id action target

unfoldable pub load_manageable_admin :
    (Text → Option ProtectedAccount) → Text → Text → ProtectedAction → Loaded
load_manageable_admin find_user_for_admin actor_id target_id action =
    manageable actor_id target_id action (find_user_for_admin target_id)
