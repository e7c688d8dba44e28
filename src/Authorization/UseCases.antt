-- ===== src/Authorization/UseCases.antt =====
-- src/features/authorization/application/use-cases: the use cases that change grants and roles. Each
-- reads the tables, and either throws or returns the new ones. The accounts are the function
-- `find_user_for_admin`, and log lines are left out.
pub mod Runs
pub mod Escalation
pub mod SystemRoles
mod Witnesses
use nest_backend.Common.{
  ℕ, List, [], ◌∷◌, ◌++◌, Option, none, some, Bool, true, false, if◌then◌else◌, ltb,
}
use nest_backend.Common.Text.{Text, codes, text_eq}
use nest_backend.Authorization.{
  Permission, AuthorizationActor, Grants, ProtectedAccount, ProtectedAction, permission_grant,
  permission_revoke, role_change, Verdict, allowed, refused, Refusal, role_not_found,
  role_has_assignments, role_name_conflict, user_not_found, Loaded, found, failed,
  load_manageable_admin, assert_can_delegate, assert_not_owner, assert_not_self, assert_mutable,
}
use nest_backend.Authorization.Tables.{
  Tables, Role, find_by_user_id, grant, revoke, find_role, find_by_name, update, permissions_of,
  set_permissions, delete_rows, assign, unassign, count_assignments, permissions_for_user,
  get_or_keep,
}

pub data Run : Type 0 where
  completes : Tables → Run
  throws : Refusal → Run

-- What follows an assertion.
abbrev pub check : Verdict → Run → Run
check allowed run = run
check (refused refusal) run = throws refusal

abbrev pub with_loaded : Loaded → Run → Run
with_loaded (found target) run = run
with_loaded (failed refusal) run = throws refusal

abbrev pub with_role : Option Role → (Role → Run) → Run
with_role none run = throws role_not_found
with_role (some role) run = run role

abbrev pub with_account : Option ProtectedAccount → Text → (ProtectedAccount → Run) → Run
with_account none user_id run = throws (user_not_found user_id)
with_account (some target) user_id run = run target

-- What the evaluation reads of the tables.
abbrev pub grants_of : Tables → Grants
grants_of t = record { direct = find_by_user_id t.grants; via_roles = permissions_for_user t }

-- The role that a name conflicts with: the unique key on the names.
abbrev pub name_taken : Option Role → Text → Bool
name_taken none id = false
name_taken (some role) id = if text_eq role.id id then false else true

abbrev pub renamed_onto : List Role → Text → Option Text → Option Text
renamed_onto roles id none = none
renamed_onto roles id (some name) =
    if name_taken (find_by_name roles name) id then some name else none

abbrev pub unless_conflict : Option Text → Run → Run
unless_conflict none run = run
unless_conflict (some name) run = throws (role_name_conflict name)

-- `CreateRoleUseCase.execute`; the database makes the identifier.
abbrev pub created : Option Role → Text → Run → Run
created none name run = run
created (some role) name run = throws (role_name_conflict name)

abbrev pub new_role : Text → Text → Option Text → Role
new_role id name description = record {
  id = id;
  name = name;
  description = get_or_keep description [];
  is_system = false;
}

unfoldable pub create_role : Tables → Text → Text → Option Text → Run
create_role t id name description =
    created (find_by_name t.roles name) name
      (completes (record t { roles = t.roles ++ new_role id name description ∷ [] }))

unfoldable pub update_role : Tables → Text → Option Text → Option Text → Run
update_role t role_id name description = with_role (find_role t.roles role_id) (λ role.
    check (assert_mutable role.is_system (codes "RENAME")) (
      unless_conflict (renamed_onto t.roles role_id name)
        (completes (record t { roles = update t.roles role_id name description }))))

unfoldable pub delete_role : Tables → Text → Run
delete_role t role_id = with_role (find_role t.roles role_id) (λ role.
    check (assert_mutable role.is_system (codes "DELETE")) (
      if ltb 0 (count_assignments t.assignments role_id)
      then throws role_has_assignments
      else completes (delete_rows t role_id)))

unfoldable pub set_role_permissions : Tables → AuthorizationActor → Text → List Permission → Run
set_role_permissions t actor role_id permissions = with_role (find_role t.roles role_id) (λ role.
    check (assert_mutable role.is_system (codes "PERMISSION_CHANGE")) (
      check (assert_can_delegate (grants_of t) actor permissions) (
        completes (record t {
          role_permissions = set_permissions t.role_permissions role_id permissions;
        }))))

-- A request, after its guards and the validation of its body.
pub data Command : Type 0 where
  creates_role : Text → Text → Option Text → Command
  updates_role : Text → Option Text → Option Text → Command
  deletes_role : Text → Command
  sets_permissions : AuthorizationActor → Text → List Permission → Command
  grants_permissions revokes_permissions : AuthorizationActor → Text → List Permission → Command
  assigns_role unassigns_role : AuthorizationActor → Text → Text → Command

module _ (find_user_for_admin : Text → Option ProtectedAccount) where
  unfoldable pub grant_permissions : Tables → AuthorizationActor → Text → List Permission → Run
  grant_permissions t actor target_id permissions =
      with_loaded (load_manageable_admin find_user_for_admin actor.id target_id permission_grant) (
        check (assert_can_delegate (grants_of t) actor permissions)
          (completes (record t { grants = grant t.grants target_id permissions (some actor.id) })))

  unfoldable pub revoke_permissions : Tables → AuthorizationActor → Text → List Permission → Run
  revoke_permissions t actor target_id permissions =
      with_loaded (load_manageable_admin find_user_for_admin actor.id target_id permission_revoke) (
        check (assert_can_delegate (grants_of t) actor permissions)
          (completes (record t { grants = revoke t.grants target_id permissions })))

  unfoldable pub assign_role : Tables → AuthorizationActor → Text → Text → Run
  assign_role t actor user_id role_id =
      with_account (find_user_for_admin user_id) user_id (λ target.
        check (assert_not_owner target role_change) (
          check (assert_not_self actor.id user_id role_change) (
            with_role (find_role t.roles role_id) (λ role.
              check
                (assert_can_delegate (grants_of t) actor
                  (permissions_of t.role_permissions role_id))
                (completes (record t {
                  assignments = assign t.assignments user_id role_id (some actor.id);
                }))))))

  unfoldable pub unassign_role : Tables → AuthorizationActor → Text → Text → Run
  unassign_role t actor user_id role_id =
      with_account (find_user_for_admin user_id) user_id (λ target.
        check (assert_not_owner target role_change) (
          check (assert_not_self actor.id user_id role_change)
            (completes (record t { assignments = unassign t.assignments user_id role_id }))))

  abbrev pub execute : Tables → Command → Run
  execute t (creates_role id name description) = create_role t id name description
  execute t (updates_role role_id name description) = update_role t role_id name description
  execute t (deletes_role role_id) = delete_role t role_id
  execute t (sets_permissions actor role_id permissions) =
      set_role_permissions t actor role_id permissions
  execute t (grants_permissions actor target_id permissions) =
      grant_permissions t actor target_id permissions
  execute t (revokes_permissions actor target_id permissions) =
      revoke_permissions t actor target_id permissions
  execute t (assigns_role actor user_id role_id) = assign_role t actor user_id role_id
  execute t (unassigns_role actor user_id role_id) = unassign_role t actor user_id role_id
