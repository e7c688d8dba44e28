-- ===== src/Authorization/UseCases/Witnesses.antt =====
-- The theorems about the use cases at concrete inputs, and runs of them.
use nest_backend.Common.{◌≡◌, refl, ◌⊎◌, [], ◌∷◌, Option, none, some, true, false}
use nest_backend.Common.Text.{Text, codes}
use nest_backend.Authorization.{
  owner, admin, user_read, AuthorizationActor, ProtectedAccount, assert_can_delegate,
  effective_permissions_of, held_permissions, load_manageable_admin, assert_not_self,
  assert_mutable, role_protected, role_has_assignments,
}
use nest_backend.Authorization.Tables.{Tables, Role, permissions_for_user, count_assignments}
use nest_backend.Authorization.UseCases.{
  completes, throws, grants_permissions, execute, grant_permissions, set_role_permissions,
  delete_role,
}
use nest_backend.Authorization.UseCases.Escalation.{
  Holds, Delegates, Reaches, stays, answers, NothingReserved, execute_gains,
  Reaches-NothingReserved,
}
use nest_backend.Authorization.UseCases.SystemRoles.{HasSystemRole, Reaches-HasSystemRole}

abbrev system_role : Role
system_role = record { id = codes "s"; name = codes "ADMIN"; description = []; is_system = true }

abbrev custom_role : Role
custom_role = record { id = codes "r"; name = codes "support"; description = []; is_system = false }

abbrev seeded : Tables
seeded = record {
  grants = [];
  roles = system_role ∷ custom_role ∷ [];
  role_permissions = [];
  assignments = [];
}

-- Every other account is an administrator.
abbrev everyone : Text → Option ProtectedAccount
everyone id = some (record { id = id; role = admin })

abbrev the_owner : AuthorizationActor
the_owner = record { id = codes "o"; role = owner }

abbrev granted : Tables
granted = record seeded {
  grants =
      (record { user_id = codes "b"; permission = user_read; granted_by_id = some (codes "o") })
      ∷ [];
}

grant_run :
    execute everyone seeded (grants_permissions the_owner (codes "b") (user_read ∷ []))
    ≡ completes granted
unfolding grant_permissions load_manageable_admin assert_can_delegate effective_permissions_of
    assert_not_self
grant_run = refl

held_after_grant : Holds granted (codes "b") user_read
unfolding held_permissions permissions_for_user
held_after_grant = refl

execute_gains_example :
    Holds seeded (codes "b") user_read
    ⊎ Delegates seeded (grants_permissions the_owner (codes "b") (user_read ∷ [])) user_read
execute_gains_example =
    execute_gains everyone seeded granted
      (grants_permissions the_owner (codes "b") (user_read ∷ [])) (codes "b") user_read grant_run
      held_after_grant

seeded-NothingReserved : NothingReserved seeded
unfolding held_permissions permissions_for_user
seeded-NothingReserved user p h = absurd (cc)

one_request : Reaches everyone seeded granted
one_request =
    answers seeded granted granted (grants_permissions the_owner (codes "b") (user_read ∷ []))
      grant_run (stays granted)

Reaches-NothingReserved_example : NothingReserved granted
Reaches-NothingReserved_example =
    Reaches-NothingReserved everyone seeded granted seeded-NothingReserved one_request

seeded-HasSystemRole : HasSystemRole seeded system_role []
seeded-HasSystemRole = record { there = refl; is_system = refl; holds = refl }

Reaches-HasSystemRole_example : HasSystemRole granted system_role []
Reaches-HasSystemRole_example =
    Reaches-HasSystemRole everyone seeded granted system_role [] seeded-HasSystemRole one_request

system_role_run :
    set_role_permissions seeded the_owner (codes "s") (user_read ∷ [])
    ≡ throws (role_protected (codes "PERMISSION_CHANGE"))
unfolding set_role_permissions assert_mutable
system_role_run = refl

assigned_role_run :
    delete_role
      (record seeded {
        assignments =
            (record { user_id = codes "b"; role_id = codes "r"; assigned_by_id = none }) ∷ [];
      })
      (codes "r")
    ≡ throws role_has_assignments
unfolding delete_role assert_mutable count_assignments
assigned_role_run = refl
