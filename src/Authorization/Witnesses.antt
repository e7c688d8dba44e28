-- ===== src/Authorization/Witnesses.antt =====
-- The theorems about authorization at concrete inputs.
use nest_backend.Common.{◌↔◌, ◌≡◌, refl, [], ◌∷◌, none, some, arith, true, not, ◌&&◌, any, all}
use nest_backend.Common.Text.{codes}
use nest_backend.Authorization.{
  admin, user_read, user_suspend, audit_read, admin_read, has, is_owner_only, AuthorizationActor,
  Grants, can, effective_permissions_of, assert_can_delegate, InvitationLifecycle, is_pending,
  status_of, assert_acceptable, assert_revocable, allowed,
}
use nest_backend.Authorization.Evaluation.{
  effective_agrees, allows, delegate_agrees, is_granted, can-is_granted,
}
use nest_backend.Authorization.Accounts.{
  Manageable, load_manageable_admin-Manageable, load_manageable_admin_hidden,
}
use nest_backend.Authorization.{
  owner, permission_grant, ProtectedAccount, found, load_manageable_admin, assert_not_self,
}
use nest_backend.Common.{Option, if◌then◌else◌, ◌≢◌}
use nest_backend.Common.Text.{Text, text_eq}
use nest_backend.Authorization.Invitation.{is_pending-earlier}

abbrev some_grants : Grants
some_grants = record {
  direct = λ id. user_read ∷ admin_read ∷ [];
  via_roles = λ id. user_suspend ∷ user_read ∷ [];
}

abbrev administrator : AuthorizationActor
administrator = record { id = codes "a"; role = admin }

effective_agrees_example :
    has (effective_permissions_of some_grants administrator) admin_read
    ≡ can some_grants administrator (admin_read ∷ [])
effective_agrees_example = effective_agrees some_grants administrator admin_read

delegate_agrees_example :
    allows (assert_can_delegate some_grants administrator (user_read ∷ user_suspend ∷ [])) ≡ (
      can some_grants administrator (user_read ∷ user_suspend ∷ [])
      && not (any is_owner_only (user_read ∷ user_suspend ∷ [])))
delegate_agrees_example = delegate_agrees some_grants administrator (user_read ∷ user_suspend ∷ [])

can-is_granted_example :
    (administrator.role ≡ owner
      → can some_grants administrator (user_suspend ∷ audit_read ∷ []) ≡ true)
    × (administrator.role ≢ owner
        → can some_grants administrator (user_suspend ∷ audit_read ∷ [])
          ≡ all (is_granted some_grants administrator.id) (user_suspend ∷ audit_read ∷ []))
can-is_granted_example = can-is_granted some_grants administrator (user_suspend ∷ audit_read ∷ [])

abbrev invitation : InvitationLifecycle
invitation = record { expires_at = 1000; accepted_at = none; revoked_at = none }

invitation_pends : is_pending invitation 999 ≡ true
unfolding is_pending status_of
invitation_pends = refl

is_pending-earlier_example :
    (assert_acceptable invitation 5 ≡ allowed) × (assert_revocable invitation ≡ allowed)
is_pending-earlier_example = is_pending-earlier invitation 5 999 (omega arith) invitation_pends

abbrev known_accounts : Text → Option ProtectedAccount
known_accounts id =
    if text_eq id (codes "b")
    then some (record { id = id; role = admin })
    else if text_eq id (codes "o")
    then some (record { id = id; role = owner })
    else none

loaded_run :
    load_manageable_admin known_accounts (codes "a") (codes "b") permission_grant
    ≡ found (record { id = codes "b"; role = admin })
unfolding load_manageable_admin assert_not_self
loaded_run = refl

load_manageable_admin-Manageable_example :
    (load_manageable_admin known_accounts (codes "a") (codes "b") permission_grant
      ≡ found (record { id = codes "b"; role = admin }))
    ↔ Manageable known_accounts (codes "a") (codes "b") (record { id = codes "b"; role = admin })
load_manageable_admin-Manageable_example =
    load_manageable_admin-Manageable known_accounts (codes "a") (codes "b") permission_grant
      (record { id = codes "b"; role = admin })

abbrev no_accounts : Text → Option ProtectedAccount
no_accounts id = none

owner_no_admin : owner ≢ admin
owner_no_admin = λ e. cc

load_manageable_admin_hidden_example :
    load_manageable_admin known_accounts (codes "a") (codes "o") permission_grant
    ≡ load_manageable_admin no_accounts (codes "a") (codes "o") permission_grant
load_manageable_admin_hidden_example =
    load_manageable_admin_hidden known_accounts no_accounts (codes "a") (codes "o") permission_grant
      (record { id = codes "o"; role = owner }) refl owner_no_admin refl
