-- ===== src/Authorization/UseCases/Runs.antt =====
-- A run that completes passed every check of its use case.
use nest_backend.Common.{
  ◌≡◌, refl, List, [], ◌∷◌, ◌++◌, Option, none, some, Bool, true, false, if◌then◌else◌, ltb, arith,
}
use nest_backend.Common.Text.{Text, codes}
use nest_backend.Authorization.{
  Permission, AuthorizationActor, ProtectedAccount, permission_grant, permission_revoke,
  role_change, Verdict, allowed, refused, role_has_assignments, Loaded, found, failed,
  load_manageable_admin, assert_can_delegate, assert_not_owner, assert_not_self, assert_mutable,
}
use nest_backend.Authorization.Tables.{
  Tables, Role, grant, revoke, find_role, find_by_name, update, permissions_of, set_permissions,
  delete_rows, assign, unassign, count_assignments,
}
use nest_backend.Authorization.UseCases.{
  Run, completes, throws, check, with_loaded, with_role, with_account, unless_conflict,
  renamed_onto, created, grants_of, new_role, create_role, update_role, delete_role,
  set_role_permissions, grant_permissions, revoke_permissions, assign_role, unassign_role,
}

passed :
    (v : Verdict) (run : Run) (u : Tables)
    → check v run ≡ completes u
    → (v ≡ allowed) × (run ≡ completes u)
passed allowed run u h = (refl, h)
passed (refused refusal) run u h = absurd (ground arith)

loaded : (l : Loaded) (run : Run) (u : Tables) → with_loaded l run ≡ completes u → run ≡ completes u
loaded (found target) run u h = h
loaded (failed refusal) run u h = absurd (ground arith)

role_found :
    (r : Option Role) (run : Role → Run) (u : Tables)
    → with_role r run ≡ completes u
    → (role : Role) × (r ≡ some role) × (run role ≡ completes u)
role_found none run u h = absurd (ground arith)
role_found (some role) run u h = (role, refl, h)

account_found :
    (a : Option ProtectedAccount) (id : Text) (run : ProtectedAccount → Run) (u : Tables)
    → with_account a id run ≡ completes u
    → (target : ProtectedAccount) × (a ≡ some target) × (run target ≡ completes u)
account_found none id run u h = absurd (ground arith)
account_found (some target) id run u h = (target, refl, h)

no_conflict :
    (c : Option Text) (run : Run) (u : Tables)
    → unless_conflict c run ≡ completes u
    → run ≡ completes u
no_conflict none run u h = h
no_conflict (some name) run u h = absurd (ground arith)

not_found :
    (r : Option Role) (name : Text) (run : Run) (u : Tables)
    → created r name run ≡ completes u
    → run ≡ completes u
not_found none name run u h = h
not_found (some role) name run u h = absurd (ground arith)

completed : (t u : Tables) → completes t ≡ completes u → t ≡ u
completed t u h = cc

pub create_role_completes :
    (t u : Tables) (id name : Text) (description : Option Text)
    → create_role t id name description ≡ completes u
    → record t { roles = t.roles ++ new_role id name description ∷ [] } ≡ u
unfolding create_role
create_role_completes t u id name description h =
    completed (record t { roles = t.roles ++ new_role id name description ∷ [] }) u
      (not_found (find_by_name t.roles name) name
        (completes (record t { roles = t.roles ++ new_role id name description ∷ [] })) u h)

-- A role that is changed is there, and is no system role.
abbrev pub Changeable : Tables → Text → Type 0
Changeable t role_id =
    (role : Role) × (find_role t.roles role_id ≡ some role) × (role.is_system ≡ false)

changeable :
    (role : Role) (action : Text)
    → assert_mutable role.is_system action ≡ allowed
    → role.is_system ≡ false
unfolding assert_mutable
changeable role action h = ground arith

pub update_role_completes :
    (t u : Tables) (role_id : Text) (name description : Option Text)
    → update_role t role_id name description ≡ completes u
    → Changeable t role_id × (record t { roles = update t.roles role_id name description } ≡ u)
unfolding update_role
update_role_completes t u role_id name description h =
    let next = completes (record t { roles = update t.roles role_id name description }) in
    let (role, there, ran) =
      role_found (find_role t.roles role_id)
        (λ role.
          check (assert_mutable role.is_system (codes "RENAME"))
            (unless_conflict (renamed_onto t.roles role_id name) next))
        u h in
    let (mutable, rest) =
      passed (assert_mutable role.is_system (codes "RENAME"))
        (unless_conflict (renamed_onto t.roles role_id name) next) u ran in
    (
      (role, there, changeable role (codes "RENAME") mutable),
      completed (record t { roles = update t.roles role_id name description }) u
          (no_conflict (renamed_onto t.roles role_id name) next u rest),
    )

unassigned :
    (b : Bool) (next u : Tables)
    → (if b then throws role_has_assignments else completes next) ≡ completes u
    → (b ≡ false) × (next ≡ u)
unassigned true next u h = absurd (ground arith)
unassigned false next u h = (refl, completed next u h)

pub delete_role_completes :
    (t u : Tables) (role_id : Text)
    → delete_role t role_id ≡ completes u
    → Changeable t role_id
      × (ltb 0 (count_assignments t.assignments role_id) ≡ false)
      × (delete_rows t role_id ≡ u)
unfolding delete_role
delete_role_completes t u role_id h =
    let next =
      if ltb 0 (count_assignments t.assignments role_id)
      then throws role_has_assignments
      else completes (delete_rows t role_id) in
    let (role, there, ran) =
      role_found (find_role t.roles role_id)
        (λ role. check (assert_mutable role.is_system (codes "DELETE")) next) u h in
    let (mutable, rest) = passed (assert_mutable role.is_system (codes "DELETE")) next u ran in
    let (free, same) =
      unassigned (ltb 0 (count_assignments t.assignments role_id)) (delete_rows t role_id) u rest in
    ((role, there, changeable role (codes "DELETE") mutable), free, same)

pub set_role_permissions_completes :
    (t u : Tables) (actor : AuthorizationActor) (role_id : Text) (permissions : List Permission)
    → set_role_permissions t actor role_id permissions ≡ completes u
    → Changeable t role_id
      × (assert_can_delegate (grants_of t) actor permissions ≡ allowed)
      × (record t { role_permissions = set_permissions t.role_permissions role_id permissions } ≡ u)
unfolding set_role_permissions
set_role_permissions_completes t u actor role_id permissions h =
    let after : Tables = record t {
      role_permissions = set_permissions t.role_permissions role_id permissions;
    } in
    let next = check (assert_can_delegate (grants_of t) actor permissions) (completes after) in
    let (role, there, ran) =
      role_found (find_role t.roles role_id)
        (λ role. check (assert_mutable role.is_system (codes "PERMISSION_CHANGE")) next) u h in
    let (mutable, rest) =
      passed (assert_mutable role.is_system (codes "PERMISSION_CHANGE")) next u ran in
    let (may, done) =
      passed (assert_can_delegate (grants_of t) actor permissions) (completes after) u rest in
    (
      (role, there, changeable role (codes "PERMISSION_CHANGE") mutable),
      may,
      completed after u done,
    )

module _ (find_user_for_admin : Text → Option ProtectedAccount) where
  pub grant_permissions_completes :
      (t u : Tables) (actor : AuthorizationActor) (target_id : Text) (permissions : List Permission)
      → grant_permissions find_user_for_admin t actor target_id permissions ≡ completes u
      → (assert_can_delegate (grants_of t) actor permissions ≡ allowed)
        × (record t { grants = grant t.grants target_id permissions (some actor.id) } ≡ u)
  unfolding grant_permissions
  grant_permissions_completes t u actor target_id permissions h =
      let after : Tables = record t {
        grants = grant t.grants target_id permissions (some actor.id);
      } in
      let ran =
        loaded (load_manageable_admin find_user_for_admin actor.id target_id permission_grant)
          (check (assert_can_delegate (grants_of t) actor permissions) (completes after)) u h in
      let (may, done) =
        passed (assert_can_delegate (grants_of t) actor permissions) (completes after) u ran in
      (may, completed after u done)

  pub revoke_permissions_completes :
      (t u : Tables) (actor : AuthorizationActor) (target_id : Text) (permissions : List Permission)
      → revoke_permissions find_user_for_admin t actor target_id permissions ≡ completes u
      → (assert_can_delegate (grants_of t) actor permissions ≡ allowed)
        × (record t { grants = revoke t.grants target_id permissions } ≡ u)
  unfolding revoke_permissions
  revoke_permissions_completes t u actor target_id permissions h =
      let after : Tables = record t { grants = revoke t.grants target_id permissions } in
      let ran =
        loaded (load_manageable_admin find_user_for_admin actor.id target_id permission_revoke)
          (check (assert_can_delegate (grants_of t) actor permissions) (completes after)) u h in
      let (may, done) =
        passed (assert_can_delegate (grants_of t) actor permissions) (completes after) u ran in
      (may, completed after u done)

  -- Past the checks on the account, which is neither the owner nor the actor.
  guarded :
      (actor : AuthorizationActor) (user_id : Text) (run : Run) (u : Tables)
      → with_account (find_user_for_admin user_id) user_id (λ target.
        check
          (assert_not_owner target role_change)
          (check (assert_not_self actor.id user_id role_change) run))
        ≡ completes u
      → run ≡ completes u
  guarded actor user_id run u h =
      let (target, there, ran) =
        account_found (find_user_for_admin user_id) user_id
          (λ target.
            check (assert_not_owner target role_change)
              (check (assert_not_self actor.id user_id role_change) run))
          u h in
      let (subject, rest) =
        passed (assert_not_owner target role_change)
          (check (assert_not_self actor.id user_id role_change) run) u ran in
      (passed (assert_not_self actor.id user_id role_change) run u rest).1

  pub assign_role_completes :
      (t u : Tables) (actor : AuthorizationActor) (user_id role_id : Text)
      → assign_role find_user_for_admin t actor user_id role_id ≡ completes u
      → (assert_can_delegate (grants_of t) actor (permissions_of t.role_permissions role_id)
          ≡ allowed)
        × (record t { assignments = assign t.assignments user_id role_id (some actor.id) } ≡ u)
  unfolding assign_role
  assign_role_completes t u actor user_id role_id h =
      let after : Tables = record t {
        assignments = assign t.assignments user_id role_id (some actor.id);
      } in
      let next =
        check (assert_can_delegate (grants_of t) actor (permissions_of t.role_permissions role_id))
          (completes after) in
      let ran = guarded actor user_id (with_role (find_role t.roles role_id) (λ role. next)) u h in
      let (role, there, rest) = role_found (find_role t.roles role_id) (λ role. next) u ran in
      let (may, done) =
        passed (assert_can_delegate (grants_of t) actor (permissions_of t.role_permissions role_id))
          (completes after) u rest in
      (may, completed after u done)

  pub unassign_role_completes :
      (t u : Tables) (actor : AuthorizationActor) (user_id role_id : Text)
      → unassign_role find_user_for_admin t actor user_id role_id ≡ completes u
      → record t { assignments = unassign t.assignments user_id role_id } ≡ u
  unfolding unassign_role
  unassign_role_completes t u actor user_id role_id h =
      let after : Tables = record t { assignments = unassign t.assignments user_id role_id } in
      completed after u (guarded actor user_id (completes after) u h)
