-- ===== src/Authorization/UseCases/Escalation.antt =====
-- What an account can gain by a request.
use nest_backend.Common.{
  ◌≡◌, refl, sym, ◌∙◌, ◌⊎◌, inl, inr, List, [], ◌∷◌, Option, none, some, true, false, not, is_empty,
  arith, Bool-cases,
}
use nest_backend.Common.Text.{Text}
use nest_backend.Authorization.{
  Permission, AuthorizationActor, Grants, ProtectedAccount, allowed, has, filter, is_owner_only,
  can, held_permissions, effective_permissions_of, assert_can_delegate,
}
use nest_backend.Authorization.Evaluation.{
  has-filter, has-add_all, held_permissions-append, effective_agrees,
}
use nest_backend.Authorization.Tables.{
  Tables, find_by_user_id, joined, revoke, permissions_of, delete_rows, permissions_for_user,
}
use nest_backend.Authorization.Tables.Gains.{
  grant_gains, find_by_user_id-filter_by, joined-filter_by, set_permissions_gains, unassign_gains,
  assign_gains,
}
use nest_backend.Authorization.UseCases.{
  completes, grants_of, Command, creates_role, updates_role, deletes_role, sets_permissions,
  grants_permissions, revokes_permissions, assigns_role, unassigns_role, execute,
}
use nest_backend.Authorization.UseCases.Runs.{
  create_role_completes, update_role_completes, delete_role_completes,
  set_role_permissions_completes, grant_permissions_completes, revoke_permissions_completes,
  assign_role_completes, unassign_role_completes,
}

empty_has : (xs : List Permission) (p : Permission) → is_empty xs ≡ true → has xs p ≡ false
empty_has [] p h = refl
empty_has (x ∷ xs) p h = cc

-- What assertCanDelegate lets pass, the actor can do and nobody reserves.
pub delegated :
    (grants : Grants) (actor : AuthorizationActor) (permissions : List Permission) (p : Permission)
    → assert_can_delegate grants actor permissions ≡ allowed
    → has permissions p ≡ true
    → (can grants actor (p ∷ []) ≡ true) × (is_owner_only p ≡ false)
unfolding assert_can_delegate
delegated grants actor permissions p h named =
    let held = effective_permissions_of grants actor in
    elim (Bool-cases (is_empty (filter is_owner_only permissions))) [
      | inr reserved ↦ absurd (ground arith)
      | inl unreserved ↦ elim (Bool-cases (is_empty (filter (λ q. not (has held q)) permissions))) [
        | inr missing ↦ absurd (ground arith)
        | inl all_held ↦
            let free =
              sym (has-filter is_owner_only permissions p)
              ∙ empty_has (filter is_owner_only permissions) p unreserved in
            let known =
              sym (has-filter (λ q. not (has held q)) permissions p)
              ∙ empty_has (filter (λ q. not (has held q)) permissions) p all_held in
            let can_do : has held p ≡ true = ground arith in
            (sym (effective_agrees grants actor p) ∙ can_do, ground arith)
      ]
    ]

-- The account holds the permission, directly or by a role.
abbrev pub Holds : Tables → Text → Permission → Type 0
Holds t user p = has (held_permissions (grants_of t) user) p ≡ true

Sources : Tables → Text → Permission → Type 0
Sources t user p =
    (has (find_by_user_id t.grants user) p ≡ true)
    ⊎ (has (joined t.role_permissions t.assignments user) p ≡ true)

sources : (t : Tables) (user : Text) (p : Permission) → Holds t user p → Sources t user p
unfolding permissions_for_user Sources
sources t user p h =
    let either = sym (held_permissions-append (grants_of t) user p) ∙ h in
    let via = has-add_all (joined t.role_permissions t.assignments user) [] p in
    elim (Bool-cases (has (find_by_user_id t.grants user) p)) [
      | inl direct ↦ inl direct
      | inr missing ↦ inr (sym via ∙ rw missing at either)
    ]

held : (t : Tables) (user : Text) (p : Permission) → Sources t user p → Holds t user p
unfolding permissions_for_user Sources
held t user p h =
    let via = has-add_all (joined t.role_permissions t.assignments user) [] p in
    held_permissions-append (grants_of t) user p ∙ ground (arith, via)

-- The one who asks, for the requests whose use case knows.
abbrev pub actor_of : Command → Option AuthorizationActor
actor_of (creates_role id name description) = none
actor_of (updates_role role_id name description) = none
actor_of (deletes_role role_id) = none
actor_of (sets_permissions actor role_id permissions) = some actor
actor_of (grants_permissions actor target_id permissions) = some actor
actor_of (revokes_permissions actor target_id permissions) = some actor
actor_of (assigns_role actor user_id role_id) = some actor
actor_of (unassigns_role actor user_id role_id) = some actor

-- The actor of the request can do what the permission allows, and it is not reserved to the owner.
abbrev pub Delegates : Tables → Command → Permission → Type 0
Delegates t command p =
    (actor : AuthorizationActor) × (actor_of command ≡ some actor)
    × (can (grants_of t) actor (p ∷ []) ≡ true)
    × (is_owner_only p ≡ false)

by_delegation :
    (t : Tables) (actor : AuthorizationActor) (command : Command) (permissions : List Permission)
    (p : Permission)
    → actor_of command ≡ some actor
    → assert_can_delegate (grants_of t) actor permissions ≡ allowed
    → has permissions p ≡ true
    → Delegates t command p
by_delegation t actor command permissions p asks may named =
    let (can_do, free) = delegated (grants_of t) actor permissions p may named in
    (actor, asks, can_do, free)

-- Nobody holds what is reserved to the owner.
abbrev pub NothingReserved : Tables → Type 0
NothingReserved t = (user : Text) (p : Permission) → Holds t user p → is_owner_only p ≡ false

module _ (find_user_for_admin : Text → Option ProtectedAccount) where
  source_gains :
      (t u : Tables) (command : Command) (user : Text) (p : Permission)
      → execute find_user_for_admin t command ≡ completes u
      → Sources u user p
      → Sources t user p ⊎ Delegates t command p
  unfolding Sources delete_rows revoke
  source_gains t u (creates_role id name description) user p ran h =
      let same = create_role_completes t u id name description ran in inl (rw (← same) at h)
  source_gains t u (updates_role role_id name description) user p ran h =
      let same = (update_role_completes t u role_id name description ran).1 in
      inl (rw (← same) at h)
  source_gains t u (deletes_role role_id) user p ran h =
      let (there, free, same) = delete_role_completes t u role_id ran in
      elim (rw (← same) at h) [
        | inl direct ↦ inl (inl direct)
        | inr via ↦ inl (inr (joined-filter_by _ t.role_permissions t.assignments user p via))
      ]
  source_gains t u (sets_permissions actor role_id permissions) user p ran h =
      let (there, may, same) = set_role_permissions_completes t u actor role_id permissions ran in
      elim (rw (← same) at h) [
        | inl direct ↦ inl (inl direct)
        | inr via ↦
            elim (set_permissions_gains t.role_permissions role_id permissions t.assignments user p
              via) [
                | inl old ↦ inl (inr old)
                | inr named ↦ inr (
                    by_delegation t actor (sets_permissions actor role_id permissions) permissions p
                      refl may named)
              ]
      ]
  source_gains t u (grants_permissions actor target_id permissions) user p ran h =
      let (may, same) =
        grant_permissions_completes find_user_for_admin t u actor target_id permissions ran in
      elim (rw (← same) at h) [
        | inl direct ↦
            elim (grant_gains t.grants target_id permissions (some actor.id) user p direct) [
              | inl old ↦ inl (inl old)
              | inr named ↦ inr (
                  by_delegation t actor (grants_permissions actor target_id permissions) permissions
                    p refl may named)
            ]
        | inr via ↦ inl (inr via)
      ]
  source_gains t u (revokes_permissions actor target_id permissions) user p ran h =
      let (may, same) =
        revoke_permissions_completes find_user_for_admin t u actor target_id permissions ran in
      elim (rw (← same) at h) [
        | inl direct ↦ inl (inl (find_by_user_id-filter_by _ t.grants user p direct))
        | inr via ↦ inl (inr via)
      ]
  source_gains t u (assigns_role actor user_id role_id) user p ran h =
      let (may, same) = assign_role_completes find_user_for_admin t u actor user_id role_id ran in
      elim (rw (← same) at h) [
        | inl direct ↦ inl (inl direct)
        | inr via ↦
            elim (assign_gains t.role_permissions t.assignments user_id role_id (some actor.id) user
              p via) [
                | inl old ↦ inl (inr old)
                | inr named ↦ inr (
                    by_delegation t actor (assigns_role actor user_id role_id)
                      (permissions_of t.role_permissions role_id) p refl may named)
              ]
      ]
  source_gains t u (unassigns_role actor user_id role_id) user p ran h =
      let same = unassign_role_completes find_user_for_admin t u actor user_id role_id ran in
      elim (rw (← same) at h) [
        | inl direct ↦ inl (inl direct)
        | inr via ↦
            inl (inr (unassign_gains t.role_permissions t.assignments user_id role_id user p via))
      ]

  -- Whenever a request to change grants or roles completes, every permission that an account holds
  -- afterwards, directly or by a role, it held before, or the actor of the request can do what it
  -- allows and it is not reserved to the owner.
  pub execute_gains :
      (t u : Tables) (command : Command) (user : Text) (p : Permission)
      → execute find_user_for_admin t command ≡ completes u
      → Holds u user p
      → Holds t user p ⊎ Delegates t command p
  execute_gains t u command user p ran h =
      elim (source_gains t u command user p ran (sources u user p h)) [
        | inl old ↦ inl (held t user p old)
        | inr asked ↦ inr asked
      ]

  -- Requests one after another; those that throw change nothing.
  pub data Reaches : Tables → Tables → Type 0 where
    stays : (t : Tables) → Reaches t t
    answers :
        (t u v : Tables) (command : Command)
        → execute find_user_for_admin t command ≡ completes u
        → Reaches u v
        → Reaches t v

  -- If no account holds a permission that is reserved to the owner, then none does after any
  -- sequence of requests that change grants or roles.
  pub Reaches-NothingReserved : (t u : Tables) → NothingReserved t → Reaches t u → NothingReserved u
  Reaches-NothingReserved t u safe (stays t') = safe
  Reaches-NothingReserved t u safe (answers t' next u' command ran rest) =
      Reaches-NothingReserved next u
        (λ user p h. elim (execute_gains t next command user p ran h) [
          | inl old ↦ safe user p old
          | inr (actor, asks, can_do, free) ↦ free
        ])
        rest
