-- ===== src/Authorization/UseCases/SystemRoles.antt =====
-- System roles under the requests.
use nest_backend.Common.{
  ◌≡◌, refl, ◌∙◌, ap, inl, inr, List, [], ◌∷◌, ◌++◌, Option, some, true, false, not, filter_by,
  arith, Bool-cases,
}
use nest_backend.Common.Text.{Text, text_eq}
use nest_backend.Common.Text.Order.{eq_of_text_eq}
use nest_backend.Authorization.{Permission, ProtectedAccount, has}
use nest_backend.Authorization.Tables.{
  Tables, Role, RolePermission, find_role, update, permissions_of, without_role, insert_permission,
  insert_permissions, set_permissions, delete_rows,
}
use nest_backend.Authorization.UseCases.{
  completes, Command, creates_role, updates_role, deletes_role, sets_permissions,
  grants_permissions, revokes_permissions, assigns_role, unassigns_role, execute,
}
use nest_backend.Authorization.UseCases.Runs.{
  Changeable, create_role_completes, update_role_completes, delete_role_completes,
  set_role_permissions_completes, grant_permissions_completes, revoke_permissions_completes,
  assign_role_completes, unassign_role_completes,
}
use nest_backend.Authorization.UseCases.Escalation.{Reaches, stays, answers}

find_role-append :
    (roles more : List Role) (id : Text) (role : Role)
    → find_role roles id ≡ some role
    → find_role (roles ++ more) id ≡ some role
find_role-append [] more id role h = absurd (ground arith)
find_role-append (r ∷ roles) more id role h = elim (Bool-cases (text_eq r.id id)) [
  | inl here ↦ rw here (rw here at h)
  | inr later ↦ rw later (find_role-append roles more id role (rw later at h))
]

-- A text that is told from another is told from all equal to that one.
apart_from : (a b c : Text) → text_eq a b ≡ true → text_eq b c ≡ false → text_eq a c ≡ false
apart_from a b c h k = rw (eq_of_text_eq a b h) k

find_role-update :
    (roles : List Role) (changed id : Text) (name description : Option Text)
    → text_eq changed id ≡ false
    → find_role (update roles changed name description) id ≡ find_role roles id
find_role-update [] changed id name description h = refl
find_role-update (r ∷ roles) changed id name description h =
    elim (Bool-cases (text_eq r.id changed)) [
      | inl here ↦
          rw (here, apart_from r.id changed id here h)
            (find_role-update roles changed id name description h)
      | inr other ↦ elim (Bool-cases (text_eq r.id id)) [
        | inl same ↦ rw (other, same) refl
        | inr different ↦
            rw (other, different) (find_role-update roles changed id name description h)
      ]
    ]

find_role-filter_by :
    (roles : List Role) (changed id : Text)
    → text_eq changed id ≡ false
    → find_role (filter_by (λ role. not (text_eq role.id changed)) roles) id ≡ find_role roles id
find_role-filter_by [] changed id h = refl
find_role-filter_by (r ∷ roles) changed id h = elim (Bool-cases (text_eq r.id changed)) [
  | inl here ↦ rw (here, apart_from r.id changed id here h) (find_role-filter_by roles changed id h)
  | inr other ↦ elim (Bool-cases (text_eq r.id id)) [
    | inl same ↦ rw (other, same) refl
    | inr different ↦ rw (other, different) (find_role-filter_by roles changed id h)
  ]
]

permissions_of-without_role :
    (rows : List RolePermission) (changed id : Text)
    → text_eq changed id ≡ false
    → permissions_of (without_role rows changed) id ≡ permissions_of rows id
permissions_of-without_role [] changed id h = refl
permissions_of-without_role (r ∷ rows) changed id h =
    elim (Bool-cases (text_eq r.role_id changed)) [
      | inl here ↦
          rw (here, apart_from r.role_id changed id here h)
            (permissions_of-without_role rows changed id h)
      | inr other ↦ elim (Bool-cases (text_eq r.role_id id)) [
        | inl same ↦
            rw (other, same)
              (ap (λ (l : List Permission). r.permission ∷ l)
                (permissions_of-without_role rows changed id h))
        | inr different ↦ rw (other, different) (permissions_of-without_role rows changed id h)
      ]
    ]

permissions_of-append :
    (rows : List RolePermission) (changed id : Text) (p : Permission)
    → text_eq changed id ≡ false
    → permissions_of (rows ++ (record { role_id = changed; permission = p }) ∷ []) id
      ≡ permissions_of rows id
permissions_of-append [] changed id p h = rw h refl
permissions_of-append (r ∷ rows) changed id p h = elim (Bool-cases (text_eq r.role_id id)) [
  | inl same ↦
      rw same
        (ap (λ (l : List Permission). r.permission ∷ l) (permissions_of-append rows changed id p h))
  | inr different ↦ rw different (permissions_of-append rows changed id p h)
]

permissions_of-insert_permission :
    (rows : List RolePermission) (changed id : Text) (p : Permission)
    → text_eq changed id ≡ false
    → permissions_of (insert_permission rows changed p) id ≡ permissions_of rows id
permissions_of-insert_permission rows changed id p h =
    elim (Bool-cases (has (permissions_of rows changed) p)) [
      | inl there ↦ rw there refl
      | inr new ↦ rw new (permissions_of-append rows changed id p h)
    ]

permissions_of-insert_permissions :
    (rows : List RolePermission) (changed id : Text) (permissions : List Permission)
    → text_eq changed id ≡ false
    → permissions_of (insert_permissions rows changed permissions) id ≡ permissions_of rows id
permissions_of-insert_permissions rows changed id [] h = refl
permissions_of-insert_permissions rows changed id (p ∷ permissions) h =
    permissions_of-insert_permissions (insert_permission rows changed p) changed id permissions h
    ∙ permissions_of-insert_permission rows changed id p h

permissions_of-set_permissions :
    (rows : List RolePermission) (changed id : Text) (permissions : List Permission)
    → text_eq changed id ≡ false
    → permissions_of (set_permissions rows changed permissions) id ≡ permissions_of rows id
unfolding set_permissions
permissions_of-set_permissions rows changed id permissions h =
    permissions_of-insert_permissions (without_role rows changed) changed id permissions h
    ∙ permissions_of-without_role rows changed id h

-- The tables have the system role, with these permissions.
pub record HasSystemRole (t : Tables) (role : Role) (permissions : List Permission) : Type 0 where
  pub there : find_role t.roles role.id ≡ some role
  pub is_system : role.is_system ≡ true
  pub holds : permissions_of t.role_permissions role.id ≡ permissions

-- A role that may change is another one.
other_role :
    (t : Tables) (role_id : Text) (role : Role) (permissions : List Permission)
    → Changeable t role_id
    → HasSystemRole t role permissions
    → text_eq role_id role.id ≡ false
other_role t role_id role permissions (changed, there, custom) h =
    elim (Bool-cases (text_eq role_id role.id)) [
      | inr different ↦ different
      | inl same ↦
          let found : find_role t.roles role.id ≡ some changed =
            rw (eq_of_text_eq role_id role.id same) at there in
          let one : changed ≡ role = ground (arith, found, h.there) in
          absurd (ground (arith, ap (λ (r : Role). r.is_system) one, custom, h.is_system))
    ]

module _ (find_user_for_admin : Text → Option ProtectedAccount) where
  execute-HasSystemRole :
      (t u : Tables) (command : Command) (role : Role) (permissions : List Permission)
      → execute find_user_for_admin t command ≡ completes u
      → HasSystemRole t role permissions
      → HasSystemRole u role permissions
  unfolding delete_rows
  execute-HasSystemRole t u (creates_role id name description) role permissions ran h =
      let same = create_role_completes t u id name description ran in
      rw (← same) (record {
        there = find_role-append t.roles _ role.id role h.there;
        is_system = h.is_system;
        holds = h.holds;
      })
  execute-HasSystemRole t u (updates_role role_id name description) role permissions ran h =
      let (changeable, same) = update_role_completes t u role_id name description ran in
      let apart = other_role t role_id role permissions changeable h in
      rw (← same) (record {
        there = find_role-update t.roles role_id role.id name description apart ∙ h.there;
        is_system = h.is_system;
        holds = h.holds;
      })
  execute-HasSystemRole t u (deletes_role role_id) role permissions ran h =
      let (changeable, free, same) = delete_role_completes t u role_id ran in
      let apart = other_role t role_id role permissions changeable h in
      rw (← same) (record {
        there = find_role-filter_by t.roles role_id role.id apart ∙ h.there;
        is_system = h.is_system;
        holds = permissions_of-without_role t.role_permissions role_id role.id apart ∙ h.holds;
      })
  execute-HasSystemRole t u (sets_permissions actor role_id perms) role permissions ran h =
      let (changeable, may, same) = set_role_permissions_completes t u actor role_id perms ran in
      let apart = other_role t role_id role permissions changeable h in
      rw (← same) (record {
        there = h.there;
        is_system = h.is_system;
        holds =
            permissions_of-set_permissions t.role_permissions role_id role.id perms apart ∙ h.holds;
      })
  execute-HasSystemRole t u (grants_permissions actor target_id perms) role permissions ran h =
      rw (← (grant_permissions_completes find_user_for_admin t u actor target_id perms ran).1)
        (record { there = h.there; is_system = h.is_system; holds = h.holds })
  execute-HasSystemRole t u (revokes_permissions actor target_id perms) role permissions ran h =
      rw (← (revoke_permissions_completes find_user_for_admin t u actor target_id perms ran).1)
        (record { there = h.there; is_system = h.is_system; holds = h.holds })
  execute-HasSystemRole t u (assigns_role actor user_id role_id) role permissions ran h =
      rw (← (assign_role_completes find_user_for_admin t u actor user_id role_id ran).1)
        (record { there = h.there; is_system = h.is_system; holds = h.holds })
  execute-HasSystemRole t u (unassigns_role actor user_id role_id) role permissions ran h =
      rw (← unassign_role_completes find_user_for_admin t u actor user_id role_id ran)
        (record { there = h.there; is_system = h.is_system; holds = h.holds })

  -- A system role keeps its row and its permissions through any sequence of requests that change
  -- grants or roles.
  pub Reaches-HasSystemRole :
      (t u : Tables) (role : Role) (permissions : List Permission)
      → HasSystemRole t role permissions
      → Reaches find_user_for_admin t u
      → HasSystemRole u role permissions
  Reaches-HasSystemRole t u role permissions h (stays t') = h
  Reaches-HasSystemRole t u role permissions h (answers t' next u' command ran rest) =
      Reaches-HasSystemRole next u role permissions
        (execute-HasSystemRole t next command role permissions ran h) rest
