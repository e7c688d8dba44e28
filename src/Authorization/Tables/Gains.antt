-- ===== src/Authorization/Tables/Gains.antt =====
-- What a write to the tables can add: nothing but what it names.
use nest_backend.Common.{
  ◌≡◌, refl, ap, ◌⊎◌, inl, inr, List, [], ◌∷◌, ◌++◌, Option, Bool, true, false, not, ◌&&◌, ◌||◌,
  if◌then◌else◌, ◌==◌, filter_by, arith, Bool-cases,
}
use nest_backend.Common.Text.{Text, text_eq}
use nest_backend.Common.Text.Order.{eq_of_text_eq, text_eq_refl}
use nest_backend.Authorization.{Permission, code, has}
use nest_backend.Authorization.Evaluation.{has-append}
use nest_backend.Authorization.Tables.{
  AdminPermission, RolePermission, UserRoleAssignment, find_by_user_id, insert_grant, grant,
  permissions_of, without_role, insert_permission, insert_permissions, set_permissions, is_assigned,
  assign, unassign, joined,
}

-- The grants of an account, and the permissions of a role.
find_by_user_id-append :
    (rows more : List AdminPermission) (u : Text)
    → find_by_user_id (rows ++ more) u ≡ find_by_user_id rows u ++ find_by_user_id more u
find_by_user_id-append [] more u = refl
find_by_user_id-append (row ∷ rows) more u = elim (Bool-cases (text_eq row.user_id u)) [
  | inl own ↦
      rw own (ap (λ (l : List Permission). row.permission ∷ l) (find_by_user_id-append rows more u))
  | inr other ↦ rw other (find_by_user_id-append rows more u)
]

has_one :
    (b : Bool) (q p : Permission)
    → has (if b then q ∷ [] else []) p ≡ true
    → (code q == code p) ≡ true
has_one true q p h = ground arith
has_one false q p h = cc

insert_grant_gains :
    (rows : List AdminPermission) (target : Text) (q : Permission) (by : Option Text) (u : Text)
    (p : Permission)
    → has (find_by_user_id (insert_grant rows target q by) u) p ≡ true
    → (has (find_by_user_id rows u) p ≡ true) ⊎ ((code q == code p) ≡ true)
insert_grant_gains rows target q by u p h =
    elim (Bool-cases (has (find_by_user_id rows target) q)) [
      | inl there ↦ inl (rw there at h)
      | inr new ↦
          let added =
            rw
              (
                new,
                find_by_user_id-append rows
                    ((record { user_id = target; permission = q; granted_by_id = by }) ∷ []) u,
                has-append (find_by_user_id rows u)
                    (find_by_user_id
                      ((record { user_id = target; permission = q; granted_by_id = by }) ∷ []) u)
                    p,
              )
              at h in
          elim (Bool-cases (has (find_by_user_id rows u) p)) [
            | inl old ↦ inl old
            | inr missing ↦ inr (has_one (text_eq target u) q p (rw missing at added))
          ]
    ]

pub grant_gains :
    (rows : List AdminPermission) (target : Text) (permissions : List Permission) (by : Option Text)
    (u : Text) (p : Permission)
    → has (find_by_user_id (grant rows target permissions by) u) p ≡ true
    → (has (find_by_user_id rows u) p ≡ true) ⊎ (has permissions p ≡ true)
grant_gains rows target [] by u p h = inl h
grant_gains rows target (q ∷ permissions) by u p h =
    elim (grant_gains (insert_grant rows target q by) target permissions by u p h) [
      | inr named ↦ inr (ground arith)
      | inl inserted ↦ elim (insert_grant_gains rows target q by u p inserted) [
        | inl old ↦ inl old
        | inr same ↦ inr (ground arith)
      ]
    ]

pub find_by_user_id-filter_by :
    (test : AdminPermission → Bool) (rows : List AdminPermission) (u : Text) (p : Permission)
    → has (find_by_user_id (filter_by test rows) u) p ≡ true
    → has (find_by_user_id rows u) p ≡ true
find_by_user_id-filter_by test [] u p h = h
find_by_user_id-filter_by test (row ∷ rows) u p h = elim (Bool-cases (text_eq row.user_id u)) [
  | inr other ↦ rw other (elim (Bool-cases (test row)) [
    | inl kept ↦ find_by_user_id-filter_by test rows u p (rw (kept, other) at h)
    | inr dropped ↦ find_by_user_id-filter_by test rows u p (rw dropped at h)
  ])
  | inl own ↦ rw own (elim (Bool-cases (code row.permission == code p)) [
    | inl same ↦ rw same refl
    | inr different ↦ rw different (elim (Bool-cases (test row)) [
      | inl kept ↦ find_by_user_id-filter_by test rows u p (rw (kept, own, different) at h)
      | inr dropped ↦ find_by_user_id-filter_by test rows u p (rw dropped at h)
    ])
  ])
]

-- The permissions of an account by its roles.
joined-append :
    (rows more : List RolePermission) (assignments : List UserRoleAssignment) (u : Text)
    → joined (rows ++ more) assignments u ≡ joined rows assignments u ++ joined more assignments u
joined-append [] more assignments u = refl
joined-append (row ∷ rows) more assignments u =
    elim (Bool-cases (is_assigned assignments u row.role_id)) [
      | inl own ↦
          rw own (
            ap (λ (l : List Permission). row.permission ∷ l)
              (joined-append rows more assignments u))
      | inr other ↦ rw other (joined-append rows more assignments u)
    ]

pub joined-filter_by :
    (test : RolePermission → Bool) (rows : List RolePermission)
    (assignments : List UserRoleAssignment) (u : Text) (p : Permission)
    → has (joined (filter_by test rows) assignments u) p ≡ true
    → has (joined rows assignments u) p ≡ true
joined-filter_by test [] assignments u p h = h
joined-filter_by test (row ∷ rows) assignments u p h =
    elim (Bool-cases (is_assigned assignments u row.role_id)) [
      | inr other ↦ rw other (elim (Bool-cases (test row)) [
        | inl kept ↦ joined-filter_by test rows assignments u p (rw (kept, other) at h)
        | inr dropped ↦ joined-filter_by test rows assignments u p (rw dropped at h)
      ])
      | inl own ↦ rw own (elim (Bool-cases (code row.permission == code p)) [
        | inl same ↦ rw same refl
        | inr different ↦ rw different (elim (Bool-cases (test row)) [
          | inl kept ↦ joined-filter_by test rows assignments u p (rw (kept, own, different) at h)
          | inr dropped ↦ joined-filter_by test rows assignments u p (rw dropped at h)
        ])
      ])
    ]

insert_permission_gains :
    (rows : List RolePermission) (role : Text) (q : Permission)
    (assignments : List UserRoleAssignment) (u : Text) (p : Permission)
    → has (joined (insert_permission rows role q) assignments u) p ≡ true
    → (has (joined rows assignments u) p ≡ true) ⊎ ((code q == code p) ≡ true)
insert_permission_gains rows role q assignments u p h =
    elim (Bool-cases (has (permissions_of rows role) q)) [
      | inl there ↦ inl (rw there at h)
      | inr new ↦
          let added =
            rw
              (
                new,
                joined-append rows ((record { role_id = role; permission = q }) ∷ []) assignments u,
                has-append (joined rows assignments u)
                    (joined ((record { role_id = role; permission = q }) ∷ []) assignments u) p,
              )
              at h in
          elim (Bool-cases (has (joined rows assignments u) p)) [
            | inl old ↦ inl old
            | inr missing ↦ inr (has_one (is_assigned assignments u role) q p (rw missing at added))
          ]
    ]

insert_permissions_gains :
    (rows : List RolePermission) (role : Text) (permissions : List Permission)
    (assignments : List UserRoleAssignment) (u : Text) (p : Permission)
    → has (joined (insert_permissions rows role permissions) assignments u) p ≡ true
    → (has (joined rows assignments u) p ≡ true) ⊎ (has permissions p ≡ true)
insert_permissions_gains rows role [] assignments u p h = inl h
insert_permissions_gains rows role (q ∷ permissions) assignments u p h =
    elim (insert_permissions_gains (insert_permission rows role q) role permissions assignments u p
      h) [
        | inr named ↦ inr (ground arith)
        | inl inserted ↦ elim (insert_permission_gains rows role q assignments u p inserted) [
          | inl old ↦ inl old
          | inr same ↦ inr (ground arith)
        ]
      ]

pub set_permissions_gains :
    (rows : List RolePermission) (role : Text) (permissions : List Permission)
    (assignments : List UserRoleAssignment) (u : Text) (p : Permission)
    → has (joined (set_permissions rows role permissions) assignments u) p ≡ true
    → (has (joined rows assignments u) p ≡ true) ⊎ (has permissions p ≡ true)
unfolding set_permissions
set_permissions_gains rows role permissions assignments u p h =
    elim (insert_permissions_gains (without_role rows role) role permissions assignments u p h) [
      | inr named ↦ inr named
      | inl kept ↦
          inl (joined-filter_by (λ row. not (text_eq row.role_id role)) rows assignments u p kept)
    ]

-- A change of the assignments.
is_assigned-append :
    (rows more : List UserRoleAssignment) (u role : Text)
    → is_assigned (rows ++ more) u role ≡ (is_assigned rows u role || is_assigned more u role)
is_assigned-append [] more u role = refl
is_assigned-append (row ∷ rows) more u role = ground (arith, is_assigned-append rows more u role)

is_assigned-filter_by :
    (test : UserRoleAssignment → Bool) (rows : List UserRoleAssignment) (u role : Text)
    → is_assigned (filter_by test rows) u role ≡ true
    → is_assigned rows u role ≡ true
is_assigned-filter_by test [] u role h = h
is_assigned-filter_by test (row ∷ rows) u role h = elim (Bool-cases (test row)) [
  | inr dropped ↦
      let rest = is_assigned-filter_by test rows u role (rw dropped at h) in ground arith
  | inl kept ↦
      let both = rw kept at h in
      elim (Bool-cases (text_eq row.user_id u && text_eq row.role_id role)) [
        | inl here ↦ ground arith
        | inr other ↦
            let rest = is_assigned-filter_by test rows u role (rw other at both) in ground arith
      ]
]

-- An account gains by new assignments what the roles that are new to it hold.
joined_gains :
    (Extra : Text → Type 0) (rows : List RolePermission) (old new : List UserRoleAssignment)
    (u : Text) (p : Permission)
    → ((role : Text) → is_assigned new u role ≡ true → (is_assigned old u role ≡ true) ⊎ Extra role)
    → has (joined rows new u) p ≡ true
    → (has (joined rows old u) p ≡ true)
      ⊎ ((role : Text) × Extra role × (has (permissions_of rows role) p ≡ true))
joined_gains Extra [] old new u p f h = inl h
joined_gains Extra (row ∷ rows) old new u p f h =
    elim (Bool-cases (is_assigned new u row.role_id)) [
      | inr other ↦
          later Extra row rows old u p (joined_gains Extra rows old new u p f (rw other at h))
      | inl own ↦
          let both = rw own at h in
          elim (Bool-cases (code row.permission == code p)) [
            | inr different ↦
                later Extra row rows old u p
                  (joined_gains Extra rows old new u p f (rw different at both))
            | inl same ↦ elim (f row.role_id own) [
              | inl kept ↦ inl (rw (kept, same) refl)
              | inr extra ↦ inr (row.role_id, extra, rw (text_eq_refl row.role_id, same) refl)
            ]
          ]
    ]
  where
    later :
        (Extra : Text → Type 0) (row : RolePermission) (rows : List RolePermission)
        (old : List UserRoleAssignment) (u : Text) (p : Permission)
        → (has (joined rows old u) p ≡ true)
          ⊎ ((role : Text) × Extra role × (has (permissions_of rows role) p ≡ true))
        → (has (joined (row ∷ rows) old u) p ≡ true)
          ⊎ ((role : Text) × Extra role × (has (permissions_of (row ∷ rows) role) p ≡ true))
    later Extra row rows old u p (inl there) = elim (Bool-cases (is_assigned old u row.role_id)) [
      | inl own ↦ inl (rw own (ground arith))
      | inr other ↦ inl (rw other there)
    ]
    later Extra row rows old u p (inr (role, extra, held)) =
        elim (Bool-cases (text_eq row.role_id role)) [
          | inl own ↦ inr (role, extra, rw own (ground arith))
          | inr other ↦ inr (role, extra, rw other held)
        ]

pub unassign_gains :
    (rows : List RolePermission) (assignments : List UserRoleAssignment) (v role u : Text)
    (p : Permission)
    → has (joined rows (unassign assignments v role) u) p ≡ true
    → has (joined rows assignments u) p ≡ true
unfolding unassign
unassign_gains rows assignments v role u p h =
    elim (joined_gains (λ r. ⊥) rows assignments (unassign assignments v role) u p
      (λ other own. inl (
        is_assigned-filter_by
          (λ (r : UserRoleAssignment). not (text_eq r.user_id v && text_eq r.role_id role))
          assignments u other own))
      h) [ inl kept ↦ kept | inr (r, none_such, held) ↦ absurd none_such ]

is_assigned-assign :
    (assignments : List UserRoleAssignment) (v role : Text) (by : Option Text) (u other : Text)
    → is_assigned (assign assignments v role by) u other ≡ true
    → (is_assigned assignments u other ≡ true) ⊎ (role ≡ other)
unfolding assign
is_assigned-assign assignments v role by u other h =
    elim (Bool-cases (is_assigned assignments v role)) [
      | inl there ↦ inl (rw there at h)
      | inr new ↦
          let added =
            rw
              (
                new,
                is_assigned-append assignments
                    ((record { user_id = v; role_id = role; assigned_by_id = by }) ∷ []) u other,
              )
              at h in
          elim (Bool-cases (is_assigned assignments u other)) [
            | inl old ↦ inl old
            | inr missing ↦ inr (eq_of_text_eq role other (ground arith))
          ]
    ]

pub assign_gains :
    (rows : List RolePermission) (assignments : List UserRoleAssignment) (v role : Text)
    (by : Option Text) (u : Text) (p : Permission)
    → has (joined rows (assign assignments v role by) u) p ≡ true
    → (has (joined rows assignments u) p ≡ true) ⊎ (has (permissions_of rows role) p ≡ true)
assign_gains rows assignments v role by u p h =
    elim (joined_gains (λ other. role ≡ other) rows assignments (assign assignments v role by) u p
      (λ other own. is_assigned-assign assignments v role by u other own) h) [
        | inl kept ↦ inl kept
        | inr (other, same, held) ↦ inr (rw same held)
      ]
