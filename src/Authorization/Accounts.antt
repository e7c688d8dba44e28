-- ===== src/Authorization/Accounts.antt =====
-- The targets of administrative operations.
use nest_backend.Common.{
  ◌↔◌, ap, false, ◌≡◌, ◌≢◌, refl, Option, none, some, true, Bool-cases, inl, inr, Option-cases,
  arith,
}
use nest_backend.Common.Text.{Text, text_eq}
use nest_backend.Common.Text.Order.{eq_of_text_eq, text_eq_refl}
use nest_backend.Authorization.{
  UserRole, owner, admin, user, ProtectedAction, ProtectedAccount, found, is_admin, assert_not_self,
  load_manageable_admin,
}

-- An administrator that exists and is not the actor.
pub record Manageable (find_user_for_admin : Text → Option ProtectedAccount)
    (actor_id target_id : Text) (target : ProtectedAccount) : Type 0 where
  pub exists : find_user_for_admin target_id ≡ some target
  pub administers : target.role ≡ admin
  pub other : actor_id ≢ target_id

role_admin : (role : UserRole) → is_admin role ≡ true → role ≡ admin
role_admin owner h = cc
role_admin admin h = refl
role_admin user h = cc

not_self : (s t : Text) → s ≢ t → text_eq s t ≡ false
not_self s t ne = elim (Bool-cases (text_eq s t)) [
  | inl same ↦ absurd (ne (eq_of_text_eq s t same))
  | inr other ↦ other
]

-- loadManageableAdmin returns an account exactly when the identifier finds that account, it is an
-- administrator, and the identifier is not that of the actor.
pub load_manageable_admin-Manageable :
    (find_user_for_admin : Text → Option ProtectedAccount) (actor_id target_id : Text)
    (action : ProtectedAction) (target : ProtectedAccount)
    → (load_manageable_admin find_user_for_admin actor_id target_id action ≡ found target)
      ↔ Manageable find_user_for_admin actor_id target_id target
unfolding load_manageable_admin assert_not_self
load_manageable_admin-Manageable find_user_for_admin actor_id target_id action target = (
  λ h. elim (Option-cases (find_user_for_admin target_id)) [
    | inl unused ↦ ground arith
    | inr (account, e) ↦ elim (Bool-cases (is_admin account.role)) [
      | inr lower ↦ ground arith
      | inl higher ↦ elim (Bool-cases (text_eq actor_id target_id)) [
        | inl same ↦ ground arith
        | inr different ↦
            let is_target : account ≡ target = ground arith in
            rw (← is_target) (record {
              exists = e;
              administers = role_admin account.role higher;
              other = λ same.
                  absurd
                    (ground (arith, different, ap (text_eq actor_id) same, text_eq_refl actor_id));
            })
      ]
    ]
  ],
  λ m.
      let different = not_self actor_id target_id m.other in
      let higher : is_admin target.role ≡ true = ap is_admin m.administers in
      rw (m.exists, higher, different) refl,
)

-- For an account that is no administrator, such as the owner, loadManageableAdmin gives the same
-- answer as for an identifier that is not in use.
pub load_manageable_admin_hidden :
    (find_user_for_admin find_user_for_admin' : Text → Option ProtectedAccount)
    (actor_id target_id : Text) (action : ProtectedAction) (target : ProtectedAccount)
    → find_user_for_admin target_id ≡ some target
    → target.role ≢ admin
    → find_user_for_admin' target_id ≡ none
    → load_manageable_admin find_user_for_admin actor_id target_id action
      ≡ load_manageable_admin find_user_for_admin' actor_id target_id action
unfolding load_manageable_admin
load_manageable_admin_hidden find find' actor_id target_id action target e no_admin unused =
    elim (Bool-cases (is_admin target.role)) [
      | inl higher ↦ absurd (no_admin (role_admin target.role higher))
      | inr lower ↦ rw (e, unused, lower) refl
    ]
