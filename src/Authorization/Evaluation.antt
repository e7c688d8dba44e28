-- ===== src/Authorization/Evaluation.antt =====
-- A permission question has one answer: what is evaluated, what is reported as held, and what may
-- be delegated agree.
use nest_backend.Common.{
  ◌≢◌, ℕ, ◌≡◌, refl, sym, ◌∙◌, ap, List, [], ◌∷◌, ◌++◌, Bool, true, false, not, ◌&&◌, ◌||◌,
  if◌then◌else◌, ◌==◌, any, all, is_empty, arith, Bool-cases, inl, inr,
}
use nest_backend.Common.Text.{Text}
use nest_backend.Authorization.{
  UserRole, owner, admin, user, Permission, user_read, user_create, user_update, user_delete,
  user_suspend, user_unsuspend, admin_read, admin_invite, admin_update, admin_delete, admin_status,
  role_assign, role_read, role_create, role_update, role_delete, audit_read, system_settings, code,
  all_permissions, is_owner_only, has, filter, bypasses_authorization, AuthorizationActor, Grants,
  add_all, held_permissions, can, effective_permissions_of, assert_can_delegate, Verdict, allowed,
  refused, Refusal,
}

-- The permission with a code.
at_code : ℕ → Permission
at_code n =
    if n == 0
    then user_read
    else if n == 1
    then user_create
    else if n == 2
    then user_update
    else if n == 3
    then user_delete
    else if n == 4
    then user_suspend
    else if n == 5
    then user_unsuspend
    else if n == 6
    then admin_read
    else if n == 7
    then admin_invite
    else if n == 8
    then admin_update
    else if n == 9
    then admin_delete
    else if n == 10
    then admin_status
    else if n == 11
    then role_assign
    else if n == 12
    then role_read
    else if n == 13
    then role_create
    else if n == 14
    then role_update
    else if n == 15
    then role_delete
    else if n == 16
    then audit_read
    else system_settings

at_code-code : (p : Permission) → at_code (code p) ≡ p
unfolding at_code
at_code-code user_read = refl
at_code-code user_create = refl
at_code-code user_update = refl
at_code-code user_delete = refl
at_code-code user_suspend = refl
at_code-code user_unsuspend = refl
at_code-code admin_read = refl
at_code-code admin_invite = refl
at_code-code admin_update = refl
at_code-code admin_delete = refl
at_code-code admin_status = refl
at_code-code role_assign = refl
at_code-code role_read = refl
at_code-code role_create = refl
at_code-code role_update = refl
at_code-code role_delete = refl
at_code-code audit_read = refl
at_code-code system_settings = refl

pub same_permission : (p q : Permission) → (code p == code q) ≡ true → p ≡ q
same_permission p q h =
    let same : code p ≡ code q = ground arith in
    sym (at_code-code p) ∙ ap at_code same ∙ at_code-code q

has_every : (p : Permission) → has all_permissions p ≡ true
has_every user_read = refl
has_every user_create = refl
has_every user_update = refl
has_every user_delete = refl
has_every user_suspend = refl
has_every user_unsuspend = refl
has_every admin_read = refl
has_every admin_invite = refl
has_every admin_update = refl
has_every admin_delete = refl
has_every admin_status = refl
has_every role_assign = refl
has_every role_read = refl
has_every role_create = refl
has_every role_update = refl
has_every role_delete = refl
has_every audit_read = refl
has_every system_settings = refl

or_assoc : (a b c : Bool) → (a || (b || c)) ≡ ((a || b) || c)
or_assoc true b c = refl
or_assoc false b c = refl

pub has-append :
    (xs ys : List Permission) (p : Permission) → has (xs ++ ys) p ≡ (has xs p || has ys p)
has-append [] ys p = refl
has-append (x ∷ xs) ys p =
    ap (λ (b : Bool). (code x == code p) || b) (has-append xs ys p)
    ∙ or_assoc (code x == code p) (has xs p) (has ys p)

-- What is there already adds nothing.
absorbed : (a b c : Bool) → (b ≡ true → a ≡ true) → (a || c) ≡ (a || (b || c))
absorbed true b c h = refl
absorbed false true c h = absurd (let e = h refl in cc)
absorbed false false c h = refl

or_last : (a b c : Bool) → ((a || (b || false)) || c) ≡ (a || (b || c))
or_last true b c = refl
or_last false true c = refl
or_last false false c = refl

pub has-add_all :
    (xs set : List Permission) (p : Permission) → has (add_all set xs) p ≡ (has set p || has xs p)
has-add_all [] set p = ground arith
has-add_all (x ∷ xs) set p = elim (Bool-cases (has set x)) [
  | inl there ↦ rw there (
      has-add_all xs set p
      ∙ absorbed (has set p) (code x == code p) (has xs p)
          (λ same. rw (same_permission x p same) at there))
  | inr new ↦ rw new (
      has-add_all xs (set ++ x ∷ []) p
      ∙ ap (λ (b : Bool). b || has xs p) (has-append set (x ∷ []) p)
      ∙ or_last (has set p) (code x == code p) (has xs p))
]

pub has-filter :
    (test : Permission → Bool) (xs : List Permission) (p : Permission)
    → has (filter test xs) p ≡ (has xs p && test p)
has-filter test [] p = refl
has-filter test (x ∷ xs) p = elim (Bool-cases (code x == code p)) [
  | inl same ↦
      let e : test x ≡ test p = ap test (same_permission x p same) in
      ground (arith, has-filter test xs p)
  | inr other ↦ ground (arith, has-filter test xs p)
]

-- A permission is among those that effectivePermissionsOf reports exactly when can answers yes for
-- it alone.
pub effective_agrees :
    (grants : Grants) (actor : AuthorizationActor) (p : Permission)
    → has (effective_permissions_of grants actor) p ≡ can grants actor (p ∷ [])
unfolding effective_permissions_of can
effective_agrees grants actor p = elim (Bool-cases (bypasses_authorization actor.role)) [
  | inl is_owner ↦ rw is_owner (has_every p)
  | inr other ↦
      rw other (
        ground
          (arith, has-filter (λ q. not (is_owner_only q)) (held_permissions grants actor.id) p))
]

-- Held permissions are those granted directly and those of the roles, and no others.
pub held_permissions-append :
    (grants : Grants) (id : Text) (p : Permission)
    → has (held_permissions grants id) p ≡ (has (grants.direct id) p || has (grants.via_roles id) p)
unfolding held_permissions
held_permissions-append grants id p =
    has-add_all (grants.direct id ++ grants.via_roles id) [] p
    ∙ has-append (grants.direct id) (grants.via_roles id) p

empty-filter :
    (test : Permission → Bool) (xs : List Permission)
    → is_empty (filter test xs) ≡ not (any test xs)
empty-filter test [] = refl
empty-filter test (x ∷ xs) = elim (Bool-cases (test x)) [
  | inl met ↦ rw met refl
  | inr unmet ↦ rw unmet (empty-filter test xs)
]

empty_missing :
    (held xs : List Permission) → is_empty (filter (λ p. not (has held p)) xs) ≡ all (has held) xs
empty_missing held [] = refl
empty_missing held (x ∷ xs) = elim (Bool-cases (has held x)) [
  | inl met ↦ rw met (empty_missing held xs)
  | inr unmet ↦ rw unmet refl
]

all_every : (xs : List Permission) → all (has all_permissions) xs ≡ true
all_every [] = refl
all_every (x ∷ xs) = rw (has_every x) (all_every xs)

or_false : (a b : Bool) → (a || b) ≡ false → (a ≡ false) × (b ≡ false)
or_false true b h = cc
or_false false b h = (refl, h)

and_true : (a : Bool) → (a && true) ≡ a
and_true true = refl
and_true false = refl

and_false : (a : Bool) → (a && false) ≡ false
and_false true = refl
and_false false = refl

all-delegable :
    (held xs : List Permission)
    → any is_owner_only xs ≡ false
    → all (has (filter (λ q. not (is_owner_only q)) held)) xs ≡ all (has held) xs
all-delegable held [] h = refl
all-delegable held (x ∷ xs) h =
    let (first, rest) = or_false (is_owner_only x) (any is_owner_only xs) h in
    let found = has-filter (λ q. not (is_owner_only q)) held x in
    let kept : (has held x && not (is_owner_only x)) ≡ has held x =
      rw first (and_true (has held x)) in
    rw (found ∙ kept, all-delegable held xs rest) refl

abbrev pub allows : Verdict → Bool
allows allowed = true
allows (refused refusal) = false

effective_owner :
    (grants : Grants) (actor : AuthorizationActor)
    → bypasses_authorization actor.role ≡ true
    → effective_permissions_of grants actor ≡ all_permissions
unfolding effective_permissions_of
effective_owner grants actor e = rw e refl

effective_other :
    (grants : Grants) (actor : AuthorizationActor)
    → bypasses_authorization actor.role ≡ false
    → effective_permissions_of grants actor
      ≡ filter (λ q. not (is_owner_only q)) (held_permissions grants actor.id)
unfolding effective_permissions_of
effective_other grants actor e = rw e refl

can_owner :
    (grants : Grants) (actor : AuthorizationActor) (ps : List Permission)
    → bypasses_authorization actor.role ≡ true
    → can grants actor ps ≡ true
unfolding can
can_owner grants actor ps e = rw e refl

-- An account that is not the owner is measured against what it holds.
can_other :
    (grants : Grants) (actor : AuthorizationActor) (ps : List Permission)
    → bypasses_authorization actor.role ≡ false
    → any is_owner_only ps ≡ false
    → can grants actor ps ≡ all (has (held_permissions grants actor.id)) ps
unfolding can
can_other grants actor [] e h = rw e refl
can_other grants actor (p ∷ ps) e h = rw (e, h) refl

nothing_missing :
    (grants : Grants) (actor : AuthorizationActor) (ps : List Permission)
    → any is_owner_only ps ≡ false
    → all (has (effective_permissions_of grants actor)) ps ≡ can grants actor ps
nothing_missing grants actor ps h =
    let found = λ (e : List Permission). all (has e) ps in
    elim (Bool-cases (bypasses_authorization actor.role)) [
      | inl is_owner ↦
          ap found (effective_owner grants actor is_owner)
          ∙ all_every ps
          ∙ sym (can_owner grants actor ps is_owner)
      | inr other ↦
          ap found (effective_other grants actor other)
          ∙ all-delegable (held_permissions grants actor.id) ps h
          ∙ sym (can_other grants actor ps other h)
    ]

verdict_of :
    (refusal : Refusal) (b : Bool)
    → allows (if not b then refused refusal else allowed) ≡ (b && true)
verdict_of refusal true = refl
verdict_of refusal false = refl

-- assertCanDelegate lets a delegation pass exactly when the actor can do everything that is
-- delegated and nothing of it is reserved to the owner.
pub delegate_agrees :
    (grants : Grants) (actor : AuthorizationActor) (permissions : List Permission)
    → allows (assert_can_delegate grants actor permissions)
      ≡ (can grants actor permissions && not (any is_owner_only permissions))
unfolding assert_can_delegate
delegate_agrees grants actor permissions =
    let reserved = empty-filter is_owner_only permissions in
    let missing = empty_missing (effective_permissions_of grants actor) permissions in
    elim (Bool-cases (any is_owner_only permissions)) [
      | inl some_reserved ↦
          rw (reserved, some_reserved) (sym (and_false (can grants actor permissions)))
      | inr none_reserved ↦
          rw
            (
              reserved,
              none_reserved,
              missing,
              nothing_missing grants actor permissions none_reserved,
            )
            (verdict_of _ (can grants actor permissions))
    ]

-- A permission is granted to the account, directly or by a role, and can be held by it.
abbrev pub is_granted : Grants → Text → Permission → Bool
is_granted grants id p =
    not (is_owner_only p) && (has (grants.direct id) p || has (grants.via_roles id) p)

if_and : (b a c : Bool) → (if b then false else (a && c)) ≡ (a && (if b then false else c))
if_and true a c = sym (and_false a)
if_and false a c = refl

all_granted :
    (grants : Grants) (id : Text) (ps : List Permission)
    → (if any is_owner_only ps then false else all (has (held_permissions grants id)) ps)
      ≡ all (is_granted grants id) ps
all_granted grants id [] = refl
all_granted grants id (p ∷ ps) = elim (Bool-cases (is_owner_only p)) [
  | inl reserved ↦ rw reserved refl
  | inr delegable ↦ rw delegable (
      if_and (any is_owner_only ps) (has (held_permissions grants id) p)
        (all (has (held_permissions grants id)) ps)
      ∙ ap
          (λ (b : Bool).
            b
            && (if any is_owner_only ps then false else all (has (held_permissions grants id)) ps))
          (held_permissions-append grants id p)
      ∙ ap (λ (b : Bool). (has (grants.direct id) p || has (grants.via_roles id) p) && b)
          (all_granted grants id ps))
]

bypass_by_owner : (role : UserRole) → role ≡ owner → bypasses_authorization role ≡ true
bypass_by_owner role e = rw e refl

bypass_by_other : (role : UserRole) → role ≢ owner → bypasses_authorization role ≡ false
bypass_by_other owner other = absurd (other refl)
bypass_by_other admin other = refl
bypass_by_other user other = refl

can_by_grants :
    (grants : Grants) (actor : AuthorizationActor) (required : List Permission)
    → bypasses_authorization actor.role ≡ false
    → can grants actor required ≡ all (is_granted grants actor.id) required
unfolding can
can_by_grants grants actor [] other = rw other refl
can_by_grants grants actor (p ∷ ps) other = rw other (all_granted grants actor.id (p ∷ ps))

can_by_owner :
    (grants : Grants) (actor : AuthorizationActor) (required : List Permission)
    → bypasses_authorization actor.role ≡ true
    → can grants actor required ≡ true
unfolding can
can_by_owner grants actor required is_owner = rw is_owner refl

-- PermissionEvaluationService.can answers yes to everything for the owner, and for any other actor
-- exactly when every required permission is granted to the actor directly or by a role and is not
-- reserved to the owner.
pub can-is_granted :
    (grants : Grants) (actor : AuthorizationActor) (required : List Permission)
    → (actor.role ≡ owner → can grants actor required ≡ true)
      × (actor.role ≢ owner → can grants actor required ≡ all (is_granted grants actor.id) required)
can-is_granted grants actor required = (
  λ e. can_by_owner grants actor required (bypass_by_owner actor.role e),
  λ other. can_by_grants grants actor required (bypass_by_other actor.role other),
)
