-- ===== src/Authorization/Invitation.antt =====
-- The life of an invitation to become an administrator.
use nest_backend.Common.{ℕ, ◌≤◌, ◌≡◌, true, arith, Bool-cases, inl, inr}
use nest_backend.Authorization.{
  InvitationLifecycle, status_of, is_pending, assert_acceptable, assert_revocable, allowed, is_set,
}

-- An invitation that is pending at some time could be accepted at every time before it, and can be
-- revoked.
pub is_pending-earlier :
    (invitation : InvitationLifecycle) (now later : ℕ)
    → now ≤ later
    → is_pending invitation later ≡ true
    → (assert_acceptable invitation now ≡ allowed) × (assert_revocable invitation ≡ allowed)
unfolding is_pending status_of assert_acceptable assert_revocable
is_pending-earlier invitation now later le h = elim (Bool-cases (is_set invitation.accepted_at)) [
  | inl taken ↦ ground arith
  | inr free ↦ elim (Bool-cases (is_set invitation.revoked_at)) [
    | inl gone ↦ ground arith
    | inr kept ↦ ground arith
  ]
]
