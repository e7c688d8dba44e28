-- ===== src/Authorization/Invitations/Witnesses.antt =====
-- The theorems about invitations at concrete inputs, and runs of them.
use nest_backend.Common.{◌≡◌, refl, [], ◌∷◌, none, some, true}
use nest_backend.Common.Text.{Text, codes}
use nest_backend.Authorization.{
  user_read, assert_acceptable, status_of, assert_revocable, assert_role_assignable,
  invitation_not_pending, email_already_exists, username_already_exists,
}
use nest_backend.Authorization.Invitations.{
  State, AdminInvitation, completes, throws, accept_invitation, revoke_invitation,
  throw_on_unique_constraint, unique_detail, new_account,
}
use nest_backend.Authorization.Invitations.SingleUse.{
  respond, accepts, revokes, stays, accept_once, accept_revoked,
}

-- In place of the digests and of the changes of letters.
abbrev same_text : Text → Text
same_text text = text

abbrev invitation : AdminInvitation
invitation = record {
  id = codes "i";
  email = codes "a@b.c";
  token_hash = codes "t";
  permissions = user_read ∷ [];
  expires_at = 1000;
  accepted_at = none;
  revoked_at = none;
  invited_by_id = some (codes "o");
  accepted_user_id = none;
}

abbrev invited_once : State
invited_once = record { users = []; grants = []; invitations = invitation ∷ [] }

abbrev joined_now : State
joined_now = record {
  users =
      new_account same_text same_text same_text same_text invitation (codes "u") (codes "ann")
        (codes "p") none
      ∷ [];
  grants =
      (record { user_id = codes "u"; permission = user_read; granted_by_id = some (codes "o") })
      ∷ [];
  invitations =
      record invitation { accepted_at = some 500; accepted_user_id = some (codes "u") } ∷ [];
}

abbrev withdrawn_now : State
withdrawn_now = record invited_once {
  invitations = record invitation { revoked_at = some 500 } ∷ [];
}

accept_run :
    respond same_text same_text same_text same_text invited_once
      (accepts 500 (codes "t") (codes "u") (codes "ann") (codes "p") none)
    ≡ completes joined_now
unfolding accept_invitation assert_acceptable status_of assert_role_assignable
accept_run = refl

revoke_run :
    respond same_text same_text same_text same_text invited_once (revokes 500 (codes "i"))
    ≡ completes withdrawn_now
unfolding revoke_invitation assert_revocable
revoke_run = refl

accept_once_example :
    respond same_text same_text same_text same_text joined_now
      (accepts 600 (codes "t") (codes "v") (codes "bob") (codes "q") none)
    ≡ throws invitation_not_pending
accept_once_example =
    accept_once same_text same_text same_text same_text invited_once joined_now joined_now 500 600
      (codes "t") (codes "u") (codes "ann") (codes "p") none (codes "v") (codes "bob") (codes "q")
      none accept_run (stays joined_now)

accept_revoked_example :
    respond same_text same_text same_text same_text withdrawn_now
      (accepts 600 (codes "t") (codes "u") (codes "ann") (codes "p") none)
    ≡ throws invitation_not_pending
accept_revoked_example =
    accept_revoked same_text same_text same_text same_text invited_once withdrawn_now withdrawn_now
      500 600 invitation (codes "t") (codes "u") (codes "ann") (codes "p") none refl refl revoke_run
      (stays withdrawn_now)

-- A second account with the address of the invitation.
taken_address_run :
    respond same_text same_text same_text same_text
      (record invited_once {
        users =
            record (new_account same_text same_text same_text same_text invitation
              (codes "x")
              (codes "y")
              []
              none) { is_deleted = true }
            ∷ [];
      })
      (accepts 500 (codes "t") (codes "u") (codes "ann") (codes "p") none)
    ≡ throws email_already_exists
unfolding accept_invitation assert_acceptable status_of assert_role_assignable
    throw_on_unique_constraint
taken_address_run = refl

-- A taken username is reported as a taken address if it contains "email".
username_run :
    (throw_on_unique_constraint (unique_detail (codes "username") (codes "ann"))
      ≡ username_already_exists)
    × (throw_on_unique_constraint (unique_detail (codes "username") (codes "my_email"))
        ≡ email_already_exists)
unfolding throw_on_unique_constraint
username_run = (refl, refl)
