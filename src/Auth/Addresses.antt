-- ===== src/Auth/Addresses.antt =====
-- The confirmation and the reversal of an email change, of auth/auth.service.ts.
use api_user.Prelude.{ℕ, ◌+◌, String, Bool, Option, none, some, List, [], ◌∷◌}
use api_user.Errors.{
  expired_confirmation_token, no_pending_email_change, email_revert_window_expired, invalid_token,
}
use api_user.Exec.{pure, gets, throw_if, or_throw, discard, ◌>>=◌, ◌>>◌}
use api_user.Users.{
  User, value, Patch, no_patch, Field, pending_email, pending_email_token, pending_email_expires,
  previous_email,
}
use api_user.Users.Repository
use api_user.Users.Repository.{NewUser}
use api_user.Users.Service
use api_user.Users.Service.EmailCode.{before, revert_window_ms}
use api_user.Env.{Env}
use api_user.World.{
  M, emit, random_uuid, run_in_transaction, email_change_confirmed, email_change_requested_old,
  email_change_reverted,
}

abbrev pub confirmed_patch : User → String → String → ℕ → Patch
confirmed_patch u new_email token expires = record no_patch {
  email = some new_email;
  previous_email = value u.email;
  email_revert_token = value token;
  email_revert_expires = value expires;
}

abbrev pub reverted_patch : String → Patch
reverted_patch restored = record no_patch { email = some restored }

abbrev pub pending_fields : List Field
pending_fields = pending_email ∷ pending_email_token ∷ pending_email_expires ∷ []

abbrev pub reverted_fields : List Field
reverted_fields = previous_email ∷ pending_fields

module _ (env : Env) where
  -- The callback of `confirmEmailChange`'s transaction.
  unfoldable pub write_confirmed : User → String → String → ℕ → Bool → M env (Unit {0})
  unfolding Service.update Service.unset_fields Service.bump_session_epoch
  write_confirmed u new_email token expires session = do
    discard (Service.update env u.id (confirmed_patch u new_email token expires) session)
    discard (Service.unset_fields env u.id pending_fields session)
    discard (Service.bump_session_epoch env u.id session)

  -- `confirmEmailChange` once the new address is known.
  unfoldable pub confirm_apply : Option String → User → String → M env (Unit {0})
  unfolding write_confirmed run_in_transaction
  confirm_apply lang u new_email = do
    now ← gets (λ w. w.now)
    revert ← random_uuid env
    run_in_transaction env (write_confirmed u new_email revert (now + revert_window_ms))
    emit env (email_change_confirmed u.id new_email u.name lang)
    emit env (email_change_requested_old u.id u.email new_email u.name revert lang)

  -- `confirmEmailChange` once the user is found.
  unfoldable pub confirm_found : Option String → User → M env (Unit {0})
  unfolding confirm_apply
  confirm_found lang u = do
    now ← gets (λ w. w.now)
    throw_if (before now u.pending_email_expires) expired_confirmation_token
    new_email ← or_throw no_pending_email_change u.pending_email
    confirm_apply lang u new_email

  unfoldable pub confirm_email_change : String → Option String → M env (Unit {0})
  unfolding Repository.find_by_pending_email_token confirm_found
  confirm_email_change token lang = do
    found ← Repository.find_by_pending_email_token env token
    u ← or_throw expired_confirmation_token found
    confirm_found lang u

  -- The callback of `revertEmailChange`'s transaction.
  unfoldable pub write_reverted : String → String → Bool → M env (Unit {0})
  unfolding Service.update Service.unset_fields Service.bump_session_epoch
  write_reverted id restored session = do
    discard (Service.update env id (reverted_patch restored) session)
    discard (Service.unset_fields env id reverted_fields session)
    discard (Service.bump_session_epoch env id session)

  -- `revertEmailChange` once the window is checked.
  unfoldable pub revert_apply : Option String → User → String → M env (Unit {0})
  unfolding write_reverted run_in_transaction
  revert_apply lang u restored = do
    run_in_transaction env (write_reverted u.id restored)
    emit env (email_change_reverted u.id restored u.name lang)
    emit env (email_change_reverted u.id u.email u.name lang)

  -- `revertEmailChange` for the previous address; without one it was reverted before.
  abbrev pub revert_to : Option String → User → Option String → M env (Unit {0})
  revert_to lang u none = pure tt
  revert_to lang u (some restored) = do
    now ← gets (λ w. w.now)
    throw_if (before now u.email_revert_expires) email_revert_window_expired
    revert_apply lang u restored

  unfoldable pub revert_email_change : String → Option String → M env (Unit {0})
  unfolding Repository.find_by_email_revert_token revert_apply
  revert_email_change token lang = do
    found ← Repository.find_by_email_revert_token env token
    u ← or_throw invalid_token found
    revert_to lang u u.previous_email
