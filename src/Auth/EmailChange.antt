-- ===== src/Auth/EmailChange.antt =====
-- The email change of auth/auth.service.ts: its confirmation and its undoing.
use api_user.Prelude.{
  ℕ, ◌+◌, String, ◌≡◌, Bool, true, false, Option, none, some, List, is_some, ◌∙◌, arith,
}
use api_user.Errors.{expired_confirmation_token, no_pending_email_change}
use api_user.Exec.{Failure, ok, err, discard, or_throw, ◌>>=◌, ◌>>◌}
use api_user.Exec.Inversion.{or_throw-bind-ok, throw_if-bind-ok}
use api_user.Users.{User, Patch, Field, patched, unset_all}
use api_user.Users.Repository.{by_pending_email_token, inc_session_epoch}
use api_user.Users.Service
use api_user.Users.Service.EmailCode.{before, revert_window_ms}
use api_user.Users.Service.Effects.{
  Runs-update, Runs-unset_fields, Runs-bump_session_epoch, Runs-discard,
}
use api_user.Env.{Env}
use api_user.World.{
  World, emit, run_in_transaction, email_change_confirmed, email_change_requested_old,
}
use api_user.World.Updates.{Updates, Updates-Replaces, Replaces}
use api_user.World.Runs.{Runs, Runs-bind, Runs-last, runs_rules, Runs-run_in_transaction}
use api_user.Auth.Addresses.{
  pending_fields, confirmed_patch, write_confirmed, confirm_apply, confirm_found,
  confirm_email_change,
}

module _ (env : Env) where
  -- The user after a confirmation: the new address, the old one kept with a token for the revert
  -- window, no pending change, and the next epoch.
  abbrev pub confirmed_user : String → String → ℕ → User → User
  confirmed_user new_email token expires u = record u {
    email = new_email;
    previous_email = some u.email;
    email_revert_token = some token;
    email_revert_expires = some expires;
    pending_email = none;
    pending_email_token = none;
    pending_email_expires = none;
    session_epoch = u.session_epoch + 1;
  }

  -- The same with the previous address of a given user.
  abbrev pub confirming : User → String → String → ℕ → User → User
  confirming old new_email token expires u = record (confirmed_user new_email token expires u) {
    previous_email = some old.email;
  }

  -- A change of the address, removed fields, and the next epoch, in one transaction or without.
  pub write_email-Runs :
      (k : String) (p : Patch) (fields : List Field) (session : Bool)
      → Runs env session k
          (λ u. inc_session_epoch (unset_all fields (patched (is_some p.password) p u)))
          (do
            discard (Service.update env k p session)
            discard (Service.unset_fields env k fields session)
            discard (Service.bump_session_epoch env k session))
  write_email-Runs k p fields session =
      Runs-bind env session k (patched (is_some p.password) p)
        (λ u. inc_session_epoch (unset_all fields u)) _ _
        (Runs-discard env k _ session _ (Runs-update env k p session))
        (λ _.
          Runs-bind env session k (unset_all fields) inc_session_epoch _ _
            (Runs-discard env k _ session _ (Runs-unset_fields env k fields session))
            (λ _. Runs-discard env k _ session _ (Runs-bump_session_epoch env k session)))

  write_confirmed-Runs :
      (u : User) (new_email token : String) (expires : ℕ) (session : Bool)
      → Runs env session u.id
          (confirming u new_email token expires)
          (write_confirmed env u new_email token expires session)
  unfolding write_confirmed patched unset_all
  write_confirmed-Runs u new_email token expires session =
      write_email-Runs u.id (confirmed_patch u new_email token expires) pending_fields session

  -- The change of address and the new epoch are committed together: a confirmation that fails has
  -- left the committed users as they were, where the database gives sessions.
  pub confirm_email_change-atomic :
      (token : String) (lang : Option String) (w : World env) (e : Failure)
      → env.users.start_session w.users ≡ true
      → (confirm_email_change env token lang w).0 ≡ err e
      → (confirm_email_change env token lang w).1.users ≡ w.users
  unfolding confirm_email_change
  confirm_email_change-atomic token lang w e s h = ground arith

  confirm_apply-Updates :
      (lang : Option String) (u : User) (new_email : String) (w : World env)
      → (confirm_apply env lang u new_email w).0 ≡ ok tt
      → Updates env w.users
          (confirm_apply env lang u new_email w).1.users
          u.id
          (confirming u new_email (env.crypto.uuid w.drawn) (w.now + revert_window_ms))
  unfolding confirm_apply
  confirm_apply-Updates lang u new_email w h =
      let w' = record w { drawn = w.drawn + 1 } in
      let runs : Runs env false u.id
          (confirming u new_email (env.crypto.uuid w.drawn) (w.now + revert_window_ms))
          (do
            run_in_transaction env (
                write_confirmed env u new_email (env.crypto.uuid w.drawn)
                  (w.now + revert_window_ms))
            emit env (email_change_confirmed u.id new_email u.name lang)
            emit env (
                email_change_requested_old u.id u.email new_email u.name (env.crypto.uuid w.drawn)
                  lang)) =
        search (runs_rules, Runs-last, Runs-run_in_transaction, write_confirmed-Runs) in
      runs.at w' tt h

  confirm_found-inv :
      (lang : Option String) (u : User) (w : World env)
      → (confirm_found env lang u w).0 ≡ ok tt
      → (e : String) × (u.pending_email ≡ some e)
        × (confirm_found env lang u w ≡ confirm_apply env lang u e w)
  unfolding confirm_found
  confirm_found-inv lang u w h =
      let rest = or_throw no_pending_email_change u.pending_email >>= confirm_apply env lang u in
      let (_, same, h') =
        throw_if-bind-ok expired_confirmation_token (before w.now u.pending_email_expires) rest w
          h in
      let (e, pending, same', _) =
        or_throw-bind-ok no_pending_email_change u.pending_email (confirm_apply env lang u) w h' in
      (e, pending, same ∙ same')

  -- A confirmation that succeeds was given an unexpired token of a stored user with a pending
  -- address, and has changed that user alone: the pending address in place of the old one, which is
  -- kept with a fresh token for 72 hours, no pending change, and the next session epoch.
  pub confirm_email_change-Replaces :
      (token : String) (lang : Option String) (w : World env)
      → (confirm_email_change env token lang w).0 ≡ ok tt
      → (u : User) × (new_email : String) × (by_pending_email_token token w.now u ≡ true)
        × (u.pending_email ≡ some new_email)
        × Replaces env w.users
            (confirm_email_change env token lang w).1.users
            u
            (confirmed_user new_email (env.crypto.uuid w.drawn) (w.now + revert_window_ms) u)
  unfolding confirm_email_change
  confirm_email_change-Replaces token lang w h =
      let (u, found, same, h1) =
        or_throw-bind-ok expired_confirmation_token
          (env.users.find_one w.users (by_pending_email_token token w.now)) (confirm_found env lang)
          w h in
      let (e, pending, same1) = confirm_found-inv lang u w h1 in
      (
        u,
        e,
        env.users.find_one-test w.users _ u found,
        pending,
        rw (same ∙ same1) (
            Updates-Replaces env w.users _ _ u (env.users.find_one-doc w.users _ u found)
              (confirm_apply-Updates lang u e w (rw same1 at h1))),
      )
