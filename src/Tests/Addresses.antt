-- ===== src/Tests/Addresses.antt =====
-- Runs of the confirmation and the reversal of an email change.
use api_user.Prelude.{ℕ, String, ◌+◌, ◌≡◌, refl, true, none, some}
use api_user.Exec.{driver, ok, err}
use api_user.Users.{User, patched, unset_all}
use api_user.Users.Repository.{holds, by_pending_email_token}
use api_user.Users.Service.EmailCode.{revert_window_ms}
use api_user.World.{World}
use api_user.World.Updates.{Replaces}
use api_user.Auth.Addresses.{confirm_email_change, revert_email_change}
use api_user.Auth.EmailChange.{
  confirming, confirm_email_change-atomic, confirm_email_change-Replaces,
}
use api_user.Auth.Revert.{Reverted, revert_email_change-atomic, revert_email_change-Reverted}
use api_user.Tests.Outside.{env, plain, world}

-- Someone who is about to confirm an address, and someone who may go back to the old one.
abbrev moving : User
moving = record (plain "u" "old@x") {
  pending_email = some "new@x";
  pending_email_token = some "c";
  pending_email_expires = some 2000;
}

abbrev moved : User
moved = record (plain "v" "new@y") {
  previous_email = some "old@y";
  email_revert_token = some "r";
  email_revert_expires = some 2000;
}

abbrev before_change : ℕ → World env
before_change budget = world moving moved budget true

confirm_ok : (confirm_email_change env "c" none (before_change 3)).0 ≡ ok tt
unfolding confirm_email_change patched unset_all
confirm_ok = refl

confirm_fails : (confirm_email_change env "c" none (before_change 2)).0 ≡ err driver
unfolding confirm_email_change patched unset_all
confirm_fails = refl

confirm_email_change-atomic_example :
    (confirm_email_change env "c" none (before_change 2)).1.users ≡ (before_change 2).users
confirm_email_change-atomic_example =
    confirm_email_change-atomic env "c" none (before_change 2) driver refl confirm_fails

confirm_email_change-Replaces_example :
    (u : User) × (new_email : String) × (by_pending_email_token "c" 1000 u ≡ true)
    × (u.pending_email ≡ some new_email)
    × Replaces env
        (before_change 3).users
        (confirm_email_change env "c" none (before_change 3)).1.users
        u
        (confirming env u new_email "uuid-0" (1000 + revert_window_ms) u)
confirm_email_change-Replaces_example =
    confirm_email_change-Replaces env "c" none (before_change 3) confirm_ok

revert_ok : (revert_email_change env "r" none (before_change 3)).0 ≡ ok tt
unfolding revert_email_change patched unset_all
revert_ok = refl

revert_fails : (revert_email_change env "r" none (before_change 2)).0 ≡ err driver
unfolding revert_email_change patched unset_all
revert_fails = refl

revert_email_change-atomic_example :
    (revert_email_change env "r" none (before_change 2)).1.users ≡ (before_change 2).users
revert_email_change-atomic_example =
    revert_email_change-atomic env "r" none (before_change 2) driver refl revert_fails

revert_email_change-Reverted_example :
    (u : User) × (holds "r" u.email_revert_token ≡ true)
    × Reverted env (before_change 3) (revert_email_change env "r" none (before_change 3)).1 u
revert_email_change-Reverted_example =
    revert_email_change-Reverted env "r" none (before_change 3) revert_ok
