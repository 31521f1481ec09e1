-- ===== src/Tests/Recovery.antt =====
-- Runs of the password reset and the email verification.
use api_user.Prelude.{ℕ, ◌≡◌, refl, true, false, none, some}
use api_user.Exec.{driver, ok, err}
use api_user.Users.{User, patched, unset_all}
use api_user.Users.Repository.{holds, after, by_verification_token}
use api_user.World.{World}
use api_user.World.Updates.{Replaces}
use api_user.Auth.Recovery.{verified_patch, reset_password, verify_email}
use api_user.Auth.Reset.{reset_user, reset_password-atomic, reset_password-Replaces}
use api_user.Auth.Verification.{verified_user, verify_email-Replaces, verify_email-partial}
use api_user.Tests.Outside.{env, plain, world}

-- Someone who has asked for a reset, and someone deleted who has asked for a verification.
abbrev forgetful : User
forgetful = record (plain "u" "u@x") {
  reset_password_token = some "t";
  reset_password_expires = some 2000;
}

abbrev gone : User
gone = record (plain "v" "v@x") {
  is_active = false;
  deleted_at = some 500;
  email_verification_token = some "t";
  email_verification_expires = some 2000;
}

abbrev before_reset : ℕ → World env
before_reset budget = world forgetful gone budget true

reset_ok : (reset_password env "t" "new" none (before_reset 2)).0 ≡ ok tt
unfolding reset_password patched
reset_ok = refl

reset_fails : (reset_password env "t" "new" none (before_reset 1)).0 ≡ err driver
unfolding reset_password patched
reset_fails = refl

reset_password-atomic_example :
    (reset_password env "t" "new" none (before_reset 1)).1.users ≡ (before_reset 1).users
reset_password-atomic_example =
    reset_password-atomic env "t" "new" none (before_reset 1) driver refl reset_fails

reset_password-Replaces_example :
    (u : User) × (holds "t" u.reset_password_token ≡ true)
    × (after 1000 u.reset_password_expires ≡ true)
    × Replaces env
        (before_reset 2).users
        (reset_password env "t" "new" none (before_reset 2)).1.users
        u
        (reset_user env "new" u)
reset_password-Replaces_example =
    reset_password-Replaces env "t" "new" none (before_reset 2) reset_ok

verify_ok : (verify_email env "t" (before_reset 2)).0 ≡ ok tt
unfolding verify_email patched unset_all
verify_ok = refl

verify_email-Replaces_example :
    (u : User) × (by_verification_token "t" 1000 u ≡ true)
    × Replaces env
        (before_reset 2).users
        (verify_email env "t" (before_reset 2)).1.users
        u
        (verified_user u)
verify_email-Replaces_example = verify_email-Replaces env "t" (before_reset 2) verify_ok

-- The users after the first of the two writes.
abbrev half_verified : env.users.State
half_verified = record (before_reset 1).users {
  second = some (record gone { is_active = true });
  budget = 0;
}

first_write :
    env.users.update_one (before_reset 1).users "v" (patched false verified_patch)
    ≡ some half_verified
unfolding patched
first_write = refl

verify_email-partial_example :
    ((verify_email env "t" (before_reset 1)).0 ≡ err driver)
    × ((verify_email env "t" (before_reset 1)).1.users ≡ half_verified)
verify_email-partial_example =
    verify_email-partial env "t" gone half_verified (before_reset 1) refl first_write refl
