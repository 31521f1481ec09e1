-- ===== src/Tests/Accounts.antt =====
-- Runs of the account operations.
use api_user.Prelude.{ℕ, ◌≡◌, refl, true, false, none, some}
use api_user.Errors.{forbidden}
use api_user.Errors.Codes.{code-injective}
use api_user.Exec.{driver, ok, err}
use api_user.Users.{User, patched}
use api_user.Users.Service.{change_password, toggle_active_user, delete_user}
use api_user.Users.Service.Password.{changed_user, change_password-atomic, change_password-Replaces}
use api_user.Users.Service.Accounts.{
  toggled_user, toggle_active_user-Replaces, Deleted, delete_user-Deleted,
}
use api_user.World.{World}
use api_user.World.Updates.{Replaces}
use api_user.Tests.Outside.{env, plain, world}

abbrev start : ℕ → World env
start budget = world (plain "u" "u@x") (plain "v" "v@x") budget true

code-injective_example : forbidden ≡ forbidden
code-injective_example = code-injective forbidden forbidden refl

change_ok : (change_password env "u" "pw" "new" (start 2)).0 ≡ ok tt
unfolding change_password patched
change_ok = refl

change_fails : (change_password env "u" "pw" "new" (start 1)).0 ≡ err driver
unfolding change_password patched
change_fails = refl

change_password-atomic_example :
    (change_password env "u" "pw" "new" (start 1)).1.users ≡ (start 1).users
change_password-atomic_example =
    change_password-atomic env "u" "pw" "new" (start 1) driver refl change_fails

change_password-Replaces_example :
    (u : User) × (env.users.doc (start 2).users "u" ≡ some u)
    × (env.crypto.compare "pw" u.password ≡ true)
    × Replaces env
        (start 2).users
        (change_password env "u" "pw" "new" (start 2)).1.users
        u
        (changed_user env "new" u)
change_password-Replaces_example = change_password-Replaces env "u" "pw" "new" (start 2) change_ok

toggle_ok :
    (toggle_active_user env "u" (start 1)).0
    ≡ ok (some (record (plain "u" "u@x") { is_active = false }))
unfolding toggle_active_user patched
toggle_ok = refl

toggle_active_user-Replaces_example :
    (u : User) × (env.users.doc (start 1).users "u" ≡ some u)
    × (u.deleted_at ≡ none)
    × Replaces env
        (start 1).users
        (toggle_active_user env "u" (start 1)).1.users
        u
        (toggled_user env u)
toggle_active_user-Replaces_example =
    toggle_active_user-Replaces env "u" (start 1)
      (some (record (plain "u" "u@x") { is_active = false })) toggle_ok

delete_ok : (delete_user env "u" (start 1)).0 ≡ ok "u"
unfolding delete_user
delete_ok = refl

delete_user-Deleted_example :
    (u : User) × (env.users.doc (start 1).users "u" ≡ some u)
    × Deleted env (start 1) (delete_user env "u" (start 1)).1 u
delete_user-Deleted_example = delete_user-Deleted env "u" (start 1) "u" delete_ok
