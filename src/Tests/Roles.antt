-- ===== src/Tests/Roles.antt =====
-- Runs of the role requests.
use api_user.Prelude.{
  ℕ, String, ◌≡◌, refl, true, false, none, some, List, [], ◌∷◌, includes, length, not, arith,
  Option, ◌&&◌, ◌↔◌, ◌||◌, ◌==◌, if◌then◌else◌,
}
use api_user.Exec.{ok, err}
use api_user.Errors.{forbidden, validation_error}
use api_user.Exec.{domain}
use api_user.Roles.Assignable.{
  known_names, assert_permissions_assignable, assert_permissions_assignable_iff,
}
use api_user.Auth.Guards.{holds_grant, can_activate, can_activate_iff, can_activate-merge}
use api_user.Auth.Current.{user_of, validate_user, authorize, Granted, authorize_iff}
use api_user.Users.{User}
use api_user.Users.Repository.{find_by_id}
use api_user.Users.Service.{find_by_id as find_user}
use api_user.Roles.{Role, unique, merge_effective_permissions}
use api_user.Pages.{pages_from, pages_from-all}
use api_user.Roles.Lookup.{find_by_names, length-find_by_names}
use api_user.Roles.Removal.{Removed, remove-Removed}
use api_user.Roles.Service
use api_user.Roles.Merge.{is_distinct, includes-merge}
use api_user.Roles.System.{RoleRequest, update, remove, create, serve_roles, Kept, serve_roles-Kept}
use api_user.World.{World}
use api_user.Tests.Outside.{env, plain, world}

abbrev admin_role : Role
admin_role = record {
  id = "r";
  name = "admin";
  description = none;
  permission_ids = "*" ∷ [];
  is_system = true;
  is_default = false;
}

abbrev spare_role : Role
spare_role = record admin_role { id = "s"; name = "spare"; is_system = false }

abbrev start : World env
start = record (world (plain "u" "u@x") (plain "v" "v@x") 5 true) {
  roles = λ k. if k == "r" then some admin_role else if k == "s" then some spare_role else none;
}

abbrev requests : List RoleRequest
requests =
    remove "r"
    ∷ update "r" (record { name = some "root"; description = none })
    ∷ create (record {
      name = "editor";
      description = none;
      permission_ids = "user:read" ∷ [];
      is_system = false;
      is_default = false;
    })
    ∷ []

admin_stays : (Service.remove env "r" start).0 ≡ err (domain forbidden)
unfolding Service.remove
admin_stays = refl

serve_roles-Kept_example : Kept env start.roles (serve_roles env requests start).roles
serve_roles-Kept_example = serve_roles-Kept env requests start

remove_ok : (Service.remove env "s" start).0 ≡ ok spare_role
unfolding Service.remove
remove_ok = refl

remove-Removed_example : Removed env "s" start (Service.remove env "s" start).1 spare_role
remove-Removed_example = remove-Removed env "s" start spare_role remove_ok

includes-merge_example :
    (is_distinct (merge_effective_permissions ("a" ∷ "b" ∷ []) ("b" ∷ "c" ∷ [])) ≡ true)
    × ((p : String)
        → includes (merge_effective_permissions ("a" ∷ "b" ∷ []) ("b" ∷ "c" ∷ [])) p
          ≡ (includes ("a" ∷ "b" ∷ []) p || includes ("b" ∷ "c" ∷ []) p))
includes-merge_example = includes-merge ("a" ∷ "b" ∷ []) ("b" ∷ "c" ∷ [])

merge_order : merge_effective_permissions ("a" ∷ "b" ∷ []) ("b" ∷ "c" ∷ []) ≡ "a" ∷ "b" ∷ "c" ∷ []
unfolding merge_effective_permissions
merge_order = refl

-- Guards.
guard_ok :
    can_activate (ok ("user:read" ∷ "role:read" ∷ [])) (some ("user:*" ∷ "role:read" ∷ []))
    ≡ ok true
unfolding can_activate
guard_ok = refl

can_activate_iff_example :
    (can_activate (ok ("user:read" ∷ [])) (some ("user:*" ∷ [])) ≡ ok true)
    ↔ ((p : String) → includes ("user:read" ∷ []) p ≡ true → holds_grant ("user:*" ∷ []) p ≡ true)
can_activate_iff_example = can_activate_iff ("user:read" ∷ []) ("user:*" ∷ [])

can_activate-merge_example :
    can_activate
      (ok ("user:read" ∷ "role:read" ∷ []))
      (some (merge_effective_permissions ("user:*" ∷ "role:read" ∷ []) ("x" ∷ [])))
    ≡ ok true
can_activate-merge_example =
    can_activate-merge ("user:read" ∷ "role:read" ∷ []) ("user:*" ∷ "role:read" ∷ []) ("x" ∷ [])
      guard_ok

assignable :
    (assert_permissions_assignable env ("user:read" ∷ "user:read" ∷ []) start).0
    ≡ ok ("user:read" ∷ [])
unfolding assert_permissions_assignable unique
assignable = refl

not_assignable :
    (assert_permissions_assignable env ("user:read" ∷ "*" ∷ []) start).0
    ≡ err (domain validation_error)
unfolding assert_permissions_assignable unique
not_assignable = refl

assert_permissions_assignable_iff_example :
    ((assert_permissions_assignable env ("user:read" ∷ []) start).0
      ≡ ok (unique ("user:read" ∷ [])))
    ↔ ((p : String)
        → includes ("user:read" ∷ []) p ≡ true
        → (not (p == "*") && includes (known_names env (unique ("user:read" ∷ []))) p) ≡ true)
assert_permissions_assignable_iff_example =
    assert_permissions_assignable_iff env ("user:read" ∷ []) start

abbrev three : List ℕ
three = 1 ∷ 2 ∷ 3 ∷ []

pages_from-all_example : pages_from three 2 0 2 ≡ three
pages_from-all_example = pages_from-all three 2 (omega arith)

length-find_by_names_example :
    (rs : List (Option Role)) × (c : env.cache.Cached) × (find_by_names env ("a" ∷ "b" ∷ []) start
      ≡ (ok rs, record start { cached = c }))
    × (length rs ≡ 2)
length-find_by_names_example = length-find_by_names env ("a" ∷ "b" ∷ []) start

-- A user with a permission of her own, who was deleted since.
abbrev gone : User
gone = record (plain "u" "u@x") {
  permissions = "user:*" ∷ [];
  is_active = false;
  deleted_at = some 5;
}

abbrev later : World env
later = world gone (plain "v" "v@x") 5 true

still_served : (authorize env ("user:read" ∷ []) "u" later).0 ≡ ok true
unfolding authorize validate_user find_user find_by_id Service.get_permissions_for_role
    Service.find_by_name can_activate merge_effective_permissions unique
still_served = refl

authorize_iff_example :
    (u : User) × (user_of env later "u" ≡ some u)
    × ((p : String) → includes ("user:read" ∷ []) p ≡ true → Granted env later u p)
authorize_iff_example = (authorize_iff env ("user:read" ∷ []) "u" later).0 still_served
