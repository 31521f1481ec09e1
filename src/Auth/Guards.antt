-- ===== src/Auth/Guards.antt =====
-- auth/guards/permissions.guard.ts and roles.guard.ts, with what they ask of a user.
use api_user.Prelude.{
  String, ◌≡◌, ◌↔◌, refl, ◌∙◌, sym, ap, Bool, true, false, ◌||◌, Option, none, some, List, [], ◌∷◌,
  any, every, every-includes, includes-every, includes, arith, Bool-cases, inl, inr, if◌then◌else◌,
}
use Prim.Native.String.{slice, ◌++◌}
use text.Mathlib.Text.{find?}
use api_user.Errors.{invalid_token, forbidden}
use api_user.Exec.{Result, ok, err, domain}
use api_user.Users.{UserRole, role_name}
use api_user.Roles.{merge_effective_permissions}
use api_user.Roles.Merge.{includes-merge}

-- `const [resource] = perm.split(':')`: the part before the first colon, if there is one.
abbrev pub resource : String → String
resource permission = elim (find? permission ":") [
  | none ↦ permission
  | some i ↦ slice permission 0 i
]

-- The test of one required permission.
abbrev pub is_granted : List String → String → Bool
is_granted user_permissions permission =
    includes user_permissions "*"
    || includes user_permissions permission
    || any (λ _. includes user_permissions (resource permission ++ ":*")) user_permissions

-- The rest of `canActivate` for a list of required permissions.
abbrev pub check_permissions : List String → List String → Result Bool
check_permissions required user_permissions =
    if every (is_granted user_permissions) required then ok true else err (domain forbidden)

abbrev pub check_user : List String → Option (List String) → Result Bool
check_user required none = err (domain invalid_token)
check_user required (some user_permissions) = check_permissions required user_permissions

-- `PermissionGuard.canActivate`: the required permissions, or a failure to read them, and the
-- permissions of the user of the request, if there is one.
unfoldable pub can_activate : Result (List String) → Option (List String) → Result Bool
can_activate (err e) user = err (domain forbidden)
can_activate (ok []) user = ok true
can_activate (ok (p ∷ ps)) user = check_user (p ∷ ps) user

abbrev check_role : List String → Option UserRole → Result Bool
check_role required none = err (domain forbidden)
check_role required (some role) =
    if includes required (role_name role) then ok true else err (domain forbidden)

-- `RolesGuard.canActivate`: the required roles, and the role of the user of the request, if there
-- is a user with a role.
unfoldable has_role : List String → Option UserRole → Result Bool
has_role [] role = ok true
has_role (r ∷ rs) role = check_role (r ∷ rs) role

any-false : (xs : List String) → any (λ _. false) xs ≡ false
any-false [] = refl
any-false (x ∷ xs) = any-false xs

any-includes : (xs : List String) (r : String) → any (λ _. includes xs r) xs ≡ includes xs r
any-includes [] r = refl
any-includes (x ∷ xs) r = elim (Bool-cases (includes (x ∷ xs) r)) [
  | inl here ↦ ground (arith, here)
  | inr missing ↦ ap (λ b. any (λ _. b) (x ∷ xs)) missing ∙ any-false (x ∷ xs) ∙ sym missing
]

-- The wildcard, the permission itself, or the wildcard of its resource is among the permissions.
abbrev pub holds_grant : List String → String → Bool
holds_grant user_permissions p =
    includes user_permissions "*"
    || includes user_permissions p
    || includes user_permissions (resource p ++ ":*")

is_granted-holds_grant : (us : List String) (p : String) → is_granted us p ≡ holds_grant us p
is_granted-holds_grant us p =
    ap (λ b. includes us "*" || includes us p || b) (any-includes us (resource p ++ ":*"))

can_activate-every :
    (required us : List String)
    → can_activate (ok required) (some us) ≡ ok true
    → every (is_granted us) required ≡ true
unfolding can_activate
can_activate-every [] us h = refl
can_activate-every (p ∷ ps) us h = elim (Bool-cases (every (is_granted us) (p ∷ ps))) [
  | inl all ↦ all
  | inr some_missing ↦
      let e : err (domain forbidden) ≡ ok true = rw some_missing at h in absurd (cc e)
]

every-can_activate :
    (required us : List String)
    → every (is_granted us) required ≡ true
    → can_activate (ok required) (some us) ≡ ok true
unfolding can_activate
every-can_activate [] us h = refl
every-can_activate (p ∷ ps) us h = ap (λ b. if b then ok true else err (domain forbidden)) h

-- With readable requirements and a user, the guard lets a request pass exactly when each required
-- permission is granted: by the wildcard, by itself, or by the wildcard of its resource.
pub can_activate_iff :
    (required user_permissions : List String)
    → (can_activate (ok required) (some user_permissions) ≡ ok true)
      ↔ ((p : String) → includes required p ≡ true → holds_grant user_permissions p ≡ true)
can_activate_iff required us = (
  λ h p here.
      sym (is_granted-holds_grant us p)
      ∙ every-includes (is_granted us) required (can_activate-every required us h) p here,
  λ h.
      every-can_activate required us (
        includes-every (is_granted us) required (λ p here. is_granted-holds_grant us p ∙ h p here)),
)

-- What the permissions of a role allow, the effective permissions of a user with that role allow.
pub can_activate-merge :
    (required role_permissions user_permissions : List String)
    → can_activate (ok required) (some role_permissions) ≡ ok true
    → can_activate
        (ok required)
        (some (merge_effective_permissions role_permissions user_permissions))
      ≡ ok true
can_activate-merge required rs us h =
    let merged = merge_effective_permissions rs us in
    (can_activate_iff required merged).1 (λ p here.
      let granted = (can_activate_iff required rs).0 h p here in
      let holds = (includes-merge rs us).1 in
      ground (arith, granted, holds "*", holds p, holds (resource p ++ ":*")))
