-- ===== src/Auth/Current.antt =====
-- `validateUser` of auth/auth.service.ts, which auth/strategies/jwt.strategy.ts calls for the user of
-- an access token, and the permission guard on the user that it gives.
use Prim.Native.String.{◌++◌}
use api_user.Prelude.{
  String, ◌≡◌, ◌⊎◌, ◌↔◌, refl, ap, sym, ◌∙◌, Bool, true, false, ◌||◌, Option, none, some, List,
  includes, get_or, ◌==◌, Option-cases, arith, inl, inr,
}
use api_user.Errors.{user_not_found}
use api_user.Exec.{ok, err, domain, continue, or_throw, pure, gets, ◌>>=◌, ◌>>◌}
use api_user.Users.{User, role_name}
use api_user.Users.Repository
use api_user.Users.Service
use api_user.Roles.{Role, merge_effective_permissions}
use api_user.Roles.Merge.{includes-merge}
use api_user.Roles.Service.{find_by_name, permissions_of, get_permissions_for_role}
use api_user.Auth.Guards.{resource, holds_grant, can_activate, can_activate_iff}
use api_user.Env.{Env}
use api_user.World.{World, M}

abbrev pub user_key : String → String
user_key id = "user:" ++ id

-- The first of two values that is there.
abbrev pub or_stored : {A : Type 0} → Option A → Option A → Option A
or_stored none stored = stored
or_stored (some a) stored = some a

module _ (env : Env) where
  abbrev pub cached_user : String → M env (Option User)
  cached_user id = gets (λ w. env.cache.get_user w.cached w.now (user_key id))

  abbrev pub cache_user : String → User → M env (Unit {0})
  cache_user id u w =
      (ok tt, record w { cached = env.cache.set_user w.cached w.now (user_key id) u })

  abbrev pub with_effective_permissions : User → M env User
  with_effective_permissions u = do
    role_permissions ← get_permissions_for_role env (role_name u.role)
    pure (record u { permissions = merge_effective_permissions role_permissions u.permissions })

  abbrev pub keep_user : String → User → M env User
  keep_user id u = cache_user id u >> with_effective_permissions u

  abbrev pub validate_stored : String → M env User
  validate_stored id = Service.find_by_id env id >>= keep_user id

  abbrev pub validate_found : String → Option User → M env User
  validate_found id none = validate_stored id
  validate_found id (some u) = with_effective_permissions u

  unfoldable pub validate_user : String → M env User
  unfolding Service.find_by_id get_permissions_for_role
  validate_user id = cached_user id >>= validate_found id

  abbrev pub guarded : List String → User → M env Bool
  guarded required u w = (can_activate (ok required) (some u.permissions), w)

  -- The request of a user with an access token, behind the guard.
  unfoldable pub authorize : List String → String → M env Bool
  unfolding validate_user can_activate
  authorize required id = do u ← validate_user id; guarded required u

  -- The permissions of a role, as the cache has it or else the collection.
  abbrev pub role_of : World env → String → Option Role
  role_of w name =
      get_or (env.cache.get_role w.cached w.now name)
        (env.roles.find_one w.roles (λ r. r.name == name))

  abbrev pub role_grants : World env → User → List String
  role_grants w u = permissions_of env (role_of w (role_name u.role))

  abbrev pub effective : World env → User → User
  effective w u = record u {
    permissions = merge_effective_permissions (role_grants w u) u.permissions;
  }

  -- The user of an id, as the cache has it or else the collection.
  abbrev pub user_of : World env → String → Option User
  user_of w id =
      or_stored (env.cache.get_user w.cached w.now (user_key id)) (env.users.doc w.users id)

  find_by_name-role_of :
      (name : String) (w : World env) → (find_by_name env name w).0 ≡ ok (role_of w name)
  unfolding find_by_name
  find_by_name-role_of name w = elim (Option-cases (env.cache.get_role w.cached w.now name)) [
    | inl missed ↦ rw (missed, find_by_name) refl
    | inr (role, cached) ↦ rw (cached, find_by_name) refl
  ]

  get_permissions-role_of :
      (name : String) (w : World env)
      → (get_permissions_for_role env name w).0 ≡ ok (permissions_of env (role_of w name))
  unfolding get_permissions_for_role
  get_permissions-role_of name w =
      ap (λ x. (continue x (λ role. pure (permissions_of env role)) (find_by_name env name w).1).0)
        (find_by_name-role_of name w)

  abbrev merged : User → List String → M env User
  merged u rs = pure (record u { permissions = merge_effective_permissions rs u.permissions })

  with_effective_permissions-effective :
      (u : User) (w : World env) → (with_effective_permissions u w).0 ≡ ok (effective w u)
  with_effective_permissions-effective u w =
      ap (λ x. (continue x (merged u) (get_permissions_for_role env (role_name u.role) w).1).0)
        (get_permissions-role_of (role_name u.role) w)

  -- What is cached of roles is so too after the user is cached.
  role_grants-cache_user :
      (id : String) (v u : User) (w : World env)
      → role_grants (cache_user id v w).1 u ≡ role_grants w u
  role_grants-cache_user id v u w =
      ap
        (λ o.
          permissions_of env
            (get_or o (env.roles.find_one w.roles (λ r. r.name == role_name u.role))))
        (env.cache.get_role-set_user w.cached w.now w.now (user_key id) v (role_name u.role))

  validate_stored-effective :
      (id : String) (w : World env) (u : User)
      → env.users.doc w.users id ≡ some u
      → (validate_stored id w).0 ≡ ok (effective w u)
  unfolding Service.find_by_id Repository.find_by_id
  validate_stored-effective id w u found =
      ap (λ o. ((or_throw user_not_found o >>= keep_user id) w).0) found
      ∙ with_effective_permissions-effective u (cache_user id u w).1
      ∙ ap (λ rs. ok (record u { permissions = merge_effective_permissions rs u.permissions }))
          (role_grants-cache_user id u u w)

  validate_user-effective :
      (id : String) (w : World env) (u : User)
      → user_of w id ≡ some u
      → (validate_user id w).0 ≡ ok (effective w u)
  unfolding validate_user
  validate_user-effective id w u found =
      elim (Option-cases (env.cache.get_user w.cached w.now (user_key id))) [
        | inl missed ↦ rw missed (validate_stored-effective id w u (ground (arith, missed, found)))
        | inr (v, cached) ↦
            let same : v ≡ u = ground (arith, cached, found) in
            rw cached (with_effective_permissions-effective v w ∙ ap (λ x. ok (effective w x)) same)
      ]

  validate_user-missing :
      (id : String) (w : World env)
      → user_of w id ≡ none
      → (validate_user id w).0 ≡ err (domain user_not_found)
  unfolding validate_user Service.find_by_id Repository.find_by_id
  validate_user-missing id w nobody =
      elim (Option-cases (env.cache.get_user w.cached w.now (user_key id))) [
        | inl missed ↦
            let absent : env.users.doc w.users id ≡ none = ground (arith, missed, nobody) in
            rw missed (ap (λ o. ((or_throw user_not_found o >>= keep_user id) w).0) absent)
        | inr (v, cached) ↦ absurd (ground (arith, cached, nobody))
      ]

  -- The role of the user or the user grants a permission: by the wildcard, by itself, or by the
  -- wildcard of its resource.
  abbrev pub Granted : World env → User → String → Type 0
  Granted w u p = (holds_grant (role_grants w u) p ≡ true) ⊎ (holds_grant u.permissions p ≡ true)

  holds_grant-merge :
      (rs us : List String) (p : String)
      → holds_grant (merge_effective_permissions rs us) p ≡ (holds_grant rs p || holds_grant us p)
  holds_grant-merge rs us p =
      let has = (includes-merge rs us).1 in ground (arith, has "*", has p, has (resource p ++ ":*"))

  or_true : (a b : Bool) → (a || b) ≡ true → (a ≡ true) ⊎ (b ≡ true)
  or_true true b h = inl refl
  or_true false b h = inr h

  true_or : (a b : Bool) → (a ≡ true) ⊎ (b ≡ true) → (a || b) ≡ true
  true_or true b h = refl
  true_or false b (inl h) = cc h
  true_or false b (inr h) = h

  authorize-guard :
      (required : List String) (id : String) (w : World env) (u : User)
      → user_of w id ≡ some u
      → (authorize required id w).0
        ≡ can_activate
            (ok required)
            (some (merge_effective_permissions (role_grants w u) u.permissions))
  unfolding authorize
  authorize-guard required id w u found =
      ap (λ x. (continue x (guarded required) (validate_user id w).1).0)
        (validate_user-effective id w u found)

  authorize-missing :
      (required : List String) (id : String) (w : World env)
      → user_of w id ≡ none
      → (authorize required id w).0 ≡ err (domain user_not_found)
  unfolding authorize
  authorize-missing required id w nobody =
      ap (λ x. (continue x (guarded required) (validate_user id w).1).0)
        (validate_user-missing id w nobody)

  -- A request with an access token passes the guard exactly when a user with the id of the token is
  -- found, in the cache or else in the collection, and each required permission is granted by the
  -- role of the user, as the cache has it or else the collection, or by the user. Whether the user
  -- is active, locked or deleted does not matter.
  pub authorize_iff :
      (required : List String) (id : String) (w : World env)
      → ((authorize required id w).0 ≡ ok true) ↔ (
          (u : User) × (user_of w id ≡ some u)
          × ((p : String) → includes required p ≡ true → Granted w u p))
  authorize_iff required id w = (
    λ passed. elim (Option-cases (user_of w id)) [
      | inl nobody ↦ absurd (cc (authorize-missing required id w nobody, passed))
      | inr (u, found) ↦
          let guard = sym (authorize-guard required id w u found) ∙ passed in
          let granted = (can_activate_iff required (effective w u).permissions).0 guard in
          (
            u,
            found,
            λ p here.
                or_true _ _
                  (sym (holds_grant-merge (role_grants w u) u.permissions p) ∙ granted p here),
          )
    ],
    λ (u, found, granted).
        authorize-guard required id w u found
        ∙ (can_activate_iff required (effective w u).permissions).1 (λ p here.
            holds_grant-merge (role_grants w u) u.permissions p ∙ true_or _ _ (granted p here)),
  )
