-- ===== src/Roles/Lookup.antt =====
-- The other cached lookups: `findByNames` of rbac/services/role.service.ts and `findByName` of
-- permission.service.ts.
use api_user.Prelude.{
  ℕ, ◌+◌, String, ◌≡◌, refl, Option, none, some, List, [], ◌∷◌, ◌++◌, map, length, includes, ◌==◌,
  if◌then◌else◌, arith, Option-cases, inl, inr,
}
use api_user.Exec.{ok}
use api_user.Roles.{Role, Permission}
use api_user.Roles.Service.{last_named}
use api_user.Env.{Env}
use api_user.World.{World, M}

-- The last role of a list with a name, as a `Map` built from it has.
abbrev pub last_role : String → Option Role → List Role → Option Role
last_role name found [] = found
last_role name found (r ∷ rs) =
    let here = last_role name (some r) rs in
    let there = last_role name found rs in if r.name == name then here else there

module _ (env : Env) where
  -- The cached roles among some names, and the names that are not cached.
  abbrev pub cached_roles : World env → List String → List (Option Role)
  cached_roles w [] = []
  cached_roles w (n ∷ ns) =
      let rest = cached_roles w ns in
      elim (env.cache.get_role w.cached w.now n) [ none ↦ rest | some r ↦ r ∷ rest ]

  abbrev pub missing_roles : World env → List String → List String
  missing_roles w [] = []
  missing_roles w (n ∷ ns) =
      let rest = missing_roles w ns in
      elim (env.cache.get_role w.cached w.now n) [ none ↦ n ∷ rest | some r ↦ rest ]

  -- Each missing role is cached, found or not.
  abbrev pub cache_roles : ℕ → List Role → List String → env.cache.Cached → env.cache.Cached
  cache_roles now found [] c = c
  cache_roles now found (n ∷ ns) c =
      cache_roles now found ns (env.cache.set_role c now n (last_role n none found))

  unfoldable pub find_by_names : List String → M env (List (Option Role))
  find_by_names ns w =
      let missing = missing_roles w ns in
      let found = env.roles.find w.roles (λ r. includes missing r.name) in
      (
        ok (cached_roles w ns ++ map (λ n. last_role n none found) missing),
        record w { cached = cache_roles w.now found missing w.cached },
      )

  -- `PermissionService.findByName`
  unfoldable pub find_permission : String → M env (Option Permission)
  find_permission name w = elim (env.cache.get_permission w.cached w.now name) [
    | some found ↦ (ok found, w)
    | none ↦
        let permission = last_named name none (env.find_permissions (name ∷ [])) in
        (
          ok permission,
          record w { cached = env.cache.set_permission w.cached w.now name permission },
        )
  ]

  length-answers :
      (w : World env) (ns : List String)
      → length (cached_roles w ns) + length (missing_roles w ns) ≡ length ns
  length-answers w [] = omega arith
  length-answers w (n ∷ ns) = elim (Option-cases (env.cache.get_role w.cached w.now n)) [
    | inl miss ↦ rw (miss, length) (omega (arith, length-answers w ns))
    | inr (r, hit) ↦ rw (hit, length) (omega (arith, length-answers w ns))
  ]

  length-++ : {A : Type 0} (xs ys : List A) → length (xs ++ ys) ≡ length xs + length ys
  length-++ [] ys = omega arith
  length-++ (x ∷ xs) ys = omega (arith, length-++ xs ys)

  length-map : {A B : Type 0} (f : A → B) (xs : List A) → length (map f xs) ≡ length xs
  length-map f [] = refl
  length-map f (x ∷ xs) = omega (arith, length-map f xs)

  -- `findByNames` answers once for each name, whatever is cached; it changes nothing but the cache.
  pub length-find_by_names :
      (ns : List String) (w : World env)
      → (rs : List (Option Role)) × (c : env.cache.Cached) × (find_by_names ns w
          ≡ (ok rs, record w { cached = c }))
        × (length rs ≡ length ns)
  unfolding find_by_names
  length-find_by_names ns w =
      let missing = missing_roles w ns in
      let found = env.roles.find w.roles (λ r. includes missing r.name) in
      let answer : String → Option Role = λ n. last_role n none found in
      (
        cached_roles w ns ++ map answer missing,
        cache_roles w.now found missing w.cached,
        refl,
        omega (
          arith,
          length-++ (cached_roles w ns) (map answer missing),
          length-map answer missing,
          length-answers w ns,
        ),
      )
