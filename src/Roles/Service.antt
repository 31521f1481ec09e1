-- ===== src/Roles/Service.antt =====
-- rbac/services/role.service.ts, with the lookup of permissions of permission.service.ts.
use api_user.Prelude.{
  ℕ, String, Bool, true, false, not, ◌&&◌, Option, none, some, List, [], ◌∷◌, ◌++◌, map, keep,
  includes, is_some, ◌==◌, if◌then◌else◌,
}
use api_user.Errors.{
  entity_not_found, entity_name_already_exists, validation_error, forbidden, role_in_use,
}
use api_user.Exec.{driver, ok, err, pure, gets, throw_if, or_throw, when, ◌>>=◌, ◌>>◌}
use api_user.Users.Repository
use api_user.Users.Service
use api_user.Roles.{Role, Permission, unique}
use api_user.Env.{Env}
use api_user.World.{World, M, emit, invalidate_rbac, new_object_id}

pub record CreateRole : Type 0 where
  pub name : String
  pub description : Option String
  pub permission_ids : List String
  pub is_system : Bool
  pub is_default : Bool

pub record UpdateRole : Type 0 where
  pub name : Option String
  pub description : Option String

-- `dto.name !== undefined && dto.name !== role.name`
abbrev pub is_rename : Option String → String → Bool
is_rename none old = false
is_rename (some name) old = not (name == old)

-- The changes that `update` carries.
abbrev pub put_name : Option String → String → String
put_name none old = old
put_name (some name) old = name

abbrev pub put_description : Option String → Option String → Option String
put_description none old = old
put_description (some d) old = some d

abbrev pub changed : UpdateRole → Role → Role
changed dto r = record r {
  name = put_name dto.name r.name;
  description = put_description dto.description r.description;
}

abbrev pub with_permissions : List String → Role → Role
with_permissions ids r = record r { permission_ids = ids }

-- The last permission of a list with a name, as a `Map` built from it has.
abbrev pub last_named : String → Option Permission → List Permission → Option Permission
last_named name found [] = found
last_named name found (p ∷ ps) =
    let here = last_named name (some p) ps in
    let there = last_named name found ps in if p.name == name then here else there

-- The names of the permissions that are there.
abbrev pub names : List (Option Permission) → List String
names [] = []
names (none ∷ ps) = names ps
names (some p ∷ ps) = p.name ∷ names ps

abbrev is_candidate : String → Bool
is_candidate name = not (name == "*")

abbrev pub is_owner_other : Option Role → String → Bool
is_owner_other none id = false
is_owner_other (some owner) id = not (owner.id == id)

abbrev pub is_empty : {A : Type 0} → List A → Bool
is_empty [] = true
is_empty (x ∷ xs) = false

module _ (env : Env) where
  unfoldable pub find_by_name : String → M env (Option Role)
  find_by_name name w = elim (env.cache.get_role w.cached w.now name) [
    | some found ↦ (ok found, w)
    | none ↦
        let role = env.roles.find_one w.roles (λ r. r.name == name) in
        (ok role, record w { cached = env.cache.set_role w.cached w.now name role })
  ]

  unfoldable pub find_by_id : String → M env (Option Role)
  find_by_id id = gets (λ w. env.roles.doc w.roles id)

  -- The cached permissions among some names, and the names that are not cached.
  abbrev pub cached_permissions : World env → List String → List (Option Permission)
  cached_permissions w [] = []
  cached_permissions w (n ∷ ns) =
      let rest = cached_permissions w ns in
      elim (env.cache.get_permission w.cached w.now n) [ none ↦ rest | some p ↦ p ∷ rest ]

  abbrev pub missing_names : World env → List String → List String
  missing_names w [] = []
  missing_names w (n ∷ ns) =
      let rest = missing_names w ns in
      elim (env.cache.get_permission w.cached w.now n) [ none ↦ n ∷ rest | some p ↦ rest ]

  -- Each missing permission is cached, found or not.
  abbrev pub cache_permissions :
      ℕ → List Permission → List String → env.cache.Cached → env.cache.Cached
  cache_permissions now found [] c = c
  cache_permissions now found (n ∷ ns) c =
      cache_permissions now found ns (env.cache.set_permission c now n (last_named n none found))

  -- `PermissionService.findByNames`
  unfoldable pub find_permissions : List String → M env (List (Option Permission))
  find_permissions ns w =
      let missing = missing_names w ns in
      let found = env.find_permissions missing in
      (
        ok (cached_permissions w ns ++ map (λ n. last_named n none found) missing),
        record w { cached = cache_permissions w.now found missing w.cached },
      )

  -- The names that are neither known nor the wildcard.
  abbrev pub rejected : List (Option Permission) → List String → List String
  rejected catalog ns = keep (λ n. is_candidate n && not (includes (names catalog) n)) ns

  unfoldable pub assert_permissions_exist : List String → M env (List String)
  unfolding find_permissions
  assert_permissions_exist ids = do
    let deduplicated = unique ids
    catalog ← find_permissions (keep is_candidate deduplicated)
    throw_if (not (is_empty (rejected catalog deduplicated))) validation_error
    pure deduplicated

  unfoldable pub invalidate_rbac_caches : M env (Unit {0})
  invalidate_rbac_caches = emit env (invalidate_rbac "cache:rbac:*")

  -- `findByIdAndUpdate` with `new: true`
  unfoldable pub find_by_id_and_update : String → (Role → Role) → M env (Option Role)
  find_by_id_and_update id f w = elim (env.roles.update_one w.roles id f) [
    | none ↦ (err driver, w)
    | some s ↦ (ok (env.roles.doc s id), record w { roles = s })
  ]

  -- `save` of a new role
  abbrev pub insert : Role → M env Role
  insert r w = elim (env.roles.insert_one w.roles r) [
    | none ↦ (err driver, w)
    | some s ↦ (ok r, record w { roles = s })
  ]

  unfoldable pub create : CreateRole → M env Role
  unfolding find_by_name assert_permissions_exist invalidate_rbac_caches
      Service.invalidate_all_user_caches
  create d = do
    existing ← find_by_name d.name
    throw_if (is_some existing) entity_name_already_exists
    ids ← assert_permissions_exist d.permission_ids
    id ← new_object_id env
    saved ← insert (record {
      id = id;
      name = d.name;
      description = d.description;
      permission_ids = ids;
      is_system = d.is_system;
      is_default = d.is_default;
    })
    invalidate_rbac_caches
    Service.invalidate_all_user_caches env
    pure saved

  -- The owner of the new name, where there is one.
  abbrev pub name_owner : Bool → Option String → M env (Option Role)
  name_owner true (some name) = find_by_name name
  name_owner true none = pure none
  name_owner false name = pure none

  -- `update` once the role is found.
  unfoldable pub update_found : String → UpdateRole → Role → M env Role
  unfolding find_by_name find_by_id_and_update invalidate_rbac_caches
  update_found id dto role = do
    throw_if (role.is_system && is_rename dto.name role.name) forbidden
    owner ← name_owner (is_rename dto.name role.name) dto.name
    throw_if (is_owner_other owner role.id) entity_name_already_exists
    result ← find_by_id_and_update id (changed dto)
    updated ← or_throw entity_not_found result
    invalidate_rbac_caches
    pure updated

  unfoldable pub update : String → UpdateRole → M env Role
  unfolding find_by_id update_found
  update id dto = do
    found ← find_by_id id
    role ← or_throw entity_not_found found
    update_found id dto role

  -- `findByIdAndDelete`, which answers with the role that was there.
  unfoldable pub find_by_id_and_delete : String → M env (Option Role)
  find_by_id_and_delete id w = elim (env.roles.delete_one w.roles id) [
    | none ↦ (err driver, w)
    | some s ↦ (ok (env.roles.doc w.roles id), record w { roles = s })
  ]

  -- `remove` once the role is found.
  unfoldable pub remove_found : String → Role → M env Role
  unfolding Repository.find_ids_by_role find_by_id_and_delete invalidate_rbac_caches
  remove_found id role = do
    throw_if role.is_system forbidden
    assigned ← Repository.find_ids_by_role env role.name
    throw_if (not (is_empty assigned)) role_in_use
    result ← find_by_id_and_delete id
    deleted ← or_throw entity_not_found result
    invalidate_rbac_caches
    pure deleted

  unfoldable pub remove : String → M env Role
  unfolding find_by_id remove_found
  remove id = do found ← find_by_id id; role ← or_throw entity_not_found found; remove_found id role

  unfoldable pub update_permissions : String → List String → M env (Option Role)
  unfolding assert_permissions_exist find_by_id_and_update invalidate_rbac_caches
      Service.invalidate_all_user_caches
  update_permissions id ids = do
    validated ← assert_permissions_exist ids
    updated ← find_by_id_and_update id (with_permissions validated)
    when (is_some updated) (do invalidate_rbac_caches; Service.invalidate_all_user_caches env)
    pure updated

  -- `role.permissionIds` of a role that is there.
  abbrev pub permissions_of : Option Role → List String
  permissions_of none = []
  permissions_of (some role) = role.permission_ids

  unfoldable pub get_permissions_for_role : String → M env (List String)
  unfolding find_by_name
  get_permissions_for_role name = do role ← find_by_name name; pure (permissions_of role)
