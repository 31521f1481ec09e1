-- ===== src/Users/Service.antt =====
-- user/service/user.service.ts: users as the controllers and the auth service see them.
pub mod EmailCode
pub mod Effects
pub mod Password
pub mod Accounts
pub mod Changes
pub mod Epochs
pub mod Requests
use api_user.Prelude.{
  ℕ, String, Bool, true, false, not, ◌||◌, Option, none, some, List, is_some, ◌==◌, if◌then◌else◌,
}
use Prim.Native.String.{◌++◌}
use api_user.Errors.{
  user_not_found, user_already_deleted, entity_name_already_exists, entity_email_already_exists,
  current_password_incorrect,
}
use api_user.Exec.{pure, gets, throw_if, when, or_throw, discard, ◌>>=◌, ◌>>◌}
use api_user.Users.{UserRole, User, value, Patch, no_patch, Field}
use api_user.Users.Repository
use api_user.Users.Repository.{NewUser}
use api_user.Env.{Env}
use api_user.World.{M, emit, invalidate_user, run_in_transaction}

-- `UpdateUserDTO`: every field is optional.
pub record UpdateUser : Type 0 where
  pub name : Option String
  pub last_name : Option String
  pub email : Option String
  pub user_name : Option String
  pub role : Option UserRole
  pub permissions : Option (List String)

-- `Object.entries(dto)` without the undefined ones.
abbrev pub update_data : UpdateUser → Patch
update_data dto = record no_patch {
  name = dto.name;
  last_name = dto.last_name;
  email = dto.email;
  user_name = dto.user_name;
  role = dto.role;
  permissions = dto.permissions;
}

abbrev pub password_patch : String → Patch
password_patch hashed = record no_patch { password = some hashed }

abbrev pub unlock_patch : Patch
unlock_patch = record no_patch { failed_login_attempts = some 0; locked_until = value none }

abbrev pub active_patch : Bool → Patch
active_patch active = record no_patch { is_active = some active }

module _ (env : Env) where
  unfoldable pub invalidate_user_cache : String → M env (Unit {0})
  invalidate_user_cache id = emit env (invalidate_user ("cache:user:" ++ id))

  unfoldable pub invalidate_all_user_caches : M env (Unit {0})
  invalidate_all_user_caches = emit env (invalidate_user "cache:user:*")

  unfoldable pub create_with_role : NewUser → M env User
  unfolding Repository.exists_by_name Repository.exists_by_email Repository.create_with_role
      invalidate_user_cache
  create_with_role d = do
    name_exists ← Repository.exists_by_name env d.user_name
    email_exists ← Repository.exists_by_email env d.email
    throw_if name_exists entity_name_already_exists
    throw_if email_exists entity_email_already_exists
    created ← Repository.create_with_role env d
    invalidate_user_cache created.id
    pure created

  unfoldable pub find_by_id : String → M env User
  unfolding Repository.find_by_id
  find_by_id id = do found ← Repository.find_by_id env id false; or_throw user_not_found found

  unfoldable pub update : String → Patch → Bool → M env (Option User)
  unfolding Repository.update invalidate_user_cache
  update id p session = do
    updated ← Repository.update env id p session
    invalidate_user_cache id
    pure updated

  unfoldable pub unset_fields : String → List Field → Bool → M env (Option User)
  unfolding Repository.unset_fields invalidate_user_cache
  unset_fields id fields session = do
    updated ← Repository.unset_fields env id fields session
    invalidate_user_cache id
    pure updated

  unfoldable pub bump_session_epoch : String → Bool → M env ℕ
  unfolding Repository.bump_session_epoch invalidate_user_cache
  bump_session_epoch id session = do
    bumped ← Repository.bump_session_epoch env id session
    user ← or_throw user_not_found bumped
    invalidate_user_cache id
    pure user.session_epoch

  -- The callback of `changePassword`'s transaction.
  unfoldable pub write_password : String → String → Bool → M env (Unit {0})
  unfolding Repository.update bump_session_epoch
  write_password id hashed session = do
    discard (Repository.update env id (password_patch hashed) session)
    discard (bump_session_epoch id session)

  -- `changePassword` once the user is found.
  unfoldable pub change_found : String → String → String → User → M env (Unit {0})
  unfolding write_password run_in_transaction
  change_found id current new user = do
    throw_if (not (env.crypto.compare current user.password)) current_password_incorrect
    run_in_transaction env (write_password id (env.crypto.hash new))

  unfoldable pub change_password : String → String → String → M env (Unit {0})
  unfolding find_by_id change_found
  change_password id current new = do user ← find_by_id id; change_found id current new user

  unfoldable pub exists_by_email_or_username : String → String → M env Bool
  unfolding Repository.exists_by_email Repository.exists_by_name
  exists_by_email_or_username email user_name = do
    email_exists ← Repository.exists_by_email env email
    name_exists ← Repository.exists_by_name env user_name
    pure (email_exists || name_exists)

  unfoldable pub unlock_user : String → M env (Option User)
  unfolding find_by_id update invalidate_user_cache
  unlock_user id = do
    discard (find_by_id id)
    updated ← update id unlock_patch false
    invalidate_user_cache id
    pure updated

  -- `if (dto.email)`: a missing or empty text is skipped.
  unfoldable pub conflict : (String → String → M env Bool) → Option String → String → M env Bool
  conflict test none id = pure false
  conflict test (some t) id = if t == "" then pure false else test t id

  -- The callback of `updateUser`'s transaction, which does not use the session.
  unfoldable pub write_user : String → UpdateUser → M env (Option User)
  unfolding Repository.find_by_id Repository.exists_by_email_excluding_self
      Repository.exists_by_name_excluding_self Repository.update conflict
  write_user id dto = do
    found ← Repository.find_by_id env id false
    discard (or_throw user_not_found found)
    email_conflict ← conflict (Repository.exists_by_email_excluding_self env) dto.email id
    throw_if email_conflict entity_email_already_exists
    name_conflict ← conflict (Repository.exists_by_name_excluding_self env) dto.user_name id
    throw_if name_conflict entity_name_already_exists
    Repository.update env id (update_data dto) false

  unfoldable pub update_user : String → UpdateUser → M env (Option User)
  unfolding write_user run_in_transaction invalidate_user_cache
  update_user id dto = do
    result ← run_in_transaction env (λ session. write_user id dto)
    invalidate_user_cache id
    pure result

  -- `deleteUser` once the user is found.
  unfoldable pub delete_found : String → User → M env String
  unfolding Repository.soft_delete invalidate_user_cache
  delete_found id user = do
    when (not (is_some user.deleted_at)) (discard (Repository.soft_delete env id))
    invalidate_user_cache id
    pure id

  unfoldable pub delete_user : String → M env String
  unfolding Repository.find_by_id delete_found
  delete_user id = do
    found ← Repository.find_by_id env id false
    user ← or_throw user_not_found found
    delete_found id user

  -- `toggleActiveUser` once the user is found.
  unfoldable pub toggle_found : String → User → M env (Option User)
  unfolding Repository.update invalidate_user_cache
  toggle_found id user = do
    throw_if (is_some user.deleted_at) user_already_deleted
    updated ← Repository.update env id (active_patch (not user.is_active)) false
    invalidate_user_cache id
    pure updated

  unfoldable pub toggle_active_user : String → M env (Option User)
  unfolding Repository.find_by_id toggle_found
  toggle_active_user id = do
    found ← Repository.find_by_id env id false
    user ← or_throw user_not_found found
    toggle_found id user
