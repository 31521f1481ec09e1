-- ===== src/Users/Repository.antt =====
-- user/repository/user.repository.ts: the queries and the writes of the users collection. The
-- argument `session` says whether a call is given the transaction's session.
use api_user.Prelude.{
  ℕ, ◌+◌, String, Bool, true, false, not, ◌&&◌, Option, none, some, List, map, ltb, is_some, ◌==◌,
  if◌then◌else◌,
}
use api_user.Errors.{user_not_found}
use api_user.Exec.{driver, ok, err, pure, raise, gets, ◌>>=◌}
use api_user.Users.{UserRole, role_name, User, Patch, patched, Field, unset_all}
use api_user.Env.{Env}
use api_user.World.{M, target, written, new_object_id}

-- Whether an optional field holds a text, and whether it holds a date after another.
abbrev pub holds : String → Option String → Bool
holds t none = false
holds t (some v) = v == t

abbrev pub after : ℕ → Option ℕ → Bool
after t none = false
after t (some d) = ltb t d

-- The queries for a user by an unexpired token.
abbrev pub by_reset_token : String → ℕ → User → Bool
by_reset_token token now u =
    holds token u.reset_password_token && after now u.reset_password_expires

abbrev pub by_verification_token : String → ℕ → User → Bool
by_verification_token token now u =
    holds token u.email_verification_token && after now u.email_verification_expires

abbrev pub by_pending_email_token : String → ℕ → User → Bool
by_pending_email_token token now u =
    holds token u.pending_email_token && after now u.pending_email_expires

-- The argument of `createWithRole`.
pub record NewUser : Type 0 where
  pub email : String
  pub user_name : String
  pub password : String
  pub name : String
  pub last_name : String
  pub role : UserRole
  pub permissions : List String
  pub is_active : Bool

-- A new document with the defaults of the schema.
unfoldable pub new_document : String → ℕ → NewUser → User
new_document id now d = record {
  id = id;
  name = d.name;
  last_name = d.last_name;
  email = d.email;
  user_name = d.user_name;
  password = d.password;
  role = d.role;
  permissions = d.permissions;
  is_active = d.is_active;
  session_epoch = 0;
  reset_password_token = none;
  reset_password_expires = none;
  email_verification_token = none;
  email_verification_expires = none;
  pending_email = none;
  pending_email_token = none;
  pending_email_expires = none;
  email_change_code_hash = none;
  email_change_code_expires = none;
  email_change_code_attempts = 0;
  email_change_code_sent_at = none;
  previous_email = none;
  email_revert_token = none;
  email_revert_expires = none;
  failed_login_attempts = 0;
  locked_until = none;
  deleted_at = none;
  created_at = now;
}

-- `$inc: { sessionEpoch: 1 }`
abbrev pub inc_session_epoch : User → User
inc_session_epoch u = record u { session_epoch = u.session_epoch + 1 }

abbrev pub soft_deleted : ℕ → User → User
soft_deleted now u = record u { is_active = false; deleted_at = some now }

module _ (env : Env) where
  -- `findOne` outside of a transaction.
  unfoldable pub find_one : (User → Bool) → M env (Option User)
  find_one p = gets (λ w. env.users.find_one w.users p)

  unfoldable pub exists_by_name : String → M env Bool
  unfolding find_one
  exists_by_name name = do found ← find_one (λ u. u.user_name == name); pure (is_some found)

  unfoldable pub exists_by_email : String → M env Bool
  unfolding find_one
  exists_by_email email = do found ← find_one (λ u. u.email == email); pure (is_some found)

  unfoldable pub exists_by_email_excluding_self : String → String → M env Bool
  unfolding find_one
  exists_by_email_excluding_self email exclude = do
    found ← find_one (λ u. u.email == email && not (u.id == exclude))
    pure (is_some found)

  unfoldable pub exists_by_name_excluding_self : String → String → M env Bool
  unfolding find_one
  exists_by_name_excluding_self name exclude = do
    found ← find_one (λ u. u.user_name == name && not (u.id == exclude))
    pure (is_some found)

  -- `findById`, within the transaction where a session is given.
  unfoldable pub find_by_id : String → Bool → M env (Option User)
  find_by_id id session w = (ok (env.users.doc (target env session w) id), w)

  unfoldable pub find_by_email : String → M env (Option User)
  unfolding find_one
  find_by_email email = find_one (λ u. u.email == email)

  unfoldable pub find_by_reset_token : String → M env (Option User)
  find_by_reset_token token w = (ok (env.users.find_one w.users (by_reset_token token w.now)), w)

  unfoldable pub find_by_email_verification_token : String → M env (Option User)
  find_by_email_verification_token token w =
      (ok (env.users.find_one w.users (by_verification_token token w.now)), w)

  unfoldable pub find_by_pending_email_token : String → M env (Option User)
  find_by_pending_email_token token w =
      (ok (env.users.find_one w.users (by_pending_email_token token w.now)), w)

  unfoldable pub find_by_email_revert_token : String → M env (Option User)
  unfolding find_one
  find_by_email_revert_token token = find_one (λ u. holds token u.email_revert_token)

  unfoldable pub find_ids_by_role : String → M env (List String)
  find_ids_by_role role w =
      (ok (map (λ u. u.id) (env.users.find w.users (λ u. role_name u.role == role))), w)

  -- `findByIdAndUpdate` with `new: true`: the document after the update, if there is one.
  unfoldable pub find_by_id_and_update : String → (User → User) → Bool → M env (Option User)
  find_by_id_and_update id f session w = elim (env.users.update_one (target env session w) id f) [
    | none ↦ (err driver, w)
    | some s ↦ (ok (env.users.doc s id), written env session s w)
  ]

  -- `user.set(data)` and `user.save({ session })` on the document that was read.
  abbrev pub save_over : String → Patch → Bool → Option User → M env (Option User)
  save_over id p session none = raise user_not_found
  save_over id p session (some u) = find_by_id_and_update id (patched true p) session

  -- `update`: a password goes through `save`, anything else through `findByIdAndUpdate`.
  unfoldable pub update : String → Patch → Bool → M env (Option User)
  unfolding find_by_id find_by_id_and_update
  update id p session =
      if is_some p.password
      then (do found ← find_by_id id session; save_over id p session found)
      else find_by_id_and_update id (patched false p) session

  unfoldable pub bump_session_epoch : String → Bool → M env (Option User)
  unfolding find_by_id_and_update
  bump_session_epoch id session = find_by_id_and_update id inc_session_epoch session

  unfoldable pub unset_fields : String → List Field → Bool → M env (Option User)
  unfolding find_by_id_and_update
  unset_fields id fields session = find_by_id_and_update id (unset_all fields) session

  unfoldable pub soft_delete : String → M env (Option User)
  unfolding find_by_id_and_update
  soft_delete id w = find_by_id_and_update id (soft_deleted w.now) false w

  -- `save` of a new document; a duplicate key makes the driver throw.
  abbrev pub insert : User → M env User
  insert u w = elim (env.users.insert_one w.users u) [
    | none ↦ (err driver, w)
    | some s ↦ (ok u, record w { users = s })
  ]

  -- `createWithRole`, which `create` equals up to the defaults of the role.
  unfoldable pub create_with_role : NewUser → M env User
  unfolding new_document
  create_with_role d = do
    id ← new_object_id env
    now ← gets (λ w. w.now)
    insert (new_document id now (record d { password = env.crypto.hash d.password }))
