-- ===== src/Users/Service/Accounts.antt =====
-- The account states of user/service/user.service.ts: deletion, activation, lock.
use api_user.Prelude.{
  ℕ, String, ◌≡◌, refl, true, false, not, Option, none, some, is_some, arith, Option-cases, ◌⊎◌,
  inl, inr,
}
use mathlib.Core.Path.{subst}
use api_user.Errors.{user_not_found}
use api_user.Exec.{ok, pure, discard, ◌>>◌}
use api_user.Exec.Inversion.{or_throw-bind-ok}
use api_user.Users.{User, patched}
use api_user.Users.Repository
use api_user.Users.Repository.{soft_deleted}
use api_user.Users.Service
use api_user.Users.Service.{
  active_patch, unlock_patch, delete_found, delete_user, toggle_found, toggle_active_user,
}
use api_user.Env.{Env}
use api_user.World.{World, M}
use api_user.World.Updates.{Replaces, Updates-Replaces}
use api_user.World.Runs.{Runs, Runs-last, runs_rules, Replaces-by_id}
use api_user.Users.Service.Effects.{
  Runs-find_by_id_and_update, Runs-repository_update, Runs-discard,
}

module _ (env : Env) where
  -- `isActive` negated.
  abbrev pub toggled_user : User → User
  toggled_user u = record u { is_active = not u.is_active }

  toggle_found-Runs :
      (id : String) (u : User)
      → Runs env false id (patched false (active_patch (not u.is_active))) (toggle_found env id u)
  unfolding toggle_found
  toggle_found-Runs id u =
      search (
        runs_rules,
        Runs-last,
        Runs-repository_update env id (active_patch (not u.is_active)) false,
      )

  toggle_found-deleted :
      (id : String) (u : User) (w : World env) (r : Option User)
      → (toggle_found env id u w).0 ≡ ok r
      → u.deleted_at ≡ none
  toggle_found-deleted id u w r h = unfold toggle_found in ground arith

  -- A toggle that succeeds found a user that is not deleted, and has flipped the activity of that
  -- user alone.
  pub toggle_active_user-Replaces :
      (id : String) (w : World env) (r : Option User)
      → (toggle_active_user env id w).0 ≡ ok r
      → (u : User) × (env.users.doc w.users id ≡ some u)
        × (u.deleted_at ≡ none)
        × Replaces env w.users (toggle_active_user env id w).1.users u (toggled_user u)
  unfolding toggle_active_user patched
  toggle_active_user-Replaces id w r h =
      let (u, found, passed, replaced) =
        Replaces-by_id env id user_not_found (λ u. patched false (active_patch (not u.is_active)))
          (toggle_found env id) w r (toggle_found-Runs id) h in
      (u, found, toggle_found-deleted id u w r passed, replaced)

  -- What a deletion that returned did: nothing to the users, for one deleted before, or it marked
  -- the user as deleted now and not active.
  abbrev pub Deleted : World env → World env → User → Type 0
  Deleted w w' u =
      ((is_some u.deleted_at ≡ true) × (w'.users ≡ w.users))
      ⊎ ((u.deleted_at ≡ none) × Replaces env w.users w'.users u (soft_deleted w.now u))

  -- The rest of a deletion for a user that is not deleted yet, at a time.
  abbrev mark_deleted : String → ℕ → M env String
  mark_deleted id now = do
    discard (Repository.find_by_id_and_update env id (soft_deleted now) false)
    Service.invalidate_user_cache env id
    pure id

  mark_deleted-Runs :
      (id : String) (now : ℕ) → Runs env false id (soft_deleted now) (mark_deleted id now)
  unfolding Service.invalidate_user_cache
  mark_deleted-Runs id now = search (
    runs_rules,
    Runs-last,
    Runs-discard env id (soft_deleted now) false _
        (Runs-find_by_id_and_update env id (soft_deleted now) false (λ u. refl)),
  )

  delete_found-alive :
      (id : String) (u : User) (w : World env)
      → u.deleted_at ≡ none
      → delete_found env id u w ≡ mark_deleted id w.now w
  unfolding delete_found
  delete_found-alive id u w alive = rw alive

  delete_found-Deleted :
      (u : User) (w : World env) (r : String)
      → env.users.doc w.users u.id ≡ some u
      → (delete_found env u.id u w).0 ≡ ok r
      → Deleted w (delete_found env u.id u w).1 u
  delete_found-Deleted u w r found h = elim (Option-cases u.deleted_at) [
    | inl alive ↦
        let same = delete_found-alive u.id u w alive in
        inr (
          alive,
          rw same (
              Updates-Replaces env w.users (mark_deleted u.id w.now w).1.users (soft_deleted w.now)
                u found ((mark_deleted-Runs u.id w.now).at w r (rw same at h))),
        )
    | inr (t, deleted) ↦ inl (rw deleted, unfold delete_found in ground arith)
  ]

  delete_found-Deleted_at :
      (id : String) (u : User) (w : World env) (r : String)
      → u.id ≡ id
      → env.users.doc w.users id ≡ some u
      → (delete_found env id u w).0 ≡ ok r
      → Deleted w (delete_found env id u w).1 u
  delete_found-Deleted_at id u w r own =
      subst
        (λ k.
          env.users.doc w.users k ≡ some u
          → (delete_found env k u w).0 ≡ ok r
          → Deleted w (delete_found env k u w).1 u)
        own (delete_found-Deleted u w r)

  -- A deletion that succeeds found the user. It leaves all users as they were if the user was
  -- deleted before; else it has marked that user alone as deleted now and not active.
  pub delete_user-Deleted :
      (id : String) (w : World env) (r : String)
      → (delete_user env id w).0 ≡ ok r
      → (u : User) × (env.users.doc w.users id ≡ some u) × Deleted w (delete_user env id w).1 u
  unfolding delete_user
  delete_user-Deleted id w r h =
      let (u, found, same, h') =
        or_throw-bind-ok user_not_found (env.users.doc w.users id) (delete_found env id) w h in
      (
        u,
        found,
        rw same (delete_found-Deleted_at id u w r (env.users.doc-id w.users id u found) found h'),
      )
