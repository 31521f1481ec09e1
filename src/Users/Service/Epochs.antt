-- ===== src/Users/Service/Epochs.antt =====
-- No operation of user/repository/user.repository.ts or user/service/user.service.ts lowers a
-- session epoch or drops a user.
use api_user.Prelude.{
  String, ◌≡◌, refl, sym, Bool, true, false, Option, none, some, List, is_some, arith, get_or,
  Bool-cases, Option-cases, inl, inr, ◌==◌, eq_iff,
}
use mathlib.Core.Path.{subst}
use api_user.Exec.{discard}
use api_user.Users.{User, Patch, patched, id-patched, Field, unset_all, id-unset_all}
use api_user.Users.Repository
use api_user.Users.Repository.{NewUser, inc_session_epoch, soft_deleted, insert}
use api_user.Users.Service
use api_user.Users.Service.{UpdateUser}
use api_user.Env.{Env}
use api_user.World.{World, M, target, written, new_object_id}
use api_user.World.Updates.{Updates-update_one}
use api_user.World.Epochs.{
  Carried, Mode, Free, Later, Later-refl, Later-free, Carried-refl, Carried-Updates, Grows,
  Grows-pure, Grows-raise, Grows-bind, epoch_rules,
}
use api_user.Users.Service.Changes.{
  epoch-patched, Spares, SparesAll, Later-patched, epoch-unset_all, Later-unset_all, Later-bumped,
  Later-deleted,
}

module _ (env : Env) (mode : Mode) where
  written-Grow :
      (s session : Bool) (w : World env) (t : env.users.State)
      → Carried env mode (target env s w) t
      → Carried env mode w.users (written env s t w).users
        × Carried env mode (target env session w) (target env session (written env s t w))
  written-Grow true true w t h = (Carried-refl env mode w.users, h)
  written-Grow true false w t h = (Carried-refl env mode w.users, Carried-refl env mode w.users)
  written-Grow false true w t h = (h, session_or w.session)
    where
      session_or : (o : Option env.users.State) → Carried env mode (get_or o w.users) (get_or o t)
      session_or none = h
      session_or (some s) = Carried-refl env mode s
  written-Grow false false w t h = (h, h)

  find_by_id_and_update-Grow :
      (k : String) (f : User → User) (s session : Bool) (w : World env)
      → ((u : User) → (f u).id ≡ u.id)
      → ((u : User) → u.id ≡ k → Later mode u (f u))
      → Carried env mode w.users (Repository.find_by_id_and_update env k f s w).1.users
        × Carried env mode
            (target env session w)
            (target env session (Repository.find_by_id_and_update env k f s w).1)
  unfolding Repository.find_by_id_and_update
  find_by_id_and_update-Grow k f s session w keeps grows =
      elim (Option-cases (env.users.update_one (target env s w) k f)) [
        | inl failed ↦
            rw (failed, Repository.find_by_id_and_update)
              (Carried-refl env mode w.users, Carried-refl env mode (target env session w))
        | inr (t, done) ↦
            rw (done, Repository.find_by_id_and_update)
              (written-Grow s session w t (
                Carried-Updates env mode _ t k f grows (Updates-update_one env _ t k f keeps done)))
      ]

  redis-find_by_id_and_update :
      (k : String) (f : User → User) (s : Bool) (w : World env)
      → (Repository.find_by_id_and_update env k f s w).1.redis ≡ w.redis
  unfolding Repository.find_by_id_and_update
  redis-find_by_id_and_update k f true w =
      elim (Option-cases (env.users.update_one (target env true w) k f)) [
        | inl failed ↦ rw (failed, Repository.find_by_id_and_update) refl
        | inr (t, done) ↦ rw (done, Repository.find_by_id_and_update) refl
      ]
  redis-find_by_id_and_update k f false w =
      elim (Option-cases (env.users.update_one (target env false w) k f)) [
        | inl failed ↦ rw (failed, Repository.find_by_id_and_update) refl
        | inr (t, done) ↦ rw (done, Repository.find_by_id_and_update) refl
      ]

  Grows-find_by_id_and_update :
      (k : String) (f : User → User) (s session : Bool)
      → ((u : User) → (f u).id ≡ u.id)
      → ((u : User) → u.id ≡ k → Later mode u (f u))
      → Grows env mode session (Repository.find_by_id_and_update env k f s)
  Grows-find_by_id_and_update k f s session keeps grows = record {
    users = λ w. (find_by_id_and_update-Grow k f s session w keeps grows).0;
    target = λ w. (find_by_id_and_update-Grow k f s session w keeps grows).1;
    redis = λ w. redis-find_by_id_and_update k f s w;
  }

  -- Reads.
  Grows-find_one :
      (session : Bool) (p : User → Bool) → Grows env mode session (Repository.find_one env p)
  unfolding Repository.find_one
  Grows-find_one session p = record {
    users = λ w. Carried-refl env mode w.users;
    target = λ w. Carried-refl env mode (target env session w);
    redis = λ w. refl;
  }

  pub Grows-repository_find_by_id :
      (id : String) (s session : Bool) → Grows env mode session (Repository.find_by_id env id s)
  unfolding Repository.find_by_id
  Grows-repository_find_by_id id s session = record {
    users = λ w. Carried-refl env mode w.users;
    target = λ w. Carried-refl env mode (target env session w);
    redis = λ w. refl;
  }

  -- Writes.
  Grows-save_over :
      (id : String) (p : Patch) (s session : Bool) (o : Option User)
      → ((removes : Bool) (u : User) → u.id ≡ id → Later mode u (patched removes p u))
      → Grows env mode session (Repository.save_over env id p s o)
  Grows-save_over id p s session none later = search (Grows-raise)
  Grows-save_over id p s session (some u) later =
      Grows-find_by_id_and_update id (patched true p) s session (id-patched true p) (later true)

  Grows-repository_later :
      (id : String) (p : Patch) (s session : Bool)
      → ((removes : Bool) (u : User) → u.id ≡ id → Later mode u (patched removes p u))
      → Grows env mode session (Repository.update env id p s)
  unfolding Repository.update
  Grows-repository_later id p s session later = elim (Bool-cases (is_some p.password)) [
    | inl given ↦ rw given (
        Grows-bind env mode session (Repository.find_by_id env id s)
          (Repository.save_over env id p s) (Grows-repository_find_by_id id s session)
          (λ o. Grows-save_over id p s session o later))
    | inr missing ↦ rw missing (
        Grows-find_by_id_and_update id (patched false p) s session (id-patched false p)
          (later false))
  ]

  pub Grows-repository_update :
      (id : String) (p : Patch) (s session : Bool)
      → Spares p
      → Grows env mode session (Repository.update env id p s)
  Grows-repository_update id p s session spared =
      Grows-repository_later id p s session (λ removes u at. Later-patched mode removes p u spared)

  pub Grows-update :
      (id : String) (p : Patch) (s session : Bool)
      → Spares p
      → Grows env mode session (Service.update env id p s)
  unfolding Service.update Service.invalidate_user_cache
  Grows-update id p s session spared = search (epoch_rules, Grows-repository_update, spared)

  Grows-repository_unset :
      (id : String) (fs : List Field) (s session : Bool)
      → ((u : User) → u.id ≡ id → Later mode u (unset_all fs u))
      → Grows env mode session (Repository.unset_fields env id fs s)
  unfolding Repository.unset_fields
  Grows-repository_unset id fs s session later =
      Grows-find_by_id_and_update id (unset_all fs) s session (id-unset_all fs) later

  Grows-repository_bump :
      (id : String) (s session : Bool)
      → Grows env mode session (Repository.bump_session_epoch env id s)
  unfolding Repository.bump_session_epoch
  Grows-repository_bump id s session =
      Grows-find_by_id_and_update id inc_session_epoch s session (λ u. refl)
        (λ u at. Later-bumped mode u)

  pub Grows-soft_delete :
      (id : String) (session : Bool) → Grows env mode session (Repository.soft_delete env id)
  unfolding Repository.soft_delete
  Grows-soft_delete id session = record {
    users = λ w.
        (find_by_id_and_update-Grow id (soft_deleted w.now) false session w (λ u. refl)
          (λ u at. Later-deleted mode w.now u)).0;
    target = λ w.
        (find_by_id_and_update-Grow id (soft_deleted w.now) false session w (λ u. refl)
          (λ u at. Later-deleted mode w.now u)).1;
    redis = λ w. redis-find_by_id_and_update id (soft_deleted w.now) false w;
  }

  pub Grows-unset_fields :
      (id : String) (fs : List Field) (s session : Bool)
      → SparesAll fs
      → Grows env mode session (Service.unset_fields env id fs s)
  unfolding Service.unset_fields Service.invalidate_user_cache
  Grows-unset_fields id fs s session spared =
      let later = λ (u : User) (at : u.id ≡ id). Later-unset_all mode fs u spared in
      search (epoch_rules, Grows-repository_unset, later)

  pub Grows-bump_session_epoch :
      (id : String) (s session : Bool)
      → Grows env mode session (Service.bump_session_epoch env id s)
  unfolding Service.bump_session_epoch Service.invalidate_user_cache
  Grows-bump_session_epoch id s session = search (epoch_rules, Grows-repository_bump) depth 9

  Grow-insert :
      (s t : env.users.State) (u : User) → env.users.insert_one s u ≡ some t → Carried env mode s t
  Grow-insert s t u done = record {
    at = λ k v e. elim (Bool-cases (u.id == k)) [
      | inl same ↦
          let e' = subst (λ i. env.users.doc s i ≡ some v) (sym ((eq_iff u.id k).0 same)) e in
          absurd (cc (env.users.insert_one-fresh s t u done, e'))
      | inr other ↦ (v, ground (arith, env.users.doc-insert_one s t u done k), Later-refl mode v)
    ];
  }

  insert-Grow :
      (u : User) (session : Bool) (w : World env)
      → Carried env mode w.users (insert env u w).1.users
        × Carried env mode (target env session w) (target env session (insert env u w).1)
  insert-Grow u session w = elim (Option-cases (env.users.insert_one w.users u)) [
    | inl failed ↦
        rw (failed, insert)
          (Carried-refl env mode w.users, Carried-refl env mode (target env session w))
    | inr (t, done) ↦
        rw (done, insert) (written-Grow false session w t (Grow-insert w.users t u done))
  ]

  redis-insert : (u : User) (w : World env) → (insert env u w).1.redis ≡ w.redis
  redis-insert u w = elim (Option-cases (env.users.insert_one w.users u)) [
    | inl failed ↦ rw (failed, insert) refl
    | inr (t, done) ↦ rw (done, insert) refl
  ]

  Grows-insert : (u : User) (session : Bool) → Grows env mode session (insert env u)
  Grows-insert u session = record {
    users = λ w. (insert-Grow u session w).0;
    target = λ w. (insert-Grow u session w).1;
    redis = λ w. redis-insert u w;
  }

  Grows-new_object_id : (session : Bool) → Grows env mode session (new_object_id env)
  Grows-new_object_id true = record {
    users = λ w. Carried-refl env mode w.users;
    target = λ w. Carried-refl env mode (target env true w);
    redis = λ w. refl;
  }
  Grows-new_object_id false = record {
    users = λ w. Carried-refl env mode w.users;
    target = λ w. Carried-refl env mode w.users;
    redis = λ w. refl;
  }

  Grows-repository_create :
      (d : NewUser) (session : Bool) → Grows env mode session (Repository.create_with_role env d)
  unfolding Repository.create_with_role
  Grows-repository_create d session = search (epoch_rules, Grows-insert, Grows-new_object_id)

  pub Grows-discard :
      {A : Type 0} (session : Bool) (m : M env A)
      → Grows env mode session m
      → Grows env mode session (discard m)
  Grows-discard session m h =
      Grows-bind env mode session m _ h (λ _. Grows-pure env mode session tt)

  Grows-exists_by_name :
      (t : String) (session : Bool) → Grows env mode session (Repository.exists_by_name env t)
  unfolding Repository.exists_by_name
  Grows-exists_by_name t session = search epoch_rules

  Grows-exists_by_email :
      (t : String) (session : Bool) → Grows env mode session (Repository.exists_by_email env t)
  unfolding Repository.exists_by_email
  Grows-exists_by_email t session = search epoch_rules

  pub Grows-create_with_role :
      (d : NewUser) (session : Bool) → Grows env mode session (Service.create_with_role env d)
  unfolding Service.create_with_role Service.invalidate_user_cache
  Grows-create_with_role d session =
      search (epoch_rules, Grows-exists_by_name, Grows-exists_by_email, Grows-repository_create)
        depth 12

  pub Grows-exists_by_email_or_username :
      (email name : String) (session : Bool)
      → Grows env mode session (Service.exists_by_email_or_username env email name)
  unfolding Service.exists_by_email_or_username
  Grows-exists_by_email_or_username email name session =
      search (epoch_rules, Grows-exists_by_name, Grows-exists_by_email)

  pub Grows-find_by_id :
      (id : String) (session : Bool) → Grows env mode session (Service.find_by_id env id)
  unfolding Service.find_by_id
  Grows-find_by_id id session = search (epoch_rules, Grows-repository_find_by_id)

  pub Grows-find_by_email :
      (t : String) (session : Bool) → Grows env mode session (Repository.find_by_email env t)
  unfolding Repository.find_by_email
  Grows-find_by_email t session = Grows-find_one session (λ u. u.email == t)

  -- Any update and any removal of fields, of a user of whose code the mode asks nothing.
  pub Grows-update_any :
      (id : String) (p : Patch) (s session : Bool)
      → Free mode id
      → Grows env mode session (Service.update env id p s)
  unfolding Service.update Service.invalidate_user_cache
  Grows-update_any id p s session free =
      let later = λ (removes : Bool) (u : User) (at : u.id ≡ id).
        Later-free mode id u (patched removes p u) free at (id-patched removes p u)
          (epoch-patched removes p u) in
      search (epoch_rules, Grows-repository_later, later)

  pub Grows-unset_any :
      (id : String) (fs : List Field) (s session : Bool)
      → Free mode id
      → Grows env mode session (Service.unset_fields env id fs s)
  unfolding Service.unset_fields Service.invalidate_user_cache
  Grows-unset_any id fs s session free =
      let later = λ (u : User) (at : u.id ≡ id).
        Later-free mode id u (unset_all fs u) free at (id-unset_all fs u) (epoch-unset_all fs u) in
      search (epoch_rules, Grows-repository_unset, later)
