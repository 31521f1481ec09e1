-- ===== src/Users/Service/Effects.antt =====
-- The writes of user/repository/user.repository.ts and user/service/user.service.ts, as maps of
-- one document.
use api_user.Prelude.{
  String, ◌≡◌, refl, inl, inr, Bool, true, false, Option, none, some, List, is_some, Bool-cases,
}
use api_user.Errors.{user_not_found}
use api_user.Exec.{ok, pure, discard, or_throw, ◌>>=◌, ◌>>◌}
use api_user.Users.{User, Patch, patched, id-patched, Field, unset_all, id-unset_all}
use api_user.Users.Repository
use api_user.Users.Repository.{inc_session_epoch}
use api_user.Users.Service
use api_user.Env.{Env}
use api_user.World.{World, M, target, written}
use api_user.World.Updates.{Updates, Updates-refl, Updates-update_one}
use api_user.World.Runs.{Runs, Runs-pure, Runs-emit, Runs-or_throw, Runs-bind}

module _ (env : Env) where
  written-Updates :
      (session : Bool) (w : World env) (k : String) (f : User → User) (t : env.users.State)
      → Updates env (target env session w) t k f
      → Updates env (target env session w) (target env session (written env session t w)) k f
  written-Updates true w k f t h = h
  written-Updates false w k f t h = h

  pub Runs-find_by_id_and_update :
      (k : String) (f : User → User) (session : Bool)
      → ((u : User) → (f u).id ≡ u.id)
      → Runs env session k f (Repository.find_by_id_and_update env k f session)
  unfolding Repository.find_by_id_and_update
  Runs-find_by_id_and_update k f session keeps = record {
    at = λ w a e. go w (env.users.update_one (target env session w) k f) refl e;
  }
    where
      go :
          (w : World env) (o : Option env.users.State) {a : Option User}
          → env.users.update_one (target env session w) k f ≡ o
          → (Repository.find_by_id_and_update env k f session w).0 ≡ ok a
          → Updates env
              (target env session w)
              (target env session (Repository.find_by_id_and_update env k f session w).1)
              k
              f
      go w none eo e = absurd (cc (rw (eo, Repository.find_by_id_and_update) at e))
      go w (some t) eo e =
          rw (eo, Repository.find_by_id_and_update)
            (written-Updates session w k f t (Updates-update_one env _ t k f keeps eo))

  Runs-find_by_id :
      (k j : String) (session : Bool)
      → Runs env session k (λ u. u) (Repository.find_by_id env j session)
  unfolding Repository.find_by_id
  Runs-find_by_id k j session = record { at = λ w a e. Updates-refl env (target env session w) k }

  Runs-save_over :
      (k : String) (p : Patch) (session : Bool) (o : Option User)
      → Runs env session k (patched true p) (Repository.save_over env k p session o)
  Runs-save_over k p session none = record { at = λ w a e. cc }
  Runs-save_over k p session (some u) =
      Runs-find_by_id_and_update k (patched true p) session (id-patched true p)

  pub Runs-repository_update :
      (k : String) (p : Patch) (session : Bool)
      → Runs env session k (patched (is_some p.password) p) (Repository.update env k p session)
  unfolding Repository.update
  Runs-repository_update k p session = elim (Bool-cases (is_some p.password)) [
    | inl password ↦ rw password (
        Runs-bind env session k (λ u. u) (patched true p) (Repository.find_by_id env k session)
          (Repository.save_over env k p session) (Runs-find_by_id k k session)
          (Runs-save_over k p session))
    | inr none_given ↦
        rw none_given (Runs-find_by_id_and_update k (patched false p) session (id-patched false p))
  ]

  -- A call after which the cache is invalidated and the value returned.
  Runs-invalidating :
      {A : Type 0} (k : String) (f : User → User) (m : M env A) (session : Bool)
      → Runs env session k f m
      → Runs env session k f (do a ← m; Service.invalidate_user_cache env k; pure a)
  unfolding Service.invalidate_user_cache
  Runs-invalidating k f m session h =
      Runs-bind env session k f (λ u. u) m _ h
        (λ a.
          Runs-bind env session k (λ u. u) (λ u. u) _ _ (Runs-emit env session k _)
            (λ _. Runs-pure env session k a))

  pub Runs-update :
      (k : String) (p : Patch) (session : Bool)
      → Runs env session k (patched (is_some p.password) p) (Service.update env k p session)
  unfolding Service.update
  Runs-update k p session =
      Runs-invalidating k _ (Repository.update env k p session) session
        (Runs-repository_update k p session)

  pub Runs-unset_fields :
      (k : String) (fields : List Field) (session : Bool)
      → Runs env session k (unset_all fields) (Service.unset_fields env k fields session)
  unfolding Service.unset_fields Repository.unset_fields
  Runs-unset_fields k fields session =
      Runs-invalidating k _ (Repository.unset_fields env k fields session) session
        (Runs-find_by_id_and_update k (unset_all fields) session (id-unset_all fields))

  pub Runs-bump_session_epoch :
      (k : String) (session : Bool)
      → Runs env session k inc_session_epoch (Service.bump_session_epoch env k session)
  unfolding Service.bump_session_epoch Repository.bump_session_epoch
  Runs-bump_session_epoch k session =
      Runs-bind env session k inc_session_epoch (λ u. u)
        (Repository.find_by_id_and_update env k inc_session_epoch session) _
        (Runs-find_by_id_and_update k inc_session_epoch session (λ u. refl))
        (λ o.
          Runs-bind env session k (λ u. u) (λ u. u) (or_throw user_not_found o) _
            (Runs-or_throw env session k user_not_found o)
            (λ u.
              Runs-bind env session k (λ u. u) (λ u. u) _ _ (Runs-emit env session k _)
                (λ _. Runs-pure env session k u.session_epoch)))

  pub Runs-discard :
      {A : Type 0} (k : String) (f : User → User) (session : Bool) (m : M env A)
      → Runs env session k f m
      → Runs env session k f (discard m)
  Runs-discard k f session m h =
      Runs-bind env session k f (λ u. u) m (λ _. pure tt) h (λ _. Runs-pure env session k tt)
