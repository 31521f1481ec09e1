-- ===== src/World/Updates.antt =====
-- What a chain of updates does to the collection: the document under one id is mapped, and every
-- other document stays as it was.
use mathlib.Core.Option
use api_user.Prelude.{
  String, ◌≡◌, refl, ◌∙◌, false, Option, none, some, arith, ◌==◌, eq_refl, if◌then◌else◌,
}
use api_user.Users.{User}
use api_user.Env.{Env}

module _ (env : Env) where
  -- `t` is `s` with the document under `k` mapped by `f`.
  pub record Updates (s t : env.users.State) (k : String) (f : User → User) : Type 0 where
    pub at :
        (j : String)
        → env.users.doc t j
          ≡ (if k == j then Option.map f (env.users.doc s j) else env.users.doc s j)

  -- `t` is `s` with `v` in place of its document `u`.
  pub record Replaces (s t : env.users.State) (u v : User) : Type 0 where
    pub old : env.users.doc s u.id ≡ some u
    pub new : env.users.doc t u.id ≡ some v
    pub others : (j : String) → (u.id == j) ≡ false → env.users.doc t j ≡ env.users.doc s j

  pub Updates-update_one :
      (s t : env.users.State) (k : String) (f : User → User)
      → ((u : User) → (f u).id ≡ u.id)
      → env.users.update_one s k f ≡ some t
      → Updates s t k f
  Updates-update_one s t k f keeps e = record { at = env.users.doc-update_one s t k f keeps e }

  map_id : (o : Option User) → Option.map (λ u. u) o ≡ o
  map_id none = refl
  map_id (some u) = refl

  pub Updates-refl : (s : env.users.State) (k : String) → Updates s s k (λ u. u)
  Updates-refl s k = record { at = λ j. ground (arith, map_id (env.users.doc s j)) }

  pub Updates-commit :
      (s t t' : env.users.State) (k : String) (f : User → User)
      → Updates s t k f
      → env.users.commit t ≡ some t'
      → Updates s t' k f
  Updates-commit s t t' k f h e = record { at = λ j. env.users.doc-commit t t' e j ∙ h.at j }

  map-map :
      (f g : User → User) (o : Option User)
      → Option.map g (Option.map f o) ≡ Option.map (λ u. g (f u)) o
  map-map f g none = refl
  map-map f g (some u) = refl

  pub Updates-trans :
      (s t t' : env.users.State) (k : String) (f g : User → User)
      → Updates s t k f
      → Updates t t' k g
      → Updates s t' k (λ u. g (f u))
  Updates-trans s t t' k f g a b = record {
    at = λ j. ground (arith, a.at j, b.at j, map-map f g (env.users.doc s j));
  }

  pub Updates-Replaces :
      (s t : env.users.State) (f : User → User) (u : User)
      → env.users.doc s u.id ≡ some u
      → Updates s t u.id f
      → Replaces s t u (f u)
  Updates-Replaces s t f u old h = record {
    old = old;
    new = ground (arith, h.at u.id, eq_refl u.id);
    others = λ j ne. ground (arith, h.at j);
  }
