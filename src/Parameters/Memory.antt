-- ===== src/Parameters/Memory.antt =====
-- What a read of config/parameters/parameter.store.ts leaves in the memory of the process.
use api_user.Prelude.{
  ◌<◌, String, ◌≡◌, refl, ◌∙◌, false, Option, none, some, List, [], ◌∷◌, ◌⊎◌, inl, inr, ltb, ◌==◌,
  if◌then◌else◌, arith, Bool-cases,
}
use text.Mathlib.TextEquality.{eq_iff}
use api_user.Exec.{Failure, Result, ok, err, driver}
use api_user.Redis
use api_user.Parameters.{Outside, Val, ParameterRegistry, get_default}
use api_user.Parameters.Store.{
  lookup, insert, remove, L1Entry, StoreState, cached_until, remember, forget, remember_coerced,
  coerce_value, fall_back, seed, read_redis, read_through, get_from, get, redis_key,
}

module _ {V : Type 0} where
  pub lookup-remove :
      (key other : String) (m : List (String × V))
      → lookup other (remove key m) ≡ (if key == other then none else lookup other m)
  unfolding lookup remove
  lookup-remove key other [] = elim (Bool-cases (key == other)) [
    | inl same ↦ rw same refl
    | inr different ↦ rw different refl
  ]
  lookup-remove key other ((first, u) ∷ m) =
      let rest = lookup-remove key other m in
      ground (arith, rest, eq_iff first key, eq_iff key other, eq_iff first other)

  pub lookup-insert :
      (key other : String) (v : V) (m : List (String × V))
      → lookup other (insert key v m) ≡ (if key == other then some v else lookup other m)
  unfolding lookup insert
  lookup-insert key other v m = elim (Bool-cases (key == other)) [
    | inl same ↦ rw same refl
    | inr different ↦ rw different (lookup-remove key other m ∙ ground (arith, different))
  ]

module _ (o : Outside) (registry : ParameterRegistry o) where
  -- Where a value comes from: a text that was coerced, or the default.
  abbrev pub Source : String → Val o → Type 0
  Source key v =
      ((raw : String) × (coerce_value o registry key raw ≡ some v))
      ⊎ (get_default o key registry ≡ some v)

  -- What a read through the memory ends with: the default while Redis fails, an error, or a value
  -- that is remembered.
  pub data Outcome (key : String) (w : StoreState o) : Result (Val o) × StoreState o → Type 0 where
    unstored : (v : Val o) → get_default o key registry ≡ some v → Outcome key w (ok v, w)
    failed : (e : Failure) → Outcome key w (err e, w)
    remembered :
        (v : Val o) (r : o.client.State)
        → Source key v
        → Outcome key w (ok v, remember o registry key v (record w { redis = r }))

  remember_coerced-Outcome :
      (key raw : String) (v : Option (Val o)) (w : StoreState o)
      → coerce_value o registry key raw ≡ v
      → Outcome key w (remember_coerced o registry key v w)
  unfolding remember_coerced
  remember_coerced-Outcome key raw none w e = failed driver
  remember_coerced-Outcome key raw (some v) w e = remembered v w.redis (inl (raw, e))

  fall_back-Outcome :
      (key : String) (v : Option (Val o)) (w : StoreState o)
      → get_default o key registry ≡ v
      → Outcome key w (fall_back o registry v w)
  unfolding fall_back
  fall_back-Outcome key none w e = failed driver
  fall_back-Outcome key (some v) w e = unstored v e

  seed-Outcome :
      (key : String) (v : Option (Val o)) (w : StoreState o)
      → get_default o key registry ≡ v
      → Outcome key w (seed o registry key v w)
  unfolding seed
  seed-Outcome key none w e = failed driver
  seed-Outcome key (some v) w e = remembered v _ (inr e)

  read_redis-Outcome :
      (key : String) (answer : Option (Option String)) (w : StoreState o)
      → Outcome key w (read_redis o registry key answer w)
  read_redis-Outcome key none w =
      unfold read_redis in fall_back-Outcome key (get_default o key registry) w refl
  read_redis-Outcome key (some none) w =
      unfold read_redis in seed-Outcome key (get_default o key registry) w refl
  read_redis-Outcome key (some (some raw)) w =
      unfold read_redis in remember_coerced-Outcome key raw (coerce_value o registry key raw) w refl

  pub read_through-Outcome :
      (key : String) (raw : Option String) (w : StoreState o)
      → Outcome key w (read_through o registry key raw w)
  unfolding read_through
  read_through-Outcome key none w =
      read_redis-Outcome key (Redis.get o.client w.redis w.now (redis_key o registry key)) w
  read_through-Outcome key (some raw) w =
      remember_coerced-Outcome key raw (coerce_value o registry key raw) w refl

  -- A read answers from the memory, or reads through it.
  pub data Read (key : String) (w : StoreState o) : Result (Val o) × StoreState o → Type 0 where
    hit :
        (e : L1Entry o)
        → lookup key w.l1_cache ≡ some e
        → w.now < e.expires_at
        → Read key w (ok e.value, w)
    miss :
        {p : Result (Val o) × StoreState o} → Outcome key (forget o registry key w) p → Read key w p

  get_from-Read :
      (key : String) (e : Option (L1Entry o)) (w : StoreState o)
      → lookup key w.l1_cache ≡ e
      → Read key w (get_from o registry key e w)
  unfolding get_from
  get_from-Read key none w h =
      miss (read_through-Outcome key (o.config key) (forget o registry key w))
  get_from-Read key (some e) w h = elim (Bool-cases (ltb w.now e.expires_at)) [
    | inl fresh ↦ rw fresh (hit e h (ground (arith, fresh)))
    | inr stale ↦
        rw stale (miss (read_through-Outcome key (o.config key) (forget o registry key w)))
  ]

  pub get-Read : (key : String) (w : StoreState o) → Read key w (get o registry key w)
  unfolding get
  get-Read key w = get_from-Read key (lookup key w.l1_cache) w refl

  -- A read keeps the time and what is remembered of the other keys, and publishes nothing.
  pub record Others (key : String) (w w' : StoreState o) : Type 0 where
    pub same_time : w'.now ≡ w.now
    pub same_events : w'.events ≡ w.events
    pub same : (j : String) → (key == j) ≡ false → lookup j w'.l1_cache ≡ lookup j w.l1_cache

  Outcome-Others :
      (key : String) (w : StoreState o) {p : Result (Val o) × StoreState o}
      → Outcome key (forget o registry key w) p
      → Others key w p.1
  Outcome-Others key w (unstored v d) = record {
    same_time = refl;
    same_events = refl;
    same = λ j other. lookup-remove key j w.l1_cache ∙ ground (arith, other);
  }
  Outcome-Others key w (failed e) = record {
    same_time = refl;
    same_events = refl;
    same = λ j other. lookup-remove key j w.l1_cache ∙ ground (arith, other);
  }
  Outcome-Others key w (remembered v r from) = record {
    same_time = refl;
    same_events = refl;
    same = λ j other.
        lookup-insert key j (cached_until o registry key v w.now) (remove key w.l1_cache)
        ∙ ground (arith, other, lookup-remove key j w.l1_cache);
  }

  pub Read-Others :
      (key : String) (w : StoreState o) {p : Result (Val o) × StoreState o}
      → Read key w p
      → Others key w p.1
  Read-Others key w (hit e h fresh) = record {
    same_time = refl;
    same_events = refl;
    same = λ j other. refl;
  }
  Read-Others key w (miss out) = Outcome-Others key w out
