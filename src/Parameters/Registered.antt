-- ===== src/Parameters/Registered.antt =====
-- The types of the values of config/parameters, over any run of requests.
use api_user.Prelude.{String, ◌≡◌, refl, ◌∙◌, sym, ap, some, inl, inr, ◌==◌, arith, Bool-cases}
use mathlib.Core.Path.{subst}
use package.text.Mathlib.TextEquality.{eq_iff}
use api_user.Exec.{Result, ok}
use api_user.Parameters.{
  Outside, ParameterType, string, number, boolean, type_of, Val, ParameterDefinition,
  ParameterRegistry, find_by_key, get_default,
}
use api_user.Parameters.Store
use api_user.Parameters.Store.{
  lookup, insert, remove, L1Entry, StoreState, later, to_text, ttl_of, cached_until, remember,
  forget, coerce, coerce_value, coerce_found, set_after, get_by_keys, redis_key, store_has,
}
use api_user.Parameters.Memory.{
  lookup-insert, lookup-remove, Source, Outcome, unstored, failed, remembered, Read, hit, miss,
  get-Read,
}
use api_user.Parameters.Service.{checked}

module _ (o : Outside) where
  coerce-type :
      (t : ParameterType) (raw : String) (v : Val o) → coerce o t raw ≡ some v → type_of v ≡ t
  unfolding coerce
  coerce-type string raw v h = ground (arith, h)
  coerce-type number raw v h = ground (arith, h)
  coerce-type boolean raw v h = ground (arith, h)

  pub checked-type :
      (t : ParameterType) (key raw : String) (w : StoreState o) (v : Val o)
      → (checked o t key raw w).0 ≡ ok v
      → type_of v ≡ t
  unfolding checked
  checked-type string key raw w v h = ground (arith, h)
  checked-type number key raw w v h = ground (arith, h)
  checked-type boolean key raw w v h = ground (arith, h)

  pub checked-state :
      (t : ParameterType) (key raw : String) (w : StoreState o) → (checked o t key raw w).1 ≡ w
  unfolding checked
  checked-state string key raw w = refl
  checked-state number key raw w = ground arith
  checked-state boolean key raw w = ground arith

module _ (o : Outside) (registry : ParameterRegistry o) where
  -- A value has the type that its key is registered with, if it is registered.
  abbrev pub HasType : String → Val o → Type 0
  HasType key v =
      (d : ParameterDefinition o) → find_by_key o key registry ≡ some d → type_of v ≡ d.type

  -- The defaults of the registry have their types.
  abbrev pub WellTyped : Type 0
  WellTyped =
      (key : String) (d : ParameterDefinition o)
      → find_by_key o key registry ≡ some d
      → type_of d.default_value ≡ d.type

  -- All that is remembered has its type.
  abbrev pub Typed : StoreState o → Type 0
  Typed w = (key : String) (e : L1Entry o) → lookup key w.l1_cache ≡ some e → HasType key e.value

  coerced-HasType :
      (key raw : String) (v : Val o) → coerce_value o registry key raw ≡ some v → HasType key v
  unfolding coerce_found
  coerced-HasType key raw v h d found =
      coerce-type o d.type raw v (sym (ap (λ x. coerce_found o registry x raw) found) ∙ h)

  default-HasType :
      (key : String) (v : Val o) → WellTyped → get_default o key registry ≡ some v → HasType key v
  default-HasType key v typed h d found =
      let same : d.default_value ≡ v = ground (arith, h, found) in
      ap type_of (sym same) ∙ typed key d found

  Source-HasType : (key : String) (v : Val o) → WellTyped → Source o registry key v → HasType key v
  Source-HasType key v typed (inl (raw, h)) = coerced-HasType key raw v h
  Source-HasType key v typed (inr h) = default-HasType key v typed h

  pub forget-Typed : (key : String) (w : StoreState o) → Typed w → Typed (forget o registry key w)
  forget-Typed key w typed j e h = typed j e (ground (arith, h, lookup-remove key j w.l1_cache))

  pub remember-Typed :
      (key : String) (v : Val o) (w : StoreState o)
      → HasType key v
      → Typed w
      → Typed (remember o registry key v w)
  remember-Typed key v w own typed j e h = elim (Bool-cases (key == j)) [
    | inl same ↦
        let value : v ≡ e.value =
          ground (
            arith,
            h,
            same,
            lookup-insert key j (cached_until o registry key v w.now) w.l1_cache,
          ) in
        subst (HasType j) value (subst (λ k. HasType k v) ((eq_iff key j).0 same) own)
    | inr other ↦ typed j e (
        ground
          (arith, h, other, lookup-insert key j (cached_until o registry key v w.now) w.l1_cache))
  ]

  -- A read keeps the types, and answers a value of the right type.
  pub record TypedRead (key : String) (p : Result (Val o) × StoreState o) : Type 0 where
    pub state : Typed p.1
    pub answer : (v : Val o) → p.0 ≡ ok v → HasType key v

  Outcome-TypedRead :
      (key : String) (w : StoreState o) {p : Result (Val o) × StoreState o}
      → WellTyped
      → Typed w
      → Outcome o registry key w p
      → TypedRead key p
  Outcome-TypedRead key w defaults typed (unstored v d) = record {
    state = typed;
    answer = λ u same. subst (HasType key) (cc same) (default-HasType key v defaults d);
  }
  Outcome-TypedRead key w defaults typed (failed e) = record {
    state = typed;
    answer = λ u same. cc same;
  }
  Outcome-TypedRead key w defaults typed (remembered v r from) =
      let own = Source-HasType key v defaults from in
      record {
        state = remember-Typed key v (record w { redis = r }) own typed;
        answer = λ u same. subst (HasType key) (cc same) own;
      }

  Read-TypedRead :
      (key : String) (w : StoreState o) {p : Result (Val o) × StoreState o}
      → WellTyped
      → Typed w
      → Read o registry key w p
      → TypedRead key p
  Read-TypedRead key w defaults typed (hit e h fresh) = record {
    state = typed;
    answer = λ u same. subst (HasType key) (cc same) (typed key e h);
  }
  Read-TypedRead key w defaults typed (miss out) =
      Outcome-TypedRead key (forget o registry key w) defaults (forget-Typed key w typed) out

  pub get-TypedRead :
      (key : String) (w : StoreState o)
      → WellTyped
      → Typed w
      → TypedRead key (Store.get o registry key w)
  get-TypedRead key w defaults typed =
      Read-TypedRead key w defaults typed (get-Read o registry key w)
