-- ===== src/Parameters/Batch.antt =====
-- `getByKeys` of config/parameters/parameter.store.ts: what a batch of reads answers and keeps for
-- one of its keys.
use api_user.Prelude.{
  ℕ, ◌<◌, String, ◌≡◌, refl, ◌∙◌, sym, ap, true, false, none, some, List, [], ◌∷◌, ◌⊎◌, inl, inr,
  includes, ◌==◌, arith, Bool-cases,
}
use mathlib.Core.Path.{subst}
use text.Mathlib.TextEquality.{eq_iff}
use text.Mathlib.TextPositions.{eq_refl}
use api_user.Exec.{Result, ok, err}
use api_user.Parameters.{Outside, Val, ParameterRegistry, get_default}
use api_user.Parameters.Store.{
  lookup, L1Entry, StoreState, ttl_of, cached_until, forget, get_from, get, put_result, get_by_keys,
}
use api_user.Parameters.Memory.{
  lookup-insert, lookup-remove, Outcome, unstored, failed, remembered, Read, hit, miss, get-Read,
  Others, Read-Others,
}
use api_user.Parameters.Store.{remove}

module _ (o : Outside) (registry : ParameterRegistry o) where
  get-fresh :
      (key : String) (e : L1Entry o) (w : StoreState o)
      → lookup key w.l1_cache ≡ some e
      → w.now < e.expires_at
      → get o registry key w ≡ (ok e.value, w)
  unfolding get get_from
  get-fresh key e w h fresh = rw h (ground (arith, fresh))

  pub get-Others :
      (key : String) (w : StoreState o) → Others o registry key w (get o registry key w).1
  get-Others key w = Read-Others o registry key w (get-Read o registry key w)

  pub get_by_keys-now :
      (keys : List String) (w : StoreState o) → (get_by_keys o registry keys w).1.now ≡ w.now
  unfolding get_by_keys
  get_by_keys-now [] w = refl
  get_by_keys-now (k ∷ ks) w =
      get_by_keys-now ks (get o registry k w).1 ∙ (get-Others k w).same_time

  pub get_by_keys-events :
      (keys : List String) (w : StoreState o) → (get_by_keys o registry keys w).1.events ≡ w.events
  unfolding get_by_keys
  get_by_keys-events [] w = refl
  get_by_keys-events (k ∷ ks) w =
      get_by_keys-events ks (get o registry k w).1 ∙ (get-Others k w).same_events

  -- A read keeps a value that is remembered and has not expired.
  pub get-keeps :
      (k key : String) (e : L1Entry o) (w : StoreState o)
      → lookup key w.l1_cache ≡ some e
      → w.now < e.expires_at
      → lookup key (get o registry k w).1.l1_cache ≡ some e
  get-keeps k key e w h fresh = elim (Bool-cases (k == key)) [
    | inl own ↦
        let same : k ≡ key = (eq_iff k key).0 own in
        ap (λ j. lookup key (get o registry j w).1.l1_cache) same
        ∙ ap (λ p. lookup key p.1.l1_cache) (get-fresh key e w h fresh)
        ∙ h
    | inr other ↦ (get-Others k w).same key other ∙ h
  ]

  pub get_by_keys-keeps :
      (keys : List String) (key : String) (e : L1Entry o) (w : StoreState o)
      → lookup key w.l1_cache ≡ some e
      → w.now < e.expires_at
      → lookup key (get_by_keys o registry keys w).1.l1_cache ≡ some e
  unfolding get_by_keys
  get_by_keys-keeps [] key e w h fresh = h
  get_by_keys-keeps (k ∷ ks) key e w h fresh =
      get_by_keys-keeps ks key e (get o registry k w).1 (get-keeps k key e w h fresh)
        (subst (λ t. t < e.expires_at) (sym (get-Others k w).same_time) fresh)

  lookup-put_result :
      (k key : String) (r : Result (Val o)) (rest : List (String × Val o))
      → (k == key) ≡ false
      → lookup key (put_result o registry k r rest) ≡ lookup key rest
  unfolding lookup
  lookup-put_result k key (ok v) rest h = ground (arith, h)
  lookup-put_result k key (err e) rest h = refl

  lookup-put_own :
      (key : String) (v : Val o) (rest : List (String × Val o))
      → lookup key (put_result o registry key (ok v) rest) ≡ some v
  unfolding lookup
  lookup-put_own key v rest = ground (arith, eq_refl key)

  -- While a value is remembered, the batch answers it.
  pub get_by_keys-fresh :
      (keys : List String) (key : String) (e : L1Entry o) (w : StoreState o)
      → lookup key w.l1_cache ≡ some e
      → w.now < e.expires_at
      → includes keys key ≡ true
      → lookup key (get_by_keys o registry keys w).0 ≡ some e.value
  unfolding get_by_keys
  get_by_keys-fresh [] key e w h fresh member = cc
  get_by_keys-fresh (k ∷ ks) key e w h fresh member = elim (Bool-cases (k == key)) [
    | inl own ↦
        let same : k ≡ key = (eq_iff k key).0 own in
        let rest = (get_by_keys o registry ks (get o registry k w).1).0 in
        ap (λ j. lookup key (put_result o registry j (get o registry j w).0 rest)) same
        ∙ ap
            (λ (p : Result (Val o) × StoreState o). lookup key (put_result o registry key p.0 rest))
            (get-fresh key e w h fresh)
        ∙ lookup-put_own key e.value rest
    | inr other ↦
        lookup-put_result k key (get o registry k w).0 _ other
        ∙ get_by_keys-fresh ks key e (get o registry k w).1 (get-keeps k key e w h fresh)
            (subst (λ t. t < e.expires_at) (sym (get-Others k w).same_time) fresh)
            (ground (arith, member, other))
  ]

  -- Nothing is remembered of a key, or a value that was written at this very time.
  abbrev pub Ready : String → StoreState o → Type 0
  Ready key w =
      (lookup key w.l1_cache ≡ none)
      ⊎ ((v : Val o) × (lookup key w.l1_cache ≡ some (cached_until o registry key v w.now)))

  -- The value that a batch answers for a key is the default or is remembered from then on.
  abbrev Kept : String → Val o → ℕ → StoreState o → Type 0
  Kept key v now w =
      (get_default o key registry ≡ some v)
      ⊎ (lookup key w.l1_cache ≡ some (cached_until o registry key v now))

  -- What a read of the key itself leaves.
  abbrev OwnRead : String → StoreState o → Result (Val o) × StoreState o → Type 0
  OwnRead key w (ok v, w') = Kept key v w.now w'
  OwnRead key w (err e, w') = lookup key w'.l1_cache ≡ none

  own-Outcome :
      (key : String) (w : StoreState o) {p : Result (Val o) × StoreState o}
      → Outcome o registry key (forget o registry key w) p
      → OwnRead key w p
  own-Outcome key w (unstored v d) = inl d
  own-Outcome key w (failed e) = lookup-remove key key w.l1_cache ∙ ground (arith, eq_refl key)
  own-Outcome key w (remembered v r from) = inr (
      lookup-insert key key (cached_until o registry key v w.now) (remove key w.l1_cache)
      ∙ ground (arith, eq_refl key))

  cached_own :
      (key : String) (w : StoreState o) (e : L1Entry o) (v : Val o)
      → lookup key w.l1_cache ≡ some e
      → lookup key w.l1_cache ≡ some (cached_until o registry key v w.now)
      → lookup key w.l1_cache ≡ some (cached_until o registry key e.value w.now)
  cached_own key w e v h q = ground (arith, h, q)

  own-Read :
      (key : String) (w : StoreState o) {p : Result (Val o) × StoreState o}
      → Ready key w
      → Read o registry key w p
      → OwnRead key w p
  own-Read key w (inl nothing) (hit e h fresh) = cc
  own-Read key w (inr (v, q)) (hit e h fresh) = inr (cached_own key w e v h q)
  own-Read key w (inl nothing) (miss out) = own-Outcome key w out
  own-Read key w (inr (v, q)) (miss out) = own-Outcome key w out

  Ready-other :
      (k key : String) (w : StoreState o)
      → (k == key) ≡ false
      → Ready key w
      → Ready key (get o registry k w).1
  Ready-other k key w other (inl nothing) = inl ((get-Others k w).same key other ∙ nothing)
  Ready-other k key w other (inr (v, q)) = inr (
    v,
    (get-Others k w).same key other
        ∙ q
        ∙ ap (λ t. some (cached_until o registry key v t)) (sym (get-Others k w).same_time),
  )

  expires_later :
      (key : String) (v : Val o) (now : ℕ)
      → 0 < ttl_of o registry key
      → now < (cached_until o registry key v now).expires_at
  expires_later key v now positive = omega (arith, positive)

  -- The rest of a batch behind a read of the key.
  Kept-rest :
      (ks : List String) (key : String) (w w' : StoreState o) (v v' : Val o)
      → 0 < ttl_of o registry key
      → w'.now ≡ w.now
      → Kept key v w.now w'
      → v ≡ v'
      → Kept key v' w.now (get_by_keys o registry ks w').1
  Kept-rest ks key w w' v v' positive time (inl d) same = inl (d ∙ ap some same)
  Kept-rest ks key w w' v v' positive time (inr q) same = inr (
      get_by_keys-keeps ks key (cached_until o registry key v w.now) w' q (
        subst (λ t. t < (cached_until o registry key v w.now).expires_at) (sym time)
          (expires_later key v w.now positive))
      ∙ ap (λ x. some (cached_until o registry key x w.now)) same)

  abbrev read_first :
      String → List String → Result (Val o) × StoreState o → List (String × Val o) × StoreState o
  read_first key ks p =
      let rest = get_by_keys o registry ks p.1 in (put_result o registry key p.0 rest.0, rest.1)

  -- A batch that starts with the key, by what that read left.
  own_first :
      (ks : List String) (key : String) (v : Val o) (w : StoreState o)
      → 0 < ttl_of o registry key
      → ((w1 : StoreState o)
          → Ready key w1
          → lookup key (get_by_keys o registry ks w1).0 ≡ some v
          → Kept key v w1.now (get_by_keys o registry ks w1).1)
      → (p : Result (Val o) × StoreState o) → p.1.now ≡ w.now
      → OwnRead key w p
      → lookup key (read_first key ks p).0 ≡ some v
      → Kept key v w.now (read_first key ks p).1
  own_first ks key v w positive ih (ok u, w1) time own found =
      let same : some u ≡ some v = sym (lookup-put_own key u _) ∙ found in
      Kept-rest ks key w w1 u v positive time own (cc same)
  own_first ks key v w positive ih (err e, w1) time own found =
      subst (λ t. Kept key v t (get_by_keys o registry ks w1).1) time (ih w1 (inl own) found)

  pub get_by_keys-Kept :
      (keys : List String) (key : String) (v : Val o) (w : StoreState o)
      → 0 < ttl_of o registry key
      → Ready key w
      → lookup key (get_by_keys o registry keys w).0 ≡ some v
      → Kept key v w.now (get_by_keys o registry keys w).1
  unfolding get_by_keys
  get_by_keys-Kept [] key v w positive ready found = unfold lookup in cc found
  get_by_keys-Kept (k ∷ ks) key v w positive ready found = elim (Bool-cases (k == key)) [
    | inl own ↦
        subst
          (λ j.
            lookup key (read_first j ks (get o registry j w)).0 ≡ some v
            → Kept key v w.now (read_first j ks (get o registry j w)).1)
          (sym ((eq_iff k key).0 own))
          (own_first ks key v w positive (λ w1 r f. get_by_keys-Kept ks key v w1 positive r f)
            (get o registry key w) (get-Others key w).same_time
            (own-Read key w ready (get-Read o registry key w)))
          found
    | inr other ↦
        subst (λ t. Kept key v t (get_by_keys o registry ks (get o registry k w).1).1)
          (get-Others k w).same_time
          (get_by_keys-Kept ks key v (get o registry k w).1 positive
            (Ready-other k key w other ready)
            (sym (lookup-put_result k key (get o registry k w).0 _ other) ∙ found))
  ]
