-- ===== src/Parameters/Overridden.antt =====
-- `update` of config/parameters/parameter.service.ts, once a value differs from its default.
use api_user.Prelude.{
  ℕ, ◌+◌, ◌*◌, ◌<◌, String, ◌≡◌, refl, ◌∙◌, sym, ap, true, not, Option, none, some, List, inl, inr,
  arith,
}
use mathlib.Core.Path.{subst}
use text.Mathlib.TextPositions.{eq_refl}
use api_user.Errors.{parameter_not_found, parameter_overridden}
use api_user.Exec.{ok, err, domain, or_throw}
use api_user.Exec.Inversion.{continue-eq-ok, throw_if-bind-ok}
use api_user.Redis
use api_user.Parameters.{Outside, Val, ParameterRegistry}
use api_user.Parameters.Store
use api_user.Parameters.Store.{
  lookup, insert, remove, StoreState, later, to_text, ttl_of, cached_until, set_after, get_by_keys,
  redis_key, store_has,
}
use api_user.Parameters.Memory.{lookup-insert, lookup-remove}
use api_user.Parameters.Batch.{get_by_keys-now, get_by_keys-events, Ready, get_by_keys-Kept}
use api_user.Parameters.Service.{
  ParameterEntry, find_entry, definition_keys, get_all, set, validate_and_coerce, overridden,
  update_checked, update,
}
use api_user.Parameters.Shown.{Shown, entry-Shown, not_default, overridden_again}

module _ (o : Outside) (registry : ParameterRegistry o) where
  set-Ready :
      (key : String) (v : Val o) (r : Option o.client.State) (w : StoreState o)
      → Ready o registry key (set_after o registry key v r w)
  set-Ready key v none w = inr (
    v,
    lookup-insert key key (cached_until o registry key v w.now) w.l1_cache
        ∙ ground (arith, eq_refl key),
  )
  set-Ready key v (some r) w = inl (lookup-remove key key w.l1_cache ∙ ground (arith, eq_refl key))

  -- An update that succeeded has shown the value that it reads back after its write.
  record ReadBack (key : String) (entry : ParameterEntry o) (w' : StoreState o) : Type 0 where
    written : StoreState o
    ready : Ready o registry key written
    shown : find_entry o key (get_all o registry written).0 ≡ some entry
    state : w' ≡ (get_all o registry written).1

  set-ok :
      (key : String) (v : Val o) (w : StoreState o)
      → (set o registry key v w).0 ≡ ok tt
      → (set o registry key v w).1 ≡ Store.set o registry key v w
  unfolding set
  set-ok key v w h = ground (arith, h)

  Store-set-Ready :
      (key : String) (v : Val o) (w : StoreState o)
      → Ready o registry key (Store.set o registry key v w)
  unfolding Store.set
  Store-set-Ready key v w =
      set-Ready key v
        (Redis.set o.client w.redis w.now (redis_key o registry key) (to_text o v)
          (some (ttl_of o registry key)))
        w

  answer-ok :
      (e : Option (ParameterEntry o)) (w : StoreState o) (entry : ParameterEntry o)
      → (or_throw parameter_not_found e w).0 ≡ ok entry
      → (e ≡ some entry) × ((or_throw parameter_not_found e w).1 ≡ w)
  answer-ok none w entry h = cc
  answer-ok (some e) w entry h = (cc h, refl)

  update_checked-ReadBack :
      (key value : String) (w : StoreState o) (entry : ParameterEntry o)
      → (update_checked o registry key value w).0 ≡ ok entry
      → ReadBack key entry (update_checked o registry key value w).1
  unfolding update_checked
  update_checked-ReadBack key value w entry h =
      let coercion = validate_and_coerce o registry key value w in
      let (v, _, first, h1) = continue-eq-ok coercion.0 _ coercion.1 h in
      let writing = set o registry key v coercion.1 in
      let (_, done, second, h2) = continue-eq-ok writing.0 _ writing.1 h1 in
      let all = get_all o registry writing.1 in
      let (found, kept) = answer-ok (find_entry o key all.0) all.1 entry h2 in
      record {
        written = writing.1;
        ready =
            subst (Ready o registry key) (sym (set-ok key v coercion.1 done))
              (Store-set-Ready key v coercion.1);
        shown = found;
        state = ap (λ p. p.1) (first ∙ second) ∙ kept;
      }

  update-ReadBack :
      (key value : String) (w : StoreState o) (entry : ParameterEntry o)
      → (update o registry key value w).0 ≡ ok entry
      → (store_has o registry key ≡ true) × ReadBack key entry (update o registry key value w).1
  unfolding update
  update-ReadBack key value w entry h =
      let (there, first, h1) =
        throw_if-bind-ok parameter_not_found (not (store_has o registry key)) _ w h in
      let all = get_all o registry w in
      let (_, second, h2) =
        throw_if-bind-ok parameter_overridden (overridden o registry (find_entry o key all.0))
          (update_checked o registry key value) all.1 h1 in
      (
        ground (arith, there),
        subst (ReadBack key entry) (ap (λ p. p.1) (sym (first ∙ second)))
            (update_checked-ReadBack key value all.1 entry h2),
      )

  -- With a value that differs from the default in the memory, an update is refused.
  update-overridden :
      (key value : String) (w : StoreState o)
      → store_has o registry key ≡ true
      → overridden o registry (find_entry o key (get_all o registry w).0) ≡ true
      → update o registry key value w
        ≡ (err (domain parameter_overridden), (get_all o registry w).1)
  unfolding update
  update-overridden key value w there shown = rw (there, shown) refl

  abbrev pub Refuses : String → String → StoreState o → Type 0
  Refuses key value w =
      ((update o registry key value w).0 ≡ err (domain parameter_overridden))
      × ((update o registry key value w).1.events ≡ w.events)

  refused_now :
      (key value : String) (values : List (String × Val o)) (s : Shown o registry key values)
      (w : StoreState o) (until : ℕ)
      → store_has o registry key ≡ true
      → lookup key w.l1_cache ≡ some (record { value = s.value; expires_at = until })
      → w.now < until
      → Refuses key value w
  refused_now key value values s w until there held fresh =
      let refused =
        update-overridden key value w there
          (overridden_again o registry key values s w until held fresh) in
      (
        ap (λ p. p.0) refused,
        ap (λ p. p.1.events) refused
            ∙ unfold get_all in
              get_by_keys-events o registry (definition_keys o registry registry) w,
      )

  get_all-state :
      (w : StoreState o)
      → (get_all o registry w).1
        ≡ (get_by_keys o registry (definition_keys o registry registry) w).1
  unfolding get_all
  get_all-state w = refl

  read-held :
      (key : String) (w : StoreState o)
      (s : Shown o registry key (get_by_keys o registry (definition_keys o registry registry) w).0)
      → 0 < ttl_of o registry key
      → Ready o registry key w
      → lookup key (get_by_keys o registry (definition_keys o registry registry) w).1.l1_cache
        ≡ some (cached_until o registry key s.value w.now)
  read-held key w s positive ready =
      elim (get_by_keys-Kept o registry (definition_keys o registry registry) key s.value w positive
        ready s.read) [ inl same ↦ absurd (not_default o registry key _ s same) | inr held ↦ held ]

  -- What a refusal rests on: the value that was shown is remembered until its time.
  pub record Held (key : String) (n : ℕ) (w : StoreState o) : Type 0 where
    pub values : List (String × Val o)
    pub value : Shown o registry key values
    pub there : store_has o registry key ≡ true
    pub until : ℕ
    pub remembered :
        lookup key w.l1_cache ≡ some (record { value = value.value; expires_at = until })
    pub fresh : w.now + n < until

  pub update-Held :
      (key value : String) (w : StoreState o) (entry : ParameterEntry o) (n : ℕ)
      → (update o registry key value w).0 ≡ ok entry
      → entry.is_overridden ≡ true
      → n < ttl_of o registry key * 1000
      → Held key n (update o registry key value w).1
  update-Held key value w entry n done shown soon =
      let (there, back) = update-ReadBack key value w entry done in
      let s =
        entry-Shown o registry key
          (get_by_keys o registry (definition_keys o registry registry) back.written).0 entry
          (unfold get_all in back.shown) shown in
      let written = back.written in
      let read = get_by_keys o registry (definition_keys o registry registry) written in
      let fresh : read.1.now + n < written.now + ttl_of o registry key * 1000 =
        let same = get_by_keys-now o registry (definition_keys o registry registry) written in
        omega (arith, same, soon) in
      subst (Held key n) (sym (back.state ∙ get_all-state written)) (record {
        values = _;
        value = s;
        there = there;
        until = written.now + ttl_of o registry key * 1000;
        remembered = read-held key written s (omega (arith, soon)) back.ready;
        fresh = fresh;
      })

  pub Held-overridden :
      (key value : String) (n : ℕ) (w : StoreState o)
      → Held key n w
      → update o registry key value w
        ≡ (err (domain parameter_overridden), (get_all o registry w).1)
  Held-overridden key value n w h = update-overridden key value w h.there (
      overridden_again o registry key h.values h.value w h.until h.remembered
        (omega (arith, h.fresh)))

  pub Held-Refuses :
      (key value : String) (n : ℕ) (w : StoreState o) → Held key n w → Refuses key value w
  Held-Refuses key value n w h =
      refused_now key value h.values h.value w h.until h.there h.remembered (omega (arith, h.fresh))
