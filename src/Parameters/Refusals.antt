-- ===== src/Parameters/Refusals.antt =====
-- Runs of requests to config/parameters/parameter.service.ts after an update that left the default.
use api_user.Prelude.{
  ℕ, ◌+◌, ◌*◌, ◌<◌, String, ◌≡◌, refl, ◌∙◌, sym, Bool, true, false, not, Option, none, some, List,
  [], ◌∷◌, inl, inr, ◌==◌, arith, Bool-cases,
}
use mathlib.Core.Path.{subst}
use text.Mathlib.TextEquality.{eq_iff}
use api_user.Errors.{ErrorKind, parameter_not_found, parameter_overridden}
use api_user.Exec.{Result, ok, err, domain, continue, throw_if, or_throw, Exec, ◌>>◌}
use api_user.Redis
use api_user.Parameters
use api_user.Parameters.{Outside, Val, ParameterRegistry, find_by_key}
use api_user.Parameters.Store
use api_user.Parameters.Store.{
  lookup, insert, remove, L1Entry, StoreState, later, to_text, ttl_of, cached_until, set_after,
  redis_key, store_has,
}
use api_user.Parameters.Memory.{lookup-insert, lookup-remove}
use api_user.Parameters.Batch.{get-keeps, get-Others, get_by_keys-keeps, get_by_keys-now}
use api_user.Parameters.Service
use api_user.Parameters.Service.{
  ParameterEntry, find_entry, definition_keys, get_all, set, validate_and_coerce, checked_found,
  overridden, update_checked, update, delete,
}
use api_user.Parameters.Overridden.{Held, update-Held, Held-overridden, Held-Refuses}
use api_user.Parameters.Requests.{
  Request, read_one, read_every, change, drop_one, wait, serve, serve_all, found-state,
}

module _ (o : Outside) (registry : ParameterRegistry o) where
  -- How long a run pauses.
  abbrev pub pauses : List (Request o registry) → ℕ
  pauses [] = 0
  pauses (wait n ∷ rs) = n + pauses rs
  pauses (_ ∷ rs) = pauses rs

  -- The run does not delete the parameter.
  abbrev pub Undropped : String → List (Request o registry) → Type 0
  Undropped key [] = Unit
  Undropped key (drop_one k ∷ rs) = ((k == key) ≡ false) × Undropped key rs
  Undropped key (_ ∷ rs) = Undropped key rs

  -- A state with the same time and the same memory of the key.
  record Alike (key : String) (w w' : StoreState o) : Type 0 where
    time : w'.now ≡ w.now
    memory : lookup key w'.l1_cache ≡ lookup key w.l1_cache

  Held-Alike :
      (key : String) (n : ℕ) (w w' : StoreState o)
      → Alike key w w'
      → Held o registry key n w
      → Held o registry key n w'
  Held-Alike key n w w' a h = record {
    values = h.values;
    value = h.value;
    there = h.there;
    until = h.until;
    remembered = a.memory ∙ h.remembered;
    fresh = omega (arith, a.time, h.fresh);
  }

  get-Held :
      (k key : String) (n : ℕ) (w : StoreState o)
      → Held o registry key n w
      → Held o registry key n (Store.get o registry k w).1
  get-Held k key n w h =
      Held-Alike key n w _
        (record {
          time = (get-Others o registry k w).same_time;
          memory =
              get-keeps o registry k key _ w h.remembered (omega (arith, h.fresh))
              ∙ sym h.remembered;
        })
        h

  get_all-Held :
      (key : String) (n : ℕ) (w : StoreState o)
      → Held o registry key n w
      → Held o registry key n (get_all o registry w).1
  unfolding get_all
  get_all-Held key n w h =
      let keys = definition_keys o registry registry in
      Held-Alike key n w _
        (record {
          time = get_by_keys-now o registry keys w;
          memory =
              get_by_keys-keeps o registry keys key _ w h.remembered (omega (arith, h.fresh))
              ∙ sym h.remembered;
        })
        h

  -- A write or a deletion of another key.
  set_after-Alike :
      (k key : String) (v : Val o) (r : Option o.client.State) (w : StoreState o)
      → (k == key) ≡ false
      → Alike key w (set_after o registry k v r w)
  set_after-Alike k key v none w other = record {
    time = refl;
    memory =
        lookup-insert k key (cached_until o registry k v w.now) w.l1_cache ∙ ground (arith, other);
  }
  set_after-Alike k key v (some r) w other = record {
    time = refl;
    memory = lookup-remove k key w.l1_cache ∙ ground (arith, other);
  }

  delete-Alike :
      (k key : String) (w : StoreState o) → (k == key) ≡ false → Alike key w (delete o registry k w)
  unfolding delete Store.delete
  delete-Alike k key w other = record {
    time = refl;
    memory = lookup-remove k key w.l1_cache ∙ ground (arith, other);
  }

  set-Held :
      (k key : String) (v : Val o) (n : ℕ) (w : StoreState o)
      → (k == key) ≡ false
      → Held o registry key n w
      → Held o registry key n (set o registry k v w).1
  unfolding set Store.set
  set-Held k key v n w other h = elim (Bool-cases (Parameters.validate o k v registry)) [
    | inl valid ↦ rw valid (
        Held-Alike key n w _
          (set_after-Alike k key v
            (Redis.set o.client w.redis w.now (redis_key o registry k) (to_text o v)
              (some (ttl_of o registry k)))
            w other)
          h)
    | inr invalid ↦ rw invalid h
  ]

  module _ (key : String) (n : ℕ) where
    abbrev H : StoreState o → Type 0
    H = Held o registry key n

    H-continue :
        {A B : Type 0} (r : Result A) (f : A → Exec (StoreState o) B) (w : StoreState o)
        → H w
        → ((a : A) → H (f a w).1)
        → H (continue r f w).1
    H-continue (ok a) f w h next = next a
    H-continue (err e) f w h next = h

    H-or_throw :
        (k : ErrorKind) (e : Option (ParameterEntry o)) (w : StoreState o)
        → H w
        → H (or_throw k e w).1
    H-or_throw k none w h = h
    H-or_throw k (some e) w h = h

    H-throw_if :
        {B : Type 0} (k : ErrorKind) (b : Bool) (f : Exec (StoreState o) B) (w : StoreState o)
        → H w
        → H (f w).1
        → H ((throw_if b k >> f) w).1
    H-throw_if k true f w h next = h
    H-throw_if k false f w h next = next

    update_checked-other :
        (k value : String) (w : StoreState o)
        → (k == key) ≡ false
        → H w
        → H (update_checked o registry k value w).1
    unfolding update_checked validate_and_coerce
    update_checked-other k value w other h =
        let coerced = checked_found o (find_by_key o k registry) k value w in
        let h' : H coerced.1 =
          subst H (sym (found-state o registry (find_by_key o k registry) k value w)) h in
        H-continue coerced.0 _ coerced.1 h' (λ v.
          let written = set-Held k key v n coerced.1 other h' in
          H-continue (set o registry k v coerced.1).0 _ (set o registry k v coerced.1).1 written
            (λ u.
              H-or_throw parameter_not_found _ _
                (get_all-Held key n (set o registry k v coerced.1).1 written)))

    update-other :
        (k value : String) (w : StoreState o)
        → (k == key) ≡ false
        → H w
        → H (update o registry k value w).1
    unfolding update
    update-other k value w other h =
        let read = get_all-Held key n w h in
        H-throw_if parameter_not_found (not (store_has o registry k)) _ w h (
          H-throw_if parameter_overridden
            (overridden o registry (find_entry o k (get_all o registry w).0))
            (update_checked o registry k value) (get_all o registry w).1 read
            (update_checked-other k value (get_all o registry w).1 other read))

    update-own : (value : String) (w : StoreState o) → H w → H (update o registry key value w).1
    update-own value w h =
        subst (λ p. H p.1) (sym (Held-overridden o registry key value n w h))
          (get_all-Held key n w h)

    update-any : (k value : String) (w : StoreState o) → H w → H (update o registry k value w).1
    update-any k value w h = elim (Bool-cases (k == key)) [
      | inl own ↦
          subst (λ j. H (update o registry j value w).1) (sym ((eq_iff k key).0 own))
            (update-own value w h)
      | inr other ↦ update-other k value w other h
    ]

  Held-later :
      (key : String) (n m : ℕ) (w : StoreState o)
      → Held o registry key (n + m) w
      → Held o registry key m (later o n w)
  Held-later key n m w h = record {
    values = h.values;
    value = h.value;
    there = h.there;
    until = h.until;
    remembered = h.remembered;
    fresh = omega (arith, h.fresh);
  }

  serve_all-Held :
      (rs : List (Request o registry)) (key : String) (w : StoreState o)
      → Undropped key rs
      → Held o registry key (pauses rs) w
      → Held o registry key 0 (serve_all o registry rs w)
  unfolding serve_all serve Service.get
  serve_all-Held [] key w kept h = h
  serve_all-Held (read_one k ∷ rs) key w kept h =
      serve_all-Held rs key _ kept (get-Held k key (pauses rs) w h)
  serve_all-Held (read_every ∷ rs) key w kept h =
      serve_all-Held rs key _ kept (get_all-Held key (pauses rs) w h)
  serve_all-Held (change k value ∷ rs) key w kept h =
      serve_all-Held rs key _ kept (update-any key (pauses rs) k value w h)
  serve_all-Held (drop_one k ∷ rs) key w (other, kept) h =
      serve_all-Held rs key _ kept (Held-Alike key (pauses rs) w _ (delete-Alike k key w other) h)
  serve_all-Held (wait n ∷ rs) key w kept h =
      serve_all-Held rs key _ kept (Held-later key n (pauses rs) w h)

  -- Once an update of a parameter has succeeded with a value whose text is not that of the default,
  -- every update of it within the parameter's time to live is refused as overridden, whatever the
  -- value, and publishes no change. That is so after any run of reads, updates of this and of other
  -- parameters, deletions of others and pauses: an administrator can leave the default once, and can
  -- correct that with an update only after the value has expired or was deleted.
  pub update-refused :
      (key value value' : String) (w : StoreState o) (entry : ParameterEntry o)
      (rs : List (Request o registry))
      → (update o registry key value w).0 ≡ ok entry
      → entry.is_overridden ≡ true
      → Undropped key rs
      → pauses rs < ttl_of o registry key * 1000
      → let w' = serve_all o registry rs (update o registry key value w).1 in
        ((update o registry key value' w').0 ≡ err (domain parameter_overridden))
        × ((update o registry key value' w').1.events ≡ w'.events)
  update-refused key value value' w entry rs done shown kept soon =
      Held-Refuses o registry key value' 0 _ (
        serve_all-Held rs key _ kept
          (update-Held o registry key value w entry (pauses rs) done shown soon))
