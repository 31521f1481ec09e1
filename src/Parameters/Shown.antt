-- ===== src/Parameters/Shown.antt =====
-- The entries that config/parameters/parameter.service.ts shows, for a key with an override.
use api_user.Prelude.{
  ℕ, ◌<◌, String, ◌≡◌, refl, ◌∙◌, sym, ap, true, false, not, Option, none, some, List, [], ◌∷◌,
  includes, ◌==◌, arith,
}
use mathlib.Core.Option
use text.Mathlib.TextEquality.{eq_iff}
use text.Mathlib.TextPositions.{eq_refl}
use api_user.Parameters.{
  Outside, Val, ParameterDefinition, ParameterRegistry, find_by_key, get_default,
}
use api_user.Parameters.Store.{lookup, StoreState, to_text, get_by_keys}
use api_user.Parameters.Batch.{get_by_keys-fresh}
use api_user.Parameters.Service.{
  ParameterEntry, differs, entry_of, find_entry, definition_keys, entries, get_all, overridden,
}

module _ (o : Outside) where
  -- The entry of a key is that of its definition.
  find_entry-entries :
      (key : String) (ds : ParameterRegistry o) (registry : ParameterRegistry o)
      (values : List (String × Val o))
      → find_entry o key (entries o registry ds values)
        ≡ Option.map (λ d. entry_of o d (lookup d.key values)) (find_by_key o key ds)
  unfolding find_by_key entry_of
  find_entry-entries key [] registry values = refl
  find_entry-entries key (d ∷ ds) registry values =
      ground (arith, find_entry-entries key ds registry values)

  find_by_key-key :
      (key : String) (ds : ParameterRegistry o) (d : ParameterDefinition o)
      → find_by_key o key ds ≡ some d
      → d.key ≡ key
  unfolding find_by_key
  find_by_key-key key [] d h = cc
  find_by_key-key key (c ∷ ds) d h = ground (arith, eq_iff c.key key, find_by_key-key key ds d)

  find_by_key-includes :
      (key : String) (ds registry : ParameterRegistry o) (d : ParameterDefinition o)
      → find_by_key o key ds ≡ some d
      → includes (definition_keys o registry ds) key ≡ true
  unfolding find_by_key
  find_by_key-includes key [] registry d h = cc
  find_by_key-includes key (c ∷ ds) registry d h =
      ground (arith, find_by_key-includes key ds registry d)

  differs-some :
      (r : Option (Val o)) (d : Val o)
      → differs o r d ≡ true
      → (v : Val o) × (r ≡ some v) × ((to_text o v == to_text o d) ≡ false)
  differs-some none d h = cc
  differs-some (some v) d h = (v, refl, ground (arith, h))

module _ (o : Outside) (registry : ParameterRegistry o) where
  -- What the entry of a key says: its definition, and the value that the batch of reads answered.
  pub record Shown (key : String) (values : List (String × Val o)) : Type 0 where
    pub definition : ParameterDefinition o
    pub found : find_by_key o key registry ≡ some definition
    pub value : Val o
    pub read : lookup key values ≡ some value
    pub other : (to_text o value == to_text o definition.default_value) ≡ false

  definition-Shown :
      (key : String) (values : List (String × Val o)) (entry : ParameterEntry o)
      (d : Option (ParameterDefinition o))
      → find_by_key o key registry ≡ d
      → Option.map (λ d. entry_of o d (lookup d.key values)) d ≡ some entry
      → entry.is_overridden ≡ true
      → Shown key values
  unfolding entry_of
  definition-Shown key values entry none found h shown = cc
  definition-Shown key values entry (some d) found h shown =
      let same : entry_of o d (lookup d.key values) ≡ entry = cc h in
      let (v, read, other) =
        differs-some o (lookup d.key values) d.default_value
          (ap (λ (e : ParameterEntry o). e.is_overridden) same ∙ shown) in
      record {
        definition = d;
        found = found;
        value = v;
        read = ap (λ k. lookup k values) (sym (find_by_key-key o key registry d found)) ∙ read;
        other = other;
      }

  pub entry-Shown :
      (key : String) (values : List (String × Val o)) (entry : ParameterEntry o)
      → find_entry o key (entries o registry registry values) ≡ some entry
      → entry.is_overridden ≡ true
      → Shown key values
  entry-Shown key values entry h shown =
      definition-Shown key values entry (find_by_key o key registry) refl
        (sym (find_entry-entries o key registry registry values) ∙ h) shown

  -- A shown value is not the default, so that it is remembered.
  pub not_default :
      (key : String) (values : List (String × Val o)) (s : Shown key values)
      → get_default o key registry ≡ some s.value
      → ⊥
  not_default key values s h =
      let same : s.definition.default_value ≡ s.value = ground (arith, h, s.found) in
      cc (
        s.other,
        eq_refl (to_text o s.value),
        ap (λ v. to_text o s.value == to_text o v) (sym same),
      )

  -- Reading all values once more shows what is remembered.
  pub overridden_again :
      (key : String) (values : List (String × Val o)) (s : Shown key values) (w : StoreState o)
      (until : ℕ)
      → lookup key w.l1_cache ≡ some (record { value = s.value; expires_at = until })
      → w.now < until
      → overridden o registry (find_entry o key (get_all o registry w).0) ≡ true
  unfolding get_all entry_of
  overridden_again key values s w until held fresh =
      let keys = definition_keys o registry registry in
      let member = find_by_key-includes o key registry registry s.definition s.found in
      let again = get_by_keys-fresh o registry keys key _ w held fresh member in
      let read = (get_by_keys o registry keys w).0 in
      let shown = λ (d : ParameterDefinition o). entry_of o d (lookup d.key read) in
      let entry = find_entry-entries o key registry registry read ∙ ap (Option.map shown) s.found in
      let at_key = find_by_key-key o key registry s.definition s.found in
      ap (overridden o registry) entry
      ∙ ap (λ k. differs o (lookup k read) s.definition.default_value) at_key
      ∙ ap (λ r. differs o r s.definition.default_value) again
      ∙ ap not s.other
