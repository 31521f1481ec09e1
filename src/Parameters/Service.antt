-- ===== src/Parameters/Service.antt =====
-- config/parameters/parameter.service.ts: what an administrator sees of the parameters and changes.
use api_user.Prelude.{
  ℕ, String, Bool, false, not, Option, none, some, List, [], ◌∷◌, map, length, keep, get_or, ◌==◌,
  if◌then◌else◌,
}
use api_user.Errors.{parameter_not_found, parameter_overridden, parameter_value_invalid}
use api_user.Exec.{ok, err, driver, domain, ◌>>=◌, ◌>>◌, pure, throw_if, or_throw}
use api_user.Redis.{codes}
use api_user.Pages.{Paginated, of, page_of}
use api_user.Parameters.{
  Outside, ParameterType, string, number, boolean, text, num, flag, Val, ParameterDefinition,
  ParameterRegistry, find_by_key, validate,
}
use api_user.Parameters.Text.{to_lower_case, is_word}
use api_user.Parameters.Store
use api_user.Parameters.Store.{M, StoreState, to_text, get_by_keys, lookup, store_has}

module _ (o : Outside) where
  -- `default` is a word of the language of the source alone.
  pub record ParameterEntry : Type 0 where
    pub key : String
    pub type : ParameterType
    pub value : Val o
    pub default_value : Val o
    pub group : String
    pub ttl : ℕ
    pub is_overridden : Bool

  -- `hasRuntimeValue && String(runtimeValue) !== String(def.default)`
  abbrev pub differs : Option (Val o) → Val o → Bool
  differs none default_value = false
  differs (some value) default_value = not (to_text o value == to_text o default_value)

  unfoldable pub entry_of : ParameterDefinition o → Option (Val o) → ParameterEntry
  entry_of d runtime_value = record {
    key = d.key;
    type = d.type;
    value = get_or runtime_value d.default_value;
    default_value = d.default_value;
    group = d.group;
    ttl = d.ttl;
    is_overridden = differs runtime_value d.default_value;
  }

  abbrev pub find_entry : String → List ParameterEntry → Option ParameterEntry
  find_entry key [] = none
  find_entry key (e ∷ es) = if e.key == key then some e else find_entry key es

  -- The conversions of `validateAndCoerce` for a key whose definition has the type.
  abbrev pub checked_number : String → o.numbers.Number → M o (Val o)
  checked_number key n =
      if o.numbers.is_nan n
      then (λ w. (err (domain parameter_value_invalid), w))
      else if o.numbers.not_positive n
      then if key == "THROTTLE_LIMIT"
        then (λ w. (err (domain parameter_value_invalid), w))
        else pure (num n)
      else pure (num n)

  abbrev pub checked_boolean : List ℕ → M o (Val o)
  checked_boolean lower =
      if is_word ("true" ∷ "false" ∷ "1" ∷ "0" ∷ []) lower
      then pure (flag (is_word ("true" ∷ "1" ∷ []) lower))
      else (λ w. (err (domain parameter_value_invalid), w))

  unfoldable pub checked : ParameterType → String → String → M o (Val o)
  checked number key raw = checked_number key (o.numbers.of_text raw)
  checked boolean key raw = checked_boolean (to_lower_case (codes raw))
  checked string key raw = pure (text raw)

  unfoldable pub checked_found : Option (ParameterDefinition o) → String → String → M o (Val o)
  unfolding checked
  checked_found none key raw w = (err (domain parameter_not_found), w)
  checked_found (some d) key raw w = checked d.type key raw w

  module _ (registry : ParameterRegistry o) where
    abbrev pub definition_keys : ParameterRegistry o → List String
    definition_keys = map (λ d. d.key)

    abbrev pub entries : ParameterRegistry o → List (String × Val o) → List ParameterEntry
    entries ds values = map (λ d. entry_of d (lookup d.key values)) ds

    -- With no definition there is nothing to read.
    unfoldable pub get_all : StoreState o → List ParameterEntry × StoreState o
    get_all w =
        let read = get_by_keys o registry (definition_keys registry) w in
        (entries registry read.0, read.1)

    -- The bootstrap reads every parameter; a read that throws stops it.
    unfoldable pub warm_up : List (ParameterDefinition o) → M o (Unit {0})
    warm_up [] w = (ok tt, w)
    warm_up (d ∷ ds) w =
        let rest = warm_up ds (Store.get o registry d.key w).1 in
        elim (Store.get o registry d.key w).0 [
          | ok value ↦ rest
          | err e ↦ (err e, (Store.get o registry d.key w).1)
        ]

    unfoldable pub on_application_bootstrap : M o (Unit {0})
    unfolding warm_up
    on_application_bootstrap = warm_up registry

    unfoldable pub get : String → M o (Val o)
    get key = Store.get o registry key

    -- The registry's `validate` throws an `Error`.
    unfoldable pub set : String → Val o → M o (Unit {0})
    set key value w =
        if validate o key value registry
        then (ok tt, Store.set o registry key value w)
        else (err driver, w)

    -- A group that is missing or empty is `none`.
    abbrev pub scoped : Option String → List ParameterEntry → List ParameterEntry
    scoped none all = all
    scoped (some group) all = keep (λ e. e.group == group) all

    unfoldable pub find_paginated :
        Option String → Option ℕ → Option ℕ → StoreState o → Paginated ParameterEntry × StoreState o
    unfolding get_all
    find_paginated group page limit w =
        let all = get_all w in
        let rows = scoped group all.0 in
        (
          of (page_of rows (get_or page 1) (get_or limit 20)) (length rows) (get_or page 1)
              (get_or limit 20),
          all.1,
        )

    unfoldable pub delete : String → StoreState o → StoreState o
    delete key w = Store.delete o registry key w

    unfoldable pub validate_and_coerce : String → String → M o (Val o)
    validate_and_coerce key raw = checked_found (find_by_key o key registry) key raw

    abbrev pub overridden : Option ParameterEntry → Bool
    overridden none = false
    overridden (some e) = e.is_overridden

    abbrev pub read_all : M o (List ParameterEntry)
    read_all w = let all = get_all w in (ok all.0, all.1)

    -- The coercion, the write and the answer of `update`.
    unfoldable pub update_checked : String → String → M o ParameterEntry
    update_checked key value = do
      coerced ← validate_and_coerce key value
      set key coerced
      updated ← read_all
      or_throw parameter_not_found (find_entry key updated)

    unfoldable pub update : String → String → M o ParameterEntry
    update key value = do
      throw_if (not (store_has o registry key)) parameter_not_found
      all ← read_all
      throw_if (overridden (find_entry key all)) parameter_overridden
      update_checked key value
