-- ===== src/Parameters/Store.antt =====
-- config/parameters/parameter.store.ts: the values in the memory of the process, then the
-- environment, then Redis, then the default of the registry.
use Prim.Native.String
use api_user.Prelude.{
  ℕ, ◌+◌, ◌*◌, String, Bool, true, false, Option, none, some, List, [], ◌∷◌, get_or, ltb, ◌==◌,
  if◌then◌else◌,
}
use api_user.Exec.{Result, ok, err, driver, Exec}
use api_user.Redis
use api_user.Redis.{codes}
use api_user.Parameters.{
  Outside, ParameterType, string, number, boolean, text, num, flag, Val, ParameterDefinition,
  ParameterRegistry, find_by_key, has, get_default, get_ttl,
}
use api_user.Parameters.Text.{trim, to_lower_case, is_word}

-- A dictionary by an association list, as a `Map` that is read by its keys alone.
module _ {V : Type 0} where
  unfoldable pub lookup : String → List (String × V) → Option V
  lookup key [] = none
  lookup key ((k, v) ∷ m) = if k == key then some v else lookup key m

  unfoldable pub remove : String → List (String × V) → List (String × V)
  remove key [] = []
  remove key ((k, u) ∷ m) = let rest = remove key m in if k == key then rest else (k, u) ∷ rest

  -- `set`, without the place in the order.
  unfoldable pub insert : String → V → List (String × V) → List (String × V)
  unfolding remove
  insert key v m = (key, v) ∷ remove key m

module _ (o : Outside) where
  -- Every entry that the store makes has an expiry.
  pub record L1Entry : Type 0 where
    pub value : Val o
    pub expires_at : ℕ

  -- The state of the store, what Redis holds, the events published (newest first) and the time.
  pub record StoreState : Type 0 where
    pub l1_cache : List (String × L1Entry)
    pub redis : o.client.State
    pub events : List (String × Option (Val o))
    pub now : ℕ

  abbrev pub M : Type 0 → Type 0
  M A = Exec StoreState A

  abbrev pub later : ℕ → StoreState → StoreState
  later n w = record w { now = w.now + n }

  -- `String(value)`
  abbrev pub to_text : Val o → String
  to_text (text s) = s
  to_text (num n) = o.numbers.to_text n
  to_text (flag true) = "true"
  to_text (flag false) = "false"

  abbrev pub is_blank : List ℕ → Bool
  is_blank [] = true
  is_blank (c ∷ s) = false

  abbrev pub parse_boolean : List ℕ → Option (Val o)
  parse_boolean normalized =
      if is_word ("true" ∷ "1" ∷ "si" ∷ []) normalized
      then some (flag true)
      else if is_word ("false" ∷ "0" ∷ "no" ∷ []) normalized
      then some (flag false)
      else none

  -- The switch of `coerceValue`; `none` stands for the `Error` that is thrown.
  unfoldable pub coerce : ParameterType → String → Option (Val o)
  coerce boolean value = parse_boolean (to_lower_case (trim (codes value)))
  coerce number value =
      if is_blank (trim (codes value))
      then none
      else if o.numbers.is_finite (o.numbers.of_text value)
      then some (num (o.numbers.of_text value))
      else none
  coerce string value = some (text value)

  module _ (registry : ParameterRegistry o) where
    unfoldable pub coerce_found : Option (ParameterDefinition o) → String → Option (Val o)
    unfolding coerce
    coerce_found none value = some (text value)
    coerce_found (some d) value = coerce d.type value

    abbrev pub coerce_value : String → String → Option (Val o)
    coerce_value key value = coerce_found (find_by_key o key registry) value

    abbrev pub redis_key : String → String
    redis_key key = String.◌++◌ "param:" key

    abbrev pub ttl_of : String → ℕ
    ttl_of key = get_or (get_ttl o key registry) 300

    abbrev pub cached_until : String → Val o → ℕ → L1Entry
    cached_until key value now = record { value = value; expires_at = now + ttl_of key * 1000 }

    abbrev pub remember : String → Val o → StoreState → StoreState
    remember key value w = record w {
      l1_cache = insert key (cached_until key value w.now) w.l1_cache;
    }

    abbrev pub forget : String → StoreState → StoreState
    forget key w = record w { l1_cache = remove key w.l1_cache }

    -- A value that was read as a text: coerced and remembered, or an error.
    unfoldable pub remember_coerced : String → Option (Val o) → M (Val o)
    remember_coerced key none w = (err driver, w)
    remember_coerced key (some value) w = (ok value, remember key value w)

    -- Redis failed: the default, which is not remembered.
    unfoldable pub fall_back : Option (Val o) → M (Val o)
    fall_back none w = (err driver, w)
    fall_back (some value) w = (ok value, w)

    -- Redis has no value: it is given the default, if it answers.
    unfoldable pub seed : String → Option (Val o) → M (Val o)
    seed key none w = (err driver, w)
    seed key (some value) w = (
      ok value,
      remember key value (record w {
        redis =
            get_or
              (Redis.set o.client w.redis w.now (redis_key key) (to_text value) (some (ttl_of key)))
              w.redis;
      }),
    )

    unfoldable pub read_redis : String → Option (Option String) → M (Val o)
    unfolding fall_back seed remember_coerced
    read_redis key none = fall_back (get_default o key registry)
    read_redis key (some none) = seed key (get_default o key registry)
    read_redis key (some (some raw)) = remember_coerced key (coerce_value key raw)

    -- What follows a miss in the memory.
    unfoldable pub read_through : String → Option String → M (Val o)
    unfolding read_redis remember_coerced
    read_through key (some raw) w = remember_coerced key (coerce_value key raw) w
    read_through key none w = read_redis key (Redis.get o.client w.redis w.now (redis_key key)) w

    unfoldable pub get_from : String → Option L1Entry → M (Val o)
    unfolding read_through
    get_from key none w = read_through key (o.config key) (forget key w)
    get_from key (some e) w =
        if ltb w.now e.expires_at
        then (ok e.value, w)
        else read_through key (o.config key) (forget key w)

    unfoldable pub get : String → M (Val o)
    unfolding get_from
    get key w = get_from key (lookup key w.l1_cache) w

    abbrev pub publish : String → Option (Val o) → StoreState → StoreState
    publish key value w = record w { events = (key, value) ∷ w.events }

    abbrev pub set_after : String → Val o → Option o.client.State → StoreState → StoreState
    set_after key value none w = publish key (some value) (remember key value w)
    set_after key value (some r) w = publish key (some value) (forget key (record w { redis = r }))

    -- `set` does not throw.
    unfoldable pub set : String → Val o → StoreState → StoreState
    set key value w =
        set_after key value
          (Redis.set o.client w.redis w.now (redis_key key) (to_text value) (some (ttl_of key))) w

    abbrev pub put_result : String → Result (Val o) → List (String × Val o) → List (String × Val o)
    put_result key (ok value) rest = (key, value) ∷ rest
    put_result key (err e) rest = rest

    -- The reads of different keys, one after the other; a key whose read throws is left out.
    unfoldable pub get_by_keys : List String → StoreState → List (String × Val o) × StoreState
    get_by_keys [] w = ([], w)
    get_by_keys (key ∷ keys) w =
        let first = get key w in
        let rest = get_by_keys keys first.1 in (put_result key first.0 rest.0, rest.1)

    abbrev pub store_has : String → Bool
    store_has key = has o key registry

    unfoldable pub delete : String → StoreState → StoreState
    delete key w = publish key none (record w {
      l1_cache = remove key w.l1_cache;
      redis = get_or (Redis.del o.client w.redis (redis_key key)) w.redis;
    })
