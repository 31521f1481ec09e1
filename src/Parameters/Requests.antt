-- ===== src/Parameters/Requests.antt =====
-- Runs of requests to config/parameters/parameter.service.ts.
use api_user.Prelude.{
  ℕ, String, ◌≡◌, refl, ◌∙◌, sym, Bool, true, false, not, Option, none, some, List, [], ◌∷◌, inl,
  inr, Bool-cases,
}
use mathlib.Core.Path.{subst}
use api_user.Errors.{ErrorKind, parameter_not_found, parameter_overridden}
use api_user.Exec.{Result, ok, err, continue, throw_if, or_throw, Exec, ◌>>◌}
use api_user.Redis
use api_user.Parameters
use api_user.Parameters.{Outside, type_of, Val, ParameterDefinition, ParameterRegistry, find_by_key}
use api_user.Parameters.Store
use api_user.Parameters.Store.{
  StoreState, later, to_text, ttl_of, set_after, get_by_keys, redis_key, store_has, forget,
}
use api_user.Parameters.Service
use api_user.Parameters.Service.{
  ParameterEntry, find_entry, checked_found, get_all, set, validate_and_coerce, overridden,
  read_all, update_checked, update, delete, definition_keys,
}
use api_user.Parameters.Registered.{
  HasType, WellTyped, Typed, get-TypedRead, forget-Typed, remember-Typed, checked-type,
  checked-state,
}

module _ (o : Outside) (registry : ParameterRegistry o) where
  -- The requests of the program: a value, all entries, an update, a deletion, or time that passes.
  pub data Request : Type 0 where
    read_one : (key : String) → Request
    read_every : Request
    change : (key value : String) → Request
    drop_one : (key : String) → Request
    wait : (n : ℕ) → Request

  unfoldable pub serve : Request → StoreState o → StoreState o
  serve (read_one key) w = (Service.get o registry key w).1
  serve read_every w = (get_all o registry w).1
  serve (change key value) w = (update o registry key value w).1
  serve (drop_one key) w = delete o registry key w
  serve (wait n) w = later o n w

  unfoldable pub serve_all : List Request → StoreState o → StoreState o
  unfolding serve
  serve_all [] w = w
  serve_all (r ∷ rs) w = serve_all rs (serve r w)

  get_by_keys-Typed :
      (keys : List String) (w : StoreState o)
      → WellTyped o registry
      → Typed o registry w
      → Typed o registry (get_by_keys o registry keys w).1
  unfolding get_by_keys
  get_by_keys-Typed [] w defaults typed = typed
  get_by_keys-Typed (k ∷ ks) w defaults typed =
      get_by_keys-Typed ks (Store.get o registry k w).1 defaults
        (get-TypedRead o registry k w defaults typed).state

  get_all-Typed :
      (w : StoreState o)
      → WellTyped o registry
      → Typed o registry w
      → Typed o registry (get_all o registry w).1
  unfolding get_all
  get_all-Typed w defaults typed =
      get_by_keys-Typed (definition_keys o registry registry) w defaults typed

  set_after-Typed :
      (key : String) (v : Val o) (r : Option o.client.State) (w : StoreState o)
      → HasType o registry key v
      → Typed o registry w
      → Typed o registry (set_after o registry key v r w)
  set_after-Typed key v none w own typed = remember-Typed o registry key v w own typed
  set_after-Typed key v (some r) w own typed =
      forget-Typed o registry key (record w { redis = r }) typed

  set-Typed :
      (key : String) (v : Val o) (w : StoreState o)
      → HasType o registry key v
      → Typed o registry w
      → Typed o registry (set o registry key v w).1
  unfolding set Store.set
  set-Typed key v w own typed = elim (Bool-cases (Parameters.validate o key v registry)) [
    | inl valid ↦ rw valid (
        set_after-Typed key v
          (Redis.set o.client w.redis w.now (redis_key o registry key) (to_text o v)
            (some (ttl_of o registry key)))
          w own typed)
    | inr invalid ↦ rw invalid typed
  ]

  type-same : (d c : ParameterDefinition o) → some d ≡ some c → d.type ≡ c.type
  type-same d c h = cc

  -- A coerced value has its type, and coercing changes nothing.
  found-type :
      (d : Option (ParameterDefinition o)) (key raw : String) (w : StoreState o) (v : Val o)
      → find_by_key o key registry ≡ d
      → (checked_found o d key raw w).0 ≡ ok v
      → HasType o registry key v
  unfolding checked_found
  found-type none key raw w v e h c found = cc
  found-type (some d) key raw w v e h c found =
      checked-type o d.type key raw w v h ∙ type-same d c (sym e ∙ found)

  pub found-state :
      (d : Option (ParameterDefinition o)) (key raw : String) (w : StoreState o)
      → (checked_found o d key raw w).1 ≡ w
  unfolding checked_found
  found-state none key raw w = refl
  found-state (some d) key raw w = checked-state o d.type key raw w

  Typed-continue :
      {A B : Type 0} (r : Result A) (f : A → Exec (StoreState o) B) (w : StoreState o)
      → Typed o registry w
      → ((a : A) → r ≡ ok a → Typed o registry (f a w).1)
      → Typed o registry (continue r f w).1
  Typed-continue (ok a) f w typed next = next a refl
  Typed-continue (err e) f w typed next = typed

  Typed-or_throw :
      (k : ErrorKind) (e : Option (ParameterEntry o)) (w : StoreState o)
      → Typed o registry w
      → Typed o registry (or_throw k e w).1
  Typed-or_throw k none w typed = typed
  Typed-or_throw k (some e) w typed = typed

  Typed-throw_if :
      {B : Type 0} (k : ErrorKind) (b : Bool) (f : Exec (StoreState o) B) (w : StoreState o)
      → Typed o registry w
      → Typed o registry (f w).1
      → Typed o registry ((throw_if b k >> f) w).1
  Typed-throw_if k true f w typed next = typed
  Typed-throw_if k false f w typed next = next

  update_checked-Typed :
      (key value : String) (w : StoreState o)
      → WellTyped o registry
      → Typed o registry w
      → Typed o registry (update_checked o registry key value w).1
  unfolding update_checked validate_and_coerce
  update_checked-Typed key value w defaults typed =
      let d = find_by_key o key registry in
      let coerced = checked_found o d key value w in
      let same = found-state d key value w in
      let typed' : Typed o registry coerced.1 = subst (Typed o registry) (sym same) typed in
      Typed-continue coerced.0 _ coerced.1 typed' (λ v done.
        let written = set-Typed key v coerced.1 (found-type d key value w v refl done) typed' in
        Typed-continue (set o registry key v coerced.1).0 _ (set o registry key v coerced.1).1
          written
          (λ u _.
            Typed-or_throw parameter_not_found _ _
              (get_all-Typed (set o registry key v coerced.1).1 defaults written)))

  update-Typed :
      (key value : String) (w : StoreState o)
      → WellTyped o registry
      → Typed o registry w
      → Typed o registry (update o registry key value w).1
  unfolding update
  update-Typed key value w defaults typed =
      let read = get_all-Typed w defaults typed in
      Typed-throw_if parameter_not_found (not (store_has o registry key)) _ w typed (
        Typed-throw_if parameter_overridden
          (overridden o registry (find_entry o key (get_all o registry w).0))
          (update_checked o registry key value) (get_all o registry w).1 read
          (update_checked-Typed key value (get_all o registry w).1 defaults read))

  delete-Typed :
      (key : String) (w : StoreState o)
      → Typed o registry w
      → Typed o registry (delete o registry key w)
  unfolding delete Store.delete
  delete-Typed key w typed = forget-Typed o registry key w typed

  serve-Typed :
      (r : Request) (w : StoreState o)
      → WellTyped o registry
      → Typed o registry w
      → Typed o registry (serve r w)
  unfolding serve Service.get
  serve-Typed (read_one key) w defaults typed =
      (get-TypedRead o registry key w defaults typed).state
  serve-Typed read_every w defaults typed = get_all-Typed w defaults typed
  serve-Typed (change key value) w defaults typed = update-Typed key value w defaults typed
  serve-Typed (drop_one key) w defaults typed = delete-Typed key w typed
  serve-Typed (wait n) w defaults typed = typed

  serve_all-Typed :
      (rs : List Request) (w : StoreState o)
      → WellTyped o registry
      → Typed o registry w
      → Typed o registry (serve_all rs w)
  unfolding serve_all
  serve_all-Typed [] w defaults typed = typed
  serve_all-Typed (r ∷ rs) w defaults typed =
      serve_all-Typed rs (serve r w) defaults (serve-Typed r w defaults typed)

  -- The defaults of the registry have their types, and so has all that is remembered at first. Then
  -- after any run of reads, updates, deletions and pauses, whatever the environment and Redis hold,
  -- a read that answers gives a value of the type that the key is registered with.
  pub get-type :
      (rs : List Request) (key : String) (w : StoreState o) (v : Val o) (d : ParameterDefinition o)
      → WellTyped o registry
      → Typed o registry w
      → (Service.get o registry key (serve_all rs w)).0 ≡ ok v
      → find_by_key o key registry ≡ some d
      → type_of v ≡ d.type
  unfolding Service.get
  get-type rs key w v d defaults typed done found =
      let read =
        get-TypedRead o registry key (serve_all rs w) defaults
          (serve_all-Typed rs w defaults typed) in
      read.answer v done d found
