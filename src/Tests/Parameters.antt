-- ===== src/Tests/Parameters.antt =====
-- The parameters over a small Redis, with whole numbers that are written as so many digits `1`.
use Prim.Native.String
use mathlib.Core.Path.{subst}
use api_user.Prelude.{
  ℕ, zero, suc, String, ◌≡◌, refl, true, false, none, some, List, [], ◌∷◌, ltb, nat_eq, ◌==◌,
  if◌then◌else◌, arith, Bool-cases, inl, inr,
}
use api_user.Errors.{parameter_overridden}
use api_user.Exec.{ok, err, domain}
use api_user.Redis
use api_user.Parameters.{
  Numbers, Outside, ParameterDefinition, ParameterRegistry, Val, num, text, flag, string, number,
  boolean, type_of, find_by_key, has, register, validate, parameter_definitions, counted,
  email_text, build_registry,
}
use api_user.Parameters.Text.{is_space, trim_start, trim_end, trim, lower, to_lower_case, is_word}
use api_user.Parameters.Store
use api_user.Parameters.Store.{
  lookup, insert, remove, StoreState, L1Entry, later, coerce, coerce_found, remember_coerced,
  fall_back, seed, read_redis, read_through, get_from, get_by_keys, ttl_of,
}
use api_user.Parameters.Service
use api_user.Parameters.Service.{
  ParameterEntry, entry_of, checked, checked_found, get_all, set, validate_and_coerce,
  update_checked, update,
}
use api_user.Parameters.Refusals.{update-refused}
use api_user.Parameters.Registered.{WellTyped, Typed}
use api_user.Parameters.Requests.{
  Request, read_every, change, drop_one, wait, serve, serve_all, get-type,
}
use api_user.Tests.Server.{client}

unary : ℕ → String
unary zero = ""
unary (suc n) = String.◌∷◌ "1" (unary n)

abbrev numbers : Numbers
numbers = record {
  Number = ℕ;
  literal = λ n. n;
  of_text = λ s. String.count s;
  to_text = unary;
  is_nan = λ n. false;
  is_finite = λ n. true;
  is_integer = λ n. true;
  at_least_one = λ n. ltb 0 n;
  not_positive = λ n. nat_eq n 0;
}

-- The environment gives the provider of mail alone.
abbrev outside : Outside
outside = record {
  client = client;
  config = λ key. if key == "EMAIL_PROVIDER" then some "resend" else none;
  numbers = numbers;
}

abbrev registry : ParameterRegistry outside
registry =
    counted outside "THROTTLE_LIMIT" 2 "throttle"
    ∷ email_text outside "EMAIL_PROVIDER" "smtp" none
    ∷ []

abbrev started : StoreState outside
started = record { l1_cache = []; redis = λ k. none; events = []; now = 1000 }

-- The registry of the module is the list of the definitions: no key is there twice.
registered : build_registry outside ≡ some (parameter_definitions outside)
unfolding build_registry register has find_by_key
registered = refl

abbrev changed : ParameterEntry outside
changed = record {
  key = "THROTTLE_LIMIT";
  type = number;
  value = num 4;
  default_value = num 2;
  group = "throttle";
  ttl = 300;
  is_overridden = true;
}

change_once : (update outside registry "THROTTLE_LIMIT" "1111" started).0 ≡ ok changed
unfolding update update_checked validate_and_coerce set get_all entry_of checked checked_found
    Store.get get_by_keys get_from read_through read_redis seed fall_back remember_coerced
    coerce_found coerce lookup insert remove find_by_key has validate Store.set Redis.get Redis.set
    trim trim_start trim_end is_space lower to_lower_case is_word unary
change_once = refl

-- A refused attempt, a pause and a read.
abbrev attempts : List (Request outside registry)
attempts = change "THROTTLE_LIMIT" "11" ∷ wait 299999 ∷ read_every ∷ []

update-refused_example :
    let w' =
      serve_all outside registry attempts
        (update outside registry "THROTTLE_LIMIT" "1111" started).1 in
    ((update outside registry "THROTTLE_LIMIT" "11" w').0 ≡ err (domain parameter_overridden))
    × ((update outside registry "THROTTLE_LIMIT" "11" w').1.events ≡ w'.events)
unfolding find_by_key
update-refused_example =
    update-refused outside registry "THROTTLE_LIMIT" "1111" "11" started changed attempts
      change_once refl tt (omega arith)

All : (ParameterDefinition outside → Type 0) → ParameterRegistry outside → Type 0
All P [] = Unit
All P (d ∷ ds) = P d × All P ds

All-found :
    (P : ParameterDefinition outside → Type 0) (ds : ParameterRegistry outside)
    → All P ds
    → (key : String) (d : ParameterDefinition outside) → find_by_key outside key ds ≡ some d
    → P d
unfolding All find_by_key
All-found P [] h key d found = cc
All-found P (c ∷ ds) (here, rest) key d found = elim (Bool-cases (c.key == key)) [
  | inl own ↦ let same : c ≡ d = ground (arith, found, own) in subst P same here
  | inr other ↦ All-found P ds rest key d (ground (arith, found, other))
]

-- The definitions of the program have defaults of their types.
definitions-WellTyped : WellTyped outside (parameter_definitions outside)
unfolding All
definitions-WellTyped =
    All-found (λ d. type_of d.default_value ≡ d.type) (parameter_definitions outside)
      (
        refl,
        (
          refl,
          (
            refl,
            (
              refl,
              (refl, (refl, (refl, (refl, (refl, (refl, (refl, (refl, (refl, (refl, tt)))))))))),
            ),
          ),
        ),
      )

abbrev requests : List (Request outside registry)
requests = read_every ∷ change "THROTTLE_LIMIT" "1111" ∷ wait 5 ∷ drop_one "THROTTLE_LIMIT" ∷ []

registry-WellTyped : WellTyped outside registry
unfolding All
registry-WellTyped = All-found (λ d. type_of d.default_value ≡ d.type) registry (refl, (refl, tt))

started-Typed : Typed outside registry started
unfolding lookup
started-Typed key e h = cc

read_again :
    (Service.get outside registry "EMAIL_PROVIDER" (serve_all outside registry requests started)).0
    ≡ ok (text "resend")
unfolding update update_checked validate_and_coerce set get_all entry_of checked checked_found
    Store.get get_by_keys get_from read_through read_redis seed fall_back remember_coerced
    coerce_found coerce lookup insert remove find_by_key has validate Store.set Redis.get Redis.set
    trim trim_start trim_end is_space lower to_lower_case is_word unary Service.get Service.delete
    Store.delete Redis.del serve serve_all
read_again = refl

provider :
    find_by_key outside "EMAIL_PROVIDER" registry
    ≡ some (email_text outside "EMAIL_PROVIDER" "smtp" none)
unfolding find_by_key
provider = refl

abbrev resend : Val outside
resend = text "resend"

get-type_example : type_of resend ≡ string
get-type_example =
    get-type outside registry requests "EMAIL_PROVIDER" started resend
      (email_text outside "EMAIL_PROVIDER" "smtp" none) registry-WellTyped started-Typed read_again
      provider

-- A word for true, with spaces and a capital letter.
two_words : coerce outside boolean " Si " ≡ some (flag true)
unfolding coerce trim trim_start trim_end is_space lower to_lower_case is_word
two_words = refl
