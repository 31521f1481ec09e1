-- ===== src/Parameters.antt =====
-- config/parameters/parameter.types.ts, parameter-registry.ts, parameter-definitions.ts and the
-- registry that parameter.module.ts builds.
pub mod Text
pub mod Store
pub mod Memory
pub mod Batch
pub mod Shown
pub mod Overridden
pub mod Refusals
pub mod Registered
pub mod Requests
pub mod Service
use api_user.Prelude.{
  ℕ, String, Bool, true, false, ◌||◌, Option, none, some, is_some, List, [], ◌∷◌, ◌++◌, keep,
  includes, nat_eq, ◌==◌, if◌then◌else◌,
}
use mathlib.Core.Option
use api_user.Redis.{Client}

-- The numbers of the language, with `Number(text)`, `String(n)` and the tests that are made of them.
pub record Numbers : Type 1 where
  pub Number : Type 0
  pub literal : ℕ → Number
  pub of_text : String → Number
  pub to_text : Number → String
  pub is_nan : Number → Bool
  pub is_finite : Number → Bool
  pub is_integer : Number → Bool
  pub at_least_one : Number → Bool
  pub not_positive : Number → Bool

-- What the parameters take from outside: Redis, `ConfigService.get` and the numbers.
pub record Outside : Type 1 where
  pub client : Client
  pub config : String → Option String
  pub numbers : Numbers

pub data ParameterType : Type 0 where
  string number boolean : ParameterType

abbrev pub same_type : ParameterType → ParameterType → Bool
same_type string string = true
same_type number number = true
same_type boolean boolean = true
same_type string number = false
same_type string boolean = false
same_type number string = false
same_type number boolean = false
same_type boolean string = false
same_type boolean number = false

-- `string | number | boolean`
pub data Value (N : Type 0) : Type 0 where
  text : String → Value N
  num : N → Value N
  flag : Bool → Value N

abbrev pub type_of : {N : Type 0} → Value N → ParameterType
type_of (text s) = string
type_of (num n) = number
type_of (flag b) = boolean

module _ (o : Outside) where
  abbrev pub Val : Type 0
  Val = Value o.numbers.Number

  -- `default` is a word of the language of the source alone.
  pub record ParameterDefinition : Type 0 where
    pub key : String
    pub type : ParameterType
    pub default_value : Val
    pub group : String
    pub ttl : ℕ
    pub validate : Option (Val → Bool)

  -- The `Map` of the registry, in the order of insertion.
  abbrev pub ParameterRegistry : Type 0
  ParameterRegistry = List ParameterDefinition

  -- `get`; `findByKey` is the same.
  unfoldable pub find_by_key : String → ParameterRegistry → Option ParameterDefinition
  find_by_key key [] = none
  find_by_key key (d ∷ ds) = if d.key == key then some d else find_by_key key ds

  unfoldable pub has : String → ParameterRegistry → Bool
  unfolding find_by_key
  has key registry = is_some (find_by_key key registry)

  -- `none` stands for the `Error` that is thrown. A definition's type is one of the three.
  unfoldable pub register : ParameterDefinition → ParameterRegistry → Option ParameterRegistry
  unfolding has
  register param registry = if has param.key registry then none else some (registry ++ param ∷ [])

  abbrev pub get_all : ParameterRegistry → List ParameterDefinition
  get_all registry = registry

  abbrev pub find_by_group : String → ParameterRegistry → List ParameterDefinition
  find_by_group group registry = keep (λ d. d.group == group) registry

  -- The values of a `Set` in the order of their first insertion.
  abbrev pub add : String → List String → List String
  add group groups = if includes groups group then groups else groups ++ group ∷ []

  abbrev pub groups_after : List String → ParameterRegistry → List String
  groups_after groups [] = groups
  groups_after groups (d ∷ ds) = groups_after (add d.group groups) ds

  abbrev pub list_groups : ParameterRegistry → List String
  list_groups = groups_after []

  abbrev pub accepts : Option (Val → Bool) → Val → Bool
  accepts none value = true
  accepts (some test) value = test value

  abbrev pub is_valid : Option ParameterDefinition → Val → Bool
  is_valid none value = false
  is_valid (some d) value = accepts d.validate value

  -- Whether the registry's `validate` returns; it throws an `Error` otherwise.
  unfoldable pub validate : String → Val → ParameterRegistry → Bool
  validate key value registry = is_valid (find_by_key key registry) value

  abbrev pub get_default : String → ParameterRegistry → Option Val
  get_default key registry = Option.map (λ d. d.default_value) (find_by_key key registry)

  abbrev pub get_ttl : String → ParameterRegistry → Option ℕ
  get_ttl key registry = Option.map (λ d. d.ttl) (find_by_key key registry)

  -- `IS_INT_MIN_1`
  abbrev pub is_int_min_1 : Val → Bool
  is_int_min_1 (num n) = if o.numbers.is_integer n then o.numbers.at_least_one n else false
  is_int_min_1 (text s) = false
  is_int_min_1 (flag b) = false

  abbrev pub is_provider : Val → Bool
  is_provider (text s) = s == "smtp" || s == "resend"
  is_provider (num n) = false
  is_provider (flag b) = false

  abbrev pub email_text : String → String → Option (Val → Bool) → ParameterDefinition
  email_text key default_value validate = record {
    key = key;
    type = string;
    default_value = text default_value;
    group = "email";
    ttl = 300;
    validate = validate;
  }

  abbrev pub counted : String → ℕ → String → ParameterDefinition
  counted key default_value group = record {
    key = key;
    type = number;
    default_value = num (o.numbers.literal default_value);
    group = group;
    ttl = 300;
    validate = some is_int_min_1;
  }

  abbrev pub parameter_definitions : List ParameterDefinition
  parameter_definitions =
      email_text "EMAIL_PROVIDER" "smtp" (some is_provider)
      ∷ email_text "EMAIL_HOST" "smtp" none
      ∷ counted "EMAIL_PORT" 587 "email"
      ∷ record {
        key = "EMAIL_SECURE";
        type = boolean;
        default_value = flag false;
        group = "email";
        ttl = 300;
        validate = none;
      }
      ∷ email_text "EMAIL_FROM" "noreply@countergank.com" none
      ∷ email_text "RESEND_FROM_EMAIL" "noreply@countergank.com" none
      ∷ counted "THROTTLE_LIMIT" 10 "throttle"
      ∷ counted "THROTTLE_TTL" 60 "throttle"
      ∷ counted "LOGIN_THROTTLE_LIMIT" 5 "throttle"
      ∷ counted "LOGIN_THROTTLE_TTL" 60 "throttle"
      ∷ counted "REGISTER_THROTTLE_LIMIT" 3 "throttle"
      ∷ counted "REGISTER_THROTTLE_TTL" 60 "throttle"
      ∷ counted "FORGOT_PASSWORD_THROTTLE_LIMIT" 3 "throttle"
      ∷ counted "FORGOT_PASSWORD_THROTTLE_TTL" 300 "throttle"
      ∷ []

  abbrev pub after_register :
      Option ParameterRegistry → List ParameterDefinition → Option ParameterRegistry
  after_register none ds = none
  after_register (some r) [] = some r
  after_register (some r) (d ∷ ds) = after_register (register d r) ds

  -- The factory of the module: the registry, or the error of the first key that is taken.
  unfoldable pub build_registry : Option ParameterRegistry
  unfolding register
  build_registry = after_register (some []) parameter_definitions
