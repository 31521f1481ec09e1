-- ===== src/Tests/Outside.antt =====
-- The rest of a concrete outside of the program: a denylist, readable tokens and hashes, and users.
use api_user.Prelude.{
  refl, ℕ, ◌+◌, ◌*◌, ◌/◌, ◌<◌, String, ◌≡◌, ◌≢◌, Bool, true, false, Option, none, some, List, [],
  ◌∷◌, ltb, ◌==◌, if◌then◌else◌, arith, eq_refl, ◌%◌, ap, sym, ◌∙◌,
}
use Prim.Native.String.{◌++◌}
use api_user.Users.{User, user}
use api_user.Roles.{Permission}
use api_user.Env.{Env, Payload, Denylist, Crypto, Cache}
use api_user.World.{World}
use api_user.Tests.Memory.{users}
use api_user.Tests.RoleStore.{roles}

-- A key is held until its entry expires.
abbrev held : List (String × ℕ) → ℕ → String → Bool
held [] now k = false
held ((j, e) ∷ entries) now k = let rest = held entries now k in if j == k then ltb now e else rest

abbrev count : Bool → ℕ
count true = 1
count false = 0

held-now :
    (entries : List (String × ℕ)) (k : String) (e later : ℕ)
    → later < e
    → some (count (held ((k, e) ∷ entries) later k)) ≢ some 0
held-now entries k e later h = ground (arith, eq_refl k)

pub exists-set_ex :
    (r r' : List (String × ℕ)) (now ttl : ℕ) (k : String)
    → some ((k, now + ttl * 1000) ∷ r) ≡ some r'
    → (later : ℕ) → later < now + ttl * 1000
    → some (count (held r' later k)) ≢ some 0
exists-set_ex r r' now ttl k h later alive =
    let e : r' ≡ (k, now + ttl * 1000) ∷ r = cc h in
    rw e (held-now r k (now + ttl * 1000) later alive)

pub exists-set_ex_other :
    (r r' : List (String × ℕ)) (now ttl : ℕ) (k j : String)
    → some ((k, now + ttl * 1000) ∷ r) ≡ some r'
    → (k == j) ≡ false
    → (later : ℕ) → some (count (held r' later j)) ≡ some (count (held r later j))
exists-set_ex_other r r' now ttl k j h other later =
    let e : r' ≡ (k, now + ttl * 1000) ∷ r = cc h in rw (e, other) refl

abbrev denylist : Denylist
denylist = record {
  Redis = List (String × ℕ);
  set_ex = λ r now k ttl. some ((k, now + ttl * 1000) ∷ r);
  exists = λ r now k. some (count (held r now k));
  exists-set_ex = exists-set_ex;
  exists-set_ex_other = exists-set_ex_other;
}

-- A token is its payload, good until its expiry.
abbrev good : Payload → ℕ → Option ℕ → Option Payload
good p now none = some p
good p now (some e) = if ltb now (e * 1000) then some p else none

abbrev expiry : ℕ → Option ℕ → Option ℕ
expiry now none = none
expiry now (some seconds) = some (now / 1000 + seconds)

pub good-same : (t : Payload) (now : ℕ) (e : Option ℕ) (p : Payload) → good t now e ≡ some p → t ≡ p
good-same t now none p h = cc h
good-same t now (some e) p h = ground arith

alive-before :
    (t p : Payload) (o : Option ℕ) (now e : ℕ) → good t now o ≡ some p → o ≡ some e → now < e * 1000
alive-before t p none now e h x = cc x
alive-before t p (some d) now e h x = ground (arith, x)

pub good-exp :
    (t : Payload) (now e : ℕ) (p : Payload)
    → good t now t.exp ≡ some p
    → p.exp ≡ some e
    → now < e * 1000
good-exp t now e p h x =
    let same : t.exp ≡ some e = ap Payload.exp (good-same t now t.exp p h) ∙ x in
    alive-before t p t.exp now e h same

pub good-signed : (p : Payload) (now e : ℕ) → now < e * 1000 → good p now (some e) ≡ some p
good-signed p now e h = ground arith

pub good-payload :
    (t : Payload) (now later : ℕ) (p q : Payload)
    → good t now t.exp ≡ some p
    → good t later t.exp ≡ some q
    → p ≡ q
good-payload t now later p q h i = sym (good-same t now t.exp p h) ∙ good-same t later t.exp q i

pub random_int_bound : (n : ℕ) → n % 1000000 < 1000000
random_int_bound n = omega arith

abbrev crypto : Crypto
crypto = record {
  hash = λ p. "hash of " ++ p;
  compare = λ p h. ("hash of " ++ p) == h;
  compare-hash = λ p. eq_refl ("hash of " ++ p);
  sha256 = λ t. "digest of " ++ t;
  Token = Payload;
  sign = λ p seconds jti now. record p { jti = jti; exp = expiry now seconds };
  verify = λ t now. good t now t.exp;
  verify-sign = λ p seconds j now later h.
      good-signed (record p { jti = some j; exp = some (now / 1000 + seconds) }) later
        (now / 1000 + seconds) h;
  verify-payload = good-payload;
  verify-exp = good-exp;
  uuid = λ n. if ltb n 1 then "uuid-0" else if ltb n 2 then "uuid-1" else "uuid-n";
  object_id = λ n. "new-id";
  random_int = λ n. n % 1000000;
  random_int_bound = random_int_bound;
}

-- A cache that holds nothing.
abbrev cache : Cache
cache = record {
  Cached = Unit {0};
  get_role = λ c now n. none;
  set_role = λ c now n r. c;
  get_permission = λ c now n. none;
  set_permission = λ c now n p. c;
  get_user = λ c now key. none;
  set_user = λ c now key u. c;
  get_role-set_user = λ c now later key u name. refl;
}

abbrev catalog : List String → List Permission
catalog [] = []
catalog (n ∷ ns) =
    let rest = catalog ns in
    if n == "user:read" then record { id = "p1"; name = "user:read" } ∷ rest else rest

abbrev pub env : Env
env = record {
  roles = roles;
  find_permissions = λ ns. catalog ns;
  cache = cache;
  users = users;
  denylist = denylist;
  crypto = crypto;
  max_login_attempts = none;
  lockout_duration_minutes = none;
}

-- A user, whose password is `pw`, with the given id, address and tokens.
abbrev pub plain : String → String → User
plain id email = record {
  id = id;
  name = "Ann";
  last_name = "Lee";
  email = email;
  user_name = id;
  password = "hash of pw";
  role = user;
  permissions = [];
  is_active = true;
  session_epoch = 0;
  reset_password_token = none;
  reset_password_expires = none;
  email_verification_token = none;
  email_verification_expires = none;
  pending_email = none;
  pending_email_token = none;
  pending_email_expires = none;
  email_change_code_hash = none;
  email_change_code_expires = none;
  email_change_code_attempts = 0;
  email_change_code_sent_at = none;
  previous_email = none;
  email_revert_token = none;
  email_revert_expires = none;
  failed_login_attempts = 0;
  locked_until = none;
  deleted_at = none;
  created_at = 0;
}

-- A world at time 1000 with two users, some writes left, and sessions or not.
abbrev pub world : User → User → ℕ → Bool → World env
world u v budget sessions = record {
  users = record { first = some u; second = some v; budget = budget; sessions = sessions };
  session = none;
  redis = [];
  roles = λ k. none;
  cached = tt;
  events = [];
  drawn = 0;
  now = 1000;
}
