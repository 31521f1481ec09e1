-- ===== src/Env.antt =====
-- What the program takes from outside: the users collection of MongoDB, the token denylist of
-- Redis, bcrypt, SHA-256, the JSON web token library, and random values. Each comes with the
-- documented behaviour that the code relies on.
use api_user.Prelude.{
  ℕ, ◌+◌, ◌*◌, ◌/◌, ◌<◌, String, ◌≡◌, ◌≢◌, Bool, true, false, Option, none, some, List, ◌==◌,
  if◌then◌else◌,
}
use mathlib.Core.Option
use api_user.Users.{UserRole, User}
use api_user.Roles.{Role, Permission}

-- `JwtPayload` and `RefreshTokenPayload` of auth/auth.service.ts. A verified payload may lack the
-- claims that only refresh tokens carry.
pub record Payload : Type 0 where
  pub sub : String
  pub email : String
  pub role : UserRole
  pub jti : Option String
  pub tv : Option ℕ
  pub exp : Option ℕ

-- The documented behaviour of the users collection. `doc s k` is the document under an id in a
-- state `s` of the collection; a write is `none` when the driver throws.
pub record Users : Type 1 where
  pub State : Type 0
  pub doc : State → String → Option User
  pub find_one : State → (User → Bool) → Option User
  pub find : State → (User → Bool) → List User
  pub update_one : State → String → (User → User) → Option State
  pub insert_one : State → User → Option State
  -- whether the server gives sessions, and the end of a transaction over its snapshot
  pub start_session : State → Bool
  pub commit : State → Option State
  pub doc-id : (s : State) (k : String) (u : User) → doc s k ≡ some u → u.id ≡ k
  pub find_one-doc :
      (s : State) (p : User → Bool) (u : User) → find_one s p ≡ some u → doc s u.id ≡ some u
  pub find_one-test : (s : State) (p : User → Bool) (u : User) → find_one s p ≡ some u → p u ≡ true
  pub find_one-none :
      (s : State) (p : User → Bool) (k : String) (u : User)
      → find_one s p ≡ none
      → doc s k ≡ some u
      → p u ≡ false
  pub doc-update_one :
      (s t : State) (k : String) (f : User → User)
      → ((u : User) → (f u).id ≡ u.id)
      → update_one s k f ≡ some t
      → (j : String) → doc t j ≡ (if k == j then Option.map f (doc s j) else doc s j)
  pub doc-insert_one :
      (s t : State) (u : User)
      → insert_one s u ≡ some t
      → (j : String) → doc t j ≡ (if u.id == j then some u else doc s j)
  pub insert_one-fresh : (s t : State) (u : User) → insert_one s u ≡ some t → doc s u.id ≡ none
  pub doc-commit : (s t : State) → commit s ≡ some t → (j : String) → doc t j ≡ doc s j

-- The Redis keys of the denylist; an answer is `none` when the store does not answer. Times are
-- in milliseconds, times to live in seconds.
pub record Denylist : Type 1 where
  pub Redis : Type 0
  pub set_ex : Redis → ℕ → String → ℕ → Option Redis
  pub exists : Redis → ℕ → String → Option ℕ
  pub exists-set_ex :
      (r r' : Redis) (now ttl : ℕ) (k : String)
      → set_ex r now k ttl ≡ some r'
      → (later : ℕ) → later < now + ttl * 1000
      → exists r' later k ≢ some 0
  -- another key is not touched
  pub exists-set_ex_other :
      (r r' : Redis) (now ttl : ℕ) (k j : String)
      → set_ex r now k ttl ≡ some r'
      → (k == j) ≡ false
      → (later : ℕ) → exists r' later j ≡ exists r later j

-- bcrypt, SHA-256, `jsonwebtoken` and the random sources, with the values that they draw.
pub record Crypto : Type 1 where
  pub hash : String → String
  pub compare : String → String → Bool
  pub compare-hash : (p : String) → compare p (hash p) ≡ true
  pub sha256 : String → String
  -- the texts that are tokens; the program hands them on and never reads into them
  pub Token : Type 0
  -- `sign(payload, { expiresIn, jwtid })` and `verify(token)`, at a time in milliseconds; a token
  -- that has expired or was not signed here is `none`
  pub sign : Payload → Option ℕ → Option String → ℕ → Token
  pub verify : Token → ℕ → Option Payload
  pub verify-sign :
      (p : Payload) (seconds : ℕ) (j : String) (now later : ℕ)
      → later < (now / 1000 + seconds) * 1000
      → verify (sign p (some seconds) (some j) now) later
        ≡ some (record p { jti = some j; exp = some (now / 1000 + seconds) })
  -- a payload is a function of the token, and is given out before its expiry alone
  pub verify-payload :
      (t : Token) (now later : ℕ) (p q : Payload)
      → verify t now ≡ some p
      → verify t later ≡ some q
      → p ≡ q
  pub verify-exp :
      (t : Token) (now e : ℕ) (p : Payload)
      → verify t now ≡ some p
      → p.exp ≡ some e
      → now < e * 1000
  pub uuid : ℕ → String
  pub object_id : ℕ → String
  pub random_int : ℕ → ℕ
  pub random_int_bound : (n : ℕ) → random_int n < 1000000

-- The roles collection, as the users collection above.
pub record Roles : Type 1 where
  pub State : Type 0
  pub doc : State → String → Option Role
  pub find_one : State → (Role → Bool) → Option Role
  pub find : State → (Role → Bool) → List Role
  pub update_one : State → String → (Role → Role) → Option State
  pub insert_one : State → Role → Option State
  pub delete_one : State → String → Option State
  pub doc-update_one :
      (s t : State) (k : String) (f : Role → Role)
      → update_one s k f ≡ some t
      → (j : String) → doc t j ≡ (if k == j then Option.map f (doc s j) else doc s j)
  pub doc-insert_one :
      (s t : State) (r : Role)
      → insert_one s r ≡ some t
      → (j : String) → doc t j ≡ (if r.id == j then some r else doc s j)
  pub insert_one-fresh : (s t : State) (r : Role) → insert_one s r ≡ some t → doc s r.id ≡ none
  pub doc-delete_one :
      (s t : State) (k : String)
      → delete_one s k ≡ some t
      → (j : String) → doc t j ≡ (if k == j then none else doc s j)

-- The cached users and lookups by name, where the outer `none` is a miss or a store that fails, and an inner
-- one is a cached absence. A write that fails leaves the cache as it was.
pub record Cache : Type 1 where
  pub Cached : Type 0
  pub get_role : Cached → ℕ → String → Option (Option Role)
  pub set_role : Cached → ℕ → String → Option Role → Cached
  pub get_permission : Cached → ℕ → String → Option (Option Permission)
  pub set_permission : Cached → ℕ → String → Option Permission → Cached
  -- the cached users, where `none` is a miss or a store that fails
  pub get_user : Cached → ℕ → String → Option User
  pub set_user : Cached → ℕ → String → User → Cached
  pub get_role-set_user :
      (c : Cached) (now later : ℕ) (key : String) (u : User) (name : String)
      → get_role (set_user c now key u) later name ≡ get_role c later name

pub record Env : Type 1 where
  pub roles : Roles
  -- the permissions of the catalog whose names are among the given ones
  pub find_permissions : List String → List Permission
  pub cache : Cache
  pub users : Users
  pub denylist : Denylist
  pub crypto : Crypto
  -- `MAX_LOGIN_ATTEMPTS` and `LOCKOUT_DURATION_MINUTES`, where the environment sets them
  pub max_login_attempts : Option ℕ
  pub lockout_duration_minutes : Option ℕ
