-- ===== src/Redis.antt =====
-- config/redis/redis.service.ts, over the client library: the documented behaviour of the server's
-- commands GET, SET with and without EX, DEL, SCAN, and of the script with KEYS and DEL.
use Prim.Native.Char.{code}
use api_user.Prelude.{
  ℕ, zero, suc, ◌+◌, ◌*◌, ◌≤◌, ◌<◌, String, ◌≡◌, Bool, true, false, ◌&&◌, Option, none, some, List,
  [], ◌∷◌, ltb, nat_eq, ◌==◌, if◌then◌else◌,
}

-- The code units of a text that is not searched beyond ASCII.
abbrev pub codes : String → List ℕ
codes String.[] = []
codes (String.◌∷◌ c s) = code c ∷ codes s

abbrev pub same_codes : List ℕ → List ℕ → Bool
same_codes [] [] = true
same_codes [] (d ∷ t) = false
same_codes (c ∷ s) [] = false
same_codes (c ∷ s) (d ∷ t) = nat_eq c d && same_codes s t

abbrev pub All : (String → Type 0) → List String → Type 0
All P [] = Unit
All P (k ∷ ks) = P k × All P ks

-- What a key holds some time after it was set: times to live are in seconds, times in milliseconds.
abbrev pub held : ℕ → Option ℕ → ℕ → String → Option String
held now none later v = some v
held now (some ttl) later v = if ltb later (now + ttl * 1000) then some v else none

-- A command is `none` when the client rejects. Whether the server answers a GET does not depend on
-- what it stores.
pub record Client : Type 1 where
  pub State : Type 0
  pub get : State → ℕ → String → Option (Option String)
  pub set : State → ℕ → String → String → Option ℕ → Option State
  pub del : State → String → Option State
  -- SCAN with a cursor and a pattern, and the script; `matches` is the glob of the server
  pub matches : String → String → Bool
  pub scan : State → String → String → Option (String × List String)
  pub del_matching : State → String → Option (State × ℕ)
  pub get-set :
      (s t : State) (now : ℕ) (k v : String) (ttl : Option ℕ)
      → set s now k v ttl ≡ some t
      → (later : ℕ) → now ≤ later
      → (r : Option String) → get t later k ≡ some r
      → r ≡ held now ttl later v
  pub get-set_other :
      (s t : State) (now : ℕ) (k v : String) (ttl : Option ℕ) (j : String)
      → set s now k v ttl ≡ some t
      → (k == j) ≡ false
      → (later : ℕ) → get t later j ≡ get s later j
  pub get-del :
      (s t : State) (k : String)
      → del s k ≡ some t
      → (later : ℕ) (r : Option String) → get t later k ≡ some r
      → r ≡ none
  pub get-del_other :
      (s t : State) (k j : String)
      → del s k ≡ some t
      → (k == j) ≡ false
      → (later : ℕ) → get t later j ≡ get s later j
  -- how many more rounds a cursor takes at most: an iteration of a keyspace that does not grow ends
  pub rounds_left : String → ℕ
  pub scan-ends :
      (s : State) (cursor pattern next : String) (keys : List String)
      → scan s cursor pattern ≡ some (next, keys)
      → (next == "0") ≡ false
      → rounds_left next < rounds_left cursor
  pub scan-matches :
      (s : State) (cursor pattern next : String) (keys : List String)
      → scan s cursor pattern ≡ some (next, keys)
      → All (λ k. matches pattern k ≡ true) keys
  pub get-del_matching :
      (s t : State) (pattern : String) (n : ℕ)
      → del_matching s pattern ≡ some (t, n)
      → (j : String) (later : ℕ) (r : Option String) → matches pattern j ≡ true
      → get t later j ≡ some r
      → r ≡ none
  pub get-del_matching_other :
      (s t : State) (pattern : String) (n : ℕ)
      → del_matching s pattern ≡ some (t, n)
      → (j : String) → matches pattern j ≡ false
      → (later : ℕ) → get t later j ≡ get s later j

module _ (client : Client) where
  -- `get`, `set` and `del` of the service. A time to live of zero is no time to live.
  unfoldable pub get : client.State → ℕ → String → Option (Option String)
  get s now key = client.get s now key

  abbrev pub expiry : Option ℕ → Option ℕ
  expiry none = none
  expiry (some zero) = none
  expiry (some (suc n)) = some (suc n)

  unfoldable pub set : client.State → ℕ → String → String → Option ℕ → Option client.State
  set s now key value ttl_seconds = client.set s now key value (expiry ttl_seconds)

  unfoldable pub del : client.State → String → Option client.State
  del s key = client.del s key
