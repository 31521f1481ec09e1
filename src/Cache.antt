-- ===== src/Cache.antt =====
-- config/cache/cache.service.ts: values with a deadline, in Redis.
pub mod Cells
pub mod Drops
pub mod Sweep
pub mod Refines
pub mod Answers
pub mod Rounds
use Prim.Native.String
use Prim.Native.String.{slice}
use text.Mathlib.Text.{starts_with}
use api_user.Prelude.{
  ℕ, zero, suc, ◌+◌, ◌*◌, ◌/◌, String, ◌≡◌, Bool, true, false, ◌&&◌, Option, none, some, List, [],
  ◌∷◌, length, get_or, is_some, ltb, any, nat_eq, ◌==◌, if◌then◌else◌,
}
use api_user.Redis
use api_user.Redis.{Client, codes}

-- `CacheEntry`
pub record CacheEntry (V : Type 0) : Type 0 where
  pub value : V
  pub expires_at : Option ℕ

-- Redis, and `JSON.stringify` and `JSON.parse` of entries; a text that does not parse as an entry is
-- `none`.
pub record Outside : Type 1 where
  pub client : Client
  pub V : Type 0
  pub stringify : CacheEntry V → String
  pub parse : String → Option (CacheEntry V)
  pub parse-stringify : (e : CacheEntry V) → parse (stringify e) ≡ some e

abbrev pub default_ttl_seconds : ℕ
default_ttl_seconds = 300

abbrev pub prefixed_key : String → String
prefixed_key key = String.◌++◌ "cache:" key

-- `pattern.includes('*')`
abbrev pub is_wildcard : String → Bool
is_wildcard pattern = any (λ c. nat_eq c b'*') (codes pattern)

-- `Math.ceil(ms / 1000)`
abbrev pub seconds : ℕ → ℕ
seconds ms = (ms + 999) / 1000

abbrev pub effective_ttl : Option ℕ → ℕ
effective_ttl ttl_ms = get_or ttl_ms (default_ttl_seconds * 1000)

-- `pattern.replace(/^cache:/, '')`
abbrev pub stripped : String → String
stripped pattern =
    if starts_with pattern "cache:"
    then slice pattern (String.len "cache:") (String.len pattern)
    else pattern

module _ (o : Outside) where
  pub record CacheState : Type 0 where
    pub redis : o.client.State
    pub hits : ℕ
    pub misses : ℕ
    pub now : ℕ

  abbrev pub Entry : Type 0
  Entry = CacheEntry o.V

  -- `entry.expiresAt && now > entry.expiresAt`
  abbrev pub past : ℕ → Option ℕ → Bool
  past now none = false
  past now (some zero) = false
  past now (some (suc d)) = ltb (suc d) now

  abbrev pub missed : CacheState → Option o.V × CacheState
  missed w = (none, record w { misses = w.misses + 1 })

  abbrev pub deleted : String → CacheState → CacheState
  deleted key w = record w {
    redis = get_or (Redis.del o.client w.redis (prefixed_key key)) w.redis;
  }

  -- A miss counts once, also when the deletion of the entry fails.
  unfoldable pub answer : String → Option Entry → CacheState → Option o.V × CacheState
  answer key none w = missed w
  answer key (some e) w =
      if past w.now e.expires_at
      then missed (deleted key w)
      else (some e.value, record w { hits = w.hits + 1 })

  unfoldable pub read : String → Option (Option String) → CacheState → Option o.V × CacheState
  unfolding answer
  read key none w = missed w
  read key (some none) w = missed w
  read key (some (some raw)) w = answer key (o.parse raw) w

  unfoldable pub get : String → CacheState → Option o.V × CacheState
  unfolding read
  get key w = read key (Redis.get o.client w.redis w.now (prefixed_key key)) w

  abbrev pub new_entry : o.V → Option ℕ → ℕ → Entry
  new_entry value ttl_ms now = record {
    value = value;
    expires_at = some (now + effective_ttl ttl_ms);
  }

  unfoldable pub set : String → o.V → Option ℕ → CacheState → CacheState
  set key value ttl_ms w = record w {
    redis =
        get_or
          (Redis.set o.client w.redis w.now (prefixed_key key)
            (o.stringify (new_entry value ttl_ms w.now)) (some (seconds (effective_ttl ttl_ms))))
          w.redis;
  }

  unfoldable pub del : String → CacheState → CacheState
  del key w = deleted key w

  abbrev pub invalidated : Option (o.client.State × ℕ) → CacheState → ℕ × CacheState
  invalidated none w = (0, w)
  invalidated (some (r, n)) w = (n, record w { redis = r })

  unfoldable pub invalidate_pattern_atomically : String → CacheState → ℕ × CacheState
  invalidate_pattern_atomically pattern w = invalidated (o.client.del_matching w.redis pattern) w

  unfoldable pub handle_invalidation_payload : String → CacheState → ℕ × CacheState
  unfolding del invalidate_pattern_atomically
  handle_invalidation_payload pattern w =
      if is_wildcard pattern
      then invalidate_pattern_atomically pattern w
      else (1, del (stripped pattern) w)

  -- `Promise.all` of the deletions: all are asked for, and whether all succeeded.
  abbrev pub del_keys : List String → o.client.State → Bool × o.client.State
  del_keys [] r = (true, r)
  del_keys (k ∷ ks) r =
      let deletion = Redis.del o.client r k in
      let rest = del_keys ks (get_or deletion r) in (is_some deletion && rest.0, rest.1)

  -- The end of a round of `delByPattern`, with the count so far. An error makes the count 0.
  abbrev pub after_round :
      String → ℕ → Bool → (Option ℕ × o.client.State) → o.client.State → Option ℕ × o.client.State
  after_round next total all_deleted more r =
      if all_deleted then (if next == "0" then (some total, r) else more) else (some 0, r)

  -- The loop of `delByPattern`, on fuel for its rounds: `none` when it is spent.
  unfoldable pub del_rounds : ℕ → String → String → ℕ → o.client.State → Option ℕ × o.client.State
  del_rounds zero pattern cursor total r = (none, r)
  del_rounds (suc fuel) pattern cursor total r = elim (o.client.scan r cursor pattern) [
    | none ↦ (some 0, r)
    | some (next, keys) ↦
        after_round next (total + length keys) (del_keys keys r).0
          (del_rounds fuel pattern next (total + length keys) (del_keys keys r).1)
          (del_keys keys r).1
  ]

  unfoldable pub del_by_pattern : ℕ → String → CacheState → Option ℕ × CacheState
  unfolding del_rounds
  del_by_pattern fuel pattern w =
      let done = del_rounds fuel pattern "0" 0 w.redis in (done.0, record w { redis = done.1 })

  -- A deletion in `cleanupExpired`: where it fails inside the `try`, the `catch` asks once more.
  abbrev pub del_again : String → Option o.client.State → o.client.State → Option o.client.State
  del_again key (some r') r = some r'
  del_again key none r = Redis.del o.client r key

  -- What becomes of a key that SCAN named; `none` when an error leaves the loops.
  unfoldable pub clean : ℕ → String → Option Entry → o.client.State → Option o.client.State
  clean now key none r = Redis.del o.client r key
  clean now key (some e) r =
      if past now e.expires_at then del_again key (Redis.del o.client r key) r else some r

  unfoldable pub clean_read :
      ℕ → String → Option (Option String) → o.client.State → Option o.client.State
  unfolding clean
  clean_read now key none r = none
  clean_read now key (some none) r = some r
  clean_read now key (some (some raw)) r = clean now key (o.parse raw) r

  -- The state in which the loop over the keys ends, and whether it came to its end.
  unfoldable pub clean_keys : ℕ → List String → o.client.State → Bool × o.client.State
  unfolding clean_read
  clean_keys now [] r = (true, r)
  clean_keys now (k ∷ ks) r =
      let rest = clean_keys now ks in
      elim (clean_read now k (Redis.get o.client r now k) r) [
        | none ↦ (false, r)
        | some r' ↦ rest r'
      ]

  unfoldable pub clean_rounds : ℕ → ℕ → String → o.client.State → o.client.State
  unfolding clean_keys
  clean_rounds zero now cursor r = r
  clean_rounds (suc fuel) now cursor r = elim (o.client.scan r cursor "cache:*") [
    | none ↦ r
    | some (next, keys) ↦
        let done = clean_keys now keys r in
        let more = clean_rounds fuel now next done.1 in
        if done.0 then (if next == "0" then done.1 else more) else done.1
  ]

  unfoldable pub cleanup_expired : ℕ → CacheState → CacheState
  unfolding clean_rounds
  cleanup_expired fuel w = record w { redis = clean_rounds fuel w.now "0" w.redis }

  -- `stats` without the ratio of hits, and `resetStats`
  abbrev pub stats : CacheState → ℕ × ℕ
  stats w = (w.hits, w.misses)

  abbrev pub reset_stats : CacheState → CacheState
  reset_stats w = record w { hits = 0; misses = 0 }
