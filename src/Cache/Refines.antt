-- ===== src/Cache/Refines.antt =====
-- Runs of config/cache/cache.service.ts against a dictionary of values with deadlines.
use api_user.Prelude.{
  ℕ, ◌+◌, ◌<◌, String, ◌≡◌, inl, inr, refl, Bool, true, false, ◌&&◌, Option, none, some, List, [],
  ◌∷◌, get_or, is_some, ◌==◌, if◌then◌else◌, arith, Bool-cases,
}
use mathlib.Core.Path.{subst}
use text.Mathlib.TextEquality.{eq_iff}
use api_user.Redis
use api_user.Cache.{
  Outside, prefixed_key, is_wildcard, stripped, seconds, effective_ttl, CacheState, new_entry, get,
  set, del, invalidated, invalidate_pattern_atomically, handle_invalidation_payload,
  cleanup_expired,
}
use api_user.Cache.Cells.{Cell, Represents, set-Represents, same-Represents, prefixed_key-eq}
use api_user.Cache.Drops.{get-Represents}
use api_user.Cache.Sweep.{cleanup_expired-Represents}

module _ (o : Outside) where
  -- `set`, `get`, `del`, an invalidation event, a round of the timer, and time that passes.
  pub data Operation : Type 0 where
    put : (key : String) (value : o.V) (ttl_ms : Option ℕ) → Operation
    fetch : (key : String) → Operation
    erase : (key : String) → Operation
    invalidate : (pattern : String) → Operation
    sweep : (fuel : ℕ) → Operation
    wait : (n : ℕ) → Operation

  unfoldable pub apply : Operation → CacheState o → CacheState o
  apply (put key value ttl_ms) w = set o key value ttl_ms w
  apply (fetch key) w = (get o key w).1
  apply (erase key) w = del o key w
  apply (invalidate pattern) w = (handle_invalidation_payload o pattern w).1
  apply (sweep fuel) w = cleanup_expired o fuel w
  apply (wait n) w = record w { now = w.now + n }

  unfoldable pub run : List Operation → CacheState o → CacheState o
  unfolding apply
  run [] w = w
  run (op ∷ ops) w = run ops (apply op w)

  -- The specification: which operations are about a key, what they put under it, and whether Redis
  -- took the command.
  abbrev pub touches : Operation → String → Bool
  touches (put j value ttl_ms) key = j == key
  touches (fetch j) key = false
  touches (erase j) key = j == key
  touches (invalidate pattern) key =
      if is_wildcard pattern
      then o.client.matches pattern (prefixed_key key)
      else stripped pattern == key
  touches (sweep fuel) key = false
  touches (wait n) key = false

  abbrev pub content : Operation → ℕ → Cell o
  content (put j value ttl_ms) now = some (value, now + effective_ttl ttl_ms)
  content (fetch j) now = none
  content (erase j) now = none
  content (invalidate pattern) now = none
  content (sweep fuel) now = none
  content (wait n) now = none

  abbrev pub accepted : Operation → CacheState o → Bool
  accepted (put j value ttl_ms) w = is_some (
      Redis.set o.client w.redis w.now (prefixed_key j)
        (o.stringify (new_entry o value ttl_ms w.now)) (some (seconds (effective_ttl ttl_ms))))
  accepted (fetch j) w = true
  accepted (erase j) w = is_some (Redis.del o.client w.redis (prefixed_key j))
  accepted (invalidate pattern) w =
      if is_wildcard pattern
      then is_some (o.client.del_matching w.redis pattern)
      else is_some (Redis.del o.client w.redis (prefixed_key (stripped pattern)))
  accepted (sweep fuel) w = true
  accepted (wait n) w = true

  abbrev pub cell_after : Operation → CacheState o → String → Cell o → Cell o
  cell_after op w key cell = if touches op key && accepted op w then content op w.now else cell

  -- The dictionary at a key after a run.
  unfoldable pub cell_run : List Operation → CacheState o → String → Cell o → Cell o
  unfolding apply
  cell_run [] w key cell = cell
  cell_run (op ∷ ops) w key cell = cell_run ops (apply op w) key (cell_after op w key cell)

  put-Represents :
      (j : String) (v : o.V) (ttl_ms : Option ℕ) (w : CacheState o) (key : String) (cell : Cell o)
      (r : Option o.client.State)
      → Redis.set o.client w.redis w.now
          (prefixed_key j)
          (o.stringify (new_entry o v ttl_ms w.now))
          (some (seconds (effective_ttl ttl_ms)))
        ≡ r
      → Represents o w key cell
      → Represents o
          (record w { redis = get_or r w.redis })
          key
          (if (j == key) && is_some r then some (v, w.now + effective_ttl ttl_ms) else cell)
  unfolding Redis.set
  put-Represents j v ttl_ms w key cell none up known = elim (Bool-cases (j == key)) [
    | inl own ↦ rw own known
    | inr other ↦ rw other known
  ]
  put-Represents j v ttl_ms w key cell (some r) up known = elim (Bool-cases (j == key)) [
    | inl own ↦ rw own (
        subst
          (λ k. Represents o (record w { redis = r }) k (some (v, w.now + effective_ttl ttl_ms)))
          ((eq_iff j key).0 own) (set-Represents o j v ttl_ms w r known.past_epoch up))
    | inr other ↦ rw other (
        same-Represents o w r w.hits w.misses w.now key cell (omega arith)
          (o.client.get-set_other w.redis r w.now (prefixed_key j) _ _ (prefixed_key key) up
            (prefixed_key-eq j key other))
          known)
  ]

  -- Nothing is under a key for good.
  empty-Represents :
      (w : CacheState o) (r : o.client.State) (key : String)
      → 0 < w.now
      → ((time : ℕ) (a : Option String)
          → o.client.get r time (prefixed_key key) ≡ some a
          → a ≡ none)
      → Represents o (record w { redis = r }) key none
  empty-Represents w r key epoch empty = record {
    past_epoch = epoch;
    dated = tt;
    agrees = λ time from a answered. empty time a answered;
  }

  erase-Represents :
      (j : String) (w : CacheState o) (key : String) (cell : Cell o) (r : Option o.client.State)
      → o.client.del w.redis (prefixed_key j) ≡ r
      → Represents o w key cell
      → Represents o
          (record w { redis = get_or r w.redis })
          key
          (if (j == key) && is_some r then none else cell)
  erase-Represents j w key cell none gone known = elim (Bool-cases (j == key)) [
    | inl own ↦ rw own known
    | inr other ↦ rw other known
  ]
  erase-Represents j w key cell (some r) gone known = elim (Bool-cases (j == key)) [
    | inl own ↦ rw own (
        subst (λ k. Represents o (record w { redis = r }) k none) ((eq_iff j key).0 own)
          (empty-Represents w r j known.past_epoch
            (o.client.get-del w.redis r (prefixed_key j) gone)))
    | inr other ↦ rw other (
        same-Represents o w r w.hits w.misses w.now key cell (omega arith)
          (o.client.get-del_other w.redis r (prefixed_key j) (prefixed_key key) gone
            (prefixed_key-eq j key other))
          known)
  ]

  matching-Represents :
      (pattern : String) (w : CacheState o) (key : String) (cell : Cell o)
      (r : Option (o.client.State × ℕ))
      → o.client.del_matching w.redis pattern ≡ r
      → Represents o w key cell
      → Represents o
          (invalidated o r w).1
          key
          (if o.client.matches pattern (prefixed_key key) && is_some r then none else cell)
  matching-Represents pattern w key cell none gone known =
      elim (Bool-cases (o.client.matches pattern (prefixed_key key))) [
        | inl own ↦ rw own known
        | inr other ↦ rw other known
      ]
  matching-Represents pattern w key cell (some (r, n)) gone known =
      elim (Bool-cases (o.client.matches pattern (prefixed_key key))) [
        | inl own ↦ rw own (
            empty-Represents w r key known.past_epoch (λ time a answered.
              o.client.get-del_matching w.redis r pattern n gone (prefixed_key key) time a own
                answered))
        | inr other ↦ rw other (
            same-Represents o w r w.hits w.misses w.now key cell (omega arith)
              (o.client.get-del_matching_other w.redis r pattern n gone (prefixed_key key) other)
              known)
      ]

  invalidate-Represents :
      (pattern : String) (w : CacheState o) (key : String) (cell : Cell o)
      → Represents o w key cell
      → Represents o
          (handle_invalidation_payload o pattern w).1
          key
          (cell_after (invalidate pattern) w key cell)
  unfolding handle_invalidation_payload del invalidate_pattern_atomically Redis.del
  invalidate-Represents pattern w key cell known = elim (Bool-cases (is_wildcard pattern)) [
    | inl wild ↦
        rw wild (
          matching-Represents pattern w key cell (o.client.del_matching w.redis pattern) refl known)
    | inr exact ↦ rw exact (
        erase-Represents (stripped pattern) w key cell
          (o.client.del w.redis (prefixed_key (stripped pattern))) refl known)
  ]

  apply-Represents :
      (op : Operation) (w : CacheState o) (key : String) (cell : Cell o)
      → Represents o w key cell
      → Represents o (apply op w) key (cell_after op w key cell)
  unfolding apply set del Redis.del
  apply-Represents (put j v ttl_ms) w key cell known =
      put-Represents j v ttl_ms w key cell _ refl known
  apply-Represents (fetch j) w key cell known = get-Represents o j w key cell known
  apply-Represents (erase j) w key cell known =
      erase-Represents j w key cell (o.client.del w.redis (prefixed_key j)) refl known
  apply-Represents (invalidate pattern) w key cell known =
      invalidate-Represents pattern w key cell known
  apply-Represents (sweep fuel) w key cell known =
      cleanup_expired-Represents o fuel w key cell known
  apply-Represents (wait n) w key cell known =
      same-Represents o w w.redis w.hits w.misses (w.now + n) key cell (omega arith) (λ time. refl)
        known

  pub run-Represents :
      (ops : List Operation) (w : CacheState o) (key : String) (cell : Cell o)
      → Represents o w key cell
      → Represents o (run ops w) key (cell_run ops w key cell)
  unfolding run cell_run
  run-Represents [] w key cell known = known
  run-Represents (op ∷ ops) w key cell known =
      run-Represents ops (apply op w) key (cell_after op w key cell)
        (apply-Represents op w key cell known)
