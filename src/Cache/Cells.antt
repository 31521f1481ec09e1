-- ===== src/Cache/Cells.antt =====
-- What config/cache/cache.service.ts keeps under a key, as a value with a deadline.

use api_user.Prelude.{
  ℕ, zero, suc, ◌+◌, ◌*◌, ◌≤◌, ◌<◌, String, ◌≡◌, ◌⊎◌, inl, inr, refl, ◌∙◌, sym, false, Option, none,
  some, ltb, ◌==◌, arith, Bool-cases,
}
use mathlib.Core.Path.{subst}
use text.Mathlib.TextEquality.{eq_iff}
use text.Mathlib.TextLemmas.{append_cancel_left}
use api_user.Redis
use api_user.Redis.{held, expiry}
use api_user.Cache.{Outside, prefixed_key, CacheState, seconds, effective_ttl, new_entry}

pub prefixed_key-eq : (j k : String) → (j == k) ≡ false → (prefixed_key j == prefixed_key k) ≡ false
prefixed_key-eq j k other = elim (Bool-cases (prefixed_key j == prefixed_key k)) [
  | inl same ↦
      let keys =
        append_cancel_left "cache:" j k ((eq_iff (prefixed_key j) (prefixed_key k)).0 same) in
      cc (other, (eq_iff j k).1 keys)
  | inr different ↦ different
]

module _ (o : Outside) where
  -- Nothing, or a value and the time at which it expires.
  abbrev pub Cell : Type 0
  Cell = Option (o.V × ℕ)

  abbrev pub stored : o.V → ℕ → String
  stored v deadline = o.stringify (record { value = v; expires_at = some deadline })

  -- What Redis may answer for a cell at a time: until the deadline the entry, then that or nothing.
  abbrev pub Agrees : ℕ → Cell → Option String → Type 0
  Agrees time none r = r ≡ none
  Agrees time (some (v, deadline)) r =
      (time < deadline → r ≡ some (stored v deadline))
      × ((r ≡ none) ⊎ (r ≡ some (stored v deadline)))

  -- A deadline is a date after 1970, which the code tests for truth.
  abbrev pub Dated : Cell → Type 0
  Dated none = Unit
  Dated (some (v, deadline)) = 0 < deadline

  -- Redis answers for a key as a cell says, from now on.
  pub record Represents (w : CacheState o) (key : String) (cell : Cell) : Type 0 where
    pub past_epoch : 0 < w.now
    pub dated : Dated cell
    pub agrees :
        (time : ℕ)
        → w.now ≤ time
        → (r : Option String) → o.client.get w.redis time (prefixed_key key) ≡ some r
        → Agrees time cell r

  not_before : (a b : ℕ) → ltb a b ≡ false → b ≤ a
  not_before a b h = ground (arith, h)

  seconds-le : (ms : ℕ) → ms ≤ seconds ms * 1000
  seconds-le ms = omega arith

  held-Agrees :
      (now ttl : ℕ) (v : o.V) (time n : ℕ)
      → seconds ttl ≡ n
      → now ≤ time
      → Agrees time
          (some (v, now + ttl))
          (held now (expiry o.client (some n)) time (stored v (now + ttl)))
  held-Agrees now ttl v time zero e from = (λ soon. refl, inr refl)
  held-Agrees now ttl v time (suc n) e from = elim (Bool-cases (ltb time (now + suc n * 1000))) [
    | inl live ↦ rw live (λ soon. refl, inr refl)
    | inr dead ↦
        rw dead (
          λ soon. absurd (omega (arith, soon, e, seconds-le ttl, not_before time _ dead)),
          inl refl,
        )
  ]

  -- A value that was set is there under its key, and the other keys keep theirs.
  pub set-Represents :
      (key : String) (v : o.V) (ttl_ms : Option ℕ) (w : CacheState o) (r : o.client.State)
      → 0 < w.now
      → Redis.set o.client w.redis w.now
          (prefixed_key key)
          (o.stringify (new_entry o v ttl_ms w.now))
          (some (seconds (effective_ttl ttl_ms)))
        ≡ some r
      → Represents (record w { redis = r }) key (some (v, w.now + effective_ttl ttl_ms))
  unfolding Redis.set
  set-Represents key v ttl_ms w r epoch up = record {
    past_epoch = epoch;
    dated = omega (arith, epoch);
    agrees = λ time from a answered.
        subst (Agrees time (some (v, w.now + effective_ttl ttl_ms)))
          (sym (o.client.get-set w.redis r w.now (prefixed_key key) _ _ up time from a answered))
          (held-Agrees w.now (effective_ttl ttl_ms) v time _ refl from);
  }

  -- Redis answers for another key as before.
  pub same-Represents :
      (w : CacheState o) (r : o.client.State) (h m now : ℕ) (key : String) (cell : Cell)
      → w.now ≤ now
      → ((time : ℕ)
          → o.client.get r time (prefixed_key key) ≡ o.client.get w.redis time (prefixed_key key))
      → Represents w key cell
      → Represents (record { redis = r; hits = h; misses = m; now = now }) key cell
  same-Represents w r h m now key cell from_now same known = record {
    past_epoch = omega (arith, known.past_epoch, from_now);
    dated = known.dated;
    agrees = λ time from a answered.
        known.agrees time (omega (arith, from, from_now)) a (sym (same time) ∙ answered);
  }
