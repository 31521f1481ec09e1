-- ===== src/Cache/Drops.antt =====
-- What config/cache/cache.service.ts deletes by itself: entries past their deadline.
use api_user.Prelude.{
  ℕ, zero, suc, ◌≤◌, ◌<◌, String, ◌≡◌, ◌⊎◌, inl, inr, refl, ◌∙◌, sym, ap, Bool, true, false, Option,
  none, some, get_or, ◌==◌, arith, Bool-cases,
}
use text.Mathlib.TextEquality.{eq_iff}
use api_user.Redis
use api_user.Cache.{Outside, prefixed_key, CacheState, Entry, past, answer, read, get}
use api_user.Cache.Cells.{Cell, Agrees, Represents, same-Represents}

module _ (o : Outside) where
  abbrev pub Expired : ℕ → Cell o → Type 0
  Expired now none = Unit
  Expired now (some (v, deadline)) = deadline < now

  past-lt : (now d : ℕ) → 0 < d → past o now (some d) ≡ true → d < now
  past-lt now zero positive h = absurd (omega (arith, positive))
  past-lt now (suc d) positive h = ground (arith, h)

  abbrev expired_at : ℕ → Option (Entry o) → Bool
  expired_at now none = false
  expired_at now (some e) = past o now e.expires_at

  own-Expired :
      (w : CacheState o) (key raw : String) (e : Option (Entry o)) (cell : Cell o)
      → Represents o w key cell
      → Agrees o w.now cell (some raw)
      → o.parse raw ≡ e
      → (e ≡ none) ⊎ ((x : Entry o) × (e ≡ some x) × (past o w.now x.expires_at ≡ true))
      → Expired w.now cell
  own-Expired w key raw e none known agrees parsed gone = tt
  own-Expired w key raw e (some (v, d)) known (_, inl missing) parsed gone = cc missing
  own-Expired w key raw e (some (v, d)) known (_, inr same) parsed (inl bad) =
      cc (same, parsed, bad, o.parse-stringify (record { value = v; expires_at = some d }))
  own-Expired w key raw e (some (v, d)) known (_, inr same) parsed (inr (x, found, old)) =
      let entry : some x ≡ some (record { value = v; expires_at = some d }) =
        cc (same, parsed, found, o.parse-stringify (record { value = v; expires_at = some d })) in
      past-lt w.now d known.dated (ap (expired_at w.now) (sym entry) ∙ old)

  gone-Agrees :
      (now time : ℕ) (cell : Cell o) (a : Option String)
      → now ≤ time
      → Expired now cell
      → a ≡ none
      → Agrees o time cell a
  gone-Agrees now time none a from expired h = h
  gone-Agrees now time (some (v, d)) a from expired h =
      (λ soon. absurd (omega (arith, soon, from, expired)), inl h)

  -- A deletion of a Redis key keeps what a key is known to hold, if it is that of another key or the
  -- deadline has passed.
  pub drop-Represents :
      (w : CacheState o) (q : String) (r : o.client.State) (key : String) (cell : Cell o)
      → o.client.del w.redis q ≡ some r
      → ((q == prefixed_key key) ≡ true → Expired w.now cell)
      → Represents o w key cell
      → Represents o (record w { redis = r }) key cell
  drop-Represents w q r key cell gone expired known = elim (Bool-cases (q == prefixed_key key)) [
    | inl own ↦ record {
      past_epoch = known.past_epoch;
      dated = known.dated;
      agrees = λ time from a answered. gone-Agrees w.now time cell a from (expired own) (
          o.client.get-del w.redis r q gone time a
            (ap (o.client.get r time) ((eq_iff q (prefixed_key key)).0 own) ∙ answered));
    }
    | inr other ↦
        same-Represents o w r w.hits w.misses w.now key cell (omega arith)
          (o.client.get-del_other w.redis r q (prefixed_key key) gone other) known
  ]

  -- The deletion that `get` and the sweep ask for, whether or not it succeeds.
  try-Represents :
      (w : CacheState o) (q : String) (d : Option o.client.State) (key : String) (cell : Cell o)
      → o.client.del w.redis q ≡ d
      → ((q == prefixed_key key) ≡ true → Expired w.now cell)
      → Represents o w key cell
      → Represents o (record w { redis = get_or d w.redis }) key cell
  try-Represents w q none key cell gone expired known = known
  try-Represents w q (some r) key cell gone expired known =
      drop-Represents w q r key cell gone expired known

  -- What was read under a Redis key says that the entry is unreadable or past.
  abbrev pub Gone : ℕ → Option (Entry o) → Type 0
  Gone now e = (e ≡ none) ⊎ ((x : Entry o) × (e ≡ some x) × (past o now x.expires_at ≡ true))

  pub read-Expired :
      (w : CacheState o) (q raw : String) (key : String) (cell : Cell o)
      → Represents o w key cell
      → o.client.get w.redis w.now q ≡ some (some raw)
      → Gone w.now (o.parse raw)
      → (q == prefixed_key key) ≡ true
      → Expired w.now cell
  read-Expired w q raw key cell known answered gone own =
      let same = (eq_iff q (prefixed_key key)).0 own in
      own-Expired w key raw (o.parse raw) cell known
        (known.agrees w.now (omega arith) (some raw)
          (ap (o.client.get w.redis w.now) (sym same) ∙ answered))
        refl gone

  -- Counting a hit or a miss.
  counted-Represents :
      (w : CacheState o) (h m : ℕ) (key : String) (cell : Cell o)
      → Represents o w key cell
      → Represents o (record w { hits = h; misses = m }) key cell
  counted-Represents w h m key cell known =
      same-Represents o w w.redis h m w.now key cell (omega arith) (λ time. refl) known

  answer-Represents :
      (j raw : String) (e : Option (Entry o)) (w : CacheState o) (key : String) (cell : Cell o)
      → Represents o w key cell
      → o.client.get w.redis w.now (prefixed_key j) ≡ some (some raw)
      → o.parse raw ≡ e
      → Represents o (answer o j e w).1 key cell
  unfolding answer Redis.del
  answer-Represents j raw none w key cell known answered parsed =
      counted-Represents w w.hits _ key cell known
  answer-Represents j raw (some e) w key cell known answered parsed =
      elim (Bool-cases (past o w.now e.expires_at)) [
        | inl old ↦
            let kept =
              try-Represents w (prefixed_key j) (o.client.del w.redis (prefixed_key j)) key cell
                refl
                (read-Expired w (prefixed_key j) raw key cell known answered (inr (e, parsed, old)))
                known in
            rw old (counted-Represents _ w.hits _ key cell kept)
        | inr young ↦ rw young (counted-Represents w _ w.misses key cell known)
      ]

  read-Represents :
      (j : String) (a : Option (Option String)) (w : CacheState o) (key : String) (cell : Cell o)
      → Represents o w key cell
      → o.client.get w.redis w.now (prefixed_key j) ≡ a
      → Represents o (read o j a w).1 key cell
  unfolding read
  read-Represents j none w key cell known answered = counted-Represents w w.hits _ key cell known
  read-Represents j (some none) w key cell known answered =
      counted-Represents w w.hits _ key cell known
  read-Represents j (some (some raw)) w key cell known answered =
      answer-Represents j raw (o.parse raw) w key cell known answered refl

  pub get-Represents :
      (j : String) (w : CacheState o) (key : String) (cell : Cell o)
      → Represents o w key cell
      → Represents o (get o j w).1 key cell
  unfolding get Redis.get
  get-Represents j w key cell known =
      read-Represents j (o.client.get w.redis w.now (prefixed_key j)) w key cell known refl
