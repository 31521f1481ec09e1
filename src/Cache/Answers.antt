-- ===== src/Cache/Answers.antt =====
-- What `get` of config/cache/cache.service.ts answers, after any run.
use api_user.Prelude.{
  ℕ, zero, suc, ◌+◌, ◌≤◌, ◌<◌, String, ◌≡◌, ◌≢◌, inl, inr, refl, ◌∙◌, sym, ap, false, Option, none,
  some, List, arith, Bool-cases,
}
use mathlib.Core.Path.{subst}
use api_user.Redis
use api_user.Cache.{Outside, prefixed_key, CacheState, Entry, past, answer, read, get}
use api_user.Cache.Cells.{Cell, stored, Represents}
use api_user.Cache.Refines.{Operation, run, cell_run, run-Represents}

module _ (o : Outside) where
  -- A read answers only what the cell holds and not past its deadline, answers it before the deadline
  -- if Redis answers, and is counted once.
  pub record Answers (w : CacheState o) (key : String) (cell : Cell o) : Type 0 where
    pub sound :
        (v : o.V)
        → (get o key w).0 ≡ some v
        → (deadline : ℕ) × (cell ≡ some (v, deadline)) × (w.now ≤ deadline)
    pub complete :
        (v : o.V) (deadline : ℕ)
        → cell ≡ some (v, deadline)
        → w.now < deadline
        → o.client.get w.redis w.now (prefixed_key key) ≢ none
        → (get o key w).0 ≡ some v
    pub counted : (get o key w).1.hits + (get o key w).1.misses ≡ w.hits + w.misses + 1

  answer-counted :
      (key : String) (e : Option (Entry o)) (w : CacheState o)
      → (answer o key e w).1.hits + (answer o key e w).1.misses ≡ w.hits + w.misses + 1
  unfolding answer
  answer-counted key none w = omega arith
  answer-counted key (some e) w = elim (Bool-cases (past o w.now e.expires_at)) [
    | inl old ↦ rw old (omega arith)
    | inr young ↦ rw young (omega arith)
  ]

  read-counted :
      (key : String) (a : Option (Option String)) (w : CacheState o)
      → (read o key a w).1.hits + (read o key a w).1.misses ≡ w.hits + w.misses + 1
  unfolding read
  read-counted key none w = omega arith
  read-counted key (some none) w = omega arith
  read-counted key (some (some raw)) w = answer-counted key (o.parse raw) w

  -- The entry of a cell, as a read judges it.
  past-le : (now d : ℕ) → 0 < d → past o now (some d) ≡ false → now ≤ d
  past-le now zero positive h = absurd (omega (arith, positive))
  past-le now (suc d) positive h = ground (arith, h)

  not_past : (now d : ℕ) → now < d → past o now (some d) ≡ false
  not_past now zero h = absurd (omega (arith, h))
  not_past now (suc d) h = ground (arith, h)

  answer-young :
      (key : String) (e : Entry o) (w : CacheState o)
      → past o w.now e.expires_at ≡ false
      → (answer o key (some e) w).0 ≡ some e.value
  unfolding answer
  answer-young key e w young = rw young refl

  answer-value :
      (key : String) (e : Entry o) (w : CacheState o) (v : o.V)
      → (answer o key (some e) w).0 ≡ some v
      → (e.value ≡ v) × (past o w.now e.expires_at ≡ false)
  unfolding answer
  answer-value key e w v h = elim (Bool-cases (past o w.now e.expires_at)) [
    | inl old ↦ cc (rw old at h)
    | inr young ↦ (cc (rw young at h), young)
  ]

  abbrev entry_at : o.V → ℕ → Entry o
  entry_at v d = record { value = v; expires_at = some d }

  raw-answer :
      (key raw : String) (v : o.V) (d : ℕ) (w : CacheState o)
      → some raw ≡ some (stored o v d)
      → (read o key (some (some raw)) w).0 ≡ (answer o key (some (entry_at v d)) w).0
  unfolding read
  raw-answer key raw v d w same =
      let text : raw ≡ stored o v d = cc same in
      ap (λ t. (answer o key (o.parse t) w).0) text
      ∙ ap (λ e. (answer o key e w).0) (o.parse-stringify (entry_at v d))

  read_sound :
      (key : String) (a : Option (Option String)) (w : CacheState o) (cell : Cell o) (v : o.V)
      → Represents o w key cell
      → o.client.get w.redis w.now (prefixed_key key) ≡ a
      → (read o key a w).0 ≡ some v
      → (deadline : ℕ) × (cell ≡ some (v, deadline)) × (w.now ≤ deadline)
  read_sound key none w cell v known answered h = unfold read in cc h
  read_sound key (some none) w cell v known answered h = unfold read in cc h
  read_sound key (some (some raw)) w none v known answered h =
      cc (known.agrees w.now (omega arith) (some raw) answered)
  read_sound key (some (some raw)) w (some (u, d)) v known answered h =
      elim (known.agrees w.now (omega arith) (some raw) answered).1 [
        | inl missing ↦ cc missing
        | inr same ↦
            let (value, young) =
              answer-value key (entry_at u d) w v (sym (raw-answer key raw u d w same) ∙ h) in
            (d, ap (λ x. some (x, d)) value, past-le w.now d known.dated young)
      ]

  read_complete :
      (key : String) (a : Option (Option String)) (w : CacheState o) (v : o.V) (d : ℕ)
      → Represents o w key (some (v, d))
      → o.client.get w.redis w.now (prefixed_key key) ≡ a
      → w.now < d
      → a ≢ none
      → (read o key a w).0 ≡ some v
  read_complete key none w v d known answered soon up = absurd (up refl)
  read_complete key (some none) w v d known answered soon up =
      cc ((known.agrees w.now (omega arith) none answered).0 soon)
  read_complete key (some (some raw)) w v d known answered soon up =
      raw-answer key raw v d w ((known.agrees w.now (omega arith) (some raw) answered).0 soon)
      ∙ answer-young key (entry_at v d) w (not_past w.now d soon)

  get-Answers :
      (w : CacheState o) (key : String) (cell : Cell o)
      → Represents o w key cell
      → Answers w key cell
  unfolding get Redis.get
  get-Answers w key cell known = record {
    sound =
        λ v h. read_sound key (o.client.get w.redis w.now (prefixed_key key)) w cell v known refl h;
    complete = λ v d held soon up.
        read_complete key (o.client.get w.redis w.now (prefixed_key key)) w v d
          (subst (Represents o w key) held known) refl soon up;
    counted = read-counted key (o.client.get w.redis w.now (prefixed_key key)) w;
  }

  -- The cache refines a dictionary of values with deadlines. Start where Redis answers for a key as
  -- the dictionary says (nothing, or a value before its deadline), after the epoch. After any run of
  -- sets, reads, deletions, invalidations, sweeps and pauses the dictionary has at the key what the
  -- last operation on the key that Redis took has left there, and a read answers a value only if the
  -- dictionary has it and its deadline has not passed; it answers it whenever Redis answers and the
  -- deadline lies ahead; and it counts one hit or one miss.
  pub get-run :
      (ops : List (Operation o)) (w : CacheState o) (key : String) (cell : Cell o)
      → Represents o w key cell
      → Answers (run o ops w) key (cell_run o ops w key cell)
  get-run ops w key cell known =
      get-Answers (run o ops w) key (cell_run o ops w key cell)
        (run-Represents o ops w key cell known)
