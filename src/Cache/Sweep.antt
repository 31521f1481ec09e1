-- ===== src/Cache/Sweep.antt =====
-- `cleanupExpired` of config/cache/cache.service.ts deletes nothing that a read would answer.
use api_user.Prelude.{
  ℕ, zero, suc, String, ◌≡◌, inl, inr, refl, Bool, true, false, Option, none, some, List, [], ◌∷◌,
  ◌==◌, if◌then◌else◌, Bool-cases,
}
use api_user.Redis
use api_user.Cache.{
  Outside, prefixed_key, CacheState, Entry, past, del_again, clean, clean_read, clean_keys,
  clean_rounds, cleanup_expired,
}
use api_user.Cache.Cells.{Cell, Represents}
use api_user.Cache.Drops.{Expired, drop-Represents, read-Expired}

module _ (o : Outside) where
  -- The sweep: `at` is the state with another content of Redis.
  abbrev at : CacheState o → o.client.State → CacheState o
  at w r = record w { redis = r }

  abbrev AtEnd : CacheState o → String → Cell o → Option o.client.State → Type 0
  AtEnd w key cell none = Unit
  AtEnd w key cell (some r) = Represents o (at w r) key cell

  deleted-AtEnd :
      (w : CacheState o) (q : String) (d : Option o.client.State) (key : String) (cell : Cell o)
      → o.client.del w.redis q ≡ d
      → ((q == prefixed_key key) ≡ true → Expired o w.now cell)
      → Represents o w key cell
      → AtEnd w key cell d
  deleted-AtEnd w q none key cell gone expired known = tt
  deleted-AtEnd w q (some r) key cell gone expired known =
      drop-Represents o w q r key cell gone expired known

  del_again-AtEnd :
      (w : CacheState o) (q : String) (d : Option o.client.State) (key : String) (cell : Cell o)
      → o.client.del w.redis q ≡ d
      → ((q == prefixed_key key) ≡ true → Expired o w.now cell)
      → Represents o w key cell
      → AtEnd w key cell (del_again o q d w.redis)
  unfolding Redis.del
  del_again-AtEnd w q none key cell gone expired known =
      deleted-AtEnd w q (o.client.del w.redis q) key cell refl expired known
  del_again-AtEnd w q (some r) key cell gone expired known =
      drop-Represents o w q r key cell gone expired known

  clean-AtEnd :
      (w : CacheState o) (q raw : String) (e : Option (Entry o)) (key : String) (cell : Cell o)
      → Represents o w key cell
      → o.client.get w.redis w.now q ≡ some (some raw)
      → o.parse raw ≡ e
      → AtEnd w key cell (clean o w.now q e w.redis)
  unfolding clean Redis.del
  clean-AtEnd w q raw none key cell known answered parsed =
      deleted-AtEnd w q (o.client.del w.redis q) key cell refl
        (read-Expired o w q raw key cell known answered (inl parsed)) known
  clean-AtEnd w q raw (some e) key cell known answered parsed =
      elim (Bool-cases (past o w.now e.expires_at)) [
        | inl old ↦ rw old (
            del_again-AtEnd w q (o.client.del w.redis q) key cell refl
              (read-Expired o w q raw key cell known answered (inr (e, parsed, old))) known)
        | inr young ↦ rw young known
      ]

  clean_read-AtEnd :
      (w : CacheState o) (q : String) (a : Option (Option String)) (key : String) (cell : Cell o)
      → Represents o w key cell
      → o.client.get w.redis w.now q ≡ a
      → AtEnd w key cell (clean_read o w.now q a w.redis)
  unfolding clean_read
  clean_read-AtEnd w q none key cell known answered = tt
  clean_read-AtEnd w q (some none) key cell known answered = known
  clean_read-AtEnd w q (some (some raw)) key cell known answered =
      clean-AtEnd w q raw (o.parse raw) key cell known answered refl

  abbrev keys_after :
      CacheState o → List String → o.client.State → Option o.client.State → Bool × o.client.State
  keys_after w ks r none = (false, r)
  keys_after w ks r (some r') = clean_keys o w.now ks r'

  next_key :
      (w : CacheState o) (ks : List String) (r : o.client.State) (key : String) (cell : Cell o)
      → Represents o (at w r) key cell
      → (d : Option o.client.State) → AtEnd w key cell d
      → ((r' : o.client.State)
          → Represents o (at w r') key cell
          → Represents o (at w (clean_keys o w.now ks r').1) key cell)
      → Represents o (at w (keys_after w ks r d).1) key cell
  next_key w ks r key cell known none done rest = known
  next_key w ks r key cell known (some r') done rest = rest r' done

  clean_keys-Represents :
      (w : CacheState o) (ks : List String) (r : o.client.State) (key : String) (cell : Cell o)
      → Represents o (at w r) key cell
      → Represents o (at w (clean_keys o w.now ks r).1) key cell
  unfolding clean_keys Redis.get
  clean_keys-Represents w [] r key cell known = known
  clean_keys-Represents w (k ∷ ks) r key cell known =
      next_key w ks r key cell known (clean_read o w.now k (o.client.get r w.now k) r)
        (clean_read-AtEnd (at w r) k (o.client.get r w.now k) key cell known refl)
        (λ r'. clean_keys-Represents w ks r' key cell)

  abbrev rounds_after :
      CacheState o → ℕ → o.client.State → Option (String × List String) → o.client.State
  rounds_after w fuel r none = r
  rounds_after w fuel r (some (next, keys)) =
      let done = clean_keys o w.now keys r in
      let more = clean_rounds o fuel w.now next done.1 in
      if done.0 then (if next == "0" then done.1 else more) else done.1

  next_round :
      (w : CacheState o) (fuel : ℕ) (r : o.client.State) (key : String) (cell : Cell o)
      → Represents o (at w r) key cell
      → (s : Option (String × List String))
      → ((next : String) (r' : o.client.State)
          → Represents o (at w r') key cell
          → Represents o (at w (clean_rounds o fuel w.now next r')) key cell)
      → Represents o (at w (rounds_after w fuel r s)) key cell
  next_round w fuel r key cell known none rest = known
  next_round w fuel r key cell known (some (next, keys)) rest =
      let swept = clean_keys-Represents w keys r key cell known in
      let more = rest next (clean_keys o w.now keys r).1 swept in
      elim (Bool-cases (clean_keys o w.now keys r).0) [
        | inl whole ↦ elim (Bool-cases (next == "0")) [
          | inl ends ↦ rw (whole, ends) swept
          | inr goes_on ↦ rw (whole, goes_on) more
        ]
        | inr broken ↦ rw broken swept
      ]

  clean_rounds-Represents :
      (fuel : ℕ) (w : CacheState o) (cursor : String) (r : o.client.State) (key : String)
      (cell : Cell o)
      → Represents o (at w r) key cell
      → Represents o (at w (clean_rounds o fuel w.now cursor r)) key cell
  unfolding clean_rounds
  clean_rounds-Represents zero w cursor r key cell known = known
  clean_rounds-Represents (suc fuel) w cursor r key cell known =
      next_round w fuel r key cell known (o.client.scan r cursor "cache:*")
        (λ next r'. clean_rounds-Represents fuel w next r' key cell)

  pub cleanup_expired-Represents :
      (fuel : ℕ) (w : CacheState o) (key : String) (cell : Cell o)
      → Represents o w key cell
      → Represents o (cleanup_expired o fuel w) key cell
  unfolding cleanup_expired
  cleanup_expired-Represents fuel w key cell known =
      clean_rounds-Represents fuel w "0" w.redis key cell known
