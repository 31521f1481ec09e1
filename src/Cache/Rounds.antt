-- ===== src/Cache/Rounds.antt =====
-- The loop of `delByPattern` in config/cache/cache.service.ts comes to an end.
use api_user.Prelude.{
  ℕ, zero, suc, ◌+◌, ◌<◌, String, ◌≡◌, inl, inr, refl, ◌∙◌, ap, Bool, true, false, Option, none,
  some, List, [], ◌∷◌, length, get_or, ◌==◌, arith, Bool-cases,
}
use text.Mathlib.TextEquality.{eq_iff}
use api_user.Redis
use api_user.Redis.{All}
use api_user.Cache.{
  Outside, prefixed_key, CacheState, del_keys, after_round, del_rounds, del_by_pattern,
}
use api_user.Cache.Cells.{Cell, Represents, same-Represents}

module _ (o : Outside) where
  abbrev Returns : Option ℕ × o.client.State → Type 0
  Returns p = (n : ℕ) × (p.0 ≡ some n)

  after_round-Returns :
      (next : String) (total : ℕ) (b : Bool) (more : Option ℕ × o.client.State) (r : o.client.State)
      → ((next == "0") ≡ false → Returns more)
      → Returns (after_round o next total b more r)
  after_round-Returns next total false more r rest = (0, refl)
  after_round-Returns next total true more r rest = elim (Bool-cases (next == "0")) [
    | inl ends ↦ (total, rw ends refl)
    | inr goes_on ↦ let (n, e) = rest goes_on in (n, rw goes_on e)
  ]

  abbrev round_of :
      ℕ → String → ℕ → o.client.State → Option (String × List String) → Option ℕ × o.client.State
  round_of fuel pattern total r none = (some 0, r)
  round_of fuel pattern total r (some (next, keys)) =
      after_round o next (total + length keys) (del_keys o keys r).0
        (del_rounds o fuel pattern next (total + length keys) (del_keys o keys r).1)
        (del_keys o keys r).1

  round-Returns :
      (fuel : ℕ) (pattern cursor : String) (total : ℕ) (r : o.client.State)
      → o.client.rounds_left cursor < suc fuel
      → (s : Option (String × List String)) → o.client.scan r cursor pattern ≡ s
      → ((next : String) (t : ℕ) (r' : o.client.State)
          → o.client.rounds_left next < fuel
          → Returns (del_rounds o fuel pattern next t r'))
      → Returns (round_of fuel pattern total r s)
  round-Returns fuel pattern cursor total r enough none scanned rest = (0, refl)
  round-Returns fuel pattern cursor total r enough (some (next, keys)) scanned rest =
      after_round-Returns next _ (del_keys o keys r).0 _ _ (λ goes_on.
        rest next (total + length keys) (del_keys o keys r).1
          (omega (arith, enough, o.client.scan-ends r cursor pattern next keys scanned goes_on)))

  del_rounds-Returns :
      (fuel : ℕ) (pattern cursor : String) (total : ℕ) (r : o.client.State)
      → o.client.rounds_left cursor < fuel
      → Returns (del_rounds o fuel pattern cursor total r)
  unfolding del_rounds
  del_rounds-Returns zero pattern cursor total r enough = absurd (omega (arith, enough))
  del_rounds-Returns (suc fuel) pattern cursor total r enough =
      round-Returns fuel pattern cursor total r enough (o.client.scan r cursor pattern) refl
        (λ next t r' h. del_rounds-Returns fuel pattern next t r' h)

  one_del-same :
      (pattern q k : String) (r : o.client.State) (d : Option o.client.State)
      → o.client.del r k ≡ d
      → o.client.matches pattern k ≡ true
      → o.client.matches pattern q ≡ false
      → (time : ℕ) → o.client.get (get_or d r) time q ≡ o.client.get r time q
  one_del-same pattern q k r none gone match spared time = refl
  one_del-same pattern q k r (some r') gone match spared time = elim (Bool-cases (k == q)) [
    | inl same ↦ cc (match, spared, ap (o.client.matches pattern) ((eq_iff k q).0 same))
    | inr other ↦ o.client.get-del_other r r' k q gone other time
  ]

  -- A deletion of another Redis key leaves what Redis answers for a key.
  del_keys-same :
      (pattern q : String) (ks : List String) (r : o.client.State)
      → All (λ k. o.client.matches pattern k ≡ true) ks
      → o.client.matches pattern q ≡ false
      → (time : ℕ) → o.client.get (del_keys o ks r).1 time q ≡ o.client.get r time q
  unfolding Redis.del
  del_keys-same pattern q [] r matching spared time = refl
  del_keys-same pattern q (k ∷ ks) r (match, matching) spared time =
      del_keys-same pattern q ks (get_or (Redis.del o.client r k) r) matching spared time
      ∙ one_del-same pattern q k r (Redis.del o.client r k) refl match spared time

  after_round-same :
      (q next : String) (total : ℕ) (b : Bool) (more : Option ℕ × o.client.State)
      (r r0 : o.client.State) (time : ℕ)
      → o.client.get r time q ≡ o.client.get r0 time q
      → o.client.get more.1 time q ≡ o.client.get r time q
      → o.client.get (after_round o next total b more r).1 time q ≡ o.client.get r0 time q
  after_round-same q next total false more r r0 time here rest = here
  after_round-same q next total true more r r0 time here rest = elim (Bool-cases (next == "0")) [
    | inl ends ↦ rw ends here
    | inr goes_on ↦ rw goes_on (rest ∙ here)
  ]

  round-same :
      (fuel : ℕ) (pattern cursor q : String) (total : ℕ) (r : o.client.State) (time : ℕ)
      → o.client.matches pattern q ≡ false
      → (s : Option (String × List String)) → o.client.scan r cursor pattern ≡ s
      → ((next : String) (t : ℕ) (r' : o.client.State)
          → o.client.get (del_rounds o fuel pattern next t r').1 time q ≡ o.client.get r' time q)
      → o.client.get (round_of fuel pattern total r s).1 time q ≡ o.client.get r time q
  round-same fuel pattern cursor q total r time spared none scanned rest = refl
  round-same fuel pattern cursor q total r time spared (some (next, keys)) scanned rest =
      after_round-same q next _ (del_keys o keys r).0 _ (del_keys o keys r).1 r time
        (del_keys-same pattern q keys r (o.client.scan-matches r cursor pattern next keys scanned)
          spared time)
        (rest next (total + length keys) (del_keys o keys r).1)

  del_rounds-same :
      (fuel : ℕ) (pattern cursor q : String) (total : ℕ) (r : o.client.State) (time : ℕ)
      → o.client.matches pattern q ≡ false
      → o.client.get (del_rounds o fuel pattern cursor total r).1 time q ≡ o.client.get r time q
  unfolding del_rounds
  del_rounds-same zero pattern cursor q total r time spared = refl
  del_rounds-same (suc fuel) pattern cursor q total r time spared =
      round-same fuel pattern cursor q total r time spared (o.client.scan r cursor pattern) refl
        (λ next t r'. del_rounds-same fuel pattern next q t r' time spared)

  -- With fuel for as many rounds as the server may take to come back to the cursor `'0'`, the loop
  -- over SCAN ends with a count; and what is known of a key that the pattern does not match is still
  -- so then.
  pub del_by_pattern-returns :
      (fuel : ℕ) (pattern : String) (w : CacheState o)
      → o.client.rounds_left "0" < fuel
      → ((n : ℕ) × ((del_by_pattern o fuel pattern w).0 ≡ some n))
        × ((key : String) (cell : Cell o)
            → o.client.matches pattern (prefixed_key key) ≡ false
            → Represents o w key cell
            → Represents o (del_by_pattern o fuel pattern w).1 key cell)
  unfolding del_by_pattern
  del_by_pattern-returns fuel pattern w enough = (
    del_rounds-Returns fuel pattern "0" 0 w.redis enough,
    λ key cell spared known.
        same-Represents o w _ w.hits w.misses w.now key cell (omega arith)
          (λ time. del_rounds-same fuel pattern "0" (prefixed_key key) 0 w.redis time spared) known,
  )
