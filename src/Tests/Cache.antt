-- ===== src/Tests/Cache.antt =====
-- The cache over a small Redis, with numbers for values.
use Prim.Native.Char.{code}
use api_user.Prelude.{
  ℕ, zero, suc, String, ◌≡◌, refl, ◌∙◌, sym, ap, Bool, true, false, Option, none, some, List, [],
  ◌∷◌, nat_eq, arith,
}
use api_user.Redis
use api_user.Cache.{
  CacheEntry, Outside, CacheState, answer, read, get, set, del, invalidate_pattern_atomically,
  handle_invalidation_payload, clean, clean_read, clean_keys, clean_rounds, cleanup_expired,
  del_rounds, del_by_pattern, prefixed_key,
}
use api_user.Cache.Cells.{Represents, Cell}
use api_user.Cache.Refines.{Operation, put, fetch, invalidate, sweep, wait, apply, run, cell_run}
use api_user.Cache.Answers.{Answers, get-run}
use api_user.Cache.Rounds.{del_by_pattern-returns}
use api_user.Tests.Server.{client, matches}

-- Entries as texts: the value and the deadline as so many digits `1`, each with a mark behind it.
ones : ℕ → String → String
ones zero rest = String.◌∷◌ ";" rest
ones (suc n) rest = String.◌∷◌ "1" (ones n rest)

after_one : Bool → ℕ × String → String → ℕ × String
after_one true (n, rest) s = (suc n, rest)
after_one false (n, rest) s = (0, s)

read_ones : String → ℕ × String
read_ones String.[] = (0, "")
read_ones (String.◌∷◌ c s) = after_one (nat_eq (code c) b'1') (read_ones s) s

read_ones-ones : (n : ℕ) (rest : String) → read_ones (ones n rest) ≡ (n, rest)
unfolding read_ones ones after_one
read_ones-ones zero rest = refl
read_ones-ones (suc n) rest = ap (λ p. after_one true p (ones n rest)) (read_ones-ones n rest)

abbrev deadline_text : Option ℕ → String
deadline_text none = ""
deadline_text (some d) = ones d ""

stringify : CacheEntry ℕ → String
unfolding ones
stringify e = ones e.value (deadline_text e.expires_at)

parse_deadline : String → Option ℕ
unfolding read_ones
parse_deadline String.[] = none
parse_deadline (String.◌∷◌ c s) = some (read_ones (String.◌∷◌ c s)).0

parse : String → Option (CacheEntry ℕ)
unfolding read_ones parse_deadline
parse s = some (record { value = (read_ones s).0; expires_at = parse_deadline (read_ones s).1 })

parse_deadline-text : (e : Option ℕ) → parse_deadline (deadline_text e) ≡ e
unfolding parse_deadline
parse_deadline-text none = refl
parse_deadline-text (some zero) = unfold ones in ap (λ p. some p.0) (read_ones-ones 0 "")
parse_deadline-text (some (suc d)) = unfold ones in ap (λ p. some p.0) (read_ones-ones (suc d) "")

parse-stringify : (e : CacheEntry ℕ) → parse (stringify e) ≡ some e
unfolding parse stringify
parse-stringify e =
    ap (λ p. some (record { value = p.0; expires_at = parse_deadline p.1 }))
      (read_ones-ones e.value (deadline_text e.expires_at))
    ∙ ap (λ x. some (record { value = e.value; expires_at = x })) (parse_deadline-text e.expires_at)

abbrev small : Outside
small = record {
  client = client;
  V = ℕ;
  stringify = stringify;
  parse = parse;
  parse-stringify = parse-stringify;
}

abbrev started : CacheState small
started = record { redis = λ k. none; hits = 0; misses = 0; now = 1 }

abbrev day : List (Operation small)
day =
    put "a" 7 (some 20) ∷ put "b" 8 none ∷ invalidate "cache:b" ∷ wait 5 ∷ sweep 2 ∷ fetch "a" ∷ []

fetched : (get small "a" (run small day started)).0 ≡ some 7
unfolding get read answer run apply set del handle_invalidation_payload
    invalidate_pattern_atomically clean clean_read clean_keys clean_rounds cleanup_expired Redis.get
    Redis.set Redis.del stringify parse parse_deadline read_ones after_one ones
fetched = refl

invalidated_b : (get small "b" (run small day started)).0 ≡ none
unfolding get read answer run apply set del handle_invalidation_payload
    invalidate_pattern_atomically clean clean_read clean_keys clean_rounds cleanup_expired Redis.get
    Redis.set Redis.del stringify parse parse_deadline read_ones after_one ones
invalidated_b = refl

expired : (get small "a" (run small (put "a" 7 (some 20) ∷ wait 21 ∷ []) started)).0 ≡ none
unfolding get read answer run apply set del handle_invalidation_payload
    invalidate_pattern_atomically clean clean_read clean_keys clean_rounds cleanup_expired Redis.get
    Redis.set Redis.del stringify parse parse_deadline read_ones after_one ones
expired = refl

empty-Represents : (key : String) → Represents small started key none
empty-Represents key = record {
  past_epoch = omega arith;
  dated = tt;
  agrees = λ time from r answered. sym (cc answered);
}

get-run_example : Answers small (run small day started) "a" (cell_run small day started "a" none)
get-run_example = get-run small day started "a" none (empty-Represents "a")

del_by_pattern-returns_example :
    ((n : ℕ) × ((del_by_pattern small 2 "cache:*" (run small day started)).0 ≡ some n))
    × ((key : String) (cell : Cell small)
        → matches "cache:*" (prefixed_key key) ≡ false
        → Represents small (run small day started) key cell
        → Represents small (del_by_pattern small 2 "cache:*" (run small day started)).1 key cell)
del_by_pattern-returns_example =
    del_by_pattern-returns small 2 "cache:*" (run small day started) (omega arith)

counted_deletions : (del_by_pattern small 2 "cache:*" (run small day started)).0 ≡ some 1
unfolding get read answer run apply set del handle_invalidation_payload
    invalidate_pattern_atomically clean clean_read clean_keys clean_rounds cleanup_expired Redis.get
    Redis.set Redis.del stringify parse parse_deadline read_ones after_one ones del_by_pattern
    del_rounds
counted_deletions = refl
