-- ===== src/Tests/Server.antt =====
-- A small Redis in the place of the server: it is always up, and knows the patterns that are a key or
-- `cache:*`. SCAN shows two keys in two rounds.
use api_user.Prelude.{
  ℕ, ◌+◌, ◌*◌, ◌≤◌, ◌<◌, String, ◌≡◌, refl, ◌∙◌, sym, ap, Bool, true, false, ◌&&◌, ◌||◌, Option,
  none, some, List, [], ◌∷◌, is_some, ltb, ◌==◌, if◌then◌else◌, arith, Bool-cases, inl, inr,
}
use mathlib.Core.Path.{subst}
use text.Mathlib.Text.{starts_with}
use text.Mathlib.TextPositions.{eq_refl}
use api_user.Redis.{Client, held, All}

-- A value with the time until which it is held, if there is one.
abbrev pub Memory : Type 0
Memory = String → Option (String × Option ℕ)

abbrev live : ℕ → Option (String × Option ℕ) → Option String
live now none = none
live now (some (v, none)) = some v
live now (some (v, some until)) = if ltb now until then some v else none

abbrev until : ℕ → Option ℕ → Option ℕ
until now none = none
until now (some ttl) = some (now + ttl * 1000)

abbrev pub matches : String → String → Bool
matches pattern k = pattern == k || (pattern == "cache:*" && starts_with k "cache:")

abbrev shown : Memory → String → String → List String
shown m pattern k = if is_some (m k) && matches pattern k then k ∷ [] else []

abbrev scan : Memory → String → String → Option (String × List String)
scan m cursor pattern =
    if cursor == "0"
    then some ("1", shown m pattern "cache:a")
    else some ("0", shown m pattern "cache:b")

abbrev rounds_left : String → ℕ
rounds_left cursor = if cursor == "0" then 1 else 0

live-held :
    (now : ℕ) (ttl : Option ℕ) (later : ℕ) (v : String)
    → live later (some (v, until now ttl)) ≡ held now ttl later v
live-held now none later v = refl
live-held now (some ttl) later v = refl

shown-matches :
    (m : Memory) (pattern k : String) → All (λ j. matches pattern j ≡ true) (shown m pattern k)
shown-matches m pattern k = elim (Bool-cases (is_some (m k) && matches pattern k)) [
  | inl there ↦ rw there (ground (arith, there), tt)
  | inr absent ↦ rw absent tt
]

abbrev one : ℕ
one = 1

-- The commands, by what they leave.
abbrev put : Memory → ℕ → String → String → Option ℕ → Memory
put m now k v ttl j = if k == j then some (v, until now ttl) else m j

abbrev erase : Memory → String → Memory
erase m k j = if k == j then none else m j

abbrev erase_matching : Memory → String → Memory
erase_matching m pattern j = if matches pattern j then none else m j

pub get-set :
    (s t : Memory) (now : ℕ) (k v : String) (ttl : Option ℕ)
    → some (put s now k v ttl) ≡ some t
    → (later : ℕ) → now ≤ later
    → (r : Option String) → some (live later (t k)) ≡ some r
    → r ≡ held now ttl later v
get-set s t now k v ttl h later from r e =
    let same : put s now k v ttl ≡ t = cc h in
    let own : put s now k v ttl k ≡ some (v, until now ttl) = ground (arith, eq_refl k) in
    sym (cc e)
    ∙ ap (λ (m : Memory). live later (m k)) (sym same)
    ∙ ap (live later) own
    ∙ live-held now ttl later v

pub get-set_other :
    (s t : Memory) (now : ℕ) (k v : String) (ttl : Option ℕ) (j : String)
    → some (put s now k v ttl) ≡ some t
    → (k == j) ≡ false
    → (later : ℕ)
    → ◌≡◌ {A = Option (Option String)} (some (live later (t j))) (some (live later (s j)))
get-set_other s t now k v ttl j h other later =
    let same : put s now k v ttl ≡ t = cc h in
    let old : put s now k v ttl j ≡ s j = rw other refl in
    ap (λ (m : Memory). some (live later (m j))) (sym same) ∙ ap (λ x. some (live later x)) old

pub get-del :
    (s t : Memory) (k : String)
    → some (erase s k) ≡ some t
    → (later : ℕ) (r : Option String) → some (live later (t k)) ≡ some r
    → r ≡ none
get-del s t k h later r e =
    let same : erase s k ≡ t = cc h in
    let own : erase s k k ≡ none = ground (arith, eq_refl k) in
    sym (cc e) ∙ ap (λ (m : Memory). live later (m k)) (sym same) ∙ ap (live later) own

pub get-del_other :
    (s t : Memory) (k j : String)
    → some (erase s k) ≡ some t
    → (k == j) ≡ false
    → (later : ℕ)
    → ◌≡◌ {A = Option (Option String)} (some (live later (t j))) (some (live later (s j)))
get-del_other s t k j h other later =
    let same : erase s k ≡ t = cc h in
    let old : erase s k j ≡ s j = rw other refl in
    ap (λ (m : Memory). some (live later (m j))) (sym same) ∙ ap (λ x. some (live later x)) old

pub scan-ends :
    (s : Memory) (cursor pattern next : String) (keys : List String)
    → scan s cursor pattern ≡ some (next, keys)
    → (next == "0") ≡ false
    → rounds_left next < rounds_left cursor
scan-ends s cursor pattern next keys h goes_on = elim (Bool-cases (cursor == "0")) [
  | inl first ↦ let at : "1" ≡ next = ground (arith, h, first) in rw (first, goes_on) (omega arith)
  | inr second ↦
      let at : "0" ≡ next = ground (arith, h, second) in
      cc (ap (λ (x : String). x == "0") (sym at), goes_on, eq_refl "0")
]

pub scan-matches :
    (s : Memory) (cursor pattern next : String) (keys : List String)
    → scan s cursor pattern ≡ some (next, keys)
    → All (λ k. matches pattern k ≡ true) keys
scan-matches s cursor pattern next keys h = elim (Bool-cases (cursor == "0")) [
  | inl first ↦
      let at : shown s pattern "cache:a" ≡ keys = ground (arith, h, first) in
      subst (All (λ k. matches pattern k ≡ true)) at (shown-matches s pattern "cache:a")
  | inr second ↦
      let at : shown s pattern "cache:b" ≡ keys = ground (arith, h, second) in
      subst (All (λ k. matches pattern k ≡ true)) at (shown-matches s pattern "cache:b")
]

pub get-del_matching :
    (s t : Memory) (pattern : String) (n : ℕ)
    → ◌≡◌ {A = Option (Memory × ℕ)} (some (erase_matching s pattern, one)) (some (t, n))
    → (j : String) (later : ℕ) (r : Option String) → matches pattern j ≡ true
    → some (live later (t j)) ≡ some r
    → r ≡ none
get-del_matching s t pattern n h j later r own e =
    let same : erase_matching s pattern ≡ t = cc h in
    let gone : erase_matching s pattern j ≡ none = rw own refl in
    sym (cc e) ∙ ap (λ (m : Memory). live later (m j)) (sym same) ∙ ap (live later) gone

pub get-del_matching_other :
    (s t : Memory) (pattern : String) (n : ℕ)
    → ◌≡◌ {A = Option (Memory × ℕ)} (some (erase_matching s pattern, one)) (some (t, n))
    → (j : String) → matches pattern j ≡ false
    → (later : ℕ)
    → ◌≡◌ {A = Option (Option String)} (some (live later (t j))) (some (live later (s j)))
get-del_matching_other s t pattern n h j other later =
    let same : erase_matching s pattern ≡ t = cc h in
    let old : erase_matching s pattern j ≡ s j = rw other refl in
    ap (λ (m : Memory). some (live later (m j))) (sym same) ∙ ap (λ x. some (live later x)) old

abbrev pub client : Client
client = record {
  State = Memory;
  get = λ m now k. some (live now (m k));
  set = λ m now k v ttl. some (put m now k v ttl);
  del = λ m k. some (erase m k);
  matches = matches;
  scan = scan;
  del_matching = λ m pattern. some (erase_matching m pattern, one);
  get-set = get-set;
  get-set_other = get-set_other;
  get-del = get-del;
  get-del_other = get-del_other;
  rounds_left = rounds_left;
  scan-ends = scan-ends;
  scan-matches = scan-matches;
  get-del_matching = get-del_matching;
  get-del_matching_other = get-del_matching_other;
}
