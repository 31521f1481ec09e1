-- ===== src/I18n/Merge.antt =====
-- What `deepMerge` of common/i18n/i18n.service.ts keeps.
use api_user.Prelude.{
  String, ◌≡◌, refl, ap, sym, ◌∙◌, Bool, true, false, Option, none, some, List, [], ◌∷◌, ◌==◌,
  eq_iff, if◌then◌else◌, Bool-cases, inl, inr,
}
use api_user.Csv.{Text}
use api_user.I18n.{
  Tree, empty, text_entry, tree_entry, Value, missing, text, object, get, put, entry, text_of,
  tree_of, resolve_parts, sub_tree, keep_or_put, deep_merge,
}

-- A value is found where it was put, and nothing else is moved.
abbrev pub then_value : Bool → Value → Value → Value
then_value b v old = if b then v else old

-- An entry in place of another one of the same key, or after one of another key.
in_place :
    (i k j : String) (v old more : Value)
    → i ≡ k
    → then_value (k == j) v (then_value (i == j) old more) ≡ then_value (k == j) v more
in_place i k j v old more same = elim (Bool-cases (k == j)) [
  | inl here ↦ rw here refl
  | inr other ↦ rw (other, ap (λ x. x == j) same ∙ other) refl
]

after :
    (i k j : String) (v old more : Value)
    → (i == k) ≡ false
    → then_value (i == j) old (then_value (k == j) v more)
      ≡ then_value (k == j) v (then_value (i == j) old more)
after i k j v old more apart = elim (Bool-cases (k == j)) [
  | inl here ↦ elim (Bool-cases (i == j)) [
    | inl there ↦
        let same : i ≡ k = (eq_iff i j).0 there ∙ sym ((eq_iff k j).0 here) in
        absurd (cc (apart, (eq_iff i k).1 same))
    | inr other ↦ rw (here, other) refl
  ]
  | inr other ↦ rw other refl
]

abbrev pub IsThere : Value → Type 0
IsThere missing = ⊥
IsThere (text s) = Unit
IsThere (object t) = Unit

get-entry :
    (k j : String) (v : Value) (rest : Tree)
    → IsThere v
    → get (entry k v rest) j ≡ then_value (k == j) v (get rest j)
unfolding get
get-entry k j missing rest there = absurd there
get-entry k j (text s) rest there = refl
get-entry k j (object t) rest there = refl

pub get-put :
    (k j : String) (v : Value) (t : Tree)
    → IsThere v
    → get (put k v t) j ≡ then_value (k == j) v (get t j)
unfolding put get
get-put k j v empty there = get-entry k j v empty there
get-put k j v (text_entry i s rest) there =
    let more = get-put k j v rest there in
    elim (Bool-cases (i == k)) [
      | inl e ↦ rw e (
          get-entry k j v rest there
          ∙ sym (in_place i k j v (text s) (get rest j) ((eq_iff i k).0 e)))
      | inr n ↦
          rw n (ap (then_value (i == j) (text s)) more ∙ after i k j v (text s) (get rest j) n)
    ]
get-put k j v (tree_entry i t rest) there =
    let more = get-put k j v rest there in
    elim (Bool-cases (i == k)) [
      | inl e ↦ rw e (
          get-entry k j v rest there
          ∙ sym (in_place i k j v (object t) (get rest j) ((eq_iff i k).0 e)))
      | inr n ↦
          rw n (ap (then_value (i == j) (object t)) more ∙ after i k j v (object t) (get rest j) n)
    ]

-- The source has no object where the parts lead to; what it has under other parts does not matter.
abbrev pub NoObject : List String → Tree → Type 0
NoObject ks empty = Unit
NoObject ks (text_entry k s rest) = NoObject ks rest
NoObject [] (tree_entry k sub rest) = NoObject [] rest
NoObject (j ∷ []) (tree_entry k sub rest) = ((k == j) ≡ false) × NoObject (j ∷ []) rest
NoObject (j ∷ l ∷ ks) (tree_entry k sub rest) =
    ((k == j) ≡ true → NoObject (l ∷ ks) sub) × NoObject (j ∷ l ∷ ks) rest

-- What two trees with the same value at the first part resolve.
abbrev pub step : List String → Value → Option Text
step [] v = text_of v
step (l ∷ ks) v = elim (tree_of v) [ none ↦ none | some sub ↦ resolve_parts (l ∷ ks) sub ]

pub resolve-step :
    (k : String) (ks : List String) (t : Tree) → resolve_parts (k ∷ ks) t ≡ step ks (get t k)
unfolding resolve_parts
resolve-step k [] t = refl
resolve-step k (l ∷ ks) t = refl

step-missing : (ks : List String) → step ks missing ≡ none
step-missing [] = refl
step-missing (l ∷ ks) = refl

step-object :
    (l : String) (ks : List String) (v : Value) (s : Text)
    → step (l ∷ ks) v ≡ some s
    → (t : Tree) × (v ≡ object t) × (resolve_parts (l ∷ ks) t ≡ some s)
step-object l ks missing s h = cc h
step-object l ks (text r) s h = cc h
step-object l ks (object t) s h = (t, refl, h)

-- A value at another part does not matter.
pub resolve-put :
    (j k : String) (ks : List String) (v : Value) (t : Tree)
    → IsThere v
    → resolve_parts (k ∷ ks) (put j v t) ≡ step ks (then_value (j == k) v (get t k))
resolve-put j k ks v t there = resolve-step k ks (put j v t) ∙ ap (step ks) (get-put j k v t there)

resolve-put_other :
    (j k : String) (ks : List String) (v : Value) (t : Tree)
    → IsThere v
    → (j == k) ≡ false
    → resolve_parts (k ∷ ks) (put j v t) ≡ resolve_parts (k ∷ ks) t
resolve-put_other j k ks v t there apart =
    resolve-put j k ks v t there
    ∙ ap (λ b. step ks (then_value b v (get t k))) apart
    ∙ sym (resolve-step k ks t)

resolve-keep_or_put :
    (j k : String) (ks : List String) (v s : Text) (t : Tree) (old : Value)
    → get t j ≡ old
    → resolve_parts (k ∷ ks) t ≡ some s
    → resolve_parts (k ∷ ks) (keep_or_put j v t old) ≡ some s
resolve-keep_or_put j k ks v s t missing e found = elim (Bool-cases (j == k)) [
  | inl here ↦
      let nothing : resolve_parts (k ∷ ks) t ≡ none =
        resolve-step k ks t
        ∙ ap (step ks) (ap (get t) (sym ((eq_iff j k).0 here)) ∙ e)
        ∙ step-missing ks in
      absurd (cc (nothing, found))
  | inr other ↦ resolve-put_other j k ks (text v) t tt other ∙ found
]
resolve-keep_or_put j k ks v s t (text old) e found = found
resolve-keep_or_put j k ks v s t (object old) e found = found

NoObject-rest :
    (k : String) (ks : List String) (j : String) (sub rest : Tree)
    → NoObject (k ∷ ks) (tree_entry j sub rest)
    → NoObject (k ∷ ks) rest
NoObject-rest k [] j sub rest (apart, free) = free
NoObject-rest k (l ∷ ks) j sub rest (inside, free) = free

-- Merging below a part keeps what merging its tree keeps.
abbrev Kept : Tree → Type 0
Kept source =
    (target : Tree) (k : String) (ks : List String) (s : Text)
    → NoObject (k ∷ ks) source
    → resolve_parts (k ∷ ks) target ≡ some s
    → resolve_parts (k ∷ ks) (deep_merge source target) ≡ some s

resolve-tree_entry :
    (j : String) (sub rest target : Tree) (k : String) (ks : List String) (s : Text)
    → Kept sub
    → NoObject (k ∷ ks) (tree_entry j sub rest)
    → resolve_parts (k ∷ ks) target ≡ some s
    → resolve_parts (k ∷ ks) (put j (object (deep_merge sub (sub_tree (get target j)))) target)
      ≡ some s
resolve-tree_entry j sub rest target k [] s kept (apart, free) found =
    resolve-put_other j k [] _ target tt apart ∙ found
resolve-tree_entry j sub rest target k (l ∷ ks) s kept (inside, free) found =
    elim (Bool-cases (j == k)) [
      | inl here ↦
          let (t, e, below) =
            step-object l ks (get target k) s (sym (resolve-step k (l ∷ ks) target) ∙ found) in
          let old : get target j ≡ object t = ap (get target) ((eq_iff j k).0 here) ∙ e in
          let new : Tree = deep_merge sub (sub_tree (get target j)) in
          resolve-put j k (l ∷ ks) (object new) target tt
          ∙ ap (λ b. step (l ∷ ks) (then_value b (object new) (get target k))) here
          ∙ ap (λ v. step (l ∷ ks) (object (deep_merge sub (sub_tree v)))) old
          ∙ kept t l ks s (inside here) below
      | inr other ↦ resolve-put_other j k (l ∷ ks) _ target tt other ∙ found
    ]

-- A text that the target resolves at some parts stays if the source has no object at these parts:
-- texts of the source, and whatever it has at other parts, do not replace it.
pub resolve-deep_merge :
    (source target : Tree) (k : String) (ks : List String) (s : Text)
    → NoObject (k ∷ ks) source
    → resolve_parts (k ∷ ks) target ≡ some s
    → resolve_parts (k ∷ ks) (deep_merge source target) ≡ some s
unfolding deep_merge
resolve-deep_merge empty target k ks s free found = found
resolve-deep_merge (text_entry j v rest) target k ks s free found =
    resolve-deep_merge rest (keep_or_put j v target (get target j)) k ks s free
      (resolve-keep_or_put j k ks v s target (get target j) refl found)
resolve-deep_merge (tree_entry j sub rest) target k ks s free found =
    let kept : Kept sub = resolve-deep_merge sub in
    resolve-deep_merge rest _ k ks s (NoObject-rest k ks j sub rest free)
      (resolve-tree_entry j sub rest target k ks s kept free found)
