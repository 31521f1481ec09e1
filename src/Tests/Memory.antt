-- ===== src/Tests/Memory.antt =====
-- A users collection of two documents whose writes can run out, with the behaviour asked of the
-- database.
use api_user.Prelude.{
  ℕ, zero, suc, String, ◌≡◌, refl, Bool, true, false, not, ◌&&◌, Option, none, some, List, [], ◌∷◌,
  ◌==◌, if◌then◌else◌, arith, eq_refl, eq_iff, ap, sym, ◌++◌, Bool-cases, inl, inr,
}
use mathlib.Core.Option
use api_user.Users.{User}
use api_user.Env.{Users}

-- Two places for documents, how many more writes work, and whether there are sessions.
pub record Memory : Type 0 where
  pub first : Option User
  pub second : Option User
  pub budget : ℕ
  pub sessions : Bool

abbrev has_id : String → Option User → Bool
has_id k none = false
has_id k (some u) = u.id == k

abbrev lookup : String → Option User → Option User → Option User
lookup k none none = none
lookup k none (some v) = if v.id == k then some v else none
lookup k (some u) none = if u.id == k then some u else none
lookup k (some u) (some v) = if u.id == k then some u else if v.id == k then some v else none

-- The second place counts where its id is not the first one's.
abbrev search : (User → Bool) → Option User → Option User → Option User
search p none none = none
search p none (some v) = if p v then some v else none
search p (some u) none = if p u then some u else none
search p (some u) (some v) =
    if p u then some u else if p v && not (u.id == v.id) then some v else none

abbrev update_at : String → (User → User) → Option User → Option User
update_at k f none = none
update_at k f (some u) = if u.id == k then some (f u) else some u

abbrev updated : ℕ → Memory → String → (User → User) → Option Memory
updated zero m k f = none
updated (suc n) m k f =
    some (record m { first = update_at k f m.first; second = update_at k f m.second; budget = n })

abbrev inserted : ℕ → Bool → Option User → Option User → User → Option Memory
inserted (suc n) s none none u =
    some (record { first = some u; second = none; budget = n; sessions = s })
inserted (suc n) s (some v) none u =
    if v.id == u.id
    then none
    else some (record { first = some v; second = some u; budget = n; sessions = s })
inserted n s a b u = none

pub lookup-id : (k : String) (a b : Option User) (u : User) → lookup k a b ≡ some u → u.id ≡ k
lookup-id k none none u h = cc
lookup-id k none (some v) u h = ground (arith, eq_iff v.id k)
lookup-id k (some v) none u h = ground (arith, eq_iff v.id k)
lookup-id k (some v) (some v') u h = ground (arith, eq_iff v.id k, eq_iff v'.id k)

pub search-lookup :
    (p : User → Bool) (a b : Option User) (u : User)
    → search p a b ≡ some u
    → lookup u.id a b ≡ some u
search-lookup p none none u h = cc
search-lookup p none (some v) u h = ground (arith, eq_refl v.id)
search-lookup p (some v) none u h = ground (arith, eq_refl v.id)
search-lookup p (some v) (some v') u h = ground (arith, eq_refl v.id, eq_refl v'.id)

pub search-test :
    (p : User → Bool) (a b : Option User) (u : User) → search p a b ≡ some u → p u ≡ true
search-test p none none u h = cc
search-test p none (some v) u h = ground arith
search-test p (some v) none u h = ground arith
search-test p (some v) (some v') u h = ground arith

pub search-none :
    (p : User → Bool) (a b : Option User) (k : String) (u : User)
    → search p a b ≡ none
    → lookup k a b ≡ some u
    → p u ≡ false
search-none p none none k u h e = cc
search-none p none (some v) k u h e = ground arith
search-none p (some v) none k u h e = ground arith
search-none p (some v) (some v') k u h e =
    ground (arith, eq_iff v.id v'.id, eq_iff v.id k, eq_iff v'.id k)

-- An update at a place, seen through a test on the id.
lookup-update_at :
    (k j : String) (f : User → User) (a b : Option User)
    → ((u : User) → (f u).id ≡ u.id)
    → lookup j (update_at k f a) (update_at k f b)
      ≡ (if k == j then Option.map f (lookup j a b) else lookup j a b)
lookup-update_at k j f none none h = elim (Bool-cases (k == j)) [
  | inl e ↦ rw e refl
  | inr e ↦ rw e refl
]
lookup-update_at k j f none (some v) h = elim (Bool-cases (v.id == k)) [
  | inl e ↦ rw e (ground (arith, eq_iff v.id k, eq_iff v.id j, eq_iff k j, h v))
  | inr e ↦ rw e (ground (arith, eq_iff v.id k, eq_iff v.id j, eq_iff k j))
]
lookup-update_at k j f (some u) none h = elim (Bool-cases (u.id == k)) [
  | inl e ↦ rw e (ground (arith, eq_iff u.id k, eq_iff u.id j, eq_iff k j, h u))
  | inr e ↦ rw e (ground (arith, eq_iff u.id k, eq_iff u.id j, eq_iff k j))
]
lookup-update_at k j f (some u) (some v) h = elim (Bool-cases (u.id == k)) [
  | inl e ↦ elim (Bool-cases (v.id == k)) [
    | inl e' ↦
        rw (e, e')
          (ground (
            arith,
            eq_iff u.id k,
            eq_iff u.id j,
            eq_iff v.id k,
            eq_iff v.id j,
            eq_iff k j,
            h u,
            h v,
          ))
    | inr e' ↦
        rw (e, e')
          (ground
            (arith, eq_iff u.id k, eq_iff u.id j, eq_iff v.id k, eq_iff v.id j, eq_iff k j, h u))
  ]
  | inr e ↦ elim (Bool-cases (v.id == k)) [
    | inl e' ↦
        rw (e, e')
          (ground
            (arith, eq_iff u.id k, eq_iff u.id j, eq_iff v.id k, eq_iff v.id j, eq_iff k j, h v))
    | inr e' ↦
        rw (e, e')
          (ground (arith, eq_iff u.id k, eq_iff u.id j, eq_iff v.id k, eq_iff v.id j, eq_iff k j))
  ]
]

pub lookup-inserted :
    (n : ℕ) (s : Bool) (a b : Option User) (t : Memory) (u : User)
    → inserted n s a b u ≡ some t
    → (j : String) → lookup j t.first t.second ≡ (if u.id == j then some u else lookup j a b)
lookup-inserted zero s a b t u h j = cc
lookup-inserted (suc n) s none none t u h j =
    let e : t ≡ record { first = some u; second = none; budget = n; sessions = s } = cc h in
    rw e refl
lookup-inserted (suc n) s none (some v) t u h j = cc
lookup-inserted (suc n) s (some v) none t u h j = elim (Bool-cases (v.id == u.id)) [
  | inl same ↦ absurd (cc (h, same))
  | inr new ↦
      let e : t ≡ record { first = some v; second = some u; budget = n; sessions = s } =
        ground (arith, h, new) in
      rw e (ground (arith, new, eq_iff v.id j, eq_iff u.id j, eq_iff v.id u.id))
]
lookup-inserted (suc n) s (some v) (some v') t u h j = cc

pub inserted-fresh :
    (n : ℕ) (s : Bool) (a b : Option User) (t : Memory) (u : User)
    → inserted n s a b u ≡ some t
    → lookup u.id a b ≡ none
inserted-fresh zero s a b t u h = cc
inserted-fresh (suc n) s none none t u h = refl
inserted-fresh (suc n) s none (some v) t u h = cc
inserted-fresh (suc n) s (some v) none t u h = ground (arith, eq_iff v.id u.id)
inserted-fresh (suc n) s (some v) (some v') t u h = cc

pub lookup-updated :
    (n : ℕ) (m t : Memory) (k : String) (f : User → User)
    → ((u : User) → (f u).id ≡ u.id)
    → updated n m k f ≡ some t
    → (j : String)
    → lookup j t.first t.second
      ≡ (if k == j then Option.map f (lookup j m.first m.second) else lookup j m.first m.second)
lookup-updated zero m t k f h e j = cc
lookup-updated (suc n) m t k f h e j =
    let written : t
        ≡ record m { first = update_at k f m.first; second = update_at k f m.second; budget = n } =
      cc e in
    rw written (lookup-update_at k j f m.first m.second h)

abbrev matching : (User → Bool) → Option User → List User
matching p none = []
matching p (some u) = if p u then u ∷ [] else []

pub commit-same : (m t : Memory) → some m ≡ some t → m ≡ t
commit-same m t h = cc h

abbrev pub users : Users
users = record {
  State = Memory;
  doc = λ m k. lookup k m.first m.second;
  find_one = λ m p. search p m.first m.second;
  find = λ m p. matching p m.first ++ matching p m.second;
  update_one = λ m k f. updated m.budget m k f;
  insert_one = λ m u. inserted m.budget m.sessions m.first m.second u;
  start_session = λ m. m.sessions;
  commit = λ m. some m;
  doc-id = λ m k u h. lookup-id k m.first m.second u h;
  find_one-doc = λ m p u h. search-lookup p m.first m.second u h;
  find_one-test = λ m p u h. search-test p m.first m.second u h;
  find_one-none = λ m p k u h e. search-none p m.first m.second k u h e;
  doc-update_one = λ m t k f h e j. lookup-updated m.budget m t k f h e j;
  doc-insert_one = λ m t u h j. lookup-inserted m.budget m.sessions m.first m.second t u h j;
  insert_one-fresh = λ m t u h. inserted-fresh m.budget m.sessions m.first m.second t u h;
  doc-commit =
      λ m t h j. ap (λ s. lookup j (Memory.first s) (Memory.second s)) (sym (commit-same m t h));
}
