-- ===== src/Users/Metrics.antt =====
-- The metrics of user/repository/user.repository.ts.
use api_user.Prelude.{
  ℕ, ◌+◌, ◌-◌, ◌*◌, ◌≤◌, ◌≡◌, refl, ap, Bool, true, false, ◌&&◌, ◌||◌, not, Option, none, some,
  is_some, List, [], ◌∷◌, length, keep, ltb, leb, arith, Bool-cases, inl, inr,
}
use api_user.Users.{User}
use api_user.Exec.{ok, gets}
use api_user.Env.{Env}
use api_user.World.{World, M}

pub record UserMetrics : Type 0 where
  pub total : ℕ
  pub active : ℕ
  pub locked : ℕ
  pub unverified_email : ℕ
  pub new_last30_days : ℕ
  pub new_previous30_days : ℕ

abbrev day_ms : ℕ
day_ms = 86400000

abbrev window_days : ℕ
window_days = 30

abbrev pub last30_start : ℕ → ℕ
last30_start now = now - window_days * day_ms

abbrev pub previous30_start : ℕ → ℕ
previous30_start now = now - 2 * window_days * day_ms

-- `lockedUntil: { $gt: now }`
abbrev is_locked : ℕ → Option ℕ → Bool
is_locked now none = false
is_locked now (some date) = ltb now date

-- `createdAt: { $gte: from, $lt: to }`
abbrev pub created_in : (from to : ℕ) → User → Bool
created_in from to u = leb from u.created_at && ltb u.created_at to

-- A facet counts the users that match.
abbrev pub count : (User → Bool) → List User → ℕ
count p us = length (keep p us)

-- The facets over the users that are not deleted.
unfoldable pub facets : ℕ → List User → UserMetrics
facets now us = record {
  total = length us;
  active = count (λ u. u.is_active) us;
  locked = count (λ u. is_locked now u.locked_until) us;
  unverified_email = count (λ u. is_some u.email_verification_token) us;
  new_last30_days = count (created_in (last30_start now) now) us;
  new_previous30_days = count (created_in (previous30_start now) (last30_start now)) us;
}

module _ (env : Env) where
  unfoldable pub aggregate_metrics : M env UserMetrics
  unfolding facets
  aggregate_metrics =
      gets (λ w. facets w.now (env.users.find w.users (λ u. not (is_some u.deleted_at))))

module _ {A : Type 0} where
  keep-length : (p : A → Bool) (xs : List A) → length (keep p xs) ≤ length xs
  keep-length p [] = omega arith
  keep-length p (x ∷ xs) = elim (Bool-cases (p x)) [
    | inl h ↦ ground (arith, h, keep-length p xs)
    | inr h ↦ ground (arith, h, keep-length p xs)
  ]

  -- Two tests that exclude each other and make up a third split its count.
  keep-split :
      (p q r : A → Bool) (xs : List A)
      → ((x : A) → (p x ≡ true) → q x ≡ false)
      → ((x : A) → r x ≡ (p x || q x))
      → length (keep p xs) + length (keep q xs) ≡ length (keep r xs)
  keep-split p q r [] apart whole = refl
  keep-split p q r (x ∷ xs) apart whole =
      let rest = keep-split p q r xs apart whole in
      elim (Bool-cases (p x)) [
        | inl h ↦ ground (arith, h, apart x h, whole x, rest)
        | inr h ↦ elim (Bool-cases (q x)) [
          | inl k ↦ ground (arith, h, k, whole x, rest)
          | inr k ↦ ground (arith, h, k, whole x, rest)
        ]
      ]

-- The user was created before now, at most `ms` milliseconds ago.
abbrev pub within : (ms now : ℕ) → User → Bool
within ms now u = ltb u.created_at now && leb now (u.created_at + ms)

-- A window that starts `ms` milliseconds ago.
from-within : (ms now : ℕ) (u : User) → created_in (now - ms) now u ≡ within ms now u
from-within ms now u = ground arith

apart_windows :
    (now : ℕ) (u : User)
    → created_in (last30_start now) now u ≡ true
    → created_in (previous30_start now) (last30_start now) u ≡ false
apart_windows now u h = ground (arith, h)

whole_window :
    (now : ℕ) (u : User)
    → within 5184000000 now u ≡ (
        created_in (last30_start now) now u
        || created_in (previous30_start now) (last30_start now) u)
whole_window now u = ground arith

keep-same :
    {A : Type 0} (p q : A → Bool) (xs : List A) → ((x : A) → p x ≡ q x) → keep p xs ≡ keep q xs
keep-same p q [] same = refl
keep-same p q (x ∷ xs) same = ground (arith, same x, keep-same p q xs same)

module _ (env : Env) where
  -- The metrics are of the users that are not deleted, and asking for them changes nothing. The new
  -- users of the last thirty days are those created before now and at most 2,592,000,000 ms ago,
  -- and with the previous thirty days they are those of at most 5,184,000,000 ms ago, no user in
  -- both; the two counts together are not above the total.
  pub aggregate_metrics-windows :
      (w : World env)
      → let us = env.users.find w.users (λ u. not (is_some u.deleted_at)) in
        (m : UserMetrics) × (aggregate_metrics env w ≡ (ok m, w))
        × (m.total ≡ length us)
        × (m.new_last30_days ≡ count (within 2592000000 w.now) us)
        × (m.new_last30_days + m.new_previous30_days ≡ count (within 5184000000 w.now) us)
        × (m.new_last30_days + m.new_previous30_days ≤ m.total)
  unfolding aggregate_metrics facets
  aggregate_metrics-windows w =
      let us = env.users.find w.users (λ u. not (is_some u.deleted_at)) in
      let split = keep-split _ _ _ us (apart_windows w.now) (whole_window w.now) in
      (
        facets w.now us,
        refl,
        refl,
        ap length (keep-same _ _ us (from-within 2592000000 w.now)),
        split,
        omega (arith, split, keep-length (within 5184000000 w.now) us),
      )
