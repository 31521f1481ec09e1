-- ===== src/Prelude/Lists.antt =====
-- Lists over the native numbers, and lists of texts read as JavaScript arrays and sets.
use Prim.Native.Nat.{ℕ, zero, suc}
use Prim.Native.String.{String}
use native.Mathlib.Omega.{arith}
use mathlib.Core.Path.{◌≡◌, refl, ap, sym, ◌∙◌}
use mathlib.Core.Logic.{inl, inr}
use text.Mathlib.TextEquality.{eq_iff}
use text.Mathlib.TextPositions.{eq_refl}
use mathlib.Core.Bool.{Bool, true, false, ◌&&◌, ◌||◌}
use mathlib.Core.List.{List, [], ◌∷◌}
use text.Mathlib.Text.{◌==◌}
use api_user.Prelude.Tests.{if◌then◌else◌, Bool-cases}

module _ {ℓ} {A : Type ℓ} where
  abbrev pub length : List A → ℕ
  length [] = 0
  length (x ∷ xs) = suc (length xs)

  abbrev pub take : ℕ → List A → List A
  take zero xs = []
  take (suc n) [] = []
  take (suc n) (x ∷ xs) = x ∷ take n xs

  abbrev pub drop : ℕ → List A → List A
  drop zero xs = xs
  drop (suc n) [] = []
  drop (suc n) (x ∷ xs) = drop n xs

  abbrev pub replicate : ℕ → A → List A
  replicate zero a = []
  replicate (suc n) a = a ∷ replicate n a

  -- `xs.every(p)`, `xs.some(p)` and `xs.filter(p)` with a Boolean test.
  abbrev pub every : (A → Bool) → List A → Bool
  every p [] = true
  every p (x ∷ xs) = p x && every p xs

  abbrev pub any : (A → Bool) → List A → Bool
  any p [] = false
  any p (x ∷ xs) = p x || any p xs

  abbrev pub keep : (A → Bool) → List A → List A
  keep p [] = []
  keep p (x ∷ xs) = let rest = keep p xs in if p x then x ∷ rest else rest

-- `xs.includes(x)`.
abbrev pub includes : List String → String → Bool
includes [] x = false
includes (y ∷ ys) x = y == x || includes ys x

-- A test holds of all elements exactly when it holds of each text that is included.
pub every-includes :
    (f : String → Bool) (ps : List String)
    → every f ps ≡ true
    → (p : String) → includes ps p ≡ true
    → f p ≡ true
every-includes f [] h p here = cc
every-includes f (q ∷ ps) h p here = elim (Bool-cases (q == p)) [
  | inl same ↦ ap f (sym ((eq_iff q p).0 same)) ∙ ground (arith, h)
  | inr other ↦ every-includes f ps (ground (arith, h)) p (ground (arith, here, other))
]

pub includes-every :
    (f : String → Bool) (ps : List String)
    → ((p : String) → includes ps p ≡ true → f p ≡ true)
    → every f ps ≡ true
includes-every f [] h = refl
includes-every f (q ∷ ps) h = ground (
  arith,
  h q (ground (arith, eq_refl q)),
  includes-every f ps (λ p here. h p (ground (arith, here))),
)
