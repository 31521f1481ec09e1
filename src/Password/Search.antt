-- ===== src/Password/Search.antt =====
-- What the searches of common/validators/password-strength.validator.ts find: a kind of unit, a unit
-- twice in a row, a sequence.
use api_user.Prelude.{
  ℕ, List, [], ◌∷◌, ◌++◌, Bool, true, false, not, ◌&&◌, ◌≡◌, ◌⊎◌, refl, ap, sym, ◌∙◌, any, nat_eq,
  arith, Bool-cases, inl, inr,
}
use api_user.Csv.{Text}
use api_user.Password.{is_line_terminator, has_repeat, starts_with, includes_text}

-- A text has a unit of a kind somewhere.
abbrev pub Has : (ℕ → Type 0) → Text → Type 0
Has P s = (a : Text) × (c : ℕ) × (b : Text) × (s ≡ a ++ c ∷ b) × P c

abbrev pub LineTerminator : ℕ → Type 0
LineTerminator c = (c ≡ 10) ⊎ ((c ≡ 13) ⊎ ((c ≡ 8232) ⊎ (c ≡ 8233)))

abbrev pub All : (Text → Type 0) → List Text → Type 0
All P [] = Unit
All P (q ∷ qs) = P q × All P qs

abbrev pub Occurs : Text → Text → Type 0
Occurs q s = (a : Text) × (b : Text) × (s ≡ a ++ (q ++ b))

pub any-Has :
    (f : ℕ → Bool) (P : ℕ → Type 0) (s : Text)
    → ((c : ℕ) → f c ≡ true → P c)
    → any f s ≡ true
    → Has P s
any-Has f P [] sound h = cc
any-Has f P (c ∷ s) sound h = elim (Bool-cases (f c)) [
  | inl here ↦ ([], c, s, refl, sound c here)
  | inr there ↦
      let (a, d, b, e, p) = any-Has f P s sound (ground (arith, h, there)) in
      (c ∷ a, d, b, ap (λ r. c ∷ r) e, p)
]

any-append : (f : ℕ → Bool) (a : Text) (c : ℕ) (b : Text) → f c ≡ true → any f (a ++ c ∷ b) ≡ true
any-append f [] c b h = ground (arith, h)
any-append f (d ∷ a) c b h = ground (arith, any-append f a c b h)

pub Has-any :
    (f : ℕ → Bool) (P : ℕ → Type 0) (s : Text)
    → ((c : ℕ) → P c → f c ≡ true)
    → Has P s
    → any f s ≡ true
Has-any f P s complete (a, c, b, e, p) = ap (any f) e ∙ any-append f a c b (complete c p)

-- The pair of equal units that is found, or the reason that there is none.
pub has_repeat-append :
    (a : Text) (c : ℕ) (b : Text)
    → is_line_terminator c ≡ false
    → has_repeat (a ++ c ∷ c ∷ b) ≡ true
unfolding has_repeat
has_repeat-append [] c b h = ground (arith, h)
has_repeat-append (d ∷ []) c b h = ground (arith, has_repeat-append [] c b h)
has_repeat-append (d ∷ e ∷ a) c b h = ground (arith, has_repeat-append (e ∷ a) c b h)

last_terminator :
    (c : ℕ)
    → nat_eq c 10 ≡ false
    → nat_eq c 13 ≡ false
    → nat_eq c 8232 ≡ false
    → is_line_terminator c ≡ true
    → c ≡ 8233
unfolding is_line_terminator
last_terminator c n1 n2 n3 h =
    let last : nat_eq c 8233 ≡ true = rw (n1, n2, n3) at h in ground arith

pub is_line_terminator-LineTerminator : (c : ℕ) → is_line_terminator c ≡ true → LineTerminator c
unfolding is_line_terminator
is_line_terminator-LineTerminator c h = elim (Bool-cases (nat_eq c 10)) [
  | inl e ↦ inl (ground arith)
  | inr n1 ↦ elim (Bool-cases (nat_eq c 13)) [
    | inl e ↦ inr (inl (ground arith))
    | inr n2 ↦ elim (Bool-cases (nat_eq c 8232)) [
      | inl e ↦ inr (inr (inl (ground arith)))
      | inr n3 ↦ inr (inr (inr (last_terminator c n1 n2 n3 h)))
    ]
  ]
]

pub LineTerminator-is_line_terminator : (c : ℕ) → LineTerminator c → is_line_terminator c ≡ true
unfolding is_line_terminator
LineTerminator-is_line_terminator c (inl e) = ground arith
LineTerminator-is_line_terminator c (inr (inl e)) = ground arith
LineTerminator-is_line_terminator c (inr (inr (inl e))) = ground arith
LineTerminator-is_line_terminator c (inr (inr (inr e))) = ground arith

pub has_repeat-pair :
    (s : Text)
    → has_repeat s ≡ true
    → (a : Text) × (c : ℕ) × (b : Text) × (s ≡ a ++ c ∷ c ∷ b) × (is_line_terminator c ≡ false)
unfolding has_repeat
has_repeat-pair [] h = cc
has_repeat-pair (c ∷ []) h = cc
has_repeat-pair (c ∷ d ∷ s) h = elim (Bool-cases (nat_eq c d && not (is_line_terminator c))) [
  | inl here ↦
      let same : c ≡ d = ground (arith, here) in
      ([], c, s, ap (λ x. c ∷ x ∷ s) (sym same), ground (arith, here))
  | inr there ↦
      let (a, e, b, eq, free) = has_repeat-pair (d ∷ s) (ground (arith, h, there)) in
      (c ∷ a, e, b, ap (λ r. c ∷ r) eq, free)
]

starts_with-append : (q s : Text) → starts_with (q ++ s) q ≡ true
unfolding starts_with
starts_with-append [] s = refl
starts_with-append (d ∷ q) s = ground (arith, starts_with-append q s)

starts_with-rest : (s q : Text) → starts_with s q ≡ true → (b : Text) × (s ≡ q ++ b)
unfolding starts_with
starts_with-rest s [] h = (s, refl)
starts_with-rest [] (d ∷ q) h = cc
starts_with-rest (c ∷ s) (d ∷ q) h =
    let (b, e) = starts_with-rest s q (ground (arith, h)) in
    let same : c ≡ d = ground (arith, h) in (b, cc (e, same))

pub includes_text-Occurs : (s q : Text) → includes_text s q ≡ true → Occurs q s
unfolding includes_text
includes_text-Occurs [] q h = let (b, e) = starts_with-rest [] q h in ([], b, e)
includes_text-Occurs (c ∷ s) q h = elim (Bool-cases (starts_with (c ∷ s) q)) [
  | inl here ↦ let (b, e) = starts_with-rest (c ∷ s) q here in ([], b, e)
  | inr there ↦
      let (a, b, e) = includes_text-Occurs s q (ground (arith, h, there)) in
      (c ∷ a, b, ap (λ r. c ∷ r) e)
]

includes_text-append : (a q b : Text) → includes_text (a ++ (q ++ b)) q ≡ true
unfolding includes_text
includes_text-append [] [] [] = unfold starts_with in refl
includes_text-append [] [] (c ∷ b) = unfold starts_with in refl
includes_text-append [] (d ∷ q) b = ground (arith, starts_with-append (d ∷ q) b)
includes_text-append (c ∷ a) q b = ground (arith, includes_text-append a q b)

pub Occurs-includes_text : (s q : Text) → Occurs q s → includes_text s q ≡ true
Occurs-includes_text s q o = ap (λ r. includes_text r q) o.2 ∙ includes_text-append o.0 q o.1

missing-Occurs : (s q : Text) → includes_text s q ≡ false → ¬ Occurs q s
missing-Occurs s q h o = cc (h, Occurs-includes_text s q o)

-- None of some sequences occurs exactly when the search for each of them fails.
pub any-All :
    (s : Text) (qs : List Text) → any (includes_text s) qs ≡ false → All (λ q. ¬ Occurs q s) qs
any-All s [] h = tt
any-All s (q ∷ qs) h = (missing-Occurs s q (ground (arith, h)), any-All s qs (ground (arith, h)))

pub All-any :
    (s : Text) (qs : List Text) → All (λ q. ¬ Occurs q s) qs → any (includes_text s) qs ≡ false
All-any s [] h = refl
All-any s (q ∷ qs) (none_here, rest) = elim (Bool-cases (includes_text s q)) [
  | inl found ↦ absurd (none_here (includes_text-Occurs s q found))
  | inr missing ↦ ground (arith, missing, All-any s qs rest)
]
