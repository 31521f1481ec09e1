-- ===== src/Users/Search.antt =====
-- common/utils/regex.ts, and the search in the names of users.
use api_user.Prelude.{
  ℕ, List, [], ◌∷◌, map, Bool, true, false, ◌≡◌, refl, ap, ◌∙◌, Option, none, some, nat_eq, any,
  if◌then◌else◌, arith, Bool-cases, inl, inr,
}
use api_user.Csv.{Text}
use api_user.Password.{includes_text}
use api_user.Password.Search.{Occurs, includes_text-Occurs, Occurs-includes_text}

-- The class `[.*+?^${}()|[\]\\]`.
abbrev syntax_characters : List ℕ
syntax_characters =
    b'.' ∷ b'*' ∷ b'+' ∷ b'?' ∷ b'^' ∷ b'$' ∷ b'{' ∷ b'}' ∷ b'(' ∷ b')' ∷ b'|' ∷ b'[' ∷ b']' ∷ 92
    ∷ []

unfoldable pub is_syntax : ℕ → Bool
is_syntax c = any (nat_eq c) syntax_characters

unfoldable pub escape_reg_exp : Text → Text
escape_reg_exp [] = []
escape_reg_exp (c ∷ s) =
    let rest = escape_reg_exp s in if is_syntax c then 92 ∷ c ∷ rest else c ∷ rest

-- The text that a pattern stands for if it is made of units that stand for themselves: any unit that
-- is no syntax character, and a backslash before one that is.
abbrev pub prepended : ℕ → Option Text → Option Text
prepended c none = none
prepended c (some s) = some (c ∷ s)

unfoldable pub literal : Text → Option Text
literal [] = some []
literal (c ∷ []) = if is_syntax c then none else some (c ∷ [])
literal (c ∷ d ∷ s) =
    let escaped = literal s in
    let rest = literal (d ∷ s) in
    if nat_eq c 92
    then (if is_syntax d then prepended d escaped else none)
    else (if is_syntax c then none else prepended c rest)

-- `new RegExp(pattern, 'i').test(text)`. A pattern of literal units is found where the text has
-- those units but for their case.
pub record RegExps : Type 1 where
  pub test : Text → Text → Bool
  pub fold : ℕ → ℕ
  pub test-literal :
      (p t s : Text) → literal p ≡ some t → test p s ≡ includes_text (map fold s) (map fold t)

backslash : is_syntax 92 ≡ true
unfolding is_syntax
backslash = refl

plain-backslash : (c : ℕ) → is_syntax c ≡ false → nat_eq c 92 ≡ false
plain-backslash c h = elim (Bool-cases (nat_eq c 92)) [
  | inl e ↦ let same : c ≡ 92 = ground (arith, e) in absurd (cc (h, ap is_syntax same, backslash))
  | inr n ↦ n
]

literal-plain : (c : ℕ) (s : Text) → is_syntax c ≡ false → literal (c ∷ s) ≡ prepended c (literal s)
unfolding literal
literal-plain c [] h = rw h refl
literal-plain c (d ∷ s) h = rw (plain-backslash c h, h) refl

literal-escaped :
    (c : ℕ) (s : Text) → is_syntax c ≡ true → literal (92 ∷ c ∷ s) ≡ prepended c (literal s)
unfolding literal
literal-escaped c s h = rw h refl

-- An escaped text is a pattern for that text.
pub literal-escape : (s : Text) → literal (escape_reg_exp s) ≡ some s
unfolding escape_reg_exp
literal-escape [] = unfold literal in refl
literal-escape (c ∷ s) = elim (Bool-cases (is_syntax c)) [
  | inl syntax ↦
      rw syntax (literal-escaped c (escape_reg_exp s) syntax ∙ ap (prepended c) (literal-escape s))
  | inr free ↦
      rw free (literal-plain c (escape_reg_exp s) free ∙ ap (prepended c) (literal-escape s))
]

module _ (r : RegExps) where
  -- `term` is somewhere in the text, but for its case.
  abbrev pub In : Text → Text → Type 0
  In term s = Occurs (map r.fold term) (map r.fold s)

  abbrev pub found : Text → Text → Bool
  found term s = r.test (escape_reg_exp term) s

  found-includes : (term s : Text) → found term s ≡ includes_text (map r.fold s) (map r.fold term)
  found-includes term s = r.test-literal (escape_reg_exp term) term s (literal-escape term)

  pub found-In : (term s : Text) → found term s ≡ true → In term s
  found-In term s h = includes_text-Occurs _ _ (cc (found-includes term s, h))

  pub In-found : (term s : Text) → In term s → found term s ≡ true
  In-found term s h = found-includes term s ∙ Occurs-includes_text _ _ h
