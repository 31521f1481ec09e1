-- ===== src/Email/Rendering.antt =====
-- What `substituteVariables` of email/service/email-template.service.ts makes of a template.
use api_user.Prelude.{
  ℕ, ◌+◌, String, ◌≡◌, refl, ◌∙◌, sym, ap, true, false, not, Option, none, some, List, [], ◌∷◌,
  ◌++◌, length, every, nat_eq, arith, Option-cases, inl, inr,
}
use mathlib.Core.List.{append_assoc}
use api_user.Csv.{Text}
use api_user.Email.Substitution.{
  is_word, longer, span_word, is_empty, closed_word, placeholder_at, placeholder, value_of,
  replaced, substitute_variables,
}

-- A template as its author sees it: plain text without an opening brace, and names in braces.
pub data Part : Type 0 where
  plain : Text → Part
  name : Text → Part

abbrev pub IsPart : Part → Type 0
IsPart (plain s) = every (λ c. not (nat_eq c b'{')) s ≡ true
IsPart (name word) = (every is_word word ≡ true) × (is_empty word ≡ false)

abbrev pub AreParts : List Part → Type 0
AreParts [] = Unit
AreParts (p ∷ ps) = IsPart p × AreParts ps

abbrev pub source : List Part → Text
source [] = []
source (plain s ∷ ps) = s ++ source ps
source (name word ∷ ps) = placeholder word ++ source ps

span_word-append :
    (word : Text) (c : ℕ) (rest : Text)
    → every is_word word ≡ true
    → is_word c ≡ false
    → span_word (word ++ c ∷ rest) ≡ (word, c ∷ rest)
unfolding span_word
span_word-append [] c rest words ends = ground (arith, ends)
span_word-append (d ∷ word) c rest words ends =
    let first : is_word d ≡ true = ground (arith, words) in
    let more = span_word-append word c rest (ground (arith, words)) ends in
    rw first (ap (longer d) more)

brace_ends : is_word b'}' ≡ false
unfolding is_word
brace_ends = refl

placeholder_at-placeholder :
    (word rest : Text)
    → every is_word word ≡ true
    → is_empty word ≡ false
    → placeholder_at (placeholder word ++ rest) ≡ some word
unfolding placeholder_at
placeholder_at-placeholder word rest words some_word =
    ap closed_word (
      ap span_word (append_assoc word (b'}' ∷ b'}' ∷ []) rest)
      ∙ span_word-append word b'}' (b'}' ∷ rest) words brace_ends)
    ∙ rw some_word refl

placeholder_at-plain : (c : ℕ) (s : Text) → nat_eq c b'{' ≡ false → placeholder_at (c ∷ s) ≡ none
unfolding placeholder_at
placeholder_at-plain c [] h = refl
placeholder_at-plain c (d ∷ s) h = rw h refl

module _ (inherited : Text → Option Text) (variables : List (String × Text)) where
  abbrev pub filled : List Part → Text
  filled [] = []
  filled (plain s ∷ ps) = s ++ filled ps
  filled (name word ∷ ps) = value_of inherited variables word ++ filled ps

  abbrev step : ℕ → Text → Option Text → Text
  step c s none = c ∷ replaced inherited variables 0 s
  step c s (some word) =
      value_of inherited variables word ++ replaced inherited variables (length word + 3) s

  replaced-step :
      (c : ℕ) (s : Text)
      → replaced inherited variables 0 (c ∷ s) ≡ step c s (placeholder_at (c ∷ s))
  unfolding replaced
  replaced-step c s = elim (Option-cases (placeholder_at (c ∷ s))) [
    | inl nothing ↦ ground (arith, nothing)
    | inr (word, found) ↦ ground (arith, found)
  ]

  replaced-skip :
      (a b : Text)
      → replaced inherited variables (length a) (a ++ b) ≡ replaced inherited variables 0 b
  unfolding replaced
  replaced-skip [] b = refl
  replaced-skip (c ∷ a) b = replaced-skip a b

  replaced-plain :
      (s rest : Text)
      → every (λ c. not (nat_eq c b'{')) s ≡ true
      → replaced inherited variables 0 (s ++ rest) ≡ s ++ replaced inherited variables 0 rest
  replaced-plain [] rest h = refl
  replaced-plain (c ∷ s) rest h =
      let free : nat_eq c b'{' ≡ false = ground (arith, h) in
      replaced-step c (s ++ rest)
      ∙ ap (step c (s ++ rest)) (placeholder_at-plain c (s ++ rest) free)
      ∙ ap (λ t. c ∷ t) (replaced-plain s rest (ground (arith, h)))

  tail_length : (word : Text) → length (b'{' ∷ (word ++ b'}' ∷ b'}' ∷ [])) ≡ length word + 3
  tail_length [] = refl
  tail_length (c ∷ word) = omega (arith, tail_length word)

  replaced-placeholder :
      (word rest : Text)
      → every is_word word ≡ true
      → is_empty word ≡ false
      → replaced inherited variables 0 (placeholder word ++ rest)
        ≡ value_of inherited variables word ++ replaced inherited variables 0 rest
  replaced-placeholder word rest words some_word =
      let tail : Text = b'{' ∷ (word ++ b'}' ∷ b'}' ∷ []) in
      replaced-step b'{' (tail ++ rest)
      ∙ ap (step b'{' (tail ++ rest)) (placeholder_at-placeholder word rest words some_word)
      ∙ ap (λ t. value_of inherited variables word ++ t)
          (ap (λ n. replaced inherited variables n (tail ++ rest)) (sym (tail_length word))
            ∙ replaced-skip tail rest)

  -- A template that is made of plain text without an opening brace and of names in double braces is
  -- rendered part by part: the text stays, each name becomes its value, and a name that has none
  -- stays as it is written. Values are put in as they are, braces included, and are not rendered.
  pub substitute_variables-filled :
      (ps : List Part)
      → AreParts ps
      → substitute_variables inherited variables (source ps) ≡ filled ps
  unfolding substitute_variables
  substitute_variables-filled [] h = unfold replaced in refl
  substitute_variables-filled (plain s ∷ ps) (here, rest) =
      replaced-plain s (source ps) here ∙ ap (λ t. s ++ t) (substitute_variables-filled ps rest)
  substitute_variables-filled (name word ∷ ps) ((words, some_word), rest) =
      replaced-placeholder word (source ps) words some_word
      ∙ ap (λ t. value_of inherited variables word ++ t) (substitute_variables-filled ps rest)
