-- ===== src/Email/Substitution.antt =====
-- The placeholders of email templates: `substituteVariables` of
-- email/service/email-template.service.ts, over code units.
use api_user.Prelude.{
  ℕ, zero, suc, ◌+◌, String, Bool, true, false, ◌&&◌, ◌||◌, Option, none, some, List, [], ◌∷◌, ◌++◌,
  length, nat_eq, leb, if◌then◌else◌,
}
use api_user.Csv.{Text}
use api_user.Redis.{codes, same_codes}

-- `\w`
unfoldable pub is_word : ℕ → Bool
is_word c =
    (leb b'a' c && leb c b'z')
    || ((leb b'A' c && leb c b'Z') || ((leb b'0' c && leb c b'9') || nat_eq c b'_'))

-- The longest word at the start of a text, and what follows it.
abbrev pub longer : ℕ → Text × Text → Text × Text
longer c (word, rest) = (c ∷ word, rest)

unfoldable pub span_word : Text → Text × Text
unfolding is_word
span_word [] = ([], [])
span_word (c ∷ s) = let more = span_word s in if is_word c then longer c more else ([], c ∷ s)

abbrev pub closes : Text → Bool
closes [] = false
closes (c ∷ []) = false
closes (c ∷ d ∷ s) = nat_eq c b'}' && nat_eq d b'}'

abbrev pub is_empty : Text → Bool
is_empty [] = true
is_empty (c ∷ s) = false

-- The word between the braces, if `\{\{(\w+)\}\}` matches at the start.
abbrev pub closed_word : Text × Text → Option Text
closed_word (word, rest) = if is_empty word then none else if closes rest then some word else none

unfoldable pub placeholder_at : Text → Option Text
unfolding span_word
placeholder_at [] = none
placeholder_at (c ∷ []) = none
placeholder_at (c ∷ d ∷ s) =
    if nat_eq c b'{' && nat_eq d b'{' then closed_word (span_word s) else none

abbrev pub placeholder : Text → Text
placeholder word = b'{' ∷ b'{' ∷ (word ++ b'}' ∷ b'}' ∷ [])

-- The own variables of the record.
unfoldable pub variable : List (String × Text) → Text → Option Text
variable [] word = none
variable ((name, v) ∷ vs) word = if same_codes (codes name) word then some v else variable vs word

-- `inherited` gives the texts of what every object has, such as `toString`.
abbrev pub or_else : Option Text → Option Text → Text → Text
or_else (some v) inherited word = v
or_else none (some v) word = v
or_else none none word = placeholder word

module _ (inherited : Text → Option Text) (variables : List (String × Text)) where
  unfoldable pub value_of : Text → Text
  unfolding variable
  value_of word = or_else (variable variables word) (inherited word) word

  -- The replacement of all matches from the left; the number is how much of the last match is left.
  unfoldable pub replaced : ℕ → Text → Text
  unfolding placeholder_at value_of
  replaced skip [] = []
  replaced (suc skip) (c ∷ s) = replaced skip s
  replaced zero (c ∷ s) = elim (placeholder_at (c ∷ s)) [
    | none ↦ c ∷ replaced 0 s
    | some word ↦ value_of word ++ replaced (length word + 3) s
  ]

  unfoldable pub substitute_variables : Text → Text
  unfolding replaced
  substitute_variables text = replaced 0 text
