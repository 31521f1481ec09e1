-- ===== src/Password/Strength.antt =====
-- The rules of common/validators/password-strength.validator.ts, stated by where characters stand.
use api_user.Prelude.{
  ℕ, ◌≤◌, [], ◌∷◌, ◌++◌, map, true, false, ◌≡◌, ◌↔◌, refl, ap, length, any, ltb, arith, Bool-cases,
  inl, inr,
}
use api_user.Csv.{Text}
use api_user.Password.{
  min_length_rule, max_length_rule, common_sequences, is_lower, is_upper, is_digit, is_symbol,
  is_line_terminator, has_repeat, lower, has_sequence, validate_password, PasswordStrengthValidator,
  validate,
}
use api_user.Password.Search.{
  Has, LineTerminator, All, Occurs, any-Has, Has-any, has_repeat-append, has_repeat-pair,
  is_line_terminator-LineTerminator, LineTerminator-is_line_terminator, any-All, All-any,
}

abbrev pub Between : ℕ → ℕ → ℕ → Type 0
Between lo hi c = (lo ≤ c) × (c ≤ hi)

abbrev pub Symbol : ℕ → Type 0
Symbol c = (¬ Between b'a' b'z' c) × (¬ Between b'A' b'Z' c) × (¬ Between b'0' b'9' c)

-- What a strong password is: its length, the kinds of characters it has, no character twice in a
-- row but a line terminator, and no common sequence, whatever the case.
pub record Strong (p : Text) : Type 0 where
  pub long : 8 ≤ length p
  pub short : length p ≤ 64
  pub lower_case : Has (Between b'a' b'z') p
  pub upper_case : Has (Between b'A' b'Z') p
  pub digit : Has (Between b'0' b'9') p
  pub symbol : Has Symbol p
  pub no_repeat : (a : Text) (c : ℕ) (b : Text) → p ≡ a ++ c ∷ c ∷ b → LineTerminator c
  pub no_sequence : All (λ q. ¬ Occurs q (map lower p)) common_sequences

is_lower-Between : (c : ℕ) → is_lower c ≡ true → Between b'a' b'z' c
unfolding is_lower
is_lower-Between c h = ground arith

Between-is_lower : (c : ℕ) → Between b'a' b'z' c → is_lower c ≡ true
unfolding is_lower
Between-is_lower c h = ground arith

is_upper-Between : (c : ℕ) → is_upper c ≡ true → Between b'A' b'Z' c
unfolding is_upper
is_upper-Between c h = ground arith

Between-is_upper : (c : ℕ) → Between b'A' b'Z' c → is_upper c ≡ true
unfolding is_upper
Between-is_upper c h = ground arith

is_digit-Between : (c : ℕ) → is_digit c ≡ true → Between b'0' b'9' c
unfolding is_digit
is_digit-Between c h = ground arith

Between-is_digit : (c : ℕ) → Between b'0' b'9' c → is_digit c ≡ true
unfolding is_digit
Between-is_digit c h = ground arith

is_symbol-Symbol : (c : ℕ) → is_symbol c ≡ true → Symbol c
unfolding is_symbol
is_symbol-Symbol c h = (
  λ l. cc (h, Between-is_lower c l),
  λ u. ground (arith, h, Between-is_upper c u),
  λ d. ground (arith, h, Between-is_digit c d),
)

Symbol-is_symbol : (c : ℕ) → Symbol c → is_symbol c ≡ true
unfolding is_symbol
Symbol-is_symbol c (l, u, d) = elim (Bool-cases (is_lower c)) [
  | inl low ↦ absurd (l (is_lower-Between c low))
  | inr not_low ↦ elim (Bool-cases (is_upper c)) [
    | inl up ↦ absurd (u (is_upper-Between c up))
    | inr not_up ↦ elim (Bool-cases (is_digit c)) [
      | inl dig ↦ absurd (d (is_digit-Between c dig))
      | inr not_dig ↦ rw (not_low, not_up, not_dig) refl
    ]
  ]
]

-- What `validate_password` answers with no error.
record Passes (p : Text) : Type 0 where
  long : ltb (length p) min_length_rule ≡ false
  short : ltb max_length_rule (length p) ≡ false
  lower_case : any is_lower p ≡ true
  upper_case : any is_upper p ≡ true
  digit : any is_digit p ≡ true
  symbol : any is_symbol p ≡ true
  no_repeat : has_repeat p ≡ false
  no_sequence : has_sequence p ≡ false

validate_password-Passes : (p : Text) → validate_password p ≡ [] → Passes p
unfolding validate_password
validate_password-Passes p h = ground arith

Passes-validate_password : (p : Text) → Passes p → validate_password p ≡ []
unfolding validate_password
Passes-validate_password p h = ground arith

no_repeat-has_repeat :
    (p : Text)
    → ((a : Text) (c : ℕ) (b : Text) → p ≡ a ++ c ∷ c ∷ b → LineTerminator c)
    → has_repeat p ≡ false
no_repeat-has_repeat p h = elim (Bool-cases (has_repeat p)) [
  | inl found ↦
      let (a, c, b, e, free) = has_repeat-pair p found in
      cc (LineTerminator-is_line_terminator c (h a c b e), free)
  | inr missing ↦ missing
]

has_repeat-no_repeat :
    (p : Text)
    → has_repeat p ≡ false
    → (a : Text) (c : ℕ) (b : Text) → p ≡ a ++ c ∷ c ∷ b
    → LineTerminator c
has_repeat-no_repeat p h a c b e = elim (Bool-cases (is_line_terminator c)) [
  | inl ends ↦ is_line_terminator-LineTerminator c ends
  | inr free ↦ cc (h, ap has_repeat e, has_repeat-append a c b free)
]

Passes-Strong : (p : Text) → Passes p → Strong p
unfolding has_sequence
Passes-Strong p h = record {
  long = ground (arith, h.long);
  short = ground (arith, h.short);
  lower_case = any-Has is_lower _ p is_lower-Between h.lower_case;
  upper_case = any-Has is_upper _ p is_upper-Between h.upper_case;
  digit = any-Has is_digit _ p is_digit-Between h.digit;
  symbol = any-Has is_symbol _ p is_symbol-Symbol h.symbol;
  no_repeat = has_repeat-no_repeat p h.no_repeat;
  no_sequence = any-All (map lower p) common_sequences h.no_sequence;
}

Strong-Passes : (p : Text) → Strong p → Passes p
unfolding has_sequence
Strong-Passes p h = record {
  long = ground (arith, h.long);
  short = ground (arith, h.short);
  lower_case = Has-any is_lower _ p Between-is_lower h.lower_case;
  upper_case = Has-any is_upper _ p Between-is_upper h.upper_case;
  digit = Has-any is_digit _ p Between-is_digit h.digit;
  symbol = Has-any is_symbol _ p Symbol-is_symbol h.symbol;
  no_repeat = no_repeat-has_repeat p h.no_repeat;
  no_sequence = All-any (map lower p) common_sequences h.no_sequence;
}

validate-passes :
    (p : Text) (v : PasswordStrengthValidator) → (validate p v).0 ≡ true → validate_password p ≡ []
unfolding validate
validate-passes [] v h = cc
validate-passes (c ∷ s) v h = ground arith

passes-validate :
    (p : Text) (v : PasswordStrengthValidator)
    → 8 ≤ length p
    → validate_password p ≡ []
    → (validate p v).0 ≡ true
unfolding validate
passes-validate [] v long h = absurd (omega arith)
passes-validate (c ∷ s) v long h = ground arith

-- A password is accepted exactly when it has between 8 and 64 units, a lower-case and an upper-case
-- letter, a digit, and a unit that is none of these, no unit twice in a row other than a line
-- terminator, and none of the common sequences in any case.
pub validate_iff : (p : Text) (v : PasswordStrengthValidator) → ((validate p v).0 ≡ true) ↔ Strong p
validate_iff p v = (
  λ h. Passes-Strong p (validate_password-Passes p (validate-passes p v h)),
  λ s. passes-validate p v s.long (Passes-validate_password p (Strong-Passes p s)),
)
