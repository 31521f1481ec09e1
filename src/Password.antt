-- ===== src/Password.antt =====
-- common/validators/password-strength.validator.ts, with the codes and rules of
-- common/interfaces/password-validation.interface.ts. A password is its UTF-16 code units.
pub mod Search
pub mod Strength
use api_user.Prelude.{
  ℕ, ◌+◌, List, [], ◌∷◌, ◌++◌, map, Bool, true, false, not, ◌&&◌, ◌||◌, length, any, nat_eq, ltb,
  leb, Option, none, some, if◌then◌else◌,
}
use api_user.Csv.{Text, join}

-- `PASSWORD_ERROR_CODES`, by their keys.
pub data ErrorCode : Type 0 where
  min_length max_length lowercase uppercase number special_char consecutive sequence : ErrorCode

-- `PASSWORD_RULES`
abbrev pub min_length_rule : ℕ
min_length_rule = 8

abbrev pub max_length_rule : ℕ
max_length_rule = 64

abbrev pub common_sequences : List Text
common_sequences =
    (b'1' ∷ b'2' ∷ b'3' ∷ [])
    ∷ (b'a' ∷ b'b' ∷ b'c' ∷ [])
    ∷ (b'q' ∷ b'w' ∷ b'e' ∷ [])
    ∷ (b'a' ∷ b's' ∷ b'd' ∷ [])
    ∷ (b'z' ∷ b'x' ∷ b'c' ∷ [])
    ∷ []

abbrev pub between : ℕ → ℕ → ℕ → Bool
between lo hi c = leb lo c && leb c hi

-- The classes `[a-z]`, `[A-Z]`, `[0-9]` and `[^a-zA-Z0-9]`.
unfoldable pub is_lower : ℕ → Bool
is_lower = between b'a' b'z'

unfoldable pub is_upper : ℕ → Bool
is_upper = between b'A' b'Z'

unfoldable pub is_digit : ℕ → Bool
is_digit = between b'0' b'9'

unfoldable pub is_symbol : ℕ → Bool
unfolding is_lower is_upper is_digit
is_symbol c = not (is_lower c || is_upper c || is_digit c)

-- What `.` does not match.
unfoldable pub is_line_terminator : ℕ → Bool
is_line_terminator c = nat_eq c 10 || nat_eq c 13 || nat_eq c 8232 || nat_eq c 8233

-- `/(.)\1/`
unfoldable pub has_repeat : Text → Bool
has_repeat [] = false
has_repeat (c ∷ []) = false
has_repeat (c ∷ d ∷ s) = (nat_eq c d && not (is_line_terminator c)) || has_repeat (d ∷ s)

-- The lower case of a unit. No unit that is not ASCII has a letter of a common sequence as its
-- lower case, so that the others may stay as they are.
unfoldable pub lower : ℕ → ℕ
lower c = if between b'A' b'Z' c then c + 32 else c

unfoldable pub starts_with : Text → Text → Bool
starts_with s [] = true
starts_with [] (d ∷ q) = false
starts_with (c ∷ s) (d ∷ q) = nat_eq c d && starts_with s q

-- `s.includes(q)`
unfoldable pub includes_text : Text → Text → Bool
unfolding starts_with
includes_text [] q = starts_with [] q
includes_text (c ∷ s) q = starts_with (c ∷ s) q || includes_text s q

-- The loop over the sequences, which stops at the first that is found.
unfoldable pub has_sequence : Text → Bool
unfolding lower includes_text
has_sequence password = any (includes_text (map lower password)) common_sequences

-- `if (broken) errors.push(code)` before the rules that follow.
abbrev pub push_if : Bool → ErrorCode → List ErrorCode → List ErrorCode
push_if true e errors = e ∷ errors
push_if false e errors = errors

unfoldable pub validate_password : Text → List ErrorCode
validate_password password = push_if (ltb (length password) min_length_rule) min_length (
    push_if (not (any is_lower password)) lowercase (
      push_if (not (any is_upper password)) uppercase (
        push_if (not (any is_digit password)) number (
          push_if (not (any is_symbol password)) special_char (
            push_if (ltb max_length_rule (length password)) max_length (
              push_if (has_repeat password) consecutive
                (push_if (has_sequence password) sequence [])))))))

-- The instance that class-validator shares: `__validationErrors` of the last password refused.
pub record PasswordStrengthValidator : Type 0 where
  pub validation_errors : Option (List ErrorCode)

abbrev pub keep_errors :
    List ErrorCode → PasswordStrengthValidator → Bool × PasswordStrengthValidator
keep_errors [] v = (true, v)
keep_errors (e ∷ errors) v = (false, record v { validation_errors = some (e ∷ errors) })

unfoldable pub validate : Text → PasswordStrengthValidator → Bool × PasswordStrengthValidator
validate [] v = (false, v)
validate (c ∷ s) v = keep_errors (validate_password (c ∷ s)) v

-- What `errors.join('|')` joins; with no errors it is `'PASSWORD_INVALID'`.
abbrev pub message_of : Option (List ErrorCode) → Option (List ErrorCode)
message_of none = none
message_of (some []) = none
message_of (some (e ∷ errors)) = some (e ∷ errors)

-- `none` stands for `'PASSWORD_INVALID'`, a list for the codes that are joined.
unfoldable pub default_message : PasswordStrengthValidator → Option (List ErrorCode)
default_message v = message_of v.validation_errors
