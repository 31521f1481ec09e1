-- ===== src/Tests/Texts.antt =====
-- CSV documents and passwords.
use api_user.Prelude.{ℕ, List, [], ◌∷◌, map, ◌≡◌, refl, true, false, some, none, ◌+◌}
use api_user.Redis.{codes}
use api_user.Csv.{
  Text, CsvCellValue, text, number, boolean, null, is_special, doubled, escaped, join, field_text,
  escape_csv_field, line, to_csv,
}
use api_user.Csv.Reader.{read_csv}
use api_user.Csv.RoundTrip.{texts, read_csv-to_csv}
use api_user.Password.{
  PasswordStrengthValidator, validate, validate_password, min_length, uppercase, special_char,
  consecutive, sequence, default_message, has_repeat, has_sequence, is_lower, is_upper, is_digit,
  is_symbol, is_line_terminator, lower, starts_with, includes_text,
}
use api_user.Password.Strength.{Strong, validate_iff}

-- A number prints as a digit.
abbrev print : ℕ → Text
print n = (b'0' + n) ∷ []

abbrev table : List (List (CsvCellValue ℕ))
table =
    (text (codes "Ana, \"R\"") ∷ number 7 ∷ null ∷ [])
    ∷ (text (codes "a\r\nb") ∷ boolean true ∷ text [] ∷ [])
    ∷ []

written :
    to_csv print (codes "id" ∷ codes "n" ∷ codes "x" ∷ []) table
    ≡ codes "id,n,x\r\n\"Ana, \"\"R\"\"\",7,\r\n\"a\r\nb\",true,"
unfolding to_csv line join escape_csv_field escaped doubled is_special field_text
written = refl

read_csv-to_csv_example :
    read_csv (to_csv print (codes "id" ∷ codes "n" ∷ codes "x" ∷ []) table)
    ≡ some ((codes "id" ∷ codes "n" ∷ codes "x" ∷ []) ∷ map (texts print) table)
read_csv-to_csv_example = read_csv-to_csv print (codes "id") (codes "n" ∷ codes "x" ∷ []) table tt

-- A bare quote is refused, and so is a line that ends in a line feed alone.
bare_quote : read_csv (codes "a\"b") ≡ none
unfolding read_csv
bare_quote = refl

abbrev fresh : PasswordStrengthValidator
fresh = record { validation_errors = none }

weak :
    validate_password (codes "abc11")
    ≡ min_length ∷ uppercase ∷ special_char ∷ consecutive ∷ sequence ∷ []
unfolding validate_password has_repeat has_sequence is_lower is_upper is_digit is_symbol
    is_line_terminator lower includes_text starts_with
weak = refl

accepted : (validate (codes "Tr4il#mix") fresh).0 ≡ true
unfolding validate validate_password has_repeat has_sequence is_lower is_upper is_digit is_symbol
    is_line_terminator lower includes_text starts_with
accepted = refl

-- Two line feeds in a row are no repetition.
line_feeds : has_repeat (10 ∷ 10 ∷ []) ≡ false
unfolding has_repeat is_line_terminator
line_feeds = refl

-- An empty password is refused with the errors of the password before it.
stale :
    default_message (validate [] (validate (codes "Tr4il#m") fresh).1).1 ≡ some (min_length ∷ [])
unfolding default_message validate validate_password has_repeat has_sequence is_lower is_upper
    is_digit is_symbol is_line_terminator lower includes_text starts_with
stale = refl

validate_iff_example : Strong (codes "Tr4il#mix")
validate_iff_example = (validate_iff (codes "Tr4il#mix") fresh).0 accepted
