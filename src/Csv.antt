-- ===== src/Csv.antt =====
-- common/utils/csv.ts: the texts of a CSV document, as lists of UTF-16 code units.
pub mod Reader
pub mod RoundTrip
use api_user.Prelude.{
  ℕ, List, [], ◌∷◌, ◌++◌, map, Bool, true, false, ◌||◌, any, nat_eq, if◌then◌else◌,
}

abbrev pub Text : Type 0
Text = List ℕ

abbrev pub comma : ℕ
comma = b','

abbrev pub quote : ℕ
quote = b'"'

abbrev pub carriage_return : ℕ
carriage_return = 13

abbrev pub line_feed : ℕ
line_feed = 10

-- A cell holds a number by its value; `print` is `String` of a number.
pub data CsvCellValue (N : Type 0) : Type 0 where
  text : Text → CsvCellValue N
  number : N → CsvCellValue N
  boolean : Bool → CsvCellValue N
  null undefined : CsvCellValue N

-- The class `[",\r\n]`.
unfoldable pub is_special : ℕ → Bool
is_special c = nat_eq c quote || nat_eq c comma || nat_eq c carriage_return || nat_eq c line_feed

-- `field.replace(/"/g, '""')`
unfoldable pub doubled : Text → Text
doubled [] = []
doubled (c ∷ s) = (if nat_eq c quote then quote ∷ quote ∷ [] else c ∷ []) ++ doubled s

unfoldable pub escaped : Text → Text
escaped field = if any is_special field then quote ∷ (doubled field ++ quote ∷ []) else field

-- `xs.join(separator)`
unfoldable pub join : Text → List Text → Text
join separator [] = []
join separator (x ∷ []) = x
join separator (x ∷ y ∷ ys) = x ++ (separator ++ join separator (y ∷ ys))

module _ {N : Type 0} (print : N → Text) where
  -- The text of a value: empty for a missing one.
  unfoldable pub field_text : CsvCellValue N → Text
  field_text (text s) = s
  field_text (number n) = print n
  field_text (boolean true) = b't' ∷ b'r' ∷ b'u' ∷ b'e' ∷ []
  field_text (boolean false) = b'f' ∷ b'a' ∷ b'l' ∷ b's' ∷ b'e' ∷ []
  field_text null = []
  field_text undefined = []

  unfoldable pub escape_csv_field : CsvCellValue N → Text
  escape_csv_field value = escaped (field_text value)

  unfoldable pub line : List (CsvCellValue N) → Text
  line row = join (comma ∷ []) (map escape_csv_field row)

  unfoldable pub to_csv : List Text → List (List (CsvCellValue N)) → Text
  to_csv headers rows = join (carriage_return ∷ line_feed ∷ []) (map line (map text headers ∷ rows))
