-- ===== src/Csv/Reader.antt =====
-- A reader of CSV documents after RFC 4180, which common/utils/csv.ts names: rows end with CRLF, a
-- field is plain or quoted, and a quote inside a quoted field is doubled. It refuses all else.
use api_user.Prelude.{ℕ, List, [], ◌∷◌, ◌++◌, Option, none, some, nat_eq, if◌then◌else◌}
use api_user.Csv.{Text, comma, quote, carriage_return, line_feed}

-- `start` is before a field, `closed` behind a quote in a quoted field, `ending` behind a CR.
pub data Mode : Type 0 where
  start plain quoted closed ending : Mode

pub record State : Type 0 where
  pub mode : Mode
  pub field : Text
  pub row : List Text
  pub rows : List (List Text)

pub data Kind : Type 0 where
  comma_kind quote_kind cr_kind lf_kind other_kind : Kind

unfoldable pub kind : ℕ → Kind
kind c =
    if nat_eq c comma
    then comma_kind
    else if nat_eq c quote
    then quote_kind
    else if nat_eq c carriage_return
    then cr_kind
    else if nat_eq c line_feed
    then lf_kind
    else other_kind

abbrev pub take_unit : Mode → ℕ → State → State
take_unit m c st = record st { mode = m; field = st.field ++ c ∷ [] }

abbrev pub end_field : State → State
end_field st = record st { mode = start; field = []; row = st.row ++ st.field ∷ [] }

abbrev pub all_rows : State → List (List Text)
all_rows st = st.rows ++ (st.row ++ st.field ∷ []) ∷ []

abbrev pub end_row : State → State
end_row st = record { mode = start; field = []; row = []; rows = all_rows st }

unfoldable pub step_in : Mode → Kind → ℕ → State → Option State
step_in quoted quote_kind c st = some (record st { mode = closed })
step_in quoted comma_kind c st = some (take_unit quoted c st)
step_in quoted cr_kind c st = some (take_unit quoted c st)
step_in quoted lf_kind c st = some (take_unit quoted c st)
step_in quoted other_kind c st = some (take_unit quoted c st)
step_in ending lf_kind c st = some (end_row st)
step_in ending comma_kind c st = none
step_in ending quote_kind c st = none
step_in ending cr_kind c st = none
step_in ending other_kind c st = none
step_in start quote_kind c st = some (record st { mode = quoted })
step_in plain quote_kind c st = none
step_in closed quote_kind c st = some (take_unit quoted c st)
step_in start comma_kind c st = some (end_field st)
step_in plain comma_kind c st = some (end_field st)
step_in closed comma_kind c st = some (end_field st)
step_in start cr_kind c st = some (record st { mode = ending })
step_in plain cr_kind c st = some (record st { mode = ending })
step_in closed cr_kind c st = some (record st { mode = ending })
step_in start lf_kind c st = none
step_in plain lf_kind c st = none
step_in closed lf_kind c st = none
step_in start other_kind c st = some (take_unit plain c st)
step_in plain other_kind c st = some (take_unit plain c st)
step_in closed other_kind c st = none

unfoldable pub run : State → Text → Option State
unfolding step_in kind
run st [] = some st
run st (c ∷ s) = elim (step_in st.mode (kind c) c st) [ none ↦ none | some st' ↦ run st' s ]

unfoldable pub finish_in : Mode → State → Option (List (List Text))
finish_in quoted st = none
finish_in ending st = none
finish_in start st = some (all_rows st)
finish_in plain st = some (all_rows st)
finish_in closed st = some (all_rows st)

unfoldable pub read_csv : Text → Option (List (List Text))
unfolding run finish_in
read_csv s = elim (run (record { mode = start; field = []; row = []; rows = [] }) s) [
  | none ↦ none
  | some st ↦ finish_in st.mode st
]
