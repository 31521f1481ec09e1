-- ===== src/Csv/RoundTrip.antt =====
-- Reading what common/utils/csv.ts writes.
use api_user.Prelude.{
  List, [], ◌∷◌, ◌++◌, map, ◌≡◌, refl, ◌∙◌, sym, ap, false, some, any, arith, Bool-cases,
  Option-cases, inl, inr,
}
use mathlib.Core.List.{append_assoc, append-nil}
use mathlib.Core.Path.{subst}
use api_user.Csv.{
  Text, comma, quote, carriage_return, line_feed, CsvCellValue, text, is_special, doubled, escaped,
  join, field_text, escape_csv_field, line, to_csv,
}
use api_user.Csv.Reader.{
  Mode, start, plain, quoted, closed, ending, State, all_rows, step_in, kind, run, finish_in,
  read_csv,
}

abbrev at : Mode → Text → List Text → List (List Text) → State
at m f row rows = record { mode = m; field = f; row = row; rows = rows }

run-append : (a b : Text) (st st' : State) → run st a ≡ some st' → run st (a ++ b) ≡ run st' b
unfolding run
run-append [] b st st' h = ground arith
run-append (c ∷ a) b st st' h = elim (Option-cases (step_in st.mode (kind c) c st)) [
  | inl stuck ↦ absurd (ground (arith, stuck))
  | inr (st1, e) ↦
      let head : run st1 a ≡ some st' = ground (arith, e, h) in
      ground (arith, e, run-append a b st1 st' head)
]

-- A quoted field is read up to the quote that closes it.
run-doubled :
    (s f : Text) (row : List Text) (rows : List (List Text))
    → run (at quoted f row rows) (doubled s) ≡ some (at quoted (f ++ s) row rows)
unfolding run doubled
run-doubled [] f row rows = rw append-nil
run-doubled (c ∷ s) f row rows =
    ground (arith, run-doubled s (f ++ c ∷ []) row rows, append_assoc f (c ∷ []) s)

run-plain :
    (s f : Text) (row : List Text) (rows : List (List Text))
    → any is_special s ≡ false
    → run (at plain f row rows) s ≡ some (at plain (f ++ s) row rows)
unfolding run is_special
run-plain [] f row rows h = rw append-nil
run-plain (c ∷ s) f row rows h =
    ground (arith, run-plain s (f ++ c ∷ []) row rows, append_assoc f (c ∷ []) s)

-- The modes in which a field may end.
abbrev Ends : Mode → Type 0
Ends start = Unit
Ends plain = Unit
Ends closed = Unit
Ends quoted = ⊥
Ends ending = ⊥

-- What reading a field leaves: a state in which the field may end.
record Field (f : Text) (row : List Text) (rows : List (List Text)) (s : Text) : Type 0 where
  mode : Mode
  ends : Ends mode
  reads : run (at start [] row rows) s ≡ some (at mode f row rows)

bare-Field :
    (f : Text) (row : List Text) (rows : List (List Text))
    → any is_special f ≡ false
    → Field f row rows f
unfolding run is_special
bare-Field [] row rows h = record { mode = start; ends = tt; reads = refl }
bare-Field (c ∷ f) row rows h = record {
  mode = plain;
  ends = tt;
  reads = ground (arith, run-plain f (c ∷ []) row rows);
}

run-escaped :
    (f : Text) (row : List Text) (rows : List (List Text))
    → run (at quoted [] row rows) (doubled f ++ quote ∷ []) ≡ some (at closed f row rows)
run-escaped f row rows =
    run-append (doubled f) (quote ∷ []) (at quoted [] row rows) (at quoted f row rows)
      (run-doubled f [] row rows)
    ∙ unfold run in refl

escaped-Field :
    (f : Text) (row : List Text) (rows : List (List Text)) → Field f row rows (escaped f)
unfolding escaped
escaped-Field f row rows = elim (Bool-cases (any is_special f)) [
  | inl special ↦ record {
    mode = closed;
    ends = tt;
    reads = rw special (unfold run in run-escaped f row rows);
  }
  | inr bare ↦ rw bare (bare-Field f row rows bare)
]

-- What reading the fields of a row, or some rows, leaves.
record Rows (all : List (List Text)) (st : State) (s : Text) : Type 0 where
  last : State
  ends : Ends last.mode
  rows : all_rows last ≡ all
  reads : run st s ≡ some last

run-comma :
    (m : Mode) (f : Text) (row : List Text) (rows : List (List Text)) (s : Text)
    → Ends m
    → run (at m f row rows) (comma ∷ s) ≡ run (at start [] (row ++ f ∷ []) rows) s
unfolding run
run-comma start f row rows s e = refl
run-comma plain f row rows s e = refl
run-comma closed f row rows s e = refl
run-comma quoted f row rows s e = absurd e
run-comma ending f row rows s e = absurd e

run_newline :
    (m : Mode) (f : Text) (row : List Text) (rows : List (List Text)) (s : Text)
    → Ends m
    → run (at m f row rows) (carriage_return ∷ line_feed ∷ s)
      ≡ run (at start [] [] (rows ++ (row ++ f ∷ []) ∷ [])) s
unfolding run
run_newline start f row rows s e = refl
run_newline plain f row rows s e = refl
run_newline closed f row rows s e = refl
run_newline quoted f row rows s e = absurd e
run_newline ending f row rows s e = absurd e

fields-Rows :
    (f : Text) (fs row : List Text) (rows : List (List Text))
    → Rows
        (rows ++ (row ++ f ∷ fs) ∷ [])
        (at start [] row rows)
        (join (comma ∷ []) (map escaped (f ∷ fs)))
unfolding join
fields-Rows f [] row rows =
    let field = escaped-Field f row rows in
    record { last = at field.mode f row rows; ends = field.ends; rows = refl; reads = field.reads }
fields-Rows f (g ∷ fs) row rows =
    let field = escaped-Field f row rows in
    let rest = fields-Rows g fs (row ++ f ∷ []) rows in
    record {
      last = rest.last;
      ends = rest.ends;
      rows = rest.rows ∙ ap (λ r. rows ++ r ∷ []) (append_assoc row (f ∷ []) (g ∷ fs));
      reads =
          run-append (escaped f) _ (at start [] row rows) (at field.mode f row rows) field.reads
          ∙ run-comma field.mode f row rows _ field.ends
          ∙ rest.reads;
    }

module _ {N : Type 0} (print : N → Text) where
  -- No row is empty: a row with no field and a row with one empty field are written alike.
  abbrev pub Filled : List (List (CsvCellValue N)) → Type 0
  Filled [] = Unit
  Filled ([] ∷ rows) = ⊥
  Filled ((v ∷ vs) ∷ rows) = Filled rows

  abbrev pub texts : List (CsvCellValue N) → List Text
  texts = map (field_text print)

  map-escape_csv_field :
      (row : List (CsvCellValue N)) → map (escape_csv_field print) row ≡ map escaped (texts row)
  unfolding escape_csv_field
  map-escape_csv_field [] = refl
  map-escape_csv_field (v ∷ row) = cc (map-escape_csv_field row)

  line-Rows :
      (v : CsvCellValue N) (vs : List (CsvCellValue N)) (rows : List (List Text))
      → Rows (rows ++ texts (v ∷ vs) ∷ []) (at start [] [] rows) (line print (v ∷ vs))
  unfolding line
  line-Rows v vs rows =
      subst (λ s. Rows (rows ++ texts (v ∷ vs) ∷ []) (at start [] [] rows) (join (comma ∷ []) s))
        (sym (map-escape_csv_field (v ∷ vs))) (fields-Rows (field_text print v) (texts vs) [] rows)

  lines-Rows :
      (v : CsvCellValue N) (vs : List (CsvCellValue N)) (rest : List (List (CsvCellValue N)))
      (rows : List (List Text))
      → Filled rest
      → Rows
          (rows ++ map texts ((v ∷ vs) ∷ rest))
          (at start [] [] rows)
          (join (carriage_return ∷ line_feed ∷ []) (map (line print) ((v ∷ vs) ∷ rest)))
  unfolding join
  lines-Rows v vs [] rows filled = line-Rows v vs rows
  lines-Rows v vs ([] ∷ rest) rows filled = absurd filled
  lines-Rows v vs ((u ∷ us) ∷ rest) rows filled =
      let one = line-Rows v vs rows in
      let more = lines-Rows u us rest (rows ++ texts (v ∷ vs) ∷ []) filled in
      let tail : Text =
        join (carriage_return ∷ line_feed ∷ []) (map (line print) ((u ∷ us) ∷ rest)) in
      record {
        last = more.last;
        ends = more.ends;
        rows = more.rows ∙ append_assoc rows (texts (v ∷ vs) ∷ []) _;
        reads =
            run-append (line print (v ∷ vs)) _ (at start [] [] rows) one.last one.reads
            ∙ run_newline one.last.mode one.last.field one.last.row one.last.rows tail one.ends
            ∙ ap (λ r. run (at start [] [] r) tail) one.rows
            ∙ more.reads;
      }

  finish-Ends : (m : Mode) (st : State) → Ends m → finish_in m st ≡ some (all_rows st)
  unfolding finish_in
  finish-Ends start st e = refl
  finish-Ends plain st e = refl
  finish-Ends closed st e = refl
  finish-Ends quoted st e = absurd e
  finish-Ends ending st e = absurd e

  map-texts : (headers : List Text) → texts (map text headers) ≡ headers
  unfolding field_text
  map-texts [] = refl
  map-texts (h ∷ headers) = cc (map-texts headers)

  -- A document with at least one column, in which every row has a field, is read back by the rules
  -- of RFC 4180 as its headers and the texts of its values, row by row, whatever commas, quotes and
  -- line breaks they hold.
  pub read_csv-to_csv :
      (header : Text) (headers : List Text) (rows : List (List (CsvCellValue N)))
      → Filled rows
      → read_csv (to_csv print (header ∷ headers) rows) ≡ some ((header ∷ headers) ∷ map texts rows)
  unfolding read_csv to_csv join
  read_csv-to_csv header headers rows filled =
      let done = lines-Rows (text header) (map text headers) rows [] filled in
      rw done.reads (
        finish-Ends done.last.mode done.last done.ends
        ∙ ap some done.rows
        ∙ ap (λ hs. some (hs ∷ map texts rows)) (map-texts (header ∷ headers)))
