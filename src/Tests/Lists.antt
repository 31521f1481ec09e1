-- ===== src/Tests/Lists.antt =====
-- The lists of users, with texts that are searched in lower case and dates that print as a digit.
use api_user.Prelude.{
  ℕ, ◌+◌, ◌*◌, ◌≤◌, ◌≡◌, refl, ap, Bool, true, false, Option, none, some, List, [], ◌∷◌, map,
  length,
}
use api_user.Csv.{Text}
use api_user.Csv.Reader.{read_csv}
use api_user.Password.{includes_text, starts_with}
use api_user.Parameters.Text.{lower, trim, trim_start, trim_end, is_space}
use api_user.Redis.{codes}
use api_user.Pages.{paginate_rbac_items}
use api_user.Exec.{ok}
use api_user.Users.{User}
use api_user.Users.Search.{RegExps, is_syntax, escape_reg_exp, literal}
use api_user.Users.Listing.{
  ListFilter, PaginationQuery, Columns, AdminUser, search_matches, build_list_filter,
  find_paginated, find_all_filtered, csv_headers, export_users_csv,
}
use api_user.Users.Listing.Filter.{Listed, build_list_filter_iff}
use api_user.Users.Listing.Export.{shown, listed, read_csv-export_users_csv, find_paginated-pages}
use api_user.Users.Metrics.{
  UserMetrics, facets, aggregate_metrics, count, within, aggregate_metrics-windows,
}
use api_user.World.{World}
use api_user.Tests.Outside.{env, plain, world}

abbrev test_with : Option Text → Text → Bool
test_with none s = false
test_with (some t) s = includes_text (map lower s) (map lower t)

abbrev reg_exps : RegExps
reg_exps = record {
  test = λ p s. test_with (literal p) s;
  fold = lower;
  test-literal = λ p t s h. ap (λ o. test_with o s) h;
}

abbrev columns : Columns
columns = record {
  iso = λ n. codes "d";
  updated_at = λ id. none;
  sort = λ field ascending us. us;
  digits = λ n. (b'0' + n) ∷ [];
  length-sort = λ field ascending us. refl;
}

abbrev start : World env
start =
    world (plain "u" "u@x") (record (plain "v" "v@x") { deleted_at = some 5; last_name = "O,K" }) 0
      true

abbrev dotted : ListFilter
dotted = record { role = some "user"; is_active = none; search = some (codes " @X ") }

escaped_dot : escape_reg_exp (codes "a.b") ≡ codes "a\\.b"
unfolding escape_reg_exp is_syntax
escaped_dot = refl

matched : build_list_filter reg_exps dotted (plain "u" "u@x") ≡ true
unfolding build_list_filter search_matches escape_reg_exp literal is_syntax includes_text
    starts_with lower trim trim_start trim_end is_space
matched = refl

deleted_left_out :
    build_list_filter reg_exps dotted (record (plain "u" "u@x") { deleted_at = some 5 }) ≡ false
unfolding build_list_filter
deleted_left_out = refl

build_list_filter_iff_example : Listed reg_exps dotted (plain "u" "u@x")
build_list_filter_iff_example = (build_list_filter_iff reg_exps dotted (plain "u" "u@x")).0 matched

abbrev query : PaginationQuery
query = record {
  page = none;
  limit = some 1;
  sort_by = none;
  sort_order = none;
  filter = record { role = none; is_active = some true; search = none };
}

both : length (listed env reg_exps columns query start) ≡ 2
unfolding build_list_filter
both = refl

read_csv-export_users_csv_example :
    (document : Text) × (export_users_csv env reg_exps columns query start ≡ (ok document, start))
    × (read_csv document
        ≡ some (
            csv_headers
            ∷ map (shown env reg_exps columns) (listed env reg_exps columns query start)))
read_csv-export_users_csv_example = read_csv-export_users_csv env reg_exps columns query start

find_paginated-pages_example :
    (users : List AdminUser) × (find_all_filtered env reg_exps columns query start
      ≡ (ok users, start))
    × (find_paginated env reg_exps columns query start
        ≡ (ok (paginate_rbac_items users (some 1) (some 1)), start))
find_paginated-pages_example = find_paginated-pages env reg_exps columns query start

abbrev day : ℕ
day = 86400000

-- Of four users two are of the last thirty days, and one of the thirty days before.
abbrev aged : List User
aged =
    record (plain "a" "a@x") { created_at = 99 * day }
    ∷ record (plain "b" "b@x") { created_at = 70 * day; is_active = false }
    ∷ record (plain "c" "c@x") { created_at = 69 * day }
    ∷ record (plain "d" "d@x") { created_at = 39 * day }
    ∷ []

counted :
    ((facets (100 * day) aged).new_last30_days ≡ 2)
    × ((facets (100 * day) aged).new_previous30_days ≡ 1)
unfolding facets
counted = (refl, refl)

-- A user of that day and one that is deleted.
abbrev today : World env
today = world (plain "a" "a@x") (record (plain "b" "b@x") { deleted_at = some 7 }) 1 true

aggregate_metrics-windows_example :
    (m : UserMetrics) × (aggregate_metrics env today ≡ (ok m, today))
    × (m.total ≡ 1)
    × (m.new_last30_days ≡ count (within 2592000000 1000) (plain "a" "a@x" ∷ []))
    × (m.new_last30_days + m.new_previous30_days
        ≡ count (within 5184000000 1000) (plain "a" "a@x" ∷ []))
    × (m.new_last30_days + m.new_previous30_days ≤ m.total)
aggregate_metrics-windows_example = aggregate_metrics-windows env today
