-- ===== src/Users/Listing/Export.antt =====
-- The pages of users and the CSV document with all of them.
use api_user.Prelude.{
  ℕ, ◌≡◌, refl, ap, ◌∙◌, sym, List, [], ◌∷◌, map, take, drop, length, Bool, true, false, Option,
  none, some, get_or, zero, suc, ◌-◌, ◌*◌, ◌==◌,
}
use api_user.Csv.{Text, CsvCellValue, field_text}
use api_user.Csv.Reader.{read_csv}
use api_user.Csv.RoundTrip.{texts, Filled, read_csv-to_csv}
use api_user.Redis.{codes}
use api_user.Pages.{of, paginate_rbac_items}
use api_user.Exec.{ok}
use api_user.Users.{User, role_name}
use api_user.Users.Search.{RegExps}
use api_user.Users.Listing.{
  PaginationQuery, Columns, AdminUser, admin_user, matching, find_paginated, find_all_filtered,
  csv_row, csv_headers, export_users_csv, iso_or_empty, iso_date, build_list_filter, text_or_null,
  sort_field,
}
use api_user.Env.{Env}
use api_user.World.{World}

module _ (env : Env) (r : RegExps) (columns : Columns) where
  -- What a line of the document says of a user.
  abbrev pub flag : Bool → Text
  flag true = codes "true"
  flag false = codes "false"

  abbrev pub shown : User → List Text
  shown u =
      codes u.id
      ∷ codes u.name
      ∷ codes u.last_name
      ∷ codes u.email
      ∷ codes u.user_name
      ∷ codes (role_name u.role)
      ∷ flag u.is_active
      ∷ columns.iso u.created_at
      ∷ iso_or_empty env r columns (columns.updated_at u.id)
      ∷ iso_or_empty env r columns u.locked_until
      ∷ columns.digits u.failed_login_attempts
      ∷ []

  -- The users that the filters match, in the order that was asked for.
  abbrev pub listed : PaginationQuery → World env → List User
  listed q w =
      columns.sort (sort_field (get_or q.sort_by "createdAt")) (get_or q.sort_order "desc" == "asc")
        (env.users.find w.users (build_list_filter r q.filter))

  flag_text : (b : Bool) → field_text columns.digits (CsvCellValue.boolean b) ≡ flag b
  unfolding field_text
  flag_text true = refl
  flag_text false = refl

  date_text :
      (d : Option ℕ)
      → field_text columns.digits (text_or_null (iso_date columns.iso d))
        ≡ iso_or_empty env r columns d
  unfolding field_text
  date_text none = refl
  date_text (some date) = refl

  row-shown :
      (u : User)
      → texts columns.digits (csv_row env r columns (admin_user env r columns u)) ≡ shown u
  unfolding csv_row admin_user field_text
  row-shown u = cc (flag_text u.is_active, date_text u.locked_until)

  rows-shown :
      (us : List User)
      → map (texts columns.digits) (map (csv_row env r columns) (map (admin_user env r columns) us))
        ≡ map shown us
  rows-shown [] = refl
  rows-shown (u ∷ us) = cc (row-shown u, rows-shown us)

  rows-Filled :
      (us : List User)
      → Filled columns.digits (map (csv_row env r columns) (map (admin_user env r columns) us))
  unfolding csv_row
  rows-Filled [] = tt
  rows-Filled (u ∷ us) = rows-Filled us

  -- The export answers, changes nothing, and is read by the rules of RFC 4180 as the headers and a
  -- line for each user that the filters match, in order, with these eleven values of the user alone.
  pub read_csv-export_users_csv :
      (q : PaginationQuery) (w : World env)
      → (document : Text) × (export_users_csv env r columns q w ≡ (ok document, w))
        × (read_csv document ≡ some (csv_headers ∷ map shown (listed q w)))
  unfolding export_users_csv find_all_filtered matching
  read_csv-export_users_csv q w =
      let rows : List (List (CsvCellValue ℕ)) =
        map (csv_row env r columns) (map (admin_user env r columns) (listed q w)) in
      (
        _,
        refl,
        read_csv-to_csv columns.digits (codes "id") _ rows (rows-Filled (listed q w))
            ∙ ap (λ lines. some (csv_headers ∷ lines)) (rows-shown (listed q w)),
      )

  module _ {A B : Type 0} (f : A → B) where
    take-map : (n : ℕ) (xs : List A) → map f (take n xs) ≡ take n (map f xs)
    take-map zero xs = refl
    take-map (suc n) [] = refl
    take-map (suc n) (x ∷ xs) = ap (λ ys. f x ∷ ys) (take-map n xs)

    drop-map : (n : ℕ) (xs : List A) → map f (drop n xs) ≡ drop n (map f xs)
    drop-map zero xs = refl
    drop-map (suc n) [] = refl
    drop-map (suc n) (x ∷ xs) = drop-map n xs

    length-map : (xs : List A) → length (map f xs) ≡ length xs
    length-map [] = refl
    length-map (x ∷ xs) = ap suc (length-map xs)

  -- The list answers, changes nothing, and its page is that of the users whom the export has: it
  -- cuts the list that `findAllFiltered` gives for the same query as `paginateRbacItems` cuts lists.
  pub find_paginated-pages :
      (q : PaginationQuery) (w : World env)
      → (users : List AdminUser) × (find_all_filtered env r columns q w ≡ (ok users, w))
        × (find_paginated env r columns q w
            ≡ (ok (paginate_rbac_items users (some (get_or q.page 1)) q.limit), w))
  unfolding find_paginated find_all_filtered matching
  find_paginated-pages q w =
      let page = get_or q.page 1 in
      let limit = get_or q.limit 20 in
      let skip = (page - 1) * limit in
      let us = listed q w in
      let show = admin_user env r columns in
      let rows : map show (take limit (drop skip us)) ≡ take limit (drop skip (map show us)) =
        take-map show limit (drop skip us) ∙ ap (take limit) (drop-map show skip us) in
      let total : length (env.users.find w.users (build_list_filter r q.filter))
          ≡ length (map show us) =
        sym (length-map show us ∙ columns.length-sort _ _ _) in
      (
        map show us,
        refl,
        ap
              (λ (xs : List AdminUser). (
                ok (
                    of xs (length (env.users.find w.users (build_list_filter r q.filter))) page
                      limit),
                w,
              ))
              rows
            ∙ ap (λ (n : ℕ). (ok (of (take limit (drop skip (map show us))) n page limit), w))
                total,
      )
