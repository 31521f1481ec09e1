-- ===== src/Users/Listing.antt =====
-- The lists of users for administrators: user/repository/user.repository.ts, and the page and the
-- CSV document of user/service/user.service.ts.
pub mod Filter
pub mod Export
use api_user.Prelude.{
  ℕ, ◌-◌, ◌*◌, ◌≡◌, String, List, [], ◌∷◌, ◌++◌, map, take, drop, length, Bool, true, false, not,
  ◌&&◌, ◌||◌, Option, none, some, is_some, get_or, any, every, includes, nat_eq, ltb, ◌==◌,
  if◌then◌else◌,
}
use api_user.Csv.{Text, CsvCellValue, text, number, boolean, null, to_csv}
use api_user.Redis.{codes}
use api_user.Parameters.Text.{trim}
use api_user.Pages.{Paginated, of}
use api_user.Exec.{pure, gets, ◌>>=◌}
use api_user.Users.{User, role_name}
use api_user.Users.Search.{RegExps, found}
use api_user.Env.{Env}
use api_user.World.{M}

pub record ListFilter : Type 0 where
  pub role : Option String
  pub is_active : Option Bool
  pub search : Option Text

-- `PaginationQueryDTO`
pub record PaginationQuery : Type 0 where
  pub page : Option ℕ
  pub limit : Option ℕ
  pub sort_by : Option String
  pub sort_order : Option String
  pub filter : ListFilter

abbrev pub sortable_fields : List String
sortable_fields =
    "name" ∷ "lastName" ∷ "email" ∷ "userName" ∷ "role" ∷ "isActive" ∷ "createdAt" ∷ "updatedAt"
    ∷ []

abbrev pub sort_field : String → String
sort_field sort_by = if includes sortable_fields sort_by then sort_by else "createdAt"

pub data SearchField : Type 0 where
  name last_name email user_name : SearchField

abbrev pub field_text : User → SearchField → Text
field_text u name = codes u.name
field_text u last_name = codes u.last_name
field_text u email = codes u.email
field_text u user_name = codes u.user_name

abbrev pub same_flag : Bool → Bool → Bool
same_flag true b = b
same_flag false b = not b

abbrev pub role_condition : Option String → List (User → Bool)
role_condition none = []
role_condition (some role) = if role == "" then [] else (λ u. role_name u.role == role) ∷ []

abbrev pub active_condition : Option Bool → List (User → Bool)
active_condition none = []
active_condition (some active) = (λ u. same_flag u.is_active active) ∷ []

-- `deletedAt: { $exists: false }` without a filter of the activity.
abbrev pub not_deleted : Option Bool → User → Bool
not_deleted none u = not (is_some u.deleted_at)
not_deleted (some active) u = true

-- `term.slice(1)`, if the term starts with `@` and has more.
abbrev pub user_term : Text → Option Text
user_term [] = none
user_term (c ∷ []) = none
user_term (c ∷ d ∷ s) = if nat_eq c b'@' then some (d ∷ s) else none

-- `Date.toISOString`, the timestamp of the last write of a document and the order of the database:
-- by a field, upwards or downwards.
pub record Columns : Type 1 where
  pub iso : ℕ → Text
  pub updated_at : String → Option ℕ
  pub sort : String → Bool → List User → List User
  pub length-sort :
      (field : String) (ascending : Bool) (us : List User)
      → length (sort field ascending us) ≡ length us
  pub digits : ℕ → Text

module _ (r : RegExps) where
  abbrev pub user_found : Option Text → User → Bool
  user_found none u = false
  user_found (some s) u = found r s (codes u.user_name)

  unfoldable pub search_matches : Text → User → Bool
  search_matches term u =
      any (λ f. found r term (field_text u f)) (name ∷ last_name ∷ email ∷ user_name ∷ [])
      || user_found (user_term term) u

  abbrev pub search_condition : Option Text → List (User → Bool)
  search_condition none = []
  search_condition (some []) = []
  search_condition (some (c ∷ s)) = (λ u. search_matches (trim (c ∷ s)) u) ∷ []

  -- What the filter of the database lets through: all conditions of `$and`.
  unfoldable pub build_list_filter : ListFilter → User → Bool
  unfolding search_matches
  build_list_filter f u =
      not_deleted f.is_active u
      && every (λ condition. condition u)
          (role_condition f.role ++ (active_condition f.is_active ++ search_condition f.search))

-- `AdminUserDTO`
pub record AdminUser : Type 0 where
  pub id : String
  pub name : String
  pub last_name : String
  pub email : String
  pub user_name : String
  pub role : String
  pub created_at : ℕ
  pub updated_at : Option ℕ
  pub is_active : Bool
  pub locked_until : Option Text
  pub failed_login_attempts : ℕ
  pub email_verified : Bool
  pub has_pending_email_change : Bool
  pub has_pending_password_reset : Bool

abbrev pub iso_date : (ℕ → Text) → Option ℕ → Option Text
iso_date iso none = none
iso_date iso (some date) = some (iso date)

abbrev pub text_or_null : Option Text → CsvCellValue ℕ
text_or_null none = null
text_or_null (some s) = text s

abbrev pub csv_headers : List Text
csv_headers =
    codes "id"
    ∷ codes "name"
    ∷ codes "lastName"
    ∷ codes "email"
    ∷ codes "userName"
    ∷ codes "role"
    ∷ codes "isActive"
    ∷ codes "createdAt"
    ∷ codes "updatedAt"
    ∷ codes "lockedUntil"
    ∷ codes "failedLoginAttempts"
    ∷ []

module _ (env : Env) (r : RegExps) (columns : Columns) where
  unfoldable pub admin_user : User → AdminUser
  admin_user u = record {
    id = u.id;
    name = u.name;
    last_name = u.last_name;
    email = u.email;
    user_name = u.user_name;
    role = role_name u.role;
    created_at = u.created_at;
    updated_at = columns.updated_at u.id;
    is_active = u.is_active;
    locked_until = iso_date columns.iso u.locked_until;
    failed_login_attempts = u.failed_login_attempts;
    email_verified = not (is_some u.email_verification_token);
    has_pending_email_change = is_some u.pending_email_token;
    has_pending_password_reset = is_some u.reset_password_token;
  }

  -- All matching users in order.
  unfoldable pub matching : (sort_by sort_order : String) → ListFilter → M env (List User)
  unfolding build_list_filter
  matching sort_by sort_order f = gets (λ w.
      columns.sort (sort_field sort_by) (sort_order == "asc")
        (env.users.find w.users (build_list_filter r f)))

  -- `findPaginated` of the repository and of the service; `page` is at least 1.
  unfoldable pub find_paginated : PaginationQuery → M env (Paginated AdminUser)
  unfolding matching admin_user
  find_paginated q = do
    let page = get_or q.page 1
    let limit = get_or q.limit 20
    users ← matching (get_or q.sort_by "createdAt") (get_or q.sort_order "desc") q.filter
    total ← gets (λ w. length (env.users.find w.users (build_list_filter r q.filter)))
    pure (of (map admin_user (take limit (drop ((page - 1) * limit) users))) total page limit)

  unfoldable pub find_all_filtered : PaginationQuery → M env (List AdminUser)
  unfolding matching admin_user
  find_all_filtered q = do
    users ← matching (get_or q.sort_by "createdAt") (get_or q.sort_order "desc") q.filter
    pure (map admin_user users)

  abbrev pub iso_or_empty : Option ℕ → Text
  iso_or_empty none = []
  iso_or_empty (some date) = columns.iso date

  unfoldable pub csv_row : AdminUser → List (CsvCellValue ℕ)
  csv_row u =
      text (codes u.id)
      ∷ text (codes u.name)
      ∷ text (codes u.last_name)
      ∷ text (codes u.email)
      ∷ text (codes u.user_name)
      ∷ text (codes u.role)
      ∷ boolean u.is_active
      ∷ text (columns.iso u.created_at)
      ∷ text (iso_or_empty u.updated_at)
      ∷ text_or_null u.locked_until
      ∷ number u.failed_login_attempts
      ∷ []

  unfoldable pub export_users_csv : PaginationQuery → M env Text
  unfolding find_all_filtered csv_row
  export_users_csv q = do
    users ← find_all_filtered q
    pure (to_csv columns.digits csv_headers (map csv_row users))
