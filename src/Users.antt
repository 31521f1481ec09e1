-- ===== src/Users.antt =====
-- user/entities/user.entity.ts: the user document, and the partial documents that updates carry.
pub mod Repository
pub mod Service
pub mod Search
pub mod Listing
pub mod Metrics
use Prim.Native.Nat.{ℕ}
use Prim.Native.String.{String}
use mathlib.Core.Path.{◌≡◌, refl, ◌∙◌}
use mathlib.Core.Bool.{Bool, true, false}
use mathlib.Core.Option.{Option, none, some}
use mathlib.Core.List.{List, [], ◌∷◌}

pub data UserRole : Type 0 where
  admin user viewer : UserRole

abbrev pub role_name : UserRole → String
role_name admin = "admin"
role_name user = "user"
role_name viewer = "viewer"

-- A date is its number of milliseconds; a field that is missing or null is `none`.
pub record User : Type 0 where
  pub id : String
  pub name : String
  pub last_name : String
  pub email : String
  pub user_name : String
  pub password : String
  pub role : UserRole
  pub permissions : List String
  pub is_active : Bool
  pub session_epoch : ℕ
  pub reset_password_token : Option String
  pub reset_password_expires : Option ℕ
  pub email_verification_token : Option String
  pub email_verification_expires : Option ℕ
  pub pending_email : Option String
  pub pending_email_token : Option String
  pub pending_email_expires : Option ℕ
  pub email_change_code_hash : Option String
  pub email_change_code_expires : Option ℕ
  pub email_change_code_attempts : ℕ
  pub email_change_code_sent_at : Option ℕ
  pub previous_email : Option String
  pub email_revert_token : Option String
  pub email_revert_expires : Option ℕ
  pub failed_login_attempts : ℕ
  pub locked_until : Option ℕ
  pub deleted_at : Option ℕ
  pub created_at : ℕ

-- A field of a `Partial<User>`: not there, there and `undefined`, or there with a value.
pub data Change (A : Type 0) : Type 0 where
  absent : Change A
  undefined : Change A
  value : A → Change A

-- The fields that the program's updates carry. A required field is left alone or given a value.
pub record Patch : Type 0 where
  pub name : Option String
  pub last_name : Option String
  pub email : Option String
  pub user_name : Option String
  pub password : Option String
  pub role : Option UserRole
  pub permissions : Option (List String)
  pub is_active : Option Bool
  pub failed_login_attempts : Option ℕ
  pub email_change_code_attempts : Option ℕ
  pub locked_until : Change (Option ℕ)
  pub reset_password_token : Change String
  pub reset_password_expires : Change ℕ
  pub email_verification_token : Change String
  pub email_verification_expires : Change ℕ
  pub pending_email : Change String
  pub pending_email_token : Change String
  pub pending_email_expires : Change ℕ
  pub email_change_code_hash : Change String
  pub email_change_code_expires : Change ℕ
  pub email_change_code_sent_at : Change ℕ
  pub previous_email : Change String
  pub email_revert_token : Change String
  pub email_revert_expires : Change ℕ

abbrev pub no_patch : Patch
no_patch = record {
  name = none;
  last_name = none;
  email = none;
  user_name = none;
  password = none;
  role = none;
  permissions = none;
  is_active = none;
  failed_login_attempts = none;
  email_change_code_attempts = none;
  locked_until = absent;
  reset_password_token = absent;
  reset_password_expires = absent;
  email_verification_token = absent;
  email_verification_expires = absent;
  pending_email = absent;
  pending_email_token = absent;
  pending_email_expires = absent;
  email_change_code_hash = absent;
  email_change_code_expires = absent;
  email_change_code_sent_at = absent;
  previous_email = absent;
  email_revert_token = absent;
  email_revert_expires = absent;
}

-- The new value of a required field.
abbrev pub put : {A : Type 0} → Option A → A → A
put none old = old
put (some a) old = a

-- The new value of an optional field. `document.set` removes a field that is `undefined`, and
-- `findByIdAndUpdate` is handed the update without its `undefined` fields.
abbrev pub put_field : {A : Type 0} → Bool → Change A → Option A → Option A
put_field removes absent old = old
put_field true undefined old = none
put_field false undefined old = old
put_field removes (value a) old = some a

-- A date that may be set to `null`.
abbrev pub put_date : Bool → Change (Option ℕ) → Option ℕ → Option ℕ
put_date removes absent old = old
put_date true undefined old = none
put_date false undefined old = old
put_date removes (value d) old = d

-- The document after an update; `removes` says what `undefined` does.
unfoldable pub patched : Bool → Patch → User → User
patched removes p u = record u {
  name = put p.name u.name;
  last_name = put p.last_name u.last_name;
  email = put p.email u.email;
  user_name = put p.user_name u.user_name;
  password = put p.password u.password;
  role = put p.role u.role;
  permissions = put p.permissions u.permissions;
  is_active = put p.is_active u.is_active;
  failed_login_attempts = put p.failed_login_attempts u.failed_login_attempts;
  email_change_code_attempts = put p.email_change_code_attempts u.email_change_code_attempts;
  locked_until = put_date removes p.locked_until u.locked_until;
  reset_password_token = put_field removes p.reset_password_token u.reset_password_token;
  reset_password_expires = put_field removes p.reset_password_expires u.reset_password_expires;
  email_verification_token =
      put_field removes p.email_verification_token u.email_verification_token;
  email_verification_expires =
      put_field removes p.email_verification_expires u.email_verification_expires;
  pending_email = put_field removes p.pending_email u.pending_email;
  pending_email_token = put_field removes p.pending_email_token u.pending_email_token;
  pending_email_expires = put_field removes p.pending_email_expires u.pending_email_expires;
  email_change_code_hash = put_field removes p.email_change_code_hash u.email_change_code_hash;
  email_change_code_expires =
      put_field removes p.email_change_code_expires u.email_change_code_expires;
  email_change_code_sent_at =
      put_field removes p.email_change_code_sent_at u.email_change_code_sent_at;
  previous_email = put_field removes p.previous_email u.previous_email;
  email_revert_token = put_field removes p.email_revert_token u.email_revert_token;
  email_revert_expires = put_field removes p.email_revert_expires u.email_revert_expires;
}

pub id-patched : (removes : Bool) (p : Patch) (u : User) → (patched removes p u).id ≡ u.id
unfolding patched
id-patched removes p u = refl

-- The fields that `unsetFields` is asked to remove.
pub data Field : Type 0 where
  email_verification_token email_verification_expires : Field
  pending_email pending_email_token pending_email_expires : Field
  email_change_code_hash email_change_code_expires previous_email : Field

-- `$unset` of one field.
abbrev pub unset : Field → User → User
unset email_verification_token u = record u { email_verification_token = none }
unset email_verification_expires u = record u { email_verification_expires = none }
unset pending_email u = record u { pending_email = none }
unset pending_email_token u = record u { pending_email_token = none }
unset pending_email_expires u = record u { pending_email_expires = none }
unset email_change_code_hash u = record u { email_change_code_hash = none }
unset email_change_code_expires u = record u { email_change_code_expires = none }
unset previous_email u = record u { previous_email = none }

unfoldable pub unset_all : List Field → User → User
unset_all [] u = u
unset_all (f ∷ fs) u = unset_all fs (unset f u)

pub id-unset : (f : Field) (u : User) → (unset f u).id ≡ u.id
id-unset email_verification_token u = refl
id-unset _ u = refl

pub id-unset_all : (fs : List Field) (u : User) → (unset_all fs u).id ≡ u.id
unfolding unset_all
id-unset_all [] u = refl
id-unset_all (f ∷ fs) u = id-unset_all fs (unset f u) ∙ id-unset f u
