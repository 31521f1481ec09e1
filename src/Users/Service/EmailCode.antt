-- ===== src/Users/Service/EmailCode.antt =====
-- user/service/email-change-code.ts and the email change of user/service/user.service.ts: the
-- identity-proof code, its attempt budget, and the request for a new address.
pub mod Digits
pub mod Budget
pub mod Issue
use api_user.Prelude.{
  ℕ, zero, suc, ◌+◌, ◌-◌, ◌/◌, ◌%◌, String, Bool, true, false, not, ◌||◌, Option, none, some, List,
  [], ◌∷◌, ◌++◌, length, replicate, ltb, leb, is_some, ◌==◌, if◌then◌else◌,
}
use Prim.Native.String.{◌++◌ as ◌+++◌}
use api_user.Errors.{validation_error, invalid_email_change_code, email_already_exists}
use api_user.Exec.{pure, raise, gets, throw_if, when, discard, ◌>>=◌, ◌>>◌}
use api_user.Users.{
  User, value, Patch, no_patch, Field, email_change_code_hash, email_change_code_expires,
}
use api_user.Users.Repository
use api_user.Users.Service.{find_by_id, update, unset_fields, invalidate_user_cache}
use api_user.Env.{Env}
use api_user.World.{M, random_uuid, random_int}

abbrev pub code_length : ℕ
code_length = 6

abbrev pub code_ttl_ms : ℕ
code_ttl_ms = 600000

abbrev pub code_max_attempts : ℕ
code_max_attempts = 5

abbrev pub code_resend_interval_ms : ℕ
code_resend_interval_ms = 60000

abbrev pub revert_window_ms : ℕ
revert_window_ms = 259200000

abbrev pub confirmation_ttl_ms : ℕ
confirmation_ttl_ms = 86400000

-- `n.toString()` as its decimal digits, most significant first; each round divides by ten.
unfoldable pub decimal : (fuel : ℕ) → ℕ → List ℕ
decimal zero n = n ∷ []
decimal (suc fuel) n =
    let higher = decimal fuel (n / 10) ++ (n % 10) ∷ [] in if ltb n 10 then n ∷ [] else higher

-- `padStart(width, '0')`
unfoldable pub pad_start : ℕ → List ℕ → List ℕ
pad_start width ds = replicate (width - length ds) 0 ++ ds

-- `generateEmailChangeCode` for a drawn number, as digits. A number below 10 ^ 6 takes five rounds.
unfoldable pub generate_email_change_code : ℕ → List ℕ
unfolding decimal pad_start
generate_email_change_code n = pad_start code_length (decimal 5 n)

abbrev digit : ℕ → String
digit n =
    if ltb n 1
    then "0"
    else if ltb n 2
    then "1"
    else if ltb n 3
    then "2"
    else if ltb n 4
    then "3"
    else if ltb n 5
    then "4"
    else if ltb n 6
    then "5"
    else if ltb n 7
    then "6"
    else if ltb n 8
    then "7"
    else if ltb n 9
    then "8"
    else "9"

-- The code as a text.
unfoldable pub code_text : List ℕ → String
code_text [] = ""
code_text (d ∷ ds) = ◌+++◌ (digit d) (code_text ds)

-- Whether a date has passed.
abbrev pub before : ℕ → Option ℕ → Bool
before now none = true
before now (some d) = ltb d now

-- The date of the last send keeps the next one back for a minute.
abbrev pub sent_recently : ℕ → Option ℕ → Bool
sent_recently now none = false
sent_recently now (some sent) = ltb now (sent + code_resend_interval_ms)

-- The updates and the removed fields of the methods below.
abbrev pub issued_patch : String → ℕ → Patch
issued_patch hash now = record no_patch {
  email_change_code_hash = value hash;
  email_change_code_expires = value (now + code_ttl_ms);
  email_change_code_attempts = some 0;
  email_change_code_sent_at = value now;
}

abbrev pub attempts_patch : ℕ → Patch
attempts_patch attempts = record no_patch { email_change_code_attempts = some attempts }

abbrev pub pending_patch : String → String → ℕ → Patch
pending_patch email token now = record no_patch {
  pending_email = value email;
  pending_email_token = value token;
  pending_email_expires = value (now + confirmation_ttl_ms);
}

abbrev pub code_fields : List Field
code_fields = email_change_code_hash ∷ email_change_code_expires ∷ []

module _ (env : Env) where
  unfoldable pub hash_email_change_code : String → String → String
  hash_email_change_code code id = env.crypto.sha256 (◌+++◌ id (◌+++◌ ":" code))

  unfoldable pub is_email_change_code_valid : String → String → String → Bool
  unfolding hash_email_change_code
  is_email_change_code_valid code id hash = hash_email_change_code code id == hash

  unfoldable pub request_email_change_code : String → M env (String × ℕ × User)
  unfolding find_by_id update hash_email_change_code
  request_email_change_code id = do
    user ← find_by_id env id
    now ← gets (λ w. w.now)
    throw_if (sent_recently now user.email_change_code_sent_at) validation_error
    n ← random_int env
    let code = code_text (generate_email_change_code n)
    discard (update env id (issued_patch (hash_email_change_code code id) now) false)
    pure (code, now + code_ttl_ms, user)

  unfoldable pub clear_email_change_code : String → M env (Unit {0})
  unfolding unset_fields update
  clear_email_change_code id = do
    discard (unset_fields env id code_fields false)
    discard (update env id (attempts_patch 0) false)

  -- The code is missing, expired or spent.
  abbrev pub is_spent : ℕ → User → Bool
  is_spent now user =
      not (is_some user.email_change_code_hash)
      || before now user.email_change_code_expires
      || leb code_max_attempts user.email_change_code_attempts

  -- A wrong code: the last attempt destroys the code, any other is counted.
  unfoldable pub count_failure : String → User → M env (Unit {0})
  unfolding clear_email_change_code update
  count_failure id user =
      if leb code_max_attempts (user.email_change_code_attempts + 1)
      then clear_email_change_code id
      else discard (update env id (attempts_patch (user.email_change_code_attempts + 1)) false)

  abbrev pub matches_hash : String → String → Option String → Bool
  matches_hash code id none = false
  matches_hash code id (some hash) = is_email_change_code_valid code id hash

  unfoldable pub assert_email_change_code : String → User → String → M env (Unit {0})
  unfolding clear_email_change_code count_failure is_email_change_code_valid
  assert_email_change_code id user code = do
    now ← gets (λ w. w.now)
    if is_spent now user
        then (do
          when (is_some user.email_change_code_hash) (clear_email_change_code id)
          raise invalid_email_change_code)
        else if not (matches_hash code id user.email_change_code_hash)
        then (do count_failure id user; raise invalid_email_change_code)
        else clear_email_change_code id

  unfoldable pub request_email_change : String → String → String → M env (String × ℕ × User)
  unfolding find_by_id assert_email_change_code Repository.find_by_email update
      invalidate_user_cache
  request_email_change id email code = do
    user ← find_by_id env id
    throw_if (user.email == email) validation_error
    assert_email_change_code id user code
    existing ← Repository.find_by_email env email
    throw_if (is_some existing) email_already_exists
    token ← random_uuid env
    now ← gets (λ w. w.now)
    discard (update env id (pending_patch email token now) false)
    invalidate_user_cache env id
    pure (token, now + confirmation_ttl_ms, user)
