-- ===== src/Tests/Codes.antt =====
-- Runs of a registration and of the email-change code.
use api_user.Prelude.{
  ℕ, String, ◌≡◌, ◌≢◌, refl, true, false, none, some, List, [], ◌∷◌, length, every, arith,
}
use api_user.Errors.{validation_error, invalid_email_change_code}
use api_user.Exec.{domain, ok, err}
use api_user.Users.{User, patched, unset_all}
use api_user.Users.Repository.{new_document}
use api_user.Users.Service.EmailCode.{
  generate_email_change_code, code_text, hash_email_change_code, request_email_change_code,
  assert_email_change_code, request_email_change,
}
use api_user.Users.Service.EmailCode.Digits.{number, is_digit, generate_email_change_code-number}
use api_user.Users.Service.EmailCode.Budget.{cleared}
use api_user.Users.Service.EmailCode.Issue.{
  Removes, request_email_change_code-throttled, request_email_change_code-accepted,
}
use api_user.World.{World, later}
use api_user.Auth.{auth_response}
use api_user.Auth.Access.{registration, register}
use api_user.Auth.Access
use api_user.Auth.Sessions.{
  Request, wait, login, request_email_change_code as issue, request_email_change as try, handle,
  serve,
}
use api_user.Auth.Sessions.Codes.{tries_of, tries, Refused, AllRefused, code-budget}
use api_user.Auth.Registration.{Registered, registered_user, register-Registered}
use api_user.Tests.Outside.{env, plain, world}

-- One user and a free place.
abbrev half_empty : World env
half_empty = record (world (plain "u" "u@x") (plain "v" "v@x") 2 true) {
  users = record { first = some (plain "u" "u@x"); second = none; budget = 2; sessions = true };
}

abbrev newcomer : User
newcomer = record (plain "new-id" "n@x") {
  user_name = "ned";
  password = "hash of pw";
  is_active = false;
  created_at = 1000;
}

register_ok :
    (register env "n@x" "ned" "pw" "Ann" "Lee" none half_empty).0
    ≡ ok (auth_response env newcomer (some "uuid-0") 1000 "uuid-n")
unfolding register new_document patched
register_ok = refl

register-Registered_example :
    Registered env
      (registration "n@x" "ned" "pw" "Ann" "Lee")
      (registered_user env "n@x" "ned" "pw" "Ann" "Lee" half_empty)
      half_empty
      (register env "n@x" "ned" "pw" "Ann" "Lee" none half_empty).1.users
register-Registered_example =
    register-Registered env "n@x" "ned" "pw" "Ann" "Lee" none half_empty
      (auth_response env newcomer (some "uuid-0") 1000 "uuid-n") register_ok

generate_email_change_code-number_example :
    (length (generate_email_change_code 4207) ≡ 6)
    × (every is_digit (generate_email_change_code 4207) ≡ true)
    × (number (generate_email_change_code 4207) ≡ 4207)
generate_email_change_code-number_example = generate_email_change_code-number 4207 (omega arith)

code_4207 : code_text (generate_email_change_code 4207) ≡ "004207"
unfolding code_text generate_email_change_code
code_4207 = refl

-- The first random number here is 0.
abbrev start : World env
start = world (plain "u" "u@x") (plain "v" "v@x") 50 true

request_ok : (request_email_change_code env "u" start).0 ≡ ok ("000000", 601000, plain "u" "u@x")
unfolding request_email_change_code code_text generate_email_change_code patched
request_ok = refl

request_email_change_code-throttled_example :
    let w' = later env 59999 (request_email_change_code env "u" start).1 in
    request_email_change_code env "u" w' ≡ (err (domain validation_error), w')
request_email_change_code-throttled_example =
    request_email_change_code-throttled env "u" "000000" 601000 (plain "u" "u@x") 59999 start
      request_ok (omega arith)

-- The user once the code is sent.
abbrev holder : User
unfolding hash_email_change_code
holder = record (plain "u" "u@x") {
  email_change_code_hash = some (hash_email_change_code env "000000" "u");
  email_change_code_expires = some 601000;
  email_change_code_sent_at = some 1000;
}

holder_stored :
    env.users.doc (later env 600000 (request_email_change_code env "u" start).1).users "u"
    ≡ some holder
unfolding request_email_change_code code_text generate_email_change_code patched holder
holder_stored = refl

-- The collection takes the two writes of a removal.
removes : Removes env "u" (request_email_change_code env "u" start).1.users
unfolding request_email_change_code code_text generate_email_change_code patched unset_all holder
removes = record {
  unset =
      record (world
        (record holder { email_change_code_hash = none; email_change_code_expires = none })
        (plain "v" "v@x") 48 true).users { budget = 48 };
  emptied = (world (cleared holder) (plain "v" "v@x") 47 true).users;
  without = refl;
  reset = refl;
}

request_email_change_code-accepted_example :
    let w' = later env 600000 (request_email_change_code env "u" start).1 in
    let used = assert_email_change_code env "u" holder "000000" w' in
    (used.0 ≡ ok tt)
    × (env.users.doc used.1.users "u" ≡ some (cleared holder))
    × ((c : String) (k : ℕ)
        → assert_email_change_code env "u" (cleared holder) c (later env k used.1)
          ≡ (err (domain invalid_email_change_code), later env k used.1))
request_email_change_code-accepted_example =
    request_email_change_code-accepted env "u" "000000" 601000 (plain "u" "u@x") holder 600000 start
      request_ok (omega arith) holder_stored removes

-- A user whose code was tried three times in vain.
abbrev guessed : User
guessed = record (plain "u" "u@x") {
  email_change_code_hash = some "digest of u:000000";
  email_change_code_expires = some 601000;
  email_change_code_attempts = 3;
  email_change_code_sent_at = some 1000;
}

abbrev before_tries : World env
before_tries = world guessed (plain "v" "v@x") 50 true

-- Two wrong codes, with a throttled request for a new one, a login and a pause between them.
abbrev wrong : List (Request env)
wrong =
    try "u" "n@x" "111111"
    ∷ issue "u"
    ∷ login "u@x" "pw"
    ∷ issue "v"
    ∷ wait 1
    ∷ try "u" "n@x" "222222"
    ∷ []

wrong-AllRefused : AllRefused env "u" wrong before_tries
unfolding AllRefused Refused handle request_email_change request_email_change_code Access.login
    Access.login_user patched unset_all
wrong-AllRefused = (
  λ own. refl,
  (λ own. (domain validation_error, refl), (tt, (λ own. absurd (cc own), (tt, (λ own. refl, tt))))),
)

code-budget_example :
    (request_email_change env "u" "n@x" "000000" (serve env wrong before_tries)).0
    ≢ ok ("uuid-0", 86401007, plain "u" "u@x")
unfolding tries tries_of
code-budget_example =
    code-budget env "u" wrong guessed before_tries "n@x" "000000"
      ("uuid-0", 86401007, plain "u" "u@x") refl (omega arith) wrong-AllRefused
