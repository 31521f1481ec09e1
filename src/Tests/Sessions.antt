-- ===== src/Tests/Sessions.antt =====
-- Runs of logins, refreshes and logouts.
use api_user.Prelude.{
  String, ◌≡◌, ◌≢◌, ◌↔◌, refl, ◌∙◌, ap, sym, true, none, some, List, [], ◌∷◌, arith,
}
use api_user.Exec.{ok}
use api_user.Users.{User, user}
use api_user.Env.{Payload}
use api_user.World.{World}
use api_user.World.Epochs.{Grow}
use api_user.Auth.{AuthResponse, auth_response, generate_auth_response}
use api_user.Auth.Tokens.{refresh_token, logout, logout_all}
use api_user.Auth.Sessions.{
  Request, wait, login, delete_user, handle, serve, serve-Grow, logout as log_out,
  logout_all as logged_out,
}
use api_user.Auth.Sessions.Revocation.{
  Exchangeable, refresh_token_iff, after_logout_all, logout_all-revokes, generate-refresh,
}
use api_user.Auth.Sessions.Logout.{logout-revokes, Agrees, SameExpiry}
use api_user.Tests.Outside.{env, good-same, plain, world}

abbrev ann : User
ann = plain "u" "u@x"

abbrev start : World env
start = world ann (plain "v" "v@x") 5 true

abbrev requests : List (Request env)
requests = login "u@x" "wrong" ∷ wait 10 ∷ delete_user "u" ∷ logged_out "u" ∷ []

serve-Grow_example : Grow env start.users (serve env requests start).users
serve-Grow_example = serve-Grow env requests start

-- The refresh token of a login at time 1000.
abbrev claims : Payload
claims = record {
  sub = "u";
  email = "u@x";
  role = user;
  jti = some "uuid-0";
  tv = some 0;
  exp = some 604801;
}

refresh_token_iff_example :
    ((r : AuthResponse env) × ((refresh_token env claims start).0 ≡ ok r))
    ↔ Exchangeable env claims start
refresh_token_iff_example = refresh_token_iff env claims start

logout_all_ok : (logout_all env "u" start).0 ≡ ok tt
unfolding logout_all
logout_all_ok = refl

still_good :
    env.crypto.verify claims (after_logout_all env "u" (wait 10 ∷ []) start).now ≡ some claims
unfolding serve handle logout_all
still_good = refl

logout_all-revokes_example :
    (refresh_token env claims (after_logout_all env "u" (wait 10 ∷ []) start)).0
    ≢ ok (auth_response env ann none 1010 "uuid-0")
logout_all-revokes_example =
    logout_all-revokes env "u" claims ann claims (wait 10 ∷ []) start
      (auth_response env ann none 1010 "uuid-0") logout_all_ok refl still_good refl (omega arith)

logout_ok : (logout env claims start).0 ≡ ok tt
unfolding logout
logout_ok = refl

abbrev other_id : String
other_id = "v"

-- Another user's token, which is logged out later.
abbrev other_claims : Payload
other_claims = record claims { sub = "v"; email = "v@x"; jti = some other_id; exp = some 2 }

abbrev after_logout : List (Request env)
after_logout = log_out other_claims ∷ wait 10 ∷ login "u@x" "pw" ∷ log_out claims ∷ []

apart_ids : some other_id ≢ some "uuid-0"
apart_ids h = cc h

claims-SameExpiry : SameExpiry env claims after_logout
unfolding SameExpiry Agrees
claims-SameExpiry = (
  λ q now seen same.
      absurd (apart_ids (ap Payload.jti (good-same other_claims now (some 2) q seen) ∙ same)),
  (
    tt,
    (tt, (λ q now seen same. sym (ap Payload.exp (good-same claims now (some 604801) q seen)), tt)),
  ),
)

logout-revokes_example :
    (refresh_token env claims (serve env after_logout (logout env claims start).1)).0
    ≢ ok (auth_response env ann none 1010 "uuid-0")
logout-revokes_example =
    logout-revokes env claims claims after_logout start (auth_response env ann none 1010 "uuid-0")
      logout_ok refl claims-SameExpiry

response_ok :
    (generate_auth_response env ann none start).0 ≡ ok (auth_response env ann none 1000 "uuid-0")
unfolding generate_auth_response
response_ok = refl

generate-refresh_example : (s : AuthResponse env) × ((refresh_token env claims start).0 ≡ ok s)
generate-refresh_example =
    generate-refresh env ann ann none start start (auth_response env ann none 1000 "uuid-0")
      response_ok (omega arith) refl (omega arith) refl
