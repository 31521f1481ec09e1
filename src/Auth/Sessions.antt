-- ===== src/Auth/Sessions.antt =====
-- Refresh tokens of auth/auth.service.ts and session/session-revocation.service.ts over the life of
-- the system: every request of the user and auth services is a step.
pub mod Codes
pub mod Logout
pub mod Revocation
use api_user.Prelude.{
  ℕ, zero, suc, ◌+◌, ◌-◌, ◌*◌, ◌/◌, ◌≤◌, ◌<◌, String, ◌≡◌, ◌≢◌, refl, ◌∙◌, ap, sym, Bool, true,
  false, ◌||◌, Option, none, some, List, [], ◌∷◌, get_or, ltb, arith, Option-cases, Bool-cases, inl,
  inr,
}
use native.Mathlib.Nat.{le_refl, le_trans}
use mathlib.Core.Path.{subst}
use api_user.Errors.{invalid_refresh_token}
use api_user.Exec.{Failure, domain, ok, err, discard, ◌>>=◌, ◌>>◌}
use api_user.Users.{User}
use api_user.Users.Repository.{NewUser}
use api_user.Users.Service
use api_user.Users.Service.{UpdateUser}
use api_user.Users.Service.EmailCode
use api_user.Users.Service.Epochs.{Grows-create_with_role}
use api_user.Users.Service.Requests.{
  change_password-Grows, unlock_user-Grows, delete_user-Grows, toggle_active_user-Grows,
  update_user-Grows, request_email_change_code-Grows, request_email_change-Grows,
}
use api_user.Env.{Env, Payload}
use api_user.World.{World, M}
use api_user.World.Epochs.{Mode, epochs, Free, Grow, Carried, Carried-refl, Carried-trans, Grows}
use api_user.Auth.Access
use api_user.Auth.Addresses
use api_user.Auth.Recovery
use api_user.Auth.Tokens
use api_user.Auth.{AuthResponse}
use api_user.Auth.Epochs.{
  register-Grows, login-Grows, forgot_password-Grows, reset_password-Grows, verify_email-Grows,
  confirm_email_change-Grows, revert_email_change-Grows, resend_verification-Grows,
  refresh_token-Grows, users-logout, logout_all-Grows,
}

-- A request, or time that passes, in milliseconds.
pub data Request (env : Env) : Type 0 where
  wait : ℕ → Request env
  create_with_role : NewUser → Request env
  change_password : (id current new : String) → Request env
  unlock_user delete_user toggle_active_user : String → Request env
  update_user : String → UpdateUser → Request env
  request_email_change_code : String → Request env
  request_email_change : (id email code : String) → Request env
  register : (email user_name password name last_name : String) → Option String → Request env
  login : (email password : String) → Request env
  forgot_password : String → Option String → Request env
  reset_password : (token new : String) → Option String → Request env
  verify_email : String → Request env
  confirm_email_change revert_email_change : String → Option String → Request env
  resend_verification : (id email name : String) → Option String → Request env
  refresh logout : env.crypto.Token → Request env
  logout_all : String → Request env

module _ (env : Env) where
  -- The world after a request, whether it returned or threw.
  unfoldable pub handle : Request env → World env → World env
  handle (wait n) w = record w { now = w.now + n }
  handle (create_with_role d) w = (Service.create_with_role env d w).1
  handle (change_password id current new) w = (Service.change_password env id current new w).1
  handle (unlock_user id) w = (Service.unlock_user env id w).1
  handle (delete_user id) w = (Service.delete_user env id w).1
  handle (toggle_active_user id) w = (Service.toggle_active_user env id w).1
  handle (update_user id dto) w = (Service.update_user env id dto w).1
  handle (request_email_change_code id) w = (EmailCode.request_email_change_code env id w).1
  handle (request_email_change id email code) w =
      (EmailCode.request_email_change env id email code w).1
  handle (register email user_name password name last_name lang) w =
      (Access.register env email user_name password name last_name lang w).1
  handle (login email password) w = (Access.login env email password w).1
  handle (forgot_password email lang) w = (Recovery.forgot_password env email lang w).1
  handle (reset_password token new lang) w = (Recovery.reset_password env token new lang w).1
  handle (verify_email token) w = (Recovery.verify_email env token w).1
  handle (confirm_email_change token lang) w = (Addresses.confirm_email_change env token lang w).1
  handle (revert_email_change token lang) w = (Addresses.revert_email_change env token lang w).1
  handle (resend_verification id email name lang) w =
      (Recovery.resend_verification env id email name lang w).1
  handle (refresh token) w = (Tokens.refresh_token env token w).1
  handle (logout token) w = (Tokens.logout env token w).1
  handle (logout_all id) w = (Tokens.logout_all env id w).1

  unfoldable pub serve : List (Request env) → World env → World env
  serve [] w = w
  serve (r ∷ rs) w = serve rs (handle r w)

  -- Requests that leave the denylist alone, and the codes of an email change.
  pub IsPlain : Request env → Type 0
  IsPlain (request_email_change_code id) = ⊥
  IsPlain (request_email_change id email code) = ⊥
  IsPlain (logout token) = ⊥
  IsPlain r = Unit

  -- What a step does to the users, and that it leaves the denylist as it is.
  abbrev pub Step : Mode → (World env → World env) → Type 0
  Step mode h =
      ((w : World env) → Carried env mode w.users (h w).users)
      × ((w : World env) → (h w).redis ≡ w.redis)

  step :
      {A : Type 0} (mode : Mode) (m : M env A) → Grows env mode false m → Step mode (λ w. (m w).1)
  step mode m g = (g.users, g.redis)

  pub handle-Step : (mode : Mode) (r : Request env) → IsPlain r → Step mode (handle r)
  unfolding handle IsPlain
  handle-Step mode (wait n) plain = (λ w. Carried-refl env mode w.users, λ w. refl)
  handle-Step mode (create_with_role d) plain =
      step mode _ (Grows-create_with_role env mode d false)
  handle-Step mode (change_password id current new) plain =
      step mode _ (change_password-Grows env mode id current new)
  handle-Step mode (unlock_user id) plain = step mode _ (unlock_user-Grows env mode id)
  handle-Step mode (delete_user id) plain = step mode _ (delete_user-Grows env mode id)
  handle-Step mode (toggle_active_user id) plain =
      step mode _ (toggle_active_user-Grows env mode id)
  handle-Step mode (update_user id dto) plain = step mode _ (update_user-Grows env mode id dto)
  handle-Step mode (request_email_change_code id) plain = absurd plain
  handle-Step mode (request_email_change id email code) plain = absurd plain
  handle-Step mode (register email user_name password name last_name lang) plain =
      step mode _ (register-Grows env mode email user_name password name last_name lang)
  handle-Step mode (login email password) plain = step mode _ (login-Grows env mode email password)
  handle-Step mode (forgot_password email lang) plain =
      step mode _ (forgot_password-Grows env mode email lang)
  handle-Step mode (reset_password token new lang) plain =
      step mode _ (reset_password-Grows env mode token new lang)
  handle-Step mode (verify_email token) plain = step mode _ (verify_email-Grows env mode token)
  handle-Step mode (confirm_email_change token lang) plain =
      step mode _ (confirm_email_change-Grows env mode token lang)
  handle-Step mode (revert_email_change token lang) plain =
      step mode _ (revert_email_change-Grows env mode token lang)
  handle-Step mode (resend_verification id email name lang) plain =
      step mode _ (resend_verification-Grows env mode id email name lang)
  handle-Step mode (refresh token) plain = step mode _ (refresh_token-Grows env mode token)
  handle-Step mode (logout token) plain = absurd plain
  handle-Step mode (logout_all id) plain = step mode _ (logout_all-Grows env mode id)

  -- The two requests about a code touch that of one user, and not the denylist.
  pub issue-Step :
      (mode : Mode) (id : String) → Free mode id → Step mode (handle (request_email_change_code id))
  unfolding handle
  issue-Step mode id free = step mode _ (request_email_change_code-Grows env mode id free)

  pub try-Step :
      (mode : Mode) (id email code : String)
      → Free mode id
      → Step mode (handle (request_email_change id email code))
  unfolding handle
  try-Step mode id email code free =
      step mode _ (request_email_change-Grows env mode id email code free)

  pub users-after_logout :
      (token : env.crypto.Token) (w : World env) → (handle (logout token) w).users ≡ w.users
  unfolding handle
  users-after_logout token w = users-logout env epochs token w

  -- To treat a request: the plain ones together, and the three others.
  pub Request-cases :
      (P : Request env → Type 0)
      → ((r : Request env) → IsPlain r → P r)
      → ((id : String) → P (request_email_change_code id))
      → ((id email code : String) → P (request_email_change id email code))
      → ((token : env.crypto.Token) → P (logout token))
      → (r : Request env) → P r
  unfolding IsPlain
  Request-cases P plain issue try out (wait n) = plain (wait n) tt
  Request-cases P plain issue try out (create_with_role d) = plain (create_with_role d) tt
  Request-cases P plain issue try out (change_password id current new) =
      plain (change_password id current new) tt
  Request-cases P plain issue try out (unlock_user id) = plain (unlock_user id) tt
  Request-cases P plain issue try out (delete_user id) = plain (delete_user id) tt
  Request-cases P plain issue try out (toggle_active_user id) = plain (toggle_active_user id) tt
  Request-cases P plain issue try out (update_user id dto) = plain (update_user id dto) tt
  Request-cases P plain issue try out (request_email_change_code id) = issue id
  Request-cases P plain issue try out (request_email_change id email code) = try id email code
  Request-cases P plain issue try out (register email user_name password name last_name lang) =
      plain (register email user_name password name last_name lang) tt
  Request-cases P plain issue try out (login email password) = plain (login email password) tt
  Request-cases P plain issue try out (forgot_password email lang) =
      plain (forgot_password email lang) tt
  Request-cases P plain issue try out (reset_password token new lang) =
      plain (reset_password token new lang) tt
  Request-cases P plain issue try out (verify_email token) = plain (verify_email token) tt
  Request-cases P plain issue try out (confirm_email_change token lang) =
      plain (confirm_email_change token lang) tt
  Request-cases P plain issue try out (revert_email_change token lang) =
      plain (revert_email_change token lang) tt
  Request-cases P plain issue try out (resend_verification id email name lang) =
      plain (resend_verification id email name lang) tt
  Request-cases P plain issue try out (refresh token) = plain (refresh token) tt
  Request-cases P plain issue try out (logout token) = out token
  Request-cases P plain issue try out (logout_all id) = plain (logout_all id) tt

  handle-Grow : (r : Request env) (w : World env) → Grow env w.users (handle r w).users
  handle-Grow =
      Request-cases (λ r. (w : World env) → Grow env w.users (handle r w).users)
        (λ r plain. (handle-Step epochs r plain).0) (λ id. (issue-Step epochs id tt).0)
        (λ id email code. (try-Step epochs id email code tt).0)
        (λ token w.
          subst (λ s. Grow env w.users s) (sym (users-after_logout token w))
            (Carried-refl env epochs w.users))

  -- Whatever requests are served, returning or throwing, every user stays in the collection and no
  -- session epoch becomes smaller.
  pub serve-Grow : (rs : List (Request env)) (w : World env) → Grow env w.users (serve rs w).users
  unfolding serve
  serve-Grow [] w = Carried-refl env epochs w.users
  serve-Grow (r ∷ rs) w = Carried-trans env epochs (handle-Grow r w) (serve-Grow rs (handle r w))
