-- ===== src/Auth/Tokens.antt =====
-- Refresh tokens of auth/auth.service.ts, and session/session-revocation.service.ts.
use api_user.Prelude.{
  ℕ, ◌+◌, ◌-◌, ◌*◌, ◌/◌, String, Bool, false, ◌||◌, Option, none, some, get_or, ltb, if◌then◌else◌,
}
use Prim.Native.String.{◌++◌}
use api_user.Errors.{invalid_refresh_token}
use api_user.Exec.{driver, ok, err, gets, throw_if, or_throw, discard, ◌>>=◌, ◌>>◌}
use api_user.Users.Service
use api_user.Env.{Env, Payload}
use api_user.World.{M}
use api_user.Auth.{AuthResponse, generate_auth_response}

-- The time to live of a denylist entry, `Math.ceil(exp - Date.now() / 1000)` where that is not
-- negative.
abbrev pub remaining : ℕ → ℕ → ℕ
remaining exp now = (exp * 1000 - now + 999) / 1000

abbrev pub jti_key : String → String
jti_key jti = "revoked:refresh:" ++ jti

module _ (env : Env) where
  -- `verifyRefreshPayload`
  unfoldable pub verify_refresh_payload : env.crypto.Token → M env Payload
  verify_refresh_payload token = do
    now ← gets (λ w. w.now)
    or_throw invalid_refresh_token (env.crypto.verify token now)

  -- `isJtiRevoked`, with an answer of `none` for a store that throws.
  unfoldable pub is_jti_revoked : String → M env (Option Bool)
  is_jti_revoked jti w = (
    ok (elim (env.denylist.exists w.redis w.now (jti_key jti)) [
      | none ↦ none
      | some found ↦ some (ltb 0 found)
    ]),
    w,
  )

  unfoldable pub refresh_token : env.crypto.Token → M env (AuthResponse env)
  unfolding verify_refresh_payload Service.find_by_id is_jti_revoked generate_auth_response
  refresh_token token = do
    payload ← verify_refresh_payload token
    jti ← or_throw invalid_refresh_token payload.jti
    u ← Service.find_by_id env payload.sub
    answer ← is_jti_revoked jti
    revoked ← or_throw invalid_refresh_token answer
    throw_if (revoked || ltb (get_or payload.tv 0) u.session_epoch) invalid_refresh_token
    generate_auth_response env u none

  unfoldable pub revoke_jti : String → ℕ → M env (Unit {0})
  revoke_jti jti exp w =
      if ltb (remaining exp w.now) 1
      then (ok tt, w)
      else elim (env.denylist.set_ex w.redis w.now (jti_key jti) (remaining exp w.now)) [
        | none ↦ (err driver, w)
        | some r ↦ (ok tt, record w { redis = r })
      ]

  unfoldable pub logout : env.crypto.Token → M env (Unit {0})
  unfolding verify_refresh_payload revoke_jti
  logout token = do
    payload ← verify_refresh_payload token
    jti ← or_throw invalid_refresh_token payload.jti
    exp ← or_throw invalid_refresh_token payload.exp
    revoke_jti jti exp

  unfoldable pub logout_all : String → M env (Unit {0})
  unfolding Service.bump_session_epoch
  logout_all id = discard (Service.bump_session_epoch env id false)
