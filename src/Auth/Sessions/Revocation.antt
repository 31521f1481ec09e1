-- ===== src/Auth/Sessions/Revocation.antt =====
-- When a refresh token can be exchanged, and what ends that.
use api_user.Prelude.{
  ◌+◌, ◌*◌, ◌/◌, ◌≤◌, ◌<◌, String, ◌≡◌, ◌≢◌, ◌↔◌, refl, ap, false, Option, none, some, List, get_or,
  arith, eq_refl, Option-cases, inl, inr,
}
use api_user.Exec.{ok}
use api_user.Users.{User}
use api_user.Users.Repository.{inc_session_epoch}
use api_user.Users.Service.Effects.{Runs-bump_session_epoch, Runs-discard}
use api_user.Env.{Env, Payload}
use api_user.World.{World}
use api_user.World.Runs.{Runs}
use api_user.Auth
use api_user.Auth.Tokens
use api_user.Auth.{AuthResponse, base_payload, refresh_ttl}
use api_user.Auth.Tokens.{jti_key, remaining}
use api_user.Auth.Sessions.{Request, serve, serve-Grow}

module _ (env : Env) where
  -- What the exchange of a token needs: a verified payload with an id that the denylist answers
  -- for and does not hold, of a stored user whose epoch is at most the token's version.
  pub record Exchangeable (token : env.crypto.Token) (w : World env) : Type 0 where
    pub payload : Payload
    pub jti : String
    pub user : User
    pub verified : env.crypto.verify token w.now ≡ some payload
    pub has_jti : payload.jti ≡ some jti
    pub stored : env.users.doc w.users payload.sub ≡ some user
    pub not_denied : env.denylist.exists w.redis w.now (jti_key jti) ≡ some 0
    pub current : user.session_epoch ≤ get_or payload.tv 0

  pub refresh_token_sound :
      (token : env.crypto.Token) (w : World env) (r : AuthResponse env)
      → (Tokens.refresh_token env token w).0 ≡ ok r
      → Exchangeable token w
  refresh_token_sound token w r h = elim (Option-cases (env.crypto.verify token w.now)) [
    | inl bad ↦ absurd (unfold Tokens.refresh_token in ground arith)
    | inr (p, verified) ↦ elim (Option-cases p.jti) [
      | inl missing ↦ absurd (unfold Tokens.refresh_token in ground arith)
      | inr (jti, has_jti) ↦ elim (Option-cases (env.users.doc w.users p.sub)) [
        | inl gone ↦ absurd (unfold Tokens.refresh_token in ground arith)
        | inr (u, stored) ↦ record {
          payload = p;
          jti = jti;
          user = u;
          verified = verified;
          has_jti = has_jti;
          stored = stored;
          not_denied = unfold Tokens.refresh_token in ground arith;
          current = unfold Tokens.refresh_token in ground arith;
        }
      ]
    ]
  ]

  refresh_token_complete :
      (token : env.crypto.Token) (w : World env) (x : Exchangeable token w)
      → (Tokens.refresh_token env token w).0
        ≡ ok (Auth.auth_response env x.user none w.now (env.crypto.uuid w.drawn))
  unfolding Tokens.refresh_token
  refresh_token_complete token w x =
      rw (x.verified, x.has_jti, x.stored, x.not_denied) (ground (arith, x.current))

  -- A refresh token is exchanged exactly when it is verified, has an id that the denylist answers
  -- for and does not hold, and a version that reaches the epoch of its stored user. Whether that
  -- user is active, locked or deleted is not asked.
  pub refresh_token_iff :
      (token : env.crypto.Token) (w : World env)
      → ((r : AuthResponse env) × ((Tokens.refresh_token env token w).0 ≡ ok r))
        ↔ Exchangeable token w
  refresh_token_iff token w = (
    λ h. refresh_token_sound token w h.0 h.1,
    λ x. (
      Auth.auth_response env x.user none w.now (env.crypto.uuid w.drawn),
      refresh_token_complete token w x,
    ),
  )

  -- The world after a `logoutAll` and the requests that follow it.
  abbrev pub after_logout_all : String → List (Request env) → World env → World env
  after_logout_all id rs w = serve env rs (Tokens.logout_all env id w).1

  logout_all-Runs : (id : String) → Runs env false id inc_session_epoch (Tokens.logout_all env id)
  unfolding Tokens.logout_all
  logout_all-Runs id =
      Runs-discard env id inc_session_epoch false _ (Runs-bump_session_epoch env id false)

  doc-logout_all :
      (id : String) (u : User) (w : World env)
      → (Tokens.logout_all env id w).0 ≡ ok tt
      → env.users.doc w.users id ≡ some u
      → env.users.doc (Tokens.logout_all env id w).1.users id ≡ some (inc_session_epoch u)
  doc-logout_all id u w h stored =
      ground (arith, ((logout_all-Runs id).at w tt h).at id, eq_refl id)

  -- After `logoutAll` has returned, a refresh token of that user with a version up to the epoch of
  -- before is never exchanged again, whatever requests are served in between and however much time
  -- passes.
  pub logout_all-revokes :
      (id : String) (token : env.crypto.Token) (u : User) (p : Payload) (rs : List (Request env))
      (w : World env) (r : AuthResponse env)
      → (Tokens.logout_all env id w).0 ≡ ok tt
      → env.users.doc w.users id ≡ some u
      → env.crypto.verify token (after_logout_all id rs w).now ≡ some p
      → p.sub ≡ id
      → get_or p.tv 0 ≤ u.session_epoch
      → (Tokens.refresh_token env token (after_logout_all id rs w)).0 ≢ ok r
  logout_all-revokes id token u p rs w r h stored verified sub old e =
      let x = refresh_token_sound token (after_logout_all id rs w) r e in
      let (v, ev, grown) =
        (serve-Grow env rs (Tokens.logout_all env id w).1).at id (inc_session_epoch u)
          (doc-logout_all id u w h stored) in
      let same : p ≡ x.payload = cc (verified, x.verified) in
      let who : v ≡ x.user = cc (ev, x.stored, same, sub) in
      omega (
        arith,
        grown,
        x.current,
        old,
        ap (λ q. get_or (Payload.tv q) 0) same,
        ap User.session_epoch who,
      )

  -- A refresh token that was just signed for a user is exchanged as long as it has not expired,
  -- the stored epoch has not passed the one it was signed with, and the denylist answers that it
  -- does not hold it.
  pub generate-refresh :
      (u v : User) (verification : Option String) (w w' : World env) (r : AuthResponse env)
      → (Auth.generate_auth_response env u verification w).0 ≡ ok r
      → w'.now < (w.now / 1000 + refresh_ttl) * 1000
      → env.users.doc w'.users u.id ≡ some v
      → v.session_epoch ≤ u.session_epoch
      → env.denylist.exists w'.redis w'.now (jti_key (env.crypto.uuid w.drawn)) ≡ some 0
      → (s : AuthResponse env) × ((Tokens.refresh_token env r.refresh_token w').0 ≡ ok s)
  unfolding Auth.generate_auth_response
  generate-refresh u v verification w w' r h in_time stored current free =
      let jti = env.crypto.uuid w.drawn in
      let claims : Payload = record (base_payload u) { tv = some u.session_epoch } in
      let signed : env.crypto.sign claims (some refresh_ttl) (some jti) w.now ≡ r.refresh_token =
        cc h in
      (refresh_token_iff r.refresh_token w').1 (record {
        payload = record claims { jti = some jti; exp = some (w.now / 1000 + refresh_ttl) };
        jti = jti;
        user = v;
        verified =
            rw (← signed) (env.crypto.verify-sign claims refresh_ttl jti w.now w'.now in_time);
        has_jti = refl;
        stored = stored;
        not_denied = free;
        current = current;
      })
