-- ===== src/Auth/Sessions/Logout.antt =====
-- What the denylist holds after the logout of auth/auth.service.ts, whatever is served after it.
use api_user.Prelude.{
  ℕ, ◌+◌, ◌*◌, ◌≤◌, ◌<◌, String, ◌≡◌, ◌≢◌, refl, ap, sym, some, List, [], ◌∷◌, arith, eq_iff, ◌==◌,
  Bool-cases, Option-cases, inl, inr,
}
use mathlib.Core.Path.{subst}
use text.Mathlib.TextLemmas.{append_cancel_left}
use api_user.Exec.{Result, ok, err}
use api_user.Env.{Env, Payload}
use api_user.World.{World}
use api_user.Auth.Tokens
use api_user.Auth.{AuthResponse}
use api_user.Auth.Tokens.{jti_key, remaining}
use api_user.World.Epochs.{epochs}
use api_user.Auth.Sessions.{
  Request, logout, handle, serve, Request-cases, handle-Step, issue-Step, try-Step,
}
use api_user.Auth.Sessions.Revocation.{refresh_token_sound}

module _ (env : Env) where
  -- What a `logout` that returned has found and stored.
  record LoggedOut (token : env.crypto.Token) (w : World env) : Type 0 where
    payload : Payload
    jti : String
    exp : ℕ
    redis : env.denylist.Redis
    verified : env.crypto.verify token w.now ≡ some payload
    has_jti : payload.jti ≡ some jti
    has_exp : payload.exp ≡ some exp
    denied : env.denylist.set_ex w.redis w.now (jti_key jti) (remaining exp w.now) ≡ some redis
    after : (Tokens.logout env token w).1 ≡ record w { redis = redis }

  remaining-covers : (exp now : ℕ) → exp * 1000 ≤ now + remaining exp now * 1000
  remaining-covers exp now = omega arith

  logout_inv :
      (token : env.crypto.Token) (w : World env)
      → (Tokens.logout env token w).0 ≡ ok tt
      → LoggedOut token w
  logout_inv token w h = elim (Option-cases (env.crypto.verify token w.now)) [
    | inl bad ↦ absurd (unfold Tokens.logout in ground arith)
    | inr (p, verified) ↦ elim (Option-cases p.jti) [
      | inl missing ↦ absurd (unfold Tokens.logout in ground arith)
      | inr (jti, has_jti) ↦ elim (Option-cases p.exp) [
        | inl endless ↦ absurd (unfold Tokens.logout in ground arith)
        | inr (exp, has_exp) ↦
            let alive = env.crypto.verify-exp token w.now exp p verified has_exp in
            elim (Option-cases
              (env.denylist.set_ex w.redis w.now (jti_key jti) (remaining exp w.now))) [
                | inl down ↦ absurd (unfold Tokens.logout in ground arith)
                | inr (redis, denied) ↦ record {
                  payload = p;
                  jti = jti;
                  exp = exp;
                  redis = redis;
                  verified = verified;
                  has_jti = has_jti;
                  has_exp = has_exp;
                  denied = denied;
                  after = unfold Tokens.logout in ground arith;
                }
              ]
      ]
    ]
  ]

  -- The denylist answers for the token id until the expiry, and not that it does not hold it.
  abbrev Denied : String → ℕ → env.denylist.Redis → Type 0
  Denied jti exp redis =
      (time : ℕ) → time < exp * 1000 → env.denylist.exists redis time (jti_key jti) ≢ some 0

  Denied-set_ex :
      (jti : String) (exp now : ℕ) (r r' : env.denylist.Redis)
      → env.denylist.set_ex r now (jti_key jti) (remaining exp now) ≡ some r'
      → Denied jti exp r'
  Denied-set_ex jti exp now r r' stored time soon =
      env.denylist.exists-set_ex r r' now (remaining exp now) (jti_key jti) stored time
        (omega (arith, soon, remaining-covers exp now))

  -- Another token that is logged out and has this token's id has its expiry too. An id is a random
  -- UUID, and two tokens that differ do not have the same one.
  unfoldable pub Agrees : Payload → Request env → Type 0
  Agrees p (logout token) =
      (q : Payload) (now : ℕ) → env.crypto.verify token now ≡ some q → q.jti ≡ p.jti → q.exp ≡ p.exp
  Agrees p r = Unit

  unfoldable pub SameExpiry : Payload → List (Request env) → Type 0
  unfolding Agrees
  SameExpiry p [] = Unit
  SameExpiry p (r ∷ rs) = Agrees p r × SameExpiry p rs

  logout-Denied :
      (p : Payload) (jti : String) (exp : ℕ) (token : env.crypto.Token) (w : World env)
      → p.jti ≡ some jti
      → p.exp ≡ some exp
      → Agrees p (logout token)
      → Denied jti exp w.redis
      → Denied jti exp (Tokens.logout env token w).1.redis
  unfolding Agrees
  logout-Denied p jti exp token w has_jti has_exp agrees held = go (Tokens.logout env token w) refl
    where
      go :
          (r : Result Unit × World env)
          → Tokens.logout env token w ≡ r
          → Denied jti exp (Tokens.logout env token w).1.redis
      go (err x, w') e =
          let failed : (Tokens.logout env token w).1 ≡ w =
            unfold Tokens.logout in ground (arith, ap (λ r. r.0) e) in
          subst (λ v. Denied jti exp (World.redis v)) (sym failed) held
      go (ok tt, w') e =
          let d = logout_inv token w (ap (λ r. r.0) e) in
          subst (λ v. Denied jti exp (World.redis v)) (sym d.after)
            (elim (Bool-cases (jti_key d.jti == jti_key jti)) [
              | inl same ↦
                  let own : d.jti ≡ jti =
                    append_cancel_left "revoked:refresh:" d.jti jti
                      ((eq_iff (jti_key d.jti) (jti_key jti)).0 same) in
                  let lasts : d.exp ≡ exp = cc (
                    agrees d.payload w.now d.verified (cc (d.has_jti, own, has_jti)),
                    d.has_exp,
                    has_exp,
                  ) in
                  subst (λ k. Denied k exp d.redis) own
                    (subst (λ n. Denied d.jti n d.redis) lasts
                      (Denied-set_ex d.jti d.exp w.now w.redis d.redis d.denied))
              | inr other ↦ λ time soon.
                  rw
                    (env.denylist.exists-set_ex_other w.redis d.redis w.now (remaining d.exp w.now)
                      (jti_key d.jti) (jti_key jti) d.denied other time)
                    (held time soon)
            ])

  handle-Denied :
      (p : Payload) (jti : String) (exp : ℕ)
      → p.jti ≡ some jti
      → p.exp ≡ some exp
      → (r : Request env) (w : World env) → Agrees p r
      → Denied jti exp w.redis
      → Denied jti exp (handle env r w).redis
  handle-Denied p jti exp has_jti has_exp =
      Request-cases env
        (λ r.
          (w : World env)
          → Agrees p r
          → Denied jti exp w.redis
          → Denied jti exp (handle env r w).redis)
        (λ r plain w agrees. subst (Denied jti exp) (sym ((handle-Step env epochs r plain).1 w)))
        (λ id w agrees. subst (Denied jti exp) (sym ((issue-Step env epochs id tt).1 w)))
        (λ id email code w agrees.
          subst (Denied jti exp) (sym ((try-Step env epochs id email code tt).1 w)))
        (λ token w agrees held.
          unfold handle in logout-Denied p jti exp token w has_jti has_exp agrees held)

  serve-Denied :
      (p : Payload) (jti : String) (exp : ℕ)
      → p.jti ≡ some jti
      → p.exp ≡ some exp
      → (rs : List (Request env)) (w : World env) → SameExpiry p rs
      → Denied jti exp w.redis
      → Denied jti exp (serve env rs w).redis
  unfolding serve SameExpiry
  serve-Denied p jti exp has_jti has_exp [] w agree held = held
  serve-Denied p jti exp has_jti has_exp (r ∷ rs) w (agrees, agree) held =
      serve-Denied p jti exp has_jti has_exp rs (handle env r w) agree
        (handle-Denied p jti exp has_jti has_exp r w agrees held)

  -- After `logout` has returned for a refresh token, that token is never exchanged again, whatever
  -- requests are served in between and however much time passes: while it would still be verified,
  -- the denylist holds it. Other tokens may be logged out in between; one with the same id, which a
  -- UUID rules out, is taken to have the same expiry.
  pub logout-revokes :
      (token : env.crypto.Token) (p : Payload) (rs : List (Request env)) (w : World env)
      (r : AuthResponse env)
      → (Tokens.logout env token w).0 ≡ ok tt
      → env.crypto.verify token w.now ≡ some p
      → SameExpiry p rs
      → (Tokens.refresh_token env token (serve env rs (Tokens.logout env token w).1)).0 ≢ ok r
  logout-revokes token p rs w r h verified agree e =
      let w1 = (Tokens.logout env token w).1 in
      let w' = serve env rs w1 in
      let d = logout_inv token w h in
      let x = refresh_token_sound env token w' r e in
      let own : d.payload ≡ p = cc (d.verified, verified) in
      let same = env.crypto.verify-payload token w.now w'.now p x.payload verified x.verified in
      let has_jti : p.jti ≡ some d.jti = cc (d.has_jti, own) in
      let has_exp : p.exp ≡ some d.exp = cc (d.has_exp, own) in
      let alive =
        env.crypto.verify-exp token w'.now d.exp x.payload x.verified (cc (has_exp, same)) in
      let jti : d.jti ≡ x.jti = cc (has_jti, x.has_jti, same) in
      let held = serve-Denied p d.jti d.exp has_jti has_exp rs w1 agree (
        subst (λ v. Denied d.jti d.exp (World.redis v)) (sym d.after)
          (Denied-set_ex d.jti d.exp w.now w.redis d.redis d.denied)) in
      absurd (held w'.now alive (cc (jti, x.not_denied)))
