-- ===== src/Auth/Sessions/Codes.antt =====
-- The attempt budget of an email-change code, of user/service/user.service.ts, over the life of the
-- system.
use api_user.Prelude.{
  ℕ, suc, Bool, ◌+◌, ◌≤◌, String, ◌≡◌, ◌≢◌, ◌∙◌, refl, sym, ap, true, false, inl, inr, some, List,
  [], ◌∷◌, ◌==◌, eq_iff, arith, Bool-cases, if◌then◌else◌,
}
use mathlib.Core.Path.{subst}
use api_user.Errors.{invalid_email_change_code}
use api_user.Exec.{Failure, domain, ok, err}
use api_user.Users.{User}
use api_user.Users.Service.EmailCode
use api_user.Users.Service.EmailCode.Budget.{
  Left, Fewer, Left-spent, assert-Fewer, request-refused, request-passed,
}
use api_user.Env.{Env}
use api_user.World.{World}
use api_user.World.Epochs.{SameCode, Carried, codes, codes_but}
use api_user.Auth.Sessions.{
  Request, request_email_change_code, request_email_change, handle, serve, IsPlain, Request-cases,
  handle-Step, issue-Step, try-Step, users-after_logout,
}

module _ (env : Env) where
  -- The tries of a code of the user that a request is, and that the requests are.
  unfoldable pub tries_of : String → Request env → ℕ
  tries_of id (request_email_change j email code) = if j == id then 1 else 0
  tries_of id r = 0

  unfoldable pub tries : String → List (Request env) → ℕ
  unfolding tries_of
  tries id [] = 0
  tries id (r ∷ rs) = tries_of id r + tries id rs

  -- A request for a new code of the user fails, and a try of a code of the user is answered by the
  -- error for a code that is wrong or spent.
  unfoldable pub Refused : String → Request env → World env → Type 0
  Refused id (request_email_change_code j) w =
      (j == id) ≡ true → (e : Failure) × ((EmailCode.request_email_change_code env j w).0 ≡ err e)
  Refused id (request_email_change j email code) w =
      (j == id) ≡ true
      → (EmailCode.request_email_change env j email code w).0
        ≡ err (domain invalid_email_change_code)
  Refused id r w = Unit

  unfoldable pub AllRefused : String → List (Request env) → World env → Type 0
  unfolding Refused handle
  AllRefused id [] w = Unit
  AllRefused id (r ∷ rs) w = Refused id r w × AllRefused id rs (handle env r w)

  Left-SameCode : (n : ℕ) (u v : User) → SameCode u v → Left n u → Left n v
  Left-SameCode n u v same (inl none_left) = inl (same.hash ∙ none_left)
  Left-SameCode n u v same (inr few) = inr (omega (arith, few, same.attempts))

  tries_plain : (id : String) (r : Request env) → IsPlain env r → tries_of id r ≡ 0
  unfolding tries_of IsPlain
  tries_plain id (request_email_change_code j) plain = refl
  tries_plain id (request_email_change j email code) plain = absurd plain
  tries_plain id r plain = refl

  eq_flip : (j id : String) → (j == id) ≡ false → (id == j) ≡ false
  eq_flip j id other = elim (Bool-cases (id == j)) [
    | inl same ↦ let own = (eq_iff id j).0 same in absurd (cc (other, (eq_iff j id).1 (sym own)))
    | inr apart ↦ apart
  ]

  failed-users :
      (id : String) (w : World env) (e : Failure)
      → (EmailCode.request_email_change_code env id w).0 ≡ err e
      → (EmailCode.request_email_change_code env id w).1.users ≡ w.users
  failed-users id w e h = unfold EmailCode.request_email_change_code in ground arith

  -- A try of this user takes one from what is left, anything else nothing.
  one_try : (n : ℕ) (b : Bool) → b ≡ true → (if b then 1 else 0) + n ≡ suc n
  one_try n b h = rw h (omega arith)

  no_try : (n : ℕ) (b : Bool) → b ≡ false → (if b then 1 else 0) + n ≡ n
  no_try n b h = rw h (omega arith)

  Fewer-plain :
      (n : ℕ) (id : String) (r : Request env) (w : World env)
      → IsPlain env r
      → Fewer env n id w
      → Fewer env n id (handle env r w)
  Fewer-plain n id r w plain (u, stored, left) =
      let (v, there, (le, same)) = ((handle-Step env codes r plain).0 w).at id u stored in
      (v, there, Left-SameCode n u v same left)

  -- A request for a code of another user, in either of the two forms.
  Fewer-other :
      (n : ℕ) (id j : String) (w w' : World env)
      → Carried env (codes_but j) w.users w'.users
      → (j == id) ≡ false
      → Fewer env n id w
      → Fewer env n id w'
  Fewer-other n id j w w' carried other (u, stored, left) =
      let (v, there, (le, _, same)) = carried.at id u stored in
      let apart : (u.id == j) ≡ false =
        ap (λ k. k == j) (env.users.doc-id w.users id u stored) ∙ eq_flip j id other in
      (v, there, Left-SameCode n u v (same apart) left)

  Fewer-issue :
      (n : ℕ) (id j : String) (w : World env)
      → Refused id (request_email_change_code j) w
      → Fewer env n id w
      → Fewer env n id (handle env (request_email_change_code j) w)
  unfolding Refused
  Fewer-issue n id j w refused fewer = elim (Bool-cases (j == id)) [
    | inl own ↦
        let (e, failed) = refused own in
        let same : (handle env (request_email_change_code j) w).users ≡ w.users =
          unfold handle in failed-users j w e failed in
        let (u, stored, left) = fewer in (u, ap (λ s. env.users.doc s id) same ∙ stored, left)
    | inr other ↦
        Fewer-other n id j w (handle env (request_email_change_code j) w)
          ((issue-Step env (codes_but j) j refl).0 w) other fewer
  ]

  Fewer-try :
      (n : ℕ) (id j email code : String) (w : World env)
      → Refused id (request_email_change j email code) w
      → Fewer env (tries_of id (request_email_change j email code) + n) id w
      → Fewer env n id (handle env (request_email_change j email code) w)
  unfolding Refused tries_of
  Fewer-try n id j email code w refused fewer = elim (Bool-cases (j == id)) [
    | inl own ↦
        let (u, stored, left) = subst (λ k. Fewer env k id w) (one_try n (j == id) own) fewer in
        let mine : env.users.doc w.users j ≡ some u =
          ap (λ k. env.users.doc w.users k) ((eq_iff j id).0 own) ∙ stored in
        let (refused', same) = request-refused env j email code u w mine (refused own) in
        unfold handle in
        subst (λ k. Fewer env n k (EmailCode.request_email_change env j email code w).1)
          ((eq_iff j id).0 own)
          (subst (Fewer env n j) (sym same) (assert-Fewer env n j code u w mine left refused'))
    | inr other ↦
        Fewer-other n id j w (handle env (request_email_change j email code) w)
          ((try-Step env (codes_but j) j email code refl).0 w) other
          (subst (λ k. Fewer env k id w) (no_try n (j == id) other) fewer)
  ]

  zero_add : (n : ℕ) → 0 + n ≡ n
  zero_add n = omega arith

  Fewer-handle :
      (n : ℕ) (id : String) (r : Request env) (w : World env)
      → Refused id r w
      → Fewer env (tries_of id r + n) id w
      → Fewer env n id (handle env r w)
  unfolding tries_of
  Fewer-handle n id =
      Request-cases env
        (λ r.
          (w : World env)
          → Refused id r w
          → Fewer env (tries_of id r + n) id w
          → Fewer env n id (handle env r w))
        (λ r plain w refused fewer. Fewer-plain n id r w plain (
          subst (λ k. Fewer env k id w) (ap (λ k. k + n) (tries_plain id r plain) ∙ zero_add n)
            fewer))
        (λ j w refused (u, stored, left).
          Fewer-issue n id j w refused (u, stored, subst (λ k. Left k u) (zero_add n) left))
        (λ j email code. Fewer-try n id j email code)
        (λ token w refused (u, stored, left). (
          u,
          ap (λ s. env.users.doc s id) (users-after_logout env token w) ∙ stored,
          subst (λ k. Left k u) (zero_add n) left,
        ))

  serve-Fewer :
      (id : String) (rs : List (Request env)) (w : World env)
      → AllRefused id rs w
      → Fewer env (tries id rs) id w
      → Fewer env 0 id (serve env rs w)
  unfolding serve tries AllRefused
  serve-Fewer id [] w refused fewer = fewer
  serve-Fewer id (r ∷ rs) w (refused, later) fewer =
      serve-Fewer id rs (handle env r w) later (Fewer-handle (tries id rs) id r w refused fewer)

  -- A code takes five wrong tries, whatever is served between them: after a run of requests in
  -- which no request for a new code of the user succeeded and every try of a code of the user was
  -- answered by the error for a wrong or spent code, and in which the tries, with those the user
  -- had before, are at least five, no request for a new address of the user is granted by a code
  -- any more, not even with the right one. All other requests, those of other users and pauses may
  -- stand in the run.
  pub code-budget :
      (id : String) (rs : List (Request env)) (u : User) (w : World env) (email code : String)
      (r : String × ℕ × User)
      → env.users.doc w.users id ≡ some u
      → 5 ≤ u.email_change_code_attempts + tries id rs
      → AllRefused id rs w
      → (EmailCode.request_email_change env id email code (serve env rs w)).0 ≢ ok r
  code-budget id rs u w email code r stored enough refused h =
      let w' = serve env rs w in
      let (v, stored', left) = serve-Fewer id rs w refused (u, stored, inr enough) in
      absurd (cc (Left-spent env w'.now v left, request-passed env id email code v w' stored' h))
