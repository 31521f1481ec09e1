-- ===== src/World/Runs.antt =====
-- Methods that, when they return, have mapped one document of the collection that they work on,
-- with a rule for each way to build a method, and for a transaction around one.
use api_user.Prelude.{
  String, ◌≡◌, refl, sym, Bool, true, false, inl, inr, Option, none, some, arith, get_or,
  Bool-cases,
}
use mathlib.Core.Path.{subst}
use api_user.Errors.{ErrorKind}
use api_user.Exec.{Result, ok, err, pure, gets, throw_if, or_throw, ◌>>=◌}
use api_user.Exec.Inversion.{continue-eq-ok, or_throw-bind-ok}
use api_user.Users.{User}
use api_user.Env.{Env}
use api_user.World.{
  World, M, Event, target, emit, random_uuid, committed, commit_session, end_transaction,
  run_in_transaction,
}
use api_user.World.Updates.{
  Updates, Replaces, Updates-Replaces, Updates-refl, Updates-trans, Updates-commit,
}

module _ (env : Env) where
  -- With the session or without, `m` maps the document under `k` by `f` and leaves the others.
  pub record Runs {A : Type 0} (session : Bool) (k : String) (f : User → User) (m : M env A)
      : Type 0 where
    pub at :
        (w : World env) (a : A)
        → (m w).0 ≡ ok a
        → Updates env (target env session w) (target env session (m w).1) k f

  pub Runs-pure :
      {A : Type 0} (session : Bool) (k : String) (a : A) → Runs session k (λ u. u) (pure a)
  Runs-pure session k a = record { at = λ w b e. Updates-refl env (target env session w) k }

  pub Runs-emit : (session : Bool) (k : String) (e : Event) → Runs session k (λ u. u) (emit env e)
  Runs-emit true k e = record { at = λ w b _. Updates-refl env (target env true w) k }
  Runs-emit false k e = record { at = λ w b _. Updates-refl env (target env false w) k }

  pub Runs-or_throw :
      {A : Type 0} (session : Bool) (k : String) (x : ErrorKind) (o : Option A)
      → Runs session k (λ u. u) (or_throw x o)
  Runs-or_throw session k x none = record { at = λ w b e. cc }
  Runs-or_throw session k x (some a) = Runs-pure session k a

  pub Runs-throw_if :
      (session : Bool) (k : String) (c : Bool) (x : ErrorKind)
      → Runs session k (λ u. u) (throw_if c x)
  Runs-throw_if session k true x = record { at = λ w b e. cc }
  Runs-throw_if session k false x = Runs-pure session k tt

  pub Runs-gets :
      {A : Type 0} (session : Bool) (k : String) (f : World env → A)
      → Runs session k (λ u. u) (gets f)
  Runs-gets session k f = record { at = λ w b e. Updates-refl env (target env session w) k }

  pub Runs-random_uuid : (k : String) → Runs false k (λ u. u) (random_uuid env)
  Runs-random_uuid k = record { at = λ w b e. Updates-refl env w.users k }

  pub Runs-bind :
      {A B : Type 0} (session : Bool) (k : String) (f g : User → User) (m : M env A)
      (n : A → M env B)
      → Runs session k f m
      → ((a : A) → Runs session k g (n a))
      → Runs session k (λ u. g (f u)) (m >>= n)
  Runs-bind session k f g m n hm hn = record {
    at = λ w b e.
        let (a, ea, same, eb) = continue-eq-ok (m w).0 n (m w).1 e in
        rw same (
          Updates-trans env (target env session w) (target env session (m w).1)
            (target env session (n a (m w).1).1) k f g (hm.at w a ea) ((hn a).at (m w).1 b eb));
  }

  -- The step that maps the document comes last, or first.
  pub Runs-skip :
      {A B : Type 0} (session : Bool) (k : String) (f : User → User) (m : M env A) (n : A → M env B)
      → Runs session k (λ u. u) m
      → ((a : A) → Runs session k f (n a))
      → Runs session k f (m >>= n)
  Runs-skip session k f m n = Runs-bind session k (λ u. u) f m n

  pub Runs-last :
      {A B : Type 0} (session : Bool) (k : String) (f : User → User) (m : M env A) (n : A → M env B)
      → Runs session k f m
      → ((a : A) → Runs session k (λ u. u) (n a))
      → Runs session k f (m >>= n)
  Runs-last session k f m n = Runs-bind session k f (λ u. u) m n

  module _ {A : Type 0} (k : String) (f : User → User) (s : env.users.State) (w : World env)
      (b : A) where
    committed-Updates :
        (o : Option env.users.State) (t : env.users.State) (a : A)
        → env.users.commit t ≡ o
        → Updates env s t k f
        → (committed env o a w).0 ≡ ok b
        → Updates env s (committed env o a w).1.users k f
    committed-Updates none t a c h e = cc
    committed-Updates (some t') t a c h e = Updates-commit env s t t' k f h c

    commit_session-Updates :
        (o : Option env.users.State) (a : A)
        → Updates env s (get_or o w.users) k f
        → (commit_session env o a w).0 ≡ ok b
        → Updates env s (commit_session env o a w).1.users k f
    commit_session-Updates none a h e = h
    commit_session-Updates (some t) a h e = committed-Updates (env.users.commit t) t a refl h e

    end_transaction-Updates :
        (r : Result A)
        → ((a : A) → r ≡ ok a → Updates env s (get_or w.session w.users) k f)
        → (end_transaction env (r, w)).0 ≡ ok b
        → Updates env s (end_transaction env (r, w)).1.users k f
    end_transaction-Updates (ok a) h e = commit_session-Updates w.session a (h a refl) e
    end_transaction-Updates (err x) h e = cc

  -- A transaction, with or without a session from the server.
  pub Runs-run_in_transaction :
      {A : Type 0} (k : String) (f : User → User) (m : Bool → M env A)
      → ((session : Bool) → Runs session k f (m session))
      → Runs false k f (run_in_transaction env m)
  unfolding run_in_transaction
  Runs-run_in_transaction k f m h = record {
    at = λ w a e. elim (Bool-cases (env.users.start_session w.users)) [
      | inl yes_session ↦
          let w0 = record w { session = none } in
          let (r, w') = m true w0 in
          let e' : (end_transaction env (r, w')).0 ≡ ok a =
            rw (yes_session, run_in_transaction) at e in
          rw yes_session
            (end_transaction-Updates k f w.users w' a r (λ x ex. (h true).at w0 x ex) e')
      | inr no_session ↦ rw no_session ((h false).at w a (rw (no_session, run_in_transaction) at e))
    ];
  }

  end_transaction-outside :
      {A : Type 0} (r : Result A) (w : World env) {a : A}
      → w.session ≡ none
      → (end_transaction env (r, w)).0 ≡ ok a
      → (end_transaction env (r, w) ≡ (r, w)) × (r ≡ ok a)
  end_transaction-outside (ok a) w e h = ground arith
  end_transaction-outside (err x) w e h = cc

  -- What came out of a transaction whose callback does not use the session came out of the
  -- callback, with or without a session there.
  pub transaction_outside-ok :
      {A : Type 0} (m : M env A) (w : World env) (a : A)
      → ((w : World env) → (m w).1.session ≡ w.session)
      → (run_in_transaction env (λ session. m) w).0 ≡ ok a
      → (s : Option env.users.State) × ((m (record w { session = s })).0 ≡ ok a)
        × ((run_in_transaction env (λ session. m) w).1.users
            ≡ (m (record w { session = s })).1.users)
  unfolding run_in_transaction
  transaction_outside-ok m w a same e = elim (Bool-cases (env.users.start_session w.users)) [
    | inl given ↦
        let w0 = record w { session = none } in
        let (r, w') = m w0 in
        let e' : (end_transaction env (r, w')).0 ≡ ok a = rw (given, run_in_transaction) at e in
        let (ended, returned) = end_transaction-outside r w' (same w0) e' in
        (none, returned, rw (given, ended) refl)
    | inr refused ↦ (w.session, rw (refused, run_in_transaction) at e, rw refused refl)
  ]

  -- A transaction whose callback does not use the session writes at once.
  pub Runs-transaction_outside :
      {A : Type 0} (k : String) (f : User → User) (m : M env A)
      → ((w : World env) → (m w).1.session ≡ w.session)
      → Runs false k f m
      → Runs false k f (run_in_transaction env (λ session. m))
  unfolding run_in_transaction
  Runs-transaction_outside k f m same h = record {
    at = λ w a e.
        let (s, returned, users) = transaction_outside-ok m w a same e in
        rw users (h.at (record w { session = s }) a returned);
  }

  -- A method that looks a user up and then runs on the user's document has, when it returns, found
  -- a stored user that passes the test, and replaced that document alone.
  pub Replaces-found :
      {A : Type 0} (p : User → Bool) (x : ErrorKind) (f : User → User → User)
      (rest : User → M env A) (w : World env) (a : A)
      → ((u : User) → Runs false u.id (f u) (rest u))
      → ((or_throw x (env.users.find_one w.users p) >>= rest) w).0 ≡ ok a
      → (u : User) × (p u ≡ true)
        × Replaces env w.users
            ((or_throw x (env.users.find_one w.users p) >>= rest) w).1.users
            u
            (f u u)
  Replaces-found p x f rest w a runs h =
      let (u, found, same, h') = or_throw-bind-ok x (env.users.find_one w.users p) rest w h in
      (
        u,
        env.users.find_one-test w.users p u found,
        rw same (
            Updates-Replaces env w.users (rest u w).1.users (f u) u
              (env.users.find_one-doc w.users p u found) ((runs u).at w a h')),
      )

  -- The same for a user that is read by its id.
  pub Replaces-by_id :
      {A : Type 0} (id : String) (x : ErrorKind) (f : User → User → User) (rest : User → M env A)
      (w : World env) (a : A)
      → ((u : User) → Runs false id (f u) (rest u))
      → ((or_throw x (env.users.doc w.users id) >>= rest) w).0 ≡ ok a
      → (u : User) × (env.users.doc w.users id ≡ some u)
        × ((rest u w).0 ≡ ok a)
        × Replaces env w.users
            ((or_throw x (env.users.doc w.users id) >>= rest) w).1.users
            u
            (f u u)
  Replaces-by_id id x f rest w a runs h =
      let (u, found, same, h') = or_throw-bind-ok x (env.users.doc w.users id) rest w h in
      let own = env.users.doc-id w.users id u found in
      let updates =
        subst (λ k. Updates env w.users (rest u w).1.users k (f u)) (sym own)
          ((runs u).at w a h') in
      (
        u,
        found,
        h',
        rw same (Updates-Replaces env w.users (rest u w).1.users (f u) u (rw own found) updates),
      )

pub ruleset runs_rules =
    (Runs-pure, Runs-emit, Runs-or_throw, Runs-throw_if, Runs-gets, Runs-random_uuid, Runs-skip)
