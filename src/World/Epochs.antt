-- ===== src/World/Epochs.antt =====
-- Methods after which no user is gone and no session epoch is smaller, whether they return or
-- throw, and that leave Redis, and in two of three modes the codes of email changes, alone, with a
-- rule for each way to build a method.
use api_user.Prelude.{
  ◌≤◌, String, ◌≡◌, ◌∙◌, refl, ap, sym, eq_iff, Bool, true, false, Option, none, some, arith,
  get_or, Bool-cases, Option-cases, inl, inr, ◌==◌,
}
use native.Mathlib.Nat.{le_refl, le_trans}
use api_user.Errors.{ErrorKind}
use api_user.Exec.{Result, ok, err, pure, raise, gets, throw_if, when, or_throw, continue, ◌>>=◌}
use api_user.Users.{User}
use api_user.Env.{Env}
use api_user.World.{
  World, M, Event, target, emit, random_uuid, random_int, commit_session, end_transaction,
  run_in_transaction,
}
use api_user.World.Updates.{Updates}

-- How much is asked of a method: that it lowers no epoch, and that it leaves the code of an email
-- change and its count of attempts alone, for all users or for all but one.
pub data Mode : Type 0 where
  epochs codes : Mode
  codes_but : String → Mode

pub record SameCode (u v : User) : Type 0 where
  pub hash : v.email_change_code_hash ≡ u.email_change_code_hash
  pub attempts : v.email_change_code_attempts ≡ u.email_change_code_attempts

SameCode-trans : (u v w : User) → SameCode u v → SameCode v w → SameCode u w
SameCode-trans u v w a b = record { hash = b.hash ∙ a.hash; attempts = b.attempts ∙ a.attempts }

-- What an update may do to a user.
abbrev pub Later : Mode → User → User → Type 0
Later epochs u v = u.session_epoch ≤ v.session_epoch
Later codes u v = (u.session_epoch ≤ v.session_epoch) × SameCode u v
Later (codes_but id) u v =
    (u.session_epoch ≤ v.session_epoch) × (v.id ≡ u.id) × ((u.id == id) ≡ false → SameCode u v)

pub Later-refl : (mode : Mode) (u : User) → Later mode u u
Later-refl epochs u = le_refl _
Later-refl codes u = (le_refl _, record { hash = refl; attempts = refl })
Later-refl (codes_but id) u = (le_refl _, refl, λ other. record { hash = refl; attempts = refl })

pub Later-trans : (mode : Mode) (u v w : User) → Later mode u v → Later mode v w → Later mode u w
Later-trans epochs u v w a b = le_trans a b
Later-trans codes u v w (a, c) (a', c') = (le_trans a a', SameCode-trans u v w c c')
Later-trans (codes_but id) u v w (a, i, c) (a', i', c') = (
  le_trans a a',
  i' ∙ i,
  λ other. SameCode-trans u v w (c other) (c' (ap (λ k. k == id) i ∙ other)),
)

-- A mode that asks nothing of the code of a user.
abbrev pub Free : Mode → String → Type 0
Free epochs k = Unit
Free codes k = ⊥
Free (codes_but id) k = k ≡ id

pub Later-free :
    (mode : Mode) (k : String) (u v : User)
    → Free mode k
    → u.id ≡ k
    → v.id ≡ u.id
    → u.session_epoch ≤ v.session_epoch
    → Later mode u v
Later-free epochs k u v free at i grows = grows
Later-free codes k u v free at i grows = absurd free
Later-free (codes_but id) k u v free at i grows =
    (grows, i, λ other. absurd (cc (other, (eq_iff u.id id).1 (at ∙ free))))

module _ (env : Env) (mode : Mode) where
  -- Every user of `s` is in `t`, with at least its epoch.
  pub record Carried (s t : env.users.State) : Type 0 where
    pub at :
        (k : String) (u : User)
        → env.users.doc s k ≡ some u
        → (v : User) × (env.users.doc t k ≡ some v) × Later mode u v

  pub Carried-refl : (s : env.users.State) → Carried s s
  Carried-refl s = record { at = λ k u e. (u, e, Later-refl mode u) }

  pub Carried-trans : {s t t' : env.users.State} → Carried s t → Carried t t' → Carried s t'
  Carried-trans a b = record {
    at = λ k u e.
        let (v, ev, le) = a.at k u e in
        let (v', ev', le') = b.at k v ev in (v', ev', Later-trans mode u v v' le le');
  }

  pub Carried-commit :
      {s t t' : env.users.State} → Carried s t → env.users.commit t ≡ some t' → Carried s t'
  Carried-commit {t} {t'} a c = record {
    at = λ k u e. let (v, ev, le) = a.at k u e in (v, env.users.doc-commit t t' c k ∙ ev, le);
  }

  pub Carried-Updates :
      (s t : env.users.State) (k : String) (f : User → User)
      → ((u : User) → u.id ≡ k → Later mode u (f u))
      → Updates env s t k f
      → Carried s t
  Carried-Updates s t k f grows h = record {
    at = λ j u e. elim (Bool-cases (k == j)) [
      | inl same ↦
          let at = env.users.doc-id s j u e ∙ sym ((eq_iff k j).0 same) in
          (f u, ground (arith, h.at j), grows u at)
      | inr other ↦ (u, ground (arith, h.at j), Later-refl mode u)
    ];
  }

  -- `m` only grows the committed users, and the collection that it works on in a transaction.
  pub record Grows {A : Type 0} (session : Bool) (m : M env A) : Type 0 where
    pub users : (w : World env) → Carried w.users (m w).1.users
    pub target : (w : World env) → Carried (target env session w) (target env session (m w).1)
    pub redis : (w : World env) → (m w).1.redis ≡ w.redis

  pub Grows-pure : {A : Type 0} (session : Bool) (a : A) → Grows session (pure a)
  Grows-pure session a = record {
    users = λ w. Carried-refl w.users;
    target = λ w. Carried-refl (target env session w);
    redis = λ w. refl;
  }

  pub Grows-raise : {A : Type 0} (session : Bool) (x : ErrorKind) → Grows session (raise {A = A} x)
  Grows-raise session x = record {
    users = λ w. Carried-refl w.users;
    target = λ w. Carried-refl (target env session w);
    redis = λ w. refl;
  }

  pub Grows-gets : {A : Type 0} (session : Bool) (f : World env → A) → Grows session (gets f)
  Grows-gets session a = record {
    users = λ w. Carried-refl w.users;
    target = λ w. Carried-refl (target env session w);
    redis = λ w. refl;
  }

  pub Grows-throw_if : (session : Bool) (c : Bool) (x : ErrorKind) → Grows session (throw_if c x)
  Grows-throw_if session true x = Grows-raise session x
  Grows-throw_if session false x = Grows-pure session tt

  pub Grows-or_throw :
      {A : Type 0} (session : Bool) (x : ErrorKind) (o : Option A) → Grows session (or_throw x o)
  Grows-or_throw session x none = Grows-raise session x
  Grows-or_throw session x (some a) = Grows-pure session a

  pub Grows-when :
      (session c : Bool) (m : M env (Unit {0})) → Grows session m → Grows session (when c m)
  Grows-when session true m h = h
  Grows-when session false m h = Grows-pure session tt

  pub Grows-emit : (session : Bool) (e : Event) → Grows session (emit env e)
  Grows-emit true e = record {
    users = λ w. Carried-refl w.users;
    target = λ w. Carried-refl (target env true w);
    redis = λ w. refl;
  }
  Grows-emit false e = record {
    users = λ w. Carried-refl w.users;
    target = λ w. Carried-refl w.users;
    redis = λ w. refl;
  }

  pub Grows-random_uuid : Grows false (random_uuid env)
  Grows-random_uuid = record {
    users = λ w. Carried-refl w.users;
    target = λ w. Carried-refl w.users;
    redis = λ w. refl;
  }

  pub Grows-random_int : Grows false (random_int env)
  Grows-random_int = record {
    users = λ w. Carried-refl w.users;
    target = λ w. Carried-refl w.users;
    redis = λ w. refl;
  }

  module _ {A B : Type 0} (session : Bool) where
    Grows-continue :
        (r : Result A) (n : A → M env B)
        → ((a : A) → Grows session (n a))
        → Grows session (continue r n)
    Grows-continue (ok a) n h = h a
    Grows-continue (err e) n h = record {
      users = λ w. Carried-refl w.users;
      target = λ w. Carried-refl (target env session w);
      redis = λ w. refl;
    }

    pub Grows-bind :
        (m : M env A) (n : A → M env B)
        → Grows session m
        → ((a : A) → Grows session (n a))
        → Grows session (m >>= n)
    Grows-bind m n hm hn = record {
      users = λ w. Carried-trans (hm.users w) ((Grows-continue (m w).0 n hn).users (m w).1);
      target = λ w. Carried-trans (hm.target w) ((Grows-continue (m w).0 n hn).target (m w).1);
      redis = λ w. (Grows-continue (m w).0 n hn).redis (m w).1 ∙ hm.redis w;
    }

  module _ {A : Type 0} (s : env.users.State) where
    commit_session-Carried :
        (o : Option env.users.State) (a : A) (w : World env)
        → Carried s w.users
        → Carried s (get_or o w.users)
        → Carried s (commit_session env o a w).1.users
    commit_session-Carried none a w h k = h
    commit_session-Carried (some t) a w h k = elim (Option-cases (env.users.commit t)) [
      | inl failed ↦ rw failed h
      | inr (t', done) ↦ rw done (Carried-commit k done)
    ]

    end_transaction-Carried :
        (r : Result A) (w : World env)
        → Carried s w.users
        → Carried s (target env true w)
        → Carried s (end_transaction env (r, w)).1.users
    end_transaction-Carried (ok a) w h k = commit_session-Carried w.session a w h k
    end_transaction-Carried (err e) w h k = h

  module _ {A : Type 0} where
    redis-commit_session :
        (o : Option env.users.State) (a : A) (w : World env)
        → (commit_session env o a w).1.redis ≡ w.redis
    redis-commit_session none a w = refl
    redis-commit_session (some t) a w = elim (Option-cases (env.users.commit t)) [
      | inl failed ↦ rw failed refl
      | inr (t', done) ↦ rw done refl
    ]

    redis-end_transaction :
        (r : Result A) (w : World env) → (end_transaction env (r, w)).1.redis ≡ w.redis
    redis-end_transaction (ok a) w = redis-commit_session w.session a w
    redis-end_transaction (err e) w = refl

  pub Grows-run_in_transaction :
      {A : Type 0} (m : Bool → M env A)
      → Grows true (m true)
      → Grows false (m false)
      → Grows false (run_in_transaction env m)
  unfolding run_in_transaction
  Grows-run_in_transaction m inside outside = record { users = go; target = go; redis = same }
    where
      go : (w : World env) → Carried w.users (run_in_transaction env m w).1.users
      go w = elim (Bool-cases (env.users.start_session w.users)) [
        | inl given ↦
            let w0 = record w { session = none } in
            rw given (
              end_transaction-Carried w.users (m true w0).0 (m true w0).1 (inside.users w0)
                (inside.target w0))
        | inr refused ↦ rw refused (outside.users w)
      ]

      same : (w : World env) → (run_in_transaction env m w).1.redis ≡ w.redis
      same w = elim (Bool-cases (env.users.start_session w.users)) [
        | inl given ↦
            let w0 = record w { session = none } in
            rw given (redis-end_transaction (m true w0).0 (m true w0).1 ∙ inside.redis w0)
        | inr refused ↦ rw refused (outside.redis w)
      ]

module _ (env : Env) where
  -- No user is gone and no epoch is smaller.
  abbrev pub Grow : env.users.State → env.users.State → Type 0
  Grow s t = Carried env epochs s t

pub ruleset epoch_rules = (
  Grows-pure, Grows-raise, Grows-gets, Grows-throw_if, Grows-or_throw, Grows-when, Grows-emit,
  Grows-random_uuid, Grows-random_int, Grows-bind,
)
