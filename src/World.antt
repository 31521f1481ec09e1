-- ===== src/World.antt =====
-- The state that a request reads and writes, the primitive effects, and transactions
-- (common/utils/transaction.ts).
pub mod Runs
pub mod Epochs
pub mod Updates
use api_user.Prelude.{
  ℕ, ◌+◌, String, Bool, true, false, Option, none, some, List, ◌∷◌, get_or, if◌then◌else◌,
}
use api_user.Exec.{Failure, driver, Result, ok, err, Exec}
use api_user.Users.{User}
use api_user.Env.{Env}

-- The events of email/constants/email.events.ts with their payloads, and the cache invalidations
-- with their patterns. `lang` is passed through.
pub data Event : Type 0 where
  invalidate_user : (pattern : String) → Event
  invalidate_rbac : (pattern : String) → Event
  user_registered : (user_id email name token : String) (lang : Option String) → Event
  resend_verification : (user_id email name token : String) (lang : Option String) → Event
  forgot_password : (user_id email name token : String) (lang : Option String) → Event
  password_changed : (user_id email name : String) (lang : Option String) → Event
  email_change_confirmed : (user_id email name : String) (lang : Option String) → Event
  email_change_requested_old :
      (user_id previous_email new_email name token : String) (lang : Option String) → Event
  email_change_reverted : (user_id email name : String) (lang : Option String) → Event

pub record World (env : Env) : Type 0 where
  -- the committed users collection, and the snapshot of the open transaction once it has written
  pub users : env.users.State
  pub session : Option env.users.State
  pub redis : env.denylist.Redis
  pub roles : env.roles.State
  pub cached : env.cache.Cached
  -- newest first
  pub events : List Event
  -- how many random values were drawn
  pub drawn : ℕ
  -- the time of the request, in milliseconds
  pub now : ℕ

module _ (env : Env) where
  abbrev pub M : Type 0 → Type 0
  M A = Exec (World env) A

  -- The collection that an operation with or without the transaction's session works on.
  abbrev pub target : Bool → World env → env.users.State
  target true w = get_or w.session w.users
  target false w = w.users

  abbrev pub written : Bool → env.users.State → World env → World env
  written true s w = record w { session = some s }
  written false s w = record w { users = s }

  -- Some time later, in milliseconds.
  abbrev pub later : ℕ → World env → World env
  later n w = record w { now = w.now + n }

  -- `eventEmitter.emit`
  abbrev pub emit : Event → M (Unit {0})
  emit e w = (ok tt, record w { events = e ∷ w.events })

  abbrev pub random_uuid : M String
  random_uuid w = (ok (env.crypto.uuid w.drawn), record w { drawn = w.drawn + 1 })

  abbrev pub random_int : M ℕ
  random_int w = (ok (env.crypto.random_int w.drawn), record w { drawn = w.drawn + 1 })

  abbrev pub new_object_id : M String
  new_object_id w = (ok (env.crypto.object_id w.drawn), record w { drawn = w.drawn + 1 })

  module _ {A : Type 0} where
    abbrev pub committed : Option env.users.State → A → World env → Result A × World env
    committed none a w = (err driver, record w { session = none })
    committed (some s) a w = (ok a, record w { users = s; session = none })

    -- `commitTransaction` when the callback returned; nothing was written without a snapshot.
    abbrev pub commit_session : Option env.users.State → A → World env → Result A × World env
    commit_session none a w = (ok a, w)
    commit_session (some s) a w = committed (env.users.commit s) a w

    -- `commitTransaction`, or `abortTransaction` and the same error.
    abbrev pub end_transaction : Result A × World env → Result A × World env
    end_transaction (ok a, w) = commit_session w.session a w
    end_transaction (err e, w) = (err e, record w { session = none })

    -- `runInTransaction`: with a session if the server gives one, else the callback on its own.
    unfoldable pub run_in_transaction : (Bool → M A) → M A
    run_in_transaction callback w =
        if env.users.start_session w.users
        then end_transaction (callback true (record w { session = none }))
        else callback false w
