-- ===== src/Users/Service/Requests.antt =====
-- The requests of user/service/user.service.ts keep every session epoch, and all but those about a
-- code of an email change keep that code.
use api_user.Prelude.{String, Bool, true, false, Option, none, some, ◌==◌, if◌then◌else◌}
use api_user.Exec.{pure}
use api_user.Users.{User}
use api_user.Users.Repository
use api_user.Users.Service
use api_user.Users.Service.{UpdateUser, conflict}
use api_user.Users.Service.EmailCode
use api_user.Env.{Env}
use api_user.World.{M}
use api_user.World.Epochs.{Mode, Free, Grows, Grows-pure, epoch_rules, Grows-run_in_transaction}
use api_user.Users.Service.Epochs.{
  Grows-repository_find_by_id, Grows-repository_update, Grows-update, Grows-update_any,
  Grows-unset_any, Grows-soft_delete, Grows-bump_session_epoch, Grows-discard, Grows-find_by_id,
}
use api_user.Users.Service.Changes.{nothing}

module _ (env : Env) (mode : Mode) where
  pub Grows-if :
      {A : Type 0} (session c : Bool) (m n : M env A)
      → Grows env mode session m
      → Grows env mode session n
      → Grows env mode session (if c then m else n)
  Grows-if session true m n hm hn = hm
  Grows-if session false m n hm hn = hn

  write_password-Grows :
      (id hashed : String) (session : Bool)
      → Grows env mode session (Service.write_password env id hashed session)
  unfolding Service.write_password
  write_password-Grows id hashed session =
      search
        (epoch_rules, Grows-discard, Grows-repository_update, Grows-bump_session_epoch, nothing)

  pub change_password-Grows :
      (id current new : String) → Grows env mode false (Service.change_password env id current new)
  unfolding Service.change_password
  change_password-Grows id current new =
      search (epoch_rules, Grows-find_by_id, Grows-run_in_transaction, write_password-Grows)

  pub unlock_user-Grows : (id : String) → Grows env mode false (Service.unlock_user env id)
  unfolding Service.unlock_user
  unlock_user-Grows id = search (epoch_rules, Grows-discard, Grows-find_by_id, Grows-update) depth 9

  pub delete_user-Grows : (id : String) → Grows env mode false (Service.delete_user env id)
  unfolding Service.delete_user Service.invalidate_user_cache
  delete_user-Grows id =
      search (epoch_rules, Grows-discard, Grows-repository_find_by_id, Grows-soft_delete) depth 9

  pub toggle_active_user-Grows :
      (id : String) → Grows env mode false (Service.toggle_active_user env id)
  unfolding Service.toggle_active_user Service.invalidate_user_cache
  toggle_active_user-Grows id =
      search (epoch_rules, Grows-repository_find_by_id, Grows-repository_update) depth 9

  conflict-Grows :
      (test : String → String → M env Bool) (o : Option String) (id : String) (session : Bool)
      → ((t : String) → Grows env mode session (test t id))
      → Grows env mode session (conflict env test o id)
  unfolding conflict
  conflict-Grows test none id session h = Grows-pure env mode session false
  conflict-Grows test (some t) id session h =
      Grows-if session (t == "") (pure false) (test t id) (Grows-pure env mode session false) (h t)

  email_test-Grows :
      (id t : String) (session : Bool)
      → Grows env mode session (Repository.exists_by_email_excluding_self env t id)
  unfolding Repository.exists_by_email_excluding_self
  email_test-Grows id t session = search epoch_rules

  name_test-Grows :
      (id t : String) (session : Bool)
      → Grows env mode session (Repository.exists_by_name_excluding_self env t id)
  unfolding Repository.exists_by_name_excluding_self
  name_test-Grows id t session = search epoch_rules

  write_user-Grows :
      (id : String) (dto : UpdateUser) (session : Bool)
      → Grows env mode session (Service.write_user env id dto)
  unfolding Service.write_user
  write_user-Grows id dto session =
      search
        (
          epoch_rules, Grows-discard, Grows-repository_find_by_id, Grows-repository_update,
          conflict-Grows, email_test-Grows, name_test-Grows,
        )
        depth 12

  pub update_user-Grows :
      (id : String) (dto : UpdateUser) → Grows env mode false (Service.update_user env id dto)
  unfolding Service.update_user Service.invalidate_user_cache
  update_user-Grows id dto = search (epoch_rules, Grows-run_in_transaction, write_user-Grows)

  clear_code-Grows :
      (id : String) (session : Bool)
      → Free mode id
      → Grows env mode session (EmailCode.clear_email_change_code env id)
  unfolding EmailCode.clear_email_change_code
  clear_code-Grows id session free =
      search (epoch_rules, Grows-discard, Grows-unset_any, Grows-update_any, free)

  count_failure-Grows :
      (id : String) (u : User) (session : Bool)
      → Free mode id
      → Grows env mode session (EmailCode.count_failure env id u)
  unfolding EmailCode.count_failure
  count_failure-Grows id u session free =
      search (Grows-if, Grows-discard, Grows-update_any, clear_code-Grows, free)

  assert_code-Grows :
      (id : String) (u : User) (code : String) (session : Bool)
      → Free mode id
      → Grows env mode session (EmailCode.assert_email_change_code env id u code)
  unfolding EmailCode.assert_email_change_code
  assert_code-Grows id u code session free =
      search (epoch_rules, Grows-if, clear_code-Grows, count_failure-Grows, free) depth 9

  pub request_email_change_code-Grows :
      (id : String)
      → Free mode id
      → Grows env mode false (EmailCode.request_email_change_code env id)
  unfolding EmailCode.request_email_change_code
  request_email_change_code-Grows id free =
      search (epoch_rules, Grows-discard, Grows-find_by_id, Grows-update_any, free) depth 12

  pub request_email_change-Grows :
      (id email code : String)
      → Free mode id
      → Grows env mode false (EmailCode.request_email_change env id email code)
  unfolding EmailCode.request_email_change Service.invalidate_user_cache
  request_email_change-Grows id email code free =
      search
        (epoch_rules, Grows-discard, Grows-find_by_id, Grows-update_any, assert_code-Grows, free)
        depth 16
