-- ===== src/Email/Sending.antt =====
-- email/service/email.service.ts: logs, the queue of the event `email.send`, and its handler.
use api_user.Prelude.{ℕ, ◌+◌, String, Option, none, some, List, ◌∷◌, if◌then◌else◌}
use api_user.Exec.{ok, err, driver, ◌>>=◌}
use api_user.Csv.{Text}
use api_user.Email.{
  EmailTemplate, pending, sent, failed, EmailLog, EmailSendEvent, EmailSendResult, Outside,
  MailState, M,
}
use api_user.Email.Templates.{resolve, render}

module _ (o : Outside) where
  abbrev pub logged : EmailLog → Option o.Logs → M o String
  logged log none w = (err driver, w)
  logged log (some s) w = (ok log.id, record w { logs = s; drawn = w.drawn + 1 })

  abbrev pub new_log : String → Option String → Text → Option String → ℕ → EmailLog
  new_log recipient slug subject metadata drawn = record {
    id = o.object_id drawn;
    recipient = recipient;
    template_slug = slug;
    subject = subject;
    provider = o.email_provider;
    status = pending;
    message_id = none;
    error = none;
    metadata = metadata;
  }

  -- `create` of the repository of logs, with a new id.
  unfoldable pub create_log : String → Option String → Text → Option String → M o String
  create_log recipient slug subject metadata w =
      logged (new_log recipient slug subject metadata w.drawn)
        (o.insert_log w.logs (new_log recipient slug subject metadata w.drawn)) w

  abbrev pub emit_send : EmailSendEvent → M o (Unit {0})
  emit_send e w = (ok tt, record w { queue = e ∷ w.queue })

  abbrev pub mail : String → Text × Text → String → EmailSendEvent
  mail to (subject, html) log_id = record {
    to = to;
    subject = subject;
    html = html;
    log_id = log_id;
    from = none;
    reply_to = none;
  }

  -- What is left of `sendBySlug` once the template is found.
  abbrev pub send_template : String → String → List (String × Text) → EmailTemplate → M o (Unit {0})
  send_template slug to variables template = do
    let rendered = render o template variables
    log_id ← create_log to (some slug) rendered.0 none
    emit_send (mail to rendered log_id)

  -- The answer is always `{ status: 'queued' }`.
  unfoldable pub send_by_slug :
      String → String → List (String × Text) → Option String → M o (Unit {0})
  unfolding create_log
  send_by_slug slug to variables lang = do
    template ← resolve o slug lang
    send_template slug to variables template

  unfoldable pub send_direct :
      String → Text → Text → Option String → Option String → Option String → M o (Unit {0})
  unfolding create_log
  send_direct to subject html metadata from reply_to = do
    log_id ← create_log to none subject metadata
    emit_send (record {
      to = to;
      subject = subject;
      html = html;
      log_id = log_id;
      from = from;
      reply_to = reply_to;
    })

  abbrev pub with_result : EmailSendResult → EmailLog → EmailLog
  with_result result log = record log {
    status = if result.success then sent else failed;
    message_id = result.message_id;
    error = result.error;
  }

  abbrev pub stored_logs : Option o.Logs → M o (Unit {0})
  stored_logs none w = (err driver, w)
  stored_logs (some s) w = (ok tt, record w { logs = s })

  abbrev pub after_send : String → Option EmailSendResult → M o (Unit {0})
  after_send log_id none w = (err driver, w)
  after_send log_id (some result) w =
      stored_logs (o.update_log w.logs log_id (with_result result)) w

  unfoldable pub process_send : EmailSendEvent → M o (Unit {0})
  process_send event = after_send event.log_id (o.send event)

  -- The handler of the event logs an error and goes on.
  unfoldable pub handle_send : EmailSendEvent → MailState o → MailState o
  unfolding process_send
  handle_send event w = (process_send event w).1
