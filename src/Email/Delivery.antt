-- ===== src/Email/Delivery.antt =====
-- The mail of an event, from email/listeners/email.listener.ts to the queue.
use api_user.Prelude.{ℕ, ◌+◌, String, ◌≡◌, refl, true, Option, none, some, is_some, List, [], ◌∷◌}
use api_user.Errors.{ErrorKind}
use api_user.Exec.{or_throw}
use api_user.Csv.{Text}
use api_user.Redis.{codes}
use api_user.Email.{EmailTemplate, EmailSendEvent, Outside, MailState}
use api_user.Email.Substitution.{variable}
use api_user.Email.Catalog.{DefaultTemplate, default_templates, find_default}
use api_user.Email.Templates.{first_file, default_files, render}
use api_user.Email.Sending.{new_log, mail}
use api_user.Email.Listener.{Message}

module _ (o : Outside) where
  -- All the variables that a default template declares are among those of a message.
  abbrev pub Given : List (String × Text) → List String → Type 0
  Given variables [] = Unit
  Given variables (v ∷ vs) = (is_some (variable variables (codes v)) ≡ true) × Given variables vs

  abbrev pub Declared : Message o → Type 0
  Declared m =
      (d : DefaultTemplate) × (find_default m.slug default_templates ≡ some d)
      × Given m.variables d.variables

  or_throw-state :
      {A : Type 0} (k : ErrorKind) (a : Option A) (w : MailState o) → (or_throw k a w).1 ≡ w
  or_throw-state k none w = refl
  or_throw-state k (some a) w = refl

  -- The mail of a message that has found its template.
  abbrev pub mail_of : Message o → EmailTemplate → ℕ → EmailSendEvent
  mail_of m t drawn = mail o m.to (render o t m.variables) (o.object_id drawn)

  -- What a message with its template leaves behind: a queued mail, or nothing if the log of the mail
  -- is not stored.
  abbrev pub outcome : Message o → EmailTemplate → MailState o → Option o.Logs → MailState o
  outcome m t w none = w
  outcome m t w (some s) = record w {
    logs = s;
    queue = mail_of m t w.drawn ∷ w.queue;
    drawn = w.drawn + 1;
  }

  abbrev pub after_sending : Message o → EmailTemplate → MailState o → MailState o
  after_sending m t w =
      outcome m t w
        (o.insert_log w.logs (new_log o m.to (some m.slug) (render o t m.variables).0 none w.drawn))

  -- Each default template has a readable file among those for any language.
  abbrev pub HaveFiles : List DefaultTemplate → Type 0
  HaveFiles [] = Unit
  HaveFiles (d ∷ ds) =
      (is_some (first_file o (default_files o d.content_file)) ≡ true) × HaveFiles ds
