-- ===== src/Email.antt =====
-- email/entities/ and what the mails take from outside: the two collections, the provider, the
-- translations, the files of the templates and the configuration.
pub mod Substitution
pub mod Rendering
pub mod Catalog
pub mod Templates
pub mod Seeding
pub mod Seeded
pub mod Sending
pub mod Listener
pub mod Delivery
use api_user.Prelude.{ℕ, String, Bool, Option, List}
use api_user.Csv.{Text}
use api_user.Exec.{Exec}

-- The texts in which placeholders are searched are lists of code units.
pub record EmailTemplate : Type 0 where
  pub id : String
  pub name : String
  pub slug : String
  pub subject : Text
  pub content : Text
  pub variables : List String
  pub image_url : Option String
  pub is_active : Bool
  pub version : ℕ

pub data Status : Type 0 where
  pending sent failed : Status

pub record EmailLog : Type 0 where
  pub id : String
  pub recipient : String
  pub template_slug : Option String
  pub subject : Text
  pub provider : String
  pub status : Status
  pub message_id : Option String
  pub error : Option String
  pub metadata : Option String

-- `EmailSendEvent`
pub record EmailSendEvent : Type 0 where
  pub to : String
  pub subject : Text
  pub html : Text
  pub log_id : String
  pub from : Option String
  pub reply_to : Option String

pub record EmailSendResult : Type 0 where
  pub success : Bool
  pub message_id : Option String
  pub error : Option String

-- Writes are `none` when the driver throws, and so is `send` when the provider does. A file is named
-- by the parts of its path below the working directory.
pub record Outside : Type 1 where
  pub Templates : Type 0
  pub find_one : Templates → (EmailTemplate → Bool) → Option EmailTemplate
  -- the templates, those with the given activity if there is one, from the newest to the oldest
  pub find_newest : Templates → Option Bool → List EmailTemplate
  pub insert_one : Templates → EmailTemplate → Option Templates
  pub update_one : Templates → String → (EmailTemplate → EmailTemplate) → Option Templates
  pub delete_one : Templates → String → Option (Bool × Templates)
  pub Logs : Type 0
  pub insert_log : Logs → EmailLog → Option Logs
  pub update_log : Logs → String → (EmailLog → EmailLog) → Option Logs
  pub object_id : ℕ → String
  pub send : EmailSendEvent → Option EmailSendResult
  -- what `translate` of I18n makes of the translations that are loaded
  pub translate : String → String → Text
  -- The language of the request, else the default.
  pub language : String
  pub read_file : List String → Option Text
  pub inherited : Text → Option Text
  pub email_provider : String
  pub frontend_url : String

module _ (o : Outside) where
  -- The state of the mails: the collections, the mails that are queued (newest first), how often the
  -- cache was told to drop templates, and how many ids were drawn.
  pub record MailState : Type 0 where
    pub templates : o.Templates
    pub logs : o.Logs
    pub queue : List EmailSendEvent
    pub invalidations : ℕ
    pub drawn : ℕ

  abbrev pub M : Type 0 → Type 0
  M A = Exec MailState A
