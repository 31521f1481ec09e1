-- ===== src/Email/Listener.antt =====
-- email/listeners/email.listener.ts, with the events of email/interfaces/email-events.interface.ts.
use api_user.Prelude.{String, Option, List, [], ◌∷◌, ◌++◌}
use api_user.Csv.{Text}
use api_user.Redis.{codes}
use api_user.Email.{Outside, MailState}
use api_user.Email.Sending.{send_by_slug}

pub data EmailEvent : Type 0 where
  user_registered : (email name verification_token : String) (lang : Option String) → EmailEvent
  forgot_password : (email name reset_token : String) (lang : Option String) → EmailEvent
  password_changed : (email name : String) (lang : Option String) → EmailEvent
  email_change_requested :
      (new_email name pending_email_token : String) (lang : Option String) → EmailEvent
  email_change_confirmed : (email name : String) (lang : Option String) → EmailEvent
  email_change_code_requested : (email name code : String) (lang : Option String) → EmailEvent
  email_change_requested_old :
      (previous_email new_email name revert_token : String) (lang : Option String) → EmailEvent
  email_change_reverted : (email name : String) (lang : Option String) → EmailEvent
  resend_verification : (email name verification_token : String) (lang : Option String) → EmailEvent

module _ (o : Outside) where
  -- `${frontendUrl}${path}${token}`
  abbrev pub link : String → String → Text
  link path token = codes o.frontend_url ++ (codes path ++ codes token)

  abbrev pub user_name : String → List (String × Text) → List (String × Text)
  user_name name rest = ("userName", codes name) ∷ rest

  -- What `sendBySlug` is called with.
  pub record Message : Type 0 where
    pub slug : String
    pub to : String
    pub variables : List (String × Text)
    pub lang : Option String

  abbrev pub message : String → String → List (String × Text) → Option String → Message
  message slug to variables lang = record {
    slug = slug;
    to = to;
    variables = variables;
    lang = lang;
  }

  unfoldable pub message_of : EmailEvent → Message
  message_of (user_registered email name token lang) =
      message "welcome" email
        (user_name name (("verificationLink", link "/verify?token=" token) ∷ [])) lang
  message_of (forgot_password email name token lang) =
      message "password-reset" email
        (user_name name (("resetLink", link "/reset-password?token=" token) ∷ [])) lang
  message_of (password_changed email name lang) =
      message "password-changed" email (user_name name []) lang
  message_of (email_change_requested new_email name token lang) =
      message "email-change" new_email
        (user_name name (("confirmationLink", link "/confirm-email?token=" token) ∷ [])) lang
  message_of (email_change_confirmed email name lang) =
      message "password-changed" email (user_name name []) lang
  message_of (email_change_code_requested email name code lang) =
      message "email-change-code" email (user_name name (("code", codes code) ∷ [])) lang
  message_of (email_change_requested_old previous_email new_email name token lang) =
      message "email-change-old-notice" previous_email
        (user_name name (
          ("newEmail", codes new_email)
          ∷ ("revertLink", link "/revert-email-change?token=" token)
          ∷ []))
        lang
  message_of (email_change_reverted email name lang) =
      message "email-change-reverted" email (user_name name []) lang
  message_of (resend_verification email name token lang) =
      message "welcome" email
        (user_name name (("verificationLink", link "/verify?token=" token) ∷ [])) lang

  -- A handler sends its message; a failure is logged.
  unfoldable pub handle : EmailEvent → MailState o → MailState o
  unfolding message_of
  handle e w = let m = message_of e in (send_by_slug o m.slug m.to m.variables m.lang w).1
