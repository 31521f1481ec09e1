-- ===== src/Email/Catalog.antt =====
-- The default templates of email/service/email-template.service.ts.
use api_user.Prelude.{String, Option, none, some, List, [], ◌∷◌, ◌==◌, if◌then◌else◌}

pub record DefaultTemplate : Type 0 where
  pub slug : String
  pub name : String
  pub subject : String
  pub content_file : String
  pub variables : List String

abbrev default_template : String → String → String → String → List String → DefaultTemplate
default_template slug name subject content_file variables = record {
  slug = slug;
  name = name;
  subject = subject;
  content_file = content_file;
  variables = variables;
}

abbrev pub default_templates : List DefaultTemplate
default_templates =
    default_template "welcome" "Welcome / Email Verification"
      "Bienvenido {{userName}} — Verifica tu cuenta" "welcome.html"
      ("userName" ∷ "verificationLink" ∷ [])
    ∷ default_template "password-reset" "Password Reset" "Recuperación de contraseña"
        "password-reset.html" ("userName" ∷ "resetLink" ∷ [])
    ∷ default_template "email-change" "Email Change Confirmation" "Confirmación de cambio de email"
        "email-change.html" ("userName" ∷ "confirmationLink" ∷ [])
    ∷ default_template "password-changed" "Password Changed Notification"
        "Tu contraseña fue cambiada" "password-changed.html" ("userName" ∷ [])
    ∷ default_template "email-change-code" "Email Change Verification Code"
        "Tu código de verificación para cambiar el email" "email-change-code.html"
        ("userName" ∷ "code" ∷ [])
    ∷ default_template "email-change-old-notice" "Email Change Notice (previous address)"
        "El email de tu cuenta fue cambiado" "email-change-old-notice.html"
        ("userName" ∷ "newEmail" ∷ "revertLink" ∷ [])
    ∷ default_template "email-change-reverted" "Email Change Reverted Notification"
        "El cambio de email fue revertido" "email-change-reverted.html" ("userName" ∷ [])
    ∷ []

abbrev pub find_default : String → List DefaultTemplate → Option DefaultTemplate
find_default slug [] = none
find_default slug (d ∷ ds) = if d.slug == slug then some d else find_default slug ds
