-- ===== src/Tests/Mails.antt =====
-- The mails over a small collection of templates, with one file of the default templates.
use api_user.Prelude.{
  String, ◌≡◌, refl, Bool, true, false, Option, none, some, List, [], ◌∷◌, ◌==◌, if◌then◌else◌,
  ◌||◌, is_some, Bool-cases, inl, inr, length,
}
use mathlib.Core.Path.{subst}
use api_user.Errors.{template_not_found}
use api_user.Exec.{ok, err, domain}
use api_user.Csv.{Text}
use api_user.Redis.{codes}
use api_user.Email.{EmailTemplate, EmailLog, Outside, MailState, sent}
use api_user.Email.Substitution.{
  is_word, span_word, placeholder_at, variable, value_of, replaced, substitute_variables,
}
use api_user.Email.Rendering.{plain, name, substitute_variables-filled}
use api_user.Email.Templates.{
  load_default_html, with_default, resolve_default, resolve, repository_create, render,
}
use api_user.Email.Catalog.{default_templates}
use api_user.Email.Seeding.{seed_each, seed_defaults}
use api_user.Email.Seeded.{Inserts, AllStored, Grown, seed_defaults-Stored}
use api_user.Email.Sending.{new_log, create_log, send_by_slug, mail, process_send, handle_send}
use api_user.Email.Listener.{EmailEvent, user_registered, message_of, handle}
use api_user.Email.Delivery.{mail_of}

abbrev found : List EmailTemplate → (EmailTemplate → Bool) → Option EmailTemplate
found [] p = none
found (t ∷ ts) p = if p t then some t else found ts p

abbrev changed : List EmailTemplate → String → (EmailTemplate → EmailTemplate) → List EmailTemplate
changed [] slug f = []
changed (t ∷ ts) slug f = (if t.slug == slug then f t else t) ∷ changed ts slug f

abbrev without : List EmailTemplate → String → Bool × List EmailTemplate
without [] slug = (false, [])
without (t ∷ ts) slug =
    let rest = without ts slug in if t.slug == slug then (true, ts) else (rest.0, t ∷ rest.1)

abbrev noted : List EmailLog → String → (EmailLog → EmailLog) → List EmailLog
noted [] id f = []
noted (l ∷ ls) id f = (if l.id == id then f l else l) ∷ noted ls id f

abbrev file : List String → Option Text
file (root ∷ part ∷ folder ∷ lang ∷ filename ∷ []) =
    if root == "src"
    then (if lang == "es"
        then some (codes "Hola {{userName}}: {{verificationLink}} {{x}}")
        else none)
    else none
file path = none

abbrev outside : Outside
outside = record {
  Templates = List EmailTemplate;
  find_one = found;
  find_newest = λ ts active. ts;
  insert_one = λ ts t. some (t ∷ ts);
  update_one = λ ts slug f. some (changed ts slug f);
  delete_one = λ ts slug. some (without ts slug);
  Logs = List EmailLog;
  insert_log = λ ls l. some (l ∷ ls);
  update_log = λ ls id f. some (noted ls id f);
  object_id = λ n. "id";
  send = λ e. some (record { success = true; message_id = some "m1"; error = none });
  translate = λ key language. codes key;
  language = "es";
  inherited = λ word. none;
  read_file = file;
  email_provider = "smtp";
  frontend_url = "https://app";
}

abbrev started : MailState outside
started = record { templates = []; logs = []; queue = []; invalidations = 0; drawn = 0 }

abbrev registered : EmailEvent
registered = user_registered "a@x.com" "Ana" "t1" none

-- The default template in the language of the request, with the key as the missing translation.
abbrev welcome : EmailTemplate
welcome = record {
  id = "default-welcome";
  name = "Welcome / Email Verification";
  slug = "welcome";
  subject = codes "email.welcome_subject";
  content = codes "Hola {{userName}}: {{verificationLink}} {{x}}";
  variables = "userName" ∷ "verificationLink" ∷ [];
  image_url = none;
  is_active = true;
  version = 0;
}

resolved : resolve outside "welcome" none started ≡ (ok welcome, started)
unfolding resolve resolve_default with_default load_default_html
resolved = refl

unknown : (resolve outside "goodbye" none started).0 ≡ err (domain template_not_found)
unfolding resolve resolve_default
unknown = refl

rendered :
    (render outside welcome (message_of outside registered).variables).1
    ≡ codes "Hola Ana: https://app/verify?token=t1 {{x}}"
unfolding message_of substitute_variables replaced placeholder_at value_of variable span_word
    is_word
rendered = refl

substitute_variables-filled_example :
    substitute_variables
      (λ word. none)
      (("a", codes "{{b}}") ∷ ("b", codes "x") ∷ [])
      (codes "1{{a}}{{c}}}")
    ≡ codes "1{{b}}{{c}}}"
unfolding value_of variable is_word
substitute_variables-filled_example =
    substitute_variables-filled (λ word. none) (("a", codes "{{b}}") ∷ ("b", codes "x") ∷ [])
      (plain (codes "1") ∷ name (codes "a") ∷ name (codes "c") ∷ plain (codes "}") ∷ [])
      (refl, ((refl, refl), ((refl, refl), (refl, tt))))

-- The mail that it leaves.
queued : handle outside registered started ≡ record started {
  logs = new_log outside "a@x.com" (some "welcome") (codes "email.welcome_subject") none 0 ∷ [];
  queue = mail_of outside (message_of outside registered) welcome 0 ∷ [];
  drawn = 1;
}
unfolding handle send_by_slug create_log message_of resolve resolve_default with_default
    load_default_html substitute_variables replaced placeholder_at value_of variable span_word
    is_word
queued = refl

-- The log of a mail that the provider took.
delivered :
    (handle_send outside
      (mail outside "a@x.com" ([], []) "id")
      (record started { logs = new_log outside "a@x.com" none [] none 0 ∷ [] })).logs
    ≡ record (new_log outside "a@x.com" none [] none 0) { status = sent; message_id = some "m1" }
      ∷ []
unfolding handle_send process_send
delivered = refl

-- All files are there.
abbrev complete : Outside
complete = record outside { read_file = λ path. some (codes "<p>{{userName}}</p>") }

abbrev empty : MailState complete
empty = record { templates = []; logs = []; queue = []; invalidations = 0; drawn = 0 }

found-first :
    (t : EmailTemplate) (s : List EmailTemplate) (p : EmailTemplate → Bool)
    → is_some (found (t ∷ s) p) ≡ (p t || is_some (found s p))
found-first t s p = elim (Bool-cases (p t)) [ inl h ↦ rw h refl | inr h ↦ rw h refl ]

some-eq : (a b : List EmailTemplate) → some a ≡ some b → a ≡ b
some-eq a b h = cc h

inserts : Inserts complete
inserts s s' t e p =
    subst (λ x. is_some (found x p) ≡ (p t || is_some (found s p))) (some-eq _ _ e)
      (found-first t s p)

abbrev seeded : MailState complete
seeded = (seed_defaults complete empty).1

seven : length seeded.templates ≡ 7
unfolding seed_defaults seed_each load_default_html repository_create
seven = refl

seed_defaults-Stored_example :
    AllStored complete default_templates seeded
    × Grown complete empty seeded
    × (seed_defaults complete seeded ≡ (ok tt, seeded))
unfolding seed_defaults seed_each load_default_html repository_create
seed_defaults-Stored_example = seed_defaults-Stored complete inserts empty seeded refl
