-- ===== src/Email/Templates.antt =====
-- email/service/email-template.service.ts and email/repository/email-template.repository.ts.
use Prim.Native.Char.{code}
use Prim.Native.String
use api_user.Prelude.{
  ℕ, zero, suc, ◌+◌, String, Bool, true, false, ◌&&◌, Option, none, some, is_some, List, [], ◌∷◌,
  ◌++◌, get_or, nat_eq, ◌==◌, if◌then◌else◌,
}
use api_user.Errors.{template_slug_already_exists, template_not_found, template_file_not_found}
use api_user.Exec.{ok, err, driver, ◌>>=◌, ◌>>◌, pure, gets, throw_if, or_throw}
use api_user.Csv.{Text}
use api_user.Redis.{codes}
use api_user.Email.{EmailTemplate, Outside, M}
use api_user.Email.Catalog.{DefaultTemplate, default_templates, find_default}
use api_user.Email.Substitution.{substitute_variables}

-- `slug.replace(/-/g, '_')`
abbrev pub underscored : String → String
underscored String.[] = ""
underscored (String.◌∷◌ c s) = String.◌∷◌ (if nat_eq (code c) b'-' then "_" else c) (underscored s)

-- The fields of `CreateTemplateDto` and of `UpdateTemplateDto`, which let slugs in lower case in.
pub record CreateTemplate : Type 0 where
  pub name : String
  pub slug : String
  pub subject : Text
  pub content : Text
  pub variables : Option (List String)
  pub image_url : Option String

pub record UpdateTemplate : Type 0 where
  pub name : Option String
  pub slug : Option String
  pub subject : Option Text
  pub content : Option Text
  pub variables : Option (List String)
  pub image_url : Option String
  pub is_active : Option Bool

abbrev pub default_language : String
default_language = "es"

-- A translation that is empty is no translation.
abbrev pub text_or : Text → Text → Text
text_or [] t = t
text_or (c ∷ s) t = c ∷ s

abbrev pub has_slug : String → EmailTemplate → Bool
has_slug slug t = t.slug == slug

abbrev pub put_image : Option String → Option String → Option String
put_image none old = old
put_image (some url) old = some url

-- `lang || getLanguage()`
abbrev pub language_of : Option String → String → String
language_of none language = language
language_of (some lang) language = if lang == "" then language else lang

module _ (o : Outside) where
  abbrev pub find_active : String → M o (Option EmailTemplate)
  find_active slug = gets (λ w. o.find_one w.templates (λ t. has_slug slug t && t.is_active))

  abbrev pub exists_by_slug : String → M o Bool
  exists_by_slug slug = gets (λ w. is_some (o.find_one w.templates (has_slug slug)))

  abbrev pub inserted : EmailTemplate → Option o.Templates → M o EmailTemplate
  inserted t none w = (err driver, w)
  inserted t (some s) w = (ok t, record w { templates = s; drawn = w.drawn + 1 })

  -- `create` of the repository: a new document, always with version 1.
  unfoldable pub repository_create : (String → EmailTemplate) → M o EmailTemplate
  repository_create document w =
      let t = record (document (o.object_id w.drawn)) { version = 1 } in
      inserted t (o.insert_one w.templates t) w

  abbrev pub updated_template : UpdateTemplate → ℕ → EmailTemplate → EmailTemplate
  updated_template data_in version t = record t {
    name = get_or data_in.name t.name;
    slug = get_or data_in.slug t.slug;
    subject = get_or data_in.subject t.subject;
    content = get_or data_in.content t.content;
    variables = get_or data_in.variables t.variables;
    image_url = put_image data_in.image_url t.image_url;
    is_active = get_or data_in.is_active t.is_active;
    version = version;
  }

  -- `(current.version || 1) + 1`
  abbrev pub next_version : ℕ → ℕ
  next_version zero = 2
  next_version (suc v) = suc v + 1

  abbrev pub stored_update : EmailTemplate → Option o.Templates → M o (Option EmailTemplate)
  stored_update t none w = (err driver, w)
  stored_update t (some s) w = (ok (some t), record w { templates = s })

  abbrev pub update_current : UpdateTemplate → Option EmailTemplate → M o (Option EmailTemplate)
  update_current data_in none w = (ok none, w)
  update_current data_in (some current) w =
      let change = updated_template data_in (next_version current.version) in
      stored_update (change current) (o.update_one w.templates current.slug change) w

  unfoldable pub update_by_slug : String → UpdateTemplate → M o (Option EmailTemplate)
  update_by_slug slug data_in w = update_current data_in (o.find_one w.templates (has_slug slug)) w

  abbrev pub deleted : Option (Bool × o.Templates) → M o Bool
  deleted none w = (err driver, w)
  deleted (some (b, s)) w = (ok b, record w { templates = s })

  unfoldable pub delete_by_slug : String → M o Bool
  delete_by_slug slug w = deleted (o.delete_one w.templates slug) w

  abbrev pub invalidate_template_caches : M o (Unit {0})
  invalidate_template_caches w = (ok tt, record w { invalidations = w.invalidations + 1 })

  abbrev pub new_template : CreateTemplate → String → EmailTemplate
  new_template dto id = record {
    id = id;
    name = dto.name;
    slug = dto.slug;
    subject = dto.subject;
    content = dto.content;
    variables = get_or dto.variables [];
    image_url = dto.image_url;
    is_active = true;
    version = 1;
  }

  unfoldable pub create : CreateTemplate → M o EmailTemplate
  unfolding repository_create
  create dto = do
    exists ← exists_by_slug dto.slug
    throw_if exists template_slug_already_exists
    created ← repository_create (new_template dto)
    invalidate_template_caches
    pure created

  unfoldable pub find_by_slug : String → M o EmailTemplate
  find_by_slug slug = do template ← find_active slug; or_throw template_not_found template

  unfoldable pub update : String → UpdateTemplate → M o EmailTemplate
  unfolding update_by_slug
  update slug dto = do
    found ← update_by_slug slug dto
    updated ← or_throw template_not_found found
    invalidate_template_caches
    pure updated

  unfoldable pub delete : String → M o (Unit {0})
  unfolding delete_by_slug
  delete slug = do
    gone ← delete_by_slug slug
    throw_if (if gone then false else true) template_not_found
    invalidate_template_caches

  -- The first of some files that is there.
  abbrev pub first_file : List (List String) → Option Text
  first_file [] = none
  first_file (p ∷ ps) = elim (o.read_file p) [ some content ↦ some content | none ↦ first_file ps ]

  abbrev pub language_files : Option String → String → List (List String)
  language_files none filename = []
  language_files (some lang) filename =
      ("dist" ∷ "email" ∷ "templates" ∷ lang ∷ filename ∷ [])
      ∷ ("src" ∷ "email" ∷ "templates" ∷ lang ∷ filename ∷ [])
      ∷ []

  abbrev pub default_files : String → List (List String)
  default_files filename =
      ("dist" ∷ "email" ∷ "templates" ∷ "defaults" ∷ filename ∷ [])
      ∷ ("src" ∷ "email" ∷ "templates" ∷ "defaults" ∷ filename ∷ [])
      ∷ []

  unfoldable pub load_default_html : String → Option String → M o Text
  load_default_html filename lang =
      or_throw template_file_not_found
        (first_file (language_files lang filename ++ default_files filename))

  abbrev pub subject_key : String → String
  subject_key slug = String.◌++◌ "email." (String.◌++◌ (underscored slug) "_subject")

  -- The template of a language: the stored one with the content and the subject of the language, or
  -- the default.
  abbrev pub localized : Option EmailTemplate → DefaultTemplate → Text → Text → EmailTemplate
  localized (some t) d subject content = record t { subject = subject; content = content }
  localized none d subject content = record {
    id = String.◌++◌ "default-" d.slug;
    name = d.name;
    slug = d.slug;
    subject = subject;
    content = content;
    variables = d.variables;
    image_url = none;
    is_active = true;
    version = 0;
  }

  unfoldable pub with_default :
      String → String → Option EmailTemplate → DefaultTemplate → M o EmailTemplate
  unfolding load_default_html
  with_default slug language stored d = do
    content ← load_default_html d.content_file (some language)
    pure (
        localized stored d (text_or (o.translate (subject_key slug) language) (codes d.subject))
          content)

  unfoldable pub resolve_default : String → String → Option EmailTemplate → M o EmailTemplate
  unfolding with_default
  resolve_default slug language stored =
      or_throw template_not_found (find_default slug default_templates)
      >>= with_default slug language stored

  abbrev pub resolve_stored : String → String → Option EmailTemplate → M o EmailTemplate
  resolve_stored slug language none = resolve_default slug language none
  resolve_stored slug language (some t) =
      if language == default_language then pure t else resolve_default slug language (some t)

  unfoldable pub resolve : String → Option String → M o EmailTemplate
  unfolding resolve_default
  resolve slug lang = do
    stored ← find_active slug
    resolve_stored slug (language_of lang o.language) stored

  abbrev pub render : EmailTemplate → List (String × Text) → Text × Text
  render t variables = (
    substitute_variables o.inherited variables t.subject,
    substitute_variables o.inherited variables t.content,
  )
