-- ===== src/Email/Seeding.antt =====
-- The seeding of templates and the pages of the stored ones, from
-- email/service/email-template.service.ts.
use api_user.Prelude.{
  ℕ, ◌-◌, ◌*◌, String, Bool, true, Option, none, List, [], ◌∷◌, take, drop, length, get_or,
  if◌then◌else◌,
}
use api_user.Exec.{ok, ◌>>=◌, ◌>>◌, pure, gets}
use api_user.Csv.{Text}
use api_user.Redis.{codes}
use api_user.Pages.{Paginated, of}
use api_user.Email.{EmailTemplate, Outside, M}
use api_user.Email.Catalog.{DefaultTemplate, default_templates}
use api_user.Email.Templates.{exists_by_slug, repository_create, load_default_html}

module _ (o : Outside) where
  abbrev pub default_document : DefaultTemplate → Text → String → EmailTemplate
  default_document d content id = record {
    id = id;
    name = d.name;
    slug = d.slug;
    subject = codes d.subject;
    content = content;
    variables = d.variables;
    image_url = none;
    is_active = true;
    version = 1;
  }

  -- The seeding of one template that is not there yet, once its file is read.
  abbrev pub store_default : DefaultTemplate → Text → M o (Unit {0})
  store_default d content = do created ← repository_create o (default_document d content); pure tt

  abbrev pub seed_missing : DefaultTemplate → M o (Unit {0})
  seed_missing d = load_default_html o d.content_file none >>= store_default d

  abbrev pub seed_one : DefaultTemplate → M o (Unit {0})
  seed_one d = do exists ← exists_by_slug o d.slug; if exists then pure tt else seed_missing d

  unfoldable pub seed_each : List DefaultTemplate → M o (Unit {0})
  unfolding load_default_html repository_create
  seed_each [] w = (ok tt, w)
  seed_each (d ∷ ds) w = let rest = seed_each ds in (seed_one d >> rest) w

  unfoldable pub seed_defaults : M o (Unit {0})
  unfolding seed_each
  seed_defaults = seed_each default_templates

  -- `findPaginated` of the service with `findPage` of the repository; `page` is at least 1.
  unfoldable pub find_paginated : Option Bool → Option ℕ → Option ℕ → M o (Paginated EmailTemplate)
  find_paginated active page limit = do
    let p = get_or page 1
    let n = get_or limit 20
    templates ← gets (λ w. o.find_newest w.templates active)
    pure (of (take n (drop ((p - 1) * n) templates)) (length templates) p n)
