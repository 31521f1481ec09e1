-- ===== src/Email/Seeded.antt =====
-- What `seedDefaults` of email/service/email-template.service.ts leaves behind.
use api_user.Prelude.{
  String, ◌≡◌, refl, ap, sym, ◌∙◌, Bool, true, ◌||◌, Option, none, some, is_some, List, [], ◌∷◌,
  eq_refl, arith, Bool-cases, inl, inr,
}
use mathlib.Core.Path.{subst}
use api_user.Exec.{Result, ok, err, continue, ◌>>=◌, pure}
use api_user.Exec.Inversion.{or_throw-bind-ok}
use api_user.Email.{EmailTemplate, Outside, MailState}
use api_user.Email.Catalog.{DefaultTemplate, default_templates}
use api_user.Email.Templates.{has_slug, inserted, repository_create, load_default_html}
use api_user.Email.Seeding.{
  default_document, store_default, seed_missing, seed_one, seed_each, seed_defaults,
}

module _ (o : Outside) where
  -- A template with the slug is stored.
  abbrev pub Stored : String → MailState o → Type 0
  Stored slug w = is_some (o.find_one w.templates (has_slug slug)) ≡ true

  abbrev pub AllStored : List DefaultTemplate → MailState o → Type 0
  AllStored [] w = Unit
  AllStored (d ∷ ds) w = Stored d.slug w × AllStored ds w

  -- No slug is lost.
  abbrev pub Grown : MailState o → MailState o → Type 0
  Grown w w' = (slug : String) → Stored slug w → Stored slug w'

  -- What is found in the collection after an insertion: the new document, or what was found before.
  abbrev pub Inserts : Type 0
  Inserts =
      (s s' : o.Templates) (t : EmailTemplate)
      → o.insert_one s t ≡ some s'
      → (p : EmailTemplate → Bool) → is_some (o.find_one s' p) ≡ (p t || is_some (o.find_one s p))

  seed_each-Stored :
      (ds : List DefaultTemplate) (w : MailState o) → AllStored ds w → seed_each o ds w ≡ (ok tt, w)
  unfolding seed_each
  seed_each-Stored [] w h = refl
  seed_each-Stored (d ∷ ds) w (here, rest) = rw here (seed_each-Stored ds w rest)

  AllStored-Grown :
      (ds : List DefaultTemplate) (w w' : MailState o)
      → Grown w w'
      → AllStored ds w
      → AllStored ds w'
  AllStored-Grown [] w w' g h = tt
  AllStored-Grown (d ∷ ds) w w' g (here, rest) = (g d.slug here, AllStored-Grown ds w w' g rest)

  -- A step that returned, and the rest after it.
  step-ok :
      (p : Result (Unit {0}) × MailState o) (f : MailState o → Result (Unit {0}) × MailState o)
      (r : MailState o)
      → continue p.0 (λ x. f) p.1 ≡ (ok tt, r)
      → (w : MailState o) × (p ≡ (ok tt, w)) × (f w ≡ (ok tt, r))
  step-ok (ok tt, w) f r h = (w, refl, h)
  step-ok (err e, w) f r h = cc h

  module _ (inserts : Inserts) where
    abbrev Added : String → MailState o → MailState o → Type 0
    Added slug w w' = Stored slug w' × Grown w w'

    inserted-Added :
        (t : EmailTemplate) (w : MailState o) (s : Option o.Templates)
        → o.insert_one w.templates t ≡ s
        → (r : MailState o) → (inserted o t s >>= λ _. pure tt) w ≡ (ok tt, r)
        → Added t.slug w r
    inserted-Added t w none e r h = cc h
    inserted-Added t w (some s) e r h =
        let new : s ≡ r.templates = ap (λ x. x.1.templates) h in
        let law = inserts w.templates r.templates t (e ∙ ap some new) in
        (
          law (has_slug t.slug) ∙ ground (arith, eq_refl t.slug),
          λ slug there. law (has_slug slug) ∙ ground (arith, there),
        )

    missing-Added :
        (d : DefaultTemplate) (w r : MailState o)
        → seed_missing o d w ≡ (ok tt, r)
        → Added d.slug w r
    unfolding load_default_html repository_create
    missing-Added d w r h =
        let (content, file, stored, done) =
          or_throw-bind-ok _ _ (store_default o d) w (ap (λ x. x.0) h) in
        let t : EmailTemplate = default_document o d content (o.object_id w.drawn) in
        inserted-Added t w (o.insert_one w.templates t) refl r (sym stored ∙ h)

    seed_one-Added :
        (d : DefaultTemplate) (w r : MailState o) → seed_one o d w ≡ (ok tt, r) → Added d.slug w r
    seed_one-Added d w r h =
        elim (Bool-cases (is_some (o.find_one w.templates (has_slug d.slug)))) [
          | inl here ↦
              let same : w ≡ r = ap (λ x. x.1) (rw here at h) in
              subst (λ x. Added d.slug w x) same (here, λ slug s. s)
          | inr missing ↦ missing-Added d w r (ground (arith, h, missing))
        ]

    seed_each-Added :
        (ds : List DefaultTemplate) (w r : MailState o)
        → seed_each o ds w ≡ (ok tt, r)
        → AllStored ds r × Grown w r
    unfolding seed_each
    seed_each-Added [] w r h = (tt, subst (λ x. Grown w x) (ap (λ x. x.1) h) (λ slug s. s))
    seed_each-Added (d ∷ ds) w r h =
        let (v, one, rest) = step-ok (seed_one o d w) (seed_each o ds) r h in
        let (here, grown) = seed_one-Added d w v one in
        let (there, more) = seed_each-Added ds v r rest in
        ((more d.slug here, there), λ slug s. more slug (grown slug s))

    -- A collection finds what was inserted and keeps what it had. Then a seeding that returned has stored a template for each default slug and lost no slug, and
    -- another one right after it changes nothing.
    pub seed_defaults-Stored :
        (w r : MailState o)
        → seed_defaults o w ≡ (ok tt, r)
        → AllStored default_templates r × Grown w r × (seed_defaults o r ≡ (ok tt, r))
    unfolding seed_defaults
    seed_defaults-Stored w r h =
        let (stored, grown) = seed_each-Added default_templates w r h in
        (stored, grown, seed_each-Stored default_templates r stored)
