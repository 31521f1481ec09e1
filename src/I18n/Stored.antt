-- ===== src/I18n/Stored.antt =====
-- What `setNested` of common/i18n/i18n.service.ts stores.
use api_user.Prelude.{
  String, ◌≡◌, refl, ap, sym, ◌∙◌, Option, none, some, List, [], ◌∷◌, eq_refl, Option-cases, inl,
  inr,
}
use api_user.Csv.{Text}
use api_user.I18n.{Tree, text, object, get, put, resolve_parts, place, placed, set_parts}
use api_user.I18n.Merge.{then_value, step, resolve-put}

resolve-put_here :
    (k : String) (ks : List String) (t : Tree) (sub : Tree)
    → resolve_parts (k ∷ ks) (put k (object sub) t) ≡ step ks (object sub)
resolve-put_here k ks t sub =
    resolve-put k k ks (object sub) t tt
    ∙ ap (λ b. step ks (then_value b (object sub) (get t k))) (eq_refl k)

placed-some :
    (k : String) (t r : Tree) (o : Option Tree)
    → placed k t o ≡ some r
    → (sub : Tree) × (o ≡ some sub) × (put k (object sub) t ≡ r)
placed-some k t r none h = cc h
placed-some k t r (some sub) h = (sub, refl, cc h)

-- A text that was stored under some parts is what they resolve to.
pub resolve-set_parts :
    (k : String) (ks : List String) (v : Text) (t r : Tree)
    → set_parts (k ∷ ks) v t ≡ some r
    → resolve_parts (k ∷ ks) r ≡ some v
unfolding set_parts
resolve-set_parts k [] v t r h =
    let stored : put k (text v) t ≡ r = cc h in
    ap (resolve_parts (k ∷ [])) (sym stored)
    ∙ resolve-put k k [] (text v) t tt
    ∙ ap (λ b. step [] (then_value b (text v) (get t k))) (eq_refl k)
resolve-set_parts k (l ∷ ks) v t r h = elim (Option-cases (place (get t k))) [
  | inl nowhere ↦ absurd (cc (rw (nowhere, set_parts) at h))
  | inr (sub, at) ↦
      let (new, below, stored) =
        placed-some k t r (set_parts (l ∷ ks) v sub) (rw (at, set_parts) at h) in
      ap (resolve_parts (k ∷ l ∷ ks)) (sym stored)
      ∙ resolve-put_here k (l ∷ ks) t new
      ∙ resolve-set_parts l ks v sub new below
]
