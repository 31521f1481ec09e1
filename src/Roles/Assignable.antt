-- ===== src/Roles/Assignable.antt =====
-- The check of the permissions that an administrator assigns, of user/service/user.service.ts.
use api_user.Prelude.{
  String, ◌≡◌, ◌↔◌, refl, ◌∙◌, sym, Bool, true, not, ◌&&◌, ◌||◌, List, [], ◌∷◌, map, keep, every,
  includes, every-includes, includes-every, ◌==◌, arith, Bool-cases, inl, inr,
}
use api_user.Errors.{validation_error}
use api_user.Exec.{ok, pure, throw_if, ◌>>◌}
use api_user.Roles.{Permission, unique}
use api_user.Roles.Service.{is_empty}
use api_user.Roles.Merge.{includes-unique}
use api_user.Env.{Env}
use api_user.World.{World, M}

-- `deduplicated.filter((name) => name === '*' || !known.has(name))`
abbrev pub is_rejected : List String → String → Bool
is_rejected known name = name == "*" || not (includes known name)

is_empty-keep :
    (f : String → Bool) (xs : List String) → is_empty (keep f xs) ≡ every (λ x. not (f x)) xs
is_empty-keep f [] = refl
is_empty-keep f (x ∷ xs) = elim (Bool-cases (f x)) [
  | inl out ↦ rw out refl
  | inr fine ↦ rw fine (is_empty-keep f xs)
]

module _ (env : Env) where
  -- The names of the catalog among some names.
  abbrev pub known_names : List String → List String
  known_names ns = map (λ p. Permission.name p) (env.find_permissions ns)

  unfoldable pub assert_permissions_assignable : List String → M env (List String)
  assert_permissions_assignable ids = do
    let deduplicated = unique ids
    throw_if (not (is_empty (keep (is_rejected (known_names deduplicated)) deduplicated)))
        validation_error
    pure deduplicated

  -- The check passes exactly when no given permission is the wildcard and each one is in the
  -- catalog; it then answers with the given permissions, each once.
  pub assert_permissions_assignable_iff :
      (ids : List String) (w : World env)
      → ((assert_permissions_assignable ids w).0 ≡ ok (unique ids)) ↔ (
          (p : String)
          → includes ids p ≡ true
          → (not (p == "*") && includes (known_names (unique ids)) p) ≡ true)
  unfolding assert_permissions_assignable
  assert_permissions_assignable_iff ids w =
      let known = known_names (unique ids) in
      let kept = is_empty-keep (is_rejected known) (unique ids) in
      (
        λ h p here.
            let all : every (λ x. not (is_rejected known x)) (unique ids) ≡ true =
              sym kept ∙ ground (arith, h) in
            let fine =
              every-includes (λ x. not (is_rejected known x)) (unique ids) all p
                (includes-unique ids p ∙ here) in
            ground (arith, fine),
        λ h.
            let all =
              includes-every (λ x. not (is_rejected known x)) (unique ids)
                (λ p here. ground (arith, h p (sym (includes-unique ids p) ∙ here))) in
            ground (arith, kept ∙ all),
      )
