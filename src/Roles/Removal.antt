-- ===== src/Roles/Removal.antt =====
-- The removal of a role in rbac/services/role.service.ts.
use api_user.Prelude.{
  String, ◌≡◌, refl, ◌∙◌, sym, ap, true, false, none, some, List, [], ◌∷◌, map, ◌==◌, eq_refl,
  arith, Option-cases, inl, inr,
}
use mathlib.Core.Path.{subst}
use api_user.Exec.{ok}
use api_user.Users.{User, role_name}
use api_user.Roles.{Role}
use api_user.Roles.Service
use api_user.Roles.Service.{
  CreateRole, UpdateRole, is_rename, put_name, changed, with_permissions, is_empty,
}
use api_user.Env.{Env}
use api_user.World.{World}

module _ (env : Env) where
  -- What a removal that returned found and did.
  pub record Removed (id : String) (w w' : World env) (r : Role) : Type 0 where
    pub stored : env.roles.doc w.roles id ≡ some r
    pub not_system : r.is_system ≡ false
    pub unused : env.users.find w.users (λ u. role_name u.role == r.name) ≡ []
    pub gone : env.roles.doc w'.roles id ≡ none
    pub others :
        (j : String) → (id == j) ≡ false → env.roles.doc w'.roles j ≡ env.roles.doc w.roles j
    pub users_kept : w'.users ≡ w.users

  is_empty-map : (us : List User) → is_empty (map (λ u. User.id u) us) ≡ true → us ≡ []
  is_empty-map [] h = refl
  is_empty-map (u ∷ us) h = cc

  -- A removal that succeeds was of a role that is not a system role and that no user has. It
  -- answers with that role, has removed it alone, and has left the users as they were.
  pub remove-Removed :
      (id : String) (w : World env) (r : Role)
      → (Service.remove env id w).0 ≡ ok r
      → Removed id w (Service.remove env id w).1 r
  remove-Removed id w r h = elim (Option-cases (env.roles.doc w.roles id)) [
    | inl missing ↦ absurd (unfold Service.remove in ground arith)
    | inr (v, found) ↦ elim (Option-cases (env.roles.delete_one w.roles id)) [
      | inl down ↦ absurd (unfold Service.remove in ground arith)
      | inr (t, up) ↦
          let same : v ≡ r = unfold Service.remove in ground arith in
          let written : (Service.remove env id w).1.roles ≡ t =
            unfold Service.remove in ground arith in
          let after = env.roles.doc-delete_one w.roles t id up in
          record {
            stored = found ∙ ap some same;
            not_system = ap Role.is_system (sym same) ∙ unfold Service.remove in ground arith;
            unused = is_empty-map _ (
                subst
                  (λ x.
                    is_empty (
                      map (λ u. User.id u)
                        (env.users.find w.users (λ u. role_name u.role == x.name)))
                    ≡ true)
                  same (unfold Service.remove in ground arith));
            gone = ap (λ s. env.roles.doc s id) written ∙ ground (arith, after id, eq_refl id);
            others = λ j other. ap (λ s. env.roles.doc s j) written ∙ ground (arith, after j);
            users_kept = unfold Service.remove in ground arith;
          }
    ]
  ]
