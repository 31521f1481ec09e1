-- ===== src/Roles/System.antt =====
-- The roles of the system, under the requests of rbac/services/role.service.ts.
use api_user.Prelude.{
  String, ◌≡◌, refl, ◌∙◌, sym, ap, true, false, ◌&&◌, Option, none, some, List, [], ◌∷◌, ◌==◌,
  eq_iff, eq_refl, arith, Bool-cases, Option-cases, inl, inr,
}
use mathlib.Core.Path.{subst}
use api_user.Exec.Inversion.{Result-cases}
use api_user.Roles.{Role, unique}
use api_user.Roles.Service
use api_user.Roles.Service.{
  CreateRole, UpdateRole, is_rename, put_name, changed, with_permissions, is_empty,
}
use api_user.Env.{Env}
use api_user.World.{World}

-- `isSystem` and the name of a role.
abbrev pub SameIdentity : Role → Role → Type 0
SameIdentity r v = (v.name ≡ r.name) × (v.is_system ≡ true)

-- A request to the roles.
pub data RoleRequest : Type 0 where
  create : CreateRole → RoleRequest
  update : String → UpdateRole → RoleRequest
  update_permissions : String → List String → RoleRequest
  remove : String → RoleRequest

module _ (env : Env) where
  -- The world after a request, whether it returned or threw.
  abbrev handle_role : RoleRequest → World env → World env
  handle_role (create d) w = (Service.create env d w).1
  handle_role (update id dto) w = (Service.update env id dto w).1
  handle_role (update_permissions id ids) w = (Service.update_permissions env id ids w).1
  handle_role (remove id) w = (Service.remove env id w).1

  unfoldable pub serve_roles : List RoleRequest → World env → World env
  serve_roles [] w = w
  serve_roles (r ∷ rs) w = serve_roles rs (handle_role r w)

  -- Every system role of `s` is in `t`, under the same id, with its name, as a system role.
  pub record Kept (s t : env.roles.State) : Type 0 where
    pub at :
        (k : String) (r : Role)
        → env.roles.doc s k ≡ some r
        → r.is_system ≡ true
        → (v : Role) × (env.roles.doc t k ≡ some v) × SameIdentity r v

  Kept-refl : (s : env.roles.State) → Kept s s
  Kept-refl s = record { at = λ k r e sys. (r, e, (refl, sys)) }

  Kept-trans : {s t t' : env.roles.State} → Kept s t → Kept t t' → Kept s t'
  Kept-trans a b = record {
    at = λ k r e sys.
        let (v, ev, (name, sys')) = a.at k r e sys in
        let (v', ev', (name', sys'')) = b.at k v ev sys' in (v', ev', (name' ∙ name, sys''));
  }

  Kept-same : {s t : env.roles.State} → t ≡ s → Kept s t
  Kept-same {s} {t} h = subst (Kept s) (sym h) (Kept-refl s)

  Kept-insert : (s t : env.roles.State) (r : Role) → env.roles.insert_one s r ≡ some t → Kept s t
  Kept-insert s t r h = record {
    at = λ k v e sys. elim (Bool-cases (r.id == k)) [
      | inl here ↦ absurd (cc (e, env.roles.insert_one-fresh s t r h, (eq_iff r.id k).0 here))
      | inr there ↦ (v, ground (arith, env.roles.doc-insert_one s t r h k), (refl, sys))
    ];
  }

  Kept-update :
      (s t : env.roles.State) (id : String) (f : Role → Role)
      → ((r : Role) → env.roles.doc s id ≡ some r → r.is_system ≡ true → SameIdentity r (f r))
      → env.roles.update_one s id f ≡ some t
      → Kept s t
  Kept-update s t id f keeps h = record {
    at = λ k v e sys. elim (Bool-cases (id == k)) [
      | inl here ↦
          let e' : env.roles.doc s id ≡ some v = ap (env.roles.doc s) ((eq_iff id k).0 here) ∙ e in
          (f v, ground (arith, env.roles.doc-update_one s t id f h k), keeps v e' sys)
      | inr there ↦ (v, ground (arith, env.roles.doc-update_one s t id f h k), (refl, sys))
    ];
  }

  Kept-delete :
      (s t : env.roles.State) (id : String) (r : Role)
      → env.roles.doc s id ≡ some r
      → r.is_system ≡ false
      → env.roles.delete_one s id ≡ some t
      → Kept s t
  Kept-delete s t id r found plain h = record {
    at = λ k v e sys. elim (Bool-cases (id == k)) [
      | inl here ↦ absurd (cc (e, found, (eq_iff id k).0 here, sys, plain))
      | inr there ↦ (v, ground (arith, env.roles.doc-delete_one s t id h k), (refl, sys))
    ];
  }

  put_name-system :
      (o : Option String) (r : Role)
      → (r.is_system && is_rename o r.name) ≡ false
      → r.is_system ≡ true
      → put_name o r.name ≡ r.name
  put_name-system none r allowed sys = refl
  put_name-system (some n) r allowed sys = (eq_iff n r.name).0 (ground (arith, allowed, sys))

  -- The role that `create` stores.
  abbrev created : CreateRole → World env → Role
  created d w = record {
    id = env.crypto.object_id w.drawn;
    name = d.name;
    description = d.description;
    permission_ids = unique d.permission_ids;
    is_system = d.is_system;
    is_default = d.is_default;
  }

  create-Kept : (d : CreateRole) (w : World env) → Kept w.roles (Service.create env d w).1.roles
  create-Kept d w = elim (Option-cases (env.roles.insert_one w.roles (created d w))) [
    | inl down ↦ Kept-same (unfold Service.create in ground arith)
    | inr (t, up) ↦ elim (Result-cases (Service.create env d w).0) [
      | inl (v, returned) ↦
          let written : (Service.create env d w).1.roles ≡ t =
            unfold Service.create in ground arith in
          subst (Kept w.roles) (sym written) (Kept-insert w.roles t (created d w) up)
      | inr (e, failed) ↦ Kept-same (unfold Service.create in ground arith)
    ]
  ]

  update_permissions-Kept :
      (id : String) (ids : List String) (w : World env)
      → Kept w.roles (Service.update_permissions env id ids w).1.roles
  update_permissions-Kept id ids w =
      let f = with_permissions (unique ids) in
      elim (Option-cases (env.roles.update_one w.roles id f)) [
        | inl down ↦ Kept-same (unfold Service.update_permissions in ground arith)
        | inr (t, up) ↦ elim (Result-cases (Service.update_permissions env id ids w).0) [
          | inl (v, returned) ↦
              let written : (Service.update_permissions env id ids w).1.roles ≡ t =
                unfold Service.update_permissions in ground arith in
              subst (Kept w.roles) (sym written)
                (Kept-update w.roles t id f (λ x e sys. (refl, sys)) up)
          | inr (e, failed) ↦ Kept-same (unfold Service.update_permissions in ground arith)
        ]
      ]

  update-Kept :
      (id : String) (dto : UpdateRole) (w : World env)
      → Kept w.roles (Service.update env id dto w).1.roles
  update-Kept id dto w = elim (Option-cases (env.roles.doc w.roles id)) [
    | inl missing ↦ Kept-same (unfold Service.update in ground arith)
    | inr (r, found) ↦ elim (Bool-cases (r.is_system && is_rename dto.name r.name)) [
      | inl forbidden ↦ Kept-same (unfold Service.update in ground arith)
      | inr allowed ↦ elim (Option-cases (env.roles.update_one w.roles id (changed dto))) [
        | inl down ↦ Kept-same (unfold Service.update in ground arith)
        | inr (t, up) ↦ elim (Result-cases (Service.update env id dto w).0) [
          | inl (v, returned) ↦
              let written : (Service.update env id dto w).1.roles ≡ t =
                unfold Service.update in ground arith in
              subst (Kept w.roles) (sym written) (
                Kept-update w.roles t id (changed dto)
                  (λ x e sys.
                    let same : r ≡ x = cc (found, e) in
                    subst (λ y. y.is_system ≡ true → SameIdentity y (changed dto y)) same
                      (λ sys. (put_name-system dto.name r allowed sys, sys)) sys)
                  up)
          | inr (e, failed) ↦ Kept-same (
              unfold Service.update in
              ground (arith, env.roles.doc-update_one w.roles t id (changed dto) up id, eq_refl id))
        ]
      ]
    ]
  ]

  remove-Kept : (id : String) (w : World env) → Kept w.roles (Service.remove env id w).1.roles
  remove-Kept id w = elim (Option-cases (env.roles.doc w.roles id)) [
    | inl missing ↦ Kept-same (unfold Service.remove in ground arith)
    | inr (r, found) ↦ elim (Bool-cases r.is_system) [
      | inl system ↦ Kept-same (unfold Service.remove in ground arith)
      | inr plain ↦ elim (Option-cases (env.roles.delete_one w.roles id)) [
        | inl down ↦ Kept-same (unfold Service.remove in ground arith)
        | inr (t, up) ↦ elim (Result-cases (Service.remove env id w).0) [
          | inl (v, returned) ↦
              let written : (Service.remove env id w).1.roles ≡ t =
                unfold Service.remove in ground arith in
              subst (Kept w.roles) (sym written) (Kept-delete w.roles t id r found plain up)
          | inr (e, failed) ↦ Kept-same (unfold Service.remove in ground arith)
        ]
      ]
    ]
  ]

  handle_role-Kept : (r : RoleRequest) (w : World env) → Kept w.roles (handle_role r w).roles
  handle_role-Kept (create d) w = create-Kept d w
  handle_role-Kept (update id dto) w = update-Kept id dto w
  handle_role-Kept (update_permissions id ids) w = update_permissions-Kept id ids w
  handle_role-Kept (remove id) w = remove-Kept id w

  -- Whatever requests to create, change and remove roles are served, one after the other and
  -- returning or throwing, every system role stays, with its name and as a system role.
  pub serve_roles-Kept :
      (rs : List RoleRequest) (w : World env) → Kept w.roles (serve_roles rs w).roles
  unfolding serve_roles
  serve_roles-Kept [] w = Kept-refl w.roles
  serve_roles-Kept (r ∷ rs) w =
      Kept-trans (handle_role-Kept r w) (serve_roles-Kept rs (handle_role r w))
