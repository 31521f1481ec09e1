-- ===== src/Tests/RoleStore.antt =====
-- A roles collection with the behaviour asked of the database: a function of the id.
use api_user.Prelude.{
  String, ◌≡◌, refl, Bool, Option, none, some, List, [], ◌∷◌, ◌==◌, if◌then◌else◌, ap, sym,
}
use mathlib.Core.Option
use api_user.Roles.{Role}
use api_user.Env.{Roles}

abbrev role_test : (Role → Bool) → Option Role → Option Role
role_test p none = none
role_test p (some r) = if p r then some r else none

abbrev role_list : Option Role → List Role
role_list none = []
role_list (some r) = r ∷ []

abbrev insert_role : Option Role → (String → Option Role) → Role → Option (String → Option Role)
insert_role none s r = some (λ j. if r.id == j then some r else s j)
insert_role (some old) s r = none

at_same : {s t : String → Option Role} → some s ≡ some t → (j : String) → t j ≡ s j
at_same {s} {t} h j = let e : s ≡ t = cc h in ap (λ f. f j) (sym e)

pub updated-role :
    (s t : String → Option Role) (k : String) (f : Role → Role)
    → some (λ j. if k == j then Option.map f (s j) else s j) ≡ some t
    → (j : String) → t j ≡ (if k == j then Option.map f (s j) else s j)
updated-role s t k f h j = at_same h j

pub deleted-role :
    (s t : String → Option Role) (k : String)
    → some (λ j. if k == j then none else s j) ≡ some t
    → (j : String) → t j ≡ (if k == j then none else s j)
deleted-role s t k h j = at_same h j

inserted_if :
    (o : Option Role) (s t : String → Option Role) (r : Role)
    → insert_role o s r ≡ some t
    → (o ≡ none) × ((j : String) → t j ≡ (if r.id == j then some r else s j))
inserted_if none s t r h = (refl, λ j. at_same h j)
inserted_if (some old) s t r h = cc h

pub inserted-role :
    (s t : String → Option Role) (r : Role)
    → insert_role (s r.id) s r ≡ some t
    → (j : String) → t j ≡ (if r.id == j then some r else s j)
inserted-role s t r h = (inserted_if (s r.id) s t r h).1

pub fresh-role :
    (s t : String → Option Role) (r : Role) → insert_role (s r.id) s r ≡ some t → s r.id ≡ none
fresh-role s t r h = (inserted_if (s r.id) s t r h).0

abbrev pub roles : Roles
roles = record {
  State = String → Option Role;
  doc = λ s k. s k;
  find_one = λ s p. role_test p (s "r");
  find = λ s p. role_list (role_test p (s "r"));
  update_one = λ s k f. some (λ j. if k == j then Option.map f (s j) else s j);
  insert_one = λ s r. insert_role (s r.id) s r;
  delete_one = λ s k. some (λ j. if k == j then none else s j);
  doc-update_one = updated-role;
  doc-insert_one = inserted-role;
  insert_one-fresh = fresh-role;
  doc-delete_one = deleted-role;
}
