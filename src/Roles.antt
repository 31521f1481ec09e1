-- ===== src/Roles.antt =====
-- rbac/entities/role.entity.ts and permission.entity.ts, and the pure functions of
-- rbac/services/role.service.ts.
pub mod Service
pub mod Merge
pub mod System
pub mod Removal
pub mod Lookup
pub mod Assignable
use Prim.Native.String.{String}
use mathlib.Core.Bool.{Bool, true, false}
use mathlib.Core.Option.{Option, none, some}
use mathlib.Core.List.{List, [], ◌∷◌, ◌++◌}
use api_user.Prelude.{includes, if◌then◌else◌}

pub record Role : Type 0 where
  pub id : String
  pub name : String
  pub description : Option String
  pub permission_ids : List String
  pub is_system : Bool
  pub is_default : Bool

-- The fields of a permission that the services read.
pub record Permission : Type 0 where
  pub id : String
  pub name : String

-- The elements that are not among those seen, each once and in order.
abbrev pub unique_after : List String → List String → List String
unique_after seen [] = []
unique_after seen (x ∷ xs) =
    let new = unique_after (x ∷ seen) xs in
    let old = unique_after seen xs in if includes seen x then old else x ∷ new

-- `[...new Set(xs)]`
unfoldable pub unique : List String → List String
unique xs = unique_after [] xs

unfoldable pub merge_effective_permissions : List String → List String → List String
unfolding unique
merge_effective_permissions role_permissions user_permissions =
    unique (role_permissions ++ user_permissions)
