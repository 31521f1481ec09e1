-- ===== src/Roles/Merge.antt =====
-- The effective permissions of rbac/services/role.service.ts.
use api_user.Prelude.{
  String, ◌≡◌, refl, Bool, true, not, ◌&&◌, ◌||◌, List, [], ◌∷◌, ◌++◌, includes, ◌==◌, eq_iff,
  eq_refl, ap, arith, Bool-cases, inl, inr,
}
use api_user.Roles.{unique_after, unique, merge_effective_permissions}

-- Each element once.
abbrev pub is_distinct : List String → Bool
is_distinct [] = true
is_distinct (x ∷ xs) = not (includes xs x) && is_distinct xs

includes-unique_after :
    (seen xs : List String) (p : String)
    → includes (unique_after seen xs) p ≡ (includes xs p && not (includes seen p))
includes-unique_after seen [] p = refl
includes-unique_after seen (x ∷ xs) p = elim (Bool-cases (includes seen x)) [
  | inl old ↦ elim (Bool-cases (x == p)) [
    | inl same ↦ rw old (
        ground (
          arith,
          same,
          includes-unique_after seen xs p,
          old,
          ap (includes seen) ((eq_iff x p).0 same),
        ))
    | inr other ↦ rw old (ground (arith, other, includes-unique_after seen xs p))
  ]
  | inr new ↦ elim (Bool-cases (x == p)) [
    | inl same ↦ rw new (
        ground (
          arith,
          same,
          includes-unique_after (x ∷ seen) xs p,
          new,
          ap (includes seen) ((eq_iff x p).0 same),
        ))
    | inr other ↦ rw new (ground (arith, other, includes-unique_after (x ∷ seen) xs p))
  ]
]

pub includes-unique : (xs : List String) (p : String) → includes (unique xs) p ≡ includes xs p
unfolding unique
includes-unique xs p = ground (arith, includes-unique_after [] xs p)

is_distinct-unique_after : (seen xs : List String) → is_distinct (unique_after seen xs) ≡ true
is_distinct-unique_after seen [] = refl
is_distinct-unique_after seen (x ∷ xs) = elim (Bool-cases (includes seen x)) [
  | inl old ↦ rw old (is_distinct-unique_after seen xs)
  | inr new ↦ rw new (
      ground (
        arith,
        is_distinct-unique_after (x ∷ seen) xs,
        includes-unique_after (x ∷ seen) xs x,
        eq_refl x,
      ))
]

includes-++ :
    (xs ys : List String) (p : String) → includes (xs ++ ys) p ≡ (includes xs p || includes ys p)
includes-++ [] ys p = refl
includes-++ (x ∷ xs) ys p = ground (arith, includes-++ xs ys p)

-- The effective permissions are those of the role and those of the user, each once.
pub includes-merge :
    (role_permissions user_permissions : List String)
    → (is_distinct (merge_effective_permissions role_permissions user_permissions) ≡ true)
      × ((p : String)
          → includes (merge_effective_permissions role_permissions user_permissions) p
            ≡ (includes role_permissions p || includes user_permissions p))
unfolding merge_effective_permissions
includes-merge role_permissions user_permissions = (
  is_distinct-unique_after [] (role_permissions ++ user_permissions),
  λ p. ground (
    arith,
    includes-unique_after [] (role_permissions ++ user_permissions) p,
    includes-++ role_permissions user_permissions p,
  ),
)
