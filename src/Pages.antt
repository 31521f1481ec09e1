-- ===== src/Pages.antt =====
-- common/dto/paginated-response.dto.ts, and the pages of rbac/rbac-pagination.ts.
use api_user.Prelude.{
  ℕ, zero, suc, ◌+◌, ◌-◌, ◌*◌, ◌/◌, ◌≤◌, ◌<◌, ◌≡◌, refl, ◌∙◌, sym, ap, Option, none, some, List, [],
  ◌∷◌, ◌++◌, length, take, drop, get_or, ltb, if◌then◌else◌, arith, Bool-cases, inl, inr,
}
use native.Mathlib.Nat.{lt-div-mul-add, suc-mul, zero-mul}
use mathlib.Core.Path.{subst}

pub record Paginated {ℓ} (A : Type ℓ) : Type ℓ where
  pub rows : List A
  pub total : ℕ
  pub page : ℕ
  pub limit : ℕ
  pub total_pages : ℕ

-- `total > 0 ? Math.ceil(total / limit) : 0`
abbrev pub page_count : ℕ → ℕ → ℕ
page_count total limit = if ltb 0 total then (total + limit - 1) / limit else 0

sum_zero : (m : ℕ) → m ≡ 0 + m
sum_zero m = omega arith

sym_sum : (q : ℕ) → q + 0 ≡ q
sym_sum q = omega arith

sum_swap : (q n : ℕ) → q + suc n ≡ suc q + n
sum_swap q n = omega arith

sum_suc : (n m : ℕ) → suc (n + m) ≡ suc n + m
sum_suc n m = omega arith

pred_suc : (q : ℕ) → suc q - 1 ≡ q
pred_suc q = omega arith

enough_zero : (t limit q : ℕ) → t ≤ (q + 0) * limit → t ≤ q * limit
enough_zero t limit q h = subst (λ k. t ≤ k * limit) (sym_sum q) h

enough_suc : (t limit q n : ℕ) → t ≤ (q + suc n) * limit → t ≤ (suc q + n) * limit
enough_suc t limit q n h = subst (λ k. t ≤ k * limit) (sum_swap q n) h

-- The count of pages is enough for all items.
page_count-enough : (total limit : ℕ) → 0 < limit → total ≤ (0 + page_count total limit) * limit
page_count-enough total limit positive = elim (Bool-cases (ltb 0 total)) [
  | inl some_items ↦
      let above = lt-div-mul-add {a = total + limit - 1} {b = limit} positive in
      let count : 0 + page_count total limit ≡ (total + limit - 1) / limit =
        ground (arith, some_items) in
      subst (λ k. total ≤ k * limit) (sym count) (omega (arith, above))
  | inr no_items ↦ ground (arith, no_items)
]

module _ {ℓ} {A : Type ℓ} where
  -- `PaginatedResponseDTO.of`; `rows` is its `data`
  abbrev pub of : List A → (total page limit : ℕ) → Paginated A
  of rows total page limit = record {
    rows = rows;
    total = total;
    page = page;
    limit = limit;
    total_pages = page_count total limit;
  }

  -- `items.slice(start, start + limit)` for a page that counts from 1.
  abbrev pub page_of : List A → (page limit : ℕ) → List A
  page_of items page limit = take limit (drop ((page - 1) * limit) items)

  -- `paginateRbacItems` without the translation of the page.
  abbrev pub paginate_rbac_items : List A → Option ℕ → Option ℕ → Paginated A
  paginate_rbac_items items page limit =
      of (page_of items (get_or page 1) (get_or limit 20)) (length items) (get_or page 1)
        (get_or limit 20)

  take-drop : (n : ℕ) (xs : List A) → take n xs ++ drop n xs ≡ xs
  take-drop zero xs = refl
  take-drop (suc n) [] = refl
  take-drop (suc n) (x ∷ xs) = ap (λ ys. x ∷ ys) (take-drop n xs)

  drop-nil : (n : ℕ) → drop {A = A} n [] ≡ []
  drop-nil zero = refl
  drop-nil (suc n) = refl

  drop-drop : (n m : ℕ) (xs : List A) → drop m (drop n xs) ≡ drop (n + m) xs
  drop-drop zero m xs = ap (λ k. drop k xs) (sum_zero m)
  drop-drop (suc n) m [] = drop-nil m ∙ sym (drop-nil (suc n + m))
  drop-drop (suc n) m (x ∷ xs) = drop-drop n m xs ∙ ap (λ k. drop k (x ∷ xs)) (sum_suc n m)

  drop-all : (n : ℕ) (xs : List A) → length xs ≤ n → drop n xs ≡ []
  drop-all n [] h = drop-nil n
  drop-all zero (x ∷ xs) h = absurd (omega (arith, h))
  drop-all (suc n) (x ∷ xs) h = drop-all n xs (omega (arith, h))

  -- `n` pages in a row, from the one with the number `suc q`.
  abbrev pub pages_from : List A → (limit q n : ℕ) → List A
  pages_from items limit q zero = []
  pages_from items limit q (suc n) =
      (paginate_rbac_items items (some (suc q)) (some limit)).rows
      ++ pages_from items limit (suc q) n

  page_of-suc :
      (items : List A) (limit q : ℕ)
      → page_of items (suc q) limit ≡ take limit (drop (q * limit) items)
  page_of-suc items limit q = ap (λ k. take limit (drop (k * limit) items)) (pred_suc q)

  pages_from-drop :
      (items : List A) (limit q n : ℕ)
      → length items ≤ (q + n) * limit
      → pages_from items limit q n ≡ drop (q * limit) items
  pages_from-drop items limit q zero h =
      sym (drop-all (q * limit) items (enough_zero (length items) limit q h))
  pages_from-drop items limit q (suc n) h =
      let rest = pages_from-drop items limit (suc q) n (enough_suc (length items) limit q n h) in
      let next : drop (suc q * limit) items ≡ drop limit (drop (q * limit) items) =
        ap (λ k. drop k items) (suc-mul q limit) ∙ sym (drop-drop (q * limit) limit items) in
      ap (λ ys. ys ++ pages_from items limit (suc q) n) (page_of-suc items limit q)
      ∙ ap (λ ys. take limit (drop (q * limit) items) ++ ys) (rest ∙ next)
      ∙ take-drop limit (drop (q * limit) items)

  -- The pages from the first to the last, as many as `totalPages` says, are the list, for any limit
  -- that is not zero: no item is lost and none is shown twice.
  pub pages_from-all :
      (items : List A) (limit : ℕ)
      → 0 < limit
      → pages_from items limit 0 (paginate_rbac_items items none (some limit)).total_pages ≡ items
  pages_from-all items limit positive =
      pages_from-drop items limit 0 (page_count (length items) limit)
        (page_count-enough (length items) limit positive)
      ∙ ap (λ k. drop k items) (zero-mul limit)
