-- ===== src/CategoryGroups/Complete.antt =====
-- Every row is in one group (groupItemsByCategory of frontend/src/utils/categoryGroup.ts).
use nestlio.Prelude.{
  ℕ, ◌≡◌, refl, sym, ap, ◌∙◌, Option, none, some, List, [], ◌∷◌, ◌++◌, append-nil, append_assoc,
  leb, Bool, Bool-cases, inl, inr,
}
use nestlio.Prelude.Sort.{sort_by, insert_by}
use nestlio.Prelude.Groups.{group_by, group_from-perm, all_items, option_key}
use nestlio.Types.Ledger.{CategoryOut}
use nestlio.CategoryGroups.{
  Item, CategoryGroup, Categorized, rank_from, rank_size, next_order, categorize, group_of,
  groups_of, uncategorized, group_items_by_category,
}
use mathlib.Core.Path.{subst}
use mathlib.Core.List.{Perm, perm_middle}
use mathlib.Core.List.Perm

module _ {T : Type 0} where
  -- The rows of all groups, group by group.
  abbrev pub rows_of : List (CategoryGroup T) → List (Item T)
  rows_of [] = []
  rows_of (g ∷ groups) = g.items ++ rows_of groups

  abbrev bucket_rows : List (Categorized T) → List (Item T)
  bucket_rows [] = []
  bucket_rows ((key, rows, place) ∷ cs) = rows ++ bucket_rows cs

  group_of-items : (key : ℕ) (rows : List (Item T)) → (group_of key rows).items ≡ rows
  unfolding group_of
  group_of-items key [] = refl
  group_of-items key (first ∷ rows) = refl

  rows_of-groups_of : (cs : List (Categorized T)) → rows_of (groups_of cs) ≡ bucket_rows cs
  unfolding groups_of
  rows_of-groups_of [] = refl
  rows_of-groups_of ((key, rows, place) ∷ cs) =
      rw (group_of-items key rows, rows_of-groups_of cs) refl

  rows_of-append : (xs ys : List (CategoryGroup T)) → rows_of (xs ++ ys) ≡ rows_of xs ++ rows_of ys
  rows_of-append [] ys = refl
  rows_of-append (g ∷ xs) ys =
      ap (λ rest. g.items ++ rest) (rows_of-append xs ys)
      ∙ sym (append_assoc g.items (rows_of xs) (rows_of ys))

  exchange : (xs ys zs : List (Item T)) → Perm (xs ++ (ys ++ zs)) (ys ++ (xs ++ zs))
  exchange [] ys zs = Perm.refl _
  exchange (x ∷ xs) ys zs =
      Perm.trans (Perm.cons x (exchange xs ys zs)) (Perm.symm (perm_middle ys (xs ++ zs)))

  abbrev by_place : Categorized T → Categorized T → Bool
  by_place a b = leb a.2 b.2

  insert-rows :
      (c : Categorized T) (cs : List (Categorized T))
      → Perm (bucket_rows (insert_by by_place c cs)) (c.1 ++ bucket_rows cs)
  unfolding insert_by
  insert-rows c [] = Perm.refl _
  insert-rows c (d ∷ cs) = elim (Bool-cases (by_place c d)) [
    | inl e ↦ rw e (Perm.refl _)
    | inr e ↦
        rw e
          (Perm.trans (Perm.append_left d.1 (insert-rows c cs)) (exchange d.1 c.1 (bucket_rows cs)))
  ]

  sort-rows :
      (cs : List (Categorized T)) → Perm (bucket_rows (sort_by by_place cs)) (bucket_rows cs)
  unfolding sort_by
  sort-rows [] = Perm.refl []
  sort-rows (c ∷ cs) =
      Perm.trans (insert-rows c (sort_by by_place cs)) (Perm.append_left c.1 (sort-rows cs))

  categorize-perm :
      (order : List CategoryOut) (fallback : ℕ) (buckets : List (Option ℕ × List (Item T)))
      → Perm
          (bucket_rows (categorize order fallback buckets) ++ rows_of (uncategorized buckets))
          (all_items buckets)
  unfolding categorize uncategorized
  categorize-perm order fallback [] = Perm.refl []
  categorize-perm order fallback ((none, rows) ∷ buckets) =
      Perm.trans
        (exchange (bucket_rows (categorize order fallback buckets)) rows
          (rows_of (uncategorized buckets)))
        (Perm.append_left rows (categorize-perm order fallback buckets))
  categorize-perm order fallback ((some key, rows) ∷ buckets) = rw append_assoc (
      Perm.append_left rows
        (categorize-perm order (next_order (rank_from 0 key order) fallback) buckets))

-- The groups hold together each row that was given, once and no other, whatever the order of the
-- categories and also with rows whose category is unknown or missing.
pub group_items_by_category-complete :
    {T : Type 0} (items : List (Item T)) (category_order : List CategoryOut)
    → Perm (rows_of (group_items_by_category items category_order)) items
unfolding group_items_by_category group_by
group_items_by_category-complete {T} items order =
    rw (rows_of-append, rows_of-groups_of)
      (Perm.trans
        (Perm.append_right (rows_of (uncategorized buckets))
          (sort-rows (categorize order (rank_size order) buckets)))
        (Perm.trans (categorize-perm order (rank_size order) buckets) (
          subst (Perm (all_items buckets)) (append-nil items)
            (group_from-perm option_key (λ item. item.category_id) [] items))))
  where
    buckets : List (Option ℕ × List (Item T))
    buckets = group_by option_key (λ item. item.category_id) items
