-- ===== src/CategoryGroups.antt =====
-- Rows grouped by category (groupItemsByCategory of frontend/src/utils/categoryGroup.ts): the
-- groups follow the order of the categories, a category that is not among them comes behind in the
-- order of its first row, and the rows without a category come last.
pub mod Complete
use nestlio.Prelude.{
  ℕ, suc, ◌+◌, Bool, true, false, ◌↔◌, ◌≡◌, Option, none, some, List, [], ◌∷◌, ◌++◌, any, ◌==◌,
  if◌then◌else◌, or_else, leb, String, length,
}
use nestlio.Prelude.Sort.{sort_by}
use nestlio.Prelude.Groups.{KeyEq, group_by, option_key}
use nestlio.Types.Ledger.{CategoryOut}

-- What the rows share (CategorizedItem), with the row itself.
pub record Item (T : Type 0) : Type 0 where
  pub category_id : Option ℕ
  pub category_name : Option String
  pub category_color : Option String
  pub row : T

pub record CategoryGroup (T : Type 0) : Type 0 where
  pub category_id : Option ℕ
  pub category_name : Option String
  pub category_color : Option String
  pub items : List (Item T)

-- rank.get(key): the place of the last category with this id.
unfoldable pub rank_from : ℕ → ℕ → List CategoryOut → Option ℕ
rank_from i key [] = none
rank_from i key (c ∷ cs) = elim (rank_from (i + 1) key cs) [
  | some place ↦ some place
  | none ↦ if c.id == key then some i else none
]

-- rank.size: how many ids there are.
unfoldable pub rank_size : List CategoryOut → ℕ
rank_size [] = 0
rank_size (c ∷ cs) =
    let rest = rank_size cs in if any (λ d. d.id == c.id) cs then rest else rest + 1

-- An entry of `categorized`: the bucket's key, its rows and its place.
abbrev pub Categorized : Type 0 → Type 0
Categorized T = ℕ × List (Item T) × ℕ

-- fallbackOrder++, where it is used.
abbrev pub next_order : Option ℕ → ℕ → ℕ
next_order none fallback_order = fallback_order + 1
next_order (some place) fallback_order = fallback_order

module _ {T : Type 0} where
  -- The loop over the buckets' keys, with `fallbackOrder`.
  unfoldable pub categorize :
      List CategoryOut → ℕ → List (Option ℕ × List (Item T)) → List (Categorized T)
  categorize order fallback_order [] = []
  categorize order fallback_order ((none, rows) ∷ buckets) = categorize order fallback_order buckets
  categorize order fallback_order ((some key, rows) ∷ buckets) =
      let place = rank_from 0 key order in
      (key, rows, or_else place fallback_order)
      ∷ categorize order (next_order place fallback_order) buckets

  -- The group of a bucket, which names its category as its first row does.
  unfoldable pub group_of : ℕ → List (Item T) → CategoryGroup T
  group_of key [] = record {
    category_id = some key;
    category_name = none;
    category_color = none;
    items = [];
  }
  group_of key (first ∷ rows) = record {
    category_id = some key;
    category_name = first.category_name;
    category_color = first.category_color;
    items = first ∷ rows;
  }

  unfoldable pub groups_of : List (Categorized T) → List (CategoryGroup T)
  groups_of [] = []
  groups_of ((key, rows, place) ∷ categorized) = group_of key rows ∷ groups_of categorized

  -- buckets.get(null), as the last group.
  unfoldable pub uncategorized : List (Option ℕ × List (Item T)) → List (CategoryGroup T)
  uncategorized [] = []
  uncategorized ((none, rows) ∷ buckets) =
      record { category_id = none; category_name = none; category_color = none; items = rows }
      ∷ uncategorized buckets
  uncategorized ((some key, rows) ∷ buckets) = uncategorized buckets

  unfoldable pub group_items_by_category : List (Item T) → List CategoryOut → List (CategoryGroup T)
  group_items_by_category items category_order =
      let buckets = group_by option_key (λ item. item.category_id) items in
      groups_of (
        sort_by (λ a b. leb a.2 b.2) (categorize category_order (rank_size category_order) buckets))
      ++ uncategorized buckets
