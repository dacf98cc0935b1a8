-- ===== src/Mutations/Refinement.antt =====
-- What an asset section promises to the rest of the application
-- (frontend/src/hooks/useAssetSection.ts): which queries become stale, and that the user is told.
use nestlio.Prelude.{ℕ, suc, ◌≡◌, Bool, true, false, ◌&&◌, length, or_else, codes, is_empty, all}
use nestlio.QueryKeys.{QueryKey, invalidate_keys, asset_related_keys}
use nestlio.QueryKeys.Queries.{CachedQuery, key_of, covers, is_text, begins_with}
use nestlio.Mutations.{World}
use nestlio.Mutations.Assets.{Section, SectionMessages}

-- The requests under way, those that have settled, and whether one of them changed something.
pub record Spec : Type 0 where
  pub under_way : ℕ
  pub settled : ℕ
  pub changed : Bool

abbrev pub spec_start : Spec
spec_start = record { under_way = 0; settled = 0; changed = false }

pub data SpecStep (a : Spec) : Spec → Type 0 where
  stays : SpecStep a a
  sends : SpecStep a (record a { under_way = suc a.under_way })
  succeeds :
      (n : ℕ)
      → a.under_way ≡ suc n
      → SpecStep a (record { under_way = n; settled = suc a.settled; changed = true })
  fails :
      (n : ℕ)
      → a.under_way ≡ suc n
      → SpecStep a (record { under_way = n; settled = suc a.settled; changed = a.changed })

pub data SpecRun : Spec → Spec → Type 0 where
  done : {a : Spec} → SpecRun a a
  next : {a b c : Spec} → SpecStep a b → SpecRun b c → SpecRun a c

-- No message of the section is empty.
abbrev pub Worded : SectionMessages → Type 0
Worded messages =
    (is_empty messages.create ≡ false)
    × (is_empty (or_else messages.deactivate (codes "비활성화했습니다.")) ≡ false)

module _ (matches : QueryKey → QueryKey → Bool)
    (by_prefix : (key cached : QueryKey)
      → all is_text key ≡ true
      → matches key cached ≡ begins_with key cached)
    {T C U : Type 0} (get_id : T → ℕ) (messages : SectionMessages) where
  -- A section's world against the specification: as many requests under way, a toast for each one
  -- that settled, and once one of them succeeded those queries stale whose keys begin with an asset
  -- key.
  abbrev pub Implements : World (Section T C U) → Spec → Type 0
  Implements w a =
      (length w.state.pending ≡ a.under_way)
      × (length w.toasts ≡ a.settled)
      × ((q : CachedQuery)
          → invalidate_keys matches w.invalidated (key_of q)
            ≡ (a.changed && covers asset_related_keys q))
