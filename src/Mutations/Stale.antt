-- ===== src/Mutations/Stale.antt =====
-- Which queries become stale when an asset changes (frontend/src/hooks/useAssetSection.ts,
-- frontend/src/hooks/useCrudMutations.ts), and that a success is told.
use nestlio.Prelude.{
  suc, ◌≡◌, refl, Bool, true, false, ◌&&◌, some, List, [], ◌∷◌, ◌++◌, length, Text, is_empty, all,
  arith, length-append, any-append,
}
use nestlio.QueryKeys.{QueryKey, invalidate_keys, asset_related_keys}
use nestlio.QueryKeys.Queries.{CachedQuery, key_of, covers, is_text, begins_with}
use nestlio.QueryKeys.Prefixes.{invalidate_keys-asset}
use nestlio.Toasts.{ToastType}
use nestlio.Mutations.{World, show_success, show, invalidate}

module _ (matches : QueryKey → QueryKey → Bool)
    (by_prefix : (key cached : QueryKey)
      → all is_text key ≡ true
      → matches key cached ≡ begins_with key cached) where
  -- After the asset keys the queries under one of them are stale, whatever was stale before.
  pub stale-append :
      (keys : List QueryKey) (c : Bool)
      → ((q : CachedQuery)
          → invalidate_keys matches keys (key_of q) ≡ (c && covers asset_related_keys q))
      → (q : CachedQuery)
      → invalidate_keys matches (keys ++ asset_related_keys) (key_of q)
        ≡ covers asset_related_keys q
  unfolding invalidate_keys
  stale-append keys c h q = ground (
    arith,
    any-append (λ key. matches key (key_of q)) keys asset_related_keys,
    h q,
    invalidate_keys-asset matches by_prefix q,
  )

  -- The queries under the asset keys, and the toasts, after a success that is told.
  pub success-told :
      {S : Type 0} (t : Text) (v : World S) (c : Bool)
      → is_empty t ≡ false
      → ((q : CachedQuery)
          → invalidate_keys matches v.invalidated (key_of q) ≡ (c && covers asset_related_keys q))
      → ((show_success (some t) (invalidate asset_related_keys v)).state ≡ v.state)
        × (length (show_success (some t) (invalidate asset_related_keys v)).toasts
            ≡ suc (length v.toasts))
        × ((q : CachedQuery)
            → invalidate_keys matches
                (show_success (some t) (invalidate asset_related_keys v)).invalidated
                (key_of q)
              ≡ covers asset_related_keys q)
  unfolding show invalidate
  success-told [] v c h k = ground arith
  success-told (x ∷ t) v c h k = (
    refl,
    omega (arith, length-append v.toasts ((x ∷ t, ToastType.success) ∷ [])),
    stale-append v.invalidated c k,
  )
