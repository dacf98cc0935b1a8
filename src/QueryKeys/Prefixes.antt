-- ===== src/QueryKeys/Prefixes.antt =====
-- Which queries an invalidation reaches, where the cache does what its documentation says.
use nestlio.Prelude.{Bool, true, ◌≡◌, refl, List, [], ◌∷◌, all, any, arith, and_split}
use nestlio.QueryKeys.Queries.{CachedQuery, key_of, covers, is_text, begins_with}
use nestlio.QueryKeys.{QueryKey, invalidate_keys, asset_related_keys}

any-matches :
    (matches : QueryKey → QueryKey → Bool)
    → ((key cached : QueryKey)
        → all is_text key ≡ true
        → matches key cached ≡ begins_with key cached)
    → (keys : List QueryKey) (cached : QueryKey) → all (λ key. all is_text key) keys ≡ true
    → any (λ key. matches key cached) keys ≡ any (λ key. begins_with key cached) keys
any-matches matches h [] cached e = refl
any-matches matches h (key ∷ keys) cached e = ground (
  arith,
  h key cached,
  any-matches matches h keys cached,
  and_split (all is_text key) (all (λ k. all is_text k) keys) e,
)

asset_related_keys-text : all (λ key. all is_text key) asset_related_keys ≡ true
unfolding asset_related_keys
asset_related_keys-text = refl

-- The asset keys reach the queries whose keys begin with one of them.
pub invalidate_keys-asset :
    (matches : QueryKey → QueryKey → Bool)
    → ((key cached : QueryKey)
        → all is_text key ≡ true
        → matches key cached ≡ begins_with key cached)
    → (q : CachedQuery)
    → invalidate_keys matches asset_related_keys (key_of q) ≡ covers asset_related_keys q
unfolding invalidate_keys
invalidate_keys-asset matches h q =
    any-matches matches h asset_related_keys (key_of q) asset_related_keys-text
