-- ===== src/Grpc/Metadata/Released.antt =====
-- What the agent is asked to remove from its caches when metadata are given up.
use pinpoint_cpp_agent.Common.{ℕ, ◌≡◌, refl, ap, List, [], ◌∷◌, ◌++◌, Option, none, some, Bytes}
use pinpoint_cpp_agent.Grpc.Metadata.{
  MetaData, CacheRemoval, release_failed_cache, PendingMeta, api_meta, error_meta, sql_meta,
  sql_uid_meta, exception_meta, remove_cache_api, remove_cache_error, remove_cache_sql,
  remove_cache_sql_uid,
}

-- What giving up a list of metadata asks the agent to remove from its caches.
abbrev pub removals_of : List PendingMeta → List CacheRemoval
removals_of [] = []
removals_of (p ∷ l) = release_failed_cache p.meta ++ removals_of l

-- The texts of the metadata of one kind, and those that one cache was asked to remove.
abbrev pub keys_by : (MetaData → Option Bytes) → List PendingMeta → List Bytes
keys_by kind [] = []
keys_by kind (p ∷ l) = elim (kind p.meta) [
  | none ↦ keys_by kind l
  | some key ↦ key ∷ keys_by kind l
]

abbrev pub removed_from : (CacheRemoval → Option Bytes) → List CacheRemoval → List Bytes
removed_from cache [] = []
removed_from cache (r ∷ l) = elim (cache r) [
  | none ↦ removed_from cache l
  | some key ↦ key ∷ removed_from cache l
]

abbrev pub api_key_of : MetaData → Option Bytes
api_key_of (api_meta key) = some key
api_key_of _ = none

abbrev pub error_key_of : MetaData → Option Bytes
error_key_of (error_meta key) = some key
error_key_of _ = none

abbrev pub sql_key_of : MetaData → Option Bytes
sql_key_of (sql_meta key) = some key
sql_key_of _ = none

abbrev pub sql_uid_key_of : MetaData → Option Bytes
sql_uid_key_of (sql_uid_meta key) = some key
sql_uid_key_of _ = none

abbrev pub in_api_cache : CacheRemoval → Option Bytes
in_api_cache (remove_cache_api key) = some key
in_api_cache _ = none

abbrev pub in_error_cache : CacheRemoval → Option Bytes
in_error_cache (remove_cache_error key) = some key
in_error_cache _ = none

abbrev pub in_sql_cache : CacheRemoval → Option Bytes
in_sql_cache (remove_cache_sql key) = some key
in_sql_cache _ = none

abbrev pub in_sql_uid_cache : CacheRemoval → Option Bytes
in_sql_uid_cache (remove_cache_sql_uid key) = some key
in_sql_uid_cache _ = none

-- Each cache is asked to remove the texts of its kind of the metadata given up, and no others.
abbrev pub Released : List CacheRemoval → List PendingMeta → Type 0
Released removals given_up =
    (removed_from in_api_cache removals ≡ keys_by api_key_of given_up)
    × (removed_from in_error_cache removals ≡ keys_by error_key_of given_up)
    × (removed_from in_sql_cache removals ≡ keys_by sql_key_of given_up)
    × (removed_from in_sql_uid_cache removals ≡ keys_by sql_uid_key_of given_up)

one_more :
    (meta : MetaData) (n at : ℕ) (l : List PendingMeta)
    → Released (removals_of l) l
    → Released
        (release_failed_cache meta ++ removals_of l)
        (record { meta = meta; retry_count = n; available_at = at } ∷ l)
one_more (api_meta key) n at l (a, e, s, u) = (ap (λ k. key ∷ k) a, e, s, u)
one_more (error_meta key) n at l (a, e, s, u) = (a, ap (λ k. key ∷ k) e, s, u)
one_more (sql_meta key) n at l (a, e, s, u) = (a, e, ap (λ k. key ∷ k) s, u)
one_more (sql_uid_meta key) n at l (a, e, s, u) = (a, e, s, ap (λ k. key ∷ k) u)
one_more (exception_meta key) n at l r = r

pub removals_of-Released : (l : List PendingMeta) → Released (removals_of l) l
removals_of-Released [] = (refl, refl, refl, refl)
removals_of-Released (p ∷ l) =
    one_more p.meta p.retry_count p.available_at l (removals_of-Released l)
