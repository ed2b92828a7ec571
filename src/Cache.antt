-- ===== src/Cache.antt =====
-- src/common/cache/cache.service.ts: the in-memory cache with expiry and invalidation by prefix.
-- The store is the JavaScript `Map` as an association list in the order of insertion; `now` is the
-- value of `Date.now()` at the call.
pub mod Keys
pub mod Laws
pub mod Coherence
pub mod Steps
pub mod Staleness
use iam_access_control_servi.Prelude.{
  ℕ, ◌+◌, String, Bool, true, false, Option, none, some, List, [], ◌∷◌, ◌++◌, leb, if◌then◌else◌,
}
use iam_access_control_servi.Prelude.{str_eq}
use text.Mathlib.Text.{starts_with}

pub data CacheResult : Type 0 where
  hit miss : CacheResult

pub record CacheEntry (V : Type 0) : Type 0 where
  pub value : V
  pub expires_at : ℕ

-- The service's `store`, and the calls of `metrics?.recordCache` so far, in order.
pub record Cache (V : Type 0) : Type 0 where
  pub store : List (String × CacheEntry V)
  pub recorded : List (String × CacheResult)

module _ {V : Type 0} where
  abbrev pub empty : Cache V
  empty = record { store = []; recorded = [] }

  -- `Map.get`
  unfoldable pub map_get : String → List (String × CacheEntry V) → Option (CacheEntry V)
  map_get key [] = none
  map_get key ((k, e) ∷ rest) = if str_eq k key then some e else map_get key rest

  -- `Map.delete`
  unfoldable pub map_delete : String → List (String × CacheEntry V) → List (String × CacheEntry V)
  map_delete key [] = []
  map_delete key ((k, e) ∷ rest) =
      let others = map_delete key rest in if str_eq k key then others else (k, e) ∷ others

  -- `Map.set`: a key that is there keeps its place.
  unfoldable pub map_set :
      String → CacheEntry V → List (String × CacheEntry V) → List (String × CacheEntry V)
  map_set key entry [] = (key, entry) ∷ []
  map_set key entry ((k, e) ∷ rest) =
      let others = map_set key entry rest in
      if str_eq k key then (k, entry) ∷ rest else (k, e) ∷ others

  record_cache : String → CacheResult → Cache V → Cache V
  record_cache cache_name result c = record c { recorded = c.recorded ++ (cache_name, result) ∷ [] }

  -- The branches of `get` on the entry that the store holds.
  get_entry : ℕ → String → String → Option (CacheEntry V) → Cache V → Option V × Cache V
  unfolding record_cache map_delete
  get_entry now key cache_name none c = (none, record_cache cache_name CacheResult.miss c)
  get_entry now key cache_name (some entry) c =
      if leb entry.expires_at now
      then (
        none,
        record_cache cache_name CacheResult.miss (record c { store = map_delete key c.store }),
      )
      else (some entry.value, record_cache cache_name CacheResult.hit c)

  unfoldable pub get : ℕ → String → String → Cache V → Option V × Cache V
  unfolding get_entry map_get
  get now key cache_name c = get_entry now key cache_name (map_get key c.store) c

  unfoldable pub set : ℕ → String → V → ℕ → Cache V → Cache V
  unfolding map_set
  set now key value ttl_ms c = record c {
    store = map_set key (record { value = value; expires_at = now + ttl_ms }) c.store;
  }

  unfoldable pub del : String → Cache V → Cache V
  unfolding map_delete
  del key c = record c { store = map_delete key c.store }

  -- The loop over the keys; deleting the current key does not disturb the iteration.
  unfoldable pub delete_prefix :
      String → List (String × CacheEntry V) → List (String × CacheEntry V)
  delete_prefix prefix [] = []
  delete_prefix prefix ((k, e) ∷ rest) =
      let others = delete_prefix prefix rest in
      if starts_with k prefix then others else (k, e) ∷ others

  unfoldable pub del_by_prefix : String → Cache V → Cache V
  unfolding delete_prefix
  del_by_prefix prefix c = record c { store = delete_prefix prefix c.store }

  -- The part of `wrap` after its `get`: a miss loads, and stores at the later time `now`.
  wrap_result : ℕ → String → ℕ → V → Option V × Cache V → V × Cache V
  unfolding set
  wrap_result now key ttl_ms loaded (none, c) = (loaded, set now key loaded ttl_ms c)
  wrap_result now key ttl_ms loaded (some cached, c) = (cached, c)

  -- `wrap`: `now` is the time of the read and `later` that of the write; `loaded` is what the
  -- loader returns if it is called.
  unfoldable pub wrap : ℕ → ℕ → String → ℕ → V → String → Cache V → V × Cache V
  unfolding get wrap_result
  wrap now later key ttl_ms loaded cache_name c =
      wrap_result later key ttl_ms loaded (get now key cache_name c)
