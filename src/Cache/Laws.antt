-- ===== src/Cache/Laws.antt =====
-- What each operation of the cache does to what a reader sees.
use text.Mathlib.Text.{starts_with}
use iam_access_control_servi.Prelude.{
  ℕ, ◌+◌, ◌≤◌, String, ◌≡◌, refl, ap, Bool-cases, inl, inr, Option, none, some, List, [], ◌∷◌, leb,
  arith, eq_iff, if◌then◌else◌, str_eq,
}
use iam_access_control_servi.Cache.{
  CacheEntry, Cache, map_get, map_delete, map_set, get, set, del, delete_prefix, del_by_prefix,
}

module _ {V : Type 0} where
  abbrev live : ℕ → Option (CacheEntry V) → Option V
  live now none = none
  live now (some e) = if leb e.expires_at now then none else some e.value

  -- What a reader of a key sees at a time.
  unfoldable pub visible : ℕ → Cache V → String → Option V
  visible now c key = live now (map_get key c.store)

  pub map_get-delete :
      (k j : String) (s : List (String × CacheEntry V))
      → map_get j (map_delete k s) ≡ (if str_eq k j then none else map_get j s)
  unfolding map_get map_delete
  map_get-delete k j [] = ground arith
  map_get-delete k j ((i, e) ∷ s) =
      ground (arith, map_get-delete k j s, eq_iff i k, eq_iff i j, eq_iff k j)

  pub map_get-set :
      (k j : String) (e : CacheEntry V) (s : List (String × CacheEntry V))
      → map_get j (map_set k e s) ≡ (if str_eq k j then some e else map_get j s)
  unfolding map_get map_set
  map_get-set k j e [] = refl
  map_get-set k j e ((i, d) ∷ s) =
      ground (arith, map_get-set k j e s, eq_iff i k, eq_iff i j, eq_iff k j)

  pub map_get-delete_prefix :
      (p j : String) (s : List (String × CacheEntry V))
      → map_get j (delete_prefix p s) ≡ (if starts_with j p then none else map_get j s)
  unfolding map_get delete_prefix
  map_get-delete_prefix p j [] = ground arith
  map_get-delete_prefix p j ((i, e) ∷ s) = elim (Bool-cases (str_eq i j)) [
    | inl same ↦
        let moved = ap (λ k. starts_with k p) ((eq_iff i j).0 same) in
        ground (arith, map_get-delete_prefix p j s, moved)
    | inr other ↦ ground (arith, map_get-delete_prefix p j s)
  ]

  -- `get` returns what is visible.
  pub get_value :
      (now : ℕ) (key name : String) (c : Cache V) → (get now key name c).0 ≡ visible now c key
  unfolding get visible
  get_value now key name c = ground arith

  pub visible-set :
      (t now ttl : ℕ) (key j : String) (v : V) (c : Cache V)
      → visible now (set t key v ttl c) j
        ≡ (if str_eq key j then (if leb (t + ttl) now then none else some v) else visible now c j)
  unfolding visible set
  visible-set t now ttl key j v c =
      ground (arith, map_get-set key j (record { value = v; expires_at = t + ttl }) c.store)

  pub visible-del :
      (now : ℕ) (key j : String) (c : Cache V)
      → visible now (del key c) j ≡ (if str_eq key j then none else visible now c j)
  unfolding visible del
  visible-del now key j c = ground (arith, map_get-delete key j c.store)

  -- After `delByPrefix` no key with the prefix is visible, and every other key shows what it did.
  pub visible-del_by_prefix :
      (now : ℕ) (prefix j : String) (c : Cache V)
      → visible now (del_by_prefix prefix c) j
        ≡ (if starts_with j prefix then none else visible now c j)
  unfolding visible del_by_prefix
  visible-del_by_prefix now prefix j c = ground (arith, map_get-delete_prefix prefix j c.store)

  -- The lazy removal of an expired entry is invisible, then and later.
  pub visible-get :
      (t now : ℕ) (key j name : String) (c : Cache V)
      → t ≤ now
      → visible now (get t key name c).1 j ≡ visible now c j
  unfolding visible get
  visible-get t now key j name c h = ground (arith, map_get-delete key j c.store, eq_iff key j)
