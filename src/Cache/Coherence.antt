-- ===== src/Cache/Coherence.antt =====
-- The cache against the data behind it: what the reads and the invalidations of the service keep.
use text.Mathlib.Text.{starts_with}
use iam_access_control_servi.Prelude.{
  ℕ, ◌≤◌, String, ◌≡◌, ◌≢◌, refl, ap, false, none, some, arith, eq_iff, Option-cases, inl, inr,
}
use iam_access_control_servi.Cache.{Cache, get, set, del, del_by_prefix, wrap}
use iam_access_control_servi.Cache.Laws.{
  visible, get_value, visible-set, visible-del, visible-del_by_prefix, visible-get,
}

module _ {V : Type 0} where
  -- What the cache shows for a key is the current value of that key.
  pub record Coherent (now : ℕ) (source : String → V) (c : Cache V) : Type 0 where
    pub at : (key : String) (v : V) → visible now c key ≡ some v → v ≡ source key

  -- What is visible later was visible before.
  visible_later :
      (t now : ℕ) (c : Cache V) (key : String) (v : V)
      → t ≤ now
      → visible now c key ≡ some v
      → visible t c key ≡ some v
  unfolding visible
  visible_later t now c key v h e = ground arith

  pub Coherent-later :
      {t now : ℕ} {f : String → V} {c : Cache V} → t ≤ now → Coherent t f c → Coherent now f c
  Coherent-later {t} {now} {c} h k = record {
    at = λ key v e. k.at key v (visible_later t now c key v h e);
  }

  Coherent-get :
      {now : ℕ} {f : String → V} {c : Cache V} (key name : String)
      → Coherent now f c
      → Coherent now f (get now key name c).1
  Coherent-get {now} {c} key name k = record {
    at = λ j v e. k.at j v (ground (arith, visible-get now now key j name c));
  }

  Coherent-set :
      {now : ℕ} {f : String → V} {c : Cache V} (key : String) (ttl : ℕ)
      → Coherent now f c
      → Coherent now f (set now key (f key) ttl c)
  Coherent-set {now} {f} {c} key ttl k = record {
    at = λ j v e. ground (
      arith,
      visible-set now now ttl key j (f key) c,
      k.at j v,
      eq_iff key j,
      λ (p : key ≡ j). ap f p,
    );
  }

  -- A write that changes only keys with a prefix, followed by the removal of that prefix.
  pub del_by_prefix-Coherent :
      {now : ℕ} {f g : String → V} {c : Cache V} (prefix : String)
      → ((j : String) → starts_with j prefix ≡ false → f j ≡ g j)
      → Coherent now f c
      → Coherent now g (del_by_prefix prefix c)
  del_by_prefix-Coherent {now} {c} prefix same k = record {
    at = λ j v e. ground (arith, visible-del_by_prefix now prefix j c, k.at j v, same j);
  }

  -- A write that changes only one key, followed by the removal of that key.
  pub del-Coherent :
      {now : ℕ} {f g : String → V} {c : Cache V} (key : String)
      → ((j : String) → key ≢ j → f j ≡ g j)
      → Coherent now f c
      → Coherent now g (del key c)
  del-Coherent {now} {c} key same k = record {
    at = λ j v e. ground (arith, visible-del now key j c, k.at j v, same j, eq_iff key j);
  }

  wrap_hit :
      (now later : ℕ) (key name : String) (ttl : ℕ) (loaded v : V) (c : Cache V)
      → (get now key name c).0 ≡ some v
      → wrap now later key ttl loaded name c ≡ (v, (get now key name c).1)
  unfolding wrap
  wrap_hit now later key name ttl loaded v c e = ground arith

  wrap_miss :
      (now later : ℕ) (key name : String) (ttl : ℕ) (loaded : V) (c : Cache V)
      → (get now key name c).0 ≡ none
      → wrap now later key ttl loaded name c
        ≡ (loaded, set later key loaded ttl (get now key name c).1)
  unfolding wrap
  wrap_miss now later key name ttl loaded c e = ground arith

  -- Over a coherent cache, `wrap` with a loader that reads the current value returns that value,
  -- whether it hits or misses, and leaves a coherent cache.
  pub wrap-Coherent :
      {now : ℕ} {f : String → V} {c : Cache V} (later : ℕ) (key name : String) (ttl : ℕ)
      → now ≤ later
      → Coherent now f c
      → ((wrap now later key ttl (f key) name c).0 ≡ f key)
        × Coherent later f (wrap now later key ttl (f key) name c).1
  wrap-Coherent {now} {f} {c} later key name ttl h k =
      let kept = Coherent-later h (Coherent-get key name k) in
      elim (Option-cases (get now key name c).0) [
        | inl missed ↦
            rw (wrap_miss now later key name ttl (f key) c missed) (refl, Coherent-set key ttl kept)
        | inr (v, found) ↦
            rw (wrap_hit now later key name ttl (f key) v c found)
              (k.at key v (ground (arith, get_value now key name c)), kept)
      ]
