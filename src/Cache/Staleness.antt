-- ===== src/Cache/Staleness.antt =====
-- The cache where loads and writes interleave: a load reads the database at one time and its value
-- is stored at a later one, and writes with their invalidations may fall between the two. What is
-- read may then be old, but only up to a bound.
use iam_access_control_servi.Cache.Laws.{visible-set}
use iam_access_control_servi.Cache.Laws.{visible-del}
use iam_access_control_servi.Prelude.{◌≢◌}
use iam_access_control_servi.Prelude.{eq_refl}
use iam_access_control_servi.Prelude.{
  ℕ, ◌+◌, ◌≤◌, ◌<◌, String, ◌≡◌, refl, sym, subst, ◌∙◌, none, some, some-inj, List, [], ◌∷◌, In,
  inl, inr, leb, str_eq, eq_iff, arith, Bool-cases, Option-cases, if◌then◌else◌,
}
use iam_access_control_servi.Cache.{Cache, CacheEntry, del, del_by_prefix, get, map_get, set}
use iam_access_control_servi.Cache.Laws.{
  get_value, map_get-delete, map_get-delete_prefix, map_get-set, visible,
}

-- A time, and what the database would return for each key then.
pub record Moment (V : Type 0) : Type 0 where
  pub time : ℕ
  pub source : String → V

-- A load that has read its value.
pub record Load (V : Type 0) : Type 0 where
  pub key : String
  pub value : V
  pub started : ℕ

pub record Racing (V : Type 0) : Type 0 where
  pub now : ℕ
  pub source : String → V
  pub cache : Cache V
  pub loads : List (Load V)
  -- All moments so far.
  pub past : List (Moment V)

module _ {V : Type 0} (ttl longest : ℕ) where
  abbrev pub moment : ℕ → (String → V) → Moment V
  moment time source = record { time = time; source = source }

  -- A step, where no load takes longer than `longest` from its read to its store. A write drops
  -- what it invalidates and may change anything else too, as a write by another process does.
  pub data Step (s : Racing V) : Racing V → Type 0 where
    wait :
        (later : ℕ)
        → s.now ≤ later
        → Step s (record s { now = later; past = moment later s.source ∷ s.past })
    look : (key name : String) → Step s (record s { cache = (get s.now key name s.cache).1 })
    load :
        (key : String)
        → Step s (record s {
          loads = record { key = key; value = s.source key; started = s.now } ∷ s.loads;
        })
    store :
        (l : Load V)
        → In l s.loads
        → s.now ≤ l.started + longest
        → Step s (record s { cache = set s.now l.key l.value ttl s.cache })
    write_prefix :
        (prefix : String) (g : String → V)
        → Step s (record s {
          source = g;
          cache = del_by_prefix prefix s.cache;
          past = moment s.now g ∷ s.past;
        })
    write_key :
        (key : String) (g : String → V)
        → Step s (record s { source = g; cache = del key s.cache; past = moment s.now g ∷ s.past })

  pub data Reach (s : Racing V) : Racing V → Type 0 where
    here : Reach s s
    next : {t u : Racing V} → Reach s t → Step t u → Reach s u

  -- The value of a key at a moment of the past.
  abbrev pub Was : List (Moment V) → String → V → ℕ → Type 0
  Was past key v time = (m : Moment V) × In m past × (m.source key ≡ v) × (m.time ≡ time)

  -- What the store holds was current at a moment, and expires not too long after it.
  abbrev pub IsStored : List (Moment V) → List (String × CacheEntry V) → Type 0
  IsStored past entries =
      (key : String) (e : CacheEntry V)
      → map_get key entries ≡ some e
      → (time : ℕ) × Was past key e.value time × (e.expires_at ≤ time + longest + ttl)

  pub record IsBounded (s : Racing V) : Type 0 where
    pub present : (key : String) → Was s.past key (s.source key) s.now
    pub loaded : (l : Load V) → In l s.loads → Was s.past l.key l.value l.started
    pub stored : IsStored s.past s.cache.store

  later_was :
      (past : List (Moment V)) (m : Moment V) (key : String) (v : V) (time : ℕ)
      → Was past key v time
      → Was (m ∷ past) key v time
  later_was past m key v time (n, at, is, then_) = (n, inr at, is, then_)

  IsStored-later :
      (past : List (Moment V)) (m : Moment V) (entries : List (String × CacheEntry V))
      → IsStored past entries
      → IsStored (m ∷ past) entries
  IsStored-later past m entries h key e found =
      let (time, was, bound) = h key e found in (time, later_was past m key e.value time was, bound)

  -- Entries that stay.
  abbrev Keeps : List (String × CacheEntry V) → List (String × CacheEntry V) → Type 0
  Keeps old new =
      (key : String) (e : CacheEntry V) → map_get key new ≡ some e → map_get key old ≡ some e

  IsStored-Keeps :
      (past : List (Moment V)) (old new : List (String × CacheEntry V))
      → Keeps old new
      → IsStored past old
      → IsStored past new
  IsStored-Keeps past old new keeps h key e found = h key e (keeps key e found)

  Keeps-del : (key : String) (c : Cache V) → Keeps c.store (del key c).store
  unfolding del
  Keeps-del key c j e found = ground (arith, map_get-delete key j c.store)

  Keeps-prefix : (prefix : String) (c : Cache V) → Keeps c.store (del_by_prefix prefix c).store
  unfolding del_by_prefix
  Keeps-prefix prefix c j e found = ground (arith, map_get-delete_prefix prefix j c.store)

  Keeps-get :
      (now : ℕ) (key name : String) (c : Cache V) → Keeps c.store (get now key name c).1.store
  unfolding get
  Keeps-get now key name c j e found = ground (arith, map_get-delete key j c.store)

  IsStored-set :
      (past : List (Moment V)) (now : ℕ) (l : Load V) (c : Cache V)
      → Was past l.key l.value l.started
      → now ≤ l.started + longest
      → IsStored past c.store
      → IsStored past (set now l.key l.value ttl c).store
  unfolding set
  IsStored-set past now l c was soon h key e found =
      let new : CacheEntry V = record { value = l.value; expires_at = now + ttl } in
      let read = sym (map_get-set l.key key new c.store) ∙ found in
      elim (Bool-cases (str_eq l.key key)) [
        | inr other ↦ h key e (rw other at read)
        | inl same ↦
            let entry : new ≡ e = some-inj (rw same at read) in
            subst
              (λ (x : CacheEntry V).
                (time : ℕ) × Was past key x.value time × (x.expires_at ≤ time + longest + ttl))
              entry
              (
                l.started,
                subst (λ k. Was past k l.value l.started) ((eq_iff l.key key).0 same) was,
                omega arith,
              )
      ]

  Step-IsBounded : {s t : Racing V} → Step s t → IsBounded s → IsBounded t
  Step-IsBounded {s} (wait later h) k = record {
    present = λ key. (moment later s.source, inl refl, refl, refl);
    loaded = λ l at. later_was s.past _ l.key l.value l.started (k.loaded l at);
    stored = IsStored-later s.past _ s.cache.store k.stored;
  }
  Step-IsBounded {s} (look key name) k = record {
    present = k.present;
    loaded = k.loaded;
    stored = IsStored-Keeps s.past s.cache.store _ (Keeps-get s.now key name s.cache) k.stored;
  }
  Step-IsBounded {s} (load key) k = record {
    present = k.present;
    loaded = λ l at. elim at [
      | inl same ↦ subst (λ (x : Load V). Was s.past x.key x.value x.started) same (k.present key)
      | inr old ↦ k.loaded l old
    ];
    stored = k.stored;
  }
  Step-IsBounded {s} (store l at soon) k = record {
    present = k.present;
    loaded = k.loaded;
    stored = IsStored-set s.past s.now l s.cache (k.loaded l at) soon k.stored;
  }
  Step-IsBounded {s} (write_prefix prefix g) k = record {
    present = λ key. (moment s.now g, inl refl, refl, refl);
    loaded = λ l at. later_was s.past _ l.key l.value l.started (k.loaded l at);
    stored =
        IsStored-later s.past _ _
          (IsStored-Keeps s.past s.cache.store _ (Keeps-prefix prefix s.cache) k.stored);
  }
  Step-IsBounded {s} (write_key key g) k = record {
    present = λ j. (moment s.now g, inl refl, refl, refl);
    loaded = λ l at. later_was s.past _ l.key l.value l.started (k.loaded l at);
    stored =
        IsStored-later s.past _ _
          (IsStored-Keeps s.past s.cache.store _ (Keeps-del key s.cache) k.stored);
  }

  Reach-IsBounded : {s t : Racing V} → Reach s t → IsBounded s → IsBounded t
  Reach-IsBounded here k = k
  Reach-IsBounded (next r step) k = Step-IsBounded step (Reach-IsBounded r k)

  -- A service that starts with an empty cache.
  abbrev pub started : ℕ → (String → V) → Racing V
  started time source = record {
    now = time;
    source = source;
    cache = record { store = []; recorded = [] };
    loads = [];
    past = moment time source ∷ [];
  }

  started-IsBounded : (time : ℕ) (source : String → V) → IsBounded (started time source)
  unfolding map_get
  started-IsBounded time source = record {
    present = λ key. (moment time source, inl refl, refl, refl);
    loaded = λ l at. absurd at;
    stored = λ key e found. cc;
  }

  live_some :
      (now : ℕ) (e : CacheEntry V) (v : V)
      → (if leb e.expires_at now then none else some e.value) ≡ some v
      → (now < e.expires_at) × (e.value ≡ v)
  live_some now e v h = elim (Bool-cases (leb e.expires_at now)) [
    | inl expired ↦ cc (rw expired at h)
    | inr fresh ↦ (ground arith, some-inj (rw fresh at h))
  ]

  -- However loads, writes and reads interleave, a value that is read from the cache was current at
  -- a moment of the past, less than the time to live and the longest load before the read.
  pub read_bounded :
      (time : ℕ) (source : String → V) {t : Racing V} (key name : String) (v : V)
      → Reach (started time source) t
      → (get t.now key name t.cache).0 ≡ some v
      → (m : Moment V) × In m t.past × (m.source key ≡ v) × (t.now < m.time + longest + ttl)
  unfolding visible
  read_bounded time source {t} key name v r read =
      let k = Reach-IsBounded r (started-IsBounded time source) in
      let shown = sym (get_value t.now key name t.cache) ∙ read in
      elim (Option-cases (map_get key t.cache.store)) [
        | inl missing ↦ cc (rw (missing, visible) at shown)
        | inr (e, found) ↦
            let (moment_of, (m, at, is, when), bound) = k.stored key e found in
            let (fresh, same) = live_some t.now e v (rw (found, visible) at shown) in
            (m, at, is ∙ same, omega (arith, fresh, when, bound))
      ]

  -- A step that writes `g` and takes the key out of the cache, and then a step that changes
  -- neither the database nor the time, after which the key is read with a value that is not what
  -- the database holds.
  pub record IsOvertaken (s : Racing V) (l : Load V) (g : String → V) (name : String) : Type 0 where
    pub written : Racing V
    pub write : Step s written
    pub holds : written.source ≡ g
    pub invalidated : (get written.now l.key name written.cache).0 ≡ none
    pub stored : Racing V
    pub store_late : Step written stored
    pub still : stored.source ≡ g
    pub now : stored.now ≡ s.now
    pub read : (get stored.now l.key name stored.cache).0 ≡ some l.value
    pub stale : l.value ≢ stored.source l.key

  -- Wherever a load of a key is under way, for no longer than the longest load, and a write changes
  -- the value of that key, the write can be lost on the cache, if the time to live is positive: the
  -- write invalidates the key, the load then stores what it read before, and the key is read with
  -- that value, although the database holds another.
  pub read-IsOvertaken :
      (s : Racing V) (l : Load V) (g : String → V) (name : String)
      → In l s.loads
      → s.now ≤ l.started + longest
      → l.value ≢ g l.key
      → 0 < ttl
      → IsOvertaken s l g name
  unfolding visible
  read-IsOvertaken s l g name at soon other lives =
      let key = l.key in
      let emptied : Cache V = del key s.cache in
      record {
        written = _;
        write = write_key key g;
        holds = refl;
        invalidated =
            get_value s.now key name emptied
            ∙ visible-del s.now key key s.cache
            ∙ ground (arith, eq_refl key);
        stored = _;
        store_late = store l at soon;
        still = refl;
        now = refl;
        read =
            get_value s.now key name (set s.now key l.value ttl emptied)
            ∙ visible-set s.now s.now ttl key key l.value emptied
            ∙ ground (arith, eq_refl key);
        stale = other;
      }
