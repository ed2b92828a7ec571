-- ===== src/Cache/Steps.antt =====
-- The cache in a running service: reads, writes with their invalidation, and time, as steps.
use text.Mathlib.Text.{starts_with}
use iam_access_control_servi.Prelude.{ℕ, ◌≤◌, String, ◌≡◌, ◌≢◌, false}
use iam_access_control_servi.Cache.{Cache, del, del_by_prefix, wrap}
use iam_access_control_servi.Cache.Coherence.{
  Coherent, Coherent-later, del_by_prefix-Coherent, del-Coherent, wrap-Coherent,
}

-- `source` gives what the database would return for each key.
pub record Service (V : Type 0) : Type 0 where
  pub now : ℕ
  pub source : String → V
  pub cache : Cache V

module _ {V : Type 0} where
  -- A step of a service in which no write falls between a load and the store of its value.
  pub data Step (s : Service V) : Service V → Type 0 where
    wait : (later : ℕ) → s.now ≤ later → Step s (record s { now = later })
    read :
        (later : ℕ) (key name : String) (ttl : ℕ)
        → s.now ≤ later
        → Step s (record s {
          now = later;
          cache = (wrap s.now later key ttl (s.source key) name s.cache).1;
        })
    write_prefix :
        (prefix : String) (g : String → V)
        → ((j : String) → starts_with j prefix ≡ false → s.source j ≡ g j)
        → Step s (record s { source = g; cache = del_by_prefix prefix s.cache })
    write_key :
        (key : String) (g : String → V)
        → ((j : String) → key ≢ j → s.source j ≡ g j)
        → Step s (record s { source = g; cache = del key s.cache })

  pub data Reach (s : Service V) : Service V → Type 0 where
    here : Reach s s
    next : {t u : Service V} → Reach s t → Step t u → Reach s u

  abbrev pub IsCoherent : Service V → Type 0
  IsCoherent s = Coherent s.now s.source s.cache

  Step-IsCoherent : {s t : Service V} → Step s t → IsCoherent s → IsCoherent t
  Step-IsCoherent (wait later h) k = Coherent-later h k
  Step-IsCoherent {s} (read later key name ttl h) k = (wrap-Coherent later key name ttl h k).1
  Step-IsCoherent (write_prefix prefix g same) k = del_by_prefix-Coherent prefix same k
  Step-IsCoherent (write_key key g same) k = del-Coherent key same k

  Reach-IsCoherent : {s t : Service V} → IsCoherent s → Reach s t → IsCoherent t
  Reach-IsCoherent k here = k
  Reach-IsCoherent k (next r step) = Step-IsCoherent step (Reach-IsCoherent k r)

  -- After any steps from a coherent service, a read through `wrap` returns what the database
  -- holds at that moment.
  pub read_current :
      {s t : Service V} (later : ℕ) (key name : String) (ttl : ℕ)
      → IsCoherent s
      → Reach s t
      → t.now ≤ later
      → (wrap t.now later key ttl (t.source key) name t.cache).0 ≡ t.source key
  read_current later key name ttl k r h =
      (wrap-Coherent later key name ttl h (Reach-IsCoherent k r)).0
