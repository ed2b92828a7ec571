-- ===== src/Tests/Caching.antt =====
-- The cache on small contents: uses of its theorems.
use iam_access_control_servi.Prelude.{ℕ, String, ◌≡◌, false, some, [], arith, if◌then◌else◌}
use text.Mathlib.Text.{starts_with}
use iam_access_control_servi.Cache.{Cache, del_by_prefix, map_get, wrap}
use iam_access_control_servi.Cache.Laws.{visible}
use iam_access_control_servi.Cache.Coherence.{Coherent}
use iam_access_control_servi.Cache.Steps.{Reach, Service, Step, read_current}

abbrev fresh : Cache ℕ
fresh = record { store = []; recorded = [] }

abbrev sevens : String → ℕ
sevens key = 7

unseen : (key : String) (v : ℕ) → visible 10 fresh key ≡ some v → v ≡ 7
unfolding visible map_get
unseen key v e = cc

Coherent-fresh : Coherent 10 sevens fresh
Coherent-fresh = record { at = unseen }

abbrev service : Service ℕ
service = record { now = 10; source = sevens; cache = fresh }

abbrev eights : String → ℕ
eights key = if starts_with key "perms:t:" then 8 else 7

eights_lem : (j : String) → starts_with j "perms:t:" ≡ false → sevens j ≡ eights j
eights_lem j other = ground arith

-- A read that fills the cache, then a write with its invalidation.
abbrev after_read : Service ℕ
after_read = record service {
  now = 12;
  cache = (wrap 10 12 "perms:t:u" 50 7 "permissions" fresh).1;
}

abbrev after_write : Service ℕ
after_write = record after_read {
  source = eights;
  cache = del_by_prefix "perms:t:" after_read.cache;
}

changed : Reach service after_write
changed =
    Reach.next (Reach.next Reach.here (Step.read 12 "perms:t:u" "permissions" 50 (omega arith)))
      (Step.write_prefix "perms:t:" eights eights_lem)

read_current_example :
    (wrap 12 13 "perms:t:u" 50 (eights "perms:t:u") "permissions" after_write.cache).0
    ≡ eights "perms:t:u"
read_current_example =
    read_current 13 "perms:t:u" "permissions" 50 Coherent-fresh changed (omega arith)
