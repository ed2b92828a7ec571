-- ===== src/Tests/Races.antt =====
-- The cache where a write falls between a load and its store, at concrete values.
use iam_access_control_servi.Prelude.{ℕ, ◌+◌, ◌<◌, String, ◌≡◌, refl, some, [], ◌∷◌, In, inl, arith}
use iam_access_control_servi.Cache.{del, get, map_delete, map_get, map_set, set}
use iam_access_control_servi.Cache.Staleness.{
  IsOvertaken, Load, Moment, Racing, Reach, Step, read_bounded, read-IsOvertaken, started,
}

abbrev sevens : String → ℕ
sevens key = 7

abbrev eights : String → ℕ
eights key = 8

abbrev loaded : Load ℕ
loaded = record { key = "pol:t"; value = 7; started = 10 }

-- A load of the sevens is under way.
abbrev loading : Racing ℕ
loading = record {
  now = 10;
  source = sevens;
  cache = record { store = []; recorded = [] };
  loads = loaded ∷ [];
  past = record { time = 10; source = sevens } ∷ [];
}

read-IsOvertaken_example : IsOvertaken 50 5 loading loaded eights "policies"
read-IsOvertaken_example =
    read-IsOvertaken 50 5 loading loaded eights "policies" (inl refl) (omega arith) (omega arith)
      (omega arith)

-- A load, a write with its invalidation, and 3 ms later the store of what was loaded.
abbrev after_store : Racing ℕ
after_store = record {
  now = 13;
  source = eights;
  cache = set 13 "pol:t" 7 50 (del "pol:t" (record { store = []; recorded = [] }));
  loads = loaded ∷ [];
  past =
      record { time = 13; source = eights }
      ∷ record { time = 10; source = eights }
      ∷ record { time = 10; source = sevens }
      ∷ [];
}

overtaken : Reach 50 5 (started 50 5 10 sevens) after_store
overtaken =
    Reach.next
      (Reach.next
        (Reach.next (Reach.next Reach.here (Step.load "pol:t")) (Step.write_key "pol:t" eights))
        (Step.wait 13 (omega arith)))
      (Step.store loaded (inl refl) (omega arith))

old_read : (get 13 "pol:t" "policies" after_store.cache).0 ≡ some 7
unfolding get set del map_get map_set map_delete
old_read = refl

read_bounded_example :
    (m : Moment ℕ) × In m after_store.past × (m.source "pol:t" ≡ 7) × (13 < m.time + 5 + 50)
read_bounded_example = read_bounded 50 5 10 sevens "pol:t" "policies" 7 overtaken old_read
