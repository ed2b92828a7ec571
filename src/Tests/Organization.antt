-- ===== src/Tests/Organization.antt =====
-- The hierarchy service over the database in memory.
use iam_access_control_servi.Hierarchy.Listings.{
  organization_hierarchy, organization_hierarchy-IsListing, IsListing,
}
use iam_access_control_servi.Hierarchy.Memory.Sorted.{by_depth}
use iam_access_control_servi.Prelude.{In}
use iam_access_control_servi.Prelude.{
  ℕ, zero, suc, String, ◌≡◌, ◌≢◌, refl, none, some, List, [], ◌∷◌, eq_iff, sym, some-inj, inl, inr,
}
use iam_access_control_servi.Outcome.{Outcome, ok, throw, bad_request, ◌>>=◌}
use iam_access_control_servi.Domain.Enums.{RelationshipType}
use iam_access_control_servi.Hierarchy.{assign_manager, get_relationship, direct_manager_id}
use iam_access_control_servi.Hierarchy.Store.{HasUser}
use iam_access_control_servi.Hierarchy.Forest.{Managers, up, reassign}
use iam_access_control_servi.Hierarchy.Nodes.{Represents}
use iam_access_control_servi.Hierarchy.Assign.{assign_manager-Represents}
use iam_access_control_servi.Hierarchy.Errors.{assign_manager_total, assign_manager_cycle}
use iam_access_control_servi.Hierarchy.Relations.{IsRelated, get_relationship_sound}
use iam_access_control_servi.Hierarchy.Memory.{MemoryDb, memory}
use iam_access_control_servi.Tests.Samples.{hired, user}

-- ann manages bob, bob manages cyd.
abbrev organized : Outcome MemoryDb
organized = do
  first ← assign_manager memory "t" "cyd" "bob" hired
  assign_manager memory "t" "bob" "ann" first

relations : Outcome (List RelationshipType)
relations = do
  db ← organized
  ok (
      get_relationship memory "t" "ann" "cyd" db
      ∷ get_relationship memory "t" "bob" "cyd" db
      ∷ get_relationship memory "t" "cyd" "ann" db
      ∷ get_relationship memory "t" "cyd" "cyd" db
      ∷ [])

relations_test :
    relations
    ≡ ok (
        RelationshipType.ancestor ∷ RelationshipType.direct_manager ∷ RelationshipType.no_relation
        ∷ RelationshipType.self ∷ [])
unfolding relations assign_manager memory get_relationship direct_manager_id
relations_test = refl

abbrev nobody : Managers
nobody d = none

Represents-hired : Represents memory "t" hired nobody
unfolding memory
Represents-hired = record {
  sound = λ a d k h. absurd h;
  complete = λ a d k h. absurd h;
  edge_nodes = λ d m e. cc;
}

ann : HasUser "ann" (memory.users hired)
unfolding memory
ann = (user "ann", inl refl, refl)

bob : HasUser "bob" (memory.users hired)
unfolding memory
bob = (user "bob", inr (inl refl), refl)

abbrev name_b : String
name_b = "bob"

abbrev name_a : String
name_a = "ann"

different : name_b ≢ name_a
different e = cc ((eq_iff "bob" "ann").1 e)

-- Without managers nobody is above ann but ann.
nobody_above : (k : ℕ) → up nobody k "ann" ≢ some "bob"
unfolding up
nobody_above zero e = different (sym (some-inj e))
nobody_above (suc k) e = cc e

t_hired : In "t" (memory.tenants hired)
unfolding memory
t_hired = inl refl

assign_manager_total_example :
    (db' : MemoryDb) × (assign_manager memory "t" "bob" "ann" hired ≡ ok db')
    × Represents memory "t" db' (reassign "bob" "ann" nobody)
assign_manager_total_example =
    assign_manager_total memory "t" "bob" "ann" hired nobody Represents-hired different t_hired bob
      ann nobody_above

abbrev or_hired : Outcome MemoryDb → MemoryDb
or_hired (ok db) = db
or_hired (throw e) = hired

-- ann manages bob.
abbrev attached : MemoryDb
attached = or_hired (assign_manager memory "t" "bob" "ann" hired)

attached_eq : assign_manager memory "t" "bob" "ann" hired ≡ ok attached
unfolding assign_manager memory
attached_eq = refl

assign_manager-Represents_example :
    Represents memory "t" attached (reassign "bob" "ann" nobody)
    × ((k : ℕ) → up nobody k "ann" ≢ some "bob")
assign_manager-Represents_example =
    assign_manager-Represents memory "t" "bob" "ann" hired attached nobody Represents-hired
      attached_eq

abbrev bob_of_ann : Managers
bob_of_ann = reassign "bob" "ann" nobody

Represents-attached : Represents memory "t" attached bob_of_ann
Represents-attached =
    (assign_manager-Represents memory "t" "bob" "ann" hired attached nobody Represents-hired
      attached_eq).0

t_attached : In "t" (memory.tenants attached)
unfolding assign_manager memory
t_attached = inl refl

ann_attached : HasUser "ann" (memory.users attached)
unfolding assign_manager memory
ann_attached = (_, inl refl, refl)

bob_attached : HasUser "bob" (memory.users attached)
unfolding assign_manager memory
bob_attached = (_, inr (inl refl), refl)

ann_above : up bob_of_ann 1 "bob" ≡ some "ann"
unfolding up reassign
ann_above = refl

assign_manager_cycle_example :
    assign_manager memory "t" "ann" "bob" attached
    ≡ throw (bad_request "Assigning this manager would create a cycle")
assign_manager_cycle_example =
    assign_manager_cycle memory "t" "ann" "bob" attached bob_of_ann Represents-attached
      (λ e. different (sym e)) t_attached ann_attached bob_attached 1 ann_above

get_relationship_sound_example :
    IsRelated bob_of_ann "ann" "bob" (get_relationship memory "t" "ann" "bob" attached)
get_relationship_sound_example = get_relationship_sound memory "t" Represents-attached "ann" "bob"

-- bob has ann above and cyd below.
listing_test : organization_hierarchy memory by_depth "t" "bob" (or_hired organized) ≡ record {
  user_id = "bob";
  ancestors = record { user_id = "ann"; depth = 1 } ∷ [];
  descendants = record { user_id = "cyd"; depth = 1 } ∷ [];
}
unfolding organization_hierarchy assign_manager memory by_depth
listing_test = refl

organization_hierarchy-IsListing_example :
    IsListing bob_of_ann "bob" (organization_hierarchy memory by_depth "t" "bob" attached)
organization_hierarchy-IsListing_example =
    organization_hierarchy-IsListing memory by_depth "t" Represents-attached "bob"
