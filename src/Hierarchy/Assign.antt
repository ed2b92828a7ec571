-- ===== src/Hierarchy/Assign.antt =====
-- `assignManager` against the abstract hierarchy: it succeeds exactly where the new edge makes no
-- cycle, and then the table represents the hierarchy with that edge.
use iam_access_control_servi.Prelude.{
  ℕ, String, ◌≡◌, ◌≢◌, inl, inr, refl, sym, subst, false, some, none, [], ◌∷◌, List, arith, str_eq,
  In, is_empty, Bool-cases, Option-cases,
}
use iam_access_control_servi.Outcome.{ok, >>=-eq-ok, ok-inj}
use iam_access_control_servi.Domain.Models.{ClosureRow}
use iam_access_control_servi.Hierarchy.{
  closure_row, where_pair, add_node, detach, new_rows, insert_rows, attach, check_cycle,
  assign_manager,
}
use iam_access_control_servi.Hierarchy.Store.{HierarchyDb}
use iam_access_control_servi.Hierarchy.Forest.{Managers, up, reassign}
use iam_access_control_servi.Hierarchy.Nodes.{IsNode, Represents}
use iam_access_control_servi.Hierarchy.Joins.{where_pair_iff}
use iam_access_control_servi.Hierarchy.NewRows.{new_rows_complete}
use iam_access_control_servi.Hierarchy.AddNode.{fresh-IsNode, add_node-Represents}
use iam_access_control_servi.Hierarchy.Attach.{attached-Represents}

nonempty : (r : ClosureRow) (rs : List ClosureRow) → In r rs → is_empty rs ≡ false
nonempty r [] h = absurd h
nonempty r (x ∷ rs) h = refl

module _ {Db : Type 0} (prisma : HierarchyDb Db) (t : String) where
  Represents-rows :
      {db db' : Db} {mgr : Managers}
      → prisma.rows db' ≡ prisma.rows db
      → Represents prisma t db mgr
      → Represents prisma t db' mgr
  Represents-rows {db} {db'} e rep = record {
    sound = λ a d k h. rep.sound a d k (subst (In (closure_row t a d k)) e h);
    complete = λ a d k node way.
        subst (In (closure_row t a d k)) (sym e)
          (rep.complete a d k (subst (In (closure_row t d d 0)) e node) way);
    edge_nodes = λ d m edge.
        let (node_d, node_m) = rep.edge_nodes d m edge in
        (
          subst (In (closure_row t d d 0)) (sym e) node_d,
          subst (In (closure_row t m m 0)) (sym e) node_m,
        );
  }

  pub add_node_keeps :
      (db db' : Db) (u : String)
      → add_node prisma t u db ≡ ok db'
      → (d : String) → IsNode prisma t db d
      → IsNode prisma t db' d
  unfolding add_node
  add_node_keeps db db' u e d h =
      prisma.create_many_old (closure_row t u u 0 ∷ []) db db' (closure_row t d d 0) e h

  module _ (u m : String) {db : Db} {mgr : Managers} (rep : Represents prisma t db mgr)
      (node_u : IsNode prisma t db u) (node_m : IsNode prisma t db m) where
    pub some_rows : is_empty (new_rows prisma t u m db) ≡ false
    some_rows = nonempty (closure_row t m u 1) (new_rows prisma t u m db) (
        new_rows_complete prisma t u m rep node_m m u 1 (record {
          ka = 0;
          kd = 0;
          above = unfold up in refl;
          below = unfold up in refl;
          node = node_u;
          depth = omega arith;
        }))

    attach-Represents :
        (db' : Db)
        → ((k : ℕ) → up mgr k m ≢ some u)
        → attach prisma t u m db ≡ ok db'
        → Represents prisma t db' (reassign u m mgr)
    unfolding attach
    attach-Represents db' no_cycle e =
        let (joined, inserted, set) =
          >>=-eq-ok (insert_rows prisma (new_rows prisma t u m db) (detach prisma t u db)) _ e in
        let created = rw some_rows at inserted in
        subst (λ s. Represents prisma t s (reassign u m mgr)) (ok-inj set)
          (Represents-rows (prisma.update_manager_rows _ _ joined)
            (attached-Represents prisma t u m rep node_u node_m no_cycle created))

    -- The cycle check finds a row exactly when the user is at or above the manager.
    no_row-no_way : prisma.find_first (where_pair t u m) db ≡ none → (k : ℕ) → up mgr k m ≢ some u
    no_row-no_way missing k way =
        let r = closure_row t u m k in
        cc (
          prisma.find_first_none (where_pair t u m) db r missing (rep.complete u m k node_m way),
          (where_pair_iff t u m r).1 refl,
        )

    check_cycle-Represents :
        (db' : Db)
        → check_cycle prisma t u m db ≡ ok db'
        → Represents prisma t db' (reassign u m mgr) × ((k : ℕ) → up mgr k m ≢ some u)
    unfolding check_cycle
    check_cycle-Represents db' e = elim (Option-cases (prisma.find_first (where_pair t u m) db)) [
      | inr (r, found) ↦ cc (rw (found, check_cycle) at e)
      | inl missing ↦
          let no_cycle = no_row-no_way missing in
          (attach-Represents db' no_cycle (rw (missing, check_cycle) at e), no_cycle)
    ]

  -- If `assignManager` succeeds on a table that represents a hierarchy, the user is not the
  -- manager and is nowhere above the manager, and the new table represents the hierarchy in which
  -- the manager is the user's.
  pub assign_manager-Represents :
      (u m : String) (db db' : Db) (mgr : Managers)
      → Represents prisma t db mgr
      → assign_manager prisma t u m db ≡ ok db'
      → Represents prisma t db' (reassign u m mgr) × ((k : ℕ) → up mgr k m ≢ some u)
  unfolding assign_manager
  assign_manager-Represents u m db db' mgr rep e = elim (Bool-cases (str_eq u m)) [
    | inl same ↦ cc (rw same at e)
    | inr other ↦
        let (first, added_u, e') = >>=-eq-ok (add_node prisma t u db) _ (rw other at e) in
        let (second, added_m, e'') = >>=-eq-ok (add_node prisma t m first) _ e' in
        let rep_1 = add_node-Represents prisma t u rep added_u in
        let rep_2 = add_node-Represents prisma t m rep_1 added_m in
        check_cycle-Represents u m rep_2
          (add_node_keeps first second m added_m u (fresh-IsNode prisma t u rep added_u))
          (fresh-IsNode prisma t m rep_1 added_m) db' e''
  ]
