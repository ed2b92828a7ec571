-- ===== src/Hierarchy/NewRows.antt =====
-- The rows of the cross-join of `assignManager`: one for each user at or above the new manager
-- and each user at or below the user.
use iam_access_control_servi.Prelude.{
  ℕ, ◌+◌, String, ◌≡◌, refl, sym, ap, subst, ◌∙◌, some, List, In,
}
use iam_access_control_servi.Domain.Models.{ClosureRow}
use iam_access_control_servi.Hierarchy.{closure_row, where_ancestor, where_descendant, new_rows}
use iam_access_control_servi.Hierarchy.Store.{HierarchyDb}
use iam_access_control_servi.Hierarchy.Forest.{Managers, up}
use iam_access_control_servi.Hierarchy.Nodes.{IsNode, Represents, row_nodes}
use iam_access_control_servi.Hierarchy.Joins.{
  In-cross_join, where_ancestor_iff, where_descendant_iff,
}

module _ {Db : Type 0} (prisma : HierarchyDb Db) (t u m : String) {db : Db} {mgr : Managers}
    (rep : Represents prisma t db mgr) (node_m : IsNode prisma t db m) where
  abbrev above_rows : List ClosureRow
  above_rows = prisma.find_many (where_descendant t m) db

  abbrev below_rows : List ClosureRow
  below_rows = prisma.find_many (where_ancestor t u) db

  -- A new row: the ancestor is ka steps above the manager, the descendant kd below the user.
  pub record IsJoined (a d : String) (k : ℕ) : Type 0 where
    pub ka : ℕ
    pub kd : ℕ
    pub above : up mgr ka m ≡ some a
    pub below : up mgr kd d ≡ some u
    pub node : IsNode prisma t db d
    pub depth : k ≡ ka + kd + 1

  pub new_rows_tenant :
      (r : ClosureRow)
      → In r (new_rows prisma t u m db)
      → r ≡ closure_row t r.ancestor_user_id r.descendant_user_id r.depth
  unfolding new_rows
  new_rows_tenant r h =
      let (x, at_x, (y, at_y, e)) = (In-cross_join t r above_rows below_rows).0 h in
      subst (λ (s : ClosureRow). s ≡ closure_row t s.ancestor_user_id s.descendant_user_id s.depth)
        e refl

  pub new_rows_sound :
      (a d : String) (k : ℕ) → In (closure_row t a d k) (new_rows prisma t u m db) → IsJoined a d k
  unfolding new_rows
  new_rows_sound a d k h =
      let (x, at_x, (y, at_y, e)) =
        (In-cross_join t (closure_row t a d k) above_rows below_rows).0 h in
      let (row_x, test_x) = (prisma.find_many_iff (where_descendant t m) db x).0 at_x in
      let (row_y, test_y) = (prisma.find_many_iff (where_ancestor t u) db y).0 at_y in
      let here_x =
        subst (λ s. In s (prisma.rows db)) ((where_descendant_iff t m x).0 test_x) row_x in
      let here_y = subst (λ s. In s (prisma.rows db)) ((where_ancestor_iff t u y).0 test_y) row_y in
      let same_a = ap (λ (s : ClosureRow). s.ancestor_user_id) e in
      let same_d = ap (λ (s : ClosureRow). s.descendant_user_id) e in
      record {
        ka = x.depth;
        kd = y.depth;
        above = rep.sound x.ancestor_user_id m x.depth here_x ∙ ap some same_a;
        below =
            subst (λ b. up mgr y.depth b ≡ some u) same_d
              (rep.sound u y.descendant_user_id y.depth here_y);
        node =
            subst (IsNode prisma t db) same_d
              (row_nodes prisma t rep u y.descendant_user_id y.depth here_y).1;
        depth = sym (ap (λ (s : ClosureRow). s.depth) e);
      }

  pub new_rows_complete :
      (a d : String) (k : ℕ) → IsJoined a d k → In (closure_row t a d k) (new_rows prisma t u m db)
  unfolding new_rows
  new_rows_complete a d k j =
      let x = closure_row t a m j.ka in
      let y = closure_row t u d j.kd in
      (In-cross_join t (closure_row t a d k) above_rows below_rows).1 (
        x,
        (prisma.find_many_iff (where_descendant t m) db x).1
            (rep.complete a m j.ka node_m j.above, (where_descendant_iff t m x).1 refl),
        (
          y,
          (prisma.find_many_iff (where_ancestor t u) db y).1
              (rep.complete u d j.kd j.node j.below, (where_ancestor_iff t u y).1 refl),
          ap (closure_row t a d) (sym j.depth),
        ),
      )
