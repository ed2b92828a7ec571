-- ===== src/Hierarchy/AddNode.antt =====
-- `addNode` registers a user and changes no relation.
use iam_access_control_servi.Prelude.{
  ℕ, zero, suc, String, ◌≡◌, ◌⊎◌, inl, inr, refl, sym, ap, subst, ◌∙◌, false, some, none, [], ◌∷◌,
  some-inj, arith, In, Option-cases,
}
use iam_access_control_servi.Outcome.{ok}
use iam_access_control_servi.Domain.Models.{ClosureRow}
use iam_access_control_servi.Hierarchy.{closure_row, where_pair, add_node}
use iam_access_control_servi.Hierarchy.Store.{HierarchyDb, same_key}
use iam_access_control_servi.Hierarchy.Forest.{Managers, up, up-first}
use iam_access_control_servi.Hierarchy.Nodes.{HasRow, IsNode, Represents, up_unique}
use iam_access_control_servi.Hierarchy.Joins.{where_pair_iff}

module _ {Db : Type 0} (prisma : HierarchyDb Db) (t u : String) {db db' : Db} {mgr : Managers}
    (rep : Represents prisma t db mgr) (added : add_node prisma t u db ≡ ok db') where
  created : prisma.create_many (closure_row t u u 0 ∷ []) db ≡ ok db'
  unfolding add_node
  created = added

  kept : (a d : String) (k : ℕ) → HasRow prisma t db a d k → HasRow prisma t db' a d k
  kept a d k h =
      prisma.create_many_old (closure_row t u u 0 ∷ []) db db' (closure_row t a d k) created h

  only :
      (a d : String) (k : ℕ)
      → HasRow prisma t db' a d k
      → HasRow prisma t db a d k ⊎ ((u ≡ a) × (u ≡ d) × (0 ≡ k))
  only a d k h =
      elim (prisma.create_many_only (closure_row t u u 0 ∷ []) db db' (closure_row t a d k) created
        h) [
          | inl old ↦ inl old
          | inr (inl e) ↦ inr (
            ap (λ (r : ClosureRow). r.ancestor_user_id) e,
            ap (λ (r : ClosureRow). r.descendant_user_id) e,
            ap (λ (r : ClosureRow). r.depth) e,
          )
          | inr (inr none_left) ↦ absurd none_left
        ]

  self_depth : (k : ℕ) → HasRow prisma t db u u k → up mgr k u ≡ some u → k ≡ 0
  self_depth k row loop = up_unique prisma t rep k 0 u u loop (unfold up in refl)

  free :
      (s : ClosureRow)
      → In s (prisma.rows db)
      → prisma.find_first (where_pair t u u) db ≡ none
      → same_key s (closure_row t u u 0) ≡ false
  free s at missing = ground (arith, prisma.find_first_none (where_pair t u u) db s missing at)

  self_way : (a d : String) (k : ℕ) → u ≡ a → u ≡ d → 0 ≡ k → up mgr k d ≡ some a
  unfolding up
  self_way a d k same_a same_d zero_k =
      subst (λ n. up mgr n d ≡ some a) zero_k (ap some (sym same_d ∙ same_a))

  complete_new :
      (a d : String) (k : ℕ)
      → IsNode prisma t db' d
      → up mgr k d ≡ some a
      → HasRow prisma t db' a d k
  unfolding up
  complete_new a d zero node way = subst (λ b. HasRow prisma t db' b d 0) (some-inj way) node
  complete_new a d (suc k) node way =
      let (m, edge, rest) = up-first mgr k d a way in
      kept a d (suc k) (rep.complete a d (suc k) (rep.edge_nodes d m edge).0 way)

  -- The user is registered afterwards: its self-row was there, or its key was free.
  pub fresh-IsNode : IsNode prisma t db' u
  fresh-IsNode = elim (Option-cases (prisma.find_first (where_pair t u u) db)) [
    | inr (r, found) ↦
        let (row, test) = prisma.find_first_some (where_pair t u u) db r found in
        let shaped = subst (λ s. In s (prisma.rows db)) ((where_pair_iff t u u r).0 test) row in
        let loop = rep.sound u u r.depth shaped in
        let flat : r.depth ≡ 0 = self_depth r.depth shaped loop in
        kept u u 0 (subst (HasRow prisma t db u u) flat shaped)
    | inl missing ↦
        prisma.create_many_new (closure_row t u u 0 ∷ []) db db' (closure_row t u u 0) created
          (inl refl) (λ s at. free s at missing)
          (λ s at same. elim at [ inl e ↦ sym e | inr h ↦ absurd h ])
  ]

  pub add_node-Represents : Represents prisma t db' mgr
  add_node-Represents = record {
    sound = λ a d k h. elim (only a d k h) [
      | inl old ↦ rep.sound a d k old
      | inr (same_a, same_d, zero_k) ↦ self_way a d k same_a same_d zero_k
    ];
    complete = λ a d k node way. elim (only d d 0 node) [
      | inl old ↦ kept a d k (rep.complete a d k old way)
      | inr (same, same', flat) ↦ complete_new a d k node way
    ];
    edge_nodes = λ d m e.
        let (node_d, node_m) = rep.edge_nodes d m e in (kept d d 0 node_d, kept m m 0 node_m);
  }
