-- ===== src/Hierarchy/Reparent.antt =====
-- What the detachment and the cross-join of `assignManager` do to the rows, in terms of the
-- manager edges before it.
use iam_access_control_servi.Prelude.{
  ℕ, zero, suc, ◌<◌, String, ◌≡◌, ◌≢◌, ◌↔◌, inl, inr, refl, sym, ap, subst, ◌∙◌, true, false, List,
  [], ◌∷◌, map, arith, some, some-inj, eq_iff, eq_refl, In, In-map, includes_iff, is_empty,
  Bool-cases, text_instance,
}
use iam_access_control_servi.Domain.Models.{ClosureRow}
use iam_access_control_servi.Hierarchy.{
  closure_row, where_ancestor, where_old_ancestor, where_detached, detach,
}
use iam_access_control_servi.Hierarchy.Store.{HierarchyDb}
use iam_access_control_servi.Hierarchy.Forest.{Managers, up}
use iam_access_control_servi.Hierarchy.Nodes.{HasRow, IsNode, Represents, acyclic, row_nodes}
use iam_access_control_servi.Hierarchy.Joins.{where_ancestor_iff}

-- `d` is the user or below; `a` is properly above the user.
abbrev pub IsBelow : Managers → String → String → Type 0
IsBelow mgr u d = (j : ℕ) × (up mgr j d ≡ some u)

abbrev pub IsAbove : Managers → String → String → Type 0
IsAbove mgr u a = (i : ℕ) × (0 < i) × (up mgr i u ≡ some a)

where_old_ancestor_iff :
    (t u : String) (r : ClosureRow)
    → (where_old_ancestor t u r ≡ true)
      ↔ ((r ≡ closure_row t r.ancestor_user_id u r.depth) × (r.ancestor_user_id ≢ u))
where_old_ancestor_iff t u r =
    ground (arith, eq_iff r.tenant_id t, eq_iff r.descendant_user_id u, eq_iff r.ancestor_user_id u)

climbs : (mgr : Managers) (k : ℕ) (u a : String) → up mgr k u ≡ some a → a ≢ u → 0 < k
unfolding up
climbs mgr zero u a e other = absurd (other (sym (some-inj e)))
climbs mgr (suc k) u a e other = omega arith

none-In_empty : (a : String) (xs : List String) → is_empty xs ≡ true → ¬ In a xs
none-In_empty a [] e h = h
none-In_empty a (x ∷ xs) e h = cc

module _ {Db : Type 0} (prisma : HierarchyDb Db) (t u : String) {db : Db} {mgr : Managers}
    (rep : Represents prisma t db mgr) (node : IsNode prisma t db u) where
  abbrev subtree_ids : List String
  subtree_ids =
      map (λ (r : ClosureRow). r.descendant_user_id) (prisma.find_many (where_ancestor t u) db)

  abbrev old_ancestor_ids : List String
  old_ancestor_ids =
      map (λ (r : ClosureRow). r.ancestor_user_id) (prisma.find_many (where_old_ancestor t u) db)

  IsBelow-iff : (d : String) → IsNode prisma t db d → In d subtree_ids ↔ IsBelow mgr u d
  IsBelow-iff d node_d = (
    λ h.
        let (r, at, e) = (In-map (λ (r : ClosureRow). r.descendant_user_id) d _).0 h in
        let (row, test) = (prisma.find_many_iff (where_ancestor t u) db r).0 at in
        let shape = (where_ancestor_iff t u r).0 test ∙ ap (λ x. closure_row t u x r.depth) e in
        (r.depth, rep.sound u d r.depth (subst (λ x. In x (prisma.rows db)) shape row)),
    λ (j, e).
        let r = closure_row t u d j in
        (In-map (λ (r : ClosureRow). r.descendant_user_id) d _).1 (
          r,
          (prisma.find_many_iff (where_ancestor t u) db r).1
              (rep.complete u d j node_d e, (where_ancestor_iff t u r).1 refl),
          refl,
        ),
  )

  IsAbove-iff : (a : String) → In a old_ancestor_ids ↔ IsAbove mgr u a
  IsAbove-iff a = (
    λ h.
        let (r, at, e) = (In-map (λ (r : ClosureRow). r.ancestor_user_id) a _).0 h in
        let (row, test) = (prisma.find_many_iff (where_old_ancestor t u) db r).0 at in
        let (eq, other) = (where_old_ancestor_iff t u r).0 test in
        let shape = eq ∙ ap (λ x. closure_row t x u r.depth) e in
        let way = rep.sound a u r.depth (subst (λ x. In x (prisma.rows db)) shape row) in
        (r.depth, climbs mgr r.depth u a way (λ same. other (e ∙ same)), way),
    λ (i, pos, e).
        let r = closure_row t a u i in
        (In-map (λ (r : ClosureRow). r.ancestor_user_id) a _).1 (
          r,
          (prisma.find_many_iff (where_old_ancestor t u) db r).1 (
            rep.complete a u i node e,
            (where_old_ancestor_iff t u r).1
                (refl, λ same. acyclic prisma t rep i u pos (e ∙ ap some same)),
          ),
          refl,
        ),
  )

  detached_iff :
      (a d : String) (k : ℕ)
      → (where_detached t subtree_ids old_ancestor_ids (closure_row t a d k) ≡ true)
        ↔ (In d subtree_ids × In a old_ancestor_ids)
  detached_iff a d k =
      ground (arith, eq_refl t, includes_iff subtree_ids d, includes_iff old_ancestor_ids a)

  detach_empty : is_empty old_ancestor_ids ≡ true → detach prisma t u db ≡ db
  unfolding detach
  detach_empty e = rw e

  detach_nonempty :
      is_empty old_ancestor_ids ≡ false
      → detach prisma t u db ≡ prisma.delete_many (where_detached t subtree_ids old_ancestor_ids) db
  unfolding detach
  detach_nonempty e = rw e

  -- The detachment removes the rows that join somebody at or below the user with somebody
  -- properly above, and no others.
  pub detach_iff :
      (a d : String) (k : ℕ)
      → HasRow prisma t (detach prisma t u db) a d k
        ↔ (HasRow prisma t db a d k × ¬ (IsBelow mgr u d × IsAbove mgr u a))
  detach_iff a d k =
      let r = closure_row t a d k in
      elim (Bool-cases (is_empty old_ancestor_ids)) [
        | inl empty ↦ rw (detach_empty empty) (
          λ h. (
            h,
            λ (below, above). none-In_empty a old_ancestor_ids empty ((IsAbove-iff a).1 above),
          ),
          λ h. h.0,
        )
        | inr full ↦
            let deleted =
              prisma.delete_many_iff (where_detached t subtree_ids old_ancestor_ids) db r in
            rw (detach_nonempty full) (
              λ h.
                  let (row, kept) = deleted.0 h in
                  let node_d = (row_nodes prisma t rep a d k row).1 in
                  (
                    row,
                    λ (below, above). cc (
                      kept,
                      (detached_iff a d k).1
                          ((IsBelow-iff d node_d).1 below, (IsAbove-iff a).1 above),
                    ),
                  ),
              λ (row, apart).
                  let node_d = (row_nodes prisma t rep a d k row).1 in
                  deleted.1 (
                    row,
                    elim (Bool-cases (where_detached t subtree_ids old_ancestor_ids r)) [
                      | inl gone ↦
                          let (at_d, at_a) = (detached_iff a d k).0 gone in
                          absurd (apart ((IsBelow-iff d node_d).0 at_d, (IsAbove-iff a).0 at_a))
                      | inr kept ↦ kept
                    ],
                  ),
            )
      ]
