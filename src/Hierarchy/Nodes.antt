-- ===== src/Hierarchy/Nodes.antt =====
-- When the closure table of a tenant represents a hierarchy, and what follows.
use iam_access_control_servi.Prelude.{
  ℕ, zero, suc, ◌<◌, String, ◌≡◌, ◌≢◌, inl, inr, refl, ap, sym, subst, ◌∙◌, none, some, some-inj,
  Option-cases, arith, eq_refl, In,
}
use iam_access_control_servi.Domain.Models.{ClosureRow}
use iam_access_control_servi.Hierarchy.{closure_row}
use iam_access_control_servi.Hierarchy.Store.{HierarchyDb}
use iam_access_control_servi.Hierarchy.Forest.{Managers, up, up-first, up-suc-none}

module _ {Db : Type 0} (prisma : HierarchyDb Db) (t : String) where
  -- The row (a, d, k) of the tenant is in the table.
  abbrev pub HasRow : Db → String → String → ℕ → Type 0
  HasRow db a d k = In (closure_row t a d k) (prisma.rows db)

  -- A user is registered when its self-row is there.
  abbrev pub IsNode : Db → String → Type 0
  IsNode db d = HasRow db d d 0

  -- The tenant's rows are exactly the ways up the manager edges, and the edges join registered
  -- users.
  pub record Represents (db : Db) (mgr : Managers) : Type 0 where
    pub sound : (a d : String) (k : ℕ) → HasRow db a d k → up mgr k d ≡ some a
    pub complete : (a d : String) (k : ℕ) → IsNode db d → up mgr k d ≡ some a → HasRow db a d k
    pub edge_nodes : (d m : String) → mgr d ≡ some m → IsNode db d × IsNode db m

  -- The unique key gives one depth to each pair.
  pub depth_unique : (db : Db) (a d : String) (k j : ℕ) → HasRow db a d k → HasRow db a d j → k ≡ j
  depth_unique db a d k j h h' =
      ap (λ (r : ClosureRow). r.depth)
        (prisma.unique db (closure_row t a d k) (closure_row t a d j) h h'
          (ground (arith, eq_refl t, eq_refl a, eq_refl d)))

  length_zero : (mgr : Managers) (k : ℕ) (d a : String) → mgr d ≡ none → up mgr k d ≡ some a → k ≡ 0
  length_zero mgr zero d a top e = refl
  length_zero mgr (suc k) d a top e = cc (up-suc-none mgr k d top)

  module _ {db : Db} {mgr : Managers} (rep : Represents db mgr) where
    -- Two ways up between the same users have the same length.
    pub up_unique : (k j : ℕ) (d a : String) → up mgr k d ≡ some a → up mgr j d ≡ some a → k ≡ j
    up_unique k j d a e f = elim (Option-cases (mgr d)) [
      | inr (m, edge) ↦
          let node = (rep.edge_nodes d m edge).0 in
          depth_unique db a d k j (rep.complete a d k node e) (rep.complete a d j node f)
      | inl top ↦ (length_zero mgr k d a top e) ∙ sym (length_zero mgr j d a top f)
    ]

    -- Nobody is above themselves.
    pub acyclic : (k : ℕ) (d : String) → 0 < k → up mgr k d ≢ some d
    acyclic k d pos e = absurd (omega (arith, up_unique k 0 d d e (unfold up in refl)))

    -- Everybody on the way up from a registered user is registered.
    pub up-IsNode : (k : ℕ) (d a : String) → IsNode db d → up mgr k d ≡ some a → IsNode db a
    unfolding up
    up-IsNode zero d a node e = let same : d ≡ a = some-inj e in subst (IsNode db) same node
    up-IsNode (suc k) d a node e =
        let (m, edge, rest) = up-first mgr k d a e in
        up-IsNode k m a (rep.edge_nodes d m edge).1 rest

    descendant-IsNode : (a d : String) (k : ℕ) → HasRow db a d k → up mgr k d ≡ some a → IsNode db d
    unfolding up
    descendant-IsNode a d zero h e =
        let same : d ≡ a = some-inj e in subst (λ b. HasRow db b d 0) (sym same) h
    descendant-IsNode a d (suc k) h e =
        let (m, edge, rest) = up-first mgr k d a e in (rep.edge_nodes d m edge).0

    -- Both ends of a row are registered.
    pub row_nodes : (a d : String) (k : ℕ) → HasRow db a d k → IsNode db a × IsNode db d
    row_nodes a d k h =
        let node = descendant-IsNode a d k h (rep.sound a d k h) in
        (up-IsNode k d a node (rep.sound a d k h), node)
