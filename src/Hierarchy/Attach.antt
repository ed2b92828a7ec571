-- ===== src/Hierarchy/Attach.antt =====
-- The rows after the detachment and the cross-join represent the hierarchy with the new edge.
use iam_access_control_servi.Prelude.{
  ℕ, suc, ◌+◌, ◌-◌, ◌<◌, String, ◌≡◌, ◌≢◌, ◌↔◌, ◌⊎◌, inl, inr, sym, ap, subst, ◌∙◌, true, false,
  some, some-inj, arith, str_eq, eq_iff, eq_refl, In, Bool-cases, dec_lt,
}
use iam_access_control_servi.Outcome.{ok}
use iam_access_control_servi.Domain.Models.{ClosureRow}
use iam_access_control_servi.Hierarchy.{closure_row, detach, new_rows}
use iam_access_control_servi.Hierarchy.Store.{HierarchyDb, same_key}
use iam_access_control_servi.Hierarchy.Forest.{
  Managers, up, reassign, up-suc, up-add, up-sub, meets, up-reassign,
}
use iam_access_control_servi.Hierarchy.Nodes.{HasRow, IsNode, Represents, acyclic, up_unique}
use iam_access_control_servi.Hierarchy.Reparent.{IsBelow, IsAbove, detach_iff}
use iam_access_control_servi.Hierarchy.NewRows.{IsJoined, new_rows_sound, new_rows_complete}

reassign_self : (u m : String) (mgr : Managers) → reassign u m mgr u ≡ some m
unfolding reassign
reassign_self u m mgr = rw (eq_refl u)

reassign_at : (u m d : String) (mgr : Managers) → str_eq d u ≡ true → reassign u m mgr d ≡ some m
unfolding reassign
reassign_at u m d mgr e = rw e

reassign_other : (u m d : String) (mgr : Managers) → str_eq d u ≡ false → reassign u m mgr d ≡ mgr d
unfolding reassign
reassign_other u m d mgr e = rw e

same_key_shape :
    (t a d : String) (k : ℕ) (s : ClosureRow)
    → same_key s (closure_row t a d k) ≡ true
    → s ≡ closure_row t a d s.depth
same_key_shape t a d k s h =
    ground (arith, eq_iff s.tenant_id t, eq_iff s.ancestor_user_id a, eq_iff s.descendant_user_id d)

joined_length : (ka kd k : ℕ) → k ≡ ka + kd + 1 → kd + suc ka ≡ k
joined_length ka kd k h = omega arith

module _ {Db : Type 0} (prisma : HierarchyDb Db) (t u m : String) {db : Db} {mgr : Managers}
    (rep : Represents prisma t db mgr) (node_u : IsNode prisma t db u)
    (node_m : IsNode prisma t db m) (no_cycle : (k : ℕ) → up mgr k m ≢ some u) where
  -- On the way up to the user, the user comes last.
  avoids_below : (j : ℕ) (d : String) → up mgr j d ≡ some u → (i : ℕ) → i < j → up mgr i d ≢ some u
  avoids_below j d e i h f =
      acyclic prisma t rep (j - i) u (omega arith) (up-sub mgr i j d u u (omega arith) f e)

  -- With the new edge the way up goes on from the user to the manager.
  joined_way :
      (ka kd : ℕ) (d a : String)
      → up mgr kd d ≡ some u
      → up mgr ka m ≡ some a
      → up (reassign u m mgr) (kd + suc ka) d ≡ some a
  joined_way ka kd d a below above =
      let after = reassign u m mgr in
      let first = up-reassign mgr u m kd d (avoids_below kd d below) ∙ below in
      let second = up-reassign mgr u m ka m (λ i h. no_cycle i) ∙ above in
      up-add after kd (suc ka) d u first ∙ up-suc after ka u m (reassign_self u m mgr) ∙ second

  -- A joined pair has no row that survives the detachment.
  joined_fresh :
      (a d : String) (k j : ℕ)
      → IsJoined prisma t u m rep node_m a d k
      → HasRow prisma t (detach prisma t u db) a d j
      → ⊥
  joined_fresh a d k j new old =
      let (row, apart) = (detach_iff prisma t u rep node_u a d j).0 old in
      let way = rep.sound a d j row in
      elim (dec_lt new.kd j) [
        | yes beyond ↦ apart (
          (new.kd, new.below),
          (j - new.kd, omega arith, up-sub mgr new.kd j d u a (omega arith) new.below way),
        )
        | no within ↦ no_cycle (new.ka + (new.kd - j)) (
            up-add mgr new.ka (new.kd - j) m a new.above
            ∙ up-sub mgr j new.kd d a u (omega arith) way new.below)
      ]

  joined_depth :
      (a d : String) (k j : ℕ)
      → IsJoined prisma t u m rep node_m a d k
      → IsJoined prisma t u m rep node_m a d j
      → k ≡ j
  joined_depth a d k j x y =
      let same_a = up_unique prisma t rep x.ka y.ka m a x.above y.above in
      let same_d = up_unique prisma t rep x.kd y.kd d u x.below y.below in
      omega (arith, x.depth, y.depth)

  key_free :
      (a d : String) (k : ℕ)
      → IsJoined prisma t u m rep node_m a d k
      → (s : ClosureRow) → In s (prisma.rows (detach prisma t u db))
      → same_key s (closure_row t a d k) ≡ false
  key_free a d k new s at = elim (Bool-cases (same_key s (closure_row t a d k))) [
    | inl same ↦ absurd (
        joined_fresh a d k s.depth new (
          subst (λ x. In x (prisma.rows (detach prisma t u db))) (same_key_shape t a d k s same)
            at))
    | inr other ↦ other
  ]

  key_once :
      (a d : String) (k : ℕ)
      → IsJoined prisma t u m rep node_m a d k
      → (s : ClosureRow) → In s (new_rows prisma t u m db)
      → same_key s (closure_row t a d k) ≡ true
      → s ≡ closure_row t a d k
  key_once a d k new s at same =
      let shape = same_key_shape t a d k s same in
      let other =
        new_rows_sound prisma t u m rep node_m a d s.depth
          (subst (λ x. In x (new_rows prisma t u m db)) shape at) in
      shape ∙ ap (closure_row t a d) (joined_depth a d s.depth k other new)

  -- The way up past the user, with the new edge, is one from the manager without it.
  way_beyond :
      (i k : ℕ) (d a : String)
      → i < k
      → up mgr i d ≡ some u
      → up (reassign u m mgr) k d ≡ some a
      → up mgr (k - i - 1) m ≡ some a
  way_beyond i k d a lt here way =
      let after = reassign u m mgr in
      let first = up-reassign mgr u m i d (avoids_below i d here) ∙ here in
      let rest = up-sub after i k d u a (omega arith) first way in
      let length : k - i ≡ suc (k - i - 1) = omega arith in
      sym (up-reassign mgr u m (k - i - 1) m (λ j h. no_cycle j))
      ∙ sym (up-suc after (k - i - 1) u m (reassign_self u m mgr))
      ∙ ap (λ n. up after n u) (sym length)
      ∙ rest

  -- A pair whose way up avoids the user is not detached.
  stays :
      (k : ℕ) (d a : String)
      → ((i : ℕ) → i < k → up mgr i d ≢ some u)
      → up mgr k d ≡ some a
      → ¬ (IsBelow mgr u d × IsAbove mgr u a)
  stays k d a avoids way ((j, below), (i, pos, above)) =
      let same = up_unique prisma t rep k (j + i) d a way (up-add mgr j i d u below ∙ above) in
      avoids j (omega arith) below

  module _ {db' : Db}
      (created : prisma.create_many (new_rows prisma t u m db) (detach prisma t u db)
        ≡ ok db') where
    -- The rows after the insert are those that were kept and the joined ones.
    rows_after :
        (a d : String) (k : ℕ)
        → HasRow prisma t db' a d k
          ↔ (HasRow prisma t (detach prisma t u db) a d k ⊎ IsJoined prisma t u m rep node_m a d k)
    rows_after a d k =
        let data_rows = new_rows prisma t u m db in
        let kept = detach prisma t u db in
        let r = closure_row t a d k in
        (
          λ h. elim (prisma.create_many_only data_rows kept db' r created h) [
            | inl old ↦ inl old
            | inr new ↦ inr (new_rows_sound prisma t u m rep node_m a d k new)
          ],
          λ h. elim h [
            | inl old ↦ prisma.create_many_old data_rows kept db' r created old
            | inr new ↦
                prisma.create_many_new data_rows kept db' r created
                  (new_rows_complete prisma t u m rep node_m a d k new) (key_free a d k new)
                  (key_once a d k new)
          ],
        )

    -- The surviving and the joined rows are exactly the ways up the new edges.
    sound_after :
        (a d : String) (k : ℕ) → HasRow prisma t db' a d k → up (reassign u m mgr) k d ≡ some a
    sound_after a d k h = elim ((rows_after a d k).0 h) [
      | inl old ↦
          let (row, apart) = (detach_iff prisma t u rep node_u a d k).0 old in
          let way = rep.sound a d k row in
          elim (meets mgr u k d) [
            | inl (i, lt, here) ↦ absurd (
                apart
                  ((i, here), (k - i, omega arith, up-sub mgr i k d u a (omega arith) here way)))
            | inr avoids ↦ up-reassign mgr u m k d avoids ∙ way
          ]
      | inr new ↦
          subst (λ n. up (reassign u m mgr) n d ≡ some a) (joined_length new.ka new.kd k new.depth)
            (joined_way new.ka new.kd d a new.below new.above)
    ]

    IsNode-before : (d : String) → IsNode prisma t db' d → IsNode prisma t db d
    IsNode-before d h = elim ((rows_after d d 0).0 h) [
      | inl old ↦ ((detach_iff prisma t u rep node_u d d 0).0 old).0
      | inr new ↦ absurd (omega (arith, new.depth))
    ]

    IsNode-after : (d : String) → IsNode prisma t db d → IsNode prisma t db' d
    IsNode-after d h = (rows_after d d 0).1 (
        inl (
          (detach_iff prisma t u rep node_u d d 0).1 (
            h,
            λ ((j, below), (i, pos, above)).
                acyclic prisma t rep (j + i) d (omega arith) (up-add mgr j i d u below ∙ above),
          )))

    complete_after :
        (a d : String) (k : ℕ)
        → IsNode prisma t db d
        → up (reassign u m mgr) k d ≡ some a
        → HasRow prisma t db' a d k
    complete_after a d k node way = elim (meets mgr u k d) [
      | inl (i, lt, here) ↦ (rows_after a d k).1 (
          inr (record {
            ka = k - i - 1;
            kd = i;
            above = way_beyond i k d a lt here way;
            below = here;
            node = node;
            depth = omega arith;
          }))
      | inr avoids ↦
          let before = sym (up-reassign mgr u m k d avoids) ∙ way in
          (rows_after a d k).1 (
            inl (
              (detach_iff prisma t u rep node_u a d k).1
                (rep.complete a d k node before, stays k d a avoids before)))
    ]

    edge_nodes_after :
        (d n : String) → reassign u m mgr d ≡ some n → IsNode prisma t db' d × IsNode prisma t db' n
    edge_nodes_after d n e = elim (Bool-cases (str_eq d u)) [
      | inl same ↦
          let at_u : u ≡ d = sym ((eq_iff d u).0 same) in
          let to_m : m ≡ n = some-inj (sym (reassign_at u m d mgr same) ∙ e) in
          (
            IsNode-after d (subst (IsNode prisma t db) at_u node_u),
            IsNode-after n (subst (IsNode prisma t db) to_m node_m),
          )
      | inr other ↦
          let (node_d, node_n) = rep.edge_nodes d n (sym (reassign_other u m d mgr other) ∙ e) in
          (IsNode-after d node_d, IsNode-after n node_n)
    ]

    pub attached-Represents : Represents prisma t db' (reassign u m mgr)
    attached-Represents = record {
      sound = sound_after;
      complete = λ a d k node way. complete_after a d k (IsNode-before d node) way;
      edge_nodes = edge_nodes_after;
    }
