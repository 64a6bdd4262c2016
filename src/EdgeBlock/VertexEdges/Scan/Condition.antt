-- ===== src/EdgeBlock/VertexEdges/Scan/Condition.antt =====
-- iterate_edges_condition and for_each_edge_condition: the scan that ends at the first edge for
-- which the callback returns true.
use avbgraph.EdgeBlock.VertexEdges.Scan.{
  live, scan_items, scan_entries, scan_slots, iterate_edges, iterated, records, scan_own,
  scan_later, scan_block, scan_blocks, for_each_edge, entry_created, entry_invalid,
}
use avbgraph.EdgeBlock.VertexEdges.{VertexEdges, Item}
use avbgraph.Prelude.{
  ℕ, zero, suc, ◌≡◌, refl, ap, sym, ◌∙◌, Bool, true, false, not, List, [], ◌∷◌, ◌++◌, ◌==◌,
  if◌then◌else◌, take, rev_onto, arith, Bool-cases, inl, inr,
}
use avbgraph.Types.{Composite, is_delete, lt, le}
use avbgraph.Version.Item.{EdgeWithIndex, is_visible_at, is_visible_within, set_edge_fg}
use avbgraph.Version.Manager.{VersionBlock}
use avbgraph.Version.Temporary.{VersionEntry, TmpVersionBlock}

-- The calls of the callback so far, and whether the last of them returned true.
abbrev pub Calls : Type 0
Calls = List EdgeWithIndex × Bool

-- `if (callback(i)) return;` and what follows.
abbrev pub calling : Bool → EdgeWithIndex → Calls → Calls
calling stop x rest = if stop then (x ∷ [], true) else (x ∷ rest.0, rest.1)

-- One loop, and the rest of the function if it did not return.
abbrev pub following : Calls → Calls → Calls
following a b = if a.1 then a else (a.0 ++ b.0, b.1)

module _ (stop : EdgeWithIndex → Bool) where
  unfoldable pub items_condition : Composite → List Item → Calls
  items_condition q [] = ([], false)
  items_condition q (x ∷ xs) =
      let rest = items_condition q xs in if live q x then calling (stop x.0) x.0 rest else rest

  unfoldable pub entries_condition : Composite → TmpVersionBlock → List VersionEntry → Calls
  entries_condition q tvb [] = ([], false)
  entries_condition q tvb (ent ∷ entries) =
      let rest = entries_condition q tvb entries in
      let e_tmp = set_edge_fg ent.edge ent.last_epoch ent.old_intra_c in
      if is_delete ent.edge
      then rest
      else if not (le q (entry_invalid tvb ent))
      then ([], false)
      else if lt (entry_created ent) q
      then calling (stop e_tmp) e_tmp rest
      else rest

  unfoldable pub slots_condition : Composite → VertexEdges → ℕ → ℕ → Calls
  slots_condition q s zero idx = ([], false)
  slots_condition q s (suc n) idx =
      let rest = slots_condition q s n (suc idx) in
      if s.active_tvb_mask idx
      then following (entries_condition q (s.tmp_vb idx) (rev_onto (s.tmp_vb idx).tmp_entry []))
          rest
      else rest

  -- A call that returns leaves `need_iterator` as it was, false.
  unfoldable pub iterate_edges_condition : Composite → VertexEdges → Calls
  iterate_edges_condition q s =
      following (items_condition q (take s.tmp_ev s.tmp_item))
        (following (items_condition q s.start) (slots_condition q s 16 0))

  unfoldable pub own_condition : Composite → List Item → Calls
  own_condition q [] = ([], false)
  own_condition q (x ∷ xs) =
      let rest = own_condition q xs in
      if is_visible_within x.0 q (record { e = q.e; i = x.1.index })
      then calling (stop x.0) x.0 rest
      else ([], false)

  unfoldable pub later_condition : Composite → List Item → Calls
  later_condition q [] = ([], false)
  later_condition q (x ∷ xs) =
      let rest = later_condition q xs in
      if is_visible_at x.0 q.e then calling (stop x.0) x.0 rest else ([], false)

  unfoldable pub block_condition : Composite → VersionBlock → Calls
  block_condition q vb =
      if vb.timestamp == q.e then own_condition q (records vb) else later_condition q (records vb)

  unfoldable pub blocks_condition : Composite → List VersionBlock → Calls
  blocks_condition q [] = ([], false)
  blocks_condition q (vb ∷ vbs) = following (block_condition q vb) (blocks_condition q vbs)

  -- GraphAlgorithms::for_each_edge_condition
  unfoldable pub for_each_edge_condition : Composite → VertexEdges → Calls
  for_each_edge_condition q s =
      following (iterate_edges_condition q s) (blocks_condition q (iterated q s.manager))

  -- The edges up to the first for which the callback returns true.
  abbrev pub until : List EdgeWithIndex → Calls
  until [] = ([], false)
  until (x ∷ xs) = if stop x then (x ∷ [], true) else (x ∷ (until xs).0, (until xs).1)

  until-append : (xs ys : List EdgeWithIndex) → until (xs ++ ys) ≡ following (until xs) (until ys)
  until-append [] ys = refl
  until-append (x ∷ xs) ys = ground (arith, until-append xs ys)

  until-items : (q : Composite) (xs : List Item) → items_condition q xs ≡ until (scan_items q xs)
  unfolding items_condition scan_items
  until-items q [] = refl
  until-items q (x ∷ xs) = ground (arith, until-items q xs)

  until-entries :
      (q : Composite) (tvb : TmpVersionBlock) (entries : List VersionEntry)
      → entries_condition q tvb entries ≡ until (scan_entries q tvb entries)
  unfolding entries_condition scan_entries
  until-entries q tvb [] = refl
  until-entries q tvb (ent ∷ entries) = ground (arith, until-entries q tvb entries)

  following_cong : {a a' b b' : Calls} → a ≡ a' → b ≡ b' → following a b ≡ following a' b'
  following_cong {a} {a'} {b} {b'} e f =
      ap (λ (c : Calls). following c b) e ∙ ap (λ (c : Calls). following a' c) f

  until_both :
      {a b : Calls} (xs ys : List EdgeWithIndex)
      → a ≡ until xs
      → b ≡ until ys
      → following a b ≡ until (xs ++ ys)
  until_both xs ys e f = following_cong e f ∙ sym (until-append xs ys)

  until-slots :
      (q : Composite) (s : VertexEdges) (n idx : ℕ)
      → slots_condition q s n idx ≡ until (scan_slots q s n idx)
  unfolding slots_condition scan_slots
  until-slots q s zero idx = refl
  until-slots q s (suc n) idx =
      let tvb = s.tmp_vb idx in
      elim (Bool-cases (s.active_tvb_mask idx)) [
        | inl e ↦ rw e (
            until_both (scan_entries q tvb (rev_onto tvb.tmp_entry [])) (scan_slots q s n (suc idx))
              (until-entries q tvb (rev_onto tvb.tmp_entry [])) (until-slots q s n (suc idx)))
        | inr e ↦ rw e (until-slots q s n (suc idx))
      ]

  until-own : (q : Composite) (xs : List Item) → own_condition q xs ≡ until (scan_own q xs)
  unfolding own_condition scan_own
  until-own q [] = refl
  until-own q (x ∷ xs) = ground (arith, until-own q xs)

  until-later : (q : Composite) (xs : List Item) → later_condition q xs ≡ until (scan_later q xs)
  unfolding later_condition scan_later
  until-later q [] = refl
  until-later q (x ∷ xs) = ground (arith, until-later q xs)

  until-block : (q : Composite) (vb : VersionBlock) → block_condition q vb ≡ until (scan_block q vb)
  unfolding block_condition scan_block
  until-block q vb = elim (Bool-cases (vb.timestamp == q.e)) [
    | inl e ↦ rw e (until-own q (records vb))
    | inr e ↦ rw e (until-later q (records vb))
  ]

  until-blocks :
      (q : Composite) (vbs : List VersionBlock) → blocks_condition q vbs ≡ until (scan_blocks q vbs)
  unfolding blocks_condition scan_blocks
  until-blocks q [] = refl
  until-blocks q (vb ∷ vbs) =
      until_both (scan_block q vb) (scan_blocks q vbs) (until-block q vb) (until-blocks q vbs)

  -- The scan with a condition calls its callback on the edges of the plain scan, in their order, up
  -- to and with the first for which the callback returns true, and on no other.
  pub for_each_edge_condition-until :
      (q : Composite) (s : VertexEdges) → for_each_edge_condition q s ≡ until (for_each_edge q s)
  unfolding for_each_edge_condition for_each_edge iterate_edges_condition iterate_edges
  for_each_edge_condition-until q s =
      let buffer = scan_items q (take s.tmp_ev s.tmp_item) in
      let block = scan_items q s.start in
      until_both (buffer ++ (block ++ scan_slots q s 16 0)) (scan_blocks q (iterated q s.manager))
        (until_both buffer (block ++ scan_slots q s 16 0) (until-items q (take s.tmp_ev s.tmp_item))
          (until_both block (scan_slots q s 16 0) (until-items q s.start) (until-slots q s 16 0)))
        (until-blocks q (iterated q s.manager))
