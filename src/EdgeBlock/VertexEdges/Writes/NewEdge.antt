-- ===== src/EdgeBlock/VertexEdges/Writes/NewEdge.antt =====
-- insert_edge_block, for an edge that the vertex does not have, with room in the buffer.
use avbgraph.EdgeBlock.HashTable2.Insert.{IsValid, get_dest-contains, set_dest-contains}
use avbgraph.EdgeBlock.HashTable2.Probe.{contains}
use avbgraph.EdgeBlock.HashTable2.{HashTable2, empty_slot, get_dest, set_dest}
use avbgraph.EdgeBlock.VertexEdges.Search.{Place, in_tmp}
use avbgraph.EdgeBlock.VertexEdges.Writes.Insertion.{insert_at-outcome}
use avbgraph.EdgeBlock.VertexEdges.Writes.Places.{same_place, item_at-write_item}
use avbgraph.EdgeBlock.VertexEdges.Writes.Outcomes.{item_at-arrays}
use avbgraph.EdgeBlock.VertexEdges.Writes.{
  ring_slot, item_at, write_item, add_edge, get_intra_c, conflicts, replaced, insert_at, make_room,
  insert_edge_block,
}
use avbgraph.EdgeBlock.VertexEdges.{VertexEdges, Writer, Item, blank, tmp_num}
use avbgraph.Prelude.{
  ℕ, ◌+◌, ◌*◌, ◌%◌, ◌^◌, ◌<◌, ◌≡◌, refl, sym, ap, subst, ◌∙◌, ◌≢◌, Bool, true, false, List, some,
  ◌==◌, ◌||◌, length, get_or, set, arith, inl, inr, get_or-set, length-set, ==_refl,
}
use avbgraph.Types.{is_delete, strip, tmpvb_mask}
use avbgraph.Version.Item.{get_coarse_c}
use avbgraph.Version.Temporary.Room.{CanGrow}

-- An edge half that was never written has no version to replace, and no write conflicts with it.
replaced_fresh : (item : Item) (b : Bool) → item.0.block ≡ 0 → (replaced item b).0 ≡ 0
unfolding replaced get_coarse_c
replaced_fresh item b h = ground (arith, h)

conflicts_fresh : (txn : Writer) (e epoch : ℕ) → e ≡ 0 → conflicts txn e epoch ≡ false
unfolding conflicts
conflicts_fresh txn e epoch h = ground arith

strip_word : (x e : ℕ) → x ≡ e → e < 2 ^ 63 → strip x ≡ e
unfolding strip
strip_word x e same small = omega arith

-- The state with the new edge in the buffer.
abbrev with_edge : VertexEdges → ℕ → ℕ → HashTable2 → VertexEdges
with_edge s edge property d = record s {
  tmp_item = set s.tmp_item s.tmp_ev (
    record { e = edge; block = 0; index = 0 },
    record ((get_or s.tmp_item s.tmp_ev blank).1) { e = property },
  );
  tmp_ev = s.tmp_ev + 1;
  destinations = d;
  num = s.num + 1;
}

module _ (sort : List Item → List Item) (oldest behind : ℕ) where
  insert_edge_block-adds :
      (s : VertexEdges) (edge property epoch : ℕ) (txn : Writer) (d : HashTable2)
      → (s.tmp_ev == tmp_num) ≡ false
      → get_dest s.destinations edge ≡ some false
      → set_dest s.destinations edge ≡ some d
      → insert_edge_block sort oldest behind s edge property epoch txn
        ≡ insert_at (with_edge s edge property d) (in_tmp s.tmp_ev) edge property epoch txn
  unfolding insert_edge_block make_room add_edge
  insert_edge_block-adds s edge property epoch txn d room unknown grown =
      rw (room, unknown, grown) refl

  -- For a vertex with a valid index of destinations whose doubled size is below 2^31, with room in
  -- its buffer of 64 edges, and with a temporary block of the epoch that can grow, the insertion of
  -- a new destination below 2^63 always succeeds. The edge stands in the next slot of the buffer,
  -- pending for the epoch with the time of the transaction, no other edge changes, and the index
  -- stays valid and finds the new destination and those that it found before.
  pub insert_edge_block-new :
      (s : VertexEdges) (edge property epoch : ℕ) (txn : Writer)
      → IsValid s.destinations
      → s.destinations.hash_block_size * 2 < 2 ^ 31
      → edge < 2 ^ 63
      → contains s.destinations.hashtable edge ≡ false
      → s.tmp_ev < tmp_num
      → length s.tmp_item ≡ tmp_num
      → CanGrow (s.tmp_vb (ring_slot epoch))
      → (r : VertexEdges) × (t : Writer) × (insert_edge_block sort oldest behind s edge property
            epoch txn
          ≡ some (true, r, t))
        × (r.tmp_ev ≡ s.tmp_ev + 1)
        × ((item_at r (in_tmp s.tmp_ev)).0 ≡ record {
          e = edge;
          block = epoch % tmpvb_mask + tmpvb_mask;
          index = (get_intra_c txn).0;
        })
        × ((q : Place) → same_place (in_tmp s.tmp_ev) q ≡ false → item_at r q ≡ item_at s q)
        × IsValid r.destinations
        × ((q : ℕ)
            → q ≢ empty_slot
            → get_dest r.destinations q ≡ some (q == edge || contains s.destinations.hashtable q))
  insert_edge_block-new s edge property epoch txn valid size word unknown room whole can =
      let real : edge ≢ empty_slot = λ e. absurd (omega arith) in
      let (d, grown, d_valid, finds) = set_dest-contains s.destinations edge valid size real in
      let place = in_tmp s.tmp_ev in
      let item : Item = (
        record { e = edge; block = 0; index = 0 },
        record ((get_or s.tmp_item s.tmp_ev blank).1) { e = property },
      ) in
      let s' = with_edge s edge property d in
      let inside : s.tmp_ev < length s.tmp_item = omega arith in
      let inside' : s.tmp_ev < length s'.tmp_item =
        omega (arith, length-set s.tmp_item s.tmp_ev item) in
      let stands : item_at s' place ≡ item =
        rw (==_refl s.tmp_ev) at (get_or-set s.tmp_item s.tmp_ev s.tmp_ev item blank inside) in
      let fresh =
        replaced_fresh (item_at s' place) (is_delete (item_at s' place).0.e)
          (ap (λ (x : Item). x.0.block) stands) in
      let start =
        insert_edge_block-adds s edge property epoch txn d (ground arith)
          (get_dest-contains s.destinations edge valid real ∙ ap some unknown) grown in
      let (r, t, outcome) =
        insert_at-outcome s' place edge property epoch txn inside' can
          (omega (arith, ap (λ (x : Item). x.0.e) stands)) (λ is_tmp late. absurd (late fresh)) in
      elim outcome [
        | inl (late, run, state, same) ↦
            let clash : true ≡ false = sym late ∙ conflicts_fresh txn _ epoch fresh in absurd (cc)
        | inr (free, run, idx, w) ↦ (
          r,
          t,
          start ∙ run,
          w.used,
          ap (λ (x : Item). x.0) w.stored
              ∙ ap
                  (λ (e : ℕ). record {
                    e = e;
                    block = epoch % tmpvb_mask + tmpvb_mask;
                    index = (get_intra_c txn).0;
                  })
                  (strip_word (item_at s' place).0.e edge (ap (λ (x : Item). x.0.e) stands) word),
          λ q off.
              w.others q off
              ∙ item_at-arrays (write_item s place item) s' q refl refl
              ∙ (rw off at (item_at-write_item s place q item inside)),
          subst IsValid (sym w.index) d_valid,
          λ q real_q. ap (λ (x : HashTable2). get_dest x q) w.index ∙ finds q real_q,
        )
      ]
