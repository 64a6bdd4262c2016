-- ===== src/EdgeBlock/GraphStore/Vertices.antt =====
-- The table of the vertices: new_vertex and insert_edge_block keep every other vertex.
use avbgraph.EdgeBlock.GraphStore.{
  ConcurrentVector, GraphStore, VertexEntry, vertex_at, set_block_by_index, check_degree,
  check_degree_at, at_vertex, insert_edge_block, new_store, reserve_slot, new_vertex,
}
use avbgraph.EdgeBlock.HashTable2.Insert
use avbgraph.EdgeBlock.HashTable2.Probe.{contains}
use avbgraph.EdgeBlock.HashTable2.{empty_slot, get_dest}
use avbgraph.EdgeBlock.VertexEdges.Build.Loaded.{build-Loaded}
use avbgraph.EdgeBlock.VertexEdges.Scan.{for_each_edge}
use avbgraph.EdgeBlock.VertexEdges.Writes.NewEdge.{insert_edge_block-new}
use avbgraph.EdgeBlock.VertexEdges.{VertexEdges, Writer, Item, tmp_num}
use avbgraph.Prelude.{
  ◌>>=◌, ℕ, zero, suc, ◌∷◌, ◌+◌, ◌*◌, ◌%◌, ◌^◌, ◌≤◌, ◌<◌, ◌≡◌, refl, sym, ap, subst, ◌∙◌, ◌≢◌, true,
  false, ◌||◌, List, [], some, max, ltb, leb, ◌==◌, arith, get_elem?, set, length,
  get_elem?-set_here, get_elem?-set_other, inl, inr, Bool-cases, ==_iff,
}
use avbgraph.EdgeBlock.VertexEdges.Writes.{ring_slot}
use avbgraph.Types.{Composite}
use avbgraph.Version.Temporary.Room.{CanGrow}

-- Every vertex that was handed out is in the table, with a valid index of its destinations.
pub record IsValid (g : GraphStore) : Type 0 where
  pub counted : g.node_num ≤ 2 ^ 31
  pub served :
      (v : ℕ)
      → v < g.node_num
      → (s : VertexEdges) × (vertex_at g v ≡ some s) × Insert.IsValid s.destinations

-- A slot with a vertex is a slot of the table.
entry-lt :
    (blocks : List VertexEntry) (v : ℕ) (s : VertexEdges)
    → (get_elem? blocks v >>= λ entry. entry) ≡ some s
    → v < length blocks
entry-lt [] v s h = absurd (cc)
entry-lt (b ∷ blocks) zero s h = omega arith
entry-lt (b ∷ blocks) (suc v) s h = omega (arith, entry-lt blocks v s h)

vertex_at-lt :
    (g : GraphStore) (v : ℕ) (s : VertexEdges) → vertex_at g v ≡ some s → v < length g.blocks
unfolding vertex_at
vertex_at-lt g v s h = entry-lt g.blocks v s h

vertex_at-here :
    (g : GraphStore) (v n : ℕ) (s : VertexEdges)
    → v < length g.blocks
    → vertex_at (record { blocks = set g.blocks v (some s); node_num = n }) v ≡ some s
unfolding vertex_at
vertex_at-here g v n s h = rw (get_elem?-set_here g.blocks v (some s) h) refl

vertex_at-other :
    (g : GraphStore) (v u n : ℕ) (s : VertexEdges)
    → v ≢ u
    → vertex_at (record { blocks = set g.blocks v (some s); node_num = n }) u ≡ vertex_at g u
unfolding vertex_at
vertex_at-other g v u n s off = rw (get_elem?-set_other g.blocks v u (some s) off) refl

module _ (vector : ConcurrentVector) where
  open vector use {resize, grow_to_at_least, get_elem?-grow, length-grow}

  -- A new store has handed out no vertex.
  new_store-IsValid : (block_count : ℕ) → IsValid (new_store vector block_count)
  unfolding new_store
  new_store-IsValid block_count = record {
    counted = omega arith;
    served = λ v h. absurd (omega arith);
  }

  reserve_slot-room :
      (blocks : List VertexEntry) (v : ℕ) → v < length (reserve_slot vector blocks v)
  unfolding reserve_slot
  reserve_slot-room blocks v =
      let grown = length-grow blocks (max (v + 1) (length blocks * 2)) in
      elim (Bool-cases (leb (length blocks) v)) [
        | inl e ↦ rw e (omega arith)
        | inr e ↦ rw e (ground arith)
      ]

  reserve_slot-keeps :
      (g : GraphStore) (v u n : ℕ)
      → u < length g.blocks
      → vertex_at (record { blocks = reserve_slot vector g.blocks v; node_num = n }) u
        ≡ vertex_at g u
  unfolding reserve_slot vertex_at
  reserve_slot-keeps g v u n h =
      let kept = get_elem?-grow g.blocks (max (v + 1) (length g.blocks * 2)) u h in
      elim (Bool-cases (leb (length g.blocks) v)) [ inl e ↦ rw (e, kept) refl | inr e ↦ rw e refl ]

  -- On a store whose vertices all have valid indexes and which has handed out fewer than 2^31 of
  -- them, new_vertex succeeds, whatever the size of the table: its answer is the next number. The
  -- new vertex has no edges, for the count, for the degree at any epoch, and for a reader of any
  -- epoch other than 0. Every vertex handed out before is the same, and the store stays valid.
  pub new_vertex-keeps :
      (g : GraphStore) (fresh : List Item)
      → IsValid g
      → g.node_num < 2 ^ 31
      → (r : GraphStore) × (new_vertex vector g fresh ≡ some (g.node_num, r))
        × (r.node_num ≡ g.node_num + 1)
        × ((s : VertexEdges) × (vertex_at r g.node_num ≡ some s)
            × ((q : Composite) → 0 < q.e → for_each_edge q s ≡ []))
        × (check_degree r g.node_num ≡ some 0)
        × ((epoch : ℕ) → check_degree_at r g.node_num epoch ≡ some 0)
        × ((u : ℕ) → u < g.node_num → vertex_at r u ≡ vertex_at g u)
        × IsValid r
  unfolding new_vertex set_block_by_index check_degree check_degree_at
  new_vertex-keeps g fresh valid few =
      let v = g.node_num in
      let (s, built, indexed, finds, counted, degree, reads) =
        build-Loaded [] fresh (λ e h. absurd (cc)) (omega arith) in
      let room = reserve_slot-room g.blocks v in
      let grown : GraphStore = record {
        blocks = reserve_slot vector g.blocks v;
        node_num = (v + 1) % 2 ^ 32;
      } in
      let r = record grown { blocks = set grown.blocks v (some s) } in
      let here : vertex_at r v ≡ some s = vertex_at-here grown v grown.node_num s room in
      let kept : (u : ℕ) → u < v → vertex_at r u ≡ vertex_at g u = λ u h.
        vertex_at-other grown v u grown.node_num s (λ e. absurd (omega arith))
        ∙ reserve_slot-keeps g v u grown.node_num
            (omega (arith, vertex_at-lt g u (valid.served u h).0 (valid.served u h).1)) in
      let small : leb (2 ^ 31) v ≡ false = ground arith in
      let inside : ltb v (length grown.blocks) ≡ true = ground (arith, room) in
      (
        r,
        rw (built, small, inside) refl,
        omega arith,
        (s, here, reads),
        rw (here, counted) refl,
        λ epoch. rw here (degree epoch),
        kept,
        record {
          counted = omega arith;
          served = λ u h. elim (Bool-cases (u == v)) [
            | inl e ↦ (s, ap (λ (w : ℕ). vertex_at r w) ((==_iff u v).0 e) ∙ here, indexed)
            | inr e ↦
                let old : u < v = ground (arith, e, h) in
                let (s', stands, fine) = valid.served u old in (s', kept u old ∙ stands, fine)
          ];
        },
      )

module _ (sort : List Item → List Item) (oldest behind : ℕ) where
  -- On a valid store, the insertion of a new destination below 2^63 at a vertex that was handed
  -- out, whose index has a doubled size below 2^31, whose buffer has room, and whose temporary
  -- block of the epoch can grow, succeeds: afterwards the index of the vertex finds the new
  -- destination and those that it found before, every other vertex is the same, no vertex is handed
  -- out, and the store stays valid.
  pub insert_edge_block-keeps :
      (g : GraphStore) (v : ℕ) (s : VertexEdges) (edge property epoch : ℕ) (txn : Writer)
      → IsValid g
      → v < g.node_num
      → vertex_at g v ≡ some s
      → s.destinations.hash_block_size * 2 < 2 ^ 31
      → edge < 2 ^ 63
      → contains s.destinations.hashtable edge ≡ false
      → s.tmp_ev < tmp_num
      → length s.tmp_item ≡ tmp_num
      → CanGrow (s.tmp_vb (ring_slot epoch))
      → (r : GraphStore) × (t : Writer) × (insert_edge_block sort oldest behind g v edge property
            epoch txn
          ≡ some (true, r, t))
        × ((s' : VertexEdges) × (vertex_at r v ≡ some s')
            × ((q : ℕ)
                → q ≢ empty_slot
                → get_dest s'.destinations q
                  ≡ some (q == edge || contains s.destinations.hashtable q)))
        × ((u : ℕ) → u ≢ v → vertex_at r u ≡ vertex_at g u)
        × (r.node_num ≡ g.node_num)
        × IsValid r
  unfolding insert_edge_block at_vertex
  insert_edge_block-keeps g v s edge property epoch txn valid out stands size word unknown room
        whole can =
      let (old, found, indexed) = valid.served v out in
      let same : old ≡ s = cc in
      let (s', t, run, more, item, others, indexed', finds) =
        insert_edge_block-new sort oldest behind s edge property epoch txn
          (subst (λ (x : VertexEdges). Insert.IsValid x.destinations) same indexed) size word
          unknown room whole can in
      let inside = vertex_at-lt g v s stands in
      let r = record g { blocks = set g.blocks v (some s') } in
      let here : vertex_at r v ≡ some s' = vertex_at-here g v g.node_num s' inside in
      let kept : (u : ℕ) → u ≢ v → vertex_at r u ≡ vertex_at g u =
        λ u off. vertex_at-other g v u g.node_num s' (λ e. off (sym e)) in
      (
        r,
        t,
        rw (stands, run) refl,
        (s', here, finds),
        kept,
        refl,
        record {
          counted = valid.counted;
          served = λ u h. elim (Bool-cases (u == v)) [
            | inl e ↦ (s', ap (λ (w : ℕ). vertex_at r w) ((==_iff u v).0 e) ∙ here, indexed')
            | inr e ↦
                let (s0, at0, fine) = valid.served u h in
                (s0, kept u (λ z. absurd (ground (arith, e, z))) ∙ at0, fine)
          ];
        },
      )
