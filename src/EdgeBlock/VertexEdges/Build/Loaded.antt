-- ===== src/EdgeBlock/VertexEdges/Build/Loaded.antt =====
-- build on a new vertex: what the index of destinations, the degrees and the scans see of a bulk
-- load.
use avbgraph.EdgeBlock.HashTable2
use avbgraph.EdgeBlock.HashTable2.{HashTable2, empty_slot, get_dest, set_dest}
use avbgraph.EdgeBlock.HashTable2.Insert.{
  IsValid, new-IsValid, get_dest-contains, set_dest-Inserted,
}
use avbgraph.EdgeBlock.HashTable2.Probe.{contains}
use avbgraph.EdgeBlock.VertexEdges.Build.{
  new_vertex_edges, loaded_item, word_behind, register_all, build,
}
use avbgraph.EdgeBlock.VertexEdges.Scan.{
  live, edge_visible_at, scan_items, scan_slots, iterate_edges, iterated, scan_blocks,
  for_each_edge,
}
use avbgraph.EdgeBlock.VertexEdges.{VertexEdges, Item}
use avbgraph.Prelude.Int.{pos}
use avbgraph.Types.{Composite, is_delete, lt}
use avbgraph.Version.Item.{is_visible_at_composite, created, get_coarse_c}
use avbgraph.Version.Iterator.{begin, visit_loop}
use avbgraph.Version.Manager
use avbgraph.Version.Manager.Degree.{get_degree-new}
use avbgraph.Version.Manager.{get_degree, to_word}
use avbgraph.Prelude.{
  ℕ, ◌+◌, ◌*◌, ◌^◌, ◌≤◌, ◌<◌, ◌≡◌, refl, ap, ◌∙◌, ◌≢◌, true, false, ◌||◌, List, [], ◌∷◌, some, map,
  arith, ==_refl, mem, length, inl, inr, append_cong, append_nil,
}

-- The destinations of a load.
abbrev pub keys : List (ℕ × ℕ) → List ℕ
keys = map (λ (x : ℕ × ℕ). x.0)

-- The size of an index that grew from that of a new vertex.
abbrev Slim : HashTable2 → Type 0
Slim t = t.hash_block_size ≤ 4 * t.entry_counter + 2

abbrev pub Words : List (ℕ × ℕ) → Type 0
Words edges = (e : ℕ) → mem e (keys edges) ≡ true → e < 2 ^ 63

tail-Words : (x : ℕ × ℕ) (edges : List (ℕ × ℕ)) → Words (x ∷ edges) → Words edges
tail-Words x edges words e h = words e (ground arith)

register_all-contains :
    (t : HashTable2) (edges : List (ℕ × ℕ))
    → IsValid t
    → Slim t
    → Words edges
    → t.entry_counter + length edges < 2 ^ 29
    → (d : HashTable2) × (register_all t edges ≡ some d)
      × IsValid d
      × ((q : ℕ)
          → q ≢ empty_slot
          → contains d.hashtable q ≡ (mem q (keys edges) || contains t.hashtable q))
unfolding register_all
register_all-contains t [] v slim words few = (t, refl, v, λ q k. refl)
register_all-contains t ((edge, property) ∷ edges) v slim words few =
    let word = words edge (rw (==_refl edge) refl) in
    let (r, run, i) =
      set_dest-Inserted t edge v (λ full. omega arith) (λ e. absurd (omega arith)) in
    let slim' : Slim r = elim i.size [
      | inl e ↦ omega (arith, i.one_more)
      | inr e ↦ omega (arith, i.one_more, e.1)
    ] in
    let (d, rest, valid, known) =
      register_all-contains r edges i.valid slim' (tail-Words (edge, property) edges words)
        (omega (arith, i.one_more)) in
    (d, rw run rest, valid, λ q k. ground (arith, known q k, i.keys q k))

-- Every reader of an epoch other than 0 sees a stored edge of the bulk load.
scan_items-loaded :
    (q : Composite) (edges : List (ℕ × ℕ))
    → 0 < q.e
    → Words edges
    → scan_items q (map loaded_item edges) ≡ map (λ (x : ℕ × ℕ). (loaded_item x).0) edges
unfolding scan_items live edge_visible_at is_visible_at_composite created get_coarse_c lt is_delete
scan_items-loaded q [] late words = refl
scan_items-loaded q ((edge, property) ∷ edges) late words =
    let word = words edge (rw (==_refl edge) refl) in
    ground (arith, scan_items-loaded q edges late (tail-Words (edge, property) edges words))

iterated_nil : (q : Composite) → iterated q Manager.new ≡ []
unfolding iterated Manager.new visit_loop begin
iterated_nil q = ground arith

contains-new : (q : ℕ) → q ≢ empty_slot → contains (HashTable2.new).hashtable q ≡ false
unfolding contains HashTable2.new
contains-new q k = ground (arith, k)

-- The bulk load of a new vertex with fewer than 2^29 edges to destinations below 2^63 succeeds. The
-- index is valid and finds exactly the destinations of the load; the degree is the number of the
-- edges, but the degree at any epoch is 0; and a reader of an epoch other than 0 gets exactly the
-- edges of the load, in their order.
pub build-Loaded :
    (edges : List (ℕ × ℕ)) (fresh : List Item)
    → Words edges
    → length edges < 2 ^ 29
    → (r : VertexEdges) × (build new_vertex_edges edges fresh ≡ some r)
      × IsValid r.destinations
      × ((q : ℕ) → q ≢ empty_slot → get_dest r.destinations q ≡ some (mem q (keys edges)))
      × (r.num ≡ length edges)
      × ((epoch : ℕ) → get_degree (r.edge_num, r.manager) epoch ≡ some 0)
      × ((q : Composite)
          → 0 < q.e
          → for_each_edge q r ≡ map (λ (x : ℕ × ℕ). (loaded_item x).0) edges)
unfolding build new_vertex_edges HashTable2.new for_each_edge iterate_edges scan_slots scan_blocks
    scan_items
build-Loaded edges fresh words few =
    let (d, run, valid, known) =
      register_all-contains HashTable2.new edges new-IsValid (omega arith) words (omega arith) in
    (
      record new_vertex_edges {
        start = map loaded_item edges;
        behind = word_behind 0 edges;
        capacity = length edges;
        num = length edges;
        tmp_item = fresh;
        destinations = d;
      },
      rw run,
      valid,
      λ q k. get_dest-contains d q valid k ∙ ap some (ground (arith, known q k, contains-new q k)),
      refl,
      λ epoch. get_degree-new (pos 0) epoch ∙ ap some (unfold to_word in refl),
      λ q late.
          append_cong
            (append_cong {xs = []} refl
              (append_cong (scan_items-loaded q edges late words) refl ∙ append_nil _))
            (ap (scan_blocks q) (iterated_nil q))
          ∙ append_nil _,
    )
