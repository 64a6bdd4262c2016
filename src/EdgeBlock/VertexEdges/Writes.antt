-- ===== src/EdgeBlock/VertexEdges/Writes.antt =====
-- data-structure/EdgeBlock/VertexEdges.cpp, insert_edge_block and delete_edge_block.
pub mod Places
pub mod Outcomes
pub mod Guards
pub mod Replacement
pub mod Insertion
pub mod NewEdge
use Prim.Native.Nat.{bit_or}
use avbgraph.EdgeBlock.HashTable2.{HashTable2, get_dest, set_dest}
use avbgraph.EdgeBlock.VertexEdges.Merge.{merge_tmpev_with_eb}
use avbgraph.EdgeBlock.VertexEdges.Search.{Place, in_start, in_tmp, get_edge_index}
use avbgraph.EdgeBlock.VertexEdges.{VertexEdges, Writer, Item, tmp_num, blank, key_at, tmp_keys}
use avbgraph.Prelude.{
  update, ◌>>=◌, ℕ, ◌+◌, ◌-◌, ◌*◌, ◌%◌, ◌^◌, ◌≡◌, Bool, true, false, not, ◌&&◌, ◌||◌, List, [], ◌∷◌,
  ◌++◌, Option, none, some, ltb, ◌==◌, if◌then◌else◌, length, get_or, set,
}
use avbgraph.Types.{is_delete, strip, mark_deleted, tmpvb_mask}
use avbgraph.Version.Item.{EdgeWithIndex, get_coarse_c, has_tmp_vb, set_edge_fg, set_prop_fg}
use avbgraph.Version.Temporary.{VersionEntry, TmpVersionBlock, insert_version, change_next_index}

-- `epoch & MODPM`
abbrev pub ring_slot : ℕ → ℕ
ring_slot epoch = epoch % 16

-- `offset`, with TMPVB_MASK for a slot of the buffer.
abbrev pub offset_of : Place → ℕ
offset_of (in_start i) = i
offset_of (in_tmp i) = i % tmpvb_mask + tmpvb_mask

abbrev pub item_at : VertexEdges → Place → Item
item_at s (in_start i) = get_or s.start i blank
item_at s (in_tmp i) = get_or s.tmp_item i blank

-- A place in the arrays, or `none`: every read and write of an edge goes through this test.
unfoldable pub in_arrays : VertexEdges → Place → Option Place
in_arrays s (in_start i) = if ltb i (length s.start) then some (in_start i) else none
in_arrays s (in_tmp i) = if ltb i (length s.tmp_item) then some (in_tmp i) else none

abbrev pub write_item : VertexEdges → Place → Item → VertexEdges
write_item s (in_start i) x = record s { start = set s.start i x }
write_item s (in_tmp i) x = record s { tmp_item = set s.tmp_item i x }

-- A new edge takes the next slot of the buffer; its property half keeps the rest of what stood
-- there.
unfoldable pub add_edge : VertexEdges → ℕ → ℕ → Option (VertexEdges × Place)
add_edge s edge property =
    let stale = (get_or s.tmp_item s.tmp_ev blank).1 in
    let item : Item = (record { e = edge; block = 0; index = 0 }, record stale { e = property }) in
    set_dest s.destinations edge >>= λ d. some (
      record s {
        tmp_item = set s.tmp_item s.tmp_ev item;
        tmp_ev = s.tmp_ev + 1;
        destinations = d;
        num = s.num + 1;
      },
      in_tmp s.tmp_ev,
    )

-- The lookup of an edge whose destination is known; the code does not test the answer.
unfoldable pub locate : VertexEdges → ℕ → Option Place
locate s edge = get_edge_index (key_at s) (length s.start) (tmp_keys s) edge

-- The first write of an epoch to the vertex registers the temporary version block of the epoch.
unfoldable pub register : VertexEdges → ℕ → Writer → VertexEdges × Writer
register s epoch txn =
    let slot = ring_slot epoch in
    let vb = s.tmp_vb slot in
    if vb.timestamp == epoch then (s, txn) else (
      record s {
        tmp_vb = update s.tmp_vb slot (record vb { timestamp = epoch; tmp_entry = [] });
        active_tvb_mask = update s.active_tvb_mask slot true;
      },
      record txn { vb_vector = txn.vb_vector ++ slot ∷ [] },
    )

-- get_intra_c: the time of a transaction is taken at its first write.
unfoldable pub get_intra_c : Writer → ℕ × Writer
get_intra_c txn =
    let taken = (txn.intra_counter + 1) % 2 ^ 32 in
    if txn.intra_c == 0
    then (taken, record txn { intra_c = taken; intra_counter = taken })
    else (txn.intra_c, txn)

-- The guard of both handlers: a later version stands in the way.
unfoldable pub conflicts : Writer → ℕ → ℕ → Bool
conflicts txn last_epoch epoch =
    (not txn.write_only && ltb txn.read_epoch last_epoch) || ltb epoch last_epoch

-- The sentinel of an unknown predecessor.
abbrev pub known_index : ℕ → ℕ
known_index i = if i == 2 ^ 32 - 1 then 0 else i

-- The version that a write replaces: epoch, index of the predecessor, intra-epoch time.
unfoldable pub replaced : Item → Bool → ℕ × ℕ × ℕ
replaced item was_deleted =
    if was_deleted then (0, 0, 0) else (get_coarse_c item.0, known_index item.1.block, item.0.index)

-- `if (is_tmp && last_epoch != 0) …ChangeNextIndex(…)`
unfoldable pub link_next : VertexEdges → Bool → ℕ → ℕ → ℕ → ℕ → Option VertexEdges
link_next s is_tmp last_epoch last_index epoch tvb_idx =
    let slot = ring_slot last_epoch in
    if is_tmp && not (last_epoch == 0)
    then (change_next_index (s.tmp_vb slot) last_index epoch tvb_idx >>= λ vb.
        some (record s { tmp_vb = update s.tmp_vb slot vb }))
    else some s

-- The part of a write behind the guard: record the replaced version, and put the new one into the
-- place, as the destination `now` with the property half that `finish` makes of the old one.
unfoldable pub replace :
    VertexEdges
    → Place
    → Item
    → ℕ
    → ℕ
    → ℕ
    → (ℕ × ℕ × ℕ)
    → ℕ
    → (ℕ → EdgeWithIndex)
    → Writer
    → Option (Bool × VertexEdges × Writer)
unfolding insert_version link_next get_intra_c
replace s place item recorded now property (last_epoch, last_index, old_intra) epoch finish txn =
    let (intra, txn') = get_intra_c txn in
    let entry : VersionEntry = record {
      offset = offset_of place;
      merge_times = s.merge_times;
      last_epoch = last_epoch;
      old_intra_c = old_intra;
      new_intra_c = intra;
      edge = recorded;
      weight = property;
      link = record {
        block = last_epoch;
        index = last_index;
        link = last_epoch * 2 ^ 32 + last_index;
      };
    } in
    insert_version (s.tmp_vb (ring_slot epoch)) entry >>= λ (inserted : ℕ × TmpVersionBlock).
    (let written = record s { tmp_vb = update s.tmp_vb (ring_slot epoch) inserted.1 } in
      link_next written (has_tmp_vb item.0) last_epoch last_index epoch inserted.0 >>= λ linked.
      some (
        true,
        write_item linked place (
          record { e = now; block = epoch % tmpvb_mask + tmpvb_mask; index = intra },
          finish inserted.0,
        ),
        record txn' { edge_blocks = txn'.edge_blocks + 1 },
      ))

-- insert_edge_block behind the lookup.
unfoldable pub insert_at :
    VertexEdges → Place → ℕ → ℕ → ℕ → Writer → Option (Bool × VertexEdges × Writer)
unfolding in_arrays register replaced conflicts replace
insert_at s named edge property epoch txn = in_arrays s named >>= λ place.
    let item = item_at s place in
    let was_deleted = is_delete item.0.e in
    let cleared = record (item.0) { e = strip item.0.e } in
    let (s', txn') = register (write_item s place (cleared, item.1)) epoch txn in
    let old = replaced item was_deleted in
    if conflicts txn' old.0 epoch
    then some (false, s', txn')
    else replace s' place item edge (strip item.0.e) property old epoch
        (λ tvb_idx. record (item.1) { block = tvb_idx; index = 0 }) txn'

-- delete_edge_block behind the lookup.
unfoldable pub delete_at :
    VertexEdges → Place → ℕ → ℕ → ℕ → Writer → Option (Bool × VertexEdges × Writer)
unfolding in_arrays register replaced conflicts replace
delete_at s named edge property epoch txn = in_arrays s named >>= λ place.
    let item = item_at s place in
    let (s', txn') = register s epoch txn in
    let old = replaced item false in
    if conflicts txn' old.0 epoch
    then some (false, s', txn')
    else replace s' place item (mark_deleted edge) (mark_deleted item.0.e) property old epoch
        (λ tvb_idx. record (item.1) { block = 0; index = 0 }) txn'

-- The parameter is `std::sort` by the destination without its flag.
module _ (sort : List Item → List Item) (oldest behind : ℕ) where
  -- `if (tmp_ev == TMPNUM) merge_tmpev_with_eb()`
  unfoldable pub make_room : VertexEdges → Option VertexEdges
  make_room s = if s.tmp_ev == tmp_num then merge_tmpev_with_eb sort oldest behind s else some s

  unfoldable pub insert_edge_block :
      VertexEdges → ℕ → ℕ → ℕ → Writer → Option (Bool × VertexEdges × Writer)
  unfolding make_room add_edge locate insert_at
  insert_edge_block s edge property epoch txn = make_room s >>= λ r.
      get_dest r.destinations edge >>= λ known.
      (if known
        then (locate r edge >>= λ place. insert_at r place edge property epoch txn)
        else (add_edge r edge property >>= λ (added : VertexEdges × Place).
            insert_at added.0 added.1 edge property epoch txn))

  unfoldable pub delete_edge_block :
      VertexEdges → ℕ → ℕ → ℕ → Writer → Option (Bool × VertexEdges × Writer)
  unfolding make_room locate delete_at
  delete_edge_block s edge property epoch txn = make_room s >>= λ r.
      get_dest r.destinations edge >>= λ known.
      (if known
        then (locate r edge >>= λ place. delete_at r place edge property epoch txn)
        else some (false, r, txn))
