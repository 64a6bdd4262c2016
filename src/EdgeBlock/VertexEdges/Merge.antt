-- ===== src/EdgeBlock/VertexEdges/Merge.antt =====
-- data-structure/EdgeBlock/VertexEdges.cpp, merge_tmpev_with_eb: the full buffer is merged into the
-- sorted block. `sort` is `std::sort` of the buffer by the destination without its flag, and
-- `oldest` the watermark g_oldest_epoch; `behind` is the word behind the new block. Lists replace
-- the arrays: the write position `nw` of the loop stays above the read position `y` as long as the
-- buffer is not used up.
pub mod Order
pub mod Compaction
use avbgraph.EdgeBlock.HashTable2.{HashTable2, remove_dest}
use avbgraph.EdgeBlock.VertexEdges.{VertexEdges, Item}
use avbgraph.Prelude.{
  ◌>>=◌, ℕ, zero, suc, ◌+◌, ◌-◌, ◌*◌, ◌%◌, ◌^◌, Bool, ◌&&◌, List, [], ◌∷◌, Option, none, some, ltb,
  ◌==◌, if◌then◌else◌, length,
}
use avbgraph.Types.{is_delete, strip}

-- `while (capacity < num) capacity <<= 1`, from a capacity that is not 0. The shift wraps
-- at 32 bits, and then the loop does not end.
unfoldable pub double_until : ℕ → ℕ → ℕ → Option ℕ
double_until zero num capacity = none
double_until (suc fuel) num capacity =
    let rest = double_until fuel num (capacity * 2 % 2 ^ 32) in
    if ltb capacity num then rest else some capacity

unfoldable pub new_capacity : ℕ → ℕ → Option ℕ
unfolding double_until
new_capacity num capacity =
    if ltb capacity num
    then (if capacity == 0 then some num else double_until (num + 1) num capacity)
    else some capacity

-- Deleted, and the deletion is older than every epoch that a reader needs.
unfoldable pub drops : ℕ → Item → Bool
drops oldest x = is_delete x.0.e && ltb x.0.block oldest

-- The loop over the block: the edges kept, the destinations, and the number of edges.
unfoldable pub compact : ℕ → List Item → HashTable2 → ℕ → Option (List Item × HashTable2 × ℕ)
unfolding drops
compact oldest [] d num = some ([], d, num)
compact oldest (x ∷ xs) d num =
    if drops oldest x
    then (remove_dest d (strip x.0.e) >>= λ d'. compact oldest xs d' (num - 1))
    else (compact oldest xs d num >>= λ (r : List Item × HashTable2 × ℕ). some (x ∷ r.0, r.1, r.2))

abbrev pub reverse_onto : List Item → List Item → List Item
reverse_onto [] acc = acc
reverse_onto (x ∷ xs) acc = reverse_onto xs (x ∷ acc)

-- The loops from the back: `xs` is the buffer and `ys` the block, the last edge first, and `acc`
-- what is written already.
unfoldable pub merge_back : ℕ → List Item → List Item → List Item → Option (List Item)
merge_back zero xs ys acc = none
merge_back (suc fuel) [] ys acc = some (reverse_onto ys acc)
merge_back (suc fuel) (x ∷ xs) [] acc = some (reverse_onto (x ∷ xs) acc)
merge_back (suc fuel) (x ∷ xs) (y ∷ ys) acc =
    let from_tmp = merge_back fuel xs (y ∷ ys) (x ∷ acc) in
    let from_start = merge_back fuel (x ∷ xs) ys (y ∷ acc) in
    if ltb (strip y.0.e) (strip x.0.e) then from_tmp else from_start

module _ (sort : List Item → List Item) (oldest behind : ℕ) where
  unfoldable pub merge_tmpev_with_eb : VertexEdges → Option VertexEdges
  unfolding new_capacity compact merge_back
  merge_tmpev_with_eb s =
      let buffer = sort s.tmp_item in
      new_capacity s.num s.capacity >>= λ capacity.
      compact oldest s.start s.destinations s.num >>= λ (kept : List Item × HashTable2 × ℕ).
      merge_back (length buffer + length kept.0 + 1) (reverse_onto buffer [])
        (reverse_onto kept.0 []) []
      >>= λ merged. some (record s {
        start = merged;
        behind = behind;
        capacity = capacity;
        tmp_ev = 0;
        merge_times = s.merge_times + 1;
        destinations = kept.1;
        num = kept.2;
      })
