-- ===== src/Version/Iterator.antt =====
-- data-structure/VersionBlock/VertexVersionBlock/VBIterator.{h,cpp}, in the build with FINEGRAIN:
-- the walk of a reader of one epoch down the chain of version blocks. A pointer to a block is the
-- block with the chain behind it; `none` is the end of the iteration.
pub mod Visits
use avbgraph.Prelude.{
  ℕ, zero, suc, Bool, true, false, List, [], ◌∷◌, Option, none, some, ltb, leb, ◌==◌, if◌then◌else◌,
}
use avbgraph.Version.Item.{EdgeWithIndex}
use avbgraph.Version.Manager.{VersionBlock}

-- `index_ == nullptr || index_->block > version_`; the array of a block is never empty.
unfoldable pub hidden : ℕ → Option (List (EdgeWithIndex × EdgeWithIndex)) → Bool
hidden version none = true
hidden version (some []) = true
hidden version (some ((x, p) ∷ items)) = ltb version x.block

abbrev pub is_null : Option (List (EdgeWithIndex × EdgeWithIndex)) → Bool
is_null none = true
is_null (some items) = false

abbrev pub Position : Type 0
Position = Option (VersionBlock × List VersionBlock)

-- FindIndex without a counter.
unfoldable pub find_index : ℕ → VersionBlock → List VersionBlock → Position
unfolding hidden
find_index version vb [] =
    if vb.timestamp == version
    then (if is_null vb.start then none else some (vb, []))
    else if hidden version vb.start
    then none
    else some (vb, [])
find_index version vb (vb' ∷ rest) =
    let older = find_index version vb' rest in
    if vb.timestamp == version
    then (if is_null vb.start then none else some (vb, vb' ∷ rest))
    else if hidden version vb.start
    then (if ltb vb.last_epoch version then none else older)
    else some (vb, vb' ∷ rest)

-- FindIndex with a counter: it has no case for a block of the reader's own epoch.
unfoldable pub find_index_counted : ℕ → VersionBlock → List VersionBlock → Position
unfolding hidden
find_index_counted version vb [] = if hidden version vb.start then none else some (vb, [])
find_index_counted version vb (vb' ∷ rest) =
    let older = find_index_counted version vb' rest in
    if hidden version vb.start
    then (if leb vb.last_epoch version then none else older)
    else some (vb, vb' ∷ rest)

-- The constructor, on the block that the manager hands out.
unfoldable pub begin : ℕ → List VersionBlock → Position
unfolding find_index
begin version [] = none
begin version (vb ∷ rest) = find_index version vb rest

unfoldable pub get_next : ℕ → VersionBlock → List VersionBlock → Position
unfolding begin
get_next version vb rest = if ltb vb.last_epoch version then none else begin version rest

-- `while (!it->is_end_) { …; it->getNext(); }`: the blocks at which the body runs. Each round moves
-- down the chain, so the length of the chain is fuel enough.
unfoldable pub visit_loop : ℕ → ℕ → Position → List VersionBlock
unfolding get_next
visit_loop zero version at = []
visit_loop (suc fuel) version none = []
visit_loop (suc fuel) version (some (vb, rest)) =
    vb ∷ visit_loop fuel version (get_next version vb rest)
