-- ===== src/Version/Temporary.antt =====
-- data-structure/VersionBlock/VertexVersionBlock/VersionBlock.{h,cpp}, the classes VersionEntry and
-- TmpVersionBlock, and struct VersionLink of Transaction/Transaction.h, in the build with
-- FINEGRAIN: the versions that the transactions of one epoch replaced at a vertex.
pub mod Room
use Prim.Native.Nat.{bit_or}
use avbgraph.Prelude.{
  ◌>>=◌, ℕ, ◌+◌, ◌-◌, ◌*◌, ◌/◌, ◌%◌, ◌^◌, ◌&&◌, take, Bool, List, [], ◌∷◌, ◌++◌, Option, none, some,
  ltb, ◌==◌, if◌then◌else◌, length, get_elem?, set,
}
use avbgraph.Types.{tmpvb_mask}

-- `link` is a pointer, or an epoch and an index packed into one word.
pub record VersionLink : Type 0 where
  pub block : ℕ
  pub index : ℕ
  pub link : ℕ

unfoldable pub has_next_vb : VersionLink → Bool
has_next_vb l = ltb 0 (l.block % tmpvb_mask)

pub record VersionEntry : Type 0 where
  pub offset : ℕ
  pub merge_times : ℕ
  pub last_epoch : ℕ
  pub old_intra_c : ℕ
  pub new_intra_c : ℕ
  pub edge : ℕ
  pub weight : ℕ
  pub link : VersionLink

-- `version_num_` is the length of the entries in use, `tmp_num` the size of their array.
pub record TmpVersionBlock : Type 0 where
  pub tmp_num : ℕ
  pub timestamp : ℕ
  pub tmp_entry : List VersionEntry

unfoldable pub empty : TmpVersionBlock
empty = record { tmp_num = 0; timestamp = 0; tmp_entry = [] }

-- The array for one more version: its size, of which the shift wraps at 32 bits, and the entries
-- that stand in it, which `memcpy` copies up to half of the new size.
unfoldable pub grown : TmpVersionBlock → TmpVersionBlock
grown vb =
    let size = vb.tmp_num * 2 % 2 ^ 32 in
    if ltb vb.tmp_num (length vb.tmp_entry + 1)
    then (if vb.tmp_num == 0
        then record vb { tmp_num = 8; tmp_entry = [] }
        else record vb { tmp_num = size; tmp_entry = take (size / 2) vb.tmp_entry })
    else vb

-- InsertVersion: the index of the new entry; `none` is a write behind the array, or behind entries
-- that are not set. The transaction's mark is left out: only ChangeVersion reads it, which this
-- build does not call.
unfoldable pub insert_version : TmpVersionBlock → VersionEntry → Option (ℕ × TmpVersionBlock)
unfolding grown
insert_version vb entry =
    let index = length vb.tmp_entry in
    let wide = grown vb in
    if ltb index wide.tmp_num && (length wide.tmp_entry == index)
    then some (index, record wide { tmp_entry = wide.tmp_entry ++ entry ∷ [] })
    else none

-- ChangeNextIndex on one entry.
unfoldable pub chained : VersionEntry → ℕ → ℕ → VersionEntry
chained entry next_epoch next_index = record entry {
  link = record (entry.link) { block = bit_or (entry.link.block) next_epoch; index = next_index };
}

-- ChangeNextIndex: `none` is an access behind the versions in use.
unfoldable pub change_next_index : TmpVersionBlock → ℕ → ℕ → ℕ → Option TmpVersionBlock
unfolding chained
change_next_index vb index next_epoch next_index = get_elem? vb.tmp_entry index >>= λ entry.
    some (record vb { tmp_entry = set vb.tmp_entry index (chained entry next_epoch next_index) })

-- Clear
unfoldable pub clear : TmpVersionBlock → TmpVersionBlock
clear vb = record vb { tmp_num = 0; tmp_entry = [] }
