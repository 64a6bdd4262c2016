-- ===== src/EdgeBlock/VertexEdges/Writes/Places.antt =====
-- The places of the edges, and what a write to one of them leaves alone.
use avbgraph.EdgeBlock.VertexEdges.Search.{Place, in_start, in_tmp}
use avbgraph.EdgeBlock.VertexEdges.Writes.{in_arrays, item_at, write_item, register}
use avbgraph.EdgeBlock.VertexEdges.{VertexEdges, Writer, Item, blank}
use avbgraph.Prelude.{
  ℕ, ◌<◌, ◌≡◌, refl, ◌≢◌, Bool, false, some, ◌==◌, if◌then◌else◌, length, set, get_elem?,
  get_elem?-some, get_elem?-set_other, arith, get_or-set, length-set,
}
use avbgraph.Version.Temporary.{VersionEntry, TmpVersionBlock, change_next_index, chained}

-- The place is in the arrays.
abbrev pub Inside : VertexEdges → Place → Type 0
Inside s (in_start i) = i < length s.start
Inside s (in_tmp i) = i < length s.tmp_item

pub in_arrays-Inside : (s : VertexEdges) (p : Place) → Inside s p → in_arrays s p ≡ some p
unfolding in_arrays
in_arrays-Inside s (in_start i) h = ground (arith, h)
in_arrays-Inside s (in_tmp i) h = ground (arith, h)

abbrev pub same_place : Place → Place → Bool
same_place (in_start i) (in_start j) = i == j
same_place (in_start i) (in_tmp j) = false
same_place (in_tmp i) (in_start j) = false
same_place (in_tmp i) (in_tmp j) = i == j

pub item_at-write_item :
    (s : VertexEdges) (p q : Place) (x : Item)
    → Inside s p
    → item_at (write_item s p x) q ≡ (if same_place p q then x else item_at s q)
item_at-write_item s (in_start i) (in_start j) x h = get_or-set s.start i j x blank h
item_at-write_item s (in_start i) (in_tmp j) x h = refl
item_at-write_item s (in_tmp i) (in_start j) x h = refl
item_at-write_item s (in_tmp i) (in_tmp j) x h = get_or-set s.tmp_item i j x blank h

pub write_item-Inside :
    (s : VertexEdges) (p q : Place) (x : Item) → Inside s q → Inside (write_item s p x) q
write_item-Inside s (in_start i) (in_start j) x h = omega (arith, h, length-set s.start i x)
write_item-Inside s (in_start i) (in_tmp j) x h = h
write_item-Inside s (in_tmp i) (in_start j) x h = h
write_item-Inside s (in_tmp i) (in_tmp j) x h = omega (arith, h, length-set s.tmp_item i x)

-- An index that is in use stays in use under ChangeNextIndex, and what stands elsewhere stays.
change_next_index-some :
    (vb : TmpVersionBlock) (i e k : ℕ) (a : VersionEntry)
    → get_elem? vb.tmp_entry i ≡ some a
    → change_next_index vb i e k
      ≡ some (record vb { tmp_entry = set vb.tmp_entry i (chained a e k) })
unfolding change_next_index
change_next_index-some vb i e k a found = rw found

pub change_next_index-elsewhere :
    (vb : TmpVersionBlock) (i j e k : ℕ)
    → i < length vb.tmp_entry
    → (r : TmpVersionBlock) × (change_next_index vb i e k ≡ some r)
      × (i ≢ j → get_elem? r.tmp_entry j ≡ get_elem? vb.tmp_entry j)
change_next_index-elsewhere vb i j e k h =
    let (a, found) = get_elem?-some vb.tmp_entry i h in
    (
      record vb { tmp_entry = set vb.tmp_entry i (chained a e k) },
      change_next_index-some vb i e k a found,
      λ off. get_elem?-set_other vb.tmp_entry i j (chained a e k) off,
    )

pub register-items :
    (s : VertexEdges) (epoch : ℕ) (txn : Writer) (q : Place)
    → item_at (register s epoch txn).0 q ≡ item_at s q
unfolding register
register-items s epoch txn (in_start i) = ground arith
register-items s epoch txn (in_tmp i) = ground arith

pub register-Inside :
    (s : VertexEdges) (epoch : ℕ) (txn : Writer) (q : Place)
    → Inside s q
    → Inside (register s epoch txn).0 q
unfolding register
register-Inside s epoch txn (in_start i) h = ground arith
register-Inside s epoch txn (in_tmp i) h = ground arith
