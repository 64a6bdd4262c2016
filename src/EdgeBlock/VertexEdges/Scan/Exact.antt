-- ===== src/EdgeBlock/VertexEdges/Scan/Exact.antt =====
-- What a scan reports.
use avbgraph.EdgeBlock.VertexEdges.Scan.Order.{
  RisingEntries, SortedRecords, valid, old_edge, old_records, none_old, scan_entries-valid,
  scan_later-old,
}
use avbgraph.EdgeBlock.VertexEdges.Scan.{
  live, scan_items, scan_slots, iterate_edges, iterated, records, items_of, scan_own, scan_block,
  scan_blocks, for_each_edge,
}
use avbgraph.EdgeBlock.VertexEdges.{VertexEdges, Item}
use avbgraph.Prelude.{
  ℕ, zero, suc, ◌<◌, ◌≡◌, refl, ap, sym, ◌∙◌, true, false, List, [], ◌∷◌, ◌++◌, map, select, none,
  some, leb, ltb, ◌==◌, if◌then◌else◌, length, take, rev_onto, arith, Bool-cases, inl, inr,
  append_cong, Option, ltb→lt, leb→le,
}
use avbgraph.Types.{Composite}
use avbgraph.Version.Item.{EdgeWithIndex}
use avbgraph.Version.Iterator.Visits.{relevant, begin-visits}
use avbgraph.Version.Iterator.{hidden, is_null}
use avbgraph.Version.Manager.Chain.{IsLinked}
use avbgraph.Version.Manager.{VersionBlock, Manager}

-- Every block of a chain is sorted.
abbrev pub AllSorted : List VersionBlock → Type 0
AllSorted [] = Unit {0}
AllSorted (vb ∷ vbs) = SortedRecords 0 (records vb) × AllSorted vbs

-- Every temporary version block in use has rising entries.
abbrev pub AllRising : VertexEdges → Type 0
AllRising s = (idx : ℕ) → RisingEntries 0 (s.tmp_vb idx).tmp_entry

-- The live edges of the buffer or of the block.
abbrev pub live_edges : Composite → List Item → List EdgeWithIndex
live_edges q xs = map (λ (x : Item). x.0) (select (live q) xs)

-- The replaced versions of the running epochs that a reader sees, by the slots of their blocks.
abbrev pub valid_slots : Composite → VertexEdges → ℕ → ℕ → List EdgeWithIndex
valid_slots q s zero idx = []
valid_slots q s (suc n) idx =
    (if s.active_tvb_mask idx
      then map old_edge (select (valid q (s.tmp_vb idx)) (rev_onto (s.tmp_vb idx).tmp_entry []))
      else [])
    ++ valid_slots q s n (suc idx)

-- What a block of the chain adds: of a block of a later epoch, every record that was created up to
-- the reader's epoch.
abbrev pub reports : Composite → VersionBlock → List EdgeWithIndex
reports q vb =
    if ltb q.e vb.timestamp
    then old_records q.e (records vb)
    else if vb.timestamp == q.e
    then scan_own q (records vb)
    else []

abbrev pub all_reports : Composite → List VersionBlock → List EdgeWithIndex
all_reports q [] = []
all_reports q (vb ∷ vbs) = reports q vb ++ all_reports q vbs

scan_items-live : (q : Composite) (xs : List Item) → scan_items q xs ≡ live_edges q xs
unfolding scan_items
scan_items-live q [] = refl
scan_items-live q (x ∷ xs) = ground (arith, scan_items-live q xs)

scan_slots-valid :
    (q : Composite) (s : VertexEdges) (n idx : ℕ)
    → AllRising s
    → scan_slots q s n idx ≡ valid_slots q s n idx
unfolding scan_slots
scan_slots-valid q s zero idx r = refl
scan_slots-valid q s (suc n) idx r = elim (Bool-cases (s.active_tvb_mask idx)) [
  | inl e ↦ rw e (
      append_cong (scan_entries-valid q (s.tmp_vb idx) (r idx))
        (scan_slots-valid q s n (suc idx) r))
  | inr e ↦ rw e (scan_slots-valid q s n (suc idx) r)
]

hidden-old_records :
    (version : ℕ) (start : Option (List Item))
    → SortedRecords 0 (items_of start)
    → hidden version start ≡ true
    → old_records version (items_of start) ≡ []
unfolding hidden
hidden-old_records version none sorted h = refl
hidden-old_records version (some []) sorted h = refl
hidden-old_records version (some ((x, p) ∷ items)) (low, small, sorted) h =
    none_old version x.block ((x, p) ∷ items) (omega arith, small, sorted) (ltb→lt _ _ h)

null-records : (start : Option (List Item)) → is_null start ≡ true → items_of start ≡ []
null-records none h = refl
null-records (some items) h = absurd (cc)

scan_own_nil : (q : Composite) → scan_own q [] ≡ []
unfolding scan_own
scan_own_nil q = refl

scan_blocks_nil : (q : Composite) → scan_blocks q [] ≡ []
unfolding scan_blocks
scan_blocks_nil q = refl

scan_block-relevant :
    (q : Composite) (vb : VersionBlock)
    → SortedRecords 0 (records vb)
    → relevant q.e vb ≡ true
    → scan_block q vb ≡ reports q vb
unfolding scan_block relevant
scan_block-relevant q vb sorted h = elim (Bool-cases (vb.timestamp == q.e)) [
  | inl e ↦ let same : ltb q.e vb.timestamp ≡ false = ground arith in rw (e, same) refl
  | inr e ↦
      let later : ltb q.e vb.timestamp ≡ true = ground arith in
      rw (e, later) (scan_later-old q 0 (records vb) sorted)
]

irrelevant-reports :
    (q : Composite) (vb : VersionBlock)
    → SortedRecords 0 (records vb)
    → relevant q.e vb ≡ false
    → reports q vb ≡ []
unfolding relevant
irrelevant-reports q vb sorted h = elim (Bool-cases (vb.timestamp == q.e)) [
  | inl e ↦
      let same : ltb q.e vb.timestamp ≡ false = ground arith in
      let null : is_null vb.start ≡ true = ground arith in
      rw (e, same) (ap (scan_own q) (null-records vb.start null) ∙ scan_own_nil q)
  | inr e ↦ elim (Bool-cases (ltb q.e vb.timestamp)) [
    | inl later ↦
        let out : hidden q.e vb.start ≡ true = ground arith in
        rw later (hidden-old_records q.e vb.start sorted out)
    | inr earlier ↦ rw (earlier, e) refl
  ]
]

scan_blocks-relevant :
    (q : Composite) (chain : List VersionBlock)
    → AllSorted chain
    → scan_blocks q (select (relevant q.e) chain) ≡ all_reports q chain
unfolding scan_blocks
scan_blocks-relevant q [] sorted = refl
scan_blocks-relevant q (vb ∷ vbs) (s, sorted) = elim (Bool-cases (relevant q.e vb)) [
  | inl e ↦ rw e (append_cong (scan_block-relevant q vb s e) (scan_blocks-relevant q vbs sorted))
  | inr e ↦ rw (e, irrelevant-reports q vb s e) (scan_blocks-relevant q vbs sorted)
]

-- After the last published epoch no block has anything to add.
none_reported :
    (q : Composite) (end : ℕ) (chain : List VersionBlock)
    → IsLinked end chain
    → end < q.e
    → all_reports q chain ≡ []
none_reported q end [] l h = refl
none_reported q end (vb ∷ vbs) (a, b, c) h =
    let here : ltb q.e vb.timestamp ≡ false = ground (arith, a, h) in
    let other : (vb.timestamp == q.e) ≡ false = ground (arith, a, h) in
    rw (here, other) (none_reported q vb.last_epoch vbs c (omega (arith, a, b, h)))

pub iterated-reports :
    (q : Composite) (m : Manager)
    → IsLinked m.end_epoch m.chain
    → AllSorted m.chain
    → scan_blocks q (iterated q m) ≡ all_reports q m.chain
unfolding iterated
iterated-reports q m l sorted = elim (Bool-cases (leb q.e m.end_epoch)) [
  | inl e ↦
      rw (e, begin-visits q.e m.end_epoch (length m.chain) m.chain l (leb→le _ _ e) (omega arith))
        (scan_blocks-relevant q m.chain sorted)
  | inr e ↦ rw e (scan_blocks_nil q ∙ sym (none_reported q m.end_epoch m.chain l (ground arith)))
]

-- In a vertex whose chain of version blocks is linked, with blocks sorted by the epochs of their
-- records and temporary version blocks of rising intra-epoch times, a scan hands on, in this order:
-- the live edges of the buffer and of the block; of each active temporary version block every
-- version that was created before the reader and replaced not before it, except those whose entry
-- has the deletion flag; of every block of a later
-- epoch in the chain the records created up to the reader's epoch; of the block of its own epoch
-- what that block's loop finds; and nothing of the older blocks. The walk down the chain ends.
pub for_each_edge_lem :
    (q : Composite) (s : VertexEdges)
    → AllRising s
    → IsLinked s.manager.end_epoch s.manager.chain
    → AllSorted s.manager.chain
    → for_each_edge q s
      ≡ (live_edges q (take s.tmp_ev s.tmp_item) ++ (live_edges q s.start ++ valid_slots q s 16 0))
        ++ all_reports q s.manager.chain
unfolding for_each_edge iterate_edges
for_each_edge_lem q s rising linked sorted =
    append_cong
      (append_cong (scan_items-live q (take s.tmp_ev s.tmp_item))
        (append_cong (scan_items-live q s.start) (scan_slots-valid q s 16 0 rising)))
      (iterated-reports q s.manager linked sorted)
