-- ===== src/EdgeBlock/VertexEdges/Scan/Order.antt =====
-- The orders that the early ends of the loops rely on: the entries of a temporary version block are
-- written with rising intra-epoch times, and the records of a version block are sorted by the epoch
-- in which they were created.
use avbgraph.EdgeBlock.VertexEdges.Scan.{scan_entries, scan_later, entry_created, entry_invalid}
use avbgraph.EdgeBlock.VertexEdges.{Item}
use avbgraph.Prelude.{
  ℕ, ◌≤◌, ◌<◌, ◌≡◌, refl, ap, sym, ◌^◌, ◌%◌, Bool, false, not, ◌&&◌, List, [], ◌∷◌, map, select,
  leb, rev_onto, arith, Bool-cases, inl, inr,
}
use avbgraph.Types.{Composite, is_delete, lt, le}
use avbgraph.Version.Item.{EdgeWithIndex, is_visible_at, get_link_block, set_edge_fg}
use avbgraph.Version.Temporary.{VersionEntry, TmpVersionBlock}

abbrev pub RisingEntries : ℕ → List VersionEntry → Type 0
RisingEntries b [] = Unit {0}
RisingEntries b (x ∷ xs) = (b ≤ x.new_intra_c) × RisingEntries x.new_intra_c xs

abbrev FallingEntries : ℕ → List VersionEntry → Type 0
FallingEntries b [] = Unit {0}
FallingEntries b (x ∷ xs) = (x.new_intra_c ≤ b) × FallingEntries x.new_intra_c xs

FallingEntries-below :
    (a b : ℕ) (xs : List VersionEntry) → a ≤ b → FallingEntries a xs → FallingEntries b xs
FallingEntries-below a b [] h f = tt
FallingEntries-below a b (x ∷ xs) h (p, f) = (omega (arith, p, h), f)

rev_onto-FallingEntries :
    (b : ℕ) (xs acc : List VersionEntry)
    → RisingEntries b xs
    → FallingEntries b acc
    → (c : ℕ) × FallingEntries c (rev_onto xs acc)
rev_onto-FallingEntries b [] acc r f = (b, f)
rev_onto-FallingEntries b (x ∷ xs) acc (p, r) f =
    rev_onto-FallingEntries x.new_intra_c xs (x ∷ acc) r
      (omega arith, FallingEntries-below b x.new_intra_c acc p f)

-- The version of an entry is the one that a reader sees: not deleted, created before the reader and
-- replaced not before it.
pub valid : Composite → TmpVersionBlock → VersionEntry → Bool
valid q tvb ent =
    not (is_delete ent.edge) && (le q (entry_invalid tvb ent) && lt (entry_created ent) q)

pub old_edge : VersionEntry → EdgeWithIndex
old_edge ent = set_edge_fg ent.edge ent.last_epoch ent.old_intra_c

-- Once an entry was replaced before the reader, so were those before it.
none_valid :
    (q : Composite) (tvb : TmpVersionBlock) (b : ℕ) (xs : List VersionEntry)
    → FallingEntries b xs
    → le q (record { e = tvb.timestamp; i = b }) ≡ false
    → select (valid q tvb) xs ≡ []
unfolding valid le lt
none_valid q tvb b [] f h = refl
none_valid q tvb b (x ∷ xs) (p, f) h =
    let past : le q (entry_invalid tvb x) ≡ false = ground (arith, p, h) in
    ground (arith, none_valid q tvb x.new_intra_c xs f past, past)

scan_falling :
    (q : Composite) (tvb : TmpVersionBlock) (b : ℕ) (xs : List VersionEntry)
    → FallingEntries b xs
    → scan_entries q tvb xs ≡ map old_edge (select (valid q tvb) xs)
unfolding scan_entries valid old_edge
scan_falling q tvb b [] f = refl
scan_falling q tvb b (x ∷ xs) (p, f) =
    ground (arith, scan_falling q tvb x.new_intra_c xs f, none_valid q tvb x.new_intra_c xs f)

-- The loop over a temporary version block, with its early end, finds every version that the reader
-- sees.
pub scan_entries-valid :
    (q : Composite) (tvb : TmpVersionBlock)
    → RisingEntries 0 tvb.tmp_entry
    → scan_entries q tvb (rev_onto tvb.tmp_entry [])
      ≡ map old_edge (select (valid q tvb) (rev_onto tvb.tmp_entry []))
scan_entries-valid q tvb r =
    let (c, f) = rev_onto-FallingEntries 0 tvb.tmp_entry [] r tt in
    scan_falling q tvb c (rev_onto tvb.tmp_entry []) f

-- The records of a block, from an epoch on; their epochs are words without the flag.
abbrev pub SortedRecords : ℕ → List Item → Type 0
SortedRecords b [] = Unit {0}
SortedRecords b (x ∷ xs) = (b ≤ x.0.block) × (x.0.block < 2 ^ 31) × SortedRecords x.0.block xs

-- The edges of the records created up to an epoch.
abbrev pub old_records : ℕ → List Item → List EdgeWithIndex
old_records epoch xs = map (λ (x : Item). x.0) (select (λ (x : Item). leb x.0.block epoch) xs)

pub none_old :
    (epoch b : ℕ) (xs : List Item) → SortedRecords b xs → epoch < b → old_records epoch xs ≡ []
none_old epoch b [] s h = refl
none_old epoch b (x ∷ xs) (p, small, s) h =
    let past : leb x.0.block epoch ≡ false = ground (arith, p, h) in
    rw past (none_old epoch x.0.block xs s (omega (arith, p, h)))

pub scan_later-old :
    (q : Composite) (b : ℕ) (xs : List Item)
    → SortedRecords b xs
    → scan_later q xs ≡ old_records q.e xs
unfolding scan_later is_visible_at get_link_block
scan_later-old q b [] s = refl
scan_later-old q b (x ∷ xs) (p, small, s) =
    let same : x.0.block % 2 ^ 31 ≡ x.0.block = omega (arith, small) in
    elim (Bool-cases (leb x.0.block q.e)) [
      | inl e ↦
          rw (same, e) (ap (λ (l : List EdgeWithIndex). x.0 ∷ l) (scan_later-old q x.0.block xs s))
      | inr e ↦ rw (same, e) (sym (none_old q.e x.0.block xs s (ground arith)))
    ]
