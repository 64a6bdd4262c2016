-- ===== src/EdgeBlock/VertexEdges/Transform/Entries.antt =====
-- What one entry of a publication does.
use avbgraph.EdgeBlock.VertexEdges.Search.{Place, in_start, in_tmp}
use avbgraph.EdgeBlock.VertexEdges.Transform.{
  entry_place, change_last_index, settle_new, settle_old, offset_place, unlinked, write_new,
  write_next, write_old,
}
use avbgraph.EdgeBlock.VertexEdges.Writes.Places.{Inside, in_arrays-Inside}
use avbgraph.EdgeBlock.VertexEdges.Writes.{write_item, ring_slot}
use avbgraph.EdgeBlock.VertexEdges.{VertexEdges, Item}
use avbgraph.Prelude.{
  ℕ, ◌<◌, ◌≡◌, refl, ap, sym, ◌∙◌, true, List, [], ◌∷◌, some, ◌==◌, length, get_elem?-some, set,
  length-set, update, arith, Bool-cases, inl, inr,
}
use avbgraph.Types.{strip}
use avbgraph.Version.Item.{EdgeWithIndex, set_edge_fg}
use avbgraph.Version.Temporary.{VersionEntry, TmpVersionBlock, has_next_vb}

-- No merge has moved the edge of the entry since, and its place is in the arrays; and if the entry
-- replaced a version of epoch 0 and was itself replaced, the entry that replaced it is there.
abbrev pub Reachable : VertexEdges → VersionEntry → Type 0
Reachable s ent =
    (ent.merge_times ≡ s.merge_times)
    × Inside s (offset_place ent.offset)
    × (ent.last_epoch ≡ 0
        → has_next_vb ent.link ≡ true
        → ent.link.index < length (s.tmp_vb (ring_slot ent.link.block)).tmp_entry)

abbrev pub AllReachable : VertexEdges → List VersionEntry → Type 0
AllReachable s [] = Unit {0}
AllReachable s (ent ∷ entries) = Reachable s ent × AllReachable s entries

-- Two states with the same number of merges, arrays of the same lengths, as many entries in each
-- temporary version block, and the same version chain.
pub record Alike (s t : VertexEdges) : Type 0 where
  pub merges : t.merge_times ≡ s.merge_times
  pub starts : length t.start ≡ length s.start
  pub buffers : length t.tmp_item ≡ length s.tmp_item
  pub lengths : (slot : ℕ) → length (t.tmp_vb slot).tmp_entry ≡ length (s.tmp_vb slot).tmp_entry
  pub chained : t.manager ≡ s.manager

Inside-Alike : (s t : VertexEdges) (place : Place) → Alike s t → Inside s place → Inside t place
Inside-Alike s t (in_start i) same h = omega (arith, h, same.starts)
Inside-Alike s t (in_tmp i) same h = omega (arith, h, same.buffers)

pub AllReachable-Alike :
    (s t : VertexEdges) (entries : List VersionEntry)
    → Alike s t
    → AllReachable s entries
    → AllReachable t entries
AllReachable-Alike s t [] same r = tt
AllReachable-Alike s t (ent ∷ entries) same ((m, held, next), r) = (
  (
    m ∙ sym same.merges,
    Inside-Alike s t (offset_place ent.offset) same held,
    λ z h. omega (arith, next z h, same.lengths (ring_slot ent.link.block)),
  ),
  AllReachable-Alike s t entries same r,
)

Alike-write_item :
    {s t : VertexEdges} (place : Place) (x : Item) → Alike s t → Alike s (write_item t place x)
Alike-write_item {s} {t} (in_start i) x same = record {
  merges = same.merges;
  starts = length-set t.start i x ∙ same.starts;
  buffers = same.buffers;
  lengths = same.lengths;
  chained = same.chained;
}
Alike-write_item {s} {t} (in_tmp i) x same = record {
  merges = same.merges;
  starts = same.starts;
  buffers = length-set t.tmp_item i x ∙ same.buffers;
  lengths = same.lengths;
  chained = same.chained;
}

entry_place-offset_place :
    (s : VertexEdges) (ent : VersionEntry)
    → Reachable s ent
    → entry_place s ent ≡ some (offset_place ent.offset)
unfolding entry_place
entry_place-offset_place s ent (m, held, next) =
    let same : (ent.merge_times == s.merge_times) ≡ true = ground arith in
    rw same (in_arrays-Inside s (offset_place ent.offset) held)

-- The version that an entry replaced: its destination and when it was created.
abbrev pub old_half : VersionEntry → EdgeWithIndex
old_half ent = record { e = strip ent.edge; block = ent.last_epoch; index = ent.old_intra_c }

pub settle_old-half :
    (s : VertexEdges) (epoch j weight : ℕ) (ent : VersionEntry)
    → Reachable s ent
    → (x : Item × VertexEdges) × (settle_old s epoch j weight ent ≡ some x)
      × (x.0.0 ≡ old_half ent)
      × Alike s x.1
unfolding settle_old write_old set_edge_fg
settle_old-half s epoch j weight ent r =
    let place = offset_place ent.offset in
    (
      write_old s epoch j weight ent place,
      rw (entry_place-offset_place s ent r) refl,
      refl,
      Alike-write_item place _ (record {
        merges = refl;
        starts = refl;
        buffers = refl;
        lengths = λ slot. refl;
        chained = refl;
      }),
    )

change_last_index-length :
    (vb : TmpVersionBlock) (index : ℕ)
    → index < length vb.tmp_entry
    → (r : TmpVersionBlock) × (change_last_index vb index ≡ some r)
      × (length r.tmp_entry ≡ length vb.tmp_entry)
unfolding change_last_index
change_last_index-length vb index h =
    let (entry, found) = get_elem?-some vb.tmp_entry index h in
    (
      record vb { tmp_entry = set vb.tmp_entry index (unlinked entry) },
      rw found refl,
      length-set vb.tmp_entry index (unlinked entry),
    )

update-lengths :
    (f : ℕ → TmpVersionBlock) (slot : ℕ) (vb : TmpVersionBlock)
    → length vb.tmp_entry ≡ length (f slot).tmp_entry
    → (k : ℕ) → length (update f slot vb k).tmp_entry ≡ length (f k).tmp_entry
update-lengths f slot vb same k = elim (Bool-cases (slot == k)) [
  | inl e ↦
      let at : slot ≡ k = ground arith in rw e (same ∙ ap (λ (i : ℕ). length (f i).tmp_entry) at)
  | inr e ↦ rw e refl
]

pub settle_new-Alike :
    (s : VertexEdges) (epoch : ℕ) (ent : VersionEntry)
    → Reachable s ent
    → ent.last_epoch ≡ 0
    → (t : VertexEdges) × (settle_new s epoch ent ≡ some t) × Alike s t
unfolding settle_new write_new write_next
settle_new-Alike s epoch ent r zero_epoch =
    let place = offset_place ent.offset in
    let found = entry_place-offset_place s ent r in
    elim (Bool-cases (has_next_vb ent.link)) [
      | inl e ↦
          let slot = ring_slot ent.link.block in
          let (vb, changed, same) =
            change_last_index-length (s.tmp_vb slot) ent.link.index (r.2 zero_epoch e) in
          (
            write_next s ent place vb,
            rw (found, e, changed) refl,
            Alike-write_item place _ (record {
              merges = refl;
              starts = refl;
              buffers = refl;
              lengths = update-lengths s.tmp_vb slot vb same;
              chained = refl;
            }),
          )
      | inr e ↦ (
        write_new s epoch ent place,
        rw (found, e) refl,
        Alike-write_item place _ (record {
          merges = refl;
          starts = refl;
          buffers = refl;
          lengths = λ k. refl;
          chained = refl;
        }),
      )
    ]

pub Alike-trans : {s t u : VertexEdges} → Alike s t → Alike t u → Alike s u
Alike-trans a b = record {
  merges = b.merges ∙ a.merges;
  starts = b.starts ∙ a.starts;
  buffers = b.buffers ∙ a.buffers;
  lengths = λ k. b.lengths k ∙ a.lengths k;
  chained = b.chained ∙ a.chained;
}

-- Every entry of the list replaced a version of epoch 0.
abbrev pub AllFresh : List VersionEntry → Type 0
AllFresh [] = Unit {0}
AllFresh (ent ∷ entries) = (ent.last_epoch ≡ 0) × AllFresh entries
