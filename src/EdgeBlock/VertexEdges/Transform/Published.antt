-- ===== src/EdgeBlock/VertexEdges/Transform/Published.antt =====
-- The block that a publication pushes.
use avbgraph.EdgeBlock.VertexEdges.Scan.Order.{SortedRecords}
use avbgraph.EdgeBlock.VertexEdges.Transform.{
  fresh_entries, old_entries, finish, start_of, transform,
}
use avbgraph.EdgeBlock.VertexEdges.Writes.{ring_slot}
use avbgraph.EdgeBlock.VertexEdges.{VertexEdges, Item}
use avbgraph.Prelude.{
  ℕ, ◌^◌, ◌≤◌, ◌<◌, ◌≡◌, ◌≢◌, ◌↔◌, ◌⊎◌, append_nil, refl, ap, sym, ◌∙◌, subst, false, List, [], ◌∷◌,
  ◌++◌, map, some, ◌==◌, length, arith, Bool-cases, inl, inr, append_cong, update_here,
}
use avbgraph.Types.{is_delete}
use avbgraph.Version.Item.{EdgeWithIndex}
use avbgraph.Version.Manager.{VersionBlock, Manager, push_vb}
use avbgraph.Version.Temporary.{VersionEntry, TmpVersionBlock, clear}
use avbgraph.EdgeBlock.VertexEdges.Scan.{items_of}
use avbgraph.EdgeBlock.VertexEdges.Transform.Entries.{
  AllReachable, AllFresh, AllReachable-Alike, Alike-trans, old_half,
}
use avbgraph.EdgeBlock.VertexEdges.Transform.Records.{
  deletions, first_loop-deletions, edge_halves, second_loop-halves, third_loop-halves,
}

-- The entries are in the order of the epochs of the versions that they replaced.
abbrev pub SortedEntries : ℕ → List VersionEntry → Type 0
SortedEntries b [] = Unit {0}
SortedEntries b (ent ∷ entries) =
    (b ≤ ent.last_epoch) × (ent.last_epoch < 2 ^ 31) × SortedEntries ent.last_epoch entries

abbrev SortedHalves : ℕ → List EdgeWithIndex → Type 0
SortedHalves b [] = Unit {0}
SortedHalves b (x ∷ xs) = (b ≤ x.block) × (x.block < 2 ^ 31) × SortedHalves x.block xs

SortedRecords-SortedHalves :
    (b : ℕ) (xs : List Item) → SortedRecords b xs ↔ SortedHalves b (edge_halves xs)
SortedRecords-SortedHalves b [] = (λ s. tt, λ s. tt)
SortedRecords-SortedHalves b (x ∷ xs) =
    let (to, back) = SortedRecords-SortedHalves x.0.block xs in
    (λ (p, q, s). (p, q, to s), λ (p, q, s). (p, q, back s))

SortedEntries-SortedHalves :
    (b : ℕ) (entries : List VersionEntry)
    → SortedEntries b entries ↔ SortedHalves b (map old_half entries)
SortedEntries-SortedHalves b [] = (λ s. tt, λ s. tt)
SortedEntries-SortedHalves b (ent ∷ entries) =
    let (to, back) = SortedEntries-SortedHalves ent.last_epoch entries in
    (λ (p, q, s). (p, q, to s), λ (p, q, s). (p, q, back s))

AllReachable-fresh_entries :
    (s : VertexEdges) (entries : List VersionEntry)
    → AllReachable s entries
    → AllReachable s (fresh_entries entries)
AllReachable-fresh_entries s [] r = tt
AllReachable-fresh_entries s (ent ∷ entries) (here, r) = elim (Bool-cases (ent.last_epoch == 0)) [
  | inl e ↦ rw e (here, AllReachable-fresh_entries s entries r)
  | inr e ↦ rw e tt
]

AllReachable-old_entries :
    (s : VertexEdges) (entries : List VersionEntry)
    → AllReachable s entries
    → AllReachable s (old_entries entries)
AllReachable-old_entries s [] r = tt
AllReachable-old_entries s (ent ∷ entries) (here, r) = elim (Bool-cases (ent.last_epoch == 0)) [
  | inl e ↦ rw e (AllReachable-old_entries s entries r)
  | inr e ↦ rw e (here, r)
]

AllReachable-deletions :
    (s : VertexEdges) (entries : List VersionEntry)
    → AllReachable s entries
    → AllReachable s (deletions entries)
AllReachable-deletions s [] r = tt
AllReachable-deletions s (ent ∷ entries) (here, r) = elim (Bool-cases (is_delete ent.edge)) [
  | inl e ↦ rw e (here, AllReachable-deletions s entries r)
  | inr e ↦ rw e (AllReachable-deletions s entries r)
]

AllFresh-fresh_entries : (entries : List VersionEntry) → AllFresh (fresh_entries entries)
AllFresh-fresh_entries [] = tt
AllFresh-fresh_entries (ent ∷ entries) = elim (Bool-cases (ent.last_epoch == 0)) [
  | inl e ↦ rw e (ground arith, AllFresh-fresh_entries entries)
  | inr e ↦ rw e tt
]

AllFresh-deletions : (entries : List VersionEntry) → AllFresh (deletions (fresh_entries entries))
AllFresh-deletions [] = tt
AllFresh-deletions (ent ∷ entries) = elim (Bool-cases (ent.last_epoch == 0)) [
  | inl e ↦ elim (Bool-cases (is_delete ent.edge)) [
    | inl d ↦ rw (e, d) (ground arith, AllFresh-deletions entries)
    | inr d ↦ rw (e, d) (AllFresh-deletions entries)
  ]
  | inr e ↦ rw e tt
]

fresh-SortedEntries : (entries : List VersionEntry) → AllFresh entries → SortedEntries 0 entries
fresh-SortedEntries [] f = tt
fresh-SortedEntries (ent ∷ entries) (e, f) = (
  omega arith,
  omega (arith, e),
  subst (λ (b : ℕ). SortedEntries b entries) (sym e) (fresh-SortedEntries entries f),
)

old-SortedEntries :
    (b : ℕ) (entries : List VersionEntry)
    → SortedEntries b entries
    → SortedEntries 0 (old_entries entries)
old-SortedEntries b [] s = tt
old-SortedEntries b (ent ∷ entries) (p, q, s) = elim (Bool-cases (ent.last_epoch == 0)) [
  | inl e ↦ rw e (old-SortedEntries ent.last_epoch entries s)
  | inr e ↦ rw e (omega arith, q, s)
]

abbrev HeadOld : List VersionEntry → Type 0
HeadOld [] = Unit {0}
HeadOld (ent ∷ entries) = ent.last_epoch ≢ 0

old_entries-HeadOld : (entries : List VersionEntry) → HeadOld (old_entries entries)
old_entries-HeadOld [] = tt
old_entries-HeadOld (ent ∷ entries) = elim (Bool-cases (ent.last_epoch == 0)) [
  | inl e ↦ rw e (old_entries-HeadOld entries)
  | inr e ↦ rw e (ground arith)
]

sorted_up_to :
    (b : ℕ) (xs : List VersionEntry) (ent : VersionEntry) (ys : List VersionEntry)
    → SortedEntries b (xs ++ ent ∷ ys)
    → b ≤ ent.last_epoch
sorted_up_to b [] ent ys (p, q, s) = p
sorted_up_to b (x ∷ xs) ent ys (p, q, s) = omega (arith, p, sorted_up_to x.last_epoch xs ent ys s)

-- Old entries with fresh ones behind them are in order only if there are none of one kind.
append-SortedEntries :
    (old fresh : List VersionEntry)
    → SortedEntries 0 old
    → HeadOld old
    → AllFresh fresh
    → SortedEntries 0 (old ++ fresh) ↔ ((old ≡ []) ⊎ (fresh ≡ []))
append-SortedEntries [] fresh s head f = (λ t. inl refl, λ e. fresh-SortedEntries fresh f)
append-SortedEntries (ent ∷ old) [] s head f =
    (λ t. inr refl, λ e. subst (SortedEntries 0) (sym (append_nil (ent ∷ old))) s)
append-SortedEntries (ent ∷ old) (x ∷ fresh) s head (e, f) = (
  λ (p, q, t). absurd (head (omega (arith, sorted_up_to ent.last_epoch old x fresh t, e))),
  λ c. elim c [ inl z ↦ absurd (cc) | inr z ↦ absurd (cc) ],
)

items_of-start_of : (xs : List Item) → items_of (start_of xs) ≡ xs
items_of-start_of [] = refl
items_of-start_of (x ∷ xs) = refl

edge_halves-append : (xs ys : List Item) → edge_halves (xs ++ ys) ≡ edge_halves xs ++ edge_halves ys
edge_halves-append [] ys = refl
edge_halves-append (x ∷ xs) ys = ap (λ (l : List EdgeWithIndex). x.0 ∷ l) (edge_halves-append xs ys)

old_half-append :
    (xs ys : List VersionEntry) → map old_half (xs ++ ys) ≡ map old_half xs ++ map old_half ys
old_half-append [] ys = refl
old_half-append (x ∷ xs) ys =
    ap (λ (l : List EdgeWithIndex). old_half x ∷ l) (old_half-append xs ys)

halves-SortedRecords :
    (xs : List Item) (entries : List VersionEntry)
    → edge_halves xs ≡ map old_half entries
    → SortedRecords 0 xs ↔ SortedEntries 0 entries
halves-SortedRecords xs entries e =
    let (to, back) = SortedRecords-SortedHalves 0 xs in
    let (to', back') = SortedEntries-SortedHalves 0 entries in
    (
      λ s. back' (subst (SortedHalves 0) e (to s)),
      λ s. back (subst (SortedHalves 0) (sym e) (to' s)),
    )

module _ (sort : List VersionEntry → List VersionEntry) where
  -- The publication of a nonempty temporary version block whose sorted entries are reachable ends.
  -- The records of the block that it pushes are the versions that the entries replaced: in their
  -- order those of an epoch, then those of epoch 0 that were deleted. They are sorted by their
  -- epochs exactly if there are none of one of the two kinds. Afterwards the temporary version
  -- block is empty and not active, and the block, with the timestamp it had, is the newest of the
  -- chain.
  pub transform-SortedRecords :
      (s : VertexEdges) (slot : ℕ) (vb : VersionBlock)
      → length (s.tmp_vb slot).tmp_entry ≢ 0
      → AllReachable s (sort (s.tmp_vb slot).tmp_entry)
      → SortedEntries 0 (sort (s.tmp_vb slot).tmp_entry)
      → (r : VertexEdges × VersionBlock) × (transform sort s slot vb ≡ some r)
        × (edge_halves (items_of r.1.start)
            ≡ map old_half (
                old_entries (sort (s.tmp_vb slot).tmp_entry)
                ++ deletions (fresh_entries (sort (s.tmp_vb slot).tmp_entry))))
        × (SortedRecords 0 (items_of r.1.start) ↔ (
            (old_entries (sort (s.tmp_vb slot).tmp_entry) ≡ [])
            ⊎ (deletions (fresh_entries (sort (s.tmp_vb slot).tmp_entry)) ≡ [])))
        × ((r.0.tmp_vb slot).tmp_entry ≡ [])
        × (r.0.active_tvb_mask (ring_slot vb.timestamp) ≡ false)
        × (r.1.timestamp ≡ vb.timestamp)
        × (r.0.manager ≡ (push_vb s.edge_num s.manager r.1).1)
  unfolding transform finish clear push_vb
  transform-SortedRecords s slot vb some_entry reach in_order =
      let sorted = sort (s.tmp_vb slot).tmp_entry in
      let fresh = fresh_entries sorted in
      let old = old_entries sorted in
      let filled : (length (s.tmp_vb slot).tmp_entry == 0) ≡ false = ground arith in
      let (f, run1, dead, alike1) =
        first_loop-deletions s vb.timestamp vb.edge_num fresh
          (AllReachable-fresh_entries s sorted reach) (AllFresh-fresh_entries sorted) in
      let (o, run2, halves2, alike2) =
        second_loop-halves f.0 vb.timestamp 0 f.1 old
          (AllReachable-Alike s f.0 old alike1 (AllReachable-old_entries s sorted reach)) in
      let both = Alike-trans alike1 alike2 in
      let reach3 : AllReachable o.0 f.2 = subst (AllReachable o.0) (sym dead) (
        AllReachable-Alike s o.0 (deletions fresh) both
          (AllReachable-deletions s fresh (AllReachable-fresh_entries s sorted reach))) in
      let (t, run3, halves3, alike3) =
        third_loop-halves o.0 vb.timestamp (length old) o.1 f.2 reach3 in
      let full : VersionBlock = record vb { edge_num = t.1; start = start_of (o.2 ++ t.2) } in
      let halves : edge_halves (items_of full.start) ≡ map old_half (old ++ deletions fresh) =
        ap edge_halves (items_of-start_of (o.2 ++ t.2))
        ∙ edge_halves-append o.2 t.2
        ∙ append_cong halves2 (halves3 ∙ ap (map old_half) dead)
        ∙ sym (old_half-append old (deletions fresh)) in
      let (to, back) = halves-SortedRecords (items_of full.start) (old ++ deletions fresh) halves in
      let (to', back') =
        append-SortedEntries old (deletions fresh) (old-SortedEntries 0 sorted in_order)
          (old_entries-HeadOld sorted) (AllFresh-deletions sorted) in
      (
        (finish t.0 slot full, full),
        rw (filled, run1, run2, run3) refl,
        halves,
        (λ h. to' (to h), λ h. back (back' h)),
        ap (λ (x : TmpVersionBlock). x.tmp_entry)
            (update_here t.0.tmp_vb slot (clear (t.0.tmp_vb slot))),
        update_here t.0.active_tvb_mask (ring_slot vb.timestamp) false,
        refl,
        ap (λ (m : Manager). (push_vb s.edge_num m full).1) (Alike-trans both alike3).chained,
      )
