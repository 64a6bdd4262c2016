-- ===== src/EdgeBlock/VertexEdges/Merge/Compaction.antt =====
-- The whole merge: the block without its dead edges, and the buffer.
use avbgraph.EdgeBlock.HashTable2.Insert.{IsValid}
use avbgraph.EdgeBlock.HashTable2.Remove.{remove_dest-get_dest}
use avbgraph.EdgeBlock.HashTable2.{HashTable2, empty_slot}
use avbgraph.EdgeBlock.VertexEdges.Merge.Order.{
  key, Ascending, Falling-below, has, Apart, Ascending-from, reverse_onto-Falling, has-reverse_onto,
  length-reverse_onto, merge_back-Merged, merge_back-length, new_capacity-fits,
}
use avbgraph.EdgeBlock.VertexEdges.Merge.{
  drops, compact, reverse_onto, merge_back, merge_tmpev_with_eb,
}
use avbgraph.EdgeBlock.VertexEdges.{VertexEdges, Item, tmp_num}
use avbgraph.Prelude.{
  ℕ, ◌+◌, ◌-◌, ◌^◌, ◌<◌, ◌≤◌, ◌≡◌, ◌≢◌, refl, sym, ap, ◌∙◌, max, Bool, false, not, ◌||◌, List, [],
  ◌∷◌, some, arith, length, select, Bool-cases, inl, inr,
}
use avbgraph.Types.{strip}

-- The edges of the block that are not dead.
abbrev pub alive : ℕ → List Item → List Item
alive oldest xs = select (λ (x : Item). not (drops oldest x)) xs

strip_real : (e : ℕ) → strip e ≢ empty_slot
unfolding strip
strip_real e h = absurd (omega arith)

compact-alive :
    (oldest : ℕ) (xs : List Item) (d : HashTable2) (num : ℕ)
    → IsValid d
    → (d' : HashTable2) × (num' : ℕ) × (compact oldest xs d num ≡ some (alive oldest xs, d', num'))
      × IsValid d'
      × (length xs ≤ num → num' + length xs ≡ num + length (alive oldest xs))
unfolding compact
compact-alive oldest [] d num v = (d, num, refl, v, λ h. refl)
compact-alive oldest (x ∷ xs) d num v = elim (Bool-cases (drops oldest x)) [
  | inl dead ↦
      let (e, gone, ve, looks) = remove_dest-get_dest d (strip x.0.e) v (strip_real x.0.e) in
      let (d', num', run, v', left) = compact-alive oldest xs e (num - 1) ve in
      (d', num', rw (dead, gone) run, v', λ h. rw dead (omega (arith, left (omega arith), h)))
  | inr live ↦
      let (d', num', run, v', left) = compact-alive oldest xs d num v in
      (d', num', rw (live, run) refl, v', λ h. rw live (omega (arith, left (omega arith), h)))
]

alive-Ascending : (oldest b : ℕ) (xs : List Item) → Ascending b xs → Ascending b (alive oldest xs)
alive-Ascending oldest b [] s = tt
alive-Ascending oldest b (x ∷ xs) (p, s) = elim (Bool-cases (drops oldest x)) [
  | inl dead ↦ rw dead (
      Ascending-from b (key x + 1) (alive oldest xs) (omega arith)
        (alive-Ascending oldest (key x + 1) xs s))
  | inr live ↦ rw live (p, alive-Ascending oldest (key x + 1) xs s)
]

length-alive : (oldest : ℕ) (xs : List Item) → length (alive oldest xs) ≤ length xs
length-alive oldest [] = omega arith
length-alive oldest (x ∷ xs) = elim (Bool-cases (drops oldest x)) [
  | inl dead ↦ rw dead (omega (arith, length-alive oldest xs))
  | inr live ↦ rw live (omega (arith, length-alive oldest xs))
]

has-alive :
    (oldest : ℕ) (xs : List Item) (k : ℕ) → has xs k ≡ false → has (alive oldest xs) k ≡ false
unfolding has
has-alive oldest [] k h = refl
has-alive oldest (x ∷ xs) k h = elim (Bool-cases (drops oldest x)) [
  | inl dead ↦ rw dead (has-alive oldest xs k (ground arith))
  | inr live ↦ rw live (ground (arith, has-alive oldest xs k))
]

-- Two lists in order, merged from their ends.
merge_back-reversed :
    (xs ys : List Item)
    → Ascending 0 xs
    → Ascending 0 ys
    → Apart xs ys
    → (zs : List Item) × (merge_back
          (length xs + length ys + 1)
          (reverse_onto xs [])
          (reverse_onto ys [])
          []
        ≡ some zs)
      × Ascending 0 zs
      × ((k : ℕ) → has zs k ≡ (has ys k || has xs k))
      × (length zs ≡ length xs + length ys)
unfolding has
merge_back-reversed xs ys sx sy apart =
    let (a, fx) = reverse_onto-Falling 0 xs [] sx tt in
    let (b, fy) = reverse_onto-Falling 0 ys [] sy tt in
    let (zs, run, m) =
      merge_back-Merged (length xs + length ys + 1) (max a b) (reverse_onto xs [])
        (reverse_onto ys []) [] (Falling-below a (max a b) _ (omega arith) fx)
        (Falling-below b (max a b) _ (omega arith) fy) tt
        (λ k h. ground (arith, has-reverse_onto xs [] k, has-reverse_onto ys [] k, apart k))
        (omega (arith, length-reverse_onto xs [], length-reverse_onto ys [])) in
    (
      zs,
      run,
      m.order,
      λ k. ground (arith, m.edges k, has-reverse_onto xs [] k, has-reverse_onto ys [] k),
      omega (
        arith,
        merge_back-length _ (reverse_onto xs []) (reverse_onto ys []) [] zs run,
        length-reverse_onto xs [],
        length-reverse_onto ys [],
      ),
    )

module _ (sort : List Item → List Item) (oldest behind : ℕ) where
  -- If the index of destinations is valid, the block is sorted, no destination is both in the block
  -- and in the buffer, the buffer has its 64 edges, the number of the edges is that of the block
  -- and of the buffer and below 2^31, and the sort puts the buffer in rising order and keeps its
  -- edges' number and destinations, then the merge ends. The new block is in rising order, so that
  -- the search applies to it. It has exactly the destinations of the buffer and of the block
  -- without the edges that were deleted before the watermark. The index is valid, the buffer is
  -- empty, the number of the edges is that of the new block, and the capacity is at least the
  -- number of edges from before, so that the new block fits.
  pub merge_tmpev_with_eb-Ascending :
      (s : VertexEdges)
      → IsValid s.destinations
      → Ascending 0 s.start
      → Ascending 0 (sort s.tmp_item)
      → ((k : ℕ) → has (sort s.tmp_item) k ≡ has s.tmp_item k)
      → length (sort s.tmp_item) ≡ length s.tmp_item
      → Apart s.tmp_item s.start
      → length s.tmp_item ≡ tmp_num
      → s.num ≡ length s.start + tmp_num
      → s.num < 2 ^ 31
      → (r : VertexEdges) × (merge_tmpev_with_eb sort oldest behind s ≡ some r)
        × Ascending 0 r.start
        × ((k : ℕ) → has r.start k ≡ (has (alive oldest s.start) k || has s.tmp_item k))
        × IsValid r.destinations
        × (r.tmp_ev ≡ 0)
        × (r.num ≡ length r.start)
        × (s.num ≤ r.capacity)
        × (length r.start ≤ r.capacity)
  unfolding merge_tmpev_with_eb
  merge_tmpev_with_eb-Ascending s valid block buffer same kept apart whole counted word =
      let (c, doubled, fits) = new_capacity-fits s.num s.capacity (omega arith) in
      let (d, n, compacted, v, left) = compact-alive oldest s.start s.destinations s.num valid in
      let (zs, merged, order, edges, long) =
        merge_back-reversed (sort s.tmp_item) (alive oldest s.start) buffer
          (alive-Ascending oldest 0 s.start block)
          (λ k h. has-alive oldest s.start k (apart k (sym (same k) ∙ h))) in
      let total : n + length s.start ≡ s.num + length (alive oldest s.start) = left (omega arith) in
      let less = length-alive oldest s.start in
      (
        record s {
          start = zs;
          behind = behind;
          capacity = c;
          tmp_ev = 0;
          merge_times = s.merge_times + 1;
          destinations = d;
          num = n;
        },
        rw (doubled, compacted, merged) refl,
        order,
        λ k. edges k ∙ ap (λ (b : Bool). has (alive oldest s.start) k || b) (same k),
        v,
        refl,
        omega (arith, total, long, kept, whole, counted),
        fits,
        omega (arith, long, kept, whole, counted, less, fits),
      )
