-- ===== src/EdgeBlock/VertexEdges/Sorted/Merged.antt =====
-- What the sorted scan reports.
use avbgraph.EdgeBlock.VertexEdges.Sorted.{
  visible_tmp, no_last, report, merge_sorted, for_each_edge_sorted,
}
use avbgraph.EdgeBlock.VertexEdges.{VertexEdges, Item}
use avbgraph.Prelude.{
  ℕ, suc, ◌≤◌, ◌<◌, ◌≡◌, ◌⊎◌, refl, ap, ◌∙◌, Bool, true, false, ◌||◌, List, [], ◌∷◌, ltb, ◌==◌, map,
  take, arith, Bool-cases, inl, inr,
}
use avbgraph.Types.{is_delete}
use avbgraph.Version.Item.{EdgeWithIndex, is_visible_at}

-- The destinations rise from a bound on and are below the largest word.
abbrev pub Rises : ℕ → List EdgeWithIndex → Type 0
Rises b [] = Unit {0}
Rises b (x ∷ xs) = (b ≤ x.e) × (x.e < no_last) × Rises (suc x.e) xs

abbrev pub reaches : List EdgeWithIndex → ℕ → Bool
reaches [] k = false
reaches (x ∷ xs) k = (x.e == k) || reaches xs k

-- No edge is deleted, and each was created up to the epoch.
abbrev pub AllLive : ℕ → List EdgeWithIndex → Type 0
AllLive epoch [] = Unit {0}
AllLive epoch (x ∷ xs) = (is_delete x.e ≡ false) × (is_visible_at x epoch ≡ true) × AllLive epoch xs

Rises-from : (a b : ℕ) (xs : List EdgeWithIndex) → a ≤ b → Rises b xs → Rises a xs
Rises-from a b [] h r = tt
Rises-from a b (x ∷ xs) h (p, q, r) = (omega (arith, h, p), q, r)

reaches_before : (b k : ℕ) (xs : List EdgeWithIndex) → Rises b xs → k < b → reaches xs k ≡ false
reaches_before b k [] r h = refl
reaches_before b k (x ∷ xs) (p, q, r) h = ground (arith, reaches_before (suc x.e) k xs r, p, h)

-- The result `out` rises from a bound on and reaches what the lists reach from there.
record Union (b : ℕ) (xs ts out : List EdgeWithIndex) : Type 0 where
  rises : Rises b out
  reach : (k : ℕ) → b ≤ k → reaches out k ≡ (reaches xs k || reaches ts k)

-- Where the merge stands: `l` was reported last, the block rises from it and the buffer from the
-- next destination; or nothing was reported yet.
abbrev At : ℕ → ℕ → ℕ → Type 0
At b c l = ((l ≡ b) × (c ≡ suc b)) ⊎ ((l ≡ no_last) × (b ≡ 0) × (c ≡ 0))

-- Reporting an edge that is before the others, or not reporting it if it is the last.
report_reach :
    (x : EdgeWithIndex) (b c l : ℕ) (xs ts out : List EdgeWithIndex)
    → At b c l
    → x.e < no_last
    → Union (suc x.e) xs ts out
    → Rises x.e xs
    → Rises x.e ts
    → (k : ℕ) → c ≤ k
    → reaches (report x l out) k ≡ ((x.e == k) || (reaches xs k || reaches ts k))
report_reach x b c l xs ts out at high u rx rt k h = ground (
  arith,
  u.reach k,
  h,
  at,
  high,
  reaches_before x.e k xs rx,
  reaches_before x.e k ts rt,
  reaches_before (suc x.e) k out u.rises,
)

report-Rises :
    (x : EdgeWithIndex) (b c l : ℕ) (out : List EdgeWithIndex)
    → At b c l
    → b ≤ x.e
    → x.e < no_last
    → Rises (suc x.e) out
    → Rises c (report x l out)
report-Rises x b c l out at low high r = elim (Bool-cases (x.e == l)) [
  | inl e ↦ rw e (Rises-from c (suc x.e) out (ground (arith, at, low)) r)
  | inr e ↦ rw e (ground (arith, at, low), high, r)
]

merge-Union :
    (epoch b c l : ℕ) (xs ts : List EdgeWithIndex)
    → At b c l
    → AllLive epoch xs
    → Rises b xs
    → Rises c ts
    → Union c xs ts (merge_sorted epoch xs ts l)
unfolding merge_sorted
merge-Union epoch b c l [] [] at live rx rt = record { rises = tt; reach = λ k h. refl }
merge-Union epoch b c l [] (t ∷ ts) at live rx (p, q, rt) =
    let u = merge-Union epoch t.e (suc t.e) t.e [] ts (inl (refl, refl)) live tt rt in
    let out = merge_sorted epoch [] ts t.e in
    let rt' = Rises-from t.e (suc t.e) ts (omega arith) rt in
    record {
      rises = report-Rises t b c l out at (ground (arith, at, p)) q u.rises;
      reach = λ k h. report_reach t b c l [] ts out at q u tt rt' k h;
    }
merge-Union epoch b c l (x ∷ xs) [] at (d, v, live) (p, q, rx) rt =
    let rx' = Rises-from x.e (suc x.e) xs (omega arith) rx in
    let u = merge-Union epoch x.e (suc x.e) x.e xs [] (inl (refl, refl)) live rx' tt in
    let out = merge_sorted epoch xs [] x.e in
    record {
      rises = report-Rises x b c l out at p q u.rises;
      reach = λ k h. ground (arith, report_reach x b c l xs [] out at q u rx' tt k h);
    }
merge-Union epoch b c l (x ∷ xs) (t ∷ ts) at (d, v, live) (p, q, rx) (p', q', rt) =
    elim (Bool-cases (ltb x.e t.e)) [
      | inl less ↦
          let rx' = Rises-from x.e (suc x.e) xs (omega arith) rx in
          let above : Rises (suc x.e) (t ∷ ts) = (ground arith, q', rt) in
          let u =
            merge-Union epoch x.e (suc x.e) x.e xs (t ∷ ts) (inl (refl, refl)) live rx' above in
          let out = merge_sorted epoch xs (t ∷ ts) x.e in
          let above' = Rises-from x.e (suc x.e) (t ∷ ts) (omega arith) above in
          rw (d, v, less)
            record {
              rises = report-Rises x b c l out at p q u.rises;
              reach =
                  λ k h. ground (arith, report_reach x b c l xs (t ∷ ts) out at q u rx' above' k h);
            }
      | inr more ↦
          let above : Rises t.e (x ∷ xs) = (ground arith, q, rx) in
          let rt' = Rises-from t.e (suc t.e) ts (omega arith) rt in
          let u =
            merge-Union epoch t.e (suc t.e) t.e (x ∷ xs) ts (inl (refl, refl)) (d, v, live) above
              rt in
          let out = merge_sorted epoch (x ∷ xs) ts t.e in
          rw (d, v, more)
            record {
              rises = report-Rises t b c l out at (ground (arith, at, p')) q' u.rises;
              reach =
                  λ k h. ground (arith, report_reach t b c l (x ∷ xs) ts out at q' u above rt' k h);
            }
    ]

-- Behind the buffer, nothing is left out.
tail_unfiltered :
    (epoch b l : ℕ) (xs : List EdgeWithIndex)
    → Rises b xs
    → (l < b) ⊎ (l ≡ no_last)
    → merge_sorted epoch xs [] l ≡ xs
unfolding merge_sorted
tail_unfiltered epoch b l [] r h = refl
tail_unfiltered epoch b l (x ∷ xs) (p, q, r) h =
    let other : (x.e == l) ≡ false = ground (arith, p, q, h) in
    rw (other, tail_unfiltered epoch (suc x.e) x.e xs r (inl (omega arith))) refl

module _ (sort : List EdgeWithIndex → List EdgeWithIndex) where
  -- On a block of rising destinations whose edges are all live, and a buffer whose visible edges
  -- the sort brings into rising order, the sorted scan reports rising destinations, without
  -- repeating one, and reaches a destination exactly if the block or the visible part of the buffer
  -- does.
  pub for_each_edge_sorted-reaches :
      (epoch : ℕ) (s : VertexEdges)
      → AllLive epoch (map (λ (x : Item). x.0) s.start)
      → Rises 0 (map (λ (x : Item). x.0) s.start)
      → Rises 0 (sort (visible_tmp epoch (take s.tmp_ev s.tmp_item)))
      → ((k : ℕ)
          → reaches (sort (visible_tmp epoch (take s.tmp_ev s.tmp_item))) k
            ≡ reaches (visible_tmp epoch (take s.tmp_ev s.tmp_item)) k)
      → Rises 0 (for_each_edge_sorted sort epoch s)
        × ((k : ℕ)
            → reaches (for_each_edge_sorted sort epoch s) k ≡ (
                reaches (map (λ (x : Item). x.0) s.start) k
                || reaches (visible_tmp epoch (take s.tmp_ev s.tmp_item)) k))
  unfolding for_each_edge_sorted
  for_each_edge_sorted-reaches epoch s live rx rt same =
      let u =
        merge-Union epoch 0 0 no_last (map (λ (x : Item). x.0) s.start)
          (sort (visible_tmp epoch (take s.tmp_ev s.tmp_item))) (inr (refl, refl, refl)) live rx
          rt in
      (
        u.rises,
        λ k.
            u.reach k (omega arith)
            ∙ ap (λ (b : Bool). reaches (map (λ (x : Item). x.0) s.start) k || b) (same k),
      )

  -- When the buffer has no visible edge, the sorted scan reports every edge of the block, in
  -- rising order: also the deleted ones and those created after the reader's epoch.
  for_each_edge_sorted_unfiltered :
      (epoch : ℕ) (s : VertexEdges)
      → sort (visible_tmp epoch (take s.tmp_ev s.tmp_item)) ≡ []
      → Rises 0 (map (λ (x : Item). x.0) s.start)
      → for_each_edge_sorted sort epoch s ≡ map (λ (x : Item). x.0) s.start
  unfolding for_each_edge_sorted
  for_each_edge_sorted_unfiltered epoch s nothing rx =
      rw nothing (tail_unfiltered epoch 0 no_last (map (λ (x : Item). x.0) s.start) rx (inr refl))
