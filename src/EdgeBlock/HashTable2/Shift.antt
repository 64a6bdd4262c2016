-- ===== src/EdgeBlock/HashTable2/Shift.antt =====
-- HashTable2: the backward shift of a removal closes the gap.
use avbgraph.EdgeBlock.HashTable2.Gap.{
  occurs, occurs-set, count_full-set_any, masked_next-next, on_path-distance, Gapped,
  stop-Clustered, stay-Gapped, moved, at-moved, move-Gapped,
}
use avbgraph.EdgeBlock.HashTable2.Clusters.{Clustered, distance-next}
use avbgraph.EdgeBlock.HashTable2.Probe.{distance, count_full, hash-lt}
use avbgraph.EdgeBlock.HashTable2.{empty_slot, at, hash, next, masked_next, on_path, shift_loop}
use avbgraph.Prelude.{
  ℕ, zero, suc, ◌^◌, ◌≤◌, ◌<◌, ◌≡◌, refl, ◌≢◌, ◌∙◌, ap, sym, true, false, List, some, inl, inr,
  arith, ltb→lt, ◌==◌, set, length, get_or-set, length-set, Bool-cases, ==_iff,
}

-- What the shift gives: the same keys, with no gap.
pub record Shifted (n : ℕ) (xs ys : List ℕ) : Type 0 where
  pub width : length ys ≡ n
  pub reach : Clustered n ys
  pub same : (q : ℕ) → q ≢ empty_slot → occurs ys q ≡ occurs xs q
  pub full : count_full ys ≡ count_full xs

occurs-moved :
    (xs : List ℕ) (i k q : ℕ)
    → i < length xs
    → k < length xs
    → i ≢ k
    → at xs i ≡ empty_slot
    → q ≢ empty_slot
    → occurs (moved xs i k) q ≡ occurs xs q
occurs-moved xs i k q inn kn far free real =
    let a = occurs-set xs i (at xs k) q inn in
    let b =
      occurs-set (set xs i (at xs k)) k empty_slot q (omega (arith, length-set xs i (at xs k))) in
    let c = get_or-set xs i k (at xs k) empty_slot inn in ground (arith, a, b, c)

count_full-moved :
    (xs : List ℕ) (i k : ℕ)
    → i < length xs
    → k < length xs
    → i ≢ k
    → at xs i ≡ empty_slot
    → count_full (moved xs i k) ≡ count_full xs
count_full-moved xs i k inn kn far free =
    let a = count_full-set_any xs i (at xs k) inn in
    let b =
      count_full-set_any (set xs i (at xs k)) k empty_slot
        (omega (arith, length-set xs i (at xs k))) in
    let c = get_or-set xs i k (at xs k) empty_slot inn in ground (arith, a, b, c)

module _ (fuel n : ℕ) (xs : List ℕ) (i j k : ℕ) (step : masked_next n j ≡ k) where
  shift_loop-stop : at xs k ≡ empty_slot → shift_loop (suc fuel) n xs i j ≡ some xs
  unfolding shift_loop
  shift_loop-stop free = rw (step, free)

  shift_loop-move :
      at xs k ≢ empty_slot
      → on_path (hash n (at xs k)) i k ≡ true
      → shift_loop (suc fuel) n xs i j ≡ shift_loop fuel n (moved xs i k) k k
  unfolding shift_loop
  shift_loop-move filled on = rw step (ground arith)

  shift_loop-stay :
      at xs k ≢ empty_slot
      → on_path (hash n (at xs k)) i k ≡ false
      → shift_loop (suc fuel) n xs i j ≡ shift_loop fuel n xs i k
  unfolding shift_loop
  shift_loop-stay filled off = rw step (ground arith)

module _ (w n e : ℕ) (size : n ≡ 2 ^ w) (en : e < n) where
  -- The shift ends at the next free slot `e` at the latest.
  pub shift_loop-Shifted :
      (fuel : ℕ) (xs : List ℕ) (i j : ℕ)
      → length xs ≡ n
      → i < n
      → j < n
      → at xs i ≡ empty_slot
      → at xs e ≡ empty_slot
      → e ≢ i
      → e ≢ j
      → distance n j e ≤ fuel
      → Gapped n xs i j
      → (ys : List ℕ) × (shift_loop fuel n xs i j ≡ some ys) × Shifted n xs ys
  unfolding shift_loop
  shift_loop-Shifted zero xs i j l inn jn free end ei ej d g = absurd (ej (ground arith))
  shift_loop-Shifted (suc fuel) xs i j l inn jn free end ei ej d g =
      let step : masked_next n j ≡ next n j = masked_next-next w n j size jn in
      let kn : next n j < n = ground arith in
      elim (Bool-cases (at xs (next n j) == empty_slot)) [
        | inl stop ↦ (
          xs,
          shift_loop-stop fuel n xs i j (next n j) step
              ((==_iff (at xs (next n j)) empty_slot).0 stop),
          record {
            width = l;
            reach =
                stop-Clustered n xs i j inn jn ((==_iff (at xs (next n j)) empty_slot).0 stop) g;
            same = λ q real. refl;
            full = refl;
          },
        )
        | inr used ↦
            let filled : at xs (next n j) ≢ empty_slot = ground arith in
            let home = hash-lt n (at xs (next n j)) (omega arith) in
            let test = on_path-distance n (hash n (at xs (next n j))) i (next n j) home inn kn in
            let more : e ≢ next n j = λ z. filled (ap (at xs) (sym z) ∙ end) in
            let near : distance n (next n j) e ≤ fuel =
              omega (arith, distance-next n j e jn en (λ z. ej (sym z))) in
            elim (Bool-cases (on_path (hash n (at xs (next n j))) i (next n j))) [
              | inl on ↦
                  let far : i ≢ next n j = λ z. filled (ap (at xs) (sym z) ∙ free) in
                  let value = λ (q : ℕ). at-moved xs i (next n j) q (omega arith) (omega arith) in
                  let (ys, run, r) =
                    shift_loop-Shifted fuel (moved xs i (next n j)) (next n j) (next n j)
                      (length-set (set xs i (at xs (next n j))) (next n j) empty_slot
                        ∙ length-set xs i (at xs (next n j))
                        ∙ l)
                      kn kn (value (next n j) ∙ ground arith) (value e ∙ ground arith) more more
                      near
                      (move-Gapped n xs i j (next n j) l inn jn kn free filled
                        (ltb→lt _ _ (sym test ∙ on)) g) in
                  (
                    ys,
                    shift_loop-move fuel n xs i j (next n j) step filled on ∙ run,
                    record {
                      width = r.width;
                      reach = r.reach;
                      same = λ q real.
                          r.same q real
                          ∙ occurs-moved xs i (next n j) q (omega arith) (omega arith) far free
                              real;
                      full =
                          r.full
                          ∙ count_full-moved xs i (next n j) (omega arith) (omega arith) far free;
                    },
                  )
              | inr off ↦
                  let (ys, run, r) =
                    shift_loop-Shifted fuel xs i (next n j) l inn kn free end ei more near
                      (stay-Gapped n xs i j inn jn (sym test ∙ off) g) in
                  (ys, shift_loop-stay fuel n xs i j (next n j) step filled off ∙ run, r)
            ]
      ]
