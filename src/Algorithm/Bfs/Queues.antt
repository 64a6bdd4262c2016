-- ===== src/Algorithm/Bfs/Queues.antt =====
-- The conversions between the queue and the bitmap.
use avbgraph.Algorithm.Bfs.TopDown.{mem-append}
use avbgraph.Algorithm.Bfs.{Gapbs, is_empty, set_bits, collect}
use avbgraph.Prelude.{
  mem, ℕ, zero, suc, ◌<◌, ◌≡◌, inl, inr, refl, ap, ◌∙◌, true, false, ◌&&◌, ◌||◌, List, [], ◌∷◌,
  ◌==◌, ltb, length, arith, Bool-cases,
}

pub set_bits-get_bit :
    (p : Gapbs) (us : List ℕ) (b : p.Bitmap) (v : ℕ)
    → p.get_bit (set_bits p us b) v ≡ (mem v us || p.get_bit b v)
unfolding set_bits
set_bits-get_bit p [] b v = refl
set_bits-get_bit p (u ∷ us) b v =
    set_bits-get_bit p us (p.set_bit u b) v ∙ ground (arith, p.get_bit-set_bit u b v)

pub collect-pending :
    (p : Gapbs) (front : p.Bitmap) (n : ℕ) (q : p.Queue) (v : ℕ)
    → mem v (p.pending (collect p front n q))
      ≡ (mem v (p.pending q) || (ltb v n && p.get_bit front v))
unfolding collect
collect-pending p front zero q v = let low : ltb v 0 ≡ false = ground arith in rw low (ground arith)
collect-pending p front (suc n) q v =
    let before = collect p front n q in
    let rest = collect-pending p front n q v in
    elim (Bool-cases (n == v)) [
      | inl at ↦
          let same : n ≡ v = ground arith in
          let bit : p.get_bit front n ≡ p.get_bit front v = ap (p.get_bit front) same in
          let low : ltb v (suc n) ≡ true = ground arith in
          let now : ltb v n ≡ false = ground arith in
          elim (Bool-cases (p.get_bit front n)) [
            | inl e ↦
                rw (e, p.pending-push_back n before)
                  (mem-append v (p.pending before) (n ∷ []) ∙ ground (arith, rest, bit, e, low, at))
            | inr e ↦ rw e (ground (arith, rest, bit, e, low, now))
          ]
      | inr other ↦
          let low : ltb v (suc n) ≡ ltb v n = ground arith in
          elim (Bool-cases (p.get_bit front n)) [
            | inl e ↦
                rw (e, p.pending-push_back n before)
                  (mem-append v (p.pending before) (n ∷ []) ∙ ground (arith, rest, low, other))
            | inr e ↦ rw e (ground (arith, rest, low))
          ]
    ]

pub some_member : (us : List ℕ) → is_empty us ≡ false → (v : ℕ) × (mem v us ≡ true)
some_member [] e = absurd (cc)
some_member (u ∷ us) e = (u, ground arith)

pub some_length : (us : List ℕ) → is_empty us ≡ false → 0 < length us
some_length [] e = absurd (cc)
some_length (u ∷ us) e = omega arith
