-- ===== src/EdgeBlock/VertexEdges/Search/Finds.antt =====
-- What the search finds.
use avbgraph.EdgeBlock.VertexEdges.Search.{
  search_loop, upper, search, in_start, scan_tmp, get_edge_index,
}
use avbgraph.Prelude.{
  ℕ, zero, suc, ◌+◌, ◌-◌, ◌/◌, ◌≤◌, ◌<◌, ◌≡◌, ◌≢◌, false, List, none, some, arith, ◌==◌, Bool-cases,
  ltb, ltb→lt, ◌^◌, refl, inl, inr,
}
use avbgraph.Types.{strip}

-- The destinations of the edges rise.
abbrev pub Rising : (ℕ → ℕ) → ℕ → Type 0
Rising key_at n = (i j : ℕ) → i < j → j < n → strip (key_at i) < strip (key_at j)

-- An edge of the block stays between the bounds; the slot after the last edge is not looked at.
search_loop-present :
    (fuel : ℕ) (key_at : ℕ → ℕ) (n p l hi : ℕ)
    → Rising key_at n
    → p < n
    → l ≤ p
    → p < hi
    → hi ≤ n + 1
    → hi ≤ 2 ^ 30
    → hi - l < fuel
    → search_loop fuel key_at (strip (key_at p)) l hi ≡ some (some p)
unfolding search_loop
search_loop-present zero key_at n p l hi up pn lp ph hn small f = absurd (omega arith)
search_loop-present (suc fuel) key_at n p l hi up pn lp ph hn small f =
    let m = (l + (hi - 1)) / 2 in
    let left = search_loop-present fuel key_at n p l m up pn lp in
    let right = search_loop-present fuel key_at n p (m + 1) hi up pn in
    ground (arith, left, right, up m p, up p m)

-- A destination that is in none of the slots below the upper bound is not found.
search_loop-absent :
    (fuel : ℕ) (key_at : ℕ → ℕ) (e l hi : ℕ)
    → ((m : ℕ) → m < hi → strip (key_at m) ≢ e)
    → hi ≤ 2 ^ 30
    → hi - l < fuel
    → search_loop fuel key_at e l hi ≡ some none
unfolding search_loop
search_loop-absent zero key_at e l hi out small f = absurd (omega arith)
search_loop-absent (suc fuel) key_at e l hi out small f =
    let m = (l + (hi - 1)) / 2 in
    elim (Bool-cases (ltb l hi)) [
      | inl more ↦
          let less = ltb→lt l hi more in
          let left =
            search_loop-absent fuel key_at e l m (λ k h. out k (omega arith)) (omega arith)
              (omega arith) in
          let right = search_loop-absent fuel key_at e (m + 1) hi out small (omega arith) in
          rw more (ground (arith, left, right, out m (omega arith)))
      | inr done ↦ rw done refl
    ]

upper-small : (n : ℕ) → n < 2 ^ 30 → upper n ≡ n + 1
unfolding upper
upper-small n small = ground arith

-- In a block of `n` edges, fewer than 2^30, with rising destinations and a buffer, the search finds
-- an edge of the block at its slot, whatever stands behind the block and in the buffer. It looks
-- for an edge that is in none of the slots up to `n` in the buffer alone.
pub get_edge_index-finds :
    (key_at : ℕ → ℕ) (n : ℕ) (tmp : List ℕ)
    → n < 2 ^ 30
    → Rising key_at n
    → ((p : ℕ) → p < n → get_edge_index key_at n tmp (strip (key_at p)) ≡ some (in_start p))
      × ((e : ℕ)
          → ((m : ℕ) → m ≤ n → strip (key_at m) ≢ e)
          → get_edge_index key_at n tmp e ≡ scan_tmp tmp e 0)
unfolding get_edge_index search
get_edge_index-finds key_at n tmp small up = (
  λ p h.
      let found =
        search_loop-present (n + 2) key_at n p 0 (n + 1) up h (omega arith) (omega arith)
          (omega arith) (omega arith) (omega arith) in
      let some_edge : (n == 0) ≡ false = ground arith in
      rw (some_edge, upper-small n small, found) refl,
  λ e out.
      let missed =
        search_loop-absent (n + 2) key_at e 0 (n + 1) (λ m h. out m (omega arith)) (omega arith)
          (omega arith) in
      elim (Bool-cases (n == 0)) [
        | inl nothing ↦ rw nothing refl
        | inr some_edge ↦ rw (some_edge, upper-small n small, missed) refl
      ],
)

-- When the word behind a block of fewer than 2^30 edges continues the rise, the search answers with
-- the slot behind the block for that word as a destination, although the edge can only be in the
-- buffer.
pub get_edge_index-overruns :
    (key_at : ℕ → ℕ) (n : ℕ) (tmp : List ℕ)
    → 0 < n
    → n < 2 ^ 30
    → Rising key_at (n + 1)
    → get_edge_index key_at n tmp (strip (key_at n)) ≡ some (in_start n)
unfolding get_edge_index search
get_edge_index-overruns key_at n tmp h small up =
    let found =
      search_loop-present (n + 2) key_at (n + 1) n 0 (n + 1) up (omega arith) (omega arith)
        (omega arith) (omega arith) (omega arith) (omega arith) in
    let some_edge : (n == 0) ≡ false = ground arith in
    rw (some_edge, upper-small n small, found) refl
