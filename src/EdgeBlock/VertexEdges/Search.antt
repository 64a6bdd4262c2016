-- ===== src/EdgeBlock/VertexEdges/Search.antt =====
-- data-structure/EdgeBlock/VertexEdges.cpp, get_edge_index2 and get_edge_index: the search for an
-- edge in the sorted block and in the buffer. `key_at` is what stands in the memory at `start`,
-- from the slot 0 on; the loop also looks at the slot after the last edge.
pub mod Finds
use avbgraph.Prelude.{
  ◌>>=◌, ℕ, zero, suc, ◌+◌, ◌-◌, ◌/◌, ◌^◌, leb, Bool, true, false, List, [], ◌∷◌, Option, none,
  some, ltb, ◌==◌, if◌then◌else◌,
}
use avbgraph.Types.{strip}

-- The loop with the bounds `l` and `r = hi - 1`, which is -1 for `hi = 0`: the slot, or that there
-- is none. The outer `none` is fuel that ran out, or a sum `l + r` that is too large for an `int`.
unfoldable pub search_loop : ℕ → (ℕ → ℕ) → ℕ → ℕ → ℕ → Option (Option ℕ)
search_loop zero key_at e l hi = none
search_loop (suc fuel) key_at e l hi =
    let sum = l + (hi - 1) in
    let m = sum / 2 in
    let left = search_loop fuel key_at e l m in
    let right = search_loop fuel key_at e (m + 1) hi in
    if ltb l hi
    then (if leb (2 ^ 31) sum
        then none
        else if ltb e (strip (key_at m))
        then left
        else if ltb (strip (key_at m)) e
        then right
        else some (some m))
    else some none

-- `r = edges_and_versions`, as `hi`: from 2^31 on the `int` is negative.
unfoldable pub upper : ℕ → ℕ
upper edges_and_versions = if leb (2 ^ 31) edges_and_versions then 0 else edges_and_versions + 1

-- The interval halves, so that its width plus 1 is fuel enough.
unfoldable pub search : (ℕ → ℕ) → ℕ → ℕ → Option (Option ℕ)
unfolding upper
search key_at edges_and_versions e =
    search_loop (edges_and_versions + 2) key_at e 0 (upper edges_and_versions)

-- Without the answer: the callers do not test it, and use the pointers.
unfoldable pub get_edge_index2 : (ℕ → ℕ) → ℕ → ℕ → Option ℕ
unfolding search
get_edge_index2 key_at edges_and_versions e =
    search key_at edges_and_versions e >>= λ (found : Option ℕ). found

-- Where an edge stands: `start + i`, or `tmp_item + i`, which the code marks with TMPVB_MASK.
pub data Place : Type 0 where
  in_start : ℕ → Place
  in_tmp : ℕ → Place

-- The loop over the buffer, from the index `i` on.
unfoldable pub scan_tmp : List ℕ → ℕ → ℕ → Option Place
scan_tmp [] e i = none
scan_tmp (x ∷ xs) e i = if strip x == e then some (in_tmp i) else scan_tmp xs e (i + 1)

abbrev pub or_else {ℓ} : {A : Type ℓ} → Option A → Option A → Option A
or_else none q = q
or_else (some a) q = some a

abbrev pub place_start : Option ℕ → Option Place
place_start none = none
place_start (some m) = some (in_start m)

-- `none`: the edge is not found, which the callers do not test, or the search faults.
unfoldable pub get_edge_index : (ℕ → ℕ) → ℕ → List ℕ → ℕ → Option Place
unfolding search
get_edge_index key_at edges_and_versions tmp e =
    (if edges_and_versions == 0 then some none else search key_at edges_and_versions e)
    >>= λ (found : Option ℕ). or_else (place_start found) (scan_tmp tmp e 0)
