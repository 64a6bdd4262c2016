-- ===== src/Tests/Searches.antt =====
-- The breadth-first search on the path 0 - 1 - 2 beside the vertex 3.
use avbgraph.Algorithm.Bfs.Levels.{bfs-IsLevel}
use avbgraph.Algorithm.Bfs.Walks.{IsLevel, IsUndirected}
use avbgraph.Algorithm.Bfs.{
  Gapbs, Reading, bfs, bfs_loop, bfs_start, bfs_round, bottom_up, bu_loop, bu_round, do_bfs_bu_step,
  bu_vertices, bu_vertex, found_neighbor, set_bits, collect, top_down, do_bfs_td_step, td_vertices,
  td_edges, td_edge, init_value, total_edges, report, report_plain,
}
use avbgraph.Prelude.Int.{ℤ, pos, negsuc, ◌+ℤ◌, ◌-ℤ◌}
use avbgraph.Prelude.{
  mem, ℕ, zero, suc, ◌<◌, ◌≡◌, ◌↔◌, refl, true, false, Bool, List, [], ◌∷◌, ◌++◌, map, Option, none,
  some, ◌==◌, ltb, if◌then◌else◌, update, arith, ◌>>=◌,
}

-- A queue as its window and what was pushed, and a bitmap as its bits.
abbrev lists : Gapbs
lists = record {
  Queue = List ℕ × List ℕ;
  fresh = ([], []);
  push_back = λ v q. (q.0, q.1 ++ v ∷ []);
  slide_window = λ q. (q.1, []);
  window = λ q. q.0;
  pending = λ q. q.1;
  pending-fresh = refl;
  window-push_back = λ v q. refl;
  pending-push_back = λ v q. refl;
  window-slide_window = λ q. refl;
  pending-slide_window = λ q. refl;
  Bitmap = ℕ → Bool;
  cleared = λ v. false;
  reset = λ b v. false;
  set_bit = λ u b. update b u true;
  get_bit = λ b v. b v;
  get_bit-cleared = λ v. refl;
  get_bit-reset = λ b v. refl;
  get_bit-set_bit = λ u b v. refl;
}

abbrev path_edges : ℕ → List ℕ
path_edges zero = 1 ∷ []
path_edges (suc zero) = 0 ∷ 2 ∷ []
path_edges (suc (suc zero)) = 1 ∷ []
path_edges (suc (suc (suc v))) = []

abbrev path_degree : ℕ → ℕ
path_degree v = if v == 1 then 2 else if ltb v 3 then 1 else 0

abbrev path : Reading
path = record { max_vid = 4; num_vertices = 4; degree = path_degree; destinations = path_edges }

path-inside : (u v : ℕ) → u < 4 → mem v (path_edges u) ≡ true → v < 4
path-inside zero v h e = ground (arith, e)
path-inside (suc zero) v h e = ground (arith, e)
path-inside (suc (suc zero)) v h e = ground (arith, e)
path-inside (suc (suc (suc u))) v h e = absurd (cc)

path-symmetric : (u v : ℕ) → u < 4 → mem v (path_edges u) ≡ true → mem u (path_edges v) ≡ true
path-symmetric zero zero h e = absurd (ground (arith, e))
path-symmetric zero (suc zero) h e = refl
path-symmetric zero (suc (suc v)) h e = absurd (ground (arith, e))
path-symmetric (suc zero) zero h e = refl
path-symmetric (suc zero) (suc zero) h e = absurd (ground (arith, e))
path-symmetric (suc zero) (suc (suc zero)) h e = refl
path-symmetric (suc zero) (suc (suc (suc v))) h e = absurd (ground (arith, e))
path-symmetric (suc (suc zero)) zero h e = absurd (ground (arith, e))
path-symmetric (suc (suc zero)) (suc zero) h e = refl
path-symmetric (suc (suc zero)) (suc (suc v)) h e = absurd (ground (arith, e))
path-symmetric (suc (suc (suc u))) v h e = absurd (cc)

path-IsUndirected : IsUndirected path
path-IsUndirected = record { inside = path-inside; symmetric = path-symmetric }

bfs-IsLevel_example :
    (r : ℕ → ℤ) × (bfs lists path 1 15 18 ≡ some r)
    × ((v k : ℕ) → v < 4 → (r v ≡ pos k) ↔ IsLevel path 1 k v)
bfs-IsLevel_example =
    bfs-IsLevel lists path 1 15 18 path-IsUndirected (omega arith) (omega arith) (omega arith)
      (λ v h. ground arith)

-- The reports of a search from an end of the path that starts bottom-up, and of one that does not.
reports : ℕ → ℕ → Option (List (ℕ × ℤ))
unfolding bfs bfs_loop bfs_start bfs_round bottom_up bu_loop bu_round do_bfs_bu_step bu_vertices
    bu_vertex found_neighbor set_bits collect top_down do_bfs_td_step td_vertices td_edges td_edge
    init_value total_edges report report_plain
reports alpha beta =
    bfs lists path 0 alpha beta >>= λ (r : ℕ → ℤ). some (map (report none r) (0 ∷ 1 ∷ 2 ∷ 3 ∷ []))

reports_bottom_up : reports 15 18 ≡ some ((0, pos 0) ∷ (1, pos 1) ∷ (2, pos 2) ∷ (3, negsuc 0) ∷ [])
unfolding reports
reports_bottom_up = refl

reports_top_down : reports 1 18 ≡ some ((0, pos 0) ∷ (1, pos 1) ∷ (2, pos 2) ∷ (3, negsuc 0) ∷ [])
unfolding reports ◌-ℤ◌ ◌+ℤ◌
reports_top_down = refl
