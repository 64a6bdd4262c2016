-- ===== src/Algorithm/Bfs.antt =====
-- algorithm/BFS.{h,cpp}: the direction-optimizing search. The queue, the bitmaps and the
-- compare-and-swap of gapbs are a parameter; the loops over the window and over the vertices run in
-- order. The counters of the statistics are left out, and the numbers have no bound.
pub mod Walks
pub mod TopDown
pub mod BottomUp
pub mod Unvisited
pub mod Queues
pub mod Rounds
pub mod Outer
pub mod Levels
use avbgraph.Prelude.Int.{ℤ, pos, negsuc, neg_part, ltb_ℤ, ◌+ℤ◌, ◌-ℤ◌}
use avbgraph.Prelude.{
  ℕ, zero, suc, ◌+◌, ◌-◌, ◌/◌, ◌^◌, ◌≡◌, Bool, true, false, ◌&&◌, ◌||◌, List, [], ◌∷◌, ◌++◌, Option,
  none, some, ltb, leb, ◌==◌, ◌>>=◌, if◌then◌else◌, length, update,
}

abbrev pub is_empty : List ℕ → Bool
is_empty [] = true
is_empty (x ∷ xs) = false

-- The sliding queue and the bitmap, with what the search relies on. `pending` is what was pushed
-- behind the window.
pub record Gapbs : Type 1 where
  pub Queue : Type 0
  pub fresh : Queue
  pub push_back : ℕ → Queue → Queue
  pub slide_window : Queue → Queue
  pub window : Queue → List ℕ
  pub pending : Queue → List ℕ
  pub pending-fresh : pending fresh ≡ []
  pub window-push_back : (v : ℕ) (q : Queue) → window (push_back v q) ≡ window q
  pub pending-push_back : (v : ℕ) (q : Queue) → pending (push_back v q) ≡ pending q ++ v ∷ []
  pub window-slide_window : (q : Queue) → window (slide_window q) ≡ pending q
  pub pending-slide_window : (q : Queue) → pending (slide_window q) ≡ []
  pub Bitmap : Type 0
  pub cleared : Bitmap
  pub reset : Bitmap → Bitmap
  pub set_bit : ℕ → Bitmap → Bitmap
  pub get_bit : Bitmap → ℕ → Bool
  pub get_bit-cleared : (v : ℕ) → get_bit cleared v ≡ false
  pub get_bit-reset : (b : Bitmap) (v : ℕ) → get_bit (reset b) v ≡ false
  pub get_bit-set_bit :
      (u : ℕ) (b : Bitmap) (v : ℕ)
      → get_bit (set_bit u b) v ≡ (if u == v then true else get_bit b v)

-- A graph as the search reads it: its vertices, how many there were when the search was made, their
-- degrees at the reader's epoch, and the destinations that for_each_edge hands on, without flags.
pub record Reading : Type 0 where
  pub max_vid : ℕ
  pub num_vertices : ℕ
  pub degree : ℕ → ℕ
  pub destinations : ℕ → List ℕ

-- `std::numeric_limits<int64_t>::max()`
abbrev pub int64_max : ℕ
int64_max = 2 ^ 63 - 1

abbrev pub negative : ℤ → Bool
negative (pos n) = false
negative (negsuc n) = true

abbrev pub is_max : ℤ → Bool
is_max (pos n) = n == int64_max
is_max (negsuc n) = false

-- The division of C, towards 0, by a number that is not 0.
abbrev pub quot : ℤ → ℕ → ℤ
quot (pos a) n = pos (a / n)
quot (negsuc a) n = pos 0 -ℤ pos (suc a / n)

-- What init_distance writes for a vertex: an unvisited one has its degree, negative, or -1.
unfoldable pub init_value : ℕ → ℤ
init_value out_degree =
    if out_degree == int64_max
    then pos out_degree
    else if out_degree == 0
    then negsuc 0
    else negsuc (out_degree - 1)

-- The sum of the degrees below a bound.
unfoldable pub total_edges : (ℕ → ℕ) → ℕ → ℕ
total_edges degree zero = 0
total_edges degree (suc n) = total_edges degree n + (if degree n == int64_max then 0 else degree n)

module _ (p : Gapbs) where
  open p use {
    Queue, Bitmap, fresh, push_back, slide_window, window, cleared, reset, set_bit, get_bit,
  }

  -- The state of a top-down step.
  pub record Down : Type 0 where
    pub distances : ℕ → ℤ
    pub queue : Queue
    pub scout_count : ℤ

  -- The state of a bottom-up step.
  pub record Up : Type 0 where
    pub distances : ℕ → ℤ
    pub next : Bitmap
    pub awake_count : ℕ

  -- The variables of bfs; `curr` is the bitmap that the next bottom-up step writes.
  pub record State : Type 0 where
    pub distances : ℕ → ℤ
    pub queue : Queue
    pub front : Bitmap
    pub curr : Bitmap
    pub edges_to_check : ℤ
    pub scout_count : ℤ
    pub distance : ℕ

  -- The callback of the top-down step.
  unfoldable pub td_edge : ℕ → ℕ → Down → Down
  td_edge distance dst s =
      let curr_val = s.distances dst in
      if negative curr_val
      then record {
        distances = update s.distances dst (pos distance);
        queue = push_back dst s.queue;
        scout_count = s.scout_count +ℤ pos (neg_part curr_val);
      }
      else s

  unfoldable pub td_edges : ℕ → List ℕ → Down → Down
  td_edges distance [] s = s
  td_edges distance (dst ∷ dsts) s = td_edges distance dsts (td_edge distance dst s)

  -- The callback of the bottom-up step: the scan ends at the first destination in the front.
  unfoldable pub found_neighbor : Bitmap → List ℕ → Bool
  found_neighbor front [] = false
  found_neighbor front (dst ∷ dsts) = get_bit front dst || found_neighbor front dsts

  unfoldable pub set_bits : List ℕ → Bitmap → Bitmap
  set_bits [] b = b
  set_bits (u ∷ us) b = set_bits us (set_bit u b)

  -- The vertices below a bound that the bitmap holds are pushed.
  unfoldable pub collect : Bitmap → ℕ → Queue → Queue
  collect front zero q = q
  collect front (suc n) q =
      let before = collect front n q in if get_bit front n then push_back n before else before

  module _ (g : Reading) where
    -- do_bfs_TDStep, on the window.
    unfoldable pub td_vertices : ℕ → List ℕ → Down → Down
    td_vertices distance [] s = s
    td_vertices distance (u ∷ us) s =
        td_vertices distance us (td_edges distance (g.destinations u) s)

    unfoldable pub do_bfs_td_step : ℕ → (ℕ → ℤ) → Queue → Down
    do_bfs_td_step distance distances queue =
        td_vertices distance (window queue)
          (record { distances = distances; queue = queue; scout_count = pos 0 })

    -- The vertices below a bound, in do_bfs_BUStep.
    unfoldable pub bu_vertex : ℕ → Bitmap → ℕ → Up → Up
    bu_vertex distance front u s =
        if is_max (s.distances u)
        then s
        else if negative (s.distances u) && found_neighbor front (g.destinations u)
        then record {
          distances = update s.distances u (pos distance);
          next = set_bit u s.next;
          awake_count = s.awake_count + 1;
        }
        else s

    unfoldable pub bu_vertices : ℕ → Bitmap → ℕ → Up → Up
    bu_vertices distance front zero s = s
    bu_vertices distance front (suc u) s =
        bu_vertex distance front u (bu_vertices distance front u s)

    unfoldable pub do_bfs_bu_step : ℕ → (ℕ → ℤ) → Bitmap → Bitmap → Up
    do_bfs_bu_step distance distances front next =
        bu_vertices distance front g.max_vid
          (record { distances = distances; next = reset next; awake_count = 0 })

    -- The body of the inner loop, with the swap of the bitmaps.
    unfoldable pub bu_round : State → State × ℕ
    bu_round s =
        let up = do_bfs_bu_step s.distance s.distances s.front s.curr in
        (
          record s {
            distances = up.distances;
            front = up.next;
            curr = s.front;
            distance = s.distance + 1;
          },
          up.awake_count,
        )

    -- `do ... while ((awake_count >= old_awake_count) || (awake_count > num_vertices / beta))`; a
    -- division by 0 faults.
    unfoldable pub bu_loop : ℕ → ℕ → ℕ → State → Option State
    bu_loop beta zero awake_count s = none
    bu_loop beta (suc fuel) awake_count s =
        let (s', awake) = bu_round s in
        let rest = bu_loop beta fuel awake s' in
        if leb awake_count awake
        then rest
        else if beta == 0
        then none
        else if ltb (g.num_vertices / beta) awake
        then rest
        else some s'

    -- The two bodies of the outer loop.
    unfoldable pub bottom_up : ℕ → State → Option State
    bottom_up beta s =
        let queue' = slide_window s.queue in
        let start = record s { front = set_bits (window s.queue) s.front; queue = queue' } in
        bu_loop beta (suc g.max_vid) (length (window s.queue)) start >>= λ (s' : State).
        some (record s' {
          queue = slide_window (collect s'.front g.max_vid s'.queue);
          scout_count = pos 1;
        })

    unfoldable pub top_down : State → State
    top_down s =
        let down = do_bfs_td_step s.distance s.distances s.queue in
        record s {
          distances = down.distances;
          queue = slide_window down.queue;
          edges_to_check = s.edges_to_check -ℤ s.scout_count;
          scout_count = down.scout_count;
          distance = s.distance + 1;
        }

    unfoldable pub bfs_round : ℕ → ℕ → State → Option State
    bfs_round alpha beta s =
        if alpha == 0
        then none
        else if ltb_ℤ (quot s.edges_to_check alpha) s.scout_count
        then bottom_up beta s
        else some (top_down s)

    unfoldable pub bfs_loop : ℕ → ℕ → ℕ → State → Option State
    bfs_loop alpha beta zero s = none
    bfs_loop alpha beta (suc fuel) s =
        let next = bfs_round alpha beta s >>= λ (s' : State). bfs_loop alpha beta fuel s' in
        if is_empty (window s.queue) then some s else next

    -- The variables before the outer loop.
    unfoldable pub bfs_start : ℕ → State
    bfs_start root = record {
      distances = update (λ v. init_value (g.degree v)) root (pos 0);
      queue = slide_window (push_back root fresh);
      front = cleared;
      curr = cleared;
      edges_to_check = pos (total_edges g.degree g.max_vid / 2);
      scout_count = pos (g.degree root);
      distance = 1;
    }

    -- bfs, up to the report of the distances.
    unfoldable pub bfs : ℕ → ℕ → ℕ → Option (ℕ → ℤ)
    bfs root alpha beta =
        bfs_loop alpha beta (suc (suc g.max_vid)) (bfs_start root) >>= λ (s : State).
        some s.distances

-- What bfs reports for a vertex, with the table of names of `MEA` and its size, if it is given.
unfoldable pub report_plain : (ℕ → ℤ) → ℕ → ℕ × ℤ
report_plain distances v =
    if is_max (distances v) then (2 ^ 64 - 1, pos int64_max) else (v, distances v)

unfoldable pub report : Option (ℕ × (ℕ → ℕ)) → (ℕ → ℤ) → ℕ → ℕ × ℤ
report none distances v = report_plain distances v
report (some (node_num, names)) distances v =
    if ltb v node_num then (names v, distances v) else report_plain distances v
