-- ===== src/Edges.antt =====
-- data-structure/data_types.h: edge_t, weighted_edge_t and temporal_edge_t, and how an edge is read
-- from a line.
pub mod Columns
pub mod Dense
use avbgraph.Prelude.{
  mem, ℕ, zero, suc, ◌+◌, ◌-◌, ◌*◌, ◌%◌, ◌^◌, Bool, true, false, ◌&&◌, List, [], ◌∷◌, Option, none,
  some, ltb, ◌==◌, if◌then◌else◌,
}
use avbgraph.Text.{Result, ok, err, ◌>>=◌, npos, find, substr, stoi}

pub record EdgeT : Type 0 where
  pub src : ℕ
  pub dst : ℕ

-- Addition and subtraction of 64-bit words.
abbrev pub add64 : ℕ → ℕ → ℕ
add64 a b = (a + b) % 2 ^ 64

abbrev pub sub64 : ℕ → ℕ → ℕ
sub64 a b = (a + 2 ^ 64 - b) % 2 ^ 64

unfoldable pub opposite : EdgeT → EdgeT
opposite e = record { src = e.dst; dst = e.src }

-- `operator>`
unfoldable pub greater : EdgeT → EdgeT → Bool
greater e other = if e.src == other.src then ltb other.dst e.dst else ltb other.src e.src

-- src_string and dst_string.
unfoldable pub edge_columns : List ℕ → ℕ → List ℕ × List ℕ
edge_columns line separator =
    let first = find line separator 0 in
    let second = find line separator (add64 first 1) in
    (substr line 0 first, substr line (add64 first 1) (sub64 (sub64 second first) 1))

unfoldable pub insert_vertex : ℕ → List ℕ → List ℕ
insert_vertex v vertex_set = if mem v vertex_set then vertex_set else v ∷ vertex_set

-- The table of the names with their numbers, and the next number.
pub record Densifier : Type 0 where
  pub densifyer : List (List ℕ × ℕ)
  pub next_vertex_id : ℕ

abbrev pub same_text : List ℕ → List ℕ → Bool
same_text [] [] = true
same_text [] (d ∷ t) = false
same_text (c ∷ s) [] = false
same_text (c ∷ s) (d ∷ t) = (c == d) && same_text s t

unfoldable pub find_name : List ℕ → List (List ℕ × ℕ) → Option ℕ
find_name name [] = none
find_name name ((other, id) ∷ rest) = if same_text other name then some id else find_name name rest

-- The number of a name, which is a new one if the name is.
unfoldable pub number_of : Option ℕ → List ℕ → Densifier → ℕ × Densifier
number_of (some id) name d = (id, d)
number_of none name d = (
  d.next_vertex_id,
  record {
    densifyer = (name, d.next_vertex_id) ∷ d.densifyer;
    next_vertex_id = d.next_vertex_id + 1;
  },
)

unfoldable pub densify_name : List ℕ → Densifier → ℕ × Densifier
densify_name name d = number_of (find_name name d.densifyer) name d

-- edge_t::parse_edge_densifying
unfoldable pub parse_edge_densifying : List ℕ → ℕ → Densifier → EdgeT × Densifier
parse_edge_densifying line separator d =
    let columns = edge_columns line separator in
    let first = densify_name columns.0 d in
    let second = densify_name columns.1 first.1 in
    (record { src = first.0; dst = second.0 }, second.1)

-- What reading a line changes: the table, or the set of the vertices.
pub record Reader : Type 0 where
  pub table : Densifier
  pub vertex_set : List ℕ

unfoldable pub parse_plain : List ℕ → ℕ → Reader → Result (EdgeT × Reader)
parse_plain line separator r =
    let columns = edge_columns line separator in
    stoi columns.0 >>= λ (src : ℕ).
    (stoi columns.1 >>= λ (dst : ℕ). ok (
      record { src = src; dst = dst },
      record r { vertex_set = insert_vertex dst (insert_vertex src r.vertex_set) },
    ))

-- edge_t::parse_edge
unfoldable pub parse_edge : List ℕ → ℕ → Bool → Reader → Result (EdgeT × Reader)
parse_edge line separator densify r =
    if densify
    then (let read = parse_edge_densifying line separator r.table in
        ok (read.0, record r { table = read.1 }))
    else parse_plain line separator r

pub record TemporalEdgeT : Type 0 where
  pub edge : EdgeT
  pub creation_timestamp : ℕ

-- The separator before a column, by one find for each column; -1 stands before the first.
unfoldable pub column_index : List ℕ → ℕ → ℕ → ℕ
column_index line separator zero = npos
column_index line separator (suc i) = find line separator (add64 (column_index line separator i) 1)

unfoldable pub column : List ℕ → ℕ → ℕ → List ℕ
column line separator position =
    let index = column_index line separator position in
    let after_index = find line separator (add64 index 1) in
    substr line (add64 index 1) (sub64 (sub64 after_index index) 1)

pub record WeightedEdgeT : Type 0 where
  pub edge : EdgeT
  pub weight : ℕ

-- weighted_edge_t::parse_edge, with std::stod as a parameter, whose number is converted to a word.
unfoldable pub parse_weighted :
    (List ℕ → Result ℕ) → List ℕ → ℕ → ℕ → Bool → Reader → Result (WeightedEdgeT × Reader)
parse_weighted stod line separator position densify r =
    parse_edge line separator densify r >>= λ (read : EdgeT × Reader).
    (if position == npos
      then ok (record { edge = read.0; weight = 0 }, read.1)
      else (stod (column line separator position) >>= λ (weight : ℕ).
          ok (record { edge = read.0; weight = weight }, read.1)))

-- temporal_edge_t::parse_edge; a position of `npos` means that there is no column of times.
unfoldable pub parse_temporal : List ℕ → ℕ → ℕ → Bool → Reader → Result (TemporalEdgeT × Reader)
parse_temporal line separator position densify r =
    parse_edge line separator densify r >>= λ (read : EdgeT × Reader).
    (if position == npos
      then ok (record { edge = read.0; creation_timestamp = 0 }, read.1)
      else (stoi (column line separator position) >>= λ (time : ℕ).
          ok (record { edge = read.0; creation_timestamp = time }, read.1)))
