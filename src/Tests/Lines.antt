-- ===== src/Tests/Lines.antt =====
-- Lines of edges, separated by spaces.
use avbgraph.Edges.Columns.{line_of, parse_edge-print, parse_temporal-print}
use avbgraph.Edges.Dense.{empty_densifier, read_lines, restore, restore-read_lines}
use avbgraph.Edges.{
  Reader, edge_columns, insert_vertex, parse_edge, parse_plain, parse_edge_densifying, densify_name,
  number_of, find_name, parse_temporal,
}
use avbgraph.Prelude.{
  ℕ, ◌^◌, ◌≡◌, refl, inl, inr, false, ◌&&◌, List, [], ◌∷◌, ◌++◌, map, some, ltb, if◌then◌else◌,
  arith,
}
use avbgraph.Text.Numbers.{print, digits}
use avbgraph.Text.{
  ok, err, out_of_range, find, find_loop, substr, stoi, stoi_sign, stoi_digits, skip_space, value,
}

abbrev nothing_read : Reader
nothing_read = record { table = empty_densifier; vertex_set = [] }

parse_edge-print_example : parse_edge (line_of 32 (print 7) (print 12) []) 32 false nothing_read ≡ (
    if ltb 7 (2 ^ 31) && ltb 12 (2 ^ 31)
    then ok (
      record { src = 7; dst = 12 },
      record nothing_read { vertex_set = insert_vertex 12 (insert_vertex 7 []) },
    )
    else err out_of_range)
unfolding print digits
parse_edge-print_example = parse_edge-print 32 7 12 [] nothing_read refl (inl refl) (omega arith)

parse_temporal-print_example :
    parse_temporal
      (line_of 32 (print 7) (print 12) (32 ∷ (print 2147483648 ++ 32 ∷ 33 ∷ [])))
      32
      2
      false
      nothing_read
    ≡ (if ltb 7 (2 ^ 31) && ltb 12 (2 ^ 31) && ltb 2147483648 (2 ^ 31)
        then ok (
          record { edge = record { src = 7; dst = 12 }; creation_timestamp = 2147483648 },
          record nothing_read { vertex_set = insert_vertex 12 (insert_vertex 7 []) },
        )
        else err out_of_range)
unfolding print digits
parse_temporal-print_example =
    parse_temporal-print 32 7 12 2147483648 (32 ∷ 33 ∷ []) nothing_read refl (inr (33 ∷ [], refl))
      (omega arith)

-- "a b", "b c" and "a c".
abbrev three_lines : List (List ℕ)
three_lines = (97 ∷ 32 ∷ 98 ∷ []) ∷ (98 ∷ 32 ∷ 99 ∷ []) ∷ (97 ∷ 32 ∷ 99 ∷ []) ∷ []

restore-read_lines_example :
    map
      (restore (read_lines 32 three_lines empty_densifier).1)
      (read_lines 32 three_lines empty_densifier).0
    ≡ map (λ (line : List ℕ). some (edge_columns line 32)) three_lines
restore-read_lines_example = restore-read_lines 32 three_lines

three_edges :
    (read_lines 32 three_lines empty_densifier).0
    ≡ record { src = 0; dst = 1 } ∷ record { src = 1; dst = 2 } ∷ record { src = 0; dst = 2 } ∷ []
unfolding read_lines parse_edge_densifying densify_name number_of find_name edge_columns find
    find_loop substr
three_edges = refl

-- A line with no separator is an edge from a vertex to itself.
one_number :
    parse_edge (55 ∷ []) 32 false nothing_read
    ≡ ok (record { src = 7; dst = 7 }, record nothing_read { vertex_set = 7 ∷ [] })
unfolding parse_edge parse_plain edge_columns find find_loop substr stoi stoi_sign stoi_digits
    skip_space value insert_vertex
one_number = refl
