-- ===== src/Edges/Columns.antt =====
-- Lines of decimal columns are read back.
use avbgraph.Edges.{
  Reader, add64, sub64, edge_columns, insert_vertex, parse_plain, parse_edge, column_index, column,
  parse_temporal,
}
use avbgraph.Prelude.{
  ℕ, suc, ◌+◌, ◌^◌, ◌<◌, ◌≤◌, ◌≡◌, ◌⊎◌, inl, inr, refl, ap, ◌∙◌, false, ◌&&◌, List, [], ◌∷◌, ◌++◌,
  if◌then◌else◌, ltb, length, length-append, append_nil, arith,
}
use avbgraph.Text.Columns.{
  Free, find_loop-here, find_loop-npos, drop-suc, take-append, take-whole, drop-drop,
}
use avbgraph.Text.Numbers.{print, stoi-print, AllDigits, print-AllDigits}
use avbgraph.Text.{ok, err, out_of_range, npos, drop, find_loop, find, substr, is_digit}

-- What follows a column: nothing, or a separator and the rest of the line.
abbrev pub Follows : ℕ → List ℕ → Type 0
Follows separator tail = (tail ≡ []) ⊎ ((rest : List ℕ) × (tail ≡ separator ∷ rest))

-- A text between two separators, the first at an index.
abbrev field : List ℕ → ℕ → ℕ → List ℕ
field line separator index =
    substr line (add64 index 1) (sub64 (sub64 (find line separator (add64 index 1)) index) 1)

module _ (line : List ℕ) (separator pos : ℕ) (c rest : List ℕ)
    (at : drop pos line ≡ c ++ separator ∷ rest) (free : Free separator c) where
  find-here : find line separator pos ≡ pos + length c
  unfolding find
  find-here = ap (find_loop separator pos) at ∙ find_loop-here separator pos c rest free

  drop-next : drop (suc (pos + length c)) line ≡ rest
  drop-next =
      drop-drop (suc (pos + length c)) pos (suc (length c)) line (omega arith)
      ∙ ap (drop (suc (length c))) at
      ∙ drop-suc separator c rest

-- The length of a column, as the words that the code subtracts.
between :
    (index pos n : ℕ)
    → add64 index 1 ≡ pos
    → index < 2 ^ 64
    → pos + n < 2 ^ 63
    → sub64 (sub64 (pos + n) index) 1 ≡ n
between index pos n next word inside = omega (arith, next, word, inside)

up_to_end :
    (index pos n : ℕ)
    → add64 index 1 ≡ pos
    → index < 2 ^ 64
    → pos + n < 2 ^ 63
    → n ≤ sub64 (sub64 npos index) 1
up_to_end index pos n next word inside = omega (arith, next, word, inside)

find-npos :
    (line : List ℕ) (separator pos : ℕ) (c : List ℕ)
    → drop pos line ≡ c
    → Free separator c
    → find line separator pos ≡ npos
unfolding find
find-npos line separator pos c at free =
    ap (find_loop separator pos) at ∙ find_loop-npos separator pos c free

module _ (line : List ℕ) (separator index pos : ℕ) (c tail : List ℕ) (next : add64 index 1 ≡ pos)
    (word : index < 2 ^ 64) (at : drop pos line ≡ c ++ tail) (inside : pos + length c < 2 ^ 63)
    (free : Free separator c) (follows : Follows separator tail) where
  field-column : field line separator index ≡ c
  unfolding substr
  field-column = elim follows [
    | inl e ↦
        let whole : drop pos line ≡ c = at ∙ ap (λ (s : List ℕ). c ++ s) e ∙ append_nil c in
        let missing : find line separator pos ≡ npos = find-npos line separator pos c whole free in
        rw (next, missing, whole) (take-whole _ c (up_to_end index pos (length c) next word inside))
    | inr (rest, e) ↦
        let cut : drop pos line ≡ c ++ separator ∷ rest = at ∙ ap (λ (s : List ℕ). c ++ s) e in
        let found = find-here line separator pos c rest cut free in
        rw (next, found, between index pos (length c) next word inside, cut)
          (take-append c (separator ∷ rest))
  ]

digits-Free :
    (separator : ℕ) (s : List ℕ) → is_digit separator ≡ false → AllDigits s → Free separator s
digits-Free separator [] h d = tt
digits-Free separator (c ∷ s) h (x, d) = (ground (arith, h, x), digits-Free separator s h d)

-- The two columns before the rest of a line.
abbrev pub line_of : ℕ → List ℕ → List ℕ → List ℕ → List ℕ
line_of separator a b tail = a ++ separator ∷ (b ++ tail)

length-line_of :
    (separator : ℕ) (a b tail : List ℕ)
    → length (line_of separator a b tail) ≡ length a + length b + length tail + 1
length-line_of separator a b tail =
    omega (arith, length-append a (separator ∷ (b ++ tail)), length-append b tail)

module _ (separator : ℕ) (a b tail : List ℕ) (fa : Free separator a)
    (short : length (line_of separator a b tail) < 2 ^ 63) where
  abbrev first_separator : ℕ
  first_separator = find (line_of separator a b tail) separator 0

  first_separator-length : first_separator ≡ length a
  first_separator-length =
      find-here (line_of separator a b tail) separator 0 a (b ++ tail) refl fa ∙ omega arith

  second_start : add64 first_separator 1 ≡ suc (length a)
  second_start = omega (arith, first_separator-length, short, length-line_of separator a b tail)

  second_column-field :
      Free separator b
      → Follows separator tail
      → field (line_of separator a b tail) separator first_separator ≡ b
  second_column-field fb follows =
      field-column (line_of separator a b tail) separator first_separator (suc (length a)) b tail
        second_start
        (omega (arith, first_separator-length, short, length-line_of separator a b tail))
        (drop-suc separator a (b ++ tail)) (omega (arith, short, length-line_of separator a b tail))
        fb follows

  first_column : substr (line_of separator a b tail) 0 first_separator ≡ a
  unfolding substr
  first_column = rw first_separator-length (take-append a (separator ∷ (b ++ tail)))

  edge_columns-line_of :
      Free separator b
      → Follows separator tail
      → edge_columns (line_of separator a b tail) separator ≡ (a, b)
  unfolding edge_columns
  edge_columns-line_of fb follows = rw (first_column, second_column-field fb follows) refl

-- A line of two decimal numbers, with anything behind a further separator, is read as the edge
-- between them if both are below 2 ^ 31, and its ends join the vertices; otherwise the reading ends
-- in std::out_of_range. The separator is no digit, and the line is shorter than 2 ^ 63.
pub parse_edge-print :
    (separator s d : ℕ) (tail : List ℕ) (r : Reader)
    → is_digit separator ≡ false
    → Follows separator tail
    → length (line_of separator (print s) (print d) tail) < 2 ^ 63
    → parse_edge (line_of separator (print s) (print d) tail) separator false r ≡ (
        if ltb s (2 ^ 31) && ltb d (2 ^ 31)
        then ok (
          record { src = s; dst = d },
          record r { vertex_set = insert_vertex d (insert_vertex s r.vertex_set) },
        )
        else err out_of_range)
unfolding parse_edge parse_plain
parse_edge-print separator s d tail r sep follows short =
    let fs = digits-Free separator (print s) sep (print-AllDigits s) in
    let fd = digits-Free separator (print d) sep (print-AllDigits d) in
    rw (edge_columns-line_of separator (print s) (print d) tail fs short fd follows)
      (rw (stoi-print s, stoi-print d) (ground arith))

-- The third column of a line.
module _ (separator : ℕ) (a b c tail : List ℕ) (fa : Free separator a) (fb : Free separator b)
    (fc : Free separator c) (follows : Follows separator tail)
    (short : length (line_of separator a b (separator ∷ (c ++ tail))) < 2 ^ 63) where
  second_separator-length :
      column_index (line_of separator a b (separator ∷ (c ++ tail))) separator 2
      ≡ suc (length a) + length b
  unfolding column_index
  second_separator-length =
      let rest = separator ∷ (c ++ tail) in
      let line = line_of separator a b rest in
      ap (find line separator) (second_start separator a b rest fa short)
      ∙ find-here line separator (suc (length a)) b (c ++ tail) (drop-suc separator a (b ++ rest))
          fb

  column-third : column (line_of separator a b (separator ∷ (c ++ tail))) separator 2 ≡ c
  unfolding column
  column-third =
      let rest = separator ∷ (c ++ tail) in
      let line = line_of separator a b rest in
      let index = column_index line separator 2 in
      let sizes = length-line_of separator a b rest in
      let inner = length-append c tail in
      field-column line separator index (suc (suc (length a) + length b)) c tail
        (omega (arith, second_separator-length, short, sizes, inner))
        (omega (arith, second_separator-length, short, sizes, inner))
        (drop-next line separator (suc (length a)) b (c ++ tail) (drop-suc separator a (b ++ rest))
          fb)
        (omega (arith, short, sizes, inner)) fc follows

-- A line of an edge and its time, in three decimal columns, is read as that edge with that time if
-- all three numbers are below 2 ^ 31; otherwise the reading ends in std::out_of_range.
pub parse_temporal-print :
    (separator s d time : ℕ) (tail : List ℕ) (r : Reader)
    → is_digit separator ≡ false
    → Follows separator tail
    → length (line_of separator (print s) (print d) (separator ∷ (print time ++ tail))) < 2 ^ 63
    → parse_temporal
        (line_of separator (print s) (print d) (separator ∷ (print time ++ tail)))
        separator
        2
        false
        r
      ≡ (if ltb s (2 ^ 31) && ltb d (2 ^ 31) && ltb time (2 ^ 31)
          then ok (
            record { edge = record { src = s; dst = d }; creation_timestamp = time },
            record r { vertex_set = insert_vertex d (insert_vertex s r.vertex_set) },
          )
          else err out_of_range)
unfolding parse_temporal
parse_temporal-print separator s d time tail r sep follows short =
    let fs = digits-Free separator (print s) sep (print-AllDigits s) in
    let fd = digits-Free separator (print d) sep (print-AllDigits d) in
    let ft = digits-Free separator (print time) sep (print-AllDigits time) in
    let rest = separator ∷ (print time ++ tail) in
    rw (parse_edge-print separator s d rest r sep (inr (print time ++ tail, refl)) short) (
      rw
        (
          column-third separator (print s) (print d) (print time) tail fs fd ft follows short,
          stoi-print time,
        )
        (ground arith))
