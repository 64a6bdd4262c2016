-- ===== src/Edges/Dense.antt =====
-- The names of a file can be got back from the edges that were read.
use avbgraph.Edges.{
  EdgeT, Densifier, edge_columns, same_text, find_name, number_of, densify_name,
  parse_edge_densifying,
}
use avbgraph.Prelude.{
  ℕ, ◌<◌, ◌≡◌, refl, ap, ◌∙◌, true, false, List, [], ◌∷◌, map, Option, none, some, ◌==◌, ◌>>=◌,
  if◌then◌else◌, length, arith, Bool-cases, Option-cases, inl, inr, ==_refl,
}

-- The name that has a number.
unfoldable pub name_of : ℕ → List (List ℕ × ℕ) → Option (List ℕ)
name_of i [] = none
name_of i ((name, id) ∷ rest) = if id == i then some name else name_of i rest

-- The two names of an edge.
unfoldable pub restore : Densifier → EdgeT → Option (List ℕ × List ℕ)
restore d e = name_of e.src d.densifyer >>= λ (s : List ℕ).
    (name_of e.dst d.densifyer >>= λ (t : List ℕ). some (s, t))

-- The lines of a file, read in order.
unfoldable pub read_lines : ℕ → List (List ℕ) → Densifier → List EdgeT × Densifier
read_lines separator [] d = ([], d)
read_lines separator (line ∷ lines) d =
    let read = parse_edge_densifying line separator d in
    let rest = read_lines separator lines read.1 in (read.0 ∷ rest.0, rest.1)

abbrev pub empty_densifier : Densifier
empty_densifier = record { densifyer = []; next_vertex_id = 0 }

-- The numbers are given out from 0 on.
abbrev Numbered : List (List ℕ × ℕ) → Type 0
Numbered [] = Unit {0}
Numbered ((name, id) ∷ rest) = (id ≡ length rest) × Numbered rest

record IsDense (d : Densifier) : Type 0 where
  next_lem : d.next_vertex_id ≡ length d.densifyer
  numbered : Numbered d.densifyer

-- A name that is restored stays so.
abbrev Extends : Densifier → Densifier → Type 0
Extends d d' =
    (i : ℕ) (name : List ℕ) → name_of i d.densifyer ≡ some name → name_of i d'.densifyer ≡ some name

same_text_sound : (s t : List ℕ) → same_text s t ≡ true → s ≡ t
same_text_sound [] [] e = refl
same_text_sound [] (d ∷ t) e = absurd (cc)
same_text_sound (c ∷ s) [] e = absurd (cc)
same_text_sound (c ∷ s) (d ∷ t) e = elim (Bool-cases (c == d)) [
  | inl at ↦
      let same : c ≡ d = ground arith in
      let rest = same_text_sound s t (ground (arith, e, at)) in
      ap (λ (k : ℕ). k ∷ s) same ∙ ap (λ (r : List ℕ). d ∷ r) rest
  | inr off ↦ absurd (ground (arith, e, off))
]

name_of-length :
    (i : ℕ) (table : List (List ℕ × ℕ)) (name : List ℕ)
    → Numbered table
    → name_of i table ≡ some name
    → i < length table
unfolding name_of
name_of-length i [] name n e = absurd (cc)
name_of-length i ((other, id) ∷ rest) name (last, n) e = elim (Bool-cases (id == i)) [
  | inl at ↦ ground (arith, last, at)
  | inr off ↦
      let before = name_of-length i rest name n (ground (arith, e, off)) in omega (arith, before)
]

find_name-name_of :
    (name : List ℕ) (table : List (List ℕ × ℕ)) (i : ℕ)
    → Numbered table
    → find_name name table ≡ some i
    → name_of i table ≡ some name
unfolding find_name name_of
find_name-name_of name [] i n e = absurd (cc)
find_name-name_of name ((other, id) ∷ rest) i (last, n) e =
    elim (Bool-cases (same_text other name)) [
      | inl same ↦
          let here : id ≡ i = ground (arith, e, same) in
          let at : (id == i) ≡ true = ground arith in
          rw at (ap (λ (s : List ℕ). some s) (same_text_sound other name same))
      | inr off ↦
          let there = find_name-name_of name rest i n (ground (arith, e, off)) in
          let less = name_of-length i rest name n there in
          let apart : (id == i) ≡ false = ground (arith, last, less) in rw apart there
    ]

densify_name-restored :
    (name : List ℕ) (d : Densifier)
    → IsDense d
    → IsDense (densify_name name d).1
      × (name_of (densify_name name d).0 (densify_name name d).1.densifyer ≡ some name)
      × Extends d (densify_name name d).1
unfolding densify_name number_of name_of
densify_name-restored name d dense = elim (Option-cases (find_name name d.densifyer)) [
  | inl absent ↦ rw absent (
    record {
      next_lem = omega (arith, dense.next_lem);
      numbered = (dense.next_lem, dense.numbered);
    },
    rw (==_refl d.next_vertex_id) refl,
    λ i other e.
        let less = name_of-length i d.densifyer other dense.numbered e in
        let apart : (d.next_vertex_id == i) ≡ false = ground (arith, less, dense.next_lem) in
        rw apart e,
  )
  | inr (id, found) ↦
      rw found (dense, find_name-name_of name d.densifyer id dense.numbered found, λ i other e. e)
]

read_lines-restored :
    (separator : ℕ) (lines : List (List ℕ)) (d : Densifier)
    → IsDense d
    → Extends d (read_lines separator lines d).1
      × (map (restore (read_lines separator lines d).1) (read_lines separator lines d).0
          ≡ map (λ (line : List ℕ). some (edge_columns line separator)) lines)
unfolding read_lines parse_edge_densifying restore
read_lines-restored separator [] d dense = (λ i name e. e, refl)
read_lines-restored separator (line ∷ lines) d dense =
    let columns = edge_columns line separator in
    let (dense1, src, ext1) = densify_name-restored columns.0 d dense in
    let d1 = (densify_name columns.0 d).1 in
    let (dense2, dst, ext2) = densify_name-restored columns.1 d1 dense1 in
    let d2 = (densify_name columns.1 d1).1 in
    let (ext3, rest) = read_lines-restored separator lines d2 dense2 in
    let src' = ext3 _ _ (ext2 _ _ src) in
    let dst' = ext3 _ _ dst in
    (
      λ i name e. ext3 i name (ext2 i name (ext1 i name e)),
      rw (src', dst') (ap (λ (l : List (Option (List ℕ × List ℕ))). some columns ∷ l) rest),
    )

-- However often the names of a file's lines repeat, the table in which the reading ends gives back
-- the two names of every edge that was read, as they stand in its line.
pub restore-read_lines :
    (separator : ℕ) (lines : List (List ℕ))
    → map
        (restore (read_lines separator lines empty_densifier).1)
        (read_lines separator lines empty_densifier).0
      ≡ map (λ (line : List ℕ). some (edge_columns line separator)) lines
restore-read_lines separator lines =
    (read_lines-restored separator lines empty_densifier
      (record { next_lem = refl; numbered = tt })).1
