-- ===== src/Version/Iterator/Visits.antt =====
-- Which blocks an iterator visits.
use avbgraph.Prelude.{
  ℕ, zero, suc, ◌≤◌, ◌<◌, ◌≡◌, refl, ◌∙◌, Bool, true, false, not, ◌&&◌, List, [], ◌∷◌, none, some,
  arith, ltb, leb, ◌==◌, if◌then◌else◌, select, length, Bool-cases, inl, inr, ap, sym, ltb→lt,
  ltb→le,
}
use avbgraph.Version.Iterator.{
  hidden, is_null, find_index, find_index_counted, begin, get_next, visit_loop,
}
use avbgraph.Prelude.Int.{pos}
use avbgraph.Version.Manager.Chain.{IsLinked, Rising, push_all, push_all-IsLinked}
use avbgraph.Version.Manager.{VersionBlock, new}

-- A block that a reader of the epoch has to look into: of its own epoch or later, and with a record
-- that may be old enough.
unfoldable pub relevant : ℕ → VersionBlock → Bool
unfolding hidden
relevant version vb =
    leb version vb.timestamp
    && (if vb.timestamp == version then not (is_null vb.start) else not (hidden version vb.start))

none_older :
    (version end : ℕ) (chain : List VersionBlock)
    → IsLinked end chain
    → end < version
    → select (relevant version) chain ≡ []
unfolding relevant
none_older version end [] l h = refl
none_older version end (vb ∷ rest) (a, b, c) h =
    ground (arith, none_older version vb.last_epoch rest c)

-- One round of the search, with the rest of the search as a search from the next block.
find_index-begin :
    (version : ℕ) (vb : VersionBlock) (rest : List VersionBlock)
    → find_index version vb rest ≡ (
        if vb.timestamp == version
        then (if is_null vb.start then none else some (vb, rest))
        else if hidden version vb.start
        then (if ltb vb.last_epoch version then none else begin version rest)
        else some (vb, rest))
unfolding find_index begin
find_index-begin version vb [] = ground arith
find_index-begin version vb (vb' ∷ rest) = refl

visit_none : (fuel version : ℕ) → visit_loop fuel version none ≡ []
unfolding visit_loop
visit_none zero version = refl
visit_none (suc fuel) version = refl

-- The blocks visited from here on, once the block at the position has been dealt with.
visit_rest :
    (version fuel : ℕ) (vb : VersionBlock) (rest : List VersionBlock)
    → IsLinked vb.last_epoch rest
    → (version ≤ vb.last_epoch
        → visit_loop fuel version (begin version rest) ≡ select (relevant version) rest)
    → visit_loop fuel version (if ltb vb.last_epoch version then none else begin version rest)
      ≡ select (relevant version) rest
visit_rest version fuel vb rest l go = elim (Bool-cases (ltb vb.last_epoch version)) [
  | inl past ↦
      rw (past, visit_none) (sym (none_older version vb.last_epoch rest l (ltb→lt _ _ past)))
  | inr more ↦ rw more (go (ltb→le _ _ more))
]

round :
    (version fuel : ℕ) (vb : VersionBlock) (rest : List VersionBlock)
    → version ≤ vb.timestamp
    → visit_loop (suc fuel) version (if ltb vb.last_epoch version then none else begin version rest)
      ≡ select (relevant version) rest
    → visit_loop fuel version (if ltb vb.last_epoch version then none else begin version rest)
      ≡ select (relevant version) rest
    → (vb.last_epoch < version → select (relevant version) rest ≡ [])
    → vb.last_epoch < vb.timestamp
    → visit_loop (suc fuel) version (
        if vb.timestamp == version
        then (if is_null vb.start then none else some (vb, rest))
        else if hidden version vb.start
        then (if ltb vb.last_epoch version then none else begin version rest)
        else some (vb, rest))
      ≡ select (relevant version) (vb ∷ rest)
unfolding relevant visit_loop get_next
round version fuel vb rest h again after older b =
    let up : leb version vb.timestamp ≡ true = ground arith in
    elim (Bool-cases (vb.timestamp == version)) [
      | inl same ↦ elim (Bool-cases (is_null vb.start)) [
        | inl null ↦ rw (up, same, null) (ground (arith, older))
        | inr full ↦ rw (up, same, full) (ground (arith, after))
      ]
      | inr later ↦ elim (Bool-cases (hidden version vb.start)) [
        | inl out ↦ rw (up, later, out) again
        | inr in_reach ↦ rw (up, later, in_reach) (ground (arith, after))
      ]
    ]

pub begin-visits :
    (version end fuel : ℕ) (chain : List VersionBlock)
    → IsLinked end chain
    → version ≤ end
    → length chain ≤ fuel
    → visit_loop fuel version (begin version chain) ≡ select (relevant version) chain
unfolding begin
begin-visits version end fuel [] l h f = visit_none fuel version
begin-visits version end zero (vb ∷ rest) l h f = absurd (omega arith)
begin-visits version end (suc fuel) (vb ∷ rest) (a, b, c) h f =
    let again =
      visit_rest version (suc fuel) vb rest c
        (λ more. begin-visits version vb.last_epoch (suc fuel) rest c more (omega arith)) in
    let after =
      visit_rest version fuel vb rest c
        (λ more. begin-visits version vb.last_epoch fuel rest c more (omega arith)) in
    let here = ap (visit_loop (suc fuel) version) (find_index-begin version vb rest) in
    here
    ∙ round version fuel vb rest (omega arith) again after (none_older version vb.last_epoch rest c)
        b

-- After pushes of rising epochs, a reader whose epoch is not after the last published one visits,
-- newest first, exactly the blocks of the chain that are of its own epoch or later and that hold
-- records (of its own epoch) or a first record old enough for it (of a later epoch). The walk ends
-- within as many rounds as the chain has blocks.
pub visit_loop-relevant :
    (version : ℕ) (vbs : List VersionBlock)
    → Rising 0 vbs
    → version ≤ (push_all (pos 0, new) vbs).1.end_epoch
    → visit_loop
        (length (push_all (pos 0, new) vbs).1.chain)
        version
        (begin version (push_all (pos 0, new) vbs).1.chain)
      ≡ select (relevant version) (push_all (pos 0, new) vbs).1.chain
visit_loop-relevant version vbs r h =
    let m = (push_all (pos 0, new) vbs).1 in
    begin-visits version m.end_epoch (length m.chain) m.chain
      (push_all-IsLinked (pos 0) new vbs (unfold new in r) (unfold new in refl)) h (omega arith)

-- The search with a counter ends where the plain search finds the block of the reader's own epoch:
-- whenever the block published next after that epoch is hidden from the reader.
find_index_counted_misses :
    (version : ℕ) (vb own : VersionBlock) (rest : List VersionBlock)
    → hidden version vb.start ≡ true
    → version < vb.timestamp
    → vb.last_epoch ≡ version
    → own.timestamp ≡ version
    → is_null own.start ≡ false
    → (find_index version vb (own ∷ rest) ≡ some (own, rest))
      × (find_index_counted version vb (own ∷ rest) ≡ none)
unfolding find_index find_index_counted
find_index_counted_misses version vb own [] h later last same full = (ground arith, ground arith)
find_index_counted_misses version vb own (b ∷ rest) h later last same full =
    (ground arith, ground arith)
