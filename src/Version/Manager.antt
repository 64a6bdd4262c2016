-- ===== src/Version/Manager.antt =====
-- data-structure/VersionBlock/VertexVersionBlock/VersionBlockManager.{h,cpp} and the class
-- VersionBlock of VersionBlock.{h,cpp}: the chain of published version blocks of a vertex. The
-- pointers `vb_end` and `last_vb_` are the list of the chain, newest block first; `start_` is the
-- list of the edge halves, or `none` for a null pointer.
pub mod Chain
pub mod Degree
pub mod Index
use avbgraph.Prelude.Int.{ℤ, pos, negsuc, ◌+ℤ◌}
use avbgraph.Prelude.{
  ◌>>=◌, ℕ, ◌+◌, ◌-◌, ◌%◌, ◌^◌, List, [], ◌∷◌, ◌++◌, Option, none, some, ltb, if◌then◌else◌,
}
use avbgraph.Version.Item.{EdgeWithIndex}

pub record VersionBlock : Type 0 where
  pub edge_num : ℤ
  pub timestamp : ℕ
  pub last_epoch : ℕ
  pub start : Option (List (EdgeWithIndex × EdgeWithIndex))

pub record Manager : Type 0 where
  pub end_epoch : ℕ
  pub chain : List VersionBlock
  pub vb_index : List (ℕ × VersionBlock)

unfoldable pub new : Manager
new = record { end_epoch = 0; chain = []; vb_index = [] }

-- SetNextVB; the pointer to the next block is the tail of the chain.
unfoldable pub set_next_vb : VersionBlock → ℕ → VersionBlock
set_next_vb vb ts = record vb { last_epoch = ts }

-- The edge count of the vertex is the first argument, which the code changes through a reference.
unfoldable pub push_vb : ℤ → Manager → VersionBlock → ℤ × Manager
unfolding set_next_vb
push_vb edge_num m nw =
    let linked = set_next_vb nw m.end_epoch in
    (
      edge_num +ℤ nw.edge_num,
      record {
        end_epoch = nw.timestamp;
        chain = linked ∷ m.chain;
        vb_index = m.vb_index ++ (nw.timestamp, linked) ∷ [];
      },
    )

-- An `int` as its word of 32 bits, in two's complement; sums of words wrap as the machine's do.
unfoldable pub to_word : ℤ → ℕ
to_word (pos n) = n % 2 ^ 32
to_word (negsuc n) = 2 ^ 32 - 1 - n % 2 ^ 32

-- The loop of getDegreeVersioned, with the degree as a word: `none` is a read through the null
-- pointer at the chain's end.
pub degree_loop : ℕ → List VersionBlock → ℕ → ℕ → Option ℕ
unfolding to_word
degree_loop epoch [] ts degree = if ltb epoch ts then none else some degree
degree_loop epoch (vb ∷ rest) ts degree =
    let older =
      degree_loop epoch rest vb.last_epoch ((degree + 2 ^ 32 - to_word vb.edge_num) % 2 ^ 32) in
    if ltb epoch ts then older else some degree

pub get_degree_versioned : Manager → ℕ → Option ℕ
get_degree_versioned m epoch = degree_loop epoch m.chain m.end_epoch 0

-- VertexEdges::get_degree at an epoch: the sum of the two `int`s, as an `unsigned`.
pub get_degree : ℤ × Manager → ℕ → Option ℕ
unfolding to_word get_degree_versioned
get_degree (edge_num, m) epoch =
    get_degree_versioned m epoch >>= λ d. some ((to_word edge_num + d) % 2 ^ 32)

-- `std::upper_bound` on the epochs of the index, and the entry before it.
pub find_before : ℕ → Option VersionBlock → List (ℕ × VersionBlock) → Option VersionBlock
find_before ts last [] = last
find_before ts last ((t, vb) ∷ rest) = if ltb ts t then last else find_before ts (some vb) rest

pub find_vb : Manager → ℕ → Option VersionBlock
unfolding find_before
find_vb m ts = find_before ts none m.vb_index
