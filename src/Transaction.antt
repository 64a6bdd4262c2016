-- ===== src/Transaction.antt =====
-- data-structure/Transaction/Transaction.{h,cpp}, class Transaction: the edges that a transaction
-- collects before it executes them. An edge is the number of its array; `none` is a pointer or a
-- field that is not set.
pub mod Order
use avbgraph.Prelude.{
  ℕ, ◌+◌, ◌%◌, ◌^◌, List, [], ◌∷◌, ◌++◌, Option, none, some, ltb, ◌==◌, if◌then◌else◌, length,
}

pub record Queue : Type 0 where
  pub insert_cnt : ℕ
  pub one_edge : Option ℕ
  pub edges_to_insert : Option (List ℕ)

unfoldable pub new : Queue
new = record { insert_cnt = 0; one_edge = none; edges_to_insert = none }

abbrev pub edges_of : Option (List ℕ) → List ℕ
edges_of none = []
edges_of (some es) = es

-- INSERT of one edge, with CheckETI.
unfoldable pub insert_one : Queue → ℕ → Queue
insert_one q e =
    let cnt = (q.insert_cnt + 1) % 2 ^ 32 in
    if cnt == 1 then record q { insert_cnt = cnt; one_edge = some e } else record q {
      insert_cnt = cnt;
      edges_to_insert = some (edges_of q.edges_to_insert ++ e ∷ []);
    }

-- INSERT of a vector: `none` is an access to an element of the empty vector.
unfoldable pub insert_all : Queue → List ℕ → Option Queue
insert_all q [] = if q.insert_cnt == 1 then some q else none
insert_all q (e ∷ es) =
    let cnt = (q.insert_cnt + length (e ∷ es)) % 2 ^ 32 in
    let one = if q.insert_cnt == 0 then some e else q.one_edge in
    some (record q {
      insert_cnt = cnt;
      one_edge = one;
      edges_to_insert =
          if ltb 1 cnt then some (edges_of q.edges_to_insert ++ es) else q.edges_to_insert;
    })

-- The edges that execute inserts, in order; `none` if it reads the field that is not set.
unfoldable pub execute : Queue → Option (List ℕ)
execute q = elim q.one_edge [ none ↦ none | some e ↦ some (e ∷ edges_of q.edges_to_insert) ]
