-- ===== src/Tests/Queues.antt =====
-- The edges of a transaction.
use avbgraph.Prelude.{◌≡◌, ◌++◌, [], ◌∷◌, some, arith}
use avbgraph.Transaction.Order.{insert_each, insert_each-execute, insert_all-loses}
use avbgraph.Transaction.{Queue, new, insert_all, execute}

insert_each-execute_example :
    (execute (insert_each new (4 ∷ 5 ∷ 6 ∷ [])) ≡ some (4 ∷ 5 ∷ 6 ∷ []))
    × ((q : Queue) × (insert_all new (4 ∷ 5 ∷ 6 ∷ []) ≡ some q)
        × (execute q ≡ some (4 ∷ 5 ∷ 6 ∷ [])))
insert_each-execute_example = insert_each-execute 4 (5 ∷ 6 ∷ []) (omega arith)

-- Of 4, 5 and 6, 7 the edge 6 is lost.
insert_all-loses_example :
    (q : Queue) × (r : Queue) × (insert_all new (4 ∷ 5 ∷ []) ≡ some q)
    × (insert_all q (6 ∷ 7 ∷ []) ≡ some r)
    × (execute r ≡ some (4 ∷ ((5 ∷ []) ++ (7 ∷ []))))
insert_all-loses_example = insert_all-loses 4 (5 ∷ []) 6 (7 ∷ []) (omega arith)
