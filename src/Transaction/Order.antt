-- ===== src/Transaction/Order.antt =====
-- Which of the collected edges are executed.
use avbgraph.Prelude.{
  append_assoc, append_nil, ℕ, ◌+◌, ◌%◌, ◌^◌, ◌<◌, ◌≡◌, refl, sym, ap, subst, true, false, List, [],
  ◌∷◌, ◌++◌, some, arith, ltb, ◌==◌, length, length-append,
}
use avbgraph.Transaction.{Queue, new, edges_of, insert_one, insert_all, execute}

-- The collected edges, one at a time.
pub insert_each : Queue → List ℕ → Queue
insert_each q [] = q
insert_each q (e ∷ es) = insert_each (insert_one q e) es

-- The queue holds the edge and the edges behind it.
record Holds (q : Queue) (e : ℕ) (es : List ℕ) : Type 0 where
  count : q.insert_cnt ≡ length (e ∷ es)
  first : q.one_edge ≡ some e
  more : edges_of q.edges_to_insert ≡ es

Holds-execute : (q : Queue) (e : ℕ) (es : List ℕ) → Holds q e es → execute q ≡ some (e ∷ es)
unfolding execute
Holds-execute q e es h = rw h.first (ap (λ (xs : List ℕ). some (e ∷ xs)) h.more)

insert_one-Holds :
    (q : Queue) (e : ℕ) (es : List ℕ) (x : ℕ)
    → Holds q e es
    → length es + 2 < 2 ^ 32
    → Holds (insert_one q x) e (es ++ x ∷ [])
unfolding insert_one
insert_one-Holds q e es x h small =
    let later : ((q.insert_cnt + 1) % 2 ^ 32 == 1) ≡ false = ground (arith, h.count) in
    record {
      count = rw later (omega (arith, h.count, length-append es (x ∷ [])));
      first = rw later h.first;
      more = rw later (ap (λ (xs : List ℕ). xs ++ x ∷ []) h.more);
    }

insert_each-Holds :
    (q : Queue) (e : ℕ) (es xs : List ℕ)
    → Holds q e es
    → length es + length xs + 1 < 2 ^ 32
    → Holds (insert_each q xs) e (es ++ xs)
unfolding insert_each
insert_each-Holds q e es [] h small = subst (Holds q e) (sym (append_nil es)) h
insert_each-Holds q e es (x ∷ xs) h small =
    subst (Holds (insert_each (insert_one q x) xs) e) (append_assoc es (x ∷ []) xs) (
      insert_each-Holds (insert_one q x) e (es ++ x ∷ []) xs
        (insert_one-Holds q e es x h (omega arith)) (omega (arith, length-append es (x ∷ []))))

insert_one-new : (e : ℕ) → Holds (insert_one new e) e []
unfolding insert_one new
insert_one-new e = record { count = refl; first = refl; more = refl }

-- What a vector adds to a queue that holds edges, as long as the count fits 32 bits.
insert_all-Holds :
    (q : Queue) (e : ℕ) (es : List ℕ) (f : ℕ) (fs : List ℕ)
    → Holds q e es
    → length es + length fs + 2 < 2 ^ 32
    → (r : Queue) × (insert_all q (f ∷ fs) ≡ some r) × (execute r ≡ some (e ∷ (es ++ fs)))
unfolding insert_all execute
insert_all-Holds q e es f fs h small =
    let used : (q.insert_cnt == 0) ≡ false = ground (arith, h.count) in
    let many : ltb 1 ((q.insert_cnt + length (f ∷ fs)) % 2 ^ 32) ≡ true = ground (arith, h.count) in
    (
      record q {
        insert_cnt = (q.insert_cnt + length (f ∷ fs)) % 2 ^ 32;
        edges_to_insert = some (edges_of q.edges_to_insert ++ fs);
      },
      rw (used, many) refl,
      rw h.first (ap (λ (xs : List ℕ). some (e ∷ (xs ++ fs))) h.more),
    )

insert_all-new :
    (e : ℕ) (es : List ℕ)
    → length es + 1 < 2 ^ 32
    → (q : Queue) × (insert_all new (e ∷ es) ≡ some q) × Holds q e es
unfolding insert_all new
insert_all-new e [] small = (_, refl, record { count = refl; first = refl; more = refl })
insert_all-new e (x ∷ xs) small =
    let many : ltb 1 ((0 + length (e ∷ x ∷ xs)) % 2 ^ 32) ≡ true = ground arith in
    (
      record {
        insert_cnt = (0 + length (e ∷ x ∷ xs)) % 2 ^ 32;
        one_edge = some e;
        edges_to_insert = some (x ∷ xs);
      },
      rw many refl,
      record { count = omega arith; first = refl; more = refl },
    )

-- Fewer than 2^32 edges that a new transaction collects one at a time are executed, each once and
-- in their order. One vector gives the same.
pub insert_each-execute :
    (e : ℕ) (es : List ℕ)
    → length es + 1 < 2 ^ 32
    → (execute (insert_each new (e ∷ es)) ≡ some (e ∷ es))
      × ((q : Queue) × (insert_all new (e ∷ es) ≡ some q) × (execute q ≡ some (e ∷ es)))
unfolding insert_each
insert_each-execute e es small =
    let (q, run, h) = insert_all-new e es small in
    (
      Holds-execute _ e es
          (insert_each-Holds (insert_one new e) e [] es (insert_one-new e) (omega arith)),
      (q, run, Holds-execute q e es h),
    )

-- Of a vector that follows another one the first edge is never executed, as long as the edges are
-- fewer than 2^32.
pub insert_all-loses :
    (e : ℕ) (es : List ℕ) (f : ℕ) (fs : List ℕ)
    → length es + length fs + 2 < 2 ^ 32
    → (q : Queue) × (r : Queue) × (insert_all new (e ∷ es) ≡ some q)
      × (insert_all q (f ∷ fs) ≡ some r)
      × (execute r ≡ some (e ∷ (es ++ fs)))
insert_all-loses e es f fs small =
    let (q, run, h) = insert_all-new e es (omega arith) in
    let (r, next, done) = insert_all-Holds q e es f fs h small in (q, r, run, next, done)
