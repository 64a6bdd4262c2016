-- ===== src/EdgeBlock/HashTable2/Runs.antt =====
-- A HashTable2 refines a bag of keys: what a sequence of calls answers.
use avbgraph.EdgeBlock.HashTable2.Gap.{occurs}
use avbgraph.EdgeBlock.HashTable2.Insert.{IsValid, get_dest-contains, set_dest-Inserted}
use avbgraph.EdgeBlock.HashTable2.Remove.{contains-occurs, remove_dest-Removed}
use avbgraph.EdgeBlock.HashTable2.{HashTable2, empty_slot, get_dest, set_dest, remove_dest}
use avbgraph.Prelude.{
  ◌>>=◌, ℕ, suc, ◌+◌, ◌-◌, ◌*◌, ◌^◌, ◌≤◌, ◌<◌, ◌≡◌, ◌≢◌, refl, ap, ◌∙◌, Bool, List, [], ◌∷◌, Option,
  some, ltb, ◌==◌, if◌then◌else◌, arith,
}

-- The calls of setDestHashTableVal, removeDestHashTableVal and getDestHashTableVal.
pub data Op : Type 0 where
  set_key : ℕ → Op
  remove_key : ℕ → Op
  get_key : ℕ → Op

unfoldable pub run_table : List Op → HashTable2 → Option (List Bool)
run_table [] t = some []
run_table (set_key key ∷ ops) t = set_dest t key >>= run_table ops
run_table (remove_key key ∷ ops) t = remove_dest t key >>= run_table ops
run_table (get_key key ∷ ops) t =
    get_dest t key >>= λ b. (run_table ops t >>= λ (bs : List Bool). some (b ∷ bs))

-- The bag: how often each key is in it.
abbrev pub run_bag : List Op → (ℕ → ℕ) → List Bool
run_bag [] bag = []
run_bag (set_key key ∷ ops) bag = run_bag ops (λ q. (if q == key then 1 else 0) + bag q)
run_bag (remove_key key ∷ ops) bag = run_bag ops (λ q. bag q - (if q == key then 1 else 0))
run_bag (get_key key ∷ ops) bag = ltb 0 (bag key) ∷ run_bag ops bag

abbrev pub sets : List Op → ℕ
sets [] = 0
sets (set_key key ∷ ops) = suc (sets ops)
sets (remove_key key ∷ ops) = sets ops
sets (get_key key ∷ ops) = sets ops

-- No key is the mark of an empty slot.
abbrev pub RealKeys : List Op → Type 0
RealKeys [] = Unit {0}
RealKeys (set_key key ∷ ops) = (key ≢ empty_slot) × RealKeys ops
RealKeys (remove_key key ∷ ops) = (key ≢ empty_slot) × RealKeys ops
RealKeys (get_key key ∷ ops) = (key ≢ empty_slot) × RealKeys ops

-- The bag holds what the table holds.
abbrev Holds : HashTable2 → (ℕ → ℕ) → Type 0
Holds t bag = (q : ℕ) → q ≢ empty_slot → occurs t.hashtable q ≡ bag q

-- The size stays in range while the rest of the insertions is made.
abbrev InRange : HashTable2 → ℕ → ℕ → Type 0
InRange t more top =
    (t.hash_block_size ≤ top) × (4 * (t.entry_counter + more) ≤ top) × (top < 2 ^ 31)

run_from :
    (ops : List Op) (t : HashTable2) (bag : ℕ → ℕ) (top : ℕ)
    → IsValid t
    → RealKeys ops
    → InRange t (sets ops) top
    → Holds t bag
    → run_table ops t ≡ some (run_bag ops bag)
unfolding run_table
run_from [] t bag top v real range holds = refl
run_from (set_key key ∷ ops) t bag top v (k, real) (size, load, top_small) holds =
    let (r, run, i) = set_dest-Inserted t key v (λ full. omega (arith, size, load, full)) k in
    let wide : r.hash_block_size ≤ top = ground (arith, i.size, size, load) in
    rw run (
      run_from ops r (λ q. (if q == key then 1 else 0) + bag q) top i.valid real
        (wide, omega (arith, i.one_more, load), top_small)
        (λ q qk. omega (arith, i.times q qk, holds q qk)))
run_from (remove_key key ∷ ops) t bag top v (k, real) (size, load, top_small) holds =
    let (r, run, d) = remove_dest-Removed t key v k in
    rw run (
      run_from ops r (λ q. bag q - (if q == key then 1 else 0)) top d.valid real
        (omega (arith, d.size, size), omega (arith, d.not_more, load), top_small)
        (λ q qk. omega (arith, d.rest q qk, holds q qk)))
run_from (get_key key ∷ ops) t bag top v (k, real) (size, load, top_small) holds =
    let found : get_dest t key ≡ some (ltb 0 (bag key)) =
      get_dest-contains t key v k
      ∙ ap some (contains-occurs t.hashtable key ∙ ap (ltb 0) (holds key k)) in
    rw (found, run_from ops t bag top v real (size, load, top_small) holds) refl

-- From a valid table, any sequence of insertions, removals and lookups of keys ends, with the
-- answers that it gets from a bag of the keys that the table holds: as long as the table and four
-- times the number of its entries after all insertions are below 2^31.
pub run_table-run_bag :
    (ops : List Op) (t : HashTable2)
    → IsValid t
    → RealKeys ops
    → t.hash_block_size < 2 ^ 31
    → 4 * (t.entry_counter + sets ops) < 2 ^ 31
    → run_table ops t ≡ some (run_bag ops (occurs t.hashtable))
run_table-run_bag ops t v real size load =
    run_from ops t (occurs t.hashtable) (2 ^ 31 - 1) v real
      (omega (arith, size), omega (arith, load), omega arith) (λ q qk. refl)
