-- ===== src/Tests/Tables.antt =====
-- HashTable2 at small tables.
use avbgraph.EdgeBlock.HashTable2.Runs.{
  Op, set_key, remove_key, get_key, run_table, run_bag, run_table-run_bag,
}
use avbgraph.EdgeBlock.HashTable2.{
  HashTable2, empty_slot, hash, get_dest, set_dest, remove_dest, find_loop, shift_loop, masked_next,
}
use avbgraph.EdgeBlock.HashTable2.Probe.{contains, count_full}
use avbgraph.EdgeBlock.HashTable2.Clusters.{Clear, Clustered}
use avbgraph.EdgeBlock.HashTable2.Insert.{IsValid, set_dest-contains}
use avbgraph.EdgeBlock.HashTable2.Gap.{occurs}
use avbgraph.EdgeBlock.HashTable2.Remove.{remove_dest-get_dest}
use avbgraph.Prelude.{
  ℕ, zero, suc, ◌≡◌, refl, ◌≢◌, List, [], ◌∷◌, some, arith, ltb, ◌==◌, ◌||◌, if◌then◌else◌,
}

-- 1 and 9 share the home slot 1, so that 9 stands behind its home.
abbrev pub pair : HashTable2
pair = record {
  hashtable = empty_slot ∷ 1 ∷ 9 ∷ empty_slot ∷ [];
  entry_counter = 2;
  hash_block_size = 4;
}

pair_before : Clear 4 pair.hashtable 1 2
pair_before zero h d = absurd (omega arith)
pair_before (suc zero) h d = λ e. cc
pair_before (suc (suc zero)) h d = absurd (omega arith)
pair_before (suc (suc (suc zero))) h d = absurd (omega arith)
pair_before (suc (suc (suc (suc m)))) h d = absurd (omega arith)

pair-Clustered : Clustered 4 pair.hashtable
unfolding hash
pair-Clustered zero h used = absurd (used refl)
pair-Clustered (suc zero) h used = λ m hm d. absurd (omega arith)
pair-Clustered (suc (suc zero)) h used = pair_before
pair-Clustered (suc (suc (suc zero))) h used = absurd (used refl)
pair-Clustered (suc (suc (suc (suc p)))) h used = absurd (omega arith)

pub pair-IsValid : IsValid pair
unfolding count_full
pair-IsValid = record {
  width = refl;
  bits = 2;
  power = refl;
  large = omega arith;
  counted = omega arith;
  load = omega arith;
  reach = pair-Clustered;
}

-- The table is half full, and grows to 8 slots.
set_dest-contains_example :
    (r : HashTable2) × (set_dest pair 5 ≡ some r)
    × IsValid r
    × ((q : ℕ) → q ≢ empty_slot → get_dest r q ≡ some (q == 5 || contains pair.hashtable q))
set_dest-contains_example = set_dest-contains pair 5 pair-IsValid (omega arith) (omega arith)

-- The removal of 1 shifts 9 back to its home.
remove_dest-get_dest_example :
    (r : HashTable2) × (remove_dest pair 1 ≡ some r)
    × IsValid r
    × ((q : ℕ)
        → q ≢ empty_slot
        → get_dest r q ≡ some (ltb (if q == 1 then 1 else 0) (occurs pair.hashtable q)))
remove_dest-get_dest_example = remove_dest-get_dest pair 1 pair-IsValid (omega arith)

shifted :
    remove_dest pair 1
    ≡ some (record {
      hashtable = empty_slot ∷ 9 ∷ empty_slot ∷ empty_slot ∷ [];
      entry_counter = 1;
      hash_block_size = 4;
    })
unfolding remove_dest find_loop hash shift_loop masked_next
shifted = refl

abbrev table_ops : List Op
table_ops = set_key 4 ∷ set_key 6 ∷ get_key 4 ∷ remove_key 4 ∷ get_key 4 ∷ get_key 6 ∷ []

run_table-run_bag_example :
    run_table table_ops pair ≡ some (run_bag table_ops (occurs pair.hashtable))
run_table-run_bag_example =
    run_table-run_bag table_ops pair pair-IsValid
      (omega arith, (omega arith, (omega arith, (omega arith, (omega arith, (omega arith, tt))))))
      (omega arith) (omega arith)
