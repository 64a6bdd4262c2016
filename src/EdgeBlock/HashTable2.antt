-- ===== src/EdgeBlock/HashTable2.antt =====
-- data-structure/EdgeBlock/HashTable.h, class HashTable2: the set of destinations of a vertex, an
-- open-addressing table with linear probing. A `while` loop takes fuel, and `none` means that the
-- fuel ran out, or that an array cannot be allocated; the callers give the number of slots.
pub mod Probe
pub mod Clusters
pub mod Growth
pub mod Insert
pub mod Gap
pub mod Shift
pub mod Remove
pub mod Runs
use avbgraph.Prelude.{
  ◌>>=◌, ℕ, zero, suc, ◌+◌, ◌-◌, ◌*◌, ◌/◌, ◌%◌, ◌^◌, Bool, true, false, List, [], ◌∷◌, Option, none,
  some, bit_and, leb, ltb, ◌&&◌, ◌||◌, ◌==◌, if◌then◌else◌, get_or, set, replicate, length,
}

-- FLAG_EMPTY_SLOT, all ones.
abbrev pub empty_slot : ℕ
empty_slot = 2 ^ 64 - 1

pub record HashTable2 : Type 0 where
  pub hashtable : List ℕ
  pub entry_counter : ℕ
  pub hash_block_size : ℕ

abbrev pub at : List ℕ → ℕ → ℕ
at xs i = get_or xs i empty_slot

-- `key & (hashBlockSize - 1)`
unfoldable pub hash : ℕ → ℕ → ℕ
hash n key = bit_and key (n - 1)

-- `index = index + 1; if (index >= hashBlockSize) index = 0;`
abbrev pub next : ℕ → ℕ → ℕ
next n i = if leb n (i + 1) then 0 else i + 1

unfoldable pub new : HashTable2
new = record { hashtable = replicate 2 empty_slot; entry_counter = 0; hash_block_size = 2 }

unfoldable pub get_loop : ℕ → ℕ → List ℕ → ℕ → ℕ → Option Bool
get_loop zero n xs key i = none
get_loop (suc fuel) n xs key i =
    let rest = get_loop fuel n xs key (next n i) in
    if at xs i == empty_slot then some false else if at xs i == key then some true else rest

-- The loop of an insertion: the first empty slot from `i` on.
unfoldable pub free_slot : ℕ → ℕ → List ℕ → ℕ → Option ℕ
free_slot zero n xs i = none
free_slot (suc fuel) n xs i =
    let rest = free_slot fuel n xs (next n i) in if at xs i == empty_slot then some i else rest

unfoldable pub get_dest : HashTable2 → ℕ → Option Bool
get_dest t key =
    get_loop t.hash_block_size t.hash_block_size t.hashtable key (hash t.hash_block_size key)

-- Write a key into its first empty slot.
unfoldable pub place : ℕ → List ℕ → ℕ → Option (List ℕ)
place n xs key = free_slot n n xs (hash n key) >>= λ i. some (set xs i key)

-- The `for` loop of a resize, over the slots of the old array.
unfoldable pub rehash : ℕ → List ℕ → List ℕ → Option (List ℕ)
rehash n [] fresh = some fresh
rehash n (key ∷ old) fresh =
    if key == empty_slot then rehash n old fresh else place n fresh key >>= rehash n old

-- The parameter of the method is an `int`: from 2^31 on the size is negative, and the array cannot
-- be allocated.
unfoldable pub resize : HashTable2 → ℕ → Option HashTable2
resize t requested =
    if leb (2 ^ 31) requested
    then none
    else (rehash requested t.hashtable (replicate requested empty_slot) >>= λ xs.
        some (record t { hashtable = xs; hash_block_size = requested }))

-- The growth test at the head of an insertion; the product wraps at 32 bits.
unfoldable pub reserve : HashTable2 → Option HashTable2
reserve t =
    if leb (t.hash_block_size / 2) t.entry_counter
    then resize t (t.hash_block_size * 2 % 2 ^ 32)
    else some t

-- The second argument of the method, the link, is not stored.
unfoldable pub set_dest : HashTable2 → ℕ → Option HashTable2
set_dest t key = reserve t >>= λ r. place r.hash_block_size r.hashtable key >>= λ xs.
    some (record r { hashtable = xs; entry_counter = r.entry_counter + 1 })

-- `(index + 1) & (hashBlockSize - 1)`
unfoldable pub masked_next : ℕ → ℕ → ℕ
masked_next n i = bit_and (i + 1) (n - 1)

-- The first loop of a removal: it stops at the key or at an empty slot.
unfoldable pub find_loop : ℕ → ℕ → List ℕ → ℕ → ℕ → Option ℕ
find_loop zero n xs key i = none
find_loop (suc fuel) n xs key i =
    let rest = find_loop fuel n xs key (masked_next n i) in
    if at xs i == empty_slot then some i else if at xs i == key then some i else rest

-- Does the gap `i` lie on the probe path from `home` to `j`?
abbrev pub on_path : ℕ → ℕ → ℕ → Bool
on_path home i j = if leb home j then leb home i && ltb i j else leb home i || ltb i j

-- The backward shift: the gap is at `i`, the cursor at `j`.
unfoldable pub shift_loop : ℕ → ℕ → List ℕ → ℕ → ℕ → Option (List ℕ)
shift_loop zero n xs i j = none
shift_loop (suc fuel) n xs i j =
    let j' = masked_next n j in
    let moved = shift_loop fuel n (set (set xs i (at xs j')) j' empty_slot) j' j' in
    let stayed = shift_loop fuel n xs i j' in
    if at xs j' == empty_slot
    then some xs
    else if on_path (hash n (at xs j')) i j'
    then moved
    else stayed

unfoldable pub remove_dest : HashTable2 → ℕ → Option HashTable2
remove_dest t key =
    find_loop t.hash_block_size t.hash_block_size t.hashtable key (hash t.hash_block_size key)
    >>= λ i.
        if at t.hashtable i == key
        then (shift_loop t.hash_block_size t.hash_block_size (set t.hashtable i empty_slot) i i
            >>= λ xs. some (record t { hashtable = xs; entry_counter = t.entry_counter - 1 }))
        else some t
