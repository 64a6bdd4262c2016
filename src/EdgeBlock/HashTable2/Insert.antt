-- ===== src/EdgeBlock/HashTable2/Insert.antt =====
-- HashTable2: insertion and growth keep every key reachable from its hash.
use avbgraph.EdgeBlock.HashTable2.Growth.{place-Placed, rehash-Rehashed}
use avbgraph.EdgeBlock.HashTable2.Probe.{
  count_full, contains, hash-lt, probe_get, get_loop-contains, contains_where,
}
use avbgraph.EdgeBlock.HashTable2.Clusters.{Clustered, Clear-found, distance_lt}
use avbgraph.EdgeBlock.HashTable2.Gap.{occurs}
use avbgraph.EdgeBlock.HashTable2.{
  HashTable2, empty_slot, at, hash, get_loop, get_dest, new, resize, reserve, set_dest,
}
use native.Mathlib.Nat.{pow-suc}
use avbgraph.Prelude.{
  ℕ, zero, suc, ◌+◌, ◌*◌, ◌/◌, ◌%◌, ◌^◌, ◌≤◌, ◌<◌, ◌≡◌, refl, ◌≢◌, ◌||◌, false, List, some, arith,
  leb, ◌==◌, replicate, length, ◌⊎◌, if◌then◌else◌, length-replicate, get_or-replicate, ap, inl,
  inr, Bool-cases, ◌∙◌, sym,
}

-- The table between two calls: a power of two of slots, of which at most half are in use.
pub record IsValid (t : HashTable2) : Type 0 where
  pub width : length t.hashtable ≡ t.hash_block_size
  pub bits : ℕ
  pub power : t.hash_block_size ≡ 2 ^ bits
  pub large : 2 ≤ t.hash_block_size
  pub counted : count_full t.hashtable ≤ t.entry_counter
  pub load : 2 * t.entry_counter ≤ t.hash_block_size
  pub reach : Clustered t.hash_block_size t.hashtable

pub new-IsValid : IsValid new
unfolding new count_full
new-IsValid = record {
  width = refl;
  bits = 1;
  power = refl;
  large = omega arith;
  counted = omega arith;
  load = omega arith;
  reach = λ j h used. absurd (used (get_or-replicate 2 j empty_slot));
}

pub loop-contains :
    (n : ℕ) (xs : List ℕ) (key : ℕ)
    → length xs ≡ n
    → count_full xs < n
    → Clustered n xs
    → key ≢ empty_slot
    → get_loop n n xs key (hash n key) ≡ some (contains xs key)
loop-contains n xs key w room reach k =
    let start = hash-lt n key (omega arith) in
    let (b, run) = probe_get n xs (hash n key) key w room start in
    elim (Bool-cases (contains xs key)) [
      | inl found ↦
          let (j, p, e) = contains_where xs key found in
          let jn : j < n = omega arith in
          let used : at xs j ≢ empty_slot = λ z. k (sym e ∙ z) in
          let home = hash-lt n (at xs j) (omega arith) in
          rw found (
            rw e at (
              Clear-found n xs j jn used n (hash n (at xs j)) home
                (distance_lt n (hash n (at xs j)) j home jn) (reach j jn used)))
      | inr missing ↦ elim (Bool-cases b) [
        | inl hit ↦ cc (get_loop-contains n xs n key (hash n key) start w (run ∙ ap some hit))
        | inr miss ↦ run ∙ ap some (miss ∙ sym missing)
      ]
    ]

-- A lookup ends, and answers whether the key is in a slot.
pub get_dest-contains :
    (t : HashTable2) (key : ℕ)
    → IsValid t
    → key ≢ empty_slot
    → get_dest t key ≡ some (contains t.hashtable key)
unfolding get_dest
get_dest-contains t key v k =
    loop-contains t.hash_block_size t.hashtable key v.width (omega arith) v.reach k

-- What growth gives: the same keys, and room for one more at half load.
record Grown (t r : HashTable2) : Type 0 where
  width : length r.hashtable ≡ r.hash_block_size
  bits : ℕ
  power : r.hash_block_size ≡ 2 ^ bits
  large : 2 ≤ r.hash_block_size
  counted : count_full r.hashtable ≤ t.entry_counter
  kept : r.entry_counter ≡ t.entry_counter
  load : 2 * (t.entry_counter + 1) ≤ r.hash_block_size
  reach : Clustered r.hash_block_size r.hashtable
  keys : (q : ℕ) → q ≢ empty_slot → contains r.hashtable q ≡ contains t.hashtable q
  times : (q : ℕ) → q ≢ empty_slot → occurs r.hashtable q ≡ occurs t.hashtable q
  size :
      (r.hash_block_size ≡ t.hash_block_size)
      ⊎ ((r.hash_block_size ≡ 2 * t.hash_block_size)
          × (r.hash_block_size ≤ 4 * (t.entry_counter + 1)))

count_full-replicate : (n : ℕ) → count_full (replicate n empty_slot) ≡ 0
unfolding count_full
count_full-replicate zero = refl
count_full-replicate (suc n) = ground (arith, count_full-replicate n)

contains-replicate : (n q : ℕ) → q ≢ empty_slot → contains (replicate n empty_slot) q ≡ false
unfolding contains
contains-replicate zero q k = refl
contains-replicate (suc n) q k = ground (arith, contains-replicate n q)

occurs-replicate : (n q : ℕ) → q ≢ empty_slot → occurs (replicate n empty_slot) q ≡ 0
unfolding occurs
occurs-replicate zero q k = refl
occurs-replicate (suc n) q k = ground (arith, occurs-replicate n q)

resize-Grown :
    (t : HashTable2) (n : ℕ)
    → IsValid t
    → t.hash_block_size / 2 ≤ t.entry_counter
    → n ≡ t.hash_block_size * 2
    → n < 2 ^ 31
    → (r : HashTable2) × (resize t n ≡ some r) × Grown t r
unfolding resize
resize-Grown t n v full e small =
    let signed : leb (2 ^ 31) n ≡ false = ground arith in
    let (ys, run, r) =
      rehash-Rehashed n t.hashtable (replicate n empty_slot) (length-replicate n empty_slot)
        (omega (arith, count_full-replicate n, v.counted, v.load, v.large))
        (λ j h used. absurd (used (get_or-replicate n j empty_slot))) in
    (
      record t { hashtable = ys; hash_block_size = n },
      rw (signed, run),
      record {
        width = r.width;
        bits = suc v.bits;
        power = omega (arith, pow-suc 2 v.bits, v.power);
        large = omega (arith, v.large);
        counted = omega (arith, r.full, count_full-replicate n, v.counted);
        kept = refl;
        load = omega (arith, v.load, v.large);
        reach = r.reach;
        keys = λ q k. ground (arith, r.keys q k, contains-replicate n q k);
        times = λ q k. omega (arith, r.times q k, occurs-replicate n q k);
        size = inr (omega (arith, e), omega (arith, e, full));
      },
    )

-- A table that has to grow may do so.
abbrev pub MayGrow : HashTable2 → Type 0
MayGrow t = t.hash_block_size / 2 ≤ t.entry_counter → t.hash_block_size * 2 < 2 ^ 31

reserve-Grown :
    (t : HashTable2) → IsValid t → MayGrow t → (r : HashTable2) × (reserve t ≡ some r) × Grown t r
unfolding reserve
reserve-Grown t v small =
    let n = t.hash_block_size in
    elim (Bool-cases (leb (n / 2) t.entry_counter)) [
      | inl full ↦
          let half : n / 2 ≤ t.entry_counter = ground arith in
          let fits = small half in
          let (r, run, g) = resize-Grown t (n * 2 % 2 ^ 32) v half (omega arith) (omega arith) in
          (r, rw full run, g)
      | inr roomy ↦ (
        t,
        rw roomy,
        record {
          width = v.width;
          bits = v.bits;
          power = v.power;
          large = v.large;
          counted = v.counted;
          kept = refl;
          load = ground (arith, v.load);
          reach = v.reach;
          keys = λ q k. refl;
          times = λ q k. refl;
          size = inl refl;
        },
      )
    ]

-- What an insertion gives.
pub record Inserted (t : HashTable2) (key : ℕ) (r : HashTable2) : Type 0 where
  pub valid : IsValid r
  pub keys :
      (q : ℕ) → q ≢ empty_slot → contains r.hashtable q ≡ (q == key || contains t.hashtable q)
  pub times :
      (q : ℕ)
      → q ≢ empty_slot
      → occurs r.hashtable q ≡ (if q == key then 1 else 0) + occurs t.hashtable q
  pub one_more : r.entry_counter ≡ t.entry_counter + 1
  pub size :
      (r.hash_block_size ≡ t.hash_block_size)
      ⊎ ((r.hash_block_size ≡ 2 * t.hash_block_size)
          × (r.hash_block_size ≤ 4 * (t.entry_counter + 1)))

pub set_dest-Inserted :
    (t : HashTable2) (key : ℕ)
    → IsValid t
    → MayGrow t
    → key ≢ empty_slot
    → (r : HashTable2) × (set_dest t key ≡ some r) × Inserted t key r
unfolding set_dest
set_dest-Inserted t key v small k =
    let (g, grew, h) = reserve-Grown t v small in
    let (ys, put, p) =
      place-Placed g.hash_block_size g.hashtable key h.width (omega (arith, h.counted, h.load))
        h.reach k in
    let r : HashTable2 = record g { hashtable = ys; entry_counter = g.entry_counter + 1 } in
    let valid : IsValid r = record {
      width = p.width;
      bits = h.bits;
      power = h.power;
      large = h.large;
      counted = omega (arith, p.full, h.counted, h.kept);
      load = omega (arith, h.load, h.kept);
      reach = p.reach;
    } in
    (
      r,
      rw (grew, put) refl,
      record {
        valid = valid;
        keys = λ q qk. ground (arith, p.keys q qk, h.keys q qk);
        times = λ q qk. omega (arith, p.times q qk, h.times q qk);
        one_more = omega (arith, h.kept);
        size = h.size;
      },
    )

-- On a valid table whose doubled size is below 2^31, the insertion of a key ends, with or without
-- growth; the table is valid again, and it holds the new key and the keys that it held.
pub set_dest-contains :
    (t : HashTable2) (key : ℕ)
    → IsValid t
    → t.hash_block_size * 2 < 2 ^ 31
    → key ≢ empty_slot
    → (r : HashTable2) × (set_dest t key ≡ some r)
      × IsValid r
      × ((q : ℕ) → q ≢ empty_slot → get_dest r q ≡ some (q == key || contains t.hashtable q))
set_dest-contains t key v small k =
    let (r, run, i) = set_dest-Inserted t key v (λ full. small) k in
    (r, run, i.valid, λ q qk. get_dest-contains r q i.valid qk ∙ ap some (i.keys q qk))
