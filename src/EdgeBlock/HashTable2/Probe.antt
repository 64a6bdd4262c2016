-- ===== src/EdgeBlock/HashTable2/Probe.antt =====
-- The probe loops of HashTable2: they end, and a write into an empty slot hides no key.
use avbgraph.EdgeBlock.HashTable2.{empty_slot, at, hash, next, get_loop, free_slot}
use avbgraph.Prelude.{
  ℕ, zero, suc, ◌+◌, ◌-◌, ◌<◌, ◌≡◌, ◌≢◌, ◌||◌, ap, inl, inr, Bool-cases, ==_iff, Bool, true, false,
  List, [], ◌∷◌, some, arith, leb, ◌==◌, if◌then◌else◌, set, length, get_or-set, bit_and-le,
}

-- The slots in use.
unfoldable pub count_full : List ℕ → ℕ
count_full [] = 0
count_full (x ∷ xs) = (if x == empty_slot then 0 else 1) + count_full xs

unfoldable pub contains : List ℕ → ℕ → Bool
contains [] q = false
contains (x ∷ xs) q = q == x || contains xs q

pub hash-lt : (n key : ℕ) → 0 < n → hash n key < n
unfolding hash
hash-lt n key h = omega (arith, bit_and-le key (n - 1))

pub empty_below :
    (xs : List ℕ) → count_full xs < length xs → (e : ℕ) × (e < length xs) × (at xs e ≡ empty_slot)
unfolding count_full
empty_below [] h = absurd (omega arith)
empty_below (x ∷ xs) h = elim (Bool-cases (x == empty_slot)) [
  | inl free ↦ (0, omega arith, (==_iff x empty_slot).0 free)
  | inr used ↦ let (e, p, q) = empty_below xs (ground arith) in (suc e, omega arith, q)
]

pub count_full-set :
    (xs : List ℕ) (e key : ℕ)
    → e < length xs
    → at xs e ≡ empty_slot
    → key ≢ empty_slot
    → count_full (set xs e key) ≡ count_full xs + 1
unfolding count_full
count_full-set [] e key h p k = absurd (omega arith)
count_full-set (x ∷ xs) zero key h p k = ground arith
count_full-set (x ∷ xs) (suc e) key h p k = ground (arith, count_full-set xs e key)

pub contains-set :
    (xs : List ℕ) (e key q : ℕ)
    → e < length xs
    → at xs e ≡ empty_slot
    → q ≢ empty_slot
    → contains (set xs e key) q ≡ (q == key || contains xs q)
unfolding contains
contains-set [] e key q h p k = absurd (omega arith)
contains-set (x ∷ xs) zero key q h p k = ground arith
contains-set (x ∷ xs) (suc e) key q h p k = ground (arith, contains-set xs e key q)

contains-at : (xs : List ℕ) (i q : ℕ) → i < length xs → at xs i ≡ q → contains xs q ≡ true
unfolding contains
contains-at [] i q h p = absurd (omega arith)
contains-at (x ∷ xs) zero q h p = ground arith
contains-at (x ∷ xs) (suc i) q h p = ground (arith, contains-at xs i q)

-- Rounds from slot `i` to slot `e`.
abbrev pub distance : ℕ → ℕ → ℕ → ℕ
distance n i e = if leb i e then e - i else n - i + e

module _ (n : ℕ) (xs : List ℕ) (e : ℕ) (inside : e < n) (free : at xs e ≡ empty_slot) where
  nearer :
      (fuel i : ℕ)
      → i < n
      → distance n i e < suc fuel
      → (at xs i == empty_slot) ≡ false
      → distance n (next n i) e < fuel
  nearer fuel i h d used = elim (Bool-cases (i == e)) [
    | inl same ↦ ground (arith, ap (at xs) ((==_iff i e).0 same))
    | inr other ↦ ground arith
  ]

  free_slot_ends :
      (fuel i : ℕ)
      → i < n
      → distance n i e < fuel
      → (j : ℕ) × (free_slot fuel n xs i ≡ some j) × (j < n) × (at xs j ≡ empty_slot)
  unfolding free_slot
  free_slot_ends zero i h d = absurd (omega arith)
  free_slot_ends (suc fuel) i h d = elim (Bool-cases (at xs i == empty_slot)) [
    | inl here ↦ (i, rw here, h, (==_iff (at xs i) empty_slot).0 here)
    | inr used ↦
        let (j, r, p, q) = free_slot_ends fuel (next n i) (ground arith) (nearer fuel i h d used) in
        (j, rw used r, p, q)
  ]

  get_loop_ends :
      (fuel i key : ℕ)
      → i < n
      → distance n i e < fuel
      → (b : Bool) × (get_loop fuel n xs key i ≡ some b)
  unfolding get_loop
  get_loop_ends zero i key h d = absurd (omega arith)
  get_loop_ends (suc fuel) i key h d = elim (Bool-cases (at xs i == empty_slot)) [
    | inl here ↦ (false, rw here)
    | inr used ↦
        let (b, r) = get_loop_ends fuel (next n i) key (ground arith) (nearer fuel i h d used) in
        elim (Bool-cases (at xs i == key)) [
          | inl hit ↦ (true, rw (used, hit))
          | inr miss ↦ (b, rw (used, miss) r)
        ]
  ]

module _ (n : ℕ) (xs : List ℕ) (e v : ℕ) (inside : e < length xs)
    (free : at xs e ≡ empty_slot) where
  -- A key that was found is still found.
  get_loop-set_found :
      (fuel key i : ℕ)
      → get_loop fuel n xs key i ≡ some true
      → get_loop fuel n (set xs e v) key i ≡ some true
  unfolding get_loop
  get_loop-set_found zero key i h = h
  get_loop-set_found (suc fuel) key i h =
      ground (arith, get_or-set xs e i v empty_slot, get_loop-set_found fuel key (next n i))

  get_loop-set_self :
      (fuel i : ℕ)
      → v ≢ empty_slot
      → free_slot fuel n xs i ≡ some e
      → get_loop fuel n (set xs e v) v i ≡ some true
  unfolding get_loop free_slot
  get_loop-set_self zero i k h = cc
  get_loop-set_self (suc fuel) i k h =
      ground (arith, get_or-set xs e i v empty_slot, get_loop-set_self fuel (next n i))

pub get_loop-contains :
    (n : ℕ) (xs : List ℕ) (fuel key i : ℕ)
    → i < n
    → length xs ≡ n
    → get_loop fuel n xs key i ≡ some true
    → contains xs key ≡ true
unfolding get_loop
get_loop-contains n xs zero key i p l h = cc
get_loop-contains n xs (suc fuel) key i p l h =
    ground (arith, get_loop-contains n xs fuel key (next n i), contains-at xs i key)

-- With a slot left, as many rounds as there are slots end both loops.
pub probe_free :
    (n : ℕ) (xs : List ℕ) (i : ℕ)
    → length xs ≡ n
    → count_full xs < n
    → i < n
    → (j : ℕ) × (free_slot n n xs i ≡ some j) × (j < n) × (at xs j ≡ empty_slot)
probe_free n xs i w room h =
    let (e, inside, free) = empty_below xs (omega arith) in
    free_slot_ends n xs e (omega arith) free n i h (ground arith)

pub probe_get :
    (n : ℕ) (xs : List ℕ) (i key : ℕ)
    → length xs ≡ n
    → count_full xs < n
    → i < n
    → (b : Bool) × (get_loop n n xs key i ≡ some b)
probe_get n xs i key w room h =
    let (e, inside, free) = empty_below xs (omega arith) in
    get_loop_ends n xs e (omega arith) free n i key h (ground arith)

pub contains_where :
    (xs : List ℕ) (q : ℕ) → contains xs q ≡ true → (j : ℕ) × (j < length xs) × (at xs j ≡ q)
unfolding contains
contains_where [] q h = absurd (cc)
contains_where (x ∷ xs) q h = elim (Bool-cases (q == x)) [
  | inl hit ↦ (0, omega arith, ground arith)
  | inr miss ↦ let (j, p, e) = contains_where xs q (ground arith) in (suc j, omega arith, e)
]
