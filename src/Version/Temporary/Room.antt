-- ===== src/Version/Temporary/Room.antt =====
-- The array of a temporary version block has room for what is written into it.
use avbgraph.Prelude.{
  ap, ◌∙◌, true, ltb, ◌==◌, lt→ltb, ==_refl, take, Bool-cases, inl, inr, ◌+◌, ◌*◌, ◌/◌, ◌%◌, ℕ, suc,
  zero, ◌^◌, ◌≤◌, ◌<◌, ◌≡◌, refl, List, [], ◌∷◌, ◌++◌, some, arith, length, get_elem?,
  length-append,
}
use avbgraph.Version.Temporary.{VersionEntry, TmpVersionBlock, grown, insert_version}

-- The array has room for the versions in use.
abbrev pub Roomy : TmpVersionBlock → Type 0
Roomy vb = length vb.tmp_entry ≤ vb.tmp_num

pub get_elem?-append :
    (xs : List VersionEntry) (x : VersionEntry) → get_elem? (xs ++ x ∷ []) (length xs) ≡ some x
get_elem?-append [] x = refl
get_elem?-append (y ∷ xs) x = get_elem?-append xs x

get_elem?-before :
    (xs ys : List VersionEntry) (i : ℕ) → i < length xs → get_elem? (xs ++ ys) i ≡ get_elem? xs i
get_elem?-before [] ys i h = absurd (omega arith)
get_elem?-before (x ∷ xs) ys zero h = refl
get_elem?-before (x ∷ xs) ys (suc i) h = get_elem?-before xs ys i (omega arith)

-- The block can take one more version.
pub record CanGrow (vb : TmpVersionBlock) : Type 0 where
  pub room : Roomy vb
  pub small : vb.tmp_num < 2 ^ 31

take-all : (n : ℕ) (xs : List VersionEntry) → length xs ≤ n → take n xs ≡ xs
take-all zero [] h = refl
take-all zero (x ∷ xs) h = absurd (omega arith)
take-all (suc n) [] h = refl
take-all (suc n) (x ∷ xs) h = ap (λ (r : List VersionEntry). x ∷ r) (take-all n xs (omega arith))

no_entries : (xs : List VersionEntry) → length xs ≡ 0 → [] ≡ xs
no_entries [] h = refl
no_entries (x ∷ xs) h = absurd (omega arith)

-- A larger array holds what the old one held.
grown-keeps :
    (vb : TmpVersionBlock)
    → CanGrow vb
    → ((grown vb).tmp_entry ≡ vb.tmp_entry)
      × (length vb.tmp_entry < (grown vb).tmp_num)
      × ((grown vb).timestamp ≡ vb.timestamp)
unfolding grown
grown-keeps vb can =
    let room = can.room in
    let small = can.small in
    elim (Bool-cases (ltb vb.tmp_num (length vb.tmp_entry + 1))) [
      | inl full ↦ elim (Bool-cases (vb.tmp_num == 0)) [
        | inl none_yet ↦
            let empty : length vb.tmp_entry ≡ 0 = ground arith in
            rw (full, none_yet) (no_entries vb.tmp_entry empty, omega arith, refl)
        | inr some_yet ↦
            let exact : vb.tmp_num * 2 % 2 ^ 32 / 2 ≡ vb.tmp_num = omega arith in
            let positive : 0 < vb.tmp_num = ground arith in
            rw (full, some_yet)
              (
                ap (λ (n : ℕ). take n vb.tmp_entry) exact ∙ take-all vb.tmp_num vb.tmp_entry room,
                omega arith,
                refl,
              )
      ]
      | inr enough ↦ rw enough (refl, ground arith, refl)
    ]

-- The block with one more version.
abbrev pub appended : TmpVersionBlock → VersionEntry → TmpVersionBlock
appended vb entry = record (grown vb) { tmp_entry = vb.tmp_entry ++ entry ∷ [] }

pub insert_version-appends :
    (vb : TmpVersionBlock) (entry : VersionEntry)
    → CanGrow vb
    → (insert_version vb entry ≡ some (length vb.tmp_entry, appended vb entry))
      × (length vb.tmp_entry < (appended vb entry).tmp_num)
unfolding insert_version
insert_version-appends vb entry can =
    let (kept, room, stamp) = grown-keeps vb can in
    let fits : ltb (length vb.tmp_entry) (grown vb).tmp_num ≡ true = lt→ltb _ _ room in
    (rw (fits, kept, ==_refl (length vb.tmp_entry)) refl, room)

-- On a block of less than 2^31 versions with an array that holds them, an insertion succeeds, with
-- or without a larger array, and answers with an index within the array, at which the new version
-- stands; the array holds all versions again, and the old versions keep their indices.
pub insert_version-Roomy :
    (vb : TmpVersionBlock) (entry : VersionEntry)
    → CanGrow vb
    → (idx : ℕ) × (r : TmpVersionBlock) × (insert_version vb entry ≡ some (idx, r))
      × (idx < r.tmp_num)
      × (get_elem? r.tmp_entry idx ≡ some entry)
      × Roomy r
      × ((i : ℕ) → i < length vb.tmp_entry → get_elem? r.tmp_entry i ≡ get_elem? vb.tmp_entry i)
insert_version-Roomy vb entry can =
    let (run, wide) = insert_version-appends vb entry can in
    let more = length-append vb.tmp_entry (entry ∷ []) in
    (
      length vb.tmp_entry,
      appended vb entry,
      run,
      wide,
      get_elem?-append vb.tmp_entry entry,
      omega (arith, more, wide),
      get_elem?-before vb.tmp_entry (entry ∷ []),
    )
