-- ===== src/Types.antt =====
-- data-structure/data_types.h: words, flag bits and the composite timestamp.
-- A word is a natural number below its bound. `x & ~flag` is the remainder below the flag's bit,
-- and `x | flag` sets that bit, for the flags at the top of their words.
pub mod Order
use avbgraph.Prelude.{ℕ, ◌+◌, ◌-◌, ◌/◌, ◌%◌, ◌^◌, Bool, ◌&&◌, ◌||◌, ltb, ◌==◌}

-- TMPVB_MASK, the top bit of a 32-bit epoch word.
abbrev pub tmpvb_mask : ℕ
tmpvb_mask = 2 ^ 31

-- DELETION_MASK, the top bit of a 64-bit destination.
abbrev pub deletion_mask : ℕ
deletion_mask = 2 ^ 63

-- INTRA_MAX and MY_NO_TRANSACTION, the largest 32-bit word.
abbrev pub epoch_max : ℕ
epoch_max = 2 ^ 32 - 1

unfoldable pub is_delete : ℕ → Bool
is_delete e = e / deletion_mask % 2 == 1

-- `e & ~DELETION_MASK` and `e | DELETION_MASK`
unfoldable pub strip : ℕ → ℕ
strip e = e % deletion_mask

unfoldable pub mark_deleted : ℕ → ℕ
mark_deleted e = e % deletion_mask + deletion_mask

pub record Composite : Type 0 where
  pub e : ℕ
  pub i : ℕ

unfoldable pub lt : Composite → Composite → Bool
lt a b = ltb a.e b.e || a.e == b.e && ltb a.i b.i

unfoldable pub le : Composite → Composite → Bool
unfolding lt
le a b = lt a b || a.e == b.e && a.i == b.i

unfoldable pub eq : Composite → Composite → Bool
eq a b = a.e == b.e && a.i == b.i
