-- ===== src/Epoch/Ring/Batches.antt =====
-- The ring holds the batches of the live epochs.
use avbgraph.Epoch.Ring.{Manager, start, open_epoch}
use avbgraph.Epoch.Writers.{max_simul_batch}
use avbgraph.Prelude.{
  update, ℕ, ◌+◌, ◌-◌, ◌%◌, ◌≤◌, ◌<◌, ◌≡◌, refl, sym, subst, arith, ltb, ◌==◌, Bool-cases, inl, inr,
}

-- At most 16 epochs are live, and the slot of each holds its batch.
pub record IsRing (m : Manager) : Type 0 where
  pub behind : m.read_epoch ≤ m.cur
  pub narrow : m.cur ≤ m.read_epoch + 16
  pub turn : m.read_epoch_cur ≡ (m.read_epoch + 1) % 16
  pub batches : (e : ℕ) → m.read_epoch < e → e ≤ m.cur → m.active_txns (e % 16) ≡ e

start-IsRing : (unset : ℕ → ℕ) → IsRing (start unset)
unfolding start
start-IsRing unset = record {
  behind = omega arith;
  narrow = omega arith;
  turn = refl;
  batches = λ e h k.
      let one : e ≡ 1 = omega arith in
      subst (λ (x : ℕ). update unset 1 1 (x % 16) ≡ x) (sym one) refl;
}

-- The new epoch of a registration keeps the ring valid: at most 16 epochs are live, the next one to
-- publish is at its slot, and the slot of each live epoch holds the batch of that epoch. The new
-- batch takes a slot that no live epoch has.
open_epoch-IsRing : (m : Manager) → IsRing m → IsRing (open_epoch m)
unfolding open_epoch
open_epoch-IsRing m r = elim (Bool-cases (ltb (m.cur - m.read_epoch) max_simul_batch)) [
  | inl room ↦ rw room record {
    behind = omega (arith, r.behind);
    narrow = ground (arith, r.behind);
    turn = r.turn;
    batches = λ e h k. elim (Bool-cases (e == m.cur + 1)) [
      | inl fresh ↦ ground arith
      | inr old ↦ ground (arith, r.batches e h)
    ];
  }
  | inr full ↦ rw full r
]
