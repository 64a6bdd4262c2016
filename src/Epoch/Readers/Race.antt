-- ===== src/Epoch/Readers/Race.antt =====
-- A reader that is overtaken between the load and the store of its epoch.
use avbgraph.Epoch.Readers.{
  State, reading, waiting, initial, load, store, accept, publish, begin, scan, settle, collect,
  Reach, here, after,
}
use avbgraph.Prelude.{ℕ, zero, suc, ◌+◌, ◌-◌, ◌≤◌, ◌<◌, ◌≡◌, refl, arith, min, max, subst, ap}
use avbgraph.Types.{epoch_max}

publish_many :
    {n : ℕ} {s : State} (t : State) (k m : ℕ)
    → t.updater ≡ waiting
    → m ≡ t.read_epoch + k
    → Reach n s t
    → Reach n s (record t { read_epoch = m })
publish_many {n} {s} t zero m w e r =
    let same : t.read_epoch ≡ m = omega arith in
    subst (λ (x : ℕ). Reach n s (record t { read_epoch = x })) same r
publish_many {n} {s} t (suc k) m w e r =
    publish_many {n = n} {s = s} (record t { read_epoch = t.read_epoch + 1 }) k m w (omega arith)
      (after r (publish w))

-- Whatever epoch `re` a reader loads, and whatever later epoch `r` has been published when it
-- stores it: the checks of the reader can pass although the blocks of all epochs below `r`, those
-- from `re` on among them, have been deleted.
pub reading-deleted :
    (re r : ℕ)
    → re < r
    → r ≤ epoch_max
    → (s : State) × Reach 1 initial s × (s.reader 0 ≡ reading re r) × (s.deleted ≡ r)
unfolding initial
reading-deleted re r early small =
    let one : 0 < 1 = omega arith in
    let caught_up = publish_many {n = 1} initial re re refl (omega arith) here in
    let has_loaded = after caught_up (load 0 one refl) in
    let overtaken = publish_many {n = 1} _ (r - re) r refl (omega arith) has_loaded in
    let first_round = after overtaken (begin refl) in
    let none_seen = after first_round (scan 0 epoch_max one refl) in
    let settled = after none_seen (settle 1 _ (omega arith) refl) in
    let collected = after settled (collect refl) in
    let second_round = after collected (begin refl) in
    let announced = after second_round (store 0 re one refl) in
    let one_seen = after announced (scan 0 epoch_max one refl) in
    let lowered = after one_seen (settle 1 _ (omega arith) refl) in
    let registered = after lowered (accept 0 re one refl (omega arith)) in
    let gone : max 0 (min r (min epoch_max epoch_max)) ≡ r = omega arith in
    (_, registered, ap (reading re) gone, gone)
