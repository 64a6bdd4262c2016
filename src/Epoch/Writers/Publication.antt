-- ===== src/Epoch/Writers/Publication.antt =====
-- What registration guarantees against publication.
use avbgraph.Epoch.Writers.Rounds.{begin-Inv, scan-Inv, settle-Inv, publish-Inv, finish-Inv}
use avbgraph.Epoch.Writers.Invariant.{
  Inv, load-Inv, store-Inv, retry-Inv, accept-Inv, leave-Inv, advance-Inv,
}
use avbgraph.Epoch.Writers.{
  max_simul_batch, writing, State, initial, Step, load, store, retry, accept, advance, leave, begin,
  scan, settle, publish, finish, Reach, here, after,
}
use avbgraph.Types.{epoch_max}
use avbgraph.Prelude.{ℕ, ◌+◌, ◌≤◌, ◌<◌, ◌≡◌, arith}

cur-grows : {n : ℕ} {s u : State} → Step n s u → s.cur ≤ u.cur
cur-grows (load t h w room) = omega arith
cur-grows (store t e h w) = omega arith
cur-grows (retry t e h w stale) = omega arith
cur-grows (accept t e h w now) = omega arith
cur-grows (advance t e h w now room) = omega arith
cur-grows (leave t e h w) = omega arith
cur-grows (begin w) = omega arith
cur-grows (scan last base i least h w) = omega arith
cur-grows (settle last base i least h w) = omega arith
cur-grows (publish w h) = omega arith
cur-grows (finish w) = omega arith

Step-Inv : {n : ℕ} {s u : State} → s.cur ≤ epoch_max → Step n s u → Inv n s → Inv n u
Step-Inv small (load t h w room) v = load-Inv t w v
Step-Inv small (store t e h w) v = store-Inv t e v
Step-Inv small (retry t e h w stale) v = retry-Inv t v
Step-Inv small (accept t e h w now) v = accept-Inv t e h w now v
Step-Inv small (advance t e h w now room) v = advance-Inv room v
Step-Inv {n} {s} small (leave t e h w) v = leave-Inv t epoch_max v
Step-Inv small (begin w) v = begin-Inv w v
Step-Inv small (scan last base i least h w) v = scan-Inv last base i least w v
Step-Inv small (settle last base i least h w) v = settle-Inv last base i least h small w v
Step-Inv small (publish w h) v = publish-Inv w h v
Step-Inv small (finish w) v = finish-Inv w v

Reach-Inv : {n : ℕ} {s u : State} → Inv n s → Reach n s u → u.cur ≤ epoch_max → Inv n u
Reach-Inv v here small = v
Reach-Inv {n} v (after {t} r st) small =
    let before : t.cur ≤ epoch_max = omega (arith, cur-grows st) in
    Step-Inv before st (Reach-Inv v r before)

initial-Inv : (n : ℕ) → Inv n initial
unfolding initial
initial-Inv n = record {
  clocks = record {
    behind = omega arith;
    started = tt;
    published = omega arith;
    ring = omega arith;
    positive = omega arith;
  };
  told = λ t e r. absurd (cc);
  held = λ t e r. absurd (cc);
}

-- In every interleaving of any number of writer threads with the updater, as long as the epochs
-- fit into 32 bits, the epoch of a registered writer is not yet published to the readers, and the
-- current epoch is at most 16 epochs ahead of the published one, so that no two live epochs fall
-- into the same slot of the ring of batches.
pub writing-unpublished :
    (n : ℕ) {s : State}
    → Reach n initial s
    → s.cur ≤ epoch_max
    → ((t e : ℕ) → s.writer t ≡ writing e → s.read_epoch < e)
      × (s.cur ≤ s.read_epoch + max_simul_batch)
writing-unpublished n {s} r small =
    let v = Reach-Inv (initial-Inv n) r small in
    (
      λ t e w. let q = v.held t e w in omega (arith, v.clocks.published, q.born, q.ahead),
      v.clocks.ring,
    )
