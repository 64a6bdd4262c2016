-- ===== src/Epoch/Ring.antt =====
-- data-structure/VersionBlock/AllVBManager.cpp, one call at a time: the ring of the batches of the
-- epochs that are not published, the publication, the collection, and the end of the write phase.
-- A batch (VBData) is its epoch; what Transform does to its blocks is left out.
pub mod Batches
pub mod Publishing
use avbgraph.Epoch.Writers.{max_simul_batch}
use avbgraph.Prelude.{
  update, ℕ, zero, suc, ◌+◌, ◌-◌, ◌%◌, ◌≤◌, ◌<◌, ◌≡◌, Bool, ◌&&◌, List, [], ◌∷◌, ◌++◌, Option, none,
  some, ltb, leb, ◌==◌, if◌then◌else◌,
}
use avbgraph.Types.{Composite, epoch_max}

pub record Manager : Type 0 where
  pub cur : ℕ
  pub read_epoch : ℕ
  pub read_epoch_cur : ℕ
  pub active_txns : ℕ → ℕ
  pub vb_que : List ℕ
  pub min_read_epoch : ℕ
  pub oldest_epoch : ℕ

-- The constructor; the slots but for the first are not set.
unfoldable pub start : (ℕ → ℕ) → Manager
start unset = record {
  cur = 1;
  read_epoch = 0;
  read_epoch_cur = 1;
  active_txns = update unset 1 1;
  vb_que = [];
  min_read_epoch = 0;
  oldest_epoch = 0;
}

-- The new epoch in registerTransaction, for a writer of the epoch `cur`.
unfoldable pub open_epoch : Manager → Manager
open_epoch m =
    if ltb (m.cur - m.read_epoch) max_simul_batch
    then record m {
      active_txns = update m.active_txns ((m.cur % 16 + 1) % 16) (m.cur + 1);
      cur = m.cur + 1;
    }
    else m

-- The loop of commitVersionBlock: `none` means that the fuel ran out.
unfoldable pub commit_loop : ℕ → ℕ → Manager → Option Manager
commit_loop zero bound m = none
commit_loop (suc fuel) bound m =
    let rest = commit_loop fuel bound (record m {
      vb_que = m.vb_que ++ m.active_txns m.read_epoch_cur ∷ [];
      read_epoch = m.read_epoch + 1;
      read_epoch_cur = if m.read_epoch_cur == max_simul_batch - 1 then 0 else m.read_epoch_cur + 1;
    }) in
    if ltb (m.read_epoch + 1) bound then rest else some m

unfoldable pub commit_version_block : ℕ → Manager → Option Manager
unfolding commit_loop
commit_version_block bound m = commit_loop (bound + 1) bound m

-- FinalizeNoMoreTxn, after the updater was joined.
unfoldable pub finalize_no_more_txn : Manager → Option Manager
unfolding commit_version_block
finalize_no_more_txn m =
    let rest = commit_version_block (m.cur + 1) m in
    if ltb (m.read_epoch + 1) (m.cur + 1) then rest else some m

-- The loop of GC over the queue.
unfoldable pub discard : ℕ → List ℕ → List ℕ
discard least [] = []
discard least (e ∷ es) = if ltb e least then discard least es else e ∷ es

unfoldable pub gc : Manager → Manager
unfolding discard
gc m = record m { vb_que = discard m.min_read_epoch m.vb_que; oldest_epoch = m.min_read_epoch }

-- The read timestamp in registerROTransaction: `intra` gives the counter of a batch.
unfoldable pub read_ts : Manager → ℕ → (ℕ → ℕ) → Composite
read_ts m re intra =
    let epoch = m.active_txns m.read_epoch_cur in
    if leb (re + 1) m.cur && epoch == re + 1
    then record { e = re + 1; i = intra epoch }
    else record { e = re; i = epoch_max }
