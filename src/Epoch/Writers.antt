-- ===== src/Epoch/Writers.antt =====
-- data-structure/VersionBlock/AllVBManager.cpp: the registration of write transactions against the
-- updater thread, which computes the oldest epoch with an active writer and publishes the epochs
-- below it. Steps interleave as in Readers; the write phase is open (`no_more_txn_` is false).
pub mod Invariant
pub mod Rounds
pub mod Publication
use avbgraph.Prelude.{
  update, ℕ, ◌+◌, ◌-◌, ◌≤◌, ◌<◌, ◌≡◌, ◌≢◌, ◌&&◌, not, ◌==◌, ltb, if◌then◌else◌, min,
}
use avbgraph.Types.{epoch_max}

-- MAXSIMULBATCH
abbrev pub max_simul_batch : ℕ
max_simul_batch = 16

-- Where a thread stands in registerTransaction.
pub data WriterPc : Type 0 where
  idle : WriterPc
  loaded : ℕ → WriterPc
  stored : ℕ → WriterPc
  writing : ℕ → WriterPc

-- Where the updater stands: outside of a round; in the scan, with the last minimum, the epoch that
-- it started from, the thread and the least epoch so far; or publishing.
pub data UpdaterPc : Type 0 where
  waiting : UpdaterPc
  scanning : ℕ → ℕ → ℕ → ℕ → UpdaterPc
  publishing : UpdaterPc

pub record State : Type 0 where
  pub cur : ℕ
  pub read_epoch : ℕ
  pub min_epoch : ℕ
  pub active_transactions : ℕ → ℕ
  pub writer : ℕ → WriterPc
  pub updater : UpdaterPc

unfoldable pub initial : State
initial = record {
  cur = 1;
  read_epoch = 0;
  min_epoch = 0;
  active_transactions = λ t. epoch_max;
  writer = λ t. idle;
  updater = waiting;
}

-- The end of update_min_version: the minimum never moves back while a writer is active.
abbrev pub settled : ℕ → ℕ → ℕ → ℕ
settled last base least =
    if ltb (min base least) last && not (least == epoch_max) then last else min base least

pub data Step (n : ℕ) (s : State) : State → Type 0 where
  -- `cur = test1()`
  load :
      (t : ℕ)
      → t < n
      → s.writer t ≡ idle
      → s.cur - s.read_epoch < max_simul_batch
      → Step n s (record s { writer = update s.writer t (loaded s.cur) })
  -- `active_transactions[thread_id].store(cur)`
  store :
      (t e : ℕ)
      → t < n
      → s.writer t ≡ loaded e
      → Step n s (record s {
        active_transactions = update s.active_transactions t e;
        writer = update s.writer t (stored e);
      })
  -- `while (cur != cur_)`: once more
  retry :
      (t e : ℕ)
      → t < n
      → s.writer t ≡ stored e
      → e ≢ s.cur
      → Step n s (record s { writer = update s.writer t idle })
  -- `while (cur != cur_)`: done
  accept :
      (t e : ℕ)
      → t < n
      → s.writer t ≡ stored e
      → e ≡ s.cur
      → Step n s (record s { writer = update s.writer t (writing e) })
  -- The new epoch, under the flag `is_create`.
  advance :
      (t e : ℕ)
      → t < n
      → s.writer t ≡ writing e
      → e ≡ s.cur
      → s.cur - s.read_epoch < max_simul_batch
      → Step n s (record s { cur = s.cur + 1 })
  -- deregisterTransaction
  leave :
      (t e : ℕ)
      → t < n
      → s.writer t ≡ writing e
      → Step n s (record s {
        active_transactions = update s.active_transactions t epoch_max;
        writer = update s.writer t idle;
      })
  -- `last = min_epoch; min_epoch = cur_; min2 = max()`
  begin :
      s.updater ≡ waiting
      → Step n s (record s { min_epoch = s.cur; updater = scanning s.min_epoch s.cur 0 epoch_max })
  -- `min2 = std::min(min2, active_transactions[i].load())`
  scan :
      (last base i least : ℕ)
      → i < n
      → s.updater ≡ scanning last base i least
      → Step n s
          (record s { updater = scanning last base (i + 1) (min least (s.active_transactions i)) })
  settle :
      (last base i least : ℕ)
      → n ≤ i
      → s.updater ≡ scanning last base i least
      → Step n s (record s { min_epoch = settled last base least; updater = publishing })
  -- One round of the loop of commitVersionBlock.
  publish :
      s.updater ≡ publishing
      → s.read_epoch + 1 < s.min_epoch
      → Step n s (record s { read_epoch = s.read_epoch + 1 })
  finish : s.updater ≡ publishing → Step n s (record s { updater = waiting })

pub data Reach (n : ℕ) (s : State) : State → Type 0 where
  here : Reach n s s
  after : {t u : State} → Reach n s t → Step n t u → Reach n s u
