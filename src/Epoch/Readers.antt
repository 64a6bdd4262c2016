-- ===== src/Epoch/Readers.antt =====
-- data-structure/VersionBlock/AllVBManager.cpp: the registration of read-only transactions
-- against the updater thread, which publishes epochs, computes the oldest epoch in use and deletes
-- version blocks. Every access to a shared variable is one step; steps of the threads interleave in
-- any order, and memory is sequentially consistent.
pub mod Safety
pub mod Race
use avbgraph.Prelude.{update, ℕ, ◌+◌, ◌≤◌, ◌<◌, ◌≡◌, ◌==◌, if◌then◌else◌, min, max}
use avbgraph.Types.{epoch_max}

-- Where a thread stands in registerROTransaction.
pub data ReaderPc : Type 0 where
  idle : ReaderPc
  loaded : ℕ → ReaderPc
  stored : ℕ → ReaderPc
  -- Registered at an epoch, when blocks of the epochs below the second number were deleted.
  reading : ℕ → ℕ → ReaderPc

-- Where the updater stands: outside of a round, in the scan before a thread with the least epoch
-- so far, or after the scan.
pub data UpdaterPc : Type 0 where
  waiting : UpdaterPc
  scanning : ℕ → ℕ → UpdaterPc
  swept : UpdaterPc

pub record State : Type 0 where
  pub read_epoch : ℕ
  pub min_read_epoch : ℕ
  -- Blocks of the epochs below this one are deleted.
  pub deleted : ℕ
  pub active_read_epochs : ℕ → ℕ
  pub reader : ℕ → ReaderPc
  pub updater : UpdaterPc

unfoldable pub initial : State
initial = record {
  read_epoch = 0;
  min_read_epoch = 0;
  deleted = 0;
  active_read_epochs = λ t. epoch_max;
  reader = λ t. idle;
  updater = waiting;
}

-- One step, with `n` threads.
pub data Step (n : ℕ) (s : State) : State → Type 0 where
  -- `re = read_epoch_`
  load :
      (t : ℕ)
      → t < n
      → s.reader t ≡ idle
      → Step n s (record s { reader = update s.reader t (loaded s.read_epoch) })
  -- `active_read_epochs[thread_id_].store(re)`
  store :
      (t re : ℕ)
      → t < n
      → s.reader t ≡ loaded re
      → Step n s (record s {
        active_read_epochs = update s.active_read_epochs t re;
        reader = update s.reader t (stored re);
      })
  -- `while (re < min_read_epoch)`: once more
  retry :
      (t re : ℕ)
      → t < n
      → s.reader t ≡ stored re
      → re < s.min_read_epoch
      → Step n s (record s { reader = update s.reader t idle })
  -- `while (re < min_read_epoch)`: done
  accept :
      (t re : ℕ)
      → t < n
      → s.reader t ≡ stored re
      → s.min_read_epoch ≤ re
      → Step n s (record s { reader = update s.reader t (reading re s.deleted) })
  -- deregisterROTransaction
  leave :
      (t re seen : ℕ)
      → t < n
      → s.reader t ≡ reading re seen
      → Step n s (record s {
        active_read_epochs = update s.active_read_epochs t epoch_max;
        reader = update s.reader t idle;
      })
  -- `read_epoch_++` in commitVersionBlock
  publish : s.updater ≡ waiting → Step n s (record s { read_epoch = s.read_epoch + 1 })
  -- `min_read_epoch = read_epoch_; min1 = max()` in update_min_version
  begin :
      s.updater ≡ waiting
      → Step n s (record s { min_read_epoch = s.read_epoch; updater = scanning 0 epoch_max })
  -- `min1 = std::min(min1, active_read_epochs[i].load())`
  scan :
      (i least : ℕ)
      → i < n
      → s.updater ≡ scanning i least
      → Step n s (record s { updater = scanning (i + 1) (min least (s.active_read_epochs i)) })
  -- `min_read_epoch = std::min(min_read_epoch, min1)`
  settle :
      (i least : ℕ)
      → n ≤ i
      → s.updater ≡ scanning i least
      → Step n s (record s { min_read_epoch = min s.min_read_epoch least; updater = swept })
  -- GC
  collect :
      s.updater ≡ swept
      → Step n s (record s { deleted = max s.deleted s.min_read_epoch; updater = waiting })

pub data Reach (n : ℕ) (s : State) : State → Type 0 where
  here : Reach n s s
  after : {t u : State} → Reach n s t → Step n t u → Reach n s u
