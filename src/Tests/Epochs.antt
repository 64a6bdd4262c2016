-- ===== src/Tests/Epochs.antt =====
-- The interleavings of the epochs, at short runs.
use avbgraph.Epoch.Readers.Race.{reading-deleted}
use avbgraph.Epoch.Readers.Safety.{reading-keeps}
use avbgraph.Epoch.Writers.Publication.{writing-unpublished}
use avbgraph.Epoch.Readers
use avbgraph.Epoch.Writers
use avbgraph.Prelude.{update, ℕ, ◌+◌, ◌≤◌, ◌<◌, ◌≡◌, refl, arith, max}

-- Epoch 3 is loaded and epoch 5 published before it is stored.
reading-deleted_example :
    (s : Readers.State) × Readers.Reach 1 Readers.initial s
    × (s.reader 0 ≡ Readers.reading 3 5)
    × (s.deleted ≡ 5)
reading-deleted_example = reading-deleted 3 5 (omega arith) (omega arith)

abbrev registered : Readers.State
unfolding Readers.initial
registered = record {
  read_epoch = 0;
  min_read_epoch = 0;
  deleted = 0;
  active_read_epochs = update Readers.initial.active_read_epochs 0 0;
  reader =
      update (update (update Readers.initial.reader 0 (Readers.loaded 0)) 0 (Readers.stored 0)) 0
        (Readers.reading 0 0);
  updater = Readers.waiting;
}

registered_run : Readers.Reach 2 Readers.initial registered
unfolding Readers.initial
registered_run =
    let one : 0 < 2 = omega arith in
    let has_loaded = Readers.after Readers.here (Readers.load 0 one refl) in
    let has_stored = Readers.after has_loaded (Readers.store 0 0 one refl) in
    Readers.after has_stored (Readers.accept 0 0 one refl (omega arith))

reading-keeps_example : registered.deleted ≤ max 0 0
unfolding registered
reading-keeps_example = reading-keeps 2 registered_run 0 0 0 refl

abbrev writing : Writers.State
unfolding Writers.initial
writing = record {
  cur = 1;
  read_epoch = 0;
  min_epoch = 0;
  active_transactions = update Writers.initial.active_transactions 1 1;
  writer =
      update (update (update Writers.initial.writer 1 (Writers.loaded 1)) 1 (Writers.stored 1)) 1
        (Writers.writing 1);
  updater = Writers.waiting;
}

writing_run : Writers.Reach 2 Writers.initial writing
unfolding Writers.initial
writing_run =
    let two : 1 < 2 = omega arith in
    let has_loaded = Writers.after Writers.here (Writers.load 1 two refl (omega arith)) in
    let has_stored = Writers.after has_loaded (Writers.store 1 1 two refl) in
    Writers.after has_stored (Writers.accept 1 1 two refl refl)

writing-unpublished_example :
    ((t e : ℕ) → writing.writer t ≡ Writers.writing e → writing.read_epoch < e)
    × (writing.cur ≤ writing.read_epoch + Writers.max_simul_batch)
unfolding writing
writing-unpublished_example = writing-unpublished 2 writing_run (omega arith)
