-- ===== src/Tests/Rings.antt =====
-- A ring with two epochs that are not published.
use avbgraph.Epoch.Ring.Batches.{IsRing}
use avbgraph.Epoch.Ring.Publishing.{Published, commit_version_block-Published}
use avbgraph.Epoch.Ring.{Manager, commit_version_block}
use avbgraph.Prelude.{◌≡◌, refl, [], some, arith}

abbrev two_open : Manager
two_open = record {
  cur = 2;
  read_epoch = 0;
  read_epoch_cur = 1;
  active_txns = λ slot. slot;
  vb_que = [];
  min_read_epoch = 0;
  oldest_epoch = 0;
}

two_open-IsRing : IsRing two_open
two_open-IsRing = record {
  behind = omega arith;
  narrow = omega arith;
  turn = refl;
  batches = λ e h k. omega arith;
}

commit_version_block-Published_example :
    (r : Manager) × (commit_version_block 2 two_open ≡ some r) × Published two_open 2 r
commit_version_block-Published_example =
    commit_version_block-Published two_open 2 two_open-IsRing (omega arith)
