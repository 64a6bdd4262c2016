-- ===== src/Tests/Versions.antt =====
-- Version blocks, timestamps and the walk of a reader, on a vertex with two blocks.
use avbgraph.Prelude.Int.{pos, negsuc}
use avbgraph.Prelude.{◌≤◌, ◌≡◌, refl, true, [], ◌∷◌, none, some, arith, select, length}
use avbgraph.Types.{Composite, lt}
use avbgraph.Version.Item.Visibility.{IsHistory}
use avbgraph.Version.Item.{EdgeWithIndex, created, get_coarse_c}
use avbgraph.Version.Iterator.Visits.{relevant, visit_loop-relevant}
use avbgraph.Version.Iterator.{hidden, begin, visit_loop}
use avbgraph.Version.Manager.Chain.{Rising, push_all}
use avbgraph.Version.Manager.Degree.{sum_until, get_degree-push_all}
use avbgraph.Version.Manager.{to_word, VersionBlock, new, push_vb, get_degree}

abbrev early : Composite
early = record { e = 3; i = 1 }

abbrev later : Composite
later = record { e = 3; i = 4 }

abbrev first_version : EdgeWithIndex
first_version = record { e = 7; block = 3; index = 1 }

abbrev second_version : EdgeWithIndex
second_version = record { e = 7; block = 3; index = 4 }

replaced-IsHistory : IsHistory (created second_version) ((first_version, later) ∷ [])
unfolding created get_coarse_c lt
replaced-IsHistory = (refl, refl, tt)

abbrev item : EdgeWithIndex
item = record { e = 9; block = 2; index = 0 }

abbrev block_2 : VersionBlock
block_2 = record {
  edge_num = pos 3;
  timestamp = 2;
  last_epoch = 0;
  start = some ((item, item) ∷ []);
}

abbrev block_5 : VersionBlock
block_5 = record { edge_num = negsuc 0; timestamp = 5; last_epoch = 0; start = none }

two_blocks : Rising 0 (block_2 ∷ block_5 ∷ [])
two_blocks = (omega arith, (omega arith, tt))

get_degree-push_all_example :
    get_degree (push_all (pos 0, new) (block_2 ∷ block_5 ∷ [])) 4
    ≡ some (to_word (sum_until 4 (block_2 ∷ block_5 ∷ [])))
get_degree-push_all_example = get_degree-push_all 4 (block_2 ∷ block_5 ∷ []) two_blocks

published_until : 2 ≤ (push_all (pos 0, new) (block_2 ∷ block_5 ∷ [])).1.end_epoch
unfolding push_all push_vb new
published_until = omega arith

visit_loop-relevant_example :
    visit_loop
      (length (push_all (pos 0, new) (block_2 ∷ block_5 ∷ [])).1.chain)
      2
      (begin 2 (push_all (pos 0, new) (block_2 ∷ block_5 ∷ [])).1.chain)
    ≡ select (relevant 2) (push_all (pos 0, new) (block_2 ∷ block_5 ∷ [])).1.chain
visit_loop-relevant_example =
    visit_loop-relevant 2 (block_2 ∷ block_5 ∷ []) two_blocks published_until

abbrev after_block_2 : VersionBlock
after_block_2 = record block_5 { last_epoch = 2 }

after_block_2_hidden : hidden 2 after_block_2.start ≡ true
unfolding hidden
after_block_2_hidden = refl
