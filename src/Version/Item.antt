-- ===== src/Version/Item.antt =====
-- data-structure/VersionBlock/VertexVersionBlock/VersionBlock.h, struct EdgeWithIndex, in the
-- build with FINEGRAIN: one half of an edge, either {destination, creation epoch, creation
-- intra-time} or {weight, index of the predecessor, intra-time of the invalidation}.
pub mod Visibility
use avbgraph.Prelude.{ℕ, ◌/◌, ◌%◌, ◌^◌, Bool, ◌&&◌, leb, ◌==◌}
use avbgraph.Types.{Composite, lt, le, tmpvb_mask}

-- `e` shares its word with `properties`.
pub record EdgeWithIndex : Type 0 where
  pub e : ℕ
  pub block : ℕ
  pub index : ℕ

unfoldable pub has_tmp_vb : EdgeWithIndex → Bool
has_tmp_vb x = x.block / tmpvb_mask % 2 == 1

unfoldable pub get_link_block : EdgeWithIndex → ℕ
get_link_block x = x.block % tmpvb_mask

unfoldable pub is_visible_at : EdgeWithIndex → ℕ → Bool
unfolding get_link_block
is_visible_at x snap = leb (get_link_block x) snap

unfoldable pub get_coarse_c : EdgeWithIndex → ℕ
get_coarse_c x = x.block % tmpvb_mask

-- The composite creation time.
unfoldable pub created : EdgeWithIndex → Composite
unfolding get_coarse_c
created x = record { e = get_coarse_c x; i = x.index }

-- The newest version: created before the query.
unfoldable pub is_visible_at_composite : EdgeWithIndex → Composite → Bool
is_visible_at_composite x query = lt (created x) query

-- A replaced version: created before the query, which is not after the invalidation.
unfoldable pub is_visible_within : EdgeWithIndex → Composite → Composite → Bool
is_visible_within x query inv = lt (created x) query && le query inv

unfoldable pub set_edge_fg : ℕ → ℕ → ℕ → EdgeWithIndex
set_edge_fg d coarse ic = record { e = d; block = coarse; index = ic }

unfoldable pub set_prop_fg : ℕ → ℕ → ℕ → EdgeWithIndex
set_prop_fg w pred_idx inv = record { e = w; block = pred_idx; index = inv }

unfoldable pub cleared : ℕ → EdgeWithIndex
cleared e = record { e = e; block = 0; index = 0 }
