-- ===== src/Version/Manager/Chain.antt =====
-- The invariant of a chain, and that a push keeps it.
use avbgraph.Prelude.Int.{ℤ}
use avbgraph.Prelude.{ℕ, ◌<◌, ◌≡◌, refl, List, [], ◌∷◌}
use avbgraph.Version.Manager.{VersionBlock, Manager, push_vb}

-- Timestamps fall along the chain, and each block knows the timestamp of the next, or 0.
abbrev pub IsLinked : ℕ → List VersionBlock → Type 0
IsLinked end [] = end ≡ 0
IsLinked end (vb ∷ rest) =
    (end ≡ vb.timestamp) × (vb.last_epoch < vb.timestamp) × IsLinked vb.last_epoch rest

-- The vertex after the pushes of the blocks, oldest first.
unfoldable pub push_all : ℤ × Manager → List VersionBlock → ℤ × Manager
push_all (n, m) [] = (n, m)
push_all (n, m) (vb ∷ vbs) = push_all (push_vb n m vb) vbs

-- The epochs are published in order, from some epoch on.
abbrev pub Rising : ℕ → List VersionBlock → Type 0
Rising after [] = Unit {0}
Rising after (vb ∷ vbs) = (after < vb.timestamp) × Rising vb.timestamp vbs

pub push_vb-IsLinked :
    (n : ℤ) (m : Manager) (vb : VersionBlock)
    → m.end_epoch < vb.timestamp
    → IsLinked m.end_epoch m.chain
    → IsLinked (push_vb n m vb).1.end_epoch (push_vb n m vb).1.chain
unfolding push_vb
push_vb-IsLinked n m vb later h = (refl, later, h)

pub push_all-IsLinked :
    (n : ℤ) (m : Manager) (vbs : List VersionBlock)
    → Rising m.end_epoch vbs
    → IsLinked m.end_epoch m.chain
    → IsLinked (push_all (n, m) vbs).1.end_epoch (push_all (n, m) vbs).1.chain
unfolding push_all
push_all-IsLinked n m [] r l = l
push_all-IsLinked n m (vb ∷ vbs) (later, r) l =
    push_all-IsLinked (push_vb n m vb).0 (push_vb n m vb).1 vbs (unfold push_vb in r)
      (push_vb-IsLinked n m vb later l)
