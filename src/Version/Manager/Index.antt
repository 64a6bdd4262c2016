-- ===== src/Version/Manager/Index.antt =====
-- The index of blocks by epoch, against the chain.
use avbgraph.Prelude.Int.{ℤ, pos}
use avbgraph.Prelude.{
  ℕ, ◌≤◌, ◌<◌, ◌≡◌, refl, ◌∙◌, List, [], ◌∷◌, ◌++◌, Option, none, some, arith, ltb, leb,
  if◌then◌else◌,
}
use avbgraph.Version.Manager.Chain.{Rising, push_all}
use avbgraph.Version.Manager.{VersionBlock, Manager, new, push_vb, find_before, find_vb}

-- The first block of the chain that is not after the epoch.
pub newest_until : ℕ → List VersionBlock → Option VersionBlock
newest_until ts [] = none
newest_until ts (vb ∷ rest) = if leb vb.timestamp ts then some vb else newest_until ts rest

abbrev AllUntil : ℕ → List (ℕ × VersionBlock) → Type 0
AllUntil end [] = Unit {0}
AllUntil end ((t, vb) ∷ rest) = (t ≤ end) × AllUntil end rest

AllUntil-append :
    (end t : ℕ) (vb : VersionBlock) (xs : List (ℕ × VersionBlock))
    → end ≤ t
    → AllUntil end xs
    → AllUntil t (xs ++ (t, vb) ∷ [])
AllUntil-append end t vb [] h a = (omega arith, tt)
AllUntil-append end t vb ((u, b) ∷ xs) h (p, a) = (omega arith, AllUntil-append end t vb xs h a)

find_before-append :
    (ts t : ℕ) (vb : VersionBlock) (last : Option VersionBlock) (xs : List (ℕ × VersionBlock))
    → AllUntil t xs
    → find_before ts last (xs ++ (t, vb) ∷ [])
      ≡ (if ltb ts t then find_before ts last xs else some vb)
unfolding find_before
find_before-append ts t vb last [] a = refl
find_before-append ts t vb last ((u, b) ∷ xs) (p, a) =
    ground (arith, find_before-append ts t vb (some b) xs a)

AllUntil-mono :
    (end t : ℕ) (xs : List (ℕ × VersionBlock)) → end ≤ t → AllUntil end xs → AllUntil t xs
AllUntil-mono end t [] h a = tt
AllUntil-mono end t ((u, b) ∷ xs) h (p, a) = (omega arith, AllUntil-mono end t xs h a)

-- The index finds what the chain holds.
abbrev Agrees : Manager → Type 0
Agrees m = (ts : ℕ) → find_before ts none m.vb_index ≡ newest_until ts m.chain

push_vb-Agrees :
    (n : ℤ) (m : Manager) (vb : VersionBlock)
    → m.end_epoch < vb.timestamp
    → AllUntil m.end_epoch m.vb_index
    → Agrees m
    → Agrees (push_vb n m vb).1
unfolding push_vb newest_until
push_vb-Agrees n m vb later a same ts =
    find_before-append ts vb.timestamp _ none m.vb_index
      (AllUntil-mono m.end_epoch vb.timestamp m.vb_index (omega arith) a)
    ∙ ground (arith, same ts)

push_all-Agrees :
    (n : ℤ) (m : Manager) (vbs : List VersionBlock)
    → Rising m.end_epoch vbs
    → AllUntil m.end_epoch m.vb_index
    → Agrees m
    → Agrees (push_all (n, m) vbs).1
unfolding push_all
push_all-Agrees n m [] r a same = same
push_all-Agrees n m (vb ∷ vbs) (later, r) a same =
    push_all-Agrees (push_vb n m vb).0 (push_vb n m vb).1 vbs (unfold push_vb in r)
      (unfold push_vb in AllUntil-append m.end_epoch vb.timestamp _ m.vb_index (omega arith) a)
      (push_vb-Agrees n m vb later a same)

-- After pushes of rising epochs, the search in the index and a walk down the chain give the same
-- block for every epoch: the newest one that is not after it, or none.
find_vb-newest_until :
    (ts : ℕ) (vbs : List VersionBlock)
    → Rising 0 vbs
    → find_vb (push_all (pos 0, new) vbs).1 ts ≡ newest_until ts (push_all (pos 0, new) vbs).1.chain
unfolding find_vb
find_vb-newest_until ts vbs r =
    push_all-Agrees (pos 0) new vbs (unfold new in r) (unfold new in tt)
      (λ t. unfold new newest_until find_before in refl) ts
