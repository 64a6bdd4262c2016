-- ===== src/EdgeBlock/VertexEdges/Transform/Records.antt =====
-- The records that a publication writes.
use avbgraph.EdgeBlock.VertexEdges.Transform.{first_loop, second_loop, third_loop}
use avbgraph.EdgeBlock.VertexEdges.{VertexEdges, Item}
use avbgraph.Prelude.Int.{ℤ, pos, ◌+ℤ◌, ◌-ℤ◌}
use avbgraph.Prelude.{
  ℕ, ◌+◌, ◌≡◌, refl, ap, ◌∙◌, List, [], ◌∷◌, map, select, some, if◌then◌else◌, Bool-cases, inl, inr,
}
use avbgraph.Types.{is_delete}
use avbgraph.Version.Item.{EdgeWithIndex}
use avbgraph.Version.Temporary.{VersionEntry}
use avbgraph.EdgeBlock.VertexEdges.Transform.Entries.{
  AllReachable, AllFresh, Alike, AllReachable-Alike, Alike-trans, old_half, settle_old-half,
  settle_new-Alike,
}

-- The deletions among the entries.
abbrev pub deletions : List VersionEntry → List VersionEntry
deletions entries = select (λ (ent : VersionEntry). is_delete ent.edge) entries

pub first_loop-deletions :
    (s : VertexEdges) (epoch : ℕ) (edge_num : ℤ) (entries : List VersionEntry)
    → AllReachable s entries
    → AllFresh entries
    → (r : VertexEdges × ℤ × List VersionEntry) × (first_loop s epoch edge_num entries ≡ some r)
      × (r.2 ≡ deletions entries)
      × Alike s r.0
unfolding first_loop
first_loop-deletions s epoch edge_num [] reach z = (
  (s, edge_num, []),
  refl,
  refl,
  record { merges = refl; starts = refl; buffers = refl; lengths = λ k. refl; chained = refl },
)
first_loop-deletions s epoch edge_num (ent ∷ entries) (here, reach) (z, zs) =
    elim (Bool-cases (is_delete ent.edge)) [
      | inl e ↦
          let (r, run, dead, same) = first_loop-deletions s epoch edge_num entries reach zs in
          (
            (r.0, r.1, ent ∷ r.2),
            rw (e, run) refl,
            rw e (ap (λ (l : List VersionEntry). ent ∷ l) dead),
            same,
          )
      | inr e ↦
          let (t, settled, alike) = settle_new-Alike s epoch ent here z in
          let (r, run, dead, same) =
            first_loop-deletions t epoch (edge_num +ℤ pos 1) entries
              (AllReachable-Alike s t entries alike reach) zs in
          (r, rw (e, settled) run, rw e dead, Alike-trans alike same)
    ]

abbrev pub edge_halves : List Item → List EdgeWithIndex
edge_halves xs = map (λ (x : Item). x.0) xs

pub second_loop-halves :
    (s : VertexEdges) (epoch j : ℕ) (edge_num : ℤ) (entries : List VersionEntry)
    → AllReachable s entries
    → (r : VertexEdges × ℤ × List Item) × (second_loop s epoch j edge_num entries ≡ some r)
      × (edge_halves r.2 ≡ map old_half entries)
      × Alike s r.0
unfolding second_loop
second_loop-halves s epoch j edge_num [] reach = (
  (s, edge_num, []),
  refl,
  refl,
  record { merges = refl; starts = refl; buffers = refl; lengths = λ k. refl; chained = refl },
)
second_loop-halves s epoch j edge_num (ent ∷ entries) (here, reach) =
    let edge_num' = if is_delete ent.edge then edge_num -ℤ pos 1 else edge_num +ℤ pos 1 in
    let weight = if is_delete ent.edge then 0 else ent.weight in
    let (x, settled, half, alike) = settle_old-half s epoch j weight ent here in
    let (r, run, halves, same) =
      second_loop-halves x.1 epoch (j + 1) edge_num' entries
        (AllReachable-Alike s x.1 entries alike reach) in
    (
      (r.0, r.1, x.0 ∷ r.2),
      rw (settled, run) refl,
      ap (λ (h : EdgeWithIndex). h ∷ edge_halves r.2) half
          ∙ ap (λ (l : List EdgeWithIndex). old_half ent ∷ l) halves,
      Alike-trans alike same,
    )

pub third_loop-halves :
    (s : VertexEdges) (epoch j : ℕ) (edge_num : ℤ) (entries : List VersionEntry)
    → AllReachable s entries
    → (r : VertexEdges × ℤ × List Item) × (third_loop s epoch j edge_num entries ≡ some r)
      × (edge_halves r.2 ≡ map old_half entries)
      × Alike s r.0
unfolding third_loop
third_loop-halves s epoch j edge_num [] reach = (
  (s, edge_num, []),
  refl,
  refl,
  record { merges = refl; starts = refl; buffers = refl; lengths = λ k. refl; chained = refl },
)
third_loop-halves s epoch j edge_num (ent ∷ entries) (here, reach) =
    let (x, settled, half, alike) = settle_old-half s epoch j 0 ent here in
    let (r, run, halves, same) =
      third_loop-halves x.1 epoch (j + 1) (edge_num -ℤ pos 1) entries
        (AllReachable-Alike s x.1 entries alike reach) in
    (
      (r.0, r.1, x.0 ∷ r.2),
      rw (settled, run) refl,
      ap (λ (h : EdgeWithIndex). h ∷ edge_halves r.2) half
          ∙ ap (λ (l : List EdgeWithIndex). old_half ent ∷ l) halves,
      Alike-trans alike same,
    )
