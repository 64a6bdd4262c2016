-- ===== src/Epoch/Ring/Publishing.antt =====
-- Publication takes the batches of the ring in order.
use avbgraph.Epoch.Ring.Batches.{IsRing}
use avbgraph.Epoch.Ring.{Manager, commit_loop, commit_version_block, read_ts}
use avbgraph.Epoch.Writers.{max_simul_batch}
use avbgraph.Prelude.{
  append_assoc, append_nil, ℕ, zero, suc, ◌+◌, ◌-◌, ◌≤◌, ◌<◌, ◌≡◌, refl, sym, ap, subst, ◌∙◌, true,
  false, List, [], ◌∷◌, ◌++◌, some, arith, ltb, leb, ◌==◌, if◌then◌else◌, Bool-cases, inl, inr,
  ==_refl, ltb→lt, ltb→le, max,
}
use avbgraph.Types.{epoch_max}

-- The epochs from one on.
pub epochs_from : ℕ → ℕ → List ℕ
epochs_from e zero = []
epochs_from e (suc n) = e ∷ epochs_from (e + 1) n

epochs_from-zero : (e n : ℕ) → n ≡ 0 → epochs_from e n ≡ []
unfolding epochs_from
epochs_from-zero e n h = subst (λ (k : ℕ). epochs_from e k ≡ []) (sym h) refl

epochs_from-suc : (e n k : ℕ) → n ≡ suc k → epochs_from e n ≡ e ∷ epochs_from (e + 1) k
unfolding epochs_from
epochs_from-suc e n k h =
    subst (λ (x : ℕ). epochs_from e x ≡ e ∷ epochs_from (e + 1) k) (sym h) refl

-- One round of the publication.
published : Manager → Manager
published m = record m {
  vb_que = m.vb_que ++ m.active_txns m.read_epoch_cur ∷ [];
  read_epoch = m.read_epoch + 1;
  read_epoch_cur = if m.read_epoch_cur == max_simul_batch - 1 then 0 else m.read_epoch_cur + 1;
}

published-IsRing : (m : Manager) → IsRing m → m.read_epoch < m.cur → IsRing (published m)
unfolding published
published-IsRing m r h = record {
  behind = omega arith;
  narrow = omega (arith, r.narrow);
  turn = ground (arith, r.turn);
  batches = λ e a b. r.batches e (omega arith) b;
}

-- What the publication up to a bound gives.
pub record Published (m : Manager) (bound : ℕ) (r : Manager) : Type 0 where
  pub ring : IsRing r
  pub now : r.cur ≡ m.cur
  pub reached : r.read_epoch ≡ max m.read_epoch (bound - 1)
  pub queued : r.vb_que ≡ m.vb_que ++ epochs_from (m.read_epoch + 1) (bound - 1 - m.read_epoch)

commit_loop-Published :
    (fuel bound : ℕ) (m : Manager)
    → IsRing m
    → bound ≤ m.cur + 1
    → bound ≤ m.read_epoch + fuel
    → 0 < fuel
    → (r : Manager) × (commit_loop fuel bound m ≡ some r) × Published m bound r
unfolding commit_loop published
commit_loop-Published zero bound m i b h f = absurd (omega arith)
commit_loop-Published (suc fuel) bound m i b h f =
    elim (Bool-cases (ltb (m.read_epoch + 1) bound)) [
      | inl more ↦
          let below = ltb→lt _ _ more in
          let (r, run, p) =
            commit_loop-Published fuel bound (published m) (published-IsRing m i (omega arith)) b
              (omega arith) (omega arith) in
          let batch =
            ap m.active_txns i.turn ∙ i.batches (m.read_epoch + 1) (omega arith) (omega arith) in
          let rest = bound - 1 - (m.read_epoch + 1) in
          (
            r,
            rw more run,
            record {
              ring = p.ring;
              now = p.now;
              reached = omega (arith, p.reached);
              queued =
                  p.queued
                  ∙ append_assoc m.vb_que (m.active_txns m.read_epoch_cur ∷ [])
                      (epochs_from (m.read_epoch + 1 + 1) rest)
                  ∙ ap (λ (x : ℕ). m.vb_que ++ x ∷ epochs_from (m.read_epoch + 1 + 1) rest) batch
                  ∙ ap (λ (es : List ℕ). m.vb_que ++ es)
                      (sym (
                        epochs_from-suc (m.read_epoch + 1) (bound - 1 - m.read_epoch) rest
                          (omega arith)));
            },
          )
      | inr done ↦
          let above = ltb→le _ _ done in
          (
            m,
            rw done refl,
            record {
              ring = i;
              now = refl;
              reached = omega arith;
              queued = sym (
                  ap (λ (es : List ℕ). m.vb_que ++ es)
                    (epochs_from-zero (m.read_epoch + 1) (bound - 1 - m.read_epoch) (omega arith))
                  ∙ append_nil m.vb_que);
            },
          )
    ]

-- On a valid ring a publication up to an epoch that exists ends with a valid ring. It moves the
-- published epoch to the one before the bound, never back, and queues the batches of exactly the
-- newly published epochs, each once and in their order.
pub commit_version_block-Published :
    (m : Manager) (bound : ℕ)
    → IsRing m
    → bound ≤ m.cur + 1
    → (r : Manager) × (commit_version_block bound m ≡ some r) × Published m bound r
unfolding commit_version_block
commit_version_block-Published m bound i b =
    commit_loop-Published (bound + 1) bound m i b (omega arith) (omega arith)

-- On a valid ring a reader of the published epoch reads at the time that the batch of the next
-- epoch has reached, if that epoch exists, and else at the end of its own epoch.
read_ts-next :
    (m : Manager) (intra : ℕ → ℕ)
    → IsRing m
    → read_ts m m.read_epoch intra ≡ (
        if ltb m.read_epoch m.cur
        then record { e = m.read_epoch + 1; i = intra (m.read_epoch + 1) }
        else record { e = m.read_epoch; i = epoch_max })
unfolding read_ts
read_ts-next m intra i = elim (Bool-cases (ltb m.read_epoch m.cur)) [
  | inl next ↦
      let batch : m.active_txns m.read_epoch_cur ≡ m.read_epoch + 1 =
        ap m.active_txns i.turn
        ∙ i.batches (m.read_epoch + 1) (omega arith) (omega (arith, ltb→lt _ _ next)) in
      let open_next : leb (m.read_epoch + 1) m.cur ≡ true = ground arith in
      rw (next, open_next, batch) (rw (==_refl (m.read_epoch + 1)) refl)
  | inr last ↦
      let closed : leb (m.read_epoch + 1) m.cur ≡ false = ground arith in rw (last, closed) refl
]
