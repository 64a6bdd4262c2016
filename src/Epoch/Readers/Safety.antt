-- ===== src/Epoch/Readers/Safety.antt =====
-- What registration guarantees against reclamation.
use avbgraph.Epoch.Readers.{
  State, ReaderPc, idle, loaded, stored, reading, UpdaterPc, waiting, scanning, swept, initial,
  Step, load, store, retry, accept, leave, publish, begin, scan, settle, collect, Reach, here,
  after,
}
use avbgraph.Prelude.{
  update, ℕ, ◌≤◌, ◌<◌, ◌≡◌, ◌≢◌, subst, arith, ◌==◌, min, max, false, Bool-cases, ap, ==_iff, inl,
  inr,
}

-- What holds of a registered reader at each point of the updater's round.
abbrev Guarded : ℕ → ℕ → ℕ → UpdaterPc → Type 0
Guarded t re min_read waiting = Unit {0}
Guarded t re min_read (scanning i least) = t < i → min min_read least ≤ re
Guarded t re min_read swept = min_read ≤ re

Guarded-above : (t re min_read : ℕ) (u : UpdaterPc) → min_read ≤ re → Guarded t re min_read u
Guarded-above t re min_read waiting h = tt
Guarded-above t re min_read (scanning i least) h = λ _. omega arith
Guarded-above t re min_read swept h = h

record Protected (n t re seen announced min_read deleted : ℕ) (u : UpdaterPc) : Type 0 where
  stands : announced ≡ re
  inside : t < n
  guarded : Guarded t re min_read u
  safe : deleted ≤ max seen re

abbrev Inv : ℕ → State → Type 0
Inv n s =
    (t re seen : ℕ)
    → s.reader t ≡ reading re seen
    → Protected n t re seen (s.active_read_epochs t) s.min_read_epoch s.deleted s.updater

-- A thread that has stored its epoch is seen with it.
abbrev Told : State → Type 0
Told s = (t re : ℕ) → s.reader t ≡ stored re → s.active_read_epochs t ≡ re

-- A thread found reading after a step that leaves its thread not reading is another thread.
other_thread :
    (f : ℕ → ReaderPc) (t u re seen : ℕ) (v : ReaderPc)
    → ((a b : ℕ) → v ≢ reading a b)
    → update f t v u ≡ reading re seen
    → ((t == u) ≡ false) × (f u ≡ reading re seen)
other_thread f t u re seen v off r = elim (Bool-cases (t == u)) [
  | inl same ↦ absurd (off re seen (rw same at r))
  | inr other ↦ (other, rw other at r)
]

other_teller :
    (f : ℕ → ReaderPc) (t u re : ℕ) (v : ReaderPc)
    → ((a : ℕ) → v ≢ stored a)
    → update f t v u ≡ stored re
    → ((t == u) ≡ false) × (f u ≡ stored re)
other_teller f t u re v off r = elim (Bool-cases (t == u)) [
  | inl same ↦ absurd (off re (rw same at r))
  | inr other ↦ (other, rw other at r)
]

Step-Told : {n : ℕ} {s u : State} → Step n s u → Told s → Told u
Step-Told {n} {s} (load t h e) p u re r =
    p u re (other_teller s.reader t u re (loaded s.read_epoch) (λ a. λ z. cc) r).1
Step-Told {n} {s} (store t re' h e) p u re r = elim (Bool-cases (t == u)) [
  | inl same ↦ rw same (ground (arith, rw same at r))
  | inr other ↦ rw other (p u re (rw other at r))
]
Step-Told {n} {s} (retry t re' h e b) p u re r =
    p u re (other_teller s.reader t u re idle (λ a. λ z. cc) r).1
Step-Told {n} {s} (accept t re' h e b) p u re r =
    p u re (other_teller s.reader t u re (reading re' s.deleted) (λ a. λ z. cc) r).1
Step-Told {n} {s} (leave t re' seen h e) p u re r =
    let (other, old) = other_teller s.reader t u re idle (λ a. λ z. cc) r in rw other (p u re old)
Step-Told (publish e) p u re r = p u re r
Step-Told (begin e) p u re r = p u re r
Step-Told (scan i least h e) p u re r = p u re r
Step-Told (settle i least h e) p u re r = p u re r
Step-Told (collect e) p u re r = p u re r

Step-Inv : {n : ℕ} {s u : State} → Step n s u → Told s → Inv n s → Inv n u
Step-Inv {n} {s} (load t h e) told p u re seen r =
    p u re seen (other_thread s.reader t u re seen (loaded s.read_epoch) (λ a b. λ z. cc) r).1
Step-Inv {n} {s} (store t re' h e) told p u re seen r =
    let (other, old) = other_thread s.reader t u re seen (stored re') (λ a b. λ z. cc) r in
    let q = p u re seen old in
    record { stands = rw other q.stands; inside = q.inside; guarded = q.guarded; safe = q.safe }
Step-Inv {n} {s} (retry t re' h e b) told p u re seen r =
    p u re seen (other_thread s.reader t u re seen idle (λ a b. λ z. cc) r).1
Step-Inv {n} {s} (accept t re' h e b) told p u re seen r = elim (Bool-cases (t == u)) [
  | inl same ↦
      let now : reading re' s.deleted ≡ reading re seen = rw same at r in
      let at_u : s.active_read_epochs t ≡ s.active_read_epochs u =
        ap s.active_read_epochs ((==_iff t u).0 same) in
      record {
        stands = ground (arith, told t re' e);
        inside = ground arith;
        guarded = Guarded-above u re s.min_read_epoch s.updater (ground arith);
        safe = ground arith;
      }
  | inr other ↦ p u re seen (rw other at r)
]
Step-Inv {n} {s} (leave t re' seen' h e) told p u re seen r =
    let (other, old) = other_thread s.reader t u re seen idle (λ a b. λ z. cc) r in
    let q = p u re seen old in
    record { stands = rw other q.stands; inside = q.inside; guarded = q.guarded; safe = q.safe }
Step-Inv (publish e) told p u re seen r = p u re seen r
Step-Inv (begin e) told p u re seen r =
    let q = p u re seen r in
    record {
      stands = q.stands;
      inside = q.inside;
      guarded = λ h. absurd (omega arith);
      safe = q.safe;
    }
Step-Inv {n} {s} (scan i least h e) told p u re seen r =
    let q = p u re seen r in
    let g : Guarded u re s.min_read_epoch (scanning i least) =
      subst (Guarded u re s.min_read_epoch) e q.guarded in
    record {
      stands = q.stands;
      inside = q.inside;
      guarded = λ below. elim (Bool-cases (i == u)) [
        | inl same ↦ ground (arith, q.stands, ap s.active_read_epochs ((==_iff i u).0 same))
        | inr other ↦ omega (arith, g (ground arith))
      ];
      safe = q.safe;
    }
Step-Inv {n} {s} (settle i least h e) told p u re seen r =
    let q = p u re seen r in
    let g : Guarded u re s.min_read_epoch (scanning i least) =
      subst (Guarded u re s.min_read_epoch) e q.guarded in
    record {
      stands = q.stands;
      inside = q.inside;
      guarded = g (omega (arith, q.inside));
      safe = q.safe;
    }
Step-Inv {n} {s} (collect e) told p u re seen r =
    let q = p u re seen r in
    let g : Guarded u re s.min_read_epoch swept =
      subst (Guarded u re s.min_read_epoch) e q.guarded in
    record { stands = q.stands; inside = q.inside; guarded = tt; safe = omega (arith, q.safe) }

Reach-Inv : {n : ℕ} {s u : State} → Told s → Inv n s → Reach n s u → Told u × Inv n u
Reach-Inv told p here = (told, p)
Reach-Inv told p (after r st) =
    let (told', p') = Reach-Inv told p r in (Step-Told st told', Step-Inv st told' p')

initial-Told : Told initial
unfolding initial
initial-Told t re r = absurd (cc)

initial-Inv : (n : ℕ) → Inv n initial
unfolding initial
initial-Inv n t re seen r = absurd (cc)

-- In every interleaving of any number of reader threads with the updater, a registered reader keeps
-- the version blocks of its epoch and of all later epochs that it found at its registration: what
-- is deleted lies below its epoch, or was already deleted when it registered.
pub reading-keeps :
    (n : ℕ) {s : State}
    → Reach n initial s
    → (t re seen : ℕ) → s.reader t ≡ reading re seen
    → s.deleted ≤ max seen re
reading-keeps n r t re seen e = ((Reach-Inv initial-Told (initial-Inv n) r).1 t re seen e).safe
