-- ===== src/Epoch/Writers/Invariant.antt =====
-- The invariant of registration against publication, and the steps of the writers.
use avbgraph.Epoch.Writers.{
  max_simul_batch, WriterPc, idle, loaded, stored, writing, UpdaterPc, waiting, scanning,
  publishing, State,
}
use avbgraph.Prelude.{
  update, ℕ, ◌+◌, ◌-◌, ◌≤◌, ◌<◌, ◌≡◌, ◌≢◌, ap, arith, ◌==◌, min, max, false, Bool-cases, ==_iff,
  inl, inr,
}

-- The minimum that the updater last settled on.
abbrev pub minimum : ℕ → UpdaterPc → ℕ
minimum min_epoch waiting = min_epoch
minimum min_epoch (scanning last base i least) = last
minimum min_epoch publishing = min_epoch

-- A scan starts from an epoch between the last minimum and the current epoch.
abbrev pub Started : ℕ → UpdaterPc → Type 0
Started cur waiting = Unit {0}
Started cur (scanning last base i least) = (last ≤ base) × (base ≤ cur)
Started cur publishing = Unit {0}

-- What the scan so far promises to a writer that it has passed.
abbrev pub Passed : ℕ → ℕ → UpdaterPc → Type 0
Passed t e waiting = Unit {0}
Passed t e (scanning last base i least) = t < i → min base least ≤ e
Passed t e publishing = Unit {0}

pub record Clocks (cur read min_epoch : ℕ) (u : UpdaterPc) : Type 0 where
  pub behind : minimum min_epoch u ≤ cur
  pub started : Started cur u
  pub published : read + 1 ≤ max 1 (minimum min_epoch u)
  pub ring : cur ≤ read + max_simul_batch
  pub positive : 1 ≤ cur

pub record Held (n t e announced cur min_epoch : ℕ) (u : UpdaterPc) : Type 0 where
  pub stands : announced ≡ e
  pub inside : t < n
  pub born : 1 ≤ e
  pub ahead : minimum min_epoch u ≤ e
  pub passed : Passed t e u

pub record Inv (n : ℕ) (s : State) : Type 0 where
  pub clocks : Clocks s.cur s.read_epoch s.min_epoch s.updater
  pub told : (t e : ℕ) → s.writer t ≡ stored e → s.active_transactions t ≡ e
  pub held :
      (t e : ℕ)
      → s.writer t ≡ writing e
      → Held n t e (s.active_transactions t) s.cur s.min_epoch s.updater

-- A thread in a state that its own step did not leave it in is another thread.
pub elsewhere :
    (f : ℕ → WriterPc) (t u : ℕ) (v w : WriterPc)
    → v ≢ w
    → update f t v u ≡ w
    → ((t == u) ≡ false) × (f u ≡ w)
elsewhere f t u v w off r = elim (Bool-cases (t == u)) [
  | inl same ↦ absurd (off (rw same at r))
  | inr other ↦ (other, rw other at r)
]

Passed-above : (t e cur : ℕ) (u : UpdaterPc) → Started cur u → cur ≤ e → Passed t e u
Passed-above t e cur waiting b h = tt
Passed-above t e cur (scanning last base i least) b h = λ _. ground (arith, b.1)
Passed-above t e cur publishing b h = tt

pub load-Inv :
    {n : ℕ} {s : State} (t : ℕ)
    → s.writer t ≡ idle
    → Inv n s
    → Inv n (record s { writer = update s.writer t (loaded s.cur) })
load-Inv {n} {s} t w v = record {
  clocks = v.clocks;
  told = λ u e r. v.told u e (elsewhere s.writer t u (loaded s.cur) (stored e) (λ z. cc) r).1;
  held = λ u e r. v.held u e (elsewhere s.writer t u (loaded s.cur) (writing e) (λ z. cc) r).1;
}

pub store-Inv :
    {n : ℕ} {s : State} (t e : ℕ)
    → Inv n s
    → Inv n (record s {
      active_transactions = update s.active_transactions t e;
      writer = update s.writer t (stored e);
    })
store-Inv {n} {s} t e v = record {
  clocks = v.clocks;
  told = λ u e' r. elim (Bool-cases (t == u)) [
    | inl same ↦ rw same (ground (arith, rw same at r))
    | inr other ↦ rw other (v.told u e' (rw other at r))
  ];
  held = λ u e' r.
      let (other, old) = elsewhere s.writer t u (stored e) (writing e') (λ z. cc) r in
      rw other (v.held u e' old);
}

pub retry-Inv :
    {n : ℕ} {s : State} (t : ℕ) → Inv n s → Inv n (record s { writer = update s.writer t idle })
retry-Inv {n} {s} t v = record {
  clocks = v.clocks;
  told = λ u e r. v.told u e (elsewhere s.writer t u idle (stored e) (λ z. cc) r).1;
  held = λ u e r. v.held u e (elsewhere s.writer t u idle (writing e) (λ z. cc) r).1;
}

Started-grows : (cur : ℕ) (u : UpdaterPc) → Started cur u → Started (cur + 1) u
Started-grows cur waiting b = tt
Started-grows cur (scanning last base i least) b = (b.0, ground (arith, b.1))
Started-grows cur publishing b = tt

pub accept-Inv :
    {n : ℕ} {s : State} (t e : ℕ)
    → t < n
    → s.writer t ≡ stored e
    → e ≡ s.cur
    → Inv n s
    → Inv n (record s { writer = update s.writer t (writing e) })
accept-Inv {n} {s} t e h w now v = record {
  clocks = v.clocks;
  told = λ u e' r. v.told u e' (elsewhere s.writer t u (writing e) (stored e') (λ z. cc) r).1;
  held = λ u e' r. elim (Bool-cases (t == u)) [
    | inl same ↦
        let mine : writing e ≡ writing e' = rw same at r in
        let at_u = ap s.active_transactions ((==_iff t u).0 same) in
        record {
          stands = ground (arith, v.told t e w, mine);
          inside = ground arith;
          born = ground (arith, v.clocks.positive);
          ahead = ground (arith, v.clocks.behind);
          passed = Passed-above u e' s.cur s.updater v.clocks.started (ground arith);
        }
    | inr other ↦ v.held u e' (rw other at r)
  ];
}

pub leave-Inv :
    {n : ℕ} {s : State} (t gone : ℕ)
    → Inv n s
    → Inv n (record s {
      active_transactions = update s.active_transactions t gone;
      writer = update s.writer t idle;
    })
leave-Inv {n} {s} t gone v = record {
  clocks = v.clocks;
  told = λ u e r.
      let (other, old) = elsewhere s.writer t u idle (stored e) (λ z. cc) r in
      rw other (v.told u e old);
  held = λ u e r.
      let (other, old) = elsewhere s.writer t u idle (writing e) (λ z. cc) r in
      rw other (v.held u e old);
}

pub advance-Inv :
    {n : ℕ} {s : State}
    → s.cur - s.read_epoch < max_simul_batch
    → Inv n s
    → Inv n (record s { cur = s.cur + 1 })
advance-Inv {n} {s} h v =
    let c = v.clocks in
    record {
      clocks = record {
        behind = ground (arith, c.behind);
        started = Started-grows s.cur s.updater c.started;
        published = c.published;
        ring = ground (arith, c.ring);
        positive = ground arith;
      };
      told = v.told;
      held = λ u e r.
          let q = v.held u e r in
          record {
            stands = q.stands;
            inside = q.inside;
            born = q.born;
            ahead = q.ahead;
            passed = q.passed;
          };
    }
