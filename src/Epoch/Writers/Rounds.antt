-- ===== src/Epoch/Writers/Rounds.antt =====
-- The invariant of registration against publication, and the steps of the updater.
use avbgraph.Epoch.Writers.Invariant.{Clocks, Held, Inv}
use avbgraph.Epoch.Writers.{waiting, scanning, publishing, State, settled}
use avbgraph.Types.{epoch_max}
use avbgraph.Prelude.{
  ℕ, ◌+◌, ◌≤◌, ◌<◌, ◌≡◌, sym, ap, subst, arith, ◌==◌, min, Bool-cases, ==_iff, inl, inr,
}

pub begin-Inv :
    {n : ℕ} {s : State}
    → s.updater ≡ waiting
    → Inv n s
    → Inv n (record s { min_epoch = s.cur; updater = scanning s.min_epoch s.cur 0 epoch_max })
begin-Inv {n} {s} w v =
    let c : Clocks s.cur s.read_epoch s.min_epoch waiting =
      subst (Clocks s.cur s.read_epoch s.min_epoch) w v.clocks in
    record {
      clocks = record {
        behind = c.behind;
        started = (c.behind, omega arith);
        published = c.published;
        ring = c.ring;
        positive = c.positive;
      };
      told = v.told;
      held = λ u e r.
          let q : Held n u e (s.active_transactions u) s.cur s.min_epoch waiting =
            subst (Held n u e (s.active_transactions u) s.cur s.min_epoch) w (v.held u e r) in
          record {
            stands = q.stands;
            inside = q.inside;
            born = q.born;
            ahead = q.ahead;
            passed = λ below. absurd (omega arith);
          };
    }

pub scan-Inv :
    {n : ℕ} {s : State} (last base i least : ℕ)
    → s.updater ≡ scanning last base i least
    → Inv n s
    → Inv n
        (record s { updater = scanning last base (i + 1) (min least (s.active_transactions i)) })
scan-Inv {n} {s} last base i least w v =
    let c : Clocks s.cur s.read_epoch s.min_epoch (scanning last base i least) =
      subst (Clocks s.cur s.read_epoch s.min_epoch) w v.clocks in
    record {
      clocks = record {
        behind = c.behind;
        started = c.started;
        published = c.published;
        ring = c.ring;
        positive = c.positive;
      };
      told = v.told;
      held = λ u e r.
          let q : Held n u e (s.active_transactions u) s.cur s.min_epoch
              (scanning last base i least) =
            subst (Held n u e (s.active_transactions u) s.cur s.min_epoch) w (v.held u e r) in
          record {
            stands = q.stands;
            inside = q.inside;
            born = q.born;
            ahead = q.ahead;
            passed = λ below. elim (Bool-cases (i == u)) [
              | inl same ↦ ground (arith, q.stands, ap s.active_transactions ((==_iff i u).0 same))
              | inr other ↦ omega (arith, q.passed (ground arith))
            ];
          };
    }

settled-bounds :
    (last base least : ℕ)
    → last ≤ base
    → base ≤ epoch_max
    → (last ≤ settled last base least) × (settled last base least ≤ base)
settled-bounds last base least a b = ground arith

settled_below :
    (last base least e : ℕ) → last ≤ e → min base least ≤ e → settled last base least ≤ e
settled_below last base least e a b = ground arith

pub settle-Inv :
    {n : ℕ} {s : State} (last base i least : ℕ)
    → n ≤ i
    → s.cur ≤ epoch_max
    → s.updater ≡ scanning last base i least
    → Inv n s
    → Inv n (record s { min_epoch = settled last base least; updater = publishing })
settle-Inv {n} {s} last base i least h small w v =
    let c : Clocks s.cur s.read_epoch s.min_epoch (scanning last base i least) =
      subst (Clocks s.cur s.read_epoch s.min_epoch) w v.clocks in
    let (low, high) = settled-bounds last base least c.started.0 (omega (arith, c.started.1)) in
    record {
      clocks = record {
        behind = omega (arith, high, c.started.1);
        started = tt;
        published = omega (arith, low, c.published);
        ring = c.ring;
        positive = c.positive;
      };
      told = v.told;
      held = λ u e r.
          let q : Held n u e (s.active_transactions u) s.cur s.min_epoch
              (scanning last base i least) =
            subst (Held n u e (s.active_transactions u) s.cur s.min_epoch) w (v.held u e r) in
          record {
            stands = q.stands;
            inside = q.inside;
            born = q.born;
            ahead = settled_below last base least e q.ahead (q.passed (omega (arith, q.inside)));
            passed = tt;
          };
    }

pub publish-Inv :
    {n : ℕ} {s : State}
    → s.updater ≡ publishing
    → s.read_epoch + 1 < s.min_epoch
    → Inv n s
    → Inv n (record s { read_epoch = s.read_epoch + 1 })
publish-Inv {n} {s} w h v =
    let c : Clocks s.cur s.read_epoch s.min_epoch publishing =
      subst (Clocks s.cur s.read_epoch s.min_epoch) w v.clocks in
    let d : Clocks s.cur (s.read_epoch + 1) s.min_epoch publishing = record {
      behind = c.behind;
      started = tt;
      published = omega arith;
      ring = omega (arith, c.ring);
      positive = c.positive;
    } in
    record {
      clocks = subst (Clocks s.cur (s.read_epoch + 1) s.min_epoch) (sym w) d;
      told = v.told;
      held = λ u e r. v.held u e r;
    }

pub finish-Inv :
    {n : ℕ} {s : State} → s.updater ≡ publishing → Inv n s → Inv n (record s { updater = waiting })
finish-Inv {n} {s} w v =
    let c : Clocks s.cur s.read_epoch s.min_epoch publishing =
      subst (Clocks s.cur s.read_epoch s.min_epoch) w v.clocks in
    record {
      clocks = record {
        behind = c.behind;
        started = tt;
        published = c.published;
        ring = c.ring;
        positive = c.positive;
      };
      told = v.told;
      held = λ u e r.
          let q : Held n u e (s.active_transactions u) s.cur s.min_epoch publishing =
            subst (Held n u e (s.active_transactions u) s.cur s.min_epoch) w (v.held u e r) in
          record {
            stands = q.stands;
            inside = q.inside;
            born = q.born;
            ahead = q.ahead;
            passed = tt;
          };
    }
