-- ===== src/Reduce/Safe.antt =====
-- The dispatch of a pair and the turns of the two loops, in a safe net.
use dnet.Prelude.{
  ℕ, ◌≡◌, refl, sym, ap, ◌∙◌, Bool, true, false, some, arith, ◌==◌, not, bit_and, if◌then◌else◌,
  inl, inr, Bool-cases, get_elem?,
}
use dnet.Error.{Result, ok}
use dnet.LoPath.{LoPath}
use dnet.Port.{PortId, slot_idx, is_eraser, gen_low}
use dnet.Slot.{Slot, is_fan}
use dnet.Arena.Alloc.{get_elem?-in}
use dnet.Net.{
  Net, NetClass, class_l, class_a, class_i, class_k, has_rep, has_era, Action, and_then, ◌>>=◌,
  ◌>>◌, slot_at, done, pure,
}
use dnet.Net.Safe.{
  is_live, IsSafe, Returns, returns, fails, and_then-Returns, if-Returns, slot_at-bind,
}
use dnet.Net.Keeps.{mono-Returns}
use dnet.Net.Chain.{live-inside}
use dnet.Rules.Safe.{
  Pair, swap-Pair, r2_era_fan-Returns, r3_era_rep-Returns, r4_fan_fan-Returns, r6_rep_rep-Returns,
}
use dnet.Rules.Grow.{r5_fan_rep-Returns, r7_rep_rep-Returns}
use dnet.Canon.Safe.{But, But-refl, c2_rep_merge-Returns, c3_rep_decay-Returns}
use dnet.Reduce.{
  ReduceStats, c2, c3, port_live, either_dead, decay_then, merge_then, meet_fan_rep,
  decay_both_then, merge_both_then, same_label, meet_labels, meet_rep_rep, meet_era, meet,
}

-- The action ends in a value or an error, not in a panic, and it leaves a safe net.
abbrev pub Runs : {A : Type 0} → Result A × Net → Type 0
Runs r = Returns (λ _ _. Unit {0}) r

pub run : {A : Type 0} {Q : A → Net → Type 0} {r : Result A × Net} → Returns Q r → Runs r
run did = mono-Returns did λ _ _ _. tt

slot_at-eq :
    (n : Net) (i : ℕ) {s : Slot} → get_elem? n.arena.slots i ≡ some s → slot_at i n ≡ (ok s, n)
unfolding slot_at
slot_at-eq n i e = rw (e, slot_at) refl

-- `port_live` only looks, and a port that it finds live, other than an eraser, has a live slot.
port_live-cases :
    {n : Net} (p : PortId)
    → IsSafe n
    → (b : Bool) × (port_live p n ≡ (ok b, n))
      × (b ≡ true → is_eraser p ≡ false → is_live n (slot_idx p) ≡ true)
unfolding port_live
port_live-cases {n} p safe = elim (Bool-cases (is_eraser p)) [
  | inl era ↦ (true, rw era refl, λ _ not_era. absurd (ground arith))
  | inr agent ↦ elim (Bool-cases (is_live n (slot_idx p))) [
    | inl live ↦
        let (s, e) =
          get_elem?-in n.arena.slots (slot_idx p) (live-inside (slot_idx p) safe live).0 in
        let got =
          ap (λ r. and_then r λ s. pure (gen_low p == bit_and s.generation 1))
            (slot_at-eq n (slot_idx p) e) in
        (gen_low p == bit_and s.generation 1, rw (agent, live) got, λ _ _. live)
    | inr dead ↦ (false, rw (agent, dead) refl, λ e. absurd (ground arith))
  ]
]

-- The same for the two ports of a pair.
either_dead-cases :
    {n : Net} (p q : PortId)
    → IsSafe n
    → (b : Bool) × (either_dead p q n ≡ (ok b, n))
      × (b ≡ false
          → (is_eraser p ≡ false → is_live n (slot_idx p) ≡ true)
            × (is_eraser q ≡ false → is_live n (slot_idx q) ≡ true))
either_dead-cases {n} p q safe =
    let (b, e, h) = port_live-cases p safe in
    let (c, e', h') = port_live-cases q safe in
    elim (Bool-cases b) [
      | inl here ↦ (not c, rw (e, here, e') refl, λ l. (h here, h' (ground arith)))
      | inr gone ↦ (true, rw (e, gone) refl, λ l. absurd (ground arith))
    ]

pub c2-Returns :
    (c : NetClass) {n : Net} (p : PortId) (lo : LoPath)
    → IsSafe n
    → is_live n (slot_idx p) ≡ true
    → Returns (λ _. But (slot_idx p) n) (c2 c p lo n)
unfolding c2
c2-Returns class_l {n} p lo safe live = returns safe (But-refl (slot_idx p) n)
c2-Returns class_a {n} p lo safe live = returns safe (But-refl (slot_idx p) n)
c2-Returns class_i p lo safe live = c2_rep_merge-Returns p lo safe live
c2-Returns class_k p lo safe live = c2_rep_merge-Returns p lo safe live

pub c3-Returns :
    (c : NetClass) {n : Net} (p : PortId) (lo : LoPath)
    → IsSafe n
    → is_live n (slot_idx p) ≡ true
    → Returns (λ _. But (slot_idx p) n) (c3 c p lo n)
unfolding c3
c3-Returns class_l {n} p lo safe live = returns safe (But-refl (slot_idx p) n)
c3-Returns class_a {n} p lo safe live = returns safe (But-refl (slot_idx p) n)
c3-Returns class_i {n} p lo safe live = returns safe (But-refl (slot_idx p) n)
c3-Returns class_k p lo safe live = c3_rep_decay-Returns p lo safe live

-- What follows a test of `port_live`, of a port that is no eraser.
if_live-Runs :
    {n : Net} (p : PortId) (rule : Action (Unit {0}))
    → IsSafe n
    → is_eraser p ≡ false
    → (is_live n (slot_idx p) ≡ true → Runs (rule n))
    → Runs ((do l ← port_live p; if l then rule else done) n)
if_live-Runs {n} p rule safe agent next =
    let (b, e, h) = port_live-cases p safe in rw e (on b λ l. next (h l agent))
  where
    on : (b : Bool) → (b ≡ true → Runs (rule n)) → Runs ((if b then rule else done) n)
    on true f = f refl
    on false f = returns safe tt

pub unless_dead-Runs :
    {A : Type 0} {n : Net} (p q : PortId) (stop next : Action A)
    → IsSafe n
    → Runs (stop n)
    → ((is_eraser p ≡ false → is_live n (slot_idx p) ≡ true)
        → (is_eraser q ≡ false → is_live n (slot_idx q) ≡ true)
        → Runs (next n))
    → Runs ((do dead ← either_dead p q; if dead then stop else next) n)
unless_dead-Runs {n = n} p q stop next safe halt go =
    let (b, e, h) = either_dead-cases p q safe in rw e (on b λ l. let (x, y) = h l in go x y)
  where
    on : (b : Bool) → (b ≡ false → Runs (next n)) → Runs ((if b then stop else next) n)
    on true f = halt
    on false f = f refl

-- A rule that runs wherever a pair with the slot of `p`, and the others that are live, still is.
abbrev RunsBut : PortId → Net → Action (Unit {0}) → Type 0
RunsBut p n rule =
    (m : Net) → IsSafe m → But (slot_idx p) n m → is_live m (slot_idx p) ≡ true → Runs (rule m)

decay_then-Runs :
    (c : NetClass) {n : Net} (p : PortId) (lo : LoPath) (rule : Action (Unit {0}))
    → IsSafe n
    → is_eraser p ≡ false
    → is_live n (slot_idx p) ≡ true
    → RunsBut p n rule
    → Runs (decay_then c p lo rule n)
unfolding decay_then
decay_then-Runs c {n} p lo rule safe agent live next =
    if-Returns (has_era c) _ rule
      (and_then-Returns (c3-Returns c p lo safe live)
        λ _ m safe' but. if_live-Runs p rule safe' agent λ live'. next m safe' but live')
      (next n safe (But-refl (slot_idx p) n) live)

merge_then-Runs :
    (c : NetClass) {n : Net} (p : PortId) (lo : LoPath) (rule : Action (Unit {0}))
    → IsSafe n
    → is_eraser p ≡ false
    → is_live n (slot_idx p) ≡ true
    → RunsBut p n rule
    → Runs (merge_then c p lo rule n)
unfolding merge_then
merge_then-Runs c {n} p lo rule safe agent live next =
    if-Returns (has_rep c) _ rule
      (and_then-Returns (c2-Returns c p lo safe live)
        λ _ m safe' but. if_live-Runs p rule safe' agent λ live'. next m safe' but live')
      (next n safe (But-refl (slot_idx p) n) live)

-- Two agents, neither of them an eraser.
pub record Agents (p q : PortId) : Type 0 where
  pub agent_p : is_eraser p ≡ false
  pub agent_q : is_eraser q ≡ false

meet_fan_rep-Runs :
    (c : NetClass) {n : Net} (fan rep : PortId) (lo : LoPath)
    → IsSafe n
    → Agents fan rep
    → Pair n fan rep
    → Runs (meet_fan_rep c fan rep lo n)
unfolding meet_fan_rep
meet_fan_rep-Runs c {n} fan rep lo safe agents pair =
    decay_then-Runs c rep lo _ safe agents.agent_q pair.live_q λ m safe' but live.
      merge_then-Runs c rep lo _ safe' agents.agent_q live λ m' safe'' but' live'. run (
        r5_fan_rep-Returns fan rep lo safe'' (record {
          live_p =
              but'.live_but (slot_idx fan) pair.distinct
              ∙ (but.live_but (slot_idx fan) pair.distinct ∙ pair.live_p);
          live_q = live';
          distinct = pair.distinct;
        }))

-- Two canonicalizations of the one replicator and the other, then a rule if both are there.
both_then-Runs :
    {n : Net} (p q : PortId) (step : PortId → Action (Unit {0})) (rule : Action (Unit {0}))
    → ((r : PortId) (m : Net)
        → IsSafe m
        → is_live m (slot_idx r) ≡ true
        → Returns (λ _. But (slot_idx r) m) (step r m))
    → IsSafe n
    → Agents p q
    → Pair n p q
    → ((m : Net) → IsSafe m → Pair m p q → Runs (rule m))
    → Runs ((do step p; step q; dead ← either_dead p q; if dead then done else rule) n)
both_then-Runs {n} p q step rule keeps safe agents pair next =
    and_then-Returns (keeps p n safe pair.live_p) λ _ m safe' but.
      and_then-Returns
        (keeps q m safe' (but.live_but (slot_idx q) (λ e. pair.distinct (sym e)) ∙ pair.live_q))
        λ _ m' safe'' but'. unless_dead-Runs p q done rule safe'' (returns safe'' tt) λ lp lq.
          next m' safe'' (record {
            live_p = lp agents.agent_p;
            live_q = lq agents.agent_q;
            distinct = pair.distinct;
          })

meet_labels-Runs :
    {n : Net} (p q : PortId) (lo : LoPath) → IsSafe n → Pair n p q → Runs (meet_labels p q lo n)
unfolding meet_labels
meet_labels-Runs p q lo safe pair =
    slot_at-bind (slot_idx p) _ safe (live-inside (slot_idx p) safe pair.live_p).0 λ s e w.
      slot_at-bind (slot_idx q) _ safe (live-inside (slot_idx q) safe pair.live_q).0 λ t e' w'.
        if-Returns (same_label s t) _ _ (run (r6_rep_rep-Returns p q lo safe pair))
          (run (r7_rep_rep-Returns p q lo safe pair))

meet_rep_rep-Runs :
    (c : NetClass) {n : Net} (p q : PortId) (lo : LoPath)
    → IsSafe n
    → Agents p q
    → Pair n p q
    → Runs (meet_rep_rep c p q lo n)
unfolding meet_rep_rep decay_both_then merge_both_then
meet_rep_rep-Runs c {n} p q lo safe agents pair =
    if-Returns (has_era c) _ _
      (both_then-Runs p q (λ r. c3 c r lo) _ (λ r m s l. c3-Returns c r lo s l) safe agents pair
        merge)
      (merge n safe pair)
  where
    merge :
        (m : Net) → IsSafe m → Pair m p q → Runs (merge_both_then c p q lo (meet_labels p q lo) m)
    merge m safe pair =
        if-Returns (has_rep c) _ _
          (both_then-Runs p q (λ r. c2 c r lo) (meet_labels p q lo)
            (λ r m s l. c2-Returns c r lo s l) safe agents pair
            λ m' safe' pair'. meet_labels-Runs p q lo safe' pair')
          (meet_labels-Runs p q lo safe pair)

pub meet_era-Runs :
    (c : NetClass) {n : Net} (p : PortId) (lo : LoPath)
    → IsSafe n
    → is_eraser p ≡ false
    → is_live n (slot_idx p) ≡ true
    → Runs (meet_era c p lo n)
unfolding meet_era
meet_era-Runs c p lo safe agent live =
    slot_at-bind (slot_idx p) _ safe (live-inside (slot_idx p) safe live).0 λ s e w.
      if-Returns (is_fan s) _ _ (run (r2_era_fan-Returns p lo safe live)) (
        decay_then-Runs c p lo _ safe agent live
          λ m safe' but live'. run (r3_era_rep-Returns p lo safe' live'))

pub meet-Runs :
    (c : NetClass) {n : Net} (p q : PortId) (lo : LoPath) (stats : ReduceStats) (f0 r0 f1 r1 : Bool)
    → IsSafe n
    → Agents p q
    → Pair n p q
    → Runs (meet c p q lo stats f0 r0 f1 r1 n)
unfolding meet
meet-Runs c p q lo stats true r0 true r1 safe agents pair =
    and_then-Returns (r4_fan_fan-Returns p q lo safe pair) λ _ _ safe' _. returns safe' tt
meet-Runs c p q lo stats true r0 false true safe agents pair =
    and_then-Returns (meet_fan_rep-Runs c p q lo safe agents pair) λ _ _ safe' _. returns safe' tt
meet-Runs c p q lo stats false true true r1 safe agents pair =
    and_then-Returns
      (meet_fan_rep-Runs c q p lo safe
        (record { agent_p = agents.agent_q; agent_q = agents.agent_p }) (swap-Pair pair))
      λ _ _ safe' _. returns safe' tt
meet-Runs c p q lo stats false true false true safe agents pair =
    and_then-Returns (meet_rep_rep-Runs c p q lo safe agents pair) λ _ _ safe' _. returns safe' tt
meet-Runs c p q lo stats true true false false safe agents pair = fails safe
meet-Runs c p q lo stats true false false false safe agents pair = fails safe
meet-Runs c p q lo stats false true false false safe agents pair = fails safe
meet-Runs c p q lo stats false false f1 r1 safe agents pair = fails safe
