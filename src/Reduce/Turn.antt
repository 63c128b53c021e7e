-- ===== src/Reduce/Turn.antt =====
-- A turn of each of the two loops of `normalize`, from a safe net.
use dnet.Prelude.{
  Option, none, ◌⊎◌, bit_and, get_elem?, ◌+◌, ◌≡◌, ◌≢◌, Bool, true, false, some, [], ◌∷◌, arith,
  inl, inr, Bool-cases,
}
use dnet.LoPath.{LoPath}
use dnet.Port.{PortId, slot_idx, is_eraser, gen_low}
use dnet.Slot.{Slot, is_fan, is_rep}
use dnet.Error.{Result, ok}
use dnet.Net.Ordered
use dnet.Net.Ordered.{Frontier}
use dnet.Net
use dnet.Net.{
  Net, NetClass, class_l, class_a, class_i, class_k, has_rep, has_era, Action, ActivePair,
  C4Candidate, and_then, ◌>>=◌, ◌>>◌, pure,
}
use dnet.Net.Safe.{
  is_live, IsSafe, returns, and_then-Returns, if-Returns, slot_at-bind, grow-IsWired,
}
use dnet.Net.Chain.{live-inside}
use dnet.Rules.Safe.{Pair}
use dnet.Canon.Lift.{c4_aux_fan_replication-Returns}
use dnet.Reduce.{
  ReduceStats, c2, c4, is_stale_c4, meet, dispatch_phase1, fresh_then, drain_candidate,
  drain_phase2,
}
use dnet.Reduce.Safe.{
  Runs, run, Agents, unless_dead-Runs, meet_era-Runs, meet-Runs, c2-Returns, c3-Returns,
}

-- What `is_stale_pair` is asked for, and that the pair joins two agents, not one to itself.
pub record IsReady (n : Net) (pair : ActivePair) : Type 0 where
  pub live0 : is_eraser pair.p0 ≡ false → is_live n (slot_idx pair.p0) ≡ true
  pub live1 : is_eraser pair.p1 ≡ false → is_live n (slot_idx pair.p1) ≡ true
  pub apart :
      is_eraser pair.p0 ≡ false → is_eraser pair.p1 ≡ false → slot_idx pair.p0 ≢ slot_idx pair.p1

-- `dispatch_phase1`, in a safe net, on a pair whose ports are erasers or lead to live slots, two
-- different ones if neither is an eraser, does not panic, whatever the class of the net and the
-- kinds of the agents: it ends in a value or an error, and the net that it leaves, also beside an
-- error, is safe.
pub dispatch_phase1-Runs :
    (c : NetClass) {n : Net} (pair : ActivePair) (stats : ReduceStats)
    → IsSafe n
    → IsReady n pair
    → Runs (dispatch_phase1 c pair stats n)
unfolding dispatch_phase1
dispatch_phase1-Runs c {n} pair stats safe ready = elim (Bool-cases (is_eraser p0)) [
  | inl e0 ↦ elim (Bool-cases (is_eraser p1)) [
    | inl e1 ↦ rw (e0, e1) (returns safe tt)
    | inr a1 ↦
        rw (e0, a1)
          (and_then-Returns (meet_era-Runs c p1 pair.lo safe a1 (ready.live1 a1))
            λ _ _ safe' _. returns safe' tt)
  ]
  | inr a0 ↦ elim (Bool-cases (is_eraser p1)) [
    | inl e1 ↦
        rw (a0, e1)
          (and_then-Returns (meet_era-Runs c p0 pair.lo safe a0 (ready.live0 a0))
            λ _ _ safe' _. returns safe' tt)
    | inr a1 ↦ rw (a0, a1) (agents a0 a1)
  ]
]
  where
    p0 : PortId
    p0 = pair.p0

    p1 : PortId
    p1 = pair.p1

    agents :
        is_eraser p0 ≡ false
        → is_eraser p1 ≡ false
        → Runs (
            (do
              s0 ← Net.slot p0
              s1 ← Net.slot p1
              meet c p0 p1 pair.lo stats (is_fan s0) (is_rep s0) (is_fan s1) (is_rep s1))
              n)
    agents a0 a1 =
        let both : Pair n p0 p1 = record {
          live_p = ready.live0 a0;
          live_q = ready.live1 a1;
          distinct = ready.apart a0 a1;
        } in
        slot_at-bind (slot_idx p0) _ safe (live-inside (slot_idx p0) safe (ready.live0 a0)).0
          λ s e w.
            slot_at-bind (slot_idx p1) _ safe (live-inside (slot_idx p1) safe (ready.live1 a1)).0
              λ t e' w'.
                meet-Runs c p0 p1 pair.lo stats (is_fan s) (is_rep s) (is_fan t) (is_rep t) safe
                  (record { agent_p = a0; agent_q = a1 }) both

-- The frontiers are not read by what makes a net safe.
drop-IsSafe :
    {n : Net} (f1 : Frontier ActivePair) (f2 : Frontier C4Candidate)
    → IsSafe n
    → IsSafe (record n { frontier1 = f1; frontier2 = f2 })
drop-IsSafe f1 f2 safe = record {
  valid = safe.valid;
  small = safe.small;
  capped = safe.capped;
  wired = λ i s e. grow-IsWired (omega arith) (safe.wired i s e);
}

abbrev JoinsTwo : ActivePair → Type 0
JoinsTwo pair =
    is_eraser pair.p0 ≡ false → is_eraser pair.p1 ≡ false → slot_idx pair.p0 ≢ slot_idx pair.p1

-- The pairs of a frontier join two agents each.
pub data AllJoin : Frontier ActivePair → Type 0 where
  join_none : AllJoin []
  join_more :
      {lo : LoPath} {pair : ActivePair} {m : Frontier ActivePair}
      → (is_eraser pair.p0 ≡ false
          → is_eraser pair.p1 ≡ false
          → slot_idx pair.p0 ≢ slot_idx pair.p1)
      → AllJoin m
      → AllJoin ((lo, pair) ∷ m)

-- A port leads to the agent that it was made for: a live slot of its generation. An eraser leads to no
-- slot.
pub data Current (n : Net) (p : PortId) : Type 0 where
  no_slot : is_eraser p ≡ true → Current n p
  of_slot :
      (s : Slot)
      → is_eraser p ≡ false
      → is_live n (slot_idx p) ≡ true
      → get_elem? n.arena.slots (slot_idx p) ≡ some s
      → gen_low p ≡ bit_and s.generation 1
      → Current n p

-- A port whose slot is free, or has been given out again.
pub data Gone (n : Net) (p : PortId) : Type 0 where
  dead : is_eraser p ≡ false → is_live n (slot_idx p) ≡ false → Gone n p
  reused :
      (s : Slot)
      → is_eraser p ≡ false
      → get_elem? n.arena.slots (slot_idx p) ≡ some s
      → gen_low p ≢ bit_and s.generation 1
      → Gone n p

-- What `port_live` says.
data Seen (n : Net) (p : PortId) : Result Bool × Net → Type 0 where
  seen_current : Current n p → Seen n p (ok true, n)
  seen_gone : Gone n p → Seen n p (ok false, n)

-- A turn of the first loop of `normalize`: the end of the loop when there is no pair; a pair that is
-- stale, passed over; or a pair of two current ports, dispatched.
pub data Turned (c : NetClass) (stats : ReduceStats) (n : Net)
    : Result (Option ReduceStats) × Net → Type 0 where
  over : n.frontier1 ≡ [] → IsSafe n → Turned c stats n (ok none, n)
  passed_over :
      {lo : LoPath} {pair : ActivePair} {rest : Frontier ActivePair}
      → n.frontier1 ≡ (lo, pair) ∷ rest
      → Gone n pair.p0 ⊎ Gone n pair.p1
      → IsSafe (record n { frontier1 = rest })
      → Turned c stats n (ok (some stats), record n { frontier1 = rest })
  dispatched :
      {lo : LoPath} {pair : ActivePair} {rest : Frontier ActivePair} {r : Result ReduceStats × Net}
      → n.frontier1 ≡ (lo, pair) ∷ rest
      → Current n pair.p0
      → Current n pair.p1
      → dispatch_phase1 c pair
          (record stats { interactions = stats.interactions + 1 })
          (record n { frontier1 = rest })
        ≡ r
      → Runs r
      → Turned c stats n (and_then r λ s. pure (some s))

-- The candidates of a frontier join two agents each.
pub data AllLift : Frontier C4Candidate → Type 0 where
  lift_none : AllLift []
  lift_more :
      {lo : LoPath} {cand : C4Candidate} {m : Frontier C4Candidate}
      → Agents cand.rep_principal cand.app_aux0
      → slot_idx cand.app_aux0 ≢ slot_idx cand.rep_principal
      → AllLift m
      → AllLift ((lo, cand) ∷ m)

module _ (cand : C4Candidate) (agents : Agents cand.rep_principal cand.app_aux0)
    (apart : slot_idx cand.app_aux0 ≢ slot_idx cand.rep_principal) where
  -- What runs on a candidate that is not stale.
  fresh_then-Runs :
      {n : Net} (next : Action Bool)
      → IsSafe n
      → (Pair n cand.app_aux0 cand.rep_principal → Runs (next n))
      → Runs (fresh_then cand next n)
  unfolding fresh_then is_stale_c4
  fresh_then-Runs next safe go =
      unless_dead-Runs cand.rep_principal cand.app_aux0 _ next safe (returns safe tt) λ lr la.
        go (record { live_p = la agents.agent_q; live_q = lr agents.agent_p; distinct = apart })

  merge-Runs :
      (c : NetClass) {n : Net}
      → IsSafe n
      → Pair n cand.app_aux0 cand.rep_principal
      → Runs ((do c2 c cand.rep_principal cand.lo; fresh_then cand (do c4 c cand; pure true)) n)
  unfolding c4
  merge-Runs c safe pair =
      and_then-Returns (c2-Returns c cand.rep_principal cand.lo safe pair.live_q) λ _ _ safe' _.
        fresh_then-Runs _ safe'
          λ pair'. and_then-Returns (lift-Runs c safe' pair') λ _ _ safe'' _. returns safe'' tt
    where
      lift-Runs :
          (c : NetClass) {n : Net}
          → IsSafe n
          → Pair n cand.app_aux0 cand.rep_principal
          → Runs (c4 c cand n)
      lift-Runs class_l safe pair = returns safe tt
      lift-Runs class_a safe pair = returns safe tt
      lift-Runs class_i safe pair = run (c4_aux_fan_replication-Returns cand safe pair)
      lift-Runs class_k safe pair = run (c4_aux_fan_replication-Returns cand safe pair)

  drain_candidate-Runs : (c : NetClass) {n : Net} → IsSafe n → Runs (drain_candidate c cand n)
  unfolding drain_candidate
  drain_candidate-Runs c safe = fresh_then-Runs _ safe λ pair.
      if-Returns (has_era c) _ _
        (and_then-Returns (c3-Returns c cand.rep_principal cand.lo safe pair.live_q)
          λ _ _ safe' _. fresh_then-Runs _ safe' λ pair'. merge-Runs c safe' pair')
        (merge-Runs c safe pair)

-- A turn of the second loop, `drain_phase2`, from a safe net whose candidates name two agents in
-- two different slots each, does not panic, whatever the class of the net: it ends in a value or an
-- error and leaves a safe net.
pub drain_phase2-Runs :
    (c : NetClass) (n : Net) → IsSafe n → AllLift n.frontier2 → Runs (drain_phase2 c n)
unfolding drain_phase2 Ordered.pop_first
drain_phase2-Runs c n safe all = on n.frontier2 all
  where
    on : (f : Frontier C4Candidate) → AllLift f → Runs (drain_phase2 c (record n { frontier2 = f }))
    on _ lift_none = elim (Bool-cases (has_rep c)) [
      | inl rep ↦ rw rep (returns (drop-IsSafe n.frontier1 [] safe) tt)
      | inr not_rep ↦ rw not_rep (returns (drop-IsSafe n.frontier1 [] safe) tt)
    ]
    on _ (lift_more {lo} {cand} {m} agents apart rest) = elim (Bool-cases (has_rep c)) [
      | inl rep ↦ rw rep (drain_candidate-Runs cand agents apart c (drop-IsSafe n.frontier1 m safe))
      | inr not_rep ↦ rw not_rep (returns (drop-IsSafe n.frontier1 ((lo, cand) ∷ m) safe) tt)
    ]
