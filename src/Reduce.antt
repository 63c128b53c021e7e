-- ===== src/Reduce.antt =====
-- crates/dnx-core/src/reduce/mod.rs: which rules each class of nets has, the dispatch of an active
-- pair, and the two phases of normalization. The variables that turn on a trace are taken as unset.
pub mod Safe
pub mod Turn
use dnet.Prelude.{
  ℕ, zero, suc, ◌+◌, bit_and, Bool, true, false, not, ◌&&◌, ◌||◌, Option, none, some, List, [], ◌∷◌,
  ◌==◌, if◌then◌else◌,
}
use dnet.Error.{Result, ok, err, panic, readback_incomplete}
use dnet.LoPath.{LoPath}
use dnet.Port.{PortId, slot_idx, is_eraser, gen_low}
use dnet.Slot.{Slot, is_fan, is_rep}
use dnet.Arena
use dnet.Net.Ordered
use dnet.Net.{
  Net, NetClass, class_l, class_a, class_i, class_k, has_rep, has_era, Action, ActivePair,
  C4Candidate, and_then, ◌>>=◌, ◌>>◌, pure, lift, done, slot, net_pending_c1, certify_canonical,
}
use dnet.Rules.{r2_era_fan, r3_era_rep, r4_fan_fan, r5_fan_rep, r6_rep_rep, r7_rep_rep, eq_ℤ}
use dnet.Canon.{c1_mark_sweep, c2_rep_merge, c3_rep_decay, c4_aux_fan_replication}

pub record ReduceStats : Type 0 where
  pub interactions : ℕ
  pub r4_count : ℕ

-- The methods of `CRules`, for the four classes.
unfoldable pub c2 : NetClass → PortId → LoPath → Action (Unit {0})
c2 class_l rep lo = done
c2 class_a rep lo = done
c2 class_i rep lo = c2_rep_merge rep lo
c2 class_k rep lo = c2_rep_merge rep lo

unfoldable pub c3 : NetClass → PortId → LoPath → Action (Unit {0})
c3 class_k rep lo = c3_rep_decay rep lo
c3 _ rep lo = done

unfoldable pub c4 : NetClass → C4Candidate → Action (Unit {0})
c4 class_l cand = done
c4 class_a cand = done
c4 class_i cand = c4_aux_fan_replication cand
c4 class_k cand = c4_aux_fan_replication cand

unfoldable pub c1 : NetClass → Action (Option (Unit {0}))
c1 class_l = pure (some tt)
c1 class_a = c1_mark_sweep
c1 class_i = pure (some tt)
c1 class_k = c1_mark_sweep

unfoldable pub port_live : PortId → Action Bool
port_live p n =
    if is_eraser p
    then (ok true, n)
    else if Arena.is_live n.arena (slot_idx p)
    then (do s ← slot p; pure (gen_low p == bit_and s.generation 1)) n
    else (ok false, n)

-- `!port_live(a) || !port_live(b)`, the second asked only when the first is live.
abbrev pub either_dead : PortId → PortId → Action Bool
either_dead a b = do l ← port_live a; if l then (do m ← port_live b; pure (not m)) else pure true

unfoldable pub is_stale_pair : ActivePair → Action Bool
is_stale_pair pair = either_dead pair.p0 pair.p1

unfoldable pub is_stale_c4 : C4Candidate → Action Bool
is_stale_c4 cand = either_dead cand.rep_principal cand.app_aux0

-- Decay, then merge, of one replicator; each time `rule` is run only if the replicator is there still.
unfoldable pub decay_then : NetClass → PortId → LoPath → Action (Unit {0}) → Action (Unit {0})
unfolding c3 port_live
decay_then c rep lo rule =
    if has_era c then (do c3 c rep lo; l ← port_live rep; if l then rule else done) else rule

unfoldable pub merge_then : NetClass → PortId → LoPath → Action (Unit {0}) → Action (Unit {0})
unfolding c2 port_live
merge_then c rep lo rule =
    if has_rep c then (do c2 c rep lo; l ← port_live rep; if l then rule else done) else rule

-- R5 with its canonicalizations.
unfoldable pub meet_fan_rep : NetClass → PortId → PortId → LoPath → Action (Unit {0})
unfolding decay_then merge_then
meet_fan_rep c fan rep lo = decay_then c rep lo (merge_then c rep lo (r5_fan_rep fan rep lo))

-- Decay of both replicators, then merge of both.
unfoldable pub decay_both_then :
    NetClass → PortId → PortId → LoPath → Action (Unit {0}) → Action (Unit {0})
decay_both_then c p0 p1 lo rule =
    if has_era c
    then (do c3 c p0 lo; c3 c p1 lo; dead ← either_dead p0 p1; if dead then done else rule)
    else rule

unfoldable pub merge_both_then :
    NetClass → PortId → PortId → LoPath → Action (Unit {0}) → Action (Unit {0})
merge_both_then c p0 p1 lo rule =
    if has_rep c
    then (do c2 c p0 lo; c2 c p1 lo; dead ← either_dead p0 p1; if dead then done else rule)
    else rule

unfoldable pub same_label : Slot → Slot → Bool
unfolding eq_ℤ
same_label s t = s.data_word == t.data_word && (eq_ℤ s.delta0 t.delta0 && eq_ℤ s.delta1 t.delta1)

-- R6 or R7.
unfoldable pub meet_labels : PortId → PortId → LoPath → Action (Unit {0})
unfolding same_label
meet_labels p0 p1 lo = do
  s0 ← slot p0
  s1 ← slot p1
  if same_label s0 s1 then r6_rep_rep p0 p1 lo else r7_rep_rep p0 p1 lo

unfoldable pub meet_rep_rep : NetClass → PortId → PortId → LoPath → Action (Unit {0})
unfolding decay_both_then merge_both_then meet_labels
meet_rep_rep c p0 p1 lo =
    decay_both_then c p0 p1 lo (merge_both_then c p0 p1 lo (meet_labels p0 p1 lo))

-- R2 or R3.
unfoldable pub meet_era : NetClass → PortId → LoPath → Action (Unit {0})
unfolding decay_then
meet_era c p lo = do
  s ← slot p
  if is_fan s then r2_era_fan p lo else decay_then c p lo (r3_era_rep p lo)

abbrev count_r4 : ReduceStats → ReduceStats
count_r4 stats = record stats { r4_count = stats.r4_count + 1 }

-- The match on the two agents: fan or replicator, the one and the other.
pub meet :
    NetClass
    → PortId
    → PortId
    → LoPath
    → ReduceStats
    → Bool
    → Bool
    → Bool
    → Bool
    → Action ReduceStats
unfolding meet_fan_rep meet_rep_rep
meet c p0 p1 lo stats true r0 true r1 = do r4_fan_fan p0 p1 lo; pure (count_r4 stats)
meet c p0 p1 lo stats true r0 false true = do meet_fan_rep c p0 p1 lo; pure stats
meet c p0 p1 lo stats false true true r1 = do meet_fan_rep c p1 p0 lo; pure stats
meet c p0 p1 lo stats false true false true = do meet_rep_rep c p0 p1 lo; pure stats
meet c p0 p1 lo stats _ _ _ _ = lift (err readback_incomplete)

unfoldable pub dispatch_phase1 : NetClass → ActivePair → ReduceStats → Action ReduceStats
unfolding meet_era meet
dispatch_phase1 c pair stats =
    if is_eraser pair.p0 && is_eraser pair.p1
    then pure stats
    else if is_eraser pair.p0 || is_eraser pair.p1
    then (do meet_era c (if is_eraser pair.p0 then pair.p1 else pair.p0) pair.lo; pure stats)
    else (do
      s0 ← slot pair.p0
      s1 ← slot pair.p1
      meet c pair.p0 pair.p1 pair.lo stats (is_fan s0) (is_rep s0) (is_fan s1) (is_rep s1))

-- Each canonicalization of a candidate runs only if the candidate is not stale.
unfoldable pub fresh_then : C4Candidate → Action Bool → Action Bool
unfolding is_stale_c4
fresh_then cand next = do stale ← is_stale_c4 cand; if stale then pure true else next

unfoldable pub drain_candidate : NetClass → C4Candidate → Action Bool
unfolding fresh_then c2 c3 c4
drain_candidate c cand =
    let merge = (do c2 c cand.rep_principal cand.lo; fresh_then cand (do c4 c cand; pure true)) in
    fresh_then cand
      (if has_era c then (do c3 c cand.rep_principal cand.lo; fresh_then cand merge) else merge)

unfoldable pub drain_phase2 : NetClass → Action Bool
unfolding drain_candidate
drain_phase2 c n = if not (has_rep c) then (ok false, n) else elim (Ordered.pop_first n.frontier2) [
  | none ↦ (ok false, n)
  | some (e, rest) ↦ drain_candidate c e.1 (record n { frontier2 = rest })
]

-- One turn of the first loop of `normalize`; `none` is the end of the loop.
unfoldable pub phase1_turn : NetClass → ReduceStats → Action (Option ReduceStats)
unfolding is_stale_pair dispatch_phase1
phase1_turn c stats n = elim (Ordered.pop_first n.frontier1) [
  | none ↦ (ok none, n)
  | some (e, rest) ↦
      (do
        stale ← is_stale_pair e.1
        if stale then pure (some stats) else (do
          stats' ← dispatch_phase1 c e.1 (record stats { interactions = stats.interactions + 1 })
          pure (some stats')))
        (record n { frontier1 = rest })
]

-- The loops, for as many turns as there is fuel for: `none` is a loop that has not ended. A net may
-- have no normal form, so no fuel is enough for all nets.
unfoldable pub phase1 : ℕ → NetClass → ReduceStats → Action (Option ReduceStats)
unfolding phase1_turn
phase1 zero c stats = pure none
phase1 (suc fuel) c stats = do
  r ← phase1_turn c stats
  elim r [ none ↦ pure (some stats) | some stats' ↦ phase1 fuel c stats' ]

unfoldable pub phase2 : ℕ → NetClass → Action (Option (Unit {0}))
unfolding drain_phase2
phase2 zero c = pure none
phase2 (suc fuel) c = do more ← drain_phase2 c; if more then phase2 fuel c else pure (some tt)

-- What `normalize` does after its second loop. The certified net is the same net.
unfoldable pub certify : NetClass → Action (Unit {0})
unfolding c1
certify c = do
  n ← λ n. (ok n, n)
  if net_pending_c1 n then (do c1 c; done) else done
  m ← λ n. (ok n, n)
  lift (certify_canonical m)

unfoldable pub normalize : ℕ → NetClass → Action (Option ReduceStats)
unfolding phase1 phase2 certify
normalize fuel c = do
  r ← phase1 fuel c (record { interactions = 0; r4_count = 0 })
  elim r [
    | none ↦ pure none
    | some stats ↦ (do
      ended ← phase2 fuel c
      elim ended [ none ↦ pure none | some u ↦ (do certify c; pure (some stats)) ])
  ]

unfoldable pub finalize_canonical : ℕ → NetClass → Action (Option (Unit {0}))
unfolding phase2 certify
finalize_canonical fuel c = do
  ended ← phase2 fuel c
  elim ended [ none ↦ pure none | some u ↦ (do certify c; pure (some tt)) ]
