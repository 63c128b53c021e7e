-- ===== src/Tests/Reduction.antt =====
-- The theorems on the reduction of nets at nets of two agents.
use dnet.LoPath.{root}
use dnet.Port.{slot_idx}
use dnet.Slot
use dnet.Slot.{Slot}
use dnet.Net.{class_k, C4Candidate, ActivePair}
use dnet.Prelude.Int.{pos}
use dnet.Net.Safe.{IsWired, Returns}
use dnet.Net.Chain.{live-inside}
use dnet.Rules.{r4_fan_fan, r5_fan_rep, r7_rep_rep}
use dnet.Rules.Safe.{Lost, r4_fan_fan-Returns}
use dnet.Rules.Grow.{Gained, Shared, r5_fan_rep-Returns, r7_rep_rep-Returns}
use dnet.Canon.{c2_rep_merge, c2_gate_and_shift, fetch_in, c4_aux_fan_replication}
use dnet.Canon.Safe.{But, Gate, c2_gate_and_shift-Gate, c2_rep_merge-Returns}
use dnet.Canon.Lift.{Lifted, c4_aux_fan_replication-Returns}
use dnet.Reduce.{ReduceStats, dispatch_phase1, drain_phase2}
use dnet.Reduce.Safe.{Runs}
use dnet.Reduce.Turn.{dispatch_phase1-Runs, drain_phase2-Runs}
use dnet.Tests.Nets.{
  redex, shared, crossed, candidate, redex-IsSafe, shared-IsSafe, crossed-IsSafe, candidate-IsSafe,
  first, second, app_port, redex-Pair, shared-Pair, crossed-Pair, candidate-Pair, candidate-AllLift,
}

abbrev no_steps : ReduceStats
no_steps = record { interactions = 0; r4_count = 0 }

abbrev the_pair : ActivePair
the_pair = record { p0 = first; p1 = second; lo = root }

abbrev the_candidate : C4Candidate
the_candidate = record { rep_principal = first; app_aux0 = app_port; lo = root }

dispatch_phase1_example : Runs (dispatch_phase1 class_k the_pair no_steps crossed)
dispatch_phase1_example = dispatch_phase1-Runs class_k the_pair no_steps crossed-IsSafe (record {
  live0 = λ e. crossed-Pair.live_p;
  live1 = λ e. crossed-Pair.live_q;
  apart = λ e e'. crossed-Pair.distinct;
})

r7_rep_rep_example : Returns (Gained 2 crossed) (r7_rep_rep first second root crossed)
r7_rep_rep_example = r7_rep_rep-Returns first second root crossed-IsSafe crossed-Pair

r5_fan_rep_example : Returns (λ _ m. Shared shared first m) (r5_fan_rep first second root shared)
r5_fan_rep_example = r5_fan_rep-Returns first second root shared-IsSafe shared-Pair

r4_fan_fan_example : Returns (Lost 2 redex) (r4_fan_fan first second root redex)
r4_fan_fan_example = r4_fan_fan-Returns first second root redex-IsSafe redex-Pair

c2_rep_merge_example : Returns (λ _. But (slot_idx first) crossed) (c2_rep_merge first root crossed)
c2_rep_merge_example = c2_rep_merge-Returns first root crossed-IsSafe crossed-Pair.live_p

c4_aux_fan_replication_example :
    Returns
      (λ _ m. Lifted candidate the_candidate.app_aux0 m)
      (c4_aux_fan_replication the_candidate candidate)
c4_aux_fan_replication_example =
    c4_aux_fan_replication-Returns the_candidate candidate-IsSafe candidate-Pair

-- An unpaired replicator, its right port erased, its left one wired to the second replicator.
abbrev merging : Slot
merging = record Slot.empty { tag = 0x88; aux0 = second; data_word = 1; delta0 = pos 5 }

merging-IsWired : IsWired crossed merging
unfolding slot_idx
merging-IsWired =
    let low = crossed-IsSafe.valid.sentinel in
    record {
      at_principal = low;
      at_aux0 = (live-inside (slot_idx second) crossed-IsSafe crossed-Pair.live_q).0;
      at_aux1 = low;
    }

c2_gate_and_shift_example : Gate crossed merging (c2_gate_and_shift merging (fetch_in crossed))
c2_gate_and_shift_example = c2_gate_and_shift-Gate merging crossed-IsSafe merging-IsWired

drain_phase2_example : Runs (drain_phase2 class_k candidate)
drain_phase2_example = drain_phase2-Runs class_k candidate candidate-IsSafe candidate-AllLift
