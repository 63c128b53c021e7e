-- ===== src/Tests/Nets.antt =====
-- Nets of two agents, made by the operations of the net.
use dnet.Prelude.{ℕ, ◌≡◌, refl, false, arith}
use dnet.Prelude.Int.{pos}
use dnet.Error.{Result}
use dnet.LoPath.{root}
use dnet.Port
use dnet.Port.{PortId, principal, aux0, slot_idx, is_eraser}
use dnet.Slot
use dnet.Arena
use dnet.Net
use dnet.Net.{Net, Action, class_k, ◌>>=◌, ◌>>◌, alloc_agent, connect, AgentPorts}
use dnet.Net.Safe.{IsSafe, Returns, returns, fails}
use dnet.Net.Keeps.{connect-Returns, new-IsSafe}
use dnet.Rules.Safe.{Pair}
use dnet.Rules.Grow.{alloc-bind}
use dnet.Reduce.Safe.{Runs, run}
use dnet.Net.Ordered
use dnet.Reduce.Turn.{AllJoin, join_more, join_none, AllLift, lift_more, lift_none}

pub left-IsSafe :
    {A : Type 0} {Q : A → Net → Type 0} {r : Result A × Net} → Returns Q r → IsSafe r.1
left-IsSafe (returns safe q) = safe
left-IsSafe (fails safe) = safe

-- Two agents, wired to each other at their principal ports.
unfoldable pub facing : ℕ → ℕ → ℕ → ℕ → Action (Unit {0})
facing tag level tag' level' = do
  a ← alloc_agent tag level (pos 5) (pos 0)
  b ← alloc_agent tag' level' (pos 1) (pos 2)
  connect a.principal b.principal root

-- A replicator, wired to an application's port for the result.
unfoldable pub lifted : Action (Unit {0})
lifted = do
  a ← alloc_agent Slot.tag_rep_in_unpaired 1 (pos 5) (pos 0)
  b ← alloc_agent Slot.tag_fan_app 0 (pos 0) (pos 0)
  connect a.principal b.aux0 root

pub facing-IsSafe :
    (tag level tag' level' : ℕ) → IsSafe (facing tag level tag' level' (Net.new class_k 16)).1
unfolding facing
facing-IsSafe tag level tag' level' = left-IsSafe (runs (new-IsSafe class_k 16))
  where
    runs : {n : Net} → IsSafe n → Runs (facing tag level tag' level' n)
    runs safe = alloc-bind tag level (pos 5) (pos 0) _ safe λ a m1 safe g1 i1.
        alloc-bind tag' level' (pos 1) (pos 2) _ safe λ b m2 safe g2 i2.
          run (connect-Returns a.principal b.principal root safe (omega arith) i2.in_principal)

lifted-IsSafe : IsSafe (lifted (Net.new class_k 16)).1
unfolding lifted
lifted-IsSafe = left-IsSafe (runs (new-IsSafe class_k 16))
  where
    runs : {n : Net} → IsSafe n → Runs (lifted n)
    runs safe = alloc-bind Slot.tag_rep_in_unpaired 1 (pos 5) (pos 0) _ safe λ a m1 safe g1 i1.
        alloc-bind Slot.tag_fan_app 0 (pos 0) (pos 0) _ safe λ b m2 safe g2 i2.
          run (connect-Returns a.principal b.aux0 root safe (omega arith) i2.in_aux0)

-- An abstraction that meets an application, a replicator that meets a fan, and two replicators.
abbrev pub redex : Net
redex = (facing Slot.tag_fan_abs 0 Slot.tag_fan_app 0 (Net.new class_k 16)).1

abbrev pub shared : Net
shared = (facing Slot.tag_fan_abs 0 Slot.tag_rep_in_unpaired 1 (Net.new class_k 16)).1

abbrev pub crossed : Net
crossed = (facing Slot.tag_rep_in_unpaired 1 Slot.tag_rep_in_unpaired 3 (Net.new class_k 16)).1

abbrev pub candidate : Net
candidate = (lifted (Net.new class_k 16)).1

pub redex-IsSafe : IsSafe redex
redex-IsSafe = facing-IsSafe Slot.tag_fan_abs 0 Slot.tag_fan_app 0

pub shared-IsSafe : IsSafe shared
shared-IsSafe = facing-IsSafe Slot.tag_fan_abs 0 Slot.tag_rep_in_unpaired 1

pub crossed-IsSafe : IsSafe crossed
crossed-IsSafe = facing-IsSafe Slot.tag_rep_in_unpaired 1 Slot.tag_rep_in_unpaired 3

pub candidate-IsSafe : IsSafe candidate
candidate-IsSafe = lifted-IsSafe

abbrev pub first : PortId
first = Port.new 1 principal 0

abbrev pub second : PortId
second = Port.new 2 principal 0

abbrev pub app_port : PortId
app_port = Port.new 2 aux0 0

both_live :
    Pair redex first second
    × Pair shared first second
    × Pair crossed first second
    × Pair candidate app_port first
unfolding facing lifted slot_idx Port.new Net.new Arena.new alloc_agent Net.alloc_slot
    Arena.alloc_slot Arena.alloc_from Arena.make_live Net.modify_slot Net.ports connect
    Net.write_port Net.write_field Net.detect_pair Net.detect_at Net.add_pair Net.active_pair
    Port.is_eraser Port.is_null Port.port_kind Port.principal_port Port.from_bits Port.bits
    Net.class_bits Arena.is_live Slot.is_rep Slot.is_fan Slot.fan_is_app
both_live = (
  record { live_p = refl; live_q = refl; distinct = λ e. cc },
  record { live_p = refl; live_q = refl; distinct = λ e. cc },
  record { live_p = refl; live_q = refl; distinct = λ e. cc },
  record { live_p = refl; live_q = refl; distinct = λ e. cc },
)

pub redex-Pair : Pair redex first second
redex-Pair = both_live.0

pub shared-Pair : Pair shared first second
shared-Pair = both_live.1

pub crossed-Pair : Pair crossed first second
crossed-Pair = both_live.2

pub candidate-Pair : Pair candidate app_port first
candidate-Pair = both_live.3

pub not_erasers :
    (is_eraser first ≡ false) × (is_eraser second ≡ false) × (is_eraser app_port ≡ false)
unfolding Port.new is_eraser Port.bits
not_erasers = (refl, refl, refl)

pub crossed-AllJoin : AllJoin crossed.frontier1
unfolding facing lifted slot_idx Port.new Net.new Arena.new alloc_agent Net.alloc_slot
    Arena.alloc_slot Arena.alloc_from Arena.make_live Net.modify_slot Net.ports connect
    Net.write_port Net.write_field Net.detect_pair Net.detect_at Net.add_pair Net.active_pair
    Port.is_eraser Port.is_null Port.port_kind Port.principal_port Port.from_bits Port.bits
    Net.class_bits Arena.is_live Slot.is_rep Slot.is_fan Slot.fan_is_app Ordered.insert
crossed-AllJoin = join_more (λ _ _ e. cc) join_none

pub candidate-AllLift : AllLift candidate.frontier2
unfolding facing lifted slot_idx Port.new Net.new Arena.new alloc_agent Net.alloc_slot
    Arena.alloc_slot Arena.alloc_from Arena.make_live Net.modify_slot Net.ports connect
    Net.write_port Net.write_field Net.detect_pair Net.detect_at Net.add_pair Net.active_pair
    Port.is_eraser Port.is_null Port.port_kind Port.principal_port Port.from_bits Port.bits
    Net.class_bits Arena.is_live Slot.is_rep Slot.is_fan Slot.fan_is_app Net.detect_c4
    Net.is_rep_port Net.is_app_fan_port Net.slot_at Net.add_candidate Ordered.insert
candidate-AllLift = lift_more (record { agent_p = refl; agent_q = refl }) (λ e. cc) lift_none
