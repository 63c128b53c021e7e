-- ===== src/Tests/Collection.antt =====
-- The collection of a net of two wired agents, one of them a root, and a third one on its own.
use dnet.Prelude.{ℕ, zero, suc, ◌<◌, ◌≡◌, refl, false, some, arith, inl, inr}
use dnet.Prelude.Int.{pos}
use dnet.LoPath.{root}
use dnet.Port
use dnet.Port.{PortId, slot_idx}
use dnet.Slot
use dnet.Slot.{is_c1_marked}
use dnet.Arena
use dnet.Arena.Live.{Has}
use dnet.Net
use dnet.Net.{Net, Action, class_k, ◌>>=◌, ◌>>◌, alloc_agent, connect, add_root}
use dnet.Net.Safe.{IsSafe}
use dnet.Net.Keeps.{connect-Returns, new-IsSafe, other-Returns}
use dnet.Net.Safe.{and_then-Returns}
use dnet.Rules.Grow.{alloc-bind}
use dnet.Reduce.Safe.{Runs, run}
use dnet.Canon.{c1_mark_sweep, root_slots}
use dnet.Canon.Mark.{marked, mark_of}
use dnet.Canon.Mark.Loop.{Unmarked}
use dnet.Canon.Sure.{Succeeds}
use dnet.Canon.Sweep.{Collected, c1_mark_sweep-Collected}
use dnet.Tests.Nets.{left-IsSafe, first}

unfoldable littered : Action (Unit {0})
littered = do
  a ← alloc_agent Slot.tag_fan_abs 0 (pos 0) (pos 0)
  b ← alloc_agent Slot.tag_fan_app 0 (pos 0) (pos 0)
  connect a.principal b.principal root
  c ← alloc_agent Slot.tag_rep_in_unpaired 1 (pos 1) (pos 2)
  add_root "main" first

abbrev litter : Net
litter = (littered (Net.new class_k 16)).1

litter-IsSafe : IsSafe litter
unfolding littered add_root
litter-IsSafe = left-IsSafe (runs (new-IsSafe class_k 16))
  where
    runs : {n : Net} → IsSafe n → Runs (littered n)
    runs safe = alloc-bind Slot.tag_fan_abs 0 (pos 0) (pos 0) _ safe λ a m1 safe g1 i1.
        alloc-bind Slot.tag_fan_app 0 (pos 0) (pos 0) _ safe λ b m2 safe g2 i2.
          and_then-Returns
            (connect-Returns a.principal b.principal root safe (omega arith) i2.in_principal)
            λ u m3 safe same.
              alloc-bind Slot.tag_rep_in_unpaired 1 (pos 1) (pos 2) _ safe
                λ c m4 safe g4 i4. run (other-Returns m4.frontier1 m4.frontier2 _ m4.net_flags safe)

litter-Unmarked : Unmarked litter
unfolding slot_idx Port.new Net.new Arena.new alloc_agent Net.alloc_slot Arena.alloc_slot
    Arena.alloc_from Arena.make_live Net.modify_slot Net.ports connect Net.write_port
    Net.write_field Net.detect_pair Net.detect_at Net.add_pair Net.active_pair Port.is_eraser
    Port.is_null Port.port_kind Port.principal_port Port.from_bits Port.bits Net.class_bits
    Arena.is_live Slot.is_rep Slot.is_fan Slot.fan_is_app littered mark_of is_c1_marked root_slots
    add_root
litter-Unmarked = record { rooted = rooted; clear = clear }
  where
    rooted : (i : ℕ) → Has i (root_slots litter.free_slots) → i < 4
    rooted i (inl e) = omega arith
    rooted i (inr h) = elim h [ ]

    clear : (i : ℕ) → marked litter i ≡ false
    clear zero = refl
    clear (suc zero) = refl
    clear (suc (suc zero)) = refl
    clear (suc (suc (suc zero))) = refl
    clear (suc (suc (suc (suc i)))) = refl

c1_mark_sweep_example : Succeeds (λ r m. (r ≡ some tt) × Collected litter m) (c1_mark_sweep litter)
c1_mark_sweep_example = c1_mark_sweep-Collected litter litter-IsSafe litter-Unmarked
