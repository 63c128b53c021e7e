-- ===== src/Tests/Primitives.antt =====
-- The application of a primitive function at a concrete net.
use dnet.Prelude.{ℕ, zero, suc, subst, ◌≡◌, ◌+◌, refl, List, [], ◌∷◌}
use dnet.Error.{Result, ok, err, readback_incomplete}
use dnet.LoPath.{root}
use dnet.Port
use dnet.Port.{slot_idx}
use dnet.Slot
use dnet.Arena
use dnet.Net
use dnet.Net.{Net, class_k, alloc_agent, connect}
use dnet.Net.Safe.{IsSafe, Returns}
use dnet.Rules.Safe.{Pair}
use dnet.Primitive.{PrimState, PrimFunEntry, pure_fn, tag_prim_fun, tag_prim_val, prim_apply}
use dnet.Net.Chain.{Calm, calm_ok, calm_err}
use dnet.Primitive.Safe.{CalmImpl}
use dnet.Primitive.Apply.{CalmFuns, Fired, prim_apply-Fired}
use dnet.Tests.Nets.{facing, facing-IsSafe, first, second}

-- The sum of two numbers.
sum : List ℕ → Result ℕ
sum [] = err readback_incomplete
sum (a ∷ []) = err readback_incomplete
sum (a ∷ b ∷ []) = ok (a + b)
sum (a ∷ b ∷ c ∷ l) = err readback_incomplete

abbrev add_two : PrimFunEntry ℕ
add_two = record { name = "add"; arity_remaining = 1; captured = 2 ∷ []; impl = pure_fn sum }

abbrev tables : PrimState ℕ
tables = record { vals = 3 ∷ []; funs = add_two ∷ [] }

abbrev pending : Net
pending = (facing tag_prim_fun 0 tag_prim_val 0 (Net.new class_k 16)).1

pending-IsSafe : IsSafe pending
pending-IsSafe = facing-IsSafe tag_prim_fun 0 tag_prim_val 0

pending-Pair : Pair pending first second
unfolding facing slot_idx Port.new Net.new Arena.new alloc_agent Net.alloc_slot Arena.alloc_slot
    Arena.alloc_from Arena.make_live Net.modify_slot Net.ports connect Net.write_port
    Net.write_field Net.detect_pair Net.detect_at Net.add_pair Net.active_pair Port.is_eraser
    Port.is_null Port.port_kind Port.principal_port Port.from_bits Port.bits Net.class_bits
    Arena.is_live Slot.is_rep Slot.is_fan Slot.fan_is_app
pending-Pair = record { live_p = refl; live_q = refl; distinct = λ e. cc }

sum-Calm : (args : List ℕ) → Calm (sum args)
unfolding sum
sum-Calm [] = calm_err
sum-Calm (a ∷ []) = calm_err
sum-Calm (a ∷ b ∷ []) = calm_ok (a + b)
sum-Calm (a ∷ b ∷ c ∷ l) = calm_err

tables-CalmFuns : CalmFuns tables
tables-CalmFuns zero entry e =
    let same : add_two ≡ entry = cc in subst (λ x. CalmImpl x.impl) same sum-Calm
tables-CalmFuns (suc i) entry e = cc

prim_apply-Fired_example :
    Returns (Fired pending first second tables) (prim_apply first second root tables pending)
prim_apply-Fired_example =
    prim_apply-Fired first second root tables pending-IsSafe pending-Pair tables-CalmFuns
