-- ===== src/Canon.antt =====
-- crates/dnx-core/src/reduce/canon.rs: the canonicalization rules.
pub mod Safe
pub mod Lift
pub mod Mark
pub mod Sure
pub mod Sweep
use dnet.Prelude.{
  ℕ, zero, suc, ◌+◌, ◌-◌, bit_and, bit_or, Bool, true, false, not, ◌&&◌, ◌||◌, Option, none, some,
  List, [], ◌∷◌, ◌++◌, ◌==◌, ltb, leb, if◌then◌else◌, length,
}
use Prim.Native.String.{String}
use dnet.Prelude.Int.{ℤ, pos, negsuc, ◌+ℤ◌, ltb_ℤ}
use dnet.Error.{Result, ok, err, panic, delta_overflow}
use dnet.Error.{◌>>=◌ as bind}
use dnet.LoPath.{LoPath, extend_left, extend_right}
use dnet.Port
use dnet.Port.{PortId, PortKind, principal, slot_idx, port_kind, is_eraser, is_null}
use dnet.Slot
use dnet.Slot.{Slot, is_rep, rep_is_unpaired, rep_aux0_erased, rep_aux1_erased, is_c1_marked}
use dnet.Net.{
  Net, Action, AgentPorts, C4Candidate, and_then, ◌>>=◌, ◌>>◌, pure, lift, done, slot, slot_at,
  modify_slot, retire, connect, set_eraser_on_port, alloc_agent, clear_pending_c1,
}
use dnet.Rules.{turn_two}

pub record C2Merge : Type 0 where
  pub rep_b : PortId
  pub ext : PortId
  pub b_shifted : Slot

-- `i16::checked_add`
unfoldable pub add_delta : ℤ → ℤ → Result ℤ
add_delta d shift =
    let sum = d +ℤ shift in
    if ltb_ℤ (pos 32767) sum || ltb_ℤ sum (negsuc 32767) then err delta_overflow else ok sum

-- The merge at an auxiliary port, once its neighbor is at hand; `next` is what `continue` leads to.
unfoldable pub c2_meet :
    Slot → PortId → ℤ → Slot → Result (Option C2Merge) → Result (Option C2Merge)
unfolding add_delta
c2_meet a rep_b delta b next =
    if not (is_rep b)
    then next
    else if ltb b.data_word a.data_word || ltb_ℤ delta (pos (b.data_word - a.data_word))
    then next
    else let shift = pos (b.data_word - a.data_word) in
      bind (add_delta b.delta0 shift) λ d0. bind (add_delta b.delta1 shift) λ d1. ok (
        some (record {
          rep_b = rep_b;
          ext = a.principal;
          b_shifted = record b { delta0 = d0; delta1 = d1; data_word = a.data_word };
        }))

-- One turn of the loop, at the port `rep_b` whose other side is erased or not.
unfoldable pub c2_side :
    Slot
    → (PortId → Result Slot)
    → Bool
    → PortId
    → ℤ
    → Result (Option C2Merge)
    → Result (Option C2Merge)
unfolding c2_meet
c2_side a fetch other_erased rep_b delta next =
    if not other_erased
    then next
    else if is_eraser rep_b || (is_null rep_b || not (is_principal (port_kind rep_b)))
    then next
    else bind (fetch rep_b) λ b. c2_meet a rep_b delta b next
  where
    is_principal : PortKind → Bool
    is_principal principal = true
    is_principal _ = false

unfoldable pub c2_gate_and_shift : Slot → (PortId → Result Slot) → Result (Option C2Merge)
unfolding c2_side
c2_gate_and_shift a fetch =
    if not (rep_is_unpaired a)
    then ok none
    else c2_side a fetch (rep_aux1_erased a) a.aux0 a.delta0
        (c2_side a fetch (rep_aux0_erased a) a.aux1 a.delta1 (ok none))

-- The slot of a port of a net.
abbrev pub fetch_in : Net → PortId → Result Slot
fetch_in n p = (slot p n).0

c2_apply : PortId → LoPath → Option C2Merge → Action (Unit {0})
c2_apply rep_a lo none = done
c2_apply rep_a lo (some m) = do
  modify_slot (slot_idx m.rep_b) (λ _. m.b_shifted)
  retire (slot_idx rep_a)
  connect m.rep_b m.ext lo

unfoldable pub c2_rep_merge : PortId → LoPath → Action (Unit {0})
unfolding c2_apply
c2_rep_merge rep_a lo = do
  a ← slot rep_a
  m ← λ n. (c2_gate_and_shift a (fetch_in n), n)
  c2_apply rep_a lo m

abbrev is_zero : ℤ → Bool
is_zero (pos n) = n == 0
is_zero (negsuc n) = false

-- The arms of `c3_rep_decay`.
decay_both : PortId → PortId → LoPath → Action (Unit {0})
decay_both rep_p ext lo = do
  set_eraser_on_port ext
  retire (slot_idx rep_p)
  connect Port.era ext lo

decay_to : PortId → PortId → PortId → LoPath → Action (Unit {0})
decay_to rep_p ext kept lo = do retire (slot_idx rep_p); connect ext kept lo

c3_cases : PortId → Slot → LoPath → Bool → Bool → Action (Unit {0})
unfolding decay_both decay_to
c3_cases rep_p rep lo true true =
    if rep_is_unpaired rep then decay_both rep_p rep.principal lo else done
c3_cases rep_p rep lo true false =
    if is_zero rep.delta1 then decay_to rep_p rep.principal rep.aux1 lo else done
c3_cases rep_p rep lo false true =
    if is_zero rep.delta0 then decay_to rep_p rep.principal rep.aux0 lo else done
c3_cases rep_p rep lo false false = done

unfoldable pub c3_rep_decay : PortId → LoPath → Action (Unit {0})
unfolding c3_cases
c3_rep_decay rep_p lo = do
  rep ← slot rep_p
  c3_cases rep_p rep lo (rep_aux0_erased rep) (rep_aux1_erased rep)

-- Sub-case A: the application is erased.
unfoldable pub c4_erase : PortId → PortId → Slot → LoPath → Action (Unit {0})
c4_erase app_aux0 rep_p app lo = do
  set_eraser_on_port app.principal
  set_eraser_on_port app.aux1
  retire (slot_idx app_aux0)
  retire (slot_idx rep_p)
  lo0 ← lift (extend_left lo)
  connect Port.era app.principal lo0
  lo1 ← lift (extend_right lo)
  connect Port.era app.aux1 lo1

-- Sub-case B: the replicator passes through the application.
unfoldable pub c4_replicate : PortId → PortId → Slot → Slot → LoPath → Action (Unit {0})
c4_replicate app_aux0 rep_p app rep lo = do
  new_rep ← alloc_agent Slot.tag_rep_in_unknown rep.data_word rep.delta0 rep.delta1
  new_arg ← alloc_agent Slot.tag_rep_in_unknown rep.data_word rep.delta0 rep.delta1
  app0 ← alloc_agent Slot.tag_fan_app 0 (pos 0) (pos 0)
  app1 ← alloc_agent Slot.tag_fan_app 0 (pos 0) (pos 0)
  retire (slot_idx app_aux0)
  retire (slot_idx rep_p)
  connect new_rep.aux0 app0.principal lo
  connect new_rep.aux1 app1.principal lo
  connect app0.aux1 new_arg.aux0 lo
  connect app1.aux1 new_arg.aux1 lo
  lo_00 ← turn_two extend_left extend_left lo
  connect app0.aux0 rep.aux0 lo_00
  lo_01 ← turn_two extend_left extend_right lo
  connect app1.aux0 rep.aux1 lo_01
  lo_10 ← turn_two extend_right extend_left lo
  connect new_rep.principal app.principal lo_10
  lo_11 ← turn_two extend_right extend_right lo
  connect new_arg.principal app.aux1 lo_11

unfoldable pub c4_aux_fan_replication : C4Candidate → Action (Unit {0})
c4_aux_fan_replication cand = do
  app ← slot cand.app_aux0
  rep ← slot cand.rep_principal
  if is_eraser app.aux0
      then c4_erase cand.app_aux0 cand.rep_principal app cand.lo
      else c4_replicate cand.app_aux0 cand.rep_principal app rep cand.lo

-- `c1_mark_sweep`: a slot reached for the first time is marked and goes to the end of the queue.
unfoldable pub mark : ℕ → List ℕ → Action (List ℕ)
mark idx queue = if idx == 0 then pure queue else (do
  s ← slot_at idx
  if is_c1_marked s then pure queue else (do
    modify_slot idx (λ s. record s { tag = bit_or s.tag Slot.tag_c1_mark })
    pure (queue ++ idx ∷ [])))

unfoldable pub mark_each : List ℕ → List ℕ → Action (List ℕ)
unfolding mark
mark_each [] queue = pure queue
mark_each (idx ∷ rest) queue = do queue' ← mark idx queue; mark_each rest queue'

-- The loop on the queue. With fuel for each slot of the arena it ends with an empty queue; `none`
-- is a queue that is left over.
unfoldable pub mark_reachable : ℕ → List ℕ → Action (Option (Unit {0}))
unfolding mark_each
mark_reachable fuel [] = pure (some tt)
mark_reachable zero (idx ∷ queue) = pure none
mark_reachable (suc fuel) (idx ∷ queue) = do
  s ← slot_at idx
  queue' ← mark_each (slot_idx s.principal ∷ slot_idx s.aux0 ∷ slot_idx s.aux1 ∷ []) queue
  mark_reachable fuel queue'

unfoldable pub sweep : List ℕ → Action (Unit {0})
sweep [] = done
sweep (idx ∷ rest) = do
  s ← slot_at idx
  if is_c1_marked s
      then modify_slot idx (λ s. record s { tag = bit_and s.tag (255 - Slot.tag_c1_mark) })
      else retire idx
  sweep rest

unfoldable pub root_slots : List (String × PortId) → List ℕ
root_slots [] = []
root_slots ((name, p) ∷ l) = slot_idx p ∷ root_slots l

unfoldable pub mark_from_roots : Action (Option (Unit {0}))
unfolding root_slots mark_each mark_reachable
mark_from_roots n =
    (mark_each (root_slots n.free_slots) [] >>= mark_reachable (length n.arena.slots)) n

unfoldable pub c1_mark_sweep : Action (Option (Unit {0}))
unfolding mark_from_roots sweep
c1_mark_sweep = do
  r ← mark_from_roots
  m ← λ n. (ok n, n)
  sweep m.arena.live_list
  clear_pending_c1
  pure r
