-- ===== src/Rules.antt =====
-- crates/dnx-core/src/reduce/rules.rs: the interaction rules R2 to R7. (R1, eraser against eraser,
-- does nothing, and is in the dispatch.)
pub mod Safe
pub mod Grow
pub mod Symmetric
use dnet.Prelude.{
  ℕ, ◌+◌, ◌-◌, ◌≤◌, ◌%◌, bit_and, Bool, true, false, not, ◌&&◌, ◌||◌, ◌==◌, ltb, leb, if◌then◌else◌,
}
use dnet.Prelude.Int.{ℤ, pos, negsuc, ◌+ℤ◌, ltb_ℤ, pos_part, neg_part}
use dnet.Error.{Result, ok, err, delta_overflow}
use dnet.LoPath.{LoPath, extend_left, extend_right}
use dnet.Port
use dnet.Port.{PortId, slot_idx}
use dnet.Slot
use dnet.Slot.{Slot, fan_is_abs}
use dnet.Net.{
  Net, Action, AgentPorts, ◌>>=◌, ◌>>◌, pure, lift, done, slot, retire, connect, link_no_pair,
  set_eraser_on_port, alloc_agent,
}

-- R2 and R3 have the same body.
unfoldable pub r2_era_fan : PortId → LoPath → Action (Unit {0})
r2_era_fan fan_p lo = do
  fan ← slot fan_p
  set_eraser_on_port fan.aux0
  set_eraser_on_port fan.aux1
  retire (slot_idx fan_p)
  lo0 ← lift (extend_left lo)
  connect Port.era fan.aux0 lo0
  lo1 ← lift (extend_right lo)
  connect Port.era fan.aux1 lo1

unfoldable pub r3_era_rep : PortId → LoPath → Action (Unit {0})
r3_era_rep rep_p lo = do
  rep ← slot rep_p
  set_eraser_on_port rep.aux0
  set_eraser_on_port rep.aux1
  retire (slot_idx rep_p)
  lo0 ← lift (extend_left lo)
  connect Port.era rep.aux0 lo0
  lo1 ← lift (extend_right lo)
  connect Port.era rep.aux1 lo1

-- R4 once it is known which port is the abstraction's.
unfoldable pub beta : PortId → PortId → LoPath → Action (Unit {0})
beta abs_p app_p lo = do
  abs ← slot abs_p
  app ← slot app_p
  retire (slot_idx abs_p)
  retire (slot_idx app_p)
  if slot_idx abs.aux0 == slot_idx abs_p && slot_idx abs.aux1 == slot_idx abs_p
      then link_no_pair app.aux0 app.aux1
      else (do
        lo0 ← lift (extend_left lo)
        connect abs.aux0 app.aux0 lo0
        lo1 ← lift (extend_right lo)
        connect abs.aux1 app.aux1 lo1)

unfoldable pub r4_fan_fan : PortId → PortId → LoPath → Action (Unit {0})
r4_fan_fan p0 p1 lo = do s0 ← slot p0; if fan_is_abs s0 then beta p0 p1 lo else beta p1 p0 lo

-- The two ways on of R5, from the two new fans on.
unfoldable pub r5_self_loop :
    PortId → PortId → Slot → AgentPorts → AgentPorts → LoPath → LoPath → LoPath → Action (Unit {0})
r5_self_loop fan_p rep_p rep f0 f1 lo lo_00 lo_01 = do
  retire (slot_idx fan_p)
  retire (slot_idx rep_p)
  lo0 ← lift (extend_left lo)
  connect f0.aux0 f0.aux1 lo0
  lo1 ← lift (extend_right lo)
  connect f1.aux0 f1.aux1 lo1
  connect f0.principal rep.aux0 lo_00
  connect f1.principal rep.aux1 lo_01

abbrev pub turn_two : (LoPath → Result LoPath) → (LoPath → Result LoPath) → LoPath → Action LoPath
turn_two first second lo = do mid ← lift (first lo); lift (second mid)

unfoldable pub r5_general :
    PortId
    → PortId
    → Slot
    → Slot
    → AgentPorts
    → AgentPorts
    → LoPath
    → LoPath
    → LoPath
    → Action (Unit {0})
r5_general fan_p rep_p fan rep f0 f1 lo lo_00 lo_01 = do
  let is_abs = fan_is_abs fan
  let ra_tag = if is_abs then Slot.tag_rep_in_unknown else Slot.tag_rep_out_unknown
  let rb_tag = if is_abs then Slot.tag_rep_out_unknown else Slot.tag_rep_in_unknown
  ra ← alloc_agent ra_tag rep.data_word rep.delta0 rep.delta1
  rb ← alloc_agent rb_tag rep.data_word rep.delta0 rep.delta1
  retire (slot_idx fan_p)
  retire (slot_idx rep_p)
  lo_10 ← turn_two extend_right extend_left lo
  lo_11 ← turn_two extend_right extend_right lo
  let ra_lo = if is_abs then lo_10 else lo_11
  let rb_lo = if is_abs then lo_11 else lo_10
  connect f0.aux0 ra.aux0 lo
  connect f0.aux1 rb.aux0 lo
  connect f1.aux0 ra.aux1 lo
  connect f1.aux1 rb.aux1 lo
  connect f0.principal rep.aux0 lo_00
  connect f1.principal rep.aux1 lo_01
  connect ra.principal fan.aux0 ra_lo
  connect rb.principal fan.aux1 rb_lo

unfoldable pub r5_fan_rep : PortId → PortId → LoPath → Action (Unit {0})
r5_fan_rep fan_p rep_p lo = do
  fan ← slot fan_p
  rep ← slot rep_p
  let fan_tag = if fan_is_abs fan then Slot.tag_fan_abs else Slot.tag_fan_app
  f0 ← alloc_agent fan_tag 0 (pos 0) (pos 0)
  f1 ← alloc_agent fan_tag 0 (pos 0) (pos 0)
  lo_00 ← turn_two extend_left extend_left lo
  lo_01 ← turn_two extend_left extend_right lo
  if slot_idx fan.aux0 == slot_idx fan_p && slot_idx fan.aux1 == slot_idx fan_p
      then r5_self_loop fan_p rep_p rep f0 f1 lo lo_00 lo_01
      else r5_general fan_p rep_p fan rep f0 f1 lo lo_00 lo_01

-- The `debug_assert!` of the source is left out.
unfoldable pub r6_rep_rep : PortId → PortId → LoPath → Action (Unit {0})
r6_rep_rep p0 p1 lo = do
  a ← slot p0
  b ← slot p1
  retire (slot_idx p0)
  retire (slot_idx p1)
  lo0 ← lift (extend_left lo)
  connect a.aux0 b.aux0 lo0
  lo1 ← lift (extend_right lo)
  connect a.aux1 b.aux1 lo1

-- The order of `(level, δ0, δ1)`, on whole numbers.
unfoldable pub eq_ℤ : ℤ → ℤ → Bool
eq_ℤ a b = pos_part a + neg_part b == pos_part b + neg_part a

unfoldable pub key_lt : Slot → Slot → Bool
unfolding eq_ℤ
key_lt s t =
    ltb s.data_word t.data_word
    || (s.data_word == t.data_word
        && (ltb_ℤ s.delta0 t.delta0 || (eq_ℤ s.delta0 t.delta0 && ltb_ℤ s.delta1 t.delta1)))

-- The sum as an `i32`, accepted from 0 to 16383.
unfoldable pub add_level : ℕ → ℤ → Result ℕ
unfolding ◌+ℤ◌
add_level level delta = elim (pos level +ℤ delta) [
  | pos v ↦ if ltb v 16384 then ok v else err delta_overflow
  | negsuc v ↦ err delta_overflow
]

-- R7 once it is known which replicator is the higher one.
unfoldable pub commute : PortId → Slot → PortId → Slot → LoPath → Action (Unit {0})
unfolding add_level
commute hi_p hi lo_p low lo = do
  let hi_tag = bit_and hi.tag 0x0F
  let lo_tag = bit_and low.tag 0x0F
  l0 ← lift (add_level hi.data_word low.delta0)
  hc0 ← alloc_agent hi_tag l0 hi.delta0 hi.delta1
  l1 ← lift (add_level hi.data_word low.delta1)
  hc1 ← alloc_agent hi_tag l1 hi.delta0 hi.delta1
  lc0 ← alloc_agent lo_tag low.data_word low.delta0 low.delta1
  lc1 ← alloc_agent lo_tag low.data_word low.delta0 low.delta1
  retire (slot_idx hi_p)
  retire (slot_idx lo_p)
  connect hc0.aux0 lc0.aux0 lo
  connect hc0.aux1 lc1.aux0 lo
  connect hc1.aux0 lc0.aux1 lo
  connect hc1.aux1 lc1.aux1 lo
  lo_00 ← turn_two extend_left extend_left lo
  connect hc0.principal low.aux0 lo_00
  lo_01 ← turn_two extend_left extend_right lo
  connect hc1.principal low.aux1 lo_01
  lo_10 ← turn_two extend_right extend_left lo
  connect lc0.principal hi.aux0 lo_10
  lo_11 ← turn_two extend_right extend_right lo
  connect lc1.principal hi.aux1 lo_11

unfoldable pub r7_rep_rep : PortId → PortId → LoPath → Action (Unit {0})
r7_rep_rep p0 p1 lo = do
  s0 ← slot p0
  s1 ← slot p1
  if key_lt s1 s0 then commute p0 s0 p1 s1 lo else commute p1 s1 p0 s0 lo
