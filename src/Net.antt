-- ===== src/Net.antt =====
-- crates/dnx-core/src/net.rs: the net, its agents and wires, and the two frontiers of redexes.
-- A method on `&mut self` is an action: it returns its result and the net that it leaves, also
-- beside an error. A slot that the vector does not have is a panic.
pub mod Ordered
pub mod Safe
pub mod Keeps
pub mod Free
pub mod Chain
use Prim.Native.String.{String}
use text.Mathlib.Text.{◌==◌ as str_eq}
use Ordered.{Frontier}
use dnet.Prelude.{
  ℕ, zero, suc, ◌+◌, ◌-◌, ◌%◌, ◌^◌, bit_and, bit_or, Bool, true, false, not, ◌&&◌, ◌||◌, Option,
  none, some, List, [], ◌∷◌, ◌==◌, length, get_elem?, set, if◌then◌else◌,
}
use dnet.Prelude.Int.{ℤ, pos}
use dnet.Error.{DnxError, Result, ok, err, panic, readback_incomplete}
use dnet.LoPath.{LoPath}
use dnet.Port
use dnet.Port.{
  PortId, PortKind, principal, aux0, aux1, slot_idx, port_kind, is_eraser, is_null, principal_port,
}
use dnet.Slot.{Slot, is_fan, is_rep, fan_is_abs, fan_is_app}
use dnet.Slot
use dnet.Arena
use dnet.Arena.{Arena}

-- The four classes of nets: linear, affine, relevant and full.
pub data NetClass : Type 0 where
  class_l class_a class_i class_k : NetClass

unfoldable pub class_bits : NetClass → ℕ
class_bits class_l = 0b00
class_bits class_a = 0b01
class_bits class_i = 0b10
class_bits class_k = 0b11

-- `CRules::HAS_REP` and `HAS_ERA`.
unfoldable pub has_rep : NetClass → Bool
has_rep class_l = false
has_rep class_a = false
has_rep class_i = true
has_rep class_k = true

unfoldable pub has_era : NetClass → Bool
has_era class_l = false
has_era class_a = true
has_era class_i = false
has_era class_k = true

pub record ActivePair : Type 0 where
  pub p0 : PortId
  pub p1 : PortId
  pub lo : LoPath

-- `ActivePair::new`: both ports must be principal.
unfoldable pub active_pair : PortId → PortId → LoPath → Option ActivePair
unfolding principal_port
active_pair p0 p1 lo = elim (principal_port p0) [
  | none ↦ none
  | some q0 ↦ elim (principal_port p1) [
    | none ↦ none
    | some q1 ↦ some (record { p0 = q0; p1 = q1; lo = lo })
  ]
]

pub record C4Candidate : Type 0 where
  pub rep_principal : PortId
  pub app_aux0 : PortId
  pub lo : LoPath

pub record AgentPorts : Type 0 where
  pub principal : PortId
  pub aux0 : PortId
  pub aux1 : PortId

pub record Net : Type 0 where
  pub arena : Arena
  pub frontier1 : Frontier ActivePair
  pub frontier2 : Frontier C4Candidate
  pub free_slots : List (String × PortId)
  pub net_flags : ℕ

abbrev pub Action {ℓ} : Type ℓ → Type ℓ
Action A = Net → Result A × Net

module _ {ℓ κ} {A : Type ℓ} {B : Type κ} where
  abbrev pub and_then : Result A × Net → (A → Action B) → Result B × Net
  and_then (ok a, n) k = k a n
  and_then (err e, n) k = (err e, n)
  and_then (panic, n) k = (panic, n)

  infixl 5 ◌>>=◌ ◌>>◌
  abbrev pub ◌>>=◌ : Action A → (A → Action B) → Action B
  (m >>= k) n = and_then (m n) k

  abbrev pub ◌>>◌ : Action A → Action B → Action B
  (m >> k) n = and_then (m n) (λ _. k)

abbrev pub pure {ℓ} : {A : Type ℓ} → A → Action A
pure a n = (ok a, n)

-- `?` on a result that does not touch the net.
abbrev pub lift {ℓ} : {A : Type ℓ} → Result A → Action A
lift r n = (r, n)

abbrev pub done : Action (Unit {0})
done = pure tt

unfoldable pub new : NetClass → ℕ → Net
unfolding class_bits
new c capacity = record {
  arena = Arena.new capacity;
  frontier1 = [];
  frontier2 = [];
  free_slots = [];
  net_flags = class_bits c;
}

-- `self.arena.slot(idx)`
unfoldable pub slot_at : ℕ → Action Slot
slot_at idx n = elim (get_elem? n.arena.slots idx) [ none ↦ (panic, n) | some s ↦ (ok s, n) ]

abbrev pub set_slots : List Slot → Net → Net
set_slots l n = record n { arena = record n.arena { slots = l } }

-- What is done through `self.arena.slot_mut(idx)`.
unfoldable pub modify_slot : ℕ → (Slot → Slot) → Action (Unit {0})
modify_slot idx f n = elim (get_elem? n.arena.slots idx) [
  | none ↦ (panic, n)
  | some s ↦ (ok tt, set_slots (set n.arena.slots idx (f s)) n)
]

abbrev pub slot : PortId → Action Slot
slot port = slot_at (slot_idx port)

abbrev pub field : PortKind → Slot → PortId
field principal s = s.principal
field aux0 s = s.aux0
field aux1 s = s.aux1

unfoldable pub peer : PortId → Action PortId
peer port =
    if is_eraser port || is_null port
    then pure port
    else (do s ← slot port; pure (field (port_kind port) s))

unfoldable pub slot_is_live : PortId → Net → Bool
slot_is_live port n =
    not (is_eraser port) && (not (is_null port) && Arena.is_live n.arena (slot_idx port))

unfoldable pub net_pending_c1 : Net → Bool
net_pending_c1 n = not (bit_and n.net_flags 0x04 == 0)

unfoldable pub set_pending_c1 : Action (Unit {0})
set_pending_c1 n = (ok tt, record n { net_flags = bit_or n.net_flags 0x04 })

unfoldable pub clear_pending_c1 : Action (Unit {0})
clear_pending_c1 n = (ok tt, record n { net_flags = bit_and n.net_flags 0xFB })

-- `alloc_slot` and `retire_slot` of the arena of the net.
abbrev in_arena : Net → Result ℕ × Arena → Result ℕ × Net
in_arena n (r, a) = (r, record n { arena = a })

unfoldable pub alloc_slot : Action ℕ
alloc_slot n = in_arena n (Arena.alloc_slot n.arena)

unfoldable pub retire : ℕ → Action (Unit {0})
retire idx n = (ok tt, record n { arena = Arena.retire_slot idx n.arena })

unfoldable pub ports : ℕ → Action AgentPorts
ports idx = do
  s ← slot_at idx
  let g = bit_and s.generation 1
  pure (record {
    principal = Port.new idx principal g;
    aux0 = Port.new idx aux0 g;
    aux1 = Port.new idx aux1 g;
  })

unfoldable pub alloc_agent : ℕ → ℕ → ℤ → ℤ → Action AgentPorts
unfolding alloc_slot ports
alloc_agent tag level d0 d1 = do
  idx ← alloc_slot
  modify_slot idx (λ s. record s { tag = tag; data_word = level; delta0 = d0; delta1 = d1 })
  ports idx

unfoldable pub alloc_abs : Action AgentPorts
alloc_abs = alloc_agent Slot.tag_fan_abs 0 (pos 0) (pos 0)

unfoldable pub alloc_app : Action AgentPorts
alloc_app = alloc_agent Slot.tag_fan_app 0 (pos 0) (pos 0)

-- As in a release build, in which the assertion that the level is at most 385 is not checked.
unfoldable pub alloc_rep_in : ℕ → ℤ → ℤ → Action AgentPorts
alloc_rep_in level d0 d1 = alloc_agent Slot.tag_rep_in_unpaired level d0 d1

unfoldable pub alloc_free : ℕ → Action PortId
unfolding alloc_slot
alloc_free var_id = do
  idx ← alloc_slot
  modify_slot idx (λ s. record s { tag = Slot.tag_free; data_word = bit_and var_id 0x3FFF })
  s ← slot_at idx
  pure (Port.new idx principal (bit_and s.generation 1))

-- The match of `write_port` on the kind: an eraser on a replicator's auxiliary port is marked.
unfoldable pub write_field : PortKind → PortId → Slot → Slot
write_field principal v s = record s { principal = v }
write_field aux0 v s = record s {
  aux0 = v;
  tag = if is_eraser v && is_rep s then bit_or s.tag Slot.tag_aux0_erased else s.tag;
}
write_field aux1 v s = record s {
  aux1 = v;
  tag = if is_eraser v && is_rep s then bit_or s.tag Slot.tag_aux1_erased else s.tag;
}

unfoldable pub write_port : PortId → PortId → Action (Unit {0})
unfolding modify_slot write_field
write_port port v =
    if is_eraser port || is_null port
    then done
    else modify_slot (slot_idx port) (write_field (port_kind port) v)

unfoldable pub is_rep_port : PortId → Action Bool
unfolding slot_at
is_rep_port p = if is_eraser p || is_null p then pure false else (do s ← slot p; pure (is_rep s))

unfoldable pub is_app_fan_port : PortId → Action Bool
unfolding slot_at
is_app_fan_port p =
    if is_eraser p || is_null p
    then pure false
    else (do s ← slot p; pure (is_fan s && fan_is_app s))

unfoldable pub add_pair : Option ActivePair → LoPath → Action (Unit {0})
add_pair none lo n = (ok tt, n)
add_pair (some ap) lo n = (ok tt, record n { frontier1 = Ordered.insert lo ap n.frontier1 })

unfoldable pub add_candidate : PortId → PortId → LoPath → Action (Unit {0})
add_candidate rep app lo n = (
  ok tt,
  record n {
    frontier2 =
        Ordered.insert lo (record { rep_principal = rep; app_aux0 = app; lo = lo }) n.frontier2;
  },
)

-- A candidate, if the one port is a replicator's and the other an application's.
unfoldable pub detect_c4 : PortId → PortId → LoPath → Action (Unit {0})
unfolding is_rep_port is_app_fan_port add_candidate
detect_c4 rep app lo = do
  r ← is_rep_port rep
  if r then (do f ← is_app_fan_port app; if f then add_candidate rep app lo else done) else done

-- In the third arm of the source the application is asked first.
unfoldable pub detect_c4_flipped : PortId → PortId → LoPath → Action (Unit {0})
unfolding is_rep_port is_app_fan_port add_candidate
detect_c4_flipped app rep lo = do
  f ← is_app_fan_port app
  if f then (do r ← is_rep_port rep; if r then add_candidate rep app lo else done) else done

unfoldable pub detect_at : PortKind → PortKind → PortId → PortId → LoPath → Action (Unit {0})
unfolding add_pair active_pair detect_c4 detect_c4_flipped
detect_at principal principal a b lo =
    if not (is_null a) && not (is_null b) then add_pair (active_pair a b lo) lo else done
detect_at principal aux0 a b lo = detect_c4 a b lo
detect_at aux0 principal a b lo = detect_c4_flipped a b lo
detect_at _ _ a b lo = done

unfoldable pub detect_pair : PortId → PortId → LoPath → Action (Unit {0})
unfolding detect_at
detect_pair a b lo = detect_at (port_kind a) (port_kind b) a b lo

unfoldable pub link_no_pair : PortId → PortId → Action (Unit {0})
unfolding write_port
link_no_pair a b = do write_port a b; write_port b a

unfoldable pub connect : PortId → PortId → LoPath → Action (Unit {0})
unfolding write_port detect_pair
connect a b lo = do write_port a b; write_port b a; detect_pair a b lo

-- The match of `set_eraser_on_port` on the kind.
unfoldable pub erase_field : PortKind → Slot → Slot
erase_field principal s = record s { principal = Port.era }
erase_field aux0 s = record s {
  aux0 = Port.era;
  tag = if is_rep s then bit_or s.tag Slot.tag_aux0_erased else s.tag;
}
erase_field aux1 s =
    let tag = if is_rep s then bit_or s.tag Slot.tag_aux1_erased else s.tag in
    record s {
      aux1 = Port.era;
      tag = if fan_is_abs (record s { tag = tag }) then bit_or tag Slot.tag_erasing_abs else tag;
    }

pending_after : PortKind → Action (Unit {0})
unfolding set_pending_c1
pending_after principal = done
pending_after _ = set_pending_c1

unfoldable pub set_eraser_on_port : PortId → Action (Unit {0})
unfolding modify_slot erase_field pending_after
set_eraser_on_port port = if is_eraser port || is_null port then done else (do
  modify_slot (slot_idx port) (erase_field (port_kind port))
  pending_after (port_kind port))

-- `HashMap::insert`
put_root : String → PortId → List (String × PortId) → List (String × PortId)
put_root name port [] = (name, port) ∷ []
put_root name port ((m, p) ∷ l) =
    if str_eq m name then (name, port) ∷ l else (m, p) ∷ put_root name port l

unfoldable pub add_root : String → PortId → Action (Unit {0})
unfolding put_root
add_root name port n = (ok tt, record n { free_slots = put_root name port n.free_slots })

unfoldable pub agent_count : Net → ℕ
agent_count n = length n.arena.live_list

-- `is_empty`
abbrev pub is_empty {ℓ} : {V : Type ℓ} → Frontier V → Bool
is_empty [] = true
is_empty (e ∷ m) = false

unfoldable pub certify_canonical : Net → Result (Unit {0})
unfolding net_pending_c1
certify_canonical n =
    if is_empty n.frontier1 && (is_empty n.frontier2 && not (net_pending_c1 n))
    then ok tt
    else err readback_incomplete
