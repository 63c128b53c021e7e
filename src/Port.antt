-- ===== src/Port.antt =====
-- crates/dnx-core/src/port.rs: a port is a 32-bit word, the slot in the high 28 bits, then the
-- kind, the eraser mark and the low bit of the generation. `raw` and `from_raw` are the identity.
pub mod Fields
use dnet.Prelude.{
  ℕ, ◌*◌, ◌/◌, ◌%◌, ◌^◌, bit_and, bit_or, Bool, Option, none, some, ◌==◌, if◌then◌else◌,
}

abbrev pub PortId : Type 0
PortId = ℕ

pub data PortKind : Type 0 where
  principal aux0 aux1 : PortKind

pub data Polarity : Type 0 where
  child parent : Polarity

unfoldable pub from_bits : ℕ → PortKind
from_bits bits =
    let low = bit_and bits 3 in if low == 0 then principal else if low == 1 then aux0 else aux1

unfoldable pub bits : PortKind → ℕ
bits principal = 0
bits aux0 = 1
bits aux1 = 2

abbrev pub null : PortId
null = 0

abbrev pub era : PortId
era = 2

-- `<<` on `u32` drops what leaves the word.
unfoldable pub new : ℕ → PortKind → ℕ → PortId
unfolding bits
new slot_idx kind gen_low =
    bit_or (bit_or (slot_idx * 2 ^ 4 % 2 ^ 32) (bits kind * 2 ^ 2)) (bit_and gen_low 1)

unfoldable pub slot_idx : PortId → ℕ
slot_idx p = p / 2 ^ 4

unfoldable pub port_kind : PortId → PortKind
unfolding from_bits
port_kind p = from_bits (p / 2 ^ 2)

unfoldable pub is_eraser : PortId → Bool
is_eraser p = bit_and (p / 2 ^ 1) 1 == 1

unfoldable pub gen_low : PortId → ℕ
gen_low p = bit_and p 1

unfoldable pub is_null : PortId → Bool
is_null p = p == 0

-- `PrincipalPortId::new`: a port, if it is a principal one.
unfoldable pub principal_port : PortId → Option PortId
unfolding port_kind
principal_port p = elim (port_kind p) [ principal ↦ some p | _ ↦ none ]
