-- ===== src/Port/Fields.antt =====
-- The fields of a port (crates/dnx-core/src/port.rs) behind the packing.
use dnet.Port.{
  PortKind, principal, aux0, aux1, from_bits, bits, new, slot_idx, port_kind, is_eraser, gen_low,
}
use dnet.Prelude.{ℕ, ◌+◌, ◌*◌, ◌/◌, ◌%◌, ◌^◌, ◌<◌, ◌≡◌, ◌∙◌, false, arith}
use dnet.Prelude.Bits.{bit_or-eq-add, bit_and-one, bit_and-three}

bits-lt : (k : PortKind) → bits k < 3
unfolding bits
bits-lt principal = omega arith
bits-lt aux0 = omega arith
bits-lt aux1 = omega arith

from_bits-bits : (k : PortKind) (n : ℕ) → n % 4 ≡ bits k → from_bits n ≡ k
unfolding from_bits bits
from_bits-bits principal n e = ground (arith, bit_and-three n)
from_bits-bits aux0 n e = ground (arith, bit_and-three n)
from_bits-bits aux1 n e = ground (arith, bit_and-three n)

-- The word as a sum of its fields.
new-sum : (i : ℕ) (k : PortKind) (g : ℕ) → i < 2 ^ 28 → new i k g ≡ i * 16 + bits k * 4 + g % 2
unfolding new
new-sum i k g h =
    let fits : i * 2 ^ 4 % 2 ^ 32 ≡ i * 2 ^ 4 = omega arith in
    let inner = bit_or-eq-add 4 i (bits k * 2 ^ 2) (ground (arith, bits-lt k)) in
    let regroup : i * 2 ^ 4 + bits k * 2 ^ 2 ≡ (i * 4 + bits k) * 2 ^ 2 = omega arith in
    rw (fits, bit_and-one g, inner, regroup)
      (bit_or-eq-add 2 (i * 4 + bits k) (g % 2) (omega arith) ∙ omega arith)

-- A port made of an index below 2^28, a kind and a generation gives back the index, the kind and
-- the parity of the generation, is not an eraser, and fits 32 bits.
pub new_fields :
    (i : ℕ) (k : PortKind) (g : ℕ)
    → i < 2 ^ 28
    → (slot_idx (new i k g) ≡ i)
      × (port_kind (new i k g) ≡ k)
      × (gen_low (new i k g) ≡ g % 2)
      × (is_eraser (new i k g) ≡ false)
      × (new i k g < 2 ^ 32)
unfolding slot_idx port_kind gen_low is_eraser
new_fields i k g h =
    let sum = new-sum i k g h in
    let small = bits-lt k in
    (
      omega arith,
      from_bits-bits k (new i k g / 2 ^ 2) (omega arith),
      omega (arith, bit_and-one (new i k g)),
      ground (arith, bit_and-one (new i k g / 2)),
      omega arith,
    )

-- Two ports, with indices below 2^28, are equal only if their indices, kinds and parities of
-- generation are.
new-injective :
    (i j : ℕ) (k l : PortKind) (g h : ℕ)
    → i < 2 ^ 28
    → j < 2 ^ 28
    → new i k g ≡ new j l h
    → (i ≡ j) × (k ≡ l) × (g % 2 ≡ h % 2)
new-injective i j k l g h p q e =
    let left = new_fields i k g p in let right = new_fields j l h q in (cc, cc, cc)
