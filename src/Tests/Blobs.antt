-- ===== src/Tests/Blobs.antt =====
-- The theorems on the bytes of nets at concrete nets.
use dnet.Prelude.{
  ℕ, zero, suc, ◌+◌, ◌<◌, ◌≡◌, ◌≢◌, refl, List, [], ◌∷◌, arith, get_elem?, ◌*◌, some,
}
use dnet.Port
use dnet.Port.{PortId, PortKind, principal, aux0, aux1, slot_idx}
use dnet.Slot
use dnet.Slot.{Slot}
use dnet.Arena
use dnet.Net
use dnet.Net.{Net, class_k}
use dnet.CanonHash.{serialize}
use dnet.CanonHash.Iso.{Joins, nulls, wires, Alike, IsIso, serialize-IsIso}
use dnet.CanonHash.Emits.{Serialized, serialize-Serialized}
use dnet.Blob.{from_blob}
use dnet.Blob.Safe.{Decoded, from_blob-Decoded}
use dnet.Tests.Nets.{redex, redex-IsSafe, redex-Pair, first}
use dnet.Net.Safe.{size}
use dnet.Net.Chain.{live-inside}

-- An abstraction whose body is its variable, and whose root is free.
abbrev blob : List ℕ
blob = 1 ∷ 1 ∷ 0 ∷ 0 ∷ 0 ∷ 1 ∷ 0 ∷ 0 ∷ 0 ∷ 0 ∷ 2 ∷ 0 ∷ 0 ∷ 0 ∷ 0 ∷ 1 ∷ []

from_blob-Decoded_example : Decoded (from_blob class_k blob)
from_blob-Decoded_example = from_blob-Decoded class_k blob

serialize-Serialized_example : Serialized redex (serialize (4 * size redex + 1) first redex)
serialize-Serialized_example =
    serialize-Serialized redex first (4 * size redex + 1) redex-IsSafe
      (live-inside (slot_idx first) redex-IsSafe redex-Pair.live_p).0 (omega arith)

-- The same abstraction in the slots 1 and 2.
abbrev abs_in : PortId → PortId → Slot
abs_in p q = record Slot.empty { tag = Slot.tag_fan_abs; aux0 = p; aux1 = q }

abbrev net_of : List Slot → Net
net_of l = record (Net.new class_k 16) { arena = record (Arena.new 16) { slots = l } }

abbrev one : Net
one = net_of (Slot.empty ∷ abs_in 24 20 ∷ [])

abbrev two : Net
two = net_of (Slot.empty ∷ Slot.empty ∷ abs_in 40 36 ∷ [])

both_null : Joins one two suc 0 0
unfolding Port.is_eraser Port.is_null
both_null = nulls refl refl refl refl

aux1s_join : Joins one two suc 24 40
unfolding Port.is_eraser Port.is_null Port.slot_idx Port.port_kind
aux1s_join = wires refl refl refl refl (omega arith) (omega arith) refl refl

aux0s_join : Joins one two suc 20 36
unfolding Port.is_eraser Port.is_null Port.slot_idx Port.port_kind
aux0s_join = wires refl refl refl refl (omega arith) (omega arith) refl refl

one-two-Alike : Alike one two suc (abs_in 24 20) (abs_in 40 36)
one-two-Alike = record {
  same_tag = refl;
  same_data = refl;
  same_delta0 = refl;
  same_delta1 = refl;
  principals = both_null;
  aux0s = aux1s_join;
  aux1s = aux0s_join;
}

one-two-IsIso : IsIso one two suc
one-two-IsIso = record {
  one_to_one = λ i j e. omega arith;
  small = omega arith;
  image = λ i ne lt. (omega arith, omega arith);
  slots = λ i ne lt. at i ne lt;
}
  where
    at :
        (i : ℕ)
        → i ≢ 0
        → i < 2
        → (s : Slot) × (t : Slot) × (get_elem? one.arena.slots i ≡ some s)
          × (get_elem? two.arena.slots (suc i) ≡ some t)
          × Alike one two suc s t
    at zero ne lt = absurd (ne refl)
    at (suc zero) ne lt = (abs_in 24 20, abs_in 40 36, refl, refl, one-two-Alike)
    at (suc (suc i)) ne lt = absurd (omega arith)

serialize-IsIso_example : (serialize 20 20 one).0 ≡ (serialize 20 36 two).0
serialize-IsIso_example = serialize-IsIso one two suc one-two-IsIso 20 20 36 aux0s_join
