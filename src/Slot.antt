-- ===== src/Slot.antt =====
-- crates/dnx-core/src/slot.rs: a slot of the arena, an agent and the raw ports that its own ports
-- are wired to. The padding is left out. `tag` is a byte: the agent in its low half, flags in its
-- high half.
pub mod Tags
use dnet.Prelude.{
  ℕ, ◌*◌, ◌^◌, bit_and, Bool, true, false, not, ◌&&◌, Option, none, some, ◌==◌, if◌then◌else◌,
}
use dnet.Prelude.Int.{ℤ, pos}
use dnet.Port.{PortKind, principal, aux0, aux1, Polarity, child, parent}

pub record Slot : Type 0 where
  pub tag : ℕ
  pub claim : ℕ
  pub generation : ℕ
  pub principal : ℕ
  pub aux0 : ℕ
  pub aux1 : ℕ
  pub data_word : ℕ
  pub delta0 : ℤ
  pub delta1 : ℤ
  pub epoch : ℕ

abbrev pub tag_free : ℕ
tag_free = 0b0000

abbrev pub tag_fan_app : ℕ
tag_fan_app = 0b0100

abbrev pub tag_fan_abs : ℕ
tag_fan_abs = 0b0101

abbrev pub tag_rep_in_unpaired : ℕ
tag_rep_in_unpaired = 0b1000

abbrev pub tag_rep_in_unknown : ℕ
tag_rep_in_unknown = 0b1010

abbrev pub tag_rep_out_unknown : ℕ
tag_rep_out_unknown = 0b1011

abbrev pub tag_aux0_erased : ℕ
tag_aux0_erased = 0x40

abbrev pub tag_aux1_erased : ℕ
tag_aux1_erased = 0x80

abbrev pub tag_erasing_abs : ℕ
tag_erasing_abs = 0x10

abbrev pub tag_c1_mark : ℕ
tag_c1_mark = 0x20

-- `Slot::EMPTY`
abbrev pub empty : Slot
empty = record {
  tag = 0;
  claim = 0;
  generation = 0;
  principal = 0;
  aux0 = 0;
  aux1 = 0;
  data_word = 0;
  delta0 = pos 0;
  delta1 = pos 0;
  epoch = 0;
}

unfoldable pub is_free : Slot → Bool
is_free s = bit_and s.tag 0x0C == 0x00

unfoldable pub is_fan : Slot → Bool
is_fan s = bit_and s.tag 0x0C == 0x04

unfoldable pub is_rep : Slot → Bool
is_rep s = bit_and s.tag 0x0C == 0x08

unfoldable pub is_prim : Slot → Bool
is_prim s = bit_and s.tag 0x0E == 0x0C

unfoldable pub rep_is_unpaired : Slot → Bool
rep_is_unpaired s = bit_and s.tag 0x02 == 0

unfoldable pub fan_is_abs : Slot → Bool
fan_is_abs s = not (bit_and s.tag 0x01 == 0)

unfoldable pub fan_is_app : Slot → Bool
fan_is_app s = bit_and s.tag 0x01 == 0

unfoldable pub rep_aux1_erased : Slot → Bool
rep_aux1_erased s = not (bit_and s.tag 0x80 == 0)

unfoldable pub rep_aux0_erased : Slot → Bool
rep_aux0_erased s = not (bit_and s.tag 0x40 == 0)

unfoldable pub is_c1_marked : Slot → Bool
is_c1_marked s = not (bit_and s.tag 0x20 == 0)

-- The match on the kind, for a fan or a replicator.
polarity_of : Bool → Bool → PortKind → Polarity
polarity_of fan flipped principal = if flipped then parent else child
polarity_of true flipped aux0 = if flipped then child else parent
polarity_of true flipped aux1 = if flipped then parent else child
polarity_of false flipped _ = if flipped then child else parent

unfoldable pub polarity : Slot → PortKind → Option Polarity
unfolding is_fan is_rep polarity_of
polarity s kind =
    if not (is_fan s) && not (is_rep s)
    then none
    else some (polarity_of (is_fan s) (not (bit_and s.tag 0x01 == 0)) kind)
