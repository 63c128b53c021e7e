-- ===== src/Tests/Order.antt =====
-- The two theorems on the order of a pair's ports, at two agents.
use dnet.Prelude.{◌≡◌, refl, none, [], ◌∷◌}
use dnet.LoPath.{root}
use dnet.Port
use dnet.Port.{PortId, principal, slot_idx}
use dnet.Slot
use dnet.Slot.{Slot, empty}
use dnet.Net.{Net}
use dnet.Rules.{r7_rep_rep}
use dnet.Rules.Symmetric.{r7_rep_rep_comm}

abbrev holding : Slot → Slot → Net
holding s t = record {
  arena = record {
    slots = empty ∷ s ∷ t ∷ [];
    free = [];
    live_list = 1 ∷ 2 ∷ [];
    live_pos = λ i. none;
    cap = 8;
  };
  frontier1 = [];
  frontier2 = [];
  free_slots = [];
  net_flags = 3;
}

abbrev first : PortId
first = Port.new 1 principal 0

abbrev second : PortId
second = Port.new 2 principal 0

abbrev low_rep : Slot
low_rep = record empty { tag = Slot.tag_rep_in_unpaired; data_word = 1 }

abbrev high_rep : Slot
high_rep = record empty { tag = Slot.tag_rep_in_unpaired; data_word = 3 }

r7_rep_rep_comm_example :
    r7_rep_rep first second root (holding low_rep high_rep)
    ≡ r7_rep_rep second first root (holding low_rep high_rep)
unfolding Port.new slot_idx Port.bits
r7_rep_rep_comm_example =
    r7_rep_rep_comm first second root (holding low_rep high_rep) low_rep high_rep refl refl
      (λ k. cc)
