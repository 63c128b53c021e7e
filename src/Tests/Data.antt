-- ===== src/Tests/Data.antt =====
-- The theorems on ports, slots, paths and the arena at concrete inputs.
use dnet.Prelude.{
  ℕ, ◌*◌, ◌%◌, ◌^◌, ◌<◌, ◌≤◌, ◌≡◌, ◌≢◌, ◌⊎◌, ◌&&◌, refl, true, false, not, arith, none, some, [],
  ◌∷◌, get_elem?, length,
}
use dnet.Error.{ok, err, lo_path_depth_exceeded, arena_capacity_exceeded}
use dnet.LoPath.{LoPath, root, cmp, is_prefix_of, prefix_independent, extend_bit, promote, push_bit}
use dnet.LoPath.Pack.{lex}
use dnet.LoPath.Turns.{walk, walk_total, Holds}
use dnet.LoPath.Order.{cmp-walk}
use dnet.LoPath.Prefix.{starts, is_prefix_of-walk}
use dnet.Port
use dnet.Port.{principal, aux0, aux1, slot_idx, port_kind, gen_low, is_eraser}
use dnet.Port.Fields.{new_fields}
use dnet.Slot.{Slot, empty}
use dnet.Arena.{Arena, alloc_slot, retire_slot, is_live}
use dnet.Arena.Live.{Retired, retire_slot-Retired}
use dnet.Arena.Alloc.{Allocated, alloc_slot_lem, retire-alloc, get_elem?-in}
use dnet.Net.Chain.{live-inside}
use dnet.Tests.Nets.{redex, redex-IsSafe, redex-Pair, first}

-- Right, left, right; and right, left.
abbrev three : LoPath
three = record { hot = 5 * 2 ^ 125; warm = none; cold = none; frozen = none; len = 3 }

abbrev two : LoPath
two = record { hot = 2 ^ 127; warm = none; cold = none; frozen = none; len = 2 }

walk-three : walk root (true ∷ false ∷ true ∷ []) ≡ ok three
unfolding walk extend_bit promote push_bit
walk-three = refl

walk-two : walk root (true ∷ false ∷ []) ≡ ok two
unfolding walk extend_bit promote push_bit
walk-two = refl

walk_total_example :
    ((length (true ∷ false ∷ []) ≤ 512)
      × (p : LoPath) × (walk root (true ∷ false ∷ []) ≡ ok p)
      × Holds p (true ∷ false ∷ []))
    ⊎ ((512 < length (true ∷ false ∷ []))
        × (walk root (true ∷ false ∷ []) ≡ err lo_path_depth_exceeded))
walk_total_example = walk_total (true ∷ false ∷ [])

cmp-walk_example : cmp three two ≡ lex (true ∷ false ∷ true ∷ []) (true ∷ false ∷ [])
cmp-walk_example = cmp-walk (true ∷ false ∷ true ∷ []) (true ∷ false ∷ []) walk-three walk-two

is_prefix_of-walk_example :
    (is_prefix_of two three ≡ starts (true ∷ false ∷ []) (true ∷ false ∷ true ∷ []))
    × (prefix_independent two three ≡ (
        not (starts (true ∷ false ∷ []) (true ∷ false ∷ true ∷ []))
        && not (starts (true ∷ false ∷ true ∷ []) (true ∷ false ∷ []))))
is_prefix_of-walk_example =
    is_prefix_of-walk (true ∷ false ∷ []) (true ∷ false ∷ true ∷ []) walk-two walk-three

new_fields_example :
    (slot_idx (Port.new 7 aux1 3) ≡ 7)
    × (port_kind (Port.new 7 aux1 3) ≡ aux1)
    × (gen_low (Port.new 7 aux1 3) ≡ 3 % 2)
    × (is_eraser (Port.new 7 aux1 3) ≡ false)
    × (Port.new 7 aux1 3 < 2 ^ 32)
new_fields_example = new_fields 7 aux1 3 (omega arith)

abbrev used : Arena
used = redex.arena

retire_slot_example : Retired (slot_idx first) used (retire_slot (slot_idx first) used)
retire_slot_example = retire_slot-Retired (slot_idx first) redex-IsSafe.valid redex-Pair.live_p

alloc_slot_example :
    ((used.free ≡ [])
      × (used.cap ≤ length used.slots)
      × (alloc_slot used ≡ (err arena_capacity_exceeded, used)))
    ⊎ ((idx : ℕ) × (b : Arena) × (alloc_slot used ≡ (ok idx, b)) × Allocated idx used b)
alloc_slot_example = alloc_slot_lem redex-IsSafe.valid

slot_found : (s : Slot) × (get_elem? used.slots (slot_idx first) ≡ some s)
slot_found =
    get_elem?-in used.slots (slot_idx first)
      (live-inside (slot_idx first) redex-IsSafe redex-Pair.live_p).0

retire-alloc_example :
    (b : Arena) × (g : ℕ) × (alloc_slot (retire_slot (slot_idx first) used)
      ≡ (ok (slot_idx first), b))
    × (is_live b (slot_idx first) ≡ true)
    × (get_elem? b.slots (slot_idx first) ≡ some (record empty { generation = g }))
    × (g % 2 ≢ slot_found.0.generation % 2)
retire-alloc_example =
    retire-alloc (slot_idx first) slot_found.0 redex-IsSafe.valid redex-Pair.live_p slot_found.1
