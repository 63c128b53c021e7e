-- ===== src/Arena.antt =====
-- crates/dnx-core/src/arena.rs: the slots, the free ones among them, and the live ones with their
-- positions. `free` is a stack, its top first. `live_pos` is a map, so it is a function here.
pub mod Live
pub mod Alloc
use dnet.Prelude.{
  ℕ, zero, suc, ◌+◌, ◌-◌, ◌*◌, ◌%◌, ◌^◌, ◌/◌, Bool, true, false, Option, none, some, List, [], ◌∷◌,
  ◌++◌, ◌==◌, leb, ltb, length, get_elem?, set, take, if◌then◌else◌,
}
use dnet.Error.{Result, ok, err, panic, arena_capacity_exceeded}
use dnet.Slot.{Slot, empty}

abbrev pub max_slots : ℕ
max_slots = 2 ^ 28

pub record Arena : Type 0 where
  pub slots : List Slot
  pub free : List ℕ
  pub live_list : List ℕ
  pub live_pos : ℕ → Option ℕ
  pub cap : ℕ

unfoldable pub new : ℕ → Arena
new capacity = record {
  slots = empty ∷ [];
  free = [];
  live_list = [];
  live_pos = λ j. none;
  cap = if leb capacity max_slots then capacity else max_slots;
}

-- `HashMap::insert` and `remove`.
abbrev pub write_pos : (ℕ → Option ℕ) → ℕ → Option ℕ → ℕ → Option ℕ
write_pos f i v j = if j == i then v else f j

-- `Vec::swap_remove` at an index in range: the last item takes the place.
swap_out : Option ℕ → List ℕ → ℕ → List ℕ
swap_out none l i = []
swap_out (some last) l i = take (length l - 1) (set l i last)

unfoldable pub swap_remove : List ℕ → ℕ → List ℕ
unfolding swap_out
swap_remove l i = swap_out (get_elem? l (length l - 1)) l i

-- The last three lines of `alloc_slot`, and of `commit_slot`.
unfoldable pub make_live : ℕ → Arena → Arena
make_live idx a = record a {
  live_list = a.live_list ++ idx ∷ [];
  live_pos = write_pos a.live_pos idx (some (length a.live_list));
}

unfoldable pub alloc_from : List ℕ → Arena → Result ℕ × Arena
alloc_from [] a =
    let idx = length a.slots in
    if leb a.cap idx
    then (err arena_capacity_exceeded, a)
    else (ok idx, make_live idx (record a { slots = a.slots ++ empty ∷ [] }))
alloc_from (idx ∷ rest) a = elim (get_elem? a.slots idx) [
  | none ↦ (panic, a)
  | some old ↦
      let fresh = record empty { generation = (old.generation + 1) % 2 ^ 32 } in
      (ok idx, make_live idx (record a { slots = set a.slots idx fresh; free = rest }))
]

unfoldable pub alloc_slot : Arena → Result ℕ × Arena
unfolding alloc_from make_live
alloc_slot a = alloc_from a.free a

-- `if let Some(&moved) = self.live_list.get(pos)`
place_moved : Option ℕ → ℕ → (ℕ → Option ℕ) → ℕ → Option ℕ
place_moved none pos f = f
place_moved (some moved) pos f = write_pos f moved (some pos)

-- What `retire_slot` does to a slot that is live at `pos`.
forget : ℕ → ℕ → Arena → Arena
unfolding place_moved
forget idx pos a =
    let list = swap_remove a.live_list pos in
    let gone = write_pos a.live_pos idx none in
    record a { live_list = list; live_pos = place_moved (get_elem? list pos) pos gone }

retire_at : Option ℕ → ℕ → Arena → Arena
retire_at none idx a = a
retire_at (some pos) idx a = forget idx pos a

unfoldable pub retire_slot : ℕ → Arena → Arena
unfolding forget retire_at
retire_slot idx a = let a' = retire_at (a.live_pos idx) idx a in record a' { free = idx ∷ a'.free }

unfoldable pub is_live : Arena → ℕ → Bool
is_live a idx = elim (a.live_pos idx) [ none ↦ false | some pos ↦ true ]

empties : ℕ → List Slot
empties zero = []
empties (suc n) = empty ∷ empties n

-- `reserve`, with `checked_add` on `u32`.
unfoldable pub reserve : ℕ → Arena → Result ℕ × Arena
unfolding empties
reserve n a =
    let base = length a.slots in
    if leb (2 ^ 32) (base + n)
    then (err arena_capacity_exceeded, a)
    else if ltb a.cap (base + n)
    then (err arena_capacity_exceeded, a)
    else (ok base, record a { slots = a.slots ++ empties n })

unfoldable pub commit_slot : ℕ → Slot → Arena → Result (Unit {0}) × Arena
unfolding make_live
commit_slot idx slot a = elim (get_elem? a.slots idx) [
  | none ↦ (panic, a)
  | some old ↦ (ok tt, make_live idx (record a { slots = set a.slots idx slot }))
]

-- The loop of `release_reserved` over `used..max`, with the rounds that are left.
release_loop : ℕ → ℕ → List ℕ → List ℕ
release_loop zero j free = free
release_loop (suc rounds) j free = release_loop rounds (j + 1) (j ∷ free)

unfoldable pub release_reserved : ℕ → ℕ → ℕ → Arena → Arena
unfolding release_loop
release_reserved base used max a = record a {
  free = release_loop (max - used) (base + used) a.free;
}
