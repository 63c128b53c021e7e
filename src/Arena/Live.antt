-- ===== src/Arena/Live.antt =====
-- The invariant of the arena, and what `retire_slot` does.
use dnet.Arena.{
  Arena, new, write_pos, swap_remove, place_moved, retire_at, forget, retire_slot, is_live,
}
use dnet.Prelude.{
  ℕ, zero, suc, ◌+◌, ◌-◌, ◌<◌, ◌≡◌, refl, ap, true, false, none, some, List, [], ◌∷◌, arith, length,
  get_elem?, set, take, get_elem?-set_self, get_elem?-set_ne, length-set, length-take, Bool-cases,
  Option-cases, inl, inr, ◌==◌, ltb, ◌⊎◌, if◌then◌else◌,
}

-- Where a number stands in a list of numbers, by recursion so that tactics read it.
abbrev pub Has : ℕ → List ℕ → Type 0
Has i [] = ⊥
Has i (x ∷ xs) = (i ≡ x) ⊎ Has i xs

abbrev pub Distinct : List ℕ → Type 0
Distinct [] = Unit
Distinct (x ∷ xs) = ¬ (Has x xs) × Distinct xs

pub record IsValid (a : Arena) : Type 0 where
  -- `live_pos` and `live_list` say the same
  pub listed : (i p : ℕ) → a.live_pos i ≡ some p → get_elem? a.live_list p ≡ some i
  pub placed : (i p : ℕ) → get_elem? a.live_list p ≡ some i → a.live_pos i ≡ some p
  -- live and free slots are slots, other than the sentinel
  pub live_in : (i p : ℕ) → a.live_pos i ≡ some p → (0 < i) × (i < length a.slots)
  pub free_in : (i : ℕ) → Has i a.free → (0 < i) × (i < length a.slots)
  -- no slot is live and free, or free twice
  pub apart : (i : ℕ) → Has i a.free → a.live_pos i ≡ none
  pub once : Distinct a.free
  pub sentinel : 0 < length a.slots

pub new-IsValid : (capacity : ℕ) → IsValid (new capacity)
unfolding new
new-IsValid capacity = record {
  listed = λ i p e. cc;
  placed = λ i p e. cc;
  live_in = λ i p e. cc;
  free_in = λ i h. absurd h;
  apart = λ i h. absurd h;
  once = tt;
  sentinel = omega arith;
}

get_elem?-take :
    (n : ℕ) (l : List ℕ) (j : ℕ)
    → get_elem? (take n l) j ≡ (if ltb j n then get_elem? l j else none)
get_elem?-take zero l j = ground arith
get_elem?-take (suc n) [] j = ground arith
get_elem?-take (suc n) (x ∷ l) zero = ground arith
get_elem?-take (suc n) (x ∷ l) (suc j) = ground (arith, get_elem?-take n l j)

pub get_elem?-lt : (l : List ℕ) (j i : ℕ) → get_elem? l j ≡ some i → j < length l
get_elem?-lt [] j i e = cc
get_elem?-lt (x ∷ l) zero i e = omega arith
get_elem?-lt (x ∷ l) (suc j) i e = omega (arith, get_elem?-lt l j i e)

-- The item at `j` after a `swap_remove` at `i`, where `last` was the last item.
get_elem?-swap_remove :
    (l : List ℕ) (i j last : ℕ)
    → i < length l
    → get_elem? l (length l - 1) ≡ some last
    → get_elem? (swap_remove l i) j
      ≡ (if ltb j (length l - 1) then (if j == i then some last else get_elem? l j) else none)
unfolding swap_remove
get_elem?-swap_remove l i j last lt e =
    rw (e, get_elem?-take (length l - 1) (set l i last) j)
      (elim (Bool-cases (j == i)) [
        | inl hit ↦
            let same : j ≡ i = ground arith in rw (hit, same, get_elem?-set_self l i last lt)
        | inr miss ↦ rw (miss, get_elem?-set_ne l {i = i} {j = j} last (ground arith))
      ])

get_elem?-some : (l : List ℕ) (j : ℕ) → j < length l → (i : ℕ) × (get_elem? l j ≡ some i)
get_elem?-some [] j lt = absurd (omega arith)
get_elem?-some (x ∷ l) zero lt = (x, refl)
get_elem?-some (x ∷ l) (suc j) lt = get_elem?-some l j (omega arith)

length-swap_remove : (l : List ℕ) (i : ℕ) → i < length l → length (swap_remove l i) ≡ length l - 1
unfolding swap_remove
length-swap_remove l i lt =
    let (last, e) = get_elem?-some l (length l - 1) (omega arith) in
    rw e (omega (arith, length-take {0} (length l - 1) (set l i last), length-set {0} l i last))

-- After a slot that was live is retired, it is free and no longer live, and no other slot has
-- become live or ceased to be.
pub record Retired (idx : ℕ) (a b : Arena) : Type 0 where
  pub valid : IsValid b
  pub slots : b.slots ≡ a.slots
  pub count : length b.live_list + 1 ≡ length a.live_list
  pub others : (j : ℕ) → is_live b j ≡ (if j == idx then false else is_live a j)
  pub top : b.free ≡ idx ∷ a.free
  pub same_cap : b.cap ≡ a.cap

module _ (idx at last : ℕ) {a : Arena} (v : IsValid a) (here : a.live_pos idx ≡ some at)
    (end : get_elem? a.live_list (length a.live_list - 1) ≡ some last) where
  in_list : at < length a.live_list
  in_list = get_elem?-lt a.live_list at idx (v.listed idx at here)

  list_after :
      (p : ℕ)
      → get_elem? (swap_remove a.live_list at) p ≡ (
          if ltb p (length a.live_list - 1)
          then (if p == at then some last else get_elem? a.live_list p)
          else none)
  list_after p = get_elem?-swap_remove a.live_list at p last in_list end

  pos_after :
      (j : ℕ)
      → place_moved (get_elem? (swap_remove a.live_list at) at) at (write_pos a.live_pos idx none) j
        ≡ (if j == idx then none else if j == last then some at else a.live_pos j)
  unfolding place_moved
  pos_after j =
      rw (list_after at)
        (ground (arith, in_list, v.listed idx at here, v.placed last (length a.live_list - 1) end))

  forget-listed :
      (i p : ℕ)
      → (forget idx at a).live_pos i ≡ some p
      → get_elem? (forget idx at a).live_list p ≡ some i
  unfolding forget
  forget-listed i p e = rw (list_after p) (
      ground (
        arith,
        in_list,
        pos_after i,
        v.listed i p,
        v.listed idx at here,
        v.placed last (length a.live_list - 1) end,
        get_elem?-lt a.live_list p i,
      ))

  forget-placed :
      (i p : ℕ)
      → get_elem? (forget idx at a).live_list p ≡ some i
      → (forget idx at a).live_pos i ≡ some p
  unfolding forget
  forget-placed i p e = rw (pos_after i) (
      ground (
        arith,
        in_list,
        list_after p,
        v.placed i p,
        v.listed idx at here,
        v.placed last (length a.live_list - 1) end,
      ))

retire_slot-eq :
    (idx at : ℕ) (a : Arena)
    → a.live_pos idx ≡ some at
    → retire_slot idx a ≡ record (forget idx at a) { free = idx ∷ a.free }
unfolding retire_slot
retire_slot-eq idx at a e =
    ap (λ o. record (retire_at o idx a) { free = idx ∷ (retire_at o idx a).free }) e

-- Retiring a live slot of a valid arena leaves a valid arena, with the same slots and capacity, one
-- live slot fewer, that slot and no other not live any more, and on top of the free ones.
pub retire_slot-Retired :
    (idx : ℕ) {a : Arena} → IsValid a → is_live a idx ≡ true → Retired idx a (retire_slot idx a)
unfolding is_live forget
retire_slot-Retired idx {a} v live = elim (Option-cases (a.live_pos idx)) [
  | inl dead ↦ absurd (ground arith)
  | inr (at, here) ↦
      let inside = get_elem?-lt a.live_list at idx (v.listed idx at here) in
      let (last, end) = get_elem?-some a.live_list (length a.live_list - 1) (omega arith) in
      let after = pos_after idx at last v here end in
      rw (retire_slot-eq idx at a here) (record {
        valid = record {
          listed = forget-listed idx at last v here end;
          placed = forget-placed idx at last v here end;
          live_in = λ i p e. ground (
            arith,
            after i,
            v.live_in i p,
            v.live_in last at,
            v.live_in idx at here,
            v.placed last (length a.live_list - 1) end,
            v.live_in last (length a.live_list - 1),
          );
          free_in = λ i h. ground (arith, v.live_in idx at here, v.free_in i);
          apart =
              λ i h. ground (arith, after i, v.apart i, v.placed last (length a.live_list - 1) end);
          once = (λ h. ground (arith, v.apart idx h), v.once);
          sentinel = v.sentinel;
        };
        slots = refl;
        count = omega (arith, length-swap_remove a.live_list at inside);
        others = λ j. ground (arith, after j, v.placed last (length a.live_list - 1) end);
        top = refl;
        same_cap = refl;
      })
]
