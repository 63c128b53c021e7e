-- ===== src/Arena/Alloc.antt =====
-- What `alloc_slot` does.
use dnet.Arena.{Arena, make_live, alloc_from, alloc_slot, retire_slot, is_live}
use dnet.Arena.Live.{Has, Distinct, IsValid, get_elem?-lt, retire_slot-Retired}
use native.Mathlib.Decide.{dec_lt}
use Prim.Native.Nat.{max}
use dnet.Slot.{Slot, empty}
use dnet.Error.{ok, err, arena_capacity_exceeded}
use dnet.Prelude.{
  ℕ, zero, suc, ◌+◌, ◌%◌, ◌^◌, ◌≤◌, ◌<◌, ◌≡◌, ◌≢◌, refl, ap, ◌∙◌, sym, subst, true, false, none,
  some, List, [], ◌∷◌, ◌++◌, arith, length, get_elem?, set, get_elem?-set_self, get_elem?-set_ne,
  length-set, Bool-cases, Option-cases, inl, inr, ◌==◌, ◌⊎◌, if◌then◌else◌, length-append,
}

module _ {ℓ} {A : Type ℓ} where
  pub get_elem?-append :
      (xs ys : List A) (j : ℕ) → j < length xs → get_elem? (xs ++ ys) j ≡ get_elem? xs j
  get_elem?-append [] ys j lt = absurd (omega arith)
  get_elem?-append (x ∷ xs) ys zero lt = refl
  get_elem?-append (x ∷ xs) ys (suc j) lt = get_elem?-append xs ys j (omega arith)

  pub get_elem?-snoc : (xs : List A) (y : A) → get_elem? (xs ++ y ∷ []) (length xs) ≡ some y
  get_elem?-snoc [] y = refl
  get_elem?-snoc (x ∷ xs) y = get_elem?-snoc xs y

  pub get_elem?-in : (l : List A) (j : ℕ) → j < length l → (x : A) × (get_elem? l j ≡ some x)
  get_elem?-in [] j lt = absurd (omega arith)
  get_elem?-in (x ∷ l) zero lt = (x, refl)
  get_elem?-in (x ∷ l) (suc j) lt = get_elem?-in l j (omega arith)

  pub get_elem?-out : (l : List A) (j : ℕ) → length l ≤ j → get_elem? l j ≡ none
  get_elem?-out [] j le = refl
  get_elem?-out (x ∷ l) zero le = absurd (omega arith)
  get_elem?-out (x ∷ l) (suc j) le = get_elem?-out l j (omega arith)

-- The slot `idx`, not live before, is live, and no other has become live or ceased to be.
pub record Allocated (idx : ℕ) (a b : Arena) : Type 0 where
  pub valid : IsValid b
  pub unused : is_live a idx ≡ false
  pub others : (j : ℕ) → is_live b j ≡ (if j == idx then true else is_live a j)
  pub count : length b.live_list ≡ length a.live_list + 1
  pub grown : length a.slots ≤ length b.slots
  pub bounded : length b.slots ≤ max (length a.slots) a.cap
  pub same_cap : b.cap ≡ a.cap
  pub inside : (0 < idx) × (idx < length b.slots)
  pub fresh : (g : ℕ) × (get_elem? b.slots idx ≡ some (record empty { generation = g }))
  pub past : (j : ℕ) → length a.slots ≤ j → j ≢ idx → get_elem? b.slots j ≡ none
  pub kept : (j : ℕ) → j < length a.slots → j ≢ idx → get_elem? b.slots j ≡ get_elem? a.slots j

get_elem?-last :
    (xs : List ℕ) (y j i : ℕ)
    → get_elem? (xs ++ y ∷ []) j ≡ some i
    → ((j ≡ length xs) × (i ≡ y)) ⊎ (get_elem? xs j ≡ some i)
get_elem?-last [] y zero i e = inl (refl, ground arith)
get_elem?-last [] y (suc j) i e = cc
get_elem?-last (x ∷ xs) y zero i e = inr e
get_elem?-last (x ∷ xs) y (suc j) i e = elim (get_elem?-last xs y j i e) [
  | inl (p, q) ↦ inl (ap suc p, q)
  | inr h ↦ inr h
]

-- A slot that is neither live nor free may be made live.
make_live-IsValid :
    (idx : ℕ) {a : Arena}
    → IsValid a
    → a.live_pos idx ≡ none
    → ¬ (Has idx a.free)
    → 0 < idx
    → idx < length a.slots
    → IsValid (make_live idx a)
unfolding make_live
make_live-IsValid idx {a} v dead busy pos lt = record {
  listed = λ i p e. ground (
    arith,
    get_elem?-snoc a.live_list idx,
    v.listed i p,
    get_elem?-lt a.live_list p i,
    get_elem?-append a.live_list (idx ∷ []) p,
  );
  placed = λ i p e. elim (get_elem?-last a.live_list idx p i e) [
    | inl (end, same) ↦ ground arith
    | inr old ↦ ground (arith, v.placed i p old)
  ];
  live_in = λ i p e. ground (arith, v.live_in i p);
  free_in = v.free_in;
  apart = λ i h. elim (Bool-cases (i == idx)) [
    | inl same ↦ absurd (busy (subst (λ j. Has j a.free) (ground arith) h))
    | inr other ↦ rw other (v.apart i h)
  ];
  once = v.once;
  sentinel = v.sentinel;
}

-- A new slot at the end, or one of the free ones made empty, before it is made live.
append-IsValid :
    {a : Arena} (s : Slot) → IsValid a → IsValid (record a { slots = a.slots ++ s ∷ [] })
append-IsValid {a} s v = record {
  listed = v.listed;
  placed = v.placed;
  live_in = λ i p e. omega (arith, v.live_in i p e, length-append {0} a.slots (s ∷ []));
  free_in = λ i h. omega (arith, v.free_in i h, length-append {0} a.slots (s ∷ []));
  apart = v.apart;
  once = v.once;
  sentinel = omega (arith, v.sentinel, length-append {0} a.slots (s ∷ []));
}

reuse-IsValid :
    {a : Arena} (idx : ℕ) (rest : List ℕ) (s : Slot)
    → IsValid a
    → a.free ≡ idx ∷ rest
    → IsValid (record a { slots = set a.slots idx s; free = rest })
reuse-IsValid {a} idx rest s v e =
    let once : Distinct (idx ∷ rest) = subst Distinct e v.once in
    record {
      listed = v.listed;
      placed = v.placed;
      live_in = λ i p h. omega (arith, v.live_in i p h, length-set {0} a.slots idx s);
      free_in = λ i h.
          omega (arith, v.free_in i (subst (Has i) (sym e) (inr h)), length-set {0} a.slots idx s);
      apart = λ i h. v.apart i (subst (Has i) (sym e) (inr h));
      once = once.1;
      sentinel = omega (arith, v.sentinel, length-set {0} a.slots idx s);
    }

-- What making a slot live does to the arena that it joined.
made-Allocated :
    (idx g : ℕ) {a b : Arena}
    → IsValid a
    → IsValid b
    → ¬ (Has idx b.free)
    → a.live_pos idx ≡ none
    → 0 < idx
    → idx < length b.slots
    → length a.slots ≤ length b.slots
    → length b.slots ≤ max (length a.slots) a.cap
    → b.cap ≡ a.cap
    → b.live_pos ≡ a.live_pos
    → b.live_list ≡ a.live_list
    → get_elem? b.slots idx ≡ some (record empty { generation = g })
    → ((j : ℕ) → length a.slots ≤ j → j ≢ idx → get_elem? b.slots j ≡ none)
    → ((j : ℕ) → j < length a.slots → j ≢ idx → get_elem? b.slots j ≡ get_elem? a.slots j)
    → Allocated idx a (make_live idx b)
unfolding is_live make_live
made-Allocated idx g {a} {b} v w busy dead low high grew bound cap same list new beyond old =
    record {
      valid = make_live-IsValid idx w (ap (λ f. f idx) same ∙ dead) busy low high;
      unused = rw (dead, is_live);
      others = λ j. ground (arith, ap (λ f. f j) same);
      count = omega (arith, length-append {0} b.live_list (idx ∷ []), ap (λ l. length l) list);
      grown = grew;
      bounded = bound;
      same_cap = cap;
      inside = (low, high);
      fresh = (g, new);
      past = beyond;
      kept = old;
    }

full-arena :
    (a : Arena)
    → a.free ≡ []
    → a.cap ≤ length a.slots
    → alloc_slot a ≡ (err arena_capacity_exceeded, a)
unfolding alloc_slot alloc_from
full-arena a e le = ap (λ f. alloc_from f a) e ∙ ground arith

module _ {a : Arena} (v : IsValid a) where
  -- With no free slot the arena grows, up to its capacity.
  pub alloc-grow :
      a.free ≡ []
      → length a.slots < a.cap
      → (b : Arena) × (alloc_slot a ≡ (ok (length a.slots), b)) × Allocated (length a.slots) a b
  unfolding alloc_slot alloc_from
  alloc-grow drained room = (
    make_live (length a.slots) (record a { slots = a.slots ++ empty ∷ [] }),
    ap (λ f. alloc_from f a) drained ∙ ground arith,
    made-Allocated (length a.slots) 0 v (append-IsValid empty v)
        (λ h. subst (Has (length a.slots)) drained h) (dead-past) v.sentinel
        (omega (arith, length-append {0} a.slots (empty ∷ [])))
        (omega (arith, length-append {0} a.slots (empty ∷ [])))
        (omega (arith, length-append {0} a.slots (empty ∷ []))) refl refl refl
        (get_elem?-snoc a.slots empty)
        (λ j le ne.
          get_elem?-out (a.slots ++ empty ∷ []) j
            (omega (arith, length-append {0} a.slots (empty ∷ []))))
        (λ j lt ne. get_elem?-append a.slots (empty ∷ []) j lt),
  )
    where
      dead-past : a.live_pos (length a.slots) ≡ none
      dead-past = elim (Option-cases (a.live_pos (length a.slots))) [
        | inl e ↦ e
        | inr (p, e) ↦ absurd (omega (arith, v.live_in (length a.slots) p e))
      ]

  -- A free slot is used again, emptied, its generation one further.
  pub alloc-reuse :
      (idx : ℕ) (rest : List ℕ) (old : Slot)
      → a.free ≡ idx ∷ rest
      → get_elem? a.slots idx ≡ some old
      → (b : Arena) × (alloc_slot a ≡ (ok idx, b))
        × Allocated idx a b
        × (get_elem? b.slots idx
            ≡ some (record empty { generation = (old.generation + 1) % 2 ^ 32 }))
  unfolding alloc_slot alloc_from make_live
  alloc-reuse idx rest old e found =
      let fresh = record empty { generation = (old.generation + 1) % 2 ^ 32 } in
      let top : Has idx a.free = subst (Has idx) (sym e) (inl refl) in
      let inside = v.free_in idx top in
      let once : Distinct (idx ∷ rest) = subst Distinct e v.once in
      let new = get_elem?-set_self a.slots idx fresh inside.1 in
      (
        make_live idx (record a { slots = set a.slots idx fresh; free = rest }),
        ap (λ f. alloc_from f a) e ∙ rw (found, alloc_from),
        made-Allocated idx ((old.generation + 1) % 2 ^ 32) v (reuse-IsValid idx rest fresh v e)
            once.0 (v.apart idx top) inside.0
            (omega (arith, inside, length-set {0} a.slots idx fresh))
            (omega (arith, length-set {0} a.slots idx fresh))
            (omega (arith, length-set {0} a.slots idx fresh)) refl refl refl new
            (λ j le ne.
              get_elem?-out (set a.slots idx fresh) j
                (omega (arith, length-set {0} a.slots idx fresh)))
            (λ j lt ne. get_elem?-set_ne a.slots {i = idx} {j = j} fresh (λ q. ne (sym q))),
        new,
      )

  -- `alloc_slot`, in a valid arena, fails only when no slot is free and the capacity is reached,
  -- and then changes nothing. Else it leaves a valid arena in which an empty slot that was not live
  -- is live, and no other slot has changed.
  pub alloc_slot_lem :
      ((a.free ≡ []) × (a.cap ≤ length a.slots) × (alloc_slot a ≡ (err arena_capacity_exceeded, a)))
      ⊎ ((idx : ℕ) × (b : Arena) × (alloc_slot a ≡ (ok idx, b)) × Allocated idx a b)
  alloc_slot_lem = on_free a.free refl
    where
      on_free :
          (f : List ℕ)
          → a.free ≡ f
          → ((a.free ≡ [])
              × (a.cap ≤ length a.slots)
              × (alloc_slot a ≡ (err arena_capacity_exceeded, a)))
            ⊎ ((idx : ℕ) × (b : Arena) × (alloc_slot a ≡ (ok idx, b)) × Allocated idx a b)
      on_free [] e = elim (dec_lt (length a.slots) a.cap) [
        | yes room ↦ let (b, did, al) = alloc-grow e room in inr (length a.slots, b, did, al)
        | no over ↦ inl (e, omega arith, full-arena a e (omega arith))
      ]
      on_free (idx ∷ rest) e =
          let (old, found) =
            get_elem?-in a.slots idx
              (omega (arith, v.free_in idx (subst (Has idx) (sym e) (inl refl)))) in
          let (b, did, al, new) = alloc-reuse idx rest old e found in inr (idx, b, did, al)

-- In a valid arena a live slot that is retired is the next one given out, empty, and the parity of
-- its generation, the part of it that a port holds, is the other one.
pub retire-alloc :
    (idx : ℕ) (old : Slot) {a : Arena}
    → IsValid a
    → is_live a idx ≡ true
    → get_elem? a.slots idx ≡ some old
    → (b : Arena) × (g : ℕ) × (alloc_slot (retire_slot idx a) ≡ (ok idx, b))
      × (is_live b idx ≡ true)
      × (get_elem? b.slots idx ≡ some (record empty { generation = g }))
      × (g % 2 ≢ old.generation % 2)
retire-alloc idx old {a} v live found =
    let r = retire_slot-Retired idx v live in
    let (b, did, al, new) =
      alloc-reuse r.valid idx a.free old r.top (ap (λ l. get_elem? l idx) r.slots ∙ found) in
    (b, (old.generation + 1) % 2 ^ 32, did, al.others idx ∙ ground arith, new, omega arith)
