-- ===== src/Canon/Sweep.antt =====
-- crates/dnx-core/src/reduce/canon.rs, `c1_mark_sweep`: what is not marked is retired.
use dnet.Prelude.{
  ℕ, zero, suc, ◌-◌, ◌≡◌, ◌≢◌, inl, inr, refl, sym, ap, ◌∙◌, subst, bit_and, Bool, true, false,
  Bool-cases, some, List, [], ◌∷◌, arith, ◌==◌, get_elem?, get_elem?-set_ne, if◌then◌else◌,
}
use dnet.Slot
use dnet.Slot.{Slot, is_c1_marked}
use dnet.Arena
use dnet.Arena.Live.{Has, Distinct}
use dnet.Net.{Net, Action, modify_slot, retire, clear_pending_c1}
use dnet.Net.Safe.{
  is_live, IsSafe, IsWired, Returns, returns, set_slots-Returns, and_then-Returns, slot_at-bind,
}
use dnet.Net.Keeps.{mono-Returns, retire-Returns, other-Returns}
use dnet.Net.Chain.{live-inside, live-pos}
use dnet.Canon.{sweep, c1_mark_sweep}
use dnet.Canon.Sure.{Succeeds, Sure-Succeeds, c1_mark_sweep-Sure}
use dnet.Canon.Mark.{mark_of, marked, Reached, same_or_not, Returns-IsSafe}
use dnet.Canon.Mark.Loop.{Unmarked, Marks, mark_from_roots-Marks}

abbrev without_mark : Slot → Slot
without_mark s = record s { tag = bit_and s.tag (255 - Slot.tag_c1_mark) }

without_mark-IsWired : {n : Net} {s : Slot} → IsWired n s → IsWired n (without_mark s)
without_mark-IsWired w = record {
  at_principal = w.at_principal;
  at_aux0 = w.at_aux0;
  at_aux1 = w.at_aux1;
}

-- Of the slots listed those stay live that are marked, and of the others those that were.
abbrev Swept : Net → List ℕ → Net → Type 0
Swept m l m' =
    (j : ℕ) → (Has j l → is_live m' j ≡ marked m j) × (¬ (Has j l) → is_live m' j ≡ is_live m j)

-- One slot, live and not listed further on, is dealt with.
record Turned (m : Net) (i : ℕ) (m' : Net) : Type 0 where
  here : is_live m' i ≡ marked m i
  lives : (j : ℕ) → j ≢ i → is_live m' j ≡ is_live m j
  marks : (j : ℕ) → j ≢ i → marked m' j ≡ marked m j

turn-Swept :
    {m m' : Net} {i : ℕ} (m'' : Net) (l : List ℕ)
    → ¬ (Has i l)
    → Turned m i m'
    → Swept m' l m''
    → Swept m (i ∷ l) m''
turn-Swept {m} {m'} {i} m'' l apart t s j = elim (same_or_not j i) [
  | inl same ↦ (
    λ h. subst (λ j. is_live m'' j ≡ marked m j) (sym same) ((s i).1 apart ∙ t.here),
    λ no. absurd (no (inl same)),
  )
  | inr ne ↦ (
    λ h. elim h [ inl same ↦ absurd (ne same) | inr later ↦ (s j).0 later ∙ t.marks j ne ],
    λ no. (s j).1 (λ h. no (inr h)) ∙ t.lives j ne,
  )
]

abbrev sweep_turn : ℕ → Slot → Action (Unit {0})
sweep_turn i s =
    if is_c1_marked s
    then modify_slot i (λ s. record s { tag = bit_and s.tag (255 - Slot.tag_c1_mark) })
    else retire i

sweep_turn-Turned :
    (m : Net) (i : ℕ) (s : Slot)
    → IsSafe m
    → is_live m i ≡ true
    → get_elem? m.arena.slots i ≡ some s
    → IsWired m s
    → Returns (λ _. Turned m i) (sweep_turn i s m)
unfolding modify_slot mark_of Arena.is_live
sweep_turn-Turned m i s safe live e w = elim (Bool-cases (is_c1_marked s)) [
  | inl is ↦
      rw (is, e, modify_slot)
        (returns
          (Returns-IsSafe (
            set_slots-Returns i (without_mark s) safe (live-inside i safe live).0
              (without_mark-IsWired w)))
          (record {
            here = live ∙ sym (ap mark_of e ∙ is);
            lives = λ j ne. refl;
            marks = λ j ne.
                ap mark_of (
                  get_elem?-set_ne m.arena.slots {i = i} {j = j} (without_mark s)
                    (λ e. ne (sym e)));
          }))
  | inr clear ↦ rw clear (
      mono-Returns (retire-Returns i safe live) (λ _ m' f. record {
        here = here_gone (is_live m' i) (is_live m i) (f.live_kept i) ∙ sym (ap mark_of e ∙ clear);
        lives = λ j ne. let kept = f.live_kept j in ground arith;
        marks = λ j ne. ap (λ l. mark_of (get_elem? l j)) f.slots_kept;
      }))
]
  where
    here_gone : (a b : Bool) → a ≡ (if i == i then false else b) → a ≡ false
    here_gone a b e = ground arith

sweep-Swept :
    (m : Net) (l : List ℕ)
    → IsSafe m
    → Distinct l
    → ((j : ℕ) → Has j l → is_live m j ≡ true)
    → Returns (λ _. Swept m l) (sweep l m)
unfolding sweep
sweep-Swept m [] safe d live = returns safe (λ j. (λ h. elim h [ ], λ no. refl))
sweep-Swept m (i ∷ l) safe (apart, d) live =
    slot_at-bind i _ safe (live-inside i safe (live i (inl refl))).0 (λ s e w.
      and_then-Returns (sweep_turn-Turned m i s safe (live i (inl refl)) e w) (λ u m' safe' t.
        mono-Returns
          (sweep-Swept m' l safe' d
            (λ j h. t.lives j (λ same. apart (subst (λ j. Has j l) same h)) ∙ live j (inr h)))
          (λ u m'' s. turn-Swept m'' l apart t s)))

position : (i : ℕ) (l : List ℕ) → Has i l → (p : ℕ) × (get_elem? l p ≡ some i)
position i (x ∷ l) (inl e) = (0, ap some (sym e))
position i (x ∷ l) (inr h) = let (p, e) = position i l h in (suc p, e)
position i [] h = elim h [ ]

listed_at : (i p : ℕ) (l : List ℕ) → get_elem? l p ≡ some i → Has i l
listed_at i p [] e = cc
listed_at i zero (x ∷ l) e = inl (cc)
listed_at i (suc p) (x ∷ l) e = inr (listed_at i p l e)

all_apart :
    (l : List ℕ)
    → ((i p q : ℕ) → get_elem? l p ≡ some i → get_elem? l q ≡ some i → p ≡ q)
    → Distinct l
all_apart [] once = tt
all_apart (x ∷ l) once = (
  λ h. let (p, e) = position x l h in let same = once x 0 (suc p) refl e in omega arith,
  all_apart l (λ i p q e e'. let same = once i (suc p) (suc q) e e' in omega arith),
)

live_list-Distinct : (m : Net) → IsSafe m → Distinct m.arena.live_list
live_list-Distinct m safe =
    all_apart m.arena.live_list
      (λ i p q e e'. injective (sym (safe.valid.placed i p e) ∙ safe.valid.placed i q e'))
  where
    injective : {p q : ℕ} → some p ≡ some q → p ≡ q
    injective e = cc

listed-live : (m : Net) → IsSafe m → (j : ℕ) → Has j m.arena.live_list → is_live m j ≡ true
unfolding Arena.is_live
listed-live m safe j h =
    let (p, e) = position j m.arena.live_list h in
    let found = safe.valid.placed j p e in rw (found, Arena.is_live) refl

live-listed : (m : Net) → IsSafe m → (j : ℕ) → is_live m j ≡ true → Has j m.arena.live_list
live-listed m safe j live =
    let (p, e) = live-pos m j live in listed_at j p m.arena.live_list (safe.valid.listed j p e)

-- The live slots are those that were live and are reached.
abbrev pub Collected : Net → Net → Type 0
Collected n m =
    (j : ℕ)
    → (is_live m j ≡ true → (is_live n j ≡ true) × Reached n j)
      × ((is_live n j ≡ true) × Reached n j → is_live m j ≡ true)

Swept-Collected :
    (n m m' : Net) → IsSafe m → Marks n m → Swept m m.arena.live_list m' → Collected n m'
Swept-Collected n m m' safe marks s j = (
  λ live. there live,
  λ (live, from).
      (s j).0 (live-listed m safe j (marks.same_wires.lives j ∙ live))
      ∙ marks.reached_marked j from,
)
  where
    there : is_live m' j ≡ true → (is_live n j ≡ true) × Reached n j
    there live = elim (Bool-cases (is_live m j)) [
      | inl was ↦ (
        sym (marks.same_wires.lives j) ∙ was,
        marks.marked_reached j (sym ((s j).0 (live-listed m safe j was)) ∙ live),
      )
      | inr dead ↦ let still = (s j).1 (λ h. let is = listed-live m safe j h in cc) in cc
    ]

-- The same, where an error is not excluded yet.
c1_mark_sweep-Returns :
    (n : Net)
    → IsSafe n
    → Unmarked n
    → Returns (λ r m. (r ≡ some tt) × Collected n m) (c1_mark_sweep n)
unfolding c1_mark_sweep clear_pending_c1 Arena.is_live
c1_mark_sweep-Returns n safe u =
    and_then-Returns (mark_from_roots-Marks n safe u) (λ r m safe' (r_eq, marks).
      and_then-Returns
        (sweep-Swept m m.arena.live_list safe' (live_list-Distinct m safe') (listed-live m safe'))
        (λ v m' safe'' s.
          and_then-Returns (other-Returns m'.frontier1 m'.frontier2 m'.free_slots _ safe'')
            (λ w m'' safe3 same. returns safe3 (
              r_eq,
              λ j.
                  let (p, q) = Swept-Collected n m m' safe' marks s j in
                  (λ live. p (sym (same.live_same j) ∙ live), λ h. same.live_same j ∙ q h),
            ))))

-- The erasure of what is not reachable, `c1_mark_sweep`, in a safe net whose roots lead to slots
-- and in which no slot has the mark, comes to its end within a turn for each slot, with neither an
-- error nor a panic, and leaves a safe net in which those slots are live that were live and are
-- reached from a root over any number of wires.
pub c1_mark_sweep-Collected :
    (n : Net)
    → IsSafe n
    → Unmarked n
    → Succeeds (λ r m. (r ≡ some tt) × Collected n m) (c1_mark_sweep n)
c1_mark_sweep-Collected n safe u =
    Sure-Succeeds (c1_mark_sweep-Sure n) (c1_mark_sweep-Returns n safe u)
