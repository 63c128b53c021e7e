-- ===== src/Canon/Mark/Loop.antt =====
-- crates/dnx-core/src/reduce/canon.rs, `c1_mark_sweep`: the loop ends, and marks what is reached from the roots.
use dnet.Prelude.{
  ℕ, zero, suc, ◌+◌, ◌≤◌, ◌<◌, ◌≡◌, ◌≢◌, ◌⊎◌, inl, inr, refl, sym, ap, ◌∙◌, subst, true, false,
  some, List, [], ◌∷◌, arith, length, get_elem?,
}
use dnet.Arena.Live.{Has}
use dnet.Slot.{Slot}
use dnet.Net.{Net}
use dnet.Net.Safe.{size, IsSafe, IsWired, Returns, returns, and_then-Returns, slot_at-bind}
use dnet.Net.Keeps.{mono-Returns}
use dnet.Canon.{mark_reachable, mark_from_roots, root_slots}
use dnet.Canon.Mark.{
  marked, wires, Reached, reached_root, reached_wire, left_over, SameWires, SameWires-trans, Grown,
  mark_each-Grown, unmarked-length,
}

-- Where the wires of a slot lead is marked.
abbrev Closed : Net → Net → ℕ → Type 0
Closed n m j =
    (s : Slot)
    → get_elem? n.arena.slots j ≡ some s
    → (k : ℕ) → Has k (wires s)
    → k ≢ 0
    → marked m k ≡ true

-- Before a turn of the loop: the slots that wait are marked, the others that are marked have been dealt with.
record Frontier (n m : Net) (q : List ℕ) : Type 0 where
  same_wires : SameWires n m
  sound : (j : ℕ) → marked m j ≡ true → Reached n j
  waiting : (j : ℕ) → Has j q → (marked m j ≡ true) × (j < size m)
  closed : (j : ℕ) → marked m j ≡ true → Has j q ⊎ Closed n m j

turn-Frontier :
    {n m m' : Net} {i : ℕ} {q q' : List ℕ} (t : Slot)
    → Frontier n m (i ∷ q)
    → get_elem? m.arena.slots i ≡ some t
    → Grown n m q m' q'
    → ((j : ℕ) → Has j (wires t) → j ≢ 0 → marked m' j ≡ true)
    → Frontier n m' q'
turn-Frontier {n} {m} {m'} {i} {q} {q'} t f e g all = record {
  same_wires = SameWires-trans f.same_wires g.same_wires;
  sound = λ j h. elim (g.fresh j h) [ inl old ↦ f.sound j old | inr (at, from) ↦ from ];
  waiting = λ j h. elim (g.entered j h) [
    | inl old ↦
        let (is, lt) = f.waiting j (inr old) in (g.keeps j is, omega (arith, g.same_wires.sized))
    | inr (is, lt) ↦ (is, omega (arith, g.same_wires.sized))
  ];
  closed = λ j h. elim (g.fresh j h) [
    | inl old ↦ elim (f.closed j old) [
      | inl waits ↦ elim waits [
        | inl same ↦ inr (λ s at k to ne.
            all k (here s (ap (λ k. get_elem? n.arena.slots k) (sym same) ∙ at) k to) ne)
        | inr later ↦ inl (g.queued j later)
      ]
      | inr closed ↦ inr (λ s at k to ne. g.keeps k (closed s at k to ne))
    ]
    | inr (at, from) ↦ inl at
  ];
}
  where
    here :
        (s : Slot)
        → get_elem? n.arena.slots i ≡ some s
        → (k : ℕ) → Has k (wires s)
        → Has k (wires t)
    here s at k to =
        let (s', (at', same)) = f.same_wires.wired_as i t e in
        let eq : s ≡ s' = cc in subst (Has k) (ap wires eq ∙ same) to

wires-in : {m : Net} {t : Slot} → IsWired m t → (j : ℕ) → Has j (wires t) → j < size m
wires-in w j (inl e) = let at = w.at_principal in omega arith
wires-in w j (inr (inl e)) = let at = w.at_aux0 in omega arith
wires-in w j (inr (inr (inl e))) = let at = w.at_aux1 in omega arith
wires-in w j (inr (inr (inr h))) = elim h [ ]

-- The loop comes to its end, with no slot waiting.
mark_reachable-Frontier :
    (fuel : ℕ) (n m : Net) (q : List ℕ)
    → IsSafe m
    → Frontier n m q
    → length q + left_over m ≤ fuel
    → Returns
        (λ r m'.
          (r ≡ some tt) × (Frontier n m' [] × ((j : ℕ) → marked m j ≡ true → marked m' j ≡ true)))
        (mark_reachable fuel q m)
unfolding mark_reachable
mark_reachable-Frontier fuel n m [] safe f le = returns safe (refl, (f, λ j h. h))
mark_reachable-Frontier zero n m (i ∷ q) safe f le = absurd (omega arith)
mark_reachable-Frontier (suc fuel) n m (i ∷ q) safe f le =
    let (is, lt) = f.waiting i (inl refl) in
    slot_at-bind i _ safe lt (λ t e w.
      and_then-Returns
        (mark_each-Grown n m (wires t) q safe (λ j h. (wires-in w j h, λ ne. next t e j h ne is)))
        (λ q' m' safe' (g, all).
          let less = g.measure in
          mono-Returns
            (mark_reachable-Frontier fuel n m' q' safe' (turn-Frontier t f e g all) (omega arith))
            (λ r m'' (r_eq, (f'', kept)). (r_eq, (f'', λ j h. kept j (g.keeps j h))))))
  where
    next :
        (t : Slot)
        → get_elem? m.arena.slots i ≡ some t
        → (j : ℕ) → Has j (wires t)
        → j ≢ 0
        → marked m i ≡ true
        → Reached n j
    next t e j h ne is =
        let (s, (at, same)) = f.same_wires.wired_as i t e in
        reached_wire i j s (f.sound i is) at (subst (Has j) (sym same) h) ne

-- Every root leads to a slot, and no slot has the mark.
pub record Unmarked (n : Net) : Type 0 where
  pub rooted : (i : ℕ) → Has i (root_slots n.free_slots) → i < size n
  pub clear : (i : ℕ) → marked n i ≡ false

-- The marked slots are those that are reached.
pub record Marks (n m : Net) : Type 0 where
  pub same_wires : SameWires n m
  pub marked_reached : (j : ℕ) → marked m j ≡ true → Reached n j
  pub reached_marked : (j : ℕ) → Reached n j → marked m j ≡ true

frontier-Marks :
    (n m : Net)
    → Frontier n m []
    → ((j : ℕ) → Has j (root_slots n.free_slots) → j ≢ 0 → marked m j ≡ true)
    → Marks n m
frontier-Marks n m f roots = record {
  same_wires = f.same_wires;
  marked_reached = f.sound;
  reached_marked = go;
}
  where
    go : (j : ℕ) → Reached n j → marked m j ≡ true
    go j (reached_root i at ne) = roots i at ne
    go j (reached_wire i k s from at to ne) = elim (f.closed i (go i from)) [
      | inl waits ↦ elim waits [ ]
      | inr closed ↦ closed s at k to ne
    ]

pub mark_from_roots-Marks :
    (n : Net)
    → IsSafe n
    → Unmarked n
    → Returns (λ r m. (r ≡ some tt) × Marks n m) (mark_from_roots n)
unfolding mark_from_roots
mark_from_roots-Marks n safe u =
    and_then-Returns
      (mark_each-Grown n n (root_slots n.free_slots) [] safe
        (λ j h. (u.rooted j h, λ ne. reached_root j h ne)))
      (λ q m safe' (g, roots).
        let less = g.measure in
        let most = unmarked-length n.arena.slots in
        mono-Returns (mark_reachable-Frontier (size n) n m q safe' (start g) (omega arith))
          (λ r m' (r_eq, (f, kept)).
            (r_eq, frontier-Marks n m' f (λ j h ne. kept j (roots j h ne)))))
  where
    none_marked : (j : ℕ) → marked n j ≡ true → ⊥
    none_marked j h = let no_mark = u.clear j in cc

    start : {m : Net} {q : List ℕ} → Grown n n [] m q → Frontier n m q
    start g = record {
      same_wires = g.same_wires;
      sound = λ j h. elim (g.fresh j h) [
        | inl old ↦ absurd (none_marked j old)
        | inr (at, from) ↦ from
      ];
      waiting = λ j h. elim (g.entered j h) [
        | inl old ↦ elim old [ ]
        | inr (is, lt) ↦ (is, omega (arith, g.same_wires.sized))
      ];
      closed = λ j h. elim (g.fresh j h) [
        | inl old ↦ absurd (none_marked j old)
        | inr (at, from) ↦ inl at
      ];
    }
