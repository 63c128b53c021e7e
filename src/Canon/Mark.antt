-- ===== src/Canon/Mark.antt =====
-- crates/dnx-core/src/reduce/canon.rs, `c1_mark_sweep`: the marks on slots, and a pass over a list.
pub mod Loop
use dnet.Prelude.{
  ℕ, zero, suc, ◌+◌, ◌*◌, ◌/◌, ◌%◌, ◌≤◌, ◌<◌, ◌≡◌, ◌≢◌, ◌⊎◌, inl, inr, refl, sym, ap, ◌∙◌, subst,
  bit_or, bit_and, Bool, true, false, not, Bool-cases, Option, none, some, List, [], ◌∷◌, ◌++◌,
  arith, ◌==◌, length, get_elem?, set, length-set, get_elem?-set_self, get_elem?-set_ne,
  length-append, if◌then◌else◌,
}
use Prim.Native.Nat.{min, max}
use dnet.Prelude.Bits.{mask_32, bit_or_digit, bit_and_digit, bit_or-zero}
use dnet.Error.{Result, ok}
use dnet.Port.{PortId, slot_idx}
use dnet.Arena
use dnet.Arena.Live.{Has}
use dnet.Slot
use dnet.Slot.{Slot, is_c1_marked}
use dnet.Net.{Net, Action, set_slots, slot_at, modify_slot, and_then, ◌>>=◌, pure}
use dnet.Net.Safe.{
  size, is_live, IsSafe, IsWired, Returns, returns, set_slots-Returns, and_then-Returns,
  slot_at-bind, grow-IsWired,
}
use dnet.Net.Keeps.{mono-Returns}
use dnet.Canon.{mark, mark_each, mark_reachable, mark_from_roots, root_slots}

abbrev pub with_mark : Slot → Slot
with_mark s = record s { tag = bit_or s.tag Slot.tag_c1_mark }

unfoldable pub mark_of : Option Slot → Bool
mark_of none = false
mark_of (some s) = is_c1_marked s

abbrev pub marked : Net → ℕ → Bool
marked n i = mark_of (get_elem? n.arena.slots i)

-- The slots at the other ends of the three wires.
abbrev pub wires : Slot → List ℕ
wires s = slot_idx s.principal ∷ slot_idx s.aux0 ∷ slot_idx s.aux1 ∷ []

-- A slot other than the sentinel that a root leads to, over any number of wires.
pub data Reached (n : Net) : ℕ → Type 0 where
  reached_root : (i : ℕ) → Has i (root_slots n.free_slots) → i ≢ 0 → Reached n i
  reached_wire :
      (i j : ℕ) (s : Slot)
      → Reached n i
      → get_elem? n.arena.slots i ≡ some s
      → Has j (wires s)
      → j ≢ 0
      → Reached n j

unfoldable pub unmarked : List Slot → ℕ
unmarked [] = 0
unmarked (s ∷ l) = let rest = unmarked l in if is_c1_marked s then rest else suc rest

abbrev pub left_over : Net → ℕ
left_over n = unmarked n.arena.slots

with_mark-marked : (s : Slot) → is_c1_marked (with_mark s) ≡ true
unfolding is_c1_marked
with_mark-marked s = let found = mask_32 s.tag in ground arith

unmarked-set :
    (l : List Slot) (i : ℕ) (s : Slot)
    → get_elem? l i ≡ some s
    → is_c1_marked s ≡ false
    → unmarked (set l i (with_mark s)) + 1 ≡ unmarked l
unfolding unmarked
unmarked-set [] i s e clear = cc
unmarked-set (t ∷ l) zero s e clear =
    let clear_t : is_c1_marked t ≡ false = cc in rw (with_mark-marked s, clear_t) (omega arith)
unmarked-set (t ∷ l) (suc i) s e clear =
    let fewer = unmarked-set l i s e clear in
    elim (is_c1_marked t)
      as (λ b.
        (if b then unmarked (set l i (with_mark s)) else suc (unmarked (set l i (with_mark s)))) + 1
        ≡ (if b then unmarked l else suc (unmarked l))) [ true ↦ fewer | false ↦ omega arith ]

pub unmarked-length : (l : List Slot) → unmarked l ≤ length l
unfolding unmarked
unmarked-length [] = omega arith
unmarked-length (s ∷ l) =
    elim (is_c1_marked s) as (λ b. (if b then unmarked l else suc (unmarked l)) ≤ suc (length l)) [
      | true ↦ omega (arith, unmarked-length l)
      | false ↦ omega (arith, unmarked-length l)
    ]

-- The wires are as they were.
pub record SameWires (n m : Net) : Type 0 where
  pub sized : size m ≡ size n
  pub lives : (j : ℕ) → is_live m j ≡ is_live n j
  pub wired_as :
      (i : ℕ) (t : Slot)
      → get_elem? m.arena.slots i ≡ some t
      → (s : Slot) × ((get_elem? n.arena.slots i ≡ some s) × (wires s ≡ wires t))

SameWires-refl : (n : Net) → SameWires n n
SameWires-refl n = record { sized = refl; lives = λ j. refl; wired_as = λ i t e. (t, (e, refl)) }

pub SameWires-trans : {a b c : Net} → SameWires a b → SameWires b c → SameWires a c
SameWires-trans p q = record {
  sized = q.sized ∙ p.sized;
  lives = λ j. q.lives j ∙ p.lives j;
  wired_as = λ i u e.
      let (t, (e', same)) = q.wired_as i u e in
      let (s, (e'', same')) = p.wired_as i t e' in (s, (e'', same' ∙ same));
}

-- What marking does to a net and a queue: only reached slots are marked, and each of them is queued.
pub record Grown (n m : Net) (q : List ℕ) (m' : Net) (q' : List ℕ) : Type 0 where
  pub same_wires : SameWires m m'
  pub keeps : (j : ℕ) → marked m j ≡ true → marked m' j ≡ true
  pub queued : (j : ℕ) → Has j q → Has j q'
  pub fresh : (j : ℕ) → marked m' j ≡ true → (marked m j ≡ true) ⊎ (Has j q' × Reached n j)
  pub entered : (j : ℕ) → Has j q' → Has j q ⊎ ((marked m' j ≡ true) × (j < size m))
  pub measure : length q' + left_over m' ≡ length q + left_over m

Grown-refl : (n m : Net) (q : List ℕ) → Grown n m q m q
Grown-refl n m q = record {
  same_wires = SameWires-refl m;
  keeps = λ j h. h;
  queued = λ j h. h;
  fresh = λ j h. inl h;
  entered = λ j h. inl h;
  measure = refl;
}

Grown-trans : {n a b c : Net} {p q r : List ℕ} → Grown n a p b q → Grown n b q c r → Grown n a p c r
Grown-trans {n} {a} {b} {c} {p} {q} {r} g h = record {
  same_wires = SameWires-trans g.same_wires h.same_wires;
  keeps = λ j e. h.keeps j (g.keeps j e);
  queued = λ j e. h.queued j (g.queued j e);
  fresh = λ j e. elim (h.fresh j e) [
    | inl old ↦ elim (g.fresh j old) [
      | inl older ↦ inl older
      | inr (at, from) ↦ inr (h.queued j at, from)
    ]
    | inr new ↦ inr new
  ];
  entered = λ j e. elim (h.entered j e) [
    | inl old ↦ elim (g.entered j old) [
      | inl older ↦ inl older
      | inr (is, lt) ↦ inr (h.keeps j is, lt)
    ]
    | inr (is, lt) ↦ inr (is, omega (arith, g.same_wires.sized))
  ];
  measure = h.measure ∙ g.measure;
}

in_left : (j : ℕ) (q r : List ℕ) → Has j q → Has j (q ++ r)
in_left j [] r h = elim h [ ]
in_left j (x ∷ q) r (inl e) = inl e
in_left j (x ∷ q) r (inr h) = inr (in_left j q r h)

in_last : (j : ℕ) (q : List ℕ) → Has j (q ++ j ∷ [])
in_last j [] = inl refl
in_last j (x ∷ q) = inr (in_last j q)

in_cases : (j i : ℕ) (q : List ℕ) → Has j (q ++ i ∷ []) → Has j q ⊎ (j ≡ i)
in_cases j i [] (inl e) = inr e
in_cases j i [] (inr h) = elim h [ ]
in_cases j i (x ∷ q) (inl e) = inl (inl e)
in_cases j i (x ∷ q) (inr h) = elim (in_cases j i q h) [ inl h ↦ inl (inr h) | inr e ↦ inr e ]

pub same_or_not : (a b : ℕ) → (a ≡ b) ⊎ (a ≢ b)
same_or_not a b = ground arith

-- The slot `i` of `m`, not marked before, is marked.
module _ (n m : Net) (q : List ℕ) (i : ℕ) (s : Slot) (lt : i < size m)
    (at : get_elem? m.arena.slots i ≡ some s) (clear : is_c1_marked s ≡ false)
    (from : Reached n i) where
  abbrev after : Net
  after = set_slots (set m.arena.slots i (with_mark s)) m

  got : get_elem? after.arena.slots i ≡ some (with_mark s)
  got = get_elem?-set_self m.arena.slots i (with_mark s) lt

  other : (j : ℕ) → j ≢ i → get_elem? after.arena.slots j ≡ get_elem? m.arena.slots j
  other j ne = get_elem?-set_ne m.arena.slots {i = i} {j = j} (with_mark s) (λ e. ne (sym e))

  marked_here : marked after i ≡ true
  unfolding mark_of
  marked_here = ap mark_of got ∙ with_mark-marked s

  after-Grown : Grown n m q after (q ++ i ∷ [])
  unfolding Arena.is_live
  after-Grown = record {
    same_wires = record {
      sized = length-set {0} m.arena.slots i (with_mark s);
      lives = λ j. refl;
      wired_as = λ j t e. elim (same_or_not j i) [
        | inl same ↦ (
          s,
          (
            ap (λ k. get_elem? m.arena.slots k) same ∙ at,
            ap wires_of (sym got ∙ ap (λ k. get_elem? after.arena.slots k) (sym same) ∙ e),
          ),
        )
        | inr ne ↦ (t, (sym (other j ne) ∙ e, refl))
      ];
    };
    keeps = λ j e. elim (same_or_not j i) [
      | inl same ↦ ap (marked after) same ∙ marked_here
      | inr ne ↦ ap mark_of (other j ne) ∙ e
    ];
    queued = λ j h. in_left j q (i ∷ []) h;
    fresh = λ j e. elim (same_or_not j i) [
      | inl same ↦ inr (
        subst (λ j. Has j (q ++ i ∷ [])) (sym same) (in_last i q),
        subst (Reached n) (sym same) from,
      )
      | inr ne ↦ inl (sym (ap mark_of (other j ne)) ∙ e)
    ];
    entered = λ j h. elim (in_cases j i q h) [
      | inl old ↦ inl old
      | inr same ↦ inr (ap (marked after) same ∙ marked_here, omega arith)
    ];
    measure =
        let long = length-append q (i ∷ []) in
        let fewer = unmarked-set m.arena.slots i s at clear in omega arith;
  }
    where
      wires_of : Option Slot → List ℕ
      wires_of none = []
      wires_of (some s) = wires s

pub Returns-IsSafe :
    {A : Type 0} {Q : A → Net → Type 0} {a : A} {n : Net} → Returns Q (ok a, n) → IsSafe n
Returns-IsSafe (returns safe q) = safe

with_mark-IsWired : {n : Net} {s : Slot} → IsWired n s → IsWired n (with_mark s)
with_mark-IsWired w = record {
  at_principal = w.at_principal;
  at_aux0 = w.at_aux0;
  at_aux1 = w.at_aux1;
}

mark-Grown :
    (n m : Net) (i : ℕ) (q : List ℕ)
    → IsSafe m
    → i < size m
    → (i ≢ 0 → Reached n i)
    → Returns (λ q' m'. Grown n m q m' q' × (i ≢ 0 → marked m' i ≡ true)) (mark i q m)
unfolding mark mark_of modify_slot
mark-Grown n m i q safe lt from = elim (same_or_not i 0) [
  | inl root ↦
      let zero : (i == 0) ≡ true = ground arith in
      rw (zero, mark) (returns safe (Grown-refl n m q, λ ne. absurd (ne root)))
  | inr ne ↦
      let nonzero : (i == 0) ≡ false = ground arith in
      rw (nonzero, mark)
        (slot_at-bind i _ safe lt (λ s e w. elim (Bool-cases (is_c1_marked s)) [
          | inl is ↦ rw is (returns safe (Grown-refl n m q, λ _. ap mark_of e ∙ is))
          | inr clear ↦
              rw (clear, e, modify_slot)
                (returns
                  (Returns-IsSafe (set_slots-Returns i (with_mark s) safe lt (with_mark-IsWired w)))
                  (
                    after-Grown n m q i s lt e clear (from ne),
                    λ _. marked_here n m q i s lt e clear (from ne),
                  ))
        ]))
]

pub mark_each-Grown :
    (n m : Net) (l q : List ℕ)
    → IsSafe m
    → ((j : ℕ) → Has j l → (j < size m) × (j ≢ 0 → Reached n j))
    → Returns
        (λ q' m'. Grown n m q m' q' × ((j : ℕ) → Has j l → j ≢ 0 → marked m' j ≡ true))
        (mark_each l q m)
unfolding mark_each
mark_each-Grown n m [] q safe from = returns safe (Grown-refl n m q, λ j h ne. elim h [ ])
mark_each-Grown n m (i ∷ l) q safe from =
    let (lt, at) = from i (inl refl) in
    and_then-Returns (mark-Grown n m i q safe lt at) (λ q1 m1 safe1 (g, here).
      mono-Returns
        (mark_each-Grown n m1 l q1 safe1
          (λ j h. let (lt, at) = from j (inr h) in (omega (arith, g.same_wires.sized), at)))
        (λ q2 m2 (g2, rest). (
          Grown-trans g g2,
          λ j h. elim h [
            | inl same ↦ λ ne. g2.keeps j (ap (marked m1) same ∙ here (λ e. ne (same ∙ e)))
            | inr h ↦ λ ne. rest j h ne
          ],
        )))
