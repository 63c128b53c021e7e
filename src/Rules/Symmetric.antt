-- ===== src/Rules/Symmetric.antt =====
-- R4 and R7 (crates/dnx-core/src/reduce/rules.rs) with the two ports of their pair turned round.
use dnet.Prelude.{
  ℕ, ◌≡◌, ◌≢◌, refl, Bool, true, false, not, some, arith, get_elem?, ◌==◌, Bool-cases, inl, inr,
  sym, if◌then◌else◌,
}
use dnet.Prelude.Int.{ℤ}
use dnet.Error.{ok}
use dnet.LoPath.{LoPath}
use dnet.Port.{PortId, slot_idx}
use dnet.Slot.{Slot, fan_is_abs}
use dnet.Net.{Net, Action, slot_at}
use dnet.Rules.{r4_fan_fan, r7_rep_rep, beta, commute, key_lt, eq_ℤ}

abbrev pub SameKey : Slot → Slot → Type 0
SameKey s t = (s.data_word ≡ t.data_word) × (s.delta0 ≡ t.delta0) × (s.delta1 ≡ t.delta1)

eq_ℤ→eq : (a b : ℤ) → eq_ℤ a b ≡ true → a ≡ b
unfolding eq_ℤ
eq_ℤ→eq a b e = ground arith

-- Of two keys that differ exactly one is the smaller.
key_lt-total : (s t : Slot) → ¬ (SameKey s t) → key_lt s t ≡ not (key_lt t s)
unfolding key_lt eq_ℤ
key_lt-total s t ne = elim (Bool-cases (eq_ℤ s.delta0 t.delta0)) [
  | inl same0 ↦ elim (Bool-cases (eq_ℤ s.delta1 t.delta1)) [
    | inl same1 ↦ elim (Bool-cases (s.data_word == t.data_word)) [
      | inl level ↦ absurd (ne (ground arith, eq_ℤ→eq _ _ same0, eq_ℤ→eq _ _ same1))
      | inr level ↦ ground arith
    ]
    | inr other ↦ ground arith
  ]
  | inr other ↦ ground arith
]

branch :
    {A : Type 0} (b : Bool) (x y : Action A) (n : Net)
    → (if b then x else y) n ≡ (if b then x n else y n)
branch true x y n = refl
branch false x y n = refl

slot_at-some :
    (i : ℕ) (n : Net) (s : Slot) → get_elem? n.arena.slots i ≡ some s → slot_at i n ≡ (ok s, n)
unfolding slot_at
slot_at-some i n s e = rw (e, slot_at)

r7-eq :
    (p0 p1 : PortId) (lo : LoPath) (n : Net) (s0 s1 : Slot)
    → get_elem? n.arena.slots (slot_idx p0) ≡ some s0
    → get_elem? n.arena.slots (slot_idx p1) ≡ some s1
    → r7_rep_rep p0 p1 lo n
      ≡ (if key_lt s1 s0 then commute p0 s0 p1 s1 lo n else commute p1 s1 p0 s0 lo n)
unfolding r7_rep_rep
r7-eq p0 p1 lo n s0 s1 e0 e1 = rw (slot_at-some (slot_idx p0) n s0 e0) (
    rw (slot_at-some (slot_idx p1) n s1 e1)
      (branch (key_lt s1 s0) (commute p0 s0 p1 s1 lo) (commute p1 s1 p0 s0 lo) n))

r4-eq :
    (p0 p1 : PortId) (lo : LoPath) (n : Net) (s0 : Slot)
    → get_elem? n.arena.slots (slot_idx p0) ≡ some s0
    → r4_fan_fan p0 p1 lo n ≡ (if fan_is_abs s0 then beta p0 p1 lo n else beta p1 p0 lo n)
unfolding r4_fan_fan
r4-eq p0 p1 lo n s0 e0 =
    rw (slot_at-some (slot_idx p0) n s0 e0)
      (branch (fan_is_abs s0) (beta p0 p1 lo) (beta p1 p0 lo) n)

-- R7 on two replicators of different level or deltas is the same action, with the same result and
-- the same net, whichever of the two ports comes first.
pub r7_rep_rep_comm :
    (p0 p1 : PortId) (lo : LoPath) (n : Net) (s0 s1 : Slot)
    → get_elem? n.arena.slots (slot_idx p0) ≡ some s0
    → get_elem? n.arena.slots (slot_idx p1) ≡ some s1
    → ¬ (SameKey s0 s1)
    → r7_rep_rep p0 p1 lo n ≡ r7_rep_rep p1 p0 lo n
r7_rep_rep_comm p0 p1 lo n s0 s1 e0 e1 ne =
    rw
      (
        r7-eq p0 p1 lo n s0 s1 e0 e1,
        r7-eq p1 p0 lo n s1 s0 e1 e0,
        key_lt-total s1 s0 (λ k. ne (sym k.0, sym k.1, sym k.2)),
      )
      (ground arith)

-- R4 on an abstraction and an application is the same action, with the same result and the same
-- net, whichever of the two ports comes first.
r4_fan_fan_comm :
    (p0 p1 : PortId) (lo : LoPath) (n : Net) (s0 s1 : Slot)
    → get_elem? n.arena.slots (slot_idx p0) ≡ some s0
    → get_elem? n.arena.slots (slot_idx p1) ≡ some s1
    → fan_is_abs s0 ≢ fan_is_abs s1
    → r4_fan_fan p0 p1 lo n ≡ r4_fan_fan p1 p0 lo n
r4_fan_fan_comm p0 p1 lo n s0 s1 e0 e1 ne =
    rw (r4-eq p0 p1 lo n s0 e0, r4-eq p1 p0 lo n s1 e1) (ground arith)
