-- ===== src/Canon/Sure.antt =====
-- The erasure of crates/dnx-core/src/reduce/canon.rs, `c1_mark_sweep`, has no error to return.
use dnet.Prelude.{
  ℕ, zero, suc, Bool, true, false, Option, Option-cases, inl, inr, none, some, List, [], ◌∷◌, ◌==◌,
  get_elem?, if◌then◌else◌,
}
use dnet.Error.{Result, ok, panic}
use dnet.Port.{slot_idx}
use dnet.Slot.{Slot, is_c1_marked}
use dnet.Net.{Net, Action, and_then, slot_at, modify_slot, retire, clear_pending_c1}
use dnet.Net.Safe.{IsSafe, Returns, returns, fails}
use dnet.Canon.{mark, mark_each, mark_reachable, sweep, root_slots, mark_from_roots, c1_mark_sweep}

-- A value or a panic.
pub data Sure {A : Type 0} : Result A × Net → Type 0 where
  sure_ok : {a : A} {n : Net} → Sure (ok a, n)
  sure_panic : {n : Net} → Sure (panic, n)

-- A value, that the action returns for certain, in a safe net.
pub data Succeeds {A : Type 0} (Q : A → Net → Type 0) : Result A × Net → Type 0 where
  succeeds : {a : A} {n : Net} → IsSafe n → Q a n → Succeeds Q (ok a, n)

pub Sure-Succeeds :
    {A : Type 0} {Q : A → Net → Type 0} {r : Result A × Net} → Sure r → Returns Q r → Succeeds Q r
Sure-Succeeds s (returns safe q) = succeeds safe q
Sure-Succeeds s (fails safe) = elim s [ ]

and_then-Sure :
    {A B : Type 0} {r : Result A × Net} (k : A → Action B)
    → Sure r
    → ((a : A) (n : Net) → Sure (k a n))
    → Sure (and_then r k)
and_then-Sure k (sure_ok {a} {n}) next = next a n
and_then-Sure k sure_panic next = sure_panic

if-Sure :
    {A : Type 0} (b : Bool) (x y : Action A) (n : Net)
    → Sure (x n)
    → Sure (y n)
    → Sure ((if b then x else y) n)
if-Sure true x y n p q = p
if-Sure false x y n p q = q

slot_at-Sure : (i : ℕ) (n : Net) → Sure (slot_at i n)
unfolding slot_at
slot_at-Sure i n = on (get_elem? n.arena.slots i)
  where
    on : (o : Option Slot) → Sure {A = Slot} (elim o [ none ↦ (panic, n) | some s ↦ (ok s, n) ])
    on none = sure_panic
    on (some s) = sure_ok

modify_slot-Sure : (i : ℕ) (f : Slot → Slot) (n : Net) → Sure (modify_slot i f n)
unfolding modify_slot
modify_slot-Sure i f n = elim (Option-cases (get_elem? n.arena.slots i)) [
  | inl e ↦ rw (e, modify_slot) sure_panic
  | inr (s, e) ↦ rw (e, modify_slot) sure_ok
]

mark-Sure : (i : ℕ) (queue : List ℕ) (n : Net) → Sure (mark i queue n)
unfolding mark
mark-Sure i queue n = if-Sure (i == 0) _ _ n sure_ok (
    and_then-Sure _ (slot_at-Sure i n) λ s m.
      if-Sure (is_c1_marked s) _ _ m sure_ok
        (and_then-Sure _ (modify_slot-Sure i _ m) λ u m'. sure_ok))

mark_each-Sure : (l queue : List ℕ) (n : Net) → Sure (mark_each l queue n)
unfolding mark_each
mark_each-Sure [] queue n = sure_ok
mark_each-Sure (i ∷ l) queue n =
    and_then-Sure _ (mark-Sure i queue n) λ queue' m. mark_each-Sure l queue' m

mark_reachable-Sure : (fuel : ℕ) (queue : List ℕ) (n : Net) → Sure (mark_reachable fuel queue n)
unfolding mark_reachable
mark_reachable-Sure zero [] n = sure_ok
mark_reachable-Sure (suc fuel) [] n = sure_ok
mark_reachable-Sure zero (i ∷ queue) n = sure_ok
mark_reachable-Sure (suc fuel) (i ∷ queue) n = and_then-Sure _ (slot_at-Sure i n) λ s m.
    and_then-Sure _
      (mark_each-Sure (slot_idx s.principal ∷ slot_idx s.aux0 ∷ slot_idx s.aux1 ∷ []) queue m)
      λ queue' m'. mark_reachable-Sure fuel queue' m'

sweep-Sure : (l : List ℕ) (n : Net) → Sure (sweep l n)
unfolding sweep retire
sweep-Sure [] n = sure_ok
sweep-Sure (i ∷ l) n = and_then-Sure _ (slot_at-Sure i n) λ s m.
    and_then-Sure _ (if-Sure (is_c1_marked s) _ _ m (modify_slot-Sure i _ m) sure_ok)
      λ u m'. sweep-Sure l m'

pub c1_mark_sweep-Sure : (n : Net) → Sure (c1_mark_sweep n)
unfolding c1_mark_sweep mark_from_roots clear_pending_c1
c1_mark_sweep-Sure n =
    and_then-Sure _
      (and_then-Sure _ (mark_each-Sure (root_slots n.free_slots) [] n)
        λ queue m. mark_reachable-Sure _ queue m)
      λ r m. and_then-Sure _ (sweep-Sure m.arena.live_list m) λ u m'. sure_ok
