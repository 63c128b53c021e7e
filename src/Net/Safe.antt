-- ===== src/Net/Safe.antt =====
-- What it takes for the operations on a net to run without a panic, and that they keep it so.
use dnet.Prelude.{
  ℕ, ◌≤◌, ◌<◌, ◌^◌, ◌≡◌, refl, ap, ◌∙◌, sym, subst, Bool, true, false, some, List, arith, length,
  get_elem?, set, length-set, get_elem?-set_self, get_elem?-set_ne, ◌==◌, Bool-cases, inl, inr,
  if◌then◌else◌, ◌||◌,
}
use dnet.Error.{DnxError, Result, ok, err}
use dnet.Port.{PortId, PortKind, principal, aux0, aux1, slot_idx, port_kind, is_eraser, is_null}
use dnet.Slot.{Slot}
use dnet.Arena
use dnet.Arena.Live
use dnet.Arena.Alloc.{get_elem?-in}
use dnet.Net.{
  Net, Action, and_then, ◌>>=◌, set_slots, slot_at, modify_slot, write_field, write_port, done,
}

abbrev pub size : Net → ℕ
size n = length n.arena.slots

abbrev pub InNet : Net → PortId → Type 0
InNet n p = slot_idx p < size n

abbrev pub is_live : Net → ℕ → Bool
is_live n i = Arena.is_live n.arena i

abbrev pub count : Net → ℕ
count n = length n.arena.live_list

pub record IsWired (n : Net) (s : Slot) : Type 0 where
  pub at_principal : InNet n s.principal
  pub at_aux0 : InNet n s.aux0
  pub at_aux1 : InNet n s.aux1

-- The arena is valid, small enough for its slots to have ports, and every wire leads to a slot.
pub record IsSafe (n : Net) : Type 0 where
  pub valid : Live.IsValid n.arena
  pub small : size n ≤ 2 ^ 28
  pub capped : n.arena.cap ≤ 2 ^ 28
  pub wired : (i : ℕ) (s : Slot) → get_elem? n.arena.slots i ≡ some s → IsWired n s

-- The action did not panic, what it left is safe, and if it succeeded then `Q` holds.
pub data Returns {A : Type 0} (Q : A → Net → Type 0) : Result A × Net → Type 0 where
  returns : {a : A} {n : Net} → IsSafe n → Q a n → Returns Q (ok a, n)
  fails : {e : DnxError} {n : Net} → IsSafe n → Returns Q (err e, n)

-- The same slots are live, as many, and no slot is gone.
pub record Same (n n' : Net) : Type 0 where
  pub size_same : size n' ≡ size n
  pub live_same : (j : ℕ) → is_live n' j ≡ is_live n j
  pub count_same : count n' ≡ count n

pub Same-refl : (n : Net) → Same n n
Same-refl n = record { size_same = refl; live_same = λ j. refl; count_same = refl }

pub and_then-Returns :
    {A B : Type 0} {Q : A → Net → Type 0} {R : B → Net → Type 0} {r : Result A × Net}
    {k : A → Action B}
    → Returns Q r
    → ((a : A) (n : Net) → IsSafe n → Q a n → Returns R (k a n))
    → Returns R (and_then r k)
and_then-Returns (returns {a} {n} safe q) f = f a n safe q
and_then-Returns (fails safe) f = fails safe

pub grow-IsWired : {n n' : Net} {s : Slot} → size n ≤ size n' → IsWired n s → IsWired n' s
grow-IsWired le w = omega arith

with_slots-IsValid :
    {a : Arena.Arena} (l : List Slot)
    → Live.IsValid a
    → length l ≡ length a.slots
    → Live.IsValid (record a { slots = l })
with_slots-IsValid l v e = record {
  listed = v.listed;
  placed = v.placed;
  live_in = λ i p h. omega (arith, v.live_in i p h);
  free_in = λ i h. omega (arith, v.free_in i h);
  apart = v.apart;
  once = v.once;
  sentinel = omega (arith, v.sentinel);
}

-- Writing a slot whose wires lead to slots.
pub set_slots-Returns :
    {n : Net} (i : ℕ) (s : Slot)
    → IsSafe n
    → i < size n
    → IsWired n s
    → Returns {A = Unit {0}} (λ _. Same n) (ok tt, set_slots (set n.arena.slots i s) n)
unfolding Arena.is_live
set_slots-Returns {n} i s safe lt w =
    let long = length-set {0} n.arena.slots i s in
    returns
      (record {
        valid = with_slots-IsValid (set n.arena.slots i s) safe.valid long;
        small = omega (arith, safe.small);
        capped = safe.capped;
        wired = λ j t e. grow-IsWired (omega arith) (elim (Bool-cases (j == i)) [
          | inl same ↦
              let here : j ≡ i = ground arith in
              let got : some s ≡ some t =
                sym (get_elem?-set_self n.arena.slots i s lt)
                ∙ (ap (λ k. get_elem? (set n.arena.slots i s) k) (sym here) ∙ e) in
              subst (IsWired n) (cc) w
          | inr other ↦
              safe.wired j t
                (sym (get_elem?-set_ne n.arena.slots {i = i} {j = j} s (ground arith)) ∙ e)
        ]);
      })
      (record { size_same = long; live_same = λ j. refl; count_same = refl })

pub modify_slot-Returns :
    {n : Net} (i : ℕ) (f : Slot → Slot)
    → IsSafe n
    → i < size n
    → ((s : Slot) → IsWired n s → IsWired n (f s))
    → Returns (λ _. Same n) (modify_slot i f n)
unfolding modify_slot
modify_slot-Returns {n} i f safe lt keep =
    let (s, e) = get_elem?-in n.arena.slots i lt in
    rw (e, modify_slot) (set_slots-Returns i (f s) safe lt (keep s (safe.wired i s e)))

write_field-IsWired :
    (k : PortKind) (v : PortId) {n : Net}
    → InNet n v
    → (s : Slot) → IsWired n s
    → IsWired n (write_field k v s)
unfolding write_field
write_field-IsWired principal v h s w = omega arith
write_field-IsWired aux0 v h s w = omega arith
write_field-IsWired aux1 v h s w = omega arith

pub done-Returns : {n : Net} → IsSafe n → Returns (λ _. Same n) (done n)
done-Returns {n} safe = returns safe (Same-refl n)

-- A branch, with what is known in it.
pub branch-Returns :
    {A : Type 0} {Q : A → Net → Type 0} (b : Bool) (x y : Action A) {n : Net}
    → (b ≡ true → Returns Q (x n))
    → (b ≡ false → Returns Q (y n))
    → Returns Q ((if b then x else y) n)
branch-Returns true x y p q = p refl
branch-Returns false x y p q = q refl

pub if-Returns :
    {A : Type 0} {Q : A → Net → Type 0} (b : Bool) (x y : Action A) {n : Net}
    → Returns Q (x n)
    → Returns Q (y n)
    → Returns Q ((if b then x else y) n)
if-Returns true x y p q = p
if-Returns false x y p q = q

pub Same-trans : {a b c : Net} → Same a b → Same b c → Same a c
Same-trans p q = record {
  size_same = q.size_same ∙ p.size_same;
  live_same = λ j. q.live_same j ∙ p.live_same j;
  count_same = q.count_same ∙ p.count_same;
}

pub write_port-Returns :
    {n : Net} (port v : PortId)
    → IsSafe n
    → InNet n port
    → InNet n v
    → Returns (λ _. Same n) (write_port port v n)
unfolding write_port
write_port-Returns {n} port v safe at to =
    if-Returns (is_eraser port || is_null port) _ _ (done-Returns safe) (
      modify_slot-Returns (slot_idx port) (write_field (port_kind port) v) safe at
        (write_field-IsWired (port_kind port) v to))

pub slot_at-bind :
    {B : Type 0} {R : B → Net → Type 0} {n : Net} (i : ℕ) (k : Slot → Action B)
    → IsSafe n
    → i < size n
    → ((s : Slot) → get_elem? n.arena.slots i ≡ some s → IsWired n s → Returns R (k s n))
    → Returns R ((slot_at i >>= k) n)
unfolding slot_at
slot_at-bind {n} i k safe lt next =
    let (s, e) = get_elem?-in n.arena.slots i lt in rw (e, slot_at) (next s e (safe.wired i s e))
