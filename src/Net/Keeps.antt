-- ===== src/Net/Keeps.antt =====
-- The operations on a net, run in a safe net on ports that lead to slots.
use dnet.Prelude.{
  ℕ, ◌+◌, ◌≤◌, ◌<◌, ◌^◌, ◌≡◌, ◌≢◌, refl, ap, ◌∙◌, sym, subst, true, false, Option, none, some, List,
  [], ◌∷◌, zero, suc, arith, length, get_elem?, ◌==◌, Bool-cases, inl, inr, if◌then◌else◌, not,
  ◌||◌, ◌&&◌, bit_and,
}
use Prim.Native.String.{String}
use dnet.Prelude.Int.{ℤ}
use dnet.Error.{Result, ok}
use dnet.LoPath.{LoPath}
use dnet.Port.{PortId, PortKind, principal, aux0, aux1, slot_idx, port_kind, is_eraser, is_null}
use dnet.Port.Fields.{new_fields}
use native.Mathlib.Decide.{dec_lt}
use dnet.Slot.{Slot, empty}
use dnet.Arena
use dnet.Arena.Live.{new-IsValid, retire_slot-Retired}
use dnet.Arena.Alloc.{Allocated, alloc_slot_lem}
use dnet.Net.Ordered.{Frontier}
use dnet.Net.Safe.{
  size, InNet, is_live, count, IsWired, IsSafe, Returns, returns, fails, Same, Same-refl,
  Same-trans, and_then-Returns, grow-IsWired, modify_slot-Returns, write_port-Returns, done-Returns,
  if-Returns, slot_at-bind,
}
use dnet.Net.{
  Net, NetClass, new, Action, ActivePair, C4Candidate, AgentPorts, and_then, connect, detect_pair,
  retire, alloc_agent, alloc_slot, ports, set_eraser_on_port, erase_field, pending_after,
  link_no_pair, is_rep_port, is_app_fan_port, detect_at, detect_c4, detect_c4_flipped,
  add_candidate, add_pair, active_pair,
}

is_rep_port-Returns :
    {n : Net} (p : PortId) → IsSafe n → InNet n p → Returns (λ _. Same n) (is_rep_port p n)
unfolding is_rep_port
is_rep_port-Returns {n} p safe at =
    if-Returns (is_eraser p || is_null p) _ _ (returns safe (Same-refl n))
      (slot_at-bind (slot_idx p) _ safe at λ s e w. returns safe (Same-refl n))

is_app_fan_port-Returns :
    {n : Net} (p : PortId) → IsSafe n → InNet n p → Returns (λ _. Same n) (is_app_fan_port p n)
unfolding is_app_fan_port
is_app_fan_port-Returns {n} p safe at =
    if-Returns (is_eraser p || is_null p) _ _ (returns safe (Same-refl n))
      (slot_at-bind (slot_idx p) _ safe at λ s e w. returns safe (Same-refl n))

-- The frontiers, the roots and the flags are not read by what makes a net safe.
pub other-Returns :
    {n : Net} (f1 : Frontier ActivePair) (f2 : Frontier C4Candidate) (r : List (String × PortId))
    (fl : ℕ)
    → IsSafe n
    → Returns {A = Unit {0}}
        (λ _. Same n)
        (ok tt, record n { frontier1 = f1; frontier2 = f2; free_slots = r; net_flags = fl })
other-Returns f1 f2 r fl safe =
    returns
      (record {
        valid = safe.valid;
        small = safe.small;
        capped = safe.capped;
        wired = λ i s e. grow-IsWired (omega arith) (safe.wired i s e);
      })
      (record { size_same = refl; live_same = λ j. refl; count_same = refl })

add_pair-Returns :
    {n : Net} (o : Option ActivePair) (lo : LoPath)
    → IsSafe n
    → Returns (λ _. Same n) (add_pair o lo n)
unfolding add_pair
add_pair-Returns none lo safe = done-Returns safe
add_pair-Returns {n} (some ap) lo safe = other-Returns _ n.frontier2 n.free_slots n.net_flags safe

add_candidate-Returns :
    {n : Net} (a b : PortId) (lo : LoPath)
    → IsSafe n
    → Returns (λ _. Same n) (add_candidate a b lo n)
unfolding add_candidate
add_candidate-Returns {n} a b lo safe = other-Returns n.frontier1 _ n.free_slots n.net_flags safe

-- An action run after one that left the same slots live.
after-Same :
    {A B : Type 0} {n : Net} {r : Result A × Net} (k : A → Action B)
    → Returns (λ _. Same n) r
    → ((a : A) (m : Net) → IsSafe m → Same n m → Returns (λ _. Same m) (k a m))
    → Returns (λ _. Same n) (and_then r k)
after-Same k first next = and_then-Returns first λ a m safe same. weaken same (next a m safe same)
  where
    weaken :
        {B : Type 0} {n m : Net} {r : Result B × Net}
        → Same n m
        → Returns (λ _. Same m) r
        → Returns (λ _. Same n) r
    weaken same (returns safe more) = returns safe (Same-trans same more)
    weaken same (fails safe) = fails safe

detect_c4-Returns :
    {n : Net} (a b : PortId) (lo : LoPath)
    → IsSafe n
    → InNet n a
    → InNet n b
    → Returns (λ _. Same n) (detect_c4 a b lo n)
unfolding detect_c4
detect_c4-Returns a b lo safe at to = after-Same _ (is_rep_port-Returns a safe at) λ r m safe' same.
    if-Returns r _ _
      (after-Same _ (is_app_fan_port-Returns b safe' (omega arith)) λ f m' safe'' same'.
        if-Returns f _ _ (add_candidate-Returns a b lo safe'') (done-Returns safe''))
      (done-Returns safe')

detect_c4_flipped-Returns :
    {n : Net} (a b : PortId) (lo : LoPath)
    → IsSafe n
    → InNet n a
    → InNet n b
    → Returns (λ _. Same n) (detect_c4_flipped a b lo n)
unfolding detect_c4_flipped
detect_c4_flipped-Returns a b lo safe at to =
    after-Same _ (is_app_fan_port-Returns a safe at) λ r m safe' same.
      if-Returns r _ _
        (after-Same _ (is_rep_port-Returns b safe' (omega arith)) λ f m' safe'' same'.
          if-Returns f _ _ (add_candidate-Returns b a lo safe'') (done-Returns safe''))
        (done-Returns safe')

detect_at-Returns :
    (k l : PortKind) {n : Net} (a b : PortId) (lo : LoPath)
    → IsSafe n
    → InNet n a
    → InNet n b
    → Returns (λ _. Same n) (detect_at k l a b lo n)
unfolding detect_at
detect_at-Returns principal principal a b lo safe at to =
    if-Returns (not (is_null a) && not (is_null b)) _ _
      (add_pair-Returns (active_pair a b lo) lo safe) (done-Returns safe)
detect_at-Returns principal aux0 a b lo safe at to = detect_c4-Returns a b lo safe at to
detect_at-Returns aux0 principal a b lo safe at to = detect_c4_flipped-Returns a b lo safe at to
detect_at-Returns _ _ a b lo safe at to = done-Returns safe

-- `connect`, on two ports that lead to slots of a safe net, does not panic, and leaves a safe net
-- with the same slots live and as many slots, also beside an error.
pub connect-Returns :
    {n : Net} (a b : PortId) (lo : LoPath)
    → IsSafe n
    → InNet n a
    → InNet n b
    → Returns (λ _. Same n) (connect a b lo n)
unfolding connect detect_pair
connect-Returns a b lo safe at to =
    after-Same _ (write_port-Returns a b safe at to) λ _ m safe' same.
      after-Same _ (write_port-Returns b a safe' (omega arith) (omega arith)) λ _ m' safe'' same'.
        detect_at-Returns (port_kind a) (port_kind b) a b lo safe'' (omega arith) (omega arith)

pub link_no_pair-Returns :
    {n : Net} (a b : PortId)
    → IsSafe n
    → InNet n a
    → InNet n b
    → Returns (λ _. Same n) (link_no_pair a b n)
unfolding link_no_pair
link_no_pair-Returns a b safe at to =
    after-Same _ (write_port-Returns a b safe at to)
      λ _ m safe' same. write_port-Returns b a safe' (omega arith) (omega arith)

erase_field-IsWired :
    (k : PortKind) {n : Net} → 0 < size n → (s : Slot) → IsWired n s → IsWired n (erase_field k s)
unfolding erase_field slot_idx
erase_field-IsWired principal h s w = ground arith
erase_field-IsWired aux0 h s w = ground arith
erase_field-IsWired aux1 h s w = ground arith

pending_after-Returns :
    (k : PortKind) {n : Net} → IsSafe n → Returns (λ _. Same n) (pending_after k n)
unfolding pending_after
pending_after-Returns principal safe = done-Returns safe
pending_after-Returns _ {n} safe = other-Returns n.frontier1 n.frontier2 n.free_slots _ safe

pub set_eraser_on_port-Returns :
    {n : Net} (p : PortId) → IsSafe n → InNet n p → Returns (λ _. Same n) (set_eraser_on_port p n)
unfolding set_eraser_on_port
set_eraser_on_port-Returns p safe at =
    if-Returns (is_eraser p || is_null p) _ _ (done-Returns safe) (
      after-Same _
        (modify_slot-Returns (slot_idx p) (erase_field (port_kind p)) safe at
          (erase_field-IsWired (port_kind p) safe.valid.sentinel))
        λ _ m safe' same. pending_after-Returns (port_kind p) safe')

-- A live slot less, the others as they were.
pub record Freed (i : ℕ) (n n' : Net) : Type 0 where
  pub size_kept : size n' ≡ size n
  pub live_kept : (j : ℕ) → is_live n' j ≡ (if j == i then false else is_live n j)
  pub count_less : count n' + 1 ≡ count n
  pub slots_kept : n'.arena.slots ≡ n.arena.slots

pub retire-Returns :
    {n : Net} (i : ℕ) → IsSafe n → is_live n i ≡ true → Returns (λ _. Freed i n) (retire i n)
unfolding retire
retire-Returns {n} i safe live =
    let r = retire_slot-Retired i safe.valid live in
    let long = ap (λ l. length l) r.slots in
    returns
      (record {
        valid = r.valid;
        small = omega (arith, long, safe.small);
        capped = omega (arith, r.same_cap, safe.capped);
        wired = λ j s e.
            grow-IsWired (omega (arith, long))
              (safe.wired j s (sym (ap (λ l. get_elem? l j) r.slots) ∙ e));
      })
      (record {
        size_kept = long;
        live_kept = r.others;
        count_less = r.count;
        slots_kept = r.slots;
      })

-- A live slot more, with the three ports of an agent; no slot that was live is not.
pub record Grown (n n' : Net) : Type 0 where
  pub size_grown : size n ≤ size n'
  pub live_grown : (j : ℕ) → is_live n j ≡ true → is_live n' j ≡ true
  pub count_more : count n' ≡ count n + 1

pub record NewAgent (n : Net) (ps : AgentPorts) (n' : Net) : Type 0 where
  pub grown : Grown n n'
  pub new_principal : InNet n' ps.principal
  pub new_aux0 : InNet n' ps.aux0
  pub new_aux1 : InNet n' ps.aux1

-- What `alloc_slot` gives to `alloc_agent`.
abbrev pub NewSlot : Net → ℕ → Net → Type 0
NewSlot n i n' = Grown n n' × (i < size n')

alloc-IsWired :
    {n m : Net} (i : ℕ)
    → IsSafe n
    → Allocated i n.arena m.arena
    → (j : ℕ) (s : Slot) → get_elem? m.arena.slots j ≡ some s
    → IsWired m s
unfolding slot_idx
alloc-IsWired {n} {m} i safe al j s h = elim (Bool-cases (j == i)) [
  | inl same ↦
      let here : j ≡ i = ground arith in
      let (g, new) = al.fresh in
      let fresh : Slot = record empty { generation = g } in
      let got : some fresh ≡ some s =
        sym new ∙ (ap (λ k. get_elem? m.arena.slots k) (sym here) ∙ h) in
      let low = al.valid.sentinel in
      let w : IsWired m fresh = record { at_principal = low; at_aux0 = low; at_aux1 = low } in
      subst (IsWired m) (cc) w
  | inr other ↦
      let ne : j ≢ i = ground arith in
      elim (dec_lt j (size n)) [
        | yes lt ↦ grow-IsWired al.grown (safe.wired j s (sym (al.kept j lt ne) ∙ h))
        | no over ↦ absurd (cc (al.past j (omega arith) ne))
      ]
]

pub alloc_slot-Returns : {n : Net} → IsSafe n → Returns (NewSlot n) (alloc_slot n)
unfolding alloc_slot
alloc_slot-Returns {n} safe = elim (alloc_slot_lem safe.valid) [
  | inl (drained, full, e) ↦ rw e (fails safe)
  | inr (i, b, e, al) ↦ rw e (
      returns
        (record {
          valid = al.valid;
          small = omega (arith, al.bounded, safe.small, safe.capped);
          capped = omega (arith, al.same_cap, safe.capped);
          wired = alloc-IsWired {m = record n { arena = b }} i safe al;
        })
        (
          record {
            size_grown = al.grown;
            live_grown = λ j h. al.others j ∙ ground (arith);
            count_more = al.count;
          },
          al.inside.1,
        ))
]

pub mono-Returns :
    {A : Type 0} {Q R : A → Net → Type 0} {r : Result A × Net}
    → Returns Q r
    → ((a : A) (n : Net) → Q a n → R a n)
    → Returns R r
mono-Returns (returns {a} {n} safe q) f = returns safe (f a n q)
mono-Returns (fails safe) f = fails safe

ports-Returns :
    {n : Net} (i : ℕ)
    → IsSafe n
    → i < size n
    → Returns
        (λ ps m. Same n m × InNet m ps.principal × InNet m ps.aux0 × InNet m ps.aux1)
        (ports i n)
unfolding ports
ports-Returns {n} i safe lt =
    let small : i < 2 ^ 28 = omega (arith, safe.small) in
    slot_at-bind i _ safe lt λ s e w.
      let g : ℕ = bit_and s.generation 1 in
      returns safe (
        Same-refl n,
        omega (arith, (new_fields i principal g small).0),
        omega (arith, (new_fields i aux0 g small).0),
        omega (arith, (new_fields i aux1 g small).0),
      )

-- `alloc_agent`, in a safe net, does not panic, and leaves a safe net. If it succeeds then one slot
-- more is live, no slot that was live is not, and the three ports that it returns lead to slots.
pub alloc_agent-Returns :
    {n : Net} (tag level : ℕ) (d0 d1 : ℤ)
    → IsSafe n
    → Returns (NewAgent n) (alloc_agent tag level d0 d1 n)
unfolding alloc_agent
alloc_agent-Returns tag level d0 d1 safe =
    and_then-Returns (alloc_slot-Returns safe) λ i m safe' (grown, lt).
      and_then-Returns
        (modify_slot-Returns i _ safe' lt
          λ s w. record { at_principal = w.at_principal; at_aux0 = w.at_aux0; at_aux1 = w.at_aux1 })
        λ _ m' safe'' same.
          mono-Returns (ports-Returns i safe'' (omega arith)) λ ps m3 (same', p, q, r). record {
            grown = record {
              size_grown = omega (arith, grown.size_grown, same.size_same, same'.size_same);
              live_grown = λ j h. same'.live_same j ∙ (same.live_same j ∙ grown.live_grown j h);
              count_more = omega (arith, grown.count_more, same.count_same, same'.count_same);
            };
            new_principal = p;
            new_aux0 = q;
            new_aux1 = r;
          }

-- A new net, of any class and any capacity, is safe.
pub new-IsSafe : (c : NetClass) (capacity : ℕ) → IsSafe (new c capacity)
unfolding new Arena.new slot_idx
new-IsSafe c capacity = record {
  valid = new-IsValid capacity;
  small = omega arith;
  capped = ground arith;
  wired = wires;
}
  where
    low : IsWired (new c capacity) empty
    low = record { at_principal = omega arith; at_aux0 = omega arith; at_aux1 = omega arith }

    wires : (i : ℕ) (s : Slot) → get_elem? (empty ∷ []) i ≡ some s → IsWired (new c capacity) s
    wires zero s e = subst (IsWired (new c capacity)) (cc) low
    wires (suc i) s e = cc
