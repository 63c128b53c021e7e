-- ===== src/Canon/Safe.antt =====
-- Merge, decay and replication past an application, in a safe net.
use dnet.Prelude.{
  ℕ, ◌+◌, ◌-◌, ◌≤◌, ◌≡◌, ◌≢◌, ◌⊎◌, refl, ap, ◌∙◌, Bool, true, false, Option, none, some, arith,
  ◌||◌, ltb, not, if◌then◌else◌, get_elem?, inl, inr, Bool-cases,
}
use dnet.Prelude.Int.{ℤ, pos, negsuc, ◌+ℤ◌, ltb_ℤ, pos_part, neg_part}
use dnet.Error.{◌>>=◌ as bind, Result, ok, err, delta_overflow}
use dnet.LoPath.{LoPath}
use dnet.Port
use dnet.Port.{PortId, PortKind, slot_idx, port_kind, is_eraser, is_null}
use dnet.Slot.{Slot, is_rep, rep_is_unpaired, rep_aux0_erased, rep_aux1_erased}
use dnet.Arena.Alloc.{get_elem?-in}
use dnet.Net.{Net, and_then, slot_at, done}
use dnet.Net.Safe.{
  size, InNet, is_live, count, IsWired, IsSafe, Returns, returns, fails, and_then-Returns,
  if-Returns, slot_at-bind, modify_slot-Returns,
}
use dnet.Net.Keeps.{mono-Returns}
use dnet.Net.Chain.{Holds, connect-Holds, erase-Holds, retire-Holds, live-inside}
use dnet.Canon.{
  C2Merge, add_delta, c2_meet, c2_side, c2_gate_and_shift, fetch_in, c2_apply, c2_rep_merge,
  c3_cases, decay_both, decay_to, c3_rep_decay,
}

-- `v` is `d + k`.
abbrev pub IsShifted : ℤ → ℕ → ℤ → Type 0
IsShifted d k v = pos_part v + neg_part d ≡ pos_part d + neg_part v + k

-- The merge of `a` into its neighbor `b`: the level of `a`, which is not above that of `b`, and
-- deltas that lead to the levels that they led to before.
pub record IsMerge (n : Net) (a : Slot) (m : C2Merge) : Type 0 where
  pub neighbor : Slot
  pub found : get_elem? n.arena.slots (slot_idx m.rep_b) ≡ some neighbor
  pub is_replicator : is_rep neighbor ≡ true
  pub below : a.data_word ≤ neighbor.data_word
  pub level : m.b_shifted.data_word ≡ a.data_word
  pub target0 : IsShifted neighbor.delta0 (neighbor.data_word - a.data_word) m.b_shifted.delta0
  pub target1 : IsShifted neighbor.delta1 (neighbor.data_word - a.data_word) m.b_shifted.delta1
  pub outer : m.ext ≡ a.principal
  pub inside : InNet n m.rep_b
  pub wired : IsWired n m.b_shifted

pub data Gate (n : Net) (a : Slot) : Result (Option C2Merge) → Type 0 where
  gate_shut : Gate n a (ok none)
  gate_fails : Gate n a (err delta_overflow)
  gate_open : (m : C2Merge) → IsMerge n a m → Gate n a (ok (some m))

if-Gate :
    {n : Net} {a : Slot} {x y : Result (Option C2Merge)} (b : Bool)
    → (b ≡ true → Gate n a x)
    → (b ≡ false → Gate n a y)
    → Gate n a (if b then x else y)
if-Gate true p q = p refl
if-Gate false p q = q refl

add_delta-cases :
    (d : ℤ) (k : ℕ)
    → (add_delta d (pos k) ≡ err delta_overflow)
      ⊎ ((v : ℤ) × (add_delta d (pos k) ≡ ok v) × IsShifted d k v)
unfolding add_delta ◌+ℤ◌
add_delta-cases d k =
    let v : ℤ = d +ℤ pos k in
    let eq : IsShifted d k v = ground arith in
    elim (Bool-cases (ltb_ℤ (pos 32767) v || ltb_ℤ v (negsuc 32767))) [
      | inl over ↦ inl (rw over refl)
      | inr fits ↦ inr (v, rw fits refl, eq)
    ]

c2_meet-Gate :
    {n : Net} {a : Slot} (rep_b : PortId) (delta : ℤ) (b : Slot) {next : Result (Option C2Merge)}
    → get_elem? n.arena.slots (slot_idx rep_b) ≡ some b
    → InNet n rep_b
    → IsWired n b
    → Gate n a next
    → Gate n a (c2_meet a rep_b delta b next)
unfolding c2_meet
c2_meet-Gate {n} {a} rep_b delta b {next} found lt w g =
    if-Gate (not (is_rep b)) (λ _. g)
      λ rep.
        if-Gate (ltb b.data_word a.data_word || ltb_ℤ delta (pos (b.data_word - a.data_word)))
          (λ _. g)
          λ gate. elim (add_delta-cases b.delta0 (b.data_word - a.data_word)) [
            | inl e ↦ rw e gate_fails
            | inr (d0, e, t0) ↦ elim (add_delta-cases b.delta1 (b.data_word - a.data_word)) [
              | inl e' ↦ rw (e, e') gate_fails
              | inr (d1, e', t1) ↦
                  rw (e, e')
                    (gate_open _ (record {
                      neighbor = b;
                      found = found;
                      is_replicator = ground arith;
                      below = ground arith;
                      level = refl;
                      target0 = t0;
                      target1 = t1;
                      outer = refl;
                      inside = lt;
                      wired = record {
                        at_principal = w.at_principal;
                        at_aux0 = w.at_aux0;
                        at_aux1 = w.at_aux1;
                      };
                    }))
            ]
          ]

c2_side-Gate :
    {n : Net} {a : Slot} (b : Bool) (p : PortId) (d : ℤ) {next : Result (Option C2Merge)}
    → IsSafe n
    → InNet n p
    → Gate n a next
    → Gate n a (c2_side a (fetch_in n) b p d next)
unfolding c2_side slot_at
c2_side-Gate {n} {a} b p d {next} safe lt g =
    let (s, e) = get_elem?-in n.arena.slots (slot_idx p) lt in
    let got : Gate n a (bind (fetch_in n p) λ b. c2_meet a p d b next) =
      rw (e, bind, slot_at) (c2_meet-Gate p d s e lt (safe.wired (slot_idx p) s e) g) in
    if-Gate (not b) (λ _. g) λ _. if-Gate _ (λ _. g) λ _. got

-- The gate of `c2_rep_merge`, for a replicator whose wires lead to slots of a safe net, does not
-- panic. If it opens, the neighbor that it names is a replicator of at least the level of the first
-- one, and the shifted neighbor has the level of the first one and deltas that lead to the same
-- levels as before.
pub c2_gate_and_shift-Gate :
    {n : Net} (a : Slot) → IsSafe n → IsWired n a → Gate n a (c2_gate_and_shift a (fetch_in n))
unfolding c2_gate_and_shift
c2_gate_and_shift-Gate a safe w =
    if-Gate (not (rep_is_unpaired a)) (λ _. gate_shut)
      λ _.
        c2_side-Gate (rep_aux1_erased a) a.aux0 a.delta0 safe w.at_aux0
          (c2_side-Gate (rep_aux0_erased a) a.aux1 a.delta1 safe w.at_aux1 gate_shut)

-- As many slots, and those that are live are the same but for `i`.
pub record But (i : ℕ) (n m : Net) : Type 0 where
  pub size_but : size m ≡ size n
  pub live_but : (j : ℕ) → j ≢ i → is_live m j ≡ is_live n j

c2_apply-Returns :
    {n : Net} {a : Slot} (rep_a : PortId) (lo : LoPath) (m : C2Merge)
    → IsSafe n
    → is_live n (slot_idx rep_a) ≡ true
    → IsWired n a
    → IsMerge n a m
    → Returns (λ _. But (slot_idx rep_a) n) (c2_apply rep_a lo (some m) n)
unfolding c2_apply
c2_apply-Returns {n} rep_a lo m safe live w g =
    let (inside, many) = live-inside (slot_idx rep_a) safe live in
    and_then-Returns
      (modify_slot-Returns (slot_idx m.rep_b) (λ _. m.b_shifted) safe g.inside (λ _ _. g.wired))
      λ _ n1 safe same.
        let start : Holds (size n) (count n - 1 + 1) (is_live n) n1 = record {
          sized = same.size_same;
          counted = omega (arith, same.count_same);
          living = same.live_same;
        } in
        and_then-Returns (retire-Holds (slot_idx rep_a) safe start live) λ _ _ safe h.
          mono-Returns
            (connect-Holds safe h m.rep_b m.ext lo g.inside
              (omega (arith, ap slot_idx g.outer, w.at_principal)))
            λ _ _ h. record { size_but = h.sized; live_but = λ j ne. h.living j ∙ ground arith }

pub But-refl : (i : ℕ) (n : Net) → But i n n
But-refl i n = record { size_but = refl; live_but = λ j ne. refl }

-- `c2_rep_merge`, on a live replicator of a safe net, does not panic: it leaves a safe net with as
-- many slots, and no slot but that of the replicator has become live or ceased to be, unless it
-- ends in an error, also in a safe net.
pub c2_rep_merge-Returns :
    {n : Net} (rep_a : PortId) (lo : LoPath)
    → IsSafe n
    → is_live n (slot_idx rep_a) ≡ true
    → Returns (λ _. But (slot_idx rep_a) n) (c2_rep_merge rep_a lo n)
unfolding c2_rep_merge c2_apply
c2_rep_merge-Returns {n} rep_a lo safe live =
    slot_at-bind (slot_idx rep_a) _ safe (live-inside (slot_idx rep_a) safe live).0
      λ a e w. on a w (c2_gate_and_shift a (fetch_in n)) (c2_gate_and_shift-Gate a safe w)
  where
    on :
        (a : Slot)
        → IsWired n a
        → (r : Result (Option C2Merge)) → Gate n a r
        → Returns (λ _. But (slot_idx rep_a) n) (and_then (r, n) (c2_apply rep_a lo))
    on a w _ gate_shut = returns safe (But-refl (slot_idx rep_a) n)
    on a w _ gate_fails = fails safe
    on a w _ (gate_open m g) = c2_apply-Returns rep_a lo m safe live w g

decay_both-Returns :
    {n : Net} (rep_p ext : PortId) (lo : LoPath)
    → IsSafe n
    → is_live n (slot_idx rep_p) ≡ true
    → InNet n ext
    → Returns (λ _. But (slot_idx rep_p) n) (decay_both rep_p ext lo n)
unfolding decay_both slot_idx
decay_both-Returns {n} rep_p ext lo safe live at =
    let (inside, many) = live-inside (slot_idx rep_p) safe live in
    let start : Holds (size n) (count n - 1 + 1) (is_live n) n = record {
      sized = refl;
      counted = omega arith;
      living = λ j. refl;
    } in
    and_then-Returns (erase-Holds safe start ext at) λ _ _ safe' h.
      and_then-Returns (retire-Holds (slot_idx rep_p) safe' h live) λ _ _ safe'' h.
        mono-Returns (connect-Holds safe'' h Port.era ext lo safe.valid.sentinel at)
          λ _ _ h. record { size_but = h.sized; live_but = λ j ne. h.living j ∙ ground arith }

decay_to-Returns :
    {n : Net} (rep_p ext kept : PortId) (lo : LoPath)
    → IsSafe n
    → is_live n (slot_idx rep_p) ≡ true
    → InNet n ext
    → InNet n kept
    → Returns (λ _. But (slot_idx rep_p) n) (decay_to rep_p ext kept lo n)
unfolding decay_to
decay_to-Returns {n} rep_p ext kept lo safe live at to =
    let (inside, many) = live-inside (slot_idx rep_p) safe live in
    let start : Holds (size n) (count n - 1 + 1) (is_live n) n = record {
      sized = refl;
      counted = omega arith;
      living = λ j. refl;
    } in
    and_then-Returns (retire-Holds (slot_idx rep_p) safe start live) λ _ _ safe h.
      mono-Returns (connect-Holds safe h ext kept lo at to)
        λ _ _ h. record { size_but = h.sized; live_but = λ j ne. h.living j ∙ ground arith }

c3_cases-Returns :
    {n : Net} (rep_p : PortId) (rep : Slot) (lo : LoPath) (e0 e1 : Bool)
    → IsSafe n
    → is_live n (slot_idx rep_p) ≡ true
    → IsWired n rep
    → Returns (λ _. But (slot_idx rep_p) n) (c3_cases rep_p rep lo e0 e1 n)
unfolding c3_cases
c3_cases-Returns {n} rep_p rep lo true true safe live w =
    if-Returns (rep_is_unpaired rep) (decay_both rep_p rep.principal lo) done
      (decay_both-Returns rep_p rep.principal lo safe live w.at_principal)
      (returns safe (But-refl (slot_idx rep_p) n))
c3_cases-Returns {n} rep_p rep lo true false safe live w =
    if-Returns _ (decay_to rep_p rep.principal rep.aux1 lo) done
      (decay_to-Returns rep_p rep.principal rep.aux1 lo safe live w.at_principal w.at_aux1)
      (returns safe (But-refl (slot_idx rep_p) n))
c3_cases-Returns {n} rep_p rep lo false true safe live w =
    if-Returns _ (decay_to rep_p rep.principal rep.aux0 lo) done
      (decay_to-Returns rep_p rep.principal rep.aux0 lo safe live w.at_principal w.at_aux0)
      (returns safe (But-refl (slot_idx rep_p) n))
c3_cases-Returns {n} rep_p rep lo false false safe live w =
    returns safe (But-refl (slot_idx rep_p) n)

-- `c3_rep_decay`, on a live replicator of a safe net, does not panic: it leaves a safe net with as
-- many slots, and no slot but that of the replicator has become live or ceased to be, unless it
-- ends in an error, also in a safe net.
pub c3_rep_decay-Returns :
    {n : Net} (rep_p : PortId) (lo : LoPath)
    → IsSafe n
    → is_live n (slot_idx rep_p) ≡ true
    → Returns (λ _. But (slot_idx rep_p) n) (c3_rep_decay rep_p lo n)
unfolding c3_rep_decay
c3_rep_decay-Returns rep_p lo safe live =
    slot_at-bind (slot_idx rep_p) _ safe (live-inside (slot_idx rep_p) safe live).0 λ rep e w.
      c3_cases-Returns rep_p rep lo (rep_aux0_erased rep) (rep_aux1_erased rep) safe live w
