-- ===== src/Slot/Tags.antt =====
-- The kind of an agent, in the low half of its tag, and the flags (crates/dnx-core/src/slot.rs). A
-- tag is a byte, so the tests run over all 256 values.
use dnet.Slot.{
  Slot, empty, is_free, is_fan, is_rep, is_prim, fan_is_abs, polarity, tag_aux0_erased,
  tag_aux1_erased, tag_erasing_abs, tag_c1_mark, rep_is_unpaired,
}
use Prim.Native.Nat.{bit_xor}
use dnet.Port.{PortKind, principal, aux0, aux1, Polarity, child, parent}
use dnet.Prelude.{
  ℕ, zero, suc, ◌+◌, ◌<◌, ◌≡◌, refl, ap, ◌∙◌, bit_and, bit_or, Bool, true, false, ◌&&◌, Option,
  none, some, arith, ◌==◌, ◌⊎◌, inl, inr,
}

-- The test on each of `left` numbers, from `start` up.
every : (ℕ → Bool) → ℕ → ℕ → Bool
every test start zero = true
every test start (suc left) = test start && every test (start + 1) left

every_at :
    (test : ℕ → Bool) (left start d : ℕ)
    → every test start left ≡ true
    → d < left
    → test (start + d) ≡ true
unfolding every
every_at test zero start d all lt = absurd (omega arith)
every_at test (suc left) start zero all lt = ground arith
every_at test (suc left) start (suc d) all lt =
    let later = every_at test left (start + 1) d (ground arith) (omega arith) in
    ap test (omega arith) ∙ later

every_below : (test : ℕ → Bool) (n d : ℕ) → every test 0 n ≡ true → d < n → test d ≡ true
every_below test n d all lt =
    let here : d ≡ 0 + d = omega arith in ap test here ∙ every_at test n 0 d all lt

-- Setting any of the four flags leaves what kind of agent the slot holds.
abbrev pub with_flag : Slot → ℕ → Slot
with_flag s flag = record s { tag = bit_or s.tag flag }

abbrev pub IsFlag : ℕ → Type 0
IsFlag f = (f ≡ tag_aux0_erased) ⊎ (f ≡ tag_aux1_erased) ⊎ (f ≡ tag_erasing_abs) ⊎ (f ≡ tag_c1_mark)

-- The four masks that the tests of the kind apply.
masks_kept : ℕ → ℕ → Bool
masks_kept flag tag =
    bit_and (bit_or tag flag) 0x0C == bit_and tag 0x0C
    && (bit_and (bit_or tag flag) 0x0E == bit_and tag 0x0E
        && (bit_and (bit_or tag flag) 0x01 == bit_and tag 0x01
            && bit_and (bit_or tag flag) 0x02 == bit_and tag 0x02))

flags_kept : (f : ℕ) → IsFlag f → every (masks_kept f) 0 256 ≡ true
unfolding every masks_kept
flags_kept f (inl e) = rw e
flags_kept f (inr (inl e)) = rw e
flags_kept f (inr (inr (inl e))) = rw e
flags_kept f (inr (inr (inr e))) = rw e

flag-masks :
    (f tag : ℕ)
    → masks_kept f tag ≡ true
    → (bit_and (bit_or tag f) 0x0C ≡ bit_and tag 0x0C)
      × (bit_and (bit_or tag f) 0x0E ≡ bit_and tag 0x0E)
      × (bit_and (bit_or tag f) 0x01 ≡ bit_and tag 0x01)
      × (bit_and (bit_or tag f) 0x02 ≡ bit_and tag 0x02)
unfolding masks_kept
flag-masks f tag e = ground arith

-- Setting a flag in the upper half of a tag that is a byte changes no test of the kind of the
-- agent, nor the polarity of its ports.
with_flag-kind :
    (s : Slot) (f : ℕ)
    → s.tag < 256
    → IsFlag f
    → (is_free (with_flag s f) ≡ is_free s)
      × (is_fan (with_flag s f) ≡ is_fan s)
      × (is_rep (with_flag s f) ≡ is_rep s)
      × (is_prim (with_flag s f) ≡ is_prim s)
      × (fan_is_abs (with_flag s f) ≡ fan_is_abs s)
      × (rep_is_unpaired (with_flag s f) ≡ rep_is_unpaired s)
      × ((k : PortKind) → polarity (with_flag s f) k ≡ polarity s k)
unfolding is_free is_fan is_rep is_prim fan_is_abs rep_is_unpaired polarity
with_flag-kind s f lt isf =
    let (c, e, one, two) =
      flag-masks f s.tag (every_below (masks_kept f) 256 s.tag (flags_kept f isf) lt) in
    rw (c, e, one, two) (refl, refl, refl, refl, refl, refl, λ k. refl)

-- The opposite polarity, where there is one.
abbrev pub opposite : Option Polarity → Option Polarity
opposite none = none
opposite (some child) = some parent
opposite (some parent) = some child

abbrev same : Option Polarity → Option Polarity → Bool
same none none = true
same (some child) (some child) = true
same (some parent) (some parent) = true
same _ _ = false

same→eq : (a b : Option Polarity) → same a b ≡ true → a ≡ b
same→eq a b h = ground arith

dual_at : PortKind → ℕ → Bool
unfolding polarity
dual_at k tag =
    same (polarity (record empty { tag = bit_xor tag 1 }) k)
      (opposite (polarity (record empty { tag = tag }) k))

duals : (k : PortKind) → every (dual_at k) 0 256 ≡ true
unfolding every dual_at
duals principal = refl
duals aux0 = refl
duals aux1 = refl

-- For a tag that is a byte, the two variants of an agent, which differ in the lowest bit, have
-- opposite polarity at each port that has one.
polarity-dual :
    (s : Slot) (k : PortKind)
    → s.tag < 256
    → polarity (record s { tag = bit_xor s.tag 1 }) k ≡ opposite (polarity s k)
unfolding polarity dual_at
polarity-dual s k lt = same→eq _ _ (every_below (dual_at k) 256 s.tag (duals k) lt)
