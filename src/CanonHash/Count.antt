-- ===== src/CanonHash/Count.antt =====
-- The slots that the walk of crates/dnx-core/src/canonical_hash.rs has not come to yet.
use dnet.Prelude.{
  ℕ, zero, suc, ◌+◌, ◌≤◌, ◌<◌, ◌≡◌, ◌≢◌, refl, ap, ap₂, ◌∙◌, true, false, Option, none, some, arith,
  ◌==◌, Bool-cases, inl, inr,
}
use dnet.CanonHash.{IdxMap, assign}

count_one : Option ℕ → ℕ → ℕ
count_one none rest = suc rest
count_one (some i) rest = rest

count_one-le : (o : Option ℕ) (rest k : ℕ) → rest ≤ k → count_one o rest ≤ suc k
unfolding count_one
count_one-le none rest k le = omega arith
count_one-le (some i) rest k le = omega arith

-- How many of the first slots have no index yet.
pub open_slots : IdxMap → ℕ → ℕ
open_slots idx zero = 0
open_slots idx (suc k) = count_one (idx k) (open_slots idx k)

pub open_slots-le : (idx : IdxMap) (k : ℕ) → open_slots idx k ≤ k
unfolding open_slots
open_slots-le idx zero = omega arith
open_slots-le idx (suc k) = count_one-le (idx k) (open_slots idx k) k (open_slots-le idx k)

pub assign-here : (idx : IdxMap) (i v : ℕ) → assign i v idx i ≡ some v
assign-here idx i v = let here : (i == i) ≡ true = ground arith in rw here refl

assign-past : (idx : IdxMap) (i v : ℕ) {j : ℕ} → j ≢ i → assign i v idx j ≡ idx j
assign-past idx i v {j} ne = let there : (j == i) ≡ false = ground arith in rw there refl

assign-keep : (idx : IdxMap) (i v k : ℕ) → k ≤ i → open_slots (assign i v idx) k ≡ open_slots idx k
unfolding open_slots
assign-keep idx i v zero le = refl
assign-keep idx i v (suc k) le =
    ap₂ (λ o r. count_one o r) (assign-past idx i v (λ e. absurd (omega arith)))
      (assign-keep idx i v k (omega arith))

pub assign-open :
    (idx : IdxMap) (i v k : ℕ)
    → i < k
    → idx i ≡ none
    → open_slots (assign i v idx) k + 1 ≡ open_slots idx k
unfolding open_slots count_one
assign-open idx i v zero lt new = absurd (omega arith)
assign-open idx i v (suc k) lt new = elim (Bool-cases (k == i)) [
  | inl same ↦
      let e : k ≡ i = ground arith in
      let kept = assign-keep idx i v k (omega arith) in
      let new' : idx k ≡ none = ap idx e ∙ new in
      let now : assign i v idx k ≡ some v = ap (assign i v idx) e ∙ assign-here idx i v in
      let before = ap (λ o. count_one o (open_slots (assign i v idx) k)) now in
      let after = ap (λ o. count_one o (open_slots idx k)) new' in
      open_last (open_slots (assign i v idx) k) (open_slots idx k) before after kept
  | inr other ↦
      let below = assign-open idx i v k (ground arith) new in
      let past = assign-past idx i v (λ (e : k ≡ i). absurd (ground arith)) in
      let now = ap (λ o. count_one o (open_slots (assign i v idx) k)) past in
      open_below (idx k) (open_slots (assign i v idx) k) (open_slots idx k) now below
]
  where
    open_last :
        (a b : ℕ) {x y : ℕ} → x ≡ count_one (some v) a → y ≡ count_one none b → a ≡ b → x + 1 ≡ y
    open_last a b e e' same = omega (arith)

    open_below :
        (o : Option ℕ) (a b : ℕ) {x : ℕ} → x ≡ count_one o a → a + 1 ≡ b → x + 1 ≡ count_one o b
    open_below none a b e same = omega (arith)
    open_below (some i) a b e same = omega (arith)
