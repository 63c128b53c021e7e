-- ===== src/Net/Chain.antt =====
-- Steps of a rule one after the other: what a chain of wirings and retirements leaves.
use dnet.Prelude.{
  ℕ, ◌+◌, ◌≤◌, ◌<◌, ◌≡◌, ◌≢◌, refl, ◌∙◌, Bool, true, false, Option, none, Option-cases, inl, inr,
  sym, ap, arith, ◌==◌, if◌then◌else◌, get_elem?, some,
}
use dnet.Error.{DnxError, Result, ok, err, ◌>>=◌ as bind}
use dnet.LoPath.{LoPath, promote, push_bit, extend_bit, extend_left, extend_right}
use dnet.Arena
use dnet.Arena.Live.{get_elem?-lt}
use dnet.Port.{PortId, slot_idx}
use dnet.Net.{Net, Action, and_then, connect, link_no_pair, retire, set_eraser_on_port}
use dnet.Net.Safe.{size, is_live, count, IsSafe, Returns, fails, Same}
use dnet.Net.Keeps.{
  connect-Returns, link_no_pair-Returns, set_eraser_on_port-Returns, mono-Returns, retire-Returns,
}

-- A net of `k` slots, `c` of them live, those that `f` tells.
pub record Holds (k c : ℕ) (f : ℕ → Bool) (n : Net) : Type 0 where
  pub sized : size n ≡ k
  pub counted : count n ≡ c
  pub living : (j : ℕ) → is_live n j ≡ f j

abbrev pub Here : Net → Net → Type 0
Here n = Holds (size n) (count n) (is_live n)

pub Here-refl : (n : Net) → Here n n
Here-refl n = record { sized = refl; counted = refl; living = λ j. refl }

-- A result that is not a panic.
pub data Calm {A : Type 0} : Result A → Type 0 where
  calm_ok : (a : A) → Calm (ok a)
  calm_err : {e : DnxError} → Calm (err e)

promote-Calm : (h : ℕ) (w c f : Option ℕ) → Calm (promote h w c f)
unfolding promote
promote-Calm h none c f = calm_ok _
promote-Calm h (some w) none f = calm_ok _
promote-Calm h (some w) (some c) none = calm_ok _
promote-Calm h (some w) (some c) (some f) = calm_err

bind-Calm : {A B : Type 0} {r : Result A} (g : A → B) → Calm r → Calm (bind r λ a. ok (g a))
bind-Calm g (calm_ok a) = calm_ok (g a)
bind-Calm g calm_err = calm_err

if-Calm : {A : Type 0} (b : Bool) {x y : Result A} → Calm x → Calm y → Calm (if b then x else y)
if-Calm true p q = p
if-Calm false p q = q

pub extend_bit-Calm : (lo : LoPath) (b : Bool) → Calm (extend_bit lo b)
unfolding extend_bit
extend_bit-Calm lo b =
    bind-Calm (λ out. push_bit out b)
      (if-Calm (lo.len == 128) (promote-Calm lo.hot lo.warm lo.cold lo.frozen) (calm_ok lo))

pub extend_left-Calm : (lo : LoPath) → Calm (extend_left lo)
unfolding extend_left
extend_left-Calm lo = extend_bit-Calm lo false

pub extend_right-Calm : (lo : LoPath) → Calm (extend_right lo)
unfolding extend_right
extend_right-Calm lo = extend_bit-Calm lo true

-- What follows a result that is no panic.
pub lift-bind :
    {A B : Type 0} {R : B → Net → Type 0} {r : Result A} {n : Net} (k : A → Action B)
    → Calm r
    → IsSafe n
    → ((a : A) → Returns R (k a n))
    → Returns R (and_then (r, n) k)
lift-bind k (calm_ok a) safe next = next a
lift-bind k calm_err safe next = fails safe

module _ {k c : ℕ} {f : ℕ → Bool} {n : Net} (safe : IsSafe n) (h : Holds k c f n) where
  after : {A : Type 0} {r : Result A × Net} → Returns (λ _. Same n) r → Returns (λ _. Holds k c f) r
  after did = mono-Returns did λ _ m same. record {
    sized = same.size_same ∙ h.sized;
    counted = same.count_same ∙ h.counted;
    living = λ j. same.live_same j ∙ h.living j;
  }

  pub connect-Holds :
      (a b : PortId) (lo : LoPath)
      → slot_idx a < k
      → slot_idx b < k
      → Returns (λ _. Holds k c f) (connect a b lo n)
  connect-Holds a b lo p q =
      after (connect-Returns a b lo safe (omega (arith, h.sized)) (omega (arith, h.sized)))

  pub link-Holds :
      (a b : PortId)
      → slot_idx a < k
      → slot_idx b < k
      → Returns (λ _. Holds k c f) (link_no_pair a b n)
  link-Holds a b p q =
      after (link_no_pair-Returns a b safe (omega (arith, h.sized)) (omega (arith, h.sized)))

  pub erase-Holds :
      (a : PortId) → slot_idx a < k → Returns (λ _. Holds k c f) (set_eraser_on_port a n)
  erase-Holds a p = after (set_eraser_on_port-Returns a safe (omega (arith, h.sized)))

-- The set without `i`.
abbrev pub without : ℕ → (ℕ → Bool) → ℕ → Bool
without i f j = if j == i then false else f j

pub retire-Holds :
    {k c : ℕ} {f : ℕ → Bool} {n : Net} (i : ℕ)
    → IsSafe n
    → Holds k (c + 1) f n
    → f i ≡ true
    → Returns (λ _. Holds k c (without i f)) (retire i n)
retire-Holds i safe h live = mono-Returns (retire-Returns i safe (h.living i ∙ live)) λ _ m freed.
    record {
      sized = freed.size_kept ∙ h.sized;
      counted = omega (arith, freed.count_less, h.counted);
      living = λ j. ground (arith, freed.live_kept j, h.living j);
    }

pub live-pos : (n : Net) (i : ℕ) → is_live n i ≡ true → (p : ℕ) × (n.arena.live_pos i ≡ some p)
unfolding Arena.is_live
live-pos n i live = elim (Option-cases (n.arena.live_pos i)) [
  | inl e ↦ absurd (ground arith)
  | inr found ↦ found
]

pub live-inside : {n : Net} (i : ℕ) → IsSafe n → is_live n i ≡ true → (i < size n) × (1 ≤ count n)
live-inside {n} i safe live =
    let (p, e) = live-pos n i live in
    let lt = get_elem?-lt n.arena.live_list p i (safe.valid.listed i p e) in
    (omega (arith, safe.valid.live_in i p e), omega arith)

pub live-two :
    {n : Net} (i j : ℕ) → IsSafe n → is_live n i ≡ true → is_live n j ≡ true → i ≢ j → 2 ≤ count n
live-two {n} i j safe live live' ne =
    let (p, e) = live-pos n i live in
    let (q, e') = live-pos n j live' in
    let at = safe.valid.listed i p e in
    let at' = safe.valid.listed j q e' in
    let lt = get_elem?-lt n.arena.live_list p i at in
    let lt' = get_elem?-lt n.arena.live_list q j at' in
    let apart : p ≢ q =
      λ same. ne (some-injective (sym at ∙ (ap (λ k. get_elem? n.arena.live_list k) same ∙ at'))) in
    omega arith
  where
    some-injective : {i j : ℕ} → some i ≡ some j → i ≡ j
    some-injective e = cc
