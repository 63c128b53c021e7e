-- ===== src/LoPath/Pack.antt =====
-- A string of turns as the top bits of a number of `w` bits.
use native.Mathlib.Nat.{pow-suc, one-le-pow, zero-add, suc-add, mul-add-div_right, div-eq_of_lt}
use dnet.LoPath.{bit_value}
use dnet.Prelude.{
  ℕ, zero, suc, ◌+◌, ◌*◌, ◌/◌, ◌^◌, ◌≤◌, ◌<◌, compare, Ordering, ◌≡◌, refl, ap, ◌∙◌, Bool, true,
  false, List, [], ◌∷◌, ◌++◌, arith, length, drop, then_with,
}

-- The first `w` turns, the first one in the highest bit, the missing ones 0.
unfoldable pub pack : ℕ → List Bool → ℕ
pack zero bs = 0
pack (suc w) [] = 0
pack (suc w) (b ∷ bs) = bit_value b * 2 ^ w + pack w bs

pub pack-lt : (w : ℕ) (bs : List Bool) → pack w bs < 2 ^ w
unfolding pack
pack-lt zero bs = omega arith
pack-lt (suc w) [] = one-le-pow (suc w) 2 (omega arith)
pack-lt (suc w) (b ∷ bs) = ground (arith, pow-suc 2 w, pack-lt w bs)

-- The order of turns: an outer path before an inner one, left before right.
unfoldable pub lex : List Bool → List Bool → Ordering
lex [] [] = Ordering.eq
lex [] (c ∷ cs) = Ordering.lt
lex (b ∷ bs) [] = Ordering.gt
lex (false ∷ bs) (false ∷ cs) = lex bs cs
lex (true ∷ bs) (true ∷ cs) = lex bs cs
lex (false ∷ bs) (true ∷ cs) = Ordering.lt
lex (true ∷ bs) (false ∷ cs) = Ordering.gt

-- Packed strings compare as the strings do, up to the length that tells a string from the
-- same string with zeros behind it.
pub lex-pack :
    (w : ℕ) (bs cs : List Bool)
    → length bs ≤ w
    → lex bs cs ≡ then_with (compare (pack w bs) (pack w cs)) (compare (length bs) (length cs))
unfolding lex pack
lex-pack zero [] [] h = refl
lex-pack zero [] (c ∷ cs) h = ground arith
lex-pack zero (b ∷ bs) cs h = absurd (omega arith)
lex-pack (suc w) [] [] h = refl
lex-pack (suc w) [] (c ∷ cs) h = ground arith
lex-pack (suc w) (b ∷ bs) [] h = ground arith
lex-pack (suc w) (false ∷ bs) (false ∷ cs) h = ground (arith, lex-pack w bs cs)
lex-pack (suc w) (true ∷ bs) (true ∷ cs) h = ground (arith, lex-pack w bs cs)
lex-pack (suc w) (false ∷ bs) (true ∷ cs) h = ground (arith, pack-lt w bs, pack-lt w cs)
lex-pack (suc w) (true ∷ bs) (false ∷ cs) h = ground (arith, pack-lt w bs, pack-lt w cs)

two-pow-add : (n d : ℕ) → 2 ^ (n + d) ≡ 2 ^ n * 2 ^ d
two-pow-add zero d = simp zero-add (omega arith)
two-pow-add (suc n) d = simp (suc-add, pow-suc, two-pow-add n d) (omega arith)

pack-nil : (w : ℕ) → pack w [] ≡ 0
unfolding pack
pack-nil zero = refl
pack-nil (suc w) = refl

drop-all : (bs : List Bool) → drop (length bs) bs ≡ []
drop-all [] = refl
drop-all (b ∷ bs) = drop-all bs

-- The first `n` turns are the high part.
pack-split :
    (n d w : ℕ) (bs : List Bool) → w ≡ n + d → pack w bs ≡ pack n bs * 2 ^ d + pack d (drop n bs)
unfolding pack
pack-split zero d w bs e = let same : w ≡ d = omega arith in rw same (omega arith)
pack-split (suc n) d zero bs e = absurd (omega arith)
pack-split (suc n) d (suc w) [] e = omega (arith, pack-nil d)
pack-split (suc n) d (suc w) (false ∷ bs) e = omega (arith, pack-split n d w bs (omega arith))
pack-split (suc n) d (suc w) (true ∷ bs) e =
    let same : w ≡ n + d = omega arith in
    omega (arith, pack-split n d w bs same, two-pow-add n d, ap (λ (t : ℕ). 2 ^ t) same)

-- The bits behind the string are clear.
pub pack-shift :
    (d w : ℕ) (bs : List Bool) → w ≡ length bs + d → pack w bs ≡ pack (length bs) bs * 2 ^ d
pack-shift d w bs e = pack-split (length bs) d w bs e ∙ rw (drop-all bs, pack-nil d) (omega arith)

-- The top `n` bits.
pub pack-top : (n d w : ℕ) (bs : List Bool) → w ≡ n + d → pack w bs / 2 ^ d ≡ pack n bs
pack-top n d w bs e = rw (pack-split n d w bs e) (
    mul-add-div_right (one-le-pow d 2 (omega arith)) (pack n bs) (pack d (drop n bs))
    ∙ rw (div-eq_of_lt (pack-lt d (drop n bs))) (omega arith))

-- Pushing a turn behind a string that has room.
pub pack-snoc :
    (d w : ℕ) (bs : List Bool) (b : Bool)
    → w ≡ length bs + suc d
    → pack w (bs ++ b ∷ []) ≡ pack w bs + bit_value b * 2 ^ d
unfolding pack
pack-snoc d zero [] b e = absurd (omega arith)
pack-snoc d (suc w) [] b e = let same : w ≡ d = omega arith in rw same (omega (arith, pack-nil d))
pack-snoc d zero (c ∷ bs) b e = absurd (omega arith)
pack-snoc d (suc w) (c ∷ bs) b e = omega (arith, pack-snoc d w bs b (omega arith))

pub pack-injective :
    (n : ℕ) (bs cs : List Bool) → length bs ≡ n → length cs ≡ n → pack n bs ≡ pack n cs → bs ≡ cs
unfolding pack
pack-injective n [] [] p q e = refl
pack-injective n [] (c ∷ cs) p q e = absurd (omega arith)
pack-injective n (b ∷ bs) [] p q e = absurd (omega arith)
pack-injective zero (b ∷ bs) (c ∷ cs) p q e = absurd (omega arith)
pack-injective (suc n) (false ∷ bs) (false ∷ cs) p q e =
    ap (λ l. false ∷ l) (pack-injective n bs cs (omega arith) (omega arith) (omega arith))
pack-injective (suc n) (true ∷ bs) (true ∷ cs) p q e =
    ap (λ l. true ∷ l) (pack-injective n bs cs (omega arith) (omega arith) (omega arith))
pack-injective (suc n) (true ∷ bs) (false ∷ cs) p q e = absurd (omega (arith, pack-lt n cs))
pack-injective (suc n) (false ∷ bs) (true ∷ cs) p q e = absurd (omega (arith, pack-lt n bs))
