-- ===== src/LoPath/Order.antt =====
-- `Ord for LOPath` (crates/dnx-core/src/lopath.rs), which compares limbs, then depths, on turns.
use dnet.LoPath.{LoPath, root, depth, full, all_limbs, cmp, cmp_limbs}
use dnet.LoPath.Pack.{pack, lex, lex-pack}
use dnet.LoPath.Turns.{walk, layout, flat, AllFull, Holds, length-flat, walk-root-Holds}
use dnet.Prelude.{
  ℕ, zero, suc, ◌+◌, ◌*◌, ◌≤◌, compare, Ordering, ◌≡◌, refl, Bool, true, false, List, [], ◌∷◌, ◌++◌,
  arith, length, length-append, then_with,
}
use dnet.Error.{ok}

abbrev pub limbs : List (List Bool) → List Bool → List ℕ
limbs [] h = pack 128 h ∷ []
limbs (c ∷ cs) h = pack 128 c ∷ limbs cs h

pub all_limbs-layout :
    (cs : List (List Bool)) (h : List Bool) → length cs ≤ 3 → all_limbs (layout cs h) ≡ limbs cs h
unfolding all_limbs
all_limbs-layout [] h le = refl
all_limbs-layout (w ∷ []) h le = refl
all_limbs-layout (c ∷ w ∷ []) h le = refl
all_limbs-layout (f ∷ c ∷ w ∷ []) h le = refl
all_limbs-layout (f ∷ c ∷ w ∷ x ∷ r) h le = absurd (omega arith)

depth-layout :
    (cs : List (List Bool)) (h : List Bool)
    → length cs ≤ 3
    → depth (layout cs h) ≡ 128 * length cs + length h
unfolding depth full
depth-layout [] h le = omega arith
depth-layout (w ∷ []) h le = omega arith
depth-layout (c ∷ w ∷ []) h le = omega arith
depth-layout (f ∷ c ∷ w ∷ []) h le = omega arith
depth-layout (f ∷ c ∷ w ∷ x ∷ r) h le = absurd (omega arith)

-- `depth` is the number of turns.
pub depth-Holds : {p : LoPath} {bs : List Bool} → Holds p bs → depth p ≡ length bs
depth-Holds v =
    rw (v.shape, v.turns)
      (omega (arith, depth-layout v.chunks v.top v.few, length-flat v.chunks v.top v.whole))

swap : Ordering → Ordering
swap Ordering.lt = Ordering.gt
swap Ordering.eq = Ordering.eq
swap Ordering.gt = Ordering.lt

lex-swap : (bs cs : List Bool) → lex bs cs ≡ swap (lex cs bs)
unfolding lex swap
lex-swap [] [] = refl
lex-swap [] (c ∷ cs) = refl
lex-swap (b ∷ bs) [] = refl
lex-swap (true ∷ bs) (true ∷ cs) = lex-swap bs cs
lex-swap (false ∷ bs) (false ∷ cs) = lex-swap bs cs
lex-swap (true ∷ bs) (false ∷ cs) = refl
lex-swap (false ∷ bs) (true ∷ cs) = refl

compare-swap :
    (a b c d : ℕ)
    → then_with (compare a b) (compare c d) ≡ swap (then_with (compare b a) (compare d c))
unfolding swap
compare-swap a b c d = ground arith

lex-append :
    (c d x y : List Bool)
    → length c ≡ length d
    → lex (c ++ x) (d ++ y) ≡ then_with (lex c d) (lex x y)
unfolding lex
lex-append [] [] x y e = refl
lex-append [] (b ∷ d) x y e = absurd (omega arith)
lex-append (b ∷ c) [] x y e = absurd (omega arith)
lex-append (true ∷ c) (true ∷ d) x y e = lex-append c d x y (omega arith)
lex-append (false ∷ c) (false ∷ d) x y e = lex-append c d x y (omega arith)
lex-append (true ∷ c) (false ∷ d) x y e = refl
lex-append (false ∷ c) (true ∷ d) x y e = refl

pub pack-append : (w : ℕ) (c y : List Bool) → w ≤ length c → pack w (c ++ y) ≡ pack w c
unfolding pack
pack-append zero c y e = refl
pack-append (suc w) [] y e = absurd (omega arith)
pack-append (suc w) (b ∷ c) y e = omega (arith, pack-append w c y (omega arith))

cmp_limbs-nil : (xs : List ℕ) → cmp_limbs xs [] ≡ Ordering.eq
unfolding cmp_limbs
cmp_limbs-nil [] = refl
cmp_limbs-nil (x ∷ xs) = refl

cmp_limbs-lex :
    (cs ds : List (List Bool)) (h g : List Bool)
    → AllFull cs
    → AllFull ds
    → length h ≤ 128
    → length g ≤ 128
    → then_with
        (cmp_limbs (limbs cs h) (limbs ds g))
        (compare (length (flat cs h)) (length (flat ds g)))
      ≡ lex (flat cs h) (flat ds g)
unfolding cmp_limbs
cmp_limbs-lex [] [] h g a b p q = ground (arith, lex-pack 128 h g p)
cmp_limbs-lex [] (d ∷ ds) h g a b p q =
    ground (arith, lex-pack 128 h (d ++ flat ds g) p, pack-append 128 d (flat ds g) (omega arith))
cmp_limbs-lex (c ∷ cs) [] h g a b p q = ground (
  arith,
  lex-pack 128 g (c ++ flat cs h) q,
  lex-swap (c ++ flat cs h) g,
  cmp_limbs-nil (limbs cs h),
  compare-swap (pack 128 c) (pack 128 g) (length (c ++ flat cs h)) (length g),
  pack-append 128 c (flat cs h) (omega arith),
)
cmp_limbs-lex (c ∷ cs) (d ∷ ds) h g a b p q = ground (
  arith,
  lex-append c d (flat cs h) (flat ds g) (omega arith),
  lex-pack 128 c d (omega arith),
  length-append {0} c (flat cs h),
  length-append {0} d (flat ds g),
  cmp_limbs-lex cs ds h g a.1 b.1 p q,
)

cmp_parts :
    (p q : LoPath)
    → cmp p q ≡ then_with (cmp_limbs (all_limbs p) (all_limbs q)) (compare (depth p) (depth q))
unfolding cmp
cmp_parts p q = refl

pub cmp-Holds : {p q : LoPath} {bs cs : List Bool} → Holds p bs → Holds q cs → cmp p q ≡ lex bs cs
cmp-Holds {p} {q} v w =
    rw (cmp_parts p q, depth-Holds v, depth-Holds w)
      (rw (v.shape, w.shape, v.turns, w.turns)
        (rw (all_limbs-layout v.chunks v.top v.few, all_limbs-layout w.chunks w.top w.few)
          (cmp_limbs-lex v.chunks w.chunks v.top w.top v.whole w.whole v.room w.room)))

-- The order of two paths, compared limb by limb, is the lexicographic order of the turns that were
-- taken from the root, a prefix before what it is a prefix of.
pub cmp-walk :
    (bs cs : List Bool) {p q : LoPath}
    → walk root bs ≡ ok p
    → walk root cs ≡ ok q
    → cmp p q ≡ lex bs cs
cmp-walk bs cs e f = cmp-Holds (walk-root-Holds bs e) (walk-root-Holds cs f)
