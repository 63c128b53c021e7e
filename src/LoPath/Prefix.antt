-- ===== src/LoPath/Prefix.antt =====
-- `is_prefix_of` and `prefix_independent` on turns.
use native.Mathlib.Decide.{dec_lt}
use native.Mathlib.Nat.{zero-add}
use dnet.LoPath.{
  LoPath, root, depth, all_limbs, n_limbs, nth_limb, prefix_loop, is_prefix_of, prefix_independent,
}
use dnet.LoPath.Pack.{pack, pack-lt, pack-top}
use dnet.LoPath.Turns.{walk, layout, flat, AllFull, Holds, length-flat, len-layout, walk-root-Holds}
use dnet.LoPath.Order.{limbs, all_limbs-layout, depth-Holds, pack-append}
use dnet.Prelude.{
  ℕ, suc, ◌+◌, ◌-◌, ◌/◌, ◌^◌, ◌≤◌, ◌<◌, ◌≡◌, refl, ap, Bool, true, false, not, ◌&&◌, List, [], ◌∷◌,
  ◌++◌, arith, length, length-append, get_or, ◌==◌, ltb, Bool-cases, inl, inr, if◌then◌else◌,
}
use dnet.Error.{ok}

same_turn : Bool → Bool → Bool
same_turn true b = b
same_turn false b = not b

-- The first string begins the second.
unfoldable pub starts : List Bool → List Bool → Bool
unfolding same_turn
starts [] cs = true
starts (b ∷ bs) [] = false
starts (b ∷ bs) (c ∷ cs) = same_turn b c && starts bs cs

-- Packed to its own length, a string begins another exactly if the numbers agree.
starts-pack :
    (bs cs : List Bool)
    → length bs ≤ length cs
    → starts bs cs ≡ (pack (length bs) bs == pack (length bs) cs)
unfolding starts pack
starts-pack [] cs le = ground arith
starts-pack (b ∷ bs) [] le = absurd (omega arith)
starts-pack (true ∷ bs) (true ∷ cs) le = ground (arith, starts-pack bs cs)
starts-pack (false ∷ bs) (false ∷ cs) le = ground (arith, starts-pack bs cs)
starts-pack (true ∷ bs) (false ∷ cs) le = ground (arith, pack-lt (length bs) cs)
starts-pack (false ∷ bs) (true ∷ cs) le = ground (arith, pack-lt (length bs) bs)

starts-append :
    (c d x y : List Bool)
    → length c ≡ length d
    → starts (c ++ x) (d ++ y) ≡ starts c d && starts x y
unfolding starts
starts-append [] [] x y e = refl
starts-append [] (b ∷ d) x y e = absurd (omega arith)
starts-append (b ∷ c) [] x y e = absurd (omega arith)
starts-append (b ∷ c) (a ∷ d) x y e = ground (arith, starts-append c d x y (omega arith))

last_limb :
    (h y : List Bool)
    → length h ≤ 128
    → length h ≤ length y
    → (pack 128 h / 2 ^ (128 - length h) == pack 128 y / 2 ^ (128 - length h)) ≡ starts h y
last_limb h y hr le = rw (
  pack-top (length h) (128 - length h) 128 h (omega arith),
  pack-top (length h) (128 - length h) 128 y (omega arith),
  starts-pack h y le,
)

whole_limb :
    (c d : List Bool) → length c ≡ 128 → length d ≡ 128 → (pack 128 c == pack 128 d) ≡ starts c d
whole_limb c d p q =
    rw (starts-pack c d (omega arith)) (ap (λ k. pack k c == pack k d) (omega arith))

-- What `prefix_loop` reads of the other path, from limb `i` on.
abbrev Reads : LoPath → ℕ → List ℕ → Type 0
Reads q i ys = (j : ℕ) → nth_limb q (i + j) ≡ get_or ys j 0

prefix_loop-starts :
    (cs ds : List (List Bool)) (h g : List Bool) (n i : ℕ) (q : LoPath)
    → AllFull cs
    → AllFull ds
    → length h ≤ 128
    → length g ≤ 128
    → 0 < length h
    → n ≡ i + suc (length cs)
    → length (flat cs h) ≤ length (flat ds g)
    → Reads q i (limbs ds g)
    → prefix_loop n (length h) q i (limbs cs h) ≡ starts (flat cs h) (flat ds g)
unfolding prefix_loop
prefix_loop-starts [] [] h g n i q a b hr gr pos e le rd =
    let shut : ltb (i + 1) n ≡ false = ground arith in
    let read : nth_limb q i ≡ pack 128 g = rw (← rd 0) (ap (λ k. nth_limb q k) (omega arith)) in
    rw (shut, read) (ground (arith, last_limb h g hr le))
prefix_loop-starts [] (d ∷ ds) h g n i q a b hr gr pos e le rd =
    let shut : ltb (i + 1) n ≡ false = ground arith in
    let read : nth_limb q i ≡ pack 128 d = rw (← rd 0) (ap (λ k. nth_limb q k) (omega arith)) in
    rw (shut, read, ← pack-append 128 d (flat ds g) (omega arith))
      (ground (arith, last_limb h (d ++ flat ds g) hr le))
prefix_loop-starts (c ∷ cs) [] h g n i q a b hr gr pos e le rd =
    absurd (omega (arith, length-append {0} c (flat cs h), length-flat cs h a.1))
prefix_loop-starts (c ∷ cs) (d ∷ ds) h g n i q a b hr gr pos e le rd =
    let inner : ltb (i + 1) n ≡ true = ground arith in
    let read : nth_limb q i ≡ pack 128 d = rw (← rd 0) (ap (λ k. nth_limb q k) (omega arith)) in
    let rest =
      prefix_loop-starts cs ds h g n (i + 1) q a.1 b.1 hr gr pos (omega arith)
        (omega (arith, length-append {0} c (flat cs h), length-append {0} d (flat ds g)))
        (λ j. rw (← rd (suc j)) (ap (λ k. nth_limb q k) (omega arith))) in
    rw (inner, read, rest, starts-append c d (flat cs h) (flat ds g) (omega arith))
      (ap (λ t. t && starts (flat cs h) (flat ds g)) (whole_limb c d a.0 b.0))

n_limbs-layout :
    (cs : List (List Bool)) (h : List Bool)
    → length cs ≤ 3
    → n_limbs (layout cs h) ≡ suc (length cs)
unfolding n_limbs
n_limbs-layout [] h le = omega arith
n_limbs-layout (w ∷ []) h le = omega arith
n_limbs-layout (c ∷ w ∷ []) h le = omega arith
n_limbs-layout (f ∷ c ∷ w ∷ []) h le = omega arith
n_limbs-layout (f ∷ c ∷ w ∷ x ∷ r) h le = absurd (omega arith)

is_prefix_of_parts :
    (p q : LoPath)
    → is_prefix_of p q ≡ (
        if depth p == 0
        then true
        else if ltb (depth q) (depth p)
        then false
        else prefix_loop (n_limbs p) p.len q 0 (all_limbs p))
unfolding is_prefix_of
is_prefix_of_parts p q = refl

starts-le : (bs cs : List Bool) → starts bs cs ≡ true → length bs ≤ length cs
unfolding starts
starts-le [] cs e = omega arith
starts-le (b ∷ bs) [] e = cc
starts-le (b ∷ bs) (c ∷ cs) e = ground (arith, starts-le bs cs)

nth_limb-layout :
    (cs : List (List Bool)) (h : List Bool) (j : ℕ)
    → length cs ≤ 3
    → nth_limb (layout cs h) j ≡ get_or (limbs cs h) j 0
unfolding nth_limb
nth_limb-layout cs h j few = ap (λ l. get_or l j 0) (all_limbs-layout cs h few)

starts-nil : (bs cs : List Bool) → length bs ≡ 0 → starts bs cs ≡ true
unfolding starts
starts-nil [] cs e = refl
starts-nil (b ∷ bs) cs e = absurd (omega arith)

starts-longer : (bs cs : List Bool) → length cs < length bs → starts bs cs ≡ false
starts-longer bs cs lt = elim (Bool-cases (starts bs cs)) [
  | inl e ↦ absurd (omega (arith, starts-le bs cs e))
  | inr e ↦ e
]

-- The loop, from its first limb on.
loop-Holds :
    {p q : LoPath} {bs cs : List Bool}
    → Holds p bs
    → Holds q cs
    → 0 < length bs
    → length bs ≤ length cs
    → prefix_loop (n_limbs p) p.len q 0 (all_limbs p) ≡ starts bs cs
loop-Holds v w pos le =
    let few = v.few in
    let long = length-flat v.chunks v.top v.whole in
    rw
      (
        v.shape,
        v.turns,
        w.turns,
        all_limbs-layout v.chunks v.top few,
        n_limbs-layout v.chunks v.top few,
        len-layout v.chunks v.top,
      )
      (prefix_loop-starts v.chunks w.chunks v.top w.top (suc (length v.chunks)) 0 _ v.whole w.whole
        v.room w.room (omega (arith, v.started, long, ap length v.turns)) (omega arith)
        (omega (arith, ap length v.turns, ap length w.turns))
        (λ j. rw (w.shape, zero-add) (nth_limb-layout w.chunks w.top j w.few)))

pub is_prefix_of-Holds :
    {p q : LoPath} {bs cs : List Bool} → Holds p bs → Holds q cs → is_prefix_of p q ≡ starts bs cs
is_prefix_of-Holds {p} {q} {bs} {cs} v w =
    rw (is_prefix_of_parts p q, depth-Holds v, depth-Holds w)
      (elim (dec_lt 0 (length bs)) [
        | no empty ↦ ground (arith, starts-nil bs cs)
        | yes pos ↦ elim (dec_lt (length cs) (length bs)) [
          | yes over ↦ ground (arith, starts-longer bs cs)
          | no under ↦ ground (arith, loop-Holds v w pos (omega arith))
        ]
      ])

-- For two paths walked from the root, `is_prefix_of` says whether the turns of the one are the
-- first turns of the other, and `prefix_independent` that neither is so.
pub is_prefix_of-walk :
    (bs cs : List Bool) {p q : LoPath}
    → walk root bs ≡ ok p
    → walk root cs ≡ ok q
    → (is_prefix_of p q ≡ starts bs cs)
      × (prefix_independent p q ≡ (not (starts bs cs) && not (starts cs bs)))
unfolding prefix_independent
is_prefix_of-walk bs cs e f =
    let v = walk-root-Holds bs e in
    let w = walk-root-Holds cs f in
    (is_prefix_of-Holds v w, rw (is_prefix_of-Holds v w, is_prefix_of-Holds w v))
