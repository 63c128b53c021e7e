-- ===== src/LoPath/Turns.antt =====
-- What a path stands for: the string of turns that led to it from the root.
use dnet.LoPath.{LoPath, root, bit_value, shl128, push_bit, promote, extend_bit}
use dnet.LoPath.Pack.{pack, pack-shift, pack-snoc}
use native.Mathlib.Nat.{one-le-pow, pow-suc, pow-le-pow_right, mod-eq_of_lt}
use dnet.Prelude.{
  ℕ, suc, ◌+◌, ◌-◌, ◌*◌, ◌^◌, ◌≤◌, ◌<◌, bit_or, ◌≡◌, refl, ap, ◌∙◌, Bool, true, false, none, some,
  List, [], ◌∷◌, ◌++◌, append-nil, append_assoc, arith, length, length-append, ◌==◌, ◌⊎◌, inl, inr,
  subst,
}
use native.Mathlib.Decide.{dec_lt}
use dnet.Prelude.Bits.{bit_or-eq-add}
use dnet.Error.{Result, ok, err, lo_path_depth_exceeded, ◌>>=◌}

-- The path reached from `p` by a string of turns.
unfoldable pub walk : LoPath → List Bool → Result LoPath
walk p [] = ok p
walk p (b ∷ bs) = extend_bit p b >>= λ q. walk q bs

-- The full limbs, oldest first, and the newest one.
abbrev pub layout : List (List Bool) → List Bool → LoPath
layout [] h = record { hot = pack 128 h; warm = none; cold = none; frozen = none; len = length h }
layout (w ∷ []) h = record {
  hot = pack 128 h;
  warm = some (pack 128 w);
  cold = none;
  frozen = none;
  len = length h;
}
layout (c ∷ w ∷ []) h = record {
  hot = pack 128 h;
  warm = some (pack 128 w);
  cold = some (pack 128 c);
  frozen = none;
  len = length h;
}
layout (f ∷ c ∷ w ∷ rest) h = record {
  hot = pack 128 h;
  warm = some (pack 128 w);
  cold = some (pack 128 c);
  frozen = some (pack 128 f);
  len = length h;
}

abbrev pub flat : List (List Bool) → List Bool → List Bool
flat [] h = h
flat (c ∷ cs) h = c ++ flat cs h

abbrev pub AllFull : List (List Bool) → Type 0
AllFull [] = Unit
AllFull (c ∷ cs) = (length c ≡ 128) × AllFull cs

pub record Holds (p : LoPath) (bs : List Bool) : Type 0 where
  pub chunks : List (List Bool)
  pub top : List Bool
  pub shape : p ≡ layout chunks top
  pub turns : bs ≡ flat chunks top
  pub few : length chunks ≤ 3
  pub whole : AllFull chunks
  pub room : length top ≤ 128
  pub started : length chunks ≤ 3 * length top

pub length-flat :
    (cs : List (List Bool)) (h : List Bool)
    → AllFull cs
    → length (flat cs h) ≡ 128 * length cs + length h
length-flat [] h a = omega arith
length-flat (c ∷ cs) h a = omega (arith, length-append {0} c (flat cs h), length-flat cs h a.1)

bit-lt : (d : ℕ) (b : Bool) → bit_value b * 2 ^ d < 2 ^ suc d
bit-lt d true = omega (arith, pow-suc 2 d, one-le-pow d 2 (omega arith))
bit-lt d false = omega (arith, one-le-pow (suc d) 2 (omega arith))

-- The shift loses nothing.
bit-fits :
    (h : List Bool) (b : Bool)
    → length h < 128
    → shl128 (bit_value b) (127 - length h) ≡ bit_value b * 2 ^ (127 - length h)
bit-fits h b lt = mod-eq_of_lt (
    omega (
      arith,
      bit-lt (127 - length h) b,
      pow-le-pow_right {n = 2} (omega arith) {i = suc (127 - length h)} {j = 128} (omega arith),
    ))

-- The new turn goes into the highest clear bit.
hot-snoc :
    (h : List Bool) (b : Bool)
    → length h < 128
    → bit_or (pack 128 h) (shl128 (bit_value b) (127 - length h)) ≡ pack 128 (h ++ b ∷ [])
hot-snoc h b lt =
    let d : ℕ = 127 - length h in
    let clear = pack-shift (suc d) 128 h (omega arith) in
    rw (bit-fits h b lt, clear)
      (bit_or-eq-add (suc d) (pack (length h) h) (bit_value b * 2 ^ d) (bit-lt d b)
        ∙ rw (← clear) (rw (pack-snoc d 128 h b (omega arith))))

push_bit-layout :
    (cs : List (List Bool)) (h : List Bool) (b : Bool)
    → length h < 128
    → push_bit (layout cs h) b ≡ layout cs (h ++ b ∷ [])
unfolding push_bit
push_bit-layout [] h b lt = ground (arith, hot-snoc h b lt, length-append h (b ∷ []))
push_bit-layout (w ∷ []) h b lt = ground (arith, hot-snoc h b lt, length-append h (b ∷ []))
push_bit-layout (c ∷ w ∷ []) h b lt = ground (arith, hot-snoc h b lt, length-append h (b ∷ []))
push_bit-layout (f ∷ c ∷ w ∷ r) h b lt = ground (arith, hot-snoc h b lt, length-append h (b ∷ []))

-- A full top limb joins the full ones.
promote-layout :
    (cs : List (List Bool)) (h : List Bool)
    → length cs ≤ 2
    → let p = layout cs h in promote p.hot p.warm p.cold p.frozen ≡ ok (layout (cs ++ h ∷ []) [])
unfolding promote pack
promote-layout [] h lt = refl
promote-layout (w ∷ []) h lt = refl
promote-layout (c ∷ w ∷ []) h lt = refl
promote-layout (f ∷ c ∷ w ∷ r) h lt = absurd (omega arith)

flat-append : (cs : List (List Bool)) (h t : List Bool) → flat (cs ++ h ∷ []) t ≡ flat cs h ++ t
flat-append [] h t = refl
flat-append (c ∷ cs) h t = rw (flat-append cs h t, append_assoc)

flat-snoc : (cs : List (List Bool)) (h t : List Bool) → flat cs (h ++ t) ≡ flat cs h ++ t
flat-snoc [] h t = refl
flat-snoc (c ∷ cs) h t = rw (flat-snoc cs h t, append_assoc)

AllFull-append :
    (cs : List (List Bool)) (h : List Bool) → AllFull cs → length h ≡ 128 → AllFull (cs ++ h ∷ [])
AllFull-append [] h a e = (e, tt)
AllFull-append (c ∷ cs) h a e = (a.0, AllFull-append cs h a.1 e)

pub len-layout : (cs : List (List Bool)) (h : List Bool) → (layout cs h).len ≡ length h
len-layout [] h = refl
len-layout (w ∷ []) h = refl
len-layout (c ∷ w ∷ []) h = refl
len-layout (f ∷ c ∷ w ∷ r) h = refl

extend_bit-room :
    (cs : List (List Bool)) (h : List Bool) (b : Bool)
    → length h < 128
    → extend_bit (layout cs h) b ≡ ok (layout cs (h ++ b ∷ []))
unfolding extend_bit
extend_bit-room cs h b lt =
    let more : ((layout cs h).len == 128) ≡ false = ground (arith, len-layout cs h) in
    rw more (ap (λ q. ok q) (push_bit-layout cs h b lt))

extend_bit-whole :
    (cs : List (List Bool)) (h : List Bool) (b : Bool)
    → length h ≡ 128
    → length cs ≤ 2
    → extend_bit (layout cs h) b ≡ ok (layout (cs ++ h ∷ []) (b ∷ []))
unfolding extend_bit
extend_bit-whole cs h b e few =
    let done : ((layout cs h).len == 128) ≡ true = ground (arith, len-layout cs h) in
    rw (done, promote-layout cs h few)
      (ap (λ q. ok q) (push_bit-layout (cs ++ h ∷ []) [] b (omega arith)))

-- One more turn, while there is room for it.
pub extend_bit-Holds :
    {p : LoPath} {bs : List Bool} (b : Bool)
    → Holds p bs
    → length bs < 512
    → (q : LoPath) × (extend_bit p b ≡ ok q) × Holds q (bs ++ b ∷ [])
extend_bit-Holds {p} {bs} b v lt = elim (dec_lt (length v.top) 128) [
  | yes room ↦ (
    layout v.chunks (v.top ++ b ∷ []),
    rw v.shape (extend_bit-room v.chunks v.top b room),
    record {
      chunks = v.chunks;
      top = v.top ++ b ∷ [];
      shape = refl;
      turns = rw v.turns (rw flat-snoc);
      few = v.few;
      whole = v.whole;
      room = omega (arith, length-append {0} v.top (b ∷ []));
      started = omega (arith, length-append {0} v.top (b ∷ []), v.started);
    },
  )
  | no full ↦
      let e : length v.top ≡ 128 = omega (arith, v.room) in
      let few : length v.chunks ≤ 2 =
        omega (arith, length-flat v.chunks v.top v.whole, ap length v.turns) in
      (
        layout (v.chunks ++ v.top ∷ []) (b ∷ []),
        rw v.shape (extend_bit-whole v.chunks v.top b e few),
        record {
          chunks = v.chunks ++ v.top ∷ [];
          top = b ∷ [];
          shape = refl;
          turns = rw v.turns (rw flat-append);
          few = omega (arith, length-append {0} v.chunks (v.top ∷ []));
          whole = AllFull-append v.chunks v.top v.whole e;
          room = omega arith;
          started = omega (arith, length-append {0} v.chunks (v.top ∷ []));
        },
      )
]

full-layout :
    (cs : List (List Bool)) (h : List Bool)
    → 3 ≤ length cs
    → let p = layout cs h in promote p.hot p.warm p.cold p.frozen ≡ err lo_path_depth_exceeded
unfolding promote
full-layout [] h lt = absurd (omega arith)
full-layout (w ∷ []) h lt = absurd (omega arith)
full-layout (c ∷ w ∷ []) h lt = absurd (omega arith)
full-layout (f ∷ c ∷ w ∷ r) h lt = refl

-- The turn past the last one.
pub extend_bit-full :
    {p : LoPath} {bs : List Bool} (b : Bool)
    → Holds p bs
    → length bs ≡ 512
    → extend_bit p b ≡ err lo_path_depth_exceeded
unfolding extend_bit
extend_bit-full {p} {bs} b v e =
    let lengths = length-flat v.chunks v.top v.whole in
    let few : 3 ≤ length v.chunks = omega (arith, lengths, ap length v.turns, v.room) in
    let done : ((layout v.chunks v.top).len == 128) ≡ true =
      ground (arith, len-layout v.chunks v.top, lengths, ap length v.turns, v.few, v.room) in
    rw (v.shape, done, full-layout v.chunks v.top few)

root-Holds : Holds root []
unfolding pack
root-Holds = record {
  chunks = [];
  top = [];
  shape = refl;
  turns = refl;
  few = omega arith;
  whole = tt;
  room = omega arith;
  started = omega arith;
}

walk-Holds :
    (cs : List Bool) {p : LoPath} {bs : List Bool}
    → Holds p bs
    → length bs + length cs ≤ 512
    → (q : LoPath) × (walk p cs ≡ ok q) × Holds q (bs ++ cs)
unfolding walk
walk-Holds [] {p} v le = (p, refl, rw append-nil v)
walk-Holds (c ∷ cs) {bs} v le =
    let (q, stepped, held) = extend_bit-Holds c v (omega arith) in
    let (r, walked, there) = walk-Holds cs held (omega (arith, length-append {0} bs (c ∷ []))) in
    (r, rw stepped walked, rw append_assoc at there)

walk-full :
    (cs : List Bool) {p : LoPath} {bs : List Bool}
    → Holds p bs
    → length bs ≤ 512
    → 512 < length bs + length cs
    → walk p cs ≡ err lo_path_depth_exceeded
unfolding walk
walk-full [] v le lt = absurd (omega arith)
walk-full (c ∷ cs) {bs} v le lt = elim (dec_lt (length bs) 512) [
  | yes room ↦
      let (q, stepped, held) = extend_bit-Holds c v room in
      rw stepped (
        walk-full cs held (omega (arith, length-append {0} bs (c ∷ [])))
          (omega (arith, length-append {0} bs (c ∷ []))))
  | no over ↦ rw (extend_bit-full c v (omega arith))
]

-- A walk from the root succeeds if it has at most 512 turns, and the path then holds just those
-- turns. With more it fails, with the error for a path too deep.
pub walk_total :
    (bs : List Bool)
    → ((length bs ≤ 512) × (p : LoPath) × (walk root bs ≡ ok p) × Holds p bs)
      ⊎ ((512 < length bs) × (walk root bs ≡ err lo_path_depth_exceeded))
walk_total bs = elim (dec_lt 512 (length bs)) [
  | yes over ↦ inr (over, walk-full bs root-Holds (omega arith) (omega arith))
  | no under ↦
      let (p, walked, held) = walk-Holds bs root-Holds (omega arith) in
      inl (omega arith, p, walked, held)
]

-- A path that a walk from the root reached holds the turns of the walk.
pub walk-root-Holds : (bs : List Bool) {p : LoPath} → walk root bs ≡ ok p → Holds p bs
walk-root-Holds bs e = elim (walk_total bs) [
  | inl (under, p, walked, held) ↦ subst (λ q. Holds q bs) (cc) held
  | inr (over, failed) ↦ cc
]
