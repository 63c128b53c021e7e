-- ===== src/Codec/Parts.antt =====
-- What is decoded from the bytes of one part of a body, wherever in it they stand.
use dnet.Prelude.{
  ℕ, ◌+◌, ◌^◌, ◌<◌, ◌≤◌, ◌≡◌, refl, ap, ◌∙◌, sym, List, [], ◌∷◌, ◌++◌, arith, length, length-append,
  take, drop,
}
use dnet.Codec.{Blake3Hash, Fallible, fine, fault, ◌>>=◌, DecoderOf, put_u32, from_le_bytes}

pub ++-assoc : {A : Type 0} (xs ys zs : List A) → (xs ++ ys) ++ zs ≡ xs ++ (ys ++ zs)
++-assoc [] ys zs = refl
++-assoc (x ∷ xs) ys zs = ap (λ l. x ∷ l) (++-assoc xs ys zs)

-- `xs` stands in `bytes` at `pos`.
pub record At (bytes : List ℕ) (pos : ℕ) (xs : List ℕ) : Type 0 where
  pub before : List ℕ
  pub behind : List ℕ
  pub whole : bytes ≡ before ++ (xs ++ behind)
  pub long : length before ≡ pos

pub At-fst : {bytes : List ℕ} {pos : ℕ} (xs ys : List ℕ) → At bytes pos (xs ++ ys) → At bytes pos xs
At-fst xs ys h = record {
  before = h.before;
  behind = ys ++ h.behind;
  whole = h.whole ∙ ap (λ l. h.before ++ l) (++-assoc xs ys h.behind);
  long = h.long;
}

pub At-snd :
    {bytes : List ℕ} {pos : ℕ} (xs ys : List ℕ)
    → At bytes pos (xs ++ ys)
    → At bytes (pos + length xs) ys
At-snd xs ys h = record {
  before = h.before ++ xs;
  behind = h.behind;
  whole =
      h.whole
      ∙ (ap (λ l. h.before ++ l) (++-assoc xs ys h.behind)
          ∙ sym (++-assoc h.before xs (ys ++ h.behind)));
  long = omega (arith, h.long, length-append {0} h.before xs);
}

++-nil : {A : Type 0} (l : List A) → l ++ [] ≡ l
++-nil [] = refl
++-nil (x ∷ l) = ap (λ k. x ∷ k) (++-nil l)

pub At-whole : (xs : List ℕ) → At xs 0 xs
At-whole xs = record { before = []; behind = []; whole = sym (++-nil xs); long = refl }

-- The decoder takes `xs`, wherever in a body they stand, and returns `a`.
pub record Takes {E A : Type 0} (d : DecoderOf E A) (xs : List ℕ) (a : A) : Type 0 where
  pub takes :
      (bytes : List ℕ) (pos : ℕ)
      → length bytes < 2 ^ 64
      → At bytes pos xs
      → d (record { bytes = bytes; pos = pos })
        ≡ fine (a, record { bytes = bytes; pos = pos + length xs })

pub take-append : (xs rest : List ℕ) → take (length xs) (xs ++ rest) ≡ xs
take-append [] rest = refl
take-append (x ∷ xs) rest = ap (λ l. x ∷ l) (take-append xs rest)

pub drop-append : (pre rest : List ℕ) → drop (length pre) (pre ++ rest) ≡ rest
drop-append [] rest = refl
drop-append (x ∷ pre) rest = drop-append pre rest

pub slice-At :
    {bytes : List ℕ} {pos : ℕ} (xs : List ℕ)
    → At bytes pos xs
    → take (length xs) (drop pos bytes) ≡ xs
slice-At {bytes} {pos} xs h =
    ap (λ l. take (length xs) (drop pos l)) h.whole
    ∙ (ap (λ p. take (length xs) (drop p (h.before ++ (xs ++ h.behind)))) (sym h.long)
        ∙ (ap (λ l. take (length xs) l) (drop-append h.before (xs ++ h.behind))
            ∙ take-append xs h.behind))

pub inside-At :
    {bytes : List ℕ} {pos : ℕ} (xs : List ℕ) → At bytes pos xs → pos + length xs ≤ length bytes
inside-At xs h = omega (
  arith,
  h.long,
  ap (λ l. length l) h.whole,
  length-append {0} h.before (xs ++ h.behind),
  length-append {0} xs h.behind,
)

-- One decoder after another.
pub seq-Takes :
    {E A B : Type 0} {d : DecoderOf E A} {xs : List ℕ} {a : A} (ys : List ℕ) (k : A → DecoderOf E B)
    {b : B}
    → Takes d xs a
    → Takes (k a) ys b
    → Takes (λ c. d c >>= λ (a, c'). k a c') (xs ++ ys) b
seq-Takes {xs = xs} {a = a} ys k {b} t u = record {
  takes = λ bytes pos small h.
      ap (λ r. r >>= λ (a, c'). k a c') (t.takes bytes pos small (At-fst xs ys h))
      ∙ (u.takes bytes (pos + length xs) small (At-snd xs ys h)
          ∙ ap (λ p. fine (b, record { bytes = bytes; pos = p }))
              (omega (arith, length-append {0} xs ys)));
}

-- A function of what a decoder returns.
pub map-Takes :
    {E A B : Type 0} {d : DecoderOf E A} {xs : List ℕ} {a : A} (f : A → B)
    → Takes d xs a
    → Takes (λ c. d c >>= λ (a, c'). fine (f a, c')) xs (f a)
map-Takes f t = record {
  takes =
      λ bytes pos small h. ap (λ r. r >>= λ (a, c'). fine (f a, c')) (t.takes bytes pos small h);
}

pub from_le_bytes-put_u32 : (n : ℕ) → n < 2 ^ 32 → from_le_bytes (put_u32 n) ≡ n
unfolding from_le_bytes put_u32
from_le_bytes-put_u32 n lt = omega arith

pub length-put_u32 : (n : ℕ) → length (put_u32 n) ≡ 4
unfolding put_u32
length-put_u32 n = refl

-- A chain went well only if its first part did.
pub >>=-eq-fine :
    {E A B : Type 0} (r : Fallible E A) (next : A → Fallible E B) {b : B}
    → (r >>= next) ≡ fine b
    → (a : A) × (r ≡ fine a) × (next a ≡ fine b)
>>=-eq-fine (fault e) next went = cc
>>=-eq-fine (fine a) next went = (a, refl, went)

pub fine-injective : {E A : Type 0} {a b : A} → ◌≡◌ {A = Fallible E A} (fine a) (fine b) → a ≡ b
fine-injective e = cc

abbrev pub All : {A : Type 0} → (A → Type 0) → List A → Type 0
All P [] = Unit
All P (a ∷ l) = P a × All P l

abbrev pub Is32 : Blake3Hash → Type 0
Is32 h = length h ≡ 32
