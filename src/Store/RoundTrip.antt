-- ===== src/Store/RoundTrip.antt =====
-- crates/dnx-store/src/path.rs: the printed form of a path is parsed as the path.
use dnet.Prelude.{
  ℕ, suc, ◌+◌, ◌*◌, ◌/◌, ◌%◌, ◌^◌, ◌≤◌, ◌<◌, ◌≡◌, refl, ap, ◌∙◌, subst, bit_or, true, false, some,
  List, [], ◌∷◌, ◌++◌, arith, ltb, length, length-append, get_elem?, take, drop,
}
use dnet.Prelude.Bits.{bit_or-eq-add}
use dnet.Codec.{fine, Blake3Hash}
use dnet.Codec.Parts.{All, take-append, drop-append}
use dnet.Store.{
  StorePath, components, one_normal, is_single_component, new, hex_val, parse_hex, is_dash, parse,
  hex_digit, print_hex, print,
}

-- A hash of 32 bytes, and a name that `StorePath::new` accepts.
pub record IsPath (p : StorePath) : Type 0 where
  pub bytes : All (λ b. b < 256) p.hash
  pub long : length p.hash ≡ 32
  pub named : is_single_component p.name ≡ true

hex_val-digit : (n : ℕ) → n < 16 → hex_val (hex_digit n) ≡ some n
unfolding hex_val hex_digit
hex_val-digit n lt = ground arith

join_nibbles : (b : ℕ) → b < 256 → bit_or (b / 16 * 2 ^ 4 % 256) (b % 16) ≡ b
join_nibbles b lt =
    let small : b / 16 * 2 ^ 4 % 256 ≡ b / 16 * 2 ^ 4 = omega arith in
    let joined = bit_or-eq-add 4 (b / 16) (b % 16) (omega arith) in
    ap (λ k. bit_or k (b % 16)) small ∙ (joined ∙ omega arith)

length-print_hex : (l : Blake3Hash) → length (print_hex l) ≡ 2 * length l
unfolding print_hex
length-print_hex [] = refl
length-print_hex (b ∷ l) = omega (arith, length-print_hex l)

parse_two :
    (n c d hi lo : ℕ) (l h : List ℕ)
    → hex_val c ≡ some hi
    → hex_val d ≡ some lo
    → parse_hex n l ≡ some h
    → parse_hex (suc n) (c ∷ d ∷ l) ≡ some (bit_or (hi * 2 ^ 4 % 256) lo ∷ h)
unfolding parse_hex
parse_two n c d hi lo l h e e' e'' = rw (e, parse_hex) (rw e' (rw e'' refl))

parse_hex-print_hex :
    (l : Blake3Hash) → All (λ b. b < 256) l → parse_hex (length l) (print_hex l) ≡ some l
unfolding print_hex parse_hex
parse_hex-print_hex [] all = refl
parse_hex-print_hex (b ∷ l) (lt, all) =
    parse_two (length l) (hex_digit (b / 16)) (hex_digit (b % 16)) (b / 16) (b % 16) (print_hex l) l
      (hex_val-digit (b / 16) (omega arith)) (hex_val-digit (b % 16) (omega arith))
      (parse_hex-print_hex l all)
    ∙ ap (λ k. some (k ∷ l)) (join_nibbles b lt)

nth_behind : (xs rest : List ℕ) (b : ℕ) → get_elem? (xs ++ b ∷ rest) (length xs) ≡ some b
nth_behind [] rest b = refl
nth_behind (x ∷ xs) rest b = nth_behind xs rest b

-- A name that is accepted is not empty.
named_long : (name : List ℕ) → is_single_component name ≡ true → 1 ≤ length name
unfolding is_single_component components one_normal
named_long [] e = cc
named_long (b ∷ l) e = omega arith

-- The printed form of a store path, with a hash of 32 bytes and a name that is accepted, is parsed
-- as that path.
pub print-parse : (p : StorePath) → IsPath p → parse (print p) ≡ fine p
unfolding parse print new is_dash
print-parse p ok =
    let hex = print_hex p.hash in
    let len : length hex ≡ 64 = omega (arith, length-print_hex p.hash, ok.long) in
    let some_name = named_long p.name ok.named in
    let total = length-append hex (45 ∷ p.name) in
    let size : 66 ≤ length (print p) = omega arith in
    let enough : ltb (length (print p)) (64 + 2) ≡ false = ground arith in
    let dash : get_elem? (print p) 64 ≡ some 45 =
      subst (λ n. get_elem? (print p) n ≡ some 45) len (nth_behind hex p.name 45) in
    let front : take 64 (print p) ≡ hex =
      subst (λ n. take n (print p) ≡ hex) len (take-append hex (45 ∷ p.name)) in
    let back : drop 64 (print p) ≡ 45 ∷ p.name =
      subst (λ n. drop n (print p) ≡ 45 ∷ p.name) len (drop-append hex (45 ∷ p.name)) in
    let parsed : parse_hex 32 (take 64 (print p)) ≡ some p.hash =
      ap (parse_hex 32) front
      ∙ subst (λ n. parse_hex n hex ≡ some p.hash) ok.long (parse_hex-print_hex p.hash ok.bytes) in
    rw (enough, dash, parsed) (ap (λ l. new p.hash (drop 1 l)) back ∙ rw (ok.named, new) refl)
