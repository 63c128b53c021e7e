-- ===== src/LoPath.antt =====
-- crates/dnx-core/src/lopath.rs: the leftmost-outermost path of an active pair, a string of turns
-- packed into at most four 128-bit limbs, the newest in `hot`.
pub mod Pack
pub mod Turns
pub mod Order
pub mod Prefix
use dnet.Prelude.{
  ℕ, zero, suc, ◌+◌, ◌-◌, ◌*◌, ◌/◌, ◌%◌, ◌^◌, compare, Ordering, bit_or, Bool, true, false, not,
  ◌&&◌, Option, none, some, List, [], ◌∷◌, ◌++◌, ◌==◌, ltb, length, get_or, then_with,
  if◌then◌else◌,
}
use dnet.Error.{Result, ok, err, lo_path_depth_exceeded, ◌>>=◌}

pub record LoPath : Type 0 where
  pub hot : ℕ
  pub warm : Option ℕ
  pub cold : Option ℕ
  pub frozen : Option ℕ
  pub len : ℕ

abbrev pub root : LoPath
root = record { hot = 0; warm = none; cold = none; frozen = none; len = 0 }

abbrev pub bit_value : Bool → ℕ
bit_value false = 0
bit_value true = 1

-- `u128::from(bit) << k`
abbrev pub shl128 : ℕ → ℕ → ℕ
shl128 a k = (a * 2 ^ k) % 2 ^ 128

-- The last three lines of `extend_bit`.
unfoldable pub push_bit : LoPath → Bool → LoPath
push_bit p bit = record p {
  hot = bit_or p.hot (shl128 (bit_value bit) (127 - p.len));
  len = p.len + 1;
}

-- The match on the full limbs, with the reset of `hot` and `len` behind it.
unfoldable pub promote : ℕ → Option ℕ → Option ℕ → Option ℕ → Result LoPath
promote hot none c f = ok (record { hot = 0; warm = some hot; cold = c; frozen = f; len = 0 })
promote hot (some w) none f =
    ok (record { hot = 0; warm = some hot; cold = some w; frozen = f; len = 0 })
promote hot (some w) (some c) none =
    ok (record { hot = 0; warm = some hot; cold = some w; frozen = some c; len = 0 })
promote hot (some w) (some c) (some f) = err lo_path_depth_exceeded

unfoldable pub extend_bit : LoPath → Bool → Result LoPath
unfolding push_bit promote
extend_bit p bit = (if p.len == 128 then promote p.hot p.warm p.cold p.frozen else ok p) >>= λ out.
    ok (push_bit out bit)

unfoldable pub extend_right : LoPath → Result LoPath
extend_right p = extend_bit p true

unfoldable pub extend_left : LoPath → Result LoPath
extend_left p = extend_bit p false

-- How many limbs are full, `full` of `depth`.
full : Option ℕ → Option ℕ → Option ℕ → ℕ
full w c (some _) = 3
full w (some _) none = 2
full (some _) none none = 1
full none none none = 0

unfoldable pub depth : LoPath → ℕ
unfolding full
depth p = full p.warm p.cold p.frozen * 128 + p.len

abbrev opt_list : Option ℕ → List ℕ
opt_list none = []
opt_list (some x) = x ∷ []

-- The oldest limb first.
unfoldable pub all_limbs : LoPath → List ℕ
all_limbs p = opt_list p.frozen ++ (opt_list p.cold ++ (opt_list p.warm ++ p.hot ∷ []))

abbrev count_some : Option ℕ → ℕ
count_some none = 0
count_some (some x) = 1

unfoldable pub n_limbs : LoPath → ℕ
n_limbs p = 1 + count_some p.warm + count_some p.cold + count_some p.frozen

unfoldable pub nth_limb : LoPath → ℕ → ℕ
unfolding all_limbs
nth_limb p i = get_or (all_limbs p) i 0

-- The loop of `is_prefix_of`, from limb `i` on.
prefix_loop : ℕ → ℕ → LoPath → ℕ → List ℕ → Bool
prefix_loop n len other i [] = true
prefix_loop n len other i (limb ∷ limbs) =
    let shift = 128 - len in
    let same =
      if ltb (i + 1) n
      then limb == nth_limb other i
      else (limb / 2 ^ shift) == (nth_limb other i / 2 ^ shift) in
    same && prefix_loop n len other (i + 1) limbs

unfoldable pub is_prefix_of : LoPath → LoPath → Bool
unfolding depth n_limbs all_limbs nth_limb prefix_loop
is_prefix_of p other =
    if depth p == 0
    then true
    else if ltb (depth other) (depth p)
    then false
    else prefix_loop (n_limbs p) p.len other 0 (all_limbs p)

unfoldable pub prefix_independent : LoPath → LoPath → Bool
unfolding is_prefix_of
prefix_independent p other = not (is_prefix_of p other) && not (is_prefix_of other p)

-- `frozen.or(cold).or(warm).unwrap_or(hot)`
oldest : ℕ → Option ℕ → Option ℕ → Option ℕ → ℕ
oldest h w c (some x) = x
oldest h w (some x) none = x
oldest h (some x) none none = x
oldest h none none none = h

unfoldable pub shard_key : LoPath → Option ℕ
unfolding depth oldest
shard_key p = if depth p == 0 then none else some (oldest p.hot p.warm p.cold p.frozen / 2 ^ 127)

-- The loop of `cmp` over the limbs in step.
cmp_limbs : List ℕ → List ℕ → Ordering
cmp_limbs [] ys = Ordering.eq
cmp_limbs (x ∷ xs) [] = Ordering.eq
cmp_limbs (x ∷ xs) (y ∷ ys) = then_with (compare x y) (cmp_limbs xs ys)

unfoldable pub cmp : LoPath → LoPath → Ordering
unfolding cmp_limbs all_limbs depth
cmp p q = then_with (cmp_limbs (all_limbs p) (all_limbs q)) (compare (depth p) (depth q))

abbrev pub GpuBits : Type 0
GpuBits = ℕ × ℕ × ℕ × ℕ

-- `as u32` keeps the low 32 bits.
unfoldable pub gpu_bits : LoPath → GpuBits × ℕ
gpu_bits p = (
  (p.hot / 2 ^ 96 % 2 ^ 32, p.hot / 2 ^ 64 % 2 ^ 32, p.hot / 2 ^ 32 % 2 ^ 32, p.hot % 2 ^ 32),
  p.len,
)

unfoldable pub from_gpu_bits : ℕ → ℕ → ℕ → ℕ → ℕ → LoPath
from_gpu_bits hi mid1 mid0 lo len =
    let hot = bit_or (bit_or (bit_or (shl128 hi 96) (shl128 mid1 64)) (shl128 mid0 32)) lo in
    record { hot = hot; warm = none; cold = none; frozen = none; len = len }
