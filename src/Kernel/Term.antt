-- ===== src/Kernel/Term.antt =====
-- crates/dnx-proof/src/tm.rs, symbol.rs, universe.rs: terms with de Bruijn indices.
use dnet.Prelude.{
  ℕ, ◌+◌, ◌-◌, ◌%◌, ◌^◌, ◌≡◌, refl, ap, ap₂, Bool, true, false, ◌&&◌, ◌||◌, List, [], ◌∷◌, arith,
  ◌==◌, ltb, leb, if◌then◌else◌,
}
use dnet.Prelude.Int.{ℤ, pos, negsuc, ◌+ℤ◌}

abbrev pub Level : Type 0
Level = ℕ

-- `lam` holds the domain and the body. `elim_of i` is `Tm::Elim`.
pub data Tm : Type 0 where
  var : ℕ → Tm
  sort : Level → Tm
  pi : Tm → Tm → Tm
  lam : Tm → Tm → Tm
  app : Tm → Tm → Tm
  const : ℕ → Tm
  ind : ℕ → Tm
  ctor : ℕ → ℕ → Tm
  elim_of : ℕ → Tm

abbrev pub Telescope : Type 0
Telescope = List Tm

-- A cast to `u32`.
abbrev pub cast_u32 : ℤ → ℕ
cast_u32 (pos n) = n % 2 ^ 32
cast_u32 (negsuc n) = 2 ^ 32 - 1 - n % 2 ^ 32

-- Universe levels are `u32`, and the sum wraps round where overflow is not checked.
unfoldable pub succ : Level → Level
succ l = (l + 1) % 2 ^ 32

unfoldable pub le : Level → Level → Bool
le i j = leb i j

unfoldable pub shift : Tm → ℤ → ℕ → Tm
shift (var i) d cutoff = var (if leb cutoff i then cast_u32 (pos i +ℤ d) else i)
shift (pi a b) d cutoff = pi (shift a d cutoff) (shift b d (cutoff + 1))
shift (lam a b) d cutoff = lam (shift a d cutoff) (shift b d (cutoff + 1))
shift (app f x) d cutoff = app (shift f d cutoff) (shift x d cutoff)
shift (sort l) d cutoff = sort l
shift (const c) d cutoff = const c
shift (ind i) d cutoff = ind i
shift (ctor i k) d cutoff = ctor i k
shift (elim_of i) d cutoff = elim_of i

unfoldable pub subst_tm : Tm → ℕ → Tm → Tm
unfolding shift
subst_tm (var i) j arg = if i == j then shift arg (pos j) 0 else var (if ltb j i then i - 1 else i)
subst_tm (pi a b) j arg = pi (subst_tm a j arg) (subst_tm b (j + 1) arg)
subst_tm (lam a b) j arg = lam (subst_tm a j arg) (subst_tm b (j + 1) arg)
subst_tm (app f x) j arg = app (subst_tm f j arg) (subst_tm x j arg)
subst_tm (sort l) j arg = sort l
subst_tm (const c) j arg = const c
subst_tm (ind i) j arg = ind i
subst_tm (ctor i k) j arg = ctor i k
subst_tm (elim_of i) j arg = elim_of i

-- `==` on terms.
unfoldable pub same_tm : Tm → Tm → Bool
same_tm (var i) (var j) = i == j
same_tm (sort l) (sort m) = l == m
same_tm (pi a b) (pi c d) = same_tm a c && same_tm b d
same_tm (lam a b) (lam c d) = same_tm a c && same_tm b d
same_tm (app a b) (app c d) = same_tm a c && same_tm b d
same_tm (const c) (const d) = c == d
same_tm (ind i) (ind j) = i == j
same_tm (ctor i k) (ctor j l) = i == j && k == l
same_tm (elim_of i) (elim_of j) = i == j
same_tm _ _ = false

unfoldable pub apply : Tm → List Tm → Tm
apply head [] = head
apply head (a ∷ args) = apply (app head a) args

-- The loop of `spine`: the arguments that were pushed, turned round.
unfoldable pub spine_from : Tm → List Tm → Tm × List Tm
spine_from (app f x) args = spine_from f (x ∷ args)
spine_from t args = (t, args)

unfoldable pub spine : Tm → Tm × List Tm
spine t = spine_from t []

unfoldable pub telescope : Telescope → Tm → Tm
telescope [] body = body
telescope (ty ∷ tele) body = pi ty (telescope tele body)

unfoldable pub head_is_ind : Tm → ℕ → Bool
head_is_ind (ind j) id = j == id
head_is_ind (app f x) id = head_is_ind f id
head_is_ind (pi a b) id = head_is_ind b id
head_is_ind _ id = false

-- Does `var k` occur, `k` counted up under each binder.
unfoldable pub occurs_var : Tm → ℕ → Bool
occurs_var (var i) k = i == k
occurs_var (pi a b) k = occurs_var a k || occurs_var b (k + 1)
occurs_var (lam a b) k = occurs_var a k || occurs_var b (k + 1)
occurs_var (app a b) k = occurs_var a k || occurs_var b k
occurs_var _ k = false

-- conv.rs: a free variable occurs.
unfoldable pub is_open : Tm → ℕ → Bool
is_open (var i) depth = leb depth i
is_open (lam a b) depth = is_open a depth || is_open b (depth + 1)
is_open (pi a b) depth = is_open a depth || is_open b (depth + 1)
is_open (app a b) depth = is_open a depth || is_open b depth
is_open _ depth = false

unfoldable pub needs_typed_conv : Tm → Bool
needs_typed_conv (lam a b) = needs_typed_conv a || needs_typed_conv b
needs_typed_conv (app a b) = needs_typed_conv a || needs_typed_conv b
needs_typed_conv (var i) = false
needs_typed_conv _ = true

pub spine_from-eq :
    (t : Tm) (args : List Tm) → apply (spine_from t args).0 (spine_from t args).1 ≡ apply t args
unfolding apply spine_from
spine_from-eq (app f x) args = spine_from-eq f (x ∷ args)
spine_from-eq (var i) args = refl
spine_from-eq (sort l) args = refl
spine_from-eq (pi a b) args = refl
spine_from-eq (lam a b) args = refl
spine_from-eq (const c) args = refl
spine_from-eq (ind i) args = refl
spine_from-eq (ctor i k) args = refl
spine_from-eq (elim_of i) args = refl

-- A term is its head applied to its arguments.
pub spine-eq : (t : Tm) → apply (spine t).0 (spine t).1 ≡ t
unfolding spine apply
spine-eq t = spine_from-eq t []

pub same_tm→eq : (t u : Tm) → same_tm t u ≡ true → t ≡ u
unfolding same_tm
same_tm→eq (var i) (var j) e = ap var (ground arith)
same_tm→eq (sort i) (sort j) e = ap sort (ground arith)
same_tm→eq (pi a b) (pi c d) e =
    ap₂ pi (same_tm→eq a c (ground arith)) (same_tm→eq b d (ground arith))
same_tm→eq (lam a b) (lam c d) e =
    ap₂ lam (same_tm→eq a c (ground arith)) (same_tm→eq b d (ground arith))
same_tm→eq (app a b) (app c d) e =
    ap₂ app (same_tm→eq a c (ground arith)) (same_tm→eq b d (ground arith))
same_tm→eq (const i) (const j) e = ap const (ground arith)
same_tm→eq (ind i) (ind j) e = ap ind (ground arith)
same_tm→eq (ctor i k) (ctor j l) e = ap₂ ctor (ground arith) (ground arith)
same_tm→eq (elim_of i) (elim_of j) e = ap elim_of (ground arith)
same_tm→eq _ _ e = cc
