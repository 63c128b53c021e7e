-- ===== src/Kernel/Rules.antt =====
-- The typing rules that the kernel decides, written as rules: reduction with β, δ, ι and η, conversion
-- as a common reduct, and the types of terms in a context. Terms, their shift and substitution, and the
-- types of constants, constructors and recursors are those of the code.
pub mod Sorts
use dnet.Prelude.{
  ℕ, ◌+◌, ◌-◌, ◌≤◌, ◌≡◌, ◌||◌, true, false, some, List, [], ◌∷◌, length, get_elem?, get_or, take,
  drop,
}
use Prim.Native.Nat.{min, max}
use dnet.Prelude.Int.{pos, negsuc}
use dnet.Kernel.Term.{
  Tm, Level, Telescope, var, sort, pi, lam, app, const, ind, ctor, elim_of, succ, shift, subst_tm,
  apply, head_is_ind, occurs_var, is_open, needs_typed_conv,
}
use dnet.Kernel.Env.{GlobalEnv, Definition, Inductive, CtorDecl, Ctx}
use dnet.Kernel.Recursor.{recursor_type}
use dnet.Kernel.Check.{find_ctor, ind_type, ctor_type}

-- How many arguments a recursor wants.
abbrev pub arity : Inductive → ℕ
arity decl = length decl.params + 1 + length decl.ctors + length decl.indices + 1

-- Terms that are the same but for the domains of abstractions.
pub data Alike : Tm → Tm → Type 0 where
  alike_same : (t : Tm) → Alike t t
  alike_pi : {a b c d : Tm} → Alike a c → Alike b d → Alike (pi a b) (pi c d)
  alike_lam : {a b c d : Tm} → Alike b d → Alike (lam a b) (lam c d)
  alike_app : {f g x y : Tm} → Alike f g → Alike x y → Alike (app f x) (app g y)

module _ (env : GlobalEnv) where
  mutual
    -- Reduction, in any number of steps and at any place.
    pub data Reduces : Ctx → Tm → Tm → Type 0 where
      red_refl : {ctx : Ctx} (t : Tm) → Reduces ctx t t
      red_trans : {ctx : Ctx} {t u v : Tm} → Reduces ctx t u → Reduces ctx u v → Reduces ctx t v
      red_pi :
          {ctx : Ctx} {a b c d : Tm}
          → Reduces ctx a c
          → Reduces (a ∷ ctx) b d
          → Reduces ctx (pi a b) (pi c d)
      red_lam :
          {ctx : Ctx} {a b c d : Tm}
          → Reduces ctx a c
          → Reduces (a ∷ ctx) b d
          → Reduces ctx (lam a b) (lam c d)
      red_app :
          {ctx : Ctx} {f g x y : Tm}
          → Reduces ctx f g
          → Reduces ctx x y
          → Reduces ctx (app f x) (app g y)
      red_beta : {ctx : Ctx} (a b x : Tm) → Reduces ctx (app (lam a b) x) (subst_tm b 0 x)
      red_delta :
          {ctx : Ctx} {c : ℕ} {d : Definition}
          → env.consts c ≡ some d
          → Reduces ctx (const c) d.body
      red_eta :
          {ctx : Ctx} (a f : Tm)
          → occurs_var f 0 ≡ false
          → Reduces ctx (lam a (app f (var 0))) (shift f (negsuc 0) 0)
      red_iota :
          {ctx : Ctx} {i : ℕ} (k : ℕ) {decl : Inductive} (c : CtorDecl) (args cargs : List Tm)
          {r : Tm}
          → env.inds i ≡ some decl
          → arity decl ≤ length args
          → Reduces ctx (get_or args (arity decl - 1) (sort 0)) (apply (ctor i k) cargs)
          → get_elem? decl.ctors k ≡ some c
          → Minor ctx i decl
              (take (length decl.params + 1 + length decl.ctors) args)
              (drop (min (length decl.params) (length cargs)) cargs)
              c.args
              0
              (apply
                (get_or args (length decl.params + 1 + k) (sort 0))
                (drop (min (length decl.params) (length cargs)) cargs))
              r
          → Reduces ctx (apply (elim_of i) args) (apply r (drop (arity decl) args))

    -- A minor premise, applied so far to the fields before the position `at`, is applied to the
    -- hypotheses of the recursive fields among the rest.
    pub data Minor
        : Ctx → ℕ → Inductive → List Tm → List Tm → Telescope → ℕ → Tm → Tm → Type 0 where
      minor_end :
          {ctx : Ctx} {i : ℕ} {decl : Inductive} {prefix fields : List Tm} {at : ℕ} {r : Tm}
          → Minor ctx i decl prefix fields [] at r r
      minor_skip :
          {ctx : Ctx} {i : ℕ} {decl : Inductive} {prefix fields : List Tm} {ty : Tm}
          {tys : Telescope} {at : ℕ} {t r : Tm}
          → head_is_ind ty i ≡ false
          → Minor ctx i decl prefix fields tys (at + 1) t r
          → Minor ctx i decl prefix fields (ty ∷ tys) at t r
      minor_rec :
          {ctx : Ctx} {i : ℕ} {decl : Inductive} {prefix fields : List Tm} {ty field : Tm}
          {tys : Telescope} {at : ℕ} {t r : Tm} {idxs : List Tm}
          → head_is_ind ty i ≡ true
          → get_elem? fields at ≡ some field
          → Indices ctx i decl field idxs
          → Minor ctx i decl prefix fields tys
              (at + 1)
              (app t (app (apply (apply (elim_of i) prefix) idxs) field))
              r
          → Minor ctx i decl prefix fields (ty ∷ tys) at t r

    -- The indices of a field, read off its type.
    pub data Indices : Ctx → ℕ → Inductive → Tm → List Tm → Type 0 where
      indices_none :
          {ctx : Ctx} {i : ℕ} {decl : Inductive} {field : Tm}
          → decl.indices ≡ []
          → Indices ctx i decl field []
      indices_of :
          {ctx : Ctx} {i : ℕ} {decl : Inductive} {field ty : Tm} (args : List Tm)
          → HasType ctx field ty
          → Reduces ctx ty (apply (ind i) args)
          → length decl.params ≤ length args
          → Indices ctx i decl field (drop (length decl.params) args)

    -- Two terms are convertible if they have a common reduct; of terms that are closed and have no sort,
    -- product or constant, the domains of abstractions do not count.
    pub data Conv : Ctx → Tm → Tm → Type 0 where
      common_reduct : {ctx : Ctx} {t u v : Tm} → Reduces ctx t v → Reduces ctx u v → Conv ctx t u
      alike_reducts :
          {ctx : Ctx} {t u v w : Tm}
          → (is_open t 0 || needs_typed_conv t) ≡ false
          → (is_open u 0 || needs_typed_conv u) ≡ false
          → Reduces ctx t v
          → Reduces ctx u w
          → Alike v w
          → Conv ctx t u

    -- A term has a type that is convertible to the one given.
    pub data Checks : Ctx → Tm → Tm → Type 0 where
      checks : {ctx : Ctx} {t a b : Tm} → HasType ctx t a → Conv ctx a b → Checks ctx t b

    -- Typing: types are reduced, and only an argument has its type compared. The universe of a product
    -- is the greater one of its two; there is no subtyping.
    pub data HasType : Ctx → Tm → Tm → Type 0 where
      type_reduces : {ctx : Ctx} {t a b : Tm} → HasType ctx t a → Reduces ctx a b → HasType ctx t b
      type_var :
          {ctx : Ctx} {i : ℕ} {a : Tm}
          → get_elem? ctx i ≡ some a
          → HasType ctx (var i) (shift a (pos (i + 1)) 0)
      type_sort : {ctx : Ctx} (l : Level) → HasType ctx (sort l) (sort (succ l))
      type_pi :
          {ctx : Ctx} {a b : Tm} {i j : Level}
          → HasType ctx a (sort i)
          → HasType (a ∷ ctx) b (sort j)
          → HasType ctx (pi a b) (sort (max i j))
      type_lam :
          {ctx : Ctx} {a b t : Tm} {i : Level}
          → HasType ctx a (sort i)
          → HasType (a ∷ ctx) b t
          → HasType ctx (lam a b) (pi a t)
      type_app :
          {ctx : Ctx} {f x a b : Tm}
          → HasType ctx f (pi a b)
          → Checks ctx x a
          → HasType ctx (app f x) (subst_tm b 0 x)
      type_const :
          {ctx : Ctx} {c : ℕ} {d : Definition} → env.consts c ≡ some d → HasType ctx (const c) d.ty
      type_ind :
          {ctx : Ctx} {i : ℕ} {decl : Inductive}
          → env.inds i ≡ some decl
          → HasType ctx (ind i) (ind_type decl)
      type_ctor :
          {ctx : Ctx} {i k : ℕ} {decl : Inductive} {c : CtorDecl}
          → env.inds i ≡ some decl
          → find_ctor k decl.ctors ≡ some c
          → HasType ctx (ctor i k) (ctor_type i decl c)
      type_elim :
          {ctx : Ctx} {i : ℕ} {decl : Inductive} (lm : Level)
          → env.inds i ≡ some decl
          → HasType ctx (elim_of i) (recursor_type decl lm)
