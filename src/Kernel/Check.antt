-- ===== src/Kernel/Check.antt =====
-- crates/dnx-proof/src/infer.rs: inference, over the calls that it makes, and `kernel`, which ties reduction and inference
-- on fuel.
use dnet.Prelude.{
  ℕ, zero, suc, ◌+◌, Bool, Option, none, some, List, [], ◌∷◌, ◌++◌, ◌==◌, length, get_elem?,
  if◌then◌else◌,
}
use Prim.Native.Nat.{max}
use dnet.Prelude.Int.{pos}
use dnet.Kernel.Term.{
  Tm, Level, var, sort, pi, lam, app, const, ind, ctor, elim_of, succ, shift, subst_tm, apply,
  spine, telescope,
}
use dnet.Kernel.Env.{GlobalEnv, Inductive, CtorDecl, Ctx}
use dnet.Kernel.Run.{
  Run, done, fails, running, ◌>>=◌, ◌>>◌, unbound_var, unknown_const, unknown_ind, not_a_sort,
  not_a_pi, mismatch, unsupported,
}
use dnet.Kernel.Recursor.{recursor_type, vars_down}
use dnet.Kernel.Reduce.{Calls, conv, whnf_tm, nf_tm}

unfoldable pub find_ctor : ℕ → List CtorDecl → Option CtorDecl
find_ctor k [] = none
find_ctor k (c ∷ ctors) = if c.ctor_ix == k then some c else find_ctor k ctors

unfoldable pub ind_type : Inductive → Tm
ind_type decl = telescope decl.params (telescope decl.indices (sort decl.universe))

unfoldable pub ctor_type : ℕ → Inductive → CtorDecl → Tm
ctor_type i decl c =
    let ret = apply (ind i) (vars_down (length decl.params) (length c.args) ++ c.ret_indices) in
    telescope decl.params (telescope c.args ret)

unfoldable pub var_type : Ctx → ℕ → Run Tm
var_type ctx i = elim (get_elem? ctx i) [
  | none ↦ fails unbound_var
  | some ty ↦ done (shift ty (pos (i + 1)) 0)
]

unfoldable pub sort_level : Tm → Run Level
sort_level (sort l) = done l
sort_level _ = fails not_a_sort

unfoldable pub pi_parts : Tm → Run (Tm × Tm)
pi_parts (pi a b) = done (a, b)
pi_parts _ = fails not_a_pi

unfoldable pub motive_level : Tm → Run Level
motive_level (sort l) = done l
motive_level _ = fails unsupported

unfoldable pub infer_ctor : ℕ → ℕ → Option Inductive → Run Tm
infer_ctor i k none = fails unknown_ind
infer_ctor i k (some decl) = elim (find_ctor k decl.ctors) [
  | none ↦ fails unsupported
  | some c ↦ done (ctor_type i decl c)
]

-- The net on which closed pure terms are compared: the answer, or an error.
module _ (env : GlobalEnv) (net_conv : Tm → Tm → Option Bool) where
  module _ (calls : Calls) where
    unfoldable pub check : Ctx → Tm → Tm → Run (Unit {0})
    unfolding conv
    check ctx t ty = do
      got ← calls.infer ctx t
      same ← conv env net_conv calls ctx got ty
      if same then done tt else fails mismatch

    unfoldable pub sort_of : Ctx → Tm → Run Level
    unfolding sort_level
    sort_of ctx t = do ty ← calls.infer ctx t; w ← calls.whnf ctx ty; sort_level w

    unfoldable pub as_pi : Ctx → Tm → Run (Tm × Tm)
    unfolding pi_parts
    as_pi ctx t = do w ← calls.whnf ctx t; pi_parts w

    -- The codomain behind `n` binders of the motive's type.
    unfoldable pub peel : Ctx → ℕ → Tm → Run Tm
    unfolding as_pi
    peel ctx zero ty = done ty
    peel ctx (suc n) ty = as_pi ctx ty >>= λ (dom, cod). peel ctx n cod

    unfoldable pub apply_args : Ctx → Tm → List Tm → Run Tm
    unfolding as_pi check
    apply_args ctx cur [] = done cur
    apply_args ctx cur (a ∷ args) =
        as_pi ctx cur >>= λ (dom, cod). check ctx a dom >> apply_args ctx (subst_tm cod 0 a) args

    unfoldable pub infer_elim : Ctx → ℕ → List Tm → Run Tm
    unfolding peel apply_args motive_level
    infer_elim ctx i args = elim (env.inds i) [
      | none ↦ fails unknown_ind
      | some decl ↦ elim (get_elem? args (length decl.params)) [
        | none ↦ fails unsupported
        | some motive ↦ (do
          mty ← calls.infer ctx motive
          level ← peel ctx (length decl.indices + 1) mty
          w ← calls.whnf ctx level
          lm ← motive_level w
          apply_args ctx (recursor_type decl lm) args)
      ]
    ]

    -- The match of `infer` on a term whose head is no recursor.
    unfoldable pub infer_head : Ctx → Tm → Run Tm
    unfolding var_type sort_of as_pi check infer_ctor
    infer_head ctx (var i) = var_type ctx i
    infer_head ctx (sort l) = done (sort (succ l))
    infer_head ctx (pi a b) = do i ← sort_of ctx a; j ← sort_of (a ∷ ctx) b; done (sort (max i j))
    infer_head ctx (lam a b) = do l ← sort_of ctx a; bt ← calls.infer (a ∷ ctx) b; done (pi a bt)
    infer_head ctx (app f x) = do
      ft ← calls.infer ctx f
      ab ← as_pi ctx ft
      check ctx x ab.0
      done (subst_tm ab.1 0 x)
    infer_head ctx (const c) = elim (env.consts c) [
      | none ↦ fails unknown_const
      | some d ↦ done d.ty
    ]
    infer_head ctx (ind i) = elim (env.inds i) [
      | none ↦ fails unknown_ind
      | some decl ↦ done (ind_type decl)
    ]
    infer_head ctx (ctor i k) = infer_ctor i k (env.inds i)
    infer_head ctx (elim_of i) = fails unsupported

    unfoldable pub infer_spine : Ctx → Tm → Tm → List Tm → Run Tm
    unfolding infer_elim infer_head
    infer_spine ctx t (elim_of i) args = infer_elim ctx i args
    infer_spine ctx t _ args = infer_head ctx t

    unfoldable pub infer : Ctx → Tm → Run Tm
    unfolding infer_spine
    infer ctx t = infer_spine ctx t (spine t).0 (spine t).1

  unfoldable pub kernel : ℕ → Calls
  unfolding whnf_tm nf_tm infer
  kernel zero = record { whnf = λ ctx t. running; nf = λ ctx t. running; infer = λ ctx t. running }
  kernel (suc fuel) =
      let calls = kernel fuel in
      record {
        whnf = whnf_tm env net_conv calls;
        nf = nf_tm env net_conv calls;
        infer = infer calls;
      }
