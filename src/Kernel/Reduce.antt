-- ===== src/Kernel/Reduce.antt =====
-- crates/dnx-proof/src/driver.rs, conv.rs: reduction and conversion, over the calls that they make.
use dnet.Prelude.{
  ℕ, zero, ◌+◌, ◌-◌, Bool, true, false, ◌&&◌, ◌||◌, Option, none, some, List, [], ◌∷◌, ◌==◌, ltb,
  leb, length, get_elem?, get_or, take, drop, if◌then◌else◌,
}
use Prim.Native.Nat.{min}
use dnet.Prelude.Int.{negsuc}
use dnet.Kernel.Term.{
  Tm, Telescope, var, sort, pi, lam, app, const, ind, ctor, elim_of, shift, subst_tm, same_tm,
  apply, spine, head_is_ind, occurs_var, is_open, needs_typed_conv,
}
use dnet.Kernel.Env.{GlobalEnv, Inductive, Ctx}
use dnet.Kernel.Run.{Run, done, fails, catch, ◌>>=◌, mismatch}

-- The functions that call each other.
pub record Calls : Type 0 where
  pub whnf : Ctx → Tm → Run Tm
  pub nf : Ctx → Tm → Run Tm
  pub infer : Ctx → Tm → Run Tm

-- `λx. f x` with no `x` in `f` is `f`.
unfoldable pub eta : Tm → Tm → Tm
eta dom (app f (var zero)) =
    if occurs_var f 0 then lam dom (app f (var 0)) else shift f (negsuc 0) 0
eta dom body = lam dom body

-- `field_indices` of a type that is in head normal form
unfoldable pub index_args : ℕ → ℕ → Tm → List Tm → Option (List Tm)
index_args i np (ind j) args = if j == i && leb np (length args) then some (drop np args) else none
index_args i np _ args = none

abbrev pub map_done : (Tm → Tm) → Run (Option Tm) → Run (Option Tm)
map_done f r = r >>= λ o. elim o [ none ↦ done none | some t ↦ done (some (f t)) ]

-- The net on which closed pure terms are compared: the answer, or an error.
module _ (env : GlobalEnv) (net_conv : Tm → Tm → Option Bool) where
  module _ (calls : Calls) where
    unfoldable pub field_indices : Ctx → ℕ → ℕ → ℕ → Tm → Run (Option (List Tm))
    unfolding index_args
    field_indices ctx i np nidx field =
        if nidx == 0
        then done (some [])
        else (catch (calls.infer ctx field) >>= λ o. elim o [
          | none ↦ done none
          | some ty ↦ calls.whnf ctx ty >>= λ w. done (index_args i np (spine w).0 (spine w).1)
        ])

    -- The loop of `try_iota` on the fields of the constructor, from the position `at` on.
    unfoldable pub iota_fields :
        Ctx → ℕ → ℕ → ℕ → List Tm → List Tm → Telescope → ℕ → Tm → Run (Option Tm)
    unfolding field_indices
    iota_fields ctx i np nidx prefix fields [] at res = done (some res)
    iota_fields ctx i np nidx prefix fields (ty ∷ tys) at res = elim (head_is_ind ty i) [
      | false ↦ iota_fields ctx i np nidx prefix fields tys (at + 1) res
      | true ↦ elim (get_elem? fields at) [
        | none ↦ done none
        | some field ↦ field_indices ctx i np nidx field >>= λ o. elim o [
          | none ↦ done none
          | some idxs ↦
              let ih = app (apply (apply (elim_of i) prefix) idxs) field in
              iota_fields ctx i np nidx prefix fields tys (at + 1) (app res ih)
        ]
      ]
    ]

    -- The scrutinee is a constructor, the `k`th.
    unfoldable pub iota_ctor : Ctx → ℕ → Inductive → List Tm → ℕ → List Tm → Run (Option Tm)
    unfolding iota_fields
    iota_ctor ctx i decl args k cargs = elim (get_elem? decl.ctors k) [
      | none ↦ done none
      | some c ↦
          let np = length decl.params in
          let nctors = length decl.ctors in
          let nidx = length decl.indices in
          let fields = drop (min np (length cargs)) cargs in
          let minor = get_or args (np + 1 + k) (sort 0) in
          let rest = drop (np + 1 + nctors + nidx + 1) args in
          map_done (λ t. apply t rest)
            (iota_fields ctx i np nidx (take (np + 1 + nctors) args) fields c.args 0
              (apply minor fields))
    ]

    unfoldable pub iota_scrut : Ctx → ℕ → Inductive → List Tm → Tm → List Tm → Run (Option Tm)
    unfolding iota_ctor
    iota_scrut ctx i decl args (ctor j k) cargs =
        if j == i then iota_ctor ctx i decl args k cargs else done none
    iota_scrut ctx i decl args _ cargs = done none

    unfoldable pub try_iota : Ctx → ℕ → List Tm → Run (Option Tm)
    unfolding iota_scrut
    try_iota ctx i args = elim (env.inds i) [
      | none ↦ done none
      | some decl ↦
          let expected = length decl.params + 1 + length decl.ctors + length decl.indices + 1 in
          if ltb (length args) expected
          then done none
          else (calls.whnf ctx (get_or args (expected - 1) (sort 0)) >>= λ w.
              iota_scrut ctx i decl args (spine w).0 (spine w).1)
    ]

    -- A turn of the loop of `whnf_tm`, on the spine of `cur`.
    unfoldable pub whnf_head : Ctx → Tm → Tm → List Tm → Run Tm
    unfolding try_iota
    whnf_head ctx cur (lam d body) (a ∷ args) = calls.whnf ctx (apply (subst_tm body 0 a) args)
    whnf_head ctx cur (const c) args = elim (env.consts c) [
      | none ↦ done cur
      | some d ↦ calls.whnf ctx (apply d.body args)
    ]
    whnf_head ctx cur (elim_of i) args =
        try_iota ctx i args >>= λ o. elim o [ none ↦ done cur | some r ↦ calls.whnf ctx r ]
    whnf_head ctx cur _ args = done cur

    unfoldable pub whnf_tm : Ctx → Tm → Run Tm
    unfolding whnf_head
    whnf_tm ctx t = whnf_head ctx t (spine t).0 (spine t).1

    unfoldable pub nf_head : Ctx → Tm → Run Tm
    unfolding eta
    nf_head ctx (lam d b) = do
      dom ← calls.nf ctx d
      body ← calls.nf (d ∷ ctx) b
      done (eta dom body)
    nf_head ctx (pi d b) = do dom ← calls.nf ctx d; cod ← calls.nf (d ∷ ctx) b; done (pi dom cod)
    nf_head ctx (app f x) = do f' ← calls.nf ctx f; x' ← calls.nf ctx x; done (app f' x')
    nf_head ctx other = done other

    unfoldable pub nf_tm : Ctx → Tm → Run Tm
    unfolding nf_head
    nf_tm ctx t = calls.whnf ctx t >>= nf_head ctx

    -- An error of the net is no conversion: `check` makes a mismatch of it.
    unfoldable pub conv : Ctx → Tm → Tm → Run Bool
    conv ctx t u =
        if is_open t 0 || is_open u 0 || needs_typed_conv t || needs_typed_conv u
        then (do a ← calls.nf ctx t; b ← calls.nf ctx u; done (same_tm a b))
        else elim (net_conv t u) [ none ↦ fails mismatch | some b ↦ done b ]
