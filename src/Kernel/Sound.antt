-- ===== src/Kernel/Sound.antt =====
-- crates/dnx-proof/src/infer.rs: what the kernel infers is a type.
pub mod Reduction
use dnet.Prelude.{
  ℕ, zero, suc, ◌+◌, ◌-◌, ◌≤◌, ◌≡◌, refl, sym, ap, ◌∙◌, subst, Bool, true, false, Bool-cases,
  Option, none, some, Option-cases, inl, inr, List, [], ◌∷◌, ◌++◌, arith, ◌==◌, ltb, leb, length,
  get_elem?, get_or, take, drop, ◌||◌, ◌&&◌, if◌then◌else◌,
}
use Prim.Native.Nat.{min, max}
use dnet.Prelude.Int.{pos, negsuc}
use dnet.Kernel.Term.{
  Tm, Level, Telescope, var, sort, pi, lam, app, const, ind, ctor, elim_of, succ, shift, subst_tm,
  same_tm, same_tm→eq, apply, spine, spine-eq, telescope, head_is_ind, occurs_var, is_open,
  needs_typed_conv,
}
use dnet.Kernel.Env.{GlobalEnv, Definition, Inductive, CtorDecl, Ctx}
use dnet.Kernel.Run.{
  Run, TypeError, done, unbound_var, unknown_const, unknown_ind, mismatch, unsupported, fails,
  running, ◌>>=◌, ◌>>◌, Yields, yields, yields_error, yields_later, >>=-Yields, if-Yields,
  Yields-map, done-Yields, OnSome, catch-Yields, then-Yields, opt-Yields, opt_fails-Yields,
}
use dnet.Kernel.Recursor.{recursor_type}
use dnet.Kernel.Reduce.{
  Calls, eta, index_args, field_indices, iota_fields, iota_ctor, iota_scrut, try_iota, whnf_head,
  whnf_tm, nf_head, nf_tm, conv,
}
use dnet.Kernel.Check.{
  kernel, find_ctor, ind_type, ctor_type, var_type, check, sort_level, sort_of, pi_parts, as_pi,
  peel, apply_args, motive_level, infer_elim, infer_ctor, infer_head, infer_spine, infer,
}
use dnet.Kernel.Rules.{
  arity, Conv, Reduces, Checks, checks, Minor, minor_end, minor_skip, minor_rec, Indices,
  indices_none, indices_of, HasType, type_reduces, type_var, type_sort, type_pi, type_lam, type_app,
  type_const, type_ind, type_ctor, type_elim,
}
use dnet.Kernel.Sound.Reduction.{IsSound, whnf_tm-Reduces, nf_tm-Reduces, conv-Conv}

module _ (env : GlobalEnv) (net_conv : Tm → Tm → Option Bool)
    (net_sound : (ctx : Ctx) (t u : Tm)
      → (is_open t 0 || needs_typed_conv t) ≡ false
      → (is_open u 0 || needs_typed_conv u) ≡ false
      → net_conv t u ≡ some true
      → Conv env ctx t u) where
  module _ (calls : Calls) (sound : IsSound env net_conv net_sound calls) where
    check-Checks :
        (ctx : Ctx) (t ty : Tm)
        → Yields (λ _. Checks env ctx t ty) (check env net_conv calls ctx t ty)
    unfolding check
    check-Checks ctx t ty = >>=-Yields (sound.infer_sound ctx t) (λ got has.
        >>=-Yields (conv-Conv env net_conv net_sound calls sound ctx got ty)
          (λ same c. if-Yields same (λ e. yields (checks has (c e))) (λ e. yields_error)))

    var_type-HasType : (ctx : Ctx) (i : ℕ) → Yields (HasType env ctx (var i)) (var_type ctx i)
    unfolding var_type
    var_type-HasType ctx i =
        opt_fails-Yields unbound_var (get_elem? ctx i) (λ ty found. yields (type_var found))

    sort_level-eq : (t : Tm) → Yields (λ l. t ≡ sort l) (sort_level t)
    unfolding sort_level
    sort_level-eq (sort l) = yields refl
    sort_level-eq _ = yields_error

    pub sort_of-HasType :
        (ctx : Ctx) (t : Tm)
        → Yields (λ l. HasType env ctx t (sort l)) (sort_of env net_conv calls ctx t)
    unfolding sort_of
    sort_of-HasType ctx t = >>=-Yields (sound.infer_sound ctx t) (λ ty has.
        >>=-Yields (sound.whnf_sound ctx ty) (λ w c.
          Yields-map (λ l e. type_reduces has (subst (λ w. Reduces env ctx ty w) e c))
            (sort_level-eq w)))

    pi_parts-eq : (t : Tm) → Yields (λ ab. t ≡ pi ab.0 ab.1) (pi_parts t)
    unfolding pi_parts
    pi_parts-eq (pi a b) = yields refl
    pi_parts-eq _ = yields_error

    as_pi-Reduces :
        (ctx : Ctx) (t : Tm)
        → Yields (λ ab. Reduces env ctx t (pi ab.0 ab.1)) (as_pi env net_conv calls ctx t)
    unfolding as_pi
    as_pi-Reduces ctx t =
        >>=-Yields (sound.whnf_sound ctx t)
          (λ w c. Yields-map (λ ab e. subst (λ w. Reduces env ctx t w) e c) (pi_parts-eq w))

    apply_args-HasType :
        (ctx : Ctx) (f : Tm) (cur : Tm) (args : List Tm)
        → HasType env ctx f cur
        → Yields (HasType env ctx (apply f args)) (apply_args env net_conv calls ctx cur args)
    unfolding apply_args apply
    apply_args-HasType ctx f cur [] has = yields has
    apply_args-HasType ctx f cur (a ∷ args) has =
        >>=-Yields (as_pi-Reduces ctx cur) (λ (dom, cod) c.
          >>=-Yields (check-Checks ctx a dom) (λ u arg.
            apply_args-HasType ctx (app f a) (subst_tm cod 0 a) args
              (type_app (type_reduces has c) arg)))

    infer_elim-HasType :
        (ctx : Ctx) (i : ℕ) (args : List Tm)
        → Yields
            (HasType env ctx (apply (elim_of i) args))
            (infer_elim env net_conv calls ctx i args)
    unfolding infer_elim
    infer_elim-HasType ctx i args = opt_fails-Yields unknown_ind (env.inds i) (λ decl known.
        opt_fails-Yields unsupported (get_elem? args (length decl.params)) (λ motive _.
          then-Yields (calls.infer ctx motive) (λ mty.
            then-Yields (peel env net_conv calls ctx (length decl.indices + 1) mty) (λ level.
              then-Yields (calls.whnf ctx level) (λ w. then-Yields (motive_level w) (λ lm.
                apply_args-HasType ctx (elim_of i) (recursor_type decl lm) args
                  (type_elim lm known)))))))

    infer_ctor-HasType :
        (ctx : Ctx) (i k : ℕ) → Yields (HasType env ctx (ctor i k)) (infer_ctor i k (env.inds i))
    unfolding infer_ctor
    infer_ctor-HasType ctx i k = elim (Option-cases (env.inds i)) [
      | inl unknown ↦ rw (unknown, infer_ctor) yields_error
      | inr (decl, known) ↦
          rw (known, infer_ctor)
            (opt_fails-Yields unsupported (find_ctor k decl.ctors)
              (λ c found. yields (type_ctor known found)))
    ]

    infer_head-HasType :
        (ctx : Ctx) (t : Tm) → Yields (HasType env ctx t) (infer_head env net_conv calls ctx t)
    unfolding infer_head
    infer_head-HasType ctx (var i) = var_type-HasType ctx i
    infer_head-HasType ctx (sort l) = yields (type_sort l)
    infer_head-HasType ctx (pi a b) =
        >>=-Yields (sort_of-HasType ctx a)
          (λ i has. >>=-Yields (sort_of-HasType (a ∷ ctx) b) (λ j has2. yields (type_pi has has2)))
    infer_head-HasType ctx (lam a b) =
        >>=-Yields (sort_of-HasType ctx a) (λ i has.
          >>=-Yields (sound.infer_sound (a ∷ ctx) b) (λ t has2. yields (type_lam has has2)))
    infer_head-HasType ctx (app f x) = >>=-Yields (sound.infer_sound ctx f) (λ ft has.
        >>=-Yields (as_pi-Reduces ctx ft) (λ ab c.
          >>=-Yields (check-Checks ctx x ab.0)
            (λ u arg. yields (type_app (type_reduces has c) arg))))
    infer_head-HasType ctx (const c) =
        opt_fails-Yields unknown_const (env.consts c) (λ d known. yields (type_const known))
    infer_head-HasType ctx (ind i) =
        opt_fails-Yields unknown_ind (env.inds i) (λ d known. yields (type_ind known))
    infer_head-HasType ctx (ctor i k) = infer_ctor-HasType ctx i k
    infer_head-HasType ctx (elim_of i) = yields_error

    infer_spine-HasType :
        (ctx : Ctx) (t h : Tm) (args : List Tm)
        → apply h args ≡ t
        → Yields (HasType env ctx t) (infer_spine env net_conv calls ctx t h args)
    unfolding infer_spine
    infer_spine-HasType ctx t (elim_of i) args e =
        subst (λ t. Yields (HasType env ctx t) (infer_elim env net_conv calls ctx i args)) e
          (infer_elim-HasType ctx i args)
    infer_spine-HasType ctx t _ args e = infer_head-HasType ctx t

    infer_calls-HasType :
        (ctx : Ctx) (t : Tm) → Yields (HasType env ctx t) (infer env net_conv calls ctx t)
    unfolding infer
    infer_calls-HasType ctx t = infer_spine-HasType ctx t (spine t).0 (spine t).1 (spine-eq t)

  pub kernel-IsSound : (fuel : ℕ) → IsSound env net_conv net_sound (kernel env net_conv fuel)
  unfolding kernel
  kernel-IsSound zero = record {
    whnf_sound = λ ctx t. yields_later;
    nf_sound = λ ctx t. yields_later;
    infer_sound = λ ctx t. yields_later;
  }
  kernel-IsSound (suc fuel) = record {
    whnf_sound =
        whnf_tm-Reduces env net_conv net_sound (kernel env net_conv fuel) (kernel-IsSound fuel);
    nf_sound =
        nf_tm-Reduces env net_conv net_sound (kernel env net_conv fuel) (kernel-IsSound fuel);
    infer_sound = infer_calls-HasType (kernel env net_conv fuel) (kernel-IsSound fuel);
  }

  -- If the kernel infers a type for a term in a context, then the typing rules give the term that
  -- type, for any environment and any fuel. The rules are an inductive family: a type may be
  -- reduced, by beta, delta, iota and eta at any place, never expanded, and an argument has a type
  -- convertible to the domain. Convertible are terms with a common reduct, where the domains of
  -- abstractions do not count in closed pure terms, which have no sort, product or constant. Of the
  -- net on which such terms are compared it is supposed that it equates convertible ones only.
  pub infer-HasType :
      (fuel : ℕ) (ctx : Ctx) (t ty : Tm)
      → (kernel env net_conv fuel).infer ctx t ≡ done ty
      → HasType env ctx t ty
  infer-HasType fuel ctx t ty e = done-Yields ((kernel-IsSound fuel).infer_sound ctx t) e

  -- If the kernel finds two terms equal in a context, by normal forms or, where they are closed and
  -- pure, on the net, then they are convertible: they have a common reduct by beta, delta, iota and
  -- eta, where the domains of abstractions do not count in closed pure terms. Of the net it is
  -- supposed that it equates convertible terms only.
  pub kernel-conv-Conv :
      (fuel : ℕ) (ctx : Ctx) (t u : Tm)
      → conv env net_conv (kernel env net_conv fuel) ctx t u ≡ done true
      → Conv env ctx t u
  kernel-conv-Conv fuel ctx t u e =
      done-Yields
        (conv-Conv env net_conv net_sound (kernel env net_conv fuel) (kernel-IsSound fuel) ctx t u)
        e refl
