-- ===== src/Kernel/Sound/Reduction.antt =====
-- crates/dnx-proof/src/driver.rs, conv.rs: what the kernel reduces and compares.
use dnet.Prelude.{
  ℕ, zero, suc, ◌+◌, ◌-◌, ◌≤◌, ◌≡◌, refl, sym, ap, ◌∙◌, subst, Bool, true, false, Bool-cases,
  Option, none, some, Option-cases, inl, inr, List, [], ◌∷◌, arith, ◌==◌, ltb, leb, length,
  get_elem?, get_or, ◌||◌, ◌&&◌,
}
use dnet.Kernel.Term.{
  Tm, Telescope, var, sort, pi, lam, app, const, ind, ctor, elim_of, subst_tm, same_tm→eq, apply,
  spine, spine-eq, head_is_ind, occurs_var, is_open, needs_typed_conv,
}
use dnet.Kernel.Env.{GlobalEnv, Inductive, Ctx}
use dnet.Kernel.Run.{
  done, mismatch, Yields, yields, >>=-Yields, if-Yields, Yields-map, OnSome, catch-Yields,
  opt-Yields, opt_fails-Yields,
}
use dnet.Kernel.Reduce.{
  Calls, eta, index_args, field_indices, iota_fields, iota_ctor, iota_scrut, try_iota, whnf_head,
  whnf_tm, nf_head, nf_tm, conv,
}
use dnet.Kernel.Rules.{
  arity, Conv, common_reduct, Reduces, red_refl, red_trans, red_pi, red_lam, red_app, red_beta,
  red_delta, red_eta, red_iota, Minor, minor_end, minor_skip, minor_rec, Indices, indices_none,
  indices_of, HasType,
}

empty_of_length : {A : Type 0} (l : List A) → length l ≡ 0 → l ≡ []
empty_of_length [] e = refl
empty_of_length (x ∷ l) e = ground arith

module _ (env : GlobalEnv) (net_conv : Tm → Tm → Option Bool)
    (net_sound : (ctx : Ctx) (t u : Tm)
      → (is_open t 0 || needs_typed_conv t) ≡ false
      → (is_open u 0 || needs_typed_conv u) ≡ false
      → net_conv t u ≡ some true
      → Conv env ctx t u) where
  -- The calls that a function makes are sound.
  pub record IsSound (calls : Calls) : Type 0 where
    pub whnf_sound : (ctx : Ctx) (t : Tm) → Yields (Reduces env ctx t) (calls.whnf ctx t)
    pub nf_sound : (ctx : Ctx) (t : Tm) → Yields (Reduces env ctx t) (calls.nf ctx t)
    pub infer_sound : (ctx : Ctx) (t : Tm) → Yields (HasType env ctx t) (calls.infer ctx t)

  Reduces-apply :
      {ctx : Ctx} {f g : Tm} (args : List Tm)
      → Reduces env ctx f g
      → Reduces env ctx (apply f args) (apply g args)
  unfolding apply
  Reduces-apply [] c = c
  Reduces-apply (a ∷ args) c = Reduces-apply args (red_app c (red_refl a))

  -- A term that has the spine of an applied head.
  of_spine :
      {ctx : Ctx} (t : Tm) {h w : Tm}
      → (spine t).0 ≡ h
      → Reduces env ctx (apply h (spine t).1) w
      → Reduces env ctx t w
  of_spine {ctx} t {h} {w} e c =
      subst (λ s. Reduces env ctx s w) (ap (λ h. apply h (spine t).1) (sym e) ∙ spine-eq t) c

  eta-Reduces : {ctx : Ctx} (dom body : Tm) → Reduces env ctx (lam dom body) (eta dom body)
  unfolding eta
  eta-Reduces dom (app f (var zero)) = elim (Bool-cases (occurs_var f 0)) [
    | inl used ↦ rw used (red_refl _)
    | inr unused ↦ rw unused (red_eta dom f unused)
  ]
  eta-Reduces dom (app f (var (suc n))) = red_refl _
  eta-Reduces dom (app f (sort l)) = red_refl _
  eta-Reduces dom (app f (pi a b)) = red_refl _
  eta-Reduces dom (app f (lam a b)) = red_refl _
  eta-Reduces dom (app f (app g x)) = red_refl _
  eta-Reduces dom (app f (const c)) = red_refl _
  eta-Reduces dom (app f (ind i)) = red_refl _
  eta-Reduces dom (app f (ctor i k)) = red_refl _
  eta-Reduces dom (app f (elim_of i)) = red_refl _
  eta-Reduces dom (var i) = red_refl _
  eta-Reduces dom (sort l) = red_refl _
  eta-Reduces dom (pi a b) = red_refl _
  eta-Reduces dom (lam a b) = red_refl _
  eta-Reduces dom (const c) = red_refl _
  eta-Reduces dom (ind i) = red_refl _
  eta-Reduces dom (ctor i k) = red_refl _
  eta-Reduces dom (elim_of i) = red_refl _

  module _ (calls : Calls) (sound : IsSound calls) where
    index_args-Indices :
        {ctx : Ctx} {field ty : Tm} (i : ℕ) (decl : Inductive) (h : Tm) (args : List Tm)
        → HasType env ctx field ty
        → Reduces env ctx ty (apply h args)
        → OnSome (Indices env ctx i decl field) (index_args i (length decl.params) h args)
    unfolding index_args
    index_args-Indices {ctx} {field} {ty} i decl (ind j) args t c idxs e =
        elim (Bool-cases (j == i && leb (length decl.params) (length args))) [
          | inl holds ↦
              subst (λ l. Indices env ctx i decl field l) (cc)
                (indices_of args t
                  (subst (λ j. Reduces env ctx ty (apply (ind j) args)) (ground arith) c)
                  (ground arith))
          | inr misses ↦ cc
        ]
    index_args-Indices i decl _ args t c idxs e = cc

    field_indices-Indices :
        (ctx : Ctx) (i : ℕ) (decl : Inductive) (field : Tm)
        → Yields (OnSome (Indices env ctx i decl field)) (
            field_indices env net_conv calls ctx i (length decl.params) (length decl.indices) field)
    unfolding field_indices
    field_indices-Indices ctx i decl field =
        if-Yields (length decl.indices == 0)
          (λ e. yields (λ idxs eq.
            subst (λ l. Indices env ctx i decl field l) (cc)
              (indices_none (empty_of_length decl.indices (ground arith)))))
          (λ e. >>=-Yields (catch-Yields (sound.infer_sound ctx field)) (λ o p.
            opt-Yields o (λ ty is_ty. >>=-Yields (sound.whnf_sound ctx ty) (λ w c. yields (
              index_args-Indices i decl (spine w).0 (spine w).1 (p ty is_ty)
                (subst (λ w. Reduces env ctx ty w) (sym (spine-eq w)) c))))))

    iota_fields-Minor :
        (ctx : Ctx) (i : ℕ) (decl : Inductive) (prefix fields : List Tm) (tys : Telescope) (at : ℕ)
        (t : Tm)
        → Yields (OnSome (Minor env ctx i decl prefix fields tys at t)) (
            iota_fields env net_conv calls ctx i
              (length decl.params)
              (length decl.indices)
              prefix
              fields
              tys
              at
              t)
    unfolding iota_fields
    iota_fields-Minor ctx i decl prefix fields [] at t =
        yields (λ r e. subst (λ r. Minor env ctx i decl prefix fields [] at t r) (cc) minor_end)
    iota_fields-Minor ctx i decl prefix fields (ty ∷ tys) at t =
        elim (Bool-cases (head_is_ind ty i)) [
          | inl holds ↦
              rw (holds, iota_fields)
                (opt-Yields (get_elem? fields at) (λ field is_field.
                  >>=-Yields (field_indices-Indices ctx i decl field) (λ o p.
                    opt-Yields o (λ idxs is_idxs.
                      Yields-map (λ o q r e. minor_rec holds is_field (p idxs is_idxs) (q r e))
                        (iota_fields-Minor ctx i decl prefix fields tys (at + 1) _)))))
          | inr misses ↦
              rw (misses, iota_fields)
                (Yields-map (λ o q r e. minor_skip misses (q r e))
                  (iota_fields-Minor ctx i decl prefix fields tys (at + 1) t))
        ]

    iota_ctor-Reduces :
        (ctx : Ctx) (i : ℕ) (decl : Inductive) (args : List Tm) (k : ℕ) (cargs : List Tm)
        → env.inds i ≡ some decl
        → arity decl ≤ length args
        → Reduces env ctx (get_or args (arity decl - 1) (sort 0)) (apply (ctor i k) cargs)
        → Yields
            (OnSome (Reduces env ctx (apply (elim_of i) args)))
            (iota_ctor env net_conv calls ctx i decl args k cargs)
    unfolding iota_ctor
    iota_ctor-Reduces ctx i decl args k cargs known enough c =
        opt-Yields (get_elem? decl.ctors k) (λ cd is_cd.
          >>=-Yields (iota_fields-Minor ctx i decl _ _ cd.args 0 _) (λ o p. opt-Yields o (λ r is_r.
            yields (λ r' e.
              subst (λ r. Reduces env ctx (apply (elim_of i) args) r) (cc)
                (red_iota k cd args cargs known enough c is_cd (p r is_r))))))

    iota_scrut-Reduces :
        (ctx : Ctx) (i : ℕ) (decl : Inductive) (args : List Tm) (h : Tm) (cargs : List Tm)
        → env.inds i ≡ some decl
        → arity decl ≤ length args
        → Reduces env ctx (get_or args (arity decl - 1) (sort 0)) (apply h cargs)
        → Yields
            (OnSome (Reduces env ctx (apply (elim_of i) args)))
            (iota_scrut env net_conv calls ctx i decl args h cargs)
    unfolding iota_scrut
    iota_scrut-Reduces ctx i decl args (ctor j k) cargs known enough c =
        if-Yields (j == i)
          (λ e. iota_ctor-Reduces ctx i decl args k cargs known enough (
            subst
              (λ j.
                Reduces env ctx (get_or args (arity decl - 1) (sort 0)) (apply (ctor j k) cargs))
              (ground arith) c))
          (λ e. yields (λ a e. cc))
    iota_scrut-Reduces ctx i decl args _ cargs known enough c = yields (λ a e. cc)

    pub try_iota-Reduces :
        (ctx : Ctx) (i : ℕ) (args : List Tm)
        → Yields
            (OnSome (Reduces env ctx (apply (elim_of i) args)))
            (try_iota env net_conv calls ctx i args)
    unfolding try_iota
    try_iota-Reduces ctx i args = opt-Yields (env.inds i) (λ decl known.
        if-Yields (ltb (length args) (arity decl)) (λ e. yields (λ a e. cc))
          (λ e. >>=-Yields (sound.whnf_sound ctx (get_or args (arity decl - 1) (sort 0))) (λ w c.
            iota_scrut-Reduces ctx i decl args (spine w).0 (spine w).1 known (ground arith) (
              subst (λ w. Reduces env ctx (get_or args (arity decl - 1) (sort 0)) w)
                (sym (spine-eq w)) c))))

    whnf_head-Reduces :
        (ctx : Ctx) (cur h : Tm) (args : List Tm)
        → Reduces env ctx cur (apply h args)
        → Yields (Reduces env ctx cur) (whnf_head env net_conv calls ctx cur h args)
    unfolding whnf_head apply
    whnf_head-Reduces ctx cur (lam d body) (a ∷ args) c =
        Yields-map (λ w c2. red_trans c (red_trans (Reduces-apply args (red_beta d body a)) c2))
          (sound.whnf_sound ctx (apply (subst_tm body 0 a) args))
    whnf_head-Reduces ctx cur (const k) args c = elim (Option-cases (env.consts k)) [
      | inl unknown ↦ rw (unknown, whnf_head) (yields (red_refl cur))
      | inr (d, known) ↦
          rw (known, whnf_head)
            (Yields-map (λ w c2. red_trans c (red_trans (Reduces-apply args (red_delta known)) c2))
              (sound.whnf_sound ctx (apply d.body args)))
    ]
    whnf_head-Reduces ctx cur (elim_of i) args c = >>=-Yields (try_iota-Reduces ctx i args) (λ o p.
        elim o
            as (λ o.
              OnSome (Reduces env ctx (apply (elim_of i) args)) o
              → Yields (Reduces env ctx cur)
                  (elim o [ none ↦ done cur | some r ↦ calls.whnf ctx r ])) [
                    | none ↦ λ p. yields (red_refl cur)
                    | some r ↦ λ p.
                        Yields-map (λ w c2. red_trans c (red_trans (p r refl) c2))
                          (sound.whnf_sound ctx r)
                  ]
          p)
    whnf_head-Reduces ctx cur _ args c = yields (red_refl cur)

    pub whnf_tm-Reduces :
        (ctx : Ctx) (t : Tm) → Yields (Reduces env ctx t) (whnf_tm env net_conv calls ctx t)
    unfolding whnf_tm
    whnf_tm-Reduces ctx t =
        whnf_head-Reduces ctx t (spine t).0 (spine t).1
          (subst (λ s. Reduces env ctx t s) (sym (spine-eq t)) (red_refl t))

    nf_head-Reduces :
        (ctx : Ctx) (t : Tm) → Yields (Reduces env ctx t) (nf_head env net_conv calls ctx t)
    unfolding nf_head
    nf_head-Reduces ctx (lam d b) = >>=-Yields (sound.nf_sound ctx d) (λ dom c1.
        >>=-Yields (sound.nf_sound (d ∷ ctx) b)
          (λ body c2. yields (red_trans (red_lam c1 c2) (eta-Reduces dom body))))
    nf_head-Reduces ctx (pi d b) =
        >>=-Yields (sound.nf_sound ctx d)
          (λ dom c1. >>=-Yields (sound.nf_sound (d ∷ ctx) b) (λ body c2. yields (red_pi c1 c2)))
    nf_head-Reduces ctx (app f x) =
        >>=-Yields (sound.nf_sound ctx f)
          (λ f' c1. >>=-Yields (sound.nf_sound ctx x) (λ x' c2. yields (red_app c1 c2)))
    nf_head-Reduces ctx _ = yields (red_refl _)

    pub nf_tm-Reduces :
        (ctx : Ctx) (t : Tm) → Yields (Reduces env ctx t) (nf_tm env net_conv calls ctx t)
    unfolding nf_tm
    nf_tm-Reduces ctx t =
        >>=-Yields (sound.whnf_sound ctx t)
          (λ w c. Yields-map (λ n c2. red_trans c c2) (nf_head-Reduces ctx w))

    pub conv-Conv :
        (ctx : Ctx) (t u : Tm)
        → Yields (λ b. b ≡ true → Conv env ctx t u) (conv env net_conv calls ctx t u)
    unfolding conv
    conv-Conv ctx t u =
        if-Yields (is_open t 0 || is_open u 0 || needs_typed_conv t || needs_typed_conv u)
          (λ e. >>=-Yields (sound.nf_sound ctx t) (λ a c1.
            >>=-Yields (sound.nf_sound ctx u) (λ b c2. yields (λ same.
              common_reduct (subst (λ n. Reduces env ctx t n) (same_tm→eq a b same) c1) c2))))
          (λ e. opt_fails-Yields mismatch (net_conv t u) (λ b is_b.
            yields (λ same. net_sound ctx t u (ground arith) (ground arith) (is_b ∙ ap some same))))
