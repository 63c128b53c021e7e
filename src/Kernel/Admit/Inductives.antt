-- ===== src/Kernel/Admit/Inductives.antt =====
-- crates/dnx-proof/src/env.rs, `add_inductive`: what is admitted is well formed, and what is refused leaves no trace.
use dnet.Prelude.{
  ℕ, ◌≤◌, ◌≡◌, refl, Bool, true, false, not, Option-cases, inl, inr, ◌||◌, Option, none, some, List,
  [], ◌∷◌, arith, ◌==◌, length,
}
use dnet.Kernel.Term.{Tm, Level, Telescope, sort, le, is_open, needs_typed_conv}
use dnet.Kernel.Env.{GlobalEnv, Inductive, CtorDecl, Ctx}
use dnet.Kernel.Run.{
  done, catch, Yields, yields, >>=-Yields, if-Yields, Yields-map, done-Yields, OnSome, catch-Yields,
}
use dnet.Kernel.Rules.{Conv, Reduces, HasType}
use dnet.Kernel.Check.{kernel, sort_of}
use dnet.Kernel.Sound.{kernel-IsSound, sort_of-HasType}
use dnet.Kernel.Admit.{
  AdmitError, duplicate, ill_typed_field, ill_typed_index, Verdict, and_then, is_some, push_all,
  positive_fields, positive_ctors, field_universes, check_field_universes, return_type,
  check_ret_indices, with_inductive, with_recursor, add_inductive, calls_in,
}
use dnet.Kernel.Admit.Positivity.{Positive, strictly_positive_lem}

pub data Every {A : Type 0} (P : A → Type 0) : List A → Type 0 where
  every_nil : Every P []
  every_cons : {a : A} {l : List A} → P a → Every P l → Every P (a ∷ l)

-- Each field is a type of a universe that is not above the declared one, in the context of those before it.
pub data FieldsFit (env : GlobalEnv) (universe : Level) : Ctx → Telescope → Type 0 where
  fit_end : {ctx : Ctx} → FieldsFit env universe ctx []
  fit_field :
      {ctx : Ctx} {field : Tm} {fields : Telescope} (level : Level)
      → HasType env ctx field (sort level)
      → level ≤ universe
      → FieldsFit env universe (field ∷ ctx) fields
      → FieldsFit env universe ctx (field ∷ fields)

-- The constructor returns a value for each index, and what it returns is a type.
pub record ReturnFits (env : GlobalEnv) (decl : Inductive) (c : CtorDecl) : Type 0 where
  pub as_many : length c.ret_indices ≡ length decl.indices
  pub level : Level
  pub is_type :
      HasType env (push_all c.args (push_all decl.params [])) (return_type decl c) (sort level)

and_then-Yields :
    {P Q : Type 0} {m n : Verdict}
    → Yields (λ o. o ≡ none → P) m
    → Yields (λ o. o ≡ none → Q) n
    → Yields (λ o. o ≡ none → P × Q) (and_then m n)
and_then-Yields p q = >>=-Yields p (λ o f. go o f q)
  where
    go :
        {P Q : Type 0} {n : Verdict} (o : Option AdmitError)
        → (o ≡ none → P)
        → Yields (λ o. o ≡ none → Q) n
        → Yields (λ o. o ≡ none → P × Q) (elim o [ none ↦ n | some e ↦ done (some e) ])
    go none f q = Yields-map (λ o g e. (f refl, g e)) q
    go (some e) f q = yields (λ e. cc)

known_or_refused :
    {A : Type 0} {P : Type 0} (e : AdmitError) (o : Option A) {k : A → Verdict}
    → ((a : A) → o ≡ some a → Yields (λ o. o ≡ none → P) (k a))
    → Yields (λ o. o ≡ none → P) (elim o [ none ↦ done (some e) | some a ↦ k a ])
known_or_refused e none next = yields (λ e. cc)
known_or_refused e (some a) next = next a refl

le→≤ : (i j : Level) → le i j ≡ true → i ≤ j
unfolding le
le→≤ i j e = ground arith

decided_eq : (m n : ℕ) → not (m == n) ≡ false → m ≡ n
decided_eq m n e = ground arith

-- What is admitted, and what is left when a declaration is refused.
pub data Admission (env : GlobalEnv) (decl : Inductive)
    : GlobalEnv × Option AdmitError → Type 0 where
  admitted :
      env.inds decl.id ≡ none
      → Every (λ c. Every (Positive (Reduces env []) decl.id) c.args) decl.ctors
      → Every
          (λ c. FieldsFit (with_inductive env decl) decl.universe (push_all decl.params []) c.args)
          decl.ctors
      → Every (ReturnFits (with_inductive env decl) decl) decl.ctors
      → Admission env decl (with_recursor env decl, none)
  refused : (e : AdmitError) → Admission env decl (env, some e)

module _ (net_conv : Tm → Tm → Option Bool)
    (net_sound : (env : GlobalEnv) (ctx : Ctx) (t u : Tm)
      → (is_open t 0 || needs_typed_conv t) ≡ false
      → (is_open u 0 || needs_typed_conv u) ≡ false
      → net_conv t u ≡ some true
      → Conv env ctx t u)
    (fuel : ℕ) where
  positive_fields-Positive :
      (env : GlobalEnv) (i : ℕ) (args : Telescope)
      → Yields
          (λ o. o ≡ none → Every (Positive (Reduces env []) i) args)
          (positive_fields net_conv fuel env i args)
  unfolding positive_fields
  positive_fields-Positive env i [] = yields (λ e. every_nil)
  positive_fields-Positive env i (arg ∷ args) =
      >>=-Yields
        (strictly_positive_lem (Reduces env []) i _
          (λ t. (kernel-IsSound env net_conv (net_sound env) fuel).whnf_sound [] t) fuel arg)
        (λ ok f.
          if-Yields ok
            (λ e.
              Yields-map (λ o g e'. every_cons (f e) (g e')) (positive_fields-Positive env i args))
            (λ e. yields (λ e'. cc)))

  positive_ctors-Positive :
      (env : GlobalEnv) (i : ℕ) (ctors : List CtorDecl)
      → Yields
          (λ o. o ≡ none → Every (λ c. Every (Positive (Reduces env []) i) c.args) ctors)
          (positive_ctors net_conv fuel env i ctors)
  unfolding positive_ctors
  positive_ctors-Positive env i [] = yields (λ e. every_nil)
  positive_ctors-Positive env i (c ∷ ctors) =
      Yields-map (λ o f e. every_cons (f e).0 (f e).1)
        (and_then-Yields (positive_fields-Positive env i c.args)
          (positive_ctors-Positive env i ctors))

  sort_caught :
      (env : GlobalEnv) (ctx : Ctx) (t : Tm)
      → Yields
          (OnSome (λ l. HasType env ctx t (sort l)))
          (catch (sort_of env net_conv (calls_in net_conv fuel env) ctx t))
  sort_caught env ctx t = catch-Yields (
      sort_of-HasType env net_conv (net_sound env) (kernel env net_conv fuel)
        (kernel-IsSound env net_conv (net_sound env) fuel) ctx t)

  field_universes-FieldsFit :
      (env : GlobalEnv) (universe : Level) (ctx : Ctx) (fields : Telescope)
      → Yields
          (λ o. o ≡ none → FieldsFit env universe ctx fields)
          (field_universes net_conv fuel env universe ctx fields)
  unfolding field_universes
  field_universes-FieldsFit env universe ctx [] = yields (λ e. fit_end)
  field_universes-FieldsFit env universe ctx (field ∷ fields) =
      >>=-Yields (sort_caught env ctx field) (λ o f.
        known_or_refused ill_typed_field o (λ level is_level.
          if-Yields (le level universe)
            (λ fits.
              Yields-map
                (λ o g e'. fit_field level (f level is_level) (le→≤ level universe fits) (g e'))
                (field_universes-FieldsFit env universe (field ∷ ctx) fields))
            (λ e. yields (λ e'. cc))))

  check_field_universes-FieldsFit :
      (env : GlobalEnv) (decl : Inductive) (ctors : List CtorDecl)
      → Yields
          (λ o.
            o ≡ none
            → Every (λ c. FieldsFit env decl.universe (push_all decl.params []) c.args) ctors)
          (check_field_universes net_conv fuel env decl ctors)
  unfolding check_field_universes
  check_field_universes-FieldsFit env decl [] = yields (λ e. every_nil)
  check_field_universes-FieldsFit env decl (c ∷ ctors) =
      Yields-map (λ o f e. every_cons (f e).0 (f e).1)
        (and_then-Yields (field_universes-FieldsFit env decl.universe _ c.args)
          (check_field_universes-FieldsFit env decl ctors))

  check_ret_indices-ReturnFits :
      (env : GlobalEnv) (decl : Inductive) (ctors : List CtorDecl)
      → Yields
          (λ o. o ≡ none → Every (ReturnFits env decl) ctors)
          (check_ret_indices net_conv fuel env decl ctors)
  unfolding check_ret_indices
  check_ret_indices-ReturnFits env decl [] = yields (λ e. every_nil)
  check_ret_indices-ReturnFits env decl (c ∷ ctors) =
      if-Yields (not (length c.ret_indices == length decl.indices)) (λ e. yields (λ e'. cc))
        (λ e. >>=-Yields (sort_caught env _ (return_type decl c)) (λ o f.
          known_or_refused ill_typed_index o (λ level is_level.
            Yields-map
              (λ o g e'.
                every_cons
                  (record { as_many = decided_eq _ _ e; level = level; is_type = f level is_level })
                  (g e'))
              (check_ret_indices-ReturnFits env decl ctors))))

  admission :
      (env : GlobalEnv) (decl : Inductive)
      → Yields (Admission env decl) (add_inductive net_conv fuel env decl)
  unfolding add_inductive is_some
  admission env decl = elim (Option-cases (env.inds decl.id)) [
    | inr (old, known) ↦ rw (known, add_inductive) (yields (refused duplicate))
    | inl fresh ↦
        rw (fresh, add_inductive)
          (>>=-Yields
            (and_then-Yields (positive_ctors-Positive env decl.id decl.ctors) (
              and_then-Yields
                (check_field_universes-FieldsFit (with_inductive env decl) decl decl.ctors)
                (check_ret_indices-ReturnFits (with_inductive env decl) decl decl.ctors)))
            (λ o f. verdict fresh o f))
  ]
    where
      verdict :
          env.inds decl.id ≡ none
          → (o : Option AdmitError)
          → (o ≡ none
              → Every (λ c. Every (Positive (Reduces env []) decl.id) c.args) decl.ctors
                × (Every
                      (λ c.
                        FieldsFit
                          (with_inductive env decl)
                          decl.universe
                          (push_all decl.params [])
                          c.args)
                      decl.ctors
                    × Every (ReturnFits (with_inductive env decl) decl) decl.ctors))
          → Yields
              (Admission env decl)
              (elim o [ none ↦ done (with_recursor env decl, none) | some e ↦ done (env, some e) ])
      verdict fresh none f = yields (admitted fresh (f refl).0 (f refl).1.0 (f refl).1.1)
      verdict fresh (some e) f = yields (refused e)

  -- When `add_inductive` comes to its end, then it has refused the declaration and left the
  -- environment as it was; or the declared name was free, each field of each constructor is
  -- strictly positive, up to reduction, and is a type of a universe that is not above the declared
  -- one, each constructor returns a value for each index and a well-formed type, and the
  -- environment has the declaration and its table of arities more. Of the net on which closed pure
  -- terms are compared it is supposed that it equates convertible terms only.
  pub add_inductive-Admission :
      (env : GlobalEnv) (decl : Inductive) (r : GlobalEnv × Option AdmitError)
      → add_inductive net_conv fuel env decl ≡ done r
      → Admission env decl r
  add_inductive-Admission env decl r e = done-Yields (admission env decl) e
