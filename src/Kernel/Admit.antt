-- ===== src/Kernel/Admit.antt =====
-- crates/dnx-proof/src/env.rs, positivity.rs: the admission of constants and inductive types.
pub mod Constants
pub mod Positivity
pub mod Inductives
pub mod Negative
use dnet.Prelude.{
  ℕ, zero, suc, ◌+◌, Bool, true, false, not, ◌&&◌, ◌||◌, Option, none, some, List, [], ◌∷◌, ◌++◌,
  ◌==◌, length, if◌then◌else◌,
}
use dnet.Kernel.Term.{
  Tm, Telescope, var, sort, pi, lam, app, const, ind, ctor, elim_of, le, apply, head_is_ind,
}
use dnet.Kernel.Env.{GlobalEnv, Definition, Inductive, CtorDecl, CtorArity, ArityTable, Ctx}
use dnet.Kernel.Run.{Run, done, running, ◌>>=◌, catch}
use dnet.Kernel.Recursor.{vars_down}
use dnet.Kernel.Reduce.{Calls}
use dnet.Kernel.Check.{kernel, sort_of}

-- The strings of `BadDecl` are constructors.
pub data AdmitError : Type 0 where
  cycle : ℕ → AdmitError
  duplicate non_positive ill_typed_field universe_too_big arity_mismatch ill_typed_index :
      AdmitError

-- `GlobalEnv::default()`
abbrev pub empty_env : GlobalEnv
empty_env = record { consts = λ c. none; inds = λ i. none; recursors = λ i. none }

unfoldable pub is_some : {A : Type 0} → Option A → Bool
is_some none = false
is_some (some a) = true

unfoldable pub insert : {A : Type 0} → (ℕ → Option A) → ℕ → A → ℕ → Option A
insert m key value other = if other == key then some value else m other

unfoldable pub refs_unknown_const : Tm → (ℕ → Option Definition) → ℕ → Bool
unfolding is_some
refs_unknown_const (const c) known this = c == this || not (is_some (known c))
refs_unknown_const (pi a b) known this =
    refs_unknown_const a known this || refs_unknown_const b known this
refs_unknown_const (lam a b) known this =
    refs_unknown_const a known this || refs_unknown_const b known this
refs_unknown_const (app a b) known this =
    refs_unknown_const a known this || refs_unknown_const b known this
refs_unknown_const _ known this = false

-- The environment afterwards, and the error if there is one.
unfoldable pub add_const : GlobalEnv → ℕ → Tm → Tm → GlobalEnv × Option AdmitError
unfolding is_some refs_unknown_const insert
add_const env id ty body =
    if is_some (env.consts id)
    then (env, some duplicate)
    else (if refs_unknown_const body env.consts id then (env, some (cycle id)) else (
      record {
        consts = insert env.consts id (record { ty = ty; body = body });
        inds = env.inds;
        recursors = env.recursors;
      },
      none,
    ))

-- `||` on calls.
unfoldable pub or_else : Run Bool → Run Bool → Run Bool
or_else m n = m >>= λ b. if b then done true else n

unfoldable pub and_not : Run Bool → Run Bool → Run Bool
and_not m n = m >>= λ b. if b then done false else n

-- Over `whnf_tm` in the empty context; the three functions recur on fuel.
module _ (whnf : Tm → Run Tm) (i : ℕ) where
  -- The match of `occurs` on a reduced term.
  unfoldable pub occurs_in : (Tm → Run Bool) → Tm → Run Bool
  unfolding or_else
  occurs_in self (ind j) = done (j == i)
  occurs_in self (pi a b) = or_else (self a) (self b)
  occurs_in self (lam a b) = or_else (self a) (self b)
  occurs_in self (app a b) = or_else (self a) (self b)
  occurs_in self _ = done false

  unfoldable pub occurs : ℕ → Tm → Run Bool
  unfolding occurs_in
  occurs zero t = running
  occurs (suc fuel) t = whnf t >>= λ w. occurs_in (occurs fuel) w

  unfoldable pub valid_ind_app : ℕ → Tm → Run Bool
  unfolding and_not occurs
  valid_ind_app fuel (app f x) = and_not (occurs fuel x) (valid_ind_app fuel f)
  valid_ind_app fuel (ind j) = done (j == i)
  valid_ind_app fuel _ = done false

  unfoldable pub positive_in : ℕ → (Tm → Run Bool) → Tm → Run Bool
  unfolding and_not occurs valid_ind_app
  positive_in fuel self (pi a b) = and_not (occurs fuel a) (self b)
  positive_in fuel self w = occurs fuel w >>= λ b. if b then valid_ind_app fuel w else done true

  unfoldable pub strictly_positive : ℕ → Tm → Run Bool
  unfolding positive_in
  strictly_positive zero t = running
  strictly_positive (suc fuel) t = whnf t >>= λ w. positive_in fuel (strictly_positive fuel) w

-- What an error check came to: none is `Ok(())`.
abbrev pub Verdict : Type 0
Verdict = Run (Option AdmitError)

-- `and_then`
abbrev pub and_then : Verdict → Verdict → Verdict
and_then m n = m >>= λ o. elim o [ none ↦ n | some e ↦ done (some e) ]

-- The telescope is pushed on the context.
unfoldable pub push_all : Telescope → Ctx → Ctx
push_all [] ctx = ctx
push_all (ty ∷ tele) ctx = push_all tele (ty ∷ ctx)

-- The type that a constructor returns, under its fields.
unfoldable pub return_type : Inductive → CtorDecl → Tm
return_type decl c =
    apply (ind decl.id) (vars_down (length decl.params) (length c.args) ++ c.ret_indices)

module _ (net_conv : Tm → Tm → Option Bool) (fuel : ℕ) (env : GlobalEnv) where
  abbrev pub calls_in : Calls
  calls_in = kernel env net_conv fuel

  unfoldable pub positive_fields : ℕ → Telescope → Verdict
  unfolding strictly_positive
  positive_fields i [] = done none
  positive_fields i (arg ∷ args) = strictly_positive (calls_in.whnf []) i fuel arg >>= λ ok.
      if ok then positive_fields i args else done (some non_positive)

  unfoldable pub positive_ctors : ℕ → List CtorDecl → Verdict
  unfolding positive_fields
  positive_ctors i [] = done none
  positive_ctors i (c ∷ ctors) = and_then (positive_fields i c.args) (positive_ctors i ctors)

  unfoldable pub field_universes : ℕ → Ctx → Telescope → Verdict
  unfolding sort_of
  field_universes universe ctx [] = done none
  field_universes universe ctx (field ∷ fields) =
      catch (sort_of env net_conv calls_in ctx field) >>= λ o. elim o [
        | none ↦ done (some ill_typed_field)
        | some level ↦
            if le level universe
            then field_universes universe (field ∷ ctx) fields
            else done (some universe_too_big)
      ]

  unfoldable pub check_field_universes : Inductive → List CtorDecl → Verdict
  unfolding field_universes push_all
  check_field_universes decl [] = done none
  check_field_universes decl (c ∷ ctors) =
      and_then (field_universes decl.universe (push_all decl.params []) c.args)
        (check_field_universes decl ctors)

  unfoldable pub check_ret_indices : Inductive → List CtorDecl → Verdict
  unfolding return_type sort_of push_all
  check_ret_indices decl [] = done none
  check_ret_indices decl (c ∷ ctors) =
      if not (length c.ret_indices == length decl.indices)
      then done (some arity_mismatch)
      else (catch (
            sort_of env net_conv calls_in (push_all c.args (push_all decl.params []))
              (return_type decl c))
          >>= λ o. elim o [
            | none ↦ done (some ill_typed_index)
            | some level ↦ check_ret_indices decl ctors
          ])

unfoldable pub count_rec : ℕ → Telescope → ℕ
count_rec i [] = 0
count_rec i (ty ∷ args) = let rest = count_rec i args in if head_is_ind ty i then suc rest else rest

ctor_arities : ℕ → List CtorDecl → List CtorArity
unfolding count_rec
ctor_arities i [] = []
ctor_arities i (c ∷ ctors) =
    record { ctor_ix = c.ctor_ix; nfields = length c.args; nrec = count_rec i c.args }
    ∷ ctor_arities i ctors

unfoldable pub arity_table : Inductive → ArityTable
unfolding ctor_arities
arity_table decl = record {
  ind = decl.id;
  nparams = length decl.params;
  nindices = length decl.indices;
  ctors = ctor_arities decl.id decl.ctors;
}

-- The environment with the type registered, for the checks that resolve it.
abbrev pub with_inductive : GlobalEnv → Inductive → GlobalEnv
with_inductive env decl = record {
  consts = env.consts;
  inds = insert env.inds decl.id decl;
  recursors = env.recursors;
}

abbrev pub with_recursor : GlobalEnv → Inductive → GlobalEnv
with_recursor env decl = record {
  consts = env.consts;
  inds = insert env.inds decl.id decl;
  recursors = insert env.recursors decl.id (arity_table decl);
}

unfoldable pub add_inductive :
    (Tm → Tm → Option Bool) → ℕ → GlobalEnv → Inductive → Run (GlobalEnv × Option AdmitError)
unfolding is_some positive_ctors check_field_universes check_ret_indices
add_inductive net_conv fuel env decl =
    if is_some (env.inds decl.id)
    then done (env, some duplicate)
    else (and_then (positive_ctors net_conv fuel env decl.id decl.ctors) (
          and_then (check_field_universes net_conv fuel (with_inductive env decl) decl decl.ctors)
            (check_ret_indices net_conv fuel (with_inductive env decl) decl decl.ctors))
        >>= λ o. elim o [
          | none ↦ done (with_recursor env decl, none)
          | some e ↦ done (env, some e)
        ])
