-- ===== src/Kernel/Env.antt =====
-- crates/dnx-proof/src/inductive.rs, env.rs: declarations and the environment. A `HashMap` is a function
-- from its keys.
use dnet.Prelude.{ℕ, Option, List}
use dnet.Kernel.Term.{Tm, Level, Telescope}

pub record CtorDecl : Type 0 where
  pub ctor_ix : ℕ
  pub args : Telescope
  pub ret_indices : List Tm

pub record Inductive : Type 0 where
  pub id : ℕ
  pub params : Telescope
  pub indices : Telescope
  pub universe : Level
  pub ctors : List CtorDecl

pub record CtorArity : Type 0 where
  pub ctor_ix : ℕ
  pub nfields : ℕ
  pub nrec : ℕ

pub record ArityTable : Type 0 where
  pub ind : ℕ
  pub nparams : ℕ
  pub nindices : ℕ
  pub ctors : List CtorArity

-- The type and the body of a constant.
pub record Definition : Type 0 where
  pub ty : Tm
  pub body : Tm

pub record GlobalEnv : Type 0 where
  pub consts : ℕ → Option Definition
  pub inds : ℕ → Option Inductive
  pub recursors : ℕ → Option ArityTable

-- The binder types, the innermost first. (The source has it last.)
abbrev pub Ctx : Type 0
Ctx = List Tm
