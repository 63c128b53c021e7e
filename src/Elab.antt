-- ===== src/Elab.antt =====
-- crates/dnx-elab/src/pass2.rs: the net of a term. The elaboration of a part is an action over the
-- net that takes the level, the path and what is carried along: the environment, the number of the
-- next fresh name and the tables of primitives. A handler is elaborated as the application that it
-- is desugared to; each of its parts stands in the term, so the recursion is on the term.
pub mod Steps
pub mod Safe
pub mod Pass0
pub mod Pass1
pub mod Alpha
use Prim.Native.String.{String}
use text.Mathlib.Text.{◌==◌ as str_eq}
use dnet.Prelude.{
  ℕ, zero, suc, ◌+◌, ◌-◌, ◌%◌, ◌^◌, Option, none, some, List, [], ◌∷◌, ◌==◌, ltb, leb,
  if◌then◌else◌, ◌&&◌,
}
use dnet.Prelude.Int.{ℤ, pos, negsuc}
use dnet.Error.{Result, ok, err, readback_incomplete, delta_overflow}
use dnet.LoPath.{LoPath, extend_left, extend_right}
use dnet.Port
use dnet.Port.{PortId}
use dnet.Net.{
  Net, Action, ◌>>=◌, ◌>>◌, pure, lift, alloc_abs, alloc_app, alloc_rep_in, alloc_free, connect,
}
use dnet.Ast.{Ast, no_branch, branch}
use dnet.Primitive.{
  PrimState, PrimFunEntry, PrimImpl, pure_fn, effectful, alloc_prim_val, alloc_prim_fun,
  or_incomplete,
}

-- `HashMap<Name, (PortId, u32)>`
abbrev pub Env : Type 0
Env = String → Option (PortId × ℕ)

abbrev pub put : String → Option (PortId × ℕ) → Env → Env
put x v env y = if str_eq y x then v else env y

-- `PrimCtx`, but for the tables, which are carried along.
pub record PrimCtx (P V F : Type 0) : Type 0 where
  pub to_fun : F → Option (PrimFunEntry P)
  pub to_val : V → Option P

pub record Carried (P : Type 0) : Type 0 where
  pub env : Env
  pub fresh_ctr : ℕ
  pub state : PrimState P

abbrev pub with_env : {P : Type 0} → Env → Carried P → Carried P
with_env env c = record c { env = env }

abbrev pub Elaboration : Type 0 → Type 0
Elaboration P = ℕ → LoPath → Carried P → Action ((PortId × ℕ) × Carried P)

-- The difference of two `u32` that are cast to `i32`.
unfoldable pub i32_diff : ℕ → ℕ → ℤ
i32_diff a b =
    let d = (a + 2 ^ 32 - b) % 2 ^ 32 in if ltb d (2 ^ 31) then pos d else negsuc (2 ^ 32 - 1 - d)

unfoldable pub try_i16 : ℤ → Result ℤ
try_i16 (pos n) = if ltb n (2 ^ 15) then ok (pos n) else err delta_overflow
try_i16 (negsuc n) = if ltb n (2 ^ 15) then ok (negsuc n) else err delta_overflow

-- `usage_levels.get(a).unwrap_or(&level)`
abbrev pub usage_or : Option ℕ → ℕ → ℕ
usage_or none level = level
usage_or (some l) level = l

module _ {P : Type 0} where
  unfoldable pub elab_name : String → Elaboration P
  elab_name n level lo c = do
    bound ← lift (or_incomplete (c.env n))
    pure (bound, with_env (put n none c.env) c)

  unfoldable pub elab_abs : String → Elaboration P → Elaboration P
  elab_abs x body level lo c = do
    abs ← alloc_abs
    lo_body ← lift (extend_left lo)
    ((body_p, l), c') ←
        body level lo_body (with_env (put x (some (abs.aux1, (level + 1) % 2 ^ 32)) c.env) c)
    connect abs.aux0 body_p lo_body
    pure ((abs.principal, level), with_env (put x none c'.env) c')

  unfoldable pub elab_app : Elaboration P → Elaboration P → Elaboration P
  elab_app f x level lo c = do
    app ← alloc_app
    lo_fn ← lift (extend_left lo)
    ((f_p, l), c1) ← f level lo_fn c
    lo_arg ← lift (extend_right lo)
    ((a_p, l'), c2) ← x ((level + 1) % 2 ^ 32) lo_arg c1
    connect app.principal f_p lo_fn
    connect app.aux1 a_p lo_arg
    pure ((app.aux0, level), c2)

  unfoldable pub elab_rep :
      (String → Option ℕ) → Elaboration P → String → String → Elaboration P → Elaboration P
  elab_rep usage_levels e a b body level lo c = do
    let la = usage_or (usage_levels a) level
    let lb = usage_or (usage_levels b) level
    ((e_p, rep_level), c1) ← e level lo c
    d0 ← lift (try_i16 (i32_diff la rep_level))
    d1 ← lift (try_i16 (i32_diff lb rep_level))
    rep ← alloc_rep_in (rep_level % 2 ^ 16) d0 d1
    connect rep.principal e_p lo
    body level lo (with_env (put b (some (rep.aux1, lb)) (put a (some (rep.aux0, la)) c1.env)) c1)

  unfoldable pub elab_era : Elaboration P → Elaboration P → Elaboration P
  elab_era e body level lo c = do
    ((e_p, l), c1) ← e level lo c
    connect Port.era e_p lo
    body level lo c1

  unfoldable pub elab_fix : Elaboration P → Elaboration P
  elab_fix inner level lo c = do
    lo_fn ← lift (extend_left lo)
    ((inner_p, l), c1) ← inner level lo_fn c
    app ← alloc_app
    connect app.principal inner_p lo_fn
    rep ← alloc_rep_in (level % 2 ^ 16) (pos 0) (pos 0)
    lo_rep ← lift (extend_right lo)
    connect rep.principal app.aux0 lo_rep
    connect app.aux1 rep.aux0 lo
    pure ((rep.aux1, level), c1)

  -- The desugared handler. `fresh` is `_r` or `_lbl` with a number, and the counter wraps.
  unfoldable pub elab_handle :
      (String → ℕ → String) → Elaboration P → String → String → Elaboration P → Elaboration P
  elab_handle fresh comp arg_name k_name body level lo c =
      let r_v = fresh "r" c.fresh_ctr in
      let lbl_v = fresh "lbl" ((c.fresh_ctr + 1) % 2 ^ 32) in
      let c' : Carried P = record c { fresh_ctr = (c.fresh_ctr + 2) % 2 ^ 32 } in
      elab_app (elab_app comp (elab_abs r_v (elab_name r_v)))
        (elab_abs lbl_v (elab_abs arg_name (elab_abs k_name (elab_era (elab_name lbl_v) body))))
        level lo c'

  unfoldable pub elab_free : Elaboration P
  elab_free level lo c = do p ← alloc_free 0; pure ((p, level), c)

  unfoldable pub emit_val : P → Elaboration P
  emit_val pv level lo c = do
    (p, s) ← alloc_prim_val pv c.state
    pure ((p, level), record c { state = s })

  unfoldable pub emit_fun : PrimFunEntry P → Elaboration P
  emit_fun entry level lo c = do
    (p, s) ← alloc_prim_fun entry c.state
    pure ((p, level), record c { state = s })

  -- A pure function without arguments is called at once.
  unfoldable pub elab_constant : PrimImpl P → PrimFunEntry P → Elaboration P
  unfolding emit_val emit_fun
  elab_constant (pure_fn pf) entry level lo c = do
    v ← lift (pf entry.captured)
    emit_val v level lo c
  elab_constant (effectful label) entry level lo c = emit_fun entry level lo c

  unfoldable pub elab_entry : PrimFunEntry P → Elaboration P
  unfolding elab_constant emit_fun
  elab_entry entry =
      if entry.arity_remaining == 0 then elab_constant entry.impl entry else emit_fun entry

  module _ {V F : Type 0} where
    unfoldable pub elab_val : Option (PrimCtx P V F) → V → Elaboration P
    unfolding elab_free emit_val
    elab_val none v level lo c = elab_free level lo c
    elab_val (some ctx) v level lo c = do
      pv ← lift (or_incomplete (ctx.to_val v))
      emit_val pv level lo c

    unfoldable pub elab_fun : Option (PrimCtx P V F) → F → Elaboration P
    unfolding elab_free elab_entry
    elab_fun none f level lo c = elab_free level lo c
    elab_fun (some ctx) f level lo c = do
      entry ← lift (or_incomplete (ctx.to_fun f))
      elab_entry entry level lo c

abbrev pub refuse : {P : Type 0} → Elaboration P
refuse level lo c = lift (err readback_incomplete)

-- `elab_impl`. `fresh` prints a fresh name.
unfoldable pub elaborate :
    {P V F : Type 0}
    → (String → ℕ → String)
    → Option (PrimCtx P V F)
    → (String → Option ℕ)
    → Ast V F
    → Elaboration P
unfolding elab_name elab_abs elab_app elab_rep elab_era elab_fix elab_handle elab_val elab_fun
elaborate fresh prim usage (Ast.name n) = elab_name n
elaborate fresh prim usage (Ast.abs x body) = elab_abs x (elaborate fresh prim usage body)
elaborate fresh prim usage (Ast.app f x) =
    elab_app (elaborate fresh prim usage f) (elaborate fresh prim usage x)
elaborate fresh prim usage (Ast.rep e a b body) =
    elab_rep usage (elaborate fresh prim usage e) a b (elaborate fresh prim usage body)
elaborate fresh prim usage (Ast.era e body) =
    elab_era (elaborate fresh prim usage e) (elaborate fresh prim usage body)
elaborate fresh prim usage (Ast.fix inner) = elab_fix (elaborate fresh prim usage inner)
elaborate fresh prim usage (Ast.val v) = elab_val prim v
elaborate fresh prim usage (Ast.fun f) = elab_fun prim f
elaborate fresh prim usage (Ast.perform label e) = refuse
elaborate fresh prim usage (Ast.handle comp no_branch) = refuse
elaborate fresh prim usage (Ast.handle comp (branch label arg_name k_name body no_branch)) =
    elab_handle fresh (elaborate fresh prim usage comp) arg_name k_name
      (elaborate fresh prim usage body)
elaborate fresh prim usage (Ast.handle comp (branch _ _ _ _ (branch _ _ _ _ _))) = refuse
