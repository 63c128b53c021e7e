-- ===== src/Primitive.antt =====
-- crates/dnx-core/src/prim.rs: the tables of primitive values and functions, their agents, and the
-- application of a function to a value. The type of values is a parameter: it is closed over what
-- the front ends put in. The code of a primitive function is one too; it returns a value or an error,
-- or it panics.
-- Beside an error the tables are not returned, since the callers drop them with the net.
pub mod Safe
pub mod Apply
use Prim.Native.String.{String}
use text.Mathlib.Text.{◌==◌ as str_eq}
use dnet.Prelude.{
  ℕ, zero, suc, ◌+◌, ◌-◌, ◌%◌, ◌^◌, Bool, true, false, not, ◌&&◌, ◌||◌, Option, none, some, List,
  [], ◌∷◌, ◌++◌, ◌==◌, leb, ltb, length, get_elem?, if◌then◌else◌,
}
use dnet.Prelude.Int.{pos}
use dnet.Error.{DnxError, Result, ok, err, arena_capacity_exceeded, readback_incomplete}
use dnet.LoPath.{LoPath, root}
use dnet.Port.{PortId, slot_idx, is_eraser, era}
use dnet.Slot.{Slot, is_fan, is_prim, fan_is_abs}
use dnet.Net.{
  Action, AgentPorts, ◌>>=◌, ◌>>◌, pure, lift, slot, slot_is_live, alloc_agent, alloc_abs, connect,
  retire,
}

abbrev pub tag_prim_val : ℕ
tag_prim_val = 0x0C

abbrev pub tag_prim_fun : ℕ
tag_prim_fun = 0x0D

pub data PrimImpl (P : Type 0) : Type 0 where
  pure_fn : (List P → Result P) → PrimImpl P
  effectful : String → PrimImpl P

pub record PrimFunEntry (P : Type 0) : Type 0 where
  pub name : String
  pub arity_remaining : ℕ
  pub captured : List P
  pub impl : PrimImpl P

pub record PrimTable (P : Type 0) : Type 0 where
  pub names : List String
  pub impls : List (ℕ × PrimImpl P)

pub record PrimState (P : Type 0) : Type 0 where
  pub vals : List P
  pub funs : List (PrimFunEntry P)

-- `ok_or(DnxError::ReadbackIncomplete)`
unfoldable pub or_incomplete : {A : Type 0} → Option A → Result A
or_incomplete none = err readback_incomplete
or_incomplete (some a) = ok a

-- `Iterator::position`
position_from : ℕ → String → List String → Option ℕ
position_from i name [] = none
position_from i name (n ∷ l) = if str_eq n name then some i else position_from (suc i) name l

module _ {P : Type 0} where
  unfoldable pub register : String → ℕ → PrimImpl P → PrimTable P → ℕ × PrimTable P
  register name arity impl t = (
    length t.names % 2 ^ 16,
    record t { names = t.names ++ name ∷ []; impls = t.impls ++ (arity, impl) ∷ [] },
  )

  unfoldable pub lookup : String → PrimTable P → Option ℕ
  unfolding position_from
  lookup name t = elim (position_from 0 name t.names) [ none ↦ none | some i ↦ some (i % 2 ^ 16) ]

  unfoldable pub make_entry : ℕ → PrimTable P → Option (PrimFunEntry P)
  make_entry prim_id t = elim (get_elem? t.impls prim_id) [
    | none ↦ none
    | some (arity, impl) ↦ elim (get_elem? t.names prim_id) [
      | none ↦ none
      | some name ↦
          some (record { name = name; arity_remaining = arity; captured = []; impl = impl })
    ]
  ]

  unfoldable pub alloc_val : P → PrimState P → Result (ℕ × PrimState P)
  alloc_val v s =
      if leb 65535 (length s.vals)
      then err arena_capacity_exceeded
      else ok (length s.vals, record s { vals = s.vals ++ v ∷ [] })

  unfoldable pub alloc_fun : PrimFunEntry P → PrimState P → Result (ℕ × PrimState P)
  alloc_fun entry s =
      if leb 65535 (length s.funs)
      then err arena_capacity_exceeded
      else ok (length s.funs, record s { funs = s.funs ++ entry ∷ [] })

  unfoldable pub alloc_prim_val : P → PrimState P → Action (PortId × PrimState P)
  alloc_prim_val v s = do
    (val_id, s') ← lift (alloc_val v s)
    ports ← alloc_agent tag_prim_val val_id (pos 0) (pos 0)
    pure (ports.principal, s')

  unfoldable pub alloc_prim_fun : PrimFunEntry P → PrimState P → Action (PortId × PrimState P)
  alloc_prim_fun entry s = do
    (fun_id, s') ← lift (alloc_fun entry s)
    ports ← alloc_agent tag_prim_fun fun_id (pos 0) (pos 0)
    pure (ports.principal, s')

  -- The match on the implementation, when no argument is missing.
  unfoldable pub fire :
      PrimImpl P → List P → PortId → LoPath → PrimState P → Action (Unit {0} × PrimState P)
  fire (pure_fn f) args cont lo s = do
    result ← lift (f args)
    (new_p, s') ← alloc_prim_val result s
    connect new_p cont lo
    pure (tt, s')
  fire (effectful label) args cont lo s = lift (err readback_incomplete)

  -- The value with the number that the agent of the argument holds.
  unfoldable pub argument : Slot → PrimState P → Result P
  argument view s =
      if not (is_prim view) || view.tag == tag_prim_fun
      then err readback_incomplete
      else or_incomplete (get_elem? s.vals view.data_word)

  -- An argument is missing still.
  unfoldable pub partial :
      PrimFunEntry P → List P → PortId → LoPath → PrimState P → Action (Unit {0} × PrimState P)
  partial entry args cont lo s = do
    let rest = record entry { arity_remaining = entry.arity_remaining - 1; captured = args }
    (new_p, s') ← alloc_prim_fun rest s
    connect new_p cont lo
    pure (tt, s')

  -- `prim_apply_inner`, once the entry and the argument are found.
  unfoldable pub apply_entry :
      PrimFunEntry P
      → P
      → PortId
      → PortId
      → PortId
      → LoPath
      → PrimState P
      → Action (Unit {0} × PrimState P)
  apply_entry entry arg p_fun p_arg cont lo s = do
    retire (slot_idx p_fun)
    retire (slot_idx p_arg)
    let args = entry.captured ++ arg ∷ []
    if ltb 1 entry.arity_remaining
        then partial entry args cont lo s
        else fire entry.impl args cont lo s

  unfoldable pub prim_apply_with_cont :
      PortId → PortId → PortId → LoPath → PrimState P → Action (Unit {0} × PrimState P)
  unfolding apply_entry
  prim_apply_with_cont p_fun p_arg cont lo s = do
    fun_view ← slot p_fun
    entry ← lift (or_incomplete (get_elem? s.funs fun_view.data_word))
    arg_view ← slot p_arg
    arg ← lift (argument arg_view s)
    apply_entry entry arg p_fun p_arg cont lo s

  unfoldable pub prim_apply :
      PortId → PortId → LoPath → PrimState P → Action (Unit {0} × PrimState P)
  unfolding prim_apply_with_cont
  prim_apply p_fun p_arg lo s = do
    fun_view ← slot p_fun
    prim_apply_with_cont p_fun p_arg fun_view.principal lo s

-- The body is the outer variable or the inner one, and the other is erased.
unfoldable pub wire_bool : Bool → AgentPorts → AgentPorts → Action (Unit {0})
wire_bool true outer inner = do connect inner.aux0 outer.aux1 root; connect inner.aux1 era root
wire_bool false outer inner = do connect inner.aux0 inner.aux1 root; connect outer.aux1 era root

unfoldable pub emit_church_bool : Bool → Action PortId
unfolding wire_bool
emit_church_bool b = do
  outer ← alloc_abs
  inner ← alloc_abs
  connect outer.aux0 inner.principal root
  wire_bool b outer inner
  pure outer.principal

-- Of the outer abstraction and the inner one, which has its variable erased.
unfoldable pub church_of : Slot → Slot → Option Bool
church_of outer inner =
    if not (is_fan inner) || not (fan_is_abs inner)
    then none
    else if is_eraser inner.aux1
    then some true
    else if is_eraser outer.aux1
    then some false
    else none

-- What the body of the outer abstraction leads to is looked at if it is live.
unfoldable pub church_body : Slot → Action (Option Bool)
unfolding church_of
church_body outer n =
    if slot_is_live outer.aux0 n
    then (do inner ← slot outer.aux0; pure (church_of outer inner)) n
    else (ok none, n)

unfoldable pub try_church_bool : PortId → Action (Option Bool)
unfolding church_body
try_church_bool p = do
  outer ← slot p
  if not (is_fan outer) || not (fan_is_abs outer) then pure none else church_body outer
