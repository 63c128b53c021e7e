-- ===== src/Primitive/Safe.antt =====
-- The agents of primitives (crates/dnx-core/src/prim.rs) in a safe net.
use dnet.Prelude.{
  List, ◌≡◌, refl, ◌++◌, ◌∷◌, [], Bool, true, false, Option, none, some, leb, length, if◌then◌else◌,
}
use dnet.Prelude.Int.{pos}
use dnet.Error.{DnxError, ok, err}
use dnet.Port.{PortId}
use dnet.Net.{Net, Action, and_then}
use dnet.Net.Safe.{InNet, IsSafe, Returns, returns, fails}
use dnet.Net.Keeps.{Grown, mono-Returns}
use dnet.Net.Chain.{Calm, calm_ok, calm_err}
use dnet.Rules.Grow.{alloc-bind}
use dnet.Primitive.{
  PrimState, PrimFunEntry, PrimImpl, pure_fn, effectful, alloc_val, alloc_fun, alloc_prim_val,
  alloc_prim_fun, or_incomplete,
}

module _ {P : Type 0} where
  -- The code of a primitive does not panic, whatever its arguments.
  abbrev pub CalmImpl : PrimImpl P → Type 0
  CalmImpl (pure_fn f) = (args : List P) → Calm (f args)
  CalmImpl (effectful label) = Unit

pub or_incomplete-Calm : {A : Type 0} (o : Option A) → Calm (or_incomplete o)
unfolding or_incomplete
or_incomplete-Calm none = calm_err
or_incomplete-Calm (some a) = calm_ok a

if-Calm : {A : Type 0} (b : Bool) (e : DnxError) (a : A) → Calm (if b then err e else ok a)
if-Calm true e a = calm_err
if-Calm false e a = calm_ok a

-- A new agent, and a port that leads to it.
pub record Emitted {A : Type 0} (n : Net) (r : PortId × A) (m : Net) : Type 0 where
  pub grown : Grown n m
  pub at : InNet m r.0

-- The same, with what becomes of the tables.
pub record Made {A : Type 0} (n : Net) (s : A) (r : PortId × A) (m : Net) : Type 0 where
  pub grown : Grown n m
  pub at : InNet m r.0
  pub state : r.1 ≡ s

Made-Emitted : {A : Type 0} {n m : Net} {s : A} {r : PortId × A} → Made n s r m → Emitted n r m
Made-Emitted h = record { grown = h.grown; at = h.at }

-- What follows a test that leads to an error or a value.
if-bind :
    {A B : Type 0} {R : B → Net → Type 0} {n : Net} (b : Bool) (e : DnxError) (a : A)
    (k : A → Action B)
    → IsSafe n
    → Returns R (k a n)
    → Returns R (and_then ((if b then err e else ok a), n) k)
if-bind true e a k safe next = fails safe
if-bind false e a k safe next = next

module _ {P : Type 0} where
  -- The tables with a value or a function more.
  abbrev pub with_val : P → PrimState P → PrimState P
  with_val v s = record s { vals = s.vals ++ v ∷ [] }

  abbrev pub with_fun : PrimFunEntry P → PrimState P → PrimState P
  with_fun entry s = record s { funs = s.funs ++ entry ∷ [] }

  pub alloc_prim_val-Made :
      {n : Net} (v : P) (s : PrimState P)
      → IsSafe n
      → Returns (Made n (with_val v s)) (alloc_prim_val v s n)
  unfolding alloc_prim_val alloc_val
  alloc_prim_val-Made v s safe = if-bind (leb 65535 (length s.vals)) _ _ _ safe (
      alloc-bind _ (length s.vals) (pos 0) (pos 0) _ safe
        λ ps m safe g i. returns safe (record { grown = g; at = i.in_principal; state = refl }))

  pub alloc_prim_fun-Made :
      {n : Net} (entry : PrimFunEntry P) (s : PrimState P)
      → IsSafe n
      → Returns (Made n (with_fun entry s)) (alloc_prim_fun entry s n)
  unfolding alloc_prim_fun alloc_fun
  alloc_prim_fun-Made entry s safe = if-bind (leb 65535 (length s.funs)) _ _ _ safe (
      alloc-bind _ (length s.funs) (pos 0) (pos 0) _ safe
        λ ps m safe g i. returns safe (record { grown = g; at = i.in_principal; state = refl }))

  pub alloc_prim_val-Returns :
      {n : Net} (v : P) (s : PrimState P) → IsSafe n → Returns (Emitted n) (alloc_prim_val v s n)
  alloc_prim_val-Returns v s safe = mono-Returns (alloc_prim_val-Made v s safe) λ r m. Made-Emitted

  pub alloc_prim_fun-Returns :
      {n : Net} (entry : PrimFunEntry P) (s : PrimState P)
      → IsSafe n
      → Returns (Emitted n) (alloc_prim_fun entry s n)
  alloc_prim_fun-Returns entry s safe =
      mono-Returns (alloc_prim_fun-Made entry s safe) λ r m. Made-Emitted
