-- ===== src/Elab/Safe.antt =====
-- The elaboration of any term (crates/dnx-elab/src/pass2.rs) in a safe net.
use Prim.Native.String.{String}
use dnet.Prelude.{◌≡◌, ℕ, Bool, true, false, Option, none, some, ◌==◌, if◌then◌else◌}
use dnet.LoPath.{LoPath}
use dnet.Net.{Net}
use dnet.Net.Safe.{size, IsSafe, Returns, returns, fails, and_then-Returns}
use dnet.Net.Free.{alloc_free-Returns}
use dnet.Net.Chain.{lift-bind}
use dnet.Ast.{Ast, no_branch, branch}
use dnet.Primitive.{PrimFunEntry, PrimImpl, pure_fn, effectful}
use dnet.Primitive.Apply.{found-bind}
use dnet.Primitive.Safe.{
  CalmImpl, or_incomplete-Calm, alloc_prim_val-Returns, alloc_prim_fun-Returns,
}
use dnet.Elab.{
  PrimCtx, Carried, Elaboration, elab_free, emit_val, emit_fun, elab_constant, elab_entry, elab_val,
  elab_fun, refuse, elaborate,
}
use dnet.Elab.Steps.{
  EnvIn, Led, grow-EnvIn, Sound, name-Sound, abs-Sound, app-Sound, rep-Sound, era-Sound, fix-Sound,
  handle-Sound,
}

module _ {P : Type 0} where
  free-Sound : Sound (elab_free {P = P})
  unfolding elab_free
  free-Sound = record {
    sound = λ level lo c {n} safe h. and_then-Returns (alloc_free-Returns 0 safe) λ p m safe new.
        returns safe (record {
          larger = new.grown.size_grown;
          at = new.new_port;
          env_in = grow-EnvIn new.grown.size_grown h;
        });
  }

  emit_val-Sound : (v : P) → Sound (emit_val v)
  unfolding emit_val
  emit_val-Sound v = record {
    sound = λ level lo c {n} safe h.
        and_then-Returns (alloc_prim_val-Returns v c.state safe) λ (p, s) m safe new.
          returns safe (record {
            larger = new.grown.size_grown;
            at = new.at;
            env_in = record { inside = (grow-EnvIn new.grown.size_grown h).inside };
          });
  }

  emit_fun-Sound : (entry : PrimFunEntry P) → Sound (emit_fun entry)
  unfolding emit_fun
  emit_fun-Sound entry = record {
    sound = λ level lo c {n} safe h.
        and_then-Returns (alloc_prim_fun-Returns entry c.state safe) λ (p, s) m safe new.
          returns safe (record {
            larger = new.grown.size_grown;
            at = new.at;
            env_in = record { inside = (grow-EnvIn new.grown.size_grown h).inside };
          });
  }

  constant-Sound :
      (impl : PrimImpl P) (entry : PrimFunEntry P)
      → CalmImpl impl
      → Sound (elab_constant impl entry)
  unfolding elab_constant
  constant-Sound (pure_fn pf) entry calm = record {
    sound = λ level lo c {n} safe h.
        lift-bind _ (calm entry.captured) safe λ v. (emit_val-Sound v).sound level lo c safe h;
  }
  constant-Sound (effectful label) entry calm = record { sound = (emit_fun-Sound entry).sound }

  if-Sound : (b : Bool) {x y : Elaboration P} → Sound x → Sound y → Sound (if b then x else y)
  if-Sound true p q = p
  if-Sound false p q = q

  entry-Sound : (entry : PrimFunEntry P) → CalmImpl entry.impl → Sound (elab_entry entry)
  unfolding elab_entry
  entry-Sound entry calm =
      if-Sound (entry.arity_remaining == 0) (constant-Sound entry.impl entry calm)
        (emit_fun-Sound entry)

  refuse-Sound : Sound (refuse {P = P})
  refuse-Sound = record { sound = λ level lo c safe h. fails safe }

  module _ {V F : Type 0} where
    val-Sound : (prim : Option (PrimCtx P V F)) (v : V) → Sound (elab_val prim v)
    unfolding elab_val
    val-Sound none v = record { sound = free-Sound.sound }
    val-Sound (some ctx) v = record {
      sound = λ level lo c {n} safe h.
          lift-bind _ (or_incomplete-Calm (ctx.to_val v)) safe
            λ pv. (emit_val-Sound pv).sound level lo c safe h;
    }

    -- No function of the front end panics.
    abbrev pub CalmPrims : Option (PrimCtx P V F) → Type 0
    CalmPrims none = Unit
    CalmPrims (some ctx) =
        (f : F) (entry : PrimFunEntry P) → ctx.to_fun f ≡ some entry → CalmImpl entry.impl

    fun-Sound : (prim : Option (PrimCtx P V F)) (f : F) → CalmPrims prim → Sound (elab_fun prim f)
    unfolding elab_fun
    fun-Sound none f calm = record { sound = free-Sound.sound }
    fun-Sound (some ctx) f calm = record {
      sound = λ level lo c {n} safe h.
          found-bind _ safe (ctx.to_fun f)
            λ entry is. (entry-Sound entry (calm f entry is)).sound level lo c safe h;
    }

module _ {P V F : Type 0} (fresh : String → ℕ → String) (prim : Option (PrimCtx P V F))
    (usage : String → Option ℕ) (calm : CalmPrims prim) where
  elaborate-Sound : (t : Ast V F) → Sound (elaborate fresh prim usage t)
  unfolding elaborate
  elaborate-Sound (Ast.name n) = name-Sound n
  elaborate-Sound (Ast.abs x body) = abs-Sound x (elaborate-Sound body)
  elaborate-Sound (Ast.app f x) = app-Sound (elaborate-Sound f) (elaborate-Sound x)
  elaborate-Sound (Ast.rep e a b body) =
      rep-Sound usage a b (elaborate-Sound e) (elaborate-Sound body)
  elaborate-Sound (Ast.era e body) = era-Sound (elaborate-Sound e) (elaborate-Sound body)
  elaborate-Sound (Ast.fix inner) = fix-Sound (elaborate-Sound inner)
  elaborate-Sound (Ast.val v) = val-Sound prim v
  elaborate-Sound (Ast.fun f) = fun-Sound prim f calm
  elaborate-Sound (Ast.perform label e) = refuse-Sound
  elaborate-Sound (Ast.handle comp no_branch) = refuse-Sound
  elaborate-Sound (Ast.handle comp (branch label arg_name k_name body no_branch)) =
      handle-Sound fresh arg_name k_name (elaborate-Sound comp) (elaborate-Sound body)
  elaborate-Sound (Ast.handle comp (branch _ _ _ _ (branch _ _ _ _ _))) = refuse-Sound

  -- The elaboration of any term, in a safe net and an environment whose ports lead to slots of that
  -- net, does not panic in a release build, in which debug assertions and overflow are not checked,
  -- if the code of no function that the front end gives for a symbol panics on any arguments: it
  -- ends in an error, with a safe net, or in a safe net with no slot fewer, a port that leads to a
  -- slot of it, and an environment whose ports do.
  pub elaborate-Returns :
      (t : Ast V F) (level : ℕ) (lo : LoPath) (c : Carried P) (n : Net)
      → IsSafe n
      → EnvIn (size n) c.env
      → Returns (Led n) (elaborate fresh prim usage t level lo c n)
  elaborate-Returns t level lo c n safe h = (elaborate-Sound t).sound level lo c safe h
