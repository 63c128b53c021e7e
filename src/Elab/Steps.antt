-- ===== src/Elab/Steps.antt =====
-- The elaboration of each kind of term (crates/dnx-elab/src/pass2.rs) in a safe net, from that of its
-- parts.
use Prim.Native.String.{String}
use text.Mathlib.Text.{◌==◌ as str_eq}
use dnet.Prelude.{
  ℕ, ◌+◌, ◌%◌, ◌^◌, ◌≤◌, ◌<◌, ◌≡◌, refl, Bool, true, false, Option, none, some, arith, ltb,
  if◌then◌else◌,
}
use dnet.Prelude.Int.{ℤ, pos, negsuc}
use dnet.Error.{DnxError, Result, ok, err}
use dnet.LoPath.{LoPath}
use dnet.Port
use dnet.Port.{PortId, slot_idx}
use dnet.Net.{Net, Action, and_then, lift, alloc_abs, alloc_app, alloc_rep_in}
use dnet.Net.Safe.{size, InNet, IsSafe, Returns, returns, fails, and_then-Returns}
use dnet.Net.Keeps.{mono-Returns, connect-Returns}
use dnet.Net.Chain.{Calm, calm_ok, calm_err, lift-bind, extend_left-Calm, extend_right-Calm}
use dnet.Rules.Grow.{alloc-bind}
use dnet.Primitive.{or_incomplete}
use dnet.Elab.{
  Env, put, Carried, Elaboration, usage_or, i32_diff, try_i16, elab_name, elab_abs, elab_app,
  elab_rep, elab_era, elab_fix, elab_handle,
}

-- Each name that is bound stands for a port that leads to one of `k` slots.
pub record EnvIn (k : ℕ) (env : Env) : Type 0 where
  pub inside : (x : String) (p : PortId) (l : ℕ) → env x ≡ some (p, l) → slot_idx p < k

-- What an elaboration leaves: no slot is gone, and its port leads to a slot, as those of the
-- environment do.
pub record Led {P : Type 0} (n : Net) (r : (PortId × ℕ) × Carried P) (m : Net) : Type 0 where
  pub larger : size n ≤ size m
  pub at : InNet m r.0.0
  pub env_in : EnvIn (size m) r.1.env

pub grow-EnvIn : {k m : ℕ} {env : Env} → k ≤ m → EnvIn k env → EnvIn m env
grow-EnvIn le h = record { inside = λ x p l e. omega (arith, h.inside x p l e) }

put-EnvIn :
    {k : ℕ} {env : Env} (x : String) (p : PortId) (l : ℕ)
    → slot_idx p < k
    → EnvIn k env
    → EnvIn k (put x (some (p, l)) env)
put-EnvIn {k} {env} x p l at h = record { inside = λ y q j e. on y q j (str_eq y x) e }
  where
    on :
        (y : String) (q : PortId) (j : ℕ) (b : Bool)
        → (if b then some (p, l) else env y) ≡ some (q, j)
        → slot_idx q < k
    on y q j true e = let same : p ≡ q = cc in rw (← same) at
    on y q j false e = h.inside y q j e

remove-EnvIn : {k : ℕ} {env : Env} (x : String) → EnvIn k env → EnvIn k (put x none env)
remove-EnvIn {k} {env} x h = record { inside = λ y q j e. on y q j (str_eq y x) e }
  where
    on :
        (y : String) (q : PortId) (j : ℕ) (b : Bool)
        → (if b then none else env y) ≡ some (q, j)
        → slot_idx q < k
    on y q j true e = cc
    on y q j false e = h.inside y q j e

try_i16-Calm : (z : ℤ) → Calm (try_i16 z)
unfolding try_i16
try_i16-Calm (pos n) = on (ltb n (2 ^ 15))
  where
    on : (b : Bool) → Calm (if b then ok (pos n) else err DnxError.delta_overflow)
    on true = calm_ok _
    on false = calm_err
try_i16-Calm (negsuc n) = on (ltb n (2 ^ 15))
  where
    on : (b : Bool) → Calm (if b then ok (negsuc n) else err DnxError.delta_overflow)
    on true = calm_ok _
    on false = calm_err

-- What follows the value of an option.
lift-some :
    {A B : Type 0} {R : B → Net → Type 0} {n : Net} (o : Option A) (k : A → Action B)
    → IsSafe n
    → ((a : A) → o ≡ some a → Returns R (k a n))
    → Returns R (and_then (lift (or_incomplete o) n) k)
unfolding or_incomplete
lift-some none k safe next = fails safe
lift-some (some a) k safe next = next a refl

module _ {P : Type 0} where
  -- The part is elaborated without a panic, whatever the safe net it is put in.
  pub record Sound (m : Elaboration P) : Type 0 where
    pub sound :
        (level : ℕ) (lo : LoPath) (c : Carried P) {n : Net}
        → IsSafe n
        → EnvIn (size n) c.env
        → Returns (Led n) (m level lo c n)

  lengthen :
      {n n' : Net} {r : Result ((PortId × ℕ) × Carried P) × Net}
      → size n ≤ size n'
      → Returns (Led n') r
      → Returns (Led n) r
  lengthen le did =
      mono-Returns did
        λ a m led. record { larger = omega (arith, led.larger); at = led.at; env_in = led.env_in }

  pub name-Sound : (x : String) → Sound (elab_name x)
  unfolding elab_name
  name-Sound x = record {
    sound = λ level lo c {n} safe h. lift-some (c.env x) _ safe λ (p, l) e.
        returns safe
          (record { larger = omega arith; at = h.inside x p l e; env_in = remove-EnvIn x h });
  }

  pub abs-Sound : (x : String) {body : Elaboration P} → Sound body → Sound (elab_abs x body)
  unfolding elab_abs alloc_abs
  abs-Sound x b = record {
    sound = λ level lo c {n} safe h. alloc-bind _ _ _ _ _ safe λ ps n1 safe g1 i1.
        lift-bind _ (extend_left-Calm lo) safe λ lo_body.
          and_then-Returns
            (b.sound level lo_body _ safe
              (put-EnvIn x ps.aux1 ((level + 1) % 2 ^ 32) i1.in_aux1 (grow-EnvIn g1.size_grown h)))
            λ ((p, l), c') n2 safe led.
              and_then-Returns
                (connect-Returns ps.aux0 p lo_body safe (omega (arith, i1.in_aux0, led.larger))
                  led.at)
                λ _ n3 safe same. returns safe (record {
                  larger = omega (arith, g1.size_grown, led.larger, same.size_same);
                  at = omega (arith, i1.in_principal, led.larger, same.size_same);
                  env_in = remove-EnvIn x (grow-EnvIn (omega (arith, same.size_same)) led.env_in);
                });
  }

  pub app-Sound : {f x : Elaboration P} → Sound f → Sound x → Sound (elab_app f x)
  unfolding elab_app alloc_app
  app-Sound sf sx = record {
    sound = λ level lo c {n} safe h. alloc-bind _ _ _ _ _ safe λ ps n1 safe g1 i1.
        lift-bind _ (extend_left-Calm lo) safe λ lo_fn.
          and_then-Returns (sf.sound level lo_fn c safe (grow-EnvIn g1.size_grown h))
            λ ((f_p, l), c1) n2 safe led. lift-bind _ (extend_right-Calm lo) safe λ lo_arg.
              and_then-Returns (sx.sound ((level + 1) % 2 ^ 32) lo_arg c1 safe led.env_in)
                λ ((a_p, l'), c2) n3 safe led'.
                  and_then-Returns
                    (connect-Returns ps.principal f_p lo_fn safe
                      (omega (arith, i1.in_principal, led.larger, led'.larger))
                      (omega (arith, led.at, led'.larger)))
                    λ _ n4 safe same.
                      and_then-Returns
                        (connect-Returns ps.aux1 a_p lo_arg safe
                          (omega (arith, i1.in_aux1, led.larger, led'.larger, same.size_same))
                          (omega (arith, led'.at, same.size_same)))
                        λ _ n5 safe same'.
                          let grew = led'.larger in
                          returns safe (record {
                            larger =
                                omega (
                                  arith, g1.size_grown, led.larger, same.size_same, same'.size_same,
                                );
                            at =
                                omega
                                  (arith, i1.in_aux0, led.larger, same.size_same, same'.size_same);
                            env_in =
                                grow-EnvIn (omega (arith, same.size_same, same'.size_same))
                                  led'.env_in;
                          });
  }

  pub rep-Sound :
      (usage : String → Option ℕ) (a b : String) {e body : Elaboration P}
      → Sound e
      → Sound body
      → Sound (elab_rep usage e a b body)
  unfolding elab_rep alloc_rep_in
  rep-Sound usage a b se sb = record {
    sound = λ level lo c {n} safe h.
        let la = usage_or (usage a) level in
        let lb = usage_or (usage b) level in
        and_then-Returns (se.sound level lo c safe h) λ ((e_p, rl), c1) n1 safe led.
          lift-bind _ (try_i16-Calm (i32_diff la rl)) safe λ d0.
            lift-bind _ (try_i16-Calm (i32_diff lb rl)) safe λ d1.
              alloc-bind _ _ _ _ _ safe λ ps n2 safe g2 i2.
                and_then-Returns
                  (connect-Returns ps.principal e_p lo safe i2.in_principal
                    (omega (arith, led.at, g2.size_grown)))
                  λ _ n3 safe same.
                    lengthen (omega (arith, led.larger, g2.size_grown, same.size_same)) (
                      sb.sound level lo _ safe (
                        put-EnvIn b ps.aux1 lb (omega (arith, i2.in_aux1, same.size_same)) (
                          put-EnvIn a ps.aux0 la (omega (arith, i2.in_aux0, same.size_same)) (
                            grow-EnvIn (omega (arith, g2.size_grown, same.size_same))
                              led.env_in))));
  }

  pub era-Sound : {e body : Elaboration P} → Sound e → Sound body → Sound (elab_era e body)
  unfolding elab_era slot_idx
  era-Sound se sb = record {
    sound = λ level lo c {n} safe h.
        and_then-Returns (se.sound level lo c safe h) λ ((e_p, rl), c1) n1 safe led.
          let low = safe.valid.sentinel in
          and_then-Returns (connect-Returns Port.era e_p lo safe (omega arith) led.at)
            λ _ n2 safe same.
              lengthen (omega (arith, led.larger, same.size_same))
                (sb.sound level lo c1 safe (grow-EnvIn (omega (arith, same.size_same)) led.env_in));
  }

  pub fix-Sound : {inner : Elaboration P} → Sound inner → Sound (elab_fix inner)
  unfolding elab_fix alloc_app alloc_rep_in
  fix-Sound si = record {
    sound = λ level lo c {n} safe h. lift-bind _ (extend_left-Calm lo) safe λ lo_fn.
        and_then-Returns (si.sound level lo_fn c safe h) λ ((p, l), c1) n1 safe led.
          alloc-bind _ _ _ _ _ safe λ app n2 safe g2 i2.
            and_then-Returns
              (connect-Returns app.principal p lo_fn safe i2.in_principal
                (omega (arith, led.at, g2.size_grown)))
              λ _ n3 safe same. alloc-bind _ _ _ _ _ safe λ rep n4 safe g4 i4.
                lift-bind _ (extend_right-Calm lo) safe λ lo_rep.
                  and_then-Returns
                    (connect-Returns rep.principal app.aux0 lo_rep safe i4.in_principal
                      (omega (arith, i2.in_aux0, same.size_same, g4.size_grown)))
                    λ _ n5 safe same'.
                      and_then-Returns
                        (connect-Returns app.aux1 rep.aux0 lo safe
                          (omega
                            (arith, i2.in_aux1, same.size_same, g4.size_grown, same'.size_same))
                          (omega (arith, i4.in_aux0, same'.size_same)))
                        λ _ n6 safe same''.
                          let s3 = same.size_same in
                          let s5 = same'.size_same in
                          let s6 = same''.size_same in
                          let more : size n1 ≤ size n6 =
                            omega (arith, g2.size_grown, g4.size_grown) in
                          returns safe (record {
                            larger = omega (arith, led.larger);
                            at = omega (arith, i4.in_aux1);
                            env_in = grow-EnvIn more led.env_in;
                          });
  }

  pub handle-Sound :
      (fresh : String → ℕ → String) (arg_name k_name : String) {comp body : Elaboration P}
      → Sound comp
      → Sound body
      → Sound (elab_handle fresh comp arg_name k_name body)
  unfolding elab_handle
  handle-Sound fresh arg_name k_name sc sb = record {
    sound = λ level lo c {n} safe h.
        let r = fresh "r" c.fresh_ctr in
        let l = fresh "lbl" ((c.fresh_ctr + 1) % 2 ^ 32) in
        let handler = abs-Sound arg_name (abs-Sound k_name (era-Sound (name-Sound l) sb)) in
        let all = app-Sound (app-Sound sc (abs-Sound r (name-Sound r))) (abs-Sound l handler) in
        all.sound level lo _ safe (record { inside = h.inside });
  }
