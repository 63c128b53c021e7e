-- ===== src/Primitive/Apply.antt =====
-- The application of a primitive function (crates/dnx-core/src/prim.rs) in a safe net.
use dnet.Prelude.{
  ℕ, ◌+◌, ◌-◌, ◌<◌, ◌≤◌, ◌≡◌, refl, sym, subst, Bool, true, false, not, ◌||◌, Option, none, some,
  Bool-cases, inl, inr, List, [], ◌∷◌, ◌++◌, arith, ◌==◌, get_elem?, ltb, if◌then◌else◌,
}
use dnet.Error.{DnxError, Result, ok, err, readback_incomplete}
use dnet.LoPath.{LoPath}
use dnet.Port.{PortId, slot_idx}
use dnet.Slot.{Slot, is_prim}
use dnet.Net.{Net, Action, and_then}
use dnet.Net.Safe.{count, InNet, IsSafe, Returns, returns, fails, and_then-Returns, slot_at-bind}
use dnet.Net.Keeps.{mono-Returns, connect-Returns}
use dnet.Net.Chain.{Calm, calm_ok, calm_err, live-inside, live-two}
use dnet.Rules.Safe.{Pair, retire_both}
use dnet.Primitive.{
  PrimState, PrimFunEntry, PrimImpl, pure_fn, effectful, tag_prim_fun, or_incomplete, argument,
  partial, fire, apply_entry, prim_apply_with_cont, prim_apply,
}
use dnet.Primitive.Safe.{CalmImpl, with_val, with_fun, alloc_prim_val-Made, alloc_prim_fun-Made}

module _ {A B : Type 0} {R : B → Net → Type 0} {n : Net} (k : A → Action B) (safe : IsSafe n) where
  pub found-bind :
      (o : Option A)
      → ((a : A) → o ≡ some a → Returns R (k a n))
      → Returns R (and_then (or_incomplete o, n) k)
  unfolding or_incomplete
  found-bind none next = fails safe
  found-bind (some a) next = next a refl

  calm-bind :
      {r : Result A}
      → Calm r
      → ((a : A) → r ≡ ok a → Returns R (k a n))
      → Returns R (and_then (r, n) k)
  calm-bind (calm_ok a) next = next a refl
  calm-bind calm_err next = fails safe

  refused-bind :
      (b : Bool) (e : DnxError) (r : Result A)
      → Returns R (and_then (r, n) k)
      → Returns R (and_then ((if b then err e else r), n) k)
  refused-bind true e r next = fails safe
  refused-bind false e r next = next

module _ {P : Type 0} where
  -- The tables after an application: the function waits for a further argument, or the value that
  -- its code returns for the arguments is there.
  pub data Applied (entry : PrimFunEntry P) (arg : P) (s : PrimState P) : PrimState P → Type 0 where
    awaits :
        1 < entry.arity_remaining
        → Applied entry arg s (
            with_fun
              (record entry {
                arity_remaining = entry.arity_remaining - 1;
                captured = entry.captured ++ arg ∷ [];
              })
              s)
    fired :
        (f : List P → Result P) (v : P)
        → entry.arity_remaining ≤ 1
        → entry.impl ≡ pure_fn f
        → f (entry.captured ++ arg ∷ []) ≡ ok v
        → Applied entry arg s (with_val v s)

  -- One agent fewer, and the tables as they should be.
  abbrev Leaves : ℕ → PrimFunEntry P → P → PrimState P → Unit {0} × PrimState P → Net → Type 0
  Leaves c entry arg s r m = (count m + 1 ≡ c) × Applied entry arg s r.1

  module _ {m : Net} (c : ℕ) (entry : PrimFunEntry P) (arg : P) (s : PrimState P) (cont : PortId)
      (lo : LoPath) (safe : IsSafe m) (fewer : count m + 2 ≡ c) (at : InNet m cont) where
    partial-Leaves :
        1 < entry.arity_remaining
        → Returns (Leaves c entry arg s) (partial entry (entry.captured ++ arg ∷ []) cont lo s m)
    unfolding partial
    partial-Leaves more = and_then-Returns (alloc_prim_fun-Made _ s safe) λ (p, s') m' safe' h.
        and_then-Returns (connect-Returns p cont lo safe' h.at (omega (arith, h.grown.size_grown)))
          λ u m'' safe'' same. returns safe'' (
            omega (arith, h.grown.count_more, same.count_same),
            subst (Applied entry arg s) (sym h.state) (awaits more),
          )

    fire-Leaves :
        (impl : PrimImpl P)
        → CalmImpl impl
        → entry.impl ≡ impl
        → entry.arity_remaining ≤ 1
        → Returns (Leaves c entry arg s) (fire impl (entry.captured ++ arg ∷ []) cont lo s m)
    unfolding fire
    fire-Leaves (pure_fn f) calm e last =
        calm-bind _ safe (calm (entry.captured ++ arg ∷ [])) λ v is.
          and_then-Returns (alloc_prim_val-Made v s safe) λ (p, s') m' safe' h.
            and_then-Returns
              (connect-Returns p cont lo safe' h.at (omega (arith, h.grown.size_grown)))
              λ u m'' safe'' same. returns safe'' (
                omega (arith, h.grown.count_more, same.count_same),
                subst (Applied entry arg s) (sym h.state) (fired f v last e is),
              )
    fire-Leaves (effectful label) calm e last = fails safe

  apply_entry-Leaves :
      {n : Net} (entry : PrimFunEntry P) (arg : P) (p_fun p_arg cont : PortId) (lo : LoPath)
      (s : PrimState P)
      → IsSafe n
      → Pair n p_fun p_arg
      → InNet n cont
      → CalmImpl entry.impl
      → Returns (Leaves (count n) entry arg s) (apply_entry entry arg p_fun p_arg cont lo s n)
  unfolding apply_entry
  apply_entry-Leaves {n} entry arg p_fun p_arg cont lo s safe pair at calm =
      let many =
        live-two (slot_idx p_fun) (slot_idx p_arg) safe pair.live_p pair.live_q pair.distinct in
      retire_both p_fun p_arg _ safe pair λ m safe' h.
        let fewer : count m + 2 ≡ count n = omega (arith, h.counted, many) in
        let at' : InNet m cont = omega (arith, h.sized) in
        elim (Bool-cases (ltb 1 entry.arity_remaining)) [
          | inl more ↦
              rw more (partial-Leaves (count n) entry arg s cont lo safe' fewer at' (ground arith))
          | inr last ↦ rw last (
              fire-Leaves (count n) entry arg s cont lo safe' fewer at' entry.impl calm refl
                (ground arith))
        ]

  -- No function in the tables panics.
  abbrev pub CalmFuns : PrimState P → Type 0
  CalmFuns s =
      (i : ℕ) (entry : PrimFunEntry P) → get_elem? s.funs i ≡ some entry → CalmImpl entry.impl

  -- An application of the function of one agent to the value of another one.
  pub record Fired (n : Net) (p_fun p_arg : PortId) (s : PrimState P) (r : Unit {0} × PrimState P)
      (m : Net) : Type 0 where
    pub fun_slot : Slot
    pub arg_slot : Slot
    pub entry : PrimFunEntry P
    pub arg : P
    pub fun_at : get_elem? n.arena.slots (slot_idx p_fun) ≡ some fun_slot
    pub arg_at : get_elem? n.arena.slots (slot_idx p_arg) ≡ some arg_slot
    pub entry_at : get_elem? s.funs fun_slot.data_word ≡ some entry
    pub arg_val : get_elem? s.vals arg_slot.data_word ≡ some arg
    pub applied : Applied entry arg s r.1
    pub one_less : count m + 1 ≡ count n

  with_cont-Fired :
      {n : Net} (p_fun p_arg cont : PortId) (lo : LoPath) (s : PrimState P)
      → IsSafe n
      → Pair n p_fun p_arg
      → InNet n cont
      → CalmFuns s
      → Returns (Fired n p_fun p_arg s) (prim_apply_with_cont p_fun p_arg cont lo s n)
  unfolding prim_apply_with_cont argument
  with_cont-Fired p_fun p_arg cont lo s safe pair at calm =
      slot_at-bind (slot_idx p_fun) _ safe (live-inside (slot_idx p_fun) safe pair.live_p).0
        λ t e w. found-bind _ safe (get_elem? s.funs t.data_word) λ entry is.
          slot_at-bind (slot_idx p_arg) _ safe (live-inside (slot_idx p_arg) safe pair.live_q).0
            λ t' e' w'.
              refused-bind _ safe (not (is_prim t') || t'.tag == tag_prim_fun) readback_incomplete _
                (found-bind _ safe (get_elem? s.vals t'.data_word) λ arg is'.
                  mono-Returns
                    (apply_entry-Leaves entry arg p_fun p_arg cont lo s safe pair at
                      (calm t.data_word entry is))
                    λ r m (less, done). record {
                      fun_slot = t;
                      arg_slot = t';
                      entry = entry;
                      arg = arg;
                      fun_at = e;
                      arg_at = e';
                      entry_at = is;
                      arg_val = is';
                      applied = done;
                      one_less = less;
                    })

  -- `prim_apply`, on two live agents in different slots of a safe net, does not panic, if the code
  -- of no function in the tables panics on any arguments. It ends in an error, with a safe net, or
  -- in a safe net with one agent fewer: the numbers that the two agents hold are those of a
  -- function and of a value in the tables, and the tables have one entry more, which is the
  -- function with the argument captured and one argument fewer to wait for, if it waits for more
  -- than one, and else the value that its code returns for the captured arguments and this one.
  pub prim_apply-Fired :
      {n : Net} (p_fun p_arg : PortId) (lo : LoPath) (s : PrimState P)
      → IsSafe n
      → Pair n p_fun p_arg
      → CalmFuns s
      → Returns (Fired n p_fun p_arg s) (prim_apply p_fun p_arg lo s n)
  unfolding prim_apply
  prim_apply-Fired p_fun p_arg lo s safe pair calm =
      slot_at-bind (slot_idx p_fun) _ safe (live-inside (slot_idx p_fun) safe pair.live_p).0
        λ t e w. with_cont-Fired p_fun p_arg t.principal lo s safe pair w.at_principal calm
