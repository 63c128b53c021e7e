-- ===== src/Elab/Pass1/Linear.antt =====
-- What the check of linearity (crates/dnx-elab/src/pass1.rs) accepts, by the names that stand free
-- in a body.
use Prim.Native.String.{String}
use dnet.Prelude.{
  ℕ, zero, suc, ◌+◌, ◌%◌, ◌^◌, ◌≡◌, ◌≢◌, ◌⊎◌, ap₂, subst, inl, inr, refl, sym, ap, ◌∙◌, true, false,
  none, List, [], ◌∷◌, arith, ◌==◌, ltb,
}
use text.Mathlib.TextPositions.{eq_refl}
use dnet.Error.{LinError, Result, ok, err, ◌>>=◌, lin_error, unused, multi_use}
use dnet.Ast.{Ast, Branches, no_branch, branch}
use dnet.Elab.Pass1.{
  Pass1Result, no_usage, ScopeStack, new_stack, push, pop, pop_frame, assign, increment, used_once,
  Scoped, close_one, close_two, collect, collect_branches, pass1, result_of,
}
use dnet.Elab.Pass1.Uses.{
  mask, uses, uses_branches, credit, credit-credit, credit-none, bump-credit,
}

-- The binder `x` stands in the term, and its name `k` times in what it binds.
unfoldable mutual
  unfolding uses

  pub Binds : {V F : Type 0} → Ast V F → String → ℕ → Type 0
  Binds (Ast.name n) = λ x k. ⊥
  Binds (Ast.abs y body) = λ x k. ((x ≡ y) × (k ≡ uses body y)) ⊎ Binds body x k
  Binds (Ast.app f a) = λ x k. Binds f x k ⊎ Binds a x k
  Binds (Ast.rep e a b body) = λ x k.
      Binds e x k
      ⊎ (((x ≡ a) × (k ≡ mask b (uses body) a)) ⊎ (((x ≡ b) × (k ≡ uses body b)) ⊎ Binds body x k))
  Binds (Ast.era e body) = λ x k. Binds e x k ⊎ Binds body x k
  Binds (Ast.fix inner) = λ x k. Binds inner x k
  Binds (Ast.val v) = λ x k. ⊥
  Binds (Ast.fun f) = λ x k. ⊥
  Binds (Ast.perform label e) = λ x k. Binds e x k
  Binds (Ast.handle comp bs) = λ x k. Binds comp x k ⊎ BranchBinds bs x k

  pub BranchBinds : {V F : Type 0} → Branches V F → String → ℕ → Type 0
  BranchBinds no_branch = λ x k. ⊥
  BranchBinds (branch label a h body rest) = λ x k.
      (((x ≡ a) × (k ≡ mask h (uses body) a)) ⊎ (((x ≡ h) × (k ≡ uses body h)) ⊎ Binds body x k))
      ⊎ BranchBinds rest x k

-- The error for a binder that is used `k` times.
unfoldable pub complaint : String → ℕ → LinError
complaint x zero = unused x
complaint x (suc k) = multi_use x (suc k)

abbrev Once : (String → ℕ → Type 0) → Type 0
Once B = (x : String) (k : ℕ) → B x k → k ≡ 1

-- What a check comes to, of a part with the uses `u` and the binders `B`, under some frames.
data Outcome (u : String → ℕ) (B : String → ℕ → Type 0) (fs : List (String × ℕ))
    : Result Scoped → Type 0 where
  accepted :
      {s : ScopeStack} {r : Pass1Result}
      → s.frames ≡ credit u fs
      → Once B
      → Outcome u B fs (ok (s, r))
  rejected : (x : String) (k : ℕ) → B x k → k ≢ 1 → Outcome u B fs (err (lin_error (complaint x k)))

then-Outcome :
    {u u' : String → ℕ} {B B' : String → ℕ → Type 0} {fs fs' : List (String × ℕ)}
    {r : Result Scoped} (k : Scoped → Result Scoped)
    → Outcome u B fs r
    → ((x : String) (n : ℕ) → B x n → B' x n)
    → ((s : ScopeStack) (p : Pass1Result)
        → s.frames ≡ credit u fs
        → Once B
        → Outcome u' B' fs' (k (s, p)))
    → Outcome u' B' fs' (r >>= k)
then-Outcome k (accepted {s} {r} e once) sub next = next s r e once
then-Outcome k (rejected x n b ne) sub next = rejected x n (sub x n b) ne

once-bind :
    {u : String → ℕ} {B : String → ℕ → Type 0} {fs : List (String × ℕ)} (x : String) (n : ℕ)
    (k : Unit {0} → Result Scoped)
    → B x n
    → (n ≡ 1 → Outcome u B fs (k tt))
    → Outcome u B fs (used_once x n >>= k)
unfolding used_once complaint
once-bind x zero k b next = rejected x 0 b (omega arith)
once-bind x (suc zero) k b next = next refl
once-bind x (suc (suc n)) k b next =
    let many : ltb 1 (suc (suc n)) ≡ true = ground arith in
    let some_use : (suc (suc n) == 0) ≡ false = ground arith in
    rw (many, some_use) (rejected x (suc (suc n)) b (omega arith))

-- What is popped from a stack with the frame of `x` on top.
pop-eq :
    (x : String) (n : ℕ) (l : List (String × ℕ)) (s : ScopeStack)
    → s.frames ≡ (x, n) ∷ l
    → (s' : ScopeStack) × (pop x s ≡ ok (n, s')) × (s'.frames ≡ l)
unfolding pop
pop-eq x n l s e = (
  record { frames = l; active = assign x none s.active },
  rw (e, pop_frame, eq_refl x) refl,
  refl,
)

close_one-Outcome :
    {B : String → ℕ → Type 0} (u : String → ℕ) (fs : List (String × ℕ)) (x : String) (n : ℕ)
    (s : ScopeStack) (r : Pass1Result)
    → s.frames ≡ (x, n) ∷ credit u fs
    → B x n
    → (n ≡ 1 → Once B)
    → Outcome u B fs (close_one x (s, r))
unfolding close_one
close_one-Outcome u fs x n s r e b once =
    let (s', popped, left) = pop-eq x n (credit u fs) s e in
    rw popped (once-bind x n (λ _. ok (s', r)) b (λ is. accepted left (once is)))

close_two-Outcome :
    {B : String → ℕ → Type 0} (u : String → ℕ) (fs : List (String × ℕ)) (a b : String) (m n : ℕ)
    (s : ScopeStack) (r : Pass1Result)
    → s.frames ≡ (b, n) ∷ (a, m) ∷ credit u fs
    → B a m
    → B b n
    → (m ≡ 1 → n ≡ 1 → Once B)
    → Outcome u B fs (close_two a b (s, r))
unfolding close_two
close_two-Outcome u fs a b m n s r e ba bb once =
    let (s1, popped, left) = pop-eq b n ((a, m) ∷ credit u fs) s e in
    let (s2, popped', left') = pop-eq a m (credit u fs) s1 left in
    rw (popped, popped')
      (once-bind a m (λ _. used_once b n >>= λ _. ok (s2, r)) ba
        (λ is. once-bind b n (λ _. ok (s2, r)) bb (λ is'. accepted left' (once is is'))))

-- The binders of a scope with one or with two names.
abbrev Under1 : String → ℕ → (String → ℕ → Type 0) → String → ℕ → Type 0
Under1 y n B x k = ((x ≡ y) × (k ≡ n)) ⊎ B x k

-- A scope with one name.
scope_one :
    {u : String → ℕ} {B : String → ℕ → Type 0} {fs : List (String × ℕ)} {r : Result Scoped}
    (y : String)
    → Outcome u B ((y, 0) ∷ fs) r
    → Outcome (mask y u) (Under1 y (u y) B) fs (r >>= close_one y)
unfolding credit
scope_one {u} {B} {fs} y body =
    then-Outcome (close_one y) body (λ x k b. inr b)
      λ s r e once.
        close_one-Outcome {B = Under1 y (u y) B} (mask y u) fs y (u y) s r
          (e ∙ ap (λ (k : ℕ). (y, k) ∷ credit (mask y u) fs) (omega arith)) (inl (refl, refl))
          λ is x k b. elim b [ inl (_, e) ↦ e ∙ is | inr b ↦ once x k b ]

-- A scope with two names, the second one inside.
scope_two :
    {u : String → ℕ} {B : String → ℕ → Type 0} {fs : List (String × ℕ)} {r : Result Scoped}
    (a b : String)
    → Outcome u B ((b, 0) ∷ (a, 0) ∷ fs) r
    → Outcome
        (mask a (mask b u))
        (Under1 a (mask b u a) (Under1 b (u b) B))
        fs
        (r >>= close_two a b)
unfolding credit
scope_two {u} {B} {fs} a b body =
    then-Outcome (close_two a b) body (λ x k h. inr (inr h))
      λ s r e once.
        close_two-Outcome {B = Under1 a (mask b u a) (Under1 b (u b) B)} (mask a (mask b u)) fs a b
          (mask b u a) (u b) s r
          (e
            ∙ ap₂ (λ (k : ℕ) (m : ℕ). (b, k) ∷ (a, m) ∷ credit (mask a (mask b u)) fs) (omega arith)
                (omega arith))
          (inl (refl, refl)) (inr (inl (refl, refl)))
          λ is is' x k h. elim h [
            | inl (_, e) ↦ e ∙ is
            | inr (inl (_, e)) ↦ e ∙ is'
            | inr (inr h) ↦ once x k h
          ]

-- One part after another.
seq-Outcome :
    {u v : String → ℕ} {B C : String → ℕ → Type 0} {fs : List (String × ℕ)} {r : Result Scoped}
    (k : Scoped → Result Scoped)
    → Outcome u B fs r
    → ((s : ScopeStack) (p : Pass1Result)
        → s.frames ≡ credit u fs
        → Outcome v C (credit u fs) (k (s, p)))
    → Outcome (λ x. u x + v x) (λ x n. B x n ⊎ C x n) fs (r >>= k)
seq-Outcome {u} {v} {B} {C} {fs} k first next =
    then-Outcome k first (λ x n b. inl b) λ s p e once. widen once (next s p e)
  where
    widen :
        {r : Result Scoped}
        → Once B
        → Outcome v C (credit u fs) r
        → Outcome (λ x. u x + v x) (λ x n. B x n ⊎ C x n) fs r
    widen once (accepted e once') =
        accepted (e ∙ credit-credit u v fs)
          λ x k h. elim h [ inl b ↦ once x k b | inr c ↦ once' x k c ]
    widen once (rejected x n c ne) = rejected x n (inr c) ne

-- The frames may be known by an equation.
at-Outcome :
    {u : String → ℕ} {B : String → ℕ → Type 0} {fs gs : List (String × ℕ)} {r : Result Scoped}
    → fs ≡ gs
    → Outcome u B fs r
    → Outcome u B gs r
at-Outcome {u} {B} {r = r} e = subst (λ l. Outcome u B l r) e

nothing : (s : ScopeStack) (r : Pass1Result) → Outcome (λ x. 0) (λ x k. ⊥) s.frames (ok (s, r))
nothing s r = accepted (sym (credit-none s.frames)) (λ x k h. elim h [ ])

mutual
  unfolding collect collect_branches uses uses_branches Binds BranchBinds push increment

  collect-Outcome :
      {V F : Type 0} (t : Ast V F) (level : ℕ) (s : ScopeStack) (r : Pass1Result)
      → Outcome (uses t) (Binds t) s.frames (collect level t s r)
  collect-Outcome (Ast.name n) level s r = accepted (bump-credit n s.frames) (λ x k h. elim h [ ])
  collect-Outcome (Ast.abs x body) level s r = scope_one x (collect-Outcome body level (push x s) r)
  collect-Outcome (Ast.app f x) level s r =
      seq-Outcome _ (collect-Outcome f level s r)
        λ s1 r1 e. at-Outcome e (collect-Outcome x ((level + 1) % 2 ^ 32) s1 r1)
  collect-Outcome (Ast.rep e a b body) level s r =
      seq-Outcome _ (collect-Outcome e level s (record r { rep_used = true })) λ s1 r1 eq.
        at-Outcome eq (scope_two a b (collect-Outcome body level (push b (push a s1)) r1))
  collect-Outcome (Ast.era e body) level s r =
      seq-Outcome _ (collect-Outcome e level s (record r { era_used = true }))
        λ s1 r1 eq. at-Outcome eq (collect-Outcome body level s1 r1)
  collect-Outcome (Ast.fix inner) level s r = collect-Outcome inner level s r
  collect-Outcome (Ast.val v) level s r = nothing s r
  collect-Outcome (Ast.fun f) level s r = nothing s r
  collect-Outcome (Ast.perform label e) level s r = collect-Outcome e level s r
  collect-Outcome (Ast.handle comp bs) level s r =
      seq-Outcome _ (collect-Outcome comp level s r)
        λ s1 r1 eq. at-Outcome eq (branches-Outcome bs level s1 r1)

  branches-Outcome :
      {V F : Type 0} (bs : Branches V F) (level : ℕ) (s : ScopeStack) (r : Pass1Result)
      → Outcome (uses_branches bs) (BranchBinds bs) s.frames (collect_branches level bs s r)
  branches-Outcome no_branch level s r = nothing s r
  branches-Outcome (branch label a h body rest) level s r =
      seq-Outcome _ (scope_two a h (collect-Outcome body level (push h (push a s)) r))
        λ s1 r1 eq. at-Outcome eq (branches-Outcome rest level s1 r1)

-- What `pass1` returns: a result if each binder is used once, or the complaint about a binder that is
-- not.
pub data Verdict {V F : Type 0} (t : Ast V F) : Result Pass1Result → Type 0 where
  linear : {r : Pass1Result} → Once (Binds t) → Verdict t (ok r)
  not_linear :
      (x : String) (k : ℕ) → Binds t x k → k ≢ 1 → Verdict t (err (lin_error (complaint x k)))

-- `pass1` accepts a term only if each binder, of an abstraction, a replication or a handler, has
-- its name used exactly once in its scope, where a use counts for the innermost binder of the name.
-- Else it fails, with the error for a name that is not used, or used too often with the number of
-- its uses, of a binder for which that is so.
pub pass1-Verdict : {V F : Type 0} (t : Ast V F) → Verdict t (pass1 t)
unfolding pass1 result_of
pass1-Verdict t = on (collect-Outcome t 0 new_stack no_usage)
  where
    on : {r : Result Scoped} → Outcome (uses t) (Binds t) [] r → Verdict t (result_of r)
    on (accepted e once) = linear once
    on (rejected x k b ne) = not_linear x k b ne
