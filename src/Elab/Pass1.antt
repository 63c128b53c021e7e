-- ===== src/Elab/Pass1.antt =====
-- crates/dnx-elab/src/pass1.rs: the check that each bound name is used once, with the level at which
-- each name is used. A frame is a map with one key, so it is a pair, and the top frame comes first.
-- The counts are not wrapped: a term has fewer than 2^32 names. A `LinError` is wrapped as the
-- callers' `?` does.
pub mod Uses
pub mod Linear
use Prim.Native.String.{String}
use text.Mathlib.Text.{◌==◌ as str_eq}
use dnet.Prelude.{
  ℕ, zero, suc, ◌+◌, ◌%◌, ◌^◌, Bool, true, false, Option, none, some, List, [], ◌∷◌, ◌==◌, ltb,
  if◌then◌else◌,
}
use dnet.Error.{Result, ok, err, panic, ◌>>=◌, lin_error, unused, multi_use}
use dnet.Ast.{Ast, Branches, no_branch, branch}

pub record Pass1Result : Type 0 where
  pub era_used : Bool
  pub rep_used : Bool
  pub usage_levels : String → Option ℕ

-- `Pass1Result::default()`
abbrev pub no_usage : Pass1Result
no_usage = record { era_used = false; rep_used = false; usage_levels = λ x. none }

pub record ScopeStack : Type 0 where
  pub frames : List (String × ℕ)
  pub active : String → Option ℕ

abbrev pub new_stack : ScopeStack
new_stack = record { frames = []; active = λ x. none }

-- `HashMap::insert`, and `remove` with no value.
abbrev pub assign : String → Option ℕ → (String → Option ℕ) → String → Option ℕ
assign x v f y = if str_eq y x then v else f y

unfoldable pub push : String → ScopeStack → ScopeStack
push x s = record { frames = (x, 0) ∷ s.frames; active = assign x (some 0) s.active }

-- `frame.get(name).unwrap_or(&0)` on the frame that is popped.
unfoldable pub pop_frame : String → List (String × ℕ) → ScopeStack → Result (ℕ × ScopeStack)
pop_frame x [] s = panic
pop_frame x ((y, c) ∷ l) s =
    ok (if str_eq y x then c else 0, record { frames = l; active = assign x none s.active })

unfoldable pub pop : String → ScopeStack → Result (ℕ × ScopeStack)
unfolding pop_frame
pop x s = pop_frame x s.frames s

-- The first frame from the top that has the name.
unfoldable pub bump : String → List (String × ℕ) → List (String × ℕ)
bump x [] = []
bump x ((y, c) ∷ l) = if str_eq y x then (y, c + 1) ∷ l else (y, c) ∷ bump x l

bumped : Option ℕ → Option ℕ
bumped none = none
bumped (some c) = some (c + 1)

unfoldable pub increment : String → ScopeStack → ScopeStack
unfolding bump bumped
increment x s = record {
  frames = bump x s.frames;
  active = λ y. if str_eq y x then bumped (s.active y) else s.active y;
}

-- The two tests on a count.
unfoldable pub used_once : String → ℕ → Result (Unit {0})
used_once x n =
    if n == 0
    then err (lin_error (unused x))
    else if ltb 1 n
    then err (lin_error (multi_use x n))
    else ok tt

abbrev pub Scoped : Type 0
Scoped = ScopeStack × Pass1Result

-- The pops and tests behind a body with two names: the second is popped first, and tested last.
unfoldable pub close_two : String → String → Scoped → Result Scoped
unfolding pop used_once
close_two a b (s, r) = do
  (nb, s1) ← pop b s
  (na, s2) ← pop a s1
  ua ← used_once a na
  ub ← used_once b nb
  ok (s2, r)

unfoldable pub close_one : String → Scoped → Result Scoped
unfolding pop used_once
close_one x (s, r) = do (n, s1) ← pop x s; u ← used_once x n; ok (s1, r)

unfoldable mutual
  unfolding push increment close_one close_two

  pub collect : {V F : Type 0} → ℕ → Ast V F → ScopeStack → Pass1Result → Result Scoped
  collect level (Ast.name n) s r =
      ok (increment n s, record r { usage_levels = assign n (some level) r.usage_levels })
  collect level (Ast.abs x body) s r = do done ← collect level body (push x s) r; close_one x done
  collect level (Ast.app f x) s r = do
    (s1, r1) ← collect level f s r
    collect ((level + 1) % 2 ^ 32) x s1 r1
  collect level (Ast.rep e a b body) s r = do
    (s1, r1) ← collect level e s (record r { rep_used = true })
    done ← collect level body (push b (push a s1)) r1
    close_two a b done
  collect level (Ast.era e body) s r = do
    (s1, r1) ← collect level e s (record r { era_used = true })
    collect level body s1 r1
  collect level (Ast.fix inner) s r = collect level inner s r
  collect level (Ast.val v) s r = ok (s, r)
  collect level (Ast.fun f) s r = ok (s, r)
  collect level (Ast.perform label e) s r = collect level e s r
  collect level (Ast.handle comp branches) s r = do
    (s1, r1) ← collect level comp s r
    collect_branches level branches s1 r1

  pub collect_branches :
      {V F : Type 0} → ℕ → Branches V F → ScopeStack → Pass1Result → Result Scoped
  collect_branches level no_branch s r = ok (s, r)
  collect_branches level (branch label arg_name k_name body rest) s r = do
    (s1, r1) ← (collect level body (push k_name (push arg_name s)) r >>= close_two arg_name k_name)
    collect_branches level rest s1 r1

result_of : Result Scoped → Result Pass1Result
result_of r = do (s, result) ← r; ok result

unfoldable pub pass1 : {V F : Type 0} → Ast V F → Result Pass1Result
unfolding collect result_of
pass1 t = result_of (collect 0 t new_stack no_usage)
