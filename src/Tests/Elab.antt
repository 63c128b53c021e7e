-- ===== src/Tests/Elab.antt =====
-- The theorems on the elaborator at concrete terms.
use Prim.Native.String.{String}
use dnet.Prelude.{ℕ, zero, suc, ◌≡◌, ◌≢◌, refl, ap, Option, none, [], ◌∷◌, arith}
use dnet.LoPath.{root}
use dnet.Net.{new, class_k}
use dnet.Net.Safe.{Returns}
use dnet.Net.Keeps.{new-IsSafe}
use dnet.Ast.{Ast}
use dnet.Elab.{Carried, PrimCtx, elaborate}
use dnet.Elab.Steps.{Led}
use dnet.Elab.Safe.{elaborate-Returns}
use dnet.Elab.Pass0.{Defs, passed, cyclic, pass0}
use dnet.Elab.Pass0.Ends.{Ends}
use dnet.Elab.Pass1.{pass1}
use dnet.Elab.Pass1.Linear.{Verdict, pass1-Verdict}
use dnet.Elab.Alpha.{alpha_rename}
use dnet.Elab.Alpha.Distinct.{binders, Distinct, alpha_rename-Distinct}
use dnet.Elab.Alpha.Nameless.{strip, AllNames, alpha_rename-strip}

abbrev Term : Type 0
Term = Ast ℕ ℕ

-- A mark for each number: a mint that tells numbers apart.
tally : ℕ → String
tally zero = String.[]
tally (suc n) = String.◌∷◌ "~" (tally n)

mint : String → ℕ → String
mint b n = String.◌∷◌ "~" (String.◌∷◌ "~" (tally n))

long : String → ℕ
long String.[] = 0
long (String.◌∷◌ c s) = suc (long s)

long-tally : (n : ℕ) → long (tally n) ≡ n
unfolding long tally
long-tally zero = refl
long-tally (suc n) = ap suc (long-tally n)

mint_apart : (a b : String) (i j : ℕ) → mint a i ≡ mint b j → i ≡ j
unfolding mint long
mint_apart a b i j e = omega (arith, ap long e, long-tally i, long-tally j)

-- A function that shadows the name of another one.
abbrev shadow : Term
shadow = Ast.abs "h" (Ast.app (Ast.abs "h" (Ast.name "h")) (Ast.name "h"))

alpha_rename-Distinct_example : Distinct (binders (alpha_rename mint shadow 7).0)
unfolding binders
alpha_rename-Distinct_example = alpha_rename-Distinct mint mint_apart shadow 7 (omega arith)

h-IsSource : (b : String) (i : ℕ) → "h" ≢ mint b i
unfolding mint long
h-IsSource b i e =
    let same : long "h" ≡ long (mint b i) = ap long e in omega (arith, same, long-tally i)

alpha_rename-strip_example : strip [] (alpha_rename mint shadow 7).0 ≡ strip [] shadow
unfolding AllNames binders
alpha_rename-strip_example =
    alpha_rename-strip mint mint_apart shadow 7 (h-IsSource, h-IsSource) (omega arith)

pass1-Verdict_example : Verdict shadow (pass1 shadow)
pass1-Verdict_example = pass1-Verdict shadow

abbrev defs : Defs ℕ ℕ
defs = ("two", Ast.app (Ast.name "id") (Ast.name "id")) ∷ ("id", Ast.abs "h" (Ast.name "h")) ∷ []

abbrev calls : Term
calls = Ast.app (Ast.name "two") (Ast.name "y")

abbrev carried : Carried ℕ
carried = record { env = λ x. none; fresh_ctr = 0; state = record { vals = []; funs = [] } }

abbrev no_prims : Option (PrimCtx ℕ ℕ ℕ)
no_prims = none

elaborate-Returns_example :
    Returns
      (Led (new class_k 16))
      (elaborate mint no_prims (λ x. none) shadow 0 root carried (new class_k 16))
elaborate-Returns_example =
    elaborate-Returns mint no_prims (λ x. none) tt shadow 0 root carried (new class_k 16)
      (new-IsSafe class_k 16) (record { inside = λ x p l e. cc })

defined : String → Term → Defs ℕ ℕ
defined x t = (x, t) ∷ []

-- A definition that refers to itself.
loops : pass0 (defined "id" (Ast.name "id")) (Ast.name "y") ≡ cyclic ("id" ∷ [])
unfolding pass0 defined
loops = refl

-- Two definitions that bind a name that is spelled like the other one.
abbrev entwined : Defs ℕ ℕ
entwined = ("f", Ast.abs "g" (Ast.name "g")) ∷ ("g", Ast.abs "f" (Ast.name "f")) ∷ []

no_recursion : pass0 entwined (Ast.name "f") ≡ cyclic ("g" ∷ "f" ∷ [])
unfolding pass0 defined
no_recursion = refl

-- A function that shadows its own variable: the variable is taken for the definition behind the
-- inner function.
unbinds :
    pass0
      (defined "h" (Ast.val 3))
      (Ast.abs "h" (Ast.app (Ast.abs "h" (Ast.name "h")) (Ast.name "h")))
    ≡ passed (Ast.abs "h" (Ast.app (Ast.abs "h" (Ast.name "h")) (Ast.val 3)))
unfolding pass0 defined
unbinds = refl

-- A free variable of a definition is caught by a binder of the term.
catches :
    pass0 (defined "k" (Ast.name "y")) (Ast.abs "y" (Ast.name "k"))
    ≡ passed (Ast.abs "y" (Ast.name "y"))
unfolding pass0 defined
catches = refl
