-- ===== src/Elab/Pass0.antt =====
-- crates/dnx-elab/src/pass0.rs: the definitions that a term refers to, checked for cycles and put in
-- its place. The map of definitions is a list of entries, whose order is that in which its keys are
-- gone through, and so is each set. The search for cycles and the inlining recur on fuel, which is
-- the number of definitions and that of the names found to be without a cycle.
pub mod Refs
pub mod Order
pub mod Ends
use Prim.Native.String.{String}
use text.Mathlib.Text.{◌==◌ as str_eq}
use dnet.Prelude.{
  ℕ, zero, suc, Bool, true, false, Option, none, some, List, [], ◌∷◌, ◌++◌, length, ◌||◌,
  if◌then◌else◌,
}
use dnet.Ast.{Ast, Branches, no_branch, branch}

-- A value, the names of a cycle, or a run that has not come to its end.
pub data Checked {ℓ} (A : Type ℓ) : Type ℓ where
  passed : A → Checked A
  cyclic : List String → Checked A
  unfinished : Checked A

module _ {ℓ κ} {A : Type ℓ} {B : Type κ} where
  infixl 5 ◌>>=◌
  abbrev pub ◌>>=◌ : Checked A → (A → Checked B) → Checked B
  unfinished >>= k = unfinished
  cyclic l >>= k = cyclic l
  passed a >>= k = k a

abbrev pub Defs : Type 0 → Type 0 → Type 0
Defs V F = List (String × Ast V F)

unfoldable pub get : {V F : Type 0} → String → Defs V F → Option (Ast V F)
get x [] = none
get x ((y, t) ∷ l) = if str_eq y x then some t else get x l

unfoldable pub contains : String → List String → Bool
contains x [] = false
contains x (y ∷ l) = str_eq y x || contains x l

-- A name that is defined.
unfoldable pub ref_of : {V F : Type 0} → Option (Ast V F) → String → List String
ref_of none n = []
ref_of (some t) n = n ∷ []

unfoldable mutual
  unfolding get ref_of

  pub collect_def_refs : {V F : Type 0} → Defs V F → Ast V F → List String
  collect_def_refs defs (Ast.name n) = ref_of (get n defs) n
  collect_def_refs defs (Ast.abs x body) = collect_def_refs defs body
  collect_def_refs defs (Ast.app f a) = collect_def_refs defs f ++ collect_def_refs defs a
  collect_def_refs defs (Ast.rep e a b body) = collect_def_refs defs e ++ collect_def_refs defs body
  collect_def_refs defs (Ast.era e body) = collect_def_refs defs e ++ collect_def_refs defs body
  collect_def_refs defs (Ast.fix e) = collect_def_refs defs e
  collect_def_refs defs (Ast.val v) = []
  collect_def_refs defs (Ast.fun f) = []
  collect_def_refs defs (Ast.perform label e) = collect_def_refs defs e
  collect_def_refs defs (Ast.handle comp bs) =
      collect_def_refs defs comp ++ collect_branch_refs defs bs

  pub collect_branch_refs : {V F : Type 0} → Defs V F → Branches V F → List String
  collect_branch_refs defs no_branch = []
  collect_branch_refs defs (branch label a k body rest) =
      collect_def_refs defs body ++ collect_branch_refs defs rest

-- The names that the body of a definition refers to.
unfoldable pub refs_of : {V F : Type 0} → Defs V F → Option (Ast V F) → List String
unfolding collect_def_refs
refs_of defs none = []
refs_of defs (some body) = collect_def_refs defs body

-- The loop over the dependencies.
unfoldable pub check_all :
    (String → List String → Checked (List String))
    → List String
    → List String
    → Checked (List String)
check_all check [] visited = passed visited
check_all check (d ∷ l) visited = check d visited >>= λ v. check_all check l v

-- `visiting` is the same before and after, since the name is put in and taken out again.
unfoldable pub dfs_check :
    {V F : Type 0} → ℕ → Defs V F → List String → String → List String → Checked (List String)
unfolding contains refs_of check_all get
dfs_check zero defs visiting x visited = unfinished
dfs_check (suc fuel) defs visiting x visited =
    if contains x visiting
    then cyclic visiting
    else if contains x visited
    then passed visited
    else check_all (dfs_check fuel defs (x ∷ visiting)) (refs_of defs (get x defs)) visited >>= λ v.
        passed (x ∷ v)

unfoldable pub keys : {V F : Type 0} → Defs V F → List String
keys [] = []
keys ((x, t) ∷ l) = x ∷ keys l

-- A key that was visited is passed over, as `dfs_check` itself does.
unfoldable pub topo_check : {V F : Type 0} → ℕ → Defs V F → Checked (List String)
unfolding dfs_check keys check_all
topo_check fuel defs = check_all (dfs_check fuel defs []) (keys defs) []

abbrev pub Bound : Type 0
Bound = String → Bool

-- `insert` and `remove` on the set of bound names.
abbrev pub mark : String → Bool → Bound → Bound
mark x v b y = if str_eq y x then v else b y

abbrev pub Resolved : Type 0 → Type 0
Resolved T = Option (T × Bound)

abbrev pub bind : {A B : Type 0} → Resolved A → (A → Bound → Resolved B) → Resolved B
bind none k = none
bind (some (a, b)) k = k a b

-- `resolve`, with the resolution of the body of a definition as a function.
unfoldable mutual
  unfolding get

  pub resolve_with :
      {V F : Type 0}
      → (Ast V F → Bound → Resolved (Ast V F))
      → Defs V F
      → Ast V F
      → Bound
      → Resolved (Ast V F)
  resolve_with inline defs (Ast.name n) bound =
      if bound n
      then some (Ast.name n, bound)
      else elim (get n defs) [ none ↦ some (Ast.name n, bound) | some body ↦ inline body bound ]
  resolve_with inline defs (Ast.abs x body) bound =
      bind (resolve_with inline defs body (mark x true bound))
        λ body2 b. some (Ast.abs x body2, mark x false b)
  resolve_with inline defs (Ast.app f a) bound =
      bind (resolve_with inline defs f bound)
        λ f2 b. bind (resolve_with inline defs a b) λ a2 b'. some (Ast.app f2 a2, b')
  resolve_with inline defs (Ast.rep e x y body) bound =
      bind (resolve_with inline defs e bound) λ e2 b.
        bind (resolve_with inline defs body (mark y true (mark x true b)))
          λ body2 b'. some (Ast.rep e2 x y body2, mark y false (mark x false b'))
  resolve_with inline defs (Ast.era e body) bound =
      bind (resolve_with inline defs e bound)
        λ e2 b. bind (resolve_with inline defs body b) λ body2 b'. some (Ast.era e2 body2, b')
  resolve_with inline defs (Ast.fix e) bound =
      bind (resolve_with inline defs e bound) λ e2 b. some (Ast.fix e2, b)
  resolve_with inline defs (Ast.val v) bound = some (Ast.val v, bound)
  resolve_with inline defs (Ast.fun f) bound = some (Ast.fun f, bound)
  resolve_with inline defs (Ast.perform label e) bound =
      bind (resolve_with inline defs e bound) λ e2 b. some (Ast.perform label e2, b)
  resolve_with inline defs (Ast.handle comp bs) bound =
      bind (resolve_with inline defs comp bound) λ comp2 b.
        bind (resolve_branches inline defs bs b) λ bs2 b'. some (Ast.handle comp2 bs2, b')

  pub resolve_branches :
      {V F : Type 0}
      → (Ast V F → Bound → Resolved (Ast V F))
      → Defs V F
      → Branches V F
      → Bound
      → Resolved (Branches V F)
  resolve_branches inline defs no_branch bound = some (no_branch, bound)
  resolve_branches inline defs (branch label a k body rest) bound =
      bind (resolve_with inline defs body (mark k true (mark a true bound))) λ body2 b.
        bind (resolve_branches inline defs rest (mark k false (mark a false b)))
          λ rest2 b'. some (branch label a k body2 rest2, b')

unfoldable pub resolve : {V F : Type 0} → ℕ → Defs V F → Ast V F → Bound → Resolved (Ast V F)
unfolding resolve_with
resolve zero defs t bound = resolve_with (λ body b. none) defs t bound
resolve (suc fuel) defs t bound = resolve_with (resolve fuel defs) defs t bound

unfoldable pub finish : {V F : Type 0} → Resolved (Ast V F) → Checked (Ast V F)
finish none = unfinished
finish (some (t, b)) = passed t

unfoldable pub pass0 : {V F : Type 0} → Defs V F → Ast V F → Checked (Ast V F)
unfolding topo_check resolve finish
pass0 defs expr = topo_check (suc (length defs)) defs >>= λ visited.
    finish (resolve (length visited) defs expr (λ x. false))
