-- ===== src/Elab/Alpha.antt =====
-- crates/dnx-elab/src/alpha.rs: every binder gets a name of its own. `mint` prints a fresh name, the
-- old one with a mark and a number. The counter, a static, is passed along and wraps at 2^32; no other
-- thread takes numbers meanwhile.
pub mod Nameless
pub mod Distinct
use Prim.Native.String.{String}
use text.Mathlib.Text.{◌==◌ as str_eq}
use dnet.Prelude.{ℕ, ◌+◌, ◌%◌, ◌^◌, Option, none, some, if◌then◌else◌}
use dnet.Ast.{Ast, Branches, no_branch, branch}

abbrev pub Renaming : Type 0
Renaming = String → Option String

unfoldable pub bind : String → String → Renaming → Renaming
bind from to env x = if str_eq x from then some to else env x

abbrev pub name_or : Option String → String → String
name_or none n = n
name_or (some m) n = m

-- `fetch_add`
abbrev pub bump : ℕ → ℕ
bump k = (k + 1) % 2 ^ 32

module _ (mint : String → ℕ → String) {V F : Type 0} where
  unfoldable mutual
    unfolding bind

    pub rename : Ast V F → Renaming → ℕ → Ast V F × ℕ
    rename (Ast.name n) env k = (Ast.name (name_or (env n) n), k)
    rename (Ast.abs x body) env k =
        let x2 = mint x k in let r = rename body (bind x x2 env) (bump k) in (Ast.abs x2 r.0, r.1)
    rename (Ast.app f a) env k =
        let r = rename f env k in let s = rename a env r.1 in (Ast.app r.0 s.0, s.1)
    rename (Ast.rep e a b body) env k =
        let r = rename e env k in
        let a2 = mint a r.1 in
        let b2 = mint b (bump r.1) in
        let s = rename body (bind b b2 (bind a a2 env)) (bump (bump r.1)) in
        (Ast.rep r.0 a2 b2 s.0, s.1)
    rename (Ast.era e body) env k =
        let r = rename e env k in let s = rename body env r.1 in (Ast.era r.0 s.0, s.1)
    rename (Ast.fix inner) env k = let r = rename inner env k in (Ast.fix r.0, r.1)
    rename (Ast.val v) env k = (Ast.val v, k)
    rename (Ast.fun f) env k = (Ast.fun f, k)
    rename (Ast.perform label e) env k = let r = rename e env k in (Ast.perform label r.0, r.1)
    rename (Ast.handle comp bs) env k =
        let r = rename comp env k in let s = rename_branches bs env r.1 in (Ast.handle r.0 s.0, s.1)

    pub rename_branches : Branches V F → Renaming → ℕ → Branches V F × ℕ
    rename_branches no_branch env k = (no_branch, k)
    rename_branches (branch label arg_name k_name body rest) env k =
        let arg2 = mint arg_name k in
        let k2 = mint k_name (bump k) in
        let env2 = bind k_name k2 (bind arg_name arg2 env) in
        let r = rename body env2 (bump (bump k)) in
        let s = rename_branches rest env r.1 in (branch label arg2 k2 r.0 s.0, s.1)

  unfoldable pub alpha_rename : Ast V F → ℕ → Ast V F × ℕ
  unfolding rename
  alpha_rename expr k = rename expr (λ x. none) k
