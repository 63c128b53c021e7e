-- ===== src/Ast.antt =====
-- crates/dnx-ast/src/lib.rs: the terms that the front ends produce and the elaborator consumes, over
-- the primitive values `V` and the primitive functions `F` of a front end. A list of handler
-- branches is a type of its own, since its bodies are terms.
use Prim.Native.String.{String}

mutual
  pub data Ast (V F : Type 0) : Type 0 where
    name : String → Ast V F
    abs : String → Ast V F → Ast V F
    app : Ast V F → Ast V F → Ast V F
    rep : Ast V F → String → String → Ast V F → Ast V F
    era : Ast V F → Ast V F → Ast V F
    fix : Ast V F → Ast V F
    val : V → Ast V F
    fun : F → Ast V F
    perform : String → Ast V F → Ast V F
    handle : Ast V F → Branches V F → Ast V F

  -- `Vec<HandlerBranch>`: the label, the two names that are bound, the body, and the branches behind.
  pub data Branches (V F : Type 0) : Type 0 where
    no_branch : Branches V F
    branch : String → String → String → Ast V F → Branches V F → Branches V F
