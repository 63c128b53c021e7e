-- ===== src/Elab/Pass0/Ends.antt =====
-- Inlining the definitions (crates/dnx-elab/src/pass0.rs) ends if they have no cycle, and leaves no
-- name of a definition free.
use Prim.Native.String.{String}
use text.Mathlib.Text.{◌==◌ as str_eq}
use text.Mathlib.TextEquality.{eq_iff}
use dnet.Prelude.{
  ◌<◌, ◌≡◌, ◌≢◌, ◌⊎◌, inl, inr, refl, sym, subst, true, false, Bool-cases, none, some, Option-cases,
  List, [], ◌∷◌, ◌++◌, length, arith,
}
use dnet.Ast.{Ast, Branches, no_branch, branch}
use dnet.Elab.Pass0.{
  Defs, get, ref_of, collect_def_refs, collect_branch_refs, refs_of, Checked, passed, cyclic, Bound,
  mark, Resolved, bind, resolve_with, resolve_branches,
}
use dnet.Elab.Pass0.Refs.{In, Within, In-left, In-right}
use dnet.Elab.Pass0.Order.{Ranked, Cycle}

module _ {V F : Type 0} (defs : Defs V F) where
  -- In a scope, each free name of a term is no definition.
  unfoldable mutual
    pub Settled : List String → Ast V F → Type 0
    Settled g (Ast.name n) = In n g ⊎ (get n defs ≡ none)
    Settled g (Ast.abs x body) = Settled (x ∷ g) body
    Settled g (Ast.app f a) = Settled g f × Settled g a
    Settled g (Ast.rep e a b body) = Settled g e × Settled (b ∷ a ∷ g) body
    Settled g (Ast.era e body) = Settled g e × Settled g body
    Settled g (Ast.fix e) = Settled g e
    Settled g (Ast.val v) = Unit
    Settled g (Ast.fun f) = Unit
    Settled g (Ast.perform label e) = Settled g e
    Settled g (Ast.handle comp bs) = Settled g comp × BranchesSettled g bs

    pub BranchesSettled : List String → Branches V F → Type 0
    BranchesSettled g no_branch = Unit
    BranchesSettled g (branch label a k body rest) =
        Settled (k ∷ a ∷ g) body × BranchesSettled g rest

  -- The names that are marked as bound are in the scope.
  record Scope (g : List String) (b : Bound) : Type 0 where
    in_scope : (x : String) → b x ≡ true → In x g

  enter : {g : List String} {b : Bound} (x : String) → Scope g b → Scope (x ∷ g) (mark x true b)
  enter {g} {b} x h = record {
    in_scope = λ y e. elim (Bool-cases (str_eq y x)) [
      | inl same ↦ inl ((eq_iff y x).0 same)
      | inr other ↦ inr (h.in_scope y (rw other at e))
    ];
  }

  -- A name that is not bound any more.
  removed : (x y : String) (b : Bound) → mark x false b y ≡ true → (y ≢ x) × (b y ≡ true)
  removed x y b e = elim (Bool-cases (str_eq y x)) [
    | inl same ↦ let no_more : false ≡ true = rw same at e in cc
    | inr other ↦ (λ is. let same : str_eq y x ≡ true = (eq_iff y x).1 is in cc, rw other at e)
  ]

  leave : {g : List String} {b : Bound} (x : String) → Scope (x ∷ g) b → Scope g (mark x false b)
  leave {g} {b} x h = record {
    in_scope = λ y e.
        let (ne, e') = removed x y b e in
        elim (h.in_scope y e') [ inl is ↦ absurd (ne is) | inr in_g ↦ in_g ];
  }

  leave_two :
      {g : List String} {b : Bound} (x y : String)
      → Scope (y ∷ x ∷ g) b
      → Scope g (mark y false (mark x false b))
  leave_two {g} {b} x y h = record {
    in_scope = λ z e.
        let (ne, e') = removed y z (mark x false b) e in
        let (ne', e'') = removed x z b e' in
        elim (h.in_scope z e'') [
          | inl is ↦ absurd (ne is)
          | inr (inl is) ↦ absurd (ne' is)
          | inr (inr in_g) ↦ in_g
        ];
  }

  -- It came to its end, in a settled term.
  data Res (g : List String) : Resolved (Ast V F) → Type 0 where
    res : {t : Ast V F} {b : Bound} → Settled g t → Scope g b → Res g (some (t, b))

  data BranchRes (g : List String) : Resolved (Branches V F) → Type 0 where
    branch_res :
        {bs : Branches V F} {b : Bound}
        → BranchesSettled g bs
        → Scope g b
        → BranchRes g (some (bs, b))

  then-Res :
      {g h : List String} {r : Resolved (Ast V F)} (k : Ast V F → Bound → Resolved (Ast V F))
      → Res g r
      → ((t : Ast V F) (b : Bound) → Settled g t → Scope g b → Res h (k t b))
      → Res h (bind r k)
  then-Res k (res {t} {b} s sc) next = next t b s sc

  handle-Res :
      {g : List String} (t : Ast V F) {r : Resolved (Branches V F)}
      → Settled g t
      → BranchRes g r
      → Res g (bind r λ bs b. some (Ast.handle t bs, b))
  unfolding Settled
  handle-Res t s (branch_res s' sc) = res (s, s') sc

  cons_res :
      {g : List String} {r : Resolved (Branches V F)} (t : Ast V F) (label a k : String)
      → Settled (k ∷ a ∷ g) t
      → BranchRes g r
      → BranchRes g (bind r λ bs b. some (branch label a k t bs, b))
  unfolding Settled BranchesSettled
  cons_res t label a k s (branch_res s' sc) = branch_res (s, s') sc

  then_branches :
      {g h : List String} {r : Resolved (Ast V F)} (k : Ast V F → Bound → Resolved (Branches V F))
      → Res g r
      → ((t : Ast V F) (b : Bound) → Settled g t → Scope g b → BranchRes h (k t b))
      → BranchRes h (bind r k)
  then_branches k (res {t} {b} s sc) next = next t b s sc

  module _ (inline : Ast V F → Bound → Resolved (Ast V F)) where
    -- The bodies that are put in are settled.
    Inlines : List String → Type 0
    Inlines l =
        (n : String) (body : Ast V F)
        → In n l
        → get n defs ≡ some body
        → (g : List String) (b : Bound) → Scope g b
        → Res g (inline body b)

    Inlines-left : (l m : List String) → Inlines (l ++ m) → Inlines l
    unfolding Inlines
    Inlines-left l m h n body at = h n body (In-left n l m at)

    Inlines-right : (l m : List String) → Inlines (l ++ m) → Inlines m
    unfolding Inlines
    Inlines-right l m h n body at = h n body (In-right n l m at)

    name-Res :
        (n : String) (g : List String) (b : Bound)
        → Inlines (ref_of (get n defs) n)
        → Scope g b
        → Res g (resolve_with inline defs (Ast.name n) b)
    unfolding resolve_with Inlines Settled ref_of
    name-Res n g b h sc = elim (Bool-cases (b n)) [
      | inl bound ↦ rw bound (res (inl (sc.in_scope n bound)) sc)
      | inr free ↦ elim (Option-cases (get n defs)) [
        | inl none_is ↦ rw (free, none_is) (res (inr none_is) sc)
        | inr (body, is) ↦
            let h' : Inlines (n ∷ []) = subst (λ o. Inlines (ref_of o n)) is h in
            rw (free, is) (h' n body (inl refl) is g b sc)
      ]
    ]

    mutual
      unfolding resolve_with resolve_branches collect_def_refs collect_branch_refs Settled
          BranchesSettled

      resolve_with-Res :
          (t : Ast V F) (g : List String) (b : Bound)
          → Inlines (collect_def_refs defs t)
          → Scope g b
          → Res g (resolve_with inline defs t b)
      resolve_with-Res (Ast.name n) g b h sc = name-Res n g b h sc
      resolve_with-Res (Ast.abs x body) g b h sc =
          then-Res _ (resolve_with-Res body (x ∷ g) (mark x true b) h (enter x sc))
            λ t b' s sc'. res s (leave x sc')
      resolve_with-Res (Ast.app f a) g b h sc =
          let l = collect_def_refs defs f in
          let m = collect_def_refs defs a in
          then-Res _ (resolve_with-Res f g b (Inlines-left l m h) sc) λ t b' s sc'.
            then-Res _ (resolve_with-Res a g b' (Inlines-right l m h) sc')
              λ u b'' s' sc''. res (s, s') sc''
      resolve_with-Res (Ast.rep e x y body) g b h sc =
          let l = collect_def_refs defs e in
          let m = collect_def_refs defs body in
          then-Res _ (resolve_with-Res e g b (Inlines-left l m h) sc) λ t b' s sc'.
            then-Res _
              (resolve_with-Res body (y ∷ x ∷ g) (mark y true (mark x true b'))
                (Inlines-right l m h) (enter y (enter x sc')))
              λ u b'' s' sc''. res (s, s') (leave_two x y sc'')
      resolve_with-Res (Ast.era e body) g b h sc =
          let l = collect_def_refs defs e in
          let m = collect_def_refs defs body in
          then-Res _ (resolve_with-Res e g b (Inlines-left l m h) sc) λ t b' s sc'.
            then-Res _ (resolve_with-Res body g b' (Inlines-right l m h) sc')
              λ u b'' s' sc''. res (s, s') sc''
      resolve_with-Res (Ast.fix e) g b h sc =
          then-Res _ (resolve_with-Res e g b h sc) λ t b' s sc'. res s sc'
      resolve_with-Res (Ast.val v) g b h sc = res tt sc
      resolve_with-Res (Ast.fun f) g b h sc = res tt sc
      resolve_with-Res (Ast.perform label e) g b h sc =
          then-Res _ (resolve_with-Res e g b h sc) λ t b' s sc'. res s sc'
      resolve_with-Res (Ast.handle comp bs) g b h sc =
          let l = collect_def_refs defs comp in
          let m = collect_branch_refs defs bs in
          then-Res _ (resolve_with-Res comp g b (Inlines-left l m h) sc)
            λ t b' s sc'. handle-Res t s (resolve_branches-Res bs g b' (Inlines-right l m h) sc')

      resolve_branches-Res :
          (bs : Branches V F) (g : List String) (b : Bound)
          → Inlines (collect_branch_refs defs bs)
          → Scope g b
          → BranchRes g (resolve_branches inline defs bs b)
      resolve_branches-Res no_branch g b h sc = branch_res tt sc
      resolve_branches-Res (branch label a k body rest) g b h sc =
          let l = collect_def_refs defs body in
          let m = collect_branch_refs defs rest in
          then_branches _
            (resolve_with-Res body (k ∷ a ∷ g) (mark k true (mark a true b)) (Inlines-left l m h)
              (enter k (enter a sc)))
            λ t b' s sc'. cons_res t label a k s (
              resolve_branches-Res rest g (mark k false (mark a false b')) (Inlines-right l m h)
                (leave_two a k sc'))

  -- The names behind a name in the order, which its definition refers to.
  behind :
      (v : List String) (n : String)
      → Ranked defs v
      → In n v
      → (w : List String) × Ranked defs w
        × Within (refs_of defs (get n defs)) w
        × (length w < length v)
  behind [] n r h = elim h [ ]
  behind (x ∷ v) n r (inl e) =
      (v, r.1, subst (λ y. Within (refs_of defs (get y defs)) v) (sym e) r.0, omega arith)
  behind (x ∷ v) n r (inr h) =
      let (w, ranked, within, lt) = behind v n r.1 h in (w, ranked, within, omega arith)

-- A term whose free names are no definitions, or the names of a cycle.
pub data Ends {V F : Type 0} (defs : Defs V F) : Checked (Ast V F) → Type 0 where
  settled : {t : Ast V F} → Settled defs [] t → Ends defs (passed t)
  has_cycle : {l : List String} → Cycle defs l → Ends defs (cyclic l)
