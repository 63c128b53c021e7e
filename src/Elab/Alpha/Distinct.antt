-- ===== src/Elab/Alpha/Distinct.antt =====
-- The binders of a renamed term (crates/dnx-elab/src/alpha.rs).
use Prim.Native.String.{String}
use dnet.Prelude.{
  ℕ, ◌+◌, ◌^◌, ◌≤◌, ◌<◌, ◌≡◌, ◌≢◌, none, refl, subst, ap, ap₂, ◌∙◌, sym, List, [], ◌∷◌, ◌++◌, arith,
  length,
}
use dnet.Ast.{Ast, Branches, no_branch, branch}
use dnet.Elab.Alpha.{Renaming, bind, bump, rename, rename_branches, alpha_rename}

-- The binders, in the order in which they are renamed.
unfoldable mutual
  pub binders : {V F : Type 0} → Ast V F → List String
  binders (Ast.name n) = []
  binders (Ast.abs x body) = x ∷ binders body
  binders (Ast.app f a) = binders f ++ binders a
  binders (Ast.rep e a b body) = binders e ++ a ∷ b ∷ binders body
  binders (Ast.era e body) = binders e ++ binders body
  binders (Ast.fix inner) = binders inner
  binders (Ast.val v) = []
  binders (Ast.fun f) = []
  binders (Ast.perform label e) = binders e
  binders (Ast.handle comp bs) = binders comp ++ branch_binders bs

  pub branch_binders : {V F : Type 0} → Branches V F → List String
  branch_binders no_branch = []
  branch_binders (branch label a h body rest) = a ∷ h ∷ (binders body ++ branch_binders rest)

-- The counter behind a list of fresh names.
unfoldable pub behind : ℕ → List String → ℕ
behind k [] = k
behind k (x ∷ l) = behind (bump k) l

behind-append : (k : ℕ) (l m : List String) → behind k (l ++ m) ≡ behind (behind k l) m
unfolding behind
behind-append k [] m = refl
behind-append k (x ∷ l) m = behind-append (bump k) l m

pub behind-eq-add : (k : ℕ) (l : List String) → k + length l < 2 ^ 32 → behind k l ≡ k + length l
unfolding behind
behind-eq-add k [] h = omega arith
behind-eq-add k (x ∷ l) h =
    let next : bump k ≡ k + 1 = omega arith in
    rw next (omega (arith, behind-eq-add (k + 1) l (omega arith)))

-- No name stands in the list twice.
abbrev NotIn : String → List String → Type 0
NotIn x [] = Unit
NotIn x (y ∷ l) = (x ≢ y) × NotIn x l

abbrev pub Distinct : List String → Type 0
Distinct [] = Unit
Distinct (x ∷ l) = NotIn x l × Distinct l

module _ (mint : String → ℕ → String) where
  unfoldable pub numbered : ℕ → List String → List String
  numbered k [] = []
  numbered k (x ∷ l) = mint x k ∷ numbered (bump k) l

  numbered-append :
      (k : ℕ) (l m : List String) → numbered k (l ++ m) ≡ numbered k l ++ numbered (behind k l) m
  unfolding numbered behind
  numbered-append k [] m = refl
  numbered-append k (x ∷ l) m = ap (λ r. mint x k ∷ r) (numbered-append (bump k) l m)

  -- A renamed term has the binders of the term, with the numbers from the counter on, and the
  -- counter moves past them.
  record Numbered (k : ℕ) (l l' : List String) (k' : ℕ) : Type 0 where
    named : l' ≡ numbered k l
    moved : k' ≡ behind k l

  two :
      {k : ℕ} {l m l' m' : List String} {k1 k2 : ℕ}
      → Numbered k l l' k1
      → Numbered k1 m m' k2
      → Numbered k (l ++ m) (l' ++ m') k2
  two {k} {l} {m} p q = record {
    named =
        ap₂ (λ x y. x ++ y) p.named (q.named ∙ ap (λ j. numbered j m) p.moved)
        ∙ sym (numbered-append k l m);
    moved = q.moved ∙ ap (λ j. behind j m) p.moved ∙ sym (behind-append k l m);
  }

  more :
      {k : ℕ} {l l' : List String} {k' : ℕ} (x : String)
      → Numbered (bump k) l l' k'
      → Numbered k (x ∷ l) (mint x k ∷ l') k'
  unfolding numbered behind
  more {k} x p = record { named = ap (λ r. mint x k ∷ r) p.named; moved = p.moved }

  module _ {V F : Type 0} where
    mutual
      unfolding rename rename_branches binders branch_binders numbered behind

      rename-Numbered :
          (t : Ast V F) (env : Renaming) (k : ℕ)
          → Numbered k (binders t) (binders (rename mint t env k).0) (rename mint t env k).1
      rename-Numbered (Ast.name n) env k = record { named = refl; moved = refl }
      rename-Numbered (Ast.abs x body) env k =
          more x (rename-Numbered body (bind x (mint x k) env) (bump k))
      rename-Numbered (Ast.app f a) env k =
          two (rename-Numbered f env k) (rename-Numbered a env (rename mint f env k).1)
      rename-Numbered (Ast.rep e a b body) env k =
          let k1 = (rename mint e env k).1 in
          let env2 = bind b (mint b (bump k1)) (bind a (mint a k1) env) in
          two (rename-Numbered e env k)
            (more a (more b (rename-Numbered body env2 (bump (bump k1)))))
      rename-Numbered (Ast.era e body) env k =
          two (rename-Numbered e env k) (rename-Numbered body env (rename mint e env k).1)
      rename-Numbered (Ast.fix inner) env k = rename-Numbered inner env k
      rename-Numbered (Ast.val v) env k = record { named = refl; moved = refl }
      rename-Numbered (Ast.fun f) env k = record { named = refl; moved = refl }
      rename-Numbered (Ast.perform label e) env k = rename-Numbered e env k
      rename-Numbered (Ast.handle comp bs) env k =
          two (rename-Numbered comp env k) (branches-Numbered bs env (rename mint comp env k).1)

      branches-Numbered :
          (bs : Branches V F) (env : Renaming) (k : ℕ)
          → Numbered k
              (branch_binders bs)
              (branch_binders (rename_branches mint bs env k).0)
              (rename_branches mint bs env k).1
      branches-Numbered no_branch env k = record { named = refl; moved = refl }
      branches-Numbered (branch label a h body rest) env k =
          let env2 = bind h (mint h (bump k)) (bind a (mint a k) env) in
          more a (
            more h (
              two (rename-Numbered body env2 (bump (bump k)))
                (branches-Numbered rest env (rename mint body env2 (bump (bump k))).1)))

  pub rename-behind :
      {V F : Type 0} (t : Ast V F) (env : Renaming) (k : ℕ)
      → (rename mint t env k).1 ≡ behind k (binders t)
  rename-behind t env k = (rename-Numbered t env k).moved

  module _ (apart : (a b : String) (i j : ℕ) → mint a i ≡ mint b j → i ≡ j) where
    -- A number below those of the list.
    fresh-NotIn :
        (x : String) (i k : ℕ) (l : List String)
        → i < k
        → k + length l ≤ 2 ^ 32
        → NotIn (mint x i) (numbered k l)
    unfolding numbered
    fresh-NotIn x i k [] lt fits = tt
    fresh-NotIn x i k (y ∷ []) lt fits = (λ e. absurd (omega (arith, apart x y i k e)), tt)
    fresh-NotIn x i k (y ∷ z ∷ l) lt fits =
        let next : bump k ≡ k + 1 = omega arith in
        (
          λ e. absurd (omega (arith, apart x y i k e)),
          rw next (fresh-NotIn x i (k + 1) (z ∷ l) (omega arith) (omega arith)),
        )

    numbered-Distinct : (k : ℕ) (l : List String) → k + length l ≤ 2 ^ 32 → Distinct (numbered k l)
    unfolding numbered
    numbered-Distinct k [] fits = tt
    numbered-Distinct k (x ∷ []) fits = (tt, tt)
    numbered-Distinct k (x ∷ y ∷ l) fits =
        let next : bump k ≡ k + 1 = omega arith in
        rw next (
          fresh-NotIn x k (k + 1) (y ∷ l) (omega arith) (omega arith),
          numbered-Distinct (k + 1) (y ∷ l) (omega arith),
        )

    -- After renaming no two binders of a term have the same name, if fresh names of different
    -- numbers differ and the counter does not wrap on the way.
    pub alpha_rename-Distinct :
        {V F : Type 0} (t : Ast V F) (k : ℕ)
        → k + length (binders t) ≤ 2 ^ 32
        → Distinct (binders (alpha_rename mint t k).0)
    unfolding alpha_rename
    alpha_rename-Distinct t k fits =
        let e = (rename-Numbered t (λ x. none) k).named in
        subst Distinct (sym e) (numbered-Distinct k (binders t) fits)
