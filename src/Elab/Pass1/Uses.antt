-- ===== src/Elab/Pass1/Uses.antt =====
-- How often a term uses a name, and what a use adds to the frames (crates/dnx-elab/src/pass1.rs).
use Prim.Native.String.{String}
use text.Mathlib.Text.{◌==◌ as str_eq}
use dnet.Prelude.{
  ℕ, ◌+◌, ◌≡◌, ap₂, subst, Bool-cases, inl, inr, refl, sym, ap, ◌∙◌, Bool, true, false, List, [],
  ◌∷◌, arith, if◌then◌else◌,
}
use mathlib.Core.Path.{fun_ext}
use text.Mathlib.TextEquality.{eq_iff}
use dnet.Ast.{Ast, Branches, no_branch, branch}
use dnet.Elab.Pass1.{bump}

-- How often a name stands free in a term. `mask` stops the count at a binder.
abbrev pub mask : String → (String → ℕ) → String → ℕ
mask y f x = if str_eq y x then 0 else f x

unfoldable mutual
  pub uses : {V F : Type 0} → Ast V F → String → ℕ
  uses (Ast.name n) = λ x. if str_eq n x then 1 else 0
  uses (Ast.abs y body) = λ x. mask y (uses body) x
  uses (Ast.app f a) = λ x. uses f x + uses a x
  uses (Ast.rep e a b body) = λ x. uses e x + mask a (mask b (uses body)) x
  uses (Ast.era e body) = λ x. uses e x + uses body x
  uses (Ast.fix inner) = λ x. uses inner x
  uses (Ast.val v) = λ x. 0
  uses (Ast.fun f) = λ x. 0
  uses (Ast.perform label e) = λ x. uses e x
  uses (Ast.handle comp bs) = λ x. uses comp x + uses_branches bs x

  pub uses_branches : {V F : Type 0} → Branches V F → String → ℕ
  uses_branches no_branch = λ x. 0
  uses_branches (branch label a k body rest) =
      λ x. mask a (mask k (uses body)) x + uses_branches rest x

-- The counts that the frames come to, each name counted at the first frame that has it.
unfoldable pub credit : (String → ℕ) → List (String × ℕ) → List (String × ℕ)
credit f [] = []
credit f ((y, c) ∷ l) = (y, c + f y) ∷ credit (mask y f) l

mask-add :
    (y : String) (f g : String → ℕ) (x : String)
    → mask y (λ z. f z + g z) x ≡ mask y f x + mask y g x
mask-add y f g x = on (str_eq y x)
  where
    on : (b : Bool) → (if b then 0 else f x + g x) ≡ (if b then 0 else f x) + (if b then 0 else g x)
    on true = refl
    on false = refl

pub credit-credit :
    (f g : String → ℕ) (l : List (String × ℕ)) → credit g (credit f l) ≡ credit (λ x. f x + g x) l
unfolding credit
credit-credit f g [] = refl
credit-credit f g ((y, c) ∷ l) =
    let count : c + f y + g y ≡ c + (f y + g y) = omega arith in
    let below : credit (mask y g) (credit (mask y f) l) ≡ credit (mask y (λ x. f x + g x)) l =
      credit-credit (mask y f) (mask y g) l
      ∙ ap (λ h. credit h l) (sym (fun_ext (mask-add y f g))) in
    ap₂ (λ (k : ℕ) r. (y, k) ∷ r) count below

mask-zero : (y x : String) → mask y (λ z. 0) x ≡ 0
mask-zero y x = on (str_eq y x)
  where
    on : (b : Bool) → ◌≡◌ {A = ℕ} (if b then 0 else 0) 0
    on true = refl
    on false = refl

pub credit-none : (l : List (String × ℕ)) → credit (λ x. 0) l ≡ l
unfolding credit
credit-none [] = refl
credit-none ((y, c) ∷ l) =
    let count : c + 0 ≡ c = omega arith in
    let below : credit (mask y (λ z. 0)) l ≡ l =
      ap (λ h. credit h l) (fun_ext (mask-zero y)) ∙ credit-none l in
    ap₂ (λ (k : ℕ) r. (y, k) ∷ r) count below

abbrev one_use : String → String → ℕ
one_use n x = if str_eq n x then 1 else 0

-- Where the name is another one, the frame is passed over.
mask-one_use :
    (n y : String) → str_eq y n ≡ false → (x : String) → mask y (one_use n) x ≡ one_use n x
mask-one_use n y other x = elim (Bool-cases (str_eq y x)) [
  | inl same ↦
      let e : y ≡ x = (eq_iff y x).0 same in
      let not_here : str_eq n x ≡ false = elim (Bool-cases (str_eq n x)) [
        | inl is ↦
            let e' : n ≡ x = (eq_iff n x).0 is in
            let back : str_eq y n ≡ true = (eq_iff y n).1 (e ∙ sym e') in cc
        | inr is ↦ is
      ] in
      rw (same, not_here) refl
  | inr differs ↦ rw differs refl
]

-- Where it is the same, the frames below are left.
mask-here : (n y : String) → y ≡ n → (x : String) → mask y (one_use n) x ≡ 0
mask-here n y e x =
    subst (λ m. ◌≡◌ {A = ℕ} (if str_eq y x then 0 else (if str_eq m x then 1 else 0)) 0) e
      (on (str_eq y x))
  where
    on : (b : Bool) → ◌≡◌ {A = ℕ} (if b then 0 else (if b then 1 else 0)) 0
    on true = refl
    on false = refl

pub bump-credit : (n : String) (l : List (String × ℕ)) → bump n l ≡ credit (one_use n) l
unfolding bump credit
bump-credit n [] = refl
bump-credit n ((y, c) ∷ l) = elim (Bool-cases (str_eq y n)) [
  | inl same ↦
      let e : y ≡ n = (eq_iff y n).0 same in
      let here : str_eq n y ≡ true = (eq_iff n y).1 (sym e) in
      let below : credit (mask y (one_use n)) l ≡ l =
        ap (λ h. credit h l) (fun_ext (mask-here n y e)) ∙ credit-none l in
      rw (same, here, below) refl
  | inr other ↦
      let there : str_eq n y ≡ false = elim (Bool-cases (str_eq n y)) [
        | inl is ↦ let back : str_eq y n ≡ true = (eq_iff y n).1 (sym ((eq_iff n y).0 is)) in cc
        | inr is ↦ is
      ] in
      let below : credit (mask y (one_use n)) l ≡ credit (one_use n) l =
        ap (λ h. credit h l) (fun_ext (mask-one_use n y other)) in
      let count : c + 0 ≡ c = omega arith in rw (other, there, below, count, bump-credit n l) refl
]
