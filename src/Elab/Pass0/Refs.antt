-- ===== src/Elab/Pass0/Refs.antt =====
-- The names in a list, and the references of a term (crates/dnx-elab/src/pass0.rs).
use Prim.Native.String.{String}
use text.Mathlib.Text.{◌==◌ as str_eq}
use text.Mathlib.TextEquality.{eq_iff}
use dnet.Prelude.{
  ◌≡◌, ◌⊎◌, inl, inr, refl, sym, true, Bool-cases, Option, none, some, List, [], ◌∷◌, ◌++◌,
}
use dnet.Ast.{Ast, Branches, no_branch, branch}
use dnet.Elab.Pass0.{
  Defs, get, contains, keys, ref_of, collect_def_refs, collect_branch_refs, refs_of,
}

abbrev pub In : String → List String → Type 0
In x [] = ⊥
In x (y ∷ l) = (x ≡ y) ⊎ In x l

abbrev pub Within : List String → List String → Type 0
Within l m = (x : String) → In x l → In x m

pub contains-In : (x : String) (l : List String) → contains x l ≡ true → In x l
unfolding contains
contains-In x [] e = cc
contains-In x (y ∷ l) e = elim (Bool-cases (str_eq y x)) [
  | inl same ↦ inl (sym ((eq_iff y x).0 same))
  | inr other ↦ inr (contains-In x l (rw other at e))
]

pub In-contains : (x : String) (l : List String) → In x l → contains x l ≡ true
unfolding contains
In-contains x [] h = elim h [ ]
In-contains x (y ∷ l) (inl e) =
    let same : str_eq y x ≡ true = (eq_iff y x).1 (sym e) in rw same refl
In-contains x (y ∷ l) (inr h) = elim (Bool-cases (str_eq y x)) [
  | inl same ↦ rw same refl
  | inr other ↦ rw other (In-contains x l h)
]

pub In-left : (x : String) (l m : List String) → In x l → In x (l ++ m)
In-left x [] m h = elim h [ ]
In-left x (y ∷ l) m (inl e) = inl e
In-left x (y ∷ l) m (inr h) = inr (In-left x l m h)

pub In-right : (x : String) (l m : List String) → In x m → In x (l ++ m)
In-right x [] m h = h
In-right x (y ∷ l) m h = inr (In-right x l m h)

In-append : (x : String) (l m : List String) → In x (l ++ m) → In x l ⊎ In x m
In-append x [] m h = inr h
In-append x (y ∷ l) m (inl e) = inl (inl e)
In-append x (y ∷ l) m (inr h) = elim (In-append x l m h) [ inl h ↦ inl (inr h) | inr h ↦ inr h ]

module _ {V F : Type 0} where
  get-keys : (x : String) (defs : Defs V F) {t : Ast V F} → get x defs ≡ some t → In x (keys defs)
  unfolding get keys
  get-keys x [] e = cc
  get-keys x ((y, u) ∷ l) e = elim (Bool-cases (str_eq y x)) [
    | inl same ↦ inl (sym ((eq_iff y x).0 same))
    | inr other ↦ inr (get-keys x l (rw other at e))
  ]

  module _ (defs : Defs V F) where
    ref_of-keys : (n x : String) → In x (ref_of (get n defs) n) → In x (keys defs)
    unfolding ref_of
    ref_of-keys n x h = on (get n defs) refl h
      where
        on : (o : Option (Ast V F)) → get n defs ≡ o → In x (ref_of o n) → In x (keys defs)
        on none e h = elim h [ ]
        on (some t) e (inl is) = rw is (get-keys n defs e)
        on (some t) e (inr h) = elim h [ ]

    both-keys :
        (l m : List String)
        → Within l (keys defs)
        → Within m (keys defs)
        → Within (l ++ m) (keys defs)
    both-keys l m p q x h = elim (In-append x l m h) [ inl h ↦ p x h | inr h ↦ q x h ]

    -- What a term refers to is defined.
    mutual
      unfolding collect_def_refs collect_branch_refs

      pub refs-keys : (t : Ast V F) → Within (collect_def_refs defs t) (keys defs)
      refs-keys (Ast.name n) = ref_of-keys n
      refs-keys (Ast.abs x body) = refs-keys body
      refs-keys (Ast.app f a) =
          both-keys (collect_def_refs defs f) (collect_def_refs defs a) (refs-keys f) (refs-keys a)
      refs-keys (Ast.rep e a b body) =
          both-keys (collect_def_refs defs e) (collect_def_refs defs body) (refs-keys e)
            (refs-keys body)
      refs-keys (Ast.era e body) =
          both-keys (collect_def_refs defs e) (collect_def_refs defs body) (refs-keys e)
            (refs-keys body)
      refs-keys (Ast.fix e) = refs-keys e
      refs-keys (Ast.val v) = λ x h. elim h [ ]
      refs-keys (Ast.fun f) = λ x h. elim h [ ]
      refs-keys (Ast.perform label e) = refs-keys e
      refs-keys (Ast.handle comp bs) =
          both-keys (collect_def_refs defs comp) (collect_branch_refs defs bs) (refs-keys comp)
            (branch_refs-keys bs)

      branch_refs-keys : (bs : Branches V F) → Within (collect_branch_refs defs bs) (keys defs)
      branch_refs-keys no_branch = λ x h. elim h [ ]
      branch_refs-keys (branch label a k body rest) =
          both-keys (collect_def_refs defs body) (collect_branch_refs defs rest) (refs-keys body)
            (branch_refs-keys rest)

    pub refs_of-keys : (o : Option (Ast V F)) → Within (refs_of defs o) (keys defs)
    unfolding refs_of
    refs_of-keys none = λ x h. elim h [ ]
    refs_of-keys (some body) = refs-keys body
