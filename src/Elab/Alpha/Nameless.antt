-- ===== src/Elab/Alpha/Nameless.antt =====
-- Renaming keeps a term up to the names of its binders (crates/dnx-elab/src/alpha.rs): the same term
-- with de Bruijn indices.
use Prim.Native.String.{String}
use text.Mathlib.Text.{◌==◌ as str_eq}
use text.Mathlib.TextEquality.{eq_iff}
use text.Mathlib.TextPositions.{eq_refl}
use dnet.Prelude.{
  ℕ, suc, ◌+◌, ◌^◌, ◌≤◌, ◌<◌, ◌≡◌, ◌≢◌, inl, inr, refl, ap, ap₂, ◌∙◌, sym, true, false, Bool-cases,
  Option, none, some, Option-cases, List, [], ◌∷◌, arith, length, length-append, if◌then◌else◌,
}
use dnet.Ast.{Ast, Branches, no_branch, branch}
use dnet.Elab.Alpha.{Renaming, bind, bump, name_or, rename, rename_branches, alpha_rename}
use dnet.Elab.Alpha.Distinct.{binders, branch_binders, behind-eq-add, rename-behind}

mutual
  pub data Nameless (V F : Type 0) : Type 0 where
    bound : ℕ → Nameless V F
    free : String → Nameless V F
    abs : Nameless V F → Nameless V F
    app : Nameless V F → Nameless V F → Nameless V F
    rep : Nameless V F → Nameless V F → Nameless V F
    era : Nameless V F → Nameless V F → Nameless V F
    fix : Nameless V F → Nameless V F
    val : V → Nameless V F
    fun : F → Nameless V F
    perform : String → Nameless V F → Nameless V F
    handle : Nameless V F → Arms V F → Nameless V F

  pub data Arms (V F : Type 0) : Type 0 where
    no_arm : Arms V F
    arm : String → Nameless V F → Arms V F → Arms V F

up : Option ℕ → Option ℕ
up none = none
up (some i) = some (suc i)

-- The innermost binder with a name.
unfoldable pub position : String → List String → Option ℕ
unfolding up
position x [] = none
position x (y ∷ l) = if str_eq x y then some 0 else up (position x l)

position-here : (z x : String) (g : List String) → str_eq z x ≡ true → position z (x ∷ g) ≡ some 0
unfolding position
position-here z x g e = rw e refl

position-past :
    (z x : String) (g : List String) → str_eq z x ≡ false → position z (x ∷ g) ≡ up (position z g)
unfolding position
position-past z x g e = rw e refl

bind-here : (z x y : String) (env : Renaming) → str_eq z x ≡ true → bind x y env z ≡ some y
unfolding bind
bind-here z x y env e = rw e refl

bind-past : (z x y : String) (env : Renaming) → str_eq z x ≡ false → bind x y env z ≡ env z
unfolding bind
bind-past z x y env e = rw e refl

up-none : (o : Option ℕ) → up o ≡ none → o ≡ none
unfolding up
up-none none e = refl
up-none (some i) e = cc

up-some : (o : Option ℕ) (i : ℕ) → up o ≡ some i → (j : ℕ) × (o ≡ some j) × (i ≡ suc j)
unfolding up
up-some none i e = cc
up-some (some j) i e = (j, refl, cc)

index_or : {V F : Type 0} → Option ℕ → String → Nameless V F
index_or none x = free x
index_or (some i) x = bound i

-- A term without the names of its binders, in a scope whose innermost binder stands first.
unfoldable mutual
  unfolding position index_or

  pub strip : {V F : Type 0} → List String → Ast V F → Nameless V F
  strip g (Ast.name n) = index_or (position n g) n
  strip g (Ast.abs x body) = abs (strip (x ∷ g) body)
  strip g (Ast.app f a) = app (strip g f) (strip g a)
  strip g (Ast.rep e a b body) = rep (strip g e) (strip (b ∷ a ∷ g) body)
  strip g (Ast.era e body) = era (strip g e) (strip g body)
  strip g (Ast.fix inner) = fix (strip g inner)
  strip g (Ast.val v) = val v
  strip g (Ast.fun f) = fun f
  strip g (Ast.perform label e) = perform label (strip g e)
  strip g (Ast.handle comp bs) = handle (strip g comp) (strip_branches g bs)

  pub strip_branches : {V F : Type 0} → List String → Branches V F → Arms V F
  strip_branches g no_branch = no_arm
  strip_branches g (branch label a h body rest) =
      arm label (strip (h ∷ a ∷ g) body) (strip_branches g rest)

-- Each name that is used in the term has a property.
unfoldable mutual
  pub AllNames : {V F : Type 0} → (String → Type 0) → Ast V F → Type 0
  AllNames Q (Ast.name n) = Q n
  AllNames Q (Ast.abs x body) = AllNames Q body
  AllNames Q (Ast.app f a) = AllNames Q f × AllNames Q a
  AllNames Q (Ast.rep e a b body) = AllNames Q e × AllNames Q body
  AllNames Q (Ast.era e body) = AllNames Q e × AllNames Q body
  AllNames Q (Ast.fix inner) = AllNames Q inner
  AllNames Q (Ast.val v) = Unit
  AllNames Q (Ast.fun f) = Unit
  AllNames Q (Ast.perform label e) = AllNames Q e
  AllNames Q (Ast.handle comp bs) = AllNames Q comp × BranchNames Q bs

  pub BranchNames : {V F : Type 0} → (String → Type 0) → Branches V F → Type 0
  BranchNames Q no_branch = Unit
  BranchNames Q (branch label a h body rest) = AllNames Q body × BranchNames Q rest

module _ (mint : String → ℕ → String)
    (apart : (a b : String) (i j : ℕ) → mint a i ≡ mint b j → i ≡ j) where
  -- A name that is not printed for any binder and number.
  abbrev pub IsSource : String → Type 0
  IsSource n = (b : String) (i : ℕ) → n ≢ mint b i

  -- The scope `g` and its renamed version `d`, which has numbers below `k`, under a renaming.
  record Matches (g d : List String) (env : Renaming) (k : ℕ) : Type 0 where
    unbound : (x : String) → position x g ≡ none → env x ≡ none
    bound_as :
        (x : String) (i : ℕ)
        → position x g ≡ some i
        → (y : String) × (env x ≡ some y) × (position y d ≡ some i)
    below :
        (y : String) (i : ℕ)
        → position y d ≡ some i
        → (b : String) × (j : ℕ) × (y ≡ mint b j) × (j < k)

  start : (k : ℕ) → Matches [] [] (λ x. none) k
  unfolding position
  start k = record { unbound = λ x e. refl; bound_as = λ x i e. cc; below = λ y i e. cc }

  later :
      {g d : List String} {env : Renaming} {k m : ℕ} → k ≤ m → Matches g d env k → Matches g d env m
  later le h = record {
    unbound = h.unbound;
    bound_as = h.bound_as;
    below = λ y i e. let (b, j, is, lt) = h.below y i e in (b, j, is, omega arith);
  }

  -- One binder more.
  enter :
      {g d : List String} {env : Renaming} {k : ℕ} (x : String)
      → Matches g d env k
      → Matches (x ∷ g) (mint x k ∷ d) (bind x (mint x k) env) (k + 1)
  unfolding position bind
  enter {g} {d} {env} {k} x h = record {
    unbound = λ z e. elim (Bool-cases (str_eq z x)) [
      | inl same ↦ let at = position-here z x g same in cc
      | inr other ↦
          let past = up-none (position z g) (sym (position-past z x g other) ∙ e) in
          bind-past z x (mint x k) env other ∙ h.unbound z past
    ];
    bound_as = λ z i e. elim (Bool-cases (str_eq z x)) [
      | inl same ↦ (
        mint x k,
        bind-here z x (mint x k) env same,
        position-here (mint x k) (mint x k) d (eq_refl (mint x k))
            ∙ (sym (position-here z x g same) ∙ e),
      )
      | inr other ↦
          let (j, at, is) = up-some (position z g) i (sym (position-past z x g other) ∙ e) in
          let (y, to, at') = h.bound_as z j at in
          let (b, m, made, lt) = h.below y j at' in
          (
            y,
            bind-past z x (mint x k) env other ∙ to,
            position-past y (mint x k) d (differs y b m made lt)
                ∙ (ap up at' ∙ ap (λ n. some n) (sym is)),
          )
    ];
    below = λ z i e. elim (Bool-cases (str_eq z (mint x k))) [
      | inl same ↦ (x, k, (eq_iff z (mint x k)).0 same, omega arith)
      | inr other ↦
          let (j, at, is) =
            up-some (position z d) i (sym (position-past z (mint x k) d other) ∙ e) in
          let (b, m, made, lt) = h.below z j at in (b, m, made, omega arith)
    ];
  }
    where
      differs : (y b : String) (m : ℕ) → y ≡ mint b m → m < k → str_eq y (mint x k) ≡ false
      differs y b m made lt = elim (Bool-cases (str_eq y (mint x k))) [
        | inl same ↦
            let e = apart b x m k (sym made ∙ (eq_iff y (mint x k)).0 same) in absurd (omega arith)
        | inr other ↦ other
      ]

  enter_at :
      {g d : List String} {env : Renaming} {k : ℕ} (x : String)
      → k + 1 < 2 ^ 32
      → Matches g d env k
      → Matches (x ∷ g) (mint x k ∷ d) (bind x (mint x k) env) (bump k)
  enter_at x lt h = later (omega arith) (enter x h)

  name-strip :
      {V F : Type 0} {g d : List String} {env : Renaming} {k : ℕ} (n : String)
      → Matches g d env k
      → IsSource n
      → ◌≡◌ {A = Nameless V F}
          (index_or (position (name_or (env n) n) d) (name_or (env n) n))
          (index_or (position n g) n)
  unfolding index_or
  name-strip {g = g} {d = d} {env = env} n h source = elim (Option-cases (position n g)) [
    | inl out ↦
        let kept = h.unbound n out in
        elim (Option-cases (position n d)) [
          | inl out' ↦ rw (kept, out, out') refl
          | inr (i, e) ↦ let (b, j, is, lt) = h.below n i e in absurd (source b j is)
        ]
    | inr (i, e) ↦ let (y, to, at) = h.bound_as n i e in rw (to, e, at) refl
  ]

  -- The counter after a part, if it does not wrap.
  after :
      {V F : Type 0} (t : Ast V F) (env : Renaming) (k : ℕ)
      → k + length (binders t) < 2 ^ 32
      → (rename mint t env k).1 ≡ k + length (binders t)
  after t env k fits = rename-behind mint t env k ∙ behind-eq-add k (binders t) fits

  module _ {V F : Type 0} where
    mutual
      unfolding rename rename_branches strip strip_branches AllNames BranchNames binders
          branch_binders

      rename-strip :
          (t : Ast V F) {g d : List String} {env : Renaming} (k : ℕ)
          → Matches g d env k
          → AllNames IsSource t
          → k + length (binders t) < 2 ^ 32
          → strip d (rename mint t env k).0 ≡ strip g t
      rename-strip (Ast.name n) k h s fits = name-strip n h s
      rename-strip (Ast.abs x body) {env = env} k h s fits =
          ap (λ y. abs y) (rename-strip body (bump k) (enter_at x (omega arith) h) s (omega arith))
      rename-strip (Ast.app f a) {env = env} k h s fits =
          let long = length-append {0} (binders f) (binders a) in
          let k1 = (rename mint f env k).1 in
          let at = after f env k (omega arith) in
          ap₂ (λ x y. app x y) (rename-strip f k h s.0 (omega arith))
            (rename-strip a k1 (later (omega arith) h) s.1 (omega arith))
      rename-strip (Ast.rep e a b body) {g = g} {d = d} {env = env} k h s fits =
          let long = length-append {0} (binders e) (a ∷ b ∷ binders body) in
          let k1 = (rename mint e env k).1 in
          let at = after e env k (omega arith) in
          let more : bump (bump k1) ≡ k1 + 2 = omega arith in
          let h1 : Matches g d env k1 = later (omega arith) h in
          let first = enter_at a (omega arith) h1 in
          let inside = enter_at b (omega arith) first in
          ap₂ (λ x y. rep x y) (rename-strip e k h s.0 (omega arith))
            (rename-strip body (bump (bump k1)) inside s.1 (omega arith))
      rename-strip (Ast.era e body) {env = env} k h s fits =
          let long = length-append {0} (binders e) (binders body) in
          let k1 = (rename mint e env k).1 in
          let at = after e env k (omega arith) in
          ap₂ (λ x y. era x y) (rename-strip e k h s.0 (omega arith))
            (rename-strip body k1 (later (omega arith) h) s.1 (omega arith))
      rename-strip (Ast.fix inner) k h s fits = ap (λ x. fix x) (rename-strip inner k h s fits)
      rename-strip (Ast.val v) k h s fits = refl
      rename-strip (Ast.fun f) k h s fits = refl
      rename-strip (Ast.perform label e) k h s fits =
          ap (λ x. perform label x) (rename-strip e k h s fits)
      rename-strip (Ast.handle comp bs) {env = env} k h s fits =
          let long = length-append {0} (binders comp) (branch_binders bs) in
          let k1 = (rename mint comp env k).1 in
          let at = after comp env k (omega arith) in
          ap₂ (λ x y. handle x y) (rename-strip comp k h s.0 (omega arith))
            (branches-strip bs k1 (later (omega arith) h) s.1 (omega arith))

      branches-strip :
          (bs : Branches V F) {g d : List String} {env : Renaming} (k : ℕ)
          → Matches g d env k
          → BranchNames IsSource bs
          → k + length (branch_binders bs) < 2 ^ 32
          → strip_branches d (rename_branches mint bs env k).0 ≡ strip_branches g bs
      branches-strip no_branch k h s fits = refl
      branches-strip (branch label a b body rest) {env = env} k h s fits =
          let long = length-append {0} (binders body) (branch_binders rest) in
          let env2 = bind b (mint b (bump k)) (bind a (mint a k) env) in
          let k1 = (rename mint body env2 (bump (bump k))).1 in
          let more : bump (bump k) ≡ k + 2 = omega arith in
          let at = after body env2 (bump (bump k)) (omega arith) in
          let inside = enter_at b (omega arith) (enter_at a (omega arith) h) in
          ap₂ (λ x y. arm label x y) (rename-strip body (bump (bump k)) inside s.0 (omega arith))
            (branches-strip rest k1 (later (omega arith) h) s.1 (omega arith))

  -- Renaming keeps a term up to its bound names: with de Bruijn indices it is the same before and
  -- after. It is supposed that fresh names of different numbers differ, that no name that the term
  -- uses is a fresh one, and that the counter does not wrap on the way.
  pub alpha_rename-strip :
      {V F : Type 0} (t : Ast V F) (k : ℕ)
      → AllNames IsSource t
      → k + length (binders t) < 2 ^ 32
      → strip [] (alpha_rename mint t k).0 ≡ strip [] t
  unfolding alpha_rename
  alpha_rename-strip t k source fits = rename-strip t k (start k) source fits
