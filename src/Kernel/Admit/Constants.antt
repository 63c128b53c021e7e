-- ===== src/Kernel/Admit/Constants.antt =====
-- crates/dnx-proof/src/env.rs, `add_const`: the constants can be unfolded in the order of their admission.
use dnet.Prelude.{
  ℕ, ◌+◌, ◌<◌, ◌≡◌, ◌≢◌, ◌⊎◌, refl, sym, ap, ◌∙◌, subst, Bool, true, false, Bool-cases, ◌||◌,
  Option, none, some, Option-cases, inl, inr, arith, ◌==◌, if◌then◌else◌,
}
use dnet.Kernel.Term.{Tm, pi, lam, app, const}
use dnet.Kernel.Env.{GlobalEnv, Definition, Inductive}
use dnet.Kernel.Run.{done, Yields, yields, if-Yields, then-Yields, done-Yields}
use dnet.Kernel.Admit.{
  AdmitError, is_some, insert, refs_unknown_const, add_const, add_inductive, with_recursor,
  empty_env,
}

-- The constant `k` occurs.
unfoldable pub mentions : ℕ → Tm → Bool
mentions k (const c) = c == k
mentions k (pi a b) = mentions k a || mentions k b
mentions k (lam a b) = mentions k a || mentions k b
mentions k (app a b) = mentions k a || mentions k b
mentions k _ = false

-- The constants have an order in which each mentions earlier ones only.
pub record IsAcyclic (env : GlobalEnv) : Type 0 where
  pub rank : ℕ → ℕ
  pub bound : ℕ
  pub below : (c : ℕ) (d : Definition) → env.consts c ≡ some d → rank c < bound
  pub earlier :
      (c : ℕ) (d : Definition)
      → env.consts c ≡ some d
      → (k : ℕ) → mentions k d.body ≡ true
      → (is_some (env.consts k) ≡ true) × (rank k < rank c)

-- If neither refers to an unknown constant and one of them mentions `k`, then that one shows it.
split_or :
    {G : Type 0} (unknown_a unknown_b mentions_a mentions_b : Bool)
    → (unknown_a ≡ false → mentions_a ≡ true → G)
    → (unknown_b ≡ false → mentions_b ≡ true → G)
    → unknown_a || unknown_b ≡ false
    → mentions_a || mentions_b ≡ true
    → G
split_or false false true m f g r e = f refl refl
split_or false false false true f g r e = g refl refl
split_or false false false false f g r e = cc
split_or false true m n f g r e = cc
split_or true u m n f g r e = cc

refs-mentions :
    (t : Tm) (known : ℕ → Option Definition) (this k : ℕ)
    → refs_unknown_const t known this ≡ false
    → mentions k t ≡ true
    → (is_some (known k) ≡ true) × (k ≢ this)
unfolding refs_unknown_const mentions
refs-mentions (const c) known this k r m =
    subst (λ k. (is_some (known k) ≡ true) × (k ≢ this)) {x = c} (ground arith)
      (ground arith, λ e. ground arith)
refs-mentions (pi a b) known this k r m =
    split_or _ _ _ _ (refs-mentions a known this k) (refs-mentions b known this k) r m
refs-mentions (lam a b) known this k r m =
    split_or _ _ _ _ (refs-mentions a known this k) (refs-mentions b known this k) r m
refs-mentions (app a b) known this k r m =
    split_or _ _ _ _ (refs-mentions a known this k) (refs-mentions b known this k) r m
refs-mentions _ known this k r m = cc

insert_self : {A : Type 0} (m : ℕ → Option A) (key : ℕ) (v : A) → insert m key v key ≡ some v
unfolding insert
insert_self m key v = ground arith

insert_other :
    {A : Type 0} (m : ℕ → Option A) (key : ℕ) (v : A) (k : ℕ) → k ≢ key → insert m key v k ≡ m k
unfolding insert
insert_other m key v k ne = ground arith

is_some-insert :
    {A : Type 0} (m : ℕ → Option A) (key : ℕ) (v : A) (k : ℕ)
    → is_some (m k) ≡ true
    → is_some (insert m key v k) ≡ true
unfolding insert is_some
is_some-insert m key v k e = ground arith

-- The rank of the new constant is the bound.
new_rank : (ℕ → ℕ) → ℕ → ℕ → ℕ → ℕ
new_rank rank key bound c = if c == key then bound else rank c

known_rank :
    (env : GlobalEnv) (ok : IsAcyclic env) (k : ℕ)
    → is_some (env.consts k) ≡ true
    → ok.rank k < ok.bound
unfolding is_some
known_rank env ok k e = elim (Option-cases (env.consts k)) [
  | inl unknown ↦ cc
  | inr (d, known) ↦ ok.below k d known
]

old_rank : (rank : ℕ → ℕ) (key bound c : ℕ) → c ≢ key → new_rank rank key bound c ≡ rank c
unfolding new_rank
old_rank rank key bound c ne = ground arith

top_rank : (rank : ℕ → ℕ) (key bound : ℕ) → new_rank rank key bound key ≡ bound
unfolding new_rank
top_rank rank key bound = ground arith

same_or_not : (a b : ℕ) → (a ≡ b) ⊎ (a ≢ b)
same_or_not a b = ground arith

module _ (env : GlobalEnv) (id : ℕ) (def : Definition) (ok : IsAcyclic env)
    (fresh : is_some (env.consts id) ≡ false) where
  fresh_of_known : (k : ℕ) → is_some (env.consts k) ≡ true → k ≢ id
  fresh_of_known k known e = cc

  insert_below :
      (c : ℕ) (d : Definition)
      → insert env.consts id def c ≡ some d
      → new_rank ok.rank id ok.bound c < ok.bound + 1
  insert_below c d known = elim (same_or_not c id) [
    | inl same ↦
        let top = top_rank ok.rank id ok.bound in
        subst (λ c. new_rank ok.rank id ok.bound c < ok.bound + 1) (sym same) (omega arith)
    | inr other ↦
        let old = old_rank ok.rank id ok.bound c other in
        let less = ok.below c d (sym (insert_other env.consts id def c other) ∙ known) in
        omega arith
  ]

  insert_earlier :
      refs_unknown_const def.body env.consts id ≡ false
      → (c : ℕ) (d : Definition) → insert env.consts id def c ≡ some d
      → (k : ℕ) → mentions k d.body ≡ true
      → (is_some (insert env.consts id def k) ≡ true)
        × (new_rank ok.rank id ok.bound k < new_rank ok.rank id ok.bound c)
  insert_earlier good c d known k m = elim (same_or_not c id) [
    | inl same ↦
        let (there, ne) =
          refs-mentions def.body env.consts id k good
            (subst (λ d. mentions k d.body ≡ true) (sym (def_of same)) m) in
        let top = top_rank ok.rank id ok.bound in
        let old = old_rank ok.rank id ok.bound k ne in
        let less = known_rank env ok k there in
        (
          is_some-insert env.consts id def k there,
          subst (λ c. new_rank ok.rank id ok.bound k < new_rank ok.rank id ok.bound c) (sym same)
              (omega arith),
        )
    | inr other ↦
        let (there, less) =
          ok.earlier c d (sym (insert_other env.consts id def c other) ∙ known) k m in
        let old_c = old_rank ok.rank id ok.bound c other in
        let old_k = old_rank ok.rank id ok.bound k (fresh_of_known k there) in
        (is_some-insert env.consts id def k there, omega arith)
  ]
    where
      def_of : c ≡ id → def ≡ d
      def_of e = cc (insert_self env.consts id def)

add_const-IsAcyclic :
    (env : GlobalEnv) (id : ℕ) (ty body : Tm)
    → IsAcyclic env
    → IsAcyclic (add_const env id ty body).0
unfolding add_const
add_const-IsAcyclic env id ty body ok = elim (Bool-cases (is_some (env.consts id))) [
  | inl there ↦ rw (there, add_const) ok
  | inr fresh ↦ elim (Bool-cases (refs_unknown_const body env.consts id)) [
    | inl bad ↦ rw (fresh, bad, add_const) ok
    | inr good ↦
        rw (fresh, good, add_const)
          (record {
            rank = new_rank ok.rank id ok.bound;
            bound = ok.bound + 1;
            below = insert_below env id (record { ty = ty; body = body }) ok fresh;
            earlier = insert_earlier env id (record { ty = ty; body = body }) ok fresh good;
          })
  ]
]

add_inductive_consts :
    (net_conv : Tm → Tm → Option Bool) (fuel : ℕ) (env : GlobalEnv) (decl : Inductive)
    → Yields
        (λ (r : GlobalEnv × Option AdmitError). r.0.consts ≡ env.consts)
        (add_inductive net_conv fuel env decl)
unfolding add_inductive
add_inductive_consts net_conv fuel env decl =
    if-Yields (is_some (env.inds decl.id)) (λ e. yields refl)
      (λ e. then-Yields _ (λ o. either_verdict o))
  where
    either_verdict :
        (o : Option AdmitError)
        → Yields
            (λ (r : GlobalEnv × Option AdmitError). r.0.consts ≡ env.consts)
            (elim o [ none ↦ done (with_recursor env decl, none) | some e ↦ done (env, some e) ])
    either_verdict none = yields refl
    either_verdict (some e) = yields refl

-- The environments that are built from the empty one.
pub data Built (net_conv : Tm → Tm → Option Bool) : GlobalEnv → Type 0 where
  built_empty : Built net_conv empty_env
  built_const :
      {env : GlobalEnv} (id : ℕ) (ty body : Tm)
      → Built net_conv env
      → Built net_conv (add_const env id ty body).0
  built_inductive :
      {env env' : GlobalEnv} {o : Option AdmitError} (fuel : ℕ) (decl : Inductive)
      → Built net_conv env
      → add_inductive net_conv fuel env decl ≡ done (env', o)
      → Built net_conv env'

-- In every environment that is built from the empty one by `add_const` and `add_inductive`,
-- accepted or refused, the constants have an order in which the body of each mentions known and
-- earlier ones only, so that unfolding constants ends.
pub Built-IsAcyclic :
    (net_conv : Tm → Tm → Option Bool) (env : GlobalEnv) → Built net_conv env → IsAcyclic env
Built-IsAcyclic net_conv _ built_empty = record {
  rank = λ c. 0;
  bound = 0;
  below = λ c d e. cc;
  earlier = λ c d e k m. cc;
}
Built-IsAcyclic net_conv _ (built_const {env} id ty body b) =
    add_const-IsAcyclic env id ty body (Built-IsAcyclic net_conv env b)
Built-IsAcyclic net_conv env' (built_inductive {env} fuel decl b e) =
    let ok = Built-IsAcyclic net_conv env b in
    same_consts env env' (done-Yields (add_inductive_consts net_conv fuel env decl) e) ok
  where
    same_consts : (env env' : GlobalEnv) → env'.consts ≡ env.consts → IsAcyclic env → IsAcyclic env'
    same_consts env env' e ok = record {
      rank = ok.rank;
      bound = ok.bound;
      below = λ c d known. ok.below c d (ap (λ m. m c) (sym e) ∙ known);
      earlier = λ c d known k m.
          let (there, less) = ok.earlier c d (ap (λ m. m c) (sym e) ∙ known) k m in
          (subst (λ f. is_some (f k) ≡ true) (sym e) there, less);
    }
