-- ===== src/Kernel/Rules/Sorts.antt =====
-- The sorts of crates/dnx-proof/src/universe.rs under the typing rules: their reducts and their types.
use dnet.Prelude.{◌≡◌, refl, sym, ap, ◌∙◌, List, [], ◌∷◌, arith}
use dnet.Kernel.Term.{
  Tm, Level, var, sort, pi, lam, app, const, ind, ctor, elim_of, succ, is_open, needs_typed_conv,
  apply,
}
use dnet.Kernel.Env.{GlobalEnv, Ctx}
use dnet.Kernel.Rules.{
  Reduces, red_refl, red_trans, red_pi, red_lam, red_app, red_beta, red_delta, red_eta, red_iota,
  Conv, common_reduct, alike_reducts, HasType, type_reduces, type_var, type_sort, type_pi, type_lam,
  type_app, type_const, type_ind, type_ctor, type_elim,
}

unfoldable pub head : Tm → Tm
head (app f x) = head f
head (var i) = var i
head (sort l) = sort l
head (pi a b) = pi a b
head (lam a b) = lam a b
head (const c) = const c
head (ind i) = ind i
head (ctor i k) = ctor i k
head (elim_of i) = elim_of i

pub head-apply : (h : Tm) (args : List Tm) → head (apply h args) ≡ head h
unfolding apply head
head-apply h [] = refl
head-apply h (a ∷ args) = head-apply (app h a) args

module _ (env : GlobalEnv) where
  sort_kept : {ctx : Ctx} {t u : Tm} (l : Level) → Reduces env ctx t u → t ≡ sort l → u ≡ sort l
  unfolding head
  sort_kept l (red_refl t) e = e
  sort_kept l (red_trans r s) e = sort_kept l s (sort_kept l r e)
  sort_kept l (red_pi r s) e = cc
  sort_kept l (red_lam r s) e = cc
  sort_kept l (red_app r s) e = cc
  sort_kept l (red_beta a b x) e = cc
  sort_kept l (red_delta known) e = cc
  sort_kept l (red_eta a f unused) e = cc
  sort_kept l (red_iota {i = i} k c args cargs known enough at is minor) e =
      let stuck : elim_of i ≡ sort l = sym (head-apply (elim_of i) args) ∙ ap head e in cc

  -- Sorts that are convertible are the same.
  pub sort-Conv : {ctx : Ctx} (l m : Level) → Conv env ctx (sort l) (sort m) → l ≡ m
  unfolding is_open needs_typed_conv
  sort-Conv l m (alike_reducts pure_l pure_m r s same) = cc
  sort-Conv l m (common_reduct r s) =
      let left = sort_kept l r refl in
      let right = sort_kept m s refl in let same : sort l ≡ sort m = sym left ∙ right in cc

  sort_typed :
      {ctx : Ctx} {t a : Tm} (l : Level) → HasType env ctx t a → t ≡ sort l → a ≡ sort (succ l)
  sort_typed l (type_reduces has r) e = sort_kept (succ l) r (sort_typed l has e)
  sort_typed l (type_var found) e = cc
  sort_typed l (type_sort m) e = let same : m ≡ l = cc in ap (λ m. sort (succ m)) same
  sort_typed l (type_pi a b) e = cc
  sort_typed l (type_lam a b) e = cc
  sort_typed l (type_app f x) e = cc
  sort_typed l (type_const known) e = cc
  sort_typed l (type_ind known) e = cc
  sort_typed l (type_ctor known found) e = cc
  sort_typed l (type_elim lm known) e = cc

  -- A sort has the next sort as its only type.
  pub sort-HasType :
      {ctx : Ctx} (l : Level) (a : Tm) → HasType env ctx (sort l) a → a ≡ sort (succ l)
  sort-HasType l a has = sort_typed l has refl

  -- No sort is of its own type.
  pub sort-sort : {ctx : Ctx} (l : Level) → ¬ HasType env ctx (sort l) (sort l)
  unfolding succ
  sort-sort l has =
      let e : sort l ≡ sort (succ l) = sort-HasType l (sort l) has in
      let same : l ≡ succ l = cc in absurd (omega (arith, same))
