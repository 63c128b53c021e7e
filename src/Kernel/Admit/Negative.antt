-- ===== src/Kernel/Admit/Negative.antt =====
-- crates/dnx-proof/src/positivity.rs: a field that the test of strict positivity is to refuse, under
-- the rules.
use dnet.Prelude.{ℕ, ◌≡◌, ◌≢◌, ◌∷◌, [], refl, sym, ap, subst, ◌∙◌}
use dnet.Kernel.Term.{Tm, pi, ind, elim_of}
use dnet.Kernel.Rules.Sorts.{head, head-apply}
use dnet.Kernel.Env.{GlobalEnv, Ctx}
use dnet.Kernel.Rules.{
  Reduces, red_refl, red_trans, red_pi, red_lam, red_app, red_beta, red_delta, red_eta, red_iota,
}
use dnet.Kernel.Admit.Positivity.{
  Absent, absent, AbsentIn, absent_pi, absent_ind, Recursive, recursive_ind, recursive_app,
  Positive, positive_absent, positive_pi, positive_recursive,
}

module _ (env : GlobalEnv) (i : ℕ) where
  ind_kept : {ctx : Ctx} {t u : Tm} → Reduces env ctx t u → t ≡ ind i → u ≡ ind i
  unfolding head
  ind_kept (red_refl t) e = e
  ind_kept (red_trans r s) e = ind_kept s (ind_kept r e)
  ind_kept (red_pi r s) e = cc
  ind_kept (red_lam r s) e = cc
  ind_kept (red_app r s) e = cc
  ind_kept (red_beta a b x) e = cc
  ind_kept (red_delta known) e = cc
  ind_kept (red_eta a f unused) e = cc
  ind_kept (red_iota {i = j} k c args cargs known enough at is minor) e =
      let stuck : elim_of j ≡ ind i = sym (head-apply (elim_of j) args) ∙ ap head e in cc

  abbrev Fixed : Tm → Type 0
  Fixed t = (ctx : Ctx) (u : Tm) → Reduces env ctx t u → u ≡ t

  pi_kept :
      {a b : Tm}
      → Fixed a
      → Fixed b
      → {ctx : Ctx} {t u : Tm} → Reduces env ctx t u
      → t ≡ pi a b
      → u ≡ pi a b
  unfolding head
  pi_kept fa fb (red_refl t) e = e
  pi_kept fa fb (red_trans r s) e = pi_kept fa fb s (pi_kept fa fb r e)
  pi_kept {a} {b} fa fb (red_pi {ctx} {a = x} {b = y} {c = v} {d = w} r s) e =
      let same_a : x ≡ a = cc in
      let same_b : y ≡ b = cc in
      let left = fa ctx v (subst (λ t. Reduces env ctx t v) same_a r) in
      let right = fb (x ∷ ctx) w (subst (λ t. Reduces env (x ∷ ctx) t w) same_b s) in cc
  pi_kept fa fb (red_lam r s) e = cc
  pi_kept fa fb (red_app r s) e = cc
  pi_kept fa fb (red_beta a b x) e = cc
  pi_kept fa fb (red_delta known) e = cc
  pi_kept fa fb (red_eta a f unused) e = cc
  pi_kept {a} {b} fa fb (red_iota {i = j} k c args cargs known enough at is minor) e =
      let stuck : elim_of j ≡ pi a b = sym (head-apply (elim_of j) args) ∙ ap head e in cc

  abbrev arrow : Tm
  arrow = pi (ind i) (ind i)

  ind-Fixed : Fixed (ind i)
  ind-Fixed _ _ r = ind_kept r refl

  arrow-Fixed : Fixed arrow
  arrow-Fixed _ _ r = pi_kept ind-Fixed ind-Fixed r refl

  ind_present : {t : Tm} → Absent (Reduces env []) i t → t ≢ ind i
  ind_present (absent t w r inside) e = no inside (ind_kept r e)
    where
      no : {w : Tm} → AbsentIn (Reduces env []) i w → w ≢ ind i
      no (absent_ind other) e = other (cc)
      no _ e = cc

  pi_present :
      {a b : Tm}
      → Fixed a
      → Fixed b
      → ((t : Tm) → Absent (Reduces env []) i t → t ≢ b)
      → {t : Tm} → Absent (Reduces env []) i t
      → t ≢ pi a b
  pi_present {a} {b} fa fb present (absent t w r inside) e = no inside (pi_kept fa fb r e)
    where
      no : {w : Tm} → AbsentIn (Reduces env []) i w → w ≢ pi a b
      no (absent_pi {b = y} left right) e = present y right (cc)
      no _ e = cc

  -- A function that takes the declared type's functions, `(T → T) → T`, is not strictly positive.
  pub negative : ¬ Positive (Reduces env []) i (pi arrow (ind i))
  negative (positive_absent t w r gone) =
      pi_present arrow-Fixed ind-Fixed (λ _. ind_present) gone
        (pi_kept arrow-Fixed ind-Fixed r refl)
  negative (positive_pi t a b r left right) =
      let e = pi_kept arrow-Fixed ind-Fixed r refl in
      pi_present ind-Fixed ind-Fixed (λ _. ind_present) left (cc)
  negative (positive_recursive t w r rec) = no rec (pi_kept arrow-Fixed ind-Fixed r refl)
    where
      no : {w : Tm} → Recursive (Reduces env []) i w → w ≢ pi arrow (ind i)
      no recursive_ind e = cc
      no (recursive_app f x) e = cc
