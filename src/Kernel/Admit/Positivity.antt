-- ===== src/Kernel/Admit/Positivity.antt =====
-- crates/dnx-proof/src/positivity.rs: what the test of strict positivity accepts is strictly positive.
use dnet.Prelude.{ℕ, zero, suc, ◌≡◌, ◌≢◌, subst, Bool, true, false, arith, if◌then◌else◌}
use dnet.Kernel.Term.{Tm, var, sort, pi, lam, app, const, ind, ctor, elim_of}
use dnet.Kernel.Run.{
  Run, done, ◌>>=◌, Yields, yields, yields_later, >>=-Yields, if-Yields, Yields-map,
}
use dnet.Kernel.Admit.{
  or_else, and_not, occurs_in, occurs, valid_ind_app, positive_in, strictly_positive,
}

module _ (Reduces : Tm → Tm → Type 0) (i : ℕ) where
  mutual
    -- The inductive type does not occur in what the term reduces to.
    pub data Absent : Tm → Type 0 where
      absent : (t w : Tm) → Reduces t w → AbsentIn w → Absent t

    pub data AbsentIn : Tm → Type 0 where
      absent_pi : {a b : Tm} → Absent a → Absent b → AbsentIn (pi a b)
      absent_lam : {a b : Tm} → Absent a → Absent b → AbsentIn (lam a b)
      absent_app : {a b : Tm} → Absent a → Absent b → AbsentIn (app a b)
      absent_ind : {j : ℕ} → j ≢ i → AbsentIn (ind j)
      absent_var : {n : ℕ} → AbsentIn (var n)
      absent_sort : {l : ℕ} → AbsentIn (sort l)
      absent_const : {c : ℕ} → AbsentIn (const c)
      absent_ctor : {j k : ℕ} → AbsentIn (ctor j k)
      absent_elim : {j : ℕ} → AbsentIn (elim_of j)

  -- The inductive type applied to arguments in which it does not occur.
  pub data Recursive : Tm → Type 0 where
    recursive_ind : Recursive (ind i)
    recursive_app : {f x : Tm} → Recursive f → Absent x → Recursive (app f x)

  -- The type occurs only as what a function of the argument returns.
  pub data Positive : Tm → Type 0 where
    positive_absent : (t w : Tm) → Reduces t w → Absent w → Positive t
    positive_pi : (t a b : Tm) → Reduces t (pi a b) → Absent a → Positive b → Positive t
    positive_recursive : (t w : Tm) → Reduces t w → Recursive w → Positive t

  module _ (whnf : Tm → Run Tm) (reduces : (t : Tm) → Yields (Reduces t) (whnf t)) where
    or_else-Yields :
        {P Q : Type 0} {m n : Run Bool}
        → Yields (λ b. b ≡ false → P) m
        → Yields (λ b. b ≡ false → Q) n
        → Yields (λ b. b ≡ false → P × Q) (or_else m n)
    unfolding or_else
    or_else-Yields p q =
        >>=-Yields p
          (λ b f. if-Yields b (λ e. yields (λ e. cc)) (λ e. Yields-map (λ b g e'. (f e, g e')) q))

    and_not-Yields :
        {P Q : Type 0} {m n : Run Bool}
        → Yields (λ b. b ≡ false → P) m
        → Yields (λ b. b ≡ true → Q) n
        → Yields (λ b. b ≡ true → P × Q) (and_not m n)
    unfolding and_not
    and_not-Yields p q =
        >>=-Yields p
          (λ b f. if-Yields b (λ e. yields (λ e. cc)) (λ e. Yields-map (λ b g e'. (f e, g e')) q))

    occurs_in-Absent :
        (self : Tm → Run Bool)
        → ((t : Tm) → Yields (λ b. b ≡ false → Absent t) (self t))
        → (t : Tm) → Yields (λ b. b ≡ false → AbsentIn t) (occurs_in whnf i self t)
    unfolding occurs_in
    occurs_in-Absent self ok (ind j) = yields (λ e. absent_ind (ground arith))
    occurs_in-Absent self ok (pi a b) =
        Yields-map (λ b f e. absent_pi (f e).0 (f e).1) (or_else-Yields (ok a) (ok b))
    occurs_in-Absent self ok (lam a b) =
        Yields-map (λ b f e. absent_lam (f e).0 (f e).1) (or_else-Yields (ok a) (ok b))
    occurs_in-Absent self ok (app a b) =
        Yields-map (λ b f e. absent_app (f e).0 (f e).1) (or_else-Yields (ok a) (ok b))
    occurs_in-Absent self ok (var n) = yields (λ e. absent_var)
    occurs_in-Absent self ok (sort n) = yields (λ e. absent_sort)
    occurs_in-Absent self ok (const n) = yields (λ e. absent_const)
    occurs_in-Absent self ok (ctor n k) = yields (λ e. absent_ctor)
    occurs_in-Absent self ok (elim_of n) = yields (λ e. absent_elim)

    occurs-Absent : (fuel : ℕ) (t : Tm) → Yields (λ b. b ≡ false → Absent t) (occurs whnf i fuel t)
    unfolding occurs
    occurs-Absent zero t = yields_later
    occurs-Absent (suc fuel) t = >>=-Yields (reduces t) (λ w r.
        Yields-map (λ b f e. absent t w r (f e))
          (occurs_in-Absent (occurs whnf i fuel) (occurs-Absent fuel) w))

    valid_ind_app-Recursive :
        (fuel : ℕ) (t : Tm) → Yields (λ b. b ≡ true → Recursive t) (valid_ind_app whnf i fuel t)
    unfolding valid_ind_app
    valid_ind_app-Recursive fuel (app f x) =
        Yields-map (λ b g e. recursive_app (g e).1 (g e).0)
          (and_not-Yields (occurs-Absent fuel x) (valid_ind_app-Recursive fuel f))
    valid_ind_app-Recursive fuel (ind j) =
        yields (λ e. subst (λ j. Recursive (ind j)) {x = i} (ground arith) recursive_ind)
    valid_ind_app-Recursive fuel _ = yields (λ e. cc)

    no_pi-Positive :
        (fuel : ℕ) (t w : Tm)
        → Reduces t w
        → Yields
            (λ b. b ≡ true → Positive t)
            (occurs whnf i fuel w >>= λ b. if b then valid_ind_app whnf i fuel w else done true)
    no_pi-Positive fuel t w r = >>=-Yields (occurs-Absent fuel w) (λ b f.
        if-Yields b
          (λ e.
            Yields-map (λ b g e. positive_recursive t w r (g e)) (valid_ind_app-Recursive fuel w))
          (λ e. yields (λ e'. positive_absent t w r (f e))))

    positive_in-Positive :
        (fuel : ℕ) (self : Tm → Run Bool)
        → ((t : Tm) → Yields (λ b. b ≡ true → Positive t) (self t))
        → (t w : Tm) → Reduces t w
        → Yields (λ b. b ≡ true → Positive t) (positive_in whnf i fuel self w)
    unfolding positive_in
    positive_in-Positive fuel self ok t (pi a b) r =
        Yields-map (λ c g e. positive_pi t a b r (g e).0 (g e).1)
          (and_not-Yields (occurs-Absent fuel a) (ok b))
    positive_in-Positive fuel self ok t w r = no_pi-Positive fuel t w r

    pub strictly_positive_lem :
        (fuel : ℕ) (t : Tm) → Yields (λ b. b ≡ true → Positive t) (strictly_positive whnf i fuel t)
    unfolding strictly_positive
    strictly_positive_lem zero t = yields_later
    strictly_positive_lem (suc fuel) t = >>=-Yields (reduces t) (λ w r.
        positive_in-Positive fuel (strictly_positive whnf i fuel) (strictly_positive_lem fuel) t w
          r)
