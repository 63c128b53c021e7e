-- ===== src/Tests/Kernel.antt =====
-- The theorems on the proof kernel at the natural numbers and a function on them.
use dnet.Prelude.{subst, sym, ◌≡◌, ◌||◌, false, refl, true, Bool, List, Option, none, some, [], ◌∷◌}
use dnet.Kernel.Term.{
  Tm, var, pi, lam, app, const, ind, ctor, elim_of, spine, spine_from, telescope, is_open, apply,
  needs_typed_conv, same_tm, same_tm→eq, subst_tm, head_is_ind, shift, occurs_var, le,
}
use dnet.Kernel.Env.{GlobalEnv, Inductive}
use dnet.Kernel.Run.{done, fails, mismatch}
use dnet.Kernel.Reduce.{conv}
use dnet.Kernel.Check.{kernel, ind_type, find_ctor, ctor_type}
use dnet.Kernel.Recursor.{recursor_type, ind_app, minor_type, ind_indices, vars_down}
use dnet.Prelude.Int.{◌+ℤ◌}
use dnet.Kernel.Rules.{Conv, common_reduct, Reduces, red_refl, HasType}
use dnet.Kernel.Sound.{infer-HasType, kernel-conv-Conv}
use dnet.Kernel.Admit.Constants.{
  IsAcyclic, built_empty, built_const, built_inductive, Built-IsAcyclic,
}
use dnet.Kernel.Admit.Inductives.{Admission, add_inductive-Admission}
use dnet.Kernel.Admit.{add_const, add_inductive, with_recursor, empty_env, insert}

-- A net that answers whether the terms are the same.
abbrev same_net : Tm → Tm → Option Bool
same_net t u = some (same_tm t u)

same_net_sound :
    (env : GlobalEnv) (ctx : List Tm) (t u : Tm)
    → (is_open t 0 || needs_typed_conv t) ≡ false
    → (is_open u 0 || needs_typed_conv u) ≡ false
    → same_net t u ≡ some true
    → Conv env ctx t u
same_net_sound env ctx t u _ _ e =
    let same : same_tm t u ≡ true = cc in
    common_reduct (red_refl t)
      (subst (λ v. Reduces env ctx u v) (sym (same_tm→eq t u same)) (red_refl u))

abbrev nat : Inductive
nat = record {
  id = 0;
  params = [];
  indices = [];
  universe = 0;
  ctors =
      record { ctor_ix = 0; args = []; ret_indices = [] }
      ∷ record { ctor_ix = 1; args = ind 0 ∷ []; ret_indices = [] }
      ∷ [];
}

abbrev nat_env : GlobalEnv
nat_env = with_recursor empty_env nat

nat_admitted : add_inductive same_net 20 empty_env nat ≡ done (nat_env, none)
unfolding add_inductive kernel spine spine_from insert ind_type telescope le apply vars_down
nat_admitted = refl

-- Twice a number, by recursion.
abbrev twice : Tm → Tm
twice n =
    app
      (app (app (app (elim_of 0) (lam (ind 0) (ind 0))) (ctor 0 0))
        (lam (ind 0) (lam (ind 0) (app (ctor 0 1) (app (ctor 0 1) (var 0))))))
      n

abbrev one : Tm
one = app (ctor 0 1) (ctor 0 0)

type_of_twice :
    (kernel nat_env same_net 40).infer [] (twice one) ≡ done (app (lam (ind 0) (ind 0)) one)
unfolding kernel spine spine_from insert ind_type telescope recursor_type is_open ind_app apply
    needs_typed_conv same_tm subst_tm find_ctor ctor_type minor_type head_is_ind ind_indices
    vars_down shift occurs_var ◌+ℤ◌
type_of_twice = refl

infer-HasType_example : HasType nat_env [] (twice one) (app (lam (ind 0) (ind 0)) one)
infer-HasType_example =
    infer-HasType nat_env same_net (same_net_sound nat_env) 40 [] (twice one)
      (app (lam (ind 0) (ind 0)) one) type_of_twice

abbrev two : Tm
two = app (ctor 0 1) one

both_two : conv nat_env same_net (kernel nat_env same_net 40) [] (twice one) two ≡ done true
unfolding kernel conv is_open needs_typed_conv spine spine_from insert head_is_ind apply subst_tm
    same_tm
both_two = refl

kernel-conv-Conv_example : Conv nat_env [] (twice one) two
kernel-conv-Conv_example =
    kernel-conv-Conv nat_env same_net (same_net_sound nat_env) 40 [] (twice one) two both_two

add_inductive-Admission_example : Admission empty_env nat (nat_env, none)
add_inductive-Admission_example =
    add_inductive-Admission same_net same_net_sound 20 empty_env nat (nat_env, none) nat_admitted

-- The constant 0 is the one, and the constant 1 is twice that.
abbrev with_one : GlobalEnv
with_one = (add_const nat_env 0 (ind 0) one).0

abbrev with_two : GlobalEnv
with_two = (add_const with_one 1 (ind 0) (twice (const 0))).0

Built-IsAcyclic_example : IsAcyclic with_two
unfolding add_const
Built-IsAcyclic_example = Built-IsAcyclic same_net with_two (
    built_const 1 (ind 0) (twice (const 0))
      (built_const 0 (ind 0) one (built_inductive 20 nat built_empty nat_admitted)))

-- A tree with a branch for each number: `sup : (Nat → W) → W`.
abbrev tree : Inductive
tree = record {
  id = 1;
  params = [];
  indices = [];
  universe = 0;
  ctors = record { ctor_ix = 0; args = pi (ind 0) (ind 1) ∷ []; ret_indices = [] } ∷ [];
}

abbrev tree_env : GlobalEnv
tree_env = with_recursor nat_env tree

tree_admitted : add_inductive same_net 20 nat_env tree ≡ done (tree_env, none)
unfolding add_inductive kernel spine spine_from insert ind_type telescope le apply vars_down
tree_admitted = refl

-- The type that its recursor is given has none: it applies the motive to the function.
tree_recursor : (kernel tree_env same_net 20).infer [] (recursor_type tree 0) ≡ fails mismatch
unfolding kernel spine spine_from insert ind_type telescope recursor_type is_open ind_app apply
    needs_typed_conv same_tm subst_tm find_ctor ctor_type minor_type head_is_ind ind_indices
    vars_down shift occurs_var ◌+ℤ◌
tree_recursor = refl
