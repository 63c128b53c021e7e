-- ===== src/Kernel/Recursor.antt =====
-- crates/dnx-proof/src/recursor.rs: the type of a recursor.
use dnet.Prelude.{
  ℕ, zero, suc, ◌+◌, ◌-◌, ◌&&◌, none, some, List, [], ◌∷◌, ◌++◌, ◌==◌, leb, length, get_elem?, drop,
  if◌then◌else◌,
}
use dnet.Prelude.Int.{pos}
use dnet.Kernel.Term.{
  Tm, Level, Telescope, var, sort, pi, app, ind, ctor, shift, apply, telescope, spine, head_is_ind,
}
use dnet.Kernel.Env.{Inductive, CtorDecl}

-- `n` variables, the first `var (base + n - 1)`, down to `var base`.
unfoldable pub vars_down : ℕ → ℕ → List Tm
vars_down zero base = []
vars_down (suc n) base = var (base + n) ∷ vars_down n base

unfoldable pub ind_app : ℕ → ℕ → ℕ → ℕ → Tm
unfolding vars_down
ind_app i p nidx depth_above_params =
    apply (ind i) (vars_down p (nidx + depth_above_params) ++ vars_down nidx 0)

-- The index types, each shifted by `d` above those before it.
shift_tele : Telescope → ℕ → ℕ → Telescope
shift_tele [] d t = []
shift_tele (ty ∷ tele) d t = shift ty (pos d) t ∷ shift_tele tele d (t + 1)

-- The positions from `q` on at which a field is recursive.
rec_positions : ℕ → Telescope → ℕ → List ℕ
rec_positions i [] q = []
rec_positions i (ty ∷ fields) q =
    let rest = rec_positions i fields (q + 1) in if head_is_ind ty i then q ∷ rest else rest

-- `ind_indices`: the arguments behind the parameters, if the type is the inductive type applied.
unfoldable pub ind_indices : Tm → ℕ → ℕ → List Tm
ind_indices field_ty i p = pick (spine field_ty).0 (spine field_ty).1
  where
    pick : Tm → List Tm → List Tm
    pick (ind j) args = if j == i && leb p (length args) then drop p args else []
    pick _ args = []

shift_twice : List Tm → ℕ → ℕ → ℕ → List Tm
shift_twice [] d e cutoff = []
shift_twice (t ∷ l) d e cutoff = shift (shift t (pos d) 0) (pos e) cutoff ∷ shift_twice l d e cutoff

-- The hypothesis for the recursive field `q`, of type `fty`, under `j` hypotheses.
hypothesis : Inductive → ℕ → ℕ → ℕ → ℕ → Tm → Tm
unfolding shift_twice
hypothesis decl k m j q fty =
    let idxs = ind_indices fty decl.id (length decl.params) in
    app (apply (var (m + j + k)) (shift_twice idxs (j + m - q) (k + 1) (j + m)))
      (var (j + (m - 1 - q)))

-- The binders of the hypotheses from the `j`th on, and the body behind them.
hypotheses : Inductive → ℕ → Telescope → ℕ → ℕ → List ℕ → Tm → Tm
unfolding hypothesis
hypotheses decl k fields m j [] body = body
hypotheses decl k fields m j (q ∷ recs) body = elim (get_elem? fields q) [
  | none ↦ hypotheses decl k fields m (j + 1) recs body
  | some fty ↦ pi (hypothesis decl k m j q fty) (hypotheses decl k fields m (j + 1) recs body)
]

unfoldable pub minor_type : Inductive → ℕ → CtorDecl → Tm
unfolding rec_positions hypotheses shift_tele vars_down shift_twice
minor_type decl k c =
    let p = length decl.params in
    let m = length c.args in
    let recs = rec_positions decl.id c.args 0 in
    let r = length recs in
    let ret_args = shift_twice c.ret_indices r (k + 1) (r + m) in
    let made = apply (apply (ctor decl.id k) (vars_down p (m + r + k + 1))) (vars_down m r) in
    let body = app (apply (var (m + r + k)) ret_args) made in
    telescope (shift_tele c.args (k + 1) 0) (hypotheses decl k c.args m 0 recs body)

minors : Inductive → ℕ → List CtorDecl → Telescope
minors decl k [] = []
minors decl k (c ∷ ctors) = minor_type decl k c ∷ minors decl (k + 1) ctors

unfoldable pub recursor_type : Inductive → Level → Tm
unfolding minors shift_tele vars_down
recursor_type decl lm =
    let i = decl.id in
    let p = length decl.params in
    let c = length decl.ctors in
    let nidx = length decl.indices in
    let result = apply (var (1 + nidx + c)) (vars_down nidx 1 ++ var 0 ∷ []) in
    let indexed =
      telescope (shift_tele decl.indices (1 + c) 0) (pi (ind_app i p nidx (1 + c)) result) in
    let motive_ty = telescope decl.indices (pi (ind_app i p nidx 0) (sort lm)) in
    telescope decl.params (pi motive_ty (telescope (minors decl 0 decl.ctors) indexed))
