-- ===== src/Elab/Pass0/Order.antt =====
-- The search for cycles (crates/dnx-elab/src/pass0.rs) ends, and what it passes is in an order in which
-- each definition refers to earlier ones.
use Prim.Native.String.{String}
use text.Mathlib.Text.{◌==◌ as str_eq}
use text.Mathlib.TextPositions.{eq_refl}
use dnet.Prelude.{
  ℕ, zero, suc, ◌+◌, ◌≤◌, ◌<◌, ◌≡◌, inl, inr, refl, ap, Bool, true, false, ◌||◌, Bool-cases, List,
  [], ◌∷◌, length, arith,
}
use dnet.Elab.Pass0.{
  Defs, get, contains, keys, refs_of, Checked, passed, cyclic, check_all, dfs_check, topo_check,
  ◌>>=◌,
}
use dnet.Elab.Pass0.Refs.{In, Within, contains-In, refs_of-keys}

one_if : Bool → ℕ
one_if true = 0
one_if false = 1

-- How many keys are not being visited.
rest : List String → List String → ℕ
rest [] vis = 0
rest (k ∷ ks) vis = one_if (contains k vis) + rest ks vis

rest-le : (ks vis : List String) → rest ks vis ≤ length ks
unfolding rest one_if
rest-le [] vis = omega arith
rest-le (k ∷ ks) vis = on (contains k vis) (rest-le ks vis)
  where
    on : (b : Bool) → rest ks vis ≤ length ks → one_if b + rest ks vis ≤ suc (length ks)
    on true le = omega arith
    on false le = omega arith

one_if-le :
    (x k : String) (vis : List String) → one_if (contains k (x ∷ vis)) ≤ one_if (contains k vis)
unfolding one_if contains
one_if-le x k vis = on (str_eq x k) (contains k vis)
  where
    on : (a b : Bool) → one_if (a || b) ≤ one_if b
    on true true = omega arith
    on true false = omega arith
    on false b = omega arith

rest_mono : (ks vis : List String) (x : String) → rest ks (x ∷ vis) ≤ rest ks vis
unfolding rest
rest_mono [] vis x = omega arith
rest_mono (k ∷ ks) vis x = omega (arith, rest_mono ks vis x, one_if-le x k vis)

rest-lt :
    (ks vis : List String) (x : String)
    → In x ks
    → contains x vis ≡ false
    → rest ks (x ∷ vis) < rest ks vis
unfolding rest contains one_if
rest-lt [] vis x h new = elim h [ ]
rest-lt (k ∷ ks) vis x (inl e) new =
    let less = rest_mono ks vis x in rw (← e) (rw (eq_refl x, new) (omega arith))
rest-lt (k ∷ ks) vis x (inr h) new =
    let head = one_if-le x k vis in omega (arith, rest-lt ks vis x h new)

module _ {V F : Type 0} (defs : Defs V F) where
  -- Each name's definition refers to names behind it.
  abbrev pub Ranked : List String → Type 0
  Ranked [] = Unit
  Ranked (x ∷ v) = Within (refs_of defs (get x defs)) v × Ranked v

  -- Each name is referred to by the definition of the one behind it.
  abbrev pub Chain : List String → Type 0
  Chain [] = Unit
  Chain (x ∷ []) = Unit
  Chain (x ∷ y ∷ l) = In x (refs_of defs (get y defs)) × Chain (y ∷ l)

  -- A chain of names, the definition of the first of which refers to one of them.
  abbrev pub Cycle : List String → Type 0
  Cycle l = (x : String) × In x l × Chain (x ∷ l)

  data Found (x : String) (v : List String) : Checked (List String) → Type 0 where
    found : {v' : List String} → Ranked v' → In x v' → Within v v' → Found x v (passed v')
    loops : {l : List String} → Cycle l → Found x v (cyclic l)

  -- What the check of a list of names comes to.
  pub data FoundAll (l v : List String) : Checked (List String) → Type 0 where
    found_all :
        {v' : List String} → Ranked v' → Within l v' → Within v v' → FoundAll l v (passed v')
    loop_in : {c : List String} → Cycle c → FoundAll l v (cyclic c)

  check_all-FoundAll :
      (check : String → List String → Checked (List String)) (l v : List String)
      → ((d : String) (v : List String) → In d l → Ranked v → Found d v (check d v))
      → Ranked v
      → FoundAll l v (check_all check l v)
  unfolding check_all
  check_all-FoundAll check [] v each r = found_all r (λ x h. elim h [ ]) (λ x h. h)
  check_all-FoundAll check (d ∷ l) v each r =
      first (λ v' r'. check_all-FoundAll check l v' (λ e w h. each e w (inr h)) r')
        (each d v (inl refl) r)
    where
      second :
          {v' : List String} {c : Checked (List String)}
          → In d v'
          → Within v v'
          → FoundAll l v' c
          → FoundAll (d ∷ l) v c
      second {v'} at sub (found_all r all sub') =
          found_all r (λ x h. elim h [ inl e ↦ rw e (sub' d at) | inr h ↦ all x h ])
            (λ x h. sub' x (sub x h))
      second at sub (loop_in c) = loop_in c

      first :
          {c : Checked (List String)}
          → ((v' : List String) → Ranked v' → FoundAll l v' (check_all check l v'))
          → Found d v c
          → FoundAll (d ∷ l) v (c >>= λ v'. check_all check l v')
      first next (found {v'} r at sub) = second at sub (next v' r)
      first next (loops c) = loop_in c

  dfs_check-Found :
      (fuel : ℕ) (visiting : List String) (x : String) (v : List String)
      → In x (keys defs)
      → Ranked v
      → Chain (x ∷ visiting)
      → rest (keys defs) visiting < fuel
      → Found x v (dfs_check fuel defs visiting x v)
  unfolding dfs_check
  dfs_check-Found zero visiting x v key r chain fits = absurd (omega arith)
  dfs_check-Found (suc fuel) visiting x v key r chain fits =
      elim (Bool-cases (contains x visiting)) [
        | inl again ↦ rw again (loops (x, contains-In x visiting again, chain))
        | inr new ↦ elim (Bool-cases (contains x v)) [
          | inl old ↦ rw (new, old) (found r (contains-In x v old) (λ y h. h))
          | inr fresh ↦
              let less = rest-lt (keys defs) visiting x key new in
              rw (new, fresh)
                (close (
                  check_all-FoundAll (dfs_check fuel defs (x ∷ visiting))
                    (refs_of defs (get x defs)) v
                    (λ d w h ranked.
                      dfs_check-Found fuel (x ∷ visiting) d w (refs_of-keys defs (get x defs) d h)
                        ranked (h, chain) (omega arith))
                    r))
        ]
      ]
    where
      close :
          {c : Checked (List String)}
          → FoundAll (refs_of defs (get x defs)) v c
          → Found x v (c >>= λ v'. passed (x ∷ v'))
      close (found_all r all sub) = found (all, r) (inl refl) (λ y h. inr (sub y h))
      close (loop_in c) = loops c

  length-keys : (l : Defs V F) → length (keys l) ≡ length l
  unfolding keys
  length-keys [] = refl
  length-keys ((x, t) ∷ l) = ap suc (length-keys l)

  -- With a turn more than there are definitions the search ends.
  pub topo_check-FoundAll : FoundAll (keys defs) [] (topo_check (suc (length defs)) defs)
  unfolding topo_check
  topo_check-FoundAll =
      let few = rest-le (keys defs) [] in
      let long = length-keys defs in
      check_all-FoundAll (dfs_check (suc (length defs)) defs []) (keys defs) []
        (λ d v h r. dfs_check-Found (suc (length defs)) [] d v h r tt (omega arith)) tt
