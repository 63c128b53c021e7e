-- ===== src/Net/Ordered.antt =====
-- `BTreeMap<LOPath, V>`, as the frontiers use it: entries in the order of their keys.
use dnet.Prelude.{Ordering, Option, none, some, List, [], ◌∷◌}
use dnet.LoPath.{LoPath, cmp}

abbrev pub Frontier {ℓ} : Type ℓ → Type ℓ
Frontier V = List (LoPath × V)

module _ {ℓ} {V : Type ℓ} where
  -- A key that is there keeps its place, and its value is replaced.
  unfoldable pub insert : LoPath → V → Frontier V → Frontier V
  insert lo v [] = (lo, v) ∷ []
  insert lo v ((k, w) ∷ m) = elim (cmp lo k) [
    | Ordering.lt ↦ (lo, v) ∷ (k, w) ∷ m
    | Ordering.eq ↦ (k, v) ∷ m
    | Ordering.gt ↦ (k, w) ∷ insert lo v m
  ]

  unfoldable pub pop_first : Frontier V → Option ((LoPath × V) × Frontier V)
  pop_first [] = none
  pop_first (e ∷ m) = some (e, m)
