-- ===== src/CanonHash/Total.antt =====
-- The canonical bytes of a safe net (crates/dnx-core/src/canonical_hash.rs): the walk ends, and each
-- wire that is written leads to an agent that the walk has come to.
use dnet.Prelude.{
  ℕ, zero, suc, ◌+◌, ◌*◌, ◌%◌, ◌^◌, ◌≤◌, ◌≡◌, ◌⊎◌, refl, sym, ap, ◌∙◌, subst, true, false, ◌||◌,
  some, Option-cases, List, [], ◌∷◌, ◌++◌, arith, ◌==◌, length, length-append, get_elem?,
  Bool-cases, inl, inr,
}
use dnet.Error.{Result, ok}
use dnet.Arena.Live.{Has}
use dnet.Arena.Alloc.{get_elem?-in}
use dnet.Port.{PortId, PortKind, principal, aux0, aux1, slot_idx, port_kind, is_eraser, is_null}
use dnet.Slot.{Slot, is_free, is_fan, is_rep}
use dnet.Net.{Net, field, peer}
use dnet.Net.Safe.{size, InNet, IsSafe, IsWired}
use dnet.CanonHash.Peers.{slot_at-eq, port_of-Plain, peer-eq}
use dnet.CanonHash.Count.{open_slots, assign-here, assign-open}
use dnet.CanonHash.{IdxMap, assign, port_of, children, pushed, dfs_assign}

module _ (n : Net) (safe : IsSafe n) where
  field-in : (k : PortKind) (s : Slot) → IsWired n s → InNet n (field k s)
  field-in principal s w = w.at_principal
  field-in aux0 s w = w.at_aux0
  field-in aux1 s w = w.at_aux1

  -- The other end of a wire is found.
  pub peer-in : (r : PortId) → InNet n r → (q : PortId) × (peer r n ≡ (ok q, n)) × InNet n q
  unfolding peer
  peer-in r at = elim (Bool-cases (is_eraser r)) [
    | inl era ↦ (r, rw era refl, at)
    | inr agent ↦ elim (Bool-cases (is_null r)) [
      | inl nul ↦ (r, rw (agent, nul) refl, at)
      | inr live ↦
          let (s, e) = get_elem?-in n.arena.slots (slot_idx r) at in
          (
            field (port_kind r) s,
            peer-eq n r agent live e,
            field-in (port_kind r) s (safe.wired (slot_idx r) s e),
          )
    ]
  ]

  pub kind-in : (p : PortId) (k : PortKind) → InNet n p → InNet n (port_of p k)
  kind-in p k at =
      let plain = port_of-Plain p k (omega (arith, safe.small)) in omega (arith, plain.same_slot)

  abbrev pub Branching : Slot → Type 0
  Branching s = (is_free s ≡ false) × ((is_fan s || is_rep s) ≡ true)

  -- What is pushed for an agent: the peers of its ports, three at most.
  record Pushes (p : PortId) (s : Slot) (more : List PortId) : Type 0 where
    few : length more ≤ 3
    more_in : (q : PortId) → Has q more → InNet n q
    all_peers :
        Branching s → (k : PortKind) (q : PortId) → peer (port_of p k) n ≡ (ok q, n) → Has q more

  same-peer : {q r : PortId} {x : Result PortId × Net} → x ≡ (ok q, n) → x ≡ (ok r, n) → r ≡ q
  same-peer {q} {r} e e' =
      let both : ◌≡◌ {A = Result PortId} (ok q) (ok r) = ap (λ x. x.0) (sym e ∙ e') in cc

  children-Pushes :
      (p : PortId) (s : Slot)
      → InNet n p
      → (more : List PortId) × (children p n ≡ (ok more, n)) × Pushes p s more
  unfolding children
  children-Pushes p s at =
      let (a1, e1, in1) = peer-in (port_of p aux1) (kind-in p aux1 at) in
      let (a0, e0, in0) = peer-in (port_of p aux0) (kind-in p aux0 at) in
      let (a, e, in') = peer-in (port_of p principal) (kind-in p principal at) in
      (
        a ∷ a0 ∷ a1 ∷ [],
        rw (e1, e0, e) refl,
        record { few = omega arith; more_in = inside in' in0 in1; all_peers = λ b. peers e e0 e1 },
      )
    where
      inside :
          {a a0 a1 : PortId}
          → InNet n a
          → InNet n a0
          → InNet n a1
          → (q : PortId) → Has q (a ∷ a0 ∷ a1 ∷ [])
          → InNet n q
      inside h h0 h1 q (inl e) = rw e h
      inside h h0 h1 q (inr (inl e)) = rw e h0
      inside h h0 h1 q (inr (inr (inl e))) = rw e h1
      inside h h0 h1 q (inr (inr (inr f))) = elim f [ ]

      peers :
          {a a0 a1 : PortId}
          → peer (port_of p principal) n ≡ (ok a, n)
          → peer (port_of p aux0) n ≡ (ok a0, n)
          → peer (port_of p aux1) n ≡ (ok a1, n)
          → (k : PortKind) (q : PortId) → peer (port_of p k) n ≡ (ok q, n)
          → Has q (a ∷ a0 ∷ a1 ∷ [])
      peers e e0 e1 principal q is = inl (same-peer e is)
      peers e e0 e1 aux0 q is = inr (inl (same-peer e0 is))
      peers e e0 e1 aux1 q is = inr (inr (inl (same-peer e1 is)))

  pushed-Pushes :
      (p : PortId) (s : Slot)
      → InNet n p
      → (more : List PortId) × (pushed s p n ≡ (ok more, n)) × Pushes p s more
  unfolding pushed
  pushed-Pushes p s at = elim (Bool-cases (is_free s)) [
    | inl leaf ↦ ([], rw leaf refl, none_pushed (λ b. cc))
    | inr node ↦ elim (Bool-cases (is_fan s || is_rep s)) [
      | inl two ↦ let (more, e, h) = children-Pushes p s at in (more, rw (node, two) e, h)
      | inr other ↦ ([], rw (node, other) refl, none_pushed (λ b. cc))
    ]
  ]
    where
      none_pushed : (Branching s → ⊥) → Pushes p s []
      none_pushed not = record {
        few = omega arith;
        more_in = λ q h. elim h [ ];
        all_peers = λ b. absurd (not b);
      }

  -- A port that needs no further visit: no agent's, or that of an agent with an index.
  unfoldable pub Known : IdxMap → PortId → Type 0
  Known idx q =
      (is_eraser q ≡ true) ⊎ ((is_null q ≡ true) ⊎ ((j : ℕ) × (idx (slot_idx q) ≡ some j)))

  -- What holds between two turns of the walk.
  pub record Walking (idx : IdxMap) (order stack : List PortId) : Type 0 where
    pub stack_in : (q : PortId) → Has q stack → InNet n q
    pub order_in : (p : PortId) → Has p order → InNet n p × (is_eraser p ≡ false)
    pub closed :
        (p : PortId) (s : Slot)
        → Has p order
        → get_elem? n.arena.slots (slot_idx p) ≡ some s
        → Branching s
        → (k : PortKind) (q : PortId) → peer (port_of p k) n ≡ (ok q, n)
        → Known idx q ⊎ Has q stack

  left-Has : (q : PortId) (l r : List PortId) → Has q l → Has q (l ++ r)
  left-Has q [] r h = elim h [ ]
  left-Has q (x ∷ l) r (inl e) = inl e
  left-Has q (x ∷ l) r (inr h) = inr (left-Has q l r h)

  right-Has : (q : PortId) (l r : List PortId) → Has q r → Has q (l ++ r)
  right-Has q [] r h = h
  right-Has q (x ∷ l) r h = inr (right-Has q l r h)

  append-Has : (q : PortId) (l r : List PortId) → Has q (l ++ r) → Has q l ⊎ Has q r
  append-Has q [] r h = inr h
  append-Has q (x ∷ l) r (inl e) = inl (inl e)
  append-Has q (x ∷ l) r (inr h) = elim (append-Has q l r h) [ inl h ↦ inl (inr h) | inr h ↦ inr h ]

  -- The top of the stack is known.
  pass-Walking :
      {idx : IdxMap} {order stack : List PortId} (p : PortId)
      → Known idx p
      → Walking idx order (p ∷ stack)
      → Walking idx order stack
  pass-Walking {idx} p known w = record {
    stack_in = λ q h. w.stack_in q (inr h);
    order_in = w.order_in;
    closed = λ r s h e b k q is. elim (w.closed r s h e b k q is) [
      | inl done ↦ inl done
      | inr (inl top) ↦ inl (subst (Known idx) (sym top) known)
      | inr (inr h) ↦ inr h
    ];
  }

  assign-Known : (idx : IdxMap) (i v : ℕ) (q : PortId) → Known idx q → Known (assign i v idx) q
  unfolding Known
  assign-Known idx i v q (inl e) = inl e
  assign-Known idx i v q (inr (inl e)) = inr (inl e)
  assign-Known idx i v q (inr (inr (j, e))) = elim (Bool-cases (slot_idx q == i)) [
    | inl same ↦ inr (inr (v, rw same refl))
    | inr other ↦ inr (inr (j, rw other e))
  ]

  -- The top of the stack gets an index, and what is behind it is pushed.
  visit-Walking :
      {idx : IdxMap} {order stack : List PortId} (p : PortId) (s : Slot) (v : ℕ)
      (more : List PortId)
      → is_eraser p ≡ false
      → get_elem? n.arena.slots (slot_idx p) ≡ some s
      → Pushes p s more
      → Walking idx order (p ∷ stack)
      → Walking (assign (slot_idx p) v idx) (order ++ p ∷ []) (more ++ stack)
  unfolding Known
  visit-Walking {idx} {order} {stack} p s v more agent here pushes w = record {
    stack_in = λ q h. elim (append-Has q more stack h) [
      | inl h ↦ pushes.more_in q h
      | inr h ↦ w.stack_in q (inr h)
    ];
    order_in = λ q h. elim (append-Has q order (p ∷ []) h) [
      | inl h ↦ w.order_in q h
      | inr (inl e) ↦ (rw e (w.stack_in p (inl refl)), rw e agent)
      | inr (inr f) ↦ elim f [ ]
    ];
    closed = λ r t h e b k q is. elim (append-Has r order (p ∷ []) h) [
      | inl h ↦ elim (w.closed r t h e b k q is) [
        | inl known ↦ inl (assign-Known idx (slot_idx p) v q known)
        | inr (inl top) ↦ inl (
            inr (
              inr (
                v,
                ap (λ q. assign (slot_idx p) v idx (slot_idx q)) top
                    ∙ assign-here idx (slot_idx p) v,
              )))
        | inr (inr h) ↦ inr (right-Has q more stack h)
      ]
      | inr (inl top) ↦
          let e' : get_elem? n.arena.slots (slot_idx p) ≡ some t =
            ap (λ r. get_elem? n.arena.slots (slot_idx r)) (sym top) ∙ e in
          let same : s ≡ t = cc in
          let is' : peer (port_of p k) n ≡ (ok q, n) =
            ap (λ r. peer (port_of r k) n) (sym top) ∙ is in
          inr (left-Has q more stack (pushes.all_peers (subst Branching (sym same) b) k q is'))
      | inr (inr f) ↦ elim f [ ]
    ];
  }

  -- The walk ends, with all the peers known.
  pub dfs-ends :
      (fuel : ℕ) (stack order : List PortId) (idx : IdxMap)
      → Walking idx order stack
      → length stack + 4 * open_slots idx (size n) ≤ fuel
      → (idx' : IdxMap) × (order' : List PortId) × (dfs_assign fuel stack idx order n
          ≡ (ok (some (idx', order')), n))
        × Walking idx' order' []
  unfolding dfs_assign Known
  dfs-ends zero [] order idx w fits = (idx, order, refl, w)
  dfs-ends (suc fuel) [] order idx w fits = (idx, order, refl, w)
  dfs-ends zero (p ∷ stack) order idx w fits = absurd (omega arith)
  dfs-ends (suc fuel) (p ∷ stack) order idx w fits = elim (Bool-cases (is_eraser p)) [
    | inl era ↦ rw era (dfs-ends fuel stack order idx (pass-Walking p (inl era) w) (omega arith))
    | inr agent ↦ elim (Bool-cases (is_null p)) [
      | inl nul ↦
          rw (agent, nul)
            (dfs-ends fuel stack order idx (pass-Walking p (inr (inl nul)) w) (omega arith))
      | inr live ↦ elim (Option-cases (idx (slot_idx p))) [
        | inr (j, known) ↦
            rw (agent, live, known)
              (dfs-ends fuel stack order idx (pass-Walking p (inr (inr (j, known))) w)
                (omega arith))
        | inl new ↦
            let at = w.stack_in p (inl refl) in
            let (s, here) = get_elem?-in n.arena.slots (slot_idx p) at in
            let (more, e, pushes) = pushed-Pushes p s at in
            let v = length order % 2 ^ 32 in
            let fewer = assign-open idx (slot_idx p) v (size n) at new in
            let long = length-append {0} more stack in
            let few = pushes.few in
            let (idx', order', ends, w') =
              dfs-ends fuel (more ++ stack) (order ++ p ∷ []) (assign (slot_idx p) v idx)
                (visit-Walking p s v more agent here pushes w) (omega arith) in
            (idx', order', rw (agent, live, new, slot_at-eq n (slot_idx p) here, e) ends, w')
      ]
    ]
  ]
