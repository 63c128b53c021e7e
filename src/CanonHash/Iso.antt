-- ===== src/CanonHash/Iso.antt =====
-- The canonical bytes (crates/dnx-core/src/canonical_hash.rs) do not depend on the slots that the
-- agents of a net are in.
use dnet.Prelude.{
  ℕ, zero, suc, ◌%◌, ◌^◌, ◌≤◌, ◌<◌, ◌≡◌, ◌≢◌, refl, sym, ap, ap₂, ◌∙◌, subst, Bool, true, false,
  ◌&&◌, ◌||◌, Option, none, some, List, [], ◌∷◌, ◌++◌, arith, ◌==◌, length, get_elem?, Bool-cases,
  inl, inr, if◌then◌else◌,
}
use dnet.Error.{DnxError, Result, ok, err, panic}
use dnet.Codec.{put_u32}
use dnet.Port.{PortId, PortKind, principal, aux0, aux1, slot_idx, port_kind, is_eraser, is_null}
use dnet.Slot.{Slot, is_free, is_fan, is_rep, fan_is_abs}
use dnet.Net.{Net, Action, and_then, ◌>>=◌, field, slot_at, peer}
use dnet.Net.Safe.{size}
use dnet.CanonHash.Peers.{slot_at-eq, port_of-Plain, peer-eq}
use dnet.CanonHash.{
  canon_hash_v1, kind_fan_abs, kind_fan_app, kind_rep_in, put_u16, IdxMap, assign, put_i16, port_of,
  children, pushed, Walk, by_index, dfs_assign, peer_bytes, emit_edge, emit_two, emit_slot,
  emit_record, emit_all, emit_walk, serialize,
}

module _ (n m : Net) (to : ℕ → ℕ) where
  -- Two ports that play the same part: both erasers, both null, or ports of one kind of agents whose
  -- slots correspond.
  pub data Joins (p q : PortId) : Type 0 where
    erasers : is_eraser p ≡ true → is_eraser q ≡ true → Joins p q
    nulls :
        is_eraser p ≡ false → is_eraser q ≡ false → is_null p ≡ true → is_null q ≡ true → Joins p q
    wires :
        is_eraser p ≡ false
        → is_eraser q ≡ false
        → is_null p ≡ false
        → is_null q ≡ false
        → slot_idx p ≢ 0
        → slot_idx p < size n
        → slot_idx q ≡ to (slot_idx p)
        → port_kind q ≡ port_kind p
        → Joins p q

  -- Two slots with the same agent, and wires that correspond.
  pub record Alike (s t : Slot) : Type 0 where
    pub same_tag : t.tag ≡ s.tag
    pub same_data : t.data_word ≡ s.data_word
    pub same_delta0 : t.delta0 ≡ s.delta0
    pub same_delta1 : t.delta1 ≡ s.delta1
    pub principals : Joins s.principal t.principal
    pub aux0s : Joins s.aux0 t.aux0
    pub aux1s : Joins s.aux1 t.aux1

  -- The slots of the one net, but for the sentinel, are found in the other one at their place.
  pub record IsIso : Type 0 where
    pub one_to_one : (i j : ℕ) → to i ≡ to j → i ≡ j
    pub small : size n ≤ 2 ^ 28
    pub image : (i : ℕ) → i ≢ 0 → i < size n → (to i ≢ 0) × (to i < 2 ^ 28)
    pub slots :
        (i : ℕ)
        → i ≢ 0
        → i < size n
        → (s : Slot) × (t : Slot) × (get_elem? n.arena.slots i ≡ some s)
          × (get_elem? m.arena.slots (to i) ≡ some t)
          × Alike s t

  -- Two runs that end alike, and leave the nets as they are.
  data Both {A : Type 0} (R : A → A → Type 0) : Result A × Net → Result A × Net → Type 0 where
    both_ok : {a b : A} → R a b → Both R (ok a, n) (ok b, m)
    both_err : (e : DnxError) → Both R (err e, n) (err e, m)
    both_panic : Both R (panic, n) (panic, m)

  Both-bind :
      {A B : Type 0} {R : A → A → Type 0} {S : B → B → Type 0} {x y : Result A × Net}
      (k l : A → Action B)
      → Both R x y
      → ((a b : A) → R a b → Both S (k a n) (l b m))
      → Both S (and_then x k) (and_then y l)
  Both-bind k l (both_ok {a} {b} r) next = next a b r
  Both-bind k l (both_err e) next = both_err e
  Both-bind k l both_panic next = both_panic

  if-Both :
      {A : Type 0} {R : A → A → Type 0} (b : Bool) (x y x' y' : Action A)
      → Both R (x n) (x' m)
      → Both R (y n) (y' m)
      → Both R ((if b then x else y) n) ((if b then x' else y') m)
  if-Both true x y x' y' p q = p
  if-Both false x y x' y' p q = q

  module _ (iso : IsIso) where
    field-Joins : (k : PortKind) {s t : Slot} → Alike s t → Joins (field k s) (field k t)
    field-Joins principal h = h.principals
    field-Joins aux0 h = h.aux0s
    field-Joins aux1 h = h.aux1s

    -- The ports of two agents that correspond.
    record Agents (p q : PortId) : Type 0 where
      inside : slot_idx p < size n
      nonzero : slot_idx p ≢ 0
      placed : slot_idx q ≡ to (slot_idx p)

    -- The peers of two ports of one kind.
    peer-Both :
        {p q : PortId} (k : PortKind)
        → Agents p q
        → Both Joins (peer (port_of p k) n) (peer (port_of q k) m)
    peer-Both {p} {q} k at =
        let (to_nonzero, to_small) = iso.image (slot_idx p) at.nonzero at.inside in
        let (s, t, here, there, alike) = iso.slots (slot_idx p) at.nonzero at.inside in
        let left = port_of-Plain p k (omega (arith, iso.small, at.inside)) in
        let right = port_of-Plain q k (omega (arith, at.placed)) in
        let found = ap (λ i. get_elem? n.arena.slots i) left.same_slot ∙ here in
        let found' = ap (λ i. get_elem? m.arena.slots i) (right.same_slot ∙ at.placed) ∙ there in
        let e =
          peer-eq n (port_of p k) left.not_eraser (left.nonnull at.nonzero) found
          ∙ ap (λ j. (ok (field j s), n)) left.of_kind in
        let e' =
          peer-eq m (port_of q k) right.not_eraser
            (right.nonnull (λ z. to_nonzero (sym at.placed ∙ z))) found'
          ∙ ap (λ j. (ok (field j t), m)) right.of_kind in
        subst (λ x. Both Joins x (peer (port_of q k) m)) (sym e)
          (subst (λ y. Both Joins (ok (field k s), n) y) (sym e') (both_ok (field-Joins k alike)))

    -- Lists of ports that correspond.
    data AllJoin : List PortId → List PortId → Type 0 where
      no_more : AllJoin [] []
      one_more :
          {p q : PortId} {l r : List PortId} → Joins p q → AllJoin l r → AllJoin (p ∷ l) (q ∷ r)

    append-AllJoin :
        {l r l' r' : List PortId} → AllJoin l r → AllJoin l' r' → AllJoin (l ++ l') (r ++ r')
    append-AllJoin no_more b = b
    append-AllJoin (one_more j a) b = one_more j (append-AllJoin a b)

    -- The agents that were visited.
    data AllPlaced : List PortId → List PortId → Type 0 where
      none_placed : AllPlaced [] []
      one_placed :
          {p q : PortId} {l r : List PortId}
          → is_eraser p ≡ false
          → is_eraser q ≡ false
          → Agents p q
          → AllPlaced l r
          → AllPlaced (p ∷ l) (q ∷ r)

    append-AllPlaced :
        {l r l' r' : List PortId} → AllPlaced l r → AllPlaced l' r' → AllPlaced (l ++ l') (r ++ r')
    append-AllPlaced none_placed b = b
    append-AllPlaced (one_placed e e' j a) b = one_placed e e' j (append-AllPlaced a b)

    length-AllPlaced : {l r : List PortId} → AllPlaced l r → length r ≡ length l
    length-AllPlaced none_placed = refl
    length-AllPlaced (one_placed e e' j a) = ap suc (length-AllPlaced a)

    children-Both : {p q : PortId} → Agents p q → Both AllJoin (children p n) (children q m)
    unfolding children
    children-Both at = Both-bind _ _ (peer-Both aux1 at) λ a1 b1 j1.
        Both-bind _ _ (peer-Both aux0 at) λ a0 b0 j0.
          Both-bind _ _ (peer-Both principal at)
            λ a b j. both_ok (one_more j (one_more j0 (one_more j1 no_more)))

    pushed-Both :
        {p q : PortId} {s t : Slot}
        → Alike s t
        → Agents p q
        → Both AllJoin (pushed s p n) (pushed t q m)
    unfolding pushed is_free is_fan is_rep
    pushed-Both {p} {q} {s} {t} alike at = rw (alike.same_tag) (
        if-Both (is_free s) _ _ _ _ (both_ok no_more)
          (if-Both (is_fan s || is_rep s) _ _ _ _ (children-Both at) (both_ok no_more)))

    -- The indices of agents that correspond.
    record SameIdx (f g : IdxMap) : Type 0 where
      at_same : (i : ℕ) → g (to i) ≡ f i

    assign-SameIdx :
        {f g : IdxMap} (i v : ℕ) → SameIdx f g → SameIdx (assign i v f) (assign (to i) v g)
    assign-SameIdx {f} {g} i v h = record {
      at_same = λ j. elim (Bool-cases (j == i)) [
        | inl same ↦
            let e : j ≡ i = ground arith in
            let e' : to j ≡ to i = ap to e in
            let same' : (to j == to i) ≡ true = ground arith in rw (same, same') refl
        | inr other ↦
            let ne : to j ≢ to i = λ e. absurd (ground (arith, iso.one_to_one j i e)) in
            let other' : (to j == to i) ≡ false = ground arith in rw (other, other') (h.at_same j)
      ];
    }

    -- What a walk comes to.
    data SameWalk : Option Walk → Option Walk → Type 0 where
      both_stop : SameWalk none none
      both_end :
          {f g : IdxMap} {l r : List PortId}
          → SameIdx f g
          → AllPlaced l r
          → SameWalk (some (f, l)) (some (g, r))

    slot-Both :
        {B : Type 0} {S : B → B → Type 0} {p q : PortId} (k l : Slot → Action B)
        → Agents p q
        → ((s t : Slot) → Alike s t → Both S (k s n) (l t m))
        → Both S ((slot_at (slot_idx p) >>= k) n) ((slot_at (slot_idx q) >>= l) m)
    slot-Both {S = S} {p} {q} k l at next =
        let (s, t, here, there, alike) = iso.slots (slot_idx p) at.nonzero at.inside in
        let e = slot_at-eq n (slot_idx p) here in
        let e' =
          slot_at-eq m (slot_idx q) (ap (λ i. get_elem? m.arena.slots i) at.placed ∙ there) in
        subst (λ x. Both S (and_then x k) ((slot_at (slot_idx q) >>= l) m)) (sym e)
          (subst (λ y. Both S (k s n) (and_then y l)) (sym e') (next s t alike))

    by_index-Both :
        {S : Option Walk → Option Walk → Type 0} (o : Option ℕ) (x y x' y' : Action (Option Walk))
        → Both S (x n) (x' m)
        → (o ≡ none → Both S (y n) (y' m))
        → Both S (by_index o x y n) (by_index o x' y' m)
    by_index-Both none x y x' y' p q = q refl
    by_index-Both (some i) x y x' y' p q = p

    dfs-Both :
        (fuel : ℕ) {stack stack' order order' : List PortId} {f g : IdxMap}
        → AllJoin stack stack'
        → SameIdx f g
        → AllPlaced order order'
        → Both SameWalk (dfs_assign fuel stack f order n) (dfs_assign fuel stack' g order' m)
    unfolding dfs_assign
    dfs-Both zero no_more same o = both_ok (both_end same o)
    dfs-Both (suc fuel) no_more same o = both_ok (both_end same o)
    dfs-Both zero (one_more j rest) same o = both_ok both_stop
    dfs-Both (suc fuel) (one_more (erasers e e') rest) same o =
        rw (e, e') (dfs-Both fuel rest same o)
    dfs-Both (suc fuel) (one_more (nulls a a' e e') rest) same o =
        rw (a, a', e, e') (dfs-Both fuel rest same o)
    dfs-Both (suc fuel) {order = order} {order' = order'} {f = f} {g = g}
          (one_more {p} {q} (wires a a' l l' nonzero inside placed kind) rest) same o =
        let at : Agents p q = record { inside = inside; nonzero = nonzero; placed = placed } in
        let known : g (slot_idx q) ≡ f (slot_idx p) = ap g placed ∙ same.at_same (slot_idx p) in
        rw (a, a', l, l', known)
          (by_index-Both (f (slot_idx p)) _ _ _ _ (dfs-Both fuel rest same o) λ new.
            Both-bind _ _ (slot-Both _ _ at λ s t alike. pushed-Both alike at) λ more more' js.
              let long : length order' % 2 ^ 32 ≡ length order % 2 ^ 32 =
                ap (λ k. k % 2 ^ 32) (length-AllPlaced o) in
              let grown =
                assign-SameIdx {f = f} {g = g} (slot_idx p) (length order % 2 ^ 32) same in
              let moved =
                subst
                  (λ v.
                    SameIdx (assign (slot_idx p) (length order % 2 ^ 32) f)
                      (assign (slot_idx q) v g))
                  (sym long)
                  (subst
                    (λ j.
                      SameIdx (assign (slot_idx p) (length order % 2 ^ 32) f)
                        (assign j (length order % 2 ^ 32) g))
                    (sym placed) grown) in
              dfs-Both fuel (append-AllJoin js rest) moved
                (append-AllPlaced o (one_placed a a' at none_placed)))

    peer_bytes-eq :
        {f g : IdxMap} {p q : PortId} → SameIdx f g → Joins p q → peer_bytes f p ≡ peer_bytes g q
    unfolding peer_bytes
    peer_bytes-eq same (erasers e e') = rw (e, e') refl
    peer_bytes-eq same (nulls a a' e e') = rw (a, a', e, e') refl
    peer_bytes-eq {f} {g} {p} {q} same (wires a a' l l' nonzero inside placed kind) =
        let known : g (slot_idx q) ≡ f (slot_idx p) = ap g placed ∙ same.at_same (slot_idx p) in
        rw (a, a', l, l', known, kind) refl

    Equal : {A : Type 0} → A → A → Type 0
    Equal a b = a ≡ b

    lift-Both : {A : Type 0} (r : Result A) {r' : Result A} → r ≡ r' → Both Equal (r, n) (r', m)
    unfolding Equal
    lift-Both r e = subst (λ x. Both Equal (r, n) (x, m)) e (on r)
      where
        on : {A : Type 0} (r : Result A) → Both {A = A} (λ a b. a ≡ b) (r, n) (r, m)
        on (ok a) = both_ok refl
        on (err e) = both_err e
        on panic = both_panic

    edge-Both :
        {f g : IdxMap} {p q : PortId} (k : PortKind)
        → SameIdx f g
        → Agents p q
        → Both Equal (emit_edge f (port_of p k) n) (emit_edge g (port_of q k) m)
    unfolding emit_edge
    edge-Both {f} {g} k same at =
        Both-bind _ _ (peer-Both k at) λ a b j. lift-Both (peer_bytes f a) (peer_bytes-eq same j)

    two-Both :
        {f g : IdxMap} {p q : PortId} (head : List ℕ) (k l : PortKind)
        → SameIdx f g
        → Agents p q
        → Both Equal
            (emit_two f head (port_of p k) (port_of p l) n)
            (emit_two g head (port_of q k) (port_of q l) m)
    unfolding emit_two Equal
    two-Both head k l same at = Both-bind _ _ (edge-Both k same at) λ a b e.
        Both-bind _ _ (edge-Both l same at) λ a' b' e'. both_ok (ap₂ (λ x y. head ++ (x ++ y)) e e')

    record-Both :
        {f g : IdxMap} {p q : PortId} {s t : Slot}
        → SameIdx f g
        → Alike s t
        → Agents p q
        → Both Equal (emit_slot f p s n) (emit_slot g q t m)
    unfolding emit_slot is_free is_fan is_rep fan_is_abs Equal
    record-Both {f} {g} {p} {q} {s} {t} same alike at =
        rw (alike.same_tag, alike.same_data, alike.same_delta0, alike.same_delta1)
          (if-Both (is_free s) _ _ _ _ (both_ok refl) (
            if-Both (is_fan s && fan_is_abs s) _ _ _ _
              (two-Both (kind_fan_abs ∷ []) aux0 aux1 same at)
              (if-Both (is_fan s) _ _ _ _ (two-Both (kind_fan_app ∷ []) principal aux1 same at) (
                if-Both (is_rep s) _ _ _ _
                  (two-Both
                    (kind_rep_in ∷ put_u16 s.data_word ++ (put_i16 s.delta0 ++ put_i16 s.delta1))
                    aux0 aux1 same at)
                  (both_err _)))))

    all-Both :
        {f g : IdxMap} {l r : List PortId}
        → SameIdx f g
        → AllPlaced l r
        → Both Equal (emit_all f l n) (emit_all g r m)
    unfolding emit_all emit_record Equal
    all-Both same none_placed = both_ok refl
    all-Both {f} {g} same (one_placed {p} {q} e e' at rest) =
        rw (e, e')
          (Both-bind _ _ (slot-Both _ _ at λ s t alike. record-Both same alike at) λ a b e.
            Both-bind _ _ (all-Both same rest) λ a' b' e'. both_ok (ap₂ (λ x y. x ++ y) e e'))

    walk-Both : {w v : Option Walk} → SameWalk w v → Both Equal (emit_walk w n) (emit_walk v m)
    unfolding emit_walk Equal
    walk-Both both_stop = both_ok refl
    walk-Both (both_end same order) =
        let long = length-AllPlaced order in
        Both-bind _ _ (all-Both same order) λ a b e.
          both_ok (ap₂ (λ (k : ℕ) r. some (canon_hash_v1 ∷ put_u32 (k % 2 ^ 32) ++ r)) (sym long) e)

    result-eq : {A : Type 0} {x y : Result A × Net} → Both Equal x y → x.0 ≡ y.0
    unfolding Equal
    result-eq (both_ok e) = ap (λ a. ok a) e
    result-eq (both_err e) = refl
    result-eq both_panic = refl

    -- The canonical bytes, `serialize`, do not depend on the slots in which the agents are: for two
    -- nets, neither of more than 2^28 slots, of which the one is found in the other by a one-to-one
    -- map of slots that keeps tags, data, deltas, and the agent and kind at the other end of each
    -- wire, and for roots that correspond, the results are the same, bytes or errors, with the same
    -- fuel.
    pub serialize-IsIso :
        (fuel : ℕ) (p q : PortId) → Joins p q → (serialize fuel p n).0 ≡ (serialize fuel q m).0
    unfolding serialize
    serialize-IsIso fuel p q j = result-eq (
        Both-bind _ _
          (dfs-Both fuel (one_more j no_more) (record { at_same = λ i. refl }) none_placed)
          λ w v same. walk-Both same)
