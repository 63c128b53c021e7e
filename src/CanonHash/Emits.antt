-- ===== src/CanonHash/Emits.antt =====
-- What is written for a safe net (crates/dnx-core/src/canonical_hash.rs).
use dnet.Prelude.{
  ℕ, ◌+◌, ◌*◌, ◌%◌, ◌^◌, length, ◌≤◌, ◌≡◌, refl, true, ◌||◌, Option, none, some, List, [], ◌∷◌,
  ◌++◌, arith, get_elem?, Bool-cases, inl, inr,
}
use Prim.Native.String.{String}
use dnet.Error.{Result, ok, err, prim_error}
use dnet.Arena.Live.{Has}
use dnet.Arena.Alloc.{get_elem?-in}
use dnet.Port.{PortId, PortKind, principal, aux0, aux1, slot_idx, is_eraser, is_null}
use dnet.Slot.{Slot, is_free, is_fan, is_rep, fan_is_abs}
use dnet.Net.{Net, Action, and_then}
use dnet.Net.Safe.{size, InNet, IsSafe}
use dnet.Codec.{put_u32}
use dnet.CanonHash.Peers.{slot_at-eq}
use dnet.CanonHash.Count.{open_slots-le}
use dnet.CanonHash.Total.{peer-in, kind-in, Branching, Known, Walking, dfs-ends}
use dnet.CanonHash.{
  canon_hash_v1, kind_fan_abs, kind_fan_app, kind_rep_in, put_u16, put_i16, IdxMap, port_of,
  edge_bytes, peer_bytes, emit_edge, emit_two, emit_slot, emit_record, emit_all, emit_walk,
  serialize,
}

-- Bytes, or the error for a primitive, and the net as it was.
pub data Written {A : Type 0} (n : Net) : Result A × Net → Type 0 where
  written : (a : A) → Written n (ok a, n)
  primitive : (text : String) → Written n (err (prim_error text), n)

data Fine {A : Type 0} : Result A → Type 0 where
  fine_ok : (a : A) → Fine (ok a)

lift-Written : {A : Type 0} (n : Net) {r : Result A} → Fine r → Written n (r, n)
lift-Written n (fine_ok a) = written a

module _ (n : Net) (safe : IsSafe n) where
  then-Written :
      {A B : Type 0} {r : Result A × Net} (k : A → Action B)
      → Written n r
      → ((a : A) → Written n (k a n))
      → Written n (and_then r k)
  then-Written k (written a) next = next a
  then-Written k (primitive text) next = primitive text

  -- The bytes of a port that is known.
  Known-bytes : (idx : IdxMap) (q : PortId) → Known n safe idx q → Fine (peer_bytes idx q)
  unfolding Known peer_bytes edge_bytes
  Known-bytes idx q (inl e) = rw e (fine_ok _)
  Known-bytes idx q (inr (inl e)) = elim (Bool-cases (is_eraser q)) [
    | inl era ↦ rw era (fine_ok _)
    | inr agent ↦ rw (agent, e) (fine_ok _)
  ]
  Known-bytes idx q (inr (inr (j, e))) = elim (Bool-cases (is_eraser q || is_null q)) [
    | inl apart ↦ rw apart (fine_ok _)
    | inr agent ↦ rw (agent, e, edge_bytes) (fine_ok _)
  ]

  module _ (idx : IdxMap) (order : List PortId) (w : Walking n safe idx order []) (p : PortId)
      (s : Slot) (visited : Has p order)
      (here : get_elem? n.arena.slots (slot_idx p) ≡ some s) where
    edge-Written : (k : PortKind) → Branching n safe s → Written n (emit_edge idx (port_of p k) n)
    unfolding emit_edge
    edge-Written k two =
        let at = (w.order_in p visited).0 in
        let (q, e, to) = peer-in n safe (port_of p k) (kind-in n safe p k at) in
        elim (w.closed p s visited here two k q e) [
          | inl known ↦ rw e (lift-Written n (Known-bytes idx q known))
          | inr none_left ↦ elim none_left [ ]
        ]

    two-Written :
        (head : List ℕ) (k l : PortKind)
        → Branching n safe s
        → Written n (emit_two idx head (port_of p k) (port_of p l) n)
    unfolding emit_two
    two-Written head k l two =
        then-Written _ (edge-Written k two) λ a. then-Written _ (edge-Written l two) λ b. written _

    slot-Written : Written n (emit_slot idx p s n)
    unfolding emit_slot
    slot-Written = elim (Bool-cases (is_free s)) [
      | inl leaf ↦ rw leaf (written _)
      | inr node ↦ elim (Bool-cases (is_fan s)) [
        | inl fan ↦
            let two : (is_fan s || is_rep s) ≡ true = rw fan refl in
            elim (Bool-cases (fan_is_abs s)) [
              | inl is_abs ↦
                  rw (node, fan, is_abs) (two-Written (kind_fan_abs ∷ []) aux0 aux1 (node, two))
              | inr is_app ↦
                  rw (node, fan, is_app)
                    (two-Written (kind_fan_app ∷ []) principal aux1 (node, two))
            ]
        | inr not_fan ↦ elim (Bool-cases (is_rep s)) [
          | inl rep ↦
              let two : (is_fan s || is_rep s) ≡ true = rw (not_fan, rep) refl in
              let head =
                kind_rep_in ∷ put_u16 s.data_word ++ (put_i16 s.delta0 ++ put_i16 s.delta1) in
              rw (node, not_fan, rep) (two-Written head aux0 aux1 (node, two))
          | inr other ↦ rw (node, not_fan, other) (primitive _)
        ]
      ]
    ]

  all-Written :
      (idx : IdxMap) (order l : List PortId)
      → Walking n safe idx order []
      → ((p : PortId) → Has p l → Has p order)
      → Written n (emit_all idx l n)
  unfolding emit_all emit_record
  all-Written idx order [] w sub = written []
  all-Written idx order (p ∷ l) w sub =
      let visited = sub p (inl refl) in
      let (at, agent) = w.order_in p visited in
      let (s, here) = get_elem?-in n.arena.slots (slot_idx p) at in
      rw (agent, slot_at-eq n (slot_idx p) here)
        (then-Written _ (slot-Written idx order w p s visited here)
          λ b. then-Written _ (all-Written idx order l w (λ q h. sub q (inr h))) λ rest. written _)

-- With enough fuel, the bytes of a net are there, or the error for a primitive.
pub data Serialized (n : Net) : Result (Option (List ℕ)) × Net → Type 0 where
  serialized : (bytes : List ℕ) → Serialized n (ok (some bytes), n)
  unsupported : (text : String) → Serialized n (err (prim_error text), n)

-- `serialize`, from a root that leads to a slot of a safe net and with fuel for four turns for each
-- slot and one more, does not panic, does not run out of fuel and leaves the net as it is. It ends
-- in bytes, or in the error for primitive agents; no neighbor is without an index.
pub serialize-Serialized :
    (n : Net) (root : PortId) (fuel : ℕ)
    → IsSafe n
    → InNet n root
    → 4 * size n + 1 ≤ fuel
    → Serialized n (serialize fuel root n)
unfolding serialize emit_walk
serialize-Serialized n root fuel safe at enough =
    let few = open_slots-le (λ i. none) (size n) in
    let (idx, order, ends, w) =
      dfs-ends n safe fuel (root ∷ []) [] (λ i. none) start (omega arith) in
    rw ends (
      on (λ b. canon_hash_v1 ∷ put_u32 (length order % 2 ^ 32) ++ b)
        (all-Written n safe idx order order w (λ p h. h)))
  where
    start : Walking n safe (λ i. none) [] (root ∷ [])
    start = record {
      stack_in = λ q h. elim h [ inl e ↦ rw e at | inr f ↦ elim f [ ] ];
      order_in = λ p h. elim h [ ];
      closed = λ p s h. elim h [ ];
    }

    on :
        {r : Result (List ℕ) × Net} (f : List ℕ → List ℕ)
        → Written n r
        → Serialized n (and_then r (λ b m. (ok (some (f b)), m)))
    on f (written b) = serialized (f b)
    on f (primitive text) = unsupported text
