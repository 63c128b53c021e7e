-- ===== src/CanonHash.antt =====
-- crates/dnx-core/src/canonical_hash.rs: the canonical bytes of a net. The agents are numbered by a
-- walk from the root, and each is written with the numbers of its neighbors. The hash of the bytes is
-- that of the crate blake3, so it is a parameter. The work stack has fuel, a turn for each port that
-- is popped; without fuel there is no result. `data_word` and the deltas are 16-bit.
pub mod Peers
pub mod Iso
pub mod Count
pub mod Total
pub mod Emits
use dnet.Prelude.{
  ℕ, zero, suc, ◌+◌, ◌-◌, ◌*◌, ◌/◌, ◌%◌, ◌^◌, bit_and, Bool, true, false, ◌&&◌, ◌||◌, Option, none,
  some, List, [], ◌∷◌, ◌++◌, ◌==◌, length, if◌then◌else◌,
}
use dnet.Prelude.Int.{ℤ, pos, negsuc}
use dnet.Error.{Result, ok, err, prim_error, readback_incomplete}
use dnet.Codec.{Blake3Hash, put_u32}
use dnet.Port
use dnet.Port.{
  PortId, PortKind, principal, aux0, aux1, slot_idx, port_kind, is_eraser, is_null, gen_low,
}
use dnet.Slot.{Slot, is_free, is_fan, is_rep, fan_is_abs}
use dnet.Net.{Net, Action, ◌>>=◌, pure, lift, slot, peer}

abbrev pub canon_hash_v1 : ℕ
canon_hash_v1 = 0x01

abbrev pub kind_fan_abs : ℕ
kind_fan_abs = 0x01

abbrev pub kind_fan_app : ℕ
kind_fan_app = 0x02

abbrev pub kind_rep_in : ℕ
kind_rep_in = 0x03

abbrev pub kind_free_var : ℕ
kind_free_var = 0x04

abbrev pub kind_eraser : ℕ
kind_eraser = 0xFF

abbrev pub eraser_idx : ℕ
eraser_idx = 2 ^ 32 - 1

abbrev pub eraser_sel : ℕ
eraser_sel = 0xFF

-- `HashMap<u32, u32>`
abbrev pub IdxMap : Type 0
IdxMap = ℕ → Option ℕ

abbrev pub assign : ℕ → ℕ → IdxMap → IdxMap
assign i v f j = if j == i then some v else f j

-- `u16::to_le_bytes` and `i16::to_le_bytes`
unfoldable pub put_u16 : ℕ → List ℕ
put_u16 n = n % 256 ∷ n / 2 ^ 8 % 256 ∷ []

unfoldable pub put_i16 : ℤ → List ℕ
unfolding put_u16
put_i16 (pos n) = put_u16 n
put_i16 (negsuc n) = put_u16 (2 ^ 16 - 1 - n)

-- The port of the same agent with another kind.
abbrev pub port_of : PortId → PortKind → PortId
port_of port kind = Port.new (slot_idx port) kind (gen_low port)

-- The ports behind a fan or a replicator, the principal one on top.
unfoldable pub children : PortId → Action (List PortId)
children port = do
  a1 ← peer (port_of port aux1)
  a0 ← peer (port_of port aux0)
  p ← peer (port_of port principal)
  pure (p ∷ a0 ∷ a1 ∷ [])

-- What is pushed for a slot.
unfoldable pub pushed : Slot → PortId → Action (List PortId)
unfolding children
pushed s port =
    if is_free s then pure [] else if is_fan s || is_rep s then children port else pure []

abbrev pub Walk : Type 0
Walk = IdxMap × List PortId

-- An agent that has an index is passed over.
abbrev pub by_index : Option ℕ → Action (Option Walk) → Action (Option Walk) → Action (Option Walk)
by_index none pass visit = visit
by_index (some i) pass visit = pass

-- The loop of `dfs_assign`.
unfoldable pub dfs_assign : ℕ → List PortId → IdxMap → List PortId → Action (Option Walk)
unfolding pushed
dfs_assign fuel [] idx order = pure (some (idx, order))
dfs_assign zero (port ∷ stack) idx order = pure none
dfs_assign (suc fuel) (port ∷ stack) idx order =
    let pass = dfs_assign fuel stack idx order in
    let idx' = assign (slot_idx port) (length order % 2 ^ 32) idx in
    let next = λ (more : List PortId). dfs_assign fuel (more ++ stack) idx' (order ++ port ∷ []) in
    let visit : Action (Option Walk) = (slot port >>= λ s. pushed s port) >>= next in
    if is_eraser port || is_null port then pass else by_index (idx (slot_idx port)) pass visit

unfoldable pub selector : PortKind → ℕ
selector principal = 0
selector aux0 = 1
selector aux1 = 2

-- The bytes for the index of a peer, if it has one.
unfoldable pub edge_bytes : Option ℕ → PortKind → Result (List ℕ)
unfolding selector
edge_bytes none kind = err readback_incomplete
edge_bytes (some i) kind = ok (put_u32 i ++ selector kind ∷ [])

unfoldable pub peer_bytes : IdxMap → PortId → Result (List ℕ)
unfolding edge_bytes
peer_bytes idx p =
    if is_eraser p || is_null p
    then ok (put_u32 eraser_idx ++ eraser_sel ∷ [])
    else edge_bytes (idx (slot_idx p)) (port_kind p)

unfoldable pub emit_edge : IdxMap → PortId → Action (List ℕ)
unfolding peer_bytes
emit_edge idx port = do p ← peer port; lift (peer_bytes idx p)

-- A head, then two edges.
unfoldable pub emit_two : IdxMap → List ℕ → PortId → PortId → Action (List ℕ)
unfolding emit_edge
emit_two idx head p q = do e0 ← emit_edge idx p; e1 ← emit_edge idx q; pure (head ++ (e0 ++ e1))

unfoldable pub emit_slot : IdxMap → PortId → Slot → Action (List ℕ)
unfolding emit_two put_i16 put_u16
emit_slot idx port s =
    if is_free s
    then pure (kind_free_var ∷ put_u32 (bit_and s.data_word 0x3FFF))
    else if is_fan s && fan_is_abs s
    then emit_two idx (kind_fan_abs ∷ []) (port_of port aux0) (port_of port aux1)
    else if is_fan s
    then emit_two idx (kind_fan_app ∷ []) (port_of port principal) (port_of port aux1)
    else if is_rep s
    then emit_two idx (kind_rep_in ∷ put_u16 s.data_word ++ (put_i16 s.delta0 ++ put_i16 s.delta1))
        (port_of port aux0) (port_of port aux1)
    else lift (err (prim_error "canonical_hash: PrimVal/PrimFun not yet supported (Phase C)"))

unfoldable pub emit_record : IdxMap → PortId → Action (List ℕ)
unfolding emit_slot
emit_record idx port =
    if is_eraser port then pure (kind_eraser ∷ []) else (do s ← slot port; emit_slot idx port s)

unfoldable pub emit_all : IdxMap → List PortId → Action (List ℕ)
unfolding emit_record
emit_all idx [] = pure []
emit_all idx (port ∷ order) = do
  r ← emit_record idx port
  rest ← emit_all idx order
  pure (r ++ rest)

-- The bytes of a walk that came to its end.
unfoldable pub emit_walk : Option Walk → Action (Option (List ℕ))
unfolding emit_all
emit_walk none = pure none
emit_walk (some (idx, order)) = do
  records ← emit_all idx order
  pure (some (canon_hash_v1 ∷ put_u32 (length order % 2 ^ 32) ++ records))

unfoldable pub serialize : ℕ → PortId → Action (Option (List ℕ))
unfolding dfs_assign emit_walk
serialize fuel root = do walk ← dfs_assign fuel (root ∷ []) (λ i. none) []; emit_walk walk

hash_of : (List ℕ → Blake3Hash) → Option (List ℕ) → Option Blake3Hash
hash_of blake3 none = none
hash_of blake3 (some bytes) = some (blake3 bytes)

unfoldable pub canonical_hash : (List ℕ → Blake3Hash) → ℕ → PortId → Action (Option Blake3Hash)
unfolding serialize hash_of
canonical_hash blake3 fuel root = do bytes ← serialize fuel root; pure (hash_of blake3 bytes)
