-- ===== src/Blob.antt =====
-- crates/dnx-core/src/blob.rs: the bytes of a canonical net, read back. The bytes come from anywhere.
-- `from_blob` makes its own net, so it is no action. A `for` over the number of records stops at the
-- first record that is not there, so that number is a bound of the recursion.
pub mod Reads
pub mod Safe
use dnet.Prelude.{
  ℕ, zero, suc, ◌+◌, ◌-◌, ◌*◌, ◌%◌, ◌^◌, Bool, true, false, ◌&&◌, Option, none, some, List, [], ◌∷◌,
  ◌==◌, leb, ltb, length, get_elem?, take, drop, if◌then◌else◌,
}
use Prim.Native.Nat.{min, max}
use dnet.Prelude.Int.{ℤ, pos, negsuc}
use dnet.Error.{Result, ok, err, panic, ◌>>=◌, readback_incomplete}
use dnet.Codec.{Cursor, from_le_bytes, first_byte}
use dnet.LoPath.{root}
use dnet.Port
use dnet.Port.{PortId, PortKind, principal, aux0, aux1, slot_idx, gen_low}
use dnet.Net
use dnet.Net.{
  Net, NetClass, Action, and_then, pure, lift, done, alloc_free, alloc_abs, alloc_app, alloc_rep_in,
  connect, certify_canonical, ◌>>=◌ as then_do, ◌>>◌ as next_do,
}
use dnet.CanonHash.{
  canon_hash_v1, kind_fan_abs, kind_fan_app, kind_rep_in, kind_free_var, kind_eraser, eraser_idx,
  eraser_sel, serialize,
}

abbrev pub free_var_id_max : ℕ
free_var_id_max = 0x3FFF

abbrev pub Edge : Type 0
Edge = Option (ℕ × PortKind)

pub record Record : Type 0 where
  pub kind : ℕ
  pub level : ℕ
  pub delta0 : ℤ
  pub delta1 : ℤ
  pub var_id : ℕ
  pub edges : List (PortKind × Edge)

abbrev pub Reader : Type 0 → Type 0
Reader A = Cursor → Result (A × Cursor)

unfoldable pub read_u8 : Reader ℕ
read_u8 r = elim (get_elem? r.bytes r.pos) [
  | none ↦ err readback_incomplete
  | some b ↦ ok (b, record r { pos = r.pos + 1 })
]

-- `take`, with `checked_add` on a 64-bit `usize`.
unfoldable pub read_bytes : ℕ → Reader (List ℕ)
read_bytes n r =
    if leb (2 ^ 64) (r.pos + n)
    then err readback_incomplete
    else if leb (r.pos + n) (length r.bytes)
    then ok (take n (drop r.pos r.bytes), record r { pos = r.pos + n })
    else err readback_incomplete

unfoldable pub read_u32 : Reader ℕ
unfolding read_bytes
read_u32 r = do (b, r') ← read_bytes 4 r; ok (from_le_bytes b, r')

unfoldable pub read_u16 : Reader ℕ
unfolding read_bytes
read_u16 r = do (b, r') ← read_bytes 2 r; ok (from_le_bytes b, r')

unfoldable pub i16_of : ℕ → ℤ
i16_of n = if ltb n (2 ^ 15) then pos n else negsuc (2 ^ 16 - 1 - n)

unfoldable pub read_i16 : Reader ℤ
unfolding read_bytes i16_of
read_i16 r = do (b, r') ← read_bytes 2 r; ok (i16_of (from_le_bytes b), r')

unfoldable pub port_kind_of : ℕ → Result PortKind
port_kind_of sel =
    if sel == 0
    then ok principal
    else if sel == 1
    then ok aux0
    else if sel == 2
    then ok aux1
    else err readback_incomplete

unfoldable pub read_edge : Reader Edge
unfolding read_u32 read_u8 port_kind_of
read_edge r = do
  (idx, r1) ← read_u32 r
  (sel, r2) ← read_u8 r1
  if idx == eraser_idx && sel == eraser_sel
      then ok (none, r2)
      else (do kind ← port_kind_of sel; ok (some (idx, kind), r2))

abbrev pub plain : ℕ → Record
plain kind = record {
  kind = kind;
  level = 0;
  delta0 = pos 0;
  delta1 = pos 0;
  var_id = 0;
  edges = [];
}

-- The edges of two ports, in the order in which they were written.
unfoldable pub read_edges : PortKind → PortKind → Record → Reader Record
unfolding read_edge
read_edges k l rec r = do
  (e0, r1) ← read_edge r
  (e1, r2) ← read_edge r1
  ok (record rec { edges = (k, e0) ∷ (l, e1) ∷ [] }, r2)

with_var : Record → ℕ → Cursor → Result (Record × Cursor)
with_var rec var_id r =
    if ltb free_var_id_max var_id
    then err readback_incomplete
    else ok (record rec { var_id = var_id }, r)

read_var : Record → Reader Record
unfolding read_u32 with_var
read_var rec r = do (var_id, r1) ← read_u32 r; with_var rec var_id r1

read_rep : Record → Reader Record
unfolding read_u16 read_i16 read_edges
read_rep rec r = do
  (level, r1) ← read_u16 r
  (delta0, r2) ← read_i16 r1
  (delta1, r3) ← read_i16 r2
  read_edges aux0 aux1 (record rec { level = level; delta0 = delta0; delta1 = delta1 }) r3

-- The match on the kind.
read_fields : ℕ → Reader Record
unfolding read_var read_rep read_edges
read_fields kind r =
    if kind == kind_eraser
    then ok (plain kind, r)
    else if kind == kind_free_var
    then read_var (plain kind) r
    else if kind == kind_fan_abs
    then read_edges aux0 aux1 (plain kind) r
    else if kind == kind_fan_app
    then read_edges principal aux1 (plain kind) r
    else if kind == kind_rep_in
    then read_rep (plain kind) r
    else err readback_incomplete

unfoldable pub read_record : Reader Record
unfolding read_u8 read_fields
read_record r = do (kind, r1) ← read_u8 r; read_fields kind r1

unfoldable pub read_records : ℕ → Reader (List Record)
unfolding read_record
read_records zero r = ok ([], r)
read_records (suc n) r = do
  (rec, r1) ← read_record r
  (rest, r2) ← read_records n r1
  ok (rec ∷ rest, r2)

unfoldable pub alloc_record : Record → Action PortId
alloc_record rec =
    if rec.kind == kind_eraser
    then pure Port.era
    else if rec.kind == kind_free_var
    then alloc_free rec.var_id
    else if rec.kind == kind_fan_abs
    then then_do alloc_abs (λ a. pure a.principal)
    else if rec.kind == kind_fan_app
    then then_do alloc_app (λ a. pure a.principal)
    else if rec.kind == kind_rep_in
    then then_do (alloc_rep_in rec.level rec.delta0 rec.delta1) (λ a. pure a.principal)
    else lift (err readback_incomplete)

unfoldable pub alloc_records : List Record → Action (List PortId)
unfolding alloc_record
alloc_records [] = pure []
alloc_records (rec ∷ l) =
    then_do (alloc_record rec) (λ p. then_do (alloc_records l) (λ ps. pure (p ∷ ps)))

-- The port of the agent at an index.
port_at : Option PortId → PortKind → Result PortId
port_at none kind = err readback_incomplete
port_at (some base) kind = ok (Port.new (slot_idx base) kind (gen_low base))

unfoldable pub resolve : List PortId → Edge → Result PortId
unfolding port_at
resolve slots none = ok Port.era
resolve slots (some (idx, kind)) = port_at (get_elem? slots idx) kind

unfoldable pub wire_edges : List PortId → PortId → List (PortKind × Edge) → Action (Unit {0})
unfolding resolve
wire_edges slots base [] = done
wire_edges slots base ((kind, edge) ∷ l) =
    let src = Port.new (slot_idx base) kind (gen_low base) in
    then_do (lift (resolve slots edge))
      (λ dst. next_do (connect src dst root) (wire_edges slots base l))

-- `slots[i]`
unfoldable pub index : List PortId → ℕ → Result PortId
index slots i = elim (get_elem? slots i) [ none ↦ panic | some p ↦ ok p ]

-- The second pass, from the record `i` on.
unfoldable pub wire_records : List PortId → ℕ → List Record → Action (Unit {0})
unfolding index wire_edges
wire_records slots i [] = done
wire_records slots i (rec ∷ l) =
    then_do (lift (index slots i))
      (λ base. next_do (wire_edges slots base rec.edges) (wire_records slots (suc i) l))

-- The two passes, and the root.
unfoldable pub rebuild : List Record → Action PortId
unfolding alloc_records wire_records
rebuild records =
    then_do (alloc_records records)
      (λ slots. next_do (wire_records slots 0 records) (lift (index slots 0)))

-- The net is canonical if it has no redex.
unfoldable pub certified : Result PortId × Net → Result (Net × PortId)
certified (r, n) = do p ← r; witness ← certify_canonical n; ok (n, p)

-- The capacity: a slot for each record, and the sentinel.
abbrev pub capacity : ℕ → ℕ
capacity count = max (min (count % 2 ^ 32 + 1) (2 ^ 32 - 1)) 2

-- What follows when the stream has been read to its end.
unfoldable pub build : NetClass → List Record → Result (Net × PortId)
unfolding rebuild certified
build c [] = err readback_incomplete
build c (rec ∷ l) = certified (rebuild (rec ∷ l) (Net.new c (capacity (length (rec ∷ l)))))

-- What follows the tag: the count, the records, and nothing behind them.
unfoldable pub read_body : NetClass → Cursor → Result (Net × PortId)
unfolding read_u32 read_records build
read_body c r = do
  (n, r1) ← read_u32 r
  (records, r2) ← read_records n r1
  if r2.pos == length r2.bytes then build c records else err readback_incomplete

-- `from_blob` and `deserialize`.
unfoldable pub from_blob : NetClass → List ℕ → Result (Net × PortId)
unfolding read_u8 read_body
from_blob c bytes = do
  (tag, r) ← read_u8 (record { bytes = bytes; pos = 0 })
  if tag == canon_hash_v1 then read_body c r else err readback_incomplete

unfoldable pub to_blob : ℕ → PortId → Action (Option (List ℕ))
to_blob = serialize
