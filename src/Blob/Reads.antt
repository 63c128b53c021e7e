-- ===== src/Blob/Reads.antt =====
-- No reader of crates/dnx-core/src/blob.rs panics, whatever the bytes.
use dnet.Prelude.{
  ℕ, zero, suc, Bool, true, false, Option-cases, ◌==◌, get_elem?, inl, inr, if◌then◌else◌,
}
use dnet.Error.{DnxError, Result, ◌>>=◌ as bind}
use dnet.Codec.{Cursor}
use dnet.Port.{PortKind, principal, aux0, aux1}
use dnet.Net.Chain.{Calm, calm_ok, calm_err}
use dnet.Blob.{
  Record, read_u8, read_bytes, read_u32, read_u16, read_i16, port_kind_of, read_edge, read_edges,
  with_var, read_var, read_rep, read_fields, read_record, read_records, plain,
}

-- Reading does not panic.
bind-Calm :
    {A B : Type 0} {r : Result A} (k : A → Result B)
    → Calm r
    → ((a : A) → Calm (k a))
    → Calm (bind r k)
bind-Calm k (calm_ok a) next = next a
bind-Calm k calm_err next = calm_err

if-Calm : {A : Type 0} (b : Bool) {x y : Result A} → Calm x → Calm y → Calm (if b then x else y)
if-Calm true p q = p
if-Calm false p q = q

pub read_u8-Calm : (r : Cursor) → Calm (read_u8 r)
unfolding read_u8
read_u8-Calm r = elim (Option-cases (get_elem? r.bytes r.pos)) [
  | inl out ↦ rw (out, read_u8) calm_err
  | inr (b, here) ↦ rw (here, read_u8) (calm_ok _)
]

read_bytes-Calm : (n : ℕ) (r : Cursor) → Calm (read_bytes n r)
unfolding read_bytes
read_bytes-Calm n r = if-Calm _ calm_err (if-Calm _ (calm_ok _) calm_err)

pub read_u32-Calm : (r : Cursor) → Calm (read_u32 r)
unfolding read_u32
read_u32-Calm r = bind-Calm _ (read_bytes-Calm 4 r) λ (b, r'). calm_ok _

read_u16-Calm : (r : Cursor) → Calm (read_u16 r)
unfolding read_u16
read_u16-Calm r = bind-Calm _ (read_bytes-Calm 2 r) λ (b, r'). calm_ok _

read_i16-Calm : (r : Cursor) → Calm (read_i16 r)
unfolding read_i16
read_i16-Calm r = bind-Calm _ (read_bytes-Calm 2 r) λ (b, r'). calm_ok _

port_kind_of-Calm : (sel : ℕ) → Calm (port_kind_of sel)
unfolding port_kind_of
port_kind_of-Calm sel = if-Calm (sel == 0) (calm_ok principal) (
    if-Calm (sel == 1) (calm_ok aux0)
      (if-Calm (sel == 2) (calm_ok aux1) (calm_err {e = DnxError.readback_incomplete})))

read_edge-Calm : (r : Cursor) → Calm (read_edge r)
unfolding read_edge
read_edge-Calm r = bind-Calm _ (read_u32-Calm r) λ (idx, r1).
    bind-Calm _ (read_u8-Calm r1)
      λ (sel, r2). if-Calm _ (calm_ok _) (bind-Calm _ (port_kind_of-Calm sel) λ kind. calm_ok _)

read_edges-Calm : (k l : PortKind) (rec : Record) (r : Cursor) → Calm (read_edges k l rec r)
unfolding read_edges
read_edges-Calm k l rec r =
    bind-Calm _ (read_edge-Calm r) λ (e0, r1). bind-Calm _ (read_edge-Calm r1) λ (e1, r2). calm_ok _

read_var-Calm : (rec : Record) (r : Cursor) → Calm (read_var rec r)
unfolding read_var with_var
read_var-Calm rec r = bind-Calm _ (read_u32-Calm r) λ (var_id, r1). if-Calm _ calm_err (calm_ok _)

read_rep-Calm : (rec : Record) (r : Cursor) → Calm (read_rep rec r)
unfolding read_rep
read_rep-Calm rec r = bind-Calm _ (read_u16-Calm r) λ (level, r1).
    bind-Calm _ (read_i16-Calm r1) λ (d0, r2). bind-Calm _ (read_i16-Calm r2) λ (d1, r3).
      read_edges-Calm aux0 aux1 (record rec { level = level; delta0 = d0; delta1 = d1 }) r3

read_record-Calm : (r : Cursor) → Calm (read_record r)
unfolding read_record read_fields
read_record-Calm r = bind-Calm _ (read_u8-Calm r) λ (kind, r1). if-Calm (kind == 0xFF) (calm_ok _) (
    if-Calm (kind == 0x04) (read_var-Calm (plain kind) r1) (
      if-Calm (kind == 0x01) (read_edges-Calm aux0 aux1 (plain kind) r1) (
        if-Calm (kind == 0x02) (read_edges-Calm principal aux1 (plain kind) r1) (
          if-Calm (kind == 0x03) (read_rep-Calm (plain kind) r1)
            (calm_err {e = DnxError.readback_incomplete})))))

pub read_records-Calm : (n : ℕ) (r : Cursor) → Calm (read_records n r)
unfolding read_records
read_records-Calm zero r = calm_ok _
read_records-Calm (suc n) r =
    bind-Calm _ (read_record-Calm r)
      λ (rec, r1). bind-Calm _ (read_records-Calm n r1) λ (rest, r2). calm_ok _
