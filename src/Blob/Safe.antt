-- ===== src/Blob/Safe.antt =====
-- The net of any bytes (crates/dnx-core/src/blob.rs): no bytes make the decoder panic, and what it
-- accepts is a safe net without redexes.
use dnet.Prelude.{
  ℕ, zero, suc, ◌+◌, ◌≤◌, ◌<◌, ◌≡◌, refl, ap, Bool, true, false, none, some, Option-cases, List, [],
  ◌∷◌, arith, ◌==◌, length, get_elem?, Bool-cases, inl, inr, if◌then◌else◌,
}
use dnet.Error.{DnxError, Result, ok, err, ◌>>=◌ as bind}
use dnet.Port
use dnet.Port.{PortId, PortKind, principal, aux0, aux1, slot_idx, gen_low}
use dnet.Port.Fields.{new_fields}
use dnet.Net.{
  Net, NetClass, Action, and_then, is_empty, net_pending_c1, certify_canonical, alloc_abs,
  alloc_app, alloc_rep_in,
}
use dnet.Net.Safe.{
  size, InNet, IsSafe, Returns, returns, fails, and_then-Returns, if-Returns, done-Returns, Same,
  Same-trans,
}
use dnet.Net.Keeps.{mono-Returns, connect-Returns, new-IsSafe}
use dnet.Net.Free.{alloc_free-Returns}
use dnet.Net.Chain.{Calm, calm_ok, calm_err}
use dnet.Rules.Grow.{alloc-bind}
use dnet.Arena.Alloc.{get_elem?-in}
use dnet.Net.Ordered.{Frontier}
use dnet.CanonHash.{canon_hash_v1}
use dnet.LoPath.{root}
use dnet.Blob.{
  Edge, Record, alloc_record, alloc_records, port_at, resolve, wire_edges, index, wire_records,
  rebuild, certified, build, read_body, from_blob,
}
use dnet.Blob.Reads.{read_u8-Calm, read_u32-Calm, read_records-Calm}

-- Ports that lead to one of `k` slots.
record AllIn (k : ℕ) (ps : List PortId) : Type 0 where
  all_in : (i : ℕ) (p : PortId) → get_elem? ps i ≡ some p → slot_idx p < k

cons-AllIn :
    {k : ℕ} {p : PortId} {ps : List PortId} → slot_idx p < k → AllIn k ps → AllIn k (p ∷ ps)
cons-AllIn {k} {p} {ps} at h = record { all_in = on }
  where
    on : (i : ℕ) (q : PortId) → get_elem? (p ∷ ps) i ≡ some q → slot_idx q < k
    on zero q e = let same : p ≡ q = cc in rw (← same) at
    on (suc i) q e = h.all_in i q e

-- What allocating leaves: a port that leads to a slot, and no slot fewer.
record Placed (n : Net) (p : PortId) (m : Net) : Type 0 where
  larger : size n ≤ size m
  at : InNet m p

alloc_record-Returns : {n : Net} (rec : Record) → IsSafe n → Returns (Placed n) (alloc_record rec n)
unfolding alloc_record alloc_abs alloc_app alloc_rep_in slot_idx
alloc_record-Returns {n} rec safe =
    let low = safe.valid.sentinel in
    if-Returns (rec.kind == 0xFF) _ _
      (returns safe (record { larger = omega arith; at = omega arith }))
      (if-Returns (rec.kind == 0x04) _ _
        (mono-Returns (alloc_free-Returns rec.var_id safe)
          λ p m new. record { larger = new.grown.size_grown; at = new.new_port })
        (if-Returns (rec.kind == 0x01) _ _
          (alloc-bind _ _ _ _ _ safe
            λ ps m safe g i. returns safe (record { larger = g.size_grown; at = i.in_principal }))
          (if-Returns (rec.kind == 0x02) _ _
            (alloc-bind _ _ _ _ _ safe
              λ ps m safe g i. returns safe (record { larger = g.size_grown; at = i.in_principal }))
            (if-Returns (rec.kind == 0x03) _ _
              (alloc-bind _ _ _ _ _ safe λ ps m safe g i.
                returns safe (record { larger = g.size_grown; at = i.in_principal }))
              (fails safe)))))

alloc_records-Returns :
    {n : Net} (l : List Record)
    → IsSafe n
    → Returns
        (λ ps m. (size n ≤ size m) × AllIn (size m) ps × (length ps ≡ length l))
        (alloc_records l n)
unfolding alloc_records
alloc_records-Returns {n} [] safe =
    returns safe (omega arith, record { all_in = λ i p e. cc }, refl)
alloc_records-Returns {n} (rec ∷ l) safe =
    and_then-Returns (alloc_record-Returns rec safe) λ p m safe placed.
      and_then-Returns (alloc_records-Returns l safe) λ ps m' safe (le, h, long).
        returns safe
          (omega (arith, placed.larger), cons-AllIn (omega (arith, placed.at)) h, ap suc long)

-- A port of the agent at a port, of any kind.
sibling-In :
    {n : Net} (p : PortId) (kind : PortKind)
    → IsSafe n
    → InNet n p
    → InNet n (Port.new (slot_idx p) kind (gen_low p))
sibling-In p kind safe at =
    let small = safe.small in
    omega (arith, (new_fields (slot_idx p) kind (gen_low p) (omega arith)).0)

-- What a resolved edge leads to.
resolve-bind :
    {B : Type 0} {R : B → Net → Type 0} {n : Net} (slots : List PortId) (edge : Edge)
    (k : PortId → Action B)
    → IsSafe n
    → AllIn (size n) slots
    → ((p : PortId) → InNet n p → Returns R (k p n))
    → Returns R (and_then (resolve slots edge, n) k)
unfolding resolve port_at slot_idx
resolve-bind slots none k safe h next = let low = safe.valid.sentinel in next Port.era (omega arith)
resolve-bind {n = n} slots (some (idx, kind)) k safe h next =
    elim (Option-cases (get_elem? slots idx)) [
      | inl out ↦ rw (out, port_at) (fails safe)
      | inr (p, here) ↦
          rw (here, port_at) (next _ (sibling-In {n = n} p kind safe (h.all_in idx p here)))
    ]

Same-AllIn : {n m : Net} {ps : List PortId} → Same n m → AllIn (size n) ps → AllIn (size m) ps
Same-AllIn same h = record { all_in = λ i p e. omega (arith, h.all_in i p e, same.size_same) }

wire_edges-Returns :
    {n : Net} (slots : List PortId) (base : PortId) (l : List (PortKind × Edge))
    → IsSafe n
    → AllIn (size n) slots
    → InNet n base
    → Returns (λ _. Same n) (wire_edges slots base l n)
unfolding wire_edges
wire_edges-Returns slots base [] safe h at = done-Returns safe
wire_edges-Returns slots base ((kind, edge) ∷ l) safe h at =
    resolve-bind slots edge _ safe h λ dst to.
      and_then-Returns (connect-Returns _ dst root safe (sibling-In base kind safe at) to)
        λ _ m safe same.
          mono-Returns
            (wire_edges-Returns slots base l safe (Same-AllIn same h)
              (omega (arith, same.size_same)))
            λ _ m' same'. Same-trans same same'

wire_records-Returns :
    {n : Net} (slots : List PortId) (i : ℕ) (l : List Record)
    → IsSafe n
    → AllIn (size n) slots
    → i + length l ≤ length slots
    → Returns (λ _. Same n) (wire_records slots i l n)
unfolding wire_records index
wire_records-Returns slots i [] safe h fits = done-Returns safe
wire_records-Returns {n} slots i (rec ∷ l) safe h fits =
    let (p, here) = get_elem?-in slots i (omega arith) in
    rw (here, index)
      (and_then-Returns (wire_edges-Returns slots p rec.edges safe h (h.all_in i p here))
        λ _ m safe same.
          mono-Returns (wire_records-Returns slots (suc i) l safe (Same-AllIn same h) (omega arith))
            λ _ m' same'. Same-trans same same')

rebuild-Returns :
    {n : Net} (rec : Record) (l : List Record)
    → IsSafe n
    → Returns (λ p m. InNet m p) (rebuild (rec ∷ l) n)
unfolding rebuild index
rebuild-Returns rec l safe =
    and_then-Returns (alloc_records-Returns (rec ∷ l) safe) λ slots m safe (le, h, long).
      and_then-Returns (wire_records-Returns slots 0 (rec ∷ l) safe h (omega arith))
        λ _ m' safe same.
          let (p, here) = get_elem?-in slots 0 (omega arith) in
          let at = h.all_in 0 p here in
          rw (here, index) (returns safe (omega (arith, same.size_same)))

-- What is accepted: a safe net without redexes, and a root in it.
pub record Accepted (n : Net) (p : PortId) : Type 0 where
  pub safe : IsSafe n
  pub root_in : InNet n p
  pub no_pair : n.frontier1 ≡ []
  pub no_candidate : n.frontier2 ≡ []

-- No panic, and what is accepted is as said.
pub data Decoded : Result (Net × PortId) → Type 0 where
  decoded : {n : Net} {p : PortId} → Accepted n p → Decoded (ok (n, p))
  refused : {e : DnxError} → Decoded (err e)

nil-eq : {V : Type 0} (f : Frontier V) → is_empty f ≡ true → f ≡ []
nil-eq [] e = refl
nil-eq (x ∷ f) e = cc

certified-Decoded : {r : Result PortId × Net} → Returns (λ p m. InNet m p) r → Decoded (certified r)
unfolding certified certify_canonical
certified-Decoded (fails safe) = refused
certified-Decoded (returns {a = p} {n} safe at) = elim (Bool-cases (is_empty n.frontier1)) [
  | inr redex ↦ rw redex refused
  | inl calm ↦ elim (Bool-cases (is_empty n.frontier2)) [
    | inr redex ↦ rw (calm, redex) refused
    | inl calm' ↦ elim (Bool-cases (net_pending_c1 n)) [
      | inl pending ↦ rw (calm, calm', pending) refused
      | inr clear ↦
          rw (calm, calm', clear)
            (decoded (record {
              safe = safe;
              root_in = at;
              no_pair = nil-eq n.frontier1 calm;
              no_candidate = nil-eq n.frontier2 calm';
            }))
    ]
  ]
]

build-Decoded : (c : NetClass) (l : List Record) → Decoded (build c l)
unfolding build
build-Decoded c [] = refused
build-Decoded c (rec ∷ l) = certified-Decoded (rebuild-Returns rec l (new-IsSafe c _))

Calm-Decoded :
    {A : Type 0} {r : Result A} (k : A → Result (Net × PortId))
    → Calm r
    → ((a : A) → Decoded (k a))
    → Decoded (bind r k)
Calm-Decoded k (calm_ok a) next = next a
Calm-Decoded k calm_err next = refused

if-Decoded :
    (b : Bool) {x : Result (Net × PortId)} (e : DnxError)
    → Decoded x
    → Decoded (if b then x else err e)
if-Decoded true e d = d
if-Decoded false e d = refused

-- `from_blob`, on any bytes and for any class of nets, does not panic in a release build, in which
-- the debug assertion on the level of a replicator is not checked: it ends in an error, or in a
-- safe net without a redex in either frontier, with a root whose index is that of a slot of the
-- net.
pub from_blob-Decoded : (c : NetClass) (bytes : List ℕ) → Decoded (from_blob c bytes)
unfolding from_blob read_body
from_blob-Decoded c bytes =
    Calm-Decoded _ (read_u8-Calm (record { bytes = bytes; pos = 0 })) λ (tag, r).
      if-Decoded (tag == canon_hash_v1) DnxError.readback_incomplete (
        Calm-Decoded _ (read_u32-Calm r) λ (n, r1).
          Calm-Decoded _ (read_records-Calm n r1) λ (records, r2).
            if-Decoded (r2.pos == length r2.bytes) DnxError.readback_incomplete
              (build-Decoded c records))
