-- ===== src/CanonHash/Peers.antt =====
-- The ports that the walk of crates/dnx-core/src/canonical_hash.rs looks at.
use dnet.Prelude.{
  ℕ, ◌^◌, ◌<◌, ◌≡◌, ◌≢◌, sym, ◌∙◌, refl, false, some, arith, get_elem?, ◌==◌, Bool-cases, inl, inr,
}
use dnet.Error.{ok}
use dnet.Port.{PortId, PortKind, slot_idx, port_kind, is_eraser, is_null, gen_low}
use dnet.Port.Fields.{new_fields}
use dnet.Slot.{Slot}
use dnet.Net.{Net, slot_at, peer, field}
use dnet.CanonHash.{port_of}

pub slot_at-eq :
    (n : Net) (i : ℕ) {s : Slot} → get_elem? n.arena.slots i ≡ some s → slot_at i n ≡ (ok s, n)
unfolding slot_at
slot_at-eq n i e = rw (e, slot_at) refl

not_null : (r : PortId) → slot_idx r ≢ 0 → is_null r ≡ false
unfolding is_null slot_idx
not_null r ne = elim (Bool-cases (r == 0)) [
  | inl zero ↦ let e : r ≡ 0 = ground arith in absurd (ne (omega arith))
  | inr other ↦ other
]

-- A port of an agent, of any kind.
pub record Plain (p : PortId) (k : PortKind) : Type 0 where
  pub not_eraser : is_eraser (port_of p k) ≡ false
  pub same_slot : slot_idx (port_of p k) ≡ slot_idx p
  pub of_kind : port_kind (port_of p k) ≡ k
  pub nonnull : slot_idx p ≢ 0 → is_null (port_of p k) ≡ false

pub port_of-Plain : (p : PortId) (k : PortKind) → slot_idx p < 2 ^ 28 → Plain p k
port_of-Plain p k small =
    let (at, kind, gen, plain, w) = new_fields (slot_idx p) k (gen_low p) small in
    record {
      not_eraser = plain;
      same_slot = at;
      of_kind = kind;
      nonnull = λ ne. not_null (port_of p k) (λ e. ne (sym at ∙ e));
    }

pub peer-eq :
    (n : Net) (r : PortId) {s : Slot}
    → is_eraser r ≡ false
    → is_null r ≡ false
    → get_elem? n.arena.slots (slot_idx r) ≡ some s
    → peer r n ≡ (ok (field (port_kind r) s), n)
unfolding peer
peer-eq n r agent live e = rw (agent, live, slot_at-eq n (slot_idx r) e) refl
