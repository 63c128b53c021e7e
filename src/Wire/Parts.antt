-- ===== src/Wire/Parts.antt =====
-- What the decoders of crates/dnx-dist/src/wire.rs take.
use dnet.Prelude.{ℕ, ◌^◌, ◌<◌, ◌≡◌, subst, List, [], ◌∷◌, arith, length}
use dnet.Codec.{Blake3Hash, put_u32, from_le_bytes, first_byte}
use dnet.Codec.Parts.{Takes, map-Takes, slice-At, inside-At, from_le_bytes-put_u32}
use dnet.Wire.{take_bytes, take_u8, take_u32, take_hash}

pub take_bytes-Takes : (xs : List ℕ) → Takes (take_bytes (length xs)) xs xs
unfolding take_bytes
take_bytes-Takes xs = record {
  takes = λ bytes pos small h.
      let inside = inside-At xs h in let got = slice-At xs h in ground (arith, got);
}

pub take_u8-Takes : (b : ℕ) → Takes take_u8 (b ∷ []) b
unfolding take_u8 first_byte
take_u8-Takes b = map-Takes first_byte (take_bytes-Takes (b ∷ []))

pub take_u32-Takes : (n : ℕ) → n < 2 ^ 32 → Takes take_u32 (put_u32 n) n
unfolding take_u32 put_u32
take_u32-Takes n lt =
    subst (λ v. Takes take_u32 (put_u32 n) v) (from_le_bytes-put_u32 n lt)
      (map-Takes from_le_bytes (take_bytes-Takes (put_u32 n)))

pub take_hash-Takes : (h : Blake3Hash) → length h ≡ 32 → Takes take_hash h h
unfolding take_hash
take_hash-Takes h e = subst (λ n. Takes (take_bytes n) h h) e (take_bytes-Takes h)
