-- ===== src/Daemon/Parts.antt =====
-- crates/dnx-daemon/src/proto.rs: what the decoders take, and frames.
use dnet.Prelude.{
  ℕ, ◌+◌, ◌^◌, ◌<◌, ◌≤◌, ◌≡◌, refl, ap, ap₂, ◌∙◌, subst, true, false, Bool-cases, inl, inr, List,
  [], ◌∷◌, ◌++◌, arith, ltb, leb, length, length-append, take, drop, if◌then◌else◌,
}
use dnet.Codec.{fine, fault, ◌>>=◌, Blake3Hash, put_u32, from_le_bytes, first_byte}
use dnet.Codec.Parts.{
  At-whole, At-fst, At-snd, Takes, seq-Takes, map-Takes, slice-At, inside-At, from_le_bytes-put_u32,
  length-put_u32, Is32, take-append, drop-append, ++-assoc,
}
use dnet.Daemon.{
  DaemonError, frame_too_large, io_eof, max_frame, Outcome, Decoder, write_frame, read_frame,
  put_bytes, take_bytes, take_tag, take_u32, take_hash, take_blob, finish, decode_with,
}

take_bytes-Takes : (xs : List ℕ) → Takes (take_bytes (length xs)) xs xs
unfolding take_bytes
take_bytes-Takes xs = record {
  takes = λ bytes pos small h.
      let inside = inside-At xs h in let got = slice-At xs h in ground (arith, got);
}

pub take_tag-Takes : (b : ℕ) → Takes take_tag (b ∷ []) b
unfolding take_tag first_byte
take_tag-Takes b = map-Takes first_byte (take_bytes-Takes (b ∷ []))

pub take_u32-Takes : (n : ℕ) → n < 2 ^ 32 → Takes take_u32 (put_u32 n) n
unfolding take_u32 put_u32
take_u32-Takes n lt =
    subst (λ v. Takes take_u32 (put_u32 n) v) (from_le_bytes-put_u32 n lt)
      (map-Takes from_le_bytes (take_bytes-Takes (put_u32 n)))

pub take_hash-Takes : (h : Blake3Hash) → Is32 h → Takes take_hash h h
unfolding take_hash
take_hash-Takes h e = subst (λ n. Takes (take_bytes n) h h) e (take_bytes-Takes h)

pub take_blob-Takes : (b : List ℕ) → length b < 2 ^ 32 → Takes take_blob (put_bytes b) b
unfolding take_blob put_bytes
take_blob-Takes b lt =
    seq-Takes b (λ n c'. take_bytes n c') (take_u32-Takes (length b) lt) (take_bytes-Takes b)

-- A decoder that reads nothing.
pub nothing-Takes : {A : Type 0} (a : A) → Takes {E = DaemonError} (λ c. fine (a, c)) [] a
nothing-Takes a = record {
  takes = λ bytes pos small h. ap (λ p. fine (a, record { bytes = bytes; pos = p })) (omega arith);
}

pub decode_with-Takes :
    {A : Type 0} (of : ℕ → Decoder A) (tag : ℕ) (p : List ℕ) (a : A)
    → length p < 2 ^ 32
    → Takes (of tag) p a
    → decode_with of (tag ∷ p) ≡ fine a
unfolding decode_with finish
decode_with-Takes of tag p a lt t =
    let start = At-whole (tag ∷ p) in
    let e1 = (take_tag-Takes tag).takes (tag ∷ p) 0 (omega arith) (At-fst (tag ∷ []) p start) in
    let e2 = t.takes (tag ∷ p) 1 (omega arith) (At-snd (tag ∷ []) p start) in
    ap (λ r. r >>= λ (tag, c). of tag c >>= λ (a, c'). finish c' >>= λ u. fine a) e1
    ∙ (ap (λ r. r >>= λ (a, c'). finish c' >>= λ u. fine a) e2 ∙ ground arith)

pub length-put_bytes : (b : List ℕ) → length (put_bytes b) ≡ 4 + length b
unfolding put_bytes
length-put_bytes b = omega (arith, length-append (put_u32 (length b)) b, length-put_u32 (length b))

written :
    (body s : List ℕ)
    → write_frame body ≡ fine s
    → (length body ≤ max_frame) × (s ≡ put_u32 (length body) ++ body)
unfolding write_frame
written body s e = elim (Bool-cases (leb (2 ^ 32) (length body))) [
  | inl huge ↦ cc
  | inr small ↦ elim (Bool-cases (ltb max_frame (length body))) [
    | inl long ↦ cc
    | inr short ↦ (ground arith, cc)
  ]
]

-- What `read_frame` does behind the prefix.
abbrev framed : List ℕ → List ℕ → Outcome (List ℕ × List ℕ)
framed prefix rest =
    if ltb max_frame (from_le_bytes prefix)
    then fault frame_too_large
    else if leb (from_le_bytes prefix) (length rest)
    then fine (take (from_le_bytes prefix) rest, drop (from_le_bytes prefix) rest)
    else fault io_eof

framed-append :
    (body rest : List ℕ)
    → length body ≤ max_frame
    → framed (put_u32 (length body)) (body ++ rest) ≡ fine (body, rest)
framed-append body rest le =
    let number = from_le_bytes-put_u32 (length body) (omega arith) in
    let total = length-append body rest in
    let under : ltb max_frame (length body) ≡ false = ground arith in
    let enough : leb (length body) (length (body ++ rest)) ≡ true = ground arith in
    rw number (
      rw under
        (rw enough (ap₂ (λ a b. fine (a, b)) (take-append body rest) (drop-append body rest))))

read_frame-framed : (t : List ℕ) → 4 ≤ length t → read_frame t ≡ framed (take 4 t) (drop 4 t)
unfolding read_frame
read_frame-framed t le =
    let long : ltb (length t) 4 ≡ false = ground arith in rw (long, read_frame) refl

-- A frame that was written is read, and the rest of the stream is left.
pub write_frame-read_frame :
    (body s rest : List ℕ)
    → write_frame body ≡ fine s
    → (length body < 2 ^ 32) × (read_frame (s ++ rest) ≡ fine (body, rest))
write_frame-read_frame body s rest e =
    let (le, shape) = written body s e in
    let prefix = put_u32 (length body) in
    let four = length-put_u32 (length body) in
    let stream : s ++ rest ≡ prefix ++ (body ++ rest) =
      ap (λ f. f ++ rest) shape ∙ ++-assoc prefix body rest in
    let long = length-append prefix (body ++ rest) in
    let front =
      subst (λ n. take n (prefix ++ (body ++ rest)) ≡ prefix) four
        (take-append prefix (body ++ rest)) in
    let back =
      subst (λ n. drop n (prefix ++ (body ++ rest)) ≡ body ++ rest) four
        (drop-append prefix (body ++ rest)) in
    (
      omega arith,
      ap read_frame stream
          ∙ (read_frame-framed (prefix ++ (body ++ rest)) (omega arith)
              ∙ (ap₂ framed front back ∙ framed-append body rest le)),
    )
