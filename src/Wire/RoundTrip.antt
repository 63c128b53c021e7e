-- ===== src/Wire/RoundTrip.antt =====
-- Writing a message and reading it (crates/dnx-dist/src/wire.rs).
use dnet.Prelude.{
  ℕ, suc, ◌^◌, ◌<◌, ◌≡◌, refl, ap, ◌∙◌, sym, subst, Bool, true, false, not, Bool-cases, inl, inr,
  List, [], ◌∷◌, ◌++◌, arith, ◌==◌, ltb, length, length-append, if◌then◌else◌,
}
use dnet.Wire
use dnet.Codec.{fine, fault, ◌>>=◌, Blake3Hash, Cursor, put_u32, from_le_bytes}
use dnet.Wire.{
  Msg, want, have, blobs, held, failed, Outcome, Decoder, as_u32, max_frame, concat_hashes,
  encode_hashes, encode_pairs, byte_of, bytes_of, encode_body, write_msg, take_bytes, take_u8,
  take_u32, take_hash, finish, decode_many, decode_hashes, decode_pair, decode_bit, decode_failed,
  decode_payload, decode_body, read_exact, read_msg,
}
use dnet.Codec.Parts.{
  >>=-eq-fine, fine-injective, All, Is32, At-whole, At-fst, At-snd, Takes, seq-Takes, map-Takes,
  from_le_bytes-put_u32, length-put_u32, ++-assoc, take-append, drop-append,
}
use dnet.Wire.Parts.{take_bytes-Takes, take_u8-Takes, take_u32-Takes, take_hash-Takes}

as_u32-fine : (n v : ℕ) → as_u32 n ≡ fine v → (v ≡ n) × (n < 2 ^ 32)
unfolding as_u32
as_u32-fine n v e = elim (Bool-cases (ltb n (2 ^ 32))) [
  | inl small ↦ let got : as_u32 n ≡ fine n = rw small refl in (cc, ground arith)
  | inr big ↦ absurd (ground arith)
]

-- One item, and the others.
cons-Takes :
    {A : Type 0} {item : Decoder A} {xs : List ℕ} {a : A} (n : ℕ) (ys : List ℕ) (l : List A)
    → Takes item xs a
    → Takes (decode_many item n) ys l
    → Takes (decode_many item (suc n)) (xs ++ ys) (a ∷ l)
unfolding decode_many
cons-Takes {item = item} {a = a} n ys l t u =
    seq-Takes ys (λ a c'. decode_many item n c' >>= λ (l, c''). fine (a ∷ l, c'')) t
      (map-Takes (λ l. a ∷ l) u)

none-Takes : {A : Type 0} (item : Decoder A) → Takes (decode_many item 0) [] []
unfolding decode_many
none-Takes item = record {
  takes = λ bytes pos small h. ap (λ p. fine ([], record { bytes = bytes; pos = p })) (omega arith);
}

hashes-Takes :
    (l : List Blake3Hash)
    → All Is32 l
    → Takes (decode_many take_hash (length l)) (concat_hashes l) l
unfolding concat_hashes
hashes-Takes [] all = none-Takes take_hash
hashes-Takes (h ∷ l) (e, all) =
    cons-Takes (length l) (concat_hashes l) l (take_hash-Takes h e) (hashes-Takes l all)

bit-Takes : (b : Bool) → Takes decode_bit (byte_of b ∷ []) b
unfolding decode_bit
bit-Takes true = map-Takes (λ b. not (b == 0)) (take_u8-Takes 1)
bit-Takes false = map-Takes (λ b. not (b == 0)) (take_u8-Takes 0)

bits-Takes : (l : List Bool) → Takes (decode_many decode_bit (length l)) (bytes_of l) l
unfolding bytes_of
bits-Takes [] = none-Takes decode_bit
bits-Takes (b ∷ l) = cons-Takes (length l) (bytes_of l) l (bit-Takes b) (bits-Takes l)

pair-Takes :
    (h : Blake3Hash) (blob : List ℕ)
    → Is32 h
    → length blob < 2 ^ 32
    → Takes decode_pair (h ++ (put_u32 (length blob) ++ blob)) (h, blob)
unfolding decode_pair
pair-Takes h blob e lt =
    seq-Takes (put_u32 (length blob) ++ blob)
      (λ h c'. take_u32 c' >>= λ (n, c''). take_bytes n c'' >>= λ (blob, c3). fine ((h, blob), c3))
      (take_hash-Takes h e)
      (seq-Takes blob (λ n c''. take_bytes n c'' >>= λ (blob, c3). fine ((h, blob), c3))
        (take_u32-Takes (length blob) lt) (map-Takes (λ blob. (h, blob)) (take_bytes-Takes blob)))

pairs-Takes :
    (l : List (Blake3Hash × List ℕ)) {bs : List ℕ}
    → All (λ p. Is32 p.0) l
    → encode_pairs l ≡ fine bs
    → Takes (decode_many decode_pair (length l)) bs l
unfolding encode_pairs
pairs-Takes [] all e =
    subst (λ bs. Takes (decode_many decode_pair 0) bs []) (fine-injective e)
      (none-Takes decode_pair)
pairs-Takes ((h, blob) ∷ l) (e32, all) e =
    let (n, en, e1) = >>=-eq-fine (as_u32 (length blob)) _ e in
    let (same, lt) = as_u32-fine (length blob) n en in
    let (rest, er, e2) = >>=-eq-fine (encode_pairs l) _ e1 in
    let joined =
      ++-assoc h (put_u32 (length blob) ++ blob) rest
      ∙ (ap (λ l. h ++ l) (++-assoc (put_u32 (length blob)) blob rest)
          ∙ (ap (λ n. h ++ (put_u32 n ++ (blob ++ rest))) (sym same) ∙ fine-injective e2)) in
    subst (λ bs. Takes (decode_many decode_pair (suc (length l))) bs ((h, blob) ∷ l)) joined
      (cons-Takes (length l) rest l (pair-Takes h blob e32 lt) (pairs-Takes l all er))

counted-Takes :
    {A : Type 0} (item : Decoder A) (n : ℕ) {xs : List ℕ} {l : List A} (f : List A → Msg)
    → n < 2 ^ 32
    → Takes (decode_many item n) xs l
    → Takes
        (λ c. take_u32 c >>= λ (n, c'). decode_many item n c' >>= λ (l, c''). fine (f l, c''))
        (put_u32 n ++ xs)
        (f l)
counted-Takes item n {xs} f lt t =
    seq-Takes xs (λ n c'. decode_many item n c' >>= λ (l, c''). fine (f l, c''))
      (take_u32-Takes n lt) (map-Takes f t)

module _ (is_utf8 : List ℕ → Bool) where
  -- The hashes of the message have 32 bytes, and its text is UTF-8.
  abbrev pub IsMsg : Msg → Type 0
  IsMsg (want l) = All Is32 l
  IsMsg (have l) = All Is32 l
  IsMsg (blobs l) = All (λ p. Is32 p.0) l
  IsMsg (held l) = Unit
  IsMsg (failed kind why) = is_utf8 why ≡ true

  -- A body is a tag and a payload that is decoded to the message.
  abbrev Encoded : Msg → List ℕ → Type 0
  Encoded m body =
      (tag : ℕ) × (p : List ℕ) × (body ≡ tag ∷ p) × Takes (decode_payload is_utf8 tag) p m

  hashes-counted :
      (l : List Blake3Hash) (f : List Blake3Hash → Msg)
      → All Is32 l
      → length l < 2 ^ 32
      → Takes
          (λ c. decode_hashes c >>= λ (l, c'). fine (f l, c'))
          (put_u32 (length l) ++ concat_hashes l)
          (f l)
  unfolding decode_hashes
  hashes-counted l f all lt = map-Takes f (
      seq-Takes (concat_hashes l) (λ n c'. decode_many take_hash n c')
        (take_u32-Takes (length l) lt) (hashes-Takes l all))

  failed-Takes :
      (kind : ℕ) (why : List ℕ)
      → is_utf8 why ≡ true
      → length why < 2 ^ 32
      → Takes (decode_failed is_utf8) (kind ∷ (put_u32 (length why) ++ why)) (failed kind why)
  unfolding decode_failed
  failed-Takes kind why utf8 lt =
      seq-Takes (put_u32 (length why) ++ why)
        (λ kind c'. take_u32 c' >>= λ (n, c''). take_bytes n c'' >>= λ (why, c3). text kind why c3)
        (take_u8-Takes kind)
        (seq-Takes why (λ n c''. take_bytes n c'' >>= λ (why, c3). text kind why c3)
          (take_u32-Takes (length why) lt)
          (record {
            takes = λ bytes pos small h.
                ap (λ r. r >>= λ (why, c3). text kind why c3)
                  ((take_bytes-Takes why).takes bytes pos small h)
                ∙ rw utf8 refl;
          }))
    where
      text : ℕ → List ℕ → Cursor → Outcome (Msg × Cursor)
      text kind why c3 =
          if is_utf8 why
          then fine (failed kind why, c3)
          else fault (Wire.invalid_data "Failed message is not utf-8")

  encode_body-Encoded :
      (m : Msg) {body : List ℕ} → IsMsg m → encode_body m ≡ fine body → Encoded m body
  unfolding encode_body encode_hashes decode_payload
  encode_body-Encoded (want l) all e =
      let (bs, eb, e1) = >>=-eq-fine (encode_hashes l) _ e in
      let (n, en, e2) = >>=-eq-fine (as_u32 (length l)) _ eb in
      let (same, lt) = as_u32-fine (length l) n en in
      (
        0x10,
        put_u32 (length l) ++ concat_hashes l,
        rw (sym same) (cc),
        hashes-counted l want all lt,
      )
  encode_body-Encoded (have l) all e =
      let (bs, eb, e1) = >>=-eq-fine (encode_hashes l) _ e in
      let (n, en, e2) = >>=-eq-fine (as_u32 (length l)) _ eb in
      let (same, lt) = as_u32-fine (length l) n en in
      (
        0x11,
        put_u32 (length l) ++ concat_hashes l,
        rw (sym same) (cc),
        hashes-counted l have all lt,
      )
  encode_body-Encoded (blobs l) all e =
      let (n, en, e1) = >>=-eq-fine (as_u32 (length l)) _ e in
      let (same, lt) = as_u32-fine (length l) n en in
      let (bs, eb, e2) = >>=-eq-fine (encode_pairs l) _ e1 in
      (
        0x90,
        put_u32 (length l) ++ bs,
        (cc),
        counted-Takes decode_pair (length l) blobs lt (pairs-Takes l all eb),
      )
  encode_body-Encoded (held l) all e =
      let (n, en, e1) = >>=-eq-fine (as_u32 (length l)) _ e in
      let (same, lt) = as_u32-fine (length l) n en in
      (
        0x91,
        put_u32 (length l) ++ bytes_of l,
        rw (sym same) (cc),
        counted-Takes decode_bit (length l) held lt (bits-Takes l),
      )
  encode_body-Encoded (failed kind why) utf8 e =
      let (n, en, e1) = >>=-eq-fine (as_u32 (length why)) _ e in
      let (same, lt) = as_u32-fine (length why) n en in
      (
        0x9F,
        kind ∷ (put_u32 (length why) ++ why),
        rw (sym same) (cc),
        failed-Takes kind why utf8 lt,
      )

  decode_body-Takes :
      (tag : ℕ) (p : List ℕ) (m : Msg)
      → length (tag ∷ p) < 2 ^ 64
      → Takes (decode_payload is_utf8 tag) p m
      → decode_body is_utf8 (tag ∷ p) ≡ fine m
  unfolding decode_body finish
  decode_body-Takes tag p m small t =
      let start = At-whole (tag ∷ p) in
      let e1 = (take_u8-Takes tag).takes (tag ∷ p) 0 small (At-fst (tag ∷ []) p start) in
      let e2 = t.takes (tag ∷ p) 1 small (At-snd (tag ∷ []) p start) in
      ap
        (λ r. r >>= λ (tag, c).
          decode_payload is_utf8 tag c >>= λ (msg, c'). finish c' >>= λ u. fine msg)
        e1
      ∙ (ap (λ r. r >>= λ (msg, c'). finish c' >>= λ u. fine msg) e2 ∙ ground arith)

  read_exact-append :
      (xs rest : List ℕ) (n : ℕ)
      → length xs ≡ n
      → read_exact is_utf8 n (xs ++ rest) ≡ fine (xs, rest)
  unfolding read_exact
  read_exact-append xs rest n e =
      subst (λ n. read_exact is_utf8 n (xs ++ rest) ≡ fine (xs, rest)) e
        (rw (take-append xs rest, drop-append xs rest) (ground (arith, length-append {0} xs rest)))

  -- What `write_msg` wrote for a message with hashes of 32 bytes and a text that is UTF-8,
  -- `read_msg` reads as the same message, whatever follows it on the stream, which is left unread.
  pub write_msg-read_msg :
      (m : Msg) (frame rest : List ℕ)
      → IsMsg m
      → write_msg m ≡ fine frame
      → read_msg is_utf8 (frame ++ rest) ≡ fine (m, rest)
  unfolding write_msg read_msg
  write_msg-read_msg m frame rest valid e =
      let (body, eb, e1) = >>=-eq-fine (encode_body m) _ e in
      let (len, el, e2) = >>=-eq-fine (as_u32 (length body)) _ e1 in
      let (same, lt) = as_u32-fine (length body) len el in
      let (tag, p, whole, t) = encode_body-Encoded m valid eb in
      let decoded : decode_body is_utf8 body ≡ fine m =
        subst (λ b. decode_body is_utf8 b ≡ fine m) (sym whole)
          (decode_body-Takes tag p m (omega (arith, ap (λ l. length l) whole)) t) in
      let (under, joined) = opened (ltb max_frame len) (put_u32 len ++ body) e2 in
      let number = from_le_bytes-put_u32 len (omega arith) in
      let head = read_exact-append (put_u32 len) (body ++ rest) 4 (length-put_u32 len) in
      let tail = read_exact-append body rest len (sym same) in
      let stream = ap (λ f. f ++ rest) joined ∙ ++-assoc (put_u32 len) body rest in
      ap (λ s. read_msg is_utf8 s) stream
      ∙ (ap (λ r. r >>= λ (len_buf, s'). after (from_le_bytes len_buf) s') head
          ∙ (ap (λ n. after n (body ++ rest)) number
              ∙ rw under (
                  ap (λ r. r >>= λ (body, s''). decode_body is_utf8 body >>= λ msg. fine (msg, s''))
                    tail
                  ∙ ap (λ r. r >>= λ msg. fine (msg, rest)) decoded)))
    where
      opened :
          (b : Bool) (x : List ℕ) {f : List ℕ}
          → (if b then fault (Wire.invalid_data "frame exceeds MAX_FRAME") else fine x) ≡ fine f
          → (b ≡ false) × (f ≡ x)
      opened true x e = cc
      opened false x e = (refl, cc)

      after : ℕ → List ℕ → Outcome (Msg × List ℕ)
      after len s' =
          if ltb max_frame len
          then fault (Wire.invalid_data "incoming frame exceeds MAX_FRAME")
          else (read_exact is_utf8 len s' >>= λ (body, s'').
              decode_body is_utf8 body >>= λ msg. fine (msg, s''))
