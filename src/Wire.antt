-- ===== src/Wire.antt =====
-- crates/dnx-dist/src/wire.rs: the messages by which peers exchange blobs, their frames, and the
-- two sides of a connection. A byte is a number, a hash the list of its bytes. A stream is what is
-- read from it, or what is written to it. What `from_utf8` accepts, and the disk cache of a
-- peer, are parameters.
pub mod Parts
pub mod RoundTrip
pub mod Serve
use Prim.Native.String.{String}
use dnet.Codec.{
  Fallible, fine, fault, ◌>>=◌, Blake3Hash, Cursor, DecoderOf, put_u32, from_le_bytes, first_byte,
}
use dnet.Prelude.{
  ℕ, zero, suc, ◌+◌, ◌*◌, ◌/◌, ◌%◌, ◌^◌, Bool, true, false, not, Option, none, some, List, [], ◌∷◌,
  ◌++◌, ◌==◌, ltb, leb, length, take, drop, if◌then◌else◌,
}

-- What `CacheError` is here: an invalid message, the end of the stream, or an error of the cache.
pub data WireError : Type 0 where
  invalid_data : String → WireError
  unexpected_eof : WireError
  cache_error : ℕ → WireError

abbrev pub Outcome {ℓ} : Type ℓ → Type ℓ
Outcome A = Fallible WireError A

-- The text of `failed` is its UTF-8 bytes.
pub data Msg : Type 0 where
  want : List Blake3Hash → Msg
  blobs : List (Blake3Hash × List ℕ) → Msg
  have : List Blake3Hash → Msg
  held : List Bool → Msg
  failed : ℕ → List ℕ → Msg

abbrev pub max_frame : ℕ
max_frame = 256 * 2 ^ 20

unfoldable pub as_u32 : ℕ → Outcome ℕ
as_u32 n = if ltb n (2 ^ 32) then fine n else fault (invalid_data "length exceeds u32")

unfoldable pub concat_hashes : List Blake3Hash → List ℕ
concat_hashes [] = []
concat_hashes (h ∷ l) = h ++ concat_hashes l

unfoldable pub encode_hashes : List Blake3Hash → Outcome (List ℕ)
unfolding as_u32 concat_hashes
encode_hashes hashes = do n ← as_u32 (length hashes); fine (put_u32 n ++ concat_hashes hashes)

unfoldable pub encode_pairs : List (Blake3Hash × List ℕ) → Outcome (List ℕ)
unfolding as_u32
encode_pairs [] = fine []
encode_pairs ((h, blob) ∷ l) = do
  n ← as_u32 (length blob)
  rest ← encode_pairs l
  fine (h ++ (put_u32 n ++ (blob ++ rest)))

abbrev pub byte_of : Bool → ℕ
byte_of true = 1
byte_of false = 0

unfoldable pub bytes_of : List Bool → List ℕ
bytes_of [] = []
bytes_of (b ∷ l) = byte_of b ∷ bytes_of l

unfoldable pub encode_body : Msg → Outcome (List ℕ)
unfolding encode_hashes encode_pairs bytes_of as_u32
encode_body (want keys) = do l ← encode_hashes keys; fine (0x10 ∷ l)
encode_body (have keys) = do l ← encode_hashes keys; fine (0x11 ∷ l)
encode_body (blobs pairs) = do
  n ← as_u32 (length pairs)
  l ← encode_pairs pairs
  fine (0x90 ∷ (put_u32 n ++ l))
encode_body (held bits) = do n ← as_u32 (length bits); fine (0x91 ∷ (put_u32 n ++ bytes_of bits))
encode_body (failed kind why) = do n ← as_u32 (length why); fine (0x9F ∷ kind ∷ (put_u32 n ++ why))

-- What `write_msg` writes to its stream.
unfoldable pub write_msg : Msg → Outcome (List ℕ)
unfolding encode_body as_u32
write_msg m = do
  body ← encode_body m
  len ← as_u32 (length body)
  if ltb max_frame len
      then fault (invalid_data "frame exceeds MAX_FRAME")
      else fine (put_u32 len ++ body)

abbrev pub Decoder {ℓ} : Type ℓ → Type ℓ
Decoder A = DecoderOf WireError A

-- `Cursor::take`, with `checked_add` on `usize`.
unfoldable pub take_bytes : ℕ → Decoder (List ℕ)
take_bytes n c =
    let end = c.pos + n in
    if leb (2 ^ 64) end
    then fault (invalid_data "length overflow")
    else if leb end (length c.bytes)
    then fine (take n (drop c.pos c.bytes), record c { pos = end })
    else fault (invalid_data "frame body truncated")

unfoldable pub take_u8 : Decoder ℕ
unfolding take_bytes first_byte
take_u8 c = take_bytes 1 c >>= λ (b, c'). fine (first_byte b, c')

unfoldable pub take_u32 : Decoder ℕ
unfolding take_bytes from_le_bytes
take_u32 c = take_bytes 4 c >>= λ (b, c'). fine (from_le_bytes b, c')

unfoldable pub take_hash : Decoder Blake3Hash
unfolding take_bytes
take_hash c = take_bytes 32 c

unfoldable pub finish : Cursor → Outcome (Unit {0})
finish c =
    if c.pos == length c.bytes
    then fine tt
    else fault (invalid_data "frame body has trailing bytes")

-- `for _ in 0..n`, with one item decoded in each turn.
unfoldable pub decode_many {ℓ} : {A : Type ℓ} → Decoder A → ℕ → Decoder (List A)
decode_many item zero c = fine ([], c)
decode_many item (suc n) c =
    item c >>= λ (a, c'). decode_many item n c' >>= λ (l, c''). fine (a ∷ l, c'')

unfoldable pub decode_hashes : Decoder (List Blake3Hash)
unfolding take_u32 take_hash decode_many
decode_hashes c = take_u32 c >>= λ (n, c'). decode_many take_hash n c'

unfoldable pub decode_pair : Decoder (Blake3Hash × List ℕ)
unfolding take_u32 take_hash take_bytes
decode_pair c = take_hash c >>= λ (h, c').
    take_u32 c' >>= λ (n, c''). take_bytes n c'' >>= λ (blob, c3). fine ((h, blob), c3)

unfoldable pub decode_bit : Decoder Bool
unfolding take_u8
decode_bit c = take_u8 c >>= λ (b, c'). fine (not (b == 0), c')

module _ (is_utf8 : List ℕ → Bool) where
  unfoldable pub decode_failed : Decoder Msg
  unfolding take_u8 take_u32 take_bytes
  decode_failed c = take_u8 c >>= λ (kind, c'). take_u32 c' >>= λ (n, c'').
      take_bytes n c'' >>= λ (why, c3).
      if is_utf8 why
      then fine (failed kind why, c3)
      else fault (invalid_data "Failed message is not utf-8")

  -- The match of `read_msg` on the tag.
  unfoldable pub decode_payload : ℕ → Decoder Msg
  unfolding decode_hashes decode_pair decode_bit decode_many decode_failed take_u32
  decode_payload tag c =
      if tag == 0x10
      then (decode_hashes c >>= λ (l, c'). fine (want l, c'))
      else if tag == 0x11
      then (decode_hashes c >>= λ (l, c'). fine (have l, c'))
      else if tag == 0x90
      then (take_u32 c >>= λ (n, c').
          decode_many decode_pair n c' >>= λ (l, c''). fine (blobs l, c''))
      else if tag == 0x91
      then (take_u32 c >>= λ (n, c').
          decode_many decode_bit n c' >>= λ (l, c''). fine (held l, c''))
      else if tag == 0x9F
      then decode_failed c
      else fault (invalid_data "unknown wire tag")

  unfoldable pub decode_body : List ℕ → Outcome Msg
  unfolding take_u8 decode_payload finish
  decode_body body = take_u8 (record { bytes = body; pos = 0 }) >>= λ (tag, c).
      decode_payload tag c >>= λ (msg, c'). finish c' >>= λ u. fine msg

  -- `read_exact`: the bytes read, and the rest of the stream.
  unfoldable pub read_exact : ℕ → List ℕ → Outcome (List ℕ × List ℕ)
  read_exact n s = if leb n (length s) then fine (take n s, drop n s) else fault unexpected_eof

  unfoldable pub read_msg : List ℕ → Outcome (Msg × List ℕ)
  unfolding read_exact from_le_bytes decode_body
  read_msg s = read_exact 4 s >>= λ (len_buf, s').
      let len = from_le_bytes len_buf in
      if ltb max_frame len
      then fault (invalid_data "incoming frame exceeds MAX_FRAME")
      else (read_exact len s' >>= λ (body, s''). decode_body body >>= λ msg. fine (msg, s''))

-- The operations of a peer's `DiskCache` that a connection uses.
pub record DiskCache : Type 0 where
  pub export_blob : Blake3Hash → Outcome (Option (List ℕ))
  pub contains : Blake3Hash → Bool

unfoldable pub add_blob :
    Blake3Hash → Option (List ℕ) → List (Blake3Hash × List ℕ) → List (Blake3Hash × List ℕ)
add_blob k none l = l
add_blob k (some blob) l = (k, blob) ∷ l

-- The loop of `serve_conn` on the wanted keys.
unfoldable pub export_all : DiskCache → List Blake3Hash → Outcome (List (Blake3Hash × List ℕ))
unfolding add_blob
export_all cache [] = fine []
export_all cache (k ∷ keys) = do
  o ← cache.export_blob k
  l ← export_all cache keys
  fine (add_blob k o l)

unfoldable pub contained : DiskCache → List Blake3Hash → List Bool
contained cache [] = []
contained cache (k ∷ keys) = cache.contains k ∷ contained cache keys

-- The answer to a request; "unexpected request" is 18 bytes long.
unfoldable pub answer : DiskCache → Msg → Outcome Msg
unfolding export_all contained
answer cache (want keys) = do l ← export_all cache keys; fine (blobs l)
answer cache (have keys) = fine (held (contained cache keys))
answer cache _ = fine (failed 2 unexpected_request)
  where
    unexpected_request : List ℕ
    unexpected_request =
        117 ∷ 110 ∷ 101 ∷ 120 ∷ 112 ∷ 101 ∷ 99 ∷ 116 ∷ 101 ∷ 100 ∷ 32 ∷ 114 ∷ 101 ∷ 113 ∷ 117 ∷ 101
        ∷ 115 ∷ 116 ∷ []

-- One request read, its answer written.
unfoldable pub serve_conn : (List ℕ → Bool) → DiskCache → List ℕ → Outcome (List ℕ)
unfolding read_msg answer write_msg
serve_conn is_utf8 cache s = read_msg is_utf8 s >>= λ (m, s'). answer cache m >>= write_msg

-- What `probe` makes of the reply to the `Have` that it sent. The peer's words are left out of the error.
unfoldable pub probe_reply : List Blake3Hash → Msg → Outcome (List Bool)
probe_reply keys (held present) =
    if length present == length keys
    then fine present
    else fault (invalid_data "Held length does not match Have")
probe_reply keys (failed kind why) = fault (invalid_data "peer refused")
probe_reply keys _ = fault (invalid_data "peer sent an unexpected reply to Have")

-- What `probe_then_pull` asks for: the keys that the peer has.
unfoldable pub held_keys : List Blake3Hash → List Bool → List Blake3Hash
held_keys (k ∷ keys) (true ∷ present) = k ∷ held_keys keys present
held_keys (k ∷ keys) (false ∷ present) = held_keys keys present
held_keys _ _ = []
