-- ===== src/Daemon.antt =====
-- crates/dnx-daemon/src/proto.rs, lib.rs: the messages between a daemon and its clients. A string is the list
-- of its UTF-8 bytes; what `from_utf8` accepts and what `from_utf8_lossy` makes of bytes are parameters.
pub mod Parts
pub mod RoundTrip
pub mod Server
pub mod Memo
pub mod Answers
use Prim.Native.String.{String}
use dnet.Prelude.{
  ℕ, zero, suc, ◌+◌, ◌*◌, ◌^◌, Bool, true, false, not, Option, none, some, List, [], ◌∷◌, ◌++◌,
  ◌==◌, ltb, leb, length, take, drop, if◌then◌else◌,
}
use dnet.Codec.{
  Fallible, fine, fault, ◌>>=◌, Blake3Hash, Cursor, DecoderOf, put_u32, from_le_bytes, first_byte,
}
use dnet.Store
use dnet.Store.{StorePath, StoreError, bad_name, print}

-- The errors that the protocol makes. `io_eof` is `Io` at the end of the stream, `bad_path` is `Protocol` with
-- the text of an error of a path.
pub data DaemonError : Type 0 where
  io_eof frame_too_large bad_tag not_running : DaemonError
  protocol : String → DaemonError
  bad_path : StoreError → DaemonError

pub data DaemonErrorKind : Type 0 where
  kind_io kind_frame_too_large kind_bad_tag kind_build kind_not_found kind_protocol
        kind_hash_mismatch :
      DaemonErrorKind

-- `as u8`
unfoldable pub as_u8 : DaemonErrorKind → ℕ
as_u8 kind_io = 0
as_u8 kind_frame_too_large = 1
as_u8 kind_bad_tag = 2
as_u8 kind_build = 3
as_u8 kind_not_found = 4
as_u8 kind_protocol = 5
as_u8 kind_hash_mismatch = 6

unfoldable pub from_u8 : ℕ → Option DaemonErrorKind
from_u8 b =
    if b == 0
    then some kind_io
    else if b == 1
    then some kind_frame_too_large
    else if b == 2
    then some kind_bad_tag
    else if b == 3
    then some kind_build
    else if b == 4
    then some kind_not_found
    else if b == 5
    then some kind_protocol
    else if b == 6
    then some kind_hash_mismatch
    else none

pub data Request : Type 0 where
  build : List ℕ → Request
  store_query cache_lookup : Blake3Hash → Request
  ping shutdown : Request

pub data Response : Type 0 where
  built : StorePath → Response
  store_present : Bool → Response
  cache_hit : List ℕ → Response
  cache_miss : Response
  pong : ℕ → ℕ → ℕ → Response
  failed : DaemonErrorKind → List ℕ → Response

abbrev pub max_frame : ℕ
max_frame = 256 * 2 ^ 20

abbrev pub Outcome {ℓ} : Type ℓ → Type ℓ
Outcome A = Fallible DaemonError A

abbrev pub Decoder {ℓ} : Type ℓ → Type ℓ
Decoder A = DecoderOf DaemonError A

-- What is written to the stream; `u32::try_from` comes before the test of the bound.
unfoldable pub write_frame : List ℕ → Outcome (List ℕ)
write_frame body =
    if leb (2 ^ 32) (length body)
    then fault frame_too_large
    else if ltb max_frame (length body)
    then fault frame_too_large
    else fine (put_u32 (length body) ++ body)

-- The body, and the rest of the stream. A prefix cut short is an end of the stream too.
unfoldable pub read_frame : List ℕ → Outcome (List ℕ × List ℕ)
read_frame s =
    if ltb (length s) 4
    then fault not_running
    else (let len = from_le_bytes (take 4 s) in
        let rest = drop 4 s in
        if ltb max_frame len
        then fault frame_too_large
        else if leb len (length rest)
        then fine (take len rest, drop len rest)
        else fault io_eof)

-- `put_bytes`: the length is cut to 32 bits, as `put_u32` does.
unfoldable pub put_bytes : List ℕ → List ℕ
put_bytes b = put_u32 (length b) ++ b

unfoldable pub take_bytes : ℕ → Decoder (List ℕ)
take_bytes n c =
    let end = c.pos + n in
    if leb (2 ^ 64) end
    then fault (protocol "frame body too short")
    else if leb end (length c.bytes)
    then fine (take n (drop c.pos c.bytes), record c { pos = end })
    else fault (protocol "frame body too short")

unfoldable pub take_tag : Decoder ℕ
unfolding take_bytes
take_tag c = take_bytes 1 c >>= λ (b, c'). fine (first_byte b, c')

unfoldable pub take_u32 : Decoder ℕ
unfolding take_bytes
take_u32 c = take_bytes 4 c >>= λ (b, c'). fine (from_le_bytes b, c')

unfoldable pub take_hash : Decoder Blake3Hash
unfolding take_bytes
take_hash c = take_bytes 32 c

unfoldable pub take_blob : Decoder (List ℕ)
unfolding take_u32 take_bytes
take_blob c = take_u32 c >>= λ (n, c'). take_bytes n c'

unfoldable pub finish : Cursor → Outcome (Unit {0})
finish c = if c.pos == length c.bytes then fine tt else fault (protocol "trailing bytes in frame")

unfoldable pub encode_request : Request → List ℕ
unfolding put_bytes
encode_request (build drv) = 0x01 ∷ put_bytes drv
encode_request (store_query h) = 0x03 ∷ h
encode_request (cache_lookup h) = 0x04 ∷ h
encode_request ping = 0x05 ∷ []
encode_request shutdown = 0x06 ∷ []

unfoldable pub request_of : ℕ → Decoder Request
unfolding take_blob take_hash
request_of tag c =
    if tag == 0x01
    then (take_blob c >>= λ (b, c'). fine (build b, c'))
    else if tag == 0x03
    then (take_hash c >>= λ (h, c'). fine (store_query h, c'))
    else if tag == 0x04
    then (take_hash c >>= λ (h, c'). fine (cache_lookup h, c'))
    else if tag == 0x05
    then fine (ping, c)
    else if tag == 0x06
    then fine (shutdown, c)
    else fault bad_tag

-- A tag, what it calls for, and the end of the body.
unfoldable pub decode_with : {A : Type 0} → (ℕ → Decoder A) → List ℕ → Outcome A
unfolding take_tag finish
decode_with of body = take_tag (record { bytes = body; pos = 0 }) >>= λ (tag, c).
    of tag c >>= λ (a, c'). finish c' >>= λ u. fine a

unfoldable pub decode_request : List ℕ → Outcome Request
unfolding decode_with request_of
decode_request body = decode_with request_of body

abbrev pub byte_of : Bool → ℕ
byte_of true = 1
byte_of false = 0

unfoldable pub encode_response : Response → List ℕ
unfolding put_bytes as_u8 print
encode_response (built path) = 0x81 ∷ put_bytes (print path)
encode_response (store_present p) = 0x82 ∷ byte_of p ∷ []
encode_response (cache_hit blob) = 0x83 ∷ put_bytes blob
encode_response cache_miss = 0x84 ∷ []
encode_response (pong version queue_depth count) =
    0x85 ∷ (put_u32 version ++ (put_u32 queue_depth ++ put_u32 count))
encode_response (failed kind detail) = 0x86 ∷ as_u8 kind ∷ put_bytes detail

module _ (is_utf8 : List ℕ → Bool) (lossy : List ℕ → List ℕ) where
  unfoldable pub path_of : List ℕ → Outcome StorePath
  unfolding Store.parse
  path_of s =
      if is_utf8 s
      then elim (Store.parse s) [ fine p ↦ fine p | fault e ↦ fault (bad_path e) ]
      else fault (protocol "store path is not utf-8")

  unfoldable pub failed_of : Decoder Response
  unfolding take_tag from_u8 take_blob
  failed_of c = take_tag c >>= λ (k, c'). elim (from_u8 k) [
    | none ↦ fault bad_tag
    | some kind ↦ take_blob c' >>= λ (detail, c''). fine (failed kind (lossy detail), c'')
  ]

  unfoldable pub response_of : ℕ → Decoder Response
  unfolding path_of failed_of take_tag take_blob take_u32
  response_of tag c =
      if tag == 0x81
      then (take_blob c >>= λ (s, c'). path_of s >>= λ p. fine (built p, c'))
      else if tag == 0x82
      then (take_tag c >>= λ (b, c'). fine (store_present (not (b == 0)), c'))
      else if tag == 0x83
      then (take_blob c >>= λ (b, c'). fine (cache_hit b, c'))
      else if tag == 0x84
      then fine (cache_miss, c)
      else if tag == 0x85
      then (take_u32 c >>= λ (v, c').
          take_u32 c' >>= λ (q, c''). take_u32 c'' >>= λ (b, c3). fine (pong v q b, c3))
      else if tag == 0x86
      then failed_of c
      else fault bad_tag

  unfoldable pub decode_response : List ℕ → Outcome Response
  unfolding decode_with response_of
  decode_response body = decode_with response_of body
