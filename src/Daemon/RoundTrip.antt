-- ===== src/Daemon/RoundTrip.antt =====
-- crates/dnx-daemon/src/proto.rs: a message that is written is read again.
use dnet.Prelude.{
  ℕ, ◌+◌, ◌^◌, ◌<◌, ◌≡◌, refl, ap, ◌∙◌, subst, Bool, true, false, not, none, some, List, [], ◌∷◌,
  ◌++◌, arith, ◌==◌, length,
}
use dnet.Codec.{fine, fault, ◌>>=◌, put_u32}
use dnet.Codec.Parts.{Takes, seq-Takes, map-Takes, Is32}
use dnet.Store.{StorePath, print}
use dnet.Store.RoundTrip.{IsPath, print-parse}
use dnet.Daemon.{
  bad_tag, DaemonErrorKind, kind_io, kind_frame_too_large, kind_bad_tag, kind_build, kind_not_found,
  kind_protocol, kind_hash_mismatch, as_u8, from_u8, Request, build, store_query, cache_lookup,
  ping, shutdown, Response, built, store_present, cache_hit, cache_miss, pong, failed, Outcome,
  write_frame, read_frame, put_bytes, take_u32, take_blob, encode_request, request_of,
  decode_request, encode_response, path_of, failed_of, response_of, decode_response,
}
use dnet.Daemon.Parts.{
  take_tag-Takes, take_u32-Takes, take_hash-Takes, take_blob-Takes, nothing-Takes,
  decode_with-Takes, length-put_bytes, write_frame-read_frame,
}

abbrev pub IsRequest : Request → Type 0
IsRequest (store_query h) = Is32 h
IsRequest (cache_lookup h) = Is32 h
IsRequest _ = Unit

pub encode_request-decode_request :
    (r : Request)
    → IsRequest r
    → length (encode_request r) < 2 ^ 32
    → decode_request (encode_request r) ≡ fine r
unfolding encode_request decode_request request_of
encode_request-decode_request (build drv) ok lt =
    let long = length-put_bytes drv in
    decode_with-Takes request_of 0x01 (put_bytes drv) (build drv) (omega arith)
      (map-Takes build (take_blob-Takes drv (omega arith)))
encode_request-decode_request (store_query h) ok lt =
    decode_with-Takes request_of 0x03 h (store_query h) (omega arith)
      (map-Takes store_query (take_hash-Takes h ok))
encode_request-decode_request (cache_lookup h) ok lt =
    decode_with-Takes request_of 0x04 h (cache_lookup h) (omega arith)
      (map-Takes cache_lookup (take_hash-Takes h ok))
encode_request-decode_request ping ok lt =
    decode_with-Takes request_of 0x05 [] ping (omega arith) (nothing-Takes ping)
encode_request-decode_request shutdown ok lt =
    decode_with-Takes request_of 0x06 [] shutdown (omega arith) (nothing-Takes shutdown)

-- What a client does to a stream, and the daemon.
unfoldable pub receive : {A : Type 0} → (List ℕ → Outcome A) → List ℕ → Outcome (A × List ℕ)
unfolding read_frame
receive decode s = read_frame s >>= λ (body, rest). decode body >>= λ a. fine (a, rest)

-- A request with hashes of 32 bytes that a client encodes and writes in a frame is the request that
-- the daemon reads and decodes, and what follows it on the stream is left.
pub encode_request-receive :
    (r : Request) (s rest : List ℕ)
    → IsRequest r
    → write_frame (encode_request r) ≡ fine s
    → receive decode_request (s ++ rest) ≡ fine (r, rest)
unfolding receive
encode_request-receive r s rest ok e =
    let (small, framed) = write_frame-read_frame (encode_request r) s rest e in
    ap (λ o. o >>= λ (body, rest). decode_request body >>= λ a. fine (a, rest)) framed
    ∙ ap (λ o. o >>= λ a. fine (a, rest)) (encode_request-decode_request r ok small)

from_u8-as_u8 : (kind : DaemonErrorKind) → from_u8 (as_u8 kind) ≡ some kind
unfolding from_u8 as_u8
from_u8-as_u8 kind_io = refl
from_u8-as_u8 kind_frame_too_large = refl
from_u8-as_u8 kind_bad_tag = refl
from_u8-as_u8 kind_build = refl
from_u8-as_u8 kind_not_found = refl
from_u8-as_u8 kind_protocol = refl
from_u8-as_u8 kind_hash_mismatch = refl

module _ (is_utf8 : List ℕ → Bool) (lossy : List ℕ → List ℕ)
    (keeps_text : (l : List ℕ) → is_utf8 l ≡ true → lossy l ≡ l) where
  -- A path that can be printed, numbers of 32 bits, and text that is UTF-8.
  abbrev pub IsResponse : Response → Type 0
  IsResponse (built path) = IsPath path × (is_utf8 (print path) ≡ true)
  IsResponse (pong version queue_depth count) =
      (version < 2 ^ 32) × ((queue_depth < 2 ^ 32) × (count < 2 ^ 32))
  IsResponse (failed kind detail) = is_utf8 detail ≡ true
  IsResponse _ = Unit

  path_of-print :
      (path : StorePath)
      → IsPath path
      → is_utf8 (print path) ≡ true
      → path_of is_utf8 lossy (print path) ≡ fine path
  unfolding path_of
  path_of-print path ok utf8 = rw (utf8, path_of) (rw (print-parse path ok) refl)

  built-Takes :
      (path : StorePath)
      → IsPath path
      → is_utf8 (print path) ≡ true
      → length (print path) < 2 ^ 32
      → Takes (response_of is_utf8 lossy 0x81) (put_bytes (print path)) (built path)
  unfolding response_of
  built-Takes path ok utf8 lt = record {
    takes = λ bytes pos small h.
        ap (λ r. r >>= λ (s, c'). path_of is_utf8 lossy s >>= λ p. fine (built p, c'))
          ((take_blob-Takes (print path) lt).takes bytes pos small h)
        ∙ ap
            (λ r. r >>= λ p.
              fine (built p, record { bytes = bytes; pos = pos + length (put_bytes (print path)) }))
            (path_of-print path ok utf8);
  }

  failed-Takes :
      (kind : DaemonErrorKind) (detail : List ℕ)
      → is_utf8 detail ≡ true
      → length detail < 2 ^ 32
      → Takes (failed_of is_utf8 lossy) (as_u8 kind ∷ put_bytes detail) (failed kind detail)
  unfolding failed_of
  failed-Takes kind detail utf8 lt =
      seq-Takes (put_bytes detail)
        (λ k c'. elim (from_u8 k) [
          | none ↦ fault bad_tag
          | some kind ↦ take_blob c' >>= λ (detail, c''). fine (failed kind (lossy detail), c'')
        ])
        (take_tag-Takes (as_u8 kind))
        (rw (from_u8-as_u8 kind) (
          subst
            (λ d.
              Takes (λ c'. take_blob c' >>= λ (detail, c''). fine (failed kind (lossy detail), c''))
                (put_bytes detail) (failed kind d))
            (keeps_text detail utf8)
            (map-Takes (λ detail. failed kind (lossy detail)) (take_blob-Takes detail lt))))

  pong-Takes :
      (v q b : ℕ)
      → v < 2 ^ 32
      → q < 2 ^ 32
      → b < 2 ^ 32
      → Takes (response_of is_utf8 lossy 0x85) (put_u32 v ++ (put_u32 q ++ put_u32 b)) (pong v q b)
  unfolding response_of
  pong-Takes v q b lv lq lb =
      seq-Takes (put_u32 q ++ put_u32 b)
        (λ v c'. take_u32 c' >>= λ (q, c''). take_u32 c'' >>= λ (b, c3). fine (pong v q b, c3))
        (take_u32-Takes v lv)
        (seq-Takes (put_u32 b) (λ q c''. take_u32 c'' >>= λ (b, c3). fine (pong v q b, c3))
          (take_u32-Takes q lq) (map-Takes (λ b. pong v q b) (take_u32-Takes b lb)))

  encode_response-decode_response :
      (r : Response)
      → IsResponse r
      → length (encode_response r) < 2 ^ 32
      → decode_response is_utf8 lossy (encode_response r) ≡ fine r
  unfolding encode_response decode_response response_of
  encode_response-decode_response (built path) (ok, utf8) lt =
      let long = length-put_bytes (print path) in
      decode_with-Takes (response_of is_utf8 lossy) 0x81 (put_bytes (print path)) (built path)
        (omega arith) (built-Takes path ok utf8 (omega arith))
  encode_response-decode_response (store_present true) ok lt =
      decode_with-Takes (response_of is_utf8 lossy) 0x82 (1 ∷ []) (store_present true) (omega arith)
        (map-Takes (λ b. store_present (not (b == 0))) (take_tag-Takes 1))
  encode_response-decode_response (store_present false) ok lt =
      decode_with-Takes (response_of is_utf8 lossy) 0x82 (0 ∷ []) (store_present false)
        (omega arith) (map-Takes (λ b. store_present (not (b == 0))) (take_tag-Takes 0))
  encode_response-decode_response (cache_hit blob) ok lt =
      let long = length-put_bytes blob in
      decode_with-Takes (response_of is_utf8 lossy) 0x83 (put_bytes blob) (cache_hit blob)
        (omega arith) (map-Takes cache_hit (take_blob-Takes blob (omega arith)))
  encode_response-decode_response cache_miss ok lt =
      decode_with-Takes (response_of is_utf8 lossy) 0x84 [] cache_miss (omega arith)
        (nothing-Takes cache_miss)
  encode_response-decode_response (pong v q b) (lv, (lq, lb)) lt =
      decode_with-Takes (response_of is_utf8 lossy) 0x85 (put_u32 v ++ (put_u32 q ++ put_u32 b))
        (pong v q b) (omega arith) (pong-Takes v q b lv lq lb)
  encode_response-decode_response (failed kind detail) utf8 lt =
      let long = length-put_bytes detail in
      decode_with-Takes (response_of is_utf8 lossy) 0x86 (as_u8 kind ∷ put_bytes detail)
        (failed kind detail) (omega arith) (failed-Takes kind detail utf8 (omega arith))

  -- A response that the daemon encodes and writes in a frame is the response that the client reads
  -- and decodes, and what follows it on the stream is left. The response has a path of 32 hash
  -- bytes and an acceptable name whose print is UTF-8, numbers of 32 bits, and text that is UTF-8;
  -- of the lossy decoding it is supposed that it keeps text that is UTF-8.
  pub encode_response-receive :
      (r : Response) (s rest : List ℕ)
      → IsResponse r
      → write_frame (encode_response r) ≡ fine s
      → receive (decode_response is_utf8 lossy) (s ++ rest) ≡ fine (r, rest)
  unfolding receive
  encode_response-receive r s rest ok e =
      let (small, read) = write_frame-read_frame (encode_response r) s rest e in
      ap (λ o. o >>= λ (body, rest). decode_response is_utf8 lossy body >>= λ a. fine (a, rest))
        read
      ∙ ap (λ o. o >>= λ a. fine (a, rest)) (encode_response-decode_response r ok small)
