-- ===== src/Tests/Peers.antt =====
-- The theorems on messages, at a cache of one blob.
use dnet.Prelude.{
  ℕ, zero, suc, ◌≡◌, refl, Bool, true, false, none, some, List, [], ◌∷◌, ◌++◌, ◌==◌, if◌then◌else◌,
}
use dnet.Codec
use dnet.Wire
use dnet.Codec.{fine, fault, ◌>>=◌, Blake3Hash}
use dnet.Wire.{
  Msg, want, have, blobs, failed, Outcome, DiskCache, answer, probe_reply, contained, read_msg,
  write_msg,
}
use dnet.Wire.RoundTrip.{write_msg-read_msg}
use dnet.Wire.Serve.{Answers, answer-Answers, Learns, Told, probe_reply-Learns}

abbrev repeated : ℕ → ℕ → Blake3Hash
repeated zero b = []
repeated (suc n) b = b ∷ repeated n b

abbrev one_key : Blake3Hash
one_key = repeated 32 1

abbrev other_key : Blake3Hash
other_key = repeated 32 2

abbrev starts_with_one : Blake3Hash → Bool
starts_with_one [] = false
starts_with_one (b ∷ l) = b == 1

abbrev one_blob : DiskCache
one_blob = record {
  export_blob = λ k. fine (if starts_with_one k then some (9 ∷ 8 ∷ []) else none);
  contains = starts_with_one;
}

abbrev any_text : List ℕ → Bool
any_text l = true

-- The frame of `Failed(2, "hi")`.
abbrev refusal : List ℕ
refusal = 8 ∷ 0 ∷ 0 ∷ 0 ∷ 0x9F ∷ 2 ∷ 2 ∷ 0 ∷ 0 ∷ 0 ∷ 104 ∷ 105 ∷ []

write_msg-read_msg_example :
    read_msg any_text (refusal ++ 7 ∷ []) ≡ fine (failed 2 (104 ∷ 105 ∷ []), 7 ∷ [])
unfolding write_msg Wire.encode_body Wire.as_u32 Codec.put_u32
write_msg-read_msg_example =
    write_msg-read_msg any_text (failed 2 (104 ∷ 105 ∷ [])) refusal (7 ∷ []) refl refl

answer-Answers_example :
    Answers one_blob (one_key ∷ other_key ∷ []) (answer one_blob (want (one_key ∷ other_key ∷ [])))
answer-Answers_example = answer-Answers one_blob (one_key ∷ other_key ∷ [])

abbrev both_keys : List Blake3Hash
both_keys = one_key ∷ other_key ∷ []

probe_reply-Learns_example :
    Learns one_blob both_keys (answer one_blob (have both_keys) >>= probe_reply both_keys)
    × ((m : Msg) → Told both_keys m (probe_reply both_keys m))
probe_reply-Learns_example = probe_reply-Learns one_blob both_keys
