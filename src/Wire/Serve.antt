-- ===== src/Wire/Serve.antt =====
-- What a peer answers, and what its client makes of the answer.
use dnet.Prelude.{
  ℕ, suc, ◌≡◌, ◌≢◌, inl, inr, refl, ap, Bool, true, false, Bool-cases, Option, none, some, List, [],
  ◌∷◌, arith, length, ◌==◌,
}
use dnet.Codec.{fine, fault, ◌>>=◌, Blake3Hash}
use dnet.Wire.{
  Msg, want, have, blobs, held, failed, Outcome, WireError, held_keys, DiskCache, export_all,
  add_blob, contained, answer, probe_reply,
}

-- What the cache exports under the keys: for each key that it has, in the order of the keys, the key
-- with its blob, and nothing for the others.
pub data Exports (cache : DiskCache) : List Blake3Hash → List (Blake3Hash × List ℕ) → Type 0 where
  no_keys : Exports cache [] []
  lacks :
      {k : Blake3Hash} {keys : List Blake3Hash} {l : List (Blake3Hash × List ℕ)}
      → cache.export_blob k ≡ fine none
      → Exports cache keys l
      → Exports cache (k ∷ keys) l
  exports :
      {k : Blake3Hash} {keys : List Blake3Hash} {blob : List ℕ} {l : List (Blake3Hash × List ℕ)}
      → cache.export_blob k ≡ fine (some blob)
      → Exports cache keys l
      → Exports cache (k ∷ keys) ((k, blob) ∷ l)

-- What is among the keys.
pub data Among (k : Blake3Hash) : List Blake3Hash → Type 0 where
  here : {keys : List Blake3Hash} → Among k (k ∷ keys)
  later : {x : Blake3Hash} {keys : List Blake3Hash} → Among k keys → Among k (x ∷ keys)

-- An export of all keys: one of them could not be exported, or the blobs are those of the keys.
data ExportsAll (cache : DiskCache) (keys : List Blake3Hash)
    : Outcome (List (Blake3Hash × List ℕ)) → Type 0 where
  stopped :
      {e : WireError} (k : Blake3Hash)
      → Among k keys
      → cache.export_blob k ≡ fault e
      → ExportsAll cache keys (fault e)
  done_all :
      {l : List (Blake3Hash × List ℕ)} → Exports cache keys l → ExportsAll cache keys (fine l)

-- What a peer answers to a `Want`.
pub data Answers (cache : DiskCache) (keys : List Blake3Hash) : Outcome Msg → Type 0 where
  unreadable :
      {e : WireError} (k : Blake3Hash)
      → Among k keys
      → cache.export_blob k ≡ fault e
      → Answers cache keys (fault e)
  exported :
      {l : List (Blake3Hash × List ℕ)} → Exports cache keys l → Answers cache keys (fine (blobs l))

export_all-ExportsAll :
    (cache : DiskCache) (keys : List Blake3Hash) → ExportsAll cache keys (export_all cache keys)
unfolding export_all
export_all-ExportsAll cache [] = done_all no_keys
export_all-ExportsAll cache (k ∷ keys) =
    first (cache.export_blob k) refl (export_all-ExportsAll cache keys)
  where
    second :
        (o : Option (List ℕ)) {r : Outcome (List (Blake3Hash × List ℕ))}
        → cache.export_blob k ≡ fine o
        → ExportsAll cache keys r
        → ExportsAll cache (k ∷ keys) (r >>= λ l. fine (add_blob k o l))
    second o e (stopped x at is) = stopped x (later at) is
    second none e (done_all all) = done_all (lacks e all)
    second (some b) e (done_all all) = done_all (exports e all)

    first :
        (x : Outcome (Option (List ℕ)))
        → cache.export_blob k ≡ x
        → ExportsAll cache keys (export_all cache keys)
        → ExportsAll cache
            (k ∷ keys)
            (x >>= λ o. export_all cache keys >>= λ l. fine (add_blob k o l))
    first (fault e) is rest = stopped k here is
    first (fine o) is rest = second o is rest

-- A peer answers a `Want` with the blob that its cache exports for each key that the cache has, in
-- the order of the keys and beside its key, and with no other; or it fails with an error that the
-- export of one of the keys gave.
pub answer-Answers :
    (cache : DiskCache) (keys : List Blake3Hash) → Answers cache keys (answer cache (want keys))
unfolding answer
answer-Answers cache keys = on (export_all-ExportsAll cache keys)
  where
    on :
        {r : Outcome (List (Blake3Hash × List ℕ))}
        → ExportsAll cache keys r
        → Answers cache keys (r >>= λ l. fine (blobs l))
    on (stopped k at is) = unreadable k at is
    on (done_all all) = exported all

-- What a client knows of each key, and which keys it asks for next: those that the cache has.
pub data Known (cache : DiskCache) : List Blake3Hash → List Bool → List Blake3Hash → Type 0 where
  known_none : Known cache [] [] []
  known_held :
      {k : Blake3Hash} {keys wanted : List Blake3Hash} {present : List Bool}
      → cache.contains k ≡ true
      → Known cache keys present wanted
      → Known cache (k ∷ keys) (true ∷ present) (k ∷ wanted)
  known_missing :
      {k : Blake3Hash} {keys wanted : List Blake3Hash} {present : List Bool}
      → cache.contains k ≡ false
      → Known cache keys present wanted
      → Known cache (k ∷ keys) (false ∷ present) wanted

-- The outcome of a probe at a peer with the cache.
pub data Learns (cache : DiskCache) (keys : List Blake3Hash) : Outcome (List Bool) → Type 0 where
  learns :
      {present : List Bool}
      → Known cache keys present (held_keys keys present)
      → Learns cache keys (fine present)

-- Whatever a peer replies, a client takes an answer for each key, or it refuses.
pub data Told (keys : List Blake3Hash) : Msg → Outcome (List Bool) → Type 0 where
  told :
      {present : List Bool} → length present ≡ length keys → Told keys (held present) (fine present)
  refused :
      {m : Msg} {e : WireError}
      → ((present : List Bool) → m ≡ held present → length present ≢ length keys)
      → Told keys m (fault e)

length-contained :
    (cache : DiskCache) (keys : List Blake3Hash) → length (contained cache keys) ≡ length keys
unfolding contained
length-contained cache [] = refl
length-contained cache (k ∷ keys) = ap suc (length-contained cache keys)

contained-Known :
    (cache : DiskCache) (keys : List Blake3Hash)
    → Known cache keys (contained cache keys) (held_keys keys (contained cache keys))
unfolding contained held_keys
contained-Known cache [] = known_none
contained-Known cache (k ∷ keys) = on (cache.contains k) refl (contained-Known cache keys)
  where
    on :
        (b : Bool)
        → cache.contains k ≡ b
        → Known cache keys (contained cache keys) (held_keys keys (contained cache keys))
        → Known cache
            (k ∷ keys)
            (b ∷ contained cache keys)
            (held_keys (k ∷ keys) (b ∷ contained cache keys))
    on true e more = known_held e more
    on false e more = known_missing e more

probe_reply-Told : (keys : List Blake3Hash) (m : Msg) → Told keys m (probe_reply keys m)
unfolding probe_reply
probe_reply-Told keys (held present) = elim (Bool-cases (length present == length keys)) [
  | inl same ↦ rw (same, probe_reply) (told (ground arith))
  | inr other ↦
      rw (other, probe_reply)
        (refused (λ p (e : held present ≡ held p) l.
          let is : present ≡ p = cc in let long = ap (λ q. length q) is in ground arith))
]
probe_reply-Told keys (failed kind why) = refused (λ p e l. cc)
probe_reply-Told keys (want l) = refused (λ p e l. cc)
probe_reply-Told keys (have l) = refused (λ p e l. cc)
probe_reply-Told keys (blobs l) = refused (λ p e l. cc)

-- A client that probes a peer for keys accepts the answer of the peer: it learns of each key
-- whether the cache of the peer has it, and the keys that it goes on to ask for are those that the
-- cache has, in order. Of any reply it accepts only a `Held` with as many entries as there are
-- keys, and accepts that one as it is.
pub probe_reply-Learns :
    (cache : DiskCache) (keys : List Blake3Hash)
    → Learns cache keys (answer cache (have keys) >>= probe_reply keys)
      × ((m : Msg) → Told keys m (probe_reply keys m))
unfolding answer probe_reply
probe_reply-Learns cache keys = (
  (let long = length-contained cache keys in
      let same : (length (contained cache keys) == length keys) ≡ true = ground arith in
      rw same (learns (contained-Known cache keys))),
  probe_reply-Told keys,
)
