-- ===== src/Daemon/Server.antt =====
-- crates/dnx-daemon/src/server.rs: the state of the daemon, its answers, and the loop on connections. The store and
-- the builder of derivations are a parameter; what they do at a request is given with the request.
use dnet.Prelude.{
  ℕ, ◌%◌, ◌^◌, Bool, true, false, ◌&&◌, Option, none, some, List, [], ◌∷◌, ◌==◌, length,
  if◌then◌else◌,
}
use dnet.Codec.{Fallible, fine, fault, ◌>>=◌, Blake3Hash}
use dnet.Store.{StorePath}
use dnet.Daemon.{
  DaemonError, io_eof, frame_too_large, bad_tag, not_running, protocol, bad_path, DaemonErrorKind,
  kind_io, kind_frame_too_large, kind_bad_tag, kind_protocol, Request, build, store_query,
  cache_lookup, ping, shutdown, Response, built, store_present, cache_hit, cache_miss, pong, failed,
  Outcome, write_frame, read_frame, decode_request, encode_response,
}

-- An error of a build, as far as it is answered: its kind and its text.
pub record BuildError : Type 0 where
  pub kind : DaemonErrorKind
  pub text : List ℕ

-- `Derivation::from_bytes`, the hash of `instantiate`, `realize_primary`, and `store_has_hash`.
pub record Builder (Drv : Type 0) : Type 0 where
  pub from_bytes : List ℕ → Fallible BuildError Drv
  pub instantiate : Drv → Fallible BuildError Blake3Hash
  pub realize : Drv → Fallible BuildError StorePath
  pub has_hash : Blake3Hash → Bool

unfoldable pub same_hash : Blake3Hash → Blake3Hash → Bool
same_hash [] [] = true
same_hash (a ∷ l) (b ∷ m) = a == b && same_hash l m
same_hash _ _ = false

-- A `HashMap` is a list of its entries.
unfoldable pub get : {A : Type 0} → Blake3Hash → List (Blake3Hash × A) → Option A
unfolding same_hash
get key [] = none
get key ((k, a) ∷ l) = if same_hash k key then some a else get key l

pub record Daemon : Type 0 where
  pub warm : List (Blake3Hash × List ℕ)
  pub memo : List (Blake3Hash × StorePath)

unfoldable pub warm_insert : Blake3Hash → List ℕ → Daemon → Daemon
unfolding get
warm_insert hash blob d = elim (get hash d.warm) [
  | some old ↦ d
  | none ↦ record { warm = (hash, blob) ∷ d.warm; memo = d.memo }
]

-- An entry for a key that has none.
unfoldable pub remember : Blake3Hash → StorePath → Daemon → Daemon
remember key out d = record { warm = d.warm; memo = (key, out) ∷ d.memo }

unfoldable pub realize_once :
    {Drv : Type 0}
    → Builder Drv
    → Blake3Hash
    → Fallible BuildError StorePath
    → Daemon
    → Fallible BuildError StorePath × Daemon
unfolding remember
realize_once b key (fine out) d = (fine out, remember key out d)
realize_once b key (fault e) d = (fault e, d)

unfoldable pub memo_of :
    {Drv : Type 0}
    → (b : Builder Drv) → Drv
    → Blake3Hash
    → Option StorePath
    → Daemon
    → Fallible BuildError StorePath × Daemon
unfolding realize_once
memo_of b drv key (some out) d = (fine out, d)
memo_of b drv key none d = realize_once b key (b.realize drv) d

unfoldable pub keyed :
    {Drv : Type 0}
    → (b : Builder Drv) → Drv
    → Fallible BuildError Blake3Hash
    → Daemon
    → Fallible BuildError StorePath × Daemon
unfolding memo_of get
keyed b drv (fault e) d = (fault e, d)
keyed b drv (fine key) d = memo_of b drv key (get key d.memo) d

unfoldable pub build_memo :
    {Drv : Type 0} → (b : Builder Drv) → Drv → Daemon → Fallible BuildError StorePath × Daemon
unfolding keyed
build_memo b drv d = keyed b drv (b.instantiate drv) d

unfoldable pub build_drv :
    {Drv : Type 0}
    → (b : Builder Drv) → Fallible BuildError Drv
    → Daemon
    → Fallible BuildError StorePath × Daemon
unfolding build_memo
build_drv b (fault e) d = (fault e, d)
build_drv b (fine drv) d = build_memo b drv d

unfoldable pub build_wire :
    {Drv : Type 0} → Builder Drv → List ℕ → Daemon → Fallible BuildError StorePath × Daemon
unfolding build_drv
build_wire b drv_bytes d = build_drv b (b.from_bytes drv_bytes) d

unfoldable pub build_answer : Fallible BuildError StorePath → Response
build_answer (fine path) = built path
build_answer (fault e) = failed e.kind e.text

unfoldable pub lookup_answer : Option (List ℕ) → Response
lookup_answer none = cache_miss
lookup_answer (some blob) = cache_hit blob

abbrev pub proto_version : ℕ
proto_version = 1

unfoldable pub self_report : Daemon → Response
self_report d = pong proto_version 0 (length d.memo % 2 ^ 32)

-- The answer, whether the daemon is to stop, and its new state.
unfoldable pub handle : {Drv : Type 0} → Builder Drv → Request → Daemon → (Response × Bool) × Daemon
unfolding build_wire build_answer lookup_answer self_report get
handle b (build drv_bytes) d = let r = build_wire b drv_bytes d in ((build_answer r.0, false), r.1)
handle b (store_query hash) d = ((store_present (b.has_hash hash), false), d)
handle b (cache_lookup hash) d = ((lookup_answer (get hash d.warm), false), d)
handle b ping d = ((self_report d, false), d)
handle b shutdown d = ((self_report d, true), d)

unfoldable pub error_kind : DaemonError → DaemonErrorKind
error_kind io_eof = kind_io
error_kind frame_too_large = kind_frame_too_large
error_kind bad_tag = kind_bad_tag
error_kind not_running = kind_io
error_kind (protocol why) = kind_protocol
error_kind (bad_path e) = kind_protocol

-- What is written to the stream and whether to stop, or an error.
unfoldable pub serve_conn :
    {Drv : Type 0} → Builder Drv → List ℕ → Daemon → Outcome (List ℕ × Bool) × Daemon
unfolding handle
serve_conn b stream d = elim (read_frame stream >>= λ (body, rest). decode_request body) [
  | fault e ↦ (fault e, d)
  | fine req ↦
      let r = handle b req d in
      (write_frame (encode_response r.0.0) >>= λ out. fine (out, r.0.1), r.1)
]

-- The connections that come in, each with what the builder does meanwhile. `text` is `to_string` of an error.
-- The result has what is written to each connection that is served.
unfoldable pub accept_loop :
    {Drv : Type 0}
    → (DaemonError → List ℕ)
    → List (Builder Drv × List ℕ)
    → Daemon
    → List (List ℕ) × Daemon
unfolding serve_conn error_kind
accept_loop text [] d = ([], d)
accept_loop text ((b, stream) ∷ conns) d =
    let r = serve_conn b stream d in
    let rest = accept_loop text conns r.1 in
    elim r.0 [
      | fine (out, true) ↦ (out ∷ [], r.1)
      | fine (out, false) ↦ (out ∷ rest.0, rest.1)
      | fault e ↦ (
        refusal (write_frame (encode_response (failed (error_kind e) (text e)))) ∷ rest.0,
        rest.1,
      )
    ]
  where
    refusal : Outcome (List ℕ) → List ℕ
    refusal (fine out) = out
    refusal (fault e) = []

-- What happens to a daemon: requests, and results that are put into its cache.
pub data Later (Drv : Type 0) : Daemon → Daemon → Type 0 where
  later_same : (d : Daemon) → Later Drv d d
  later_request :
      {d d' : Daemon} (b : Builder Drv) (r : Request)
      → Later Drv d d'
      → Later Drv d (handle b r d').1
  later_warm :
      {d d' : Daemon} (hash : Blake3Hash) (blob : List ℕ)
      → Later Drv d d'
      → Later Drv d (warm_insert hash blob d')
