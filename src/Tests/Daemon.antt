-- ===== src/Tests/Daemon.antt =====
-- The theorems on the daemon's messages and on store paths.
use dnet.Prelude.{ℕ, zero, suc, ◌≡◌, refl, Bool, true, false, arith, List, [], ◌∷◌, ◌++◌}
use dnet.Codec.{fine, fault, put_u32}
use dnet.Store
use dnet.Store.{StorePath, print, parse}
use dnet.Store.RoundTrip.{IsPath, print-parse}
use dnet.Daemon.Answers.{
  replies, Sent, none_sent, one_sent, AllFit, none_fit, one_fits, Agree, accept_loop-Heard,
}
use dnet.Daemon.{
  Request, ping, shutdown, build, kind_build, store_query, built, encode_request, encode_response,
  decode_request, decode_response, write_frame, put_bytes,
}
use dnet.Daemon.Server.{
  Builder, Daemon, get, warm_insert, remember, realize_once, memo_of, keyed, build_memo, build_drv,
  build_wire, build_answer, handle, self_report, accept_loop, later_same, later_warm,
}
use dnet.Daemon.Memo.{handle-memo}
use dnet.Daemon.RoundTrip.{receive, encode_request-receive, encode_response-receive}

abbrev bytes : ℕ → ℕ → List ℕ
bytes zero b = []
bytes (suc n) b = b ∷ bytes n b

abbrev any_text : List ℕ → Bool
any_text l = true

abbrev as_it_is : List ℕ → List ℕ
as_it_is l = l

-- 32 bytes 9, and the name "hello".
abbrev hello : StorePath
hello = record { hash = bytes 32 9; name = 104 ∷ 101 ∷ 108 ∷ 108 ∷ 111 ∷ [] }

hello-IsPath : IsPath hello
unfolding Store.is_single_component Store.components Store.one_normal Store.has_forbidden
    Store.split_slash Store.all_components Store.component_of
hello-IsPath = record { bytes = omega arith; long = refl; named = refl }

print-parse_example : parse (print hello) ≡ fine hello
print-parse_example = print-parse hello hello-IsPath

abbrev query_frame : List ℕ
query_frame = 33 ∷ 0 ∷ 0 ∷ 0 ∷ 3 ∷ bytes 32 17

encode_request-receive_example :
    receive decode_request (query_frame ++ 1 ∷ []) ≡ fine (store_query (bytes 32 17), 1 ∷ [])
unfolding write_frame encode_request put_u32
encode_request-receive_example =
    encode_request-receive (store_query (bytes 32 17)) query_frame (1 ∷ []) refl refl

-- The length of the frame, the tag, the length of the path, and the path in print.
abbrev built_frame : List ℕ
built_frame = 75 ∷ 0 ∷ 0 ∷ 0 ∷ 0x81 ∷ 70 ∷ 0 ∷ 0 ∷ 0 ∷ print hello

encode_response-receive_example :
    receive (decode_response any_text as_it_is) (built_frame ++ []) ≡ fine (built hello, [])
unfolding write_frame encode_response put_u32 put_bytes print Store.print_hex
encode_response-receive_example =
    encode_response-receive any_text as_it_is (λ l e. refl) (built hello) built_frame []
      (hello-IsPath, refl) refl

-- The bytes of a derivation stand for it and for its hash; it is built to `hello`, and later no more.
abbrev builds : Builder (List ℕ)
builds = record {
  from_bytes = fine;
  instantiate = fine;
  realize = λ drv. fine hello;
  has_hash = λ h. false;
}

abbrev broken : Builder (List ℕ)
broken = record {
  from_bytes = fine;
  instantiate = fine;
  realize = λ drv. fault (record { kind = kind_build; text = [] });
  has_hash = λ h. false;
}

abbrev at_first : Daemon
at_first = record { warm = []; memo = [] }

abbrev once_built : Daemon
once_built = record { warm = []; memo = (5 ∷ [], hello) ∷ [] }

handle-memo_example :
    handle broken (build (5 ∷ [])) (warm_insert (7 ∷ []) (1 ∷ []) once_built)
    ≡ ((built hello, false), warm_insert (7 ∷ []) (1 ∷ []) once_built)
unfolding handle build_wire build_drv build_memo keyed memo_of realize_once remember get
    build_answer
handle-memo_example =
    handle-memo builds broken (5 ∷ []) at_first once_built
      (warm_insert (7 ∷ []) (1 ∷ []) once_built) hello refl
      (later_warm (7 ∷ []) (1 ∷ []) (later_same once_built)) refl (λ drv. refl)

-- A client that asks whether the daemon is there, one that stops it, and a third one that is not served.
abbrev calls : List (Builder (List ℕ) × Request)
calls = (builds, ping) ∷ (builds, shutdown) ∷ (builds, ping) ∷ []

abbrev ping_frame : List ℕ
ping_frame = 1 ∷ 0 ∷ 0 ∷ 0 ∷ 5 ∷ []

abbrev conns : List (Builder (List ℕ) × List ℕ)
conns = (builds, ping_frame) ∷ (builds, 1 ∷ 0 ∷ 0 ∷ 0 ∷ 6 ∷ []) ∷ (builds, ping_frame) ∷ []

calls-Sent : Sent conns calls
unfolding write_frame encode_request put_u32
calls-Sent = one_sent builds ping ping_frame [] tt refl (
    one_sent builds shutdown (1 ∷ 0 ∷ 0 ∷ 0 ∷ 6 ∷ []) [] tt refl
      (one_sent builds ping ping_frame [] tt refl none_sent))

calls-AllFit : AllFit any_text as_it_is (λ l e. refl) (replies calls at_first).0
unfolding replies handle self_report encode_response put_u32
calls-AllFit =
    one_fits (omega arith, (omega arith, omega arith)) (omega arith)
      (one_fits (omega arith, (omega arith, omega arith)) (omega arith) none_fit)

accept_loop-Heard_example :
    Agree any_text as_it_is
      (λ l e. refl)
      (accept_loop (λ e. []) conns at_first)
      (replies calls at_first)
accept_loop-Heard_example =
    accept_loop-Heard any_text as_it_is (λ l e. refl) (λ e. []) at_first calls-Sent calls-AllFit
