-- ===== src/Daemon/Answers.antt =====
-- What the clients of the daemon hear (crates/dnx-daemon/src/server.rs), one after the other.
use dnet.Prelude.{
  ℕ, ◌^◌, ◌≤◌, ◌≡◌, refl, ap, ◌∙◌, sym, subst, Bool, true, false, Bool-cases, inl, inr, List, [],
  ◌∷◌, ◌++◌, append-nil, arith, length, leb, ltb, if◌then◌else◌,
}
use dnet.Codec.{fine, put_u32}
use dnet.Daemon.{
  DaemonError, Request, Response, max_frame, write_frame, encode_request, encode_response,
  decode_response,
}
use dnet.Daemon.Server.{Builder, Daemon, handle, serve_conn, accept_loop}
use dnet.Daemon.Parts.{write_frame-read_frame}
use dnet.Daemon.RoundTrip.{
  IsRequest, IsResponse, receive, encode_request-decode_request, encode_response-receive,
}

-- The answers of `handle` to requests, in turn, up to the first one after which it stops.
unfoldable pub replies :
    {Drv : Type 0} → List (Builder Drv × Request) → Daemon → List Response × Daemon
unfolding handle
replies [] d = ([], d)
replies ((b, r) ∷ calls) d =
    let a = handle b r d in
    let rest = replies calls a.1 in if a.0.1 then (a.0.0 ∷ [], a.1) else (a.0.0 ∷ rest.0, rest.1)

-- Connections, on each of which a client has sent a request.
pub data Sent {Drv : Type 0}
    : List (Builder Drv × List ℕ) → List (Builder Drv × Request) → Type 0 where
  none_sent : Sent [] []
  one_sent :
      {conns : List (Builder Drv × List ℕ)} {calls : List (Builder Drv × Request)} (b : Builder Drv)
      (r : Request) (s rest : List ℕ)
      → IsRequest r
      → write_frame (encode_request r) ≡ fine s
      → Sent conns calls
      → Sent ((b, s ++ rest) ∷ conns) ((b, r) ∷ calls)

framed : (body : List ℕ) → length body ≤ max_frame → (s : List ℕ) × (write_frame body ≡ fine s)
unfolding write_frame
framed body fits =
    let small : leb (2 ^ 32) (length body) ≡ false = ground arith in
    let within : ltb max_frame (length body) ≡ false = ground arith in
    (put_u32 (length body) ++ body, rw (small, within, write_frame) refl)

module _ (is_utf8 : List ℕ → Bool) (lossy : List ℕ → List ℕ)
    (keeps_text : (l : List ℕ) → is_utf8 l ≡ true → lossy l ≡ l) where
  -- Responses that fit a frame.
  pub data AllFit : List Response → Type 0 where
    none_fit : AllFit []
    one_fits :
        {r : Response} {l : List Response}
        → IsResponse is_utf8 lossy keeps_text r
        → length (encode_response r) ≤ max_frame
        → AllFit l
        → AllFit (r ∷ l)

  -- Each client decodes its answer from what is written to it.
  pub data Heard : List (List ℕ) → List Response → Type 0 where
    none_heard : Heard [] []
    one_heard :
        {out : List ℕ} {r : Response} {outs : List (List ℕ)} {l : List Response}
        → receive (decode_response is_utf8 lossy) out ≡ fine (r, [])
        → Heard outs l
        → Heard (out ∷ outs) (r ∷ l)

  -- What is written is heard as the answers, and the daemon is left in the state behind them.
  abbrev pub Agree : List (List ℕ) × Daemon → List Response × Daemon → Type 0
  Agree x y = Heard x.0 y.0 × (x.1 ≡ y.1)

  first-Fit :
      {r : Response} {l : List Response}
      → AllFit (r ∷ l)
      → IsResponse is_utf8 lossy keeps_text r × (length (encode_response r) ≤ max_frame)
  first-Fit (one_fits is le more) = (is, le)

  rest-Fit : {r : Response} {l : List Response} → AllFit (r ∷ l) → AllFit l
  rest-Fit (one_fits is le more) = more

  hear :
      (r : Response) (s : List ℕ)
      → IsResponse is_utf8 lossy keeps_text r
      → write_frame (encode_response r) ≡ fine s
      → receive (decode_response is_utf8 lossy) s ≡ fine (r, [])
  hear r s ok e =
      ap (receive (decode_response is_utf8 lossy)) (sym (append-nil s))
      ∙ encode_response-receive is_utf8 lossy keeps_text r s [] ok e

  module _ {Drv : Type 0} (text : DaemonError → List ℕ) where
    -- A connection on which a request was sent, and whose answer fits a frame.
    serve-reply :
        (b : Builder Drv) (r : Request) (s rest out : List ℕ) (d : Daemon)
        → IsRequest r
        → write_frame (encode_request r) ≡ fine s
        → write_frame (encode_response (handle b r d).0.0) ≡ fine out
        → serve_conn b (s ++ rest) d ≡ (fine (out, (handle b r d).0.1), (handle b r d).1)
    unfolding serve_conn
    serve-reply b r s rest out d ok sent back =
        let (small, read) = write_frame-read_frame (encode_request r) s rest sent in
        rw (read, serve_conn) (rw (encode_request-decode_request r ok small) (rw back refl))

    loop-stops :
        (b : Builder Drv) (stream out : List ℕ) (conns : List (Builder Drv × List ℕ))
        (d d' : Daemon)
        → serve_conn b stream d ≡ (fine (out, true), d')
        → accept_loop text ((b, stream) ∷ conns) d ≡ (out ∷ [], d')
    unfolding accept_loop
    loop-stops b stream out conns d d' e = rw (e, accept_loop) (ap (λ r. (out ∷ [], r.1)) e)

    loop-goes :
        (b : Builder Drv) (stream out : List ℕ) (conns : List (Builder Drv × List ℕ))
        (d d' : Daemon)
        → serve_conn b stream d ≡ (fine (out, false), d')
        → accept_loop text ((b, stream) ∷ conns) d
          ≡ (out ∷ (accept_loop text conns d').0, (accept_loop text conns d').1)
    unfolding accept_loop
    loop-goes b stream out conns d d' e =
        rw (e, accept_loop)
          (ap (λ r. (out ∷ (accept_loop text conns r.1).0, (accept_loop text conns r.1).1)) e)

    replies-stops :
        (b : Builder Drv) (r : Request) (calls : List (Builder Drv × Request)) (d : Daemon)
        → (handle b r d).0.1 ≡ true
        → replies ((b, r) ∷ calls) d ≡ ((handle b r d).0.0 ∷ [], (handle b r d).1)
    unfolding replies
    replies-stops b r calls d e = rw e refl

    replies-goes :
        (b : Builder Drv) (r : Request) (calls : List (Builder Drv × Request)) (d : Daemon)
        → (handle b r d).0.1 ≡ false
        → (let rest = replies calls (handle b r d).1 in
            replies ((b, r) ∷ calls) d ≡ ((handle b r d).0.0 ∷ rest.0, rest.1))
    unfolding replies
    replies-goes b r calls d e = rw e refl

    -- If the clients of the daemon, one after the other, each send a request in a frame, then each
    -- of them, up to the first one whose request stops the daemon, decodes from what `accept_loop`
    -- writes to it the answer that `handle` gives in the state that the earlier requests left, and
    -- nothing else; to those behind it nothing is written, and the daemon is left in the state
    -- after the last answer. It is supposed that hashes in requests have 32 bytes, that each answer
    -- fits a frame and has a path of 32 hash bytes and an acceptable name whose print is UTF-8,
    -- numbers of 32 bits, and text that is UTF-8, and that the lossy decoding keeps such text.
    pub accept_loop-Heard :
        {conns : List (Builder Drv × List ℕ)} {calls : List (Builder Drv × Request)} (d : Daemon)
        → Sent conns calls
        → AllFit (replies calls d).0
        → Agree (accept_loop text conns d) (replies calls d)
    unfolding accept_loop replies
    accept_loop-Heard d none_sent fit = (none_heard, refl)
    accept_loop-Heard d (one_sent {conns} {calls} b r s rest ok sent more) fit =
        let a = handle b r d in
        elim (Bool-cases a.0.1) [
          | inl stops ↦
              let e = replies-stops b r calls d stops in
              let (is, le) = first-Fit (subst (λ y. AllFit y.0) e fit) in
              let (out, back) = framed (encode_response a.0.0) le in
              let served = serve-reply b r s rest out d ok sent back in
              let looped =
                loop-stops b (s ++ rest) out conns d a.1
                  (subst (λ f. serve_conn b (s ++ rest) d ≡ (fine (out, f), a.1)) stops served) in
              subst (λ x. Agree x (replies ((b, r) ∷ calls) d)) (sym looped)
                (subst (λ y. Agree (out ∷ [], a.1) y) (sym e)
                  (one_heard (hear a.0.0 out is back) none_heard, refl))
          | inr goes ↦
              let e = replies-goes b r calls d goes in
              let fit' = subst (λ y. AllFit y.0) e fit in
              let (is, le) = first-Fit fit' in
              let (out, back) = framed (encode_response a.0.0) le in
              let served = serve-reply b r s rest out d ok sent back in
              let looped =
                loop-goes b (s ++ rest) out conns d a.1
                  (subst (λ f. serve_conn b (s ++ rest) d ≡ (fine (out, f), a.1)) goes served) in
              let (heard, same) = accept_loop-Heard a.1 more (rest-Fit fit') in
              subst (λ x. Agree x (replies ((b, r) ∷ calls) d)) (sym looped)
                (subst
                  (λ y.
                    Agree (out ∷ (accept_loop text conns a.1).0, (accept_loop text conns a.1).1) y)
                  (sym e) (one_heard (hear a.0.0 out is back) heard, same))
        ]
