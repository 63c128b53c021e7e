-- ===== src/Daemon/Memo.antt =====
-- crates/dnx-daemon/src/server.rs: a derivation that was built is not built again.
use dnet.Prelude.{
  ℕ, ◌≡◌, refl, sym, ap, ap₂, subst, ◌∙◌, true, false, Bool-cases, none, some, Option-cases, inl,
  inr, List, [], ◌∷◌, arith,
}
use dnet.Codec.{Fallible, fine, fault, Blake3Hash}
use dnet.Codec.Parts.{fine-injective}
use dnet.Store.{StorePath}
use dnet.Daemon.{Request, build, store_query, cache_lookup, ping, shutdown, built}
use dnet.Daemon.Server.{
  BuildError, Builder, same_hash, get, Daemon, warm_insert, remember, realize_once, memo_of, keyed,
  build_memo, build_drv, build_wire, build_answer, handle, Later, later_same, later_request,
  later_warm,
}

-- An entry stays what it was.
abbrev pub Keeps : {A : Type 0} → List (Blake3Hash × A) → List (Blake3Hash × A) → Type 0
Keeps m m' = (key : Blake3Hash) (a : _) → get key m ≡ some a → get key m' ≡ some a

same_hash_refl : (h : Blake3Hash) → same_hash h h ≡ true
unfolding same_hash
same_hash_refl [] = refl
same_hash_refl (b ∷ h) = let rest = same_hash_refl h in ground arith

same_hash→eq : (g h : Blake3Hash) → same_hash g h ≡ true → g ≡ h
unfolding same_hash
same_hash→eq [] [] e = refl
same_hash→eq (a ∷ g) (b ∷ h) e = ap₂ (λ a l. a ∷ l) (ground arith) (same_hash→eq g h (ground arith))
same_hash→eq [] (b ∷ h) e = cc
same_hash→eq (a ∷ g) [] e = cc

cons-Keeps :
    {A : Type 0} (key : Blake3Hash) (a : A) (m : List (Blake3Hash × A))
    → get key m ≡ none
    → Keeps m ((key, a) ∷ m)
unfolding get
cons-Keeps key a m fresh other b found = elim (Bool-cases (same_hash key other)) [
  | inl same ↦ let eq = same_hash→eq key other same in cc
  | inr differ ↦ rw (differ, get) found
]

warm_insert-Keeps :
    (hash : Blake3Hash) (blob : List ℕ) (d : Daemon)
    → Keeps d.warm (warm_insert hash blob d).warm × ((warm_insert hash blob d).memo ≡ d.memo)
unfolding warm_insert
warm_insert-Keeps hash blob d = elim (Option-cases (get hash d.warm)) [
  | inl fresh ↦ rw (fresh, warm_insert) (cons-Keeps hash blob d.warm fresh, refl)
  | inr (old, known) ↦ rw (known, warm_insert) ((λ k a e. e), refl)
]

-- What a build does to the entries.
record Kept (d d' : Daemon) : Type 0 where
  memo_kept : Keeps d.memo d'.memo
  warm_kept : Keeps d.warm d'.warm

Kept-refl : (d : Daemon) → Kept d d
Kept-refl d = record { memo_kept = λ k a e. e; warm_kept = λ k a e. e }

module _ {Drv : Type 0} (b : Builder Drv) where
  realize_once-Kept :
      (key : Blake3Hash) (r : Fallible BuildError StorePath) (d : Daemon)
      → get key d.memo ≡ none
      → Kept d (realize_once b key r d).1
  unfolding realize_once remember
  realize_once-Kept key (fine out) d fresh = record {
    memo_kept = cons-Keeps key out d.memo fresh;
    warm_kept = λ k a e. e;
  }
  realize_once-Kept key (fault e) d fresh = Kept-refl d

  keyed-Kept :
      (drv : Drv) (k : Fallible BuildError Blake3Hash) (d : Daemon) → Kept d (keyed b drv k d).1
  unfolding keyed memo_of
  keyed-Kept drv (fault e) d = Kept-refl d
  keyed-Kept drv (fine key) d = elim (Option-cases (get key d.memo)) [
    | inl fresh ↦ rw (fresh, keyed) (realize_once-Kept key (b.realize drv) d fresh)
    | inr (out, known) ↦ rw (known, keyed) (Kept-refl d)
  ]

  build_drv-Kept : (o : Fallible BuildError Drv) (d : Daemon) → Kept d (build_drv b o d).1
  unfolding build_drv build_memo
  build_drv-Kept (fault e) d = Kept-refl d
  build_drv-Kept (fine drv) d = keyed-Kept drv (b.instantiate drv) d

  handle-Kept : (r : Request) (d : Daemon) → Kept d (handle b r d).1
  unfolding handle build_wire
  handle-Kept (build drv_bytes) d = build_drv-Kept (b.from_bytes drv_bytes) d
  handle-Kept (store_query h) d = Kept-refl d
  handle-Kept (cache_lookup h) d = Kept-refl d
  handle-Kept ping d = Kept-refl d
  handle-Kept shutdown d = Kept-refl d

  realize_once-found :
      (key : Blake3Hash) (r : Fallible BuildError StorePath) (d d' : Daemon) (p : StorePath)
      → realize_once b key r d ≡ (fine p, d')
      → get key d'.memo ≡ some p
  unfolding realize_once remember get
  realize_once-found key (fault e) d d' p done = cc
  realize_once-found key (fine out) d d' p done =
      let here : get key ((key, out) ∷ d.memo) ≡ some out = rw (same_hash_refl key, get) refl in
      let left : (key, out) ∷ d.memo ≡ d'.memo = ap (λ r. r.1.memo) done in
      let same : some out ≡ some p = cc in subst (λ m. get key m ≡ some out) left here ∙ same

  -- A build that is answered with a path leaves the path in the memo, under the key of the derivation.
  keyed-found :
      (drv : Drv) (k : Fallible BuildError Blake3Hash) (d d' : Daemon) (p : StorePath)
      → keyed b drv k d ≡ (fine p, d')
      → (key : Blake3Hash) × ((k ≡ fine key) × (get key d'.memo ≡ some p))
  unfolding keyed memo_of
  keyed-found drv (fault e) d d' p done = cc
  keyed-found drv (fine key) d d' p done = (
    key,
    (
      refl,
      elim (Option-cases (get key d.memo)) [
        | inl fresh ↦
            let step : keyed b drv (fine key) d ≡ realize_once b key (b.realize drv) d =
              rw (fresh, keyed) refl in
            realize_once-found key (b.realize drv) d d' p (sym step ∙ done)
        | inr (out, known) ↦
            let step : keyed b drv (fine key) d ≡ (fine out, d) = rw (known, keyed) refl in
            let left : d.memo ≡ d'.memo = ap (λ r. r.1.memo) (sym step ∙ done) in
            let both : ◌≡◌ {A = Fallible BuildError StorePath × Daemon} (fine out, d) (fine p, d') =
              sym step ∙ done in
            let first : ◌≡◌ {A = Fallible BuildError StorePath} (fine out) (fine p) =
              ap (λ r. r.0) both in
            subst (λ m. get key m ≡ some out) left known ∙ ap some (fine-injective first)
      ],
    ),
  )

  build_drv-found :
      (o : Fallible BuildError Drv) (d d' : Daemon) (p : StorePath)
      → build_drv b o d ≡ (fine p, d')
      → (drv : Drv) × ((o ≡ fine drv)
          × ((key : Blake3Hash) × ((b.instantiate drv ≡ fine key) × (get key d'.memo ≡ some p))))
  unfolding build_drv build_memo
  build_drv-found (fault e) d d' p done = cc
  build_drv-found (fine drv) d d' p done =
      (drv, (refl, keyed-found drv (b.instantiate drv) d d' p done))

  build_answer-built :
      (r : Fallible BuildError StorePath) (p : StorePath) → build_answer r ≡ built p → r ≡ fine p
  unfolding build_answer
  build_answer-built (fine out) p e = ap fine (path_in e)
    where
      path_in : {p q : StorePath} → built p ≡ built q → p ≡ q
      path_in e = cc
  build_answer-built (fault f) p e = cc

  -- A derivation with an entry is answered from it.
  recalled :
      (drv_bytes : List ℕ) (d : Daemon) (drv : Drv) (key : Blake3Hash) (p : StorePath)
      → b.from_bytes drv_bytes ≡ fine drv
      → b.instantiate drv ≡ fine key
      → get key d.memo ≡ some p
      → handle b (build drv_bytes) d ≡ ((built p, false), d)
  unfolding handle build_wire build_answer build_drv build_memo keyed memo_of
  recalled drv_bytes d drv key p e e' e'' =
      let went : build_wire b drv_bytes d ≡ (fine p, d) =
        ap (λ o. build_drv b o d) e
        ∙ (ap (λ k. keyed b drv k d) e' ∙ ap (λ o. memo_of b drv key o d) e'') in
      ap (λ r. ((build_answer r.0, false), r.1)) went

-- Later entries are those before, and more.
Later-Kept : {Drv : Type 0} {d d' : Daemon} → Later Drv d d' → Kept d d'
Later-Kept (later_same d) = Kept-refl d
Later-Kept (later_request {d} {d'} b r l) =
    let k = Later-Kept l in
    let s = handle-Kept b r d' in
    record {
      memo_kept = λ key a e. s.memo_kept key a (k.memo_kept key a e);
      warm_kept = λ key a e. s.warm_kept key a (k.warm_kept key a e);
    }
Later-Kept (later_warm {d} {d'} hash blob l) =
    let k = Later-Kept l in
    let (w, same) = warm_insert-Keeps hash blob d' in
    record {
      memo_kept = λ key a e. subst (λ m. get key m ≡ some a) (sym same) (k.memo_kept key a e);
      warm_kept = λ key a e. w key a (k.warm_kept key a e);
    }

-- If the daemon has answered a build with a path, then after any further requests and results put
-- into its cache it answers a build of the same bytes with the same path, is not changed by it, and
-- does not depend on what the builder would do now. It is supposed that the bytes decode as before,
-- and that a derivation has the hash that it had.
pub handle-memo :
    {Drv : Type 0} (b later_b : Builder Drv) (drv_bytes : List ℕ) (d d' d'' : Daemon)
    (p : StorePath)
    → handle b (build drv_bytes) d ≡ ((built p, false), d')
    → Later Drv d' d''
    → later_b.from_bytes drv_bytes ≡ b.from_bytes drv_bytes
    → ((drv : Drv) → later_b.instantiate drv ≡ b.instantiate drv)
    → handle later_b (build drv_bytes) d'' ≡ ((built p, false), d'')
unfolding handle build_wire
handle-memo b later_b drv_bytes d d' d'' p done l same_bytes same_key =
    let went : build_wire b drv_bytes d ≡ (fine p, d') =
      ap₂ (λ r s. (r, s))
        (build_answer-built b (build_wire b drv_bytes d).0 p (ap (λ r. r.0.0) done))
        (ap (λ r. r.1) done) in
    let (drv, (e, (key, (e', found)))) = build_drv-found b (b.from_bytes drv_bytes) d d' p went in
    let k = Later-Kept l in
    recalled later_b drv_bytes d'' drv key p (same_bytes ∙ e) (same_key drv ∙ e')
      (k.memo_kept key p found)
