-- ===== src/Canon/Lift.antt =====
-- The lift of a replicator past an application, in a safe net.
use dnet.Prelude.{◌+◌, ◌-◌, ◌<◌, ◌≡◌, refl, true, false, some, get_elem?, arith}
use dnet.Prelude.Int.{pos}
use dnet.LoPath.{LoPath}
use dnet.Port
use dnet.Port.{PortId, slot_idx, is_eraser}
use dnet.Slot
use dnet.Slot.{Slot}
use dnet.Net.{Net, C4Candidate}
use dnet.Net.Safe.{
  size, is_live, count, IsWired, IsSafe, Returns, and_then-Returns, branch-Returns, slot_at-bind,
}
use dnet.Net.Keeps.{mono-Returns}
use dnet.Net.Chain.{
  Holds, extend_left-Calm, extend_right-Calm, connect-Holds, erase-Holds, retire-Holds, live-inside,
  live-two,
}
use dnet.Rules.Safe.{Pair, two_links}
use dnet.Rules.Grow.{alloc-bind, turn-bind, grow-Pair}
use dnet.Rules.Safe.{retire_both}
use dnet.Canon.{c4_erase, c4_replicate, c4_aux_fan_replication}

c4_erase-Returns :
    {n : Net} (app_p rep_p : PortId) (app : Slot) (lo : LoPath)
    → IsSafe n
    → Pair n app_p rep_p
    → IsWired n app
    → Returns (λ _ m. count m + 2 ≡ count n) (c4_erase app_p rep_p app lo n)
unfolding c4_erase slot_idx
c4_erase-Returns {n} app_p rep_p app lo safe pair w =
    let many =
      live-two (slot_idx app_p) (slot_idx rep_p) safe pair.live_p pair.live_q pair.distinct in
    let start : Holds (size n) (count n - 2 + 1 + 1) (is_live n) n = record {
      sized = refl;
      counted = omega arith;
      living = λ j. refl;
    } in
    let low : slot_idx Port.era < size n = safe.valid.sentinel in
    and_then-Returns (erase-Holds safe start app.principal w.at_principal) λ _ _ safe h.
      and_then-Returns (erase-Holds safe h app.aux1 w.at_aux1) λ _ _ safe h.
        and_then-Returns (retire-Holds (slot_idx app_p) safe h pair.live_p) λ _ _ safe h.
          and_then-Returns
            (retire-Holds (slot_idx rep_p) safe h (ground (arith, pair.live_q, pair.distinct)))
            λ _ _ safe h.
              mono-Returns
                (two_links Port.era app.principal Port.era app.aux1 lo safe h low w.at_principal low
                  w.at_aux1)
                λ _ _ h. omega (arith, h.counted)

c4_replicate-Returns :
    {n : Net} (app_p rep_p : PortId) (app rep : Slot) (lo : LoPath)
    → IsSafe n
    → Pair n app_p rep_p
    → IsWired n app
    → IsWired n rep
    → Returns (λ _ m. count m ≡ count n + 2) (c4_replicate app_p rep_p app rep lo n)
unfolding c4_replicate
c4_replicate-Returns {n} app_p rep_p app rep lo safe pair w w' =
    alloc-bind Slot.tag_rep_in_unknown rep.data_word rep.delta0 rep.delta1 _ safe
      λ nr m1 safe g1 i1.
        alloc-bind Slot.tag_rep_in_unknown rep.data_word rep.delta0 rep.delta1 _ safe
          λ na m2 safe g2 i2.
            alloc-bind Slot.tag_fan_app 0 (pos 0) (pos 0) _ safe λ a0 m3 safe g3 i3.
              alloc-bind Slot.tag_fan_app 0 (pos 0) (pos 0) _ safe λ a1 m4 safe g4 i4.
                let pair4 = grow-Pair g4 (grow-Pair g3 (grow-Pair g2 (grow-Pair g1 pair))) in
                let many =
                  live-two (slot_idx app_p) (slot_idx rep_p) safe pair4.live_p pair4.live_q
                    pair4.distinct in
                retire_both app_p rep_p _ safe pair4 λ m safe h.
                  and_then-Returns
                    (connect-Holds safe h nr.aux0 a0.principal lo (omega arith) (omega arith))
                    λ _ _ safe h.
                      and_then-Returns
                        (connect-Holds safe h nr.aux1 a1.principal lo (omega arith) (omega arith))
                        λ _ _ safe h.
                          and_then-Returns
                            (connect-Holds safe h a0.aux1 na.aux0 lo (omega arith) (omega arith))
                            λ _ _ safe h.
                              and_then-Returns
                                (connect-Holds safe h a1.aux1 na.aux1 lo (omega arith)
                                  (omega arith))
                                λ _ _ safe h.
                                  turn-bind _ _ lo _ extend_left-Calm extend_left-Calm safe λ l00.
                                    and_then-Returns
                                      (connect-Holds safe h a0.aux0 rep.aux0 l00 (omega arith)
                                        (omega arith))
                                      λ _ _ safe h.
                                        turn-bind _ _ lo _ extend_left-Calm extend_right-Calm safe
                                          λ l01.
                                            and_then-Returns
                                              (connect-Holds safe h a1.aux0 rep.aux1 l01
                                                (omega arith) (omega arith))
                                              λ _ _ safe h.
                                                turn-bind _ _ lo _ extend_right-Calm
                                                  extend_left-Calm safe
                                                  λ l10.
                                                    and_then-Returns
                                                      (connect-Holds safe h nr.principal
                                                        app.principal l10 (omega arith)
                                                        (omega arith))
                                                      λ _ _ safe h.
                                                        turn-bind _ _ lo _ extend_right-Calm
                                                          extend_right-Calm safe
                                                          λ l11.
                                                            mono-Returns
                                                            (connect-Holds safe h na.principal
                                                            app.aux1 l11 (omega arith)
                                                            (omega arith))
                                                            λ _ _ h. omega arith

-- Two agents fewer than in `n` if the result of the application was erased, and else two more.
pub data Lifted (n : Net) (app_p : PortId) (m : Net) : Type 0 where
  erased :
      (app : Slot)
      → get_elem? n.arena.slots (slot_idx app_p) ≡ some app
      → is_eraser app.aux0 ≡ true
      → count m + 2 ≡ count n
      → Lifted n app_p m
  replicated :
      (app : Slot)
      → get_elem? n.arena.slots (slot_idx app_p) ≡ some app
      → is_eraser app.aux0 ≡ false
      → count m ≡ count n + 2
      → Lifted n app_p m

-- `c4_aux_fan_replication`, on a live application and a live replicator in different slots of a
-- safe net, does not panic: it ends in a safe net, with two agents fewer if the result of the
-- application was wired to the eraser and with two more if not, or in an error, also in a safe net.
pub c4_aux_fan_replication-Returns :
    {n : Net} (cand : C4Candidate)
    → IsSafe n
    → Pair n cand.app_aux0 cand.rep_principal
    → Returns (λ _ m. Lifted n cand.app_aux0 m) (c4_aux_fan_replication cand n)
unfolding c4_aux_fan_replication
c4_aux_fan_replication-Returns {n} cand safe pair =
    let app_p = cand.app_aux0 in
    let rep_p = cand.rep_principal in
    slot_at-bind (slot_idx app_p) _ safe (live-inside (slot_idx app_p) safe pair.live_p).0
      λ app e w.
        slot_at-bind (slot_idx rep_p) _ safe (live-inside (slot_idx rep_p) safe pair.live_q).0
          λ rep e' w'.
            branch-Returns (is_eraser app.aux0) (c4_erase app_p rep_p app cand.lo)
              (c4_replicate app_p rep_p app rep cand.lo)
              (λ is.
                mono-Returns (c4_erase-Returns app_p rep_p app cand.lo safe pair w)
                  λ _ m less. erased app e is less)
              (λ is.
                mono-Returns (c4_replicate-Returns app_p rep_p app rep cand.lo safe pair w w')
                  λ _ m more. replicated app e is more)
