-- ===== src/Rules/Grow.antt =====
-- The rules R5 and R7, that make new agents, in a safe net, on live agents.
use dnet.Prelude.{
  get_elem?, some, ℕ, ◌+◌, ◌<◌, ◌≡◌, Bool, true, false, arith, ◌==◌, ◌&&◌, ltb, if◌then◌else◌,
}
use dnet.Prelude.Int.{ℤ, pos, negsuc, ◌+ℤ◌}
use dnet.Error
use dnet.Error.{Result, ok, err}
use dnet.LoPath.{LoPath}
use dnet.Port.{PortId, slot_idx}
use dnet.Slot
use dnet.Slot.{Slot, fan_is_abs}
use dnet.Net.{Net, Action, AgentPorts, and_then, lift, alloc_agent}
use dnet.Net.Safe.{
  size, count, IsWired, IsSafe, grow-IsWired, Returns, fails, and_then-Returns, if-Returns,
  branch-Returns, slot_at-bind,
}
use dnet.Net.Keeps.{mono-Returns, Grown, alloc_agent-Returns}
use dnet.Net.Chain.{
  Calm, calm_ok, calm_err, extend_left-Calm, extend_right-Calm, lift-bind, connect-Holds,
  live-inside, live-two,
}
use dnet.Rules.{
  turn_two, r5_fan_rep, r5_self_loop, r5_general, add_level, commute, key_lt, r7_rep_rep,
}
use dnet.Rules.Safe.{Pair, swap-Pair, retire_both}

pub record InNet3 (n : Net) (ps : AgentPorts) : Type 0 where
  pub in_principal : slot_idx ps.principal < size n
  pub in_aux0 : slot_idx ps.aux0 < size n
  pub in_aux1 : slot_idx ps.aux1 < size n

pub alloc-bind :
    {B : Type 0} {R : B → Net → Type 0} {n : Net} (tag level : ℕ) (d0 d1 : ℤ)
    (k : AgentPorts → Action B)
    → IsSafe n
    → ((ps : AgentPorts) (m : Net) → IsSafe m → Grown n m → InNet3 m ps → Returns R (k ps m))
    → Returns R (and_then (alloc_agent tag level d0 d1 n) k)
alloc-bind tag level d0 d1 k safe next =
    and_then-Returns (alloc_agent-Returns tag level d0 d1 safe) λ ps m safe new.
      next ps m safe new.grown (record {
        in_principal = new.new_principal;
        in_aux0 = new.new_aux0;
        in_aux1 = new.new_aux1;
      })

pub turn-bind :
    {B : Type 0} {R : B → Net → Type 0} {n : Net} (first second : LoPath → Result LoPath)
    (lo : LoPath) (k : LoPath → Action B)
    → ((p : LoPath) → Calm (first p))
    → ((p : LoPath) → Calm (second p))
    → IsSafe n
    → ((p : LoPath) → Returns R (k p n))
    → Returns R (and_then (turn_two first second lo n) k)
turn-bind {R = R} {n = n} first second lo k calm calm' safe next = on (calm lo)
  where
    on :
        {r : Result LoPath}
        → Calm r
        → Returns R (and_then (and_then (r, n) λ mid. lift (second mid)) k)
    on (calm_ok mid) = lift-bind k (calm' mid) safe next
    on calm_err = fails safe

pub grow-Pair : {n m : Net} {p q : PortId} → Grown n m → Pair n p q → Pair m p q
grow-Pair g pair = record {
  live_p = g.live_grown _ pair.live_p;
  live_q = g.live_grown _ pair.live_q;
  distinct = pair.distinct;
}

add_level-Calm : (level : ℕ) (delta : ℤ) → Calm (add_level level delta)
unfolding add_level
add_level-Calm level delta = on (pos level +ℤ delta)
  where
    pick : (b : Bool) (v : ℕ) → Calm (if b then ok v else err Error.delta_overflow)
    pick true v = calm_ok v
    pick false v = calm_err

    on :
        (v : ℤ)
        → Calm (elim v [
          | pos v ↦ if ltb v 16384 then ok v else err Error.delta_overflow
          | negsuc v ↦ err Error.delta_overflow
        ])
    on (pos v) = pick (ltb v 16384) v
    on (negsuc v) = calm_err

abbrev pub Gained : ℕ → Net → Unit {0} → Net → Type 0
Gained d n u m = count m ≡ count n + d

commute-Returns :
    {n : Net} (hi_p : PortId) (hi : Slot) (lo_p : PortId) (low : Slot) (lo : LoPath)
    → IsSafe n
    → Pair n hi_p lo_p
    → IsWired n hi
    → IsWired n low
    → Returns (Gained 2 n) (commute hi_p hi lo_p low lo n)
unfolding commute
commute-Returns {n} hi_p hi lo_p low lo safe pair w w' =
    lift-bind _ (add_level-Calm hi.data_word low.delta0) safe λ l0.
      alloc-bind _ l0 hi.delta0 hi.delta1 _ safe λ hc0 m1 safe g1 i1.
        lift-bind _ (add_level-Calm hi.data_word low.delta1) safe λ l1.
          alloc-bind _ l1 hi.delta0 hi.delta1 _ safe λ hc1 m2 safe g2 i2.
            alloc-bind _ low.data_word low.delta0 low.delta1 _ safe λ lc0 m3 safe g3 i3.
              alloc-bind _ low.data_word low.delta0 low.delta1 _ safe λ lc1 m4 safe g4 i4.
                let pair4 = grow-Pair g4 (grow-Pair g3 (grow-Pair g2 (grow-Pair g1 pair))) in
                let many =
                  live-two (slot_idx hi_p) (slot_idx lo_p) safe pair4.live_p pair4.live_q
                    pair4.distinct in
                retire_both hi_p lo_p _ safe pair4 λ m safe h.
                  and_then-Returns
                    (connect-Holds safe h hc0.aux0 lc0.aux0 lo (omega arith) (omega arith))
                    λ _ _ safe h.
                      and_then-Returns
                        (connect-Holds safe h hc0.aux1 lc1.aux0 lo (omega arith) (omega arith))
                        λ _ _ safe h.
                          and_then-Returns
                            (connect-Holds safe h hc1.aux0 lc0.aux1 lo (omega arith) (omega arith))
                            λ _ _ safe h.
                              and_then-Returns
                                (connect-Holds safe h hc1.aux1 lc1.aux1 lo (omega arith)
                                  (omega arith))
                                λ _ _ safe h.
                                  turn-bind _ _ lo _ extend_left-Calm extend_left-Calm safe λ lo00.
                                    and_then-Returns
                                      (connect-Holds safe h hc0.principal low.aux0 lo00
                                        (omega arith) (omega arith))
                                      λ _ _ safe h.
                                        turn-bind _ _ lo _ extend_left-Calm extend_right-Calm safe
                                          λ lo01.
                                            and_then-Returns
                                              (connect-Holds safe h hc1.principal low.aux1 lo01
                                                (omega arith) (omega arith))
                                              λ _ _ safe h.
                                                turn-bind _ _ lo _ extend_right-Calm
                                                  extend_left-Calm safe
                                                  λ lo10.
                                                    and_then-Returns
                                                      (connect-Holds safe h lc0.principal hi.aux0
                                                        lo10 (omega arith) (omega arith))
                                                      λ _ _ safe h.
                                                        turn-bind _ _ lo _ extend_right-Calm
                                                          extend_right-Calm safe
                                                          λ lo11.
                                                            mono-Returns
                                                            (connect-Holds safe h lc1.principal
                                                            hi.aux1 lo11 (omega arith)
                                                            (omega arith))
                                                            λ _ m h. omega arith

-- R7, on two live replicators in different slots of a safe net, does not panic: it ends in a safe
-- net with two agents more, or in an error, also in a safe net.
pub r7_rep_rep-Returns :
    {n : Net} (p0 p1 : PortId) (lo : LoPath)
    → IsSafe n
    → Pair n p0 p1
    → Returns (Gained 2 n) (r7_rep_rep p0 p1 lo n)
unfolding r7_rep_rep
r7_rep_rep-Returns p0 p1 lo safe pair =
    slot_at-bind (slot_idx p0) _ safe (live-inside (slot_idx p0) safe pair.live_p).0 λ s e w.
      slot_at-bind (slot_idx p1) _ safe (live-inside (slot_idx p1) safe pair.live_q).0 λ t e' w'.
        if-Returns (key_lt t s) _ _ (commute-Returns p0 s p1 t lo safe pair w w')
          (commute-Returns p1 t p0 s lo safe (swap-Pair pair) w' w)

-- The two ways on of R5. The count is the one after the two new fans.
r5_self_loop-Returns :
    {n : Net} (fan_p rep_p : PortId) (rep : Slot) (f0 f1 : AgentPorts) (lo lo_00 lo_01 : LoPath)
    → IsSafe n
    → Pair n fan_p rep_p
    → IsWired n rep
    → InNet3 n f0
    → InNet3 n f1
    → Returns (λ _ m. count m + 2 ≡ count n) (r5_self_loop fan_p rep_p rep f0 f1 lo lo_00 lo_01 n)
unfolding r5_self_loop
r5_self_loop-Returns {n} fan_p rep_p rep f0 f1 lo lo_00 lo_01 safe pair w i0 i1 =
    let many =
      live-two (slot_idx fan_p) (slot_idx rep_p) safe pair.live_p pair.live_q pair.distinct in
    retire_both fan_p rep_p _ safe pair λ m safe h. lift-bind _ (extend_left-Calm lo) safe λ lo0.
      and_then-Returns (connect-Holds safe h f0.aux0 f0.aux1 lo0 i0.in_aux0 i0.in_aux1)
        λ _ _ safe h. lift-bind _ (extend_right-Calm lo) safe λ lo1.
          and_then-Returns (connect-Holds safe h f1.aux0 f1.aux1 lo1 i1.in_aux0 i1.in_aux1)
            λ _ _ safe h.
              and_then-Returns
                (connect-Holds safe h f0.principal rep.aux0 lo_00 i0.in_principal w.at_aux0)
                λ _ _ safe h.
                  mono-Returns
                    (connect-Holds safe h f1.principal rep.aux1 lo_01 i1.in_principal w.at_aux1)
                    λ _ m h. omega (arith, h.counted)

r5_general-Returns :
    {n : Net} (fan_p rep_p : PortId) (fan rep : Slot) (f0 f1 : AgentPorts) (lo lo_00 lo_01 : LoPath)
    → IsSafe n
    → Pair n fan_p rep_p
    → IsWired n fan
    → IsWired n rep
    → InNet3 n f0
    → InNet3 n f1
    → Returns (λ _ m. count m ≡ count n) (r5_general fan_p rep_p fan rep f0 f1 lo lo_00 lo_01 n)
unfolding r5_general
r5_general-Returns {n} fan_p rep_p fan rep f0 f1 lo lo_00 lo_01 safe pair w w' i0 i1 =
    let ra_tag = if fan_is_abs fan then Slot.tag_rep_in_unknown else Slot.tag_rep_out_unknown in
    let rb_tag = if fan_is_abs fan then Slot.tag_rep_out_unknown else Slot.tag_rep_in_unknown in
    alloc-bind ra_tag rep.data_word rep.delta0 rep.delta1 _ safe λ ra m1 safe g1 ia.
      alloc-bind rb_tag rep.data_word rep.delta0 rep.delta1 _ safe λ rb m2 safe g2 ib.
        let pair2 = grow-Pair g2 (grow-Pair g1 pair) in
        let many =
          live-two (slot_idx fan_p) (slot_idx rep_p) safe pair2.live_p pair2.live_q
            pair2.distinct in
        retire_both fan_p rep_p _ safe pair2 λ m safe h.
          turn-bind _ _ lo _ extend_right-Calm extend_left-Calm safe λ lo_10.
            turn-bind _ _ lo _ extend_right-Calm extend_right-Calm safe λ lo_11.
              let ra_lo = if fan_is_abs fan then lo_10 else lo_11 in
              let rb_lo = if fan_is_abs fan then lo_11 else lo_10 in
              and_then-Returns (connect-Holds safe h f0.aux0 ra.aux0 lo (omega arith) (omega arith))
                λ _ _ safe h.
                  and_then-Returns
                    (connect-Holds safe h f0.aux1 rb.aux0 lo (omega arith) (omega arith))
                    λ _ _ safe h.
                      and_then-Returns
                        (connect-Holds safe h f1.aux0 ra.aux1 lo (omega arith) (omega arith))
                        λ _ _ safe h.
                          and_then-Returns
                            (connect-Holds safe h f1.aux1 rb.aux1 lo (omega arith) (omega arith))
                            λ _ _ safe h.
                              and_then-Returns
                                (connect-Holds safe h f0.principal rep.aux0 lo_00 (omega arith)
                                  (omega arith))
                                λ _ _ safe h.
                                  and_then-Returns
                                    (connect-Holds safe h f1.principal rep.aux1 lo_01 (omega arith)
                                      (omega arith))
                                    λ _ _ safe h.
                                      and_then-Returns
                                        (connect-Holds safe h ra.principal fan.aux0 ra_lo
                                          (omega arith) (omega arith))
                                        λ _ _ safe h.
                                          mono-Returns
                                            (connect-Holds safe h rb.principal fan.aux1 rb_lo
                                              (omega arith) (omega arith))
                                            λ _ m h. omega arith

-- The auxiliary ports of a fan are both wired to the fan itself.
abbrev pub Looped : PortId → Slot → Type 0
Looped fan_p fan = (slot_idx fan.aux0 ≡ slot_idx fan_p) × (slot_idx fan.aux1 ≡ slot_idx fan_p)

-- As many agents as in `n` if the fan was wired to itself, and else two more.
pub data Shared (n : Net) (fan_p : PortId) (m : Net) : Type 0 where
  as_many :
      (fan : Slot)
      → get_elem? n.arena.slots (slot_idx fan_p) ≡ some fan
      → Looped fan_p fan
      → count m ≡ count n
      → Shared n fan_p m
  two_more :
      (fan : Slot)
      → get_elem? n.arena.slots (slot_idx fan_p) ≡ some fan
      → ¬ Looped fan_p fan
      → count m ≡ count n + 2
      → Shared n fan_p m

-- R5, on a live fan and a live replicator in different slots of a safe net, does not panic: it ends
-- in a safe net, with as many agents if the two auxiliary ports of the fan were wired to each other
-- and with two more if not, or in an error, also in a safe net.
pub r5_fan_rep-Returns :
    {n : Net} (fan_p rep_p : PortId) (lo : LoPath)
    → IsSafe n
    → Pair n fan_p rep_p
    → Returns (λ _ m. Shared n fan_p m) (r5_fan_rep fan_p rep_p lo n)
unfolding r5_fan_rep
r5_fan_rep-Returns {n} fan_p rep_p lo safe pair =
    slot_at-bind (slot_idx fan_p) _ safe (live-inside (slot_idx fan_p) safe pair.live_p).0
      λ fan e0 w.
        slot_at-bind (slot_idx rep_p) _ safe (live-inside (slot_idx rep_p) safe pair.live_q).0
          λ rep e' w'.
            let tag = if fan_is_abs fan then Slot.tag_fan_abs else Slot.tag_fan_app in
            alloc-bind tag 0 (pos 0) (pos 0) _ safe λ f0 m1 safe g1 i0.
              alloc-bind tag 0 (pos 0) (pos 0) _ safe λ f1 m2 safe g2 i1.
                let pair2 = grow-Pair g2 (grow-Pair g1 pair) in
                let wf : IsWired m2 fan = grow-IsWired {n = n} {n' = m2} (omega arith) w in
                let wr : IsWired m2 rep = grow-IsWired {n = n} {n' = m2} (omega arith) w' in
                let j0 : InNet3 m2 f0 = record {
                  in_principal = omega arith;
                  in_aux0 = omega arith;
                  in_aux1 = omega arith;
                } in
                turn-bind _ _ lo _ extend_left-Calm extend_left-Calm safe λ lo_00.
                  turn-bind _ _ lo _ extend_left-Calm extend_right-Calm safe λ lo_01.
                    branch-Returns
                      (slot_idx fan.aux0 == slot_idx fan_p && slot_idx fan.aux1 == slot_idx fan_p) _
                      _
                      (λ looped.
                        mono-Returns
                          (r5_self_loop-Returns fan_p rep_p rep f0 f1 lo lo_00 lo_01 safe pair2 wr
                            j0 i1)
                          λ _ m e. as_many fan e0 (ground arith, ground arith) (omega arith))
                      (λ other.
                        mono-Returns
                          (r5_general-Returns fan_p rep_p fan rep f0 f1 lo lo_00 lo_01 safe pair2 wf
                            wr j0 i1)
                          λ _ m e.
                            two_more fan e0 (λ loop. ground (arith, loop.0, loop.1)) (omega arith))
