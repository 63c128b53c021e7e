-- ===== src/Rules/Safe.antt =====
-- The rules R2, R3, R4 and R6 in a safe net, on live agents.
use dnet.Prelude.{ℕ, ◌+◌, ◌-◌, ◌<◌, ◌≡◌, ◌≢◌, refl, sym, Bool, true, arith, ◌==◌, ◌&&◌}
use dnet.LoPath.{LoPath, extend_left, extend_right}
use dnet.Port
use dnet.Port.{PortId, slot_idx}
use dnet.Slot.{Slot, fan_is_abs}
use dnet.Net.{Net, Action, ◌>>=◌, ◌>>◌, lift, connect, retire, set_eraser_on_port}
use dnet.Net.Safe.{
  size, is_live, count, IsWired, IsSafe, Returns, and_then-Returns, if-Returns, slot_at-bind,
}
use dnet.Net.Keeps.{mono-Returns}
use dnet.Net.Chain.{
  Holds, extend_left-Calm, extend_right-Calm, lift-bind, connect-Holds, link-Holds, erase-Holds,
  retire-Holds, without, live-inside, live-two,
}
use dnet.Rules.{r2_era_fan, r3_era_rep, beta, r4_fan_fan, r6_rep_rep}

-- `d` agents fewer than in `n`, and no more slots.
abbrev pub Lost : ℕ → Net → Unit {0} → Net → Type 0
Lost d n u m = (count m + d ≡ count n) × (size m ≡ size n)

-- The last four lines that most rules have.
pub two_links :
    {k c : ℕ} {f : ℕ → Bool} {n : Net} (a b a' b' : PortId) (lo : LoPath)
    → IsSafe n
    → Holds k c f n
    → slot_idx a < k
    → slot_idx b < k
    → slot_idx a' < k
    → slot_idx b' < k
    → Returns
        (λ _. Holds k c f)
        ((do
          lo0 ← lift (extend_left lo)
          connect a b lo0
          lo1 ← lift (extend_right lo)
          connect a' b' lo1)
          n)
two_links a b a' b' lo safe h p q p' q' = lift-bind _ (extend_left-Calm lo) safe λ lo0.
    and_then-Returns (connect-Holds safe h a b lo0 p q) λ _ _ safe h.
      lift-bind _ (extend_right-Calm lo) safe λ lo1. connect-Holds safe h a' b' lo1 p' q'

-- What R2 and R3 have in common.
erase_agent :
    {n : Net} (p : PortId) (s : Slot) (lo : LoPath)
    → IsSafe n
    → is_live n (slot_idx p) ≡ true
    → IsWired n s
    → Returns (Lost 1 n) (
        (do
          set_eraser_on_port s.aux0
          set_eraser_on_port s.aux1
          retire (slot_idx p)
          lo0 ← lift (extend_left lo)
          connect Port.era s.aux0 lo0
          lo1 ← lift (extend_right lo)
          connect Port.era s.aux1 lo1)
          n)
unfolding slot_idx
erase_agent {n} p s lo safe live w =
    let (inside, many) = live-inside (slot_idx p) safe live in
    let start : Holds (size n) (count n - 1 + 1) (is_live n) n = record {
      sized = refl;
      counted = omega arith;
      living = λ j. refl;
    } in
    let low : slot_idx Port.era < size n = safe.valid.sentinel in
    and_then-Returns (erase-Holds safe start s.aux0 w.at_aux0) λ _ _ safe h.
      and_then-Returns (erase-Holds safe h s.aux1 w.at_aux1) λ _ _ safe h.
        and_then-Returns (retire-Holds (slot_idx p) safe h live) λ _ _ safe h.
          mono-Returns
            (two_links Port.era s.aux0 Port.era s.aux1 lo safe h low w.at_aux0 low w.at_aux1)
            λ _ m h. (omega (arith, h.counted), h.sized)

-- R2, on a live agent of a safe net, does not panic: it ends in a safe net with one agent fewer and
-- no slot more, or in an error, also in a safe net.
pub r2_era_fan-Returns :
    {n : Net} (fan_p : PortId) (lo : LoPath)
    → IsSafe n
    → is_live n (slot_idx fan_p) ≡ true
    → Returns (Lost 1 n) (r2_era_fan fan_p lo n)
unfolding r2_era_fan
r2_era_fan-Returns fan_p lo safe live =
    slot_at-bind (slot_idx fan_p) _ safe (live-inside (slot_idx fan_p) safe live).0
      λ s e w. erase_agent fan_p s lo safe live w

-- R3, on a live agent of a safe net, does not panic: it ends in a safe net with one agent fewer and
-- no slot more, or in an error, also in a safe net.
pub r3_era_rep-Returns :
    {n : Net} (rep_p : PortId) (lo : LoPath)
    → IsSafe n
    → is_live n (slot_idx rep_p) ≡ true
    → Returns (Lost 1 n) (r3_era_rep rep_p lo n)
unfolding r3_era_rep
r3_era_rep-Returns rep_p lo safe live =
    slot_at-bind (slot_idx rep_p) _ safe (live-inside (slot_idx rep_p) safe live).0
      λ s e w. erase_agent rep_p s lo safe live w

-- Two live agents, with room to retire both.
pub record Pair (n : Net) (p q : PortId) : Type 0 where
  pub live_p : is_live n (slot_idx p) ≡ true
  pub live_q : is_live n (slot_idx q) ≡ true
  pub distinct : slot_idx p ≢ slot_idx q

pub swap-Pair : {n : Net} {p q : PortId} → Pair n p q → Pair n q p
swap-Pair h = record { live_p = h.live_q; live_q = h.live_p; distinct = λ e. h.distinct (sym e) }

-- Both agents of a pair are retired, then the rest is done.
pub retire_both :
    {A : Type 0} {n : Net} {R : A → Net → Type 0} (p q : PortId) (rest : Action A)
    → IsSafe n
    → Pair n p q
    → ((m : Net)
        → IsSafe m
        → Holds (size n) (count n - 2) (without (slot_idx q) (without (slot_idx p) (is_live n))) m
        → Returns R (rest m))
    → Returns R ((do retire (slot_idx p); retire (slot_idx q); rest) n)
retire_both {n} p q rest safe pair next =
    let many = live-two (slot_idx p) (slot_idx q) safe pair.live_p pair.live_q pair.distinct in
    let start : Holds (size n) (count n - 2 + 1 + 1) (is_live n) n = record {
      sized = refl;
      counted = omega arith;
      living = λ j. refl;
    } in
    and_then-Returns (retire-Holds (slot_idx p) safe start pair.live_p) λ _ _ safe h.
      and_then-Returns
        (retire-Holds (slot_idx q) safe h (ground (arith, pair.live_q, pair.distinct)))
        λ _ m safe h. next m safe h

beta-Returns :
    {n : Net} (abs_p app_p : PortId) (lo : LoPath)
    → IsSafe n
    → Pair n abs_p app_p
    → Returns (Lost 2 n) (beta abs_p app_p lo n)
unfolding beta
beta-Returns {n} abs_p app_p lo safe pair =
    let many =
      live-two (slot_idx abs_p) (slot_idx app_p) safe pair.live_p pair.live_q pair.distinct in
    slot_at-bind (slot_idx abs_p) _ safe (live-inside (slot_idx abs_p) safe pair.live_p).0 λ s e w.
      slot_at-bind (slot_idx app_p) _ safe (live-inside (slot_idx app_p) safe pair.live_q).0
        λ t e' w'. retire_both abs_p app_p _ safe pair λ m safe h.
          if-Returns (slot_idx s.aux0 == slot_idx abs_p && slot_idx s.aux1 == slot_idx abs_p) _ _
            (mono-Returns (link-Holds safe h t.aux0 t.aux1 w'.at_aux0 w'.at_aux1)
              λ _ m h. (omega (arith, h.counted), h.sized))
            (mono-Returns
              (two_links s.aux0 t.aux0 s.aux1 t.aux1 lo safe h w.at_aux0 w'.at_aux0 w.at_aux1
                w'.at_aux1)
              λ _ m h. (omega (arith, h.counted), h.sized))

-- R4, on two live agents in different slots of a safe net, does not panic: it ends in a safe net
-- with two agents fewer and no slot more, or in an error, also in a safe net.
pub r4_fan_fan-Returns :
    {n : Net} (p0 p1 : PortId) (lo : LoPath)
    → IsSafe n
    → Pair n p0 p1
    → Returns (Lost 2 n) (r4_fan_fan p0 p1 lo n)
unfolding r4_fan_fan
r4_fan_fan-Returns p0 p1 lo safe pair =
    slot_at-bind (slot_idx p0) _ safe (live-inside (slot_idx p0) safe pair.live_p).0 λ s e w.
      if-Returns (fan_is_abs s) _ _ (beta-Returns p0 p1 lo safe pair)
        (beta-Returns p1 p0 lo safe (swap-Pair pair))

-- R6, on two live agents in different slots of a safe net, does not panic: it ends in a safe net
-- with two agents fewer and no slot more, or in an error, also in a safe net.
pub r6_rep_rep-Returns :
    {n : Net} (p0 p1 : PortId) (lo : LoPath)
    → IsSafe n
    → Pair n p0 p1
    → Returns (Lost 2 n) (r6_rep_rep p0 p1 lo n)
unfolding r6_rep_rep
r6_rep_rep-Returns {n} p0 p1 lo safe pair =
    let many = live-two (slot_idx p0) (slot_idx p1) safe pair.live_p pair.live_q pair.distinct in
    slot_at-bind (slot_idx p0) _ safe (live-inside (slot_idx p0) safe pair.live_p).0 λ s e w.
      slot_at-bind (slot_idx p1) _ safe (live-inside (slot_idx p1) safe pair.live_q).0 λ t e' w'.
        retire_both p0 p1 _ safe pair λ m safe h.
          mono-Returns
            (two_links s.aux0 t.aux0 s.aux1 t.aux1 lo safe h w.at_aux0 w'.at_aux0 w.at_aux1
              w'.at_aux1)
            λ _ m h. (omega (arith, h.counted), h.sized)
