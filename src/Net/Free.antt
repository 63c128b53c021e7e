-- ===== src/Net/Free.antt =====
-- The agents of free variables, in a safe net.
use dnet.Prelude.{ℕ, ◌<◌, ◌^◌, ◌∙◌, bit_and, arith}
use dnet.Port.{PortId, principal}
use dnet.Port.Fields.{new_fields}
use dnet.Net.{Net, alloc_free}
use dnet.Net.Safe.{
  InNet, IsSafe, Returns, returns, and_then-Returns, modify_slot-Returns, slot_at-bind,
}
use dnet.Net.Keeps.{alloc_slot-Returns, Grown}

-- A new slot, and a port that leads to it.
pub record NewFree (n : Net) (p : PortId) (m : Net) : Type 0 where
  pub grown : Grown n m
  pub new_port : InNet m p

pub alloc_free-Returns :
    {n : Net} (var_id : ℕ) → IsSafe n → Returns (NewFree n) (alloc_free var_id n)
unfolding alloc_free
alloc_free-Returns var_id safe = and_then-Returns (alloc_slot-Returns safe) λ i m safe (grown, lt).
    and_then-Returns
      (modify_slot-Returns i _ safe lt
        λ s w. record { at_principal = w.at_principal; at_aux0 = w.at_aux0; at_aux1 = w.at_aux1 })
      λ _ m' safe' same. slot_at-bind i _ safe' (omega (arith, same.size_same)) λ s e w.
        let small : i < 2 ^ 28 = omega (arith, safe'.small, same.size_same) in
        returns safe' (record {
          grown = record {
            size_grown = omega (arith, grown.size_grown, same.size_same);
            live_grown = λ j h. same.live_same j ∙ grown.live_grown j h;
            count_more = omega (arith, grown.count_more, same.count_same);
          };
          new_port =
              omega
                (arith, (new_fields i principal (bit_and s.generation 1) small).0, same.size_same);
        })
