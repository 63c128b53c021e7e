-- ===== src/Error.antt =====
-- crates/dnx-core/src/error.rs, and the outcomes of code that may fail: a value, a `DnxError`, or a
-- panic (an index out of bounds).
use dnet.Prelude.{ℕ, ◌≡◌, refl, List}
use Prim.Native.String.{String}

pub data LinError : Type 0 where
  unused : String → LinError
  multi_use : String → ℕ → LinError
  mutual_recursion : List String → LinError
  too_many_free_vars : LinError

pub data DnxError : Type 0 where
  lin_error : LinError → DnxError
  lo_path_depth_exceeded : DnxError
  step_limit_exceeded : ℕ → DnxError
  arena_capacity_exceeded : DnxError
  delta_overflow : DnxError
  stale_pair : DnxError
  aba_violation : DnxError
  prim_error : String → DnxError
  readback_incomplete : DnxError

pub data Result {ℓ} (A : Type ℓ) : Type ℓ where
  ok : A → Result A
  err : DnxError → Result A
  panic : Result A

module _ {ℓ κ} {A : Type ℓ} {B : Type κ} where
  infixl 5 ◌>>=◌
  abbrev pub ◌>>=◌ : Result A → (A → Result B) → Result B
  panic >>= next = panic
  err e >>= next = err e
  ok a >>= next = next a

  -- The value of a chain that succeeded comes from the values of its parts.
  pub >>=-eq-ok :
      {b : B} (r : Result A) (next : A → Result B)
      → (r >>= next) ≡ ok b
      → (a : A) × (r ≡ ok a) × (next a ≡ ok b)
  >>=-eq-ok panic next e = cc
  >>=-eq-ok (err x) next e = cc
  >>=-eq-ok (ok a) next e = (a, refl, e)
