-- ===== src/Codec.antt =====
-- What the binary codecs share: outcomes, a cursor on a body, and numbers as bytes. A byte is a number, a
-- hash the list of its bytes.
pub mod Parts
use dnet.Prelude.{ℕ, ◌+◌, ◌*◌, ◌/◌, ◌%◌, ◌^◌, List, [], ◌∷◌}

pub data Fallible {ℓ} (E : Type 0) (A : Type ℓ) : Type ℓ where
  fine : A → Fallible E A
  fault : E → Fallible E A

module _ {ℓ κ} {E : Type 0} {A : Type ℓ} {B : Type κ} where
  infixl 5 ◌>>=◌
  abbrev pub ◌>>=◌ : Fallible E A → (A → Fallible E B) → Fallible E B
  fault e >>= next = fault e
  fine a >>= next = next a

abbrev pub Blake3Hash : Type 0
Blake3Hash = List ℕ

pub record Cursor : Type 0 where
  pub bytes : List ℕ
  pub pos : ℕ

abbrev pub DecoderOf {ℓ} : Type 0 → Type ℓ → Type ℓ
DecoderOf E A = Cursor → Fallible E (A × Cursor)

-- `u32::to_le_bytes` and `from_le_bytes`
unfoldable pub put_u32 : ℕ → List ℕ
put_u32 n = n % 256 ∷ n / 2 ^ 8 % 256 ∷ n / 2 ^ 16 % 256 ∷ n / 2 ^ 24 % 256 ∷ []

unfoldable pub from_le_bytes : List ℕ → ℕ
from_le_bytes [] = 0
from_le_bytes (b ∷ l) = b + 256 * from_le_bytes l

unfoldable pub first_byte : List ℕ → ℕ
first_byte [] = 0
first_byte (b ∷ l) = b
