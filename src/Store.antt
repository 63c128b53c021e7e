-- ===== src/Store.antt =====
-- crates/dnx-store/src/path.rs: the paths of a content-addressed store. A string is the list of its
-- UTF-8 bytes, so that `chars` is read off the bytes.
pub mod RoundTrip
use dnet.Prelude.{
  ℕ, zero, suc, ◌+◌, ◌-◌, ◌*◌, ◌/◌, ◌%◌, ◌^◌, bit_or, Bool, true, false, not, ◌&&◌, ◌||◌, Option,
  none, some, List, [], ◌∷◌, ◌++◌, ◌==◌, ltb, leb, length, get_elem?, take, drop, if◌then◌else◌,
}
use dnet.Codec.{Fallible, fine, fault, Blake3Hash}

-- The error of a path; the errors of files are left out.
pub data StoreError : Type 0 where
  bad_name : List ℕ → StoreError

pub record StorePath : Type 0 where
  pub hash : Blake3Hash
  pub name : List ℕ

abbrev pub hex_len : ℕ
hex_len = 64

-- `std::path::Component`, on Unix.
pub data Component : Type 0 where
  root_dir cur_dir parent_dir : Component
  normal : List ℕ → Component

-- The bytes up to the next `/`, and those behind it.
unfoldable pub split_slash : List ℕ → List (List ℕ)
split_slash [] = [] ∷ []
split_slash (b ∷ l) = if b == 47 then [] ∷ split_slash l else push b (split_slash l)
  where
    push : ℕ → List (List ℕ) → List (List ℕ)
    push b [] = (b ∷ []) ∷ []
    push b (part ∷ parts) = (b ∷ part) ∷ parts

-- What a part is, one that is not the first: an empty part and `.` are left out.
unfoldable pub component_of : List ℕ → List Component
component_of [] = []
component_of (b ∷ []) = if b == 46 then [] else normal (b ∷ []) ∷ []
component_of (b ∷ c ∷ []) = if b == 46 && c == 46 then parent_dir ∷ [] else normal (b ∷ c ∷ []) ∷ []
component_of l = normal l ∷ []

unfoldable pub all_components : List (List ℕ) → List Component
unfolding component_of
all_components [] = []
all_components (part ∷ parts) = component_of part ++ all_components parts

-- `Path::components`: a leading `/` is the root, a leading `.` the current directory.
unfoldable pub components : List ℕ → List Component
unfolding split_slash all_components
components name = first (split_slash name)
  where
    first : List (List ℕ) → List Component
    first [] = []
    first ([] ∷ []) = []
    first ([] ∷ parts) = root_dir ∷ all_components parts
    first ((b ∷ []) ∷ parts) =
        if b == 46 then cur_dir ∷ all_components parts else normal (b ∷ []) ∷ all_components parts
    first (part ∷ parts) = all_components (part ∷ parts)

unfoldable pub one_normal : List Component → Bool
one_normal (normal l ∷ []) = true
one_normal _ = false

-- `c.is_control() || c == '\\' || c == '/'` for some char: a byte below 0x20, 0x7F, or 0x80 to 0x9F behind 0xC2.
unfoldable pub has_forbidden : List ℕ → Bool
has_forbidden [] = false
has_forbidden (b ∷ l) =
    let rest = has_forbidden l in
    ltb b 0x20 || b == 0x7F || b == 92 || b == 47 || (b == 0xC2 && starts_control l) || rest
  where
    starts_control : List ℕ → Bool
    starts_control [] = false
    starts_control (c ∷ l) = leb 0x80 c && leb c 0x9F

unfoldable pub is_single_component : List ℕ → Bool
unfolding components one_normal has_forbidden
is_single_component name = one_normal (components name) && not (has_forbidden name)

unfoldable pub new : Blake3Hash → List ℕ → Fallible StoreError StorePath
unfolding is_single_component
new hash name =
    if is_single_component name
    then fine (record { hash = hash; name = name })
    else fault (bad_name name)

unfoldable pub hex_val : ℕ → Option ℕ
hex_val c =
    if leb 48 c && leb c 57
    then some (c - 48)
    else if leb 97 c && leb c 102
    then some (c - 97 + 10)
    else none

-- The loop on `hash.iter_mut()`, with `u8` arithmetic.
unfoldable pub parse_hex : ℕ → List ℕ → Option Blake3Hash
unfolding hex_val
parse_hex zero l = some []
parse_hex (suc n) [] = none
parse_hex (suc n) (c ∷ []) = none
parse_hex (suc n) (c ∷ d ∷ l) = elim (hex_val c) [
  | none ↦ none
  | some hi ↦ elim (hex_val d) [
    | none ↦ none
    | some lo ↦ elim (parse_hex n l) [
      | none ↦ none
      | some hash ↦ some (bit_or (hi * 2 ^ 4 % 256) lo ∷ hash)
    ]
  ]
]

unfoldable pub is_dash : Option ℕ → Bool
is_dash none = false
is_dash (some b) = b == 45

unfoldable pub parse : List ℕ → Fallible StoreError StorePath
unfolding is_dash parse_hex new
parse component =
    if ltb (length component) (hex_len + 2) || not (is_dash (get_elem? component hex_len))
    then fault (bad_name component)
    else elim (parse_hex 32 (take hex_len component)) [
      | none ↦ fault (bad_name component)
      | some hash ↦ new hash (drop 1 (drop hex_len component))
    ]

-- `{:02x}`
unfoldable pub hex_digit : ℕ → ℕ
hex_digit n = if ltb n 10 then 48 + n else 87 + n

unfoldable pub print_hex : Blake3Hash → List ℕ
unfolding hex_digit
print_hex [] = []
print_hex (b ∷ l) = hex_digit (b / 16) ∷ hex_digit (b % 16) ∷ print_hex l

-- `Display`
unfoldable pub print : StorePath → List ℕ
unfolding print_hex
print path = print_hex path.hash ++ 45 ∷ path.name
