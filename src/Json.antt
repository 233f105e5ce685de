-- ===== src/Json.antt =====
-- JSON values (`serde_json::Value`) and the field getters of `IxUtils` in
-- kora/crates/lib/src/transaction/instruction_util.rs, with `str::parse::<u64>`.
use Prim.Native.Char.{code}
use solus_protocol.Base.{
  ℕ, ◌+◌, ◌-◌, ◌*◌, String, Bool, ◌&&◌, leb, Option, none, some, List, [], ◌∷◌, ◌==◌, nat_eq,
  string_eq, if◌then◌else◌,
}
use solus_protocol.Error.{Result, ok, err, serialization_error, ok_or, ◌>>=◌}
use solus_protocol.Instruction.{Pubkey}

-- A number is known by what `as_u64` gives for it.
mutual
  pub data Json : Type 0 where
    null : Json
    boolean : Bool → Json
    number : Option ℕ → Json
    text : String → Json
    array : Elements → Json
    object : Members → Json

  pub data Elements : Type 0 where
    no_elements : Elements
    element : Json → Elements → Elements

  pub data Members : Type 0 where
    no_members : Members
    member : String → Json → Members → Members

unfoldable pub member_of : String → Members → Option Json
member_of name no_members = none
member_of name (member n v ms) = if n == name then some v else member_of name ms

-- `value.get(name)`
unfoldable pub get : String → Json → Option Json
unfolding member_of
get name (object ms) = member_of name ms
get name _ = none

unfoldable pub as_str : Json → Option String
as_str (text s) = some s
as_str _ = none

unfoldable pub as_u64 : Json → Option ℕ
as_u64 (number n) = n
as_u64 _ = none

-- `parse::<u64>()`: decimal digits, perhaps behind a plus sign, and no overflow.
abbrev pub codes : String → List ℕ
codes String.[] = []
codes (String.◌∷◌ c s) = code c ∷ codes s

abbrev is_digit : ℕ → Bool
is_digit c = leb 48 c && leb c 57

unfoldable pub digits : ℕ → List ℕ → Option ℕ
digits n [] = some n
digits n (c ∷ cs) =
    let next = n * 10 + (c - 48) in
    let rest = digits next cs in if is_digit c && leb next 18446744073709551615 then rest else none

unfoldable pub unsigned : List ℕ → Option ℕ
unfolding digits
unsigned [] = none
unsigned (c ∷ cs) = digits 0 (c ∷ cs)

unfoldable pub parse_u64 : String → Option ℕ
unfolding unsigned
parse_u64 s = elim (codes s) [
  | [] ↦ none
  | c ∷ cs ↦ if c == 43 then unsigned cs else unsigned (c ∷ cs)
]

unfoldable pub get_field_as_str : Json → String → Result String
unfolding get as_str
get_field_as_str info field_name = do
  value ← ok_or (get field_name info) serialization_error
  ok_or (as_str value) serialization_error

unfoldable pub get_field_as_u64 : Json → String → Result ℕ
unfolding get as_str as_u64 parse_u64
get_field_as_u64 info field_name = do
  value ← ok_or (get field_name info) serialization_error
  elim (as_u64 value) [
    | some num ↦ ok num
    | none ↦ elim (as_str value) [
      | some str_val ↦ ok_or (parse_u64 str_val) serialization_error
      | none ↦ err serialization_error
    ]
  ]

-- `Pubkey::from_str` is the argument `from_str`.
unfoldable pub get_field_as_pubkey : (String → Option Pubkey) → Json → String → Result Pubkey
unfolding get_field_as_str
get_field_as_pubkey from_str info field_name = do
  pubkey_str ← get_field_as_str info field_name
  ok_or (from_str pubkey_str) serialization_error
