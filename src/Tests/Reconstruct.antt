-- ===== src/Tests/Reconstruct.antt =====
-- Two inner instructions in the JSON form of a simulation: a System transfer that draws on a derived
-- account, and a change of authority in SPL Token. A key is written as that many strokes.
use solus_protocol.Base.{
  ℕ, zero, suc, String, false, Option, none, some, List, [], ◌∷◌, ◌≡◌, refl, ap, arith,
}
use solus_protocol.Error.{ok, serialization_error}
use solus_protocol.Instruction.{Pubkey, Bytes, CompiledInstruction, SystemInstruction}
use solus_protocol.External.{External}
use solus_protocol.Json.{
  Json, text, number, object, member, no_members, parse_u64, get_field_as_str, get_field_as_u64,
  get_field_as_pubkey,
}
use solus_protocol.Parse.{read_system, read_token}
use solus_protocol.Resolve.{uncompile_instruction}
use solus_protocol.Reconstruct.{Encoders, parsed, reconstruct_instruction_from_ui}
use solus_protocol.Reconstruct.RoundTrip.System
use solus_protocol.Reconstruct.RoundTrip.System.{SystemUi, reconstruct-read_system}
use solus_protocol.Reconstruct.RoundTrip.TokenForm.{TokenUi}
use solus_protocol.Reconstruct.RoundTrip.Token
use solus_protocol.Reconstruct.RoundTrip.Token.{reconstruct-read_token}
use solus_protocol.Reconstruct.RoundTrip.Lacking.{reconstruct-lacking}
use solus_protocol.Tests.World.{world, programs, kora, user}

abbrev strokes : ℕ → String
strokes zero = String.[]
strokes (suc n) = String.◌∷◌ "x" (strokes n)

abbrev count : String → ℕ
count String.[] = 0
count (String.◌∷◌ _ s) = suc (count s)

count-strokes : (n : ℕ) → count (strokes n) ≡ n
count-strokes zero = refl
count-strokes (suc n) = ap suc (count-strokes n)

-- The bytes of a transfer with a seed are its lamports alone, here and back.
abbrev seeded : Bytes → Option SystemInstruction
seeded (lamports ∷ []) = some (SystemInstruction.transfer_with_seed lamports "seed" 9)
seeded _ = none

abbrev chain : External ℕ ℕ
chain = record world {
  from_str = λ s. some (count s);
  to_string = strokes;
  programs = record programs {
    system_program = 6;
    spl_token = 7;
    spl_token_2022 = 8;
    deserialize_system = seeded;
    unpack_spl = λ b. none;
    spl-ne-2022 = omega arith;
  };
}

abbrev lamports_of : SystemInstruction → Option Bytes
lamports_of (SystemInstruction.transfer_with_seed lamports _ _) = some (lamports ∷ [])
lamports_of _ = none

abbrev encoders : Encoders
encoders = record {
  serialize_system = lamports_of;
  pack_spl = λ i. [];
  pack_2022 = λ i. [];
  decode_base58 = λ s. none;
}

abbrev keys : List Pubkey
keys = kora ∷ user ∷ 3 ∷ 4 ∷ 6 ∷ 7 ∷ []

abbrev transfer_info : Json
transfer_info = object (
    member "source" (text (strokes 3)) (
      member "destination" (text (strokes 4)) (
        member "lamports" (number (some 40)) (
          member "sourceBase" (text (strokes kora)) (
            member "sourceSeed" (text "seed")
              (member "sourceOwner" (text (strokes 9)) no_members))))))

abbrev form : String → Json → Json
form kind info = object (member "type" (text kind) (member "info" info no_members))

abbrev seeded_transfer : SystemUi
seeded_transfer = SystemUi.transfer_with_seed 3 4 40 kora "seed" 9

reconstruct-read_system_example :
    (ix : CompiledInstruction) × (reconstruct_instruction_from_ui chain encoders
        (parsed (strokes 6) (form "transferWithSeed" transfer_info))
        keys
      ≡ some ix)
    × (uncompile_instruction keys ix ≡ ok (System.plain chain encoders seeded_transfer (40 ∷ [])))
    × (read_system chain.programs (System.plain chain encoders seeded_transfer (40 ∷ []))
        ≡ System.filed seeded_transfer)
unfolding get_field_as_str get_field_as_pubkey get_field_as_u64
reconstruct-read_system_example =
    reconstruct-read_system chain encoders keys (form "transferWithSeed" transfer_info)
      transfer_info seeded_transfer (40 ∷ []) (omega arith) (refl, (refl, (refl, (refl, tt)))) refl
      refl (refl, refl, refl, refl, refl, refl) refl refl

abbrev authority_info : Json
authority_info =
    object
      (member "account" (text (strokes 3)) (member "authority" (text (strokes kora)) no_members))

abbrev authority_change : TokenUi
authority_change = TokenUi.set_authority 3 kora

-- The authority is the fee payer's, and the parser files nothing.
reconstruct-read_token_example :
    (ix : CompiledInstruction) × (reconstruct_instruction_from_ui chain encoders
        (parsed (strokes 7) (form "setAuthority" authority_info))
        keys
      ≡ some ix)
    × (uncompile_instruction keys ix ≡ ok (Token.plain chain encoders false authority_change))
    × (read_token chain.programs (Token.plain chain encoders false authority_change) ≡ ok none)
unfolding get_field_as_str get_field_as_pubkey
reconstruct-read_token_example =
    reconstruct-read_token chain encoders (λ k. ap some (count-strokes k)) keys
      (form "setAuthority" authority_info) authority_info false authority_change (omega arith)
      (refl, (refl, (refl, tt))) (omega arith) refl refl (refl, refl) refl

-- The authority of a mint is changed: the form has the member `mint` where an account's has `account`.
abbrev mint_info : Json
mint_info =
    object (member "mint" (text (strokes 3)) (member "authority" (text (strokes kora)) no_members))

reconstruct-lacking_example :
    reconstruct_instruction_from_ui chain encoders
      (parsed (strokes 7) (form "setAuthority" mint_info))
      keys
    ≡ none
unfolding get_field_as_str get_field_as_pubkey
reconstruct-lacking_example =
    reconstruct-lacking chain encoders (λ k. ap some (count-strokes k)) keys
      (form "setAuthority" mint_info) mint_info false authority_change "account" serialization_error
      (omega arith) refl refl refl refl

-- Numbers in texts: the largest u64, one more, a plus sign, and what is no number.
largest_u64 : parse_u64 "18446744073709551615" ≡ some 18446744073709551615
unfolding parse_u64
largest_u64 = refl

above_u64 : parse_u64 "18446744073709551616" ≡ none
unfolding parse_u64
above_u64 = refl

signed_u64 : (parse_u64 "+42" ≡ some 42) × (parse_u64 "+" ≡ none) × (parse_u64 "4x" ≡ none)
unfolding parse_u64
signed_u64 = (refl, refl, refl)
