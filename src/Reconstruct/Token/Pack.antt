-- ===== src/Reconstruct/Token/Pack.antt =====
-- The bytes of a rebuilt token instruction: the encoders of the two interface crates, picked by the
-- text of the program's id, and what is read of an amount.
use solus_protocol.Base.{ℕ, ◌%◌, String, ◌==◌, string_eq, if◌then◌else◌}
use solus_protocol.Error.{Result, ok, err}
use solus_protocol.Instruction.{Bytes, TokenInstruction}
use solus_protocol.External.{External}
use solus_protocol.Reconstruct.Keys.{Encoders}

module _ {F D : Type 0} (x : External F D) (e : Encoders) where
  unfoldable pub pack : String → TokenInstruction → Bytes
  pack program_id i =
      if program_id == x.to_string x.programs.spl_token then e.pack_spl i else e.pack_2022 i

-- `as u8`
abbrev pub as_u8 : Result ℕ → Result ℕ
as_u8 (ok n) = ok (n % 256)
as_u8 (err error) = err error

-- `unwrap_or(0)`
abbrev pub or_zero : Result ℕ → Result ℕ
or_zero (ok n) = ok n
or_zero (err _) = ok 0
