-- ===== src/Parse/Loop.antt =====
-- The loops of `parse_system_instructions` and `parse_token_instructions`
-- (kora/crates/lib/src/transaction/instruction_util.rs) over all instructions of a transaction.
use solus_protocol.Base.{Option, none, some, List, [], ◌∷◌, ◌==◌, if◌then◌else◌, nat_eq}
use solus_protocol.Base.Table.{Table, push}
use solus_protocol.Error.{Result, ok, ◌>>=◌}
use solus_protocol.Instruction.{Instruction, Programs}
use solus_protocol.Parse.Types.{
  ParsedSystemType, ParsedSystemData, ParsedSplType, ParsedSplData, system_type_eq, spl_type_eq,
}
use solus_protocol.Parse.System.{SystemEntry, system_entry}
use solus_protocol.Parse.Token.{SplEntry, spl_token_entry, token_2022_entry}

abbrev pub SystemTable : Type 0
SystemTable = Table ParsedSystemType ParsedSystemData

abbrev pub SplTable : Type 0
SplTable = Table ParsedSplType ParsedSplData

-- `parsed_instructions.entry(kind).or_default().push(value)`
abbrev pub file_system : Option SystemEntry → SystemTable → SystemTable
file_system none t = t
file_system (some (kind, value)) t = push kind value t

abbrev pub file_token : Option SplEntry → SplTable → SplTable
file_token none t = t
file_token (some (kind, value)) t = push kind value t

module _ (p : Programs) where
  -- What one round of the loop files: nothing for another program, and nothing for bytes that do not
  -- decode.
  unfoldable pub read_system : Instruction → Result (Option SystemEntry)
  read_system ix =
      if ix.program_id == p.system_program
      then elim (p.deserialize_system ix.payload) [ none ↦ ok none | some i ↦ system_entry ix i ]
      else ok none

  unfoldable pub read_token : Instruction → Result (Option SplEntry)
  read_token ix =
      if ix.program_id == p.spl_token
      then elim (p.unpack_spl ix.payload) [ none ↦ ok none | some i ↦ spl_token_entry ix i ]
      else if ix.program_id == p.spl_token_2022
      then elim (p.unpack_2022 ix.payload) [ none ↦ ok none | some i ↦ token_2022_entry ix i ]
      else ok none

  unfoldable pub parse_system_from : List Instruction → SystemTable → Result SystemTable
  parse_system_from [] t = ok t
  parse_system_from (ix ∷ ixs) t = do e ← read_system ix; parse_system_from ixs (file_system e t)

  unfoldable pub parse_token_from : List Instruction → SplTable → Result SplTable
  parse_token_from [] t = ok t
  parse_token_from (ix ∷ ixs) t = do e ← read_token ix; parse_token_from ixs (file_token e t)

  unfoldable pub parse_system_instructions : List Instruction → Result SystemTable
  unfolding parse_system_from
  parse_system_instructions ixs = parse_system_from ixs []

  unfoldable pub parse_token_instructions : List Instruction → Result SplTable
  unfolding parse_token_from
  parse_token_instructions ixs = parse_token_from ixs []
