-- ===== src/Tests/Parse.antt =====
-- The instructions of the request before the parsers.
use solus_protocol.Base.{false, Option, some, List, [], ◌∷◌, ◌≡◌, ◌≢◌, refl}
use solus_protocol.Base.Table.{get_or_empty, select}
use solus_protocol.Error.{ok, err, panicked}
use solus_protocol.Parse.{
  ParsedSystemType, ParsedSystemData, ParsedSplType, ParsedSplData, SystemTable, SplTable,
  SystemEntry, SplEntry, system_type_eq, spl_type_eq, read_system, read_token, spl_token_entry,
  token_2022_entry, parse_system_instructions, parse_token_instructions, system_transfer,
  spl_transfer,
}
use solus_protocol.Parse.Safety.{parse-ne-panicked}
use solus_protocol.Parse.Content.{said, parse-Says}
use solus_protocol.Parse.Described.{SaysSystem, SaysToken}
use solus_protocol.Error.Traverse.{AllPairs}
use solus_protocol.Tests.World.{programs, kora, user, instructions}

parse-ne-panicked_example :
    (parse_system_instructions programs instructions ≢ err panicked)
    × (parse_token_instructions programs instructions ≢ err panicked)
parse-ne-panicked_example = parse-ne-panicked programs instructions

abbrev system_table : SystemTable
system_table = (system_transfer, ParsedSystemData.transfer_data 40 kora user ∷ []) ∷ []

abbrev token_table : SplTable
token_table =
    (
      spl_transfer,
      ParsedSplData.transfer_data (record {
        amount = 6000;
        owner = user;
        mint = some 10;
        source_address = 20;
        destination_address = 21;
        is_2022 = false;
      })
          ∷ [],
    )
    ∷ []

system_parsed : parse_system_instructions programs instructions ≡ ok system_table
unfolding parse_system_instructions parse_token_instructions read_system read_token
    solus_protocol.Parse.account_at solus_protocol.Parse.system_entry spl_token_entry
system_parsed = refl

tokens_parsed : parse_token_instructions programs instructions ≡ ok token_table
unfolding parse_token_instructions read_token solus_protocol.Parse.account_at spl_token_entry
tokens_parsed = refl

parse-Says_example :
    ((es : List (Option SystemEntry)) × AllPairs (SaysSystem programs) instructions es
      × ((kind : ParsedSystemType) → get_or_empty kind system_table ≡ select kind (said es)))
    × ((es : List (Option SplEntry)) × AllPairs (SaysToken programs) instructions es
        × ((kind : ParsedSplType) → get_or_empty kind token_table ≡ select kind (said es)))
parse-Says_example = parse-Says programs instructions system_parsed tokens_parsed
