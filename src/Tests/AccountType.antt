-- ===== src/Tests/AccountType.antt =====
-- The mint of the small chain, checked as a mint.
use solus_protocol.Base.{true, false, [], ◌∷◌, ◌≡◌, ◌↔◌, refl}
use solus_protocol.Error.{ok, err, internal_server_error}
use solus_protocol.External.{Account}
use solus_protocol.AccountType.{mint, program, Layouts, validate_account_type}
use solus_protocol.AccountType.Accepted.{HasType, validate_account_type_iff}
use solus_protocol.Tests.World.{programs}

abbrev pub layouts : Layouts
layouts = record {
  mint_len = 1;
  account_len = 2;
  unpacks_mint = λ is_2022 bytes. true;
  unpacks_account = λ is_2022 bytes. true;
}

abbrev dollar : Account
dollar = record { owner = 101; payload = 9 ∷ []; executable = false }

validate_account_type_iff_example :
    (validate_account_type programs layouts mint dollar ≡ ok tt)
    ↔ HasType programs layouts mint dollar
validate_account_type_iff_example = validate_account_type_iff programs layouts mint dollar

dollar-mint : validate_account_type programs layouts mint dollar ≡ ok tt
unfolding validate_account_type
dollar-mint = refl

dollar-program : validate_account_type programs layouts program dollar ≡ err internal_server_error
unfolding validate_account_type
dollar-program = refl
