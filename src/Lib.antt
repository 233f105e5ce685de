-- ===== src/Lib.antt =====
-- Verification of Kora, the paymaster of the Solus protocol (kora/crates/lib). Kora signs Solana
-- transactions as their fee payer for users who pay it in tokens. A request's transaction is
-- resolved to plain instructions, its instructions are parsed, a validator checks what it does with
-- the fee payer's lamports and authority, the fee is estimated, the payment inside the transaction
-- is verified, and the signature is put in its place. The theorems show what a signed transaction
-- is guaranteed to satisfy, part by part and for the whole run.
--
-- - Base, Error: shared helpers (Boolean tests, lists, u64 arithmetic, tables for hash maps), and
--   the errors and results of kora/crates/lib/src/error.rs. A panic of the source is the error
--   `panicked`.
-- - Instruction, Transaction, External, Config: the data. Keys are numbers, since they are only
--   compared. External holds what the core calls and does not implement: the chain behind the RPC
--   client and its cache, the decoders of the interface crates, the price feed, and `rust_decimal`
--   over an abstract type.
-- - Parse: `parse_system_instructions` and `parse_token_instructions` of
--   kora/crates/lib/src/transaction/instruction_util.rs, arm by arm; Parse/Described says
--   independently what an instruction of each program means, Parse/Arms that the arms agree with
--   it, and Parse/Safety, Parse/Content and Parse/Twins are the parsers as a whole.
-- - Validator: `TransactionValidator` of kora/crates/lib/src/validator/transaction_validator.rs and
--   its macros. Validator/Policy states, over decoded instructions, what the fee payer's authority
--   may be used for, and Validator/Policy/Refinement that the code decides it. Validator/Soundness
--   is the whole check.
-- - Oracle, Token: `RetryingPriceOracle` of kora/crates/lib/src/oracle/oracle.rs, the feed of
--   kora/crates/lib/src/oracle/jupiter.rs, and token values, transfer fees, extension checks and
--   payments of kora/crates/lib/src/token/token.rs and kora/crates/lib/src/token/spl_token_2022.rs.
-- - Fee: kora/crates/lib/src/fee/fee.rs and kora/crates/lib/src/fee/price.rs.
-- - Signing: `sign_transaction` and `sign_and_send_transaction` of
--   kora/crates/lib/src/transaction/versioned_transaction.rs.
-- - Resolve: lookup tables, the expansion of compiled instructions and the caches of parsed
--   instructions (kora/crates/lib/src/transaction/versioned_transaction.rs and
--   kora/crates/lib/src/transaction/instruction_util.rs). Cache: the choice between a cached and a
--   fresh account of kora/crates/lib/src/cache.rs, over a store that may fail.
-- - Json, Reconstruct: JSON values, and the reconstruction of the inner instructions that a
--   simulation reports (kora/crates/lib/src/transaction/instruction_util.rs); Reconstruct/RoundTrip
--   describes the JSON forms and takes them to the parsers, and Reconstruct/RoundTrip/Lacking is
--   about forms that are dropped. Resolve/Inner is the resolution of a whole transaction.
-- - Methods: the JSON-RPC methods of kora/crates/lib/src/rpc_server/method that take or build a
--   transaction, with the choice of the signer in kora/crates/lib/src/state.rs and the decoding in
--   kora/crates/lib/src/transaction/transaction.rs.
-- - Auth: the decisions of kora/crates/lib/src/rpc_server/auth.rs. AccountType: the checks of
--   kora/crates/lib/src/validator/account_validator.rs.
-- - Usage: the usage limit of kora/crates/lib/src/usage_limit, one check after the other and, in
--   Usage/Race, interleaved. Pool: the signer pool of kora/crates/lib/src/signer/pool.rs.
-- - Setup: the checks before a deployment. Setup/Checks and Setup/Validator are `ConfigValidator`
--   of kora/crates/lib/src/validator/config_validator.rs, with its reports as data (Setup/Report)
--   and Setup/Validator/Conditions as what it asks; Setup/Cache and Setup/Signers are the
--   validators beside it and the checks of kora/crates/lib/src/signer/config.rs, Setup/Extensions
--   the names of kora/crates/lib/src/token/spl_token_2022_util.rs, and Setup/Atas the search of
--   kora/crates/lib/src/admin/token_util.rs.
-- - Tests: a small chain, runs of the model on it, and the theorems at concrete requests.
--
-- Numbers are natural numbers; where the source has a u64, the checks of `checked_add` and the
-- stops of `saturating_sub` are written out, and where it has a cast or a wrapping operation, the
-- modulus is. All loops are structural recursions over lists, and the retries recurse on the number
-- that is left, so no fuel is needed. A walk over a hash map whose order could matter takes the
-- order as the parameter `iteration`, and signing, which walks two such maps, takes two orders.
-- During one request the chain answers the same question alike, since it is a function.
--
-- Not modelled: the HTTP server, metrics and the command line, the reading of configuration files,
-- the connections to Redis, and the TypeScript programs of the repository.
pub mod Base
pub mod Error
pub mod Instruction
pub mod Json
pub mod Reconstruct
pub mod Parse
pub mod Config
pub mod Validator
pub mod Setup
pub mod External
pub mod Oracle
pub mod Token
pub mod Transaction
pub mod Fee
pub mod Resolve
pub mod Cache
pub mod Auth
pub mod AccountType
pub mod Signing
pub mod Usage
pub mod Pool
pub mod Methods
pub mod Tests
