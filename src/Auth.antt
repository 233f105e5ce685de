-- ===== src/Auth.antt =====
-- The authentication of requests (kora/crates/lib/src/rpc_server/auth.rs). What the two services decide
-- is whether the inner service is called.
pub mod Window
pub mod Accepted
use solus_protocol.Base.{
  ℕ, Bool, true, false, not, ◌&&◌, ◌||◌, ◌+◌, ◌-◌, ◌%◌, String, string_eq, nat_eq, ◌==◌, Option,
  none, some, List, [], ◌∷◌, ◌++◌, ltb, if◌then◌else◌,
}
use solus_protocol.Instruction.{Bytes}

-- A request, as far as the services read it.
pub record Request : Type 0 where
  pub api_key_header : Option Bytes
  pub signature_header : Option Bytes
  pub timestamp_header : Option Bytes
  pub body : Bytes

-- The parsers and the code of messages that the services call: the method of a JSON-RPC body, header
-- values as text, decimal i64s (as words of 64 bits), UTF-8, hexadecimal, and HMAC-SHA256, which takes a
-- secret, a message and a signature.
pub record Decoders : Type 0 where
  pub get_jsonrpc_method : Bytes → Option String
  pub to_str : Bytes → Option Bytes
  pub parse_i64 : Bytes → Option ℕ
  pub is_utf8 : Bytes → Bool
  pub hex_decode : Bytes → Option Bytes
  pub is_valid_secret : Bytes → Bool
  pub verify_slice : Bytes → Bytes → Bytes → Bool

-- The order of i64s as words of 64 bits.
abbrev pub above_minimum : ℕ → ℕ
above_minimum w = (w + 9223372036854775808) % 18446744073709551616

-- `now - ts` and `abs`, which wrap in a release build.
abbrev pub wrapping_sub : ℕ → ℕ → ℕ
wrapping_sub a b = (a + (18446744073709551616 - b)) % 18446744073709551616

abbrev pub wrapping_abs : ℕ → ℕ
wrapping_abs w = if ltb w 9223372036854775808 then w else 18446744073709551616 - w

-- `(now - ts).abs() > max_timestamp_age`
unfoldable pub is_expired : ℕ → ℕ → ℕ → Bool
is_expired now ts max_timestamp_age =
    ltb (above_minimum max_timestamp_age) (above_minimum (wrapping_abs (wrapping_sub now ts)))

-- `ct_eq` on bytes
abbrev pub same_bytes : Bytes → Bytes → Bool
same_bytes [] [] = true
same_bytes [] (b ∷ bs) = false
same_bytes (a ∷ as') [] = false
same_bytes (a ∷ as') (b ∷ bs) = (a == b) && same_bytes as' bs

abbrev pub text_or_empty : Option Bytes → Bytes
text_or_empty none = []
text_or_empty (some text) = text

module _ (d : Decoders) where
  open d use {
    get_jsonrpc_method, to_str, parse_i64, is_utf8, hex_decode, is_valid_secret, verify_slice,
  }

  abbrev pub is_liveness : Option String → Bool
  is_liveness none = false
  is_liveness (some method) = method == "liveness"

  abbrev pub has_key : Bytes → Option Bytes → Bool
  has_key api_key none = false
  has_key api_key (some provided_key) = same_bytes provided_key api_key

  -- `ApiKeyAuthService::call`
  unfoldable pub api_key_accepts : Bytes → Request → Bool
  api_key_accepts api_key r =
      is_liveness (get_jsonrpc_method r.body) || has_key api_key r.api_key_header

  abbrev pub is_signed_by : Bytes → Bytes → Bytes → Option Bytes → Bool
  is_signed_by secret timestamp body none = false
  is_signed_by secret timestamp body (some signature) =
      verify_slice secret (timestamp ++ body) signature

  -- The checks after the timestamp is parsed.
  abbrev pub is_in_time_and_signed : Bytes → ℕ → ℕ → Bytes → Bytes → Bytes → Option ℕ → Bool
  is_in_time_and_signed secret max_timestamp_age now signature timestamp body none = false
  is_in_time_and_signed secret max_timestamp_age now signature timestamp body (some ts) =
      not (is_expired now ts max_timestamp_age)
      && (is_utf8 body
          && (is_valid_secret secret && is_signed_by secret timestamp body (hex_decode signature)))

  abbrev pub has_headers : Bytes → ℕ → ℕ → Bytes → Option Bytes → Option Bytes → Bool
  has_headers secret max_timestamp_age now body (some sig) (some ts) =
      let signature = text_or_empty (to_str sig) in
      let timestamp = text_or_empty (to_str ts) in
      is_in_time_and_signed secret max_timestamp_age now signature timestamp body
        (parse_i64 timestamp)
  has_headers secret max_timestamp_age now body _ _ = false

  -- `HmacAuthService::call`
  unfoldable pub hmac_accepts : Bytes → ℕ → ℕ → Request → Bool
  hmac_accepts secret max_timestamp_age now r =
      is_liveness (get_jsonrpc_method r.body)
      || has_headers secret max_timestamp_age now r.body r.signature_header r.timestamp_header
