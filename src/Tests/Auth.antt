-- ===== src/Tests/Auth.antt =====
-- A signed request, and the window of time.
use solus_protocol.Base.{
  ℕ, true, false, ◌+◌, ◌≤◌, ◌≡◌, ◌↔◌, ◌⊎◌, refl, Option, none, some, [], ◌∷◌, ◌++◌, arith,
}
use solus_protocol.Instruction.{Bytes}
use solus_protocol.Auth.{Request, Decoders, is_expired, same_bytes, hmac_accepts}
use solus_protocol.Auth.Window.{is_expired_iff, is_expired-wrapped}
use solus_protocol.Auth.Accepted.{IsAuthentic, hmac_accepts_iff}

-- A timestamp is one number, and the code of a message is the secret with the message.
abbrev first_number : Bytes → Option ℕ
first_number [] = none
first_number (n ∷ ns) = some n

abbrev decoders : Decoders
decoders = record {
  get_jsonrpc_method = λ body. some "signTransaction";
  to_str = λ h. some h;
  parse_i64 = first_number;
  is_utf8 = λ body. true;
  hex_decode = λ text. some text;
  is_valid_secret = λ secret. true;
  verify_slice = λ secret message signature. same_bytes (secret ++ message) signature;
}

abbrev signed_request : Request
signed_request = record {
  api_key_header = none;
  signature_header = some (5 ∷ 900 ∷ 1 ∷ []);
  timestamp_header = some (900 ∷ []);
  body = 1 ∷ [];
}

hmac_accepts_iff_example : (hmac_accepts decoders (5 ∷ []) 300 1000 signed_request ≡ true) ↔ (
    (decoders.get_jsonrpc_method signed_request.body ≡ some "liveness")
    ⊎ IsAuthentic decoders (5 ∷ []) 300 1000 signed_request)
hmac_accepts_iff_example = hmac_accepts_iff decoders (5 ∷ []) 300 1000 signed_request

request-accepted : hmac_accepts decoders (5 ∷ []) 300 1000 signed_request ≡ true
unfolding hmac_accepts is_expired
request-accepted = refl

is_expired_iff_example :
    (is_expired 1000 900 300 ≡ false) ↔ ((1000 ≤ 900 + 300) × (900 ≤ 1000 + 300))
is_expired_iff_example = is_expired_iff 1000 900 300 (omega arith) (omega arith) (omega arith)

is_expired-wrapped_example : is_expired 1000 (1000 + 9223372036854775808) 300 ≡ false
is_expired-wrapped_example = is_expired-wrapped 1000 300 (omega arith) (omega arith)
