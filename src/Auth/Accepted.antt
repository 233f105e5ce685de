-- ===== src/Auth/Accepted.antt =====
-- Which requests the HMAC authentication lets through (kora/crates/lib/src/rpc_server/auth.rs).
use solus_protocol.Base.{
  ℕ, Bool, true, false, not, ◌&&◌, ◌≡◌, ◌↔◌, ◌⊎◌, refl, sym, ap, ◌∙◌, Option, none, some, ◌++◌,
  String, string_eq, arith,
}
use mathlib.Core.Option.{some-injective}
use solus_protocol.Instruction.{Bytes}
use solus_protocol.Auth.{
  Request, Decoders, is_expired, text_or_empty, is_liveness, is_signed_by, is_in_time_and_signed,
  has_headers, hmac_accepts,
}

module _ (d : Decoders) (secret : Bytes) (max_timestamp_age now : ℕ) where
  -- The request is in time and carries a signature of its timestamp and body under the secret.
  abbrev pub IsAuthentic : Request → Type 0
  IsAuthentic r =
      (sig : Bytes) × (ts : Bytes) × (time : ℕ) × (signature : Bytes) × (r.signature_header
        ≡ some sig)
      × (r.timestamp_header ≡ some ts)
      × (d.parse_i64 (text_or_empty (d.to_str ts)) ≡ some time)
      × (is_expired now time max_timestamp_age ≡ false)
      × (d.is_utf8 r.body ≡ true)
      × (d.is_valid_secret secret ≡ true)
      × (d.hex_decode (text_or_empty (d.to_str sig)) ≡ some signature)
      × (d.verify_slice secret (text_or_empty (d.to_str ts) ++ r.body) signature ≡ true)

  liveness_iff : (m : Option String) → (is_liveness d m ≡ true) ↔ (m ≡ some "liveness")
  liveness_iff none = (λ h. cc, λ h. cc)
  liveness_iff (some m) = (
    λ h. ap some ((string_eq.equal_iff m "liveness").0 h),
    λ h. (string_eq.equal_iff m "liveness").1 (some-injective m "liveness" h),
  )

  signed_iff :
      (timestamp body : Bytes) (decoded : Option Bytes)
      → (is_signed_by d secret timestamp body decoded ≡ true) ↔ (
          (signature : Bytes) × (decoded ≡ some signature)
          × (d.verify_slice secret (timestamp ++ body) signature ≡ true))
  signed_iff timestamp body none = (λ h. cc, λ u. absurd (cc u.1))
  signed_iff timestamp body (some signature) =
      (λ h. (signature, refl, h), λ (other, e, v). rw (some-injective signature other e) v)

  in_time_iff :
      (signature timestamp body : Bytes) (parsed : Option ℕ)
      → (is_in_time_and_signed d secret max_timestamp_age now signature timestamp body parsed
          ≡ true)
        ↔ ((time : ℕ) × (parsed ≡ some time)
            × (is_expired now time max_timestamp_age ≡ false)
            × (d.is_utf8 body ≡ true)
            × (d.is_valid_secret secret ≡ true)
            × (is_signed_by d secret timestamp body (d.hex_decode signature) ≡ true))
  in_time_iff signature timestamp body none = (λ h. cc, λ u. absurd (cc u.1))
  in_time_iff signature timestamp body (some time) = (
    λ h. let (a, b, c, f) = all_four h in (time, refl, a, b, c, f),
    λ (other, e, a, b, c, f). rw (some-injective time other e, a, b, c, f),
  )
    where
      all_four :
          {a b c f : Bool}
          → (not a && (b && (c && f))) ≡ true
          → (a ≡ false) × (b ≡ true) × (c ≡ true) × (f ≡ true)
      all_four {a} {b} {c} {f} h = ground arith

  headers_iff :
      (r : Request)
      → (has_headers d secret max_timestamp_age now r.body r.signature_header r.timestamp_header
          ≡ true)
        ↔ IsAuthentic r
  headers_iff r = go r.signature_header r.timestamp_header refl refl
    where
      go :
          (s t : Option Bytes)
          → r.signature_header ≡ s
          → r.timestamp_header ≡ t
          → (has_headers d secret max_timestamp_age now r.body s t ≡ true) ↔ IsAuthentic r
      go none t e f = (λ h. cc, λ u. absurd (cc (sym e ∙ u.4)))
      go (some s) none e f = (λ h. cc, λ u. absurd (cc (sym f ∙ u.5)))
      go (some s) (some t) e f =
          let timestamp = text_or_empty (d.to_str t) in
          let time_iff =
            in_time_iff (text_or_empty (d.to_str s)) timestamp r.body (d.parse_i64 timestamp) in
          let sign_iff = signed_iff timestamp r.body (d.hex_decode (text_or_empty (d.to_str s))) in
          (
            (λ h.
                let (time, p, a, b, c, m) = time_iff.0 h in
                let (signature, q, v) = sign_iff.0 m in
                (s, t, time, signature, e, f, p, a, b, c, q, v)),
            (λ (s', t', time, signature, e', f', p, a, b, c, q, v).
                let same_s = some-injective s s' (sym e ∙ e') in
                let same_t = some-injective t t' (sym f ∙ f') in
                time_iff.1
                  (time, rw same_t p, a, b, c, sign_iff.1 (signature, rw same_s q, rw same_t v))),
          )

  -- The HMAC authentication lets a request through exactly if its method is `liveness`, or it has
  -- both headers, its timestamp is an i64 that has not expired, its body is UTF-8, the secret is
  -- valid, and its signature is hexadecimal and verifies for the timestamp followed by the body.
  pub hmac_accepts_iff :
      (r : Request)
      → (hmac_accepts d secret max_timestamp_age now r ≡ true)
        ↔ ((d.get_jsonrpc_method r.body ≡ some "liveness") ⊎ IsAuthentic r)
  unfolding hmac_accepts
  hmac_accepts_iff r = ground (arith, liveness_iff (d.get_jsonrpc_method r.body), headers_iff r)
