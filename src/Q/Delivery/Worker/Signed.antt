-- ===== src/Q/Delivery/Worker/Signed.antt =====
-- The signature that `send` of q/src/delivery/worker.rs adds, checked by q/src/security/auth.rs.
use benchmark_rust_llms.Prelude.{
  ℕ, ◌<◌, String, ◌<>◌, none, some, List, [], ◌∷◌, true, ◌≡◌, refl, All, str_eq, if◌then◌else◌,
  as_bytes, hex_text, strip_prefix,
}
use benchmark_rust_llms.Q.Model.{Delivery}
use benchmark_rust_llms.Q.Config.{Config}
use benchmark_rust_llms.Q.Security.Ssrf.{SsrfPolicy}
use benchmark_rust_llms.Q.Security.Auth.{HeaderMap, text, authorized, check_hmac, provided_matches}
use benchmark_rust_llms.Q.Security.Auth.Hex.{hex_decode-hex_text}
use benchmark_rust_llms.Q.Security.Auth.Permits.{strip_prefix-append, constant_time_eq_iff}
use benchmark_rust_llms.Q.Delivery.Worker.{Outside, request, signature_header}

-- The headers of a request as its receiver looks them up.
unfoldable pub received : List (String × String) → HeaderMap
received [] name = none
received ((n, v) ∷ headers) name = if str_eq n name then some (text v) else received headers name

module _ (out : Outside) (cfg : Config) (ssrf : SsrfPolicy) where
  open out use {hmac_sha256}

  signed-accepted :
      (mac : List ℕ)
      → All (λ b. b < 256) mac
      → provided_matches hmac_sha256 mac (strip_prefix "sha256=" ("sha256=" <> hex_text mac)) ≡ true
  unfolding provided_matches
  signed-accepted mac small =
      rw (strip_prefix-append "sha256=" (hex_text mac), hex_decode-hex_text mac small)
        ((constant_time_eq_iff mac mac).1 refl)

  -- A delivery that is sent with a secret passes `authorized` of a receiver that has the same secret,
  -- whatever its keys, if the HMAC consists of bytes.
  pub request-authorized :
      (sent_at attempt : ℕ) (d : Delivery) (secret : String) (keys : List String)
      → cfg.hmac_secret ≡ some secret
      → All (λ b. b < 256) (out.hmac_sha256 (as_bytes secret) d.payload)
      → authorized out.hmac_sha256
          (received (request out cfg ssrf sent_at d attempt).headers)
          (request out cfg ssrf sent_at d attempt).body
          (some secret)
          keys
        ≡ true
  unfolding authorized check_hmac request signature_header received
  request-authorized sent_at attempt d secret keys h small =
      rw h (signed-accepted (hmac_sha256 (as_bytes secret) d.payload) small)
