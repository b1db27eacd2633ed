-- ===== src/Q/Security/Auth/Permits.antt =====
-- What q/src/security/auth.rs lets pass.
use Prim.Native.String.append
use benchmark_rust_llms.Prelude.{
  false, Option-cases, Bool-cases, ◌∙◌, ap, length, inl, inr, ℕ, String, ◌<>◌, Option, none, some,
  List, [], ◌∷◌, true, false, ◌==◌, ==_iff, ◌≡◌, ◌≢◌, refl, ap, ◌∙◌, ◌↔◌, ◌⊎◌, inl, inr, arith,
  Some, any, Bool-cases, Option-cases, as_bytes, strip_prefix, length, code,
}
use benchmark_rust_llms.Q.Security.Auth.{
  token_matches, check_bearer, provided_matches, check_hmac, authorized, has_signature, HeaderMap,
  constant_time_eq, bearer_token, token_matches, check_bearer, hex_decode, provided_matches,
  provided, check_hmac, has_signature, authorized, header_text,
}

pub constant_time_eq_iff : (xs ys : List ℕ) → (constant_time_eq xs ys ≡ true) ↔ (xs ≡ ys)
unfolding constant_time_eq
constant_time_eq_iff [] [] = (λ h. refl, λ h. refl)
constant_time_eq_iff [] (y ∷ ys) = (λ h. cc, λ h. cc)
constant_time_eq_iff (x ∷ xs) [] = (λ h. cc, λ h. cc)
constant_time_eq_iff (x ∷ xs) (y ∷ ys) =
    let (to, from) = constant_time_eq_iff xs ys in
    (
      λ h. elim (Bool-cases (x == y)) [
        | inl e ↦ let heads : x ≡ y = (==_iff x y).0 e in let tails : xs ≡ ys = to (rw e at h) in cc
        | inr e ↦ absurd (ground arith)
      ],
      λ h.
          let heads : x ≡ y = cc in
          let tails : xs ≡ ys = cc in rw ((==_iff x y).1 heads, from tails) refl,
    )

any-Some :
    (token : String) (keys : List String)
    → (any (λ k. constant_time_eq (as_bytes token) (as_bytes k)) keys ≡ true)
      ↔ Some (λ k. as_bytes token ≡ as_bytes k) keys
any-Some token [] = (λ h. cc, λ h. absurd h)
any-Some token (k ∷ keys) =
    let (to, from) = any-Some token keys in
    let (here, back) = constant_time_eq_iff (as_bytes token) (as_bytes k) in
    (
      λ h. elim (Bool-cases (constant_time_eq (as_bytes token) (as_bytes k))) [
        | inl e ↦ inl (here e)
        | inr e ↦ inr (to (rw e at h))
      ],
      λ h. elim h [ inl e ↦ rw (back e) refl | inr e ↦ ground (arith, from e) ],
    )

pub strip_prefix-append : (p s : String) → strip_prefix p (p <> s) ≡ some s
unfolding strip_prefix
strip_prefix-append String.[] s = rw (append.nil s) refl
strip_prefix-append (String.◌∷◌ c p) s =
    rw (append.cons c p s, (==_iff (code c) (code c)).1 refl) (strip_prefix-append p s)

-- The request carries one of the keys, byte for byte, as its bearer token.
abbrev pub HasKey : HeaderMap → List String → Type 0
HasKey headers keys =
    (token : String) × (bearer_token headers ≡ some token)
    × Some (λ k. as_bytes token ≡ as_bytes k) keys

module _ (hmac_sha256 : List ℕ → List ℕ → List ℕ) where
  -- The signature header holds, in hex, the HMAC of the body under the secret.
  abbrev pub IsSigned : HeaderMap → List ℕ → String → Type 0
  IsSigned headers body secret =
      (hex : String) × (provided hmac_sha256 (header_text (headers "X-Webhook-Signature"))
        ≡ some hex)
      × (hex_decode hex ≡ some (hmac_sha256 (as_bytes secret) body))

  -- With a secret and a signature header only the signature counts, otherwise the bearer token does.
  abbrev pub IsPermitted : HeaderMap → List ℕ → Option String → List String → Type 0
  IsPermitted headers body none keys = HasKey headers keys
  IsPermitted headers body (some secret) keys =
      ((headers "X-Webhook-Signature" ≡ none) × HasKey headers keys)
      ⊎ ((headers "X-Webhook-Signature" ≢ none) × IsSigned headers body secret)

token_matches_iff :
    (keys : List String) (o : Option String)
    → (token_matches keys o ≡ true)
      ↔ ((token : String) × (o ≡ some token) × Some (λ k. as_bytes token ≡ as_bytes k) keys)
unfolding token_matches
token_matches_iff keys none = (λ h. cc, λ (t, e, k). cc)
token_matches_iff keys (some token) = (
  λ h. (token, refl, (any-Some token keys).0 h),
  λ (t, e, k). let same : token ≡ t = cc in (any-Some token keys).1 (rw same k),
)

check_bearer_iff :
    (headers : HeaderMap) (keys : List String)
    → (check_bearer headers keys ≡ true) ↔ HasKey headers keys
unfolding check_bearer
check_bearer_iff headers keys = token_matches_iff keys (bearer_token headers)

module _ (hmac_sha256 : List ℕ → List ℕ → List ℕ)
    (long : (key message : List ℕ) → length (hmac_sha256 key message) ≡ 32) where
  provided_matches_iff :
      (key message : List ℕ) (o : Option String)
      → (provided_matches hmac_sha256 (hmac_sha256 key message) o ≡ true)
        ↔ ((hex : String) × (o ≡ some hex) × (hex_decode hex ≡ some (hmac_sha256 key message)))
  unfolding provided_matches
  provided_matches_iff key message none = (λ h. cc, λ (t, e, k). cc)
  provided_matches_iff key message (some hex) = (
    λ h. elim (Option-cases (hex_decode hex)) [
      | inl e ↦
          let empty : [] ≡ hmac_sha256 key message = (constant_time_eq_iff [] _).0 (rw e at h) in
          let bad : 0 ≡ 32 = ap length empty ∙ long key message in absurd (omega (arith, bad))
      | inr (bs, e) ↦ (hex, refl, e ∙ ap some ((constant_time_eq_iff bs _).0 (rw e at h)))
    ],
    λ (t, e, k).
        let same : hex ≡ t = cc in
        rw (same, k)
          ((constant_time_eq_iff (hmac_sha256 key message) (hmac_sha256 key message)).1 refl),
  )

  -- `authorized` lets a request pass exactly when it is permitted: a signature header is binding where
  -- a secret is set, and else one of the keys must be the bearer token, so without keys none is.
  pub authorized_iff :
      (headers : HeaderMap) (body : List ℕ) (secret : Option String) (keys : List String)
      → (authorized hmac_sha256 headers body secret keys ≡ true)
        ↔ IsPermitted hmac_sha256 headers body secret keys
  unfolding authorized check_hmac
  authorized_iff headers body none keys = check_bearer_iff headers keys
  authorized_iff headers body (some secret) keys =
      elim (Option-cases (headers "X-Webhook-Signature")) [
        | inl absent ↦
            let (to, from) = check_bearer_iff headers keys in
            let unsigned : has_signature hmac_sha256 (headers "X-Webhook-Signature") ≡ false =
              rw absent refl in
            (
              λ h. inl (absent, to (rw unsigned at h)),
              λ h. rw unsigned (elim h [ inl (_, k) ↦ from k | inr (n, _) ↦ absurd (n absent) ]),
            )
        | inr (v, present) ↦
            let (to, from) =
              provided_matches_iff (as_bytes secret) body
                (provided hmac_sha256 (header_text (headers "X-Webhook-Signature"))) in
            let signed : has_signature hmac_sha256 (headers "X-Webhook-Signature") ≡ true =
              rw present refl in
            (
              λ h. inr (λ gone. cc, to (rw signed at h)),
              λ h. rw signed (elim h [ inl (n, _) ↦ absurd (cc) | inr (_, k) ↦ from k ]),
            )
      ]
