-- ===== src/Q/Security/Auth.antt =====
-- q/src/security/auth.rs: who may use the endpoints.
-- `HeaderMap::get` is a function of the header's name; a value that `to_str` rejects is `opaque`.
-- HMAC-SHA256 is a parameter, on the bytes of the secret and of the message.
pub mod Hex
pub mod Permits
use benchmark_rust_llms.Prelude.{
  ℕ, zero, suc, ◌+◌, ◌-◌, ◌*◌, ◌%◌, String, Option, none, some, List, [], ◌∷◌, Bool, true, false,
  ◌&&◌, leb, ◌==◌, if◌then◌else◌, any, as_bytes, strip_prefix, length,
}

pub data HeaderValue : Type 0 where
  text : String → HeaderValue
  opaque : HeaderValue

abbrev pub HeaderMap : Type 0
HeaderMap = String → Option HeaderValue

-- `ct_eq` on slices: of different lengths they differ.
unfoldable pub constant_time_eq : List ℕ → List ℕ → Bool
constant_time_eq [] [] = true
constant_time_eq [] (b ∷ bs) = false
constant_time_eq (a ∷ as') [] = false
constant_time_eq (a ∷ as') (b ∷ bs) = (a == b) && constant_time_eq as' bs

-- `headers.get(name)?.to_str().ok()?`
abbrev pub header_text : Option HeaderValue → Option String
header_text (some (text s)) = some s
header_text (some opaque) = none
header_text none = none

abbrev pub or_else : Option String → Option String → Option String
or_else (some s) o = some s
or_else none o = o

abbrev pub bearer_of : Option String → Option String
bearer_of none = none
bearer_of (some value) = or_else (strip_prefix "Bearer " value) (strip_prefix "bearer " value)

unfoldable pub bearer_token : HeaderMap → Option String
bearer_token headers = bearer_of (header_text (headers "Authorization"))

unfoldable pub token_matches : List String → Option String → Bool
unfolding constant_time_eq as_bytes
token_matches keys none = false
token_matches keys (some token) = any (λ k. constant_time_eq (as_bytes token) (as_bytes k)) keys

unfoldable pub check_bearer : HeaderMap → List String → Bool
unfolding token_matches bearer_token
check_bearer headers keys = token_matches keys (bearer_token headers)

unfoldable pub hex_nib : ℕ → Option ℕ
hex_nib c =
    if leb b'0' c && leb c b'9'
    then some (c - b'0')
    else if leb b'a' c && leb c b'f'
    then some (c - b'a' + 10)
    else if leb b'A' c && leb c b'F'
    then some (c - b'A' + 10)
    else none

-- `a << 4 | b`, for two nibbles.
unfoldable pub push_pair : Option ℕ → Option ℕ → Option (List ℕ) → Option (List ℕ)
push_pair (some a) (some b) (some out) = some ((a * 16 + b) ∷ out)
push_pair (some a) (some b) none = none
push_pair (some a) none out = none
push_pair none b out = none

-- The loop over `chunks(2)`, on an even number of bytes.
unfoldable pub hex_pairs : List ℕ → Option (List ℕ)
unfolding hex_nib push_pair
hex_pairs [] = some []
hex_pairs (a ∷ []) = none
hex_pairs (a ∷ b ∷ bs) = push_pair (hex_nib a) (hex_nib b) (hex_pairs bs)

unfoldable pub hex_decode : String → Option (List ℕ)
unfolding hex_pairs as_bytes
hex_decode s = if length (as_bytes s) % 2 == 0 then hex_pairs (as_bytes s) else none

abbrev pub or_default : Option (List ℕ) → List ℕ
or_default none = []
or_default (some bs) = bs

unfoldable pub admin_authorized : HeaderMap → String → Bool
unfolding token_matches bearer_token
admin_authorized headers admin_key = token_matches (admin_key ∷ []) (bearer_token headers)

module _ (hmac_sha256 : List ℕ → List ℕ → List ℕ) where
  unfoldable pub provided_matches : List ℕ → Option String → Bool
  unfolding constant_time_eq hex_decode
  provided_matches expected none = false
  provided_matches expected (some hex) = constant_time_eq (or_default (hex_decode hex)) expected

  abbrev pub provided : Option String → Option String
  provided none = none
  provided (some header) = strip_prefix "sha256=" header

  unfoldable pub check_hmac : HeaderMap → List ℕ → String → Bool
  unfolding provided_matches as_bytes
  check_hmac headers raw_body secret =
      provided_matches (hmac_sha256 (as_bytes secret) raw_body)
        (provided (header_text (headers "X-Webhook-Signature")))

  abbrev pub has_signature : Option HeaderValue → Bool
  has_signature none = false
  has_signature (some v) = true

  unfoldable pub authorized : HeaderMap → List ℕ → Option String → List String → Bool
  unfolding check_hmac check_bearer
  authorized headers raw_body none api_keys = check_bearer headers api_keys
  authorized headers raw_body (some secret) api_keys =
      if has_signature (headers "X-Webhook-Signature")
      then check_hmac headers raw_body secret
      else check_bearer headers api_keys
