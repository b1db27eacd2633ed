-- ===== src/G/Token.antt =====
-- The check of the API token in g/src/routes.rs.
use Prim.Native.Nat.{bit_or, bit_xor}
use benchmark_rust_llms.Prelude.{
  ℕ, String, as_bytes, length, Option, none, some, List, [], ◌∷◌, Bool, true, false, not, ◌==◌,
  if◌then◌else◌,
}

-- The loop over the pairs of bytes.
unfoldable pub byte_diff : ℕ → List ℕ → List ℕ → ℕ
byte_diff diff [] bs = diff
byte_diff diff (a ∷ as') [] = diff
byte_diff diff (a ∷ as') (b ∷ bs) = byte_diff (bit_or diff (bit_xor a b)) as' bs

unfoldable pub constant_time_eq : List ℕ → List ℕ → Bool
unfolding byte_diff
constant_time_eq a b = if not (length a == length b) then false else byte_diff 0 a b == 0

abbrev pub token_matches : String → Option String → Bool
token_matches expected none = false
token_matches expected (some p) = constant_time_eq (as_bytes p) (as_bytes expected)

-- Whether a request with that header goes on to its handler; if not, the answer is 401. A header that
-- is no text counts as absent.
unfoldable pub require_token : Option String → Option String → Bool
unfolding constant_time_eq
require_token none provided = true
require_token (some expected) provided = token_matches expected provided
