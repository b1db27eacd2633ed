-- ===== src/Q/Security/Auth/Hex.antt =====
-- `hex_decode` of q/src/security/auth.rs against the printing of bytes in q/src/delivery/worker.rs.
use Prim.Native.String.append
use benchmark_rust_llms.Prelude.{
  ℕ, code, true, ==_iff, zero, suc, ◌+◌, ◌*◌, ◌/◌, ◌%◌, ◌<◌, String, some, List, [], ◌∷◌, ◌++◌, ◌≡◌,
  refl, sym, ap, ◌∙◌, arith, All, length, ◌<>◌, as_bytes, utf8, hex_digit, hex_text, ◌==◌,
}
use benchmark_rust_llms.Q.Security.Auth.{hex_nib, hex_pairs, hex_decode, push_pair}

-- A digit prints as one byte, which reads back.
hex_digit-hex_nib :
    (n : ℕ) → n < 16 → (c : ℕ) × (as_bytes (hex_digit n) ≡ c ∷ []) × (hex_nib c ≡ some n)
unfolding hex_digit as_bytes hex_nib
hex_digit-hex_nib zero h = (b'0', refl, refl)
hex_digit-hex_nib (suc zero) h = (b'1', refl, refl)
hex_digit-hex_nib (suc (suc zero)) h = (b'2', refl, refl)
hex_digit-hex_nib (suc (suc (suc zero))) h = (b'3', refl, refl)
hex_digit-hex_nib (suc (suc (suc (suc zero)))) h = (b'4', refl, refl)
hex_digit-hex_nib (suc (suc (suc (suc (suc zero))))) h = (b'5', refl, refl)
hex_digit-hex_nib (suc (suc (suc (suc (suc (suc zero)))))) h = (b'6', refl, refl)
hex_digit-hex_nib (suc (suc (suc (suc (suc (suc (suc zero))))))) h = (b'7', refl, refl)
hex_digit-hex_nib (suc (suc (suc (suc (suc (suc (suc (suc zero)))))))) h = (b'8', refl, refl)
hex_digit-hex_nib (suc (suc (suc (suc (suc (suc (suc (suc (suc zero))))))))) h = (b'9', refl, refl)
hex_digit-hex_nib (suc (suc (suc (suc (suc (suc (suc (suc (suc (suc zero)))))))))) h =
    (b'a', refl, refl)
hex_digit-hex_nib (suc (suc (suc (suc (suc (suc (suc (suc (suc (suc (suc zero))))))))))) h =
    (b'b', refl, refl)
hex_digit-hex_nib (suc (suc (suc (suc (suc (suc (suc (suc (suc (suc (suc (suc zero)))))))))))) h =
    (b'c', refl, refl)
hex_digit-hex_nib (suc (suc (suc (suc (suc (suc (suc (suc (suc (suc (suc (suc (suc zero)))))))))))))
      h =
    (b'd', refl, refl)
hex_digit-hex_nib
      (suc (suc (suc (suc (suc (suc (suc (suc (suc (suc (suc (suc (suc (suc zero)))))))))))))) h =
    (b'e', refl, refl)
hex_digit-hex_nib
      (suc (suc (suc (suc (suc (suc (suc (suc (suc (suc (suc (suc (suc (suc (suc zero)))))))))))))))
      h =
    (b'f', refl, refl)
hex_digit-hex_nib
      (suc
        (suc (suc (suc (suc (suc (suc (suc (suc (suc (suc (suc (suc (suc (suc (suc n))))))))))))))))
      h =
    absurd (omega arith)

append_bytes_assoc : (xs ys zs : List ℕ) → ((xs ++ ys) ++ zs) ≡ (xs ++ (ys ++ zs))
append_bytes_assoc [] ys zs = refl
append_bytes_assoc (x ∷ xs) ys zs = ap (◌∷◌ x) (append_bytes_assoc xs ys zs)

pub as_bytes-append : (s t : String) → as_bytes (s <> t) ≡ as_bytes s ++ as_bytes t
unfolding as_bytes
as_bytes-append String.[] t = rw (append.nil t) refl
as_bytes-append (String.◌∷◌ c s) t = rw (append.cons c s t) (
    ap (λ x. utf8 (code c) ++ x) (as_bytes-append s t)
    ∙ sym (append_bytes_assoc (utf8 (code c)) (as_bytes s) (as_bytes t)))

hex_text-hex_pairs :
    (bs : List ℕ)
    → All (λ b. b < 256) bs
    → (hex_pairs (as_bytes (hex_text bs)) ≡ some bs)
      × (length (as_bytes (hex_text bs)) ≡ 2 * length bs)
unfolding hex_pairs hex_text as_bytes
hex_text-hex_pairs [] h = (refl, refl)
hex_text-hex_pairs (b ∷ bs) (small, h) =
    let (c, ec, nc) = hex_digit-hex_nib (b / 16) (omega arith) in
    let (d, ed, nd) = hex_digit-hex_nib (b % 16) (omega arith) in
    let (pairs, len) = hex_text-hex_pairs bs h in
    let split : as_bytes (hex_text (b ∷ bs)) ≡ c ∷ d ∷ as_bytes (hex_text bs) =
      as_bytes-append (hex_digit (b / 16)) (hex_digit (b % 16) <> hex_text bs)
      ∙ rw (ec, as_bytes-append (hex_digit (b % 16)) (hex_text bs), ed) refl in
    let whole : b / 16 * 16 + b % 16 ≡ b = omega arith in
    (
      ap hex_pairs split ∙ rw (nc, nd, pairs, push_pair, whole) refl,
      ap length split ∙ omega (arith, len),
    )

-- What is printed in hex reads back.
pub hex_decode-hex_text : (bs : List ℕ) → All (λ b. b < 256) bs → hex_decode (hex_text bs) ≡ some bs
unfolding hex_decode
hex_decode-hex_text bs h =
    let (pairs, len) = hex_text-hex_pairs bs h in
    let even : (length (as_bytes (hex_text bs)) % 2 == 0) ≡ true =
      (==_iff _ 0).1 (omega (arith, len)) in
    rw (even, pairs) refl
