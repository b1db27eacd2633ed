-- ===== src/D/Worker/Host.antt =====
-- `host_from_url` of d/src/worker.rs: it reads the host back from an authority and what follows it.
use benchmark_rust_llms.Prelude.{ℕ, code, String, ◌<>◌, none, some, true, ◌==◌, str_eq, inl, inr}
use benchmark_rust_llms.D.Worker.{until_slash, last_colon, all_digits, host_from_url}
use benchmark_rust_llms.Prelude.{◌≡◌, refl, ◌∙◌, ap, true, false, ◌⊎◌, ◌<◌, arith, ◌≢◌}
use Prim.Native.String.append

abbrev pub Lacks : ℕ → String → Type 0
Lacks k String.[] = Unit
Lacks k (String.◌∷◌ c s) = (code c ≢ k) × Lacks k s

slash-append : (s : String) → "/" <> s ≡ String.◌∷◌ "/" s
slash-append s = append.cons "/" "" s ∙ ap (String.◌∷◌ "/") (append.nil s)

colon-append : (s : String) → ":" <> s ≡ String.◌∷◌ ":" s
colon-append s = append.cons ":" "" s ∙ ap (String.◌∷◌ ":") (append.nil s)

pub differs : (m n : ℕ) → m ≢ n → (m == n) ≡ false
differs m n h = ground arith

until_slash-all : (s : String) → Lacks b'/' s → until_slash s ≡ s
unfolding until_slash
until_slash-all String.[] h = refl
until_slash-all (String.◌∷◌ c s) h =
    rw (differs (code c) b'/' h.0) (ap (String.◌∷◌ c) (until_slash-all s h.1))

until_slash-append : (s path : String) → Lacks b'/' s → until_slash (s <> String.◌∷◌ "/" path) ≡ s
unfolding until_slash
until_slash-append String.[] path h = rw (append.nil (String.◌∷◌ "/" path)) refl
until_slash-append (String.◌∷◌ c s) path h =
    rw (append.cons c s (String.◌∷◌ "/" path), differs (code c) b'/' h.0)
      (ap (String.◌∷◌ c) (until_slash-append s path h.1))

last_colon-none : (s : String) → Lacks b':' s → last_colon s ≡ none
unfolding last_colon
last_colon-none String.[] h = refl
last_colon-none (String.◌∷◌ c s) h = rw (last_colon-none s h.1, differs (code c) b':' h.0) refl

last_colon-append :
    (s port : String) → Lacks b':' port → last_colon (s <> String.◌∷◌ ":" port) ≡ some (s, port)
unfolding last_colon
last_colon-append String.[] port h =
    rw (append.nil (String.◌∷◌ ":" port), last_colon-none port h) refl
last_colon-append (String.◌∷◌ c s) port h =
    rw (append.cons c s (String.◌∷◌ ":" port), last_colon-append s port h) refl

Lacks-append : (k : ℕ) (s t : String) → Lacks k s → Lacks k t → Lacks k (s <> t)
Lacks-append k String.[] t h g = rw (append.nil t) g
Lacks-append k (String.◌∷◌ c s) t h g = rw (append.cons c s t) (h.0, Lacks-append k s t h.1 g)

digits-Lacks : (k : ℕ) (s : String) → (k < b'0') ⊎ (b'9' < k) → all_digits s ≡ true → Lacks k s
unfolding all_digits
digits-Lacks k String.[] o h = tt
digits-Lacks k (String.◌∷◌ c s) o h = (ground arith, digits-Lacks k s o (ground arith))

append-append : (s t u : String) → (s <> t) <> u ≡ s <> (t <> u)
append-append String.[] t u = rw (append.nil t, append.nil (t <> u)) refl
append-append (String.◌∷◌ c s) t u =
    rw (append.cons c s t, append.cons c (s <> t) u, append.cons c s (t <> u))
      (ap (String.◌∷◌ c) (append-append s t u))

-- The authority ends at the slash.
authority :
    (host port path : String)
    → host <> (":" <> (port <> ("/" <> path)))
      ≡ (host <> String.◌∷◌ ":" port) <> String.◌∷◌ "/" path
authority host port path =
    rw
      (
        slash-append path,
        colon-append (port <> String.◌∷◌ "/" path),
        append-append host (String.◌∷◌ ":" port) (String.◌∷◌ "/" path),
        append.cons ":" port (String.◌∷◌ "/" path),
      )
      refl

with_port :
    (host port path : String)
    → Lacks b'/' host
    → str_eq port "" ≡ false
    → all_digits port ≡ true
    → host_from_url (host <> (":" <> (port <> ("/" <> path)))) ≡ host
unfolding host_from_url
with_port host port path h n d =
    let sep : Lacks b'/' (String.◌∷◌ ":" port) =
      (ground arith, digits-Lacks b'/' port (inl (omega arith)) d) in
    rw
      (
        authority host port path,
        until_slash-append (host <> String.◌∷◌ ":" port) path
            (Lacks-append b'/' host (String.◌∷◌ ":" port) h sep),
        last_colon-append host port (digits-Lacks b':' port (inr (omega arith)) d),
        n,
        d,
      )
      refl

-- A host without a slash is read back when a colon, a port of one or more digits, a slash and any
-- path follow it; a host that lacks colons too is read back when only a slash and a path follow it.
pub host_from_url_lem :
    (host port path : String)
    → Lacks b'/' host
    → (str_eq port "" ≡ false
        → all_digits port ≡ true
        → host_from_url (host <> (":" <> (port <> ("/" <> path)))) ≡ host)
      × (Lacks b':' host → host_from_url (host <> ("/" <> path)) ≡ host)
unfolding host_from_url
host_from_url_lem host port path h = (
  λ n d. with_port host port path h n d,
  λ c. rw (slash-append path, until_slash-append host path h, last_colon-none host c) refl,
)
