-- ===== src/D/Worker/Blocked.antt =====
-- Jobs whose host resolves to a refused address, and jobs whose host resolves to an IPv4-mapped one,
-- in d/src/worker.rs.
use benchmark_rust_llms.Prelude.{
  ℕ, String, ◌<>◌, Option, List, [], ◌∷◌, true, str_eq, Result, ok, err, arith,
}
use benchmark_rust_llms.Net.{IpAddr}
use benchmark_rust_llms.Q.Model.{UuidText}
use benchmark_rust_llms.D.Model.{TimeText, JsonText, WebhookJob}
use benchmark_rust_llms.D.Config.{Config, is_set}
use benchmark_rust_llms.D.Security.{validate_destination, is_blocked_literal_ip, is_private_ip}
use benchmark_rust_llms.D.Db.{Db, move_to_dlq}
use benchmark_rust_llms.D.Worker.{
  World, check_host, check_destination_blocked, host_from_url, process_job, checked, answered,
  finished,
}
use benchmark_rust_llms.D.Worker.Guard.{check_ips-private, permitted-ok}
use benchmark_rust_llms.D.Security.Blocks.{is_listed, is_private_ip-is_listed}
use benchmark_rust_llms.Net.{v6}
use benchmark_rust_llms.Net.Cidr.{IsAddress}
use benchmark_rust_llms.Prelude.{Some, Some-imp, Bool-cases, inl, inr, ◌≡◌, refl, ◌∙◌, true, false}

module _ (parse_ip : String → Option IpAddr) (show_ip : IpAddr → String) where
  check_host-private :
      (lookup_host : String → Result String (List IpAddr)) (host : String) (ips : List IpAddr)
      → lookup_host host ≡ ok ips
      → Some (λ ip. is_private_ip ip ≡ true) ips
      → (e : String) × (check_host parse_ip show_ip lookup_host host ≡ err e)
  check_host-private lookup_host host ips r h = elim (Bool-cases (str_eq host "")) [
    | inl e ↦ rw e (_, refl)
    | inr e ↦ elim (Bool-cases (is_blocked_literal_ip parse_ip host)) [
      | inl b ↦ rw (e, b) (_, refl)
      | inr b ↦ rw (e, b, r) (check_ips-private show_ip host ips h)
    ]
  ]

  -- The list has an address, of numbers in their range, that lies in a refused block.
  abbrev pub HasListed : List IpAddr → Type 0
  HasListed ips = Some (λ ip. IsAddress ip × (is_listed ip ≡ true)) ips

  listed-private : (ips : List IpAddr) → HasListed ips → Some (λ ip. is_private_ip ip ≡ true) ips
  listed-private ips h =
      Some-imp (λ ip. IsAddress ip × (is_listed ip ≡ true)) (λ ip. is_private_ip ip ≡ true)
        (λ ip (a, l). is_private_ip-is_listed ip a ∙ l) ips h

  module _ (uuid : UuidText) (time : TimeText) {Value : Type 0} (json : JsonText Value)
      (config : Config) (w : World Value) (job : WebhookJob Value) (db : Db) where
    check-private :
        {rest : String} {ips : List IpAddr}
        → validate_destination job.destination ≡ ok rest
        → is_set w.allow_private ≡ false
        → w.lookup_host (host_from_url rest) ≡ ok ips
        → HasListed ips
        → (e : String) × (check_destination_blocked parse_ip show_ip w.allow_private w.lookup_host
              job.destination
            ≡ err e)
    unfolding check_destination_blocked
    check-private {rest} {ips} v a r h =
        rw (v, a)
          (check_host-private w.lookup_host (host_from_url rest) ips r (listed-private ips h))

    -- With ALLOW_PRIVATE unset, a job whose host resolves to some address of a refused block is moved
    -- to the dead letters with a message "blocked: ...", whatever the network would answer.
    pub process_job-private :
        {rest : String} {ips : List IpAddr}
        → validate_destination job.destination ≡ ok rest
        → is_set w.allow_private ≡ false
        → w.lookup_host (host_from_url rest) ≡ ok ips
        → HasListed ips
        → (e : String) × ((network : String → Value → Result String ℕ)
            → process_job parse_ip show_ip uuid time json config
                (record w { network = network })
                job
                db
              ≡ (
                (move_to_dlq uuid time json w.store w.store' w.now w.entry_id job
                    ("blocked: " <> e)
                    db).0,
                finished,
              ))
    unfolding process_job checked
    process_job-private v a r h = let (e, k) = check-private v a r h in (e, λ network. rw k refl)

    -- The host's one address is ::ffff:a.b.c.d, the octets in the last two groups.
    abbrev pub mapped : ℕ → ℕ → IpAddr
    mapped s6 s7 = v6 0 0 0 0 0 65535 s6 s7

    mapped-passes : (s6 s7 : ℕ) → is_private_ip (mapped s6 s7) ≡ false
    unfolding is_private_ip
    mapped-passes s6 s7 = ground arith

    -- A job whose host is named, is no refused literal, and resolves to an IPv4-mapped address is sent
    -- to the network, whichever IPv4 address is mapped, loopback and private ones included.
    pub process_job-mapped :
        (s6 s7 : ℕ) {rest : String}
        → validate_destination job.destination ≡ ok rest
        → str_eq (host_from_url rest) "" ≡ false
        → is_blocked_literal_ip parse_ip (host_from_url rest) ≡ false
        → w.lookup_host (host_from_url rest) ≡ ok (mapped s6 s7 ∷ [])
        → process_job parse_ip show_ip uuid time json config w job db
          ≡ answered parse_ip show_ip uuid time json config w job
              (w.network job.destination job.payload)
              db
    unfolding process_job checked
    process_job-mapped s6 s7 {rest} v n b r =
        rw
          (permitted-ok parse_ip show_ip w.lookup_host w.allow_private job.destination (record {
            rest = rest;
            valid = v;
            host = inr (record {
              named = n;
              no_literal = b;
              addresses = mapped s6 s7 ∷ [];
              resolves = r;
              are_public = (mapped-passes s6 s7, tt);
            });
          }))
          refl
