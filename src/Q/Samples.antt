-- ===== src/Q/Samples.antt =====
-- A concrete id text, and small rows and tables, for the tests and instances of the q/ modules.
use mathlib.Core.Option
use benchmark_rust_llms.Prelude.{
  ℕ, zero, suc, String, Option, none, some, [], ◌∷◌, ◌≡◌, refl, ap, pos,
}
use benchmark_rust_llms.Q.Model.{Uuid, UuidText, NewDelivery}
use benchmark_rust_llms.Q.Db.Rows.{DeliveryRow, Db}
use benchmark_rust_llms.Q.Db.Invariant.{IsWellFormed}
use benchmark_rust_llms.Q.Model.{pending, in_flight, as_str}

-- An id as so many strokes: printing and counting are inverse.
unfoldable pub strokes : Uuid → String
strokes zero = ""
strokes (suc n) = String.◌∷◌ "x" (strokes n)

unfoldable pub count_strokes : String → Option Uuid
count_strokes String.[] = some 0
count_strokes (String.◌∷◌ c s) = Option.map suc (count_strokes s)

pub count-strokes : (u : Uuid) → count_strokes (strokes u) ≡ some u
unfolding strokes count_strokes
count-strokes zero = refl
count-strokes (suc n) = ap (Option.map suc) (count-strokes n)

abbrev pub stroke_text : UuidText
stroke_text = record {
  to_string = strokes;
  parse_str = count_strokes;
  parse_str-to_string = count-strokes;
}

abbrev pub first : NewDelivery
first = record {
  id = 1;
  idempotency_key = some "key-1";
  destination = "http://example.com/hook";
  payload = 123 ∷ 125 ∷ [];
  max_attempts = 2;
}

abbrev pub second : NewDelivery
second = record {
  id = 2;
  idempotency_key = some "key-1";
  destination = "http://example.com/other";
  payload = 49 ∷ [];
  max_attempts = 8;
}

abbrev pub row_of : Uuid → String → ℕ → ℕ → ℕ → DeliveryRow
row_of u status attempts limit due = record {
  id = strokes u;
  idempotency_key = none;
  destination = "http://example.com/hook";
  payload = 123 ∷ 125 ∷ [];
  status = status;
  attempts = attempts;
  max_attempts = limit;
  next_retry_at = pos due;
  last_error = none;
  created_at = pos 5;
  updated_at = pos due;
}

-- Two pending deliveries, the second due first, and one in flight.
abbrev pub queued : Db
queued = record {
  deliveries =
      row_of 1 "pending" 0 8 20 ∷ row_of 2 "pending" 1 2 10 ∷ row_of 3 "in_flight" 0 8 1 ∷ [];
  dead_letters = [];
}

pub queued-IsWellFormed : IsWellFormed stroke_text queued
unfolding strokes as_str
queued-IsWellFormed = record {
  rows = (
    ((1, refl), (pending, refl)),
    (((2, refl), (pending, refl)), (((3, refl), (in_flight, refl)), tt)),
  );
  unique = ((refl, (refl, tt)), ((refl, tt), (tt, tt)));
  entries = tt;
  unique_entries = tt;
}
