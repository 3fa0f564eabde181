-- ===== src/Metrics/Collector.antt =====
-- internal/metrics/collector.go, with the rollup table of internal/db/metrics.go. A time is in
-- seconds since the epoch, a count an int64 as its 64 bits. `pending` is the map in the order in
-- which an iteration visits it, and the statement of a flush that fails is given by its number.
use infra_lightwight_s3_serv.Prelude.{
  ℕ, zero, suc, ◌<◌, ◌+◌, ◌-◌, ◌/◌, ◌%◌, ltb, ◌==◌, Bool, true, false, ◌&&◌, ◌||◌, List, [], ◌∷◌,
  take, length, all, Option, none, some, if◌then◌else◌, ◌≡◌, refl, arith, upsert, upserted, weight,
  weight?, find, weight-upsert,
}

pub record Sample : Type 0 where
  pub hour : ℕ
  pub status_class : ℕ
  pub requests : ℕ
  pub bytes_in : ℕ
  pub bytes_out : ℕ

-- The addition of int64.
abbrev pub add64 : ℕ → ℕ → ℕ
add64 a b = (a + b) % 18446744073709551616

-- The cell of a rollup: an hour and a class.
unfoldable pub same_cell : Sample → Sample → Bool
same_cell a b = b.hour == a.hour && b.status_class == a.status_class

unfoldable pub add_sample : Sample → Sample → Sample
add_sample a b = record b {
  requests = add64 b.requests a.requests;
  bytes_in = add64 b.bytes_in a.bytes_in;
  bytes_out = add64 b.bytes_out a.bytes_out;
}

-- A cell that is missing is made, empty, before the sample is added to it.
unfoldable pub accumulate : Sample → List Sample → List Sample
unfolding same_cell add_sample
accumulate a cells =
    upsert (same_cell a) (add_sample a (record a { requests = 0; bytes_in = 0; bytes_out = 0 }))
      (add_sample a) cells

unfoldable pub class_of : ℕ → ℕ
class_of status = let class = status / 100 in if ltb class 1 || ltb 5 class then 5 else class

-- Record, at the time `now`.
unfoldable pub record_request : ℕ → ℕ → ℕ → ℕ → List Sample → List Sample
unfolding accumulate class_of
record_request now status bytes_in bytes_out pending =
    accumulate
      (record {
        hour = now - now % 3600;
        status_class = class_of status;
        requests = 1;
        bytes_in = bytes_in;
        bytes_out = bytes_out;
      })
      pending

unfoldable pub restore : List Sample → List Sample → List Sample
unfolding accumulate
restore [] pending = pending
restore (a ∷ samples) pending = restore samples (accumulate a pending)

abbrev plus_sample : Sample → Sample → Sample
plus_sample a b = record b {
  requests = b.requests + a.requests;
  bytes_in = b.bytes_in + a.bytes_in;
  bytes_out = b.bytes_out + a.bytes_out;
}

-- INSERT … ON CONFLICT DO UPDATE; an overflow of a column is a statement that fails.
unfoldable pub insert_sample : Sample → List Sample → List Sample
unfolding same_cell
insert_sample a rollup = upsert (same_cell a) a (plus_sample a) rollup

-- FlushMetrics: one upsert a sample, each committed on its own; whether all succeeded, and the table.
unfoldable pub flush_metrics : Option ℕ → List Sample → List Sample → Bool × List Sample
unfolding insert_sample
flush_metrics fails [] rollup = (true, rollup)
flush_metrics none (a ∷ samples) rollup = flush_metrics none samples (insert_sample a rollup)
flush_metrics (some zero) (a ∷ samples) rollup = (false, rollup)
flush_metrics (some (suc n)) (a ∷ samples) rollup =
    flush_metrics (some n) samples (insert_sample a rollup)

-- The pending counts and the rollup table.
abbrev pub Metrics : Type 0
Metrics = List Sample × List Sample

unfoldable after_flush : List Sample → Bool × List Sample → Metrics
after_flush samples (true, rollup) = ([], rollup)
after_flush samples (false, rollup) = (restore samples [], rollup)

unfoldable pub flush : Option ℕ → Metrics → Metrics
unfolding flush_metrics after_flush
flush fails (pending, rollup) = after_flush pending (flush_metrics fails pending rollup)

pub data Call : Type 0 where
  request : (now status bytes_in bytes_out : ℕ) → Call
  flush_all : Option ℕ → Call

unfoldable pub step : Call → Metrics → Metrics
unfolding record_request flush
step (request now status bytes_in bytes_out) (pending, rollup) =
    (record_request now status bytes_in bytes_out pending, rollup)
step (flush_all fails) state = flush fails state

unfoldable pub run : List Call → Metrics → Metrics
unfolding step
run [] state = state
run (call ∷ calls) state = run calls (step call state)

-- The requests that the pending counts and the table hold together.
unfoldable pub counted : Metrics → ℕ
unfolding weight
counted (pending, rollup) =
    (weight (λ a. a.requests) pending + weight (λ a. a.requests) rollup) % 18446744073709551616

accumulated :
    (a : Sample) (cells : List Sample) (o : Option Sample) (total : ℕ)
    → total + weight? (λ c. c.requests) o
      ≡ weight (λ c. c.requests) cells
        + (upserted
            (add_sample a (record a { requests = 0; bytes_in = 0; bytes_out = 0 }))
            (add_sample a)
            o).requests
    → total % 18446744073709551616
      ≡ (weight (λ c. c.requests) cells + a.requests) % 18446744073709551616
unfolding add_sample
accumulated a cells none total h = omega arith
accumulated a cells (some b) total h = omega arith

requests_accumulate :
    (a : Sample) (cells : List Sample)
    → weight (λ c. c.requests) (accumulate a cells) % 18446744073709551616
      ≡ (weight (λ c. c.requests) cells + a.requests) % 18446744073709551616
unfolding accumulate
requests_accumulate a cells =
    let books =
      weight-upsert (λ c. c.requests) (same_cell a)
        (add_sample a (record a { requests = 0; bytes_in = 0; bytes_out = 0 })) (add_sample a)
        cells in
    accumulated a cells (find (same_cell a) cells) _ books

inserted :
    (a : Sample) (rollup : List Sample) (o : Option Sample) (total : ℕ)
    → total + weight? (λ c. c.requests) o
      ≡ weight (λ c. c.requests) rollup + (upserted a (plus_sample a) o).requests
    → total ≡ weight (λ c. c.requests) rollup + a.requests
inserted a rollup none total h = omega arith
inserted a rollup (some b) total h = omega arith

requests_insert_sample :
    (a : Sample) (rollup : List Sample)
    → weight (λ c. c.requests) (insert_sample a rollup)
      ≡ weight (λ c. c.requests) rollup + a.requests
unfolding insert_sample
requests_insert_sample a rollup =
    inserted a rollup (find (same_cell a) rollup) _
      (weight-upsert (λ c. c.requests) (same_cell a) a (plus_sample a) rollup)

requests_restore :
    (samples pending : List Sample)
    → weight (λ c. c.requests) (restore samples pending) % 18446744073709551616
      ≡ (weight (λ c. c.requests) pending + weight (λ c. c.requests) samples) % 18446744073709551616
unfolding restore weight
requests_restore [] pending = omega arith
requests_restore (a ∷ samples) pending =
    omega (arith, requests_restore samples (accumulate a pending), requests_accumulate a pending)

requests_flush_metrics :
    (samples rollup : List Sample)
    → ((flush_metrics none samples rollup).0 ≡ true)
      × (weight (λ c. c.requests) ((flush_metrics none samples rollup).1)
          ≡ weight (λ c. c.requests) rollup + weight (λ c. c.requests) samples)
unfolding flush_metrics weight
requests_flush_metrics [] rollup = (refl, omega arith)
requests_flush_metrics (a ∷ samples) rollup =
    let (e, h) = requests_flush_metrics samples (insert_sample a rollup) in
    (e, omega (arith, h, requests_insert_sample a rollup))

requests_flush_fails :
    (n : ℕ) (samples rollup : List Sample)
    → n < length samples
    → ((flush_metrics (some n) samples rollup).0 ≡ false)
      × (weight (λ c. c.requests) ((flush_metrics (some n) samples rollup).1)
          ≡ weight (λ c. c.requests) rollup + weight (λ c. c.requests) (take n samples))
unfolding flush_metrics weight
requests_flush_fails n [] rollup h = absurd (omega arith)
requests_flush_fails zero (a ∷ samples) rollup h = (refl, omega arith)
requests_flush_fails (suc n) (a ∷ samples) rollup h =
    let (e, k) = requests_flush_fails n samples (insert_sample a rollup) (omega arith) in
    (e, omega (arith, k, requests_insert_sample a rollup))

counted_emptied :
    (pending : List Sample) (outcome : Bool × List Sample)
    → outcome.0 ≡ true
    → counted (after_flush pending outcome)
      ≡ weight (λ a. a.requests) outcome.1 % 18446744073709551616
unfolding counted after_flush weight
counted_emptied pending (true, rollup) h = omega arith
counted_emptied pending (false, rollup) h = absurd (cc)

counted_returned :
    (pending : List Sample) (outcome : Bool × List Sample)
    → outcome.0 ≡ false
    → counted (after_flush pending outcome)
      ≡ (weight (λ a. a.requests) pending + weight (λ a. a.requests) outcome.1)
        % 18446744073709551616
unfolding counted after_flush weight
counted_returned pending (true, rollup) h = absurd (cc)
counted_returned pending (false, rollup) h = omega (arith, requests_restore pending [])

counted-record_request :
    (now status bytes_in bytes_out : ℕ) (pending rollup : List Sample)
    → counted (record_request now status bytes_in bytes_out pending, rollup)
      ≡ (counted (pending, rollup) + 1) % 18446744073709551616
unfolding counted record_request
counted-record_request now status bytes_in bytes_out pending rollup = omega (
  arith,
  requests_accumulate
      (record {
        hour = now - now % 3600;
        status_class = class_of status;
        requests = 1;
        bytes_in = bytes_in;
        bytes_out = bytes_out;
      })
      pending,
)

counted_reduced : (state : Metrics) → counted state ≡ counted state % 18446744073709551616
unfolding counted
counted_reduced (pending, rollup) = omega arith

flush_keeps :
    (pending rollup : List Sample)
    → counted (flush none (pending, rollup)) ≡ counted (pending, rollup)
unfolding counted flush
flush_keeps pending rollup =
    let (e, h) = requests_flush_metrics pending rollup in
    omega (arith, h, counted_emptied pending (flush_metrics none pending rollup) e)

-- A flush that fails at statement n counts the requests of the n samples before it twice: they stay
-- in the table and return to the pending counts.
pub flush_fails_counted :
    (n : ℕ) (pending rollup : List Sample)
    → n < length pending
    → counted (flush (some n) (pending, rollup))
      ≡ (counted (pending, rollup) + weight (λ a. a.requests) (take n pending))
        % 18446744073709551616
unfolding counted flush
flush_fails_counted n pending rollup h =
    let (e, k) = requests_flush_fails n pending rollup h in
    omega (arith, k, counted_returned pending (flush_metrics (some n) pending rollup) e)

unfoldable pub requests_in : List Call → ℕ
requests_in [] = 0
requests_in (request now status bytes_in bytes_out ∷ calls) = suc (requests_in calls)
requests_in (flush_all fails ∷ calls) = requests_in calls

unfoldable pub is_success : Call → Bool
is_success (request now status bytes_in bytes_out) = true
is_success (flush_all none) = true
is_success (flush_all (some n)) = false

-- While no flush fails, the pending counts and the table together hold each request that was
-- recorded once, whatever the order of requests and flushes, modulo 2 ^ 64.
pub counted-run :
    (calls : List Call) (state : Metrics)
    → all is_success calls ≡ true
    → counted (run calls state) ≡ (counted state + requests_in calls) % 18446744073709551616
unfolding run step is_success requests_in
counted-run [] state h = omega (arith, counted_reduced state)
counted-run (request now status bytes_in bytes_out ∷ calls) (pending, rollup) h = omega (
  arith,
  counted-run calls (record_request now status bytes_in bytes_out pending, rollup) h,
  counted-record_request now status bytes_in bytes_out pending rollup,
)
counted-run (flush_all none ∷ calls) (pending, rollup) h =
    omega (arith, counted-run calls (flush none (pending, rollup)) h, flush_keeps pending rollup)
counted-run (flush_all (some n) ∷ calls) state h = absurd (cc)
