-- ===== src/Metrics/Tests.antt =====
-- The theorems on the counts of requests at concrete requests.
use infra_lightwight_s3_serv.Prelude.{
  ◌+◌, ◌-◌, ◌%◌, true, List, [], ◌∷◌, get_elem?, all, take, weight, none, some, ◌≡◌, refl, arith,
}
use infra_lightwight_s3_serv.Metrics.Collector.{
  Sample, Call, request, flush_all, counted, flush, run, requests_in, is_success, counted-run,
  flush_fails_counted,
}
use infra_lightwight_s3_serv.Metrics.Live.{
  Hit, SecondBucket, snapshot, ring_of, requests_at, in_order, snapshot_counts,
}

abbrev calls : List Call
calls = request 7200 200 0 512 ∷ request 7260 404 0 80 ∷ flush_all none ∷ request 7300 200 10 0 ∷ []

calls_succeed : all is_success calls ≡ true
unfolding is_success
calls_succeed = refl

counted-run_example :
    counted (run calls ([], [])) ≡ (counted ([], []) + requests_in calls) % 18446744073709551616
counted-run_example = counted-run calls ([], []) calls_succeed

abbrev found : Sample
found = record { hour = 7200; status_class = 2; requests = 3; bytes_in = 0; bytes_out = 90 }

abbrev missing : Sample
missing = record { hour = 7200; status_class = 4; requests = 2; bytes_in = 0; bytes_out = 0 }

-- The second of two statements fails: the three requests of the first are counted twice.
flush_fails_counted_example :
    counted (flush (some 1) (found ∷ missing ∷ [], []))
    ≡ (counted (found ∷ missing ∷ [], [])
        + weight (λ (a : Sample). a.requests) (take 1 (found ∷ missing ∷ [])))
      % 18446744073709551616
flush_fails_counted_example = flush_fails_counted 1 (found ∷ missing ∷ []) [] (omega arith)

-- The slot of second 105 was used a minute before.
abbrev hits : List Hit
hits =
    record { at = 105; received = 1; sent = 2 }
    ∷ record { at = 105; received = 0; sent = 9 }
    ∷ record { at = 45; received = 4; sent = 4 }
    ∷ []

hits-in_order : in_order hits ≡ true
unfolding in_order
hits-in_order = refl

snapshot_counts_example :
    (p : SecondBucket) × (get_elem? (snapshot (ring_of hits) 110) 54 ≡ some p)
    × (p.requests ≡ requests_at (110 - (59 - 54)) hits % 18446744073709551616)
snapshot_counts_example =
    snapshot_counts hits 110 54 hits-in_order (omega arith) (omega arith) (omega arith)
