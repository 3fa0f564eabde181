-- ===== src/Db/Listing/Accepted.antt =====
-- internal/db/listing.go: a listing whose texts the database takes returns a page.
use infra_lightwight_s3_serv.Prelude.{
  ℕ, suc, zero, ◌+◌, ◌≤◌, ltb, leb, Bool, true, not, ◌&&◌, ◌||◌, Bytes, List, [], ◌∷◌, ◌++◌,
  bytes_eq, has_suffix, all, all_mem, ◌*◌, take, length, Option, none, some, Result, ok, err, ◌≡◌,
  refl, arith, Bool-cases, Option-cases, inl, inr, sym, subst, ◌∙◌,
}
use infra_lightwight_s3_serv.Db.Rows.{Object, Tables}
use infra_lightwight_s3_serv.Db.Listing.{
  highest_rune, prefix_upper_bound, accepted_range, listed_rows, fetch_key_batch, group_of,
  ListOptions, ListResult, ListError, page_size, count, Step, full, passed, grouped, seen, scan_key,
  Scan, finished, paused, scan_batch, Round, failed, returned, continued, after_scan, after_batch,
  list_loop, list_objects, empty_page,
}
use infra_lightwight_s3_serv.Db.Listing.Order.{rows, rows-all, all-listed}
use infra_lightwight_s3_serv.Db.Listing.Termination.{list_objects_ends, all-take}

-- The cursors that a row can leave: its key, and its group with the highest rune.
abbrev pub takes_row : (Bytes → Bool) → Bytes → Bytes → Object → Bool
takes_row accepts prefix delimiter o = accepts o.key && (elim (group_of o.key prefix delimiter) [
  | none ↦ true
  | some g ↦ accepts (g ++ highest_rune)
])

-- The bounds of the range of a prefix.
abbrev pub takes_prefix : (Bytes → Bool) → Bytes → Bool
takes_prefix accepts prefix =
    bytes_eq prefix [] || (accepts prefix && accepts (prefix_upper_bound prefix))

module _ (accepts : Bytes → Bool) (db : Tables) (bucket : Bytes) (opts : ListOptions)
    (bounds : takes_prefix accepts opts.prefix ≡ true)
    (keys : all (takes_row accepts opts.prefix opts.delimiter) (listed_rows db) ≡ true) where
  abbrev Resumes : Scan → Type 0
  Resumes (finished page) = Unit
  Resumes (paused cursor r) = accepts cursor ≡ true

  abbrev StepResumes : Step → Type 0
  StepResumes (full page) = Unit
  StepResumes (passed r) = Unit
  StepResumes (grouped g r) = accepts (g ++ highest_rune) ≡ true

  scan_key-StepResumes :
      (r : ListResult) (o : Object)
      → takes_row accepts opts.prefix opts.delimiter o ≡ true
      → StepResumes (scan_key opts r o)
  unfolding scan_key
  scan_key-StepResumes r o h = elim (Option-cases (group_of o.key opts.prefix opts.delimiter)) [
    | inl e ↦ elim (Bool-cases (leb (page_size opts.max_keys) (count r))) [
      | inl f ↦ rw (e, f, scan_key) tt
      | inr f ↦ rw (e, f, scan_key) tt
    ]
    | inr (g, e) ↦
        let taken : accepts (g ++ highest_rune) ≡ true = ground (arith, (rw e at h)) in
        elim (Bool-cases (seen g r)) [
          | inl k ↦ rw (e, k, scan_key) tt
          | inr k ↦ elim (Bool-cases (leb (page_size opts.max_keys) (count r))) [
            | inl f ↦ rw (e, k, f, scan_key) tt
            | inr f ↦ rw (e, k, f, scan_key) taken
          ]
        ]
  ]

  step-Resumes :
      (o : Object) (os : List Object) (step : Step)
      → StepResumes step
      → ((r : ListResult) → Resumes (scan_batch opts o.key r os))
      → Resumes (elim step [
        | full page ↦ finished page
        | passed r' ↦ scan_batch opts o.key r' os
        | grouped g r' ↦ paused (g ++ highest_rune) r'
      ])
  step-Resumes o os (full page) k rest = tt
  step-Resumes o os (passed r) k rest = rest r
  step-Resumes o os (grouped g r) k rest = k

  scan_batch-Resumes :
      (os : List Object) (cursor : Bytes) (r : ListResult)
      → accepts cursor ≡ true
      → all (takes_row accepts opts.prefix opts.delimiter) os ≡ true
      → Resumes (scan_batch opts cursor r os)
  unfolding scan_batch
  scan_batch-Resumes [] cursor r h k = h
  scan_batch-Resumes (o ∷ os) cursor r h k =
      step-Resumes o os (scan_key opts r o) (scan_key-StepResumes r o (ground arith))
        (λ r'. scan_batch-Resumes os o.key r' (ground arith) (ground arith))

  abbrev RoundResumes : Round → Type 0
  RoundResumes (failed e) = ⊥
  RoundResumes (returned page) = Unit
  RoundResumes (continued cursor r) = accepts cursor ≡ true

  fetched :
      (cursor : Bytes) (n : ℕ)
      → accepts cursor ≡ true
      → fetch_key_batch accepts db bucket opts.prefix cursor n
        ≡ ok (take n (rows db bucket opts.prefix cursor))
  unfolding fetch_key_batch accepted_range
  fetched cursor n h = rw (h, bounds) refl

  after_scan-RoundResumes :
      (n : ℕ) (s : Scan) → Resumes s → RoundResumes (after_scan accepts db bucket opts n s)
  unfolding after_scan
  after_scan-RoundResumes n (finished page) k = tt
  after_scan-RoundResumes n (paused cursor r) k =
      elim (Bool-cases (leb (page_size opts.max_keys) (count r))) [
        | inl e ↦ rw (e, fetched cursor 1 k) tt
        | inr e ↦ elim (Bool-cases (ltb n 1000 && not (has_suffix cursor highest_rune))) [
          | inl f ↦ rw (e, f) tt
          | inr f ↦ rw (e, f) k
        ]
      ]

  batch-RoundResumes :
      (batch : List Object) (cursor : Bytes) (r : ListResult)
      → accepts cursor ≡ true
      → all (takes_row accepts opts.prefix opts.delimiter) batch ≡ true
      → RoundResumes (after_batch accepts db bucket opts cursor r (ok batch))
  unfolding after_batch
  batch-RoundResumes [] cursor r h k = tt
  batch-RoundResumes (o ∷ os) cursor r h k =
      after_scan-RoundResumes (length (o ∷ os)) (scan_batch opts cursor r (o ∷ os))
        (scan_batch-Resumes (o ∷ os) cursor r h k)

  -- Not an error of the database.
  abbrev Unrefused : Option (Result ListError ListResult) → Type 0
  Unrefused none = Unit
  Unrefused (some (ok page)) = Unit
  Unrefused (some (err e)) = ⊥

  round-Unrefused :
      (fuel : ℕ) (round : Round)
      → RoundResumes round
      → ((c : Bytes) (s : ListResult)
          → accepts c ≡ true
          → Unrefused (list_loop accepts db bucket opts fuel c s))
      → Unrefused (elim round [
        | failed e ↦ some (err e)
        | returned p ↦ some (ok p)
        | continued c s ↦ list_loop accepts db bucket opts fuel c s
      ])
  round-Unrefused fuel (failed e) k rest = k
  round-Unrefused fuel (returned p) k rest = tt
  round-Unrefused fuel (continued c s) k rest = rest c s k

  first_round :
      (cursor : Bytes) (r : ListResult)
      → accepts cursor ≡ true
      → RoundResumes (
          after_batch accepts db bucket opts cursor r
            (ok (take 1000 (rows db bucket opts.prefix cursor))))
  first_round cursor r h =
      batch-RoundResumes (take 1000 (rows db bucket opts.prefix cursor)) cursor r h (
        all-take (takes_row accepts opts.prefix opts.delimiter) 1000
          (rows db bucket opts.prefix cursor)
          (rows-all db bucket opts.prefix cursor (takes_row accepts opts.prefix opts.delimiter)
            (λ o m e.
              all_mem o (takes_row accepts opts.prefix opts.delimiter) (listed_rows db) keys m)))

  list_loop-Unrefused :
      (fuel : ℕ) (cursor : Bytes) (r : ListResult)
      → accepts cursor ≡ true
      → Unrefused (list_loop accepts db bucket opts fuel cursor r)
  unfolding list_loop
  list_loop-Unrefused zero cursor r h = tt
  list_loop-Unrefused (suc fuel) cursor r h =
      round-Unrefused fuel
        (after_batch accepts db bucket opts cursor r
          (fetch_key_batch accepts db bucket opts.prefix cursor 1000))
        (subst (λ b. RoundResumes (after_batch accepts db bucket opts cursor r b))
          (sym (fetched cursor 1000 h)) (first_round cursor r h))
        (λ c s a. list_loop-Unrefused fuel c s a)

-- ListObjects returns a page, and the page has no more objects and common prefixes together than its
-- size, which is max-keys from 1 to 1000 and otherwise 1000, where the database takes every text that
-- the scan can hand it: start-after, the prefix and its upper bound if there is a prefix, each key of
-- the table, and the common prefix of each key with the highest rune appended.
pub list_objects_page :
    (accepts : Bytes → Bool) (bucket : Bytes) (opts : ListOptions) (db : Tables)
    → accepts opts.start_after ≡ true
    → takes_prefix accepts opts.prefix ≡ true
    → all (takes_row accepts opts.prefix opts.delimiter) db.objects ≡ true
    → (page : ListResult) × (list_objects accepts bucket opts db ≡ some (ok page))
      × (length page.objects + length page.common_prefixes ≤ page_size opts.max_keys)
unfolding list_objects
list_objects_page accepts bucket opts db start bounds keys =
    let listed = all-listed (takes_row accepts opts.prefix opts.delimiter) db.objects ∙ keys in
    elim (list_objects_ends accepts bucket opts db) [
      | inr found ↦ found
      | inl e ↦ absurd (
          subst (Unrefused accepts db bucket opts bounds listed) e (
            list_loop-Unrefused accepts db bucket opts bounds listed
              (suc (suc (length db.objects) * 1001)) opts.start_after empty_page start))
    ]
