-- ===== src/Db/Listing/Termination.antt =====
-- internal/db/listing.go: the loop of ListObjects ends, with a page within its size.
use infra_lightwight_s3_serv.Prelude.{
  ℕ, suc, zero, ◌+◌, ◌-◌, ◌*◌, ◌≤◌, ◌<◌, ltb, leb, ltb→lt, lt→ltb, Bool, true, false, not, ◌&&◌,
  Bytes, List, [], ◌∷◌, ◌++◌, has_suffix, all, keep, take, length, length-append, Option, some,
  Result, ok, err, sym, ◌≡◌, refl, arith, Bool-cases, Option-cases, ◌⊎◌, inl, inr, Memᴰ, head, tail,
  not-nil, subst,
}
use infra_lightwight_s3_serv.Db.Rows.{Object, Tables}
use infra_lightwight_s3_serv.Db.Listing.{
  highest_rune, selected, fetch_key_batch, group_of, ListOptions, ListResult, page_size, count,
  Step, full, passed, grouped, seen, scan_key, Scan, finished, paused, scan_batch, truncated,
  settle, settled, accepted_range, ListError, refused_text, listed_rows, Round, failed, returned,
  continued, after_scan, after_batch, list_loop, empty_page, list_objects,
}
use infra_lightwight_s3_serv.Db.Listing.Page.{page_size_bounds}
use infra_lightwight_s3_serv.Db.Listing.Order.{
  bytes_lt_irrefl, bytes_lt_trans, rows, rows-all, length-listed,
}

module _ {ℓ} {A : Type ℓ} (p q : A → Bool) (narrower : (x : A) → p x ≡ true → q x ≡ true) where
  keep_le : (xs : List A) → length (keep p xs) ≤ length (keep q xs)
  keep_le [] = omega arith
  keep_le (x ∷ xs) = ground (arith, narrower x, keep_le xs)

  keep_lt :
      (a : A) (xs : List A)
      → Memᴰ a xs
      → q a ≡ true
      → p a ≡ false
      → length (keep p xs) < length (keep q xs)
  keep_lt a [] m h k = absurd (not-nil m)
  keep_lt a (x ∷ xs) (head e) h k =
      let hx = subst (λ y. q y ≡ true) e h in
      let kx = subst (λ y. p y ≡ false) e k in rw (hx, kx) (omega (arith, keep_le xs))
  keep_lt a (x ∷ xs) (tail m) h k = ground (arith, narrower x, keep_lt a xs m h k)

keep-le-length {ℓ} : {A : Type ℓ} (p : A → Bool) (xs : List A) → length (keep p xs) ≤ length xs
keep-le-length p [] = omega arith
keep-le-length p (x ∷ xs) = ground (arith, keep-le-length p xs)

pub all-take {ℓ} :
    {A : Type ℓ} (p : A → Bool) (n : ℕ) (xs : List A) → all p xs ≡ true → all p (take n xs) ≡ true
all-take p zero xs h = refl
all-take p (suc n) [] h = refl
all-take p (suc n) (x ∷ xs) h = ground (arith, all-take p n xs)

mul_mono : (a b m : ℕ) → a ≤ b → a * m ≤ b * m
mul_mono a b m h = grind arith

mul_slot : (a b m : ℕ) → a < b → a * m + m ≤ b * m
mul_slot a b m h = grind arith

slot_used :
    (size c c' n k k' : ℕ)
    → c < c'
    → c' ≤ size
    → k' ≤ n
    → (size - c') * suc n + k' < (size - c) * suc n + k
slot_used size c c' n k k' h l m =
    omega (arith, mul_slot (size - c') (size - c) (suc n) (omega arith))

row_passed :
    (size c c' n k k' : ℕ) → c ≤ c' → k' < k → (size - c') * suc n + k' < (size - c) * suc n + k
row_passed size c c' n k k' h l =
    omega (arith, mul_mono (size - c') (size - c) (suc n) (omega arith))

enough : (size n k : ℕ) → size ≤ 1000 → k ≤ n → (size - 0) * suc n + k < suc (suc n * 1001)
enough size n k h l = omega (arith, mul_mono (size - 0) 1000 (suc n) (omega arith))

module _ (accepts : Bytes → Bool) (db : Tables) (bucket : Bytes) (opts : ListOptions) where
  -- How many rows are after a cursor.
  remaining : Bytes → ℕ
  remaining cursor = length (keep (selected bucket opts.prefix cursor) (listed_rows db))

  remaining_lt :
      (cursor : Bytes) (o : Object)
      → Memᴰ o (listed_rows db)
      → selected bucket opts.prefix cursor o ≡ true
      → ltb (remaining o.key) (remaining cursor) ≡ true
  unfolding remaining selected
  remaining_lt cursor o m h = lt→ltb (remaining o.key) (remaining cursor) (
      keep_lt (selected bucket opts.prefix o.key) (selected bucket opts.prefix cursor)
        (λ x e. ground (arith, bytes_lt_trans cursor o.key x.key)) o (listed_rows db) m h
        (ground (arith, bytes_lt_irrefl o.key)))

  -- The page has grown, or the cursor has moved on, and the page has room.
  abbrev Progress : ListResult → ℕ → Scan → Type 0
  Progress r n (finished page) = count page ≤ page_size opts.max_keys
  Progress r n (paused cursor r') =
      (count r ≤ count r')
      × (count r' ≤ page_size opts.max_keys)
      × ((count r < count r') ⊎ (remaining cursor < n))

  abbrev KeyProgress : ListResult → Step → Type 0
  KeyProgress r (full page) = count page ≤ page_size opts.max_keys
  KeyProgress r (passed r') = (count r ≤ count r') × (count r' ≤ page_size opts.max_keys)
  KeyProgress r (grouped g r') = (count r < count r') × (count r' ≤ page_size opts.max_keys)

  scan_key-KeyProgress :
      (r : ListResult) (o : Object)
      → count r ≤ page_size opts.max_keys
      → KeyProgress r (scan_key opts r o)
  unfolding scan_key truncated
  scan_key-KeyProgress r o h = elim (Option-cases (group_of o.key opts.prefix opts.delimiter)) [
    | inl e ↦ elim (Bool-cases (leb (page_size opts.max_keys) (count r))) [
      | inl f ↦ rw (e, f, scan_key) h
      | inr f ↦ rw (e, f, scan_key) (ground (arith, length-append r.objects (o ∷ [])))
    ]
    | inr (g, e) ↦ elim (Bool-cases (seen g r)) [
      | inl k ↦ rw (e, k, scan_key) (omega arith, h)
      | inr k ↦ elim (Bool-cases (leb (page_size opts.max_keys) (count r))) [
        | inl f ↦ rw (e, k, f, scan_key) h
        | inr f ↦ rw (e, k, f, scan_key) (ground (arith, length-append r.common_prefixes (g ∷ [])))
      ]
    ]
  ]

  Progress-weaken :
      (r r' : ListResult) (n : ℕ) (s : Scan) → count r ≤ count r' → Progress r' n s → Progress r n s
  Progress-weaken r r' n (finished page) h k = k
  Progress-weaken r r' n (paused cursor t) h (a, b, inl l) = (omega arith, b, inl (omega arith))
  Progress-weaken r r' n (paused cursor t) h (a, b, inr l) = (omega arith, b, inr l)

  step-Progress :
      (r : ListResult) (n : ℕ) (x : Object) (xs : List Object) (step : Step)
      → KeyProgress r step
      → ((r' : ListResult)
          → count r' ≤ page_size opts.max_keys
          → Progress r' n (scan_batch opts x.key r' xs))
      → Progress r n (elim step [
        | full page ↦ finished page
        | passed r' ↦ scan_batch opts x.key r' xs
        | grouped g r' ↦ paused (g ++ highest_rune) r'
      ])
  step-Progress r n x xs (full page) k rest = k
  step-Progress r n x xs (passed r') k rest =
      Progress-weaken r r' n (scan_batch opts x.key r' xs) k.0 (rest r' k.1)
  step-Progress r n x xs (grouped g r') k rest = (omega arith, k.1, inl k.0)

  scan_batch-Progress :
      (x : Object) (xs : List Object) (cursor : Bytes) (r : ListResult) (n : ℕ)
      → all (λ (y : Object). ltb (remaining y.key) n) (x ∷ xs) ≡ true
      → count r ≤ page_size opts.max_keys
      → Progress r n (scan_batch opts cursor r (x ∷ xs))
  unfolding scan_batch
  scan_batch-Progress x [] cursor r n a h =
      step-Progress r n x [] (scan_key opts r x) (scan_key-KeyProgress r x h)
        (λ r' k. (omega arith, k, inr (ltb→lt (remaining x.key) n (ground arith))))
  scan_batch-Progress x (y ∷ ys) cursor r n a h =
      step-Progress r n x (y ∷ ys) (scan_key opts r x) (scan_key-KeyProgress r x h)
        (λ r' k. scan_batch-Progress y ys x.key r' n (ground arith) k)

  abbrev RoundProgress : ListResult → ℕ → Round → Type 0
  RoundProgress r n (failed e) = Unit
  RoundProgress r n (returned page) = count page ≤ page_size opts.max_keys
  RoundProgress r n (continued cursor r') =
      (count r ≤ count r')
      × (count r' ≤ page_size opts.max_keys)
      × ((count r < count r') ⊎ (remaining cursor < n))

  settle-count :
      (next : List Object) (cursor : Bytes) (r : ListResult)
      → count (settle next cursor r) ≡ count r
  unfolding settle truncated
  settle-count [] cursor r = refl
  settle-count (o ∷ os) cursor r = refl

  settled-RoundProgress :
      (r r' : ListResult) (n : ℕ) (cursor : Bytes) (next : Result ListError (List Object))
      → count r' ≤ page_size opts.max_keys
      → RoundProgress r n (settled next cursor r')
  settled-RoundProgress r r' n cursor (err e) k = tt
  settled-RoundProgress r r' n cursor (ok next) k = omega (arith, settle-count next cursor r', k)

  after_scan-Progress :
      (r : ListResult) (n m : ℕ) (s : Scan)
      → Progress r n s
      → RoundProgress r n (after_scan accepts db bucket opts m s)
  unfolding after_scan
  after_scan-Progress r n m (finished page) k = k
  after_scan-Progress r n m (paused cursor r') k =
      elim (Bool-cases (leb (page_size opts.max_keys) (count r'))) [
        | inl e ↦ rw e (
            settled-RoundProgress r r' n cursor
              (fetch_key_batch accepts db bucket opts.prefix cursor 1) k.1)
        | inr e ↦ elim (Bool-cases (ltb m 1000 && not (has_suffix cursor highest_rune))) [
          | inl f ↦ rw (e, f) k.1
          | inr f ↦ rw (e, f) k
        ]
      ]

  batch_progress :
      (cursor : Bytes) (r : ListResult) (batch : List Object)
      → all (λ (y : Object). ltb (remaining y.key) (remaining cursor)) batch ≡ true
      → count r ≤ page_size opts.max_keys
      → RoundProgress r (remaining cursor) (after_batch accepts db bucket opts cursor r (ok batch))
  unfolding after_batch
  batch_progress cursor r [] a h = h
  batch_progress cursor r (x ∷ xs) a h =
      after_scan-Progress r (remaining cursor) (length (x ∷ xs)) (scan_batch opts cursor r (x ∷ xs))
        (scan_batch-Progress x xs cursor r (remaining cursor) a h)

  -- The work that is left: the room on the page, each entry with a run through the rows.
  work : Bytes → ListResult → ℕ
  work cursor r =
      (page_size opts.max_keys - count r) * suc (length (listed_rows db)) + remaining cursor

  work_falls :
      (cursor cursor' : Bytes) (r r' : ListResult)
      → count r ≤ count r'
      → count r' ≤ page_size opts.max_keys
      → (count r < count r') ⊎ (remaining cursor' < remaining cursor)
      → work cursor' r' < work cursor r
  unfolding work remaining
  work_falls cursor cursor' r r' h k (inl p) =
      slot_used (page_size opts.max_keys) (count r) (count r') (length (listed_rows db))
        (remaining cursor) (remaining cursor') p k
        (keep-le-length (selected bucket opts.prefix cursor') (listed_rows db))
  work_falls cursor cursor' r r' h k (inr p) =
      row_passed (page_size opts.max_keys) (count r) (count r') (length (listed_rows db))
        (remaining cursor) (remaining cursor') h p

  abbrev Within : Result ListError ListResult → Type 0
  Within (err e) = Unit
  Within (ok page) = count page ≤ page_size opts.max_keys

  abbrev Bounded : Option (Result ListError ListResult) → Type 0
  Bounded o = (outcome : Result ListError ListResult) × (o ≡ some outcome) × Within outcome

  next_round :
      (fuel : ℕ) (r : ListResult) (n : ℕ) (round : Round)
      → ((c : Bytes) (s : ListResult)
          → count r ≤ count s
          → count s ≤ page_size opts.max_keys
          → (count r < count s) ⊎ (remaining c < n)
          → Bounded (list_loop accepts db bucket opts fuel c s))
      → RoundProgress r n round
      → Bounded (elim round [
        | failed e ↦ some (err e)
        | returned p ↦ some (ok p)
        | continued c s ↦ list_loop accepts db bucket opts fuel c s
      ])
  next_round fuel r n (failed e) rest k = (err e, refl, tt)
  next_round fuel r n (returned p) rest k = (ok p, refl, k)
  next_round fuel r n (continued c s) rest (a, b, p) = rest c s a b p

  fetched_progress :
      (cursor : Bytes) (r : ListResult)
      → count r ≤ page_size opts.max_keys
      → RoundProgress r (remaining cursor) (
          after_batch accepts db bucket opts cursor r
            (fetch_key_batch accepts db bucket opts.prefix cursor 1000))
  unfolding fetch_key_batch after_batch
  fetched_progress cursor r h = elim (Bool-cases (accepted_range accepts opts.prefix cursor)) [
    | inr e ↦ rw e tt
    | inl e ↦ rw e (
        batch_progress cursor r (take 1000 (rows db bucket opts.prefix cursor))
          (all-take (λ (y : Object). ltb (remaining y.key) (remaining cursor)) 1000
            (rows db bucket opts.prefix cursor)
            (rows-all db bucket opts.prefix cursor (λ y. ltb (remaining y.key) (remaining cursor))
              (λ y m e. remaining_lt cursor y m e)))
          h)
  ]

  list_loop_ends :
      (fuel : ℕ) (cursor : Bytes) (r : ListResult)
      → count r ≤ page_size opts.max_keys
      → work cursor r < fuel
      → Bounded (list_loop accepts db bucket opts fuel cursor r)
  unfolding list_loop fetch_key_batch
  list_loop_ends zero cursor r h l = absurd (omega arith)
  list_loop_ends (suc fuel) cursor r h l =
      next_round fuel r (remaining cursor)
        (after_batch accepts db bucket opts cursor r
          (fetch_key_batch accepts db bucket opts.prefix cursor 1000))
        (λ c s a b p. list_loop_ends fuel c s b (omega (arith, work_falls cursor c r s a b p)))
        (fetched_progress cursor r h)

-- ListObjects ends, whatever the rows, the options and the texts that the database takes: with an
-- error of the database, or with a page. The page has no more objects and common prefixes together
-- than its size, which is max-keys from 1 to 1000 and otherwise 1000.
pub list_objects_ends :
    (accepts : Bytes → Bool) (bucket : Bytes) (opts : ListOptions) (db : Tables)
    → (list_objects accepts bucket opts db ≡ some (err refused_text))
      ⊎ ((page : ListResult) × (list_objects accepts bucket opts db ≡ some (ok page))
          × (length page.objects + length page.common_prefixes ≤ page_size opts.max_keys))
unfolding list_objects work remaining
list_objects_ends accepts bucket opts db = outcome (
    list_loop_ends accepts db bucket opts (suc (suc (length db.objects) * 1001)) opts.start_after
      empty_page (omega arith)
      (rw (sym (length-listed db.objects)) (
        enough (page_size opts.max_keys) (length (listed_rows db))
          (remaining accepts db bucket opts opts.start_after) (page_size_bounds opts.max_keys).1
          (keep-le-length (selected bucket opts.prefix opts.start_after) (listed_rows db)))))
  where
    outcome :
        Bounded accepts db bucket opts (
          list_loop accepts db bucket opts
            (suc (suc (length db.objects) * 1001))
            opts.start_after
            empty_page)
        → (list_objects accepts bucket opts db ≡ some (err refused_text))
          ⊎ ((page : ListResult) × (list_objects accepts bucket opts db ≡ some (ok page))
              × (length page.objects + length page.common_prefixes ≤ page_size opts.max_keys))
    outcome (err refused_text, e, k) = inl e
    outcome (ok page, e, k) = inr (page, e, k)
