-- ===== src/Db/Listing/Coverage.antt =====
-- internal/db/listing.go: the rows that ListObjects shows, and those that it leaves to the next page.
use infra_lightwight_s3_serv.Prelude.{
  ℕ, suc, zero, ◌<◌, ltb, leb, Bool, true, not, ◌&&◌, ◌||◌, Bytes, List, [], ◌∷◌, ◌++◌, has_prefix,
  has_suffix, all, any, take, drop, length, some, ok, err, ◌≡◌, refl, arith, Bool-cases, ◌⊎◌, inl,
  inr, Memᴰ, not-nil, subst, sym, ◌∙◌, take-drop, all-append, bytes_eq, bytes_lt, bytes_eq_iff,
  all_mem, ◌*◌,
}
use infra_lightwight_s3_serv.Db.Rows.{Object, Tables}
use infra_lightwight_s3_serv.Db.Listing.{
  highest_rune, selected, fetch_key_batch, ListOptions, ListResult, page_size, count, Scan,
  finished, paused, scan_batch, settle, settled, accepted_range, listed_row, listed_rows, Round,
  failed, returned, continued, after_scan, after_batch, list_loop, empty_page, list_objects,
}
use infra_lightwight_s3_serv.Db.Listing.Range.{selected-has_prefix}
use infra_lightwight_s3_serv.Db.Listing.Order.{
  Ascending, rows, rows-Ascending, rows-all, mem-rows, OneRow, listed-OneRow, mem-listed,
  all-listed, selected_after,
}
use infra_lightwight_s3_serv.Db.Listing.Page.{
  shows, Left, After, Ended, Scanned, scan_batch-Left, shows-truncated,
}

take-nil {ℓ} : {A : Type ℓ} (n : ℕ) (xs : List A) → take (suc n) xs ≡ [] → xs ≡ []
take-nil n [] h = refl
take-nil n (x ∷ xs) h = absurd (cc)

drop_short {ℓ} : {A : Type ℓ} (n : ℕ) (xs : List A) → length (take n xs) < n → drop n xs ≡ []
drop_short zero xs h = absurd (omega arith)
drop_short (suc n) [] h = refl
drop_short (suc n) (x ∷ xs) h = drop_short n xs (omega arith)

all_front {ℓ} :
    {A : Type ℓ} (p : A → Bool) (xs ys : List A) → all p (xs ++ ys) ≡ true → all p xs ≡ true
all_front p xs ys h = ground (arith, all-append p xs ys)

module _ (accepts : Bytes → Bool) (opts : ListOptions) (bucket : Bytes) (db : Tables)
    (unique : OneRow (listed_rows db))
    (prefixed : (c : Bytes) (o : Object)
      → Memᴰ o (listed_rows db)
      → selected bucket opts.prefix c o ≡ true
      → has_prefix o.key opts.prefix ≡ true)
    (o : Object) (present : Memᴰ o (listed_rows db))
    (in_scope : selected bucket opts.prefix opts.start_after o ≡ true) where
  -- What is left after a cursor is in the rows of the next batch.
  in_rows :
      (cursor : Bytes) → bytes_lt cursor o.key ≡ true → Memᴰ o (rows db bucket opts.prefix cursor)
  in_rows cursor h =
      mem-rows db bucket opts.prefix cursor o present
        (selected_after bucket opts.prefix opts.start_after cursor o in_scope h)

  none_after :
      (n : ℕ) (cursor : Bytes)
      → take (suc n) (rows db bucket opts.prefix cursor) ≡ []
      → bytes_lt cursor o.key ≡ true
      → ⊥
  none_after n cursor e h =
      not-nil (subst (Memᴰ o) (take-nil n (rows db bucket opts.prefix cursor) e) (in_rows cursor h))

  settle-Ended :
      (r : ListResult) (cursor : Bytes) (next : List Object)
      → take 1 (rows db bucket opts.prefix cursor) ≡ next
      → After opts r cursor o
      → Ended opts (settle next cursor r) o
  unfolding settle
  settle-Ended r cursor [] e (inl k) = inl k
  settle-Ended r cursor [] e (inr (l, b)) = absurd (none_after 0 cursor e l)
  settle-Ended r cursor (p ∷ ps) e (inl k) = inl (shows-truncated opts cursor r o.key ∙ k)
  settle-Ended r cursor (p ∷ ps) e (inr (l, b)) = inr (refl, l)

  abbrev Continues : Round → Type 0
  Continues (failed e) = Unit
  Continues (returned page) = Ended opts page o
  Continues (continued cursor r) = After opts r cursor o

  settled-Continues :
      (r : ListResult) (cursor : Bytes)
      → After opts r cursor o
      → Continues (settled (fetch_key_batch accepts db bucket opts.prefix cursor 1) cursor r)
  unfolding fetch_key_batch
  settled-Continues r cursor k = elim (Bool-cases (accepted_range accepts opts.prefix cursor)) [
    | inr e ↦ rw e tt
    | inl e ↦ rw e (settle-Ended r cursor (take 1 (rows db bucket opts.prefix cursor)) refl k)
  ]

  after_scan-Scanned :
      (n : ℕ) (zs : List Object) (s : Scan)
      → (n < 1000 → zs ≡ [])
      → Scanned opts zs o s
      → Continues (after_scan accepts db bucket opts n s)
  unfolding after_scan
  after_scan-Scanned n zs (finished page) short k = k
  after_scan-Scanned n zs (paused cursor r) short (k, rest) =
      elim (Bool-cases (leb (page_size opts.max_keys) (count r))) [
        | inl e ↦ rw e (settled-Continues r cursor k)
        | inr e ↦ elim (Bool-cases (ltb n 1000 && not (has_suffix cursor highest_rune))) [
          | inr f ↦ rw (e, f) k
          | inl f ↦
              rw (e, f)
                (elim (rest (ground arith)) [
                  | inl j ↦ inl j
                  | inr m ↦ absurd (not-nil (subst (Memᴰ o) (short (ground arith)) m.0))
                ])
        ]
      ]

  batch_read :
      (cursor : Bytes) (r : ListResult) (batch zs : List Object)
      → take 1000 (rows db bucket opts.prefix cursor) ≡ batch
      → batch ++ zs ≡ rows db bucket opts.prefix cursor
      → (length batch < 1000 → zs ≡ [])
      → After opts r cursor o
      → Continues (after_batch accepts db bucket opts cursor r (ok batch))
  unfolding after_batch
  batch_read cursor r [] zs e split short (inl k) = inl k
  batch_read cursor r [] zs e split short (inr (l, b)) = absurd (none_after 999 cursor e l)
  batch_read cursor r (x ∷ xs) zs e split short k =
      after_scan-Scanned (length (x ∷ xs)) zs (scan_batch opts cursor r (x ∷ xs)) short (
        scan_batch-Left opts (x ∷ xs) zs cursor r o
          (subst (Ascending cursor) (sym split)
            (rows-Ascending db bucket opts.prefix cursor unique))
          (all_front (λ (y : Object). has_prefix y.key opts.prefix) (x ∷ xs) zs
            (subst (λ ys. all (λ (y : Object). has_prefix y.key opts.prefix) ys ≡ true) (sym split)
              (rows-all db bucket opts.prefix cursor (λ y. has_prefix y.key opts.prefix)
                (prefixed cursor))))
          (starting cursor r (x ∷ xs ++ zs) split k))
    where
      starting :
          (cursor : Bytes) (r : ListResult) (ys : List Object)
          → ys ≡ rows db bucket opts.prefix cursor
          → After opts r cursor o
          → Left opts r ys o
      starting cursor r ys split (inl k) = inl k
      starting cursor r ys split (inr (l, b)) =
          inr (subst (Memᴰ o) (sym split) (in_rows cursor l), b)

  looped :
      (fuel : ℕ) (round : Round) (page : ListResult)
      → ((c : Bytes) (s : ListResult)
          → After opts s c o
          → list_loop accepts db bucket opts fuel c s ≡ some (ok page)
          → Ended opts page o)
      → Continues round
      → elim round [
        | failed e ↦ some (err e)
        | returned p ↦ some (ok p)
        | continued c s ↦ list_loop accepts db bucket opts fuel c s
      ]
        ≡ some (ok page)
      → Ended opts page o
  looped fuel (failed e) page rest k h = absurd (cc)
  looped fuel (returned p) page rest k h = subst (λ q. Ended opts q o) (cc) k
  looped fuel (continued c s) page rest k h = rest c s k h

  fetched :
      (cursor : Bytes) (r : ListResult)
      → After opts r cursor o
      → Continues (
          after_batch accepts db bucket opts cursor r
            (fetch_key_batch accepts db bucket opts.prefix cursor 1000))
  unfolding fetch_key_batch after_batch
  fetched cursor r k = elim (Bool-cases (accepted_range accepts opts.prefix cursor)) [
    | inr e ↦ rw e tt
    | inl e ↦
        let all_rows = rows db bucket opts.prefix cursor in
        rw e (
          batch_read cursor r (take 1000 all_rows) (drop 1000 all_rows) refl
            (take-drop 1000 all_rows) (drop_short 1000 all_rows) k)
  ]

  list_loop-Ended :
      (fuel : ℕ) (cursor : Bytes) (r page : ListResult)
      → After opts r cursor o
      → list_loop accepts db bucket opts fuel cursor r ≡ some (ok page)
      → Ended opts page o
  unfolding list_loop fetch_key_batch
  list_loop-Ended zero cursor r page k h = absurd (cc)
  list_loop-Ended (suc fuel) cursor r page k h =
      looped fuel
        (after_batch accepts db bucket opts cursor r
          (fetch_key_batch accepts db bucket opts.prefix cursor 1000))
        page (λ c s j f. list_loop-Ended fuel c s page j f) (fetched cursor r k) h

unprefixed : (s : Bytes) → bytes_eq s [] ≡ true → s ≡ []
unprefixed s h = (bytes_eq_iff s []).0 h

-- The range of a batch is the keys with the prefix; an empty prefix asks nothing.
in_scope_iff :
    (bucket prefix after : Bytes) (o : Object)
    → (bytes_eq prefix [] || any (λ c. ltb c 255) prefix) ≡ true
    → all (λ c. ltb c 256) o.key ≡ true
    → selected bucket prefix after o
      ≡ (bytes_eq o.bucket_id bucket && bytes_lt after o.key && has_prefix o.key prefix)
unfolding selected has_prefix bytes_eq
in_scope_iff bucket [] after o h k = ground arith
in_scope_iff bucket (c ∷ s) after o h k = selected-has_prefix bucket (c ∷ s) after o h k

-- A page shows each row of the bucket that has the prefix and a key after start-after, itself or by
-- its common prefix, unless the page is truncated and its cursor stands before the row. This is for a
-- table with one row for a key, with keys of bytes, and a prefix that is empty or has a byte below 255.
pub list_objects_covers :
    (accepts : Bytes → Bool) (bucket : Bytes) (opts : ListOptions) (db : Tables) (page : ListResult)
    (o : Object)
    → OneRow db.objects
    → all (λ (x : Object). all (λ c. ltb c 256) x.key) db.objects ≡ true
    → (bytes_eq opts.prefix [] || any (λ c. ltb c 255) opts.prefix) ≡ true
    → list_objects accepts bucket opts db ≡ some (ok page)
    → Memᴰ o db.objects
    → (bytes_eq o.bucket_id bucket
        && bytes_lt opts.start_after o.key
        && has_prefix o.key opts.prefix)
      ≡ true
    → (shows opts page o.key ≡ true)
      ⊎ ((page.is_truncated ≡ true) × (bytes_lt page.next_start_after o.key ≡ true))
unfolding list_objects
list_objects_covers accepts bucket opts db page o unique text p h present scope =
    let of_bytes = all_mem o (λ (x : Object). all (λ c. ltb c 256) x.key) db.objects text present in
    let text' = all-listed (λ (x : Object). all (λ c. ltb c 256) x.key) db.objects ∙ text in
    list_loop-Ended accepts opts bucket db (listed-OneRow db.objects unique)
      (λ c x m e. ground (
        arith,
        in_scope_iff bucket opts.prefix c x p
            (all_mem x (λ (y : Object). all (λ c. ltb c 256) y.key) (listed_rows db) text' m),
        e,
      ))
      (listed_row o) (mem-listed o db.objects present)
      (in_scope_iff bucket opts.prefix opts.start_after (listed_row o) p of_bytes ∙ scope)
      (suc (suc (length db.objects) * 1001)) opts.start_after empty_page page
      (inr (ground arith, refl)) h
