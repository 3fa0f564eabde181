-- ===== src/Db/Listing/Page.antt =====
-- internal/db/listing.go: what a page of ListObjects shows, and what it leaves to the next one.
use infra_lightwight_s3_serv.Prelude.{
  ℕ, ◌≤◌, leb, Bool, true, false, ◌&&◌, ◌||◌, Bytes, List, [], ◌∷◌, ◌++◌, bytes_eq, bytes_eq_refl,
  bytes_lt, last, has_prefix, has_suffix, has_prefix-append, any, all, length, Option, none, some,
  ◌≡◌, refl, arith, Bool-cases, Option-cases, ◌⊎◌, inl, inr, Memᴰ, head, tail, subst, sym, ◌∙◌,
  leb→le, any-append, all-append,
}
use mathlib.Core.List.{reverse, reverse-append}
use infra_lightwight_s3_serv.Db.Rows.{Object}
use infra_lightwight_s3_serv.Db.Listing.{
  highest_rune, group_of, ListOptions, ListResult, page_size, count, previous_cursor, Step, full,
  passed, grouped, truncated, add_object, add_prefix, seen, scan_key, Scan, finished, paused,
  scan_batch,
}
use infra_lightwight_s3_serv.Db.Listing.Order.{prefix_gap, Ascending, Ascending-mem}
use infra_lightwight_s3_serv.Db.Listing.Groups.{group_of-extend, group_of-has_prefix}

abbrev pub group_shown : Option Bytes → ListResult → Bool
group_shown none r = false
group_shown (some g) r = seen g r

-- The page has the key as an entry, or the group that it rolls up into.
abbrev pub shows : ListOptions → ListResult → Bytes → Bool
shows opts r key =
    any (λ (e : Object). bytes_eq e.key key) r.objects
    || group_shown (group_of key opts.prefix opts.delimiter) r

-- The key stands after all that the page has.
abbrev pub beyond : ListResult → Bytes → Bool
beyond r key =
    all (λ (e : Object). bytes_lt e.key key) r.objects
    && all (λ g. bytes_lt (g ++ highest_rune) key) r.common_prefixes

last-none {ℓ} : {A : Type ℓ} (xs : List A) → last xs ≡ none → length xs ≡ 0
last-none [] h = refl
last-none (x ∷ []) h = absurd (cc)
last-none (x ∷ y ∷ ys) h = absurd (cc (last-none (y ∷ ys) h))

last-all {ℓ} :
    {A : Type ℓ} (p : A → Bool) (xs : List A) (x : A)
    → all p xs ≡ true
    → last xs ≡ some x
    → p x ≡ true
last-all p [] x h e = absurd (cc)
last-all p (y ∷ []) x h e = ground arith
last-all p (y ∷ z ∷ zs) x h e = last-all p (z ∷ zs) x (ground arith) e

-- The cursor of a page that is not empty stands before all that it left.
previous_cursor-beyond :
    (r : ListResult) (u key : Bytes)
    → 1 ≤ count r
    → beyond r key ≡ true
    → bytes_lt (previous_cursor r u) key ≡ true
unfolding previous_cursor
previous_cursor-beyond r u key h b = elim (Option-cases (last r.objects)) [
  | inl e ↦ elim (Option-cases (last r.common_prefixes)) [
    | inl f ↦ absurd (omega (arith, last-none r.objects e, last-none r.common_prefixes f))
    | inr (g, f) ↦
        rw (e, f, previous_cursor)
          (last-all (λ g. bytes_lt (g ++ highest_rune) key) r.common_prefixes g (ground arith) f)
  ]
  | inr (o, e) ↦
      let at_object = last-all (λ (x : Object). bytes_lt x.key key) r.objects o (ground arith) e in
      elim (Option-cases (last r.common_prefixes)) [
        | inl f ↦ rw (e, f, previous_cursor) at_object
        | inr (g, f) ↦
            rw (e, f, previous_cursor)
              (ground (
                arith,
                at_object,
                last-all (λ g. bytes_lt (g ++ highest_rune) key) r.common_prefixes g (ground arith)
                    f,
              ))
      ]
]

pub page_size_bounds : (n : ℕ) → (1 ≤ page_size n) × (page_size n ≤ 1000)
unfolding page_size
page_size_bounds n = ground arith

has_suffix-append : (s p : Bytes) → has_suffix (s ++ p) p ≡ true
unfolding has_suffix
has_suffix-append s p = rw (reverse-append s p) (has_prefix-append (reverse p) (reverse s))

module _ (opts : ListOptions) where
  -- A row is shown, or it is still to come and stands after all that is shown.
  abbrev pub Left : ListResult → List Object → Object → Type 0
  Left r zs o = (shows opts r o.key ≡ true) ⊎ (Memᴰ o zs × (beyond r o.key ≡ true))

  abbrev pub After : ListResult → Bytes → Object → Type 0
  After r cursor o =
      (shows opts r o.key ≡ true) ⊎ ((bytes_lt cursor o.key ≡ true) × (beyond r o.key ≡ true))

  abbrev pub Ended : ListResult → Object → Type 0
  Ended page o =
      (shows opts page o.key ≡ true)
      ⊎ ((page.is_truncated ≡ true) × (bytes_lt page.next_start_after o.key ≡ true))

  abbrev pub KeyScanned : List Object → Object → Step → Type 0
  KeyScanned zs o (full page) = Ended page o
  KeyScanned zs o (passed r) = Left r zs o
  KeyScanned zs o (grouped g r) = After r (g ++ highest_rune) o

  -- A batch that stopped at no group was read to its end.
  abbrev pub Scanned : List Object → Object → Scan → Type 0
  Scanned zs o (finished page) = Ended page o
  Scanned zs o (paused cursor r) =
      After r cursor o × (has_suffix cursor highest_rune ≡ false → Left r zs o)

  seen_grows : (g h : Bytes) (r : ListResult) → seen g r ≡ true → seen g (add_prefix h r) ≡ true
  seen_grows g h r s = ground (arith, any-append (bytes_eq g) r.common_prefixes (h ∷ []))

  shows-add_prefix :
      (g : Bytes) (r : ListResult) (key : Bytes)
      → shows opts r key ≡ true
      → shows opts (add_prefix g r) key ≡ true
  unfolding shows group_shown
  shows-add_prefix g r key h = elim (Option-cases (group_of key opts.prefix opts.delimiter)) [
    | inl e ↦ rw e (rw e at h)
    | inr (k, e) ↦ rw e (ground (arith, (rw e at h), seen_grows k g r))
  ]

  shows-add_object :
      (x : Object) (r : ListResult) (key : Bytes)
      → shows opts r key ≡ true
      → shows opts (add_object x r) key ≡ true
  unfolding shows group_shown
  shows-add_object x r key h = elim (Option-cases (group_of key opts.prefix opts.delimiter)) [
    | inl e ↦ rw e (
        ground
          (arith, (rw e at h), any-append (λ (e : Object). bytes_eq e.key key) r.objects (x ∷ [])))
    | inr (k, e) ↦ rw e (
        ground
          (arith, (rw e at h), any-append (λ (e : Object). bytes_eq e.key key) r.objects (x ∷ [])))
  ]

  seen_added : (g : Bytes) (r : ListResult) → seen g (add_prefix g r) ≡ true
  seen_added g r =
      ground (arith, any-append (bytes_eq g) r.common_prefixes (g ∷ []), bytes_eq_refl g)

  shows_group :
      (g : Bytes) (r : ListResult) (key : Bytes)
      → group_of key opts.prefix opts.delimiter ≡ some g
      → seen g r ≡ true
      → shows opts r key ≡ true
  unfolding shows group_shown
  shows_group g r key e h = rw e (ground (arith, h))

  shows_added : (x : Object) (r : ListResult) → shows opts (add_object x r) x.key ≡ true
  unfolding shows group_shown
  shows_added x r = ground (
    arith,
    any-append (λ (e : Object). bytes_eq e.key x.key) r.objects (x ∷ []),
    bytes_eq_refl x.key,
  )

  beyond-add_object :
      (x : Object) (r : ListResult) (key : Bytes)
      → beyond r key ≡ true
      → bytes_lt x.key key ≡ true
      → beyond (add_object x r) key ≡ true
  unfolding beyond
  beyond-add_object x r key h l =
      ground (arith, all-append (λ (e : Object). bytes_lt e.key key) r.objects (x ∷ []))

  beyond-add_prefix :
      (g : Bytes) (r : ListResult) (key : Bytes)
      → beyond r key ≡ true
      → bytes_lt (g ++ highest_rune) key ≡ true
      → beyond (add_prefix g r) key ≡ true
  unfolding beyond
  beyond-add_prefix g r key h l =
      ground (arith, all-append (λ g. bytes_lt (g ++ highest_rune) key) r.common_prefixes (g ∷ []))

  pub shows-truncated :
      (c : Bytes) (r : ListResult) (key : Bytes) → shows opts (truncated c r) key ≡ shows opts r key
  unfolding shows group_shown truncated
  shows-truncated c r key = elim (Option-cases (group_of key opts.prefix opts.delimiter)) [
    | inl e ↦ rw e refl
    | inr (g, e) ↦ rw e refl
  ]

  -- A full page: what it leaves stands after its cursor.
  full-Left :
      (r : ListResult) (u : Bytes) (zs : List Object) (o : Object)
      → leb (page_size opts.max_keys) (count r) ≡ true
      → Left r zs o
      → Ended (truncated (previous_cursor r u) r) o
  unfolding truncated Left Ended
  full-Left r u zs o h (inl k) = inl (shows-truncated (previous_cursor r u) r o.key ∙ k)
  full-Left r u zs o h (inr (m, b)) = inr (
    refl,
    previous_cursor-beyond r u o.key
        (omega
          (arith, page_size_bounds opts.max_keys, leb→le (page_size opts.max_keys) (count r) h))
        b,
  )

  module _ (x : Object) (zs : List Object) (ascending : Ascending x.key zs) (o : Object) where
    passed_seen :
        (r : ListResult) (g : Bytes)
        → group_of x.key opts.prefix opts.delimiter ≡ some g
        → seen g r ≡ true
        → Left r (x ∷ zs) o
        → Left r zs o
    unfolding Left
    passed_seen r g e h (inl k) = inl k
    passed_seen r g e h (inr (head q, b)) = inl (
        shows_group g r o.key
          (subst (λ (y : Object). group_of y.key opts.prefix opts.delimiter ≡ some g) (sym q) e) h)
    passed_seen r g e h (inr (tail m, b)) = inr (m, b)

    passed_object : (r : ListResult) → Left r (x ∷ zs) o → Left (add_object x r) zs o
    unfolding Left
    passed_object r (inl k) = inl (shows-add_object x r o.key k)
    passed_object r (inr (head q, b)) =
        inl (
          subst (λ (y : Object). shows opts (add_object x r) y.key ≡ true) (sym q)
            (shows_added x r))
    passed_object r (inr (tail m, b)) =
        inr (m, beyond-add_object x r o.key b (Ascending-mem x.key zs o ascending m))

    grouped_new :
        (r : ListResult) (g : Bytes)
        → has_prefix x.key opts.prefix ≡ true
        → has_prefix x.key g ≡ true
        → group_of x.key opts.prefix opts.delimiter ≡ some g
        → Left r (x ∷ zs) o
        → After (add_prefix g r) (g ++ highest_rune) o
    unfolding Left After
    grouped_new r g p pg e (inl k) = inl (shows-add_prefix g r o.key k)
    grouped_new r g p pg e (inr (head q, b)) = inl (
        shows_group g (add_prefix g r) o.key
          (subst (λ (y : Object). group_of y.key opts.prefix opts.delimiter ≡ some g) (sym q) e)
          (seen_added g r))
    grouped_new r g p pg e (inr (tail m, b)) = elim (Bool-cases (has_prefix o.key g)) [
      | inl k ↦ inl (
          shows_group g (add_prefix g r) o.key
            (group_of-extend x.key o.key opts.prefix opts.delimiter g p e k) (seen_added g r))
      | inr k ↦
          let l =
            prefix_gap g x.key o.key highest_rune pg (Ascending-mem x.key zs o ascending m) k in
          inr (l, beyond-add_prefix g r o.key b l)
    ]

    scan_key-Left :
        (r : ListResult)
        → has_prefix x.key opts.prefix ≡ true
        → Left r (x ∷ zs) o
        → KeyScanned zs o (scan_key opts r x)
    unfolding scan_key
    scan_key-Left r p l = elim (Option-cases (group_of x.key opts.prefix opts.delimiter)) [
      | inl e ↦ elim (Bool-cases (leb (page_size opts.max_keys) (count r))) [
        | inl f ↦ rw (e, f, scan_key) (full-Left r x.key (x ∷ zs) o f l)
        | inr f ↦ rw (e, f, scan_key) (passed_object r l)
      ]
      | inr (g, e) ↦ elim (Bool-cases (seen g r)) [
        | inl h ↦ rw (e, h, scan_key) (passed_seen r g e h l)
        | inr h ↦ elim (Bool-cases (leb (page_size opts.max_keys) (count r))) [
          | inl f ↦ rw (e, h, f, scan_key) (full-Left r x.key (x ∷ zs) o f l)
          | inr f ↦
              rw (e, h, f, scan_key)
                (grouped_new r g p (group_of-has_prefix x.key opts.prefix opts.delimiter g p e) e l)
        ]
      ]
    ]

  -- The rest of a batch, after what was done at its first key.
  Scanned-rest :
      (x : Object) (xs zs : List Object) (o : Object) (step : Step)
      → ((r : ListResult) → Left r (xs ++ zs) o → Scanned zs o (scan_batch opts x.key r xs))
      → KeyScanned (xs ++ zs) o step
      → Scanned zs o (elim step [
        | full page ↦ finished page
        | passed r ↦ scan_batch opts x.key r xs
        | grouped g r ↦ paused (g ++ highest_rune) r
      ])
  Scanned-rest x xs zs o (full page) rest k = k
  Scanned-rest x xs zs o (passed r) rest k = rest r k
  Scanned-rest x xs zs o (grouped g r) rest k =
      (k, λ h. absurd (cc (h, has_suffix-append g highest_rune)))

  pub scan_batch-Left :
      (xs zs : List Object) (cursor : Bytes) (r : ListResult) (o : Object)
      → Ascending cursor (xs ++ zs)
      → all (λ (x : Object). has_prefix x.key opts.prefix) xs ≡ true
      → Left r (xs ++ zs) o
      → Scanned zs o (scan_batch opts cursor r xs)
  unfolding scan_batch Left After
  scan_batch-Left [] zs cursor r o a p (inl k) = (inl k, λ _. inl k)
  scan_batch-Left [] zs cursor r o a p (inr (m, b)) =
      (inr (Ascending-mem cursor zs o a m, b), λ _. inr (m, b))
  scan_batch-Left (x ∷ xs) zs cursor r o a p l =
      Scanned-rest x xs zs o (scan_key opts r x)
        (λ r' l'. scan_batch-Left xs zs x.key r' o a.1 (ground arith) l')
        (scan_key-Left x (xs ++ zs) a.1 o r (ground arith) l)
