-- ===== src/Db/Listing/Order.antt =====
-- internal/db/listing.go: the order of the keys, and the rows of a batch in that order.
use infra_lightwight_s3_serv.Prelude.{
  suc, length, ap, Bool, true, false, not, ◌&&◌, Bytes, List, [], ◌∷◌, ◌++◌, bytes_eq, bytes_eq_iff,
  bytes_lt, has_prefix, keep, any, all, map, ◌≡◌, refl, arith, Bool-cases, inl, inr, Memᴰ, head,
  tail, not-nil, subst, sym, ◌∙◌, mem-keep,
}
use infra_lightwight_s3_serv.Db.Rows.{Object, Tables, at_key}
use infra_lightwight_s3_serv.Db.Listing.{selected, insert_by_key, by_key, listed_row, listed_rows}

pub bytes_lt_irrefl : (a : Bytes) → bytes_lt a a ≡ false
unfolding bytes_lt
bytes_lt_irrefl [] = refl
bytes_lt_irrefl (x ∷ xs) = ground (arith, bytes_lt_irrefl xs)

pub bytes_lt_trans :
    (a b c : Bytes) → bytes_lt a b ≡ true → bytes_lt b c ≡ true → bytes_lt a c ≡ true
unfolding bytes_lt
bytes_lt_trans [] [] [] h k = absurd (cc)
bytes_lt_trans [] (y ∷ ys) [] h k = absurd (cc)
bytes_lt_trans [] b (z ∷ zs) h k = refl
bytes_lt_trans (x ∷ xs) [] c h k = absurd (cc)
bytes_lt_trans (x ∷ xs) (y ∷ ys) [] h k = absurd (cc)
bytes_lt_trans (x ∷ xs) (y ∷ ys) (z ∷ zs) h k = ground (arith, bytes_lt_trans xs ys zs)

-- Keys that differ are in order one way or the other.
pub bytes_lt_flip :
    (a b : Bytes) → bytes_lt a b ≡ false → bytes_eq a b ≡ false → bytes_lt b a ≡ true
unfolding bytes_lt bytes_eq
bytes_lt_flip [] [] h k = absurd (cc)
bytes_lt_flip [] (y ∷ ys) h k = absurd (cc)
bytes_lt_flip (x ∷ xs) [] h k = refl
bytes_lt_flip (x ∷ xs) (y ∷ ys) h k = ground (arith, bytes_lt_flip xs ys)

-- What stands after a string with a prefix and does not have the prefix stands after every string
-- with that prefix.
pub prefix_gap :
    (g k m e : Bytes)
    → has_prefix k g ≡ true
    → bytes_lt k m ≡ true
    → has_prefix m g ≡ false
    → bytes_lt (g ++ e) m ≡ true
unfolding bytes_lt has_prefix
prefix_gap [] k m e h l n = absurd (cc)
prefix_gap (c ∷ g) [] m e h l n = absurd (cc)
prefix_gap (c ∷ g) (x ∷ k) [] e h l n = absurd (cc)
prefix_gap (c ∷ g) (x ∷ k) (y ∷ m) e h l n = ground (arith, prefix_gap g k m e)

-- Rows in the order of their keys, all after a cursor.
abbrev pub Ascending : Bytes → List Object → Type 0
Ascending c [] = Unit
Ascending c (o ∷ os) = (bytes_lt c o.key ≡ true) × Ascending o.key os

Ascending-weaken :
    (b c : Bytes) (os : List Object) → bytes_lt b c ≡ true → Ascending c os → Ascending b os
Ascending-weaken b c [] h a = tt
Ascending-weaken b c (o ∷ os) h a = (bytes_lt_trans b c o.key h a.0, a.1)

pub Ascending-mem :
    (c : Bytes) (os : List Object) (o : Object)
    → Ascending c os
    → Memᴰ o os
    → bytes_lt c o.key ≡ true
Ascending-mem c [] o a m = absurd (not-nil m)
Ascending-mem c (p ∷ ps) o a (head e) = subst (λ (x : Object). bytes_lt c x.key ≡ true) (sym e) a.0
Ascending-mem c (p ∷ ps) o a (tail m) =
    bytes_lt_trans c p.key o.key a.0 (Ascending-mem p.key ps o a.1 m)

-- No row of the list has the key.
abbrev pub lacks : Bytes → List Object → Bool
lacks k os = not (any (λ (p : Object). bytes_eq p.key k) os)

-- No two rows have one key.
abbrev pub Differ : List Object → Type 0
Differ [] = Unit
Differ (o ∷ os) = (lacks o.key os ≡ true) × Differ os

insert_by_key-Ascending :
    (c : Bytes) (o : Object) (os : List Object)
    → bytes_lt c o.key ≡ true
    → lacks o.key os ≡ true
    → Ascending c os
    → Ascending c (insert_by_key o os)
unfolding insert_by_key
insert_by_key-Ascending c o [] h l a = (h, tt)
insert_by_key-Ascending c o (p ∷ ps) h l a = elim (Bool-cases (bytes_lt p.key o.key)) [
  | inl e ↦ rw e (a.0, insert_by_key-Ascending p.key o ps e (ground arith) a.1)
  | inr e ↦ rw e (h, (bytes_lt_flip p.key o.key e (ground arith), a.1))
]

lacks-insert_by_key :
    (k : Bytes) (o : Object) (os : List Object)
    → lacks k (insert_by_key o os) ≡ (not (bytes_eq o.key k) && lacks k os)
unfolding insert_by_key
lacks-insert_by_key k o [] = ground arith
lacks-insert_by_key k o (p ∷ ps) = ground (arith, lacks-insert_by_key k o ps)

lacks-by_key : (k : Bytes) (os : List Object) → lacks k (by_key os) ≡ lacks k os
unfolding by_key
lacks-by_key k [] = refl
lacks-by_key k (o ∷ os) = ground (arith, lacks-by_key k os, lacks-insert_by_key k o (by_key os))

mem_front : (a o : Object) (os : List Object) → a ≡ o → Memᴰ a (insert_by_key o os)
unfolding insert_by_key
mem_front a o [] e = head e
mem_front a o (p ∷ ps) e = elim (Bool-cases (bytes_lt p.key o.key)) [
  | inl k ↦ rw k (tail (mem_front a o ps e))
  | inr k ↦ rw k (head e)
]

mem_behind : (a o : Object) (os : List Object) → Memᴰ a os → Memᴰ a (insert_by_key o os)
unfolding insert_by_key
mem_behind a o [] m = absurd (not-nil m)
mem_behind a o (p ∷ ps) (head e) = elim (Bool-cases (bytes_lt p.key o.key)) [
  | inl k ↦ rw k (head e)
  | inr k ↦ rw k (tail (head e))
]
mem_behind a o (p ∷ ps) (tail m) = elim (Bool-cases (bytes_lt p.key o.key)) [
  | inl k ↦ rw k (tail (mem_behind a o ps m))
  | inr k ↦ rw k (tail (tail m))
]

mem-by_key : (a : Object) (os : List Object) → Memᴰ a os → Memᴰ a (by_key os)
unfolding by_key
mem-by_key a [] m = m
mem-by_key a (o ∷ os) (head e) = mem_front a o (by_key os) e
mem-by_key a (o ∷ os) (tail m) = mem_behind a o (by_key os) (mem-by_key a os m)

by_key-Ascending :
    (c : Bytes) (os : List Object)
    → all (λ (o : Object). bytes_lt c o.key) os ≡ true
    → Differ os
    → Ascending c (by_key os)
unfolding by_key
by_key-Ascending c [] h d = tt
by_key-Ascending c (o ∷ os) h d =
    insert_by_key-Ascending c o (by_key os) (ground arith) (lacks-by_key o.key os ∙ d.0)
      (by_key-Ascending c os (ground arith) d.1)

-- The rows of a table have one row for a key of a bucket, as its unique constraint says.
abbrev pub OneRow : List Object → Type 0
OneRow [] = Unit
OneRow (o ∷ os) = (any (at_key o.bucket_id o.key) os ≡ false) × OneRow os

-- What a batch draws from.
abbrev pub rows : Tables → Bytes → Bytes → Bytes → List Object
rows db bucket prefix cursor = by_key (keep (selected bucket prefix cursor) (listed_rows db))

at_key-listed :
    (bucket key : Bytes) (os : List Object)
    → any (at_key bucket key) (map listed_row os) ≡ any (at_key bucket key) os
at_key-listed bucket key [] = refl
at_key-listed bucket key (o ∷ os) = ground (arith, at_key-listed bucket key os)

pub listed-OneRow : (os : List Object) → OneRow os → OneRow (map listed_row os)
listed-OneRow [] u = tt
listed-OneRow (o ∷ os) u = (at_key-listed o.bucket_id o.key os ∙ u.0, listed-OneRow os u.1)

pub mem-listed :
    (o : Object) (os : List Object) → Memᴰ o os → Memᴰ (listed_row o) (map listed_row os)
mem-listed o [] m = absurd (not-nil m)
mem-listed o (p ∷ ps) (head e) = head (ap listed_row e)
mem-listed o (p ∷ ps) (tail m) = tail (mem-listed o ps m)

pub all-listed :
    (p : Object → Bool) (os : List Object)
    → all p (map listed_row os) ≡ all (λ o. p (listed_row o)) os
all-listed p [] = refl
all-listed p (o ∷ os) = ground (arith, all-listed p os)

pub length-listed : (os : List Object) → length (map listed_row os) ≡ length os
length-listed [] = refl
length-listed (o ∷ os) = ap suc (length-listed os)

lacks-keep :
    (o : Object) (p : Object → Bool) (os : List Object)
    → ((x : Object) → p x ≡ true → bytes_eq x.bucket_id o.bucket_id ≡ true)
    → any (at_key o.bucket_id o.key) os ≡ false
    → lacks o.key (keep p os) ≡ true
lacks-keep o p [] f h = refl
lacks-keep o p (x ∷ xs) f h = ground (arith, f x, lacks-keep o p xs f)

same_bucket :
    (bucket prefix cursor : Bytes) (o x : Object)
    → selected bucket prefix cursor o ≡ true
    → selected bucket prefix cursor x ≡ true
    → bytes_eq x.bucket_id o.bucket_id ≡ true
unfolding selected
same_bucket bucket prefix cursor o x h k =
    let e = (bytes_eq_iff o.bucket_id bucket).0 (ground arith) in rw e (ground arith)

keep-Differ :
    (bucket prefix cursor : Bytes) (os : List Object)
    → OneRow os
    → Differ (keep (selected bucket prefix cursor) os)
keep-Differ bucket prefix cursor [] u = tt
keep-Differ bucket prefix cursor (o ∷ os) u = elim (Bool-cases (selected bucket prefix cursor o)) [
  | inl e ↦ rw e (
    lacks-keep o (selected bucket prefix cursor) os (λ x. same_bucket bucket prefix cursor o x e)
        u.0,
    keep-Differ bucket prefix cursor os u.1,
  )
  | inr e ↦ rw e (keep-Differ bucket prefix cursor os u.1)
]

after_cursor :
    (bucket prefix cursor : Bytes) (os : List Object)
    → all (λ (o : Object). bytes_lt cursor o.key) (keep (selected bucket prefix cursor) os) ≡ true
unfolding selected
after_cursor bucket prefix cursor [] = refl
after_cursor bucket prefix cursor (o ∷ os) = ground (arith, after_cursor bucket prefix cursor os)

-- The rows after a cursor come in the order of their keys, and each of them is there.
pub rows-Ascending :
    (db : Tables) (bucket prefix cursor : Bytes)
    → OneRow (listed_rows db)
    → Ascending cursor (rows db bucket prefix cursor)
rows-Ascending db bucket prefix cursor u =
    by_key-Ascending cursor (keep (selected bucket prefix cursor) (listed_rows db))
      (after_cursor bucket prefix cursor (listed_rows db))
      (keep-Differ bucket prefix cursor (listed_rows db) u)

pub mem-rows :
    (db : Tables) (bucket prefix cursor : Bytes) (o : Object)
    → Memᴰ o (listed_rows db)
    → selected bucket prefix cursor o ≡ true
    → Memᴰ o (rows db bucket prefix cursor)
mem-rows db bucket prefix cursor o m h =
    mem-by_key o (keep (selected bucket prefix cursor) (listed_rows db))
      (mem-keep o (selected bucket prefix cursor) (listed_rows db) m h)

all-insert_by_key :
    (p : Object → Bool) (o : Object) (os : List Object)
    → all p (insert_by_key o os) ≡ (p o && all p os)
unfolding insert_by_key
all-insert_by_key p o [] = refl
all-insert_by_key p o (q ∷ qs) = ground (arith, all-insert_by_key p o qs)

all-by_key : (p : Object → Bool) (os : List Object) → all p (by_key os) ≡ all p os
unfolding by_key
all-by_key p [] = refl
all-by_key p (o ∷ os) = ground (arith, all-insert_by_key p o (by_key os), all-by_key p os)

all_kept :
    (p q : Object → Bool) (os : List Object)
    → ((o : Object) → Memᴰ o os → q o ≡ true → p o ≡ true)
    → all p (keep q os) ≡ true
all_kept p q [] h = refl
all_kept p q (o ∷ os) h = ground (arith, h o (head refl), all_kept p q os (λ x m. h x (tail m)))

-- What holds of the rows that a cursor selects holds of what a batch draws from.
pub rows-all :
    (db : Tables) (bucket prefix cursor : Bytes) (p : Object → Bool)
    → ((o : Object) → Memᴰ o (listed_rows db) → selected bucket prefix cursor o ≡ true → p o ≡ true)
    → all p (rows db bucket prefix cursor) ≡ true
rows-all db bucket prefix cursor p h =
    all-by_key p (keep (selected bucket prefix cursor) (listed_rows db))
    ∙ all_kept p (selected bucket prefix cursor) (listed_rows db) h

-- A row after the cursor is found by the next batch.
pub selected_after :
    (bucket prefix a cursor : Bytes) (o : Object)
    → selected bucket prefix a o ≡ true
    → bytes_lt cursor o.key ≡ true
    → selected bucket prefix cursor o ≡ true
unfolding selected
selected_after bucket prefix a cursor o h k = ground (arith, h, k)
