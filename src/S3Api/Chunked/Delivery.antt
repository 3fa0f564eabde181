-- ===== src/S3Api/Chunked/Delivery.antt =====
-- internal/s3api/chunked.go: what Read delivers of a body in chunks.
use infra_lightwight_s3_serv.Prelude.{
  ℕ, zero, suc, ◌-◌, ◌≤◌, ◌==◌, ltb, Bool, true, false, Bytes, List, [], ◌∷◌, ◌++◌, bytes_eq,
  bytes_eq_iff, take, drop, take-drop, length, append_assoc, Option, none, some, ok, err, ◌≡◌, refl,
  arith, Bool-cases, inl, inr, sym, ap, ◌∙◌, subst,
}
use infra_lightwight_s3_serv.S3Api.Signature.{Hashes}
use infra_lightwight_s3_serv.S3Api.Chunked.{
  Reader, eof, end_of_chunk, expect_crlf, Answer, after_delivery, deliver_pending, deliver_source,
  amount, deliver_remaining, next_chunk, read_loop, read,
}
use infra_lightwight_s3_serv.S3Api.Chunked.Framing.{
  Frames, chained, in_chunk, closed, next_chunk_data, next_chunk_last, next_chunk_cut,
}

-- The data of the chunks, one after another.
abbrev pub joined : List Bytes → Bytes
joined [] = []
joined (b ∷ bs) = b ++ joined bs

module _ {ℓ} {A : Type ℓ} where
  take_some : (n : ℕ) (xs : List A) → 1 ≤ n → 1 ≤ length xs → 1 ≤ length (take n xs)
  take_some zero xs h k = h
  take_some (suc n) [] h k = k
  take_some (suc n) (x ∷ xs) h k = omega arith

  take_within : (n : ℕ) (xs ys : List A) → n ≤ length xs → take n (xs ++ ys) ≡ take n xs
  take_within zero xs ys h = refl
  take_within (suc n) [] ys h = absurd (omega arith)
  take_within (suc n) (x ∷ xs) ys h = ap (◌∷◌ x) (take_within n xs ys (omega arith))

  drop_within : (n : ℕ) (xs ys : List A) → n ≤ length xs → drop n (xs ++ ys) ≡ drop n xs ++ ys
  drop_within zero xs ys h = refl
  drop_within (suc n) [] ys h = absurd (omega arith)
  drop_within (suc n) (x ∷ xs) ys h = drop_within n xs ys (omega arith)

  length-take : (n : ℕ) (xs : List A) → n ≤ length xs → length (take n xs) ≡ n
  length-take zero xs h = refl
  length-take (suc n) [] h = absurd (omega arith)
  length-take (suc n) (x ∷ xs) h = omega (arith, length-take n xs)

  length-drop : (n : ℕ) (xs : List A) → length (drop n xs) ≡ length xs - n
  length-drop zero xs = omega arith
  length-drop (suc n) [] = omega arith
  length-drop (suc n) (x ∷ xs) = omega (arith, length-drop n xs)

  empty : (xs : List A) → length xs ≡ 0 → xs ≡ []
  empty [] h = refl
  empty (x ∷ xs) h = absurd (omega arith)

nonempty : (s : Bytes) → bytes_eq s [] ≡ false → 1 ≤ length s
unfolding bytes_eq
nonempty [] h = absurd (cc)
nonempty (c ∷ s) h = omega arith

filled : (s : Bytes) → 1 ≤ length s → bytes_eq s [] ≡ false
unfolding bytes_eq
filled [] h = absurd (omega arith)
filled (c ∷ s) h = refl

longer : (s t : Bytes) → 1 ≤ length s → bytes_eq (s ++ t) [] ≡ false
unfolding bytes_eq
longer [] t h = absurd (omega arith)
longer (c ∷ s) t h = refl

-- Where the reader stands, with the data that is still to be delivered.
module _ (h : Hashes) (is_cut : Bool) where
  abbrev pub Between : List Bytes → Reader → Type 0
  Between ds c =
      (c.pending ≡ [])
      × (c.remaining ≡ 0)
      × (c.finished ≡ false)
      × (c.error ≡ none)
      × (c.at_chunk_end ≡ false)
      × Frames h is_cut ds c

  -- The reader as it is once the line break after a chunk is consumed.
  abbrev pub past : Reader → Bytes → Reader
  past c rest = record c { src = rest; pending = []; remaining = 0; at_chunk_end = false }

  pub data Holds (c : Reader) (left : Bytes) : Type 0 where
    between : (ds : List Bytes) → Between ds c → left ≡ joined ds → Holds c left
    buffered :
        (rest : Bytes) (ds : List Bytes)
        → 1 ≤ length c.pending
        → c.remaining ≡ 0
        → c.at_chunk_end ≡ true
        → c.error ≡ none
        → c.src ≡ 13 ∷ 10 ∷ rest
        → Between ds (past c rest)
        → left ≡ c.pending ++ joined ds
        → Holds c left
    streaming :
        (bytes rest : Bytes) (ds : List Bytes)
        → 1 ≤ length bytes
        → c.pending ≡ []
        → c.at_chunk_end ≡ true
        → c.error ≡ none
        → c.remaining ≡ length bytes
        → c.src ≡ bytes ++ (13 ∷ 10 ∷ rest)
        → Between ds (past c rest)
        → left ≡ bytes ++ joined ds
        → Holds c left

  pub Holds-error : (c : Reader) (left : Bytes) → Holds c left → c.error ≡ none
  Holds-error c left (between ds b e) = b.3
  Holds-error c left (buffered rest ds n r a g src b e) = g
  Holds-error c left (streaming bytes rest ds n p a g r src b e) = g

  -- An answer delivers the next of the data, or the end of it.
  abbrev pub Delivers : Bytes → Option Answer → Type 0
  Delivers left none = ⊥
  Delivers left (some (c, out, none)) =
      (rest : Bytes) × (left ≡ out ++ rest) × (1 ≤ length out) × Holds c rest
  Delivers left (some (c, out, some e)) = (e ≡ eof) × (out ≡ []) × (left ≡ [])

  module _ (c : Reader) (rest : Bytes) (ds : List Bytes) (ended : c.at_chunk_end ≡ true)
      (fine : c.error ≡ none) (after : Between ds (past c rest)) where
    past_lem :
        (p : Bytes) (n : ℕ)
        → p ≡ []
        → n ≡ 0
        → (let r : Reader = record c {
          src = rest;
          pending = p;
          remaining = n;
          at_chunk_end = false;
        } in
            r)
          ≡ past c rest
    past_lem p n e k =
        ap
          (λ (q : Bytes).
            (let r : Reader = record c {
              src = rest;
              pending = q;
              remaining = n;
              at_chunk_end = false;
            } in
              r))
          e
        ∙ ap
            (λ (m : ℕ).
              (let r : Reader = record c {
                src = rest;
                pending = [];
                remaining = m;
                at_chunk_end = false;
              } in
                r))
            k

    -- A buffered chunk.
    deliver_pending_lem :
        (len : ℕ)
        → 1 ≤ len
        → 1 ≤ length c.pending
        → c.remaining ≡ 0
        → c.src ≡ 13 ∷ 10 ∷ rest
        → Delivers (c.pending ++ joined ds) (some (deliver_pending len c))
    unfolding deliver_pending after_delivery end_of_chunk expect_crlf
    deliver_pending_lem len l n zero_left src =
        let split : (take len c.pending ++ drop len c.pending) ++ joined ds
            ≡ c.pending ++ joined ds =
          ap (λ p. p ++ joined ds) (take-drop len c.pending) in
        elim (Bool-cases (bytes_eq (drop len c.pending) [])) [
          | inl e ↦
              let none_left : drop len c.pending ≡ [] =
                (bytes_eq_iff (drop len c.pending) []).0 e in
              rw (e, ended, src)
                (
                  joined ds,
                  sym split
                      ∙ append_assoc (take len c.pending) (drop len c.pending) (joined ds)
                      ∙ ap (λ p. take len c.pending ++ (p ++ joined ds)) none_left,
                  take_some len c.pending l n,
                  between ds
                      (subst (Between ds)
                        (sym (past_lem (drop len c.pending) c.remaining none_left zero_left)) after)
                      refl,
                )
          | inr e ↦ rw e (
            drop len c.pending ++ joined ds,
            sym split ∙ append_assoc (take len c.pending) (drop len c.pending) (joined ds),
            take_some len c.pending l n,
            buffered rest ds (nonempty (drop len c.pending) e) zero_left ended fine src after refl,
          )
        ]

    -- A chunk that is streamed: what a read of the source returns lies within the chunk.
    deliver_source_lem :
        (k : ℕ) (bytes : Bytes)
        → 1 ≤ k
        → k ≤ length bytes
        → c.pending ≡ []
        → c.remaining ≡ length bytes
        → c.src ≡ bytes ++ (13 ∷ 10 ∷ rest)
        → Delivers (bytes ++ joined ds) (some (deliver_source k c))
    unfolding deliver_source after_delivery end_of_chunk expect_crlf
    deliver_source_lem k bytes m within none_pending left src =
        let taken : take k c.src ≡ take k bytes =
          ap (take k) src ∙ take_within k bytes (13 ∷ 10 ∷ rest) within in
        let dropped : drop k c.src ≡ drop k bytes ++ (13 ∷ 10 ∷ rest) =
          ap (drop k) src ∙ drop_within k bytes (13 ∷ 10 ∷ rest) within in
        let size : length (take k bytes) ≡ k = length-take k bytes within in
        let full : bytes_eq c.src [] ≡ false =
          subst (λ s. bytes_eq s [] ≡ false) (sym src)
            (longer bytes (13 ∷ 10 ∷ rest) (omega arith)) in
        let split : take k bytes ++ (drop k bytes ++ joined ds) ≡ bytes ++ joined ds =
          sym (append_assoc (take k bytes) (drop k bytes) (joined ds))
          ∙ ap (λ p. p ++ joined ds) (take-drop k bytes) in
        elim (Bool-cases (c.remaining - length (take k c.src) == 0)) [
          | inl e ↦
              let none_left : drop k bytes ≡ [] =
                empty (drop k bytes) (ground (arith, length-drop k bytes, taken, size, left, e)) in
              rw (full, e, ended, taken, dropped, none_left)
                (
                  joined ds,
                  sym split ∙ ap (λ p. take k bytes ++ (p ++ joined ds)) none_left,
                  omega (arith, size),
                  between ds
                      (subst (Between ds)
                        (sym (
                          past_lem c.pending (c.remaining - length (take k bytes)) none_pending
                            (ground (arith, taken, e))))
                        after)
                      refl,
                )
          | inr e ↦
              rw (full, e, taken)
                (
                  drop k bytes ++ joined ds,
                  sym split,
                  omega (arith, size),
                  streaming (drop k bytes) rest ds
                      (ground (arith, length-drop k bytes, taken, size, left, e)) none_pending ended
                      fine (omega (arith, length-drop k bytes, size, left)) dropped after refl,
                )
        ]

  amount_bounds :
      (remaining len ready : ℕ)
      → 1 ≤ remaining
      → 1 ≤ len
      → 1 ≤ ready
      → (1 ≤ amount remaining len ready) × (amount remaining len ready ≤ remaining)
  unfolding amount
  amount_bounds remaining len ready h k l = ground arith

  -- A reader that has data of a chunk answers in one round.
  module _ (len ready fuel : ℕ) (l : 1 ≤ len) (m : 1 ≤ ready) where
    read_buffered :
        (c : Reader) (rest : Bytes) (ds : List Bytes)
        → 1 ≤ length c.pending
        → c.remaining ≡ 0
        → c.at_chunk_end ≡ true
        → c.error ≡ none
        → c.src ≡ 13 ∷ 10 ∷ rest
        → Between ds (past c rest)
        → Delivers (c.pending ++ joined ds) (read_loop h (suc fuel) len ready c)
    unfolding read_loop
    read_buffered c rest ds n zero_left ended fine src after =
        let some_pending : bytes_eq c.pending [] ≡ false = filled c.pending n in
        rw some_pending (deliver_pending_lem c rest ds ended fine after len l n zero_left src)

    read_streaming :
        (c : Reader) (bytes rest : Bytes) (ds : List Bytes)
        → 1 ≤ length bytes
        → c.pending ≡ []
        → c.at_chunk_end ≡ true
        → c.error ≡ none
        → c.remaining ≡ length bytes
        → c.src ≡ bytes ++ (13 ∷ 10 ∷ rest)
        → Between ds (past c rest)
        → Delivers (bytes ++ joined ds) (read_loop h (suc fuel) len ready c)
    unfolding read_loop deliver_remaining bytes_eq
    read_streaming c bytes rest ds n none_pending ended fine left src after =
        let (a, b) = amount_bounds c.remaining len ready (omega arith) l m in
        let some_left : ltb 0 c.remaining ≡ true = ground arith in
        let no_pending : bytes_eq c.pending [] ≡ true = ap (λ p. bytes_eq p []) none_pending in
        rw (no_pending, some_left)
          (deliver_source_lem c rest ds ended fine after (amount c.remaining len ready) bytes a
            (omega arith) none_pending left src)

    -- A reader between two chunks reads the header of the next one first.
    to_header :
        (c c' : Reader)
        → c.pending ≡ []
        → c.remaining ≡ 0
        → c.finished ≡ false
        → next_chunk h c ≡ ok c'
        → read_loop h (suc fuel) len ready c ≡ read_loop h fuel len ready c'
    unfolding read_loop bytes_eq
    to_header c c' p r f e =
        let no_pending : bytes_eq c.pending [] ≡ true = ap (λ p. bytes_eq p []) p in
        let none_left : ltb 0 c.remaining ≡ false = ground arith in
        rw (no_pending, none_left, e, f) refl

    at_cut :
        (c : Reader)
        → c.pending ≡ []
        → c.remaining ≡ 0
        → c.finished ≡ false
        → next_chunk h c ≡ err eof
        → Delivers [] (read_loop h (suc fuel) len ready c)
    unfolding read_loop bytes_eq
    at_cut c p r f e =
        let no_pending : bytes_eq c.pending [] ≡ true = ap (λ p. bytes_eq p []) p in
        let none_left : ltb 0 c.remaining ≡ false = ground arith in
        rw (no_pending, none_left, e, f) (refl, refl, refl)

    at_close :
        (c : Reader) (signature rest : Bytes)
        → Delivers [] (read_loop h (suc fuel) len ready (closed h c signature rest))
    unfolding read_loop bytes_eq
    at_close c signature rest = (refl, refl, refl)

    -- The header of a chunk was read: its data is buffered, or is in the source.
    read_chunk :
        (signed : Bool) (c : Reader) (signature d rest : Bytes) (ds : List Bytes)
        → c.pending ≡ []
        → c.remaining ≡ 0
        → c.finished ≡ false
        → c.error ≡ none
        → 1 ≤ length d
        → Frames h is_cut ds (record c {
          src = rest;
          prev_signature = chained h signed c signature;
          pending = [];
          remaining = 0;
          at_chunk_end = false;
        })
        → Delivers (d ++ joined ds) (
            read_loop h
              (suc fuel)
              len
              ready
              (record (in_chunk h signed c signature d (13 ∷ 10 ∷ rest)) { at_chunk_end = true }))
    read_chunk true c signature d rest ds p r f g n more =
        read_buffered
          (record c {
            src = 13 ∷ 10 ∷ rest;
            prev_signature = signature;
            pending = d;
            at_chunk_end = true;
          })
          rest ds n r refl g refl (refl, refl, f, g, refl, more)
    read_chunk false c signature d rest ds p r f g n more =
        read_streaming
          (record c { src = d ++ (13 ∷ 10 ∷ rest); remaining = length d; at_chunk_end = true }) d
          rest ds n p refl g refl refl (refl, refl, f, g, refl, more)

ends :
    (h : Hashes) (is_cut : Bool) (len ready : ℕ) (c : Reader)
    → 1 ≤ len
    → 1 ≤ ready
    → c.pending ≡ []
    → c.remaining ≡ 0
    → c.finished ≡ false
    → Frames h is_cut [] c
    → Delivers h is_cut [] (read_loop h 2 len ready c)
ends h true len ready c l m p r f src =
    at_cut h true len ready 1 l m c p r f (next_chunk_cut h c src)
ends h false len ready c l m p r f (line, signature, trailers, rest, is_line, header, src, e) =
    subst (Delivers h false [])
      (sym (
        to_header h false len ready 1 l m c (closed h c signature rest) p r f
          (next_chunk_last h c line signature trailers rest is_line header src e)))
      (at_close h false len ready 0 l m c signature rest)

module _ (h : Hashes) (is_cut : Bool) where
  read-Between :
      (len ready : ℕ)
      → 1 ≤ len
      → 1 ≤ ready
      → (ds : List Bytes) (c : Reader) → Between h is_cut ds c
      → Delivers h is_cut (joined ds) (read_loop h 2 len ready c)
  read-Between len ready l m [] c (p, r, f, g, a, fr) = ends h is_cut len ready c l m p r f fr
  read-Between len ready l m (d ∷ ds) c
        (p, r, f, g, a, (line, signature, rest, is_line, header, src, n, more)) =
      subst (Delivers h is_cut (d ++ joined ds))
        (sym (
          to_header h is_cut len ready 1 l m c
            (record (in_chunk h c.verify c signature d (13 ∷ 10 ∷ rest)) { at_chunk_end = true }) p
            r f (next_chunk_data h c line d signature (13 ∷ 10 ∷ rest) is_line header src n)))
        (read_chunk h is_cut len ready 0 l m c.verify c signature d rest ds p r f g n more)

  -- Read on a reader that holds data returns the next of it, or the end of the body once there is
  -- none.
  pub read_lem :
      (len ready : ℕ)
      → 1 ≤ len
      → 1 ≤ ready
      → (c : Reader) (left : Bytes) → c.error ≡ none
      → Holds h is_cut c left
      → Delivers h is_cut left (read h len ready c)
  unfolding read
  read_lem len ready l m c left fine holds =
      let long : (len == 0) ≡ false = ground arith in rw (fine, long, read) (answered holds)
    where
      answered : Holds h is_cut c left → Delivers h is_cut left (read_loop h 2 len ready c)
      answered (between ds b e) =
          subst (λ x. Delivers h is_cut x (read_loop h 2 len ready c)) (sym e)
            (read-Between len ready l m ds c b)
      answered (buffered rest ds n r a g src b e) =
          subst (λ x. Delivers h is_cut x (read_loop h 2 len ready c)) (sym e)
            (read_buffered h is_cut len ready 1 l m c rest ds n r a g src b)
      answered (streaming bytes rest ds n p a g r src b e) =
          subst (λ x. Delivers h is_cut x (read_loop h 2 len ready c)) (sym e)
            (read_streaming h is_cut len ready 1 l m c bytes rest ds n p a g r src b)
