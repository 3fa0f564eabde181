-- ===== src/S3Api/Multipart/Selection.antt =====
-- internal/s3api/multipart.go: the parts that a completion request selects.
use infra_lightwight_s3_serv.Prelude.{
  ℕ, ◌≤◌, ◌<◌, ltb, leb, Bool, true, false, ◌&&◌, Bytes, List, [], ◌∷◌, bytes_eq, bytes_eq_iff,
  bytes_eq_refl, ℤ, pos, negsuc, some, ok, ◌>>=◌, >>=-ok, ok-injective, ◌≡◌, ◌↔◌, refl, arith,
  Bool-cases, Option-cases, inl, inr, subst,
}
use infra_lightwight_s3_serv.Db.Rows.{MultipartPart}
use infra_lightwight_s3_serv.S3Api.Multipart.{
  CompletedPart, unquote_etag, min_part_size, uploaded_part, select_numbered, select_part,
  number_of, follows, select_from, select_parts,
}

-- A part that may stand at a place of the object.
abbrev Fits : ℕ → ℕ → Bytes → Bool → List MultipartPart → MultipartPart → Type 0
Fits previous n etag more uploaded p =
    (previous < n)
    × (uploaded_part n uploaded ≡ some p)
    × (unquote_etag etag ≡ p.etag)
    × (more ≡ true → min_part_size ≤ p.size)

-- The parts are the uploaded ones of the numbers requested, which increase; their ETags are the
-- requested ones, and all but the last have at least 5 MiB.
abbrev pub IsSelection : ℕ → List CompletedPart → List MultipartPart → List MultipartPart → Type 0
IsSelection previous [] uploaded [] = Unit
IsSelection previous [] uploaded (p ∷ ps) = ⊥
IsSelection previous (w ∷ ws) uploaded [] = ⊥
IsSelection previous (w ∷ ws) uploaded (p ∷ ps) =
    (previous < number_of w.part_number)
    × (uploaded_part (number_of w.part_number) uploaded ≡ some p)
    × (unquote_etag w.etag ≡ p.etag)
    × (follows ws ≡ true → min_part_size ≤ p.size)
    × IsSelection (number_of w.part_number) ws uploaded ps

module _ (previous n : ℕ) (etag : Bytes) (more : Bool) (uploaded : List MultipartPart)
    (p : MultipartPart) where
  select_numbered-Fits :
      select_numbered previous n etag more uploaded ≡ ok p → Fits previous n etag more uploaded p
  unfolding select_numbered
  select_numbered-Fits h = elim (Bool-cases (leb n previous)) [
    | inl e ↦ absurd (cc (rw e at h))
    | inr e ↦ elim (Option-cases (uploaded_part n uploaded)) [
      | inl f ↦ absurd (cc (rw (e, f, select_numbered) at h))
      | inr (q, f) ↦ elim (Bool-cases (bytes_eq (unquote_etag etag) q.etag)) [
        | inr g ↦ absurd (cc (rw (e, f, g, select_numbered) at h))
        | inl g ↦ elim (Bool-cases (more && ltb q.size min_part_size)) [
          | inl k ↦ absurd (cc (rw (e, f, g, k, select_numbered) at h))
          | inr k ↦
              let same : q ≡ p = ok-injective (rw (e, f, g, k, select_numbered) at h) in
              subst (Fits previous n etag more uploaded) same (
                ground arith,
                f,
                (bytes_eq_iff (unquote_etag etag) q.etag).0 g,
                (λ m. ground arith),
              )
        ]
      ]
    ]
  ]

  Fits-select_numbered :
      Fits previous n etag more uploaded p → select_numbered previous n etag more uploaded ≡ ok p
  unfolding select_numbered
  Fits-select_numbered (l, f, g, k) =
      let e : leb n previous ≡ false = ground arith in
      let big : (more && ltb p.size min_part_size) ≡ false = small more k in
      rw (e, f, g, bytes_eq_refl p.etag, big, select_numbered) refl
    where
      small :
          (b : Bool) → (b ≡ true → min_part_size ≤ p.size) → (b && ltb p.size min_part_size) ≡ false
      small false k = refl
      small true k = ground (arith, k refl)

select_part_iff :
    (previous : ℕ) (n : ℤ) (etag : Bytes) (more : Bool) (uploaded : List MultipartPart)
    (p : MultipartPart)
    → (select_part previous n etag more uploaded ≡ ok p)
      ↔ Fits previous (number_of n) etag more uploaded p
unfolding select_part
select_part_iff previous (pos n) etag more uploaded p = (
  select_numbered-Fits previous n etag more uploaded p,
  Fits-select_numbered previous n etag more uploaded p,
)
select_part_iff previous (negsuc n) etag more uploaded p =
    ((λ h. absurd (cc)), λ f. absurd (omega (arith, f.0)))

select_from-IsSelection :
    (previous : ℕ) (ws : List CompletedPart) (uploaded parts : List MultipartPart)
    → select_from previous ws uploaded ≡ ok parts
    → IsSelection previous ws uploaded parts
unfolding select_from
select_from-IsSelection previous [] uploaded [] h = tt
select_from-IsSelection previous [] uploaded (p ∷ ps) h = absurd (cc)
select_from-IsSelection previous (w ∷ ws) uploaded [] h =
    let (q, e, k) =
      >>=-ok (select_part previous w.part_number w.etag (follows ws) uploaded)
        (λ have. select_from (number_of w.part_number) ws uploaded >>= λ rest. ok (have ∷ rest))
        h in
    let (qs, f, j) =
      >>=-ok (select_from (number_of w.part_number) ws uploaded) (λ rest. ok (q ∷ rest)) k in
    absurd (cc (ok-injective j))
select_from-IsSelection previous (w ∷ ws) uploaded (p ∷ ps) h =
    let (q, e, k) =
      >>=-ok (select_part previous w.part_number w.etag (follows ws) uploaded)
        (λ have. select_from (number_of w.part_number) ws uploaded >>= λ rest. ok (have ∷ rest))
        h in
    let (qs, f, j) =
      >>=-ok (select_from (number_of w.part_number) ws uploaded) (λ rest. ok (q ∷ rest)) k in
    let same_head : q ≡ p = cc (ok-injective j) in
    let same_tail : qs ≡ ps = cc (ok-injective j) in
    let (l, u, t, b) =
      subst (Fits previous (number_of w.part_number) w.etag (follows ws) uploaded) same_head
        ((select_part_iff previous w.part_number w.etag (follows ws) uploaded q).0 e) in
    (
      l,
      u,
      t,
      b,
      subst (IsSelection (number_of w.part_number) ws uploaded) same_tail
          (select_from-IsSelection (number_of w.part_number) ws uploaded qs f),
    )

IsSelection-select_from :
    (previous : ℕ) (ws : List CompletedPart) (uploaded parts : List MultipartPart)
    → IsSelection previous ws uploaded parts
    → select_from previous ws uploaded ≡ ok parts
unfolding select_from
IsSelection-select_from previous [] uploaded [] s = refl
IsSelection-select_from previous [] uploaded (p ∷ ps) s = absurd s
IsSelection-select_from previous (w ∷ ws) uploaded [] s = absurd s
IsSelection-select_from previous (w ∷ ws) uploaded (p ∷ ps) (l, u, t, b, rest) =
    rw
      (
        (select_part_iff previous w.part_number w.etag (follows ws) uploaded p).1 (l, u, t, b),
        IsSelection-select_from (number_of w.part_number) ws uploaded ps rest,
      )
      refl

-- selectParts accepts a request exactly when the numbers of its parts are positive and increase, each
-- part was uploaded with the ETag that the request gives, and every part but the last has at least
-- 5 MiB; it then returns those parts in the order of the request.
pub select_parts_iff :
    (requested : List CompletedPart) (uploaded parts : List MultipartPart)
    → (select_parts requested uploaded ≡ ok parts) ↔ IsSelection 0 requested uploaded parts
unfolding select_parts
select_parts_iff requested uploaded parts = (
  select_from-IsSelection 0 requested uploaded parts,
  IsSelection-select_from 0 requested uploaded parts,
)
