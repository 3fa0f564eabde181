-- ===== src/Metrics/Live.antt =====
-- internal/metrics/live.go: the ring of the last sixty seconds. A second is counted since the epoch,
-- and is past the first minute of it; a count is an int64 as its 64 bits. The array is the function
-- from an index, which is always taken modulo its length.
use infra_lightwight_s3_serv.Prelude.{
  ℕ, zero, suc, ◌+◌, ◌-◌, ◌%◌, ◌≤◌, ◌<◌, leb, ◌==◌, Bool, true, false, ◌&&◌, List, [], ◌∷◌,
  get_elem?, some, if◌then◌else◌, ◌≡◌, ◌⊎◌, refl, arith, ◌∙◌, sym, ap, Bool-cases, inl, inr, ==_iff,
}
use infra_lightwight_s3_serv.Metrics.Collector.{add64}

pub record SecondBucket : Type 0 where
  pub second : ℕ
  pub requests : ℕ
  pub bytes_in : ℕ
  pub bytes_out : ℕ

abbrev pub Ring : Type 0
Ring = ℕ → SecondBucket

-- NewLiveWindow: the zero buckets.
abbrev pub new_live_window : Ring
new_live_window _ = record { second = 0; requests = 0; bytes_in = 0; bytes_out = 0 }

unfoldable pub add_request : ℕ → ℕ → SecondBucket → SecondBucket
add_request bytes_in bytes_out b = record b {
  requests = add64 b.requests 1;
  bytes_in = add64 b.bytes_in bytes_in;
  bytes_out = add64 b.bytes_out bytes_out;
}

-- The bucket of the current second, cleared if it holds another one.
unfoldable pub current_bucket : ℕ → SecondBucket → SecondBucket
current_bucket now b =
    if b.second == now
    then b
    else record { second = now; requests = 0; bytes_in = 0; bytes_out = 0 }

-- Record, in the second `now`.
unfoldable pub record_live : ℕ → ℕ → ℕ → Ring → Ring
unfolding add_request current_bucket
record_live now bytes_in bytes_out ring index =
    if index == now % 60
    then add_request bytes_in bytes_out (current_bucket now (ring index))
    else ring index

-- The point of a second: zero where its bucket holds another one.
unfoldable pub point_at : Ring → ℕ → SecondBucket
point_at ring second =
    let b = ring (second % 60) in
    if b.second == second
    then b
    else record { second = second; requests = 0; bytes_in = 0; bytes_out = 0 }

-- The loop of Snapshot from the point `i` on, of which there are n.
unfoldable pub points_from : Ring → ℕ → ℕ → ℕ → List SecondBucket
unfolding point_at
points_from ring now i zero = []
points_from ring now i (suc n) = point_at ring (now - (59 - i)) ∷ points_from ring now (suc i) n

unfoldable pub snapshot : Ring → ℕ → List SecondBucket
unfolding points_from
snapshot ring now = points_from ring now 0 60

-- A completed request: its second and its bytes.
pub record Hit : Type 0 where
  pub at : ℕ
  pub received : ℕ
  pub sent : ℕ

-- The ring after the requests of a history, of which the last one stands first.
unfoldable pub ring_of : List Hit → Ring
unfolding record_live
ring_of [] = new_live_window
ring_of (hit ∷ history) = record_live hit.at hit.received hit.sent (ring_of history)

-- The requests of one second.
unfoldable pub requests_at : ℕ → List Hit → ℕ
requests_at second [] = 0
requests_at second (hit ∷ history) =
    (if hit.at == second then 1 else 0) + requests_at second history

abbrev pub latest : List Hit → ℕ
latest [] = 0
latest (hit ∷ history) = hit.at

-- The clock does not go back.
unfoldable pub in_order : List Hit → Bool
in_order [] = true
in_order (hit ∷ history) = leb (latest history) hit.at && in_order history

-- What a slot holds of a second that belongs to it.
pub record IsSlot (history : List Hit) (second : ℕ) (b : SecondBucket) : Type 0 where
  holds : b.second ≡ second → b.requests ≡ requests_at second history % 18446744073709551616
  later : b.second < second → requests_at second history ≡ 0
  congruent : (b.second ≡ 0) ⊎ (b.second % 60 ≡ second % 60)
  past : b.second ≤ latest history

IsSlot-new : (second : ℕ) → IsSlot [] second (new_live_window (second % 60))
unfolding requests_at
IsSlot-new second = record {
  holds = λ _. omega arith;
  later = λ _. refl;
  congruent = inl refl;
  past = omega arith;
}

IsSlot-hit :
    (hit : Hit) (history : List Hit) (second : ℕ) (b : SecondBucket)
    → IsSlot history second b
    → latest history ≤ hit.at
    → second % 60 ≡ hit.at % 60
    → IsSlot (hit ∷ history) second (add_request hit.received hit.sent (current_bucket hit.at b))
unfolding requests_at add_request current_bucket
IsSlot-hit hit history second b slot order same = elim (Bool-cases (b.second == hit.at)) [
  | inl e ↦ rw e record {
    holds = λ k. ground (arith, slot.holds k);
    later = λ k. ground (arith, slot.later k);
    congruent = slot.congruent;
    past = omega (arith, slot.past);
  }
  | inr e ↦ rw e record {
    holds = λ k. let none_yet = slot.later (ground (arith, slot.past)) in ground arith;
    later = λ k. let none_yet = slot.later (omega (arith, slot.past)) in ground arith;
    congruent = inr (sym same);
    past = omega arith;
  }
]

IsSlot-other :
    (hit : Hit) (history : List Hit) (second : ℕ) (b : SecondBucket)
    → IsSlot history second b
    → latest history ≤ hit.at
    → (second % 60 == hit.at % 60) ≡ false
    → IsSlot (hit ∷ history) second b
unfolding requests_at
IsSlot-other hit history second b slot order other =
    let apart : (hit.at == second) ≡ false = ground arith in
    record {
      holds = λ k. rw apart (slot.holds k ∙ omega arith);
      later = λ k. rw apart (omega (arith, slot.later k));
      congruent = slot.congruent;
      past = omega (arith, slot.past);
    }

IsSlot-of :
    (history : List Hit) (second : ℕ)
    → in_order history ≡ true
    → IsSlot history second (ring_of history (second % 60))
unfolding ring_of record_live in_order
IsSlot-of [] second h = IsSlot-new second
IsSlot-of (hit ∷ history) second h =
    let slot = IsSlot-of history second (ground arith) in
    elim (Bool-cases (second % 60 == hit.at % 60)) [
      | inl e ↦ rw e (
          IsSlot-hit hit history second (ring_of history (second % 60)) slot (ground arith)
            ((==_iff (second % 60) (hit.at % 60)).0 e))
      | inr e ↦
          rw e
            (IsSlot-other hit history second (ring_of history (second % 60)) slot (ground arith) e)
    ]

-- A bucket of another second: of the second that is asked for, nothing was recorded.
stale_slot :
    (history : List Hit) (second now : ℕ) (b : SecondBucket)
    → IsSlot history second b
    → latest history ≤ now
    → now < second + 60
    → (b.second == second) ≡ false
    → requests_at second history ≡ 0
stale_slot history second now b slot l n e =
    let before : b.second < second = elim slot.congruent [
      | inl zero_second ↦ ground arith
      | inr same ↦ ground (arith, slot.past)
    ] in
    slot.later before

point_of_slot :
    (history : List Hit) (second now : ℕ) (ring : Ring)
    → IsSlot history second (ring (second % 60))
    → latest history ≤ now
    → second ≤ now
    → now < second + 60
    → (point_at ring second).requests ≡ requests_at second history % 18446744073709551616
unfolding point_at
point_of_slot history second now ring slot l m n =
    elim (Bool-cases ((ring (second % 60)).second == second)) [
      | inl e ↦ rw e (slot.holds ((==_iff _ second).0 e))
      | inr e ↦ rw e (
          ap (λ n. n % 18446744073709551616)
            (sym (stale_slot history second now (ring (second % 60)) slot l n e)))
    ]

get_elem?-points_from :
    (ring : Ring) (now i n k : ℕ)
    → k < n
    → get_elem? (points_from ring now i n) k ≡ some (point_at ring (now - (59 - (i + k))))
unfolding points_from
get_elem?-points_from ring now i zero k h = absurd (omega arith)
get_elem?-points_from ring now i (suc n) zero h =
    ap (λ j. some (point_at ring (now - (59 - j)))) (omega arith)
get_elem?-points_from ring now i (suc n) (suc k) h =
    get_elem?-points_from ring now (suc i) n k (omega arith)
    ∙ ap (λ j. some (point_at ring (now - (59 - j)))) (omega arith)

-- After requests at times that do not go back, the point i of the snapshot at a later time `now`
-- counts the requests of the second now - (59 - i), modulo 2 ^ 64, however often the slots of the
-- ring were used again.
pub snapshot_counts :
    (history : List Hit) (now i : ℕ)
    → in_order history ≡ true
    → latest history ≤ now
    → 60 ≤ now
    → i < 60
    → (p : SecondBucket) × (get_elem? (snapshot (ring_of history) now) i ≡ some p)
      × (p.requests ≡ requests_at (now - (59 - i)) history % 18446744073709551616)
unfolding snapshot
snapshot_counts history now i o l m h = (
  point_at (ring_of history) (now - (59 - i)),
  get_elem?-points_from (ring_of history) now 0 60 i h
      ∙ ap (λ j. some (point_at (ring_of history) (now - (59 - j)))) (omega arith),
  point_of_slot history (now - (59 - i)) now (ring_of history)
      (IsSlot-of history (now - (59 - i)) o) l (omega arith) (omega arith),
)
