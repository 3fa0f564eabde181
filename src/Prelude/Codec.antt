-- ===== src/Prelude/Codec.antt =====
-- What the source calls of strings, strconv and encoding/hex, on bytes.
use Prim.Native.Nat.{ℕ, zero, suc, ◌+◌, ◌-◌, ◌*◌, ◌/◌, ◌%◌, ◌<◌}
use mathlib.Core.Path.{◌≡◌, refl}
use mathlib.Core.Bool.{Bool, true, false, ◌&&◌, ◌||◌}
use mathlib.Core.List.{List, [], ◌∷◌, ◌++◌}
use mathlib.Core.Option.{Option, none, some}
use native.Mathlib.Omega.{arith}
use infra_lightwight_s3_serv.Prelude.Tests.{◌==◌, ltb, leb, if◌then◌else◌}
use infra_lightwight_s3_serv.Prelude.Lists.{all, length}
use infra_lightwight_s3_serv.Prelude.Text.{Bytes}

-- strings.Cut at one byte: what stands before it, and what stands after it if it is there.
unfoldable pub cut : ℕ → Bytes → Bytes × Option Bytes
cut c [] = ([], none)
cut c (b ∷ bs) =
    let (before, after) = cut c bs in if b == c then ([], some bs) else (b ∷ before, after)

-- strings.ToLower, on ASCII.
unfoldable pub to_lower : Bytes → Bytes
to_lower [] = []
to_lower (c ∷ s) = (if leb b'A' c && leb c b'Z' then c + 32 else c) ∷ to_lower s

-- strings.Join.
unfoldable pub join : Bytes → List Bytes → Bytes
join sep [] = []
join sep (s ∷ []) = s
join sep (s ∷ t ∷ ts) = s ++ (sep ++ join sep (t ∷ ts))

-- hex.EncodeToString.
unfoldable pub hex_char : ℕ → ℕ
hex_char n = if ltb n 10 then n + 48 else n + 87

unfoldable pub hex_encode : Bytes → Bytes
unfolding hex_char
hex_encode [] = []
hex_encode (c ∷ s) = hex_char (c / 16) ∷ hex_char (c % 16) ∷ hex_encode s

-- The value of a hexadecimal digit.
unfoldable pub hex_value : ℕ → Option ℕ
hex_value c =
    if leb b'0' c && leb c b'9'
    then some (c - 48)
    else if leb b'a' c && leb c b'f'
    then some (c - 87)
    else if leb b'A' c && leb c b'F'
    then some (c - 55)
    else none

unfoldable pub hex_pair : Option ℕ → Option ℕ → Option Bytes → Option Bytes
hex_pair (some hi) (some lo) (some s) = some ((hi * 16 + lo) ∷ s)
hex_pair none lo s = none
hex_pair (some hi) none s = none
hex_pair (some hi) (some lo) none = none

-- hex.DecodeString.
unfoldable pub hex_decode : Bytes → Option Bytes
unfolding hex_pair hex_value
hex_decode [] = some []
hex_decode (a ∷ []) = none
hex_decode (a ∷ b ∷ s) = hex_pair (hex_value a) (hex_value b) (hex_decode s)

unfoldable pub is_lower_hex : ℕ → Bool
is_lower_hex c = (leb b'0' c && leb c b'9') || (leb b'a' c && leb c b'f')

pub hex_char-is_lower_hex : (n : ℕ) → n < 16 → is_lower_hex (hex_char n) ≡ true
unfolding is_lower_hex hex_char
hex_char-is_lower_hex n h = ground arith

pub hex_value-hex_char : (n : ℕ) → n < 16 → hex_value (hex_char n) ≡ some n
unfolding hex_value hex_char
hex_value-hex_char n h = ground arith

pub hex_encode-all :
    (s : Bytes) → all (λ c. ltb c 256) s ≡ true → all is_lower_hex (hex_encode s) ≡ true
unfolding hex_encode
hex_encode-all [] h = refl
hex_encode-all (c ∷ s) h =
    ground (arith, hex_char-is_lower_hex (c / 16), hex_char-is_lower_hex (c % 16), hex_encode-all s)

pub length-hex_encode : (s : Bytes) → length (hex_encode s) ≡ length s * 2
unfolding hex_encode
length-hex_encode [] = refl
length-hex_encode (c ∷ s) = omega (arith, length-hex_encode s)

pub hex_decode-hex_encode :
    (s : Bytes) → all (λ c. ltb c 256) s ≡ true → hex_decode (hex_encode s) ≡ some s
unfolding hex_encode hex_decode
hex_decode-hex_encode [] h = refl
hex_decode-hex_encode (c ∷ s) h =
    rw
      (
        hex_value-hex_char (c / 16) (ground arith),
        hex_value-hex_char (c % 16) (ground arith),
        hex_decode-hex_encode s (ground arith),
      )
      (ground (arith))

-- strconv.Itoa of a number that is not negative, by its digits.
unfoldable pub decimal_loop : ℕ → ℕ → Bytes → Bytes
decimal_loop zero n acc = acc
decimal_loop (suc fuel) n acc = elim (n / 10 == 0) [
  | true ↦ (n % 10 + 48) ∷ acc
  | false ↦ decimal_loop fuel (n / 10) ((n % 10 + 48) ∷ acc)
]

unfoldable pub decimal : ℕ → Bytes
unfolding decimal_loop
decimal n = decimal_loop (suc n) n []

-- The number of a run of decimal digits, with the number so far.
unfoldable pub digits : ℕ → Bytes → Option ℕ
digits n [] = some n
digits n (c ∷ s) = elim (leb b'0' c && leb c b'9') [
  | true ↦ digits (n * 10 + (c - 48)) s
  | false ↦ none
]

-- strconv.Atoi: an optional sign and digits, within 64 bits.
pub data ℤ : Type 0 where
  pos : ℕ → ℤ
  negsuc : ℕ → ℤ

unfoldable pub natural : Bytes → Option ℕ
unfolding digits
natural [] = none
natural (c ∷ s) = digits 0 (c ∷ s)

unfoldable pub negated : ℕ → ℤ
negated zero = pos 0
negated (suc n) = negsuc n

unfoldable pub positive_int : Option ℕ → Option ℤ
positive_int none = none
positive_int (some n) = if ltb n 9223372036854775808 then some (pos n) else none

unfoldable pub negative_int : Option ℕ → Option ℤ
unfolding negated
negative_int none = none
negative_int (some n) = if leb n 9223372036854775808 then some (negated n) else none

unfoldable pub atoi : Bytes → Option ℤ
unfolding natural positive_int negative_int
atoi [] = none
atoi (c ∷ s) =
    if c == b'-'
    then negative_int (natural s)
    else if c == b'+'
    then positive_int (natural s)
    else positive_int (natural (c ∷ s))
