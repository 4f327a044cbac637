-- ===== src/Slots/Laws.antt =====
-- Every slot has 32 bytes, a uint256 is read back from its slot, and the slots are read back from
-- their concatenation.
use aurka.Prelude.{
  ℕ, zero, suc, ◌+◌, ◌*◌, ◌/◌, ◌%◌, ◌≤◌, ◌<◌, ◌≡◌, refl, sym, ◌∙◌, ap, true, List, [], ◌∷◌, ◌++◌,
  length, length-append, ok, arith, >>=-eq-ok, ok-injective, throw_if_inv, not, All,
}
use aurka.Prelude.Text.{Text}
use aurka.Errors.{not_bytes32, not_address}
use aurka.Financial.Integer.{IntegerLike, to_uint256, uint256_max}
use aurka.Financial.Integer.Laws.{to_uint256-le}
use aurka.Price.{is_hex_of, is_bytes32, is_address}
use aurka.Slots.{
  hex_digit, hex_value, hex_to_bytes, padded_hex, slice_2, zeros, bytes32_slot, uint_slot,
  address_slot, concat_slots,
}

hex_value-digit : (d : ℕ) → d < 16 → hex_value (hex_digit d) ≡ d
hex_value-digit d h = ground arith

-- The number that hexadecimal digits denote, after those before.
abbrev from_hex : ℕ → Text → ℕ
from_hex acc [] = acc
from_hex acc (c ∷ s) = from_hex (acc * 16 + hex_value c) s

-- The number that bytes denote, the first one leading.
abbrev pub from_bytes : ℕ → List ℕ → ℕ
from_bytes acc [] = acc
from_bytes acc (b ∷ bs) = from_bytes (acc * 256 + b) bs

from_hex-append :
    (acc : ℕ) (s : Text) (c : ℕ) → from_hex acc (s ++ (c ∷ [])) ≡ from_hex acc s * 16 + hex_value c
from_hex-append acc [] c = refl
from_hex-append acc (d ∷ s) c = from_hex-append (acc * 16 + hex_value d) s c

-- The values below 16 to the width.
abbrev hex_bound : ℕ → ℕ
hex_bound zero = 1
hex_bound (suc width) = 16 * hex_bound width

from_hex-padded : (width n : ℕ) → n < hex_bound width → from_hex 0 (padded_hex width n) ≡ n
unfolding padded_hex
from_hex-padded zero n h = omega (arith, h)
from_hex-padded (suc width) n h =
    let above = from_hex-padded width (n / 16) (omega (arith, h)) in
    let digit = hex_value-digit (n % 16) (omega arith) in
    from_hex-append 0 (padded_hex width (n / 16)) (hex_digit (n % 16)) ∙ omega (arith, above, digit)

length-padded : (width n : ℕ) → length (padded_hex width n) ≡ width
unfolding padded_hex
length-padded zero n = refl
length-padded (suc width) n = omega (
  arith,
  length-append (padded_hex width (n / 16)) (hex_digit (n % 16) ∷ []),
  length-padded width (n / 16),
)

length-hex_to_bytes : (k : ℕ) (s : Text) → length s ≡ 2 * k → length (hex_to_bytes s) ≡ k
unfolding hex_to_bytes
length-hex_to_bytes k [] h = omega arith
length-hex_to_bytes k (c ∷ []) h = ground arith
length-hex_to_bytes zero (c ∷ d ∷ s) h = ground arith
length-hex_to_bytes (suc k) (c ∷ d ∷ s) h = omega (arith, length-hex_to_bytes k s (omega arith))

from_bytes-hex :
    (k acc : ℕ) (s : Text) → length s ≡ 2 * k → from_bytes acc (hex_to_bytes s) ≡ from_hex acc s
unfolding hex_to_bytes
from_bytes-hex k acc [] h = refl
from_bytes-hex k acc (c ∷ []) h = ground arith
from_bytes-hex zero acc (c ∷ d ∷ s) h = ground arith
from_bytes-hex (suc k) acc (c ∷ d ∷ s) h =
    let shift : acc * 256 + (hex_value c * 16 + hex_value d)
        ≡ (acc * 16 + hex_value c) * 16 + hex_value d =
      omega arith in
    ap (λ t. from_bytes t (hex_to_bytes s)) shift
    ∙ from_bytes-hex k ((acc * 16 + hex_value c) * 16 + hex_value d) s (omega arith)

digits_read :
    (n : ℕ)
    → n ≤ uint256_max
    → (length (hex_to_bytes (padded_hex 64 n)) ≡ 32)
      × (from_bytes 0 (hex_to_bytes (padded_hex 64 n)) ≡ n)
digits_read n h =
    let width = length-padded 64 n in
    (
      length-hex_to_bytes 32 (padded_hex 64 n) width,
      from_bytes-hex 32 0 (padded_hex 64 n) width ∙ from_hex-padded 64 n (omega (arith, h)),
    )

-- The slot of a uint256 has 32 bytes, which denote its value.
pub uint_slot-inv :
    (v : IntegerLike) {slot : List ℕ}
    → uint_slot v ≡ ok slot
    → (length slot ≡ 32) × (to_uint256 v ≡ ok (from_bytes 0 slot))
unfolding uint_slot
uint_slot-inv v {slot} e =
    let (n, en, e1) = >>=-eq-ok (to_uint256 v) _ e in
    let (size, value) = digits_read n (to_uint256-le v en) in
    let same = ok-injective e1 in
    (ap length (sym same) ∙ size, en ∙ ap ok (sym value ∙ ap (from_bytes 0) same))

hex_of-length : (n : ℕ) (s : Text) → is_hex_of n s ≡ true → length (slice_2 s) ≡ n
unfolding is_hex_of
hex_of-length n [] h = cc
hex_of-length n (c ∷ []) h = cc
hex_of-length n (c ∷ d ∷ s) h = ground (arith, h)

pub bytes32_slot-inv : (v : Text) {slot : List ℕ} → bytes32_slot v ≡ ok slot → length slot ≡ 32
unfolding bytes32_slot
bytes32_slot-inv v e =
    let (formed, e1) = throw_if_inv (not (is_bytes32 v)) not_bytes32 _ e in
    ap length (sym (ok-injective e1))
    ∙ length-hex_to_bytes 32 (slice_2 v) (hex_of-length 64 v (ground (arith, formed)))

pub address_slot-inv : (v : Text) {slot : List ℕ} → address_slot v ≡ ok slot → length slot ≡ 32
unfolding address_slot
address_slot-inv v e =
    let (formed, e1) = throw_if_inv (not (is_address v)) not_address _ e in
    let digits = hex_of-length 40 v (ground (arith, formed)) in
    ap length (sym (ok-injective e1))
    ∙ length-hex_to_bytes 32 (zeros 24 ++ slice_2 v)
        (length-append (zeros 24) (slice_2 v) ∙ omega (arith, digits))

abbrev head_or : ℕ → List ℕ → ℕ
head_or d [] = d
head_or d (x ∷ xs) = x

abbrev tail_of : List ℕ → List ℕ
tail_of [] = []
tail_of (x ∷ xs) = xs

-- Appending to lists of one length is injective.
append-injective :
    (xs ys u v : List ℕ) → length xs ≡ length ys → xs ++ u ≡ ys ++ v → (xs ≡ ys) × (u ≡ v)
append-injective [] [] u v h e = (refl, e)
append-injective [] (y ∷ ys) u v h e = ground arith
append-injective (x ∷ xs) [] u v h e = ground arith
append-injective (x ∷ xs) (y ∷ ys) u v h e =
    let (first, rest) = append-injective xs ys u v (omega (arith, h)) (ap tail_of e) in
    (ap (λ t. t ∷ xs) (ap (head_or 0) e) ∙ ap (λ t. y ∷ t) first, rest)

-- Lists of as many 32-byte slots are told apart by their concatenations.
pub concat_slots-injective :
    (xs ys : List (List ℕ))
    → length xs ≡ length ys
    → All (λ s. length s ≡ 32) xs
    → All (λ s. length s ≡ 32) ys
    → concat_slots xs ≡ concat_slots ys
    → xs ≡ ys
unfolding concat_slots
concat_slots-injective [] [] n hx hy e = refl
concat_slots-injective [] (y ∷ ys) n hx hy e = ground arith
concat_slots-injective (x ∷ xs) [] n hx hy e = ground arith
concat_slots-injective (x ∷ xs) (y ∷ ys) n (hx, hxs) (hy, hys) e =
    let (first, rest) = append-injective x y (concat_slots xs) (concat_slots ys) (hx ∙ sym hy) e in
    let later = concat_slots-injective xs ys (omega (arith, n)) hxs hys rest in
    ap (λ t. t ∷ xs) first ∙ ap (λ t. y ∷ t) later
