-- ===== src/Protocol/Json.antt =====
-- What src/scnsim/execution/protocol.py and src/scnsim/canonical.py ask of decoded JSON values.
use Prim.Native.Nat.{◌/◌, ◌%◌}
use scnsim.Base.{
  ℕ, String, List, [], ◌∷◌, ◌+◌, ◌*◌, ◌-◌, ◌^◌, Bool, true, false, Option, none, some, not, ◌&&◌,
  ◌||◌, length, leb, ltb, is_some, if◌then◌else◌,
}
use scnsim.Base.Eq.{◌==◌, nat_eq, string_eq}
use scnsim.Base.Dict.{Dict, lookup, contains}
use scnsim.Base.Text.{codes}
use scnsim.Base.Int.{ℤ, pos, negsuc}

-- A member's value. A float is given by its 64 bits; no test here looks into an array or an object,
-- so these are their texts, and of an object whether it holds an array at any depth.
pub data Json : Type 0 where
  null : Json
  boolean : Bool → Json
  integer : ℤ → Json
  real : ℕ → Json
  text : String → Json
  array : String → Json
  nested : (holds_array : Bool) → String → Json

abbrev pub Frame : Type 0
Frame = Dict String Json

-- What `json.loads` returns: a dict, or another value.
pub data Decoded : Type 0 where
  object : Frame → Decoded
  other : Decoded

-- `character in "0123456789abcdef"`
unfoldable pub is_hex : ℕ → Bool
is_hex c = (leb b'0' c && leb c b'9') || (leb b'a' c && leb c b'f')

unfoldable pub all_hex : List ℕ → Bool
unfolding is_hex
all_hex [] = true
all_hex (c ∷ cs) = is_hex c && all_hex cs

-- `_is_sha256`
unfoldable pub is_sha256 : Json → Bool
unfolding all_hex
is_sha256 (text s) = (length (codes s) == 64) && all_hex (codes s)
is_sha256 _ = false

-- `value == expected` for a text.
unfoldable pub is_text : String → Json → Bool
is_text expected (text s) = s == expected
is_text expected _ = false

-- `value == expected` for a number: Python compares bool, int and float by value. `integral` gives
-- the integer that a float equals, if there is one.
unfoldable pub is_number : (ℕ → Option ℤ) → ℕ → Json → Bool
is_number integral expected (integer (pos n)) = n == expected
is_number integral expected (boolean b) = (if b then 1 else 0) == expected
is_number integral expected (real bits) = elim (integral bits) [
  | none ↦ false
  | some value ↦ elim value [ pos n ↦ n == expected | negsuc n ↦ false ]
]
is_number integral expected _ = false

-- `isinstance(value, int)`, not a bool, and at least `least`.
unfoldable pub is_count : ℕ → Json → Bool
is_count least (integer (pos n)) = leb least n
is_count least _ = false

-- `isinstance(value, int)`, which a bool is, and at least `least`.
unfoldable pub is_integral : ℕ → Json → Bool
is_integral least (integer (pos n)) = leb least n
is_integral least (boolean b) = leb least (if b then 1 else 0)
is_integral least _ = false

-- A test of `frame.get(key)`, which fails on a missing key.
unfoldable pub member : String → (Json → Bool) → Frame → Bool
unfolding lookup
member key test frame = elim (lookup key frame) [ none ↦ false | some value ↦ test value ]

-- `set(frame) == {…}`
unfoldable pub within : List String → Frame → Bool
within keys [] = true
within keys ((key, value) ∷ frame) = contains key keys && within keys frame

unfoldable pub covers : List String → Frame → Bool
covers [] frame = true
covers (key ∷ keys) frame = is_some (lookup key frame) && covers keys frame

unfoldable pub has_keys : List String → Frame → Bool
unfolding within covers
has_keys keys frame = within keys frame && covers keys frame

-- The number that the lower-case hex digits stand for.
unfoldable pub hex_value : ℕ → List ℕ → ℕ
hex_value acc [] = acc
hex_value acc (c ∷ cs) = hex_value (acc * 16 + (if leb c b'9' then c - b'0' else c - b'a' + 10)) cs

-- `math.isfinite` of a binary64 by its bits: not all bits of the exponent are set.
unfoldable pub is_finite : ℕ → Bool
is_finite bits = not (bits / 2 ^ 52 % 2 ^ 11 == 2047)

-- `float64_from_hex`: the bits, or none where it raises.
unfoldable pub float64_from_hex : Json → Option ℕ
unfolding all_hex hex_value is_finite
float64_from_hex (text s) =
    if (length (codes s) == 16) && all_hex (codes s) && is_finite (hex_value 0 (codes s))
    then some (hex_value 0 (codes s))
    else none
float64_from_hex _ = none

-- `best < 0.0` of a finite binary64: the sign bit is set, and it is not -0.0.
unfoldable pub is_negative : ℕ → Bool
is_negative bits = ltb (2 ^ 63) bits

-- The number under a key whose value is known to be a count.
unfoldable pub count_at : String → Frame → ℕ
count_at key frame = elim (lookup key frame) [
  | none ↦ 0
  | some value ↦ elim value [ integer n ↦ (elim n [ pos k ↦ k | negsuc k ↦ 0 ]) | _ ↦ 0 ]
]
