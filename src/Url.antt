-- ===== src/Url.antt =====
-- The escape of URL text: hikyuu/utilities/http_client/url.cpp. A C string is the list of its bytes up
-- to the terminating 0, which is what `p[1]` and `p[2]` read at the end. `char` is signed, as on the
-- platforms that the build names.
pub mod RoundTrip
use Prim.Native.Nat.{bit_or}
use hku_utils.Base.{
  ℕ, ◌+◌, ◌-◌, ◌*◌, ◌/◌, ◌%◌, ◌^◌, List, [], ◌∷◌, ◌++◌, Bool, true, false, ◌&&◌, ◌||◌, ltb, leb,
  ◌==◌, if◌then◌else◌, take,
}

-- The character classes, on a byte. The tests of the source are on the signed value; a byte from 128 on
-- is negative there and passes none of them, and passes none of these either.
abbrev pub is_alpha : ℕ → Bool
is_alpha c = (leb b'a' c && leb c b'z') || (leb b'A' c && leb c b'Z')

abbrev pub is_number : ℕ → Bool
is_number c = leb b'0' c && leb c b'9'

abbrev pub is_hex : ℕ → Bool
is_hex c = is_number c || ((leb b'a' c && leb c b'f') || (leb b'A' c && leb c b'F'))

unfoldable pub is_unambiguous : ℕ → Bool
is_unambiguous c =
    (is_alpha c || is_number c) || (c == b'-' || (c == b'_' || (c == b'.' || c == b'~')))

unfoldable pub hex2i : ℕ → ℕ
hex2i hex =
    if leb hex b'9' then hex - b'0' else (if leb hex b'F' then hex - b'A' + 10 else hex - b'a' + 10)

-- A digit of `%X`.
unfoldable pub hex_digit : ℕ → ℕ
hex_digit d = if ltb d 10 then d + b'0' else d - 10 + b'A'

-- The conversion of a byte to the `unsigned int` that `%X` prints: the value of the signed `char` modulo
-- 2 ^ 32.
unfoldable pub promoted : ℕ → ℕ
promoted c = if ltb c 128 then c else c + (2 ^ 32 - 256)

-- `%02X`, of a value below 256 or from 2 ^ 28 on, the only ones that `promoted` gives.
unfoldable pub format_02x : ℕ → List ℕ
unfolding hex_digit
format_02x v =
    if ltb v 256
    then hex_digit (v / 16) ∷ hex_digit (v % 16) ∷ []
    else (hex_digit (v / 2 ^ 28)
        ∷ hex_digit (v / 2 ^ 24 % 16)
        ∷ hex_digit (v / 2 ^ 20 % 16)
        ∷ hex_digit (v / 2 ^ 16 % 16)
        ∷ hex_digit (v / 2 ^ 12 % 16)
        ∷ hex_digit (v / 2 ^ 8 % 16)
        ∷ hex_digit (v / 16 % 16)
        ∷ hex_digit (v % 16)
        ∷ [])

-- `snprintf(szHex, 4, "%%%02X", *p)`: three characters and the terminator.
unfoldable pub percent : ℕ → List ℕ
unfolding promoted format_02x
percent c = take 3 (b'%' ∷ format_02x (promoted c))

-- What one round of the loop of `url_escape` appends.
unfoldable pub escape_byte : ℕ → List ℕ
unfolding is_unambiguous percent
escape_byte c = if is_unambiguous c then c ∷ [] else percent c

unfoldable pub url_escape : List ℕ → List ℕ
unfolding escape_byte
url_escape [] = []
url_escape (c ∷ istr) = escape_byte c ++ url_escape istr

-- `(hex2i(p[1]) << 4) | hex2i(p[2])`, appended as a `char`.
unfoldable pub decoded : ℕ → ℕ → ℕ
unfolding hex2i
decoded a b = bit_or (hex2i a * 16) (hex2i b) % 256

unfoldable pub url_unescape : List ℕ → List ℕ
unfolding decoded
url_unescape [] = []
url_unescape (c ∷ []) = c ∷ []
url_unescape (c ∷ a ∷ []) = c ∷ url_unescape (a ∷ [])
url_unescape (c ∷ a ∷ b ∷ istr) = elim (c == b'%' && (is_hex a && is_hex b)) [
  | true ↦ decoded a b ∷ url_unescape istr
  | false ↦ c ∷ url_unescape (a ∷ b ∷ istr)
]
