-- ===== src/Text/Hex.antt =====
-- Hexadecimal digits in texts: `'%02x'`, `binascii.unhexlify` and the test of one digit.
use libstoragemgmt.Base.{
  ℕ, ◌+◌, ◌-◌, ◌*◌, ◌/◌, ◌%◌, ◌<◌, ◌≡◌, refl, Bool, ◌&&◌, ◌||◌, Option, none, some, List, [], ◌∷◌,
  ltb, leb, if◌then◌else◌, arith,
}

-- `[0-9a-f]`
unfoldable pub is_lower_hex : ℕ → Bool
is_lower_hex c = leb b'0' c && leb c b'9' || leb b'a' c && leb c b'f'

-- `[0-9A-Fa-f]`
unfoldable pub is_hex : ℕ → Bool
is_hex c = leb b'0' c && leb c b'9' || leb b'a' c && leb c b'f' || leb b'A' c && leb c b'F'

hex_digit : ℕ → ℕ
hex_digit n = if ltb n 10 then b'0' + n else b'a' + (n - 10)

hex_value : ℕ → Option ℕ
hex_value c =
    if leb b'0' c && leb c b'9'
    then some (c - b'0')
    else if leb b'a' c && leb c b'f'
    then some (c - b'a' + 10)
    else if leb b'A' c && leb c b'F'
    then some (c - b'A' + 10)
    else none

-- `''.join(['%02x' % b for b in bs])`
unfoldable pub hexlify : List ℕ → List ℕ
unfolding hex_digit
hexlify [] = []
hexlify (b ∷ bs) = hex_digit (b / 16) ∷ hex_digit (b % 16) ∷ hexlify bs

abbrev byte : Option ℕ → Option ℕ → Option (List ℕ) → Option (List ℕ)
byte (some h) (some l) (some bs) = some ((h * 16 + l) ∷ bs)
byte _ _ _ = none

-- `binascii.unhexlify(s)`; none is a binascii.Error.
unfoldable pub unhexlify : List ℕ → Option (List ℕ)
unfolding hex_value
unhexlify [] = some []
unhexlify (h ∷ []) = none
unhexlify (h ∷ l ∷ s) = byte (hex_value h) (hex_value l) (unhexlify s)

-- every element is below 256
abbrev pub AllBytes : List ℕ → Type 0
AllBytes [] = Unit
AllBytes (b ∷ bs) = (b < 256) × AllBytes bs

value_digit : (n : ℕ) → n < 16 → hex_value (hex_digit n) ≡ some n
unfolding hex_value hex_digit
value_digit n h = ground arith

-- Bytes that are written in hexadecimal digits are read back.
pub unhexlify-hexlify : (bs : List ℕ) → AllBytes bs → unhexlify (hexlify bs) ≡ some bs
unfolding unhexlify hexlify
unhexlify-hexlify [] h = refl
unhexlify-hexlify (b ∷ bs) h =
    let same : b / 16 * 16 + b % 16 ≡ b = omega arith in
    rw
      (
        value_digit (b / 16) (omega arith),
        value_digit (b % 16) (omega arith),
        unhexlify-hexlify bs h.1,
        same,
      )
      refl
