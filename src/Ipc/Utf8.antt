-- ===== src/Ipc/Utf8.antt =====
-- `str.encode("utf-8")` and `bytes.decode("utf-8")` of Python, as python_binding/lsm/_transport.py uses
-- them. Texts are lists of code points, and bytes are numbers below 256.
use libstoragemgmt.Base.{
  ℕ, ◌+◌, ◌-◌, ◌*◌, ◌/◌, ◌%◌, ◌<◌, ◌≡◌, refl, Bool, ◌&&◌, ◌||◌, Option, none, some, List, [], ◌∷◌,
  ◌++◌, ltb, leb, if◌then◌else◌, arith,
}

-- one code point; a surrogate has no encoding
encode_char : ℕ → Option (List ℕ)
encode_char c =
    if ltb c 0x80
    then some (c ∷ [])
    else if ltb c 0x800
    then some ((0xc0 + c / 64) ∷ (0x80 + c % 64) ∷ [])
    else if leb 0xd800 c && ltb c 0xe000
    then none
    else if ltb c 0x10000
    then some ((0xe0 + c / 4096) ∷ (0x80 + c / 64 % 64) ∷ (0x80 + c % 64) ∷ [])
    else if ltb c 0x110000
    then some
        ((0xf0 + c / 262144) ∷ (0x80 + c / 4096 % 64) ∷ (0x80 + c / 64 % 64) ∷ (0x80 + c % 64) ∷ [])
    else none

abbrev before : Option (List ℕ) → Option (List ℕ) → Option (List ℕ)
before none rest = none
before (some b) none = none
before (some b) (some bs) = some (b ++ bs)

-- `s.encode("utf-8")`; none is a UnicodeEncodeError.
unfoldable pub encode : List ℕ → Option (List ℕ)
unfolding encode_char
encode [] = some []
encode (c ∷ s) = before (encode_char c) (encode s)

-- a continuation byte
abbrev is_tail : ℕ → Bool
is_tail b = leb 0x80 b && ltb b 0xc0

abbrev put : ℕ → Option (List ℕ) → Option (List ℕ)
put c none = none
put c (some s) = some (c ∷ s)

two : ℕ → ℕ → Option ℕ
two a b =
    if leb 0xc2 a && ltb a 0xe0 && is_tail b then some ((a - 0xc0) * 64 + (b - 0x80)) else none

-- neither a longer form than is needed nor a surrogate
three : ℕ → ℕ → ℕ → Option ℕ
three a b c =
    let n = (a - 0xe0) * 4096 + (b - 0x80) * 64 + (c - 0x80) in
    if leb 0xe0 a
      && ltb a 0xf0
      && is_tail b
      && is_tail c
      && leb 0x800 n
      && (ltb n 0xd800 || leb 0xe000 n)
    then some n
    else none

four : ℕ → ℕ → ℕ → ℕ → Option ℕ
four a b c d =
    let n = (a - 0xf0) * 262144 + (b - 0x80) * 4096 + (c - 0x80) * 64 + (d - 0x80) in
    if leb 0xf0 a
      && ltb a 0xf5
      && is_tail b
      && is_tail c
      && is_tail d
      && leb 0x10000 n
      && ltb n 0x110000
    then some n
    else none

abbrev put_or : Option ℕ → Option (List ℕ) → Option (List ℕ) → Option (List ℕ)
put_or (some n) rest longer = put n rest
put_or none rest longer = longer

-- `b.decode("utf-8")`; none is a UnicodeDecodeError. The first byte says how many bytes there are.
unfoldable pub decode : List ℕ → Option (List ℕ)
unfolding two three four
decode [] = some []
decode (a ∷ []) = if ltb a 0x80 then some (a ∷ []) else none
decode (a ∷ b ∷ []) =
    if ltb a 0x80 then put a (decode (b ∷ [])) else put_or (two a b) (some []) none
decode (a ∷ b ∷ c ∷ []) =
    if ltb a 0x80
    then put a (decode (b ∷ c ∷ []))
    else put_or (two a b) (decode (c ∷ [])) (put_or (three a b c) (some []) none)
decode (a ∷ b ∷ c ∷ d ∷ s) =
    if ltb a 0x80
    then put a (decode (b ∷ c ∷ d ∷ s))
    else put_or (two a b) (decode (c ∷ d ∷ s))
        (put_or (three a b c) (decode (d ∷ s)) (put_or (four a b c d) (decode s) none))

-- every code point is below 128
abbrev pub IsAscii : List ℕ → Type 0
IsAscii [] = Unit
IsAscii (c ∷ s) = (c < 0x80) × IsAscii s

-- A text in ASCII is its bytes.
pub encode-of_ascii : (s : List ℕ) → IsAscii s → encode s ≡ some s
unfolding encode encode_char
encode-of_ascii [] h = refl
encode-of_ascii (c ∷ s) h = ground (arith, encode-of_ascii s h.1)

pub decode-of_ascii : (s : List ℕ) → IsAscii s → decode s ≡ some s
unfolding decode
decode-of_ascii [] h = refl
decode-of_ascii (a ∷ []) h = ground arith
decode-of_ascii (a ∷ b ∷ []) h = ground (arith, decode-of_ascii (b ∷ []) h.1)
decode-of_ascii (a ∷ b ∷ c ∷ []) h = ground (arith, decode-of_ascii (b ∷ c ∷ []) h.1)
decode-of_ascii (a ∷ b ∷ c ∷ d ∷ s) h = ground (arith, decode-of_ascii (b ∷ c ∷ d ∷ s) h.1)
