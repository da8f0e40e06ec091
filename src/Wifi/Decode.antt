-- ===== src/Wifi/Decode.antt =====
-- src/MakerbaseWiFi.cpp: `hex2num`, `hex2byte` and `printf_decode`, which undo the escapes that
-- wpa_supplicant puts into a network's name. A C string is the list of its bytes, with no NUL.
pub mod Bounds
pub mod RoundTrip
use qidi_plus.Base.{
  ℕ, zero, suc, ◌+◌, ◌-◌, ◌*◌, ◌%◌, Bool, true, false, ◌&&◌, ◌||◌, List, [], ◌∷◌, ◌++◌, Option,
  none, some, ltb, leb, ◌==◌, if◌then◌else◌, ◌>>=◌, Bytes, length,
}

-- `*pos`: the NUL at the end reads as 0.
abbrev pub peek : Bytes → ℕ
peek [] = 0
peek (c ∷ s) = c

abbrev pub tail : Bytes → Bytes
tail [] = []
tail (c ∷ s) = s

-- `none` is -1.
unfoldable pub hex2num : ℕ → Option ℕ
hex2num c =
    if leb b'0' c && leb c b'9'
    then some (c - b'0')
    else if leb b'a' c && leb c b'f'
    then some (c - b'a' + 10)
    else if leb b'A' c && leb c b'F'
    then some (c - b'A' + 10)
    else none

-- `(a << 4) | b` for two digits below 16.
unfoldable pub hex2byte : Bytes → Option ℕ
hex2byte s = do a ← hex2num (peek s); b ← hex2num (peek (tail s)); some (a * 16 + b)

-- `case 'x'`, behind the x: the bytes written, and what is left.
unfoldable pub hex_escape : Bytes → Bytes × Bytes
hex_escape s = elim (hex2byte s) [
  | some v ↦ (v ∷ [], tail (tail s))
  | none ↦ elim (hex2num (peek s)) [ none ↦ ([], s) | some v ↦ (v ∷ [], tail s) ]
]

unfoldable pub is_octal : ℕ → Bool
is_octal c = leb b'0' c && leb c b'7'

-- One of the two tests for a further octal digit.
unfoldable pub octal_more : ℕ × Bytes → ℕ × Bytes
octal_more (v, s) = if is_octal (peek s) then (v * 8 + (peek s - b'0'), tail s) else (v, s)

-- `case '0'` to `case '7'`; `buf` holds bytes, so the value is cut to eight bits.
unfoldable pub octal_escape : ℕ → Bytes → Bytes × Bytes
octal_escape c s = let (v, rest) = octal_more (octal_more (c - b'0', s)) in (v % 256 ∷ [], rest)

-- The inner `switch`, behind a backslash.
unfoldable pub escape : Bytes → Bytes × Bytes
escape [] = ([], [])
escape (c ∷ s) =
    if c == b'\\'
    then (b'\\' ∷ [], s)
    else if c == b'"'
    then (b'"' ∷ [], s)
    else if c == b'n'
    then (10 ∷ [], s)
    else if c == b'r'
    then (13 ∷ [], s)
    else if c == b't'
    then (9 ∷ [], s)
    else if c == b'e'
    then (27 ∷ [], s)
    else if c == b'x'
    then hex_escape s
    else if is_octal c
    then octal_escape c s
    else ([], c ∷ s)

-- The outer `switch`: what one round writes, and what is left.
unfoldable pub round : ℕ → Bytes → Bytes × Bytes
round c s = if c == b'\\' then escape s else (c ∷ [], s)

-- The `while` loop, on fuel; `out` holds the bytes written so far, and `len` is their number.
unfoldable pub decode_loop : ℕ → ℕ → Bytes → Bytes → Option Bytes
decode_loop zero maxlen s out = none
decode_loop (suc f) maxlen [] out = some out
decode_loop (suc f) maxlen (c ∷ s) out =
    let (written, rest) = round c s in
    let next = decode_loop f maxlen rest (out ++ written) in
    if c == 0 || leb maxlen (length out + 1) then some out else next

-- The bytes before the final NUL; the result `len` is their number.
unfoldable pub printf_decode : ℕ → Bytes → Option Bytes
unfolding decode_loop round escape hex_escape octal_escape octal_more is_octal hex2byte hex2num
printf_decode maxlen s = decode_loop (length s + 1) maxlen s []
