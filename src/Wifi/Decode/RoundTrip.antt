-- ===== src/Wifi/Decode/RoundTrip.antt =====
-- src/MakerbaseWiFi.cpp: `printf_decode` against wpa_supplicant's escapes.
use qidi_plus.Base.{
  ℕ, zero, suc, ◌+◌, ◌-◌, ◌/◌, ◌%◌, ◌≤◌, ◌<◌, ◌≡◌, ◌≢◌, refl, ap, ◌∙◌, [], ◌∷◌, ◌++◌, some, arith,
  leb, ltb, ◌==◌, ◌&&◌, Bytes, length, length-append, append_assoc, append-nil, if◌then◌else◌,
}
use qidi_plus.Wifi.Decode.{
  peek, escape, round, decode_loop, printf_decode, hex2num, hex_escape, hex2byte,
}

pub hex_digit : ℕ → ℕ
hex_digit n = if ltb n 10 then n + b'0' else n - 10 + b'a'

-- The escape of one byte: printable ASCII stands for itself.
unfoldable pub escaped_byte : ℕ → Bytes
unfolding hex_digit
escaped_byte c =
    if c == b'\\'
    then b'\\' ∷ b'\\' ∷ []
    else if c == b'"'
    then b'\\' ∷ b'"' ∷ []
    else if c == 10
    then b'\\' ∷ b'n' ∷ []
    else if c == 13
    then b'\\' ∷ b'r' ∷ []
    else if c == 9
    then b'\\' ∷ b't' ∷ []
    else if c == 27
    then b'\\' ∷ b'e' ∷ []
    else if leb 32 c && leb c 126
    then c ∷ []
    else b'\\' ∷ b'x' ∷ hex_digit (c / 16) ∷ hex_digit (c % 16) ∷ []

unfoldable pub escaped : Bytes → Bytes
unfolding escaped_byte
escaped [] = []
escaped (c ∷ s) = escaped_byte c ++ escaped s

abbrev pub AreBytes : Bytes → Type 0
AreBytes [] = Unit
AreBytes (c ∷ s) = (c < 256) × AreBytes s

hex2num-hex_digit : (n : ℕ) → n < 16 → hex2num (hex_digit n) ≡ some n
unfolding hex2num hex_digit
hex2num-hex_digit n h = ground arith

hex_escape-hex_digit :
    (c : ℕ) (rest : Bytes)
    → c < 256
    → hex_escape (hex_digit (c / 16) ∷ hex_digit (c % 16) ∷ rest) ≡ (c ∷ [], rest)
unfolding hex_escape hex2byte
hex_escape-hex_digit c rest h =
    ground (arith, hex2num-hex_digit (c / 16), hex2num-hex_digit (c % 16))

abbrev first_round : Bytes → Bytes × Bytes
first_round [] = ([], [])
first_round (c ∷ s) = round c s

first_round-escaped_byte :
    (c : ℕ) (rest : Bytes) → c < 256 → first_round (escaped_byte c ++ rest) ≡ (c ∷ [], rest)
unfolding escaped_byte round escape
first_round-escaped_byte c rest h = ground (arith, hex_escape-hex_digit c rest h)

peek-escaped_byte : (c : ℕ) (rest : Bytes) → peek (escaped_byte c ++ rest) ≢ 0
unfolding escaped_byte
peek-escaped_byte c rest = ground arith

decode_loop_step :
    (f maxlen : ℕ) (s out : Bytes)
    → peek s ≢ 0
    → length out + 1 < maxlen
    → decode_loop (suc f) maxlen s out
      ≡ decode_loop f maxlen (first_round s).1 (out ++ (first_round s).0)
unfolding decode_loop
decode_loop_step f maxlen [] out h l = absurd (h refl)
decode_loop_step f maxlen (c ∷ s) out h l = ground arith

escaped_cons : (c : ℕ) (s : Bytes) → escaped (c ∷ s) ≡ escaped_byte c ++ escaped s
unfolding escaped
escaped_cons c s = refl

decode_loop-escaped :
    (s : Bytes) (f maxlen : ℕ) (out : Bytes)
    → AreBytes s
    → length s < f
    → length out + length s < maxlen
    → decode_loop f maxlen (escaped s) out ≡ some (out ++ s)
decode_loop-escaped [] zero maxlen out b h l = absurd (omega arith)
decode_loop-escaped [] (suc f) maxlen out b h l = unfold decode_loop escaped in rw append-nil
decode_loop-escaped (c ∷ s) zero maxlen out b h l = absurd (omega arith)
decode_loop-escaped (c ∷ s) (suc f) maxlen out b h l = rw (escaped_cons c s) (
    decode_loop_step f maxlen (escaped_byte c ++ escaped s) out (peek-escaped_byte c (escaped s))
      (omega arith)
    ∙ rw (first_round-escaped_byte c (escaped s) b.0) (
        decode_loop-escaped s f maxlen (out ++ c ∷ []) b.1 (omega arith)
          (omega (arith, length-append out (c ∷ [])))
        ∙ ap some (append_assoc out (c ∷ []) s)))

length-escaped : (s : Bytes) → length s ≤ length (escaped s)
unfolding escaped
length-escaped [] = omega arith
length-escaped (c ∷ s) =
    omega (arith, length-append (escaped_byte c) (escaped s), length-escaped s, escaped_byte_pos c)
  where
    escaped_byte_pos : (d : ℕ) → 0 < length (escaped_byte d)
    escaped_byte_pos d = unfold escaped_byte in ground arith

-- For every list of bytes that fits into the buffer with its NUL, decoding its escaped form gives
-- it back.
pub printf_decode-escaped :
    (maxlen : ℕ) (s : Bytes)
    → AreBytes s
    → length s < maxlen
    → printf_decode maxlen (escaped s) ≡ some s
unfolding printf_decode
printf_decode-escaped maxlen s b h =
    decode_loop-escaped s _ maxlen [] b (omega (arith, length-escaped s)) (omega arith)
