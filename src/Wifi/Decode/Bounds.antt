-- ===== src/Wifi/Decode/Bounds.antt =====
-- src/MakerbaseWiFi.cpp: the end and the bounds of `printf_decode`.
use qidi_plus.Base.{
  ℕ, zero, suc, ◌+◌, ◌-◌, ◌≤◌, ◌<◌, ◌≡◌, refl, [], ◌∷◌, ◌++◌, none, some, arith, leb, ◌==◌, ◌||◌,
  inl, inr, Bool-cases, Bytes, length, length-append,
}
use qidi_plus.Wifi.Decode.{
  tail, escape, round, decode_loop, printf_decode, hex2num, hex_escape, octal_escape, octal_more,
}

-- A round writes at most one byte.
abbrev Small : Bytes → Bytes × Bytes → Type 0
Small s r = (length r.0 ≤ 1) × (length r.1 ≤ length s)

hex2num_eof : hex2num 0 ≡ none
unfolding hex2num
hex2num_eof = refl

length-tail : (s : Bytes) → length (tail s) ≤ length s
length-tail [] = omega arith
length-tail (c ∷ s) = omega arith

hex_escape-Small : (s : Bytes) → Small s (hex_escape s)
unfolding hex_escape
hex_escape-Small s = ground (arith, length-tail s, length-tail (tail s))

octal_more_len : (v : ℕ) (s : Bytes) → length (octal_more (v, s)).1 ≤ length s
unfolding octal_more
octal_more_len v s = ground (arith, length-tail s)

octal_escape-Small : (c : ℕ) (s : Bytes) → Small s (octal_escape c s)
unfolding octal_escape
octal_escape-Small c s =
    let first = octal_more (c - b'0', s) in
    ground (arith, octal_more_len (c - b'0') s, octal_more_len first.0 first.1)

escape-Small : (s : Bytes) → Small s (escape s)
unfolding escape
escape-Small [] = omega arith
escape-Small (c ∷ s) = ground (arith, hex_escape-Small s, octal_escape-Small c s)

round_len : (c : ℕ) (s : Bytes) → Small s (round c s)
unfolding round
round_len c s = ground (arith, escape-Small s)

pub decode_loop_total :
    (f maxlen : ℕ) (s out : Bytes)
    → length s < f
    → (r : Bytes) × (decode_loop f maxlen s out ≡ some r)
unfolding decode_loop
decode_loop_total zero maxlen s out h = absurd (omega arith)
decode_loop_total (suc f) maxlen [] out h = (out, refl)
decode_loop_total (suc f) maxlen (c ∷ s) out h =
    elim (Bool-cases (c == 0 || leb maxlen (length out + 1))) [
      | inl stop ↦ (out, rw stop)
      | inr more ↦ rw more (
          decode_loop_total f maxlen (round c s).1 (out ++ (round c s).0)
            (omega (arith, round_len c s)))
    ]

pub decode_loop_bound :
    (f maxlen : ℕ) (s out r : Bytes)
    → length out < maxlen
    → decode_loop f maxlen s out ≡ some r
    → length r < maxlen
unfolding decode_loop
decode_loop_bound zero maxlen s out r h e = cc
decode_loop_bound (suc f) maxlen [] out r h e = ground arith
decode_loop_bound (suc f) maxlen (c ∷ s) out r h e =
    elim (Bool-cases (c == 0 || leb maxlen (length out + 1))) [
      | inl stop ↦ ground arith
      | inr more ↦
          decode_loop_bound f maxlen (round c s).1 (out ++ (round c s).0) r
            (ground (arith, round_len c s, length-append out (round c s).0)) (ground arith)
    ]

-- For every buffer size above 0 and every C string, `printf_decode` returns, and what it wrote
-- leaves room for the final NUL inside the buffer.
pub printf_decode_bounds :
    (maxlen : ℕ) (s : Bytes)
    → 0 < maxlen
    → (r : Bytes) × (printf_decode maxlen s ≡ some r) × (length r < maxlen)
unfolding printf_decode
printf_decode_bounds maxlen s h =
    let (r, e) = decode_loop_total (length s + 1) maxlen s [] (omega arith) in
    (r, e, decode_loop_bound (length s + 1) maxlen s [] r h e)
