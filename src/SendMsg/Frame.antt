-- ===== src/SendMsg/Frame.antt =====
-- src/send_msg.cpp: each command ends in three bytes 0xff. The screen takes the stream apart at
-- them; `frames` is that reading.
use qidi_plus.Base.{
  ℕ, zero, suc, ◌+◌, ◌/◌, ◌≡◌, ◌≢◌, refl, ap, sym, ◌∙◌, ◌&&◌, List, [], ◌∷◌, ◌++◌, append_assoc,
  append-nil, ltb, ◌==◌, if◌then◌else◌, Bytes, arith, ℤ, pos, negsuc, int_to_string, to_string,
  to_string_loop, Bool-cases, inl, inr,
}

abbrev pub terminator : Bytes
terminator = 255 ∷ 255 ∷ 255 ∷ []

pub ffs : ℕ → Bytes
ffs zero = []
ffs (suc n) = 255 ∷ ffs n

-- `held` counts the bytes 0xff seen since the last other byte, up to two.
pub scan : Bytes → ℕ → Bytes → List Bytes
scan body held [] = []
scan body held (c ∷ s) =
    let ends = c == 255 && held == 2 in
    let next_body = if c == 255 then body else (body ++ ffs held) ++ c ∷ [] in
    let rest =
      scan (if ends then [] else next_body) (if ends then 0 else if c == 255 then held + 1 else 0)
        s in
    if ends then body ∷ rest else rest

-- The bodies of the complete commands in a stream.
pub frames : Bytes → List Bytes
unfolding scan
frames s = scan [] 0 s

abbrev pub IsClean : Bytes → Type 0
IsClean [] = Unit
IsClean (c ∷ s) = (c ≢ 255) × IsClean s

pub IsClean-append : (a b : Bytes) → IsClean a → IsClean b → IsClean (a ++ b)
IsClean-append [] b h k = k
IsClean-append (c ∷ a) b h k = (h.0, IsClean-append a b h.1 k)

pub IsFrame : Bytes → Type 0
IsFrame b = (body : Bytes) × (b ≡ body ++ terminator) × IsClean body

pub IsFrame-terminator : IsFrame terminator
unfolding IsFrame
IsFrame-terminator = ([], refl, tt)

pub IsFrame-append : (a b : Bytes) → IsClean a → IsFrame b → IsFrame (a ++ b)
unfolding IsFrame
IsFrame-append a b h (body, e, k) =
    (a ++ body, ap (◌++◌ a) e ∙ sym (append_assoc a body terminator), IsClean-append a body h k)

scan_body :
    (body acc s : Bytes)
    → IsClean body
    → scan acc 0 (body ++ (terminator ++ s)) ≡ (acc ++ body) ∷ scan [] 0 s
unfolding scan ffs
scan_body [] acc s h = ap (λ (b : Bytes). b ∷ scan [] 0 s) (sym (append-nil acc))
scan_body (c ∷ body) acc s h =
    ground
      (arith, append-nil acc, scan_body body (acc ++ c ∷ []) s h.1, append_assoc acc (c ∷ []) body)

pub frames_nil : frames [] ≡ []
unfolding frames
frames_nil = refl

pub frames_frame :
    (b s : Bytes)
    → IsFrame b
    → (body : Bytes) × (b ≡ body ++ terminator) × (frames (b ++ s) ≡ body ∷ frames s)
unfolding frames IsFrame
frames_frame b s (body, e, h) =
    (body, e, rw (e, append_assoc body terminator s) (scan_body body [] s h))

to_string_loop-IsClean : (f n : ℕ) → IsClean (to_string_loop f n)
unfolding to_string_loop
to_string_loop-IsClean zero n = tt
to_string_loop-IsClean (suc f) n = elim (Bool-cases (ltb n 10)) [
  | inl one ↦ rw one (ground arith, tt)
  | inr more ↦ rw more (
      IsClean-append (to_string_loop f (n / 10)) _ (to_string_loop-IsClean f (n / 10))
        (omega arith, tt))
]

pub to_string-IsClean : (n : ℕ) → IsClean (to_string n)
unfolding to_string
to_string-IsClean n = to_string_loop-IsClean (n + 1) n

pub int_to_string-IsClean : (z : ℤ) → IsClean (int_to_string z)
unfolding int_to_string
int_to_string-IsClean (pos n) = to_string-IsClean n
int_to_string-IsClean (negsuc n) =
    IsClean-append (b'-' ∷ []) (to_string (n + 1)) (omega arith) (to_string-IsClean (n + 1))
