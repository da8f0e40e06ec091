-- ===== src/Base/Text.antt =====
-- Byte strings: `std::string` and C strings without their final NUL.
use Prim.Native.Char.{code}
use Prim.Native.Nat.{ℕ, zero, suc, ◌+◌, ◌/◌, ◌%◌}
use Prim.Native.String.{String}
use mathlib.Core.Bool.{Bool, true, false, ◌&&◌, ◌||◌}
use mathlib.Core.Logic.{◌↔◌}
use mathlib.Core.List.{List, [], ◌∷◌, ◌++◌}
use mathlib.Core.Path.{◌≡◌, refl}
use native.Mathlib.Omega.{arith}
use qidi_plus.Base.Tests.{◌==◌, ltb, if◌then◌else◌}

abbrev pub Bytes : Type 0
Bytes = List ℕ

-- The code points of a literal: its bytes, since every literal below is ASCII.
abbrev pub codes : String → Bytes
codes String.[] = []
codes (String.◌∷◌ c s) = code c ∷ codes s

-- `a == b` of two strings.
unfoldable pub bytes_eq : Bytes → Bytes → Bool
bytes_eq [] [] = true
bytes_eq (x ∷ xs) (y ∷ ys) = x == y && bytes_eq xs ys
bytes_eq _ _ = false

pub bytes_eq_iff : (a b : Bytes) → (bytes_eq a b ≡ true) ↔ (a ≡ b)
unfolding bytes_eq
bytes_eq_iff (x ∷ a) (y ∷ b) = ground (arith, bytes_eq_iff a b)
bytes_eq_iff _ _ = ground arith

pub bytes_eq_refl : (a : Bytes) → bytes_eq a a ≡ true
bytes_eq_refl a = (bytes_eq_iff a a).1 refl

-- `std::to_string` of a number that is not negative; the fuel is above the number.
unfoldable pub to_string_loop : ℕ → ℕ → Bytes
to_string_loop zero n = []
to_string_loop (suc f) n =
    let more = to_string_loop f (n / 10) in
    if ltb n 10 then (n + b'0') ∷ [] else more ++ (n % 10 + b'0') ∷ []

unfoldable pub to_string : ℕ → Bytes
unfolding to_string_loop
to_string n = to_string_loop (n + 1) n

unfoldable pub starts_with : Bytes → Bytes → Bool
starts_with [] s = true
starts_with (c ∷ p) [] = false
starts_with (c ∷ p) (d ∷ s) = c == d && starts_with p s

-- `s.find(p) != -1`
unfoldable pub contains : Bytes → Bytes → Bool
unfolding starts_with
contains p [] = starts_with p []
contains p (c ∷ s) = starts_with p (c ∷ s) || contains p s

-- A value of the C type `int`: `negsuc n` is -(n + 1).
pub data ℤ : Type 0 where
  pos negsuc : ℕ → ℤ

-- `std::to_string` of an `int`.
unfoldable pub int_to_string : ℤ → Bytes
int_to_string (pos n) = to_string n
int_to_string (negsuc n) = b'-' ∷ to_string (n + 1)
