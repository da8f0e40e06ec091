-- ===== src/Base/Paging.antt =====
-- Pages of a list: an iterator that is advanced from `begin()`, and a page's slots.
use Prim.Native.Nat.{ℕ, zero, suc, ◌<◌, ◌≤◌}
use mathlib.Core.Path.{◌≡◌, refl, ap}
use mathlib.Core.List.{List, [], ◌∷◌}
use mathlib.Core.Option.{Option, none, some}
use native.Mathlib.Omega.{arith}
use qidi_plus.Base.Lists.{length, drop, get_or}

module _ {ℓ} {A : Type ℓ} where
  -- `it++` so often; past `end()` it is undefined.
  unfoldable pub advance : ℕ → List A → Option (List A)
  advance zero xs = some xs
  advance (suc n) [] = none
  advance (suc n) (x ∷ xs) = advance n xs

  -- `if (it != end()) { slot = *it; it++; }` for each slot, over slots that hold a default.
  unfoldable pub slots : ℕ → A → List A → List A
  slots zero d xs = []
  slots (suc n) d [] = d ∷ slots n d []
  slots (suc n) d (x ∷ xs) = x ∷ slots n d xs

module _ {ℓ} {A : Type ℓ} where
  pub advance-drop : (n : ℕ) (xs : List A) → n ≤ length xs → advance n xs ≡ some (drop n xs)
  unfolding advance
  advance-drop zero xs h = refl
  advance-drop (suc n) [] h = absurd (omega arith)
  advance-drop (suc n) (x ∷ xs) h = advance-drop n xs (omega arith)

  pub advance_past : (n : ℕ) (xs : List A) → length xs < n → advance n xs ≡ none
  unfolding advance
  advance_past zero xs h = absurd (omega arith)
  advance_past (suc n) [] h = refl
  advance_past (suc n) (x ∷ xs) h = advance_past n xs (omega arith)

  pub get_or-slots :
      (n i : ℕ) (d : A) (xs : List A) → i < n → get_or (slots n d xs) i d ≡ get_or xs i d
  unfolding slots
  get_or-slots zero i d xs h = absurd (omega arith)
  get_or-slots (suc n) zero d [] h = refl
  get_or-slots (suc n) zero d (x ∷ xs) h = refl
  get_or-slots (suc n) (suc i) d [] h = get_or-slots n i d [] (omega arith)
  get_or-slots (suc n) (suc i) d (x ∷ xs) h = get_or-slots n i d xs (omega arith)

  pub length-slots : (n : ℕ) (d : A) (xs : List A) → length (slots n d xs) ≡ n
  unfolding slots
  length-slots zero d xs = refl
  length-slots (suc n) d [] = ap suc (length-slots n d [])
  length-slots (suc n) d (x ∷ xs) = ap suc (length-slots n d xs)
