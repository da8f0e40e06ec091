-- ===== src/Printer/Json.antt =====
-- The JSON library and the floating-point numbers that `src/mks_printer.cpp` uses.
use qidi_plus.Base.{ℕ, ◌+◌, Bool, Option, some, if◌then◌else◌, ◌>>=◌, Bytes, List, [], ◌∷◌}

-- `none` is an exception. `member` and `elem` are the two `operator[]`, `is_null` the comparison
-- with null, `to_…` the conversions of an assignment. Of the arithmetic, `round_to n x` is
-- `round(x * n) / n`, `rounded x` is `(int)(x + 0.5)`, `percent x` is `(int)(x * 100)`, and
-- `below i x` is `i < x`. `Float` stands for `float` and `double`, `Int` for `int`.
pub record JsonLib : Type 1 where
  pub Json : Type 0
  pub Float : Type 0
  pub Int : Type 0
  pub member : Json → Bytes → Option Json
  pub elem : Json → ℕ → Option Json
  pub is_null : Json → Bool
  pub to_float : Json → Option Float
  pub to_text : Json → Option Bytes
  pub to_bool : Json → Option Bool
  pub round_to : ℕ → Float → Float
  pub rounded : Float → Int
  pub percent : Float → Int
  pub below : ℕ → Float → Bool

module _ (L : JsonLib) where
  -- `if (j[key] != null) { old = …j[key]… }`
  unfoldable pub update {ℓ} : {A : Type ℓ} → L.Json → Bytes → (L.Json → A → Option A) → A → Option A
  update j key f old = do v ← L.member j key; if L.is_null v then some old else f v old

  abbrev pub float : L.Json → L.Float → Option L.Float
  float v old = L.to_float v

  abbrev pub text : L.Json → Bytes → Option Bytes
  text v old = L.to_text v

  abbrev pub bool : L.Json → Bool → Option Bool
  bool v old = L.to_bool v

  -- `float temp = v; old = (int)(temp + 0.5);`
  unfoldable pub rounded_int : L.Json → L.Int → Option L.Int
  rounded_int v old = do temp ← L.to_float v; some (L.rounded temp)

  -- `v[i]`, as a number.
  unfoldable pub float_at : L.Json → ℕ → Option L.Float
  float_at v i = do e ← L.elem v i; L.to_float e

  -- The assignments of `v[i]` to the entries of an array, from index `i` on.
  unfoldable pub floats_from : ℕ → L.Json → List L.Float → Option (List L.Float)
  floats_from i v [] = some []
  floats_from i v (x ∷ xs) = do y ← float_at v i; ys ← floats_from (i + 1) v xs; some (y ∷ ys)

  abbrev pub floats : L.Json → List L.Float → Option (List L.Float)
  floats v old = floats_from 0 v old
