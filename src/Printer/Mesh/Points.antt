-- ===== src/Printer/Mesh/Points.antt =====
-- src/mks_printer.cpp: the entries of the mesh that a message writes.
use qidi_plus.Base.{
  ℕ, zero, suc, ◌<◌, ◌≡◌, refl, ap, subst, some_inj, sym, ◌∙◌, inl, inr, Option, some, ltb, ◌==◌,
  ◌>>=◌, >>=-eq-some, Bool-cases, if-eq-some, lt→ltb, ◌&&◌, List, [], ◌∷◌, get_elem?, length, set,
  arith,
}
use qidi_plus.Printer.Json.{JsonLib}
use qidi_plus.Printer.Mesh.{put, point, copy_points}

-- The entry at row i and column j.
abbrev pub cell {ℓ} : {A : Type ℓ} → List (List A) → ℕ → ℕ → Option A
cell points i j = get_elem? points i >>= (λ row. get_elem? row j)

module _ {ℓ} {A : Type ℓ} where
  get-set_same : (xs : List A) (i : ℕ) (v : A) → i < length xs → get_elem? (set xs i v) i ≡ some v
  get-set_same [] i v h = absurd (omega arith)
  get-set_same (x ∷ xs) zero v h = refl
  get-set_same (x ∷ xs) (suc i) v h = get-set_same xs i v (omega arith)

  get-set_other :
      (xs : List A) (i k : ℕ) (v : A) → (i ≡ k → ⊥) → get_elem? (set xs i v) k ≡ get_elem? xs k
  get-set_other [] i k v h = refl
  get-set_other (x ∷ xs) zero zero v h = absurd (h refl)
  get-set_other (x ∷ xs) zero (suc k) v h = refl
  get-set_other (x ∷ xs) (suc i) zero v h = refl
  get-set_other (x ∷ xs) (suc i) (suc k) v h = get-set_other xs i k v (omega (arith, h))

  set_held : (xs : List A) (i : ℕ) (v : A) → get_elem? xs i ≡ some v → set xs i v ≡ xs
  set_held [] i v h = refl
  set_held (x ∷ xs) zero v h = cc
  set_held (x ∷ xs) (suc i) v h = ap (◌∷◌ x) (set_held xs i v h)

  get-within : (xs : List A) (i : ℕ) (v : A) → get_elem? xs i ≡ some v → i < length xs
  get-within [] i v h = cc
  get-within (x ∷ xs) zero v h = omega arith
  get-within (x ∷ xs) (suc i) v h = omega (arith, get-within xs i v h)

module _ {ℓ} {A : Type ℓ} (i j : ℕ) (v : A) where
  -- What a write that is in bounds does.
  abbrev Written : List (List A) → List (List A) → Type ℓ
  Written p q =
      (row : List A) × (get_elem? p i ≡ some row) × (j < length row) × (q ≡ set p i (set row j v))

  put_lem : (p q : List (List A)) → put i j v p ≡ some q → Written p q
  unfolding put
  put_lem p q h =
      let (row, e, h1) = >>=-eq-some (get_elem? p i) _ h in
      let (fits, same) = if-eq-some (ltb j (length row)) (set p i (set row j v)) h1 in
      (row, e, ground arith, sym same)

  put_same : (p q : List (List A)) → put i j v p ≡ some q → cell q i j ≡ some v
  put_same p q h =
      let (row, e, fits, same) = put_lem p q h in
      rw same
        (rw (get-set_same p i (set row j v) (get-within p i row e), get-set_same row j v fits))

  put_other :
      (p q : List (List A)) (k l : ℕ)
      → ((i ≡ k) × (j ≡ l) → ⊥)
      → put i j v p ≡ some q
      → cell q k l ≡ cell p k l
  put_other p q k l n h =
      let (row, e, fits, same) = put_lem p q h in
      elim (Bool-cases (i == k)) [
        | inl here ↦
            (let column : j ≡ l → ⊥ = λ c. n (ground arith, c) in
              let at_row : i ≡ k = ground arith in
              rw same (
                rw (sym at_row) (
                  rw (get-set_same p i (set row j v) (get-within p i row e), e)
                    (get-set_other row j l v column))))
        | inr elsewhere ↦ rw same (rw (get-set_other p i k (set row j v) (ground arith)))
      ]

  put_held : (p : List (List A)) → cell p i j ≡ some v → put i j v p ≡ some p
  unfolding put
  put_held p h =
      let (row, e, d) = >>=-eq-some (get_elem? p i) (λ row. get_elem? row j) h in
      rw (e, lt→ltb j (length row) (get-within row j v d), set_held row j v d, set_held p i row e)

module _ (L : JsonLib) (bed_mesh : L.Json) where
  -- The entry is the message's.
  abbrev pub Holds : List (List L.Float) → ℕ → ℕ → Type 0
  Holds p i j = (v : L.Float) × (point L bed_mesh i j ≡ some v) × (cell p i j ≡ some v)

  abbrev pub AllHold : List (List L.Float) → List (ℕ × ℕ) → Type 0
  AllHold p [] = Unit
  AllHold p ((i, j) ∷ rest) = Holds p i j × AllHold p rest

  put-Holds :
      (p q : List (List L.Float)) (i j k l : ℕ) (v : L.Float)
      → point L bed_mesh i j ≡ some v
      → put i j v p ≡ some q
      → Holds p k l
      → Holds q k l
  put-Holds p q i j k l v e h (w, d, c) = elim (Bool-cases (i == k && j == l)) [
    | inl here ↦
        (let at : (i ≡ k) × (j ≡ l) = ground arith in
          (v, rw (sym at.0, sym at.1) e, rw (sym at.0, sym at.1) (put_same i j v p q h)))
    | inr elsewhere ↦ (w, d, put_other i j v p q k l (ground arith) h ∙ c)
  ]

  copy_points-Holds :
      (ps : List (ℕ × ℕ)) (p q : List (List L.Float)) (k l : ℕ)
      → copy_points L bed_mesh ps p ≡ some q
      → Holds p k l
      → Holds q k l
  unfolding copy_points
  copy_points-Holds [] p q k l h c = subst (λ r. Holds r k l) (some_inj h) c
  copy_points-Holds ((i, j) ∷ rest) p q k l h c =
      let (v, e, h1) = >>=-eq-some (point L bed_mesh i j) _ h in
      let (r, d, h2) = >>=-eq-some (put i j v p) _ h1 in
      copy_points-Holds rest r q k l h2 (put-Holds p r i j k l v e d c)

  pub copy_points-AllHold :
      (ps : List (ℕ × ℕ)) (p q : List (List L.Float))
      → copy_points L bed_mesh ps p ≡ some q
      → AllHold q ps
  unfolding copy_points
  copy_points-AllHold [] p q h = tt
  copy_points-AllHold ((i, j) ∷ rest) p q h =
      let (v, e, h1) = >>=-eq-some (point L bed_mesh i j) _ h in
      let (r, d, h2) = >>=-eq-some (put i j v p) _ h1 in
      (
        copy_points-Holds rest r q i j h2 (v, e, put_same i j v p r d),
        copy_points-AllHold rest r q h2,
      )

  pub copy_points-keeps :
      (qs ps : List (ℕ × ℕ)) (p q : List (List L.Float))
      → copy_points L bed_mesh ps p ≡ some q
      → AllHold p qs
      → AllHold q qs
  copy_points-keeps [] ps p q h c = tt
  copy_points-keeps ((i, j) ∷ qs) ps p q h c =
      (copy_points-Holds ps p q i j h c.0, copy_points-keeps qs ps p q h c.1)

  pub copy_points_held :
      (ps : List (ℕ × ℕ)) (p : List (List L.Float))
      → AllHold p ps
      → copy_points L bed_mesh ps p ≡ some p
  unfolding copy_points
  copy_points_held [] p h = refl
  copy_points_held ((i, j) ∷ rest) p h =
      let (v, e, c) = h.0 in rw (e, put_held i j v p c) (copy_points_held rest p h.1)
