-- ===== src/Printer/Mesh/Block.antt =====
-- src/mks_printer.cpp: the block of 4 by 4 entries that `parse_bed_mesh` copies.
use qidi_plus.Base.{
  ℕ, zero, suc, ◌<◌, ◌≡◌, subst, some_inj, sym, ◌∙◌, false, Option, none, some, >>=-eq-some,
  Option-cases, inl, inr, Bytes, codes, List, arith,
}
use qidi_plus.Printer.Json.{JsonLib, update, floats}
use qidi_plus.Printer.Mesh.{
  MeshParams, BedMesh, first_block, point, copy_points, parse_default, parse_bed_mesh,
}
use qidi_plus.Printer.Mesh.Points.{cell, Holds, AllHold, copy_points-AllHold}
use qidi_plus.Printer.Mesh.Bed.{params_and_points_keeps}

-- An index below 4 is one of four.
by_four : (P : ℕ → Type 0) → P 0 → P 1 → P 2 → P 3 → (i : ℕ) → i < 4 → P i
by_four P a b c d zero h = a
by_four P a b c d (suc zero) h = b
by_four P a b c d (suc (suc zero)) h = c
by_four P a b c d (suc (suc (suc zero))) h = d
by_four P a b c d (suc (suc (suc (suc i)))) h = absurd (omega arith)

module _ (L : JsonLib) where
  -- `key` is in the object, and not null.
  abbrev pub IsMember : L.Json → Bytes → L.Json → Type 0
  IsMember j key v = (L.member j key ≡ some v) × (L.is_null v ≡ false)

  -- The message has points for the default profile.
  pub record HasPoints (bed_mesh : L.Json) : Type 0 where
    pub profiles : L.Json
    pub profile : L.Json
    pub points : L.Json
    pub has_profiles : IsMember bed_mesh (codes "profiles") profiles
    pub has_profile : IsMember profiles (codes "default") profile
    pub has_points : IsMember profile (codes "points") points

  update_lem {ℓ} :
      {A : Type ℓ} (j : L.Json) (key : Bytes) (v : L.Json) (f : L.Json → A → Option A) (a : A)
      → IsMember j key v
      → update L j key f a ≡ f v a
  unfolding update
  update_lem j key v f a h = rw (h.0, h.1)

  module _ (bed_mesh : L.Json) where
    parse_default-AllHold :
        (profile points : L.Json) (a b : MeshParams L × List (List L.Float))
        → IsMember profile (codes "points") points
        → parse_default L bed_mesh profile a ≡ some b
        → AllHold L bed_mesh b.1 first_block
    unfolding parse_default
    parse_default-AllHold profile points a b m h =
        let copy : L.Json → List (List L.Float) → Option (List (List L.Float)) =
          λ v. copy_points L bed_mesh first_block in
        let (p, e, h1) = >>=-eq-some (update L profile (codes "points") copy a.1) _ h in
        let copied =
          copy_points-AllHold L bed_mesh first_block a.1 p
            (sym (update_lem profile (codes "points") points copy a.1 m) ∙ e) in
        params_and_points_keeps L bed_mesh profile (a.0, p) b h1 copied

    parse_bed_mesh-AllHold :
        (s t : BedMesh L)
        → HasPoints bed_mesh
        → parse_bed_mesh L bed_mesh s ≡ some t
        → AllHold L bed_mesh t.points first_block
    unfolding parse_bed_mesh
    parse_bed_mesh-AllHold s t m h =
        let Pair : Type 0 = MeshParams L × List (List L.Float) in
        let outer : L.Json → Pair → Option Pair =
          λ v. update L v (codes "default") (parse_default L bed_mesh) in
        let a : Pair = (s.mesh_params, s.points) in
        let (x0, e0, h0) =
          >>=-eq-some (update L bed_mesh (codes "mesh_min") (floats L) s.mesh_min) _ h in
        let (x1, e1, h1) =
          >>=-eq-some (update L bed_mesh (codes "mesh_max") (floats L) s.mesh_max) _ h0 in
        let (b, e2, h2) = >>=-eq-some (update L bed_mesh (codes "profiles") outer a) _ h1 in
        let inner = update_lem bed_mesh (codes "profiles") m.profiles outer a m.has_profiles in
        let innermost =
          update_lem m.profiles (codes "default") m.profile (parse_default L bed_mesh) a
            m.has_profile in
        subst (λ (r : BedMesh L). AllHold L bed_mesh r.points first_block) (some_inj h2)
          (parse_default-AllHold m.profile m.points a b m.has_points
            (sym innermost ∙ (sym inner ∙ e2)))

    AllHold-at :
        (p : List (List L.Float))
        → AllHold L bed_mesh p first_block
        → (i j : ℕ) → i < 4
        → j < 4
        → Holds L bed_mesh p i j
    AllHold-at p (a, (b, (c, (d, (e, (f, (g, (h, (i1, (j1, (k, (l, (m, (n, (o, (q, u))))))))))))))))
          i j hi hj =
        by_four (λ i. Holds L bed_mesh p i j) (by_four (λ j. Holds L bed_mesh p 0 j) a b c d j hj)
          (by_four (λ j. Holds L bed_mesh p 1 j) e f g h j hj)
          (by_four (λ j. Holds L bed_mesh p 2 j) i1 j1 k l j hj)
          (by_four (λ j. Holds L bed_mesh p 3 j) m n o q j hj) i hi

    -- A message that has points and is parsed leaves them in the first four entries of the first
    -- four rows, whatever its numbers of rows and columns are.
    pub parse_bed_mesh_block :
        (s t : BedMesh L)
        → HasPoints bed_mesh
        → parse_bed_mesh L bed_mesh s ≡ some t
        → (i j : ℕ) → i < 4
        → j < 4
        → (v : L.Float) × (point L bed_mesh i j ≡ some v) × (cell t.points i j ≡ some v)
    parse_bed_mesh_block s t m h = AllHold-at t.points (parse_bed_mesh-AllHold s t m h)

    -- A message that has points, but of them no number in one of the first four entries of the
    -- first four rows, as for a mesh of 3 by 3, is not parsed: an exception ends the program.
    pub parse_bed_mesh_small :
        (s : BedMesh L) (i j : ℕ)
        → HasPoints bed_mesh
        → i < 4
        → j < 4
        → point L bed_mesh i j ≡ none
        → parse_bed_mesh L bed_mesh s ≡ none
    parse_bed_mesh_small s i j m hi hj e = elim (Option-cases (parse_bed_mesh L bed_mesh s)) [
      | inl thrown ↦ thrown
      | inr (t, parsed) ↦
          (let (v, there, held) = parse_bed_mesh_block s t m parsed i j hi hj in
            absurd (no_some v (sym e ∙ there)))
    ]
      where
        no_some : (v : L.Float) → ◌≡◌ {A = Option L.Float} none (some v) → ⊥
        no_some v n = cc
