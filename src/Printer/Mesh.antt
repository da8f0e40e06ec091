-- ===== src/Printer/Mesh.antt =====
-- src/mks_printer.cpp: `parse_bed_mesh`, over the globals `printer_bed_mesh_…`.
pub mod Points
pub mod Bed
pub mod Block
use qidi_plus.Base.{
  ℕ, zero, suc, ◌+◌, Bool, Option, none, some, ltb, ◌==◌, if◌then◌else◌, ◌>>=◌, Bytes, codes, List,
  [], ◌∷◌, ◌++◌, map, get_elem?, length, set,
}
use qidi_plus.Printer.Json.{JsonLib, update, float, text, floats}

-- The 16 entries that the first block copies.
abbrev pub first_block : List (ℕ × ℕ)
first_block =
    (0, 0)
    ∷ (0, 1)
    ∷ (0, 2)
    ∷ (0, 3)
    ∷ (1, 0)
    ∷ (1, 1)
    ∷ (1, 2)
    ∷ (1, 3)
    ∷ (2, 0)
    ∷ (2, 1)
    ∷ (2, 2)
    ∷ (2, 3)
    ∷ (3, 0)
    ∷ (3, 1)
    ∷ (3, 2)
    ∷ (3, 3)
    ∷ []

-- The values of the loop variable, from `i` on, under a loop condition and a break at 6.
unfoldable pub indices : ℕ → ℕ → (ℕ → Bool) → List ℕ
indices zero i goes_on = []
indices (suc fuel) i goes_on =
    let rest = indices fuel (i + 1) goes_on in
    if goes_on i then (if i == 6 then [] else i ∷ rest) else []

-- The entries of the rows `is` and the columns `js`, in the loops' order.
unfoldable pub grid : List ℕ → List ℕ → List (ℕ × ℕ)
grid [] js = []
grid (i ∷ is) js = map (λ j. (i, j)) js ++ grid is js

-- `points[i][j] = v`: out of bounds it is undefined.
unfoldable pub put {ℓ} : {A : Type ℓ} → ℕ → ℕ → A → List (List A) → Option (List (List A))
put i j v points = do
  row ← get_elem? points i
  if ltb j (length row) then some (set points i (set row j v)) else none

module _ (L : JsonLib) where
  pub record MeshParams : Type 0 where
    pub tension : L.Float
    pub mesh_x_pps : L.Float
    pub algo : Bytes
    pub min_x : L.Float
    pub min_y : L.Float
    pub y_count : L.Float
    pub mesh_y_pps : L.Float
    pub x_count : L.Float
    pub max_x : L.Float
    pub max_y : L.Float

  -- `points` has 6 rows of 6.
  pub record BedMesh : Type 0 where
    pub mesh_min : List L.Float
    pub mesh_max : List L.Float
    pub points : List (List L.Float)
    pub mesh_params : MeshParams

  -- `bed_mesh["profiles"]["default"]["points"][i][j]`
  unfoldable pub point : L.Json → ℕ → ℕ → Option L.Float
  point bed_mesh i j = do
    profiles ← L.member bed_mesh (codes "profiles")
    profile ← L.member profiles (codes "default")
    points ← L.member profile (codes "points")
    row ← L.elem points i
    v ← L.elem row j
    L.to_float v

  unfoldable pub copy_points :
      L.Json → List (ℕ × ℕ) → List (List L.Float) → Option (List (List L.Float))
  copy_points bed_mesh [] points = some points
  copy_points bed_mesh ((i, j) ∷ rest) points = do
    v ← point bed_mesh i j
    written ← put i j v points
    copy_points bed_mesh rest written

  unfoldable pub parse_mesh_params : L.Json → MeshParams → Option MeshParams
  parse_mesh_params j s = do
    tension ← update L j (codes "tension") (float L) s.tension
    x_pps ← update L j (codes "mesh_x_pps") (float L) s.mesh_x_pps
    algo ← update L j (codes "algo") (text L) s.algo
    min_x ← update L j (codes "min_x") (float L) s.min_x
    min_y ← update L j (codes "min_y") (float L) s.min_y
    y_count ← update L j (codes "y_count") (float L) s.y_count
    y_pps ← update L j (codes "mesh_y_pps") (float L) s.mesh_y_pps
    x_count ← update L j (codes "x_count") (float L) s.x_count
    max_x ← update L j (codes "max_x") (float L) s.max_x
    max_y ← update L j (codes "max_y") (float L) s.max_y
    some (record {
      tension = tension;
      mesh_x_pps = x_pps;
      algo = algo;
      min_x = min_x;
      min_y = min_y;
      y_count = y_count;
      mesh_y_pps = y_pps;
      x_count = x_count;
      max_x = max_x;
      max_y = max_y;
    })

  -- The entries that the two loops copy. The break ends each of them within 7 rounds.
  unfoldable pub loop_entries : MeshParams → List (ℕ × ℕ)
  loop_entries p =
      grid (indices 7 0 (λ i. L.below i p.y_count)) (indices 7 0 (λ j. L.below j p.x_count))

  -- The block for "mesh_params", with the loops behind it.
  unfoldable pub params_and_points :
      L.Json → L.Json → MeshParams × List (List L.Float) → Option (MeshParams × List (List L.Float))
  params_and_points bed_mesh j old = do
    params ← parse_mesh_params j old.0
    points ← copy_points bed_mesh (loop_entries params) old.1
    some (params, points)

  -- The block for "default".
  unfoldable pub parse_default :
      L.Json → L.Json → MeshParams × List (List L.Float) → Option (MeshParams × List (List L.Float))
  parse_default bed_mesh profile old = do
    points ← update L profile (codes "points") (λ v. copy_points bed_mesh first_block) old.1
    update L profile (codes "mesh_params") (params_and_points bed_mesh) (old.0, points)

  unfoldable pub parse_bed_mesh : L.Json → BedMesh → Option BedMesh
  parse_bed_mesh bed_mesh s = do
    least ← update L bed_mesh (codes "mesh_min") (floats L) s.mesh_min
    most ← update L bed_mesh (codes "mesh_max") (floats L) s.mesh_max
    (params, points) ←
        update L bed_mesh (codes "profiles")
          (λ profiles. update L profiles (codes "default") (parse_default bed_mesh))
          (s.mesh_params, s.points)
    some (record { mesh_min = least; mesh_max = most; points = points; mesh_params = params })
