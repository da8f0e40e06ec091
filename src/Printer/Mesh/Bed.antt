-- ===== src/Printer/Mesh/Bed.antt =====
-- src/mks_printer.cpp: mesh messages that come again.
use qidi_plus.Base.{◌≡◌, refl, subst, some_inj, inl, inr, Option, some, >>=-eq-some, codes, List}
use qidi_plus.Printer.Json.{JsonLib, update, float, text, floats}
use qidi_plus.Printer.Objects.Repeats.{
  Repeats, step, then_some, done, update-again, update-cases, update-Repeats, float-Repeats,
  text-Repeats, floats_from-Repeats,
}
use qidi_plus.Printer.Mesh.{
  MeshParams, first_block, copy_points, loop_entries, params_and_points, parse_default,
  parse_bed_mesh, parse_mesh_params,
}
use qidi_plus.Printer.Mesh.Points.{
  AllHold, copy_points-AllHold, copy_points-keeps, copy_points_held,
}

module _ (L : JsonLib) where
  parse_mesh_params_lem :
      (j : L.Json) (s : MeshParams L)
      → update L j (codes "tension") (float L) s.tension ≡ some s.tension
      → update L j (codes "mesh_x_pps") (float L) s.mesh_x_pps ≡ some s.mesh_x_pps
      → update L j (codes "algo") (text L) s.algo ≡ some s.algo
      → update L j (codes "min_x") (float L) s.min_x ≡ some s.min_x
      → update L j (codes "min_y") (float L) s.min_y ≡ some s.min_y
      → update L j (codes "y_count") (float L) s.y_count ≡ some s.y_count
      → update L j (codes "mesh_y_pps") (float L) s.mesh_y_pps ≡ some s.mesh_y_pps
      → update L j (codes "x_count") (float L) s.x_count ≡ some s.x_count
      → update L j (codes "max_x") (float L) s.max_x ≡ some s.max_x
      → update L j (codes "max_y") (float L) s.max_y ≡ some s.max_y
      → parse_mesh_params L j s ≡ some s
  unfolding parse_mesh_params
  parse_mesh_params_lem j s e0 e1 e2 e3 e4 e5 e6 e7 e8 e9 = then_some _ _ _ e0 (
      then_some _ _ _ e1 (
        then_some _ _ _ e2 (
          then_some _ _ _ e3 (
            then_some _ _ _ e4 (
              then_some _ _ _ e5 (
                then_some _ _ _ e6
                  (then_some _ _ _ e7 (then_some _ _ _ e8 (then_some _ _ _ e9 refl)))))))))

  parse_mesh_params-Repeats : (j : L.Json) → Repeats (parse_mesh_params L j)
  unfolding parse_mesh_params
  parse_mesh_params-Repeats j a b h =
      let (x0, e0, h0) =
        step (update L j (codes "tension") (float L)) a.tension _
          (update-Repeats L j _ _ (float-Repeats L)) h in
      let (x1, e1, h1) =
        step (update L j (codes "mesh_x_pps") (float L)) a.mesh_x_pps _
          (update-Repeats L j _ _ (float-Repeats L)) h0 in
      let (x2, e2, h2) =
        step (update L j (codes "algo") (text L)) a.algo _ (update-Repeats L j _ _ (text-Repeats L))
          h1 in
      let (x3, e3, h3) =
        step (update L j (codes "min_x") (float L)) a.min_x _
          (update-Repeats L j _ _ (float-Repeats L)) h2 in
      let (x4, e4, h4) =
        step (update L j (codes "min_y") (float L)) a.min_y _
          (update-Repeats L j _ _ (float-Repeats L)) h3 in
      let (x5, e5, h5) =
        step (update L j (codes "y_count") (float L)) a.y_count _
          (update-Repeats L j _ _ (float-Repeats L)) h4 in
      let (x6, e6, h6) =
        step (update L j (codes "mesh_y_pps") (float L)) a.mesh_y_pps _
          (update-Repeats L j _ _ (float-Repeats L)) h5 in
      let (x7, e7, h7) =
        step (update L j (codes "x_count") (float L)) a.x_count _
          (update-Repeats L j _ _ (float-Repeats L)) h6 in
      let (x8, e8, h8) =
        step (update L j (codes "max_x") (float L)) a.max_x _
          (update-Repeats L j _ _ (float-Repeats L)) h7 in
      let (x9, e9, h9) =
        step (update L j (codes "max_y") (float L)) a.max_y _
          (update-Repeats L j _ _ (float-Repeats L)) h8 in
      done (parse_mesh_params L j) _ b h9 (parse_mesh_params_lem j _ e0 e1 e2 e3 e4 e5 e6 e7 e8 e9)

  module _ (bed_mesh : L.Json) where
    params_and_points-Repeats : (j : L.Json) → Repeats (params_and_points L bed_mesh j)
    unfolding params_and_points
    params_and_points-Repeats j a b h =
        let (x, e, h1) = step (parse_mesh_params L j) a.0 _ (parse_mesh_params-Repeats j) h in
        let (q, d, h2) = >>=-eq-some (copy_points L bed_mesh (loop_entries L x) a.1) _ h1 in
        done (params_and_points L bed_mesh j) (x, q) b h2
          (rw (
            e,
            copy_points_held L bed_mesh (loop_entries L x) q
                (copy_points-AllHold L bed_mesh (loop_entries L x) a.1 q d),
          ))

    pub params_and_points_keeps :
        (j : L.Json) (a b : MeshParams L × List (List L.Float))
        → update L j (codes "mesh_params") (params_and_points L bed_mesh) a ≡ some b
        → AllHold L bed_mesh a.1 first_block
        → AllHold L bed_mesh b.1 first_block
    unfolding params_and_points
    params_and_points_keeps j a b h c =
        elim (update-cases L j (codes "mesh_params") (params_and_points L bed_mesh) a b h) [
          | inl same ↦ subst (λ x. AllHold L bed_mesh x.1 first_block) same c
          | inr (v, e) ↦
              (let (x, e1, h1) = >>=-eq-some (parse_mesh_params L v a.0) _ e in
                let (q, d, h2) = >>=-eq-some (copy_points L bed_mesh (loop_entries L x) a.1) _ h1 in
                subst (λ x. AllHold L bed_mesh x.1 first_block) (some_inj h2)
                  (copy_points-keeps L bed_mesh first_block (loop_entries L x) a.1 q d c))
        ]

    parse_default-Repeats : (j : L.Json) → Repeats (parse_default L bed_mesh j)
    unfolding parse_default
    parse_default-Repeats j a b h =
        let copy : L.Json → List (List L.Float) → Option (List (List L.Float)) =
          λ v. copy_points L bed_mesh first_block in
        let rest = params_and_points L bed_mesh in
        let (p, e, h1) = >>=-eq-some (update L j (codes "points") copy a.1) _ h in
        let again =
          update-again L j (codes "points") copy a.1 p b.1
            (λ v w. copy_points_held L bed_mesh first_block b.1 (
              params_and_points_keeps j (a.0, p) b h1
                (copy_points-AllHold L bed_mesh first_block a.1 p w)))
            e in
        rw again
          (update-Repeats L j (codes "mesh_params") rest params_and_points-Repeats (a.0, p) b h1)

    -- A mesh that comes twice has the effect of one.
    pub parse_bed_mesh-Repeats : Repeats (parse_bed_mesh L bed_mesh)
    unfolding parse_bed_mesh
    parse_bed_mesh-Repeats a b h =
        let profile : L.Json
            → MeshParams L × List (List L.Float)
            → Option (MeshParams L × List (List L.Float)) =
          λ profiles. update L profiles (codes "default") (parse_default L bed_mesh) in
        let (x0, e0, h0) =
          step (update L bed_mesh (codes "mesh_min") (floats L)) a.mesh_min _
            (update-Repeats L bed_mesh _ _ (floats_from-Repeats L 0)) h in
        let (x1, e1, h1) =
          step (update L bed_mesh (codes "mesh_max") (floats L)) a.mesh_max _
            (update-Repeats L bed_mesh _ _ (floats_from-Repeats L 0)) h0 in
        let (x2, e2, h2) =
          step (update L bed_mesh (codes "profiles") profile) (a.mesh_params, a.points) _
            (update-Repeats L bed_mesh _ _ (λ v. update-Repeats L v _ _ parse_default-Repeats))
            h1 in
        done (parse_bed_mesh L bed_mesh) _ b h2 (rw (e0, e1, e2))
