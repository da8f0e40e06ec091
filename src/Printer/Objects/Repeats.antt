-- ===== src/Printer/Objects/Repeats.antt =====
-- src/mks_printer.cpp: status objects that come again.
use qidi_plus.Base.{
  ℕ, ◌+◌, ◌≡◌, refl, subst, some_inj, sym, Option, none, some, ◌>>=◌, >>=-eq-some, Option-cases,
  Bool-cases, ◌⊎◌, inl, inr, Bytes, codes, [], ◌∷◌, arith,
}
use qidi_plus.Printer.Json.{
  JsonLib, update, float, text, bool, rounded_int, float_at, floats_from, floats,
}
use qidi_plus.Printer.Objects.{
  parse_printer_probe, parse_printer_beep, parse_printer_caselight,
  parse_printer_heater_fan_my_nozzle_fan1, parse_printer_out_pin_fan0, parse_printer_out_pin_fan2,
  parse_printer_out_pin_fan3, parse_filament_switch_sensor_fila, parse_idle_timeout, parse_webhooks,
  gcode_position, parse_gcode_move, toolhead_position, parse_toolhead, parse_extruder,
  parse_heater_bed, parse_heater_generic_hot, parse_fan, parse_heater_fan, parse_print_stats,
  percent_int, parse_display_status, parse_pause_resume,
}

-- What has been written is written again as it is.
abbrev pub Repeats {ℓ} : {A : Type ℓ} → (A → Option A) → Type ℓ
Repeats {A = A} f = (a b : A) → f a ≡ some b → f b ≡ some b

-- One assignment of a chain: its value is written again as it is.
pub step {ℓ κ} :
    {A : Type ℓ} {B : Type κ} (f : A → Option A) (a : A) (next : A → Option B) {b : B}
    → Repeats f
    → (f a >>= next) ≡ some b
    → (x : A) × (f x ≡ some x) × (next x ≡ some b)
step f a next r h = let (x, e, h1) = >>=-eq-some (f a) next h in (x, r a x e, h1)

-- The same, for what follows from it.
pub step_then {ℓ κ μ} :
    {A : Type ℓ} {B : Type κ} {R : Type μ} (f : A → Option A) (a : A) (next : A → Option B) {b : B}
    → Repeats f
    → (f a >>= next) ≡ some b
    → ((x : A) → f x ≡ some x → next x ≡ some b → R)
    → R
step_then f a next r h k = let (x, e, h1) = step f a next r h in k x e h1

-- One assignment of a chain, made.
pub then_some {ℓ κ} :
    {A : Type ℓ} {B : Type κ} (m : Option A) (x : A) (next : A → Option B) {r : Option B}
    → m ≡ some x
    → next x ≡ r
    → (m >>= next) ≡ r
then_some m x next {r = r} e h = subst (λ o. (o >>= next) ≡ r) (sym e) h

-- The end of a chain.
pub done {ℓ} :
    {A : Type ℓ} (f : A → Option A) (x b : A) → some x ≡ some b → f x ≡ some x → f b ≡ some b
done f x b h e = subst (λ c. f c ≡ some c) (some_inj h) e

module _ (L : JsonLib) where
  pub update-again {ℓ} :
      {A : Type ℓ} (j : L.Json) (key : Bytes) (f : L.Json → A → Option A) (a x b : A)
      → ((v : L.Json) → f v a ≡ some x → f v b ≡ some b)
      → update L j key f a ≡ some x
      → update L j key f b ≡ some b
  unfolding update
  update-again j key f a x b r h = elim (Option-cases (L.member j key)) [
    | inl throws ↦ ground arith
    | inr (v, e) ↦ elim (Bool-cases (L.is_null v)) [
      | inl null ↦ rw (e, null)
      | inr there ↦ rw (e, there) (r v (rw (e, there) at h))
    ]
  ]

  pub update-Repeats {ℓ} :
      {A : Type ℓ} (j : L.Json) (key : Bytes) (f : L.Json → A → Option A)
      → ((v : L.Json) → Repeats (f v))
      → Repeats (update L j key f)
  update-Repeats j key f r a b h = update-again j key f a b b (λ v. r v a b) h

  -- An update that is made keeps the old value, or makes one assignment.
  pub update-cases {ℓ} :
      {A : Type ℓ} (j : L.Json) (key : Bytes) (f : L.Json → A → Option A) (a b : A)
      → update L j key f a ≡ some b
      → (a ≡ b) ⊎ ((v : L.Json) × (f v a ≡ some b))
  unfolding update
  update-cases {A = A} j key f a b h = elim (Option-cases (L.member j key)) [
    | inl throws ↦ absurd (no_some (rw throws at h))
    | inr (v, e) ↦ elim (Bool-cases (L.is_null v)) [
      | inl null ↦ inl (some_inj (rw (e, null) at h))
      | inr there ↦ inr (v, (rw (e, there) at h))
    ]
  ]
    where
      no_some : ◌≡◌ {A = Option A} none (some b) → ⊥
      no_some n = cc

  pub float-Repeats : (v : L.Json) → Repeats (float L v)
  float-Repeats v a b h = h

  pub text-Repeats : (v : L.Json) → Repeats (text L v)
  text-Repeats v a b h = h

  bool-Repeats : (v : L.Json) → Repeats (bool L v)
  bool-Repeats v a b h = h

  rounded_int-Repeats : (v : L.Json) → Repeats (rounded_int L v)
  unfolding rounded_int
  rounded_int-Repeats v a b h = h

  percent_int-Repeats : (v : L.Json) → Repeats (percent_int L v)
  unfolding percent_int
  percent_int-Repeats v a b h = h

  gcode_position-Repeats : (v : L.Json) → Repeats (gcode_position L v)
  unfolding gcode_position
  gcode_position-Repeats v a b h = h

  toolhead_position-Repeats : (v : L.Json) → Repeats (toolhead_position L v)
  unfolding toolhead_position
  toolhead_position-Repeats v a b h = h

  pub floats_from-Repeats : (i : ℕ) (v : L.Json) → Repeats (floats_from L i v)
  unfolding floats_from
  floats_from-Repeats i v [] b h = done (floats_from L i v) [] b h refl
  floats_from-Repeats i v (x ∷ xs) b h =
      let (y, e, h1) = >>=-eq-some (float_at L v i) _ h in
      let (ys, d, h2) = >>=-eq-some (floats_from L (i + 1) v xs) _ h1 in
      done (floats_from L i v) (y ∷ ys) b h2 (rw (e, floats_from-Repeats (i + 1) v xs ys d))

  pub parse_printer_beep-Repeats : (j : L.Json) → Repeats (parse_printer_beep L j)
  unfolding parse_printer_beep
  parse_printer_beep-Repeats j = update-Repeats j (codes "value") (float L) float-Repeats

  pub parse_printer_caselight-Repeats : (j : L.Json) → Repeats (parse_printer_caselight L j)
  unfolding parse_printer_caselight
  parse_printer_caselight-Repeats j = update-Repeats j (codes "value") (float L) float-Repeats

  pub parse_printer_heater_fan_my_nozzle_fan1-Repeats :
      (j : L.Json) → Repeats (parse_printer_heater_fan_my_nozzle_fan1 L j)
  unfolding parse_printer_heater_fan_my_nozzle_fan1
  parse_printer_heater_fan_my_nozzle_fan1-Repeats j =
      update-Repeats j (codes "speed") (float L) float-Repeats

  pub parse_printer_out_pin_fan0-Repeats : (j : L.Json) → Repeats (parse_printer_out_pin_fan0 L j)
  unfolding parse_printer_out_pin_fan0
  parse_printer_out_pin_fan0-Repeats j = update-Repeats j (codes "value") (float L) float-Repeats

  pub parse_printer_out_pin_fan2-Repeats : (j : L.Json) → Repeats (parse_printer_out_pin_fan2 L j)
  unfolding parse_printer_out_pin_fan2
  parse_printer_out_pin_fan2-Repeats j = update-Repeats j (codes "value") (float L) float-Repeats

  pub parse_printer_out_pin_fan3-Repeats : (j : L.Json) → Repeats (parse_printer_out_pin_fan3 L j)
  unfolding parse_printer_out_pin_fan3
  parse_printer_out_pin_fan3-Repeats j = update-Repeats j (codes "value") (float L) float-Repeats

  pub parse_idle_timeout-Repeats : (j : L.Json) → Repeats (parse_idle_timeout L j)
  unfolding parse_idle_timeout
  parse_idle_timeout-Repeats j = update-Repeats j (codes "state") (text L) text-Repeats

  pub parse_fan-Repeats : (j : L.Json) → Repeats (parse_fan L j)
  unfolding parse_fan
  parse_fan-Repeats j = update-Repeats j (codes "speed") (float L) float-Repeats

  pub parse_heater_fan-Repeats : (j : L.Json) → Repeats (parse_heater_fan L j)
  unfolding parse_heater_fan
  parse_heater_fan-Repeats j = update-Repeats j (codes "speed") (float L) float-Repeats

  pub parse_display_status-Repeats : (j : L.Json) → Repeats (parse_display_status L j)
  unfolding parse_display_status
  parse_display_status-Repeats j =
      update-Repeats j (codes "progress") (percent_int L) percent_int-Repeats

  pub parse_pause_resume-Repeats : (j : L.Json) → Repeats (parse_pause_resume L j)
  unfolding parse_pause_resume
  parse_pause_resume-Repeats j = update-Repeats j (codes "is_paused") (bool L) bool-Repeats

  pub parse_printer_probe-Repeats : (j : L.Json) → Repeats (parse_printer_probe L j)
  unfolding parse_printer_probe
  parse_printer_probe-Repeats j a b h =
      let (x0, e0, h0) =
        step (update L j (codes "x_offset") (float L)) a.x_zoffset _
          (update-Repeats j _ _ float-Repeats) h in
      let (x1, e1, h1) =
        step (update L j (codes "y_offset") (float L)) a.y_zoffset _
          (update-Repeats j _ _ float-Repeats) h0 in
      let (x2, e2, h2) =
        step (update L j (codes "z_offset") (float L)) a.z_zoffset _
          (update-Repeats j _ _ float-Repeats) h1 in
      done (parse_printer_probe L j) _ b h2 (rw (e0, e1, e2))

  pub parse_filament_switch_sensor_fila-Repeats :
      (j : L.Json) → Repeats (parse_filament_switch_sensor_fila L j)
  unfolding parse_filament_switch_sensor_fila
  parse_filament_switch_sensor_fila-Repeats j a b h =
      let (x0, e0, h0) =
        step (update L j (codes "filament_detected") (bool L)) a.filament_detected _
          (update-Repeats j _ _ bool-Repeats) h in
      let (x1, e1, h1) =
        step (update L j (codes "enabled") (bool L)) a.enabled _ (update-Repeats j _ _ bool-Repeats)
          h0 in
      done (parse_filament_switch_sensor_fila L j) _ b h1 (rw (e0, e1))

  pub parse_webhooks-Repeats : (j : L.Json) → Repeats (parse_webhooks L j)
  unfolding parse_webhooks
  parse_webhooks-Repeats j a b h =
      let (x0, e0, h0) =
        step (update L j (codes "state") (text L)) a.state _ (update-Repeats j _ _ text-Repeats)
          h in
      let (x1, e1, h1) =
        step (update L j (codes "state_message") (text L)) a.state_message _
          (update-Repeats j _ _ text-Repeats) h0 in
      done (parse_webhooks L j) _ b h1 (rw (e0, e1))

  pub parse_extruder-Repeats : (j : L.Json) → Repeats (parse_extruder L j)
  unfolding parse_extruder
  parse_extruder-Repeats j a b h =
      let (x0, e0, h0) =
        step (update L j (codes "temperature") (rounded_int L)) a.temperature _
          (update-Repeats j _ _ rounded_int-Repeats) h in
      let (x1, e1, h1) =
        step (update L j (codes "target") (rounded_int L)) a.target _
          (update-Repeats j _ _ rounded_int-Repeats) h0 in
      done (parse_extruder L j) _ b h1 (rw (e0, e1))

  pub parse_heater_bed-Repeats : (j : L.Json) → Repeats (parse_heater_bed L j)
  unfolding parse_heater_bed
  parse_heater_bed-Repeats j a b h =
      let (x0, e0, h0) =
        step (update L j (codes "temperature") (rounded_int L)) a.temperature _
          (update-Repeats j _ _ rounded_int-Repeats) h in
      let (x1, e1, h1) =
        step (update L j (codes "target") (rounded_int L)) a.target _
          (update-Repeats j _ _ rounded_int-Repeats) h0 in
      done (parse_heater_bed L j) _ b h1 (rw (e0, e1))

  pub parse_heater_generic_hot-Repeats : (j : L.Json) → Repeats (parse_heater_generic_hot L j)
  unfolding parse_heater_generic_hot
  parse_heater_generic_hot-Repeats j a b h =
      let (x0, e0, h0) =
        step (update L j (codes "temperature") (rounded_int L)) a.temperature _
          (update-Repeats j _ _ rounded_int-Repeats) h in
      let (x1, e1, h1) =
        step (update L j (codes "target") (rounded_int L)) a.target _
          (update-Repeats j _ _ rounded_int-Repeats) h0 in
      done (parse_heater_generic_hot L j) _ b h1 (rw (e0, e1))

  pub parse_print_stats-Repeats : (j : L.Json) → Repeats (parse_print_stats L j)
  unfolding parse_print_stats
  parse_print_stats-Repeats j a b h =
      let (x0, e0, h0) =
        step (update L j (codes "state") (text L)) a.print_state _
          (update-Repeats j _ _ text-Repeats) h in
      let (x1, e1, h1) =
        step (update L j (codes "filename") (text L)) a.filename _
          (update-Repeats j _ _ text-Repeats) h0 in
      let (x2, e2, h2) =
        step (update L j (codes "print_duration") (float L)) a.print_duration _
          (update-Repeats j _ _ float-Repeats) h1 in
      let (x3, e3, h3) =
        step (update L j (codes "total_duration") (float L)) a.total_duration _
          (update-Repeats j _ _ float-Repeats) h2 in
      done (parse_print_stats L j) _ b h3 (rw (e0, e1, e2, e3))

  pub parse_gcode_move-Repeats : (j : L.Json) → Repeats (parse_gcode_move L j)
  unfolding parse_gcode_move
  parse_gcode_move-Repeats j a b h =
      let (x0, e0, h0) =
        step (update L j (codes "speed_factor") (float L)) a.speed_factor _
          (update-Repeats j _ _ float-Repeats) h in
      let (x1, e1, h1) =
        step (update L j (codes "speed") (float L)) a.speed _ (update-Repeats j _ _ float-Repeats)
          h0 in
      let (x2, e2, h2) =
        step (update L j (codes "extrude_factor") (float L)) a.extrude_factor _
          (update-Repeats j _ _ float-Repeats) h1 in
      let (x3, e3, h3) =
        step (update L j (codes "homing_origin") (floats L)) a.homing_origin _
          (update-Repeats j _ _ (floats_from-Repeats 0)) h2 in
      let (x4, e4, h4) =
        step (update L j (codes "gcode_position") (gcode_position L))
          (a.gcode_position_2, a.gcode_z_position) _ (update-Repeats j _ _ gcode_position-Repeats)
          h3 in
      done (parse_gcode_move L j) _ b h4 (rw (e0, e1, e2, e3, e4))

  pub parse_toolhead-Repeats : (j : L.Json) → Repeats (parse_toolhead L j)
  unfolding parse_toolhead
  parse_toolhead-Repeats j a b h =
      let (x0, e0, h0) =
        step (update L j (codes "position") (toolhead_position L))
          (a.position, a.x_position, a.y_position, a.z_position) _
          (update-Repeats j _ _ toolhead_position-Repeats) h in
      let (x1, e1, h1) =
        step (update L j (codes "axis_minimum") (floats L)) a.axis_minimum _
          (update-Repeats j _ _ (floats_from-Repeats 0)) h0 in
      let (x2, e2, h2) =
        step (update L j (codes "axis_maximum") (floats L)) a.axis_maximum _
          (update-Repeats j _ _ (floats_from-Repeats 0)) h1 in
      done (parse_toolhead L j) _ b h2 (rw (e0, e1, e2))
