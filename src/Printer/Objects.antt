-- ===== src/Printer/Objects.antt =====
-- src/mks_printer.cpp: the parsers of the objects of a status message but the mesh.
pub mod Repeats
use qidi_plus.Base.{ℕ, Bool, Option, none, some, ◌>>=◌, Bytes, codes, List, [], ◌∷◌, get_elem?}
use qidi_plus.Printer.Json.{JsonLib, update, float, text, bool, rounded_int, float_at, floats}

module _ (L : JsonLib) where
  pub record Webhooks : Type 0 where
    pub state : Bytes
    pub state_message : Bytes

  -- `printer_gcode_move_…`, and `gcode_z_position`.
  pub record GcodeMove : Type 0 where
    pub speed_factor : L.Float
    pub speed : L.Float
    pub extrude_factor : L.Float
    pub homing_origin : List L.Float
    pub gcode_position_2 : L.Float
    pub gcode_z_position : L.Float

  -- `printer_toolhead_…`, and the rounded positions.
  pub record Toolhead : Type 0 where
    pub position : List L.Float
    pub x_position : L.Float
    pub y_position : L.Float
    pub z_position : L.Float
    pub axis_minimum : List L.Float
    pub axis_maximum : List L.Float

  pub record Heater : Type 0 where
    pub temperature : L.Int
    pub target : L.Int

  pub record PrintStats : Type 0 where
    pub print_state : Bytes
    pub filename : Bytes
    pub print_duration : L.Float
    pub total_duration : L.Float

  pub record Sensor : Type 0 where
    pub filament_detected : Bool
    pub enabled : Bool

  pub record Probe : Type 0 where
    pub x_zoffset : L.Float
    pub y_zoffset : L.Float
    pub z_zoffset : L.Float

  unfoldable pub parse_printer_probe : L.Json → Probe → Option Probe
  parse_printer_probe probe s = do
    x ← update L probe (codes "x_offset") (float L) s.x_zoffset
    y ← update L probe (codes "y_offset") (float L) s.y_zoffset
    z ← update L probe (codes "z_offset") (float L) s.z_zoffset
    some (record { x_zoffset = x; y_zoffset = y; z_zoffset = z })

  unfoldable pub parse_printer_beep : L.Json → L.Float → Option L.Float
  parse_printer_beep beep value = update L beep (codes "value") (float L) value

  unfoldable pub parse_printer_caselight : L.Json → L.Float → Option L.Float
  parse_printer_caselight caselight value = update L caselight (codes "value") (float L) value

  unfoldable pub parse_printer_heater_fan_my_nozzle_fan1 : L.Json → L.Float → Option L.Float
  parse_printer_heater_fan_my_nozzle_fan1 fan speed = update L fan (codes "speed") (float L) speed

  unfoldable pub parse_printer_out_pin_fan0 : L.Json → L.Float → Option L.Float
  parse_printer_out_pin_fan0 fan value = update L fan (codes "value") (float L) value

  unfoldable pub parse_printer_out_pin_fan2 : L.Json → L.Float → Option L.Float
  parse_printer_out_pin_fan2 fan value = update L fan (codes "value") (float L) value

  unfoldable pub parse_printer_out_pin_fan3 : L.Json → L.Float → Option L.Float
  parse_printer_out_pin_fan3 fan value = update L fan (codes "value") (float L) value

  unfoldable pub parse_filament_switch_sensor_fila : L.Json → Sensor → Option Sensor
  parse_filament_switch_sensor_fila sensor s = do
    detected ← update L sensor (codes "filament_detected") (bool L) s.filament_detected
    enabled ← update L sensor (codes "enabled") (bool L) s.enabled
    some (record { filament_detected = detected; enabled = enabled })

  unfoldable pub parse_idle_timeout : L.Json → Bytes → Option Bytes
  parse_idle_timeout idle_timeout state = update L idle_timeout (codes "state") (text L) state

  unfoldable pub parse_webhooks : L.Json → Webhooks → Option Webhooks
  parse_webhooks webhooks s = do
    state ← update L webhooks (codes "state") (text L) s.state
    message ← update L webhooks (codes "state_message") (text L) s.state_message
    some (record { state = state; state_message = message })

  -- The third entry of the position and its rounded copy.
  unfoldable pub gcode_position : L.Json → L.Float × L.Float → Option (L.Float × L.Float)
  gcode_position v old = do z ← float_at L v 2; some (z, L.round_to 1000 z)

  unfoldable pub parse_gcode_move : L.Json → GcodeMove → Option GcodeMove
  parse_gcode_move gcode_move s = do
    factor ← update L gcode_move (codes "speed_factor") (float L) s.speed_factor
    speed ← update L gcode_move (codes "speed") (float L) s.speed
    extrude ← update L gcode_move (codes "extrude_factor") (float L) s.extrude_factor
    origin ← update L gcode_move (codes "homing_origin") (floats L) s.homing_origin
    position ←
        update L gcode_move (codes "gcode_position") gcode_position
          (s.gcode_position_2, s.gcode_z_position)
    some (record {
      speed_factor = factor;
      speed = speed;
      extrude_factor = extrude;
      homing_origin = origin;
      gcode_position_2 = position.0;
      gcode_z_position = position.1;
    })

  -- The four entries of the position, and the rounded copies of three of them.
  unfoldable pub toolhead_position :
      L.Json
      → List L.Float × L.Float × L.Float × L.Float
      → Option (List L.Float × L.Float × L.Float × L.Float)
  toolhead_position v old = do
    x ← float_at L v 0
    y ← float_at L v 1
    z ← float_at L v 2
    e ← float_at L v 3
    some (x ∷ y ∷ z ∷ e ∷ [], L.round_to 10 x, L.round_to 10 y, L.round_to 10 z)

  unfoldable pub parse_toolhead : L.Json → Toolhead → Option Toolhead
  parse_toolhead toolhead s = do
    p ←
        update L toolhead (codes "position") toolhead_position
          (s.position, s.x_position, s.y_position, s.z_position)
    least ← update L toolhead (codes "axis_minimum") (floats L) s.axis_minimum
    most ← update L toolhead (codes "axis_maximum") (floats L) s.axis_maximum
    some (record {
      position = p.0;
      x_position = p.1;
      y_position = p.2;
      z_position = p.3;
      axis_minimum = least;
      axis_maximum = most;
    })

  unfoldable pub parse_extruder : L.Json → Heater → Option Heater
  parse_extruder extruder s = do
    temperature ← update L extruder (codes "temperature") (rounded_int L) s.temperature
    target ← update L extruder (codes "target") (rounded_int L) s.target
    some (record { temperature = temperature; target = target })

  unfoldable pub parse_heater_bed : L.Json → Heater → Option Heater
  parse_heater_bed heater_bed s = do
    temperature ← update L heater_bed (codes "temperature") (rounded_int L) s.temperature
    target ← update L heater_bed (codes "target") (rounded_int L) s.target
    some (record { temperature = temperature; target = target })

  unfoldable pub parse_heater_generic_hot : L.Json → Heater → Option Heater
  parse_heater_generic_hot heater_generic_hot s = do
    temperature ← update L heater_generic_hot (codes "temperature") (rounded_int L) s.temperature
    target ← update L heater_generic_hot (codes "target") (rounded_int L) s.target
    some (record { temperature = temperature; target = target })

  unfoldable pub parse_fan : L.Json → L.Float → Option L.Float
  parse_fan fan speed = update L fan (codes "speed") (float L) speed

  unfoldable pub parse_heater_fan : L.Json → L.Float → Option L.Float
  parse_heater_fan heater_fan speed = update L heater_fan (codes "speed") (float L) speed

  unfoldable pub parse_print_stats : L.Json → PrintStats → Option PrintStats
  parse_print_stats print_stats s = do
    state ← update L print_stats (codes "state") (text L) s.print_state
    filename ← update L print_stats (codes "filename") (text L) s.filename
    printed ← update L print_stats (codes "print_duration") (float L) s.print_duration
    total ← update L print_stats (codes "total_duration") (float L) s.total_duration
    some (record {
      print_state = state;
      filename = filename;
      print_duration = printed;
      total_duration = total;
    })

  -- `double temp = v; old = (int)(temp * 100);`
  unfoldable pub percent_int : L.Json → L.Int → Option L.Int
  percent_int v old = do temp ← L.to_float v; some (L.percent temp)

  unfoldable pub parse_display_status : L.Json → L.Int → Option L.Int
  parse_display_status display_status progress =
      update L display_status (codes "progress") percent_int progress

  unfoldable pub parse_pause_resume : L.Json → Bool → Option Bool
  parse_pause_resume pause_resume is_paused =
      update L pause_resume (codes "is_paused") (bool L) is_paused
