-- ===== src/Printer/Status.antt =====
-- src/mks_printer.cpp: `parse_subscribe_objects_status`, over the globals `printer_…`, and the two
-- functions behind it.
pub mod Again
use qidi_plus.Base.{
  ℕ, ◌-◌, ◌*◌, ◌/◌, Bool, Option, none, some, ◌>>=◌, Bytes, codes, leb, if◌then◌else◌,
}
use qidi_plus.Printer.Json.{JsonLib, update, float, text}
use qidi_plus.Printer.Objects.{
  Webhooks, GcodeMove, Toolhead, Heater, PrintStats, Sensor, Probe, parse_idle_timeout,
  parse_webhooks, parse_gcode_move, parse_toolhead, parse_extruder, parse_heater_bed,
  parse_heater_generic_hot, parse_fan, parse_heater_fan, parse_pause_resume, parse_print_stats,
  parse_display_status, parse_printer_heater_fan_my_nozzle_fan1, parse_printer_out_pin_fan0,
  parse_printer_out_pin_fan2, parse_printer_out_pin_fan3, parse_filament_switch_sensor_fila,
  parse_printer_caselight, parse_printer_beep, parse_printer_probe,
}
use qidi_plus.Printer.Mesh.{BedMesh, parse_bed_mesh}

module _ (L : JsonLib) where
  -- The globals, by the object that sets them.
  pub record Printer : Type 0 where
    pub idle_timeout : Bytes
    pub bed_mesh : BedMesh L
    pub webhooks : Webhooks L
    pub gcode_move : GcodeMove L
    pub toolhead : Toolhead L
    pub extruder : Heater L
    pub heater_bed : Heater L
    pub hot : Heater L
    pub fan_speed : L.Float
    pub heater_fan_speed : L.Float
    pub is_paused : Bool
    pub print_stats : PrintStats L
    pub progress : L.Int
    pub nozzle_fan_speed : L.Float
    pub fan0 : L.Float
    pub fan2 : L.Float
    pub fan3 : L.Float
    pub fila : Sensor L
    pub caselight : L.Float
    pub beep : L.Float
    pub probe : Probe L

  unfoldable pub parse_subscribe_objects_status : L.Json → Printer → Option Printer
  parse_subscribe_objects_status status s = do
    idle_timeout ← update L status (codes "idle_timeout") (parse_idle_timeout L) s.idle_timeout
    bed_mesh ← update L status (codes "bed_mesh") (parse_bed_mesh L) s.bed_mesh
    webhooks ← update L status (codes "webhooks") (parse_webhooks L) s.webhooks
    gcode_move ← update L status (codes "gcode_move") (parse_gcode_move L) s.gcode_move
    toolhead ← update L status (codes "toolhead") (parse_toolhead L) s.toolhead
    extruder ← update L status (codes "extruder") (parse_extruder L) s.extruder
    heater_bed ← update L status (codes "heater_bed") (parse_heater_bed L) s.heater_bed
    hot ← update L status (codes "heater_generic hot") (parse_heater_generic_hot L) s.hot
    fan_speed ← update L status (codes "fan") (parse_fan L) s.fan_speed
    heater_fan_speed ←
        update L status (codes "heater_fan fan1") (parse_heater_fan L) s.heater_fan_speed
    is_paused ← update L status (codes "pause_resume") (parse_pause_resume L) s.is_paused
    print_stats ← update L status (codes "print_stats") (parse_print_stats L) s.print_stats
    progress ← update L status (codes "display_status") (parse_display_status L) s.progress
    nozzle_fan_speed ←
        update L status (codes "heater_fan my_nozzle_fan1")
          (parse_printer_heater_fan_my_nozzle_fan1 L) s.nozzle_fan_speed
    fan0 ← update L status (codes "output_pin fan0") (parse_printer_out_pin_fan0 L) s.fan0
    fan2 ← update L status (codes "output_pin fan2") (parse_printer_out_pin_fan2 L) s.fan2
    fan3 ← update L status (codes "output_pin fan3") (parse_printer_out_pin_fan3 L) s.fan3
    fila ←
        update L status (codes "filament_switch_sensor fila") (parse_filament_switch_sensor_fila L)
          s.fila
    caselight ←
        update L status (codes "output_pin caselight") (parse_printer_caselight L) s.caselight
    beep ← update L status (codes "output_pin sound") (parse_printer_beep L) s.beep
    probe ← update L status (codes "probe") (parse_printer_probe L) s.probe
    some (record {
      idle_timeout = idle_timeout;
      bed_mesh = bed_mesh;
      webhooks = webhooks;
      gcode_move = gcode_move;
      toolhead = toolhead;
      extruder = extruder;
      heater_bed = heater_bed;
      hot = hot;
      fan_speed = fan_speed;
      heater_fan_speed = heater_fan_speed;
      is_paused = is_paused;
      print_stats = print_stats;
      progress = progress;
      nozzle_fan_speed = nozzle_fan_speed;
      fan0 = fan0;
      fan2 = fan2;
      fan3 = fan3;
      fila = fila;
      caselight = caselight;
      beep = beep;
      probe = probe;
    })

  -- `total_print_time`
  unfoldable pub parse_server_history_totals : L.Json → L.Float → Option L.Float
  parse_server_history_totals totals total_print_time =
      update L totals (codes "total_print_time") (float L) total_print_time

  -- `printer_info_software_version`
  unfoldable pub parse_printer_info : L.Json → Bytes → Option Bytes
  parse_printer_info result software_version =
      update L result (codes "software_version") (text L) software_version
