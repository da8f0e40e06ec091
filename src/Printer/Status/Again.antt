-- ===== src/Printer/Status/Again.antt =====
-- src/mks_printer.cpp: status messages that come again.
use qidi_plus.Base.{◌≡◌, refl, some, codes}
use qidi_plus.Printer.Json.{JsonLib, update}
use qidi_plus.Printer.Objects.{
  parse_idle_timeout, parse_webhooks, parse_gcode_move, parse_toolhead, parse_extruder,
  parse_heater_bed, parse_heater_generic_hot, parse_fan, parse_heater_fan, parse_pause_resume,
  parse_print_stats, parse_display_status, parse_printer_heater_fan_my_nozzle_fan1,
  parse_printer_out_pin_fan0, parse_printer_out_pin_fan2, parse_printer_out_pin_fan3,
  parse_filament_switch_sensor_fila, parse_printer_caselight, parse_printer_beep,
  parse_printer_probe,
}
use qidi_plus.Printer.Objects.Repeats.{
  step_then, then_some, done, update-Repeats, parse_idle_timeout-Repeats, parse_webhooks-Repeats,
  parse_gcode_move-Repeats, parse_toolhead-Repeats, parse_extruder-Repeats,
  parse_heater_bed-Repeats, parse_heater_generic_hot-Repeats, parse_fan-Repeats,
  parse_heater_fan-Repeats, parse_pause_resume-Repeats, parse_print_stats-Repeats,
  parse_display_status-Repeats, parse_printer_heater_fan_my_nozzle_fan1-Repeats,
  parse_printer_out_pin_fan0-Repeats, parse_printer_out_pin_fan2-Repeats,
  parse_printer_out_pin_fan3-Repeats, parse_filament_switch_sensor_fila-Repeats,
  parse_printer_caselight-Repeats, parse_printer_beep-Repeats, parse_printer_probe-Repeats,
}
use qidi_plus.Printer.Mesh.{parse_bed_mesh}
use qidi_plus.Printer.Mesh.Bed.{parse_bed_mesh-Repeats}
use qidi_plus.Printer.Status.{Printer, parse_subscribe_objects_status}

module _ (L : JsonLib) (status : L.Json) where
  parse_status_lem :
      (s : Printer L)
      → update L status (codes "idle_timeout") (parse_idle_timeout L) s.idle_timeout
        ≡ some s.idle_timeout
      → update L status (codes "bed_mesh") (parse_bed_mesh L) s.bed_mesh ≡ some s.bed_mesh
      → update L status (codes "webhooks") (parse_webhooks L) s.webhooks ≡ some s.webhooks
      → update L status (codes "gcode_move") (parse_gcode_move L) s.gcode_move ≡ some s.gcode_move
      → update L status (codes "toolhead") (parse_toolhead L) s.toolhead ≡ some s.toolhead
      → update L status (codes "extruder") (parse_extruder L) s.extruder ≡ some s.extruder
      → update L status (codes "heater_bed") (parse_heater_bed L) s.heater_bed ≡ some s.heater_bed
      → update L status (codes "heater_generic hot") (parse_heater_generic_hot L) s.hot ≡ some s.hot
      → update L status (codes "fan") (parse_fan L) s.fan_speed ≡ some s.fan_speed
      → update L status (codes "heater_fan fan1") (parse_heater_fan L) s.heater_fan_speed
        ≡ some s.heater_fan_speed
      → update L status (codes "pause_resume") (parse_pause_resume L) s.is_paused ≡ some s.is_paused
      → update L status (codes "print_stats") (parse_print_stats L) s.print_stats
        ≡ some s.print_stats
      → update L status (codes "display_status") (parse_display_status L) s.progress
        ≡ some s.progress
      → update L status
          (codes "heater_fan my_nozzle_fan1")
          (parse_printer_heater_fan_my_nozzle_fan1 L)
          s.nozzle_fan_speed
        ≡ some s.nozzle_fan_speed
      → update L status (codes "output_pin fan0") (parse_printer_out_pin_fan0 L) s.fan0
        ≡ some s.fan0
      → update L status (codes "output_pin fan2") (parse_printer_out_pin_fan2 L) s.fan2
        ≡ some s.fan2
      → update L status (codes "output_pin fan3") (parse_printer_out_pin_fan3 L) s.fan3
        ≡ some s.fan3
      → update L status
          (codes "filament_switch_sensor fila")
          (parse_filament_switch_sensor_fila L)
          s.fila
        ≡ some s.fila
      → update L status (codes "output_pin caselight") (parse_printer_caselight L) s.caselight
        ≡ some s.caselight
      → update L status (codes "output_pin sound") (parse_printer_beep L) s.beep ≡ some s.beep
      → update L status (codes "probe") (parse_printer_probe L) s.probe ≡ some s.probe
      → parse_subscribe_objects_status L status s ≡ some s
  unfolding parse_subscribe_objects_status
  parse_status_lem s e0 e1 e2 e3 e4 e5 e6 e7 e8 e9 e10 e11 e12 e13 e14 e15 e16 e17 e18 e19 e20 =
      then_some _ _ _ e0 (
        then_some _ _ _ e1 (
          then_some _ _ _ e2 (
            then_some _ _ _ e3 (
              then_some _ _ _ e4 (
                then_some _ _ _ e5 (
                  then_some _ _ _ e6 (
                    then_some _ _ _ e7 (
                      then_some _ _ _ e8 (
                        then_some _ _ _ e9 (
                          then_some _ _ _ e10 (
                            then_some _ _ _ e11 (
                              then_some _ _ _ e12 (
                                then_some _ _ _ e13 (
                                  then_some _ _ _ e14 (
                                    then_some _ _ _ e15 (
                                      then_some _ _ _ e16 (
                                        then_some _ _ _ e17 (
                                          then_some _ _ _ e18 (
                                            then_some _ _ _ e19
                                              (then_some _ _ _ e20 refl))))))))))))))))))))

  -- Whatever a message sets, the same message again sets it to the same value: a state that a
  -- message leads to is left as it is by the message, the mesh included.
  pub parse_subscribe_objects_status-Repeats :
      (s t : Printer L)
      → parse_subscribe_objects_status L status s ≡ some t
      → parse_subscribe_objects_status L status t ≡ some t
  unfolding parse_subscribe_objects_status
  parse_subscribe_objects_status-Repeats s t h =
      step_then (update L status (codes "idle_timeout") (parse_idle_timeout L)) s.idle_timeout _
        (update-Repeats L status _ _ (parse_idle_timeout-Repeats L)) h
        (λ x0 e0 h0.
          step_then (update L status (codes "bed_mesh") (parse_bed_mesh L)) s.bed_mesh _
            (update-Repeats L status _ _ (parse_bed_mesh-Repeats L)) h0
            (λ x1 e1 h1.
              step_then (update L status (codes "webhooks") (parse_webhooks L)) s.webhooks _
                (update-Repeats L status _ _ (parse_webhooks-Repeats L)) h1
                (λ x2 e2 h2.
                  step_then (update L status (codes "gcode_move") (parse_gcode_move L)) s.gcode_move
                    _ (update-Repeats L status _ _ (parse_gcode_move-Repeats L)) h2
                    (λ x3 e3 h3.
                      step_then (update L status (codes "toolhead") (parse_toolhead L)) s.toolhead _
                        (update-Repeats L status _ _ (parse_toolhead-Repeats L)) h3
                        (λ x4 e4 h4.
                          step_then (update L status (codes "extruder") (parse_extruder L))
                            s.extruder _ (update-Repeats L status _ _ (parse_extruder-Repeats L)) h4
                            (λ x5 e5 h5.
                              step_then (update L status (codes "heater_bed") (parse_heater_bed L))
                                s.heater_bed _
                                (update-Repeats L status _ _ (parse_heater_bed-Repeats L)) h5
                                (λ x6 e6 h6.
                                  step_then
                                    (update L status (codes "heater_generic hot")
                                      (parse_heater_generic_hot L))
                                    s.hot _
                                    (update-Repeats L status _ _
                                      (parse_heater_generic_hot-Repeats L))
                                    h6
                                    (λ x7 e7 h7.
                                      step_then (update L status (codes "fan") (parse_fan L))
                                        s.fan_speed _
                                        (update-Repeats L status _ _ (parse_fan-Repeats L)) h7
                                        (λ x8 e8 h8.
                                          step_then
                                            (update L status (codes "heater_fan fan1")
                                              (parse_heater_fan L))
                                            s.heater_fan_speed _
                                            (update-Repeats L status _ _
                                              (parse_heater_fan-Repeats L))
                                            h8
                                            (λ x9 e9 h9.
                                              step_then
                                                (update L status (codes "pause_resume")
                                                  (parse_pause_resume L))
                                                s.is_paused _
                                                (update-Repeats L status _ _
                                                  (parse_pause_resume-Repeats L))
                                                h9
                                                (λ x10 e10 h10.
                                                  step_then
                                                    (update L status (codes "print_stats")
                                                      (parse_print_stats L))
                                                    s.print_stats _
                                                    (update-Repeats L status _ _
                                                      (parse_print_stats-Repeats L))
                                                    h10
                                                    (λ x11 e11 h11.
                                                      step_then
                                                        (update L status (codes "display_status")
                                                          (parse_display_status L))
                                                        s.progress _
                                                        (update-Repeats L status _ _
                                                          (parse_display_status-Repeats L))
                                                        h11
                                                        (λ x12 e12 h12.
                                                          step_then
                                                            (update L status
                                                            (codes "heater_fan my_nozzle_fan1")
                                                            (parse_printer_heater_fan_my_nozzle_fan1
                                                            L))
                                                            s.nozzle_fan_speed _
                                                            (update-Repeats L status _ _ (
                                                            parse_printer_heater_fan_my_nozzle_fan1-Repeats
                                                            L))
                                                            h12
                                                            (λ x13 e13 h13.
                                                            step_then
                                                            (update L status
                                                            (codes "output_pin fan0")
                                                            (parse_printer_out_pin_fan0 L))
                                                            s.fan0 _
                                                            (update-Repeats L status _ _
                                                            (parse_printer_out_pin_fan0-Repeats L))
                                                            h13
                                                            (λ x14 e14 h14.
                                                            step_then
                                                            (update L status
                                                            (codes "output_pin fan2")
                                                            (parse_printer_out_pin_fan2 L))
                                                            s.fan2 _
                                                            (update-Repeats L status _ _
                                                            (parse_printer_out_pin_fan2-Repeats L))
                                                            h14
                                                            (λ x15 e15 h15.
                                                            step_then
                                                            (update L status
                                                            (codes "output_pin fan3")
                                                            (parse_printer_out_pin_fan3 L))
                                                            s.fan3 _
                                                            (update-Repeats L status _ _
                                                            (parse_printer_out_pin_fan3-Repeats L))
                                                            h15
                                                            (λ x16 e16 h16.
                                                            step_then
                                                            (update L status
                                                            (codes "filament_switch_sensor fila")
                                                            (parse_filament_switch_sensor_fila L))
                                                            s.fila _
                                                            (update-Repeats L status _ _ (
                                                            parse_filament_switch_sensor_fila-Repeats
                                                            L))
                                                            h16
                                                            (λ x17 e17 h17.
                                                            step_then
                                                            (update L status
                                                            (codes "output_pin caselight")
                                                            (parse_printer_caselight L))
                                                            s.caselight _
                                                            (update-Repeats L status _ _
                                                            (parse_printer_caselight-Repeats L))
                                                            h17
                                                            (λ x18 e18 h18.
                                                            step_then
                                                            (update L status
                                                            (codes "output_pin sound")
                                                            (parse_printer_beep L))
                                                            s.beep _
                                                            (update-Repeats L status _ _
                                                            (parse_printer_beep-Repeats L))
                                                            h18
                                                            (λ x19 e19 h19.
                                                            step_then
                                                            (update L status (codes "probe")
                                                            (parse_printer_probe L))
                                                            s.probe _
                                                            (update-Repeats L status _ _
                                                            (parse_printer_probe-Repeats L))
                                                            h19
                                                            (λ x20 e20 h20.
                                                            done
                                                            (parse_subscribe_objects_status L
                                                            status)
                                                            _ t h20
                                                            (parse_status_lem _ e0 e1 e2 e3 e4 e5 e6
                                                            e7 e8 e9 e10 e11 e12 e13 e14 e15 e16 e17
                                                            e18 e19 e20))))))))))))))))))))))
