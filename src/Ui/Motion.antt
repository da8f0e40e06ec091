-- ===== src/Ui/Motion.antt =====
-- src/event.cpp: the functions that only send scripts to the printer or choose a distance for one;
-- src/KlippyGcodes.cpp and src/MakerbasePanel.cpp: the texts of the scripts.
use qidi_plus.Base.{
  ℕ, ◌*◌, ◌==◌, Bool, true, false, if◌then◌else◌, List, [], ◌∷◌, ◌++◌, Bytes, codes, to_string, not,
}
use qidi_plus.Screen.{tjc_page_filament}
use qidi_plus.SendMsg.Widget.{send_cmd_picc, send_cmd_vid}
use qidi_plus.Heat.{
  Heater, set_target, filament_extruder_target, filament_heater_bed_target, filament_hot_target,
}
use qidi_plus.Ui.Panel.{
  Distance, still, hundredth, twentieth, tenth, one, ten, distance_text, Effect, Panel, Action,
  done, ◌▸◌, act, when, page, show, emit, gcode, set_flags, on_heat,
}

-- `send_gcode`
unfoldable pub send_gcode : Bytes → Action
send_gcode command = gcode command

-- The picture that marks the chosen distance.
unfoldable pub offset_picture : Distance → List Bytes
offset_picture hundredth = send_cmd_picc (codes "q0") (codes "48") ∷ []
offset_picture twentieth = send_cmd_picc (codes "q0") (codes "49") ∷ []
offset_picture tenth = send_cmd_picc (codes "q0") (codes "50") ∷ []
offset_picture one = send_cmd_picc (codes "q0") (codes "51") ∷ []
offset_picture ten = []
offset_picture still = []

unfoldable pub set_intern_zoffset : Distance → Action
set_intern_zoffset offset =
    act (λ p. record p { set_offset = offset }) ▸ show (offset_picture offset)

unfoldable pub set_zoffset : Bool → Action
set_zoffset positive = λ p.
    gcode
      (codes (if positive then "SET_GCODE_OFFSET Z_ADJUST=+" else "SET_GCODE_OFFSET Z_ADJUST=-")
        ++ distance_text p.set_offset
        ++ codes " MOVE=1")
      p

unfoldable pub set_move_dist : Distance → Action
set_move_dist dist = act (λ p. record p { move_dist = dist })

unfoldable pub move_home : Action
move_home = gcode (codes "G28\n")

-- `move`
unfoldable pub move : Bytes → Bytes → ℕ → Action
move axis dist speed =
    gcode
      (codes "G91\nG1 " ++ axis ++ dist ++ codes " F" ++ to_string (speed * 60) ++ codes "\nG90")

-- `move_x_decrease`, `move_x_increase` and so on for y and z.
unfoldable pub move_axis : Bytes → Bytes → ℕ → Action
move_axis axis sign speed = λ p. move axis (sign ++ distance_text p.move_dist) speed p

unfoldable pub move_x_decrease : Action
move_x_decrease = move_axis (codes "X") (codes "-") 130

unfoldable pub move_x_increase : Action
move_x_increase = move_axis (codes "X") (codes "+") 130

unfoldable pub move_y_decrease : Action
move_y_decrease = move_axis (codes "Y") (codes "-") 130

unfoldable pub move_y_increase : Action
move_y_increase = move_axis (codes "Y") (codes "+") 130

unfoldable pub move_z_decrease : Action
move_z_decrease = move_axis (codes "Z") (codes "-") 10

unfoldable pub move_z_increase : Action
move_z_increase = move_axis (codes "Z") (codes "+") 10

unfoldable pub move_motors_off : Action
move_motors_off = gcode (codes "M84\n")

unfoldable pub motors_off : Action
motors_off = emit Effect.emergency_stop ▸ emit (Effect.sleep 1) ▸ gcode (codes "FIRMWARE_RESTART\n")

unfoldable pub reset_klipper : Action
reset_klipper = gcode (codes "RESTART\n")

-- `reset_firmware` and `firmware_reset`
unfoldable pub reset_firmware : Action
reset_firmware = gcode (codes "FIRMWARE_RESTART\n")

unfoldable pub beep_on_off : Action
beep_on_off =
    when (λ p. p.world.beep_off)
      (gcode (codes "beep_on") ▸ set_flags (λ f. record f { beep_status = true }))
      (gcode (codes "beep_off") ▸ set_flags (λ f. record f { beep_status = false }))

unfoldable pub led_on_off : Action
led_on_off =
    when (λ p. p.world.caselight_is_0)
      (gcode (codes "SET_PIN PIN=caselight VALUE=1")
        ▸ set_flags (λ f. record f { led_status = true }))
      (gcode (codes "SET_PIN PIN=caselight VALUE=0")
        ▸ when (λ p. not p.flags.previous_caselight_value)
            (set_flags (λ f. record f { led_status = false })) done)

-- `set_fan0_speed (0)`, `set_fan0_speed (100)` and so on, as `std::to_string` writes the float.
unfoldable pub fan : Bytes → (Panel → Bool) → Action
fan pin is_off = λ p.
    gcode
      (codes "M106 P" ++ pin ++ codes " S" ++ codes (if is_off p then "255.000000" else "0.000000"))
      p

unfoldable pub filament_fan0 : Action
filament_fan0 = fan (codes "0") (λ p. p.world.fan0_off)

unfoldable pub filament_fan2 : Action
filament_fan2 = fan (codes "2") (λ p. p.world.fan2_off)

unfoldable pub filament_fan3 : Action
filament_fan3 = fan (codes "3") (λ p. p.world.fan3_off)

unfoldable pub set_extruder_target : ℕ → Action
set_extruder_target target = on_heat (set_target Heater.extruder target)

unfoldable pub set_heater_bed_target : ℕ → Action
set_heater_bed_target target = on_heat (set_target Heater.heater_bed target)

-- `filament_extruder_target`, `set_print_filament_target` and `open_set_print_filament_target`,
-- which have the same body.
unfoldable pub switch_extruder : Action
switch_extruder = λ p. on_heat (filament_extruder_target p.world.extruder_target) p

unfoldable pub switch_heater_bed : Action
switch_heater_bed = λ p. on_heat (filament_heater_bed_target p.world.heater_bed_target) p

unfoldable pub switch_hot : Action
switch_hot = λ p. on_heat (filament_hot_target p.world.hot_target) p

unfoldable pub set_print_filament_dist : ℕ → Action
set_print_filament_dist dist = act (λ p. record p { filament_dist = dist })

-- `start_retract` and `start_extrude`: the script, and the moving picture on the filament page.
unfoldable pub drive : Bytes → Bytes → Action
drive sign video =
    (λ p. gcode (codes "M83\nG1 E" ++ sign ++ to_string p.filament_dist ++ codes " F300\n") p)
    ▸ when (λ p. page p == tjc_page_filament) (show (send_cmd_vid (codes "gm0") video ∷ [])) done

unfoldable pub start_retract : Action
start_retract = drive (codes "-") (codes "9")

unfoldable pub start_extrude : Action
start_extrude = drive [] (codes "10")

unfoldable pub open_start_extrude : Action
open_start_extrude = gcode (codes "M83\nG1 E20 F300\n")

unfoldable pub open_down_50 : Action
open_down_50 = gcode (codes "G28\nG1 Z50\n")

-- The wait for the temperature that `filament_load` and `filament_unload` begin with.
unfoldable pub heat_nozzle : Action
heat_nozzle = λ p. gcode (codes "M109 S" ++ to_string p.load_target ++ codes "\n") p

unfoldable pub filament_unload : Action
filament_unload = heat_nozzle ▸ gcode (codes "M603\n")

unfoldable pub filament_load : Action
filament_load = heat_nozzle ▸ gcode (codes "M604\n")

unfoldable pub filament_sensor_switch : Bool → Action
filament_sensor_switch status = gcode (
    codes (
      if status
      then "SET_FILAMENT_SENSOR SENSOR=fila ENABLE=1\n"
      else "SET_FILAMENT_SENSOR SENSOR=fila ENABLE=0\n"))

unfoldable pub bed_leveling_switch : Bool → Action
bed_leveling_switch positive =
    set_flags (λ f. record f { printer_bed_leveling_state = positive })
    ▸ gcode (codes (if positive then "G31" else "G32"))
