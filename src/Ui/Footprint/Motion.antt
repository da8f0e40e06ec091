-- ===== src/Ui/Footprint/Motion.antt =====
-- The footprints of the functions of `Ui.Motion`.
use qidi_plus.Base.{ℕ, List, Bool, Bytes}
use qidi_plus.Ui.Footprint.{Footprint, footprints}
use qidi_plus.Ui.Panel.{Distance}
use qidi_plus.Ui.Motion.{
  send_gcode, set_intern_zoffset, set_zoffset, set_move_dist, move_home, move, move_axis,
  move_x_decrease, move_x_increase, move_y_decrease, move_y_increase, move_z_decrease,
  move_z_increase, move_motors_off, motors_off, reset_klipper, reset_firmware, beep_on_off,
  led_on_off, fan, filament_fan0, filament_fan2, filament_fan3, set_extruder_target,
  set_heater_bed_target, switch_extruder, switch_heater_bed, switch_hot, set_print_filament_dist,
  drive, start_retract, start_extrude, open_start_extrude, open_down_50, heat_nozzle,
  filament_unload, filament_load, filament_sensor_switch, bed_leveling_switch,
}

pub send_gcode-Footprint :
    {l : List ℕ} {loud : Bool} (command : Bytes) → Footprint l loud (send_gcode command)
unfolding send_gcode
send_gcode-Footprint command = search (footprints)

pub set_intern_zoffset-Footprint :
    {l : List ℕ} {loud : Bool} (offset : Distance) → Footprint l loud (set_intern_zoffset offset)
unfolding set_intern_zoffset
set_intern_zoffset-Footprint offset = search (footprints)

pub set_zoffset-Footprint :
    {l : List ℕ} {loud : Bool} (positive : Bool) → Footprint l loud (set_zoffset positive)
unfolding set_zoffset
set_zoffset-Footprint positive = search (footprints)

pub set_move_dist-Footprint :
    {l : List ℕ} {loud : Bool} (dist : Distance) → Footprint l loud (set_move_dist dist)
unfolding set_move_dist
set_move_dist-Footprint dist = search (footprints)

pub move_home-Footprint : {l : List ℕ} {loud : Bool} → Footprint l loud move_home
unfolding move_home
move_home-Footprint = search (footprints)

pub move_x_decrease-Footprint : {l : List ℕ} {loud : Bool} → Footprint l loud move_x_decrease
unfolding move_x_decrease move_axis move
move_x_decrease-Footprint = search (footprints)

pub move_x_increase-Footprint : {l : List ℕ} {loud : Bool} → Footprint l loud move_x_increase
unfolding move_x_increase move_axis move
move_x_increase-Footprint = search (footprints)

pub move_y_decrease-Footprint : {l : List ℕ} {loud : Bool} → Footprint l loud move_y_decrease
unfolding move_y_decrease move_axis move
move_y_decrease-Footprint = search (footprints)

pub move_y_increase-Footprint : {l : List ℕ} {loud : Bool} → Footprint l loud move_y_increase
unfolding move_y_increase move_axis move
move_y_increase-Footprint = search (footprints)

pub move_z_decrease-Footprint : {l : List ℕ} {loud : Bool} → Footprint l loud move_z_decrease
unfolding move_z_decrease move_axis move
move_z_decrease-Footprint = search (footprints)

pub move_z_increase-Footprint : {l : List ℕ} {loud : Bool} → Footprint l loud move_z_increase
unfolding move_z_increase move_axis move
move_z_increase-Footprint = search (footprints)

pub move_motors_off-Footprint : {l : List ℕ} {loud : Bool} → Footprint l loud move_motors_off
unfolding move_motors_off
move_motors_off-Footprint = search (footprints)

pub motors_off-Footprint : {l : List ℕ} {loud : Bool} → Footprint l loud motors_off
unfolding motors_off
motors_off-Footprint = search (footprints)

pub reset_klipper-Footprint : {l : List ℕ} {loud : Bool} → Footprint l loud reset_klipper
unfolding reset_klipper
reset_klipper-Footprint = search (footprints)

pub reset_firmware-Footprint : {l : List ℕ} {loud : Bool} → Footprint l loud reset_firmware
unfolding reset_firmware
reset_firmware-Footprint = search (footprints)

pub beep_on_off-Footprint : {l : List ℕ} {loud : Bool} → Footprint l loud beep_on_off
unfolding beep_on_off
beep_on_off-Footprint = search (footprints)

pub led_on_off-Footprint : {l : List ℕ} {loud : Bool} → Footprint l loud led_on_off
unfolding led_on_off
led_on_off-Footprint = search (footprints) depth 8

pub filament_fan0-Footprint : {l : List ℕ} {loud : Bool} → Footprint l loud filament_fan0
unfolding filament_fan0 fan
filament_fan0-Footprint = search (footprints)

pub filament_fan2-Footprint : {l : List ℕ} {loud : Bool} → Footprint l loud filament_fan2
unfolding filament_fan2 fan
filament_fan2-Footprint = search (footprints)

pub filament_fan3-Footprint : {l : List ℕ} {loud : Bool} → Footprint l loud filament_fan3
unfolding filament_fan3 fan
filament_fan3-Footprint = search (footprints)

pub set_extruder_target-Footprint :
    {l : List ℕ} {loud : Bool} (target : ℕ) → Footprint l loud (set_extruder_target target)
unfolding set_extruder_target
set_extruder_target-Footprint target = search (footprints)

pub set_heater_bed_target-Footprint :
    {l : List ℕ} {loud : Bool} (target : ℕ) → Footprint l loud (set_heater_bed_target target)
unfolding set_heater_bed_target
set_heater_bed_target-Footprint target = search (footprints)

pub switch_extruder-Footprint : {l : List ℕ} {loud : Bool} → Footprint l loud switch_extruder
unfolding switch_extruder
switch_extruder-Footprint = search (footprints)

pub switch_heater_bed-Footprint : {l : List ℕ} {loud : Bool} → Footprint l loud switch_heater_bed
unfolding switch_heater_bed
switch_heater_bed-Footprint = search (footprints)

pub switch_hot-Footprint : {l : List ℕ} {loud : Bool} → Footprint l loud switch_hot
unfolding switch_hot
switch_hot-Footprint = search (footprints)

pub set_print_filament_dist-Footprint :
    {l : List ℕ} {loud : Bool} (dist : ℕ) → Footprint l loud (set_print_filament_dist dist)
unfolding set_print_filament_dist
set_print_filament_dist-Footprint dist = search (footprints)

pub start_retract-Footprint : {l : List ℕ} {loud : Bool} → Footprint l loud start_retract
unfolding start_retract drive
start_retract-Footprint = search (footprints)

pub start_extrude-Footprint : {l : List ℕ} {loud : Bool} → Footprint l loud start_extrude
unfolding start_extrude drive
start_extrude-Footprint = search (footprints)

pub open_start_extrude-Footprint : {l : List ℕ} {loud : Bool} → Footprint l loud open_start_extrude
unfolding open_start_extrude
open_start_extrude-Footprint = search (footprints)

pub open_down_50-Footprint : {l : List ℕ} {loud : Bool} → Footprint l loud open_down_50
unfolding open_down_50
open_down_50-Footprint = search (footprints)

pub heat_nozzle-Footprint : {l : List ℕ} {loud : Bool} → Footprint l loud heat_nozzle
unfolding heat_nozzle
heat_nozzle-Footprint = search (footprints)

pub filament_unload-Footprint : {l : List ℕ} {loud : Bool} → Footprint l loud filament_unload
unfolding filament_unload
filament_unload-Footprint = search (footprints, heat_nozzle-Footprint)

pub filament_load-Footprint : {l : List ℕ} {loud : Bool} → Footprint l loud filament_load
unfolding filament_load
filament_load-Footprint = search (footprints, heat_nozzle-Footprint)

pub filament_sensor_switch-Footprint :
    {l : List ℕ} {loud : Bool} (status : Bool) → Footprint l loud (filament_sensor_switch status)
unfolding filament_sensor_switch
filament_sensor_switch-Footprint status = search (footprints)

pub bed_leveling_switch-Footprint :
    {l : List ℕ} {loud : Bool} (positive : Bool) → Footprint l loud (bed_leveling_switch positive)
unfolding bed_leveling_switch
bed_leveling_switch-Footprint positive = search (footprints)

pub ruleset motion_footprints = (
  send_gcode-Footprint, set_intern_zoffset-Footprint, set_zoffset-Footprint,
  set_move_dist-Footprint, move_home-Footprint, move_x_decrease-Footprint,
  move_x_increase-Footprint, move_y_decrease-Footprint, move_y_increase-Footprint,
  move_z_decrease-Footprint, move_z_increase-Footprint, move_motors_off-Footprint,
  motors_off-Footprint, reset_klipper-Footprint, reset_firmware-Footprint, beep_on_off-Footprint,
  led_on_off-Footprint, filament_fan0-Footprint, filament_fan2-Footprint, filament_fan3-Footprint,
  set_extruder_target-Footprint, set_heater_bed_target-Footprint, switch_extruder-Footprint,
  switch_heater_bed-Footprint, switch_hot-Footprint, set_print_filament_dist-Footprint,
  start_retract-Footprint, start_extrude-Footprint, open_start_extrude-Footprint,
  open_down_50-Footprint, heat_nozzle-Footprint, filament_unload-Footprint, filament_load-Footprint,
  filament_sensor_switch-Footprint, bed_leveling_switch-Footprint,
)
