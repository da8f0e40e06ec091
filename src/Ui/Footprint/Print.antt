-- ===== src/Ui/Footprint/Print.antt =====
-- The footprints of the functions of `Ui.Print`.
use qidi_plus.Base.{ℕ, List, Bool, ◌≡◌, true, refl}
use qidi_plus.Ui.Footprint.{Footprint, footprints, Footprint-at, among}
use qidi_plus.Screen.{
  tjc_page_main, tjc_page_printing, tjc_page_preview_pop_1, tjc_page_preview_pop_2, write_all,
}
use qidi_plus.Ui.Panel.{Panel}
use qidi_plus.Ui.Motion.{set_extruder_target, set_heater_bed_target}
use qidi_plus.Ui.Store.{set_mks_total_printed_time}
use qidi_plus.Ui.Print.{
  clear_preview_image, clear_page_preview, set_jump_to_print, set_preview_complete, start_printing,
  delete_file, set_print_pause, set_print_resume, sdcard_reset_file, add_printed_time, cancel_print,
  finish_print, check_filament_type, level_mode_printing_set_target, level_mode_printing_print_file,
}
use qidi_plus.Files.Browser.{clear_cp0_image, send}
use qidi_plus.Screen.{write_all}
use qidi_plus.Ui.Footprint.Files.{Footprint-files}
use qidi_plus.Ui.Footprint.{Footprint-loud}
use qidi_plus.Ui.Footprint.Motion.{
  filament_sensor_switch-Footprint, set_extruder_target-Footprint, set_heater_bed_target-Footprint,
}
use qidi_plus.Ui.Footprint.Store.{
  get_mks_fila_status-Footprint, get_mks_total_printed_time-Footprint,
  set_mks_total_printed_time-Footprint,
}

pub clear_preview_image-Footprint :
    {l : List ℕ} {loud : Bool} → Footprint l loud clear_preview_image
unfolding clear_preview_image clear_cp0_image send write_all
clear_preview_image-Footprint = Footprint-files _ (λ _. refl)

pub clear_page_preview-Footprint : {l : List ℕ} {loud : Bool} → Footprint l loud clear_page_preview
unfolding clear_page_preview
clear_page_preview-Footprint = search (footprints, Footprint-files)

pub set_jump_to_print-Footprint :
    {l : List ℕ} {loud : Bool} (jump : Bool) → Footprint l loud (set_jump_to_print jump)
unfolding set_jump_to_print
set_jump_to_print-Footprint jump = Footprint-files _ (λ _. refl)

pub set_preview_complete-Footprint :
    {l : List ℕ} {loud : Bool} (complete : Bool) → Footprint l loud (set_preview_complete complete)
unfolding set_preview_complete
set_preview_complete-Footprint complete = Footprint-files _ (λ _. refl)

pub start_printing-Footprint : {l : List ℕ} → Footprint l true start_printing
unfolding start_printing
start_printing-Footprint = Footprint-at (λ p. Footprint-loud _)

pub delete_file-Footprint : {l : List ℕ} → Footprint l true delete_file
unfolding delete_file
delete_file-Footprint = Footprint-at (λ p. Footprint-loud _)

pub level_mode_printing_print_file-Footprint :
    {l : List ℕ} → Footprint l true level_mode_printing_print_file
unfolding level_mode_printing_print_file
level_mode_printing_print_file-Footprint = Footprint-loud _

Footprint-bed_at :
    {l : List ℕ} {loud : Bool} (target : Panel → ℕ)
    → Footprint l loud (λ p. set_heater_bed_target (target p) p)
Footprint-bed_at target = Footprint-at (λ p. set_heater_bed_target-Footprint (target p))

Footprint-extruder_at :
    {l : List ℕ} {loud : Bool} (target : Panel → ℕ)
    → Footprint l loud (λ p. set_extruder_target (target p) p)
Footprint-extruder_at target = Footprint-at (λ p. set_extruder_target-Footprint (target p))

Footprint-minutes_at :
    {l : List ℕ} {loud : Bool} (minutes : Panel → ℕ)
    → Footprint l loud (λ p. set_mks_total_printed_time (minutes p) p)
Footprint-minutes_at minutes = Footprint-at (λ p. set_mks_total_printed_time-Footprint (minutes p))

pub set_print_pause-Footprint : {l : List ℕ} {loud : Bool} → Footprint l loud set_print_pause
unfolding set_print_pause
set_print_pause-Footprint = search (footprints, filament_sensor_switch-Footprint)

pub set_print_resume-Footprint : {l : List ℕ} {loud : Bool} → Footprint l loud set_print_resume
unfolding set_print_resume
set_print_resume-Footprint =
    search (footprints, get_mks_fila_status-Footprint, filament_sensor_switch-Footprint)

pub sdcard_reset_file-Footprint : {l : List ℕ} {loud : Bool} → Footprint l loud sdcard_reset_file
unfolding sdcard_reset_file
sdcard_reset_file-Footprint = search (footprints)

pub add_printed_time-Footprint : {l : List ℕ} {loud : Bool} → Footprint l loud add_printed_time
unfolding add_printed_time
add_printed_time-Footprint =
    search (footprints, get_mks_total_printed_time-Footprint, Footprint-minutes_at)

pub cancel_print-Footprint : {l : List ℕ} {loud : Bool} → Footprint l loud cancel_print
unfolding cancel_print
cancel_print-Footprint =
    search
      (
        footprints, filament_sensor_switch-Footprint, clear_preview_image-Footprint,
        add_printed_time-Footprint, sdcard_reset_file-Footprint,
      )
      depth 11

pub finish_print-Footprint :
    {l : List ℕ} {loud : Bool} → among tjc_page_main l ≡ true → Footprint l loud finish_print
unfolding finish_print
finish_print-Footprint h0 =
    search
      (
        footprints, sdcard_reset_file-Footprint, clear_preview_image-Footprint,
        clear_page_preview-Footprint, set_preview_complete-Footprint,
      )
      depth 8

pub check_filament_type-Footprint :
    {l : List ℕ} {loud : Bool}
    → among tjc_page_preview_pop_1 l ≡ true
    → among tjc_page_preview_pop_2 l ≡ true
    → among tjc_page_printing l ≡ true
    → Footprint l loud check_filament_type
unfolding check_filament_type
check_filament_type-Footprint h0 h1 h2 = search (footprints)

pub level_mode_printing_set_target-Footprint :
    {l : List ℕ} {loud : Bool} → Footprint l loud level_mode_printing_set_target
unfolding level_mode_printing_set_target
level_mode_printing_set_target-Footprint =
    search (footprints, Footprint-bed_at, Footprint-extruder_at)

pub ruleset print_footprints = (
  set_print_pause-Footprint, set_print_resume-Footprint, sdcard_reset_file-Footprint,
  add_printed_time-Footprint, cancel_print-Footprint, finish_print-Footprint,
  check_filament_type-Footprint, level_mode_printing_set_target-Footprint,
  clear_preview_image-Footprint, clear_page_preview-Footprint, set_jump_to_print-Footprint,
  set_preview_complete-Footprint, start_printing-Footprint, delete_file-Footprint,
  level_mode_printing_print_file-Footprint,
)
