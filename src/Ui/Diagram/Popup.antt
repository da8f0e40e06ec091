-- ===== src/Ui/Diagram/Popup.antt =====
-- Where the buttons of `Ui.Handler.Popup` lead.
use qidi_plus.Base.{ℕ, false, [], ◌∷◌}
use qidi_plus.Screen.{
  tjc_page_main, tjc_page_print_filament, tjc_page_move, tjc_page_filament, tjc_page_service,
  tjc_page_stopping,
}
use qidi_plus.Ui.Pages.{
  tjc_page_level_mode, tjc_page_leveling_init, tjc_page_wifi_list_2, tjc_page_internet,
  tjc_page_wifi_save, tjc_page_level_null_1, tjc_page_level_null_2,
}
use qidi_plus.Ui.Handler.Popup.{
  disk_detect_2_clicked, wifi_success_clicked, wifi_failed_clicked, wifi_keyboard_clicked,
  wait_pop_clicked, filament_pop_3_clicked, filament_pop_5_clicked, filament_showdown_clicked,
  level_null_1_clicked, level_null_2_clicked, detect_error_clicked, gcode_error_clicked,
}
use qidi_plus.Ui.Footprint.{Footprint, among-here}
use qidi_plus.Ui.Diagram.Back.{Lands, backs}
use qidi_plus.Ui.Panel.{Panel, previous_page}
use qidi_plus.Ui.Diagram.Rules.{pages}

pub disk_detect_2_clicked-Footprint :
    (widget : ℕ)
    → Footprint
        (tjc_page_main ∷ tjc_page_move ∷ tjc_page_service ∷ [])
        false
        (disk_detect_2_clicked widget)
unfolding disk_detect_2_clicked
disk_detect_2_clicked-Footprint widget = search (pages) depth 9

pub wifi_success_clicked-Footprint :
    (widget : ℕ)
    → Footprint
        (tjc_page_wifi_save ∷ tjc_page_wifi_list_2 ∷ tjc_page_internet ∷ [])
        false
        (wifi_success_clicked widget)
unfolding wifi_success_clicked
wifi_success_clicked-Footprint widget = search (pages) depth 10

pub wifi_failed_clicked-Footprint :
    (widget : ℕ)
    → Footprint (tjc_page_wifi_list_2 ∷ tjc_page_internet ∷ []) false (wifi_failed_clicked widget)
unfolding wifi_failed_clicked
wifi_failed_clicked-Footprint widget = search (pages) depth 9

pub wifi_keyboard_clicked-Footprint :
    (widget : ℕ) → Footprint (tjc_page_wifi_list_2 ∷ []) false (wifi_keyboard_clicked widget)
unfolding wifi_keyboard_clicked
wifi_keyboard_clicked-Footprint widget = search (pages) depth 11

pub wait_pop_clicked-Lands :
    (widget : ℕ) (p : Panel) → Lands (previous_page p ∷ []) false p (wait_pop_clicked widget)
unfolding wait_pop_clicked
wait_pop_clicked-Lands widget p =
    let start = among-here (previous_page p) ([]) in search (backs, pages) depth 7

pub filament_pop_3_clicked-Footprint :
    (widget : ℕ) → Footprint (tjc_page_print_filament ∷ []) false (filament_pop_3_clicked widget)
unfolding filament_pop_3_clicked
filament_pop_3_clicked-Footprint widget = search (pages) depth 7

pub filament_pop_5_clicked-Footprint :
    (widget : ℕ) → Footprint (tjc_page_filament ∷ []) false (filament_pop_5_clicked widget)
unfolding filament_pop_5_clicked
filament_pop_5_clicked-Footprint widget = search (pages) depth 7

pub filament_showdown_clicked-Footprint :
    (widget : ℕ) → Footprint ([]) false (filament_showdown_clicked widget)
unfolding filament_showdown_clicked
filament_showdown_clicked-Footprint widget = search (pages) depth 6

pub level_null_1_clicked-Footprint :
    (widget : ℕ)
    → Footprint
        (tjc_page_level_mode ∷ tjc_page_level_null_2 ∷ [])
        false
        (level_null_1_clicked widget)
unfolding level_null_1_clicked
level_null_1_clicked-Footprint widget = search (pages) depth 11

pub level_null_2_clicked-Footprint :
    (widget : ℕ)
    → Footprint
        (tjc_page_level_mode ∷ tjc_page_level_null_1 ∷ tjc_page_leveling_init ∷ [])
        false
        (level_null_2_clicked widget)
unfolding level_null_2_clicked
level_null_2_clicked-Footprint widget = search (pages) depth 13

pub detect_error_clicked-Footprint :
    (widget : ℕ) → Footprint (tjc_page_main ∷ []) false (detect_error_clicked widget)
unfolding detect_error_clicked
detect_error_clicked-Footprint widget = search (pages) depth 7

pub gcode_error_clicked-Footprint :
    (widget : ℕ) → Footprint (tjc_page_stopping ∷ []) false (gcode_error_clicked widget)
unfolding gcode_error_clicked
gcode_error_clicked-Footprint widget = search (pages) depth 8
