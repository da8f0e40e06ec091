-- ===== src/Ui/Diagram/Loading.antt =====
-- Where the buttons of `Ui.Handler.Loading` lead.
use qidi_plus.Base.{ℕ, false, [], ◌∷◌}
use qidi_plus.Screen.{
  tjc_page_main, tjc_page_printing, tjc_page_print_filament, tjc_page_filament, tjc_page_about,
  tjc_page_screen_sleep,
}
use qidi_plus.Ui.Pages.{
  tjc_page_open_language, tjc_page_null_2, tjc_page_syntony_finish, tjc_page_pre_heating_2,
  tjc_page_pre_unload, tjc_page_pre_load, tjc_page_loading, tjc_page_pre_heating_1,
}
use qidi_plus.Ui.Handler.Loading.{
  open_heater_bed_clicked, open_pop_1_clicked, preview_pop_1_clicked, screen_sleep_clicked,
  restore_config_clicked, print_log_s_clicked, open_syntony_clicked, syntony_move_clicked,
  load_finish_clicked, pre_heating_1_clicked, pre_unload_clicked, memory_warning_clicked,
  pre_load_clicked, unload_finish_clicked,
}
use qidi_plus.Ui.Footprint.{Footprint, among-here}
use qidi_plus.Ui.Diagram.Back.{Lands, backs}
use qidi_plus.Ui.Panel.{Panel, previous_page}
use qidi_plus.Ui.Diagram.Rules.{pages}

pub open_heater_bed_clicked-Footprint :
    (widget : ℕ) → Footprint (tjc_page_null_2 ∷ []) false (open_heater_bed_clicked widget)
unfolding open_heater_bed_clicked
open_heater_bed_clicked-Footprint widget = search (pages) depth 10

pub open_pop_1_clicked-Footprint :
    (widget : ℕ)
    → Footprint (tjc_page_open_language ∷ tjc_page_main ∷ []) false (open_pop_1_clicked widget)
unfolding open_pop_1_clicked
open_pop_1_clicked-Footprint widget = search (pages) depth 9

pub preview_pop_1_clicked-Footprint :
    (widget : ℕ) → Footprint (tjc_page_printing ∷ []) false (preview_pop_1_clicked widget)
unfolding preview_pop_1_clicked
preview_pop_1_clicked-Footprint widget = search (pages) depth 11

pub screen_sleep_clicked-Lands :
    (widget : ℕ) (p : Panel)
    → Lands (previous_page p ∷ tjc_page_screen_sleep ∷ []) false p (screen_sleep_clicked widget)
unfolding screen_sleep_clicked
screen_sleep_clicked-Lands widget p =
    let start = among-here (previous_page p) (tjc_page_screen_sleep ∷ []) in
    search (backs, pages) depth 20

pub restore_config_clicked-Footprint :
    (widget : ℕ)
    → Footprint (tjc_page_main ∷ tjc_page_about ∷ []) false (restore_config_clicked widget)
unfolding restore_config_clicked
restore_config_clicked-Footprint widget = search (pages) depth 8

pub print_log_s_clicked-Footprint :
    (widget : ℕ) → Footprint (tjc_page_about ∷ []) false (print_log_s_clicked widget)
unfolding print_log_s_clicked
print_log_s_clicked-Footprint widget = search (pages) depth 7

pub open_syntony_clicked-Footprint :
    (widget : ℕ) → Footprint (tjc_page_syntony_finish ∷ []) false (open_syntony_clicked widget)
unfolding open_syntony_clicked
open_syntony_clicked-Footprint widget = search (pages) depth 8

pub syntony_move_clicked-Footprint :
    (widget : ℕ) → Footprint (tjc_page_syntony_finish ∷ []) false (syntony_move_clicked widget)
unfolding syntony_move_clicked
syntony_move_clicked-Footprint widget = search (pages) depth 8

pub load_finish_clicked-Footprint :
    (widget : ℕ)
    → Footprint
        (tjc_page_print_filament ∷ tjc_page_filament ∷ tjc_page_loading ∷ [])
        false
        (load_finish_clicked widget)
unfolding load_finish_clicked
load_finish_clicked-Footprint widget = search (pages) depth 10

pub pre_heating_1_clicked-Footprint :
    (widget : ℕ)
    → Footprint
        (tjc_page_pre_load ∷ tjc_page_pre_unload ∷ tjc_page_print_filament ∷ tjc_page_filament ∷ [])
        false
        (pre_heating_1_clicked widget)
unfolding pre_heating_1_clicked
pre_heating_1_clicked-Footprint widget = search (pages) depth 12

pub pre_unload_clicked-Footprint :
    (widget : ℕ)
    → Footprint
        (tjc_page_pre_heating_2 ∷ tjc_page_pre_heating_1 ∷ [])
        false
        (pre_unload_clicked widget)
unfolding pre_unload_clicked
pre_unload_clicked-Footprint widget = search (pages) depth 10

pub memory_warning_clicked-Footprint :
    (widget : ℕ) → Footprint (tjc_page_main ∷ []) false (memory_warning_clicked widget)
unfolding memory_warning_clicked
memory_warning_clicked-Footprint widget = search (pages) depth 7

pub pre_load_clicked-Footprint :
    (widget : ℕ)
    → Footprint
        (tjc_page_pre_heating_2 ∷ tjc_page_pre_heating_1 ∷ [])
        false
        (pre_load_clicked widget)
unfolding pre_load_clicked
pre_load_clicked-Footprint widget = search (pages) depth 10

pub unload_finish_clicked-Footprint :
    (widget : ℕ)
    → Footprint
        (tjc_page_print_filament ∷ tjc_page_filament ∷ tjc_page_pre_heating_1 ∷ [])
        false
        (unload_finish_clicked widget)
unfolding unload_finish_clicked
unload_finish_clicked-Footprint widget = search (pages) depth 10
