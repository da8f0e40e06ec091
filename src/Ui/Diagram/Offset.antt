-- ===== src/Ui/Diagram/Offset.antt =====
-- Where the buttons of `Ui.Handler.Offset` lead.
use qidi_plus.Base.{ℕ, true, false, [], ◌∷◌}
use qidi_plus.Screen.{
  tjc_page_main, tjc_page_printing, tjc_page_stop_print, tjc_page_print_filament, tjc_page_move,
  tjc_page_filament, tjc_page_stopping, tjc_page_level_print,
}
use qidi_plus.Ui.Pages.{tjc_page_level_mode, tjc_page_saving, tjc_page_set_temp_level_kb}
use qidi_plus.Ui.Handler.Offset.{
  print_zoffset_clicked, print_keyboard_clicked, print_finish_clicked, stop_print_clicked,
  set_zoffset_2_clicked, keybdb_clicked, pop_1_clicked, kb_filament_1_clicked, disk_detect_clicked,
  updated_clicked, set_temp_level_clicked,
}
use qidi_plus.Ui.Footprint.{Footprint, among-here}
use qidi_plus.Ui.Diagram.Back.{Lands, backs}
use qidi_plus.Ui.Panel.{Panel, previous_page}
use qidi_plus.Ui.Diagram.Rules.{pages}

pub print_zoffset_clicked-Footprint :
    (widget : ℕ)
    → Footprint
        (tjc_page_print_filament ∷ tjc_page_stop_print ∷ tjc_page_printing ∷ [])
        false
        (print_zoffset_clicked widget)
unfolding print_zoffset_clicked
print_zoffset_clicked-Footprint widget = search (pages) depth 17

pub print_keyboard_clicked-Footprint :
    (widget : ℕ) → Footprint (tjc_page_printing ∷ []) false (print_keyboard_clicked widget)
unfolding print_keyboard_clicked
print_keyboard_clicked-Footprint widget = search (pages) depth 8

pub print_finish_clicked-Footprint :
    (widget : ℕ) → Footprint (tjc_page_main ∷ []) false (print_finish_clicked widget)
unfolding print_finish_clicked
print_finish_clicked-Footprint widget = search (pages) depth 8

pub stop_print_clicked-Lands :
    (widget : ℕ) (p : Panel)
    → Lands (previous_page p ∷ tjc_page_stopping ∷ []) false p (stop_print_clicked widget)
unfolding stop_print_clicked
stop_print_clicked-Lands widget p =
    let start = among-here (previous_page p) (tjc_page_stopping ∷ []) in
    search (backs, pages) depth 10

pub set_zoffset_2_clicked-Footprint :
    (widget : ℕ) → Footprint (tjc_page_saving ∷ []) false (set_zoffset_2_clicked widget)
unfolding set_zoffset_2_clicked
set_zoffset_2_clicked-Footprint widget = search (pages) depth 13

pub keybdb_clicked-Footprint :
    (widget : ℕ)
    → Footprint (tjc_page_print_filament ∷ tjc_page_stop_print ∷ []) false (keybdb_clicked widget)
unfolding keybdb_clicked
keybdb_clicked-Footprint widget = search (pages) depth 11

pub pop_1_clicked-Lands :
    (widget : ℕ) (p : Panel)
    → Lands (previous_page p ∷ tjc_page_move ∷ tjc_page_main ∷ []) false p (pop_1_clicked widget)
unfolding pop_1_clicked
pop_1_clicked-Lands widget p =
    let start = among-here (previous_page p) (tjc_page_move ∷ tjc_page_main ∷ []) in
    search (backs, pages) depth 10

pub kb_filament_1_clicked-Footprint :
    (widget : ℕ) → Footprint (tjc_page_filament ∷ []) false (kb_filament_1_clicked widget)
unfolding kb_filament_1_clicked
kb_filament_1_clicked-Footprint widget = search (pages) depth 7

pub disk_detect_clicked-Lands :
    (widget : ℕ) (p : Panel) → Lands (previous_page p ∷ []) false p (disk_detect_clicked widget)
unfolding disk_detect_clicked
disk_detect_clicked-Lands widget p =
    let start = among-here (previous_page p) ([]) in search (backs, pages) depth 7

pub updated_clicked-Footprint :
    (widget : ℕ) → Footprint (tjc_page_main ∷ []) false (updated_clicked widget)
unfolding updated_clicked
updated_clicked-Footprint widget = search (pages) depth 9

pub set_temp_level_clicked-Footprint :
    (widget : ℕ)
    → Footprint
        (tjc_page_level_mode ∷ tjc_page_set_temp_level_kb ∷ tjc_page_level_print ∷ [])
        true
        (set_temp_level_clicked widget)
unfolding set_temp_level_clicked
set_temp_level_clicked-Footprint widget = search (pages) depth 21
