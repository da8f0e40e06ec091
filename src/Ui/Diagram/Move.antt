-- ===== src/Ui/Diagram/Move.antt =====
-- Where the buttons of `Ui.Handler.Move` lead.
use qidi_plus.Base.{ℕ, false, [], ◌∷◌}
use qidi_plus.Screen.{tjc_page_main, tjc_page_file_list_1, tjc_page_move, tjc_page_filament}
use qidi_plus.Ui.Pages.{
  tjc_page_kb_filament_1, tjc_page_level_mode, tjc_page_language, tjc_page_unloading,
  tjc_page_pre_heating_1, tjc_page_network_set,
}
use qidi_plus.Ui.Handler.Move.{
  move_clicked, move_pop_1_clicked, filament_clicked, filament_pop_clicked, filament_pop_4_clicked,
}
use qidi_plus.Ui.Footprint.{Footprint}
use qidi_plus.Ui.Diagram.Rules.{pages}

pub move_clicked-Footprint :
    (widget : ℕ)
    → Footprint
        (tjc_page_main ∷ tjc_page_language ∷ tjc_page_filament ∷ tjc_page_level_mode
          ∷ tjc_page_network_set ∷ tjc_page_file_list_1 ∷ [])
        false
        (move_clicked widget)
unfolding move_clicked
move_clicked-Footprint widget = search (pages) depth 25

pub move_pop_1_clicked-Footprint :
    (widget : ℕ) → Footprint (tjc_page_move ∷ []) false (move_pop_1_clicked widget)
unfolding move_pop_1_clicked
move_pop_1_clicked-Footprint widget = search (pages) depth 10

pub filament_clicked-Footprint :
    (widget : ℕ)
    → Footprint
        (tjc_page_main ∷ tjc_page_language ∷ tjc_page_move ∷ tjc_page_level_mode
          ∷ tjc_page_network_set ∷ tjc_page_pre_heating_1 ∷ tjc_page_kb_filament_1
          ∷ tjc_page_file_list_1 ∷ [])
        false
        (filament_clicked widget)
unfolding filament_clicked
filament_clicked-Footprint widget = search (pages) depth 35 fits 9000

pub filament_pop_clicked-Footprint :
    (widget : ℕ) → Footprint (tjc_page_filament ∷ []) false (filament_pop_clicked widget)
unfolding filament_pop_clicked
filament_pop_clicked-Footprint widget = search (pages) depth 9

pub filament_pop_4_clicked-Footprint :
    (widget : ℕ) → Footprint (tjc_page_unloading ∷ []) false (filament_pop_4_clicked widget)
unfolding filament_pop_4_clicked
filament_pop_4_clicked-Footprint widget = search (pages) depth 11
