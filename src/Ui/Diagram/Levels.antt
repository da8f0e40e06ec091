-- ===== src/Ui/Diagram/Levels.antt =====
-- Where the buttons of `Ui.Handler.Levels` lead.
use qidi_plus.Base.{ℕ, false, [], ◌∷◌}
use qidi_plus.Screen.{
  tjc_page_main, tjc_page_file_list_1, tjc_page_print_filament, tjc_page_move, tjc_page_filament,
}
use qidi_plus.Ui.Pages.{
  tjc_page_level_mode, tjc_page_leveling_null, tjc_page_leveling_init, tjc_page_auto_move,
  tjc_page_set_zoffset, tjc_page_syntony_move, tjc_page_language, tjc_page_saving,
  tjc_page_change_zoffset, tjc_page_wait_pop, tjc_page_level_null_1, tjc_page_level_null_2,
  tjc_page_leveling_null_2, tjc_page_network_set,
}
use qidi_plus.Ui.Handler.Levels.{
  level_mode_clicked, leveling_null_clicked, leveling_null_2_clicked, auto_level_clicked,
  auto_finish_clicked, print_f_pop_clicked, set_zoffset_clicked, change_zoffset_clicked,
}
use qidi_plus.Ui.Footprint.{Footprint}
use qidi_plus.Ui.Diagram.Rules.{pages}

pub level_mode_clicked-Footprint :
    (widget : ℕ)
    → Footprint
        (tjc_page_main ∷ tjc_page_language ∷ tjc_page_move ∷ tjc_page_filament
          ∷ tjc_page_network_set ∷ tjc_page_level_null_1 ∷ tjc_page_leveling_null_2
          ∷ tjc_page_set_zoffset ∷ tjc_page_level_null_2 ∷ tjc_page_wait_pop ∷ tjc_page_file_list_1
          ∷ tjc_page_syntony_move ∷ [])
        false
        (level_mode_clicked widget)
unfolding level_mode_clicked
level_mode_clicked-Footprint widget = search (pages) depth 21 fits 9000

pub leveling_null_clicked-Footprint :
    (widget : ℕ)
    → Footprint
        (tjc_page_level_mode ∷ tjc_page_main ∷ tjc_page_language ∷ tjc_page_change_zoffset
          ∷ tjc_page_file_list_1 ∷ tjc_page_leveling_init ∷ [])
        false
        (leveling_null_clicked widget)
unfolding leveling_null_clicked
leveling_null_clicked-Footprint widget = search (pages) depth 13

pub leveling_null_2_clicked-Footprint :
    (widget : ℕ)
    → Footprint
        (tjc_page_level_mode ∷ tjc_page_leveling_init ∷ [])
        false
        (leveling_null_2_clicked widget)
unfolding leveling_null_2_clicked
leveling_null_2_clicked-Footprint widget = search (pages) depth 9

pub auto_level_clicked-Footprint :
    (widget : ℕ)
    → Footprint (tjc_page_auto_move ∷ tjc_page_saving ∷ []) false (auto_level_clicked widget)
unfolding auto_level_clicked
auto_level_clicked-Footprint widget = search (pages) depth 16

pub auto_finish_clicked-Footprint :
    (widget : ℕ) → Footprint (tjc_page_saving ∷ []) false (auto_finish_clicked widget)
unfolding auto_finish_clicked
auto_finish_clicked-Footprint widget = search (pages) depth 8

pub print_f_pop_clicked-Footprint :
    (widget : ℕ)
    → Footprint
        (tjc_page_print_filament ∷ tjc_page_filament ∷ [])
        false
        (print_f_pop_clicked widget)
unfolding print_f_pop_clicked
print_f_pop_clicked-Footprint widget = search (pages) depth 12

pub set_zoffset_clicked-Footprint :
    (widget : ℕ)
    → Footprint
        (tjc_page_level_mode ∷ tjc_page_main ∷ tjc_page_language ∷ tjc_page_file_list_1 ∷ [])
        false
        (set_zoffset_clicked widget)
unfolding set_zoffset_clicked
set_zoffset_clicked-Footprint widget = search (pages) depth 27

pub change_zoffset_clicked-Footprint :
    (widget : ℕ)
    → Footprint
        (tjc_page_main ∷ tjc_page_language ∷ tjc_page_leveling_null ∷ tjc_page_file_list_1
          ∷ tjc_page_leveling_init ∷ [])
        false
        (change_zoffset_clicked widget)
unfolding change_zoffset_clicked
change_zoffset_clicked-Footprint widget = search (pages) depth 12
