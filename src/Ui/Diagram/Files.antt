-- ===== src/Ui/Diagram/Files.antt =====
-- Where the buttons of `Ui.Handler.Files` lead.
use qidi_plus.Base.{ℕ, true, false, [], ◌∷◌}
use qidi_plus.Screen.{
  tjc_page_main, tjc_page_file_list_1, tjc_page_file_list_2, tjc_page_preview, tjc_page_move,
  tjc_page_service,
}
use qidi_plus.Ui.Pages.{tjc_page_language}
use qidi_plus.Ui.Handler.Files.{
  main_clicked, file_list_1_clicked, file_list_2_clicked, delete_file_clicked,
}
use qidi_plus.Ui.Footprint.{Footprint}
use qidi_plus.Ui.Diagram.Rules.{pages}

pub main_clicked-Footprint :
    (widget : ℕ)
    → Footprint
        (tjc_page_move ∷ tjc_page_language ∷ tjc_page_file_list_1 ∷ [])
        false
        (main_clicked widget)
unfolding main_clicked
main_clicked-Footprint widget = search (pages) depth 14

pub file_list_1_clicked-Footprint :
    (widget : ℕ)
    → Footprint
        (tjc_page_main ∷ tjc_page_move ∷ tjc_page_service ∷ tjc_page_preview ∷ tjc_page_file_list_2
          ∷ [])
        false
        (file_list_1_clicked widget)
unfolding file_list_1_clicked
file_list_1_clicked-Footprint widget = search (pages) depth 20

pub file_list_2_clicked-Footprint :
    (widget : ℕ)
    → Footprint
        (tjc_page_main ∷ tjc_page_move ∷ tjc_page_service ∷ tjc_page_preview ∷ tjc_page_file_list_2
          ∷ tjc_page_file_list_1 ∷ [])
        false
        (file_list_2_clicked widget)
unfolding file_list_2_clicked
file_list_2_clicked-Footprint widget = search (pages) depth 21

pub delete_file_clicked-Footprint :
    (widget : ℕ)
    → Footprint
        (tjc_page_preview ∷ tjc_page_file_list_1 ∷ tjc_page_file_list_2 ∷ [])
        true
        (delete_file_clicked widget)
unfolding delete_file_clicked
delete_file_clicked-Footprint widget = search (pages) depth 12
