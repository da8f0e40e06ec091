-- ===== src/Ui/Diagram/Printing.antt =====
-- Where the buttons of `Ui.Handler.Printing` lead.
use qidi_plus.Base.{ℕ, true, false, [], ◌∷◌}
use qidi_plus.Screen.{
  tjc_page_file_list_1, tjc_page_file_list_2, tjc_page_delete_file, tjc_page_printing,
  tjc_page_stop_print, tjc_page_print_zoffset, tjc_page_print_filament, tjc_page_print_f_pop,
  tjc_page_preview_pop_1, tjc_page_preview_pop_2,
}
use qidi_plus.Ui.Pages.{tjc_page_pre_heating_1}
use qidi_plus.Ui.Handler.Printing.{preview_clicked, printing_clicked, print_filament_clicked}
use qidi_plus.Ui.Footprint.{Footprint}
use qidi_plus.Ui.Diagram.Rules.{pages}

pub preview_clicked-Footprint :
    (widget : ℕ)
    → Footprint
        (tjc_page_printing ∷ tjc_page_delete_file ∷ tjc_page_print_f_pop ∷ tjc_page_file_list_1
          ∷ tjc_page_file_list_2 ∷ tjc_page_preview_pop_1 ∷ tjc_page_preview_pop_2 ∷ [])
        true
        (preview_clicked widget)
unfolding preview_clicked
preview_clicked-Footprint widget = search (pages) depth 23

pub printing_clicked-Footprint :
    (widget : ℕ)
    → Footprint
        (tjc_page_print_zoffset ∷ tjc_page_print_filament ∷ tjc_page_stop_print ∷ [])
        false
        (printing_clicked widget)
unfolding printing_clicked
printing_clicked-Footprint widget = search (pages) depth 20

pub print_filament_clicked-Footprint :
    (widget : ℕ)
    → Footprint
        (tjc_page_printing ∷ tjc_page_print_f_pop ∷ tjc_page_stop_print ∷ tjc_page_pre_heating_1
          ∷ [])
        false
        (print_filament_clicked widget)
unfolding print_filament_clicked
print_filament_clicked-Footprint widget = search (pages) depth 24
