-- ===== src/Ui/Diagram/Wireless.antt =====
-- Where the buttons of `Ui.Handler.Wireless` lead.
use qidi_plus.Base.{ℕ, false, [], ◌∷◌}
use qidi_plus.Screen.{tjc_page_main, tjc_page_file_list_1, tjc_page_move, tjc_page_filament}
use qidi_plus.Ui.Pages.{
  tjc_page_level_mode, tjc_page_wifi_list_2, tjc_page_internet, tjc_page_language,
  tjc_page_wifi_keyboard, tjc_page_network_set,
}
use qidi_plus.Ui.Handler.Wireless.{wifi_list_2_clicked, keydba_clicked, internet_clicked}
use qidi_plus.Ui.Footprint.{Footprint}
use qidi_plus.Ui.Diagram.Rules.{pages}

pub wifi_list_2_clicked-Footprint :
    (widget : ℕ)
    → Footprint
        (tjc_page_main ∷ tjc_page_language ∷ tjc_page_move ∷ tjc_page_filament ∷ tjc_page_level_mode
          ∷ tjc_page_wifi_keyboard ∷ tjc_page_internet ∷ tjc_page_network_set ∷ tjc_page_file_list_1
          ∷ [])
        false
        (wifi_list_2_clicked widget)
unfolding wifi_list_2_clicked
wifi_list_2_clicked-Footprint widget = search (pages) depth 25 fits 9000

pub keydba_clicked-Footprint :
    (widget : ℕ) → Footprint (tjc_page_wifi_list_2 ∷ []) false (keydba_clicked widget)
unfolding keydba_clicked
keydba_clicked-Footprint widget = search (pages) depth 11

pub internet_clicked-Footprint :
    (widget : ℕ)
    → Footprint
        (tjc_page_move ∷ tjc_page_filament ∷ tjc_page_level_mode ∷ tjc_page_main ∷ tjc_page_language
          ∷ tjc_page_network_set ∷ tjc_page_file_list_1 ∷ [])
        false
        (internet_clicked widget)
unfolding internet_clicked
internet_clicked-Footprint widget = search (pages) depth 14
