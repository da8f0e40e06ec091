-- ===== src/Ui/Diagram/Service.antt =====
-- Where the buttons of `Ui.Handler.Service` lead.
use qidi_plus.Base.{ℕ, false, [], ◌∷◌}
use qidi_plus.Screen.{
  tjc_page_main, tjc_page_file_list_1, tjc_page_move, tjc_page_service, tjc_page_reset,
  tjc_page_about, tjc_page_sys_ok, tjc_page_restore_config,
}
use qidi_plus.Ui.Pages.{
  tjc_page_language, tjc_page_print_log_s, tjc_page_print_log_f, tjc_page_off_update_choose,
  tjc_page_no_offline_files, tjc_page_search_server,
}
use qidi_plus.Ui.Handler.Service.{
  language_clicked, service_clicked, reset_clicked, sys_ok_clicked, about_clicked,
}
use qidi_plus.Ui.Footprint.{Footprint}
use qidi_plus.Ui.Diagram.Rules.{pages}

pub language_clicked-Footprint :
    (widget : ℕ)
    → Footprint
        (tjc_page_main ∷ tjc_page_move ∷ tjc_page_service ∷ tjc_page_file_list_1 ∷ tjc_page_reset
          ∷ tjc_page_sys_ok ∷ tjc_page_about ∷ [])
        false
        (language_clicked widget)
unfolding language_clicked
language_clicked-Footprint widget = search (pages) depth 13

pub service_clicked-Footprint :
    (widget : ℕ)
    → Footprint
        (tjc_page_main ∷ tjc_page_move ∷ tjc_page_language ∷ tjc_page_file_list_1 ∷ tjc_page_reset
          ∷ tjc_page_sys_ok ∷ tjc_page_about ∷ [])
        false
        (service_clicked widget)
unfolding service_clicked
service_clicked-Footprint widget = search (pages) depth 14

pub reset_clicked-Footprint :
    (widget : ℕ) → Footprint (tjc_page_service ∷ tjc_page_about ∷ []) false (reset_clicked widget)
unfolding reset_clicked
reset_clicked-Footprint widget = search (pages) depth 14

pub sys_ok_clicked-Footprint :
    (widget : ℕ)
    → Footprint
        (tjc_page_main ∷ tjc_page_move ∷ tjc_page_language ∷ tjc_page_service ∷ tjc_page_file_list_1
          ∷ tjc_page_about ∷ [])
        false
        (sys_ok_clicked widget)
unfolding sys_ok_clicked
sys_ok_clicked-Footprint widget = search (pages) depth 14

pub about_clicked-Footprint :
    (widget : ℕ)
    → Footprint
        (tjc_page_main ∷ tjc_page_move ∷ tjc_page_language ∷ tjc_page_service
          ∷ tjc_page_off_update_choose ∷ tjc_page_no_offline_files ∷ tjc_page_restore_config
          ∷ tjc_page_file_list_1 ∷ tjc_page_reset ∷ tjc_page_sys_ok ∷ tjc_page_print_log_f
          ∷ tjc_page_print_log_s ∷ tjc_page_about ∷ tjc_page_search_server ∷ [])
        false
        (about_clicked widget)
unfolding about_clicked
about_clicked-Footprint widget = search (pages) depth 25
