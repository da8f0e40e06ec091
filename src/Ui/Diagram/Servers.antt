-- ===== src/Ui/Diagram/Servers.antt =====
-- Where the buttons of `Ui.Handler.Servers` lead.
use qidi_plus.Base.{ℕ, true, false, [], ◌∷◌}
use qidi_plus.Screen.{
  tjc_page_main, tjc_page_file_list_1, tjc_page_move, tjc_page_filament, tjc_page_about,
}
use qidi_plus.Ui.Pages.{
  tjc_page_updating, tjc_page_level_mode, tjc_page_wifi_list_2, tjc_page_internet,
  tjc_page_language, tjc_page_network_set, tjc_page_server_set, tjc_page_search_server,
  tjc_page_qidi_link, tjc_page_qidi_link_login_success, tjc_page_qidi_link_log_out,
  tjc_page_offline_updating,
}
use qidi_plus.Ui.Handler.Servers.{
  network_set_clicked, server_set_clicked, online_update_clicked, qidi_link_clicked,
  qidi_link_login_success_clicked, qidi_link_log_out_clicked, qidi_link_log_fail_clicked,
  off_update_choose_clicked, no_offline_files_clicked,
}
use qidi_plus.Ui.Footprint.{Footprint}
use qidi_plus.Ui.Diagram.Rules.{pages}

pub network_set_clicked-Footprint :
    (widget : ℕ)
    → Footprint
        (tjc_page_move ∷ tjc_page_filament ∷ tjc_page_level_mode ∷ tjc_page_main ∷ tjc_page_language
          ∷ tjc_page_qidi_link ∷ tjc_page_qidi_link_login_success ∷ tjc_page_file_list_1
          ∷ tjc_page_wifi_list_2 ∷ tjc_page_internet ∷ tjc_page_search_server ∷ tjc_page_server_set
          ∷ [])
        false
        (network_set_clicked widget)
unfolding network_set_clicked
network_set_clicked-Footprint widget = search (pages) depth 48 fits 9000

pub server_set_clicked-Footprint :
    (widget : ℕ)
    → Footprint
        (tjc_page_move ∷ tjc_page_filament ∷ tjc_page_level_mode ∷ tjc_page_main ∷ tjc_page_language
          ∷ tjc_page_network_set ∷ tjc_page_search_server ∷ tjc_page_server_set
          ∷ tjc_page_file_list_1 ∷ [])
        false
        (server_set_clicked widget)
unfolding server_set_clicked
server_set_clicked-Footprint widget = search (pages) depth 22

pub online_update_clicked-Footprint :
    (widget : ℕ)
    → Footprint (tjc_page_updating ∷ tjc_page_about ∷ []) true (online_update_clicked widget)
unfolding online_update_clicked
online_update_clicked-Footprint widget = search (pages) depth 8

pub qidi_link_clicked-Footprint :
    (widget : ℕ)
    → Footprint
        (tjc_page_move ∷ tjc_page_filament ∷ tjc_page_level_mode ∷ tjc_page_main ∷ tjc_page_language
          ∷ tjc_page_network_set ∷ tjc_page_file_list_1 ∷ [])
        false
        (qidi_link_clicked widget)
unfolding qidi_link_clicked
qidi_link_clicked-Footprint widget = search (pages) depth 14

pub qidi_link_login_success_clicked-Footprint :
    (widget : ℕ)
    → Footprint
        (tjc_page_move ∷ tjc_page_filament ∷ tjc_page_level_mode ∷ tjc_page_main ∷ tjc_page_language
          ∷ tjc_page_network_set ∷ tjc_page_qidi_link_log_out ∷ tjc_page_file_list_1 ∷ [])
        false
        (qidi_link_login_success_clicked widget)
unfolding qidi_link_login_success_clicked
qidi_link_login_success_clicked-Footprint widget = search (pages) depth 15

pub qidi_link_log_out_clicked-Footprint :
    (widget : ℕ)
    → Footprint
        (tjc_page_qidi_link_login_success ∷ tjc_page_qidi_link ∷ [])
        false
        (qidi_link_log_out_clicked widget)
unfolding qidi_link_log_out_clicked
qidi_link_log_out_clicked-Footprint widget = search (pages) depth 14

pub qidi_link_log_fail_clicked-Footprint :
    (widget : ℕ)
    → Footprint
        (tjc_page_move ∷ tjc_page_filament ∷ tjc_page_level_mode ∷ tjc_page_main ∷ tjc_page_language
          ∷ tjc_page_qidi_link ∷ tjc_page_file_list_1 ∷ [])
        false
        (qidi_link_log_fail_clicked widget)
unfolding qidi_link_log_fail_clicked
qidi_link_log_fail_clicked-Footprint widget = search (pages) depth 14

pub off_update_choose_clicked-Footprint :
    (widget : ℕ)
    → Footprint
        (tjc_page_offline_updating ∷ tjc_page_about ∷ [])
        true
        (off_update_choose_clicked widget)
unfolding off_update_choose_clicked
off_update_choose_clicked-Footprint widget = search (pages) depth 9

pub no_offline_files_clicked-Footprint :
    (widget : ℕ) → Footprint (tjc_page_about ∷ []) false (no_offline_files_clicked widget)
unfolding no_offline_files_clicked
no_offline_files_clicked-Footprint widget = search (pages) depth 7
