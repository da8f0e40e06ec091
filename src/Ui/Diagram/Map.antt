-- ===== src/Ui/Diagram/Map.antt =====
-- The diagram of the pages: for each page that has buttons, the pages that they lead to, whether one
-- leads back to the page before, and whether one has a notable effect: a print, a deletion by the
-- server or an update.
use qidi_plus.Base.{ℕ, ◌==◌, Bool, true, false, List, [], ◌∷◌, if◌then◌else◌}
use qidi_plus.Screen.{
  tjc_page_open_video_4, tjc_page_main, tjc_page_file_list_1, tjc_page_file_list_2,
  tjc_page_preview, tjc_page_delete_file, tjc_page_printing, tjc_page_stop_print,
  tjc_page_print_zoffset, tjc_page_print_filament, tjc_page_move, tjc_page_move_pop_1,
  tjc_page_move_pop_2, tjc_page_move_pop_3, tjc_page_filament, tjc_page_filament_pop,
  tjc_page_auto_level, tjc_page_service, tjc_page_reset, tjc_page_about, tjc_page_print_f_pop,
  tjc_page_sys_ok, tjc_page_stopping, tjc_page_pop_1, tjc_page_level_print, tjc_page_filament_pop_3,
  tjc_page_detect_error, tjc_page_gcode_error, tjc_page_preview_pop_1, tjc_page_preview_pop_2,
  tjc_page_screen_sleep, tjc_page_restore_config, tjc_page_memory_warning,
}
use qidi_plus.Ui.Pages.{
  tjc_page_open_language, tjc_page_open_levelinit, tjc_page_open_level, tjc_page_open_leveling,
  tjc_page_open_leveled, tjc_page_open_syntony, tjc_page_null_2, tjc_page_more_level,
  tjc_page_more_level_plu, tjc_page_open_video_1, tjc_page_open_video_2, tjc_page_open_video_3,
  tjc_page_filament_video_1, tjc_page_filament_video_2, tjc_page_filament_video_3,
  tjc_page_kb_filament_1, tjc_page_level_mode, tjc_page_leveling_null, tjc_page_leveling_init,
  tjc_page_auto_move, tjc_page_auto_finish, tjc_page_set_zoffset, tjc_page_syntony_move,
  tjc_page_syntony_finish, tjc_page_wifi_list_2, tjc_page_internet, tjc_page_language,
  tjc_page_print_keyboard, tjc_page_print_finish, tjc_page_keybdb, tjc_page_set_zoffset_2,
  tjc_page_saving, tjc_page_keydba, tjc_page_change_zoffset, tjc_page_set_temp_level,
  tjc_page_set_temp_level_kb, tjc_page_disk_detect, tjc_page_updating, tjc_page_updated,
  tjc_page_pid_working, tjc_page_pid_finish, tjc_page_disk_detect_2, tjc_page_wifi_success,
  tjc_page_wifi_failed, tjc_page_wifi_save, tjc_page_wifi_keyboard, tjc_page_wait_pop,
  tjc_page_filament_showdown, tjc_page_unload_finish, tjc_page_level_null_1, tjc_page_level_null_2,
  tjc_page_filament_pop_4, tjc_page_leveling_null_2, tjc_page_filament_pop_5,
  tjc_page_open_heater_bed, tjc_page_open_pop_1, tjc_page_unloading, tjc_page_print_log_s,
  tjc_page_print_log_f, tjc_page_pre_heating_2, tjc_page_load_finish, tjc_page_pre_unload,
  tjc_page_pre_load, tjc_page_loading, tjc_page_pre_heating_1, tjc_page_network_set,
  tjc_page_server_set, tjc_page_search_server, tjc_page_online_update, tjc_page_qidi_link,
  tjc_page_qidi_link_login_success, tjc_page_qidi_link_log_out, tjc_page_qidi_link_log_fail,
  tjc_page_off_update_choose, tjc_page_offline_updating, tjc_page_no_offline_files,
}
use qidi_plus.Ui.Panel.{Panel, previous_page}

pub record Exits : Type 0 where
  pub pages : List ℕ
  pub back : Bool
  pub loud : Bool

-- Exits to pages alone, with one that goes back, and with one that is loud.
abbrev pub to : List ℕ → Exits
to pages = record { pages = pages; back = false; loud = false }

abbrev pub goes_back : List ℕ → Exits
goes_back pages = record { pages = pages; back = true; loud = false }

abbrev pub loud_to : List ℕ → Exits
loud_to pages = record { pages = pages; back = false; loud = true }

abbrev pub exits : ℕ → List (ℕ × Exits) → Exits
exits n [] = record { pages = []; back = false; loud = false }
exits n ((label, e) ∷ rest) = if n == label then e else exits n rest

abbrev pub targets : Exits → Panel → List ℕ
targets e p = if e.back then previous_page p ∷ e.pages else e.pages

-- The pages with a loud exit.
abbrev pub loud_pages : List (ℕ × Exits) → List ℕ
loud_pages [] = []
loud_pages ((label, e) ∷ rest) = if e.loud then label ∷ loud_pages rest else loud_pages rest

unfoldable pub diagram : List (ℕ × Exits)
diagram =
    (tjc_page_open_language, to (tjc_page_open_video_1 ∷ tjc_page_open_pop_1 ∷ []))
    ∷ (tjc_page_open_video_1, to (tjc_page_open_video_2 ∷ []))
    ∷ (tjc_page_open_video_2, to (tjc_page_open_video_3 ∷ []))
    ∷ (tjc_page_open_video_3, to (tjc_page_open_video_4 ∷ []))
    ∷ (tjc_page_open_video_4, to (tjc_page_filament_video_1 ∷ []))
    ∷ (tjc_page_open_level, to (tjc_page_open_leveling ∷ tjc_page_saving ∷ []))
    ∷ (tjc_page_open_leveled, to (tjc_page_open_syntony ∷ []))
    ∷ (tjc_page_null_2, to (tjc_page_open_levelinit ∷ []))
    ∷ (tjc_page_filament_video_1, to (tjc_page_filament_video_2 ∷ []))
    ∷ (tjc_page_filament_video_2, to (tjc_page_filament_video_3 ∷ []))
    ∷ (tjc_page_filament_video_3, to (tjc_page_more_level ∷ []))
    ∷ (tjc_page_more_level, to (tjc_page_main ∷ []))
    ∷ (tjc_page_more_level_plu, to (tjc_page_more_level ∷ tjc_page_main ∷ []))
    ∷ (tjc_page_main, to (tjc_page_move ∷ tjc_page_language ∷ tjc_page_file_list_1 ∷ []))
    ∷ (
      tjc_page_file_list_1,
      to (
          tjc_page_main ∷ tjc_page_move ∷ tjc_page_service ∷ tjc_page_preview ∷ tjc_page_file_list_2
          ∷ []),
    )
    ∷ (
      tjc_page_file_list_2,
      to (
          tjc_page_main ∷ tjc_page_move ∷ tjc_page_service ∷ tjc_page_preview ∷ tjc_page_file_list_2
          ∷ tjc_page_file_list_1 ∷ []),
    )
    ∷ (
      tjc_page_delete_file,
      loud_to (tjc_page_preview ∷ tjc_page_file_list_1 ∷ tjc_page_file_list_2 ∷ []),
    )
    ∷ (
      tjc_page_preview,
      loud_to (
          tjc_page_printing ∷ tjc_page_delete_file ∷ tjc_page_print_f_pop ∷ tjc_page_file_list_1
          ∷ tjc_page_file_list_2 ∷ tjc_page_preview_pop_1 ∷ tjc_page_preview_pop_2 ∷ []),
    )
    ∷ (
      tjc_page_printing,
      to (tjc_page_print_zoffset ∷ tjc_page_print_filament ∷ tjc_page_stop_print ∷ []),
    )
    ∷ (
      tjc_page_print_filament,
      to (
          tjc_page_printing ∷ tjc_page_print_f_pop ∷ tjc_page_stop_print ∷ tjc_page_pre_heating_1
          ∷ []),
    )
    ∷ (
      tjc_page_move,
      to (
          tjc_page_main ∷ tjc_page_language ∷ tjc_page_filament ∷ tjc_page_level_mode
          ∷ tjc_page_network_set ∷ tjc_page_file_list_1 ∷ []),
    )
    ∷ (tjc_page_move_pop_1, to (tjc_page_move ∷ []))
    ∷ (tjc_page_move_pop_2, to (tjc_page_move ∷ []))
    ∷ (tjc_page_move_pop_3, to (tjc_page_move ∷ []))
    ∷ (
      tjc_page_filament,
      to (
          tjc_page_main ∷ tjc_page_language ∷ tjc_page_move ∷ tjc_page_level_mode
          ∷ tjc_page_network_set ∷ tjc_page_pre_heating_1 ∷ tjc_page_kb_filament_1
          ∷ tjc_page_file_list_1 ∷ []),
    )
    ∷ (tjc_page_filament_pop, to (tjc_page_filament ∷ []))
    ∷ (tjc_page_filament_pop_4, to (tjc_page_unloading ∷ []))
    ∷ (
      tjc_page_level_mode,
      to (
          tjc_page_main ∷ tjc_page_language ∷ tjc_page_move ∷ tjc_page_filament
          ∷ tjc_page_network_set ∷ tjc_page_level_null_1 ∷ tjc_page_leveling_null_2
          ∷ tjc_page_set_zoffset ∷ tjc_page_level_null_2 ∷ tjc_page_wait_pop ∷ tjc_page_file_list_1
          ∷ tjc_page_syntony_move ∷ []),
    )
    ∷ (
      tjc_page_leveling_null,
      to (
          tjc_page_level_mode ∷ tjc_page_main ∷ tjc_page_language ∷ tjc_page_change_zoffset
          ∷ tjc_page_file_list_1 ∷ tjc_page_leveling_init ∷ []),
    )
    ∷ (tjc_page_leveling_null_2, to (tjc_page_level_mode ∷ tjc_page_leveling_init ∷ []))
    ∷ (tjc_page_auto_level, to (tjc_page_auto_move ∷ tjc_page_saving ∷ []))
    ∷ (tjc_page_auto_finish, to (tjc_page_saving ∷ []))
    ∷ (tjc_page_print_f_pop, to (tjc_page_print_filament ∷ tjc_page_filament ∷ []))
    ∷ (
      tjc_page_set_zoffset,
      to (tjc_page_level_mode ∷ tjc_page_main ∷ tjc_page_language ∷ tjc_page_file_list_1 ∷ []),
    )
    ∷ (
      tjc_page_change_zoffset,
      to (
          tjc_page_main ∷ tjc_page_language ∷ tjc_page_leveling_null ∷ tjc_page_file_list_1
          ∷ tjc_page_leveling_init ∷ []),
    )
    ∷ (
      tjc_page_wifi_list_2,
      to (
          tjc_page_main ∷ tjc_page_language ∷ tjc_page_move ∷ tjc_page_filament
          ∷ tjc_page_level_mode ∷ tjc_page_wifi_keyboard ∷ tjc_page_internet ∷ tjc_page_network_set
          ∷ tjc_page_file_list_1 ∷ []),
    )
    ∷ (tjc_page_keydba, to (tjc_page_wifi_list_2 ∷ []))
    ∷ (
      tjc_page_internet,
      to (
          tjc_page_move ∷ tjc_page_filament ∷ tjc_page_level_mode ∷ tjc_page_main
          ∷ tjc_page_language ∷ tjc_page_network_set ∷ tjc_page_file_list_1 ∷ []),
    )
    ∷ (
      tjc_page_language,
      to (
          tjc_page_main ∷ tjc_page_move ∷ tjc_page_service ∷ tjc_page_file_list_1 ∷ tjc_page_reset
          ∷ tjc_page_sys_ok ∷ tjc_page_about ∷ []),
    )
    ∷ (
      tjc_page_service,
      to (
          tjc_page_main ∷ tjc_page_move ∷ tjc_page_language ∷ tjc_page_file_list_1 ∷ tjc_page_reset
          ∷ tjc_page_sys_ok ∷ tjc_page_about ∷ []),
    )
    ∷ (tjc_page_reset, to (tjc_page_service ∷ tjc_page_about ∷ []))
    ∷ (
      tjc_page_sys_ok,
      to (
          tjc_page_main ∷ tjc_page_move ∷ tjc_page_language ∷ tjc_page_service
          ∷ tjc_page_file_list_1 ∷ tjc_page_about ∷ []),
    )
    ∷ (
      tjc_page_about,
      to (
          tjc_page_main ∷ tjc_page_move ∷ tjc_page_language ∷ tjc_page_service
          ∷ tjc_page_off_update_choose ∷ tjc_page_no_offline_files ∷ tjc_page_restore_config
          ∷ tjc_page_file_list_1 ∷ tjc_page_reset ∷ tjc_page_sys_ok ∷ tjc_page_print_log_f
          ∷ tjc_page_print_log_s ∷ tjc_page_about ∷ tjc_page_search_server ∷ []),
    )
    ∷ (
      tjc_page_print_zoffset,
      to (tjc_page_print_filament ∷ tjc_page_stop_print ∷ tjc_page_printing ∷ []),
    )
    ∷ (tjc_page_print_keyboard, to (tjc_page_printing ∷ []))
    ∷ (tjc_page_print_finish, to (tjc_page_main ∷ []))
    ∷ (tjc_page_stop_print, goes_back (tjc_page_stopping ∷ []))
    ∷ (tjc_page_set_zoffset_2, to (tjc_page_saving ∷ []))
    ∷ (tjc_page_keybdb, to (tjc_page_print_filament ∷ tjc_page_stop_print ∷ []))
    ∷ (tjc_page_pop_1, goes_back (tjc_page_move ∷ tjc_page_main ∷ []))
    ∷ (tjc_page_kb_filament_1, to (tjc_page_filament ∷ []))
    ∷ (tjc_page_disk_detect, goes_back [])
    ∷ (tjc_page_updated, to (tjc_page_main ∷ []))
    ∷ (tjc_page_saving, to [])
    ∷ (
      tjc_page_set_temp_level,
      loud_to (tjc_page_level_mode ∷ tjc_page_set_temp_level_kb ∷ tjc_page_level_print ∷ []),
    )
    ∷ (tjc_page_pid_working, to [])
    ∷ (tjc_page_pid_finish, to [])
    ∷ (tjc_page_disk_detect_2, to (tjc_page_main ∷ tjc_page_move ∷ tjc_page_service ∷ []))
    ∷ (
      tjc_page_wifi_success,
      to (tjc_page_wifi_save ∷ tjc_page_wifi_list_2 ∷ tjc_page_internet ∷ []),
    )
    ∷ (tjc_page_wifi_failed, to (tjc_page_wifi_list_2 ∷ tjc_page_internet ∷ []))
    ∷ (tjc_page_wifi_keyboard, to (tjc_page_wifi_list_2 ∷ []))
    ∷ (tjc_page_wait_pop, goes_back [])
    ∷ (tjc_page_filament_pop_3, to (tjc_page_print_filament ∷ []))
    ∷ (tjc_page_filament_pop_5, to (tjc_page_filament ∷ []))
    ∷ (tjc_page_filament_showdown, to [])
    ∷ (tjc_page_level_null_1, to (tjc_page_level_mode ∷ tjc_page_level_null_2 ∷ []))
    ∷ (
      tjc_page_level_null_2,
      to (tjc_page_level_mode ∷ tjc_page_level_null_1 ∷ tjc_page_leveling_init ∷ []),
    )
    ∷ (tjc_page_detect_error, to (tjc_page_main ∷ []))
    ∷ (tjc_page_gcode_error, to (tjc_page_stopping ∷ []))
    ∷ (tjc_page_open_heater_bed, to (tjc_page_null_2 ∷ []))
    ∷ (tjc_page_open_pop_1, to (tjc_page_open_language ∷ tjc_page_main ∷ []))
    ∷ (tjc_page_preview_pop_1, to (tjc_page_printing ∷ []))
    ∷ (tjc_page_preview_pop_2, to (tjc_page_printing ∷ []))
    ∷ (tjc_page_screen_sleep, goes_back (tjc_page_screen_sleep ∷ []))
    ∷ (tjc_page_restore_config, to (tjc_page_main ∷ tjc_page_about ∷ []))
    ∷ (tjc_page_print_log_s, to (tjc_page_about ∷ []))
    ∷ (tjc_page_print_log_f, to (tjc_page_about ∷ []))
    ∷ (tjc_page_open_syntony, to (tjc_page_syntony_finish ∷ []))
    ∷ (tjc_page_syntony_move, to (tjc_page_syntony_finish ∷ []))
    ∷ (
      tjc_page_load_finish,
      to (tjc_page_print_filament ∷ tjc_page_filament ∷ tjc_page_loading ∷ []),
    )
    ∷ (
      tjc_page_pre_heating_1,
      to (
          tjc_page_pre_load ∷ tjc_page_pre_unload ∷ tjc_page_print_filament ∷ tjc_page_filament
          ∷ []),
    )
    ∷ (tjc_page_pre_unload, to (tjc_page_pre_heating_2 ∷ tjc_page_pre_heating_1 ∷ []))
    ∷ (tjc_page_memory_warning, to (tjc_page_main ∷ []))
    ∷ (tjc_page_pre_load, to (tjc_page_pre_heating_2 ∷ tjc_page_pre_heating_1 ∷ []))
    ∷ (
      tjc_page_unload_finish,
      to (tjc_page_print_filament ∷ tjc_page_filament ∷ tjc_page_pre_heating_1 ∷ []),
    )
    ∷ (
      tjc_page_network_set,
      to (
          tjc_page_move ∷ tjc_page_filament ∷ tjc_page_level_mode ∷ tjc_page_main
          ∷ tjc_page_language ∷ tjc_page_qidi_link ∷ tjc_page_qidi_link_login_success
          ∷ tjc_page_file_list_1 ∷ tjc_page_wifi_list_2 ∷ tjc_page_internet ∷ tjc_page_search_server
          ∷ tjc_page_server_set ∷ []),
    )
    ∷ (
      tjc_page_server_set,
      to (
          tjc_page_move ∷ tjc_page_filament ∷ tjc_page_level_mode ∷ tjc_page_main
          ∷ tjc_page_language ∷ tjc_page_network_set ∷ tjc_page_search_server ∷ tjc_page_server_set
          ∷ tjc_page_file_list_1 ∷ []),
    )
    ∷ (tjc_page_online_update, loud_to (tjc_page_updating ∷ tjc_page_about ∷ []))
    ∷ (
      tjc_page_qidi_link,
      to (
          tjc_page_move ∷ tjc_page_filament ∷ tjc_page_level_mode ∷ tjc_page_main
          ∷ tjc_page_language ∷ tjc_page_network_set ∷ tjc_page_file_list_1 ∷ []),
    )
    ∷ (
      tjc_page_qidi_link_login_success,
      to (
          tjc_page_move ∷ tjc_page_filament ∷ tjc_page_level_mode ∷ tjc_page_main
          ∷ tjc_page_language ∷ tjc_page_network_set ∷ tjc_page_qidi_link_log_out
          ∷ tjc_page_file_list_1 ∷ []),
    )
    ∷ (tjc_page_qidi_link_log_out, to (tjc_page_qidi_link_login_success ∷ tjc_page_qidi_link ∷ []))
    ∷ (
      tjc_page_qidi_link_log_fail,
      to (
          tjc_page_move ∷ tjc_page_filament ∷ tjc_page_level_mode ∷ tjc_page_main
          ∷ tjc_page_language ∷ tjc_page_qidi_link ∷ tjc_page_file_list_1 ∷ []),
    )
    ∷ (tjc_page_off_update_choose, loud_to (tjc_page_offline_updating ∷ tjc_page_about ∷ []))
    ∷ (tjc_page_no_offline_files, to (tjc_page_about ∷ []))
    ∷ []
