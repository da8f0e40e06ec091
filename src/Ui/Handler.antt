-- ===== src/Ui/Handler.antt =====
-- src/ui.cpp: `tjc_event_clicked_handler`, with the cases of each page in a child module. A case
-- that two or three pages share stands once for each of them.
pub mod Setup
pub mod Files
pub mod Printing
pub mod Move
pub mod Levels
pub mod Wireless
pub mod Service
pub mod Offset
pub mod Popup
pub mod Loading
pub mod Servers
use qidi_plus.Base.{ℕ, List, [], ◌∷◌}
use qidi_plus.Screen.{
  tjc_page_about, tjc_page_auto_level, tjc_page_delete_file, tjc_page_detect_error,
  tjc_page_filament, tjc_page_filament_pop, tjc_page_filament_pop_3, tjc_page_file_list_1,
  tjc_page_file_list_2, tjc_page_gcode_error, tjc_page_main, tjc_page_memory_warning, tjc_page_move,
  tjc_page_move_pop_1, tjc_page_move_pop_2, tjc_page_move_pop_3, tjc_page_open_video_4,
  tjc_page_pop_1, tjc_page_preview, tjc_page_preview_pop_1, tjc_page_preview_pop_2,
  tjc_page_print_f_pop, tjc_page_print_filament, tjc_page_print_zoffset, tjc_page_printing,
  tjc_page_reset, tjc_page_restore_config, tjc_page_screen_sleep, tjc_page_service,
  tjc_page_stop_print, tjc_page_sys_ok,
}
use qidi_plus.Ui.Pages.{
  tjc_page_open_language, tjc_page_open_video_1, tjc_page_open_video_2, tjc_page_open_video_3,
  tjc_page_open_level, tjc_page_open_leveled, tjc_page_null_2, tjc_page_filament_video_1,
  tjc_page_filament_video_2, tjc_page_filament_video_3, tjc_page_more_level,
  tjc_page_more_level_plu, tjc_page_filament_pop_4, tjc_page_level_mode, tjc_page_leveling_null,
  tjc_page_leveling_null_2, tjc_page_auto_finish, tjc_page_set_zoffset, tjc_page_change_zoffset,
  tjc_page_wifi_list_2, tjc_page_keydba, tjc_page_internet, tjc_page_language,
  tjc_page_print_keyboard, tjc_page_print_finish, tjc_page_set_zoffset_2, tjc_page_keybdb,
  tjc_page_kb_filament_1, tjc_page_disk_detect, tjc_page_updated, tjc_page_saving,
  tjc_page_set_temp_level, tjc_page_pid_working, tjc_page_pid_finish, tjc_page_disk_detect_2,
  tjc_page_wifi_success, tjc_page_wifi_failed, tjc_page_wifi_keyboard, tjc_page_wait_pop,
  tjc_page_filament_pop_5, tjc_page_filament_showdown, tjc_page_level_null_1, tjc_page_level_null_2,
  tjc_page_open_heater_bed, tjc_page_open_pop_1, tjc_page_print_log_s, tjc_page_print_log_f,
  tjc_page_open_syntony, tjc_page_syntony_move, tjc_page_load_finish, tjc_page_pre_heating_1,
  tjc_page_pre_unload, tjc_page_pre_load, tjc_page_unload_finish, tjc_page_network_set,
  tjc_page_server_set, tjc_page_online_update, tjc_page_qidi_link, tjc_page_qidi_link_login_success,
  tjc_page_qidi_link_log_out, tjc_page_qidi_link_log_fail, tjc_page_off_update_choose,
  tjc_page_no_offline_files,
}
use qidi_plus.Ui.Panel.{Action, done, switch}
use Setup.{
  open_language_clicked, open_video_1_clicked, open_video_2_clicked, open_video_3_clicked,
  open_video_4_clicked, open_level_clicked, open_leveled_clicked, null_2_clicked,
  filament_video_1_clicked, filament_video_2_clicked, filament_video_3_clicked, more_level_clicked,
  more_level_plu_clicked,
}
use Files.{main_clicked, file_list_1_clicked, file_list_2_clicked, delete_file_clicked}
use Printing.{preview_clicked, printing_clicked, print_filament_clicked}
use Move.{
  move_clicked, move_pop_1_clicked, filament_clicked, filament_pop_clicked, filament_pop_4_clicked,
}
use Levels.{
  level_mode_clicked, leveling_null_clicked, leveling_null_2_clicked, auto_level_clicked,
  auto_finish_clicked, print_f_pop_clicked, set_zoffset_clicked, change_zoffset_clicked,
}
use Wireless.{wifi_list_2_clicked, keydba_clicked, internet_clicked}
use Service.{language_clicked, service_clicked, reset_clicked, sys_ok_clicked, about_clicked}
use Offset.{
  print_zoffset_clicked, print_keyboard_clicked, print_finish_clicked, stop_print_clicked,
  set_zoffset_2_clicked, keybdb_clicked, pop_1_clicked, kb_filament_1_clicked, disk_detect_clicked,
  updated_clicked, set_temp_level_clicked,
}
use Popup.{
  disk_detect_2_clicked, wifi_success_clicked, wifi_failed_clicked, wifi_keyboard_clicked,
  wait_pop_clicked, filament_pop_3_clicked, filament_pop_5_clicked, filament_showdown_clicked,
  level_null_1_clicked, level_null_2_clicked, detect_error_clicked, gcode_error_clicked,
}
use Loading.{
  open_heater_bed_clicked, open_pop_1_clicked, preview_pop_1_clicked, screen_sleep_clicked,
  restore_config_clicked, print_log_s_clicked, open_syntony_clicked, syntony_move_clicked,
  load_finish_clicked, pre_heating_1_clicked, pre_unload_clicked, memory_warning_clicked,
  pre_load_clicked, unload_finish_clicked,
}
use Servers.{
  network_set_clicked, server_set_clicked, online_update_clicked, qidi_link_clicked,
  qidi_link_login_success_clicked, qidi_link_log_out_clicked, qidi_link_log_fail_clicked,
  off_update_choose_clicked, no_offline_files_clicked,
}

-- The cases, for a button of the page.
unfoldable pub cases : ℕ → List (ℕ × Action)
cases widget =
    (tjc_page_open_language, open_language_clicked widget)
    ∷ (tjc_page_open_video_1, open_video_1_clicked widget)
    ∷ (tjc_page_open_video_2, open_video_2_clicked widget)
    ∷ (tjc_page_open_video_3, open_video_3_clicked widget)
    ∷ (tjc_page_open_video_4, open_video_4_clicked widget)
    ∷ (tjc_page_open_level, open_level_clicked widget)
    ∷ (tjc_page_open_leveled, open_leveled_clicked widget)
    ∷ (tjc_page_null_2, null_2_clicked widget)
    ∷ (tjc_page_filament_video_1, filament_video_1_clicked widget)
    ∷ (tjc_page_filament_video_2, filament_video_2_clicked widget)
    ∷ (tjc_page_filament_video_3, filament_video_3_clicked widget)
    ∷ (tjc_page_more_level, more_level_clicked widget)
    ∷ (tjc_page_more_level_plu, more_level_plu_clicked widget)
    ∷ (tjc_page_main, main_clicked widget)
    ∷ (tjc_page_file_list_1, file_list_1_clicked widget)
    ∷ (tjc_page_file_list_2, file_list_2_clicked widget)
    ∷ (tjc_page_delete_file, delete_file_clicked widget)
    ∷ (tjc_page_preview, preview_clicked widget)
    ∷ (tjc_page_printing, printing_clicked widget)
    ∷ (tjc_page_print_filament, print_filament_clicked widget)
    ∷ (tjc_page_move, move_clicked widget)
    ∷ (tjc_page_move_pop_1, move_pop_1_clicked widget)
    ∷ (tjc_page_move_pop_2, move_pop_1_clicked widget)
    ∷ (tjc_page_move_pop_3, move_pop_1_clicked widget)
    ∷ (tjc_page_filament, filament_clicked widget)
    ∷ (tjc_page_filament_pop, filament_pop_clicked widget)
    ∷ (tjc_page_filament_pop_4, filament_pop_4_clicked widget)
    ∷ (tjc_page_level_mode, level_mode_clicked widget)
    ∷ (tjc_page_leveling_null, leveling_null_clicked widget)
    ∷ (tjc_page_leveling_null_2, leveling_null_2_clicked widget)
    ∷ (tjc_page_auto_level, auto_level_clicked widget)
    ∷ (tjc_page_auto_finish, auto_finish_clicked widget)
    ∷ (tjc_page_print_f_pop, print_f_pop_clicked widget)
    ∷ (tjc_page_set_zoffset, set_zoffset_clicked widget)
    ∷ (tjc_page_change_zoffset, change_zoffset_clicked widget)
    ∷ (tjc_page_wifi_list_2, wifi_list_2_clicked widget)
    ∷ (tjc_page_keydba, keydba_clicked widget)
    ∷ (tjc_page_internet, internet_clicked widget)
    ∷ (tjc_page_language, language_clicked widget)
    ∷ (tjc_page_service, service_clicked widget)
    ∷ (tjc_page_reset, reset_clicked widget)
    ∷ (tjc_page_sys_ok, sys_ok_clicked widget)
    ∷ (tjc_page_about, about_clicked widget)
    ∷ (tjc_page_print_zoffset, print_zoffset_clicked widget)
    ∷ (tjc_page_print_keyboard, print_keyboard_clicked widget)
    ∷ (tjc_page_print_finish, print_finish_clicked widget)
    ∷ (tjc_page_stop_print, stop_print_clicked widget)
    ∷ (tjc_page_set_zoffset_2, set_zoffset_2_clicked widget)
    ∷ (tjc_page_keybdb, keybdb_clicked widget)
    ∷ (tjc_page_pop_1, pop_1_clicked widget)
    ∷ (tjc_page_kb_filament_1, kb_filament_1_clicked widget)
    ∷ (tjc_page_disk_detect, disk_detect_clicked widget)
    ∷ (tjc_page_updated, updated_clicked widget)
    ∷ (tjc_page_saving, done)
    ∷ (tjc_page_set_temp_level, set_temp_level_clicked widget)
    ∷ (tjc_page_pid_working, done)
    ∷ (tjc_page_pid_finish, done)
    ∷ (tjc_page_disk_detect_2, disk_detect_2_clicked widget)
    ∷ (tjc_page_wifi_success, wifi_success_clicked widget)
    ∷ (tjc_page_wifi_failed, wifi_failed_clicked widget)
    ∷ (tjc_page_wifi_keyboard, wifi_keyboard_clicked widget)
    ∷ (tjc_page_wait_pop, wait_pop_clicked widget)
    ∷ (tjc_page_filament_pop_3, filament_pop_3_clicked widget)
    ∷ (tjc_page_filament_pop_5, filament_pop_5_clicked widget)
    ∷ (tjc_page_filament_showdown, filament_showdown_clicked widget)
    ∷ (tjc_page_level_null_1, level_null_1_clicked widget)
    ∷ (tjc_page_level_null_2, level_null_2_clicked widget)
    ∷ (tjc_page_detect_error, detect_error_clicked widget)
    ∷ (tjc_page_gcode_error, gcode_error_clicked widget)
    ∷ (tjc_page_open_heater_bed, open_heater_bed_clicked widget)
    ∷ (tjc_page_open_pop_1, open_pop_1_clicked widget)
    ∷ (tjc_page_preview_pop_1, preview_pop_1_clicked widget)
    ∷ (tjc_page_preview_pop_2, preview_pop_1_clicked widget)
    ∷ (tjc_page_screen_sleep, screen_sleep_clicked widget)
    ∷ (tjc_page_restore_config, restore_config_clicked widget)
    ∷ (tjc_page_print_log_s, print_log_s_clicked widget)
    ∷ (tjc_page_print_log_f, print_log_s_clicked widget)
    ∷ (tjc_page_open_syntony, open_syntony_clicked widget)
    ∷ (tjc_page_syntony_move, syntony_move_clicked widget)
    ∷ (tjc_page_load_finish, load_finish_clicked widget)
    ∷ (tjc_page_pre_heating_1, pre_heating_1_clicked widget)
    ∷ (tjc_page_pre_unload, pre_unload_clicked widget)
    ∷ (tjc_page_memory_warning, memory_warning_clicked widget)
    ∷ (tjc_page_pre_load, pre_load_clicked widget)
    ∷ (tjc_page_unload_finish, unload_finish_clicked widget)
    ∷ (tjc_page_network_set, network_set_clicked widget)
    ∷ (tjc_page_server_set, server_set_clicked widget)
    ∷ (tjc_page_online_update, online_update_clicked widget)
    ∷ (tjc_page_qidi_link, qidi_link_clicked widget)
    ∷ (tjc_page_qidi_link_login_success, qidi_link_login_success_clicked widget)
    ∷ (tjc_page_qidi_link_log_out, qidi_link_log_out_clicked widget)
    ∷ (tjc_page_qidi_link_log_fail, qidi_link_log_fail_clicked widget)
    ∷ (tjc_page_off_update_choose, off_update_choose_clicked widget)
    ∷ (tjc_page_no_offline_files, no_offline_files_clicked widget)
    ∷ []

unfoldable pub tjc_event_clicked_handler : ℕ → ℕ → Action
tjc_event_clicked_handler page_id widget = switch page_id (cases widget)
