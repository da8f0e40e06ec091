-- ===== src/Screen.antt =====
-- include/ui.h: the numbers of the screen's pages, and src/ui.cpp: `page_to`.
use qidi_plus.Base.{ℕ, List, [], ◌∷◌, ◌++◌, Bytes, to_string}
use qidi_plus.SendMsg.Control.{send_cmd_page}

abbrev pub tjc_page_open_video_4 : ℕ
tjc_page_open_video_4 = 90

abbrev pub tjc_page_logo : ℕ
tjc_page_logo = 11

abbrev pub tjc_page_main : ℕ
tjc_page_main = 12

abbrev pub tjc_page_file_list_1 : ℕ
tjc_page_file_list_1 = 13

abbrev pub tjc_page_file_list_2 : ℕ
tjc_page_file_list_2 = 14

abbrev pub tjc_page_preview : ℕ
tjc_page_preview = 15

abbrev pub tjc_page_delete_file : ℕ
tjc_page_delete_file = 16

abbrev pub tjc_page_printing : ℕ
tjc_page_printing = 17

abbrev pub tjc_page_stop_print : ℕ
tjc_page_stop_print = 18

abbrev pub tjc_page_print_zoffset : ℕ
tjc_page_print_zoffset = 20

abbrev pub tjc_page_print_filament : ℕ
tjc_page_print_filament = 21

abbrev pub tjc_page_move : ℕ
tjc_page_move = 22

abbrev pub tjc_page_move_pop_1 : ℕ
tjc_page_move_pop_1 = 23

abbrev pub tjc_page_move_pop_2 : ℕ
tjc_page_move_pop_2 = 24

abbrev pub tjc_page_move_pop_3 : ℕ
tjc_page_move_pop_3 = 25

abbrev pub tjc_page_filament : ℕ
tjc_page_filament = 26

abbrev pub tjc_page_filament_pop : ℕ
tjc_page_filament_pop = 27

abbrev pub tjc_page_auto_level : ℕ
tjc_page_auto_level = 35

abbrev pub tjc_page_service : ℕ
tjc_page_service = 48

abbrev pub tjc_page_reset : ℕ
tjc_page_reset = 49

abbrev pub tjc_page_about : ℕ
tjc_page_about = 50

abbrev pub tjc_page_print_f_pop : ℕ
tjc_page_print_f_pop = 53

abbrev pub tjc_page_sys_ok : ℕ
tjc_page_sys_ok = 57

abbrev pub tjc_page_stopping : ℕ
tjc_page_stopping = 58

abbrev pub tjc_page_power_off : ℕ
tjc_page_power_off = 59

abbrev pub tjc_page_pop_1 : ℕ
tjc_page_pop_1 = 60

abbrev pub tjc_page_level_print : ℕ
tjc_page_level_print = 70

abbrev pub tjc_page_filament_pop_3 : ℕ
tjc_page_filament_pop_3 = 96

abbrev pub tjc_page_detect_error : ℕ
tjc_page_detect_error = 107

abbrev pub tjc_page_gcode_error : ℕ
tjc_page_gcode_error = 108

abbrev pub tjc_page_preview_pop_1 : ℕ
tjc_page_preview_pop_1 = 112

abbrev pub tjc_page_preview_pop_2 : ℕ
tjc_page_preview_pop_2 = 113

abbrev pub tjc_page_screen_sleep : ℕ
tjc_page_screen_sleep = 114

abbrev pub tjc_page_restore_config : ℕ
tjc_page_restore_config = 115

abbrev pub tjc_page_restoring : ℕ
tjc_page_restoring = 116

abbrev pub tjc_page_memory_warning : ℕ
tjc_page_memory_warning = 122

-- The globals `current_page_id` and `previous_page_id`, and the commands written to the screen so
-- far, oldest first.
pub record Screen : Type 0 where
  pub current_page_id : ℕ
  pub previous_page_id : ℕ
  pub sent : List Bytes

unfoldable pub write_all : List Bytes → Screen → Screen
write_all commands s = record s { sent = s.sent ++ commands }

unfoldable pub page_to : ℕ → Screen → Screen
unfolding write_all
page_to page_id s =
    write_all (send_cmd_page (to_string page_id) ∷ [])
      (record s { previous_page_id = s.current_page_id; current_page_id = page_id })
