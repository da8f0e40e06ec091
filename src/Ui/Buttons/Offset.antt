-- ===== src/Ui/Buttons/Offset.antt =====
-- include/ui.h: the numbers of the buttons on the pages of the offset of a print and the keyboards.
use qidi_plus.Base.{ℕ}

abbrev pub tjc_page_print_zoffset_001 : ℕ
tjc_page_print_zoffset_001 = 8

abbrev pub tjc_page_print_zoffset_01 : ℕ
tjc_page_print_zoffset_01 = 10

abbrev pub tjc_page_print_zoffset_005 : ℕ
tjc_page_print_zoffset_005 = 9

abbrev pub tjc_page_print_zoffset_1 : ℕ
tjc_page_print_zoffset_1 = 11

abbrev pub tjc_page_print_zoffset_up : ℕ
tjc_page_print_zoffset_up = 2

abbrev pub tjc_page_print_zoffset_down : ℕ
tjc_page_print_zoffset_down = 3

abbrev pub tjc_page_print_zoffset_pause_resume : ℕ
tjc_page_print_zoffset_pause_resume = 13

abbrev pub tjc_page_print_zoffset_stop : ℕ
tjc_page_print_zoffset_stop = 18

abbrev pub tjc_page_print_zoffset_back : ℕ
tjc_page_print_zoffset_back = 5

abbrev pub tjc_page_print_keyboard_back : ℕ
tjc_page_print_keyboard_back = 23

abbrev pub tjc_page_print_finish_yes : ℕ
tjc_page_print_finish_yes = 2

abbrev pub tjc_page_stop_print_yes : ℕ
tjc_page_stop_print_yes = 2

abbrev pub tjc_page_stop_print_no : ℕ
tjc_page_stop_print_no = 3

abbrev pub tjc_page_set_zoffset_2_001 : ℕ
tjc_page_set_zoffset_2_001 = 2

abbrev pub tjc_page_set_zoffset_2_005 : ℕ
tjc_page_set_zoffset_2_005 = 3

abbrev pub tjc_page_set_zoffset_2_01 : ℕ
tjc_page_set_zoffset_2_01 = 4

abbrev pub tjc_page_set_zoffset_2_1 : ℕ
tjc_page_set_zoffset_2_1 = 9

abbrev pub tjc_page_set_zoffset_2_down : ℕ
tjc_page_set_zoffset_2_down = 6

abbrev pub tjc_page_set_zoffset_2_up : ℕ
tjc_page_set_zoffset_2_up = 5

abbrev pub tjc_page_set_zoffset_2_yes : ℕ
tjc_page_set_zoffset_2_yes = 7

abbrev pub tjc_page_keybdb_pause : ℕ
tjc_page_keybdb_pause = 26

abbrev pub tjc_page_keybdb_stop : ℕ
tjc_page_keybdb_stop = 31

abbrev pub tjc_page_keybdb_back : ℕ
tjc_page_keybdb_back = 23

abbrev pub tjc_page_pop_1_yes : ℕ
tjc_page_pop_1_yes = 2

abbrev pub tjc_page_kb_filament_1_back : ℕ
tjc_page_kb_filament_1_back = 15

abbrev pub tjc_page_disk_detect_enter : ℕ
tjc_page_disk_detect_enter = 2

abbrev pub tjc_page_updated_enter : ℕ
tjc_page_updated_enter = 2

abbrev pub tjc_page_set_temp_level_home : ℕ
tjc_page_set_temp_level_home = 1

abbrev pub tjc_page_set_temp_level_file : ℕ
tjc_page_set_temp_level_file = 2

abbrev pub tjc_page_set_temp_level_tool : ℕ
tjc_page_set_temp_level_tool = 3

abbrev pub tjc_page_set_temp_level_service : ℕ
tjc_page_set_temp_level_service = 4

abbrev pub tjc_page_set_temp_level_back : ℕ
tjc_page_set_temp_level_back = 8

abbrev pub tjc_page_set_temp_level_extruder : ℕ
tjc_page_set_temp_level_extruder = 5

abbrev pub tjc_page_set_temp_level_hot_bed : ℕ
tjc_page_set_temp_level_hot_bed = 6

abbrev pub tjc_page_set_temp_level_enter : ℕ
tjc_page_set_temp_level_enter = 7

abbrev pub tjc_page_level_stop : ℕ
tjc_page_level_stop = 71

abbrev pub tjc_page_choose_model : ℕ
tjc_page_choose_model = 72
