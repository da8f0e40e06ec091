-- ===== src/Ui/Buttons/Levels.antt =====
-- include/ui.h: the numbers of the buttons on the pages of the levelling.
use qidi_plus.Base.{ℕ}

abbrev pub tjc_page_level_mode_file : ℕ
tjc_page_level_mode_file = 2

abbrev pub tjc_page_level_mode_home : ℕ
tjc_page_level_mode_home = 1

abbrev pub tjc_page_level_mode_service : ℕ
tjc_page_level_mode_service = 4

abbrev pub tjc_page_level_mode_move : ℕ
tjc_page_level_mode_move = 5

abbrev pub tjc_page_level_mode_filament : ℕ
tjc_page_level_mode_filament = 6

abbrev pub tjc_page_level_mode_network : ℕ
tjc_page_level_mode_network = 8

abbrev pub tjc_page_level_mode_auto_level : ℕ
tjc_page_level_mode_auto_level = 9

abbrev pub tjc_page_level_mode_manual_level : ℕ
tjc_page_level_mode_manual_level = 11

abbrev pub tjc_page_level_mode_zoffset : ℕ
tjc_page_level_mode_zoffset = 7

abbrev pub tjc_page_level_mode_set_zoffset : ℕ
tjc_page_level_mode_set_zoffset = 10

abbrev pub tjc_page_level_mode_syntony_move : ℕ
tjc_page_level_mode_syntony_move = 12

abbrev pub tjc_page_level_mode_pid : ℕ
tjc_page_level_mode_pid = 13

abbrev pub tjc_page_leveling_null_btn_back : ℕ
tjc_page_leveling_null_btn_back = 7

abbrev pub tjc_page_leveling_null_btn_file : ℕ
tjc_page_leveling_null_btn_file = 4

abbrev pub tjc_page_leveling_null_btn_home : ℕ
tjc_page_leveling_null_btn_home = 3

abbrev pub tjc_page_leveling_null_btn_service : ℕ
tjc_page_leveling_null_btn_service = 6

abbrev pub tjc_page_leveling_null_enter : ℕ
tjc_page_leveling_null_enter = 8

abbrev pub tjc_page_leveling_null_2_enter : ℕ
tjc_page_leveling_null_2_enter = 1

abbrev pub tjc_page_leveling_null_2_back : ℕ
tjc_page_leveling_null_2_back = 0

abbrev pub tjc_page_auto_level_001 : ℕ
tjc_page_auto_level_001 = 2

abbrev pub tjc_page_auto_level_0025 : ℕ
tjc_page_auto_level_0025 = 3

abbrev pub tjc_page_auto_level_005 : ℕ
tjc_page_auto_level_005 = 4

abbrev pub tjc_page_auto_level_1 : ℕ
tjc_page_auto_level_1 = 5

abbrev pub tjc_page_auto_level_up : ℕ
tjc_page_auto_level_up = 6

abbrev pub tjc_page_auto_level_down : ℕ
tjc_page_auto_level_down = 7

abbrev pub tjc_page_auto_level_enter : ℕ
tjc_page_auto_level_enter = 8

abbrev pub tjc_page_auto_finish_yes : ℕ
tjc_page_auto_finish_yes = 1

abbrev pub tjc_page_print_f_pop_yes : ℕ
tjc_page_print_f_pop_yes = 2

abbrev pub tjc_page_set_zoffset_back : ℕ
tjc_page_set_zoffset_back = 6

abbrev pub tjc_page_set_zoffset_home : ℕ
tjc_page_set_zoffset_home = 2

abbrev pub tjc_page_set_zoffset_file : ℕ
tjc_page_set_zoffset_file = 3

abbrev pub tjc_page_set_zoffset_service : ℕ
tjc_page_set_zoffset_service = 5

abbrev pub tjc_page_set_zoffset_b1 : ℕ
tjc_page_set_zoffset_b1 = 7

abbrev pub tjc_page_set_zoffset_b2 : ℕ
tjc_page_set_zoffset_b2 = 8

abbrev pub tjc_page_set_zoffset_b3 : ℕ
tjc_page_set_zoffset_b3 = 9

abbrev pub tjc_page_set_zoffset_b4 : ℕ
tjc_page_set_zoffset_b4 = 10

abbrev pub tjc_page_set_zoffset_b5 : ℕ
tjc_page_set_zoffset_b5 = 11

abbrev pub tjc_page_set_zoffset_b6 : ℕ
tjc_page_set_zoffset_b6 = 12

abbrev pub tjc_page_set_zoffset_b7 : ℕ
tjc_page_set_zoffset_b7 = 13

abbrev pub tjc_page_set_zoffset_b8 : ℕ
tjc_page_set_zoffset_b8 = 14

abbrev pub tjc_page_set_zoffset_b9 : ℕ
tjc_page_set_zoffset_b9 = 15

abbrev pub tjc_page_set_zoffset_b10 : ℕ
tjc_page_set_zoffset_b10 = 16

abbrev pub tjc_page_set_zoffset_b11 : ℕ
tjc_page_set_zoffset_b11 = 17

abbrev pub tjc_page_set_zoffset_b12 : ℕ
tjc_page_set_zoffset_b12 = 18

abbrev pub tjc_page_set_zoffset_b13 : ℕ
tjc_page_set_zoffset_b13 = 19

abbrev pub tjc_page_set_zoffset_b14 : ℕ
tjc_page_set_zoffset_b14 = 20

abbrev pub tjc_page_set_zoffset_b15 : ℕ
tjc_page_set_zoffset_b15 = 21

abbrev pub tjc_page_set_zoffset_b16 : ℕ
tjc_page_set_zoffset_b16 = 22

abbrev pub tjc_page_change_zoffset_file : ℕ
tjc_page_change_zoffset_file = 4

abbrev pub tjc_page_change_zoffset_home : ℕ
tjc_page_change_zoffset_home = 3

abbrev pub tjc_page_change_zoffset_service : ℕ
tjc_page_change_zoffset_service = 6

abbrev pub tjc_page_change_zoffset_back : ℕ
tjc_page_change_zoffset_back = 7

abbrev pub tjc_page_change_zoffset_enter : ℕ
tjc_page_change_zoffset_enter = 8
