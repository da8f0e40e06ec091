-- ===== src/Ui/Buttons/Files.antt =====
-- include/ui.h: the numbers of the buttons on the pages of the main page and the files.
use qidi_plus.Base.{ℕ}

abbrev pub tjc_page_main_btn_home : ℕ
tjc_page_main_btn_home = 7

abbrev pub tjc_page_main_btn_file : ℕ
tjc_page_main_btn_file = 8

abbrev pub tjc_page_main_btn_tool : ℕ
tjc_page_main_btn_tool = 9

abbrev pub tjc_page_main_btn_service : ℕ
tjc_page_main_btn_service = 10

abbrev pub tjc_page_main_light : ℕ
tjc_page_main_light = 1

abbrev pub tjc_page_main_voice : ℕ
tjc_page_main_voice = 2

abbrev pub tjc_page_main_lock : ℕ
tjc_page_main_lock = 3

abbrev pub tjc_page_file_list_1_btn_home : ℕ
tjc_page_file_list_1_btn_home = 19

abbrev pub tjc_page_file_list_1_btn_file : ℕ
tjc_page_file_list_1_btn_file = 20

abbrev pub tjc_page_file_list_1_btn_tool : ℕ
tjc_page_file_list_1_btn_tool = 21

abbrev pub tjc_page_file_list_1_btn_service : ℕ
tjc_page_file_list_1_btn_service = 22

abbrev pub tjc_page_file_list_1_btn_1 : ℕ
tjc_page_file_list_1_btn_1 = 9

abbrev pub tjc_page_file_list_1_btn_2 : ℕ
tjc_page_file_list_1_btn_2 = 10

abbrev pub tjc_page_file_list_1_btn_3 : ℕ
tjc_page_file_list_1_btn_3 = 11

abbrev pub tjc_page_file_list_1_btn_4 : ℕ
tjc_page_file_list_1_btn_4 = 12

abbrev pub tjc_page_file_list_1_btn_5 : ℕ
tjc_page_file_list_1_btn_5 = 13

abbrev pub tjc_page_file_list_1_btn_6 : ℕ
tjc_page_file_list_1_btn_6 = 14

abbrev pub tjc_page_file_list_1_btn_7 : ℕ
tjc_page_file_list_1_btn_7 = 15

abbrev pub tjc_page_file_list_1_btn_8 : ℕ
tjc_page_file_list_1_btn_8 = 16

abbrev pub tjc_page_file_list_1_btn_previous : ℕ
tjc_page_file_list_1_btn_previous = 17

abbrev pub tjc_page_file_list_1_btn_next : ℕ
tjc_page_file_list_1_btn_next = 18

abbrev pub tjc_page_file_list_2_btn_1 : ℕ
tjc_page_file_list_2_btn_1 = 1

abbrev pub tjc_page_file_list_2_btn_2 : ℕ
tjc_page_file_list_2_btn_2 = 2

abbrev pub tjc_page_file_list_2_btn_3 : ℕ
tjc_page_file_list_2_btn_3 = 3

abbrev pub tjc_page_file_list_2_btn_4 : ℕ
tjc_page_file_list_2_btn_4 = 4

abbrev pub tjc_page_file_list_2_btn_5 : ℕ
tjc_page_file_list_2_btn_5 = 5

abbrev pub tjc_page_file_list_2_btn_6 : ℕ
tjc_page_file_list_2_btn_6 = 6

abbrev pub tjc_page_file_list_2_btn_7 : ℕ
tjc_page_file_list_2_btn_7 = 7

abbrev pub tjc_page_file_list_2_btn_8 : ℕ
tjc_page_file_list_2_btn_8 = 8

abbrev pub tjc_page_file_list_2_btn_back : ℕ
tjc_page_file_list_2_btn_back = 17

abbrev pub tjc_page_file_list_2_btn_previous : ℕ
tjc_page_file_list_2_btn_previous = 18

abbrev pub tjc_page_file_list_2_btn_next : ℕ
tjc_page_file_list_2_btn_next = 19

abbrev pub tjc_page_file_list_2_btn_home : ℕ
tjc_page_file_list_2_btn_home = 20

abbrev pub tjc_page_file_list_2_btn_file : ℕ
tjc_page_file_list_2_btn_file = 21

abbrev pub tjc_page_file_list_2_btn_tool : ℕ
tjc_page_file_list_2_btn_tool = 22

abbrev pub tjc_page_file_list_2_btn_service : ℕ
tjc_page_file_list_2_btn_service = 23

abbrev pub tjc_page_delete_file_yes : ℕ
tjc_page_delete_file_yes = 2

abbrev pub tjc_page_delete_file_no : ℕ
tjc_page_delete_file_no = 3
