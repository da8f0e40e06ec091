-- ===== src/Ui/Buttons/Popup.antt =====
-- include/ui.h: the numbers of the buttons on the pages of the messages.
use qidi_plus.Base.{ℕ}

abbrev pub tjc_page_disk_detect_2_home : ℕ
tjc_page_disk_detect_2_home = 1

abbrev pub tjc_page_disk_detect_2_tool : ℕ
tjc_page_disk_detect_2_tool = 3

abbrev pub tjc_page_disk_detect_2_service : ℕ
tjc_page_disk_detect_2_service = 4

abbrev pub tjc_page_wifi_success_yes : ℕ
tjc_page_wifi_success_yes = 2

abbrev pub tjc_page_wifi_failed_yes : ℕ
tjc_page_wifi_failed_yes = 2

abbrev pub tjc_page_wifi_keyboard_back : ℕ
tjc_page_wifi_keyboard_back = 2

abbrev pub tjc_page_wifi_keyboard_enter : ℕ
tjc_page_wifi_keyboard_enter = 3

abbrev pub tjc_page_wait_pop_ok : ℕ
tjc_page_wait_pop_ok = 2

abbrev pub tjc_page_filament_pop_3_ok : ℕ
tjc_page_filament_pop_3_ok = 2

abbrev pub tjc_page_filament_pop_5_ok : ℕ
tjc_page_filament_pop_5_ok = 2

abbrev pub tjc_page_level_null_1_down : ℕ
tjc_page_level_null_1_down = 0

abbrev pub tjc_page_level_null_1_up : ℕ
tjc_page_level_null_1_up = 1

abbrev pub tjc_page_level_null_1_on_off : ℕ
tjc_page_level_null_1_on_off = 2

abbrev pub tjc_page_level_null_1_back : ℕ
tjc_page_level_null_1_back = 3

abbrev pub tjc_page_level_null_1_enter : ℕ
tjc_page_level_null_1_enter = 4

abbrev pub tjc_page_level_null_2_back : ℕ
tjc_page_level_null_2_back = 0

abbrev pub tjc_page_level_null_2_enter : ℕ
tjc_page_level_null_2_enter = 1

abbrev pub tjc_page_detect_error_yes : ℕ
tjc_page_detect_error_yes = 0

abbrev pub tjc_page_gcode_error_yes : ℕ
tjc_page_gcode_error_yes = 0
