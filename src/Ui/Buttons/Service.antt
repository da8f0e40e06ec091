-- ===== src/Ui/Buttons/Service.antt =====
-- include/ui.h: the numbers of the buttons on the pages of the language, the service and the reset.
use qidi_plus.Base.{ℕ}

abbrev pub tjc_page_language_btn_file : ℕ
tjc_page_language_btn_file = 6

abbrev pub tjc_page_language_btn_home : ℕ
tjc_page_language_btn_home = 5

abbrev pub tjc_page_language_btn_tool : ℕ
tjc_page_language_btn_tool = 7

abbrev pub tjc_page_language_service : ℕ
tjc_page_language_service = 2

abbrev pub tjc_page_language_reset : ℕ
tjc_page_language_reset = 3

abbrev pub tjc_page_language_about : ℕ
tjc_page_language_about = 4

abbrev pub tjc_page_service_btn_file : ℕ
tjc_page_service_btn_file = 6

abbrev pub tjc_page_service_btn_home : ℕ
tjc_page_service_btn_home = 5

abbrev pub tjc_page_service_btn_tool : ℕ
tjc_page_service_btn_tool = 7

abbrev pub tjc_page_service_language : ℕ
tjc_page_service_language = 1

abbrev pub tjc_page_service_reset : ℕ
tjc_page_service_reset = 3

abbrev pub tjc_page_service_about : ℕ
tjc_page_service_about = 4

abbrev pub tjc_page_reset_btn_file : ℕ
tjc_page_reset_btn_file = 6

abbrev pub tjc_page_reset_btn_home : ℕ
tjc_page_reset_btn_home = 5

abbrev pub tjc_page_reset_btn_tool : ℕ
tjc_page_reset_btn_tool = 7

abbrev pub tjc_page_reset_language : ℕ
tjc_page_reset_language = 1

abbrev pub tjc_page_reset_service : ℕ
tjc_page_reset_service = 2

abbrev pub tjc_page_reset_about : ℕ
tjc_page_reset_about = 4

abbrev pub tjc_page_reset_restart_klipper : ℕ
tjc_page_reset_restart_klipper = 9

abbrev pub tjc_page_reset_firmware_restart : ℕ
tjc_page_reset_firmware_restart = 10

abbrev pub tjc_page_sys_ok_home : ℕ
tjc_page_sys_ok_home = 5

abbrev pub tjc_page_sys_ok_file : ℕ
tjc_page_sys_ok_file = 6

abbrev pub tjc_page_sys_ok_tool : ℕ
tjc_page_sys_ok_tool = 7

abbrev pub tjc_page_sys_ok_language : ℕ
tjc_page_sys_ok_language = 1

abbrev pub tjc_page_sys_ok_service : ℕ
tjc_page_sys_ok_service = 2

abbrev pub tjc_page_sys_ok_about : ℕ
tjc_page_sys_ok_about = 4

abbrev pub tjc_page_about_s_btn : ℕ
tjc_page_about_s_btn = 3

abbrev pub tjc_page_about_btn_file : ℕ
tjc_page_about_btn_file = 5

abbrev pub tjc_page_about_btn_home : ℕ
tjc_page_about_btn_home = 4

abbrev pub tjc_page_about_btn_tool : ℕ
tjc_page_about_btn_tool = 6

abbrev pub tjc_page_about_language : ℕ
tjc_page_about_language = 1

abbrev pub tjc_page_about_service : ℕ
tjc_page_about_service = 2

abbrev pub tjc_page_about_reset : ℕ
tjc_page_about_reset = 10

abbrev pub tjc_page_about_offline_update : ℕ
tjc_page_about_offline_update = 12

abbrev pub tjc_page_about_oobe : ℕ
tjc_page_about_oobe = 14

abbrev pub tjc_page_about_restore : ℕ
tjc_page_about_restore = 15

abbrev pub tjc_page_about_print_log : ℕ
tjc_page_about_print_log = 16

abbrev pub tjc_page_about_online_update : ℕ
tjc_page_about_online_update = 17

abbrev pub tjc_page_about_sleep : ℕ
tjc_page_about_sleep = 21
