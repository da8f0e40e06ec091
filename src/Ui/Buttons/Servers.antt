-- ===== src/Ui/Buttons/Servers.antt =====
-- include/ui.h: the numbers of the buttons on the pages of the servers and the link.
use qidi_plus.Base.{ℕ}

abbrev pub tjc_page_network_set_move : ℕ
tjc_page_network_set_move = 2

abbrev pub tjc_page_network_set_filament : ℕ
tjc_page_network_set_filament = 3

abbrev pub tjc_page_network_set_auto_level : ℕ
tjc_page_network_set_auto_level = 4

abbrev pub tjc_page_network_set_btn_file : ℕ
tjc_page_network_set_btn_file = 7

abbrev pub tjc_page_network_set_btn_home : ℕ
tjc_page_network_set_btn_home = 6

abbrev pub tjc_page_network_set_btn_service : ℕ
tjc_page_network_set_btn_service = 9

abbrev pub tjc_page_network_set_ethernet : ℕ
tjc_page_network_set_ethernet = 10

abbrev pub tjc_page_network_set_refresh : ℕ
tjc_page_network_set_refresh = 11

abbrev pub tjc_page_network_set_wifi_link : ℕ
tjc_page_network_set_wifi_link = 12

abbrev pub tjc_page_network_set_server : ℕ
tjc_page_network_set_server = 13

abbrev pub tjc_page_network_set_qidi_link : ℕ
tjc_page_network_set_qidi_link = 14

abbrev pub tjc_page_network_set_btn_lan : ℕ
tjc_page_network_set_btn_lan = 15

abbrev pub tjc_page_server_set_move : ℕ
tjc_page_server_set_move = 2

abbrev pub tjc_page_server_set_filament : ℕ
tjc_page_server_set_filament = 3

abbrev pub tjc_page_server_set_auto_level : ℕ
tjc_page_server_set_auto_level = 4

abbrev pub tjc_page_server_set_btn_file : ℕ
tjc_page_server_set_btn_file = 7

abbrev pub tjc_page_server_set_btn_home : ℕ
tjc_page_server_set_btn_home = 6

abbrev pub tjc_page_server_set_btn_service : ℕ
tjc_page_server_set_btn_service = 9

abbrev pub tjc_page_server_set_back : ℕ
tjc_page_server_set_back = 13

abbrev pub tjc_page_server_set_refresh : ℕ
tjc_page_server_set_refresh = 22

abbrev pub tjc_page_server_set_1 : ℕ
tjc_page_server_set_1 = 32

abbrev pub tjc_page_server_set_2 : ℕ
tjc_page_server_set_2 = 33

abbrev pub tjc_page_server_set_3 : ℕ
tjc_page_server_set_3 = 34

abbrev pub tjc_page_server_set_4 : ℕ
tjc_page_server_set_4 = 35

abbrev pub tjc_page_server_set_5 : ℕ
tjc_page_server_set_5 = 36

abbrev pub tjc_page_online_update_next : ℕ
tjc_page_online_update_next = 1

abbrev pub tjc_page_online_update_back : ℕ
tjc_page_online_update_back = 0

abbrev pub tjc_page_qidi_link_move : ℕ
tjc_page_qidi_link_move = 2

abbrev pub tjc_page_qidi_link_filament : ℕ
tjc_page_qidi_link_filament = 3

abbrev pub tjc_page_qidi_link_auto_level : ℕ
tjc_page_qidi_link_auto_level = 4

abbrev pub tjc_page_qidi_link_btn_file : ℕ
tjc_page_qidi_link_btn_file = 7

abbrev pub tjc_page_qidi_link_btn_home : ℕ
tjc_page_qidi_link_btn_home = 6

abbrev pub tjc_page_qidi_link_btn_service : ℕ
tjc_page_qidi_link_btn_service = 9

abbrev pub tjc_page_qidi_link_back : ℕ
tjc_page_qidi_link_back = 0

abbrev pub tjc_page_qidi_link_login_success_move : ℕ
tjc_page_qidi_link_login_success_move = 2

abbrev pub tjc_page_qidi_link_login_success_filament : ℕ
tjc_page_qidi_link_login_success_filament = 3

abbrev pub tjc_page_qidi_link_login_success_auto_level : ℕ
tjc_page_qidi_link_login_success_auto_level = 4

abbrev pub tjc_page_qidi_link_login_success_file : ℕ
tjc_page_qidi_link_login_success_file = 7

abbrev pub tjc_page_qidi_link_login_success_home : ℕ
tjc_page_qidi_link_login_success_home = 6

abbrev pub tjc_page_qidi_link_login_success_service : ℕ
tjc_page_qidi_link_login_success_service = 9

abbrev pub tjc_page_qidi_link_login_success_back : ℕ
tjc_page_qidi_link_login_success_back = 0

abbrev pub tjc_page_qidi_link_login_success_out : ℕ
tjc_page_qidi_link_login_success_out = 1

abbrev pub tjc_page_qidi_link_log_out_cancel : ℕ
tjc_page_qidi_link_log_out_cancel = 0

abbrev pub tjc_page_qidi_link_log_out_confirm : ℕ
tjc_page_qidi_link_log_out_confirm = 1

abbrev pub tjc_page_qidi_link_log_fail_move : ℕ
tjc_page_qidi_link_log_fail_move = 2

abbrev pub tjc_page_qidi_link_log_fail_filament : ℕ
tjc_page_qidi_link_log_fail_filament = 3

abbrev pub tjc_page_qidi_link_log_fail_auto_level : ℕ
tjc_page_qidi_link_log_fail_auto_level = 4

abbrev pub tjc_page_qidi_link_log_fail_file : ℕ
tjc_page_qidi_link_log_fail_file = 7

abbrev pub tjc_page_qidi_link_log_fail_home : ℕ
tjc_page_qidi_link_log_fail_home = 6

abbrev pub tjc_page_qidi_link_log_fail_service : ℕ
tjc_page_qidi_link_log_fail_service = 9

abbrev pub tjc_page_qidi_link_log_fail_back : ℕ
tjc_page_qidi_link_log_fail_back = 0

abbrev pub tjc_page_off_update_choose_confirm : ℕ
tjc_page_off_update_choose_confirm = 0

abbrev pub tjc_page_off_update_choose_cancle : ℕ
tjc_page_off_update_choose_cancle = 1

abbrev pub tjc_page_no_offline_files_confirm : ℕ
tjc_page_no_offline_files_confirm = 0
