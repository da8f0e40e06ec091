-- ===== src/Ui/Buttons/Wireless.antt =====
-- include/ui.h: the numbers of the buttons on the pages of the networks.
use qidi_plus.Base.{ℕ}

abbrev pub tjc_page_wifi_list_2_btn_file : ℕ
tjc_page_wifi_list_2_btn_file = 7

abbrev pub tjc_page_wifi_list_2_btn_home : ℕ
tjc_page_wifi_list_2_btn_home = 6

abbrev pub tjc_page_wifi_list_2_btn_service : ℕ
tjc_page_wifi_list_2_btn_service = 9

abbrev pub tjc_page_wifi_list_2_move : ℕ
tjc_page_wifi_list_2_move = 2

abbrev pub tjc_page_wifi_list_2_filament : ℕ
tjc_page_wifi_list_2_filament = 3

abbrev pub tjc_page_wifi_list_2_auto_level : ℕ
tjc_page_wifi_list_2_auto_level = 4

abbrev pub tjc_page_wifi_list_2_previous : ℕ
tjc_page_wifi_list_2_previous = 11

abbrev pub tjc_page_wifi_list_2_next : ℕ
tjc_page_wifi_list_2_next = 12

abbrev pub tjc_page_wifi_list_2_ssid_1 : ℕ
tjc_page_wifi_list_2_ssid_1 = 21

abbrev pub tjc_page_wifi_list_2_ssid_2 : ℕ
tjc_page_wifi_list_2_ssid_2 = 17

abbrev pub tjc_page_wifi_list_2_ssid_3 : ℕ
tjc_page_wifi_list_2_ssid_3 = 18

abbrev pub tjc_page_wifi_list_2_ssid_4 : ℕ
tjc_page_wifi_list_2_ssid_4 = 19

abbrev pub tjc_page_wifi_list_2_ssid_5 : ℕ
tjc_page_wifi_list_2_ssid_5 = 20

abbrev pub tjc_page_wifi_list_2_refresh : ℕ
tjc_page_wifi_list_2_refresh = 22

abbrev pub tjc_page_wifi_list_2_ehtnet : ℕ
tjc_page_wifi_list_2_ehtnet = 23

abbrev pub tjc_page_wifi_list_2_back : ℕ
tjc_page_wifi_list_2_back = 13

abbrev pub tjc_page_keydba_home : ℕ
tjc_page_keydba_home = 44

abbrev pub tjc_page_keydba_file : ℕ
tjc_page_keydba_file = 45

abbrev pub tjc_page_keydba_service : ℕ
tjc_page_keydba_service = 47

abbrev pub tjc_page_keydba_back : ℕ
tjc_page_keydba_back = 2

abbrev pub tjc_page_internet_move : ℕ
tjc_page_internet_move = 1

abbrev pub tjc_page_internet_filament : ℕ
tjc_page_internet_filament = 2

abbrev pub tjc_page_internet_auto_level : ℕ
tjc_page_internet_auto_level = 3

abbrev pub tjc_page_internet_btn_file : ℕ
tjc_page_internet_btn_file = 6

abbrev pub tjc_page_internet_btn_home : ℕ
tjc_page_internet_btn_home = 5

abbrev pub tjc_page_internet_btn_service : ℕ
tjc_page_internet_btn_service = 8

abbrev pub tjc_page_internet_wifi : ℕ
tjc_page_internet_wifi = 23
