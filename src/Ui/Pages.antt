-- ===== src/Ui/Pages.antt =====
-- include/ui.h: the numbers of the pages that `Screen` does not name.
use qidi_plus.Base.{ℕ}

abbrev pub tjc_page_open_language : ℕ
tjc_page_open_language = 0

abbrev pub tjc_page_open_levelinit : ℕ
tjc_page_open_levelinit = 2

abbrev pub tjc_page_open_level : ℕ
tjc_page_open_level = 3

abbrev pub tjc_page_open_leveling : ℕ
tjc_page_open_leveling = 4

abbrev pub tjc_page_open_leveled : ℕ
tjc_page_open_leveled = 5

abbrev pub tjc_page_open_syntony : ℕ
tjc_page_open_syntony = 6

abbrev pub tjc_page_null_2 : ℕ
tjc_page_null_2 = 7

abbrev pub tjc_page_more_level : ℕ
tjc_page_more_level = 8

abbrev pub tjc_page_more_level_plu : ℕ
tjc_page_more_level_plu = 10

abbrev pub tjc_page_open_video_1 : ℕ
tjc_page_open_video_1 = 87

abbrev pub tjc_page_open_video_2 : ℕ
tjc_page_open_video_2 = 88

abbrev pub tjc_page_open_video_3 : ℕ
tjc_page_open_video_3 = 89

abbrev pub tjc_page_filament_video_1 : ℕ
tjc_page_filament_video_1 = 92

abbrev pub tjc_page_filament_video_2 : ℕ
tjc_page_filament_video_2 = 93

abbrev pub tjc_page_filament_video_3 : ℕ
tjc_page_filament_video_3 = 94

abbrev pub tjc_page_kb_filament_1 : ℕ
tjc_page_kb_filament_1 = 29

abbrev pub tjc_page_level_mode : ℕ
tjc_page_level_mode = 32

abbrev pub tjc_page_leveling_null : ℕ
tjc_page_leveling_null = 33

abbrev pub tjc_page_leveling_init : ℕ
tjc_page_leveling_init = 34

abbrev pub tjc_page_auto_move : ℕ
tjc_page_auto_move = 36

abbrev pub tjc_page_auto_finish : ℕ
tjc_page_auto_finish = 37

abbrev pub tjc_page_set_zoffset : ℕ
tjc_page_set_zoffset = 41

abbrev pub tjc_page_syntony_move : ℕ
tjc_page_syntony_move = 42

abbrev pub tjc_page_syntony_finish : ℕ
tjc_page_syntony_finish = 43

abbrev pub tjc_page_wifi_list_2 : ℕ
tjc_page_wifi_list_2 = 45

abbrev pub tjc_page_internet : ℕ
tjc_page_internet = 46

abbrev pub tjc_page_language : ℕ
tjc_page_language = 47

abbrev pub tjc_page_print_keyboard : ℕ
tjc_page_print_keyboard = 36

abbrev pub tjc_page_print_finish : ℕ
tjc_page_print_finish = 19

abbrev pub tjc_page_keybdb : ℕ
tjc_page_keybdb = 52

abbrev pub tjc_page_set_zoffset_2 : ℕ
tjc_page_set_zoffset_2 = 54

abbrev pub tjc_page_saving : ℕ
tjc_page_saving = 56

abbrev pub tjc_page_keydba : ℕ
tjc_page_keydba = 51

abbrev pub tjc_page_change_zoffset : ℕ
tjc_page_change_zoffset = 67

abbrev pub tjc_page_set_temp_level : ℕ
tjc_page_set_temp_level = 68

abbrev pub tjc_page_set_temp_level_kb : ℕ
tjc_page_set_temp_level_kb = 69

abbrev pub tjc_page_disk_detect : ℕ
tjc_page_disk_detect = 74

abbrev pub tjc_page_updated : ℕ
tjc_page_updated = 75

abbrev pub tjc_page_pid_working : ℕ
tjc_page_pid_working = 76

abbrev pub tjc_page_pid_finish : ℕ
tjc_page_pid_finish = 77

abbrev pub tjc_page_disk_detect_2 : ℕ
tjc_page_disk_detect_2 = 78

abbrev pub tjc_page_wifi_success : ℕ
tjc_page_wifi_success = 83

abbrev pub tjc_page_wifi_failed : ℕ
tjc_page_wifi_failed = 84

abbrev pub tjc_page_wifi_save : ℕ
tjc_page_wifi_save = 85

abbrev pub tjc_page_wifi_keyboard : ℕ
tjc_page_wifi_keyboard = 91

abbrev pub tjc_page_wait_pop : ℕ
tjc_page_wait_pop = 95

abbrev pub tjc_page_filament_showdown : ℕ
tjc_page_filament_showdown = 97

abbrev pub tjc_page_unload_finish : ℕ
tjc_page_unload_finish = 98

abbrev pub tjc_page_level_null_1 : ℕ
tjc_page_level_null_1 = 102

abbrev pub tjc_page_level_null_2 : ℕ
tjc_page_level_null_2 = 103

abbrev pub tjc_page_filament_pop_4 : ℕ
tjc_page_filament_pop_4 = 104

abbrev pub tjc_page_leveling_null_2 : ℕ
tjc_page_leveling_null_2 = 105

abbrev pub tjc_page_filament_pop_5 : ℕ
tjc_page_filament_pop_5 = 106

abbrev pub tjc_page_open_heater_bed : ℕ
tjc_page_open_heater_bed = 109

abbrev pub tjc_page_open_pop_1 : ℕ
tjc_page_open_pop_1 = 110

abbrev pub tjc_page_unloading : ℕ
tjc_page_unloading = 111

abbrev pub tjc_page_print_log_s : ℕ
tjc_page_print_log_s = 117

abbrev pub tjc_page_print_log_f : ℕ
tjc_page_print_log_f = 118

abbrev pub tjc_page_pre_heating_2 : ℕ
tjc_page_pre_heating_2 = 119

abbrev pub tjc_page_load_finish : ℕ
tjc_page_load_finish = 120

abbrev pub tjc_page_pre_unload : ℕ
tjc_page_pre_unload = 121

abbrev pub tjc_page_pre_load : ℕ
tjc_page_pre_load = 124

abbrev pub tjc_page_loading : ℕ
tjc_page_loading = 125

abbrev pub tjc_page_pre_heating_1 : ℕ
tjc_page_pre_heating_1 = 126

abbrev pub tjc_page_network_set : ℕ
tjc_page_network_set = 127

abbrev pub tjc_page_server_set : ℕ
tjc_page_server_set = 128

abbrev pub tjc_page_updating : ℕ
tjc_page_updating = 123

abbrev pub tjc_page_search_server : ℕ
tjc_page_search_server = 129

abbrev pub tjc_page_online_update : ℕ
tjc_page_online_update = 130

abbrev pub tjc_page_qidi_link : ℕ
tjc_page_qidi_link = 132

abbrev pub tjc_page_qidi_link_login_success : ℕ
tjc_page_qidi_link_login_success = 133

abbrev pub tjc_page_qidi_link_log_out : ℕ
tjc_page_qidi_link_log_out = 134

abbrev pub tjc_page_qidi_link_log_fail : ℕ
tjc_page_qidi_link_log_fail = 135

abbrev pub tjc_page_off_update_choose : ℕ
tjc_page_off_update_choose = 136

abbrev pub tjc_page_offline_updating : ℕ
tjc_page_offline_updating = 137

abbrev pub tjc_page_no_offline_files : ℕ
tjc_page_no_offline_files = 138
