-- ===== src/Ui/Buttons/Loading.antt =====
-- include/ui.h: the numbers of the buttons on the pages of the sleep, the tests and the loading of filament.
use qidi_plus.Base.{ℕ}

abbrev pub tjc_page_open_heater_bed_down : ℕ
tjc_page_open_heater_bed_down = 0

abbrev pub tjc_page_open_heater_bed_up : ℕ
tjc_page_open_heater_bed_up = 1

abbrev pub tjc_page_open_heater_bed_on_off : ℕ
tjc_page_open_heater_bed_on_off = 2

abbrev pub tjc_page_open_heater_bed_next : ℕ
tjc_page_open_heater_bed_next = 3

abbrev pub tjc_page_open_pop_1_no : ℕ
tjc_page_open_pop_1_no = 0

abbrev pub tjc_page_open_pop_1_yes : ℕ
tjc_page_open_pop_1_yes = 1

abbrev pub tjc_page_preview_pop_yes : ℕ
tjc_page_preview_pop_yes = 0

abbrev pub tjc_page_preview_pop_no_pop : ℕ
tjc_page_preview_pop_no_pop = 1

abbrev pub tjc_page_screen_sleep_enter : ℕ
tjc_page_screen_sleep_enter = 0

abbrev pub tjc_page_screen_sleep_exit : ℕ
tjc_page_screen_sleep_exit = 1

abbrev pub tjc_page_restore_config_yes : ℕ
tjc_page_restore_config_yes = 0

abbrev pub tjc_page_restore_config_no : ℕ
tjc_page_restore_config_no = 1

abbrev pub tjc_page_print_log_yes : ℕ
tjc_page_print_log_yes = 0

abbrev pub tjc_page_open_syntony_jump_out : ℕ
tjc_page_open_syntony_jump_out = 0

abbrev pub tjc_page_syntony_move_jump_out : ℕ
tjc_page_syntony_move_jump_out = 0

abbrev pub tjc_page_load_finish_yes : ℕ
tjc_page_load_finish_yes = 0

abbrev pub tjc_page_load_finish_retry : ℕ
tjc_page_load_finish_retry = 1

abbrev pub tjc_page_pre_heating_1_set_1 : ℕ
tjc_page_pre_heating_1_set_1 = 0

abbrev pub tjc_page_pre_heating_1_set_2 : ℕ
tjc_page_pre_heating_1_set_2 = 1

abbrev pub tjc_page_pre_heating_1_set_3 : ℕ
tjc_page_pre_heating_1_set_3 = 2

abbrev pub tjc_page_pre_heating_1_back : ℕ
tjc_page_pre_heating_1_back = 4

abbrev pub tjc_page_pre_unload_next : ℕ
tjc_page_pre_unload_next = 0

abbrev pub tjc_page_pre_unload_back : ℕ
tjc_page_pre_unload_back = 1

abbrev pub tjc_page_memory_warning_yes : ℕ
tjc_page_memory_warning_yes = 0

abbrev pub tjc_page_pre_load_next : ℕ
tjc_page_pre_load_next = 0

abbrev pub tjc_page_pre_load_back : ℕ
tjc_page_pre_load_back = 1

abbrev pub tjc_page_unload_finish_yes : ℕ
tjc_page_unload_finish_yes = 0

abbrev pub tjc_page_unload_finish_reload : ℕ
tjc_page_unload_finish_reload = 1
