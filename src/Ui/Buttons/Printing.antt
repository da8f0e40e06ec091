-- ===== src/Ui/Buttons/Printing.antt =====
-- include/ui.h: the numbers of the buttons on the pages of the preview and a print.
use qidi_plus.Base.{ℕ}

abbrev pub tjc_page_preview_btn_back : ℕ
tjc_page_preview_btn_back = 2

abbrev pub tjc_page_preview_btn_delete : ℕ
tjc_page_preview_btn_delete = 1

abbrev pub tjc_page_preview_btn_start : ℕ
tjc_page_preview_btn_start = 0

abbrev pub tjc_page_preview_bed_leveling : ℕ
tjc_page_preview_bed_leveling = 3

abbrev pub tjc_page_printing_set_extruder : ℕ
tjc_page_printing_set_extruder = 0

abbrev pub tjc_page_printing_set_heater_bed : ℕ
tjc_page_printing_set_heater_bed = 1

abbrev pub tjc_page_printing_set_hot : ℕ
tjc_page_printing_set_hot = 2

abbrev pub tjc_page_printing_set_fan_0 : ℕ
tjc_page_printing_set_fan_0 = 5

abbrev pub tjc_page_printing_set_fan_1 : ℕ
tjc_page_printing_set_fan_1 = 6

abbrev pub tjc_page_printing_set_fan_3 : ℕ
tjc_page_printing_set_fan_3 = 7

abbrev pub tjc_page_printing_set_speed : ℕ
tjc_page_printing_set_speed = 3

abbrev pub tjc_page_printing_set_flow : ℕ
tjc_page_printing_set_flow = 4

abbrev pub tjc_page_printing_btn_z_offset : ℕ
tjc_page_printing_btn_z_offset = 8

abbrev pub tjc_page_printing_btn_pause_resume : ℕ
tjc_page_printing_btn_pause_resume = 9

abbrev pub tjc_page_printing_btn_stop : ℕ
tjc_page_printing_btn_stop = 11

abbrev pub tjc_page_printing_btn_light : ℕ
tjc_page_printing_btn_light = 10

abbrev pub tjc_page_print_filament_pause_resume : ℕ
tjc_page_print_filament_pause_resume = 13

abbrev pub tjc_page_print_filament_stop : ℕ
tjc_page_print_filament_stop = 18

abbrev pub tjc_page_print_filament_target : ℕ
tjc_page_print_filament_target = 10

abbrev pub tjc_page_print_filament_target_up : ℕ
tjc_page_print_filament_target_up = 8

abbrev pub tjc_page_print_filament_target_down : ℕ
tjc_page_print_filament_target_down = 9

abbrev pub tjc_page_print_filament_retract : ℕ
tjc_page_print_filament_retract = 6

abbrev pub tjc_page_print_filament_extrude : ℕ
tjc_page_print_filament_extrude = 7

abbrev pub tjc_page_print_filament_10 : ℕ
tjc_page_print_filament_10 = 3

abbrev pub tjc_page_print_filament_50 : ℕ
tjc_page_print_filament_50 = 4

abbrev pub tjc_page_print_filament_100 : ℕ
tjc_page_print_filament_100 = 5

abbrev pub tjc_page_print_filament_unload : ℕ
tjc_page_print_filament_unload = 12

abbrev pub tjc_page_print_filament_load : ℕ
tjc_page_print_filament_load = 11
