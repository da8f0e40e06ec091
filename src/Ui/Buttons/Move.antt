-- ===== src/Ui/Buttons/Move.antt =====
-- include/ui.h: the numbers of the buttons on the pages of the moves and the filament.
use qidi_plus.Base.{ℕ}

abbrev pub tjc_page_move_btn_file : ℕ
tjc_page_move_btn_file = 17

abbrev pub tjc_page_move_btn_home : ℕ
tjc_page_move_btn_home = 16

abbrev pub tjc_page_move_btn_service : ℕ
tjc_page_move_btn_service = 19

abbrev pub tjc_page_move_filament : ℕ
tjc_page_move_filament = 13

abbrev pub tjc_page_move_level_mode : ℕ
tjc_page_move_level_mode = 14

abbrev pub tjc_page_move_network : ℕ
tjc_page_move_network = 15

abbrev pub tjc_page_move_01 : ℕ
tjc_page_move_01 = 2

abbrev pub tjc_page_move_1 : ℕ
tjc_page_move_1 = 3

abbrev pub tjc_page_move_10 : ℕ
tjc_page_move_10 = 4

abbrev pub tjc_page_move_x_up : ℕ
tjc_page_move_x_up = 7

abbrev pub tjc_page_move_x_down : ℕ
tjc_page_move_x_down = 8

abbrev pub tjc_page_move_y_down : ℕ
tjc_page_move_y_down = 5

abbrev pub tjc_page_move_y_up : ℕ
tjc_page_move_y_up = 6

abbrev pub tjc_page_move_home : ℕ
tjc_page_move_home = 11

abbrev pub tjc_page_move_z_up : ℕ
tjc_page_move_z_up = 9

abbrev pub tjc_page_mvoe_z_down : ℕ
tjc_page_mvoe_z_down = 10

abbrev pub tjc_page_move_btn_stop : ℕ
tjc_page_move_btn_stop = 23

abbrev pub tjc_page_move_m84 : ℕ
tjc_page_move_m84 = 20

abbrev pub tjc_page_move_pop_1_yes : ℕ
tjc_page_move_pop_1_yes = 2

abbrev pub tjc_page_move_pop_1_no : ℕ
tjc_page_move_pop_1_no = 3

abbrev pub tjc_page_filament_btn_file : ℕ
tjc_page_filament_btn_file = 13

abbrev pub tjc_page_filament_btn_home : ℕ
tjc_page_filament_btn_home = 12

abbrev pub tjc_page_filament_btn_service : ℕ
tjc_page_filament_btn_service = 15

abbrev pub tjc_page_filament_move : ℕ
tjc_page_filament_move = 8

abbrev pub tjc_page_filament_autolevel : ℕ
tjc_page_filament_autolevel = 10

abbrev pub tjc_page_filament_network : ℕ
tjc_page_filament_network = 11

abbrev pub tjc_page_filament_btn_10 : ℕ
tjc_page_filament_btn_10 = 30

abbrev pub tjc_page_filament_btn_50 : ℕ
tjc_page_filament_btn_50 = 31

abbrev pub tjc_page_filament_btn_100 : ℕ
tjc_page_filament_btn_100 = 32

abbrev pub tjc_page_filament_unload : ℕ
tjc_page_filament_unload = 21

abbrev pub tjc_page_filament_load : ℕ
tjc_page_filament_load = 24

abbrev pub tjc_page_filament_btn_retract : ℕ
tjc_page_filament_btn_retract = 22

abbrev pub tjc_page_filament_btn_extrude : ℕ
tjc_page_filament_btn_extrude = 23

abbrev pub tjc_page_filament_btn_extruder : ℕ
tjc_page_filament_btn_extruder = 34

abbrev pub tjc_page_filament_btn_heater_bed : ℕ
tjc_page_filament_btn_heater_bed = 25

abbrev pub tjc_page_filament_btn_hot : ℕ
tjc_page_filament_btn_hot = 26

abbrev pub tjc_page_filament_btn_fan_1 : ℕ
tjc_page_filament_btn_fan_1 = 6

abbrev pub tjc_page_filament_btn_fan_2 : ℕ
tjc_page_filament_btn_fan_2 = 7

abbrev pub tjc_page_filament_btn_fan_3 : ℕ
tjc_page_filament_btn_fan_3 = 5

abbrev pub tjc_page_filament_btn_filament_sensor : ℕ
tjc_page_filament_btn_filament_sensor = 20

abbrev pub tjc_page_filament_btn_stop : ℕ
tjc_page_filament_btn_stop = 33

abbrev pub tjc_page_filament_extruder : ℕ
tjc_page_filament_extruder = 17

abbrev pub tjc_page_filament_heater_bed : ℕ
tjc_page_filament_heater_bed = 18

abbrev pub tjc_page_filament_hot : ℕ
tjc_page_filament_hot = 19

abbrev pub tjc_page_filament_pop_yes : ℕ
tjc_page_filament_pop_yes = 2

abbrev pub tjc_page_filament_pop_4_ok : ℕ
tjc_page_filament_pop_4_ok = 2
