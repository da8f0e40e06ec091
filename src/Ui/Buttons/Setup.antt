-- ===== src/Ui/Buttons/Setup.antt =====
-- include/ui.h: the numbers of the buttons on the pages of the first start.
use qidi_plus.Base.{ℕ}

abbrev pub tjc_page_open_language_next : ℕ
tjc_page_open_language_next = 2

abbrev pub tjc_page_open_language_skip : ℕ
tjc_page_open_language_skip = 9

abbrev pub tjc_page_open_video_1_right : ℕ
tjc_page_open_video_1_right = 3

abbrev pub tjc_page_open_video_2_right : ℕ
tjc_page_open_video_2_right = 3

abbrev pub tjc_page_open_video_3_right : ℕ
tjc_page_open_video_3_right = 3

abbrev pub tjc_page_open_video_4_up : ℕ
tjc_page_open_video_4_up = 0

abbrev pub tjc_page_open_video_4_down : ℕ
tjc_page_open_video_4_down = 1

abbrev pub tjc_page_open_video_4_next : ℕ
tjc_page_open_video_4_next = 3

abbrev pub tjc_page_open_level_001 : ℕ
tjc_page_open_level_001 = 3

abbrev pub tjc_page_open_level_005 : ℕ
tjc_page_open_level_005 = 4

abbrev pub tjc_page_open_level_01 : ℕ
tjc_page_open_level_01 = 5

abbrev pub tjc_page_open_level__1 : ℕ
tjc_page_open_level__1 = 6

abbrev pub tjc_page_open_level_up : ℕ
tjc_page_open_level_up = 8

abbrev pub tjc_page_open_level_down : ℕ
tjc_page_open_level_down = 9

abbrev pub tjc_page_open_level_enter : ℕ
tjc_page_open_level_enter = 10

abbrev pub tjc_page_open_leveled_finish : ℕ
tjc_page_open_leveled_finish = 2

abbrev pub tjc_page_null_2_back : ℕ
tjc_page_null_2_back = 0

abbrev pub tjc_page_null_2_enter : ℕ
tjc_page_null_2_enter = 1

abbrev pub tjc_page_filament_video_1_right : ℕ
tjc_page_filament_video_1_right = 1

abbrev pub tjc_page_filament_video_2_decrease : ℕ
tjc_page_filament_video_2_decrease = 0

abbrev pub tjc_page_filament_video_2_increase : ℕ
tjc_page_filament_video_2_increase = 2

abbrev pub tjc_page_filament_video_2_right : ℕ
tjc_page_filament_video_2_right = 1

abbrev pub tjc_page_filament_video_2_target : ℕ
tjc_page_filament_video_2_target = 4

abbrev pub tjc_page_filament_video_3_extrude : ℕ
tjc_page_filament_video_3_extrude = 1

abbrev pub tjc_page_filament_video_3_next : ℕ
tjc_page_filament_video_3_next = 0

abbrev pub tjc_page_more_level_finish : ℕ
tjc_page_more_level_finish = 1

abbrev pub tjc_page_more_level_print : ℕ
tjc_page_more_level_print = 2

abbrev pub tjc_page_more_level_plu_back : ℕ
tjc_page_more_level_plu_back = 1

abbrev pub tjc_page_more_level_plu_enter : ℕ
tjc_page_more_level_plu_enter = 2
