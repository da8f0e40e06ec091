-- ===== src/Gcode/Tests.antt =====
-- The responses on concrete inputs.
use qidi_plus.Base.{
  ℕ, ◌≡◌, ◌≢◌, refl, true, false, Option, none, some, [], Bytes, codes, bytes_eq, starts_with,
  arith,
}
use qidi_plus.Screen.{tjc_page_main, tjc_page_printing, tjc_page_screen_sleep}
use qidi_plus.Gcode.{
  Client, tenth, find_byte, level_offset_of, line_of, respond, wake, detect_error, is_printing,
  parse_gcode_response,
}
use qidi_plus.Gcode.Pages.{names_page, parse_gcode_response-Awake, parse_gcode_response_printing}

abbrev text_json : Bytes → Option Bytes
text_json s = some s

abbrev no_decimal : Bytes → Option Bytes
no_decimal s = none

abbrev on_page : ℕ → ℕ → Client text_json no_decimal
on_page page before = record {
  screen = record { current_page_id = page; previous_page_id = before; sent = [] };
  previous_caselight_value = true;
  caselight_off = true;
  mks_led_status = false;
  move_dist = tenth;
  webhooks_state = codes "ready";
  webhooks_state_message = [];
  idle_timeout_state = codes "Idle";
  all_level_saving = true;
  shaper_freq_x = [];
  shaper_freq_y = [];
  manual_level_offset = [];
  output_console = [];
  output_metadata = none;
  jump_to_print = false;
  print_stats_state = codes "standby";
  effects = [];
}

reads_level_offset :
    level_offset_of (codes "// Z position: ?.??? --> 1.250 <-- ?.???") ≡ codes " 1.250"
unfolding level_offset_of find_byte
reads_level_offset = refl

abbrev out_of_range_line : Bytes
out_of_range_line = codes "!! Move out of range: 300.000"

abbrev woken : Client text_json no_decimal
woken =
    elim (parse_gcode_response text_json no_decimal (some out_of_range_line)
      (on_page tjc_page_screen_sleep tjc_page_main)) [
        | none ↦ on_page tjc_page_main tjc_page_main
        | some c ↦ c
      ]

wakes :
    parse_gcode_response text_json no_decimal
      (some out_of_range_line)
      (on_page tjc_page_screen_sleep tjc_page_main)
    ≡ some woken
unfolding parse_gcode_response line_of respond bytes_eq starts_with
wakes = refl

parse_gcode_response-Awake_example : woken.screen.current_page_id ≢ tjc_page_screen_sleep
parse_gcode_response-Awake_example =
    parse_gcode_response-Awake text_json no_decimal out_of_range_line
      (on_page tjc_page_screen_sleep tjc_page_main) woken (omega arith) wakes

abbrev timer_line : Bytes
timer_line = codes "!! Timer too close"

abbrev told : Client text_json no_decimal
told = record (on_page tjc_page_printing tjc_page_main) { output_console = timer_line }

tells :
    parse_gcode_response text_json no_decimal
      (some timer_line)
      (on_page tjc_page_printing tjc_page_main)
    ≡ some told
unfolding parse_gcode_response line_of respond bytes_eq starts_with wake detect_error is_printing
tells = refl

timer_names_no_page : names_page (line_of timer_line) ≡ false
unfolding line_of bytes_eq starts_with names_page
timer_names_no_page = refl

is_printing_page : is_printing tjc_page_printing ≡ true
unfolding is_printing
is_printing_page = refl

parse_gcode_response_printing_example :
    told.screen ≡ (on_page tjc_page_printing tjc_page_main).screen
parse_gcode_response_printing_example =
    parse_gcode_response_printing text_json no_decimal timer_line
      (on_page tjc_page_printing tjc_page_main) told is_printing_page timer_names_no_page tells
