-- ===== src/Gcode.antt =====
-- src/mks_gcode.cpp: `parse_gcode_response`, which reads the lines that Klipper prints; src/event.cpp:
-- the page changes and the light that it calls for.
pub mod Pages
mod Tests
use qidi_plus.Base.{
  ℕ, zero, suc, ◌+◌, Bool, true, false, not, ◌&&◌, ◌||◌, ◌==◌, if◌then◌else◌, Option, none, some,
  ◌>>=◌, List, [], ◌∷◌, ◌++◌, Bytes, codes, bytes_eq, starts_with, drop, take,
}
use qidi_plus.Screen.{
  Screen, write_all, page_to, tjc_page_open_video_4, tjc_page_printing, tjc_page_print_zoffset,
  tjc_page_print_filament, tjc_page_move, tjc_page_move_pop_1, tjc_page_move_pop_2,
  tjc_page_move_pop_3, tjc_page_filament, tjc_page_filament_pop, tjc_page_filament_pop_3,
  tjc_page_auto_level, tjc_page_pop_1, tjc_page_detect_error, tjc_page_gcode_error,
  tjc_page_screen_sleep, tjc_page_memory_warning,
}
use qidi_plus.SendMsg.Widget.{send_cmd_txt}

-- `printer_move_dist`, as it is compared.
pub data Dist : Type 0 where
  tenth one ten other : Dist

-- The position of the first byte c.
unfoldable pub find_byte : ℕ → Bytes → Option ℕ
find_byte c [] = none
find_byte c (d ∷ s) = if d == c then some 0 else (find_byte c s >>= λ k. some (k + 1))

-- Behind the first `>` (or from the start), up to the byte before the next `<`. Where there is
-- none, or nothing before it, the length wraps around and the rest is taken whole.
unfoldable pub level_offset_of : Bytes → Bytes
level_offset_of s =
    let rest : Bytes = elim (find_byte b'>' s) [ none ↦ s | some k ↦ drop (k + 1) s ] in
    elim (find_byte b'<' rest) [ none ↦ rest | some zero ↦ rest | some (suc k) ↦ take k rest ]

-- The branches of the chain of tests; those that only print are one with those that do nothing.
pub data Line : Type 0 where
  ready disconnect printed_only must_home extrude_below shaper_x shaper_y z_position : Line
  out_of_range mcu_shutdown disk_full error metadata : Line

-- The chain of tests.
unfoldable pub line_of : Bytes → Line
line_of p =
    if bytes_eq p (codes "// Klipper state: Ready")
    then ready
    else if bytes_eq p (codes "// Klipper state: Disconnect")
    then disconnect
    else if starts_with (codes "// PID parameters: ") p
    then printed_only
    else if bytes_eq p (codes "// action:cancel")
    then printed_only
    else if starts_with (codes "// Klipper state: Disconnect") p
    then printed_only
    else if starts_with (codes "!! Must home axis first") p
    then must_home
    else if starts_with (codes "!! Extrude below minimum temp") p
    then extrude_below
    else if starts_with (codes "// Recommended shaper_type_x = ") p
    then shaper_x
    else if starts_with (codes "// Recommended shaper_type_y = ") p
    then shaper_y
    else if starts_with (codes "// Z position:") p
    then z_position
    else if starts_with (codes "!! Move out of range:") p
    then out_of_range
    else if starts_with (codes "!! Can not update MCU 'mcu' config as it is shutdown") p
    then mcu_shutdown
    else if starts_with (codes "// accelerometer values (x, y, z)") p
    then printed_only
    else if starts_with (codes "// Lost comm") p
    then printed_only
    else if bytes_eq p (codes "Can not update")
    then printed_only
    else if bytes_eq p (codes "!! Printer is not ready")
    then printed_only
    else if bytes_eq p (codes "!! Insufficient disk space, unable to read the file.")
    then disk_full
    else if starts_with (codes "!!") p
    then error
    else if starts_with (codes "// metadata=") p
    then metadata
    else printed_only

-- The three pages of a running print.
unfoldable pub is_printing : ℕ → Bool
is_printing page =
    page == tjc_page_printing || page == tjc_page_print_zoffset || page == tjc_page_print_filament

-- `Json` is the JSON library's type, `parse` its parser (`none` throws), `decimal` the first match
-- of `\d+\.\d+`.
module _ {Json : Type 0} (parse : Bytes → Option Json) (decimal : Bytes → Option Bytes) where
  -- What is called outside this component.
  pub data Effect : Type 0 where
    sleep : ℕ → Effect
    sub_object_status get_object_status init_mks_status cancel_print : Effect
    run_a_gcode : Bytes → Effect
    parse_file_estimated_time_send : Json → Effect

  -- `caselight_off` says that `printer_caselight_value` is 0.
  pub record Client : Type 0 where
    pub screen : Screen
    pub previous_caselight_value : Bool
    pub caselight_off : Bool
    pub mks_led_status : Bool
    pub move_dist : Dist
    pub webhooks_state : Bytes
    pub webhooks_state_message : Bytes
    pub idle_timeout_state : Bytes
    pub all_level_saving : Bool
    pub shaper_freq_x : Bytes
    pub shaper_freq_y : Bytes
    pub manual_level_offset : Bytes
    pub output_console : Bytes
    pub output_metadata : Option Json
    pub jump_to_print : Bool
    pub print_stats_state : Bytes
    pub effects : List Effect

  unfoldable pub to_page : ℕ → Client → Client
  to_page page c = record c { screen = page_to page c.screen }

  unfoldable pub calls : List Effect → Client → Client
  calls es c = record c { effects = c.effects ++ es }

  unfoldable pub led_on_off : Client → Client
  led_on_off c =
      if c.caselight_off
      then record (calls (run_a_gcode (codes "SET_PIN PIN=caselight VALUE=1") ∷ []) c) {
        mks_led_status = true;
      }
      else record (calls (run_a_gcode (codes "SET_PIN PIN=caselight VALUE=0") ∷ []) c) {
        mks_led_status = c.mks_led_status && c.previous_caselight_value;
      }

  -- `if (previous_caselight_value == true) { … }`
  unfoldable pub light_again : Client → Client
  light_again c =
      if c.previous_caselight_value
      then record (led_on_off c) { previous_caselight_value = false }
      else c

  -- The block that ends the sleep of the screen.
  unfoldable pub wake : Client → Client
  wake c =
      if c.screen.current_page_id == tjc_page_screen_sleep
      then light_again (to_page c.screen.previous_page_id c)
      else c

  -- The page for a distance; the page stays for a distance that is none of the three.
  unfoldable pub pop_for : Dist → Client → Client
  pop_for tenth c = to_page tjc_page_move_pop_1 c
  pop_for one c = to_page tjc_page_move_pop_2 c
  pop_for ten c = to_page tjc_page_move_pop_3 c
  pop_for other c = c

  unfoldable pub move_home_tips : Client → Client
  unfolding pop_for
  move_home_tips c = pop_for c.move_dist c

  unfoldable pub filament_tips : Client → Client
  filament_tips c =
      if c.screen.current_page_id == tjc_page_filament
      then to_page tjc_page_filament_pop c
      else if c.screen.current_page_id == tjc_page_print_filament
      then to_page tjc_page_filament_pop_3 c
      else c

  unfoldable pub move_tips : Client → Client
  move_tips c =
      let page = c.screen.current_page_id in
      if page == tjc_page_open_video_4
      then c
      else if page == tjc_page_move
      then to_page tjc_page_pop_1 c
      else if is_printing page
      then to_page tjc_page_pop_1 (calls (cancel_print ∷ []) c)
      else if page == tjc_page_auto_level
      then to_page tjc_page_pop_1 c
      else to_page tjc_page_pop_1 (to_page tjc_page_move c)

  unfoldable pub show_error : Client → Client
  show_error c =
      let d = to_page tjc_page_detect_error (light_again c) in
      record d { screen = write_all (send_cmd_txt (codes "t0") d.output_console ∷ []) d.screen }

  unfoldable pub detect_error : Client → Client
  detect_error c =
      let page = c.screen.current_page_id in
      if is_printing page || page == tjc_page_gcode_error
      then c
      else if bytes_eq c.webhooks_state (codes "shutdown")
          || bytes_eq c.webhooks_state (codes "error")
      then c
      else show_error c

  -- `// Klipper state: Ready`
  unfoldable pub klipper_ready : Client → Client
  klipper_ready c =
      record (calls
        (sleep 5 ∷ sub_object_status ∷ sleep 2 ∷ get_object_status ∷ init_mks_status ∷ []) c) {
          webhooks_state = codes "ready";
          idle_timeout_state = codes "Ready";
          webhooks_state_message = codes "Klipper state: Ready";
          all_level_saving = true;
        }

  -- `// metadata=`
  unfoldable pub print_from_web : Bytes → Client → Option Client
  print_from_web text c = do
    values ← parse text
    some (record (calls (parse_file_estimated_time_send values ∷ []) c) {
      output_metadata = some values;
      jump_to_print = true;
      print_stats_state = codes "printing";
    })

  -- The value of a setting that a line names: the first decimal number, or the old value.
  unfoldable pub decimal_or : Bytes → Bytes → Bytes
  decimal_or s old = elim (decimal s) [ none ↦ old | some d ↦ d ]

  -- The body of each branch.
  unfoldable pub respond : Line → Bytes → Client → Option Client
  respond ready p c = some (klipper_ready c)
  respond disconnect p c = some (calls (sub_object_status ∷ []) c)
  respond printed_only p c = some c
  respond must_home p c = some (move_home_tips c)
  respond extrude_below p c = some (filament_tips c)
  respond shaper_x p c = some (record c { shaper_freq_x = decimal_or (drop 31 p) c.shaper_freq_x })
  respond shaper_y p c = some (record c { shaper_freq_y = decimal_or (drop 31 p) c.shaper_freq_y })
  respond z_position p c = some (record c { manual_level_offset = level_offset_of p })
  respond out_of_range p c = some (move_tips c)
  respond mcu_shutdown p c = some (record c {
    webhooks_state_message = codes "Can not update MCU 'mcu' config as it is shutdown";
  })
  respond disk_full p c = some (to_page tjc_page_memory_warning c)
  respond error p c = some (detect_error (record c { output_console = p }))
  respond metadata p c = print_from_web (drop 12 p) c

  -- With the first entry of `params`; `none` is a null `params`.
  unfoldable pub parse_gcode_response : Option Bytes → Client → Option Client
  parse_gcode_response none c = some c
  parse_gcode_response (some p) c = respond (line_of p) p (wake c)
