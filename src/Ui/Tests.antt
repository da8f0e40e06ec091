-- ===== src/Ui/Tests.antt =====
-- Presses and checks on a concrete panel.
use qidi_plus.Base.{
  ℕ, ◌==◌, ◌++◌, ◌≡◌, refl, true, false, if◌then◌else◌, [], ◌∷◌, none, some, Bytes, codes, bytes_eq,
  contains, Option, none, get_or, not, ◌&&◌,
}
use qidi_plus.Screen.{
  page_to, write_all, tjc_page_main, tjc_page_printing, tjc_page_stop_print, tjc_page_preview,
  tjc_page_reset, tjc_page_sys_ok, tjc_page_level_print,
}
use qidi_plus.Ui.Buttons.Printing.{tjc_page_printing_btn_stop}
use qidi_plus.Files.Browser.{Browser}
use qidi_plus.Ui.Panel.{
  tenth, Effect, World, Flags, Panel, ◌▸◌, act, when, switch, goto, page, emit, show, set_flags,
  lookup,
}
use qidi_plus.Ui.Store.{get_mks_fila_status, ini_bool}
use qidi_plus.Ui.Print.{
  check_filament_type, material, start_printing, set_preview_complete, on_files,
}
use qidi_plus.Ui.Handler.{cases, tjc_event_clicked_handler}
use qidi_plus.Ui.Handler.Printing.{preview_clicked, printing_clicked}
use qidi_plus.Ui.Footprint.{among, notables}
use qidi_plus.Ui.Diagram.{press-page, press-quiet}
use qidi_plus.Ui.Diagram.Map.{exits, targets, diagram}
use qidi_plus.Ui.Started.{starts, preview-starts}
use qidi_plus.Ui.FirstRow.{refresh_first_button}
use qidi_plus.Ui.Network.{
  wlan0, connected, first_row, lock_row, turn_pictures, set_button, wifi_row,
  refresh_page_wifi_list,
}
use qidi_plus.Ui.Watch.{
  print_pages, prints, join_print, kept_pages, down, light_again, to_print, to_reset, show_message,
  watch_printer,
}
use qidi_plus.Ui.Watch.Follows.{watch-page, join_print-page}

abbrev no_answers : World
no_answers = record {
  server = λ _. none;
  disk = false;
  exists = λ _. false;
  update_found = false;
  eth0_ip = [];
  status_ssid = [];
  status_ip_address = [];
  wpa_state = codes "COMPLETED";
  scan_found = [];
  save_config_ok = true;
  device_answers = false;
  device_code = [];
  servers_after = 0;
  probe_start = [];
  version_file_soc = codes "V4.3.9";
  server_name = codes "aws";
  add_0_45 = λ t. t;
  sub_0_15 = λ t. t;
  below_5 = λ _. true;
  homing_origin_z = [];
  printed_minutes = 0;
  number_of = λ _. 0;
  boolean_of = λ _ default. default;
  to_lower = λ t. t;
  extruder_target = 0;
  heater_bed_target = 0;
  hot_target = 0;
  fan0_off = false;
  fan2_off = false;
  fan3_off = false;
  beep_off = false;
  caselight_is_0 = true;
  caselight_is_1 = false;
}

abbrev all_off : Flags
all_off = record {
  printing_keyboard_enabled = false;
  printing_wifi_keyboard_enabled = false;
  printer_ready = false;
  auto_level_button_enabled = false;
  auto_level_finished = false;
  manual_level_finished = false;
  all_level_saving = false;
  start_pre_auto_level = false;
  page_print_filament_extrude_restract_button = false;
  page_filament_extrude_button = false;
  page_filament_unload_button = false;
  load_mode = false;
  previous_filament_sensor_state = false;
  previous_caselight_value = false;
  preview_pop_1_on = false;
  preview_pop_2_on = false;
  level_mode_printing_is_printing_level = false;
  printer_bed_leveling_state = false;
  filament_detected = true;
  filament_enabled = false;
  is_paused = false;
  fila_status = false;
  oobe_enabled = false;
  syntony_finished = false;
  beep_status = false;
  led_status = false;
  ethernet = false;
  internet_enabled = false;
}

abbrev on_page : ℕ → Browser
on_page page = record {
  screen = record { current_page_id = page; previous_page_id = tjc_page_printing; sent = [] };
  pages = 0;
  current_pages = 0;
  folder_layers = 1;
  root_path = codes "gcodes/";
  path = [];
  previous_path = [];
  print_files_path = codes "/cube.gcode";
  path_stack = [] ∷ [];
  entries = [];
  list_name = [];
  list_show = [];
  jump_to_print = false;
  show_preview_complete = true;
  show_preview_gimage_completed = true;
  file_parse_finished = true;
  metadata_simage = [];
  metadata_gimage = [];
  metadata_requests = [];
}

-- A panel on a page, with the states of the server and of the print.
abbrev panel : ℕ → Bytes → Bytes → Panel
panel page webhooks stats = record {
  world = no_answers;
  files = on_page page;
  wifi = record { ssid_list = []; ssid_list_pages = 0; current_pages = 0; shown = [] };
  ssid_buttons = false ∷ false ∷ false ∷ false ∷ false ∷ [];
  heat = record {
    mks_extruder_target = 200;
    mks_heater_bed_target = 60;
    mks_hot_target = 40;
    filament_extruder = 200;
    auto_level_heater_bed = 60;
    sent = [];
  };
  flags = all_off;
  config = [];
  effects = [];
  printer_idle_timeout_state = [];
  printer_print_stats_state = stats;
  printer_print_stats_filename = codes "cube.gcode";
  printer_webhooks_state = webhooks;
  printer_webhooks_state_message = [];
  current_webhooks_state_message = [];
  babystep_value = [];
  previous_zoffset = [];
  user_token = [];
  tmp_username = [];
  get_wifi_name = [];
  current_connected_ssid_name = [];
  internet_ip = [];
  version_soc = [];
  local_soc_version = [];
  base_download_url = [];
  filament_type = [];
  filament_name = [];
  load_target = 0;
  level_mode = 0;
  filament_dist = 0;
  manual_level_count = 0;
  total_printed_minutes = 0;
  current_server_page = 0;
  total_server_count = 0;
  level_heater_bed_target = 0;
  level_extruder_target = 0;
  set_offset = tenth;
  move_dist = tenth;
  auto_level_dist = tenth;
}

-- A printer at rest.
abbrev idle : ℕ → Panel
idle page = panel page (codes "ready") (codes "standby")

-- The panel after a change of the page alone.
abbrev turned : ℕ → Panel → Panel
turned page p = record p { files = record p.files { screen = page_to page p.files.screen } }

press-page_example :
    among
      (page (turned tjc_page_stop_print (idle tjc_page_printing)))
      (tjc_page_printing ∷ targets (exits tjc_page_printing diagram) (idle tjc_page_printing))
    ≡ true
unfolding tjc_event_clicked_handler cases switch goto printing_clicked page_to write_all
press-page_example =
    press-page tjc_page_printing tjc_page_printing_btn_stop (idle tjc_page_printing)
      (turned tjc_page_stop_print (idle tjc_page_printing)) refl

press-quiet_example :
    notables (turned tjc_page_stop_print (idle tjc_page_printing)).effects
    ≡ notables (idle tjc_page_printing).effects
unfolding tjc_event_clicked_handler cases switch goto printing_clicked page_to write_all
press-quiet_example =
    press-quiet tjc_page_printing tjc_page_printing_btn_stop (idle tjc_page_printing)
      (turned tjc_page_stop_print (idle tjc_page_printing)) refl refl

-- A printer that is down.
abbrev broken : Panel
broken = panel tjc_page_printing (codes "shutdown") (codes "standby")

watch-page_example : page (turned tjc_page_reset broken) ≡ (
    if page broken == tjc_page_reset
    then if bytes_eq broken.printer_webhooks_state (codes "ready")
      then tjc_page_sys_ok
      else page broken
    else if among (page broken) kept_pages
    then page broken
    else if down broken
    then tjc_page_reset
    else page broken)
unfolding watch_printer when to_reset light_again show_message down goto ◌▸◌ page_to write_all
    bytes_eq
watch-page_example = watch-page broken (turned tjc_page_reset broken) refl

-- A print that was started elsewhere, seen from the main page.
abbrev away : Panel
away = panel tjc_page_main (codes "ready") (codes "printing")

abbrev joined_print : Panel
joined_print = record (turned tjc_page_preview away) { effects = Effect.sleep 5 ∷ [] }

join_print-page_example : page joined_print ≡ (
    if among (page away) print_pages
    then page away
    else if prints away
    then if away.files.jump_to_print
      then tjc_page_preview
      else if not away.flags.level_mode_printing_is_printing_level
      then tjc_page_preview
      else tjc_page_level_print
    else page away)
unfolding join_print when prints to_print light_again goto ◌▸◌ page_to write_all bytes_eq set_flags
    emit
join_print-page_example = join_print-page away joined_print refl

-- The print of the file that the preview shows.
abbrev previewed : Panel
previewed = idle tjc_page_preview

abbrev started : Panel
started = record (turned tjc_page_printing previewed) {
  files = record (turned tjc_page_printing previewed).files { show_preview_complete = false };
  printer_print_stats_state = codes "printing";
  effects = Effect.print_a_file (codes "/cube.gcode") ∷ [];
}

preview-starts_example :
    notables started.effects
    ≡ notables previewed.effects
      ++ (if starts previewed
          then Effect.print_a_file previewed.files.print_files_path ∷ []
          else [])
unfolding preview_clicked switch when goto ◌▸◌ act page_to write_all bytes_eq set_flags emit
    get_mks_fila_status ini_bool lookup start_printing check_filament_type material
    set_preview_complete on_files contains
preview-starts_example = preview-starts previewed started refl

-- An empty list of networks, with the interface up and none connected.
abbrev offline : Panel
offline = record (idle tjc_page_main) {
  world = record no_answers { exists = λ _. true; wpa_state = codes "INACTIVE" };
}

-- The state behind a refresh.
abbrev result : Option Panel → Panel
result none = offline
result (some q) = q

refresh_first_button_example :
    get_or (result (refresh_page_wifi_list offline)).ssid_buttons 0 false
    ≡ not (offline.wifi.current_pages == 0 && connected offline)
unfolding refresh_page_wifi_list wifi_row first_row lock_row turn_pictures set_button when show ◌▸◌
    act wlan0 connected bytes_eq
refresh_first_button_example =
    refresh_first_button false (false ∷ false ∷ false ∷ false ∷ []) offline
      (result (refresh_page_wifi_list offline)) refl refl refl
