-- ===== src/Ui/Panel.antt =====
-- src/event.cpp and src/ui.cpp: the globals that the buttons read and write, what a press sends out
-- of the program, and the sequence, the test and the table that the handlers are written with.
use qidi_plus.Base.{
  ℕ, ◌==◌, Bool, if◌then◌else◌, List, [], ◌∷◌, ◌++◌, map, Option, none, some, ◌>>=◌, Bytes, codes,
  bytes_eq, length, drop, to_string,
}
use qidi_plus.Screen.{page_to}
use qidi_plus.Files.Listing.{Reply}
use qidi_plus.Files.Browser.{Browser}
use qidi_plus.Wifi.Pages.{WifiPages}
use qidi_plus.Heat.{Heater, Targets}

-- The distances: 0, before a button has set one, and those of the buttons, 0.01, 0.05, 0.1, 1 and 10.
pub data Distance : Type 0 where
  still hundredth twentieth tenth one ten : Distance

-- `std::to_string` of the float.
unfoldable pub distance_text : Distance → Bytes
distance_text still = codes "0.000000"
distance_text hundredth = codes "0.010000"
distance_text twentieth = codes "0.050000"
distance_text tenth = codes "0.100000"
distance_text one = codes "1.000000"
distance_text ten = codes "10.000000"

-- What leaves the program, oldest first. A constructor that bears the name of a function of
-- src/event.cpp stands for a call of it whose body is not modelled; the two `execute_…` are the
-- threads that src/online_update.cpp starts.
pub data Effect : Type 0 where
  run_a_gcode : Bytes → Effect
  query_objects subscribe_objects klippy_host_information emergency_stop : Effect
  print_a_file : Bytes → Effect
  file_delete : Bytes → Effect
  system : Bytes → Effect
  sleep usleep : ℕ → Effect
  wpa_cli_open wpa_cli_close wpa_cli_save : Effect
  update_server : ℕ → Effect
  update_device refresh_page_server_set start_update : Effect
  execute_version_check_event execute_download_update_event : Effect
  set_bind_status : Bytes → Effect

-- What the program reads from outside while a press is handled: answers of the file server, the
-- network and the disk, the reports of the printer, and the floating-point texts of the offsets.
-- `add_0_45` and `sub_0_15` are `std::to_string (std::stof z + 0.45)` and `… - 0.15`, `below_5` is
-- `z > -5 && z < 5` for the number of a text. `version_file_soc` is the version in the file of the
-- installed program, `server_name` is `sys_set.server`. `number_of` and `boolean_of` are how the ini
-- library reads the text of an entry. Of the light and the fans, only the values that are compared
-- count.
pub record World : Type 0 where
  pub server : Bytes → Option Reply
  pub disk : Bool
  pub exists : Bytes → Bool
  pub update_found : Bool
  pub eth0_ip : Bytes
  pub status_ssid : Bytes
  pub status_ip_address : Bytes
  pub wpa_state : Bytes
  pub scan_found : List Bytes
  pub save_config_ok : Bool
  pub device_answers : Bool
  pub device_code : Bytes
  pub servers_after : ℕ
  pub probe_start : Bytes
  pub version_file_soc : Bytes
  pub server_name : Bytes
  pub add_0_45 : Bytes → Bytes
  pub sub_0_15 : Bytes → Bytes
  pub below_5 : Bytes → Bool
  pub homing_origin_z : Bytes
  pub printed_minutes : ℕ
  pub number_of : Bytes → ℕ
  pub boolean_of : Option Bytes → Bool → Bool
  pub to_lower : Bytes → Bytes
  pub extruder_target : ℕ
  pub heater_bed_target : ℕ
  pub hot_target : ℕ
  pub fan0_off : Bool
  pub fan2_off : Bool
  pub fan3_off : Bool
  pub beep_off : Bool
  pub caselight_is_0 : Bool
  pub caselight_is_1 : Bool

-- The switches and flags among the globals.
pub record Flags : Type 0 where
  pub printing_keyboard_enabled : Bool
  pub printing_wifi_keyboard_enabled : Bool
  pub printer_ready : Bool
  pub auto_level_button_enabled : Bool
  pub auto_level_finished : Bool
  pub manual_level_finished : Bool
  pub all_level_saving : Bool
  pub start_pre_auto_level : Bool
  pub page_print_filament_extrude_restract_button : Bool
  pub page_filament_extrude_button : Bool
  pub page_filament_unload_button : Bool
  pub load_mode : Bool
  pub previous_filament_sensor_state : Bool
  pub previous_caselight_value : Bool
  pub preview_pop_1_on : Bool
  pub preview_pop_2_on : Bool
  pub level_mode_printing_is_printing_level : Bool
  pub printer_bed_leveling_state : Bool
  pub filament_detected : Bool
  pub filament_enabled : Bool
  pub is_paused : Bool
  pub fila_status : Bool
  pub oobe_enabled : Bool
  pub syntony_finished : Bool
  pub beep_status : Bool
  pub led_status : Bool
  pub ethernet : Bool
  pub internet_enabled : Bool

-- The state. `config` is the configuration file, by `section:key`, the newest entry first.
pub record Panel : Type 0 where
  pub world : World
  pub files : Browser
  pub wifi : WifiPages
  pub ssid_buttons : List Bool
  pub heat : Targets
  pub flags : Flags
  pub config : List (Bytes × Bytes)
  pub effects : List Effect
  pub printer_idle_timeout_state : Bytes
  pub printer_print_stats_state : Bytes
  pub printer_print_stats_filename : Bytes
  pub printer_webhooks_state : Bytes
  pub printer_webhooks_state_message : Bytes
  pub current_webhooks_state_message : Bytes
  pub babystep_value : Bytes
  pub previous_zoffset : Bytes
  pub user_token : Bytes
  pub tmp_username : Bytes
  pub get_wifi_name : Bytes
  pub current_connected_ssid_name : Bytes
  pub internet_ip : Bytes
  pub version_soc : Bytes
  pub local_soc_version : Bytes
  pub base_download_url : Bytes
  pub filament_type : Bytes
  pub filament_name : Bytes
  pub load_target : ℕ
  pub level_mode : ℕ
  pub filament_dist : ℕ
  pub manual_level_count : ℕ
  pub total_printed_minutes : ℕ
  pub current_server_page : ℕ
  pub total_server_count : ℕ
  pub level_heater_bed_target : ℕ
  pub level_extruder_target : ℕ
  pub set_offset : Distance
  pub move_dist : Distance
  pub auto_level_dist : Distance

-- Undefined behaviour is `none`.
abbrev pub Action : Type 0
Action = Panel → Option Panel

abbrev pub done : Action
done p = some p

infixr 3 ◌▸◌
unfoldable pub ◌▸◌ : Action → Action → Action
(a ▸ b) p = a p >>= b

unfoldable pub act : (Panel → Panel) → Action
act f p = some (f p)

unfoldable pub when : (Panel → Bool) → Action → Action → Action
when test a b p = if test p then a p else b p

-- `switch`, where no case falls through.
unfoldable pub switch : ℕ → List (ℕ × Action) → Action
switch n [] = done
switch n ((label, a) ∷ rest) = if n == label then a else switch n rest

unfoldable pub goto : ℕ → Action
goto page_id p =
    some (record p { files = record p.files { screen = page_to page_id p.files.screen } })

abbrev pub page : Panel → ℕ
page p = p.files.screen.current_page_id

abbrev pub previous_page : Panel → ℕ
previous_page p = p.files.screen.previous_page_id

unfoldable pub show : List Bytes → Action
show commands p = some (record p {
  files = record p.files {
    screen = record p.files.screen { sent = p.files.screen.sent ++ commands };
  };
})

unfoldable pub emit : Effect → Action
emit e p = some (record p { effects = p.effects ++ e ∷ [] })

-- `ep->Send(json_run_a_gcode(…))`
unfoldable pub gcode : Bytes → Action
unfolding emit
gcode script = emit (run_a_gcode script)

unfoldable pub set_flags : (Flags → Flags) → Action
set_flags f p = some (record p { flags = f p.flags })

-- `mksini_load`, `mksini_set`, `mksini_save`, `mksini_free`, for a file that can be read and
-- written.
unfoldable pub ini_set : Bytes → Bytes → Action
ini_set key value p = some (record p { config = (key, value) ∷ p.config })

unfoldable pub lookup : Bytes → List (Bytes × Bytes) → Option Bytes
lookup key [] = none
lookup key ((k, v) ∷ rest) = if bytes_eq k key then some v else lookup key rest

-- `mksini_getstring`
unfoldable pub ini_get : Bytes → Bytes → Panel → Bytes
ini_get key default p = elim (lookup key p.config) [ none ↦ default | some v ↦ v ]

unfoldable pub heater_name : Heater → Bytes
heater_name Heater.extruder = codes "extruder"
heater_name Heater.heater_bed = codes "heater_bed"
heater_name Heater.hot = codes "hot"

-- src/KlippyGcodes.cpp: `set_heater_temp`
unfoldable pub set_heater_temp : Heater × ℕ → Bytes
set_heater_temp (heater, target) =
    codes "SET_HEATER_TEMPERATURE heater="
    ++ heater_name heater
    ++ codes " target="
    ++ to_string target

-- A button on the targets, and the targets that it sends as scripts.
unfoldable pub on_heat : (Targets → Targets) → Action
on_heat f p =
    let t = f p.heat in
    some (record p {
      heat = t;
      effects =
          p.effects
          ++ map (λ h. run_a_gcode (set_heater_temp h)) (drop (length p.heat.sent) t.sent);
    })
