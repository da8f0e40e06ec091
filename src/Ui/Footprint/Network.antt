-- ===== src/Ui/Footprint/Network.antt =====
-- The footprints of the functions of `Ui.Network`.
use qidi_plus.Base.{
  ℕ, List, Bool, Bytes, ◌≡◌, true, ◌∷◌, Option, some, >>=-eq-some, subst, some_inj, ap, sym,
}
use qidi_plus.Ui.Footprint.{Footprint, footprints, Footprint-at, among, among-here, notables}
use qidi_plus.Screen.{tjc_page_main, tjc_page_reset, tjc_page_about, tjc_page_sys_ok}
use qidi_plus.Ui.Pages.{
  tjc_page_updating, tjc_page_wifi_list_2, tjc_page_internet, tjc_page_wifi_save,
  tjc_page_print_log_s, tjc_page_print_log_f, tjc_page_server_set, tjc_page_search_server,
}
use qidi_plus.Ui.Panel.{Panel, page}
use qidi_plus.Ui.Network.{
  btn_online_update_click_handler, btn_update_click_handler, system, to_internet, set_button,
  first_row, lock_row, turn_pictures, wifi_row, refresh_page_wifi_list, on_wifi, scan_ssid_and_show,
  turn, wifi_previous, wifi_next, get_wifi_list_ssid, go_to_network, mks_save_config,
  wifi_save_config, go_to_reset, update_button, go_to_about, go_to_server_set, device_shown,
  refresh_device_code, login_successed_page, refresh_lan_model_frpc, finish_tjc_update,
  restore_config, print_log,
}
use qidi_plus.Wifi.Pages.{WifiPages}

pub Footprint-wifi :
    {l : List ℕ} {loud : Bool} (f : WifiPages → Option WifiPages) → Footprint l loud (on_wifi f)
unfolding on_wifi
Footprint-wifi {l} f = record {
  page_within = λ p q h.
      let (w, _, same) = >>=-eq-some (f p.wifi) (λ w. some (record p { wifi = w })) h in
      subst (λ r. among (page r) (page p ∷ l) ≡ true) (some_inj same) (among-here (page p) l);
  effects_within = λ p q h _.
      let (w, _, same) = >>=-eq-some (f p.wifi) (λ w. some (record p { wifi = w })) h in
      ap (λ r. notables r.effects) (sym (some_inj same));
}

pub Footprint-wifi_at :
    {l : List ℕ} {loud : Bool} (f : Panel → WifiPages → Option WifiPages)
    → Footprint l loud (λ p. on_wifi (f p) p)
Footprint-wifi_at f = Footprint-at (λ p. Footprint-wifi (f p))

ruleset wifi = (footprints, Footprint-wifi, Footprint-wifi_at)

first_row-Footprint : {l : List ℕ} {loud : Bool} → Footprint l loud first_row
unfolding first_row set_button
first_row-Footprint = search (footprints)

lock_row-Footprint : {l : List ℕ} {loud : Bool} (i : ℕ) → Footprint l loud (lock_row i)
unfolding lock_row set_button
lock_row-Footprint i = search (footprints)

wifi_row-Footprint : {l : List ℕ} {loud : Bool} (i : ℕ) → Footprint l loud (wifi_row i)
unfolding wifi_row turn_pictures
wifi_row-Footprint i = search (footprints, first_row-Footprint, lock_row-Footprint)

pub system-Footprint :
    {l : List ℕ} {loud : Bool} (command : Bytes) → Footprint l loud (system command)
unfolding system
system-Footprint command = search (footprints)

pub to_internet-Footprint :
    {l : List ℕ} {loud : Bool} → among tjc_page_internet l ≡ true → Footprint l loud to_internet
unfolding to_internet
to_internet-Footprint h0 = search (footprints)

pub set_button-Footprint :
    {l : List ℕ} {loud : Bool} (i : ℕ) (enabled : Bool) → Footprint l loud (set_button i enabled)
unfolding set_button
set_button-Footprint i enabled = search (footprints)

pub turn_pictures-Footprint : {l : List ℕ} {loud : Bool} → Footprint l loud turn_pictures
unfolding turn_pictures
turn_pictures-Footprint = search (footprints)

pub refresh_page_wifi_list-Footprint :
    {l : List ℕ} {loud : Bool} → Footprint l loud refresh_page_wifi_list
unfolding refresh_page_wifi_list
refresh_page_wifi_list-Footprint = search (footprints, wifi_row-Footprint) depth 9

pub scan_ssid_and_show-Footprint :
    {l : List ℕ} {loud : Bool}
    → among tjc_page_internet l ≡ true
    → Footprint l loud scan_ssid_and_show
unfolding scan_ssid_and_show on_wifi
scan_ssid_and_show-Footprint h0 =
    search (wifi, refresh_page_wifi_list-Footprint, to_internet-Footprint)

pub wifi_previous-Footprint : {l : List ℕ} {loud : Bool} → Footprint l loud wifi_previous
unfolding wifi_previous turn on_wifi
wifi_previous-Footprint = search (wifi, refresh_page_wifi_list-Footprint)

pub wifi_next-Footprint : {l : List ℕ} {loud : Bool} → Footprint l loud wifi_next
unfolding wifi_next turn on_wifi
wifi_next-Footprint = search (wifi, refresh_page_wifi_list-Footprint)

pub get_wifi_list_ssid-Footprint :
    {l : List ℕ} {loud : Bool} (i : ℕ) → Footprint l loud (get_wifi_list_ssid i)
unfolding get_wifi_list_ssid
get_wifi_list_ssid-Footprint i = search (footprints)

pub go_to_network-Footprint :
    {l : List ℕ} {loud : Bool}
    → among tjc_page_wifi_list_2 l ≡ true
    → among tjc_page_internet l ≡ true
    → Footprint l loud go_to_network
unfolding go_to_network
go_to_network-Footprint h0 h1 =
    search (footprints, scan_ssid_and_show-Footprint, to_internet-Footprint) depth 8

mks_save_config-Footprint :
    {l : List ℕ} {loud : Bool}
    → among tjc_page_wifi_list_2 l ≡ true
    → Footprint l loud mks_save_config
unfolding mks_save_config
mks_save_config-Footprint h0 = search (footprints, system-Footprint) depth 9

pub wifi_save_config-Footprint :
    {l : List ℕ} {loud : Bool}
    → among tjc_page_wifi_save l ≡ true
    → among tjc_page_wifi_list_2 l ≡ true
    → Footprint l loud wifi_save_config
unfolding wifi_save_config
wifi_save_config-Footprint h0 h1 = search (footprints, mks_save_config-Footprint) depth 9

pub go_to_reset-Footprint :
    {l : List ℕ} {loud : Bool}
    → among tjc_page_reset l ≡ true
    → among tjc_page_sys_ok l ≡ true
    → Footprint l loud go_to_reset
unfolding go_to_reset
go_to_reset-Footprint h0 h1 = search (footprints)

pub update_button-Footprint :
    {l : List ℕ} {loud : Bool} (touch : Bytes) (picture : Bytes) (colour : Bytes)
    → Footprint l loud (update_button touch picture colour)
unfolding update_button
update_button-Footprint touch picture colour = search (footprints)

pub go_to_about-Footprint :
    {l : List ℕ} {loud : Bool} → among tjc_page_about l ≡ true → Footprint l loud go_to_about
unfolding go_to_about
go_to_about-Footprint h0 = search (footprints, update_button-Footprint) depth 8

pub go_to_server_set-Footprint :
    {l : List ℕ} {loud : Bool} (n : ℕ)
    → among tjc_page_search_server l ≡ true
    → among tjc_page_server_set l ≡ true
    → Footprint l loud (go_to_server_set n)
unfolding go_to_server_set
go_to_server_set-Footprint n h0 h1 = search (footprints) depth 11

pub device_shown-Footprint : {l : List ℕ} {loud : Bool} → Footprint l loud device_shown
unfolding device_shown
device_shown-Footprint = search (footprints)

pub refresh_device_code-Footprint :
    {l : List ℕ} {loud : Bool} → Footprint l loud refresh_device_code
unfolding refresh_device_code
refresh_device_code-Footprint = search (footprints, device_shown-Footprint) depth 9

pub login_successed_page-Footprint :
    {l : List ℕ} {loud : Bool} → Footprint l loud login_successed_page
unfolding login_successed_page
login_successed_page-Footprint = search (footprints)

pub refresh_lan_model_frpc-Footprint :
    {l : List ℕ} {loud : Bool} → Footprint l loud refresh_lan_model_frpc
unfolding refresh_lan_model_frpc
refresh_lan_model_frpc-Footprint = search (footprints, system-Footprint)

pub finish_tjc_update-Footprint : {l : List ℕ} {loud : Bool} → Footprint l loud finish_tjc_update
unfolding finish_tjc_update
finish_tjc_update-Footprint = search (footprints, system-Footprint)

pub restore_config-Footprint :
    {l : List ℕ} {loud : Bool} → among tjc_page_main l ≡ true → Footprint l loud restore_config
unfolding restore_config
restore_config-Footprint h0 = search (footprints, system-Footprint) depth 9

pub print_log-Footprint :
    {l : List ℕ} {loud : Bool}
    → among tjc_page_print_log_f l ≡ true
    → among tjc_page_print_log_s l ≡ true
    → Footprint l loud print_log
unfolding print_log
print_log-Footprint h0 h1 = search (footprints, system-Footprint) depth 8

pub btn_online_update_click_handler-Footprint :
    {l : List ℕ} {loud : Bool}
    → among tjc_page_search_server l ≡ true
    → Footprint l loud btn_online_update_click_handler
unfolding btn_online_update_click_handler
btn_online_update_click_handler-Footprint h0 = search (footprints)

pub btn_update_click_handler-Footprint :
    {l : List ℕ} → among tjc_page_updating l ≡ true → Footprint l true btn_update_click_handler
unfolding btn_update_click_handler
btn_update_click_handler-Footprint h0 = search (footprints)

pub ruleset network_footprints = (
  btn_online_update_click_handler-Footprint, btn_update_click_handler-Footprint, system-Footprint,
  to_internet-Footprint, set_button-Footprint, turn_pictures-Footprint,
  refresh_page_wifi_list-Footprint, scan_ssid_and_show-Footprint, wifi_previous-Footprint,
  wifi_next-Footprint, get_wifi_list_ssid-Footprint, go_to_network-Footprint,
  wifi_save_config-Footprint, go_to_reset-Footprint, update_button-Footprint, go_to_about-Footprint,
  go_to_server_set-Footprint, device_shown-Footprint, refresh_device_code-Footprint,
  login_successed_page-Footprint, refresh_lan_model_frpc-Footprint, finish_tjc_update-Footprint,
  restore_config-Footprint, print_log-Footprint,
)
