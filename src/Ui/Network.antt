-- ===== src/Ui/Network.antt =====
-- src/event.cpp, src/online_update.cpp, src/mks_wpa_cli.cpp: the pages of the network, the servers, the
-- device, the update over the network and the reset, and the other functions that leave the printer
-- alone.
use qidi_plus.Base.{
  ℕ, ◌+◌, ◌==◌, Bool, true, false, not, ◌||◌, ◌&&◌, if◌then◌else◌, [], ◌∷◌, ◌++◌, Option, some,
  ◌>>=◌, Bytes, codes, bytes_eq, to_string, get_or, set, ltb,
}
use qidi_plus.Screen.{tjc_page_main, tjc_page_reset, tjc_page_about, tjc_page_sys_ok}
use qidi_plus.SendMsg.Widget.{
  send_cmd_val, send_cmd_txt, send_cmd_picc, send_cmd_picc2, send_cmd_pco, send_cmd_pco2,
}
use qidi_plus.SendMsg.Control.{send_cmd_vis, send_cmd_tsw}
use qidi_plus.Wifi.Pages
use qidi_plus.Wifi.Pages.{WifiPages}
use qidi_plus.Ui.Pages.{
  tjc_page_updating, tjc_page_wifi_list_2, tjc_page_internet, tjc_page_wifi_save,
  tjc_page_print_log_s, tjc_page_print_log_f, tjc_page_server_set, tjc_page_search_server,
}
use qidi_plus.Ui.Panel.{Effect, Panel, Action, done, ◌▸◌, act, when, goto, show, emit, page}

unfoldable pub system : Bytes → Action
system command = emit (Effect.system command)

unfoldable pub connected : Panel → Bool
connected p = bytes_eq p.world.wpa_state (codes "COMPLETED")

unfoldable pub wlan0 : Panel → Bool
wlan0 p = p.world.exists (codes "/var/run/wpa_supplicant/wlan0")

-- The page for the cable, with its address.
unfoldable pub to_internet : Action
to_internet =
    act (λ p. record p { internet_ip = p.world.eth0_ip })
    ▸ goto tjc_page_internet
    ▸ (λ p. show (send_cmd_txt (codes "t0") p.internet_ip ∷ []) p)

unfoldable pub set_button : ℕ → Bool → Action
set_button i enabled = act (λ p. record p { ssid_buttons = set p.ssid_buttons i enabled })

-- The name of a row; the connected network stands in the first row of the first page.
unfoldable pub row_name : ℕ → Panel → Bytes
row_name i p =
    if p.wifi.current_pages == 0 && i == 0 && connected p
    then p.world.status_ssid
    else get_or p.wifi.shown i []

-- The picture and the button of the first row, which every turn of the loop sets.
unfoldable pub first_row : Action
first_row =
    when (λ p. p.wifi.current_pages == 0 && connected p)
      (show (send_cmd_picc (codes "wifi1") (codes "101") ∷ []) ▸ set_button 0 false)
      (show (send_cmd_picc (codes "wifi1") (codes "102") ∷ []) ▸ set_button 0 true)

unfoldable pub lock_row : ℕ → Action
lock_row i =
    let row = codes "wifi" ++ to_string (i + 1) in
    when (λ p. bytes_eq (get_or p.wifi.shown i []) [])
      (show (send_cmd_picc row (codes "358") ∷ send_cmd_picc2 row (codes "359") ∷ [])
        ▸ set_button i false)
      (show (send_cmd_picc row (codes "102") ∷ send_cmd_picc2 row (codes "323") ∷ [])
        ▸ set_button i true)

-- The pages are an `int`: the test against `pages - 1` is written with the sum.
unfoldable pub turn_pictures : Action
turn_pictures = λ p.
    show
      (send_cmd_picc (codes "b0") (
          codes (if p.wifi.ssid_list_pages == 0 || p.wifi.current_pages == 0 then "104" else "103"))
        ∷ send_cmd_picc (codes "b1") (
            codes (
              if p.wifi.ssid_list_pages == 0 || p.wifi.current_pages + 1 == p.wifi.ssid_list_pages
              then "106"
              else "105"))
        ∷ [])
      p

-- The body of the loop of `refresh_page_wifi_list`.
unfoldable pub wifi_row : ℕ → Action
wifi_row i =
    (λ p. show (send_cmd_txt (codes "t" ++ to_string (i + 1)) (row_name i p) ∷ []) p)
    ▸ first_row
    ▸ lock_row i
    ▸ turn_pictures

unfoldable pub refresh_page_wifi_list : Action
refresh_page_wifi_list =
    when wlan0 (wifi_row 0 ▸ wifi_row 1 ▸ wifi_row 2 ▸ wifi_row 3 ▸ wifi_row 4) done

unfoldable pub on_wifi : (WifiPages → Option WifiPages) → Action
on_wifi f p = f p.wifi >>= (λ w. some (record p { wifi = w }))

unfoldable pub scan_ssid_and_show : Action
scan_ssid_and_show =
    when wlan0
      ((λ p. on_wifi (Pages.scan_ssid_and_show p.world.scan_found) p)
        ▸ refresh_page_wifi_list
        ▸ show (send_cmd_vis (codes "gm0") (codes "0") ∷ []))
      to_internet

-- A button that turns the page of the networks.
unfoldable pub turn : (WifiPages → Bool) → (WifiPages → Option WifiPages) → Action
turn test f = when (λ p. test p.wifi) (on_wifi f ▸ refresh_page_wifi_list) done

unfoldable pub wifi_previous : Action
wifi_previous = turn (λ w. ltb 0 w.current_pages) Pages.previous

unfoldable pub wifi_next : Action
wifi_next = turn (λ w. ltb (w.current_pages + 1) w.ssid_list_pages) Pages.next

unfoldable pub get_wifi_list_ssid : ℕ → Action
get_wifi_list_ssid i = act (λ p. record p { get_wifi_name = get_or p.wifi.shown i [] })

-- The name of the connected network; it is kept for the state "INACTIVE" alone, since `strcmp` is 0
-- for equal texts.
unfoldable pub connected_name : Panel → Bytes
connected_name p =
    if connected p
    then p.world.status_ssid
    else if bytes_eq p.world.wpa_state (codes "INACTIVE")
    then p.current_connected_ssid_name
    else []

unfoldable pub go_to_network : Action
go_to_network =
    when wlan0
      (emit Effect.wpa_cli_open
        ▸ act (λ p. record p {
          ssid_buttons = false ∷ false ∷ false ∷ false ∷ false ∷ [];
          wifi = record p.wifi { ssid_list_pages = 0; current_pages = 0 };
          current_connected_ssid_name = connected_name p;
        })
        ▸ goto tjc_page_wifi_list_2
        ▸ scan_ssid_and_show)
      to_internet

-- src/mks_wpa_cli.cpp: `save_config_ok` says that the connection is open and that the answer to the
-- request is OK. The thread of the connection is apart.
unfoldable pub mks_save_config : Action
mks_save_config =
    emit Effect.wpa_cli_save
    ▸ when (λ p. p.world.save_config_ok)
        (system (codes "sync")
          ▸ when (λ p. page p == tjc_page_wifi_save)
              (emit (Effect.sleep 3) ▸ goto tjc_page_wifi_list_2) done)
        done

unfoldable pub wifi_save_config : Action
wifi_save_config = goto tjc_page_wifi_save ▸ mks_save_config ▸ emit (Effect.sleep 2)

unfoldable pub go_to_reset : Action
go_to_reset =
    when (λ p. bytes_eq p.printer_webhooks_state (codes "shutdown")) (goto tjc_page_reset)
      (goto tjc_page_sys_ok)

-- The four commands that colour the button for the update over the network.
unfoldable pub update_button : Bytes → Bytes → Bytes → Action
update_button touch picture colour = show (
    send_cmd_tsw (codes "b5") touch
    ∷ send_cmd_picc (codes "b5") picture
    ∷ send_cmd_pco (codes "b5") colour
    ∷ send_cmd_pco2 (codes "b5") colour
    ∷ [])

unfoldable pub go_to_about : Action
go_to_about =
    emit Effect.klippy_host_information
    ▸ goto tjc_page_about
    ▸ (λ p. show (send_cmd_txt (codes "t0") p.version_soc ∷ []) p)
    ▸ when (λ p. not p.flags.internet_enabled)
        (update_button (codes "0") (codes "332") (codes "38066"))
        (update_button (codes "1") (codes "132") (codes "65535"))

-- The version in the file of the installed program and the server's address, and the page that is
-- shown while a thread asks for the newest version.
unfoldable pub btn_online_update_click_handler : Action
btn_online_update_click_handler =
    goto tjc_page_search_server
    ▸ act (λ p. record p {
      local_soc_version = p.world.version_file_soc;
      base_download_url =
          codes "https://download_" ++ p.world.server_name ++ codes ".qidi3dprinter.com/QD_Plus3";
    })
    ▸ emit Effect.execute_version_check_event

-- The page of the progress; a thread downloads the update and installs it.
unfoldable pub btn_update_click_handler : Action
btn_update_click_handler =
    goto tjc_page_updating
    ▸ show (
        send_cmd_val (codes "j0") (codes "0")
        ∷ send_cmd_vis (codes "j0") (codes "1")
        ∷ send_cmd_vis (codes "t1") (codes "1")
        ∷ send_cmd_vis (codes "t2") (codes "1")
        ∷ [])
    ▸ emit Effect.execute_download_update_event

unfoldable pub go_to_server_set : ℕ → Action
go_to_server_set n =
    act (λ p. record p { current_server_page = n; total_server_count = 0 })
    ▸ when (λ p. p.flags.internet_enabled && connected p)
        (goto tjc_page_search_server
          ▸ emit (Effect.update_server 0)
          ▸ act (λ p. record p { total_server_count = p.world.servers_after }))
        done
    ▸ emit Effect.update_device
    ▸ goto tjc_page_server_set
    ▸ emit Effect.refresh_page_server_set

unfoldable pub device_shown : Action
device_shown =
    show (send_cmd_vis (codes "gm0") (codes "0") ∷ send_cmd_vis (codes "b1") (codes "1") ∷ [])

-- `device_answers` says that `update_device` returns 0.
unfoldable pub refresh_device_code : Action
refresh_device_code =
    show (send_cmd_vis (codes "b1") (codes "0") ∷ send_cmd_vis (codes "gm0") (codes "1") ∷ [])
    ▸ emit Effect.update_device
    ▸ when (λ p. p.world.device_answers)
        (when (λ p. bytes_eq p.world.device_code []) done
          ((λ p. show (send_cmd_txt (codes "t2") p.world.device_code ∷ []) p) ▸ device_shown))
        device_shown

unfoldable pub login_successed_page : Action
login_successed_page = show (
    send_cmd_vis (codes "t0") (codes "1")
    ∷ send_cmd_vis (codes "t1") (codes "1")
    ∷ send_cmd_vis (codes "b1") (codes "1")
    ∷ [])

unfoldable pub refresh_lan_model_frpc : Action
refresh_lan_model_frpc =
    when (λ p. not p.flags.internet_enabled) (system (codes "systemctl stop QIDILink-client")) done

unfoldable pub finish_tjc_update : Action
finish_tjc_update =
    when (λ p. p.world.exists (codes "/root/800_480.tft"))
      (system (codes "mv /root/800_480.tft /root/800_480.tft.bak; sync")) done

unfoldable pub restore_config : Action
restore_config =
    system (codes "rm /home/mks/gcode_files/.cache/*")
    ▸ system (codes "curl -X POST http://127.0.0.1:7125/server/history/reset_totals")
    ▸ system (codes "curl -X DELETE 'http://127.0.0.1:7125/server/history/job?all=true'")
    ▸ system (codes "rm /home/mks/gcode_files/.cache/*\n")
    ▸ system (
        codes
          "cp /home/mks/klipper_config/config.mksini.bak /home/mks/klipper_config/config.mksini\n")
    ▸ goto tjc_page_main

unfoldable pub print_log : Action
print_log =
    when (λ p. not p.world.disk) (goto tjc_page_print_log_f)
      (system (codes "mkdir /home/mks/gcode_files/sda1/QD_Log")
        ▸ system (
            codes
              "cp /home/mks/klipper_logs/klippy.log /home/mks/gcode_files/sda1/QD_Log/klippy.log\n")
        ▸ system (
            codes
              "cp /home/mks/klipper_logs/moonraker.log /home/mks/gcode_files/sda1/QD_Log/moonraker.log\n")
        ▸ goto tjc_page_print_log_s)
