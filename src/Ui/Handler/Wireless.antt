-- ===== src/Ui/Handler/Wireless.antt =====
-- src/ui.cpp: the cases of `tjc_event_clicked_handler` for the pages of the networks.
use qidi_plus.Base.{true, false, [], ◌∷◌, get_or, ℕ}
use qidi_plus.Screen.{tjc_page_filament, tjc_page_main, tjc_page_move}
use qidi_plus.Ui.Pages.{
  tjc_page_level_mode, tjc_page_wifi_list_2, tjc_page_internet, tjc_page_language,
  tjc_page_wifi_keyboard, tjc_page_network_set,
}
use qidi_plus.Ui.Buttons.Wireless.{
  tjc_page_wifi_list_2_btn_file, tjc_page_wifi_list_2_btn_home, tjc_page_wifi_list_2_btn_service,
  tjc_page_wifi_list_2_move, tjc_page_wifi_list_2_filament, tjc_page_wifi_list_2_auto_level,
  tjc_page_wifi_list_2_previous, tjc_page_wifi_list_2_next, tjc_page_wifi_list_2_ssid_1,
  tjc_page_wifi_list_2_ssid_2, tjc_page_wifi_list_2_ssid_3, tjc_page_wifi_list_2_ssid_4,
  tjc_page_wifi_list_2_ssid_5, tjc_page_wifi_list_2_refresh, tjc_page_wifi_list_2_ehtnet,
  tjc_page_wifi_list_2_back, tjc_page_keydba_home, tjc_page_keydba_file, tjc_page_keydba_service,
  tjc_page_keydba_back, tjc_page_internet_move, tjc_page_internet_filament,
  tjc_page_internet_auto_level, tjc_page_internet_btn_file, tjc_page_internet_btn_home,
  tjc_page_internet_btn_service, tjc_page_internet_wifi,
}
use qidi_plus.Ui.Panel.{Action, done, ◌▸◌, act, when, switch, goto, emit, set_flags, Effect}
use qidi_plus.Ui.Store.{set_mks_net_eth}
use qidi_plus.Ui.Print.{open_list}
use qidi_plus.Ui.Network.{
  scan_ssid_and_show, wifi_previous, wifi_next, get_wifi_list_ssid, refresh_lan_model_frpc,
}

unfoldable pub wifi_list_2_clicked : ℕ → Action
wifi_list_2_clicked widget = switch widget (
    (
      tjc_page_wifi_list_2_btn_file,
      open_list ▸ emit Effect.query_objects ▸ emit Effect.wpa_cli_close,
    )
    ∷ (tjc_page_wifi_list_2_btn_home, goto tjc_page_main ▸ emit Effect.wpa_cli_close)
    ∷ (tjc_page_wifi_list_2_btn_service, goto tjc_page_language ▸ emit Effect.wpa_cli_close)
    ∷ (tjc_page_wifi_list_2_move, goto tjc_page_move ▸ emit Effect.wpa_cli_close)
    ∷ (tjc_page_wifi_list_2_filament, goto tjc_page_filament ▸ emit Effect.wpa_cli_close)
    ∷ (tjc_page_wifi_list_2_auto_level, goto tjc_page_level_mode ▸ emit Effect.wpa_cli_close)
    ∷ (tjc_page_wifi_list_2_previous, wifi_previous)
    ∷ (tjc_page_wifi_list_2_next, wifi_next)
    ∷ (
      tjc_page_wifi_list_2_ssid_1,
      when (λ p. get_or p.ssid_buttons 0 false)
          (get_wifi_list_ssid 0
            ▸ set_flags (λ f. record f { printing_wifi_keyboard_enabled = true })
            ▸ goto tjc_page_wifi_keyboard)
          done,
    )
    ∷ (
      tjc_page_wifi_list_2_ssid_2,
      when (λ p. get_or p.ssid_buttons 1 false)
          (get_wifi_list_ssid 1
            ▸ set_flags (λ f. record f { printing_wifi_keyboard_enabled = true })
            ▸ goto tjc_page_wifi_keyboard)
          done,
    )
    ∷ (
      tjc_page_wifi_list_2_ssid_3,
      when (λ p. get_or p.ssid_buttons 2 false)
          (get_wifi_list_ssid 2
            ▸ set_flags (λ f. record f { printing_wifi_keyboard_enabled = true })
            ▸ goto tjc_page_wifi_keyboard)
          done,
    )
    ∷ (
      tjc_page_wifi_list_2_ssid_4,
      when (λ p. get_or p.ssid_buttons 3 false)
          (get_wifi_list_ssid 3
            ▸ set_flags (λ f. record f { printing_wifi_keyboard_enabled = true })
            ▸ goto tjc_page_wifi_keyboard)
          done,
    )
    ∷ (
      tjc_page_wifi_list_2_ssid_5,
      when (λ p. get_or p.ssid_buttons 4 false)
          (get_wifi_list_ssid 4
            ▸ set_flags (λ f. record f { printing_wifi_keyboard_enabled = true })
            ▸ goto tjc_page_wifi_keyboard)
          done,
    )
    ∷ (tjc_page_wifi_list_2_refresh, scan_ssid_and_show)
    ∷ (
      tjc_page_wifi_list_2_ehtnet,
      set_mks_net_eth
          ▸ act (λ p. record p { internet_ip = p.world.eth0_ip })
          ▸ goto tjc_page_internet,
    )
    ∷ (tjc_page_wifi_list_2_back, goto tjc_page_network_set ▸ refresh_lan_model_frpc)
    ∷ [])

unfoldable pub keydba_clicked : ℕ → Action
keydba_clicked widget = switch widget (
    (tjc_page_keydba_home, done)
    ∷ (tjc_page_keydba_file, done)
    ∷ (tjc_page_keydba_service, done)
    ∷ (
      tjc_page_keydba_back,
      set_flags (λ f. record f { printing_wifi_keyboard_enabled = false })
          ▸ goto tjc_page_wifi_list_2,
    )
    ∷ [])

unfoldable pub internet_clicked : ℕ → Action
internet_clicked widget = switch widget (
    (tjc_page_internet_move, goto tjc_page_move)
    ∷ (tjc_page_internet_filament, goto tjc_page_filament)
    ∷ (tjc_page_internet_auto_level, goto tjc_page_level_mode)
    ∷ (tjc_page_internet_btn_file, open_list ▸ emit Effect.query_objects)
    ∷ (tjc_page_internet_btn_home, goto tjc_page_main)
    ∷ (tjc_page_internet_btn_service, goto tjc_page_language)
    ∷ (tjc_page_internet_wifi, goto tjc_page_network_set ▸ refresh_lan_model_frpc)
    ∷ [])
