-- ===== src/Ui/Handler/Popup.antt =====
-- src/ui.cpp: the cases of `tjc_event_clicked_handler` for the pages of the messages.
use qidi_plus.Base.{true, false, ◌==◌, [], ◌∷◌, codes, bytes_eq, ℕ}
use qidi_plus.Screen.{
  tjc_page_filament, tjc_page_main, tjc_page_move, tjc_page_print_filament, tjc_page_service,
  tjc_page_stopping,
}
use qidi_plus.Ui.Pages.{
  tjc_page_level_mode, tjc_page_set_zoffset, tjc_page_wifi_list_2, tjc_page_level_null_1,
  tjc_page_level_null_2,
}
use qidi_plus.Ui.Buttons.Popup.{
  tjc_page_disk_detect_2_home, tjc_page_disk_detect_2_tool, tjc_page_disk_detect_2_service,
  tjc_page_wifi_success_yes, tjc_page_wifi_failed_yes, tjc_page_wifi_keyboard_back,
  tjc_page_wifi_keyboard_enter, tjc_page_wait_pop_ok, tjc_page_filament_pop_3_ok,
  tjc_page_filament_pop_5_ok, tjc_page_level_null_1_down, tjc_page_level_null_1_up,
  tjc_page_level_null_1_on_off, tjc_page_level_null_1_back, tjc_page_level_null_1_enter,
  tjc_page_level_null_2_back, tjc_page_level_null_2_enter, tjc_page_detect_error_yes,
  tjc_page_gcode_error_yes,
}
use qidi_plus.Ui.Panel.{
  Action, done, ◌▸◌, when, switch, goto, previous_page, emit, set_flags, on_heat, Effect,
}
use qidi_plus.Ui.Motion.{switch_heater_bed}
use qidi_plus.Ui.Level.{busy, pre_auto_level_init}
use qidi_plus.Ui.Print.{cancel_print}
use qidi_plus.Ui.Network.{
  system, refresh_page_wifi_list, on_wifi, scan_ssid_and_show, wifi_save_config,
}
use qidi_plus.Heat.{set_auto_level_heater_bed_target}
use qidi_plus.Wifi.Pages.{set_page_wifi_ssid_list}

unfoldable pub disk_detect_2_clicked : ℕ → Action
disk_detect_2_clicked widget = switch widget (
    (tjc_page_disk_detect_2_home, goto tjc_page_main)
    ∷ (tjc_page_disk_detect_2_tool, goto tjc_page_move)
    ∷ (tjc_page_disk_detect_2_service, goto tjc_page_service)
    ∷ [])

unfoldable pub wifi_success_clicked : ℕ → Action
wifi_success_clicked widget = switch widget (
    (
      tjc_page_wifi_success_yes,
      wifi_save_config
          ▸ system (codes "dhcpcd wlan0")
          ▸ emit Effect.wpa_cli_close
          ▸ scan_ssid_and_show,
    )
    ∷ [])

unfoldable pub wifi_failed_clicked : ℕ → Action
wifi_failed_clicked widget = switch widget (
    (
      tjc_page_wifi_failed_yes,
      goto tjc_page_wifi_list_2 ▸ emit Effect.wpa_cli_close ▸ scan_ssid_and_show,
    )
    ∷ [])

unfoldable pub wifi_keyboard_clicked : ℕ → Action
wifi_keyboard_clicked widget = switch widget (
    (
      tjc_page_wifi_keyboard_back,
      goto tjc_page_wifi_list_2
          ▸ set_flags (λ f. record f { printing_wifi_keyboard_enabled = false })
          ▸ (λ p. on_wifi (set_page_wifi_ssid_list p.wifi.current_pages) p)
          ▸ refresh_page_wifi_list,
    )
    ∷ (tjc_page_wifi_keyboard_enter, done)
    ∷ [])

unfoldable pub wait_pop_clicked : ℕ → Action
wait_pop_clicked widget =
    switch widget ((tjc_page_wait_pop_ok, (λ p. goto (previous_page p) p)) ∷ [])

unfoldable pub filament_pop_3_clicked : ℕ → Action
filament_pop_3_clicked widget =
    switch widget ((tjc_page_filament_pop_3_ok, goto tjc_page_print_filament) ∷ [])

unfoldable pub filament_pop_5_clicked : ℕ → Action
filament_pop_5_clicked widget =
    switch widget ((tjc_page_filament_pop_5_ok, goto tjc_page_filament) ∷ [])

unfoldable pub filament_showdown_clicked : ℕ → Action
filament_showdown_clicked widget = switch widget ([])

unfoldable pub level_null_1_clicked : ℕ → Action
level_null_1_clicked widget = switch widget (
    (tjc_page_level_null_1_down, on_heat (set_auto_level_heater_bed_target false))
    ∷ (tjc_page_level_null_1_up, on_heat (set_auto_level_heater_bed_target true))
    ∷ (tjc_page_level_null_1_on_off, switch_heater_bed)
    ∷ (tjc_page_level_null_1_back, goto tjc_page_level_mode)
    ∷ (tjc_page_level_null_1_enter, goto tjc_page_level_null_2)
    ∷ [])

unfoldable pub level_null_2_clicked : ℕ → Action
level_null_2_clicked widget = switch widget (
    (
      tjc_page_level_null_2_back,
      when (λ p. p.level_mode == tjc_page_set_zoffset) (goto tjc_page_level_mode)
          (goto tjc_page_level_null_1),
    )
    ∷ (
      tjc_page_level_null_2_enter,
      when (λ p. bytes_eq p.printer_webhooks_state (codes "ready"))
          (when (λ p. p.level_mode == tjc_page_set_zoffset) (busy ▸ pre_auto_level_init)
            (set_flags (λ f. record f { auto_level_button_enabled = true })
              ▸ busy
              ▸ pre_auto_level_init))
          done,
    )
    ∷ [])

unfoldable pub detect_error_clicked : ℕ → Action
detect_error_clicked widget = switch widget ((tjc_page_detect_error_yes, goto tjc_page_main) ∷ [])

unfoldable pub gcode_error_clicked : ℕ → Action
gcode_error_clicked widget =
    switch widget ((tjc_page_gcode_error_yes, goto tjc_page_stopping ▸ cancel_print) ∷ [])
