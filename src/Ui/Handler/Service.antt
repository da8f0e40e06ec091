-- ===== src/Ui/Handler/Service.antt =====
-- src/ui.cpp: the cases of `tjc_event_clicked_handler` for the pages of the language, the service and the reset.
use qidi_plus.Base.{true, false, not, ◌&&◌, [], ◌∷◌, codes, bytes_eq, ℕ}
use qidi_plus.Screen.{tjc_page_main, tjc_page_move, tjc_page_restore_config, tjc_page_service}
use qidi_plus.Ui.Pages.{tjc_page_language, tjc_page_off_update_choose, tjc_page_no_offline_files}
use qidi_plus.Ui.Buttons.Service.{
  tjc_page_language_btn_file, tjc_page_language_btn_home, tjc_page_language_btn_tool,
  tjc_page_language_service, tjc_page_language_reset, tjc_page_language_about,
  tjc_page_service_btn_file, tjc_page_service_btn_home, tjc_page_service_btn_tool,
  tjc_page_service_language, tjc_page_service_reset, tjc_page_service_about,
  tjc_page_reset_btn_file, tjc_page_reset_btn_home, tjc_page_reset_btn_tool,
  tjc_page_reset_language, tjc_page_reset_service, tjc_page_reset_about,
  tjc_page_reset_restart_klipper, tjc_page_reset_firmware_restart, tjc_page_sys_ok_home,
  tjc_page_sys_ok_file, tjc_page_sys_ok_tool, tjc_page_sys_ok_language, tjc_page_sys_ok_service,
  tjc_page_sys_ok_about, tjc_page_about_s_btn, tjc_page_about_btn_file, tjc_page_about_btn_home,
  tjc_page_about_btn_tool, tjc_page_about_language, tjc_page_about_service, tjc_page_about_reset,
  tjc_page_about_offline_update, tjc_page_about_oobe, tjc_page_about_restore,
  tjc_page_about_print_log, tjc_page_about_online_update, tjc_page_about_sleep,
}
use qidi_plus.Ui.Panel.{Action, done, ◌▸◌, when, switch, goto, show, emit, Effect}
use qidi_plus.Ui.Motion.{reset_klipper, reset_firmware}
use qidi_plus.Ui.Store.{get_mks_oobe_enabled, set_mks_oobe_enabled}
use qidi_plus.Ui.Print.{open_list}
use qidi_plus.Ui.Network.{btn_online_update_click_handler, go_to_reset, go_to_about, print_log}
use qidi_plus.SendMsg.Widget.{send_cmd_picc}
use qidi_plus.SendMsg.Control.{send_cmd_vis}

unfoldable pub language_clicked : ℕ → Action
language_clicked widget = switch widget (
    (tjc_page_language_btn_file, open_list ▸ emit Effect.query_objects)
    ∷ (tjc_page_language_btn_home, goto tjc_page_main)
    ∷ (tjc_page_language_btn_tool, goto tjc_page_move)
    ∷ (tjc_page_language_service, goto tjc_page_service)
    ∷ (tjc_page_language_reset, go_to_reset)
    ∷ (tjc_page_language_about, go_to_about)
    ∷ [])

unfoldable pub service_clicked : ℕ → Action
service_clicked widget = switch widget (
    (
      tjc_page_service_btn_file,
      when
          (λ p.
            not (bytes_eq p.printer_webhooks_state (codes "shutdown"))
            && not (bytes_eq p.printer_webhooks_state (codes "error")))
          (open_list ▸ emit Effect.query_objects) done,
    )
    ∷ (
      tjc_page_service_btn_home,
      when
          (λ p.
            not (bytes_eq p.printer_webhooks_state (codes "shutdown"))
            && not (bytes_eq p.printer_webhooks_state (codes "error")))
          (emit Effect.query_objects ▸ goto tjc_page_main) done,
    )
    ∷ (
      tjc_page_service_btn_tool,
      when
          (λ p.
            not (bytes_eq p.printer_webhooks_state (codes "shutdown"))
            && not (bytes_eq p.printer_webhooks_state (codes "error")))
          (emit Effect.query_objects ▸ goto tjc_page_move) done,
    )
    ∷ (
      tjc_page_service_language,
      when
          (λ p.
            not (bytes_eq p.printer_webhooks_state (codes "shutdown"))
            && not (bytes_eq p.printer_webhooks_state (codes "error")))
          (emit Effect.query_objects ▸ goto tjc_page_language) done,
    )
    ∷ (tjc_page_service_reset, emit Effect.query_objects ▸ go_to_reset)
    ∷ (tjc_page_service_about, emit Effect.query_objects ▸ go_to_about)
    ∷ [])

unfoldable pub reset_clicked : ℕ → Action
reset_clicked widget = switch widget (
    (tjc_page_reset_btn_file, done)
    ∷ (tjc_page_reset_btn_home, done)
    ∷ (tjc_page_reset_btn_tool, done)
    ∷ (tjc_page_reset_language, done)
    ∷ (tjc_page_reset_service, goto tjc_page_service)
    ∷ (tjc_page_reset_about, go_to_about)
    ∷ (tjc_page_reset_restart_klipper, reset_klipper)
    ∷ (tjc_page_reset_firmware_restart, reset_firmware)
    ∷ [])

unfoldable pub sys_ok_clicked : ℕ → Action
sys_ok_clicked widget = switch widget (
    (tjc_page_sys_ok_home, emit Effect.query_objects ▸ goto tjc_page_main)
    ∷ (tjc_page_sys_ok_file, emit Effect.query_objects ▸ open_list ▸ emit Effect.query_objects)
    ∷ (tjc_page_sys_ok_tool, emit Effect.query_objects ▸ goto tjc_page_move)
    ∷ (tjc_page_sys_ok_language, emit Effect.query_objects ▸ goto tjc_page_language)
    ∷ (tjc_page_sys_ok_service, emit Effect.query_objects ▸ goto tjc_page_service)
    ∷ (tjc_page_sys_ok_about, emit Effect.query_objects ▸ go_to_about)
    ∷ [])

unfoldable pub about_clicked : ℕ → Action
about_clicked widget = switch widget (
    (tjc_page_about_s_btn, set_mks_oobe_enabled true)
    ∷ (
      tjc_page_about_btn_file,
      when
          (λ p.
            not (bytes_eq p.printer_webhooks_state (codes "shutdown"))
            && not (bytes_eq p.printer_webhooks_state (codes "error")))
          (open_list ▸ emit Effect.query_objects) done,
    )
    ∷ (
      tjc_page_about_btn_home,
      when
          (λ p.
            not (bytes_eq p.printer_webhooks_state (codes "shutdown"))
            && not (bytes_eq p.printer_webhooks_state (codes "error")))
          (goto tjc_page_main ▸ emit Effect.query_objects) done,
    )
    ∷ (
      tjc_page_about_btn_tool,
      when
          (λ p.
            not (bytes_eq p.printer_webhooks_state (codes "shutdown"))
            && not (bytes_eq p.printer_webhooks_state (codes "error")))
          (goto tjc_page_move ▸ emit Effect.query_objects) done,
    )
    ∷ (
      tjc_page_about_language,
      when
          (λ p.
            not (bytes_eq p.printer_webhooks_state (codes "shutdown"))
            && not (bytes_eq p.printer_webhooks_state (codes "error")))
          (goto tjc_page_language ▸ emit Effect.query_objects) done,
    )
    ∷ (
      tjc_page_about_service,
      when
          (λ p.
            not (bytes_eq p.printer_webhooks_state (codes "shutdown"))
            && not (bytes_eq p.printer_webhooks_state (codes "error")))
          (goto tjc_page_service ▸ emit Effect.query_objects) done,
    )
    ∷ (tjc_page_about_reset, go_to_reset)
    ∷ (
      tjc_page_about_offline_update,
      when (λ p. p.world.update_found) (goto tjc_page_off_update_choose)
          (goto tjc_page_no_offline_files),
    )
    ∷ (
      tjc_page_about_oobe,
      get_mks_oobe_enabled
          ▸ when (λ p. p.flags.oobe_enabled)
              (set_mks_oobe_enabled false
                ▸ show (send_cmd_picc (codes "b1") (codes "132") ∷ [])
                ▸ show (send_cmd_vis (codes "b1") (codes "0") ∷ []))
              (set_mks_oobe_enabled true
                ▸ show (send_cmd_picc (codes "b1") (codes "367") ∷ [])
                ▸ show (send_cmd_vis (codes "b1") (codes "1") ∷ [])),
    )
    ∷ (tjc_page_about_restore, goto tjc_page_restore_config)
    ∷ (tjc_page_about_print_log, print_log)
    ∷ (tjc_page_about_online_update, btn_online_update_click_handler)
    ∷ (tjc_page_about_sleep, go_to_about)
    ∷ [])
