-- ===== src/Ui/Handler/Servers.antt =====
-- src/ui.cpp: the cases of `tjc_event_clicked_handler` for the pages of the servers and the link.
use qidi_plus.Base.{true, false, not, ◌+◌, ◌*◌, [], ◌∷◌, codes, bytes_eq, leb, contains, ℕ}
use qidi_plus.Screen.{tjc_page_filament, tjc_page_main, tjc_page_move}
use qidi_plus.Ui.Pages.{
  tjc_page_level_mode, tjc_page_language, tjc_page_network_set, tjc_page_server_set,
  tjc_page_search_server, tjc_page_qidi_link, tjc_page_qidi_link_login_success,
  tjc_page_qidi_link_log_out, tjc_page_offline_updating,
}
use qidi_plus.Ui.Buttons.Servers.{
  tjc_page_network_set_move, tjc_page_network_set_filament, tjc_page_network_set_auto_level,
  tjc_page_network_set_btn_file, tjc_page_network_set_btn_home, tjc_page_network_set_btn_service,
  tjc_page_network_set_ethernet, tjc_page_network_set_refresh, tjc_page_network_set_wifi_link,
  tjc_page_network_set_server, tjc_page_network_set_qidi_link, tjc_page_network_set_btn_lan,
  tjc_page_server_set_move, tjc_page_server_set_filament, tjc_page_server_set_auto_level,
  tjc_page_server_set_btn_file, tjc_page_server_set_btn_home, tjc_page_server_set_btn_service,
  tjc_page_server_set_back, tjc_page_server_set_refresh, tjc_page_server_set_1,
  tjc_page_server_set_2, tjc_page_server_set_3, tjc_page_server_set_4, tjc_page_server_set_5,
  tjc_page_online_update_next, tjc_page_online_update_back, tjc_page_qidi_link_move,
  tjc_page_qidi_link_filament, tjc_page_qidi_link_auto_level, tjc_page_qidi_link_btn_file,
  tjc_page_qidi_link_btn_home, tjc_page_qidi_link_btn_service, tjc_page_qidi_link_back,
  tjc_page_qidi_link_login_success_move, tjc_page_qidi_link_login_success_filament,
  tjc_page_qidi_link_login_success_auto_level, tjc_page_qidi_link_login_success_file,
  tjc_page_qidi_link_login_success_home, tjc_page_qidi_link_login_success_service,
  tjc_page_qidi_link_login_success_back, tjc_page_qidi_link_login_success_out,
  tjc_page_qidi_link_log_out_cancel, tjc_page_qidi_link_log_out_confirm,
  tjc_page_qidi_link_log_fail_move, tjc_page_qidi_link_log_fail_filament,
  tjc_page_qidi_link_log_fail_auto_level, tjc_page_qidi_link_log_fail_file,
  tjc_page_qidi_link_log_fail_home, tjc_page_qidi_link_log_fail_service,
  tjc_page_qidi_link_log_fail_back, tjc_page_off_update_choose_confirm,
  tjc_page_off_update_choose_cancle, tjc_page_no_offline_files_confirm,
}
use qidi_plus.Ui.Panel.{
  Action, done, ◌▸◌, act, when, switch, goto, show, emit, set_flags, ini_set, ini_get, Effect,
}
use qidi_plus.Ui.Store.{flag_text}
use qidi_plus.Ui.Print.{open_list}
use qidi_plus.Ui.Network.{
  btn_update_click_handler, system, go_to_network, go_to_about, go_to_server_set,
  refresh_device_code, login_successed_page, refresh_lan_model_frpc,
}
use qidi_plus.SendMsg.Widget.{
  send_cmd_txt, send_cmd_pic, send_cmd_picc, send_cmd_picc2, send_cmd_pco,
}
use qidi_plus.SendMsg.Control.{send_cmd_vis, send_cmd_tsw}

unfoldable pub network_set_clicked : ℕ → Action
network_set_clicked widget = switch widget (
    (tjc_page_network_set_move, goto tjc_page_move)
    ∷ (tjc_page_network_set_filament, goto tjc_page_filament)
    ∷ (tjc_page_network_set_auto_level, goto tjc_page_level_mode)
    ∷ (tjc_page_network_set_btn_file, open_list ▸ emit Effect.query_objects)
    ∷ (tjc_page_network_set_btn_home, goto tjc_page_main)
    ∷ (tjc_page_network_set_btn_service, goto tjc_page_language)
    ∷ (
      tjc_page_network_set_ethernet,
      (λ p. ini_set (codes "mks_ethernet:enable") (flag_text (not p.flags.ethernet)) p)
          ▸ set_flags (λ f. record f { ethernet = not f.ethernet })
          ▸ when (λ p. not p.flags.ethernet)
              ((λ p. show (send_cmd_txt (codes "t0") p.world.status_ip_address ∷ []) p)
                ▸ show (send_cmd_picc (codes "b0") (codes "454") ∷ [])
                ▸ show (send_cmd_picc2 (codes "b0") (codes "453") ∷ [])
                ▸ show (send_cmd_pic (codes "b[0]") (codes "453") ∷ []))
              (when (λ p. contains (codes ":") p.world.eth0_ip)
                  (show (send_cmd_txt (codes "t0") [] ∷ []))
                  (λ p. show (send_cmd_txt (codes "t0") p.world.eth0_ip ∷ []) p)
                ▸ show (send_cmd_picc (codes "b0") (codes "473") ∷ [])
                ▸ show (send_cmd_picc2 (codes "b0") (codes "472") ∷ [])
                ▸ show (send_cmd_pic (codes "b[0]") (codes "472") ∷ [])),
    )
    ∷ (tjc_page_network_set_refresh, refresh_device_code)
    ∷ (tjc_page_network_set_wifi_link, go_to_network)
    ∷ (tjc_page_network_set_server, go_to_server_set 0)
    ∷ (
      tjc_page_network_set_qidi_link,
      when (λ p. bytes_eq p.user_token [])
          (goto tjc_page_qidi_link ▸ show (send_cmd_vis (codes "gm0") (codes "1") ∷ []))
          (goto tjc_page_qidi_link_login_success
            ▸ act (λ p. record p { tmp_username = ini_get (codes "app:username") [] p })
            ▸ (λ p. show (send_cmd_txt (codes "t1") p.tmp_username ∷ []) p)
            ▸ login_successed_page),
    )
    ∷ (
      tjc_page_network_set_btn_lan,
      when (λ p. p.flags.internet_enabled)
          (show (send_cmd_vis (codes "gm0") (codes "0") ∷ [])
            ▸ show (send_cmd_tsw (codes "b1") (codes "0") ∷ [])
            ▸ show (send_cmd_tsw (codes "b3") (codes "0") ∷ [])
            ▸ show (send_cmd_tsw (codes "b4") (codes "0") ∷ [])
            ▸ show (send_cmd_picc (codes "b1") (codes "454") ∷ [])
            ▸ show (send_cmd_picc (codes "b3") (codes "454") ∷ [])
            ▸ show (send_cmd_picc (codes "b4") (codes "454") ∷ [])
            ▸ show (send_cmd_picc (codes "b5") (codes "456") ∷ [])
            ▸ show (send_cmd_picc2 (codes "b5") (codes "455") ∷ [])
            ▸ show (send_cmd_pco (codes "b3") (codes "33808") ∷ [])
            ▸ show (send_cmd_pco (codes "b4") (codes "33808") ∷ [])
            ▸ show (send_cmd_pco (codes "t1") (codes "33808") ∷ [])
            ▸ show (send_cmd_pco (codes "t2") (codes "33808") ∷ [])
            ▸ ini_set (codes "app_connection:method") (codes "false")
            ▸ set_flags (λ f. record f { internet_enabled = false })
            ▸ system (codes "systemctl stop QIDILink-client"))
          (show (send_cmd_tsw (codes "b1") (codes "1") ∷ [])
            ▸ show (send_cmd_tsw (codes "b3") (codes "1") ∷ [])
            ▸ show (send_cmd_tsw (codes "b4") (codes "1") ∷ [])
            ▸ show (send_cmd_picc (codes "b1") (codes "453") ∷ [])
            ▸ show (send_cmd_picc (codes "b3") (codes "453") ∷ [])
            ▸ show (send_cmd_picc (codes "b4") (codes "453") ∷ [])
            ▸ show (send_cmd_picc (codes "b5") (codes "455") ∷ [])
            ▸ show (send_cmd_picc2 (codes "b5") (codes "454") ∷ [])
            ▸ show (send_cmd_pco (codes "b3") (codes "65535") ∷ [])
            ▸ show (send_cmd_pco (codes "b4") (codes "65535") ∷ [])
            ▸ show (send_cmd_pco (codes "t1") (codes "65535") ∷ [])
            ▸ show (send_cmd_pco (codes "t2") (codes "65535") ∷ [])
            ▸ ini_set (codes "app_connection:method") (codes "true")
            ▸ set_flags (λ f. record f { internet_enabled = true })
            ▸ system (codes "systemctl restart QIDILink-client")),
    )
    ∷ [])

unfoldable pub server_set_clicked : ℕ → Action
server_set_clicked widget = switch widget (
    (tjc_page_server_set_move, goto tjc_page_move)
    ∷ (tjc_page_server_set_filament, goto tjc_page_filament)
    ∷ (tjc_page_server_set_auto_level, goto tjc_page_level_mode)
    ∷ (tjc_page_server_set_btn_file, open_list ▸ emit Effect.query_objects)
    ∷ (tjc_page_server_set_btn_home, goto tjc_page_main)
    ∷ (tjc_page_server_set_btn_service, goto tjc_page_language)
    ∷ (tjc_page_server_set_back, goto tjc_page_network_set ▸ refresh_lan_model_frpc)
    ∷ (tjc_page_server_set_refresh, go_to_server_set 0)
    ∷ (
      tjc_page_server_set_1,
      goto tjc_page_search_server
          ▸ when (λ p. leb (p.current_server_page * 5 + 1) p.total_server_count)
              (λ p. emit (Effect.update_server (p.current_server_page * 5 + 1)) p) done
          ▸ goto tjc_page_server_set,
    )
    ∷ (
      tjc_page_server_set_2,
      goto tjc_page_search_server
          ▸ when (λ p. leb (p.current_server_page * 5 + 2) p.total_server_count)
              (λ p. emit (Effect.update_server (p.current_server_page * 5 + 2)) p) done
          ▸ goto tjc_page_server_set,
    )
    ∷ (
      tjc_page_server_set_3,
      goto tjc_page_search_server
          ▸ when (λ p. leb (p.current_server_page * 5 + 3) p.total_server_count)
              (λ p. emit (Effect.update_server (p.current_server_page * 5 + 3)) p) done
          ▸ goto tjc_page_server_set,
    )
    ∷ (
      tjc_page_server_set_4,
      goto tjc_page_search_server
          ▸ when (λ p. leb (p.current_server_page * 5 + 4) p.total_server_count)
              (λ p. emit (Effect.update_server (p.current_server_page * 5 + 4)) p) done
          ▸ goto tjc_page_server_set,
    )
    ∷ (
      tjc_page_server_set_5,
      goto tjc_page_search_server
          ▸ when (λ p. leb (p.current_server_page * 5 + 5) p.total_server_count)
              (λ p. emit (Effect.update_server (p.current_server_page * 5 + 5)) p) done
          ▸ goto tjc_page_server_set,
    )
    ∷ [])

unfoldable pub online_update_clicked : ℕ → Action
online_update_clicked widget = switch widget (
    (tjc_page_online_update_next, btn_update_click_handler)
    ∷ (tjc_page_online_update_back, go_to_about)
    ∷ [])

unfoldable pub qidi_link_clicked : ℕ → Action
qidi_link_clicked widget = switch widget (
    (tjc_page_qidi_link_move, goto tjc_page_move)
    ∷ (tjc_page_qidi_link_filament, goto tjc_page_filament)
    ∷ (tjc_page_qidi_link_auto_level, goto tjc_page_level_mode)
    ∷ (tjc_page_qidi_link_btn_file, open_list ▸ emit Effect.query_objects)
    ∷ (tjc_page_qidi_link_btn_home, goto tjc_page_main)
    ∷ (tjc_page_qidi_link_btn_service, goto tjc_page_language)
    ∷ (tjc_page_qidi_link_back, goto tjc_page_network_set ▸ refresh_lan_model_frpc)
    ∷ [])

unfoldable pub qidi_link_login_success_clicked : ℕ → Action
qidi_link_login_success_clicked widget = switch widget (
    (tjc_page_qidi_link_login_success_move, goto tjc_page_move)
    ∷ (tjc_page_qidi_link_login_success_filament, goto tjc_page_filament)
    ∷ (tjc_page_qidi_link_login_success_auto_level, goto tjc_page_level_mode)
    ∷ (tjc_page_qidi_link_login_success_file, open_list ▸ emit Effect.query_objects)
    ∷ (tjc_page_qidi_link_login_success_home, goto tjc_page_main)
    ∷ (tjc_page_qidi_link_login_success_service, goto tjc_page_language)
    ∷ (tjc_page_qidi_link_login_success_back, goto tjc_page_network_set ▸ refresh_lan_model_frpc)
    ∷ (
      tjc_page_qidi_link_login_success_out,
      goto tjc_page_qidi_link_log_out ▸ emit (Effect.set_bind_status (codes "UNBOUND")),
    )
    ∷ [])

unfoldable pub qidi_link_log_out_clicked : ℕ → Action
qidi_link_log_out_clicked widget = switch widget (
    (
      tjc_page_qidi_link_log_out_cancel,
      act (λ p. record p { tmp_username = ini_get (codes "app:username") [] p })
          ▸ goto tjc_page_qidi_link_login_success
          ▸ (λ p. show (send_cmd_txt (codes "t1") p.tmp_username ∷ []) p)
          ▸ login_successed_page,
    )
    ∷ (
      tjc_page_qidi_link_log_out_confirm,
      goto tjc_page_qidi_link
          ▸ show (send_cmd_vis (codes "gm0") (codes "1") ∷ [])
          ▸ act (λ p. record p { user_token = [] })
          ▸ (λ p. ini_set (codes "app:token") p.user_token p)
          ▸ ini_set (codes "app:username") []
          ▸ ini_set (codes "app:avatar") []
          ▸ system (codes "systemctl stop QIDILink-client"),
    )
    ∷ [])

unfoldable pub qidi_link_log_fail_clicked : ℕ → Action
qidi_link_log_fail_clicked widget = switch widget (
    (tjc_page_qidi_link_log_fail_move, goto tjc_page_move)
    ∷ (tjc_page_qidi_link_log_fail_filament, goto tjc_page_filament)
    ∷ (tjc_page_qidi_link_log_fail_auto_level, goto tjc_page_level_mode)
    ∷ (tjc_page_qidi_link_log_fail_file, open_list ▸ emit Effect.query_objects)
    ∷ (tjc_page_qidi_link_log_fail_home, goto tjc_page_main)
    ∷ (tjc_page_qidi_link_log_fail_service, goto tjc_page_language)
    ∷ (tjc_page_qidi_link_log_fail_back, goto tjc_page_qidi_link)
    ∷ [])

unfoldable pub off_update_choose_clicked : ℕ → Action
off_update_choose_clicked widget = switch widget (
    (tjc_page_off_update_choose_confirm, goto tjc_page_offline_updating ▸ emit Effect.start_update)
    ∷ (tjc_page_off_update_choose_cancle, go_to_about)
    ∷ [])

unfoldable pub no_offline_files_clicked : ℕ → Action
no_offline_files_clicked widget =
    switch widget ((tjc_page_no_offline_files_confirm, go_to_about) ∷ [])
