-- ===== src/Ui/Handler/Move.antt =====
-- src/ui.cpp: the cases of `tjc_event_clicked_handler` for the pages of the moves and the filament.
use qidi_plus.Base.{true, false, [], ◌∷◌, codes, bytes_eq, ℕ}
use qidi_plus.Screen.{tjc_page_filament, tjc_page_main, tjc_page_move}
use qidi_plus.Ui.Pages.{
  tjc_page_kb_filament_1, tjc_page_level_mode, tjc_page_language, tjc_page_unloading,
  tjc_page_pre_heating_1, tjc_page_network_set,
}
use qidi_plus.Ui.Buttons.Move.{
  tjc_page_move_btn_file, tjc_page_move_btn_home, tjc_page_move_btn_service, tjc_page_move_filament,
  tjc_page_move_level_mode, tjc_page_move_network, tjc_page_move_01, tjc_page_move_1,
  tjc_page_move_10, tjc_page_move_x_up, tjc_page_move_x_down, tjc_page_move_y_down,
  tjc_page_move_y_up, tjc_page_move_home, tjc_page_move_z_up, tjc_page_mvoe_z_down,
  tjc_page_move_btn_stop, tjc_page_move_m84, tjc_page_move_pop_1_yes, tjc_page_move_pop_1_no,
  tjc_page_filament_btn_file, tjc_page_filament_btn_home, tjc_page_filament_btn_service,
  tjc_page_filament_move, tjc_page_filament_autolevel, tjc_page_filament_network,
  tjc_page_filament_btn_10, tjc_page_filament_btn_50, tjc_page_filament_btn_100,
  tjc_page_filament_unload, tjc_page_filament_load, tjc_page_filament_btn_retract,
  tjc_page_filament_btn_extrude, tjc_page_filament_btn_extruder, tjc_page_filament_btn_heater_bed,
  tjc_page_filament_btn_hot, tjc_page_filament_btn_fan_1, tjc_page_filament_btn_fan_2,
  tjc_page_filament_btn_fan_3, tjc_page_filament_btn_filament_sensor, tjc_page_filament_btn_stop,
  tjc_page_filament_extruder, tjc_page_filament_heater_bed, tjc_page_filament_hot,
  tjc_page_filament_pop_yes, tjc_page_filament_pop_4_ok,
}
use qidi_plus.Ui.Panel.{
  Action, done, ◌▸◌, when, switch, goto, show, emit, set_flags, Effect, tenth, one, ten,
}
use qidi_plus.Ui.Motion.{
  set_move_dist, move_home, move_x_decrease, move_x_increase, move_y_decrease, move_y_increase,
  move_z_decrease, move_z_increase, move_motors_off, reset_firmware, filament_fan0, filament_fan2,
  filament_fan3, switch_extruder, switch_heater_bed, switch_hot, set_print_filament_dist,
  start_retract, start_extrude, filament_unload,
}
use qidi_plus.Ui.Store.{set_filament_sensor}
use qidi_plus.Ui.Level.{busy}
use qidi_plus.Ui.Print.{open_list}
use qidi_plus.Ui.Network.{refresh_lan_model_frpc}
use qidi_plus.SendMsg.Widget.{send_cmd_pic}

unfoldable pub move_clicked : ℕ → Action
move_clicked widget = switch widget (
    (tjc_page_move_btn_file, open_list ▸ emit Effect.query_objects)
    ∷ (tjc_page_move_btn_home, goto tjc_page_main)
    ∷ (tjc_page_move_btn_service, goto tjc_page_language)
    ∷ (tjc_page_move_filament, goto tjc_page_filament)
    ∷ (tjc_page_move_level_mode, goto tjc_page_level_mode)
    ∷ (tjc_page_move_network, goto tjc_page_network_set ▸ refresh_lan_model_frpc)
    ∷ (tjc_page_move_01, set_move_dist tenth)
    ∷ (tjc_page_move_1, set_move_dist one)
    ∷ (tjc_page_move_10, set_move_dist ten)
    ∷ (tjc_page_move_x_up, move_x_increase)
    ∷ (tjc_page_move_x_down, move_x_decrease)
    ∷ (tjc_page_move_y_down, move_y_increase)
    ∷ (tjc_page_move_y_up, move_y_decrease)
    ∷ (tjc_page_move_home, move_home)
    ∷ (tjc_page_move_z_up, move_z_decrease)
    ∷ (tjc_page_mvoe_z_down, move_z_increase)
    ∷ (tjc_page_move_btn_stop, done)
    ∷ (tjc_page_move_m84, move_motors_off)
    ∷ [])

unfoldable pub move_pop_1_clicked : ℕ → Action
move_pop_1_clicked widget = switch widget (
    (tjc_page_move_pop_1_yes, move_home ▸ goto tjc_page_move ▸ set_move_dist tenth)
    ∷ (tjc_page_move_pop_1_no, goto tjc_page_move ▸ set_move_dist tenth)
    ∷ [])

unfoldable pub filament_clicked : ℕ → Action
filament_clicked widget = switch widget (
    (tjc_page_filament_btn_file, open_list ▸ emit Effect.query_objects)
    ∷ (tjc_page_filament_btn_home, goto tjc_page_main)
    ∷ (tjc_page_filament_btn_service, goto tjc_page_language)
    ∷ (tjc_page_filament_move, goto tjc_page_move)
    ∷ (tjc_page_filament_autolevel, goto tjc_page_level_mode)
    ∷ (tjc_page_filament_network, goto tjc_page_network_set ▸ refresh_lan_model_frpc)
    ∷ (tjc_page_filament_btn_10, set_print_filament_dist 10)
    ∷ (tjc_page_filament_btn_50, set_print_filament_dist 50)
    ∷ (tjc_page_filament_btn_100, set_print_filament_dist 100)
    ∷ (
      tjc_page_filament_unload,
      move_motors_off
          ▸ set_flags (λ f. record f { load_mode = false })
          ▸ goto tjc_page_pre_heating_1,
    )
    ∷ (
      tjc_page_filament_load,
      move_motors_off
          ▸ set_flags (λ f. record f { load_mode = true })
          ▸ goto tjc_page_pre_heating_1,
    )
    ∷ (
      tjc_page_filament_btn_retract,
      busy
          ▸ set_flags (λ f. record f { page_filament_extrude_button = true })
          ▸ when (λ p. p.flags.filament_enabled)
              (set_filament_sensor
                ▸ set_flags (λ f. record f { previous_filament_sensor_state = true })
                ▸ start_retract)
              start_retract,
    )
    ∷ (
      tjc_page_filament_btn_extrude,
      busy
          ▸ set_flags (λ f. record f { page_filament_extrude_button = true })
          ▸ when (λ p. p.flags.filament_enabled)
              (set_filament_sensor
                ▸ set_flags (λ f. record f { previous_filament_sensor_state = true })
                ▸ start_extrude)
              start_extrude,
    )
    ∷ (tjc_page_filament_btn_extruder, goto tjc_page_kb_filament_1)
    ∷ (tjc_page_filament_btn_heater_bed, goto tjc_page_kb_filament_1)
    ∷ (tjc_page_filament_btn_hot, goto tjc_page_kb_filament_1)
    ∷ (tjc_page_filament_btn_fan_1, filament_fan0)
    ∷ (tjc_page_filament_btn_fan_2, filament_fan2)
    ∷ (tjc_page_filament_btn_fan_3, filament_fan3)
    ∷ (tjc_page_filament_btn_filament_sensor, set_filament_sensor)
    ∷ (tjc_page_filament_btn_stop, reset_firmware)
    ∷ (tjc_page_filament_extruder, switch_extruder)
    ∷ (tjc_page_filament_heater_bed, switch_heater_bed)
    ∷ (tjc_page_filament_hot, switch_hot)
    ∷ [])

unfoldable pub filament_pop_clicked : ℕ → Action
filament_pop_clicked widget = switch widget (
    (
      tjc_page_filament_pop_yes,
      set_flags (λ f. record f { page_filament_extrude_button = false })
          ▸ set_flags (λ f. record f { page_filament_unload_button = false })
          ▸ goto tjc_page_filament,
    )
    ∷ [])

unfoldable pub filament_pop_4_clicked : ℕ → Action
filament_pop_4_clicked widget = switch widget (
    (
      tjc_page_filament_pop_4_ok,
      busy
          ▸ filament_unload
          ▸ when (λ p. bytes_eq p.printer_print_stats_state (codes "paused"))
              (show (send_cmd_pic (codes "unloading.b[0]") (codes "438") ∷ []))
              (show (send_cmd_pic (codes "unloading.b[0]") (codes "429") ∷ []))
          ▸ goto tjc_page_unloading,
    )
    ∷ [])
