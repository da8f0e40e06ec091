-- ===== src/Ui/Handler/Loading.antt =====
-- src/ui.cpp: the cases of `tjc_event_clicked_handler` for the pages of the sleep, the tests and the loading of filament.
use qidi_plus.Base.{true, false, ◌==◌, [], ◌∷◌, codes, bytes_eq, ℕ}
use qidi_plus.Screen.{
  tjc_page_filament, tjc_page_file_list_1, tjc_page_file_list_2, tjc_page_main,
  tjc_page_preview_pop_1, tjc_page_preview_pop_2, tjc_page_print_filament, tjc_page_printing,
  tjc_page_screen_sleep,
}
use qidi_plus.Ui.Pages.{
  tjc_page_open_language, tjc_page_null_2, tjc_page_syntony_finish, tjc_page_pre_heating_2,
  tjc_page_pre_unload, tjc_page_pre_load, tjc_page_loading, tjc_page_pre_heating_1,
}
use qidi_plus.Ui.Buttons.Loading.{
  tjc_page_open_heater_bed_down, tjc_page_open_heater_bed_up, tjc_page_open_heater_bed_on_off,
  tjc_page_open_heater_bed_next, tjc_page_open_pop_1_no, tjc_page_open_pop_1_yes,
  tjc_page_preview_pop_yes, tjc_page_preview_pop_no_pop, tjc_page_screen_sleep_enter,
  tjc_page_screen_sleep_exit, tjc_page_restore_config_yes, tjc_page_restore_config_no,
  tjc_page_print_log_yes, tjc_page_open_syntony_jump_out, tjc_page_syntony_move_jump_out,
  tjc_page_load_finish_yes, tjc_page_load_finish_retry, tjc_page_pre_heating_1_set_1,
  tjc_page_pre_heating_1_set_2, tjc_page_pre_heating_1_set_3, tjc_page_pre_heating_1_back,
  tjc_page_pre_unload_next, tjc_page_pre_unload_back, tjc_page_memory_warning_yes,
  tjc_page_pre_load_next, tjc_page_pre_load_back, tjc_page_unload_finish_yes,
  tjc_page_unload_finish_reload,
}
use qidi_plus.Ui.Panel.{
  Action, done, ◌▸◌, act, when, switch, goto, page, previous_page, emit, set_flags, on_heat, Effect,
}
use qidi_plus.Ui.Motion.{
  send_gcode, led_on_off, set_extruder_target, switch_heater_bed, filament_unload, filament_load,
}
use qidi_plus.Ui.Store.{set_mks_oobe_enabled}
use qidi_plus.Ui.Level.{busy}
use qidi_plus.Ui.Print.{on_files, refresh_files}
use qidi_plus.Ui.Network.{go_to_about, restore_config}
use qidi_plus.Heat.{set_auto_level_heater_bed_target}
use qidi_plus.Files.Browser.{refresh_page_files_list_1, refresh_page_files_list_2}

unfoldable pub open_heater_bed_clicked : ℕ → Action
open_heater_bed_clicked widget = switch widget (
    (tjc_page_open_heater_bed_down, on_heat (set_auto_level_heater_bed_target false))
    ∷ (tjc_page_open_heater_bed_up, on_heat (set_auto_level_heater_bed_target true))
    ∷ (tjc_page_open_heater_bed_on_off, switch_heater_bed)
    ∷ (tjc_page_open_heater_bed_next, goto tjc_page_null_2)
    ∷ [])

unfoldable pub open_pop_1_clicked : ℕ → Action
open_pop_1_clicked widget = switch widget (
    (tjc_page_open_pop_1_no, goto tjc_page_open_language)
    ∷ (tjc_page_open_pop_1_yes, goto tjc_page_main ▸ set_mks_oobe_enabled false)
    ∷ [])

unfoldable pub preview_pop_1_clicked : ℕ → Action
preview_pop_1_clicked widget = switch widget (
    (tjc_page_preview_pop_yes, goto tjc_page_printing)
    ∷ (
      tjc_page_preview_pop_no_pop,
      when (λ p. page p == tjc_page_preview_pop_1)
            (set_flags (λ f. record f { preview_pop_1_on = false }))
            (when (λ p. page p == tjc_page_preview_pop_2)
              (set_flags (λ f. record f { preview_pop_2_on = false })) done)
          ▸ goto tjc_page_printing,
    )
    ∷ [])

unfoldable pub screen_sleep_clicked : ℕ → Action
screen_sleep_clicked widget = switch widget (
    (
      tjc_page_screen_sleep_enter,
      goto tjc_page_screen_sleep
          ▸ when (λ p. p.world.caselight_is_1)
              (set_flags (λ f. record f { previous_caselight_value = true }) ▸ led_on_off)
              (set_flags (λ f. record f { previous_caselight_value = false })),
    )
    ∷ (
      tjc_page_screen_sleep_exit,
      when (λ p. previous_page p == tjc_page_file_list_1)
            ((λ p. goto (previous_page p) p)
              ▸ refresh_files
              ▸ on_files refresh_page_files_list_1
              ▸ emit Effect.query_objects)
            (when (λ p. previous_page p == tjc_page_file_list_2)
              ((λ p. goto (previous_page p) p)
                ▸ refresh_files
                ▸ on_files refresh_page_files_list_2
                ▸ emit Effect.query_objects)
              ((λ p. goto (previous_page p) p) ▸ emit Effect.query_objects))
          ▸ when (λ p. p.flags.previous_caselight_value)
              (led_on_off ▸ set_flags (λ f. record f { previous_caselight_value = false })) done,
    )
    ∷ [])

unfoldable pub restore_config_clicked : ℕ → Action
restore_config_clicked widget =
    switch widget (
      (tjc_page_restore_config_yes, restore_config)
      ∷ (tjc_page_restore_config_no, go_to_about)
      ∷ [])

unfoldable pub print_log_s_clicked : ℕ → Action
print_log_s_clicked widget = switch widget ((tjc_page_print_log_yes, go_to_about) ∷ [])

unfoldable pub open_syntony_clicked : ℕ → Action
open_syntony_clicked widget = switch widget (
    (
      tjc_page_open_syntony_jump_out,
      send_gcode (codes "SAVE_CONFIG\n") ▸ goto tjc_page_syntony_finish,
    )
    ∷ [])

unfoldable pub syntony_move_clicked : ℕ → Action
syntony_move_clicked widget = switch widget (
    (
      tjc_page_syntony_move_jump_out,
      send_gcode (codes "SAVE_CONFIG\n") ▸ goto tjc_page_syntony_finish,
    )
    ∷ [])

unfoldable pub load_finish_clicked : ℕ → Action
load_finish_clicked widget = switch widget (
    (
      tjc_page_load_finish_yes,
      when (λ p. bytes_eq p.printer_print_stats_state (codes "paused"))
            (goto tjc_page_print_filament) (goto tjc_page_filament)
          ▸ set_extruder_target 0,
    )
    ∷ (tjc_page_load_finish_retry, busy ▸ filament_load ▸ goto tjc_page_loading)
    ∷ [])

unfoldable pub pre_heating_1_clicked : ℕ → Action
pre_heating_1_clicked widget = switch widget (
    (
      tjc_page_pre_heating_1_set_1,
      act (λ p. record p { load_target = 220 })
          ▸ when (λ p. p.flags.load_mode) (goto tjc_page_pre_load) (goto tjc_page_pre_unload),
    )
    ∷ (
      tjc_page_pre_heating_1_set_2,
      act (λ p. record p { load_target = 250 })
          ▸ when (λ p. p.flags.load_mode) (goto tjc_page_pre_load) (goto tjc_page_pre_unload),
    )
    ∷ (
      tjc_page_pre_heating_1_set_3,
      act (λ p. record p { load_target = 300 })
          ▸ when (λ p. p.flags.load_mode) (goto tjc_page_pre_load) (goto tjc_page_pre_unload),
    )
    ∷ (
      tjc_page_pre_heating_1_back,
      when (λ p. bytes_eq p.printer_print_stats_state (codes "paused"))
          (goto tjc_page_print_filament) (goto tjc_page_filament),
    )
    ∷ [])

unfoldable pub pre_unload_clicked : ℕ → Action
pre_unload_clicked widget = switch widget (
    (tjc_page_pre_unload_next, busy ▸ filament_unload ▸ goto tjc_page_pre_heating_2)
    ∷ (tjc_page_pre_unload_back, goto tjc_page_pre_heating_1)
    ∷ [])

unfoldable pub memory_warning_clicked : ℕ → Action
memory_warning_clicked widget =
    switch widget ((tjc_page_memory_warning_yes, goto tjc_page_main) ∷ [])

unfoldable pub pre_load_clicked : ℕ → Action
pre_load_clicked widget = switch widget (
    (tjc_page_pre_load_next, busy ▸ filament_load ▸ goto tjc_page_pre_heating_2)
    ∷ (tjc_page_pre_load_back, goto tjc_page_pre_heating_1)
    ∷ [])

unfoldable pub unload_finish_clicked : ℕ → Action
unload_finish_clicked widget = switch widget (
    (
      tjc_page_unload_finish_yes,
      set_extruder_target 0
          ▸ when (λ p. bytes_eq p.printer_print_stats_state (codes "paused"))
              (goto tjc_page_print_filament) (goto tjc_page_filament),
    )
    ∷ (
      tjc_page_unload_finish_reload,
      busy ▸ set_flags (λ f. record f { load_mode = true }) ▸ goto tjc_page_pre_heating_1,
    )
    ∷ [])
