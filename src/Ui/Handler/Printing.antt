-- ===== src/Ui/Handler/Printing.antt =====
-- src/ui.cpp: the cases of `tjc_event_clicked_handler` for the pages of the preview and a print.
use qidi_plus.Base.{true, false, not, ◌||◌, [], ◌∷◌, codes, bytes_eq, ℕ}
use qidi_plus.Screen.{
  tjc_page_delete_file, tjc_page_print_f_pop, tjc_page_print_filament, tjc_page_print_zoffset,
  tjc_page_printing, tjc_page_stop_print,
}
use qidi_plus.Ui.Pages.{tjc_page_pre_heating_1}
use qidi_plus.Ui.Buttons.Printing.{
  tjc_page_preview_btn_back, tjc_page_preview_btn_delete, tjc_page_preview_btn_start,
  tjc_page_preview_bed_leveling, tjc_page_printing_set_extruder, tjc_page_printing_set_heater_bed,
  tjc_page_printing_set_hot, tjc_page_printing_set_fan_0, tjc_page_printing_set_fan_1,
  tjc_page_printing_set_fan_3, tjc_page_printing_set_speed, tjc_page_printing_set_flow,
  tjc_page_printing_btn_z_offset, tjc_page_printing_btn_pause_resume, tjc_page_printing_btn_stop,
  tjc_page_printing_btn_light, tjc_page_print_filament_pause_resume, tjc_page_print_filament_stop,
  tjc_page_print_filament_target, tjc_page_print_filament_target_up,
  tjc_page_print_filament_target_down, tjc_page_print_filament_retract,
  tjc_page_print_filament_extrude, tjc_page_print_filament_10, tjc_page_print_filament_50,
  tjc_page_print_filament_100, tjc_page_print_filament_unload, tjc_page_print_filament_load,
}
use qidi_plus.Ui.Panel.{Action, done, ◌▸◌, act, when, switch, goto, set_flags, on_heat, twentieth}
use qidi_plus.Ui.Motion.{
  send_gcode, set_intern_zoffset, led_on_off, switch_extruder, set_print_filament_dist,
  start_extrude, filament_sensor_switch, bed_leveling_switch,
}
use qidi_plus.Ui.Store.{get_mks_fila_status}
use qidi_plus.Ui.Level.{busy}
use qidi_plus.Ui.Print.{
  leave_folder, clear_preview_image, clear_page_preview, set_jump_to_print, set_preview_complete,
  start_printing, set_print_pause, set_print_resume, check_filament_type,
}
use qidi_plus.Heat.{set_filament_extruder_target}

unfoldable pub preview_clicked : ℕ → Action
preview_clicked widget = switch widget (
    (
      tjc_page_preview_btn_back,
      when
          (λ p.
            bytes_eq p.printer_print_stats_state (codes "printing")
            || bytes_eq p.printer_print_stats_state (codes "paused"))
          (goto tjc_page_printing ▸ set_jump_to_print false)
          (when (λ p. not p.files.file_parse_finished)
            (leave_folder ▸ clear_page_preview ▸ set_preview_complete false ▸ clear_preview_image)
            (when (λ p. p.files.show_preview_complete)
              (leave_folder ▸ clear_page_preview ▸ set_preview_complete false ▸ clear_preview_image)
              done)),
    )
    ∷ (
      tjc_page_preview_btn_delete,
      when (λ p. p.files.show_preview_complete) (goto tjc_page_delete_file) done,
    )
    ∷ (
      tjc_page_preview_btn_start,
      when
          (λ p.
            bytes_eq p.printer_print_stats_state (codes "printing")
            || bytes_eq p.printer_print_stats_state (codes "paused"))
          (goto tjc_page_printing ▸ set_jump_to_print false)
          (when (λ p. p.files.show_preview_complete)
            (get_mks_fila_status
              ▸ when (λ p. p.flags.fila_status)
                  (when (λ p. p.flags.filament_detected)
                    (check_filament_type
                      ▸ act (λ p. record p { printer_print_stats_state = codes "printing" })
                      ▸ filament_sensor_switch true
                      ▸ start_printing)
                    (goto tjc_page_print_f_pop))
                  (start_printing
                    ▸ act (λ p. record p { printer_print_stats_state = codes "printing" })
                    ▸ check_filament_type)
              ▸ set_flags (λ f. record f { printer_ready = false })
              ▸ set_preview_complete false)
            done),
    )
    ∷ (
      tjc_page_preview_bed_leveling,
      when (λ p. p.flags.printer_bed_leveling_state) (bed_leveling_switch false)
          (when (λ p. not p.flags.printer_bed_leveling_state) (bed_leveling_switch true) done),
    )
    ∷ [])

unfoldable pub printing_clicked : ℕ → Action
printing_clicked widget = switch widget (
    (tjc_page_printing_set_extruder, set_flags (λ f. record f { printing_keyboard_enabled = true }))
    ∷ (
      tjc_page_printing_set_heater_bed,
      set_flags (λ f. record f { printing_keyboard_enabled = true }),
    )
    ∷ (tjc_page_printing_set_hot, set_flags (λ f. record f { printing_keyboard_enabled = true }))
    ∷ (tjc_page_printing_set_fan_0, set_flags (λ f. record f { printing_keyboard_enabled = true }))
    ∷ (tjc_page_printing_set_fan_1, set_flags (λ f. record f { printing_keyboard_enabled = true }))
    ∷ (tjc_page_printing_set_fan_3, set_flags (λ f. record f { printing_keyboard_enabled = true }))
    ∷ (tjc_page_printing_set_speed, set_flags (λ f. record f { printing_keyboard_enabled = true }))
    ∷ (tjc_page_printing_set_flow, set_flags (λ f. record f { printing_keyboard_enabled = true }))
    ∷ (tjc_page_printing_btn_z_offset, goto tjc_page_print_zoffset ▸ set_intern_zoffset twentieth)
    ∷ (
      tjc_page_printing_btn_pause_resume,
      set_flags (λ f. record f { printer_ready = false })
          ▸ set_print_pause
          ▸ goto tjc_page_print_filament,
    )
    ∷ (tjc_page_printing_btn_stop, goto tjc_page_stop_print)
    ∷ (tjc_page_printing_btn_light, led_on_off)
    ∷ [])

unfoldable pub print_filament_clicked : ℕ → Action
print_filament_clicked widget = switch widget (
    (
      tjc_page_print_filament_pause_resume,
      when (λ p. p.flags.filament_enabled)
          (when (λ p. p.flags.filament_detected)
            (set_flags (λ f. record f { printer_ready = false })
              ▸ set_print_resume
              ▸ goto tjc_page_printing)
            (goto tjc_page_print_f_pop))
          (set_flags (λ f. record f { printer_ready = false })
            ▸ set_print_resume
            ▸ goto tjc_page_printing),
    )
    ∷ (tjc_page_print_filament_stop, goto tjc_page_stop_print)
    ∷ (tjc_page_print_filament_target, switch_extruder)
    ∷ (tjc_page_print_filament_target_up, on_heat (set_filament_extruder_target true))
    ∷ (tjc_page_print_filament_target_down, on_heat (set_filament_extruder_target false))
    ∷ (
      tjc_page_print_filament_retract,
      busy
          ▸ set_flags (λ f. record f { page_print_filament_extrude_restract_button = true })
          ▸ send_gcode (codes "M603\n"),
    )
    ∷ (
      tjc_page_print_filament_extrude,
      busy
          ▸ set_flags (λ f. record f { page_print_filament_extrude_restract_button = true })
          ▸ set_print_filament_dist 50
          ▸ start_extrude,
    )
    ∷ (tjc_page_print_filament_10, set_print_filament_dist 10)
    ∷ (tjc_page_print_filament_50, set_print_filament_dist 50)
    ∷ (tjc_page_print_filament_100, set_print_filament_dist 100)
    ∷ (
      tjc_page_print_filament_unload,
      when (λ p. bytes_eq p.printer_print_stats_state (codes "paused"))
          (set_flags (λ f. record f { load_mode = false }) ▸ goto tjc_page_pre_heating_1) done,
    )
    ∷ (
      tjc_page_print_filament_load,
      when (λ p. bytes_eq p.printer_print_stats_state (codes "paused"))
          (set_flags (λ f. record f { load_mode = true }) ▸ goto tjc_page_pre_heating_1) done,
    )
    ∷ [])
