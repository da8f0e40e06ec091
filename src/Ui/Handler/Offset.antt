-- ===== src/Ui/Handler/Offset.antt =====
-- src/ui.cpp: the cases of `tjc_event_clicked_handler` for the pages of the offset of a print and the keyboards.
use qidi_plus.Base.{true, false, not, ◌||◌, ◌==◌, [], ◌∷◌, codes, ℕ}
use qidi_plus.Screen.{
  tjc_page_auto_level, tjc_page_filament, tjc_page_level_print, tjc_page_logo, tjc_page_main,
  tjc_page_move, tjc_page_print_filament, tjc_page_print_zoffset, tjc_page_printing,
  tjc_page_stop_print, tjc_page_stopping,
}
use qidi_plus.Ui.Pages.{tjc_page_level_mode, tjc_page_set_temp_level_kb}
use qidi_plus.Ui.Buttons.Offset.{
  tjc_page_print_zoffset_001, tjc_page_print_zoffset_01, tjc_page_print_zoffset_005,
  tjc_page_print_zoffset_1, tjc_page_print_zoffset_up, tjc_page_print_zoffset_down,
  tjc_page_print_zoffset_pause_resume, tjc_page_print_zoffset_stop, tjc_page_print_zoffset_back,
  tjc_page_print_keyboard_back, tjc_page_print_finish_yes, tjc_page_stop_print_yes,
  tjc_page_stop_print_no, tjc_page_set_zoffset_2_001, tjc_page_set_zoffset_2_005,
  tjc_page_set_zoffset_2_01, tjc_page_set_zoffset_2_1, tjc_page_set_zoffset_2_down,
  tjc_page_set_zoffset_2_up, tjc_page_set_zoffset_2_yes, tjc_page_keybdb_pause,
  tjc_page_keybdb_stop, tjc_page_keybdb_back, tjc_page_pop_1_yes, tjc_page_kb_filament_1_back,
  tjc_page_disk_detect_enter, tjc_page_updated_enter, tjc_page_set_temp_level_home,
  tjc_page_set_temp_level_file, tjc_page_set_temp_level_tool, tjc_page_set_temp_level_service,
  tjc_page_set_temp_level_back, tjc_page_set_temp_level_extruder, tjc_page_set_temp_level_hot_bed,
  tjc_page_set_temp_level_enter, tjc_page_level_stop, tjc_page_choose_model,
}
use qidi_plus.Ui.Panel.{
  Action, done, ◌▸◌, act, when, switch, goto, page, previous_page, set_flags, hundredth, twentieth,
  tenth, one,
}
use qidi_plus.Ui.Motion.{set_intern_zoffset, set_zoffset}
use qidi_plus.Ui.Level.{busy, set_auto_level_dist, start_auto_level_dist, save_current_zoffset}
use qidi_plus.Ui.Print.{
  set_print_pause, set_print_resume, cancel_print, finish_print, level_mode_printing_set_target,
  level_mode_printing_print_file,
}
use qidi_plus.Ui.Network.{finish_tjc_update}

unfoldable pub print_zoffset_clicked : ℕ → Action
print_zoffset_clicked widget = switch widget (
    (tjc_page_print_zoffset_001, set_intern_zoffset hundredth)
    ∷ (tjc_page_print_zoffset_01, set_intern_zoffset tenth)
    ∷ (tjc_page_print_zoffset_005, set_intern_zoffset twentieth)
    ∷ (tjc_page_print_zoffset_1, set_intern_zoffset one)
    ∷ (tjc_page_print_zoffset_up, set_zoffset false)
    ∷ (tjc_page_print_zoffset_down, set_zoffset true)
    ∷ (
      tjc_page_print_zoffset_pause_resume,
      set_flags (λ f. record f { printer_ready = false })
          ▸ set_print_pause
          ▸ goto tjc_page_print_filament,
    )
    ∷ (tjc_page_print_zoffset_stop, goto tjc_page_stop_print)
    ∷ (
      tjc_page_print_zoffset_back,
      set_flags (λ f. record f { printing_keyboard_enabled = false }) ▸ goto tjc_page_printing,
    )
    ∷ [])

unfoldable pub print_keyboard_clicked : ℕ → Action
print_keyboard_clicked widget = switch widget (
    (
      tjc_page_print_keyboard_back,
      goto tjc_page_printing ▸ set_flags (λ f. record f { printing_keyboard_enabled = false }),
    )
    ∷ [])

unfoldable pub print_finish_clicked : ℕ → Action
print_finish_clicked widget =
    switch widget ((tjc_page_print_finish_yes, finish_print ▸ goto tjc_page_main) ∷ [])

unfoldable pub stop_print_clicked : ℕ → Action
stop_print_clicked widget = switch widget (
    (tjc_page_stop_print_yes, busy ▸ goto tjc_page_stopping ▸ cancel_print)
    ∷ (tjc_page_stop_print_no, (λ p. goto (previous_page p) p))
    ∷ [])

unfoldable pub set_zoffset_2_clicked : ℕ → Action
set_zoffset_2_clicked widget = switch widget (
    (tjc_page_set_zoffset_2_001, set_auto_level_dist hundredth)
    ∷ (tjc_page_set_zoffset_2_005, set_auto_level_dist twentieth)
    ∷ (tjc_page_set_zoffset_2_01, set_auto_level_dist tenth)
    ∷ (tjc_page_set_zoffset_2_1, set_auto_level_dist one)
    ∷ (tjc_page_set_zoffset_2_down, start_auto_level_dist true)
    ∷ (tjc_page_set_zoffset_2_up, start_auto_level_dist false)
    ∷ (tjc_page_set_zoffset_2_yes, save_current_zoffset)
    ∷ [])

unfoldable pub keybdb_clicked : ℕ → Action
keybdb_clicked widget = switch widget (
    (
      tjc_page_keybdb_pause,
      when (λ p. not p.flags.is_paused) (set_print_pause ▸ goto tjc_page_print_filament)
          set_print_resume,
    )
    ∷ (tjc_page_keybdb_stop, goto tjc_page_stop_print)
    ∷ (tjc_page_keybdb_back, set_flags (λ f. record f { printing_keyboard_enabled = false }))
    ∷ [])

unfoldable pub pop_1_clicked : ℕ → Action
pop_1_clicked widget = switch widget (
    (
      tjc_page_pop_1_yes,
      when (λ p. previous_page p == tjc_page_move) (goto tjc_page_move)
          (when (λ p. previous_page p == tjc_page_auto_level) (goto tjc_page_main)
            (when
              (λ p.
                previous_page p == tjc_page_printing
                || page p == tjc_page_print_zoffset
                || page p == tjc_page_print_filament)
              (goto tjc_page_main) (λ p. goto (previous_page p) p))),
    )
    ∷ [])

unfoldable pub kb_filament_1_clicked : ℕ → Action
kb_filament_1_clicked widget =
    switch widget ((tjc_page_kb_filament_1_back, goto tjc_page_filament) ∷ [])

unfoldable pub disk_detect_clicked : ℕ → Action
disk_detect_clicked widget =
    switch widget ((tjc_page_disk_detect_enter, (λ p. goto (previous_page p) p)) ∷ [])

unfoldable pub updated_clicked : ℕ → Action
updated_clicked widget = switch widget (
    (
      tjc_page_updated_enter,
      when (λ p. previous_page p == tjc_page_logo) (finish_tjc_update ▸ goto tjc_page_main) done,
    )
    ∷ [])

unfoldable pub set_temp_level_clicked : ℕ → Action
set_temp_level_clicked widget = switch widget (
    (tjc_page_set_temp_level_home, done)
    ∷ (tjc_page_set_temp_level_file, done)
    ∷ (tjc_page_set_temp_level_tool, done)
    ∷ (tjc_page_set_temp_level_service, done)
    ∷ (tjc_page_set_temp_level_back, goto tjc_page_level_mode)
    ∷ (tjc_page_set_temp_level_extruder, goto tjc_page_set_temp_level_kb)
    ∷ (tjc_page_set_temp_level_hot_bed, goto tjc_page_set_temp_level_kb)
    ∷ (
      tjc_page_set_temp_level_enter,
      level_mode_printing_set_target
          ▸ set_flags (λ f. record f { level_mode_printing_is_printing_level = true })
          ▸ act (λ p. record p { printer_print_stats_state = codes "printing" })
          ▸ level_mode_printing_print_file
          ▸ goto tjc_page_level_print,
    )
    ∷ (tjc_page_level_print, done)
    ∷ (tjc_page_level_stop, done)
    ∷ (tjc_page_choose_model, done)
    ∷ [])
