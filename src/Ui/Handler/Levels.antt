-- ===== src/Ui/Handler/Levels.antt =====
-- src/ui.cpp: the cases of `tjc_event_clicked_handler` for the pages of the levelling.
use qidi_plus.Base.{true, false, not, ◌||◌, ◌==◌, [], ◌∷◌, codes, bytes_eq, ℕ}
use qidi_plus.Screen.{
  tjc_page_auto_level, tjc_page_filament, tjc_page_main, tjc_page_move, tjc_page_preview,
  tjc_page_print_filament, tjc_page_print_zoffset, tjc_page_printing,
}
use qidi_plus.Ui.Pages.{
  tjc_page_level_mode, tjc_page_leveling_null, tjc_page_auto_move, tjc_page_set_zoffset,
  tjc_page_language, tjc_page_change_zoffset, tjc_page_wait_pop, tjc_page_level_null_1,
  tjc_page_level_null_2, tjc_page_leveling_null_2, tjc_page_network_set,
}
use qidi_plus.Ui.Buttons.Levels.{
  tjc_page_level_mode_file, tjc_page_level_mode_home, tjc_page_level_mode_service,
  tjc_page_level_mode_move, tjc_page_level_mode_filament, tjc_page_level_mode_network,
  tjc_page_level_mode_auto_level, tjc_page_level_mode_manual_level, tjc_page_level_mode_zoffset,
  tjc_page_level_mode_set_zoffset, tjc_page_level_mode_syntony_move, tjc_page_level_mode_pid,
  tjc_page_leveling_null_btn_back, tjc_page_leveling_null_btn_file, tjc_page_leveling_null_btn_home,
  tjc_page_leveling_null_btn_service, tjc_page_leveling_null_enter, tjc_page_leveling_null_2_enter,
  tjc_page_leveling_null_2_back, tjc_page_auto_level_001, tjc_page_auto_level_0025,
  tjc_page_auto_level_005, tjc_page_auto_level_1, tjc_page_auto_level_up, tjc_page_auto_level_down,
  tjc_page_auto_level_enter, tjc_page_auto_finish_yes, tjc_page_print_f_pop_yes,
  tjc_page_set_zoffset_back, tjc_page_set_zoffset_home, tjc_page_set_zoffset_file,
  tjc_page_set_zoffset_service, tjc_page_set_zoffset_b1, tjc_page_set_zoffset_b2,
  tjc_page_set_zoffset_b3, tjc_page_set_zoffset_b4, tjc_page_set_zoffset_b5,
  tjc_page_set_zoffset_b6, tjc_page_set_zoffset_b7, tjc_page_set_zoffset_b8,
  tjc_page_set_zoffset_b9, tjc_page_set_zoffset_b10, tjc_page_set_zoffset_b11,
  tjc_page_set_zoffset_b12, tjc_page_set_zoffset_b13, tjc_page_set_zoffset_b14,
  tjc_page_set_zoffset_b15, tjc_page_set_zoffset_b16, tjc_page_change_zoffset_file,
  tjc_page_change_zoffset_home, tjc_page_change_zoffset_service, tjc_page_change_zoffset_back,
  tjc_page_change_zoffset_enter,
}
use qidi_plus.Ui.Panel.{
  Action, done, ◌▸◌, act, when, switch, goto, previous_page, show, emit, set_flags, Effect,
  hundredth, twentieth, tenth, one,
}
use qidi_plus.Ui.Motion.{set_move_dist}
use qidi_plus.Ui.Level.{
  busy, set_auto_level_dist, pre_auto_level_init, start_auto_level, finish_auto_level,
  pre_manual_level_init, pre_set_zoffset_init, start_auto_level_dist, go_to_syntony_move,
  save_current_zoffset,
}
use qidi_plus.Ui.Print.{open_list}
use qidi_plus.Ui.Network.{refresh_lan_model_frpc}
use qidi_plus.SendMsg.Control.{send_cmd_vis}

unfoldable pub level_mode_clicked : ℕ → Action
level_mode_clicked widget = switch widget (
    (
      tjc_page_level_mode_file,
      open_list ▸ emit Effect.subscribe_objects ▸ emit Effect.query_objects,
    )
    ∷ (
      tjc_page_level_mode_home,
      emit Effect.query_objects ▸ emit Effect.subscribe_objects ▸ goto tjc_page_main,
    )
    ∷ (
      tjc_page_level_mode_service,
      emit Effect.query_objects ▸ emit Effect.subscribe_objects ▸ goto tjc_page_language,
    )
    ∷ (
      tjc_page_level_mode_move,
      emit Effect.query_objects
          ▸ emit Effect.subscribe_objects
          ▸ set_move_dist tenth
          ▸ goto tjc_page_move,
    )
    ∷ (
      tjc_page_level_mode_filament,
      emit Effect.query_objects ▸ emit Effect.subscribe_objects ▸ goto tjc_page_filament,
    )
    ∷ (
      tjc_page_level_mode_network,
      emit Effect.query_objects
          ▸ emit Effect.subscribe_objects
          ▸ goto tjc_page_network_set
          ▸ refresh_lan_model_frpc,
    )
    ∷ (
      tjc_page_level_mode_auto_level,
      act (λ p. record p { level_mode = tjc_page_auto_level }) ▸ goto tjc_page_level_null_1,
    )
    ∷ (
      tjc_page_level_mode_manual_level,
      emit Effect.subscribe_objects ▸ emit Effect.query_objects ▸ goto tjc_page_leveling_null_2,
    )
    ∷ (tjc_page_level_mode_zoffset, emit Effect.query_objects ▸ goto tjc_page_set_zoffset)
    ∷ (
      tjc_page_level_mode_set_zoffset,
      act (λ p. record p { level_mode = tjc_page_set_zoffset })
          ▸ goto tjc_page_level_null_2
          ▸ show (send_cmd_vis (codes "t2") (codes "0") ∷ []),
    )
    ∷ (
      tjc_page_level_mode_syntony_move,
      emit Effect.subscribe_objects ▸ emit Effect.query_objects ▸ go_to_syntony_move,
    )
    ∷ (
      tjc_page_level_mode_pid,
      emit Effect.subscribe_objects ▸ emit Effect.query_objects ▸ goto tjc_page_wait_pop,
    )
    ∷ [])

unfoldable pub leveling_null_clicked : ℕ → Action
leveling_null_clicked widget = switch widget (
    (tjc_page_leveling_null_btn_back, goto tjc_page_level_mode)
    ∷ (tjc_page_leveling_null_btn_file, open_list ▸ emit Effect.query_objects)
    ∷ (tjc_page_leveling_null_btn_home, goto tjc_page_main)
    ∷ (tjc_page_leveling_null_btn_service, goto tjc_page_language)
    ∷ (
      tjc_page_leveling_null_enter,
      (λ p.
          switch p.level_mode
            ((
              tjc_page_auto_level,
              set_flags (λ f. record f { auto_level_button_enabled = true })
                  ▸ busy
                  ▸ pre_auto_level_init,
            )
              ∷ (tjc_page_set_zoffset, goto tjc_page_change_zoffset)
              ∷ [])
            p),
    )
    ∷ [])

unfoldable pub leveling_null_2_clicked : ℕ → Action
leveling_null_2_clicked widget = switch widget (
    (tjc_page_leveling_null_2_enter, busy ▸ pre_manual_level_init)
    ∷ (tjc_page_leveling_null_2_back, goto tjc_page_level_mode)
    ∷ [])

unfoldable pub auto_level_clicked : ℕ → Action
auto_level_clicked widget = switch widget (
    (tjc_page_auto_level_001, set_auto_level_dist hundredth)
    ∷ (tjc_page_auto_level_0025, set_auto_level_dist twentieth)
    ∷ (tjc_page_auto_level_005, set_auto_level_dist tenth)
    ∷ (tjc_page_auto_level_1, set_auto_level_dist one)
    ∷ (tjc_page_auto_level_up, start_auto_level_dist false)
    ∷ (tjc_page_auto_level_down, start_auto_level_dist true)
    ∷ (
      tjc_page_auto_level_enter,
      when (λ p. not (bytes_eq p.printer_idle_timeout_state (codes "Printing")))
          (goto tjc_page_auto_move ▸ save_current_zoffset ▸ start_auto_level) done,
    )
    ∷ [])

unfoldable pub auto_finish_clicked : ℕ → Action
auto_finish_clicked widget = switch widget (
    (
      tjc_page_auto_finish_yes,
      set_flags (λ f. record f { auto_level_button_enabled = false }) ▸ finish_auto_level,
    )
    ∷ [])

unfoldable pub print_f_pop_clicked : ℕ → Action
print_f_pop_clicked widget = switch widget (
    (
      tjc_page_print_f_pop_yes,
      when (λ p. previous_page p == tjc_page_printing || previous_page p == tjc_page_print_zoffset)
          (when (λ p. not p.flags.filament_detected) (goto tjc_page_print_filament)
            (goto tjc_page_print_filament))
          (when (λ p. previous_page p == tjc_page_preview)
            (when (λ p. not p.flags.filament_detected) (goto tjc_page_filament) done)
            (when (λ p. not p.flags.filament_detected) (goto tjc_page_print_filament)
              (goto tjc_page_print_filament))),
    )
    ∷ [])

unfoldable pub set_zoffset_clicked : ℕ → Action
set_zoffset_clicked widget = switch widget (
    (tjc_page_set_zoffset_back, goto tjc_page_level_mode)
    ∷ (tjc_page_set_zoffset_home, goto tjc_page_main)
    ∷ (tjc_page_set_zoffset_file, open_list ▸ emit Effect.query_objects)
    ∷ (tjc_page_set_zoffset_service, goto tjc_page_language)
    ∷ (tjc_page_set_zoffset_b1, done)
    ∷ (tjc_page_set_zoffset_b2, done)
    ∷ (tjc_page_set_zoffset_b3, done)
    ∷ (tjc_page_set_zoffset_b4, done)
    ∷ (tjc_page_set_zoffset_b5, done)
    ∷ (tjc_page_set_zoffset_b6, done)
    ∷ (tjc_page_set_zoffset_b7, done)
    ∷ (tjc_page_set_zoffset_b8, done)
    ∷ (tjc_page_set_zoffset_b9, done)
    ∷ (tjc_page_set_zoffset_b10, done)
    ∷ (tjc_page_set_zoffset_b11, done)
    ∷ (tjc_page_set_zoffset_b12, done)
    ∷ (tjc_page_set_zoffset_b13, done)
    ∷ (tjc_page_set_zoffset_b14, done)
    ∷ (tjc_page_set_zoffset_b15, done)
    ∷ (tjc_page_set_zoffset_b16, done)
    ∷ [])

unfoldable pub change_zoffset_clicked : ℕ → Action
change_zoffset_clicked widget = switch widget (
    (tjc_page_change_zoffset_file, open_list ▸ emit Effect.query_objects)
    ∷ (tjc_page_change_zoffset_home, goto tjc_page_main)
    ∷ (tjc_page_change_zoffset_service, goto tjc_page_language)
    ∷ (tjc_page_change_zoffset_back, goto tjc_page_leveling_null)
    ∷ (tjc_page_change_zoffset_enter, pre_set_zoffset_init)
    ∷ [])
