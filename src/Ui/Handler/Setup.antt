-- ===== src/Ui/Handler/Setup.antt =====
-- src/ui.cpp: the cases of `tjc_event_clicked_handler` for the pages of the first start.
use qidi_plus.Base.{true, false, not, ◌||◌, [], ◌∷◌, codes, bytes_eq, ℕ}
use qidi_plus.Screen.{tjc_page_main}
use qidi_plus.Ui.Pages.{
  tjc_page_open_levelinit, tjc_page_open_leveling, tjc_page_more_level, tjc_page_open_video_1,
  tjc_page_open_video_2, tjc_page_open_video_3, tjc_page_filament_video_1,
  tjc_page_filament_video_2, tjc_page_filament_video_3, tjc_page_open_pop_1,
}
use qidi_plus.Ui.Buttons.Setup.{
  tjc_page_open_language_next, tjc_page_open_language_skip, tjc_page_open_video_1_right,
  tjc_page_open_video_2_right, tjc_page_open_video_3_right, tjc_page_open_video_4_up,
  tjc_page_open_video_4_down, tjc_page_open_video_4_next, tjc_page_open_level_001,
  tjc_page_open_level_005, tjc_page_open_level_01, tjc_page_open_level__1, tjc_page_open_level_up,
  tjc_page_open_level_down, tjc_page_open_level_enter, tjc_page_open_leveled_finish,
  tjc_page_null_2_back, tjc_page_null_2_enter, tjc_page_filament_video_1_right,
  tjc_page_filament_video_2_decrease, tjc_page_filament_video_2_increase,
  tjc_page_filament_video_2_right, tjc_page_filament_video_2_target,
  tjc_page_filament_video_3_extrude, tjc_page_filament_video_3_next, tjc_page_more_level_finish,
  tjc_page_more_level_print, tjc_page_more_level_plu_back, tjc_page_more_level_plu_enter,
}
use qidi_plus.Ui.Panel.{
  Action, done, ◌▸◌, when, switch, goto, emit, set_flags, on_heat, Effect, hundredth, twentieth,
  tenth, one,
}
use qidi_plus.Ui.Motion.{send_gcode, switch_extruder, open_start_extrude, open_down_50}
use qidi_plus.Ui.Level.{
  busy, set_auto_level_dist, pre_open_auto_level_init, start_auto_level, start_auto_level_dist,
  open_go_to_syntony_move, open_more_level_finish, open_heater_bed_up, save_current_zoffset,
}
use qidi_plus.Heat.{set_filament_extruder_target}

unfoldable pub open_language_clicked : ℕ → Action
open_language_clicked widget = switch widget (
    (tjc_page_open_language_next, goto tjc_page_open_video_1)
    ∷ (tjc_page_open_language_skip, goto tjc_page_open_pop_1)
    ∷ [])

unfoldable pub open_video_1_clicked : ℕ → Action
open_video_1_clicked widget =
    switch widget ((tjc_page_open_video_1_right, goto tjc_page_open_video_2) ∷ [])

unfoldable pub open_video_2_clicked : ℕ → Action
open_video_2_clicked widget =
    switch widget ((tjc_page_open_video_2_right, goto tjc_page_open_video_3) ∷ [])

unfoldable pub open_video_3_clicked : ℕ → Action
open_video_3_clicked widget = switch widget ((tjc_page_open_video_3_right, open_heater_bed_up) ∷ [])

unfoldable pub open_video_4_clicked : ℕ → Action
open_video_4_clicked widget = switch widget (
    (tjc_page_open_video_4_up, send_gcode (codes "G91\nG0 Z-10 F600\nG90\n"))
    ∷ (tjc_page_open_video_4_down, send_gcode (codes "G91\nG0 Z10 F600\nG90\n"))
    ∷ (tjc_page_open_video_4_next, goto tjc_page_filament_video_1)
    ∷ [])

unfoldable pub open_level_clicked : ℕ → Action
open_level_clicked widget = switch widget (
    (tjc_page_open_level_001, set_auto_level_dist hundredth)
    ∷ (tjc_page_open_level_005, set_auto_level_dist twentieth)
    ∷ (tjc_page_open_level_01, set_auto_level_dist tenth)
    ∷ (tjc_page_open_level__1, set_auto_level_dist one)
    ∷ (tjc_page_open_level_up, start_auto_level_dist false)
    ∷ (tjc_page_open_level_down, start_auto_level_dist true)
    ∷ (
      tjc_page_open_level_enter,
      when (λ p. not (bytes_eq p.printer_idle_timeout_state (codes "Printing")))
          (goto tjc_page_open_leveling ▸ save_current_zoffset ▸ start_auto_level) done,
    )
    ∷ [])

unfoldable pub open_leveled_clicked : ℕ → Action
open_leveled_clicked widget = switch widget (
    (
      tjc_page_open_leveled_finish,
      set_flags (λ f. record f { auto_level_button_enabled = false }) ▸ open_go_to_syntony_move,
    )
    ∷ [])

unfoldable pub null_2_clicked : ℕ → Action
null_2_clicked widget = switch widget (
    (tjc_page_null_2_back, done)
    ∷ (tjc_page_null_2_enter, goto tjc_page_open_levelinit ▸ busy ▸ pre_open_auto_level_init)
    ∷ [])

unfoldable pub filament_video_1_clicked : ℕ → Action
filament_video_1_clicked widget = switch widget (
    (
      tjc_page_filament_video_1_right,
      when
          (λ p.
            bytes_eq p.printer_idle_timeout_state (codes "Ready")
            || bytes_eq p.printer_idle_timeout_state (codes "Idle"))
          (open_down_50 ▸ goto tjc_page_filament_video_2) done,
    )
    ∷ [])

unfoldable pub filament_video_2_clicked : ℕ → Action
filament_video_2_clicked widget = switch widget (
    (tjc_page_filament_video_2_decrease, on_heat (set_filament_extruder_target false))
    ∷ (tjc_page_filament_video_2_increase, on_heat (set_filament_extruder_target true))
    ∷ (tjc_page_filament_video_2_right, goto tjc_page_filament_video_3)
    ∷ (tjc_page_filament_video_2_target, switch_extruder)
    ∷ [])

unfoldable pub filament_video_3_clicked : ℕ → Action
filament_video_3_clicked widget = switch widget (
    (tjc_page_filament_video_3_extrude, open_start_extrude)
    ∷ (tjc_page_filament_video_3_next, goto tjc_page_more_level)
    ∷ [])

unfoldable pub more_level_clicked : ℕ → Action
more_level_clicked widget = switch widget (
    (tjc_page_more_level_finish, emit Effect.query_objects ▸ open_more_level_finish)
    ∷ (tjc_page_more_level_print, done)
    ∷ [])

unfoldable pub more_level_plu_clicked : ℕ → Action
more_level_plu_clicked widget = switch widget (
    (tjc_page_more_level_plu_back, goto tjc_page_more_level)
    ∷ (tjc_page_more_level_plu_enter, goto tjc_page_main)
    ∷ [])
