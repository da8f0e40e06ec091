-- ===== src/Ui/Watch.antt =====
-- src/event.cpp: `refresh_page_show`, up to the refresh of the page that is shown: a print that was
-- started elsewhere brings its page up, and a printer that is down brings up the page of the reset.
pub mod Follows
use qidi_plus.Base.{
  ℕ, ◌==◌, Bool, true, false, not, ◌||◌, ◌&&◌, if◌then◌else◌, List, [], ◌∷◌, map, Bytes, codes,
  bytes_eq,
}
use qidi_plus.Screen.{
  tjc_page_printing, tjc_page_print_zoffset, tjc_page_print_filament, tjc_page_stop_print,
  tjc_page_print_f_pop, tjc_page_power_off, tjc_page_stopping, tjc_page_level_print, tjc_page_pop_1,
  tjc_page_gcode_error, tjc_page_detect_error, tjc_page_reset, tjc_page_preview,
  tjc_page_preview_pop_1, tjc_page_preview_pop_2, tjc_page_about, tjc_page_service,
  tjc_page_restoring, tjc_page_restore_config, tjc_page_sys_ok,
}
use qidi_plus.SendMsg.Widget.{send_cmd_txt}
use qidi_plus.Ui.Panel.{
  Effect, Flags, Panel, Action, done, ◌▸◌, act, when, goto, page, show, emit, set_flags,
}
use qidi_plus.Ui.Motion.{led_on_off, filament_sensor_switch}
use qidi_plus.Ui.Print.{set_preview_complete}
use qidi_plus.Ui.Footprint.{among}

-- `if (previous_caselight_value == true) { … }`
unfoldable pub light_again : Action
light_again =
    when (λ p. p.flags.previous_caselight_value)
      (led_on_off ▸ set_flags (λ f. record f { previous_caselight_value = false })) done

-- The pages that a print does not take over.
abbrev pub print_pages : List ℕ
print_pages =
    tjc_page_printing ∷ tjc_page_print_zoffset ∷ tjc_page_print_filament ∷ tjc_page_stop_print
    ∷ tjc_page_print_f_pop ∷ tjc_page_power_off ∷ tjc_page_stopping ∷ tjc_page_level_print
    ∷ tjc_page_pop_1 ∷ tjc_page_gcode_error ∷ tjc_page_detect_error ∷ tjc_page_reset
    ∷ tjc_page_preview ∷ tjc_page_preview_pop_1 ∷ tjc_page_preview_pop_2 ∷ []

unfoldable pub prints : Panel → Bool
prints p =
    bytes_eq p.printer_print_stats_state (codes "printing")
    && not (bytes_eq p.printer_print_stats_filename [])

unfoldable pub to_print : Action
to_print =
    when (λ p. p.files.jump_to_print)
      (set_flags (λ f. record f { printer_ready = false })
        ▸ set_preview_complete false
        ▸ goto tjc_page_preview)
      (when (λ p. not p.flags.level_mode_printing_is_printing_level)
        (set_flags (λ f. record f { printer_ready = false }) ▸ goto tjc_page_preview)
        (goto tjc_page_level_print))

unfoldable pub join_print : Action
join_print =
    when (λ p. among (page p) print_pages) done
      (when prints
        (emit (Effect.sleep 5)
          ▸ when (λ p. p.flags.fila_status) (filament_sensor_switch true) done
          ▸ light_again
          ▸ to_print)
        done)

unfoldable pub down : Panel → Bool
down p =
    bytes_eq p.printer_webhooks_state (codes "shutdown")
    || bytes_eq p.printer_webhooks_state (codes "error")

-- The three calls of `replace`: the line feed, and the two quotes, which would end the text.
unfoldable pub harmless : ℕ → ℕ
harmless c = if c == 10 then 46 else if c == 39 then 32 else if c == 34 then 32 else c

-- A new message of the printer, once.
unfoldable pub show_message : Action
show_message =
    when (λ p. not (bytes_eq p.current_webhooks_state_message p.printer_webhooks_state_message))
      (act (λ p. record p { current_webhooks_state_message = p.printer_webhooks_state_message })
        ▸ (λ p.
            show (send_cmd_txt (codes "t1") (map harmless p.printer_webhooks_state_message) ∷ [])
              p))
      done

-- The pages that a printer that is down leaves alone.
abbrev pub kept_pages : List ℕ
kept_pages =
    tjc_page_power_off ∷ tjc_page_about ∷ tjc_page_service ∷ tjc_page_restoring
    ∷ tjc_page_restore_config ∷ []

unfoldable pub to_reset : Action
to_reset = light_again ▸ goto tjc_page_reset ▸ show_message

unfoldable pub on_reset : Action
on_reset =
    when down show_message done
    ▸ when (λ p. bytes_eq p.printer_webhooks_state (codes "ready")) (goto tjc_page_sys_ok) done

unfoldable pub watch_printer : Action
watch_printer =
    when (λ p. page p == tjc_page_reset) on_reset
      (when (λ p. among (page p) kept_pages) done (when down to_reset done))
