-- ===== src/Ui/Diagram.antt =====
-- src/ui.cpp: every press of a button stays within the diagram of the pages.
pub mod Rules
pub mod Back
pub mod Map
pub mod Setup
pub mod Files
pub mod Printing
pub mod Move
pub mod Levels
pub mod Wireless
pub mod Service
pub mod Offset
pub mod Popup
pub mod Loading
pub mod Servers
use qidi_plus.Base.{
  ℕ, ◌==◌, ◌≡◌, refl, sym, Bool, true, false, List, [], ◌∷◌, some, if◌then◌else◌, subst, Bool-cases,
  inl, inr, arith,
}
use qidi_plus.Screen.{tjc_page_preview, tjc_page_delete_file}
use qidi_plus.Ui.Pages.{tjc_page_set_temp_level, tjc_page_online_update, tjc_page_off_update_choose}
use qidi_plus.Ui.Panel.{Panel, Action, page, switch}
use qidi_plus.Ui.Handler.{cases, tjc_event_clicked_handler}
use qidi_plus.Ui.Footprint.{among, notables, Footprint-done, Footprint-none}
use Back.{Lands, Lands-of, Lands-case}
use Map.{Exits, exits, targets, loud_pages, diagram}
use Setup.{
  open_language_clicked-Footprint, open_video_1_clicked-Footprint, open_video_2_clicked-Footprint,
  open_video_3_clicked-Footprint, open_video_4_clicked-Footprint, open_level_clicked-Footprint,
  open_leveled_clicked-Footprint, null_2_clicked-Footprint, filament_video_1_clicked-Footprint,
  filament_video_2_clicked-Footprint, filament_video_3_clicked-Footprint,
  more_level_clicked-Footprint, more_level_plu_clicked-Footprint,
}
use Files.{
  main_clicked-Footprint, file_list_1_clicked-Footprint, file_list_2_clicked-Footprint,
  delete_file_clicked-Footprint,
}
use Printing.{
  preview_clicked-Footprint, printing_clicked-Footprint, print_filament_clicked-Footprint,
}
use Move.{
  move_clicked-Footprint, move_pop_1_clicked-Footprint, filament_clicked-Footprint,
  filament_pop_clicked-Footprint, filament_pop_4_clicked-Footprint,
}
use Levels.{
  level_mode_clicked-Footprint, leveling_null_clicked-Footprint, leveling_null_2_clicked-Footprint,
  auto_level_clicked-Footprint, auto_finish_clicked-Footprint, print_f_pop_clicked-Footprint,
  set_zoffset_clicked-Footprint, change_zoffset_clicked-Footprint,
}
use Wireless.{wifi_list_2_clicked-Footprint, keydba_clicked-Footprint, internet_clicked-Footprint}
use Service.{
  language_clicked-Footprint, service_clicked-Footprint, reset_clicked-Footprint,
  sys_ok_clicked-Footprint, about_clicked-Footprint,
}
use Offset.{
  print_zoffset_clicked-Footprint, print_keyboard_clicked-Footprint, print_finish_clicked-Footprint,
  stop_print_clicked-Lands, set_zoffset_2_clicked-Footprint, keybdb_clicked-Footprint,
  pop_1_clicked-Lands, kb_filament_1_clicked-Footprint, disk_detect_clicked-Lands,
  updated_clicked-Footprint, set_temp_level_clicked-Footprint,
}
use Popup.{
  disk_detect_2_clicked-Footprint, wifi_success_clicked-Footprint, wifi_failed_clicked-Footprint,
  wifi_keyboard_clicked-Footprint, wait_pop_clicked-Lands, filament_pop_3_clicked-Footprint,
  filament_pop_5_clicked-Footprint, filament_showdown_clicked-Footprint,
  level_null_1_clicked-Footprint, level_null_2_clicked-Footprint, detect_error_clicked-Footprint,
  gcode_error_clicked-Footprint,
}
use Loading.{
  open_heater_bed_clicked-Footprint, open_pop_1_clicked-Footprint, preview_pop_1_clicked-Footprint,
  screen_sleep_clicked-Lands, restore_config_clicked-Footprint, print_log_s_clicked-Footprint,
  open_syntony_clicked-Footprint, syntony_move_clicked-Footprint, load_finish_clicked-Footprint,
  pre_heating_1_clicked-Footprint, pre_unload_clicked-Footprint, memory_warning_clicked-Footprint,
  pre_load_clicked-Footprint, unload_finish_clicked-Footprint,
}
use Servers.{
  network_set_clicked-Footprint, server_set_clicked-Footprint, online_update_clicked-Footprint,
  qidi_link_clicked-Footprint, qidi_link_login_success_clicked-Footprint,
  qidi_link_log_out_clicked-Footprint, qidi_link_log_fail_clicked-Footprint,
  off_update_choose_clicked-Footprint, no_offline_files_clicked-Footprint,
}

-- A table of actions and a table of exits, page by page.
data Covered (p : Panel) : List (ℕ × Action) → List (ℕ × Exits) → Type 0 where
  covered_none : Covered p [] []
  covered_page :
      {label : ℕ} {a : Action} {e : Exits} {table : List (ℕ × Action)} {rest : List (ℕ × Exits)}
      → Lands (targets e p) e.loud p a
      → Covered p table rest
      → Covered p ((label, a) ∷ table) ((label, e) ∷ rest)

infixr 4 ◌◂◌
◌◂◌ :
    {p : Panel} {label : ℕ} {a : Action} {e : Exits} {table : List (ℕ × Action)}
    {rest : List (ℕ × Exits)}
    → Lands (targets e p) e.loud p a
    → Covered p table rest
    → Covered p ((label, a) ∷ table) ((label, e) ∷ rest)
here ◂ more = covered_page here more

Lands-label :
    {p : Panel} {a : Action} (n label : ℕ) (e : Exits) (table : List (ℕ × Action))
    (rest : List (ℕ × Exits))
    → Lands (targets e p) e.loud p a
    → Lands (targets (exits n rest) p) (exits n rest).loud p (switch n table)
    → Lands
        (targets (exits n ((label, e) ∷ rest)) p)
        (exits n ((label, e) ∷ rest)).loud
        p
        (switch n ((label, a) ∷ table))
unfolding switch
Lands-label {p} {a} n label e table rest f g = elim (Bool-cases (n == label)) [
  | inl h ↦
      subst
        (λ t.
          Lands (targets (if t then e else exits n rest) p) (if t then e else exits n rest).loud p
            (if t then a else switch n table))
        (sym h) f
  | inr h ↦
      subst
        (λ t.
          Lands (targets (if t then e else exits n rest) p) (if t then e else exits n rest).loud p
            (if t then a else switch n table))
        (sym h) g
]

Covered-switch :
    (p : Panel) (n : ℕ) (table : List (ℕ × Action)) (rest : List (ℕ × Exits))
    → Covered p table rest
    → Lands (targets (exits n rest) p) (exits n rest).loud p (switch n table)
Covered-switch p n _ _ covered_none = Lands-of (Footprint-none n)
Covered-switch p n _ _
      (covered_page {label = label} {e = e} {table = table} {rest = rest} here more) =
    Lands-label n label e table rest here (Covered-switch p n table rest more)

cases-Covered : (widget : ℕ) (p : Panel) → Covered p (cases widget) diagram
unfolding cases diagram
cases-Covered widget p =
    Lands-of (open_language_clicked-Footprint widget)
    ◂ Lands-of (open_video_1_clicked-Footprint widget)
    ◂ Lands-of (open_video_2_clicked-Footprint widget)
    ◂ Lands-of (open_video_3_clicked-Footprint widget)
    ◂ Lands-of (open_video_4_clicked-Footprint widget)
    ◂ Lands-of (open_level_clicked-Footprint widget)
    ◂ Lands-of (open_leveled_clicked-Footprint widget)
    ◂ Lands-of (null_2_clicked-Footprint widget)
    ◂ Lands-of (filament_video_1_clicked-Footprint widget)
    ◂ Lands-of (filament_video_2_clicked-Footprint widget)
    ◂ Lands-of (filament_video_3_clicked-Footprint widget)
    ◂ Lands-of (more_level_clicked-Footprint widget)
    ◂ Lands-of (more_level_plu_clicked-Footprint widget)
    ◂ Lands-of (main_clicked-Footprint widget)
    ◂ Lands-of (file_list_1_clicked-Footprint widget)
    ◂ Lands-of (file_list_2_clicked-Footprint widget)
    ◂ Lands-of (delete_file_clicked-Footprint widget)
    ◂ Lands-of (preview_clicked-Footprint widget)
    ◂ Lands-of (printing_clicked-Footprint widget)
    ◂ Lands-of (print_filament_clicked-Footprint widget)
    ◂ Lands-of (move_clicked-Footprint widget)
    ◂ Lands-of (move_pop_1_clicked-Footprint widget)
    ◂ Lands-of (move_pop_1_clicked-Footprint widget)
    ◂ Lands-of (move_pop_1_clicked-Footprint widget)
    ◂ Lands-of (filament_clicked-Footprint widget)
    ◂ Lands-of (filament_pop_clicked-Footprint widget)
    ◂ Lands-of (filament_pop_4_clicked-Footprint widget)
    ◂ Lands-of (level_mode_clicked-Footprint widget)
    ◂ Lands-of (leveling_null_clicked-Footprint widget)
    ◂ Lands-of (leveling_null_2_clicked-Footprint widget)
    ◂ Lands-of (auto_level_clicked-Footprint widget)
    ◂ Lands-of (auto_finish_clicked-Footprint widget)
    ◂ Lands-of (print_f_pop_clicked-Footprint widget)
    ◂ Lands-of (set_zoffset_clicked-Footprint widget)
    ◂ Lands-of (change_zoffset_clicked-Footprint widget)
    ◂ Lands-of (wifi_list_2_clicked-Footprint widget)
    ◂ Lands-of (keydba_clicked-Footprint widget)
    ◂ Lands-of (internet_clicked-Footprint widget)
    ◂ Lands-of (language_clicked-Footprint widget)
    ◂ Lands-of (service_clicked-Footprint widget)
    ◂ Lands-of (reset_clicked-Footprint widget)
    ◂ Lands-of (sys_ok_clicked-Footprint widget)
    ◂ Lands-of (about_clicked-Footprint widget)
    ◂ Lands-of (print_zoffset_clicked-Footprint widget)
    ◂ Lands-of (print_keyboard_clicked-Footprint widget)
    ◂ Lands-of (print_finish_clicked-Footprint widget)
    ◂ stop_print_clicked-Lands widget p
    ◂ Lands-of (set_zoffset_2_clicked-Footprint widget)
    ◂ Lands-of (keybdb_clicked-Footprint widget)
    ◂ pop_1_clicked-Lands widget p
    ◂ Lands-of (kb_filament_1_clicked-Footprint widget)
    ◂ disk_detect_clicked-Lands widget p
    ◂ Lands-of (updated_clicked-Footprint widget)
    ◂ Lands-of Footprint-done
    ◂ Lands-of (set_temp_level_clicked-Footprint widget)
    ◂ Lands-of Footprint-done
    ◂ Lands-of Footprint-done
    ◂ Lands-of (disk_detect_2_clicked-Footprint widget)
    ◂ Lands-of (wifi_success_clicked-Footprint widget)
    ◂ Lands-of (wifi_failed_clicked-Footprint widget)
    ◂ Lands-of (wifi_keyboard_clicked-Footprint widget)
    ◂ wait_pop_clicked-Lands widget p
    ◂ Lands-of (filament_pop_3_clicked-Footprint widget)
    ◂ Lands-of (filament_pop_5_clicked-Footprint widget)
    ◂ Lands-of (filament_showdown_clicked-Footprint widget)
    ◂ Lands-of (level_null_1_clicked-Footprint widget)
    ◂ Lands-of (level_null_2_clicked-Footprint widget)
    ◂ Lands-of (detect_error_clicked-Footprint widget)
    ◂ Lands-of (gcode_error_clicked-Footprint widget)
    ◂ Lands-of (open_heater_bed_clicked-Footprint widget)
    ◂ Lands-of (open_pop_1_clicked-Footprint widget)
    ◂ Lands-of (preview_pop_1_clicked-Footprint widget)
    ◂ Lands-of (preview_pop_1_clicked-Footprint widget)
    ◂ screen_sleep_clicked-Lands widget p
    ◂ Lands-of (restore_config_clicked-Footprint widget)
    ◂ Lands-of (print_log_s_clicked-Footprint widget)
    ◂ Lands-of (print_log_s_clicked-Footprint widget)
    ◂ Lands-of (open_syntony_clicked-Footprint widget)
    ◂ Lands-of (syntony_move_clicked-Footprint widget)
    ◂ Lands-of (load_finish_clicked-Footprint widget)
    ◂ Lands-of (pre_heating_1_clicked-Footprint widget)
    ◂ Lands-of (pre_unload_clicked-Footprint widget)
    ◂ Lands-of (memory_warning_clicked-Footprint widget)
    ◂ Lands-of (pre_load_clicked-Footprint widget)
    ◂ Lands-of (unload_finish_clicked-Footprint widget)
    ◂ Lands-of (network_set_clicked-Footprint widget)
    ◂ Lands-of (server_set_clicked-Footprint widget)
    ◂ Lands-of (online_update_clicked-Footprint widget)
    ◂ Lands-of (qidi_link_clicked-Footprint widget)
    ◂ Lands-of (qidi_link_login_success_clicked-Footprint widget)
    ◂ Lands-of (qidi_link_log_out_clicked-Footprint widget)
    ◂ Lands-of (qidi_link_log_fail_clicked-Footprint widget)
    ◂ Lands-of (off_update_choose_clicked-Footprint widget)
    ◂ Lands-of (no_offline_files_clicked-Footprint widget)
    ◂ covered_none

press-Lands :
    (page_id widget : ℕ) (p : Panel)
    → Lands
        (targets (exits page_id diagram) p)
        (exits page_id diagram).loud
        p
        (tjc_event_clicked_handler page_id widget)
unfolding tjc_event_clicked_handler
press-Lands page_id widget p =
    Covered-switch p page_id (cases widget) diagram (cases-Covered widget p)

-- Wherever the handling of a press ends, the page is the one that was shown or one that the diagram
-- has as an exit of the page that the button stands on, for every page and every button.
pub press-page :
    (page_id widget : ℕ) (p q : Panel)
    → tjc_event_clicked_handler page_id widget p ≡ some q
    → among (page q) (page p ∷ targets (exits page_id diagram) p) ≡ true
press-page page_id widget p q h = (press-Lands page_id widget p).page_within q h

loud_pages_lem :
    (n : ℕ) (d : List (ℕ × Exits)) → among n (loud_pages d) ≡ false → (exits n d).loud ≡ false
loud_pages_lem n [] h = refl
loud_pages_lem n ((label, e) ∷ rest) h =
    let more = loud_pages_lem n rest in loud_label n label e rest more h
  where
    loud_label :
        (n label : ℕ) (e : Exits) (rest : List (ℕ × Exits))
        → (among n (loud_pages rest) ≡ false → (exits n rest).loud ≡ false)
        → among n (loud_pages ((label, e) ∷ rest)) ≡ false
        → (exits n ((label, e) ∷ rest)).loud ≡ false
    loud_label n label e rest more h = ground arith

-- A press on a page other than those for the deletion of a file, the preview, the temperatures of
-- the levelling, the choice of an update from a stick and the offer of one over the network leaves
-- the notable effects as they are: it starts no print, asks the server to delete no file and starts
-- no update.
pub press-quiet :
    (page_id widget : ℕ) (p q : Panel)
    → among page_id (
        tjc_page_delete_file ∷ tjc_page_preview ∷ tjc_page_set_temp_level ∷ tjc_page_online_update
        ∷ tjc_page_off_update_choose ∷ [])
      ≡ false
    → tjc_event_clicked_handler page_id widget p ≡ some q
    → notables q.effects ≡ notables p.effects
unfolding diagram
press-quiet page_id widget p q other h =
    (press-Lands page_id widget p).effects_within q h (loud_pages_lem page_id diagram other)
