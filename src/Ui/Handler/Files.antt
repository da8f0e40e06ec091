-- ===== src/Ui/Handler/Files.antt =====
-- src/ui.cpp: the cases of `tjc_event_clicked_handler` for the pages of the main page and the files.
use qidi_plus.Base.{false, [], ◌∷◌, ℕ}
use qidi_plus.Screen.{tjc_page_main, tjc_page_move, tjc_page_preview, tjc_page_service}
use qidi_plus.Ui.Pages.{tjc_page_language}
use qidi_plus.Ui.Buttons.Files.{
  tjc_page_main_btn_home, tjc_page_main_btn_file, tjc_page_main_btn_tool, tjc_page_main_btn_service,
  tjc_page_main_light, tjc_page_main_voice, tjc_page_main_lock, tjc_page_file_list_1_btn_home,
  tjc_page_file_list_1_btn_file, tjc_page_file_list_1_btn_tool, tjc_page_file_list_1_btn_service,
  tjc_page_file_list_1_btn_1, tjc_page_file_list_1_btn_2, tjc_page_file_list_1_btn_3,
  tjc_page_file_list_1_btn_4, tjc_page_file_list_1_btn_5, tjc_page_file_list_1_btn_6,
  tjc_page_file_list_1_btn_7, tjc_page_file_list_1_btn_8, tjc_page_file_list_1_btn_previous,
  tjc_page_file_list_1_btn_next, tjc_page_file_list_2_btn_1, tjc_page_file_list_2_btn_2,
  tjc_page_file_list_2_btn_3, tjc_page_file_list_2_btn_4, tjc_page_file_list_2_btn_5,
  tjc_page_file_list_2_btn_6, tjc_page_file_list_2_btn_7, tjc_page_file_list_2_btn_8,
  tjc_page_file_list_2_btn_back, tjc_page_file_list_2_btn_previous, tjc_page_file_list_2_btn_next,
  tjc_page_file_list_2_btn_home, tjc_page_file_list_2_btn_file, tjc_page_file_list_2_btn_tool,
  tjc_page_file_list_2_btn_service, tjc_page_delete_file_yes, tjc_page_delete_file_no,
}
use qidi_plus.Ui.Panel.{Action, done, ◌▸◌, switch, goto, emit, Effect}
use qidi_plus.Ui.Motion.{motors_off, beep_on_off, led_on_off}
use qidi_plus.Ui.Print.{
  open_list, open_entry, leave_folder, list_previous, list_next, clear_preview_image,
  clear_page_preview, set_preview_complete, delete_file,
}
use qidi_plus.Files.Browser.{refresh_page_files_list_1, refresh_page_files_list_2}

unfoldable pub main_clicked : ℕ → Action
main_clicked widget = switch widget (
    (tjc_page_main_btn_home, done)
    ∷ (tjc_page_main_btn_file, open_list ▸ emit Effect.query_objects)
    ∷ (tjc_page_main_btn_tool, goto tjc_page_move)
    ∷ (tjc_page_main_btn_service, goto tjc_page_language)
    ∷ (tjc_page_main_light, led_on_off)
    ∷ (tjc_page_main_voice, beep_on_off)
    ∷ (tjc_page_main_lock, motors_off)
    ∷ [])

unfoldable pub file_list_1_clicked : ℕ → Action
file_list_1_clicked widget = switch widget (
    (tjc_page_file_list_1_btn_home, goto tjc_page_main)
    ∷ (tjc_page_file_list_1_btn_file, done)
    ∷ (tjc_page_file_list_1_btn_tool, goto tjc_page_move)
    ∷ (tjc_page_file_list_1_btn_service, goto tjc_page_service)
    ∷ (tjc_page_file_list_1_btn_1, open_entry 0)
    ∷ (tjc_page_file_list_1_btn_2, open_entry 1)
    ∷ (tjc_page_file_list_1_btn_3, open_entry 2)
    ∷ (tjc_page_file_list_1_btn_4, open_entry 3)
    ∷ (tjc_page_file_list_1_btn_5, open_entry 4)
    ∷ (tjc_page_file_list_1_btn_6, open_entry 5)
    ∷ (tjc_page_file_list_1_btn_7, open_entry 6)
    ∷ (tjc_page_file_list_1_btn_8, open_entry 7)
    ∷ (tjc_page_file_list_1_btn_previous, list_previous refresh_page_files_list_1)
    ∷ (tjc_page_file_list_1_btn_next, list_next refresh_page_files_list_1)
    ∷ [])

unfoldable pub file_list_2_clicked : ℕ → Action
file_list_2_clicked widget = switch widget (
    (tjc_page_file_list_2_btn_1, open_entry 0)
    ∷ (tjc_page_file_list_2_btn_2, open_entry 1)
    ∷ (tjc_page_file_list_2_btn_3, open_entry 2)
    ∷ (tjc_page_file_list_2_btn_4, open_entry 3)
    ∷ (tjc_page_file_list_2_btn_5, open_entry 4)
    ∷ (tjc_page_file_list_2_btn_6, open_entry 5)
    ∷ (tjc_page_file_list_2_btn_7, open_entry 6)
    ∷ (tjc_page_file_list_2_btn_8, open_entry 7)
    ∷ (tjc_page_file_list_2_btn_back, leave_folder)
    ∷ (tjc_page_file_list_2_btn_previous, list_previous refresh_page_files_list_2)
    ∷ (tjc_page_file_list_2_btn_next, list_next refresh_page_files_list_2)
    ∷ (tjc_page_file_list_2_btn_home, goto tjc_page_main)
    ∷ (tjc_page_file_list_2_btn_file, done)
    ∷ (tjc_page_file_list_2_btn_tool, goto tjc_page_move)
    ∷ (tjc_page_file_list_2_btn_service, goto tjc_page_service)
    ∷ [])

unfoldable pub delete_file_clicked : ℕ → Action
delete_file_clicked widget = switch widget (
    (
      tjc_page_delete_file_yes,
      delete_file
          ▸ leave_folder
          ▸ clear_page_preview
          ▸ set_preview_complete false
          ▸ clear_preview_image,
    )
    ∷ (tjc_page_delete_file_no, goto tjc_page_preview ▸ set_preview_complete false)
    ∷ [])
