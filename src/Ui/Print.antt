-- ===== src/Ui/Print.antt =====
-- src/event.cpp: a print that is started, paused, resumed, cancelled and finished, the preview that
-- it starts from, and the files of the list pages.
use qidi_plus.Base.{
  ℕ, ◌+◌, Bool, true, false, ◌||◌, ◌&&◌, if◌then◌else◌, [], ◌++◌, Option, some, ◌>>=◌, Bytes, codes,
  bytes_eq, contains, to_string,
}
use qidi_plus.Screen.{
  tjc_page_main, tjc_page_printing, tjc_page_preview_pop_1, tjc_page_preview_pop_2,
}
use qidi_plus.Files.Listing.{Reply}
use qidi_plus.Files.Browser
use qidi_plus.Files.Browser.{
  Browser, clear_cp0_image, open_files, refresh_page_files, get_sub_dir_files_list,
  get_parenet_dir_files_list,
}
use qidi_plus.Ui.Panel.{Effect, Panel, Action, done, ◌▸◌, act, when, goto, emit, gcode}
use qidi_plus.Ui.Motion.{filament_sensor_switch, set_heater_bed_target, set_extruder_target}
use qidi_plus.Ui.Store.{get_mks_fila_status, get_mks_total_printed_time, set_mks_total_printed_time}

-- An operation of the file browser.
unfoldable pub on_files : (Browser → Browser) → Action
on_files f p = some (record p { files = f p.files })

-- An operation of the file browser that asks the file server.
unfoldable pub on_list : ((Bytes → Option Reply) → Browser → Option Browser) → Action
on_list f p = f p.world.server p.files >>= (λ b. some (record p { files = b }))

-- The statements from `page_to (TJC_PAGE_FILE_LIST_1)` to `refresh_page_files_list_1 ()`.
unfoldable pub open_list : Action
open_list = on_list open_files

-- `refresh_page_files (page_files_current_pages)`
unfoldable pub refresh_files : Action
refresh_files = on_list (λ server b. refresh_page_files server b.current_pages b)

-- `get_sub_dir_files_list`
unfoldable pub open_entry : ℕ → Action
open_entry button = on_list (λ server. get_sub_dir_files_list server button)

-- `get_parenet_dir_files_list`
unfoldable pub leave_folder : Action
leave_folder = λ p. on_list (λ server. get_parenet_dir_files_list server p.world.disk) p

unfoldable pub list_previous : (Browser → Browser) → Action
list_previous refresh = on_list (λ server. Browser.previous server refresh)

unfoldable pub list_next : (Browser → Browser) → Action
list_next refresh = on_list (λ server. Browser.next server refresh)

unfoldable pub clear_preview_image : Action
clear_preview_image = on_files clear_cp0_image

-- `clear_page_preview`, whose numbers are not in the panel.
unfoldable pub clear_page_preview : Action
clear_page_preview =
    act (λ p. record p { filament_name = [] })
    ▸ on_files (λ b. record b { metadata_simage = []; metadata_gimage = [] })

unfoldable pub set_jump_to_print : Bool → Action
set_jump_to_print jump = on_files (λ b. record b { jump_to_print = jump })

unfoldable pub set_preview_complete : Bool → Action
set_preview_complete complete = on_files (λ b. record b { show_preview_complete = complete })

-- `start_printing (page_files_print_files_path)`
unfoldable pub start_printing : Action
start_printing = λ p. emit (Effect.print_a_file p.files.print_files_path) p

-- `delete_file (page_files_root_path + page_files_print_files_path)`, with the wait for the answer.
unfoldable pub delete_file : Action
delete_file = λ p. emit (Effect.file_delete (p.files.root_path ++ p.files.print_files_path)) p

unfoldable pub set_print_pause : Action
set_print_pause = filament_sensor_switch false ▸ gcode (codes "PAUSE")

unfoldable pub set_print_resume : Action
set_print_resume =
    get_mks_fila_status
    ▸ when (λ p. p.flags.fila_status) (filament_sensor_switch true) done
    ▸ gcode (codes "RESUME")

unfoldable pub sdcard_reset_file : Action
sdcard_reset_file = gcode (codes "SDCARD_RESET_FILE")

-- The minutes of the print are added to those in the configuration.
unfoldable pub add_printed_time : Action
add_printed_time =
    get_mks_total_printed_time
    ▸ act (λ p. record p {
      total_printed_minutes = p.total_printed_minutes + p.world.printed_minutes;
    })
    ▸ (λ p. set_mks_total_printed_time p.total_printed_minutes p)

unfoldable pub cancel_print : Action
cancel_print =
    filament_sensor_switch false
    ▸ act (λ p. record p { printer_print_stats_filename = [] })
    ▸ clear_preview_image
    ▸ filament_sensor_switch false
    ▸ gcode (codes "CANCEL_PRINT")
    ▸ add_printed_time
    ▸ emit (Effect.usleep 10000)
    ▸ sdcard_reset_file

unfoldable pub finish_print : Action
finish_print =
    sdcard_reset_file
    ▸ clear_preview_image
    ▸ clear_page_preview
    ▸ set_preview_complete false
    ▸ goto tjc_page_main

-- The material that the file names, else its name, in lower case.
unfoldable pub material : Panel → Bytes
material p =
    p.world.to_lower (if bytes_eq p.filament_type [] then p.filament_name else p.filament_type)

unfoldable pub check_filament_type : Action
check_filament_type =
    when
      (λ p.
        (contains (codes "pla") (material p) || contains (codes "petg") (material p))
        && p.flags.preview_pop_1_on)
      (goto tjc_page_preview_pop_1)
      (when (λ p. contains (codes "abs") (material p) && p.flags.preview_pop_2_on)
        (goto tjc_page_preview_pop_2) (goto tjc_page_printing))

unfoldable pub level_mode_printing_set_target : Action
level_mode_printing_set_target =
    (λ p. set_heater_bed_target p.level_heater_bed_target p)
    ▸ (λ p. gcode (codes "M190 S" ++ to_string p.level_heater_bed_target) p)
    ▸ (λ p. set_extruder_target p.level_extruder_target p)
    ▸ (λ p. gcode (codes "M109 S" ++ to_string p.level_extruder_target) p)

unfoldable pub level_mode_printing_print_file : Action
level_mode_printing_print_file = emit (Effect.print_a_file (codes "LEVEL_PRINTING.gcode"))
