-- ===== src/Files/Tests.antt =====
-- The file browser on concrete inputs.
use qidi_plus.Base.{
  inl, ◌≤◌, ◌≡◌, refl, Bool, true, false, ◌&&◌, List, [], ◌∷◌, ◌++◌, Option, none, some, ◌>>=◌,
  Bytes, bytes_eq, codes, length, get_or, take, drop, slots, arith,
}
use qidi_plus.Screen.{tjc_page_main, tjc_page_file_list_2}
use qidi_plus.Files.Listing.{
  insert_all, insert_kept, insert, bytes_lt, cached, Reply, filelist, last_page, keeps_dir,
  keeps_file, first_result, second_result,
}
use qidi_plus.Files.Listing.Sorted.{filelist_lem, IsSorted, member}
use qidi_plus.Files.Show.{advance_printed, show_entry, show_entries, set_page_files_show_list}
use qidi_plus.Files.Show.Covers.{set_page_files_show_list_covers, set_page_files_show_list_stale}
use qidi_plus.Files.Browser.{
  previous, next, Browser, open_folder, get_parenet_dir_files_list, open_files, to_page,
  refresh_page_files, refresh_page_files_list_1, send, get_sub_dir_files_list, open_preview,
  clear_cp0_image, get_file_estimated_time,
}
use qidi_plus.Files.Browser.Safe.{IsStacked, Press, files, chooses, press, run, run-IsStacked}
use qidi_plus.Files.Browser.Back.{open_folder-back}
use qidi_plus.Files.Browser.Total.{Returns, choose-Returns, turn-Returns}

abbrev stick : Reply
stick = record {
  dirs = codes "parts" ∷ codes ".cache" ∷ [];
  files = codes "cube.gcode" ∷ codes ".hidden.gcode" ∷ codes "notes.txt" ∷ codes "arch.gcode" ∷ [];
}

lists_stick :
    filelist 0 none (some stick)
    ≡ codes "[d] parts" ∷ codes "[f] arch.gcode" ∷ codes "[f] cube.gcode" ∷ []
unfolding filelist first_result second_result insert_all insert_kept keeps_file insert bytes_lt
    keeps_dir bytes_eq cached
lists_stick = refl

filelist_lem_example :
    let result = second_result (some stick) (first_result none 0) in
    let list = filelist 0 none (some stick) in
    IsSorted list
    × ((n : Bytes) → member (codes "[f] " ++ n) list ≡ (keeps_file n && member n result.files))
    × ((n : Bytes) → member (codes "[d] " ++ n) list ≡ (keeps_dir n && member n result.dirs))
filelist_lem_example = filelist_lem 0 none (some stick)

set_page_files_show_list_covers_example :
    (r : List Bytes × List (Bytes × Bytes)) × (set_page_files_show_list 0
        (filelist 0 none (some stick))
      ≡ some r)
    × (0 ≤ last_page (length (filelist 0 none (some stick))))
    × (get_or r.1 1 (codes "[n]", []) ≡ (
      take 3 (get_or (filelist 0 none (some stick)) 1 []),
      drop 4 (get_or (filelist 0 none (some stick)) 1 []),
    ))
set_page_files_show_list_covers_example =
    set_page_files_show_list_covers 0 none (some stick) 1 (rw lists_stick (omega arith))

set_page_files_show_list_stale_example :
    set_page_files_show_list 1 (codes "[f] cube.gcode" ∷ []) ≡ none
set_page_files_show_list_stale_example =
    set_page_files_show_list_stale 1 (codes "[f] cube.gcode" ∷ []) (omega arith) (omega arith)

abbrev main_page : Browser
main_page = record {
  screen = record { current_page_id = tjc_page_main; previous_page_id = 0; sent = [] };
  pages = 0;
  current_pages = 0;
  folder_layers = 0;
  root_path = codes "gcodes/";
  path = [];
  previous_path = [];
  print_files_path = [];
  path_stack = [];
  entries = [];
  list_name = [];
  list_show = [];
  jump_to_print = false;
  show_preview_complete = false;
  show_preview_gimage_completed = false;
  file_parse_finished = false;
  metadata_simage = [];
  metadata_gimage = [];
  metadata_requests = [];
}

abbrev in_parts : Browser
in_parts = record main_page { folder_layers = 1; path = codes "/parts"; path_stack = [] ∷ [] }

open_folder-back_example :
    (c : Browser) × ((open_folder (λ d. some stick) (codes "deep") in_parts
        >>= get_parenet_dir_files_list (λ d. some stick) true)
      ≡ some c)
    × (c.path ≡ in_parts.path)
    × (c.path_stack ≡ in_parts.path_stack)
    × (c.folder_layers ≡ in_parts.folder_layers)
    × (c.screen.current_page_id ≡ tjc_page_file_list_2)
    × (c.current_pages ≡ 0)
    × (c.entries ≡ filelist 2 (some stick) (some stick))
open_folder-back_example = open_folder-back (λ d. some stick) (codes "deep") in_parts (omega arith)

abbrev presses : List ((Bytes → Option Reply) × Bool × Press)
presses =
    ((λ d. some stick), true, files)
    ∷ ((λ d. some stick), true, chooses 0)
    ∷ ((λ d. some stick), true, chooses 1)
    ∷ []

abbrev reached : Browser
reached = elim (run presses main_page) [ none ↦ main_page | some b ↦ b ]

-- The presses meet no undefined behaviour.
run-presses : run presses main_page ≡ some reached
unfolding run press open_files to_page refresh_page_files refresh_page_files_list_1 send
    get_sub_dir_files_list open_folder open_preview set_page_files_show_list advance_printed
    show_entry show_entries filelist first_result second_result insert_all insert_kept keeps_file
    insert bytes_lt keeps_dir bytes_eq cached slots get_file_estimated_time clear_cp0_image
run-presses = refl

run-IsStacked_example : IsStacked reached
run-IsStacked_example = run-IsStacked presses main_page reached (omega arith) run-presses

choose-Returns_example :
    Returns (open_files (λ d. some stick) reached)
    × Returns (get_sub_dir_files_list (λ d. some stick) 0 reached)
choose-Returns_example = choose-Returns (λ d. some stick) 0 reached

-- The list has three entries and the file printed last.
counts_stick : 0 ≡ last_page (length (filelist 0 (some stick) (some stick)))
unfolding last_page filelist first_result second_result insert_all insert_kept keeps_file insert
    bytes_lt keeps_dir bytes_eq cached
counts_stick = refl

turn-Returns_example :
    Returns (previous (λ d. some stick) refresh_page_files_list_1 main_page)
    × Returns (next (λ d. some stick) refresh_page_files_list_1 main_page)
turn-Returns_example =
    turn-Returns (λ d. some stick) refresh_page_files_list_1 main_page counts_stick (inl refl)
