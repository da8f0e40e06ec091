-- ===== src/Files/Browser.antt =====
-- src/mks_file.cpp: `get_sub_dir_files_list` and `get_parenet_dir_files_list`; src/event.cpp: the
-- functions that they call; src/ui.cpp: the buttons of the two list pages and of the main page
-- that lead there. `server` answers a directory request, emptily
-- or with a listing, `disk` says that `detect_disk` returns 0.
pub mod Safe
pub mod Back
pub mod Total
use qidi_plus.Base.{
  ℕ, zero, suc, ◌+◌, ◌-◌, ◌*◌, Bool, true, false, not, List, [], ◌∷◌, ◌++◌, Option, none, some, ltb,
  ◌==◌, if◌then◌else◌, ◌>>=◌, Bytes, codes, bytes_eq, length, drop, get_or, to_string,
}
use qidi_plus.Screen.{
  Screen, write_all, page_to, tjc_page_main, tjc_page_file_list_1, tjc_page_file_list_2,
  tjc_page_preview,
}
use qidi_plus.SendMsg.Widget.{send_cmd_txt, send_cmd_picc, send_cmd_picc2, send_cmd_cp_close}
use qidi_plus.Files.Listing.{Reply, filelist, last_page}
use qidi_plus.Files.Show.{set_page_files_show_list}

-- The globals `page_files_…`, those of the preview that the functions set, and the file names whose
-- metadata has been asked for.
pub record Browser : Type 0 where
  pub screen : Screen
  pub pages : ℕ
  pub current_pages : ℕ
  pub folder_layers : ℕ
  pub root_path : Bytes
  pub path : Bytes
  pub previous_path : Bytes
  pub print_files_path : Bytes
  pub path_stack : List Bytes
  pub entries : List Bytes
  pub list_name : List Bytes
  pub list_show : List (Bytes × Bytes)
  pub jump_to_print : Bool
  pub show_preview_complete : Bool
  pub show_preview_gimage_completed : Bool
  pub file_parse_finished : Bool
  pub metadata_simage : Bytes
  pub metadata_gimage : Bytes
  pub metadata_requests : List Bytes

unfoldable pub to_page : ℕ → Browser → Browser
to_page page b = record b { screen = page_to page b.screen }

unfoldable pub send : List Bytes → Browser → Browser
send commands b = record b { screen = write_all commands b.screen }

-- `get_page_files_filelist` and `set_page_files_show_list`, as `refresh_page_files` calls them.
unfoldable pub refresh_page_files : (Bytes → Option Reply) → ℕ → Browser → Option Browser
refresh_page_files server pages b =
    let entries =
      filelist b.folder_layers (server (codes "gcodes//.cache")) (server (b.root_path ++ b.path)) in
    do
      (names, shown) ← set_page_files_show_list pages entries
      some (record b {
        entries = entries;
        pages = last_page (length entries);
        list_name = names;
        list_show = shown;
      })

-- The two pictures of a button.
unfoldable pub pictures : Bytes → Bytes → Bytes → List Bytes
pictures button pressed released =
    send_cmd_picc button pressed ∷ send_cmd_picc2 button released ∷ []

-- One row of `refresh_page_files_list_1`.
unfoldable pub row_1 : ℕ → Bytes × Bytes → List Bytes
row_1 i (kind, name) =
    let button = codes "b" ++ to_string i in
    send_cmd_txt (codes "t" ++ to_string i) name
    ∷ (if bytes_eq kind (codes "[c]")
        then pictures button (codes "434") (codes "435")
        else if bytes_eq kind (codes "[d]")
        then pictures button (to_string (13 + i)) (to_string (13 + i))
        else if bytes_eq kind (codes "[f]")
        then pictures button (to_string (21 + i)) (to_string (21 + i))
        else if bytes_eq kind (codes "[n]")
        then pictures button (codes "11") (codes "11")
        else [])

-- One row of `refresh_page_files_list_2`.
unfoldable pub row_2 : ℕ → Bytes × Bytes → List Bytes
row_2 i (kind, name) =
    let button = codes "b" ++ to_string i in
    send_cmd_txt (codes "t" ++ to_string i) name
    ∷ (if bytes_eq kind (codes "[d]")
        then pictures button (to_string (13 + i)) (to_string (13 + i))
        else if bytes_eq kind (codes "[f]")
        then pictures button (to_string (21 + i)) (to_string (21 + i))
        else if bytes_eq kind (codes "[n]")
        then pictures button (codes "12") (codes "12")
        else [])

-- The loop over the rows.
unfoldable pub rows_from : (ℕ → Bytes × Bytes → List Bytes) → ℕ → List (Bytes × Bytes) → List Bytes
rows_from row i [] = []
rows_from row i (r ∷ rs) = row i r ++ rows_from row (i + 1) rs

-- A button that turns the page: its picture tells whether there is a page on that side.
unfoldable pub turn_button : Bytes → Bool → ℕ → ℕ → List Bytes
turn_button button at_end dark lit =
    let picture = to_string (if at_end then dark else lit) in pictures button picture picture

unfoldable pub refresh_page_files_list_1 : Browser → Browser
refresh_page_files_list_1 b =
    send
      (rows_from row_1 0 b.list_show
        ++ (turn_button (codes "b8") (b.current_pages == 0) 30 29
            ++ turn_button (codes "b9") (b.current_pages == b.pages) 32 31))
      b

unfoldable pub refresh_page_files_list_2 : Browser → Browser
refresh_page_files_list_2 b =
    send
      (rows_from row_2 0 b.list_show
        ++ (send_cmd_txt (codes "t8") b.path
            ∷ (turn_button (codes "b9") (b.current_pages == 0) 35 34
                ++ turn_button (codes "b10") (b.current_pages == b.pages) 37 36)))
      b

unfoldable pub clear_cp0_image : Browser → Browser
clear_cp0_image b =
    send
      (send_cmd_cp_close (codes "cp0")
        ∷ send_cmd_txt (codes "cp0_text") []
        ∷ send_cmd_txt (codes "add") []
        ∷ [])
      (record b {
        show_preview_gimage_completed = false;
        file_parse_finished = false;
        metadata_simage = [];
        metadata_gimage = [];
      })

-- `get_file_estimated_time`
unfoldable pub get_file_estimated_time : Bytes → Browser → Browser
get_file_estimated_time filename b = record b {
  metadata_requests = b.metadata_requests ++ filename ∷ [];
}

-- The branches for "[f]" and "[c]": the preview of a file at a path.
unfoldable pub open_preview : Bytes → Browser → Browser
open_preview file b =
    let c = clear_cp0_image (to_page tjc_page_preview b) in
    get_file_estimated_time (drop 1 file) (record c {
      jump_to_print = false;
      show_preview_complete = false;
      path_stack = c.path ∷ c.path_stack;
      print_files_path = file;
      folder_layers = c.folder_layers + 1;
    })

-- The branch for "[d]".
unfoldable pub open_folder : (Bytes → Option Reply) → Bytes → Browser → Option Browser
open_folder server name b =
    let c = to_page tjc_page_file_list_2 (record b {
      path_stack = b.path ∷ b.path_stack;
      path = b.path ++ (codes "/" ++ name);
      folder_layers = b.folder_layers + 1;
    }) in
    do
      d ← refresh_page_files server 0 (record c { current_pages = 0 })
      some (refresh_page_files_list_2 d)

unfoldable pub get_sub_dir_files_list : (Bytes → Option Reply) → ℕ → Browser → Option Browser
get_sub_dir_files_list server button b =
    let (kind, name) = get_or b.list_show button ([], []) in
    if bytes_eq (codes "[d]") kind
    then open_folder server name b
    else if bytes_eq (codes "[f]") kind
    then some (open_preview (b.path ++ (codes "/" ++ name)) b)
    else if bytes_eq (codes "[c]") kind
    then some (open_preview (b.path ++ (codes "/.cache/" ++ name)) b)
    else some b

-- `if (detect_disk() == -1)`
unfoldable pub reset_paths : Browser → Browser
reset_paths b = record b {
  pages = 0;
  current_pages = 0;
  folder_layers = 0;
  previous_path = [];
  root_path = codes "gcodes/";
  path = [];
}

-- The `else` at the end: back to the first list. The stack is not popped.
unfoldable pub to_root : (Bytes → Option Reply) → Browser → Option Browser
to_root server b = do
  c ←
      refresh_page_files server b.current_pages
        (record (to_page tjc_page_file_list_1 b) { folder_layers = 0 })
  some (record (refresh_page_files_list_1 c) { previous_path = []; path = [] })

-- `if (page_files_folder_layers > 1)`: the inner test for 0 layers never holds behind the
-- decrement, so the branch for it is left out.
unfoldable pub to_parent : List Bytes → Browser → Browser
to_parent popped b =
    let c = to_page tjc_page_file_list_2 b in
    record (refresh_page_files_list_2 (record c { folder_layers = c.folder_layers - 1 })) {
      path_stack = popped;
    }

-- Behind `top()`, which gave `top`.
unfoldable pub back_to :
    (Bytes → Option Reply) → Bool → Bytes → List Bytes → Browser → Option Browser
back_to server disk top popped b =
    let c = record b { previous_path = top; path = top } in
    let d =
      if c.screen.current_page_id == tjc_page_preview then c else record c { current_pages = 0 } in
    let e = if disk then d else reset_paths d in
    do
      f ← refresh_page_files server e.current_pages e
      if ltb 1 f.folder_layers then some (to_parent popped f) else to_root server f

-- `top()` of an empty stack is undefined.
unfoldable pub get_parenet_dir_files_list : (Bytes → Option Reply) → Bool → Browser → Option Browser
get_parenet_dir_files_list server disk b = elim b.path_stack [
  | [] ↦ none
  | top ∷ popped ↦ back_to server disk top popped b
]

-- `TJC_PAGE_MAIN_BTN_FILE`
unfoldable pub open_files : (Bytes → Option Reply) → Browser → Option Browser
open_files server b =
    let c = record (to_page tjc_page_file_list_1 b) {
      pages = 0;
      current_pages = 0;
      folder_layers = 0;
      previous_path = [];
      root_path = codes "gcodes/";
      path = [];
    } in
    do d ← refresh_page_files server 0 c; some (refresh_page_files_list_1 d)

-- The buttons that turn the page, with the refresh of the list that they stand on.
unfoldable pub previous : (Bytes → Option Reply) → (Browser → Browser) → Browser → Option Browser
previous server refresh b =
    if ltb 0 b.current_pages
    then (do
      c ←
          refresh_page_files server (b.current_pages - 1)
            (record b { current_pages = b.current_pages - 1 })
      some (refresh c))
    else some b

unfoldable pub next : (Bytes → Option Reply) → (Browser → Browser) → Browser → Option Browser
next server refresh b =
    if ltb b.current_pages b.pages
    then (do
      c ←
          refresh_page_files server (b.current_pages + 1)
            (record b { current_pages = b.current_pages + 1 })
      some (refresh c))
    else some b
