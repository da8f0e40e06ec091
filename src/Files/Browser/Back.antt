-- ===== src/Files/Browser/Back.antt =====
-- src/mks_file.cpp: the way into a folder and back.
use qidi_plus.Base.{
  ◌+◌, ◌<◌, ◌≡◌, refl, inl, true, false, List, ◌∷◌, ◌++◌, Option, some, ◌==◌, ◌>>=◌, Bytes, codes,
  arith,
}
use qidi_plus.Screen.{write_all, page_to, tjc_page_file_list_2, tjc_page_preview}
use qidi_plus.Files.Listing.{Reply, filelist}
use qidi_plus.Files.Browser.Safe.{refresh_lem, refreshed}
use qidi_plus.Files.Browser.{
  Browser, to_page, send, refresh_page_files_list_2, open_folder, to_parent, back_to,
  get_parenet_dir_files_list,
}

-- The folder that is open behind a press on a folder.
abbrev opened : (Bytes → Option Reply) → Bytes → Browser → Browser
opened server name b = refresh_page_files_list_2 (
    refreshed server 0 (record (to_page tjc_page_file_list_2 b) {
      path_stack = b.path ∷ b.path_stack;
      path = b.path ++ (codes "/" ++ name);
      folder_layers = b.folder_layers + 1;
      current_pages = 0;
    }))

open_folder_lem :
    (server : Bytes → Option Reply) (name : Bytes) (b : Browser)
    → open_folder server name b ≡ some (opened server name b)
unfolding open_folder to_page
open_folder_lem server name b = rw (refresh_lem server 0 _ (inl refl))

-- The state behind the button "back" in a folder below another, with the stick in place.
abbrev left : (Bytes → Option Reply) → Bytes → List Bytes → Browser → Browser
left server top popped b =
    to_parent popped
      (refreshed server 0 (record b { previous_path = top; path = top; current_pages = 0 }))

back_to_lem :
    (server : Bytes → Option Reply) (top : Bytes) (popped : List Bytes) (b : Browser)
    → (b.screen.current_page_id == tjc_page_preview) ≡ false
    → 1 < b.folder_layers
    → back_to server true top popped b ≡ some (left server top popped b)
unfolding back_to
back_to_lem server top popped b p h =
    rw
      (
        p,
        refresh_lem server 0 (record b { previous_path = top; path = top; current_pages = 0 })
            (inl refl),
      )
      (ground arith)

-- Entering a folder from a folder and pressing "back", with the stick in place and the same
-- answers of the server: the path, the stack and the number of folders entered are as before, the
-- second list page is shown from its first page, and the list is that of the old path.
pub open_folder-back :
    (server : Bytes → Option Reply) (name : Bytes) (b : Browser)
    → 0 < b.folder_layers
    → (c : Browser) × ((open_folder server name b >>= get_parenet_dir_files_list server true)
        ≡ some c)
      × (c.path ≡ b.path)
      × (c.path_stack ≡ b.path_stack)
      × (c.folder_layers ≡ b.folder_layers)
      × (c.screen.current_page_id ≡ tjc_page_file_list_2)
      × (c.current_pages ≡ 0)
      × (c.entries
          ≡ filelist
              (b.folder_layers + 1)
              (server (codes "gcodes//.cache"))
              (server (b.root_path ++ b.path)))
unfolding get_parenet_dir_files_list to_parent to_page page_to refresh_page_files_list_2 send
    write_all
open_folder-back server name b h = (
  left server b.path b.path_stack (opened server name b),
  rw (open_folder_lem server name b)
      (back_to_lem server b.path b.path_stack (opened server name b) refl (omega arith)),
  refl,
  refl,
  omega arith,
  refl,
  refl,
  refl,
)
