-- ===== src/Files/Browser/Safe.antt =====
-- src/mks_file.cpp: the browser's stack of paths and its page number over presses.
use qidi_plus.Base.{
  ℕ, suc, ◌+◌, ◌-◌, ◌*◌, ◌≤◌, ◌<◌, ◌≡◌, refl, ◌⊎◌, inl, inr, Bool, List, [], ◌∷◌, ◌++◌, Option,
  none, some, ltb, if◌then◌else◌, ◌>>=◌, >>=-eq-some, Bytes, codes, length, get_or, arith,
  Bool-cases, Option-cases,
}
use qidi_plus.Files.Listing.{Reply, filelist, last_page}
use qidi_plus.Files.Show.{set_page_files_show_list}
use qidi_plus.Files.Show.Covers.{set_page_lem, rows, filelist-AllTagged}
use qidi_plus.Files.Browser.{
  Browser, to_page, send, refresh_page_files, refresh_page_files_list_1, refresh_page_files_list_2,
  clear_cp0_image, get_file_estimated_time, open_preview, open_folder, get_sub_dir_files_list,
  reset_paths, to_root, to_parent, back_to, get_parenet_dir_files_list, open_files, previous, next,
}

-- The list that a refresh reads.
abbrev pub listing : (Bytes → Option Reply) → Browser → List Bytes
listing server b =
    filelist b.folder_layers (server (codes "gcodes//.cache")) (server (b.root_path ++ b.path))

abbrev pub refreshed : (Bytes → Option Reply) → ℕ → Browser → Browser
refreshed server p b = record b {
  entries = listing server b;
  pages = last_page (length (listing server b));
  list_name = (rows p (listing server b)).0;
  list_show = (rows p (listing server b)).1;
}

-- A page that the list has.
abbrev pub IsPage : ℕ → List Bytes → Type 0
IsPage p es = (p ≡ 0) ⊎ (p * 8 < length es)

pub refresh_lem :
    (server : Bytes → Option Reply) (p : ℕ) (b : Browser)
    → IsPage p (listing server b)
    → refresh_page_files server p b ≡ some (refreshed server p b)
unfolding refresh_page_files
refresh_lem server p b h = rw (
    set_page_lem p (listing server b)
      (filelist-AllTagged b.folder_layers (server (codes "gcodes//.cache"))
        (server (b.root_path ++ b.path)))
      h)

-- What a refresh leaves alone.
pub refresh_keeps :
    (server : Bytes → Option Reply) (p : ℕ) (b c : Browser)
    → refresh_page_files server p b ≡ some c
    → (c.path_stack ≡ b.path_stack) × (c.folder_layers ≡ b.folder_layers) × (c.path ≡ b.path)
unfolding refresh_page_files
refresh_keeps server p b c e = elim (Option-cases (set_page_files_show_list p (listing server b))) [
  | inl bad ↦ absurd (none_ne_some (rw bad at e))
  | inr (r, good) ↦ ground arith
]
  where
    none_ne_some : ◌≡◌ {A = Option Browser} none (some c) → ⊥
    none_ne_some h = cc

-- There is a path on the stack for each folder entered.
abbrev pub IsStacked : Browser → Type 0
IsStacked b = b.folder_layers ≤ length b.path_stack

-- What the user does in the file browser.
pub data Press : Type 0 where
  files back turn_left_1 turn_right_1 turn_left_2 turn_right_2 : Press
  chooses : ℕ → Press

-- With the replies of the server and the state of the stick at that time.
unfoldable pub press : (Bytes → Option Reply) → Bool → Press → Browser → Option Browser
press server disk files b = open_files server b
press server disk back b = get_parenet_dir_files_list server disk b
press server disk turn_left_1 b = previous server refresh_page_files_list_1 b
press server disk turn_right_1 b = next server refresh_page_files_list_1 b
press server disk turn_left_2 b = previous server refresh_page_files_list_2 b
press server disk turn_right_2 b = next server refresh_page_files_list_2 b
press server disk (chooses button) b = get_sub_dir_files_list server button b

-- A refresh of the screen that comes behind a refresh of the list.
abbrev KeepsStack : (Browser → Browser) → Type 0
KeepsStack f =
    (d : Browser) → ((f d).path_stack ≡ d.path_stack) × ((f d).folder_layers ≡ d.folder_layers)

list_1-KeepsStack : KeepsStack refresh_page_files_list_1
unfolding refresh_page_files_list_1 send
list_1-KeepsStack d = (refl, refl)

list_2-KeepsStack : KeepsStack refresh_page_files_list_2
unfolding refresh_page_files_list_2 send
list_2-KeepsStack d = (refl, refl)

module _ (server : Bytes → Option Reply) where
  refresh-IsStacked :
      (p : ℕ) (b c : Browser) (f : Browser → Browser)
      → KeepsStack f
      → IsStacked b
      → (refresh_page_files server p b >>= λ d. some (f d)) ≡ some c
      → IsStacked c
  refresh-IsStacked p b c f keep h e = elim (Option-cases (refresh_page_files server p b)) [
    | inl bad ↦ absurd (none_ne_some (rw bad at e))
    | inr (d, good) ↦ ground (arith, refresh_keeps server p b d good, keep d)
  ]
    where
      none_ne_some : ◌≡◌ {A = Option Browser} none (some c) → ⊥
      none_ne_some h = cc

  open_files-IsStacked : (b c : Browser) → open_files server b ≡ some c → IsStacked c
  unfolding open_files to_page
  open_files-IsStacked b c e =
      refresh-IsStacked 0 _ c refresh_page_files_list_1 list_1-KeepsStack (omega arith) e

  previous-IsStacked :
      (f : Browser → Browser) (b c : Browser)
      → KeepsStack f
      → IsStacked b
      → previous server f b ≡ some c
      → IsStacked c
  unfolding previous
  previous-IsStacked f b c keep h e = elim (Bool-cases (ltb 0 b.current_pages)) [
    | inl more ↦
        refresh-IsStacked (b.current_pages - 1) (record b { current_pages = b.current_pages - 1 }) c
          f keep h (rw more at e)
    | inr first ↦ ground arith
  ]

  next-IsStacked :
      (f : Browser → Browser) (b c : Browser)
      → KeepsStack f
      → IsStacked b
      → next server f b ≡ some c
      → IsStacked c
  unfolding next
  next-IsStacked f b c keep h e = elim (Bool-cases (ltb b.current_pages b.pages)) [
    | inl more ↦
        refresh-IsStacked (b.current_pages + 1) (record b { current_pages = b.current_pages + 1 }) c
          f keep h (rw more at e)
    | inr last ↦ ground arith
  ]

  open_folder-IsStacked :
      (name : Bytes) (b c : Browser)
      → IsStacked b
      → open_folder server name b ≡ some c
      → IsStacked c
  unfolding open_folder to_page
  open_folder-IsStacked name b c h e =
      refresh-IsStacked 0 _ c refresh_page_files_list_2 list_2-KeepsStack (omega arith) e

  open_preview-IsStacked :
      (file : Bytes) (b : Browser) → IsStacked b → IsStacked (open_preview file b)
  unfolding open_preview to_page clear_cp0_image send get_file_estimated_time
  open_preview-IsStacked file b h = omega arith

  choose-IsStacked :
      (button : ℕ) (b c : Browser)
      → IsStacked b
      → get_sub_dir_files_list server button b ≡ some c
      → IsStacked c
  unfolding get_sub_dir_files_list
  choose-IsStacked button b c h e =
      let shown = get_or b.list_show button ([], []) in
      ground (
        arith,
        open_folder-IsStacked shown.1 b c h,
        open_preview-IsStacked (b.path ++ (codes "/" ++ shown.1)) b h,
        open_preview-IsStacked (b.path ++ (codes "/.cache/" ++ shown.1)) b h,
      )

  to_root-IsStacked : (b c : Browser) → to_root server b ≡ some c → IsStacked c
  unfolding to_root to_page
  to_root-IsStacked b c e =
      refresh-IsStacked b.current_pages _ c
        (λ d. record (refresh_page_files_list_1 d) { previous_path = []; path = [] })
        list_1-KeepsStack (omega arith) e

  to_parent-IsStacked :
      (popped : List Bytes) (b : Browser)
      → b.folder_layers ≤ suc (length popped)
      → IsStacked (to_parent popped b)
  unfolding to_parent to_page refresh_page_files_list_2 send
  to_parent-IsStacked popped b h = omega arith

  leave-IsStacked :
      (popped : List Bytes) (e c : Browser)
      → e.folder_layers ≤ suc (length popped)
      → (refresh_page_files server e.current_pages e >>= λ f.
          if ltb 1 f.folder_layers then some (to_parent popped f) else to_root server f)
        ≡ some c
      → IsStacked c
  leave-IsStacked popped e c h eq =
      elim (Option-cases (refresh_page_files server e.current_pages e)) [
        | inl bad ↦ absurd (none_ne_some (rw bad at eq))
        | inr (f, good) ↦ ground (
          arith,
          refresh_keeps server e.current_pages e f good,
          to_parent-IsStacked popped f,
          to_root-IsStacked f c,
        )
      ]
    where
      none_ne_some : ◌≡◌ {A = Option Browser} none (some c) → ⊥
      none_ne_some h = cc

  back_to-IsStacked :
      (disk : Bool) (top : Bytes) (popped : List Bytes) (b c : Browser)
      → b.folder_layers ≤ suc (length popped)
      → back_to server disk top popped b ≡ some c
      → IsStacked c
  unfolding back_to reset_paths
  back_to-IsStacked disk top popped b c h e = leave-IsStacked popped _ c (ground arith) e

  back-IsStacked :
      (disk : Bool) (stack : List Bytes) (b c : Browser)
      → b.path_stack ≡ stack
      → IsStacked b
      → get_parenet_dir_files_list server disk b ≡ some c
      → IsStacked c
  unfolding get_parenet_dir_files_list
  back-IsStacked disk [] b c s h e = ground arith
  back-IsStacked disk (top ∷ popped) b c s h e =
      back_to-IsStacked disk top popped b c (ground arith) (rw (s, get_parenet_dir_files_list) at e)

  press-IsStacked :
      (disk : Bool) (p : Press) (b c : Browser)
      → IsStacked b
      → press server disk p b ≡ some c
      → IsStacked c
  unfolding press
  press-IsStacked disk files b c h e = open_files-IsStacked b c e
  press-IsStacked disk back b c h e = back-IsStacked disk b.path_stack b c refl h e
  press-IsStacked disk turn_left_1 b c h e = previous-IsStacked _ b c list_1-KeepsStack h e
  press-IsStacked disk turn_right_1 b c h e = next-IsStacked _ b c list_1-KeepsStack h e
  press-IsStacked disk turn_left_2 b c h e = previous-IsStacked _ b c list_2-KeepsStack h e
  press-IsStacked disk turn_right_2 b c h e = next-IsStacked _ b c list_2-KeepsStack h e
  press-IsStacked disk (chooses button) b c h e = choose-IsStacked button b c h e

-- One press each, with what the server and the stick answer at that time.
unfoldable pub run : List ((Bytes → Option Reply) × Bool × Press) → Browser → Option Browser
run [] b = some b
run ((server, disk, p) ∷ ps) b = do c ← press server disk p b; run ps c

-- Along every sequence of presses that meets no undefined behaviour, whatever the server and the
-- stick answer, the stack holds at least one path for each folder entered.
pub run-IsStacked :
    (ps : List ((Bytes → Option Reply) × Bool × Press)) (b c : Browser)
    → IsStacked b
    → run ps b ≡ some c
    → IsStacked c
unfolding run
run-IsStacked [] b c h e = ground arith
run-IsStacked ((server, disk, p) ∷ ps) b c h e =
    let (d, one, more) = >>=-eq-some (press server disk p b) (run ps) e in
    run-IsStacked ps d c (press-IsStacked server disk p b d h one) more
