-- ===== src/Ui/Footprint/Files.antt =====
-- The footprints of the operations of the file browser, as the panel calls them.
use qidi_plus.Base.{
  ℕ, ◌+◌, ◌-◌, ltb, Bool, true, false, List, ◌∷◌, [], Option, none, some, ◌≡◌, refl, sym, ap, subst,
  ◌∙◌, Bytes, ◌>>=◌, >>=-eq-some, some_inj, Option-cases, inl, inr, ◌⊎◌, Bool-cases, arith,
  if◌then◌else◌, bytes_eq, codes, get_or, ◌++◌,
}
use qidi_plus.Screen.{
  page_to, write_all, tjc_page_file_list_1, tjc_page_file_list_2, tjc_page_preview,
}
use qidi_plus.Files.Listing.{Reply}
use qidi_plus.Files.Show.{set_page_files_show_list}
use qidi_plus.Files.Browser
use qidi_plus.Files.Browser.Safe.{listing}
use qidi_plus.Files.Browser.{
  Browser, to_page, send, refresh_page_files, refresh_page_files_list_1, refresh_page_files_list_2,
  clear_cp0_image, get_file_estimated_time, open_preview, open_folder, get_sub_dir_files_list,
  reset_paths, to_root, to_parent, back_to, get_parenet_dir_files_list, open_files,
}
use qidi_plus.Ui.Panel.{page, act}
use qidi_plus.Ui.Print.{
  on_files, on_list, open_list, open_entry, leave_folder, list_previous, list_next, refresh_files,
}
use qidi_plus.Ui.Footprint.{Footprint, Footprint-act, Footprint-at, among, among-here, notables}

-- The page that the browser stands on.
abbrev pub at : Browser → ℕ
at b = b.screen.current_page_id

pub Footprint-files :
    {l : List ℕ} {loud : Bool} (f : Browser → Browser)
    → ((b : Browser) → at (f b) ≡ at b)
    → Footprint l loud (on_files f)
unfolding on_files act
Footprint-files {l} f same =
    Footprint-act _
      (λ p. subst (λ n. among n (page p ∷ l) ≡ true) (sym (same p.files)) (among-here (page p) l))
      (λ p _. refl)

Footprint-list :
    {l : List ℕ} {loud : Bool} (f : (Bytes → Option Reply) → Browser → Option Browser)
    → ((server : Bytes → Option Reply) (b c : Browser)
        → f server b ≡ some c
        → among (at c) (at b ∷ l) ≡ true)
    → Footprint l loud (on_list f)
unfolding on_list
Footprint-list {l} f within = record {
  page_within = λ p q h.
      let (b, got, same) =
        >>=-eq-some (f p.world.server p.files) (λ b. some (record p { files = b })) h in
      subst (λ r. among (page r) (page p ∷ l) ≡ true) (some_inj same)
        (within p.world.server p.files b got);
  effects_within = λ p q h _.
      let (b, _, same) =
        >>=-eq-some (f p.world.server p.files) (λ b. some (record p { files = b })) h in
      ap (λ r. notables r.effects) (sym (some_inj same));
}

-- A refresh of the list stays on the page.
refresh-at :
    (server : Bytes → Option Reply) (n : ℕ) (b c : Browser)
    → refresh_page_files server n b ≡ some c
    → at c ≡ at b
unfolding refresh_page_files
refresh-at server n b c h = elim (Option-cases (set_page_files_show_list n (listing server b))) [
  | inl bad ↦ absurd (none_ne_some (rw bad at h))
  | inr (shown, good) ↦ ground arith
]
  where
    none_ne_some : ◌≡◌ {A = Option Browser} none (some c) → ⊥
    none_ne_some e = cc

-- What follows a refresh and stays on the page.
refreshed-at :
    (server : Bytes → Option Reply) (n : ℕ) (b c : Browser) (f : Browser → Browser)
    → ((d : Browser) → at (f d) ≡ at d)
    → (refresh_page_files server n b >>= (λ d. some (f d))) ≡ some c
    → at c ≡ at b
refreshed-at server n b c f same h =
    let (d, got, end) = >>=-eq-some (refresh_page_files server n b) (λ d. some (f d)) h in
    ap at (sym (some_inj end)) ∙ same d ∙ refresh-at server n b d got

pub list_1-at : (b : Browser) → at (refresh_page_files_list_1 b) ≡ at b
unfolding refresh_page_files_list_1 send write_all
list_1-at b = refl

pub list_2-at : (b : Browser) → at (refresh_page_files_list_2 b) ≡ at b
unfolding refresh_page_files_list_2 send write_all
list_2-at b = refl

open_files-at :
    (server : Bytes → Option Reply) (b c : Browser)
    → open_files server b ≡ some c
    → at c ≡ tjc_page_file_list_1
unfolding open_files to_page page_to write_all
open_files-at server b c h = refreshed-at server 0 _ c refresh_page_files_list_1 list_1-at h

open_preview-at : (file : Bytes) (b : Browser) → at (open_preview file b) ≡ tjc_page_preview
unfolding open_preview get_file_estimated_time clear_cp0_image send to_page page_to write_all
open_preview-at file b = refl

open_folder-at :
    (server : Bytes → Option Reply) (name : Bytes) (b c : Browser)
    → open_folder server name b ≡ some c
    → at c ≡ tjc_page_file_list_2
unfolding open_folder to_page page_to write_all
open_folder-at server name b c h = refreshed-at server 0 _ c refresh_page_files_list_2 list_2-at h

to_parent-at : (popped : List Bytes) (b : Browser) → at (to_parent popped b) ≡ tjc_page_file_list_2
unfolding to_parent refresh_page_files_list_2 send to_page page_to write_all
to_parent-at popped b = refl

to_root-at :
    (server : Bytes → Option Reply) (b c : Browser)
    → to_root server b ≡ some c
    → at c ≡ tjc_page_file_list_1
unfolding to_root to_page page_to write_all
to_root-at server b c h = refreshed-at server _ _ c _ list_1-at h

-- Behind the stack's top: a parent folder, or the first list.
leave_at :
    (server : Bytes → Option Reply) (popped : List Bytes) (t : Bool) (f c : Browser)
    → (if t then some (to_parent popped f) else to_root server f) ≡ some c
    → (at c ≡ tjc_page_file_list_2) ⊎ (at c ≡ tjc_page_file_list_1)
leave_at server popped true f c h = inl (ap at (sym (some_inj h)) ∙ to_parent-at popped f)
leave_at server popped false f c h = inr (to_root-at server f c h)

leave_refreshed :
    (server : Bytes → Option Reply) (popped : List Bytes) (e c : Browser)
    → (refresh_page_files server e.current_pages e
        >>= (λ f. if ltb 1 f.folder_layers then some (to_parent popped f) else to_root server f))
      ≡ some c
    → (at c ≡ tjc_page_file_list_2) ⊎ (at c ≡ tjc_page_file_list_1)
leave_refreshed server popped e c h =
    let (f, _, rest) =
      >>=-eq-some (refresh_page_files server e.current_pages e)
        (λ f. if ltb 1 f.folder_layers then some (to_parent popped f) else to_root server f) h in
    leave_at server popped (ltb 1 f.folder_layers) f c rest

back_to-at :
    (server : Bytes → Option Reply) (disk : Bool) (top : Bytes) (popped : List Bytes)
    (b c : Browser)
    → back_to server disk top popped b ≡ some c
    → (at c ≡ tjc_page_file_list_2) ⊎ (at c ≡ tjc_page_file_list_1)
unfolding back_to
back_to-at server disk top popped b c h = leave_refreshed server popped _ c h

get_parenet_dir_files_list-at :
    (server : Bytes → Option Reply) (disk : Bool) (b c : Browser)
    → get_parenet_dir_files_list server disk b ≡ some c
    → (at c ≡ tjc_page_file_list_2) ⊎ (at c ≡ tjc_page_file_list_1)
unfolding get_parenet_dir_files_list
get_parenet_dir_files_list-at server disk b c h =
    (elim (b.path_stack)
        as (λ s.
          (elim s [ [] ↦ none | top ∷ popped ↦ back_to server disk top popped b ]) ≡ some c
          → (at c ≡ tjc_page_file_list_2) ⊎ (at c ≡ tjc_page_file_list_1)) [
            | [] ↦ λ e. cc
            | top ∷ popped ↦ λ e. back_to-at server disk top popped b c e
          ])
      h

get_sub_dir_files_list-at :
    (server : Bytes → Option Reply) (button : ℕ) (b c : Browser)
    → get_sub_dir_files_list server button b ≡ some c
    → (at c ≡ tjc_page_file_list_2) ⊎ (at c ≡ tjc_page_preview) ⊎ (at c ≡ at b)
unfolding get_sub_dir_files_list
get_sub_dir_files_list-at server button b c h =
    let kind = (get_or b.list_show button ([], [])).0 in
    let name = (get_or b.list_show button ([], [])).1 in
    elim (Bool-cases (bytes_eq (codes "[d]") kind)) [
      | inl d ↦ inl (open_folder-at server name b c (rw d at h))
      | inr nd ↦ ground (
        arith,
        open_preview-at (b.path ++ (codes "/" ++ name)) b,
        open_preview-at (b.path ++ (codes "/.cache/" ++ name)) b,
      )
    ]

lands : (m n k : ℕ) (l : List ℕ) → m ≡ n → among n l ≡ true → among m (k ∷ l) ≡ true
lands m n k l h = ground arith

stays : (m k : ℕ) (l : List ℕ) → m ≡ k → among m (k ∷ l) ≡ true
stays m k l h = ground arith

pub open_list-Footprint :
    {l : List ℕ} {loud : Bool} → among tjc_page_file_list_1 l ≡ true → Footprint l loud open_list
unfolding open_list
open_list-Footprint {l} m =
    Footprint-list open_files
      (λ server b c h. lands (at c) tjc_page_file_list_1 (at b) l (open_files-at server b c h) m)

pub open_entry-Footprint :
    {l : List ℕ} {loud : Bool} (button : ℕ)
    → among tjc_page_preview l ≡ true
    → among tjc_page_file_list_2 l ≡ true
    → Footprint l loud (open_entry button)
unfolding open_entry
open_entry-Footprint {l} button m1 m2 = Footprint-list _ (λ server b c h.
    elim (get_sub_dir_files_list-at server button b c h) [
      | inl e ↦ lands (at c) tjc_page_file_list_2 (at b) l e m2
      | inr (inl e) ↦ lands (at c) tjc_page_preview (at b) l e m1
      | inr (inr e) ↦ stays (at c) (at b) l e
    ])

pub leave_folder-Footprint :
    {l : List ℕ} {loud : Bool}
    → among tjc_page_file_list_1 l ≡ true
    → among tjc_page_file_list_2 l ≡ true
    → Footprint l loud leave_folder
unfolding leave_folder
leave_folder-Footprint {l} m1 m2 = Footprint-at (λ p. Footprint-list _ (λ server b c h.
    elim (get_parenet_dir_files_list-at server p.world.disk b c h) [
      | inl e ↦ lands (at c) tjc_page_file_list_2 (at b) l e m2
      | inr e ↦ lands (at c) tjc_page_file_list_1 (at b) l e m1
    ]))

pub refresh_files-Footprint : {l : List ℕ} {loud : Bool} → Footprint l loud refresh_files
unfolding refresh_files
refresh_files-Footprint {l} =
    Footprint-list _
      (λ server b c h. stays (at c) (at b) l (refresh-at server b.current_pages b c h))

-- A button that turns the page of a list.
turned :
    (server : Bytes → Option Reply) (refresh : Browser → Browser) (n : ℕ) (t : Bool)
    (b moved c : Browser)
    → ((d : Browser) → at (refresh d) ≡ at d)
    → at moved ≡ at b
    → (if t then refresh_page_files server n moved >>= (λ d. some (refresh d)) else some b) ≡ some c
    → at c ≡ at b
turned server refresh n true b moved c same start h =
    refreshed-at server n moved c refresh same h ∙ start
turned server refresh n false b moved c same start h = ap at (sym (some_inj h))

pub list_previous-Footprint :
    {l : List ℕ} {loud : Bool} (refresh : Browser → Browser)
    → ((d : Browser) → at (refresh d) ≡ at d)
    → Footprint l loud (list_previous refresh)
unfolding list_previous Browser.previous
list_previous-Footprint {l} refresh same = Footprint-list _ (λ server b c h. stays (at c) (at b) l (
    turned server refresh (b.current_pages - 1) (ltb 0 b.current_pages) b
      (record b { current_pages = b.current_pages - 1 }) c same refl h))

pub list_next-Footprint :
    {l : List ℕ} {loud : Bool} (refresh : Browser → Browser)
    → ((d : Browser) → at (refresh d) ≡ at d)
    → Footprint l loud (list_next refresh)
unfolding list_next Browser.next
list_next-Footprint {l} refresh same = Footprint-list _ (λ server b c h. stays (at c) (at b) l (
    turned server refresh (b.current_pages + 1) (ltb b.current_pages b.pages) b
      (record b { current_pages = b.current_pages + 1 }) c same refl h))

pub ruleset files = (
  Footprint-files, list_1-at, list_2-at, open_list-Footprint, open_entry-Footprint,
  leave_folder-Footprint, refresh_files-Footprint, list_previous-Footprint, list_next-Footprint,
)
