-- ===== src/Files/Browser/Total.antt =====
-- src/mks_file.cpp, src/ui.cpp: the presses of the file browser that meet no undefined behaviour,
-- with a server that answers every request emptily or with a listing.
use qidi_plus.Base.{
  ℕ, ◌+◌, ◌-◌, ◌*◌, ◌<◌, ◌≡◌, refl, inl, inr, Bool, true, false, [], Option, some, ltb,
  if◌then◌else◌, ◌>>=◌, Bytes, codes, bytes_eq, length, get_or, arith,
}
use qidi_plus.Files.Listing.{Reply, last_page}
use qidi_plus.Files.Browser.{
  Browser, refresh_page_files, refresh_page_files_list_1, refresh_page_files_list_2, open_folder,
  get_sub_dir_files_list, open_files, previous, next,
}
use qidi_plus.Files.Browser.Safe.{listing, refreshed, IsPage, refresh_lem}

-- There is a result.
abbrev pub Returns {ℓ} : {A : Type ℓ} → Option A → Type ℓ
Returns {A = A} o = (a : A) × (o ≡ some a)

bind-Returns {ℓ} :
    {A B : Type ℓ} (m : Option A) (next : A → B) → Returns m → Returns (m >>= λ a. some (next a))
bind-Returns m next (a, e) = (next a, rw e refl)

if-Returns {ℓ} :
    {A : Type ℓ} (b : Bool) (x y : Option A)
    → (b ≡ true → Returns x)
    → (b ≡ false → Returns y)
    → Returns (if b then x else y)
if-Returns true x y h k = h refl
if-Returns false x y h k = k refl

refresh-Returns :
    (server : Bytes → Option Reply) (p : ℕ) (b : Browser)
    → IsPage p (listing server b)
    → Returns (refresh_page_files server p b)
refresh-Returns server p b h = (refreshed server p b, refresh_lem server p b h)

open_folder-Returns :
    (server : Bytes → Option Reply) (name : Bytes) (b : Browser)
    → Returns (open_folder server name b)
unfolding open_folder
open_folder-Returns server name b =
    bind-Returns (refresh_page_files server 0 _) refresh_page_files_list_2
      (refresh-Returns server 0 _ (inl refl))

-- For every server whose answers are empty or listings, whatever these list, opening the browser
-- and choosing any of its rows return: neither reads past the end of a list.
pub choose-Returns :
    (server : Bytes → Option Reply) (button : ℕ) (b : Browser)
    → Returns (open_files server b) × Returns (get_sub_dir_files_list server button b)
unfolding open_files get_sub_dir_files_list
choose-Returns server button b =
    let (kind, name) = get_or b.list_show button ([], []) in
    (
      bind-Returns (refresh_page_files server 0 _) refresh_page_files_list_1
          (refresh-Returns server 0 _ (inl refl)),
      if-Returns (bytes_eq (codes "[d]") kind) _ _ (λ d. open_folder-Returns server name b)
          (λ d.
            if-Returns (bytes_eq (codes "[f]") kind) _ _ (λ f. (_, refl))
              (λ f.
                if-Returns (bytes_eq (codes "[c]") kind) _ _ (λ c. (_, refl)) (λ c. (_, refl)))),
    )

later_page :
    (page pages size : ℕ) → pages ≡ last_page size → ltb page pages ≡ true → (page + 1) * 8 < size
unfolding last_page
later_page page pages size p more = ground (arith, p)

-- With the number of the last page that the list has, and a page that it has, the two buttons that
-- turn the page return: they do not read past the end of the list.
pub turn-Returns :
    (server : Bytes → Option Reply) (refresh : Browser → Browser) (b : Browser)
    → b.pages ≡ last_page (length (listing server b))
    → IsPage b.current_pages (listing server b)
    → Returns (previous server refresh b) × Returns (next server refresh b)
unfolding previous next
turn-Returns server refresh b p h = (
  if-Returns (ltb 0 b.current_pages) _ (some b)
      (λ more. bind-Returns (refresh_page_files server (b.current_pages - 1) _) refresh (
        refresh-Returns server (b.current_pages - 1)
          (record b { current_pages = b.current_pages - 1 }) (earlier more)))
      (λ first. (b, refl)),
  if-Returns (ltb b.current_pages b.pages) _ (some b)
      (λ more. bind-Returns (refresh_page_files server (b.current_pages + 1) _) refresh (
        refresh-Returns server (b.current_pages + 1)
          (record b { current_pages = b.current_pages + 1 })
          (inr (later_page b.current_pages b.pages (length (listing server b)) p more))))
      (λ last. (b, refl)),
)
  where
    earlier : ltb 0 b.current_pages ≡ true → IsPage (b.current_pages - 1) (listing server b)
    earlier more = ground (arith, h)
