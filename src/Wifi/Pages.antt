-- ===== src/Wifi/Pages.antt =====
-- src/MakerbaseWiFi.cpp: `get_ssid_list_pages` and `set_page_wifi_ssid_list`; src/ui.cpp: the
-- buttons of the network page that turn it, and src/event.cpp: the rescan that starts it again.
pub mod Shown
use qidi_plus.Base.{
  ℕ, ◌+◌, ◌-◌, ◌*◌, ◌/◌, ◌%◌, ◌≡◌, refl, List, [], ◌∷◌, Option, none, some, ltb, ◌==◌,
  if◌then◌else◌, ◌>>=◌, Bytes, length, advance, slots,
}

-- The globals `ssid_list`, `page_wifi_ssid_list_pages`, `page_wifi_current_pages` and
-- `page_wifi_ssid_list[5]`.
pub record WifiPages : Type 0 where
  pub ssid_list : List Bytes
  pub ssid_list_pages : ℕ
  pub current_pages : ℕ
  pub shown : List Bytes

-- At most six pages of five networks.
pub get_ssid_list_pages : WifiPages → WifiPages
get_ssid_list_pages s =
    let size = length s.ssid_list in
    let pages = if size % 5 == 0 then size / 5 else size / 5 + 1 in
    record s { ssid_list_pages = if ltb 6 pages then 6 else pages }

-- `none`: the iterator has passed the end.
pub set_page_wifi_ssid_list : ℕ → WifiPages → Option WifiPages
set_page_wifi_ssid_list pages s = do
  it ← advance (pages * 5) s.ssid_list
  some (record s { shown = slots 5 [] it })

-- `TJC_PAGE_WIFI_LIST_2_PREVIOUS`
pub previous : WifiPages → Option WifiPages
previous s =
    if ltb 0 s.current_pages
    then set_page_wifi_ssid_list (s.current_pages - 1)
        (record s { current_pages = s.current_pages - 1 })
    else some s

-- `TJC_PAGE_WIFI_LIST_2_NEXT`. The pages are an `int`: `pages - 1` is -1 for none, which no page
-- number is below, so the test is written with the sum.
pub next : WifiPages → Option WifiPages
next s =
    if ltb (s.current_pages + 1) s.ssid_list_pages
    then set_page_wifi_ssid_list (s.current_pages + 1)
        (record s { current_pages = s.current_pages + 1 })
    else some s

-- `scan_ssid_and_show`, with the list that the scan has left.
pub scan_ssid_and_show : List Bytes → WifiPages → Option WifiPages
unfolding get_ssid_list_pages
scan_ssid_and_show found s =
    let counted = get_ssid_list_pages (record s { ssid_list = found }) in
    set_page_wifi_ssid_list 0 (record counted { current_pages = 0 })
