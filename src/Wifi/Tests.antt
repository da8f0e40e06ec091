-- ===== src/Wifi/Tests.antt =====
-- The Wi-Fi component on concrete inputs.
use qidi_plus.Base.{
  ℕ, ◌<◌, ◌≡◌, refl, List, [], ◌∷◌, ◌++◌, some, inr, Bytes, bytes_eq, codes, length, get_or, slots,
  arith,
}
use qidi_plus.Wifi.Decode.{printf_decode}
use qidi_plus.Wifi.Decode.Bounds.{printf_decode_bounds}
use qidi_plus.Wifi.Decode.RoundTrip.{printf_decode-escaped, escaped, AreBytes}
use qidi_plus.Wifi.Scan.{
  lines_loop, skip, token, scan_lines, scan_line, fields_loop, c_str, push_ssid, front_loop,
  swap_front, connected_first, parse_scan_results, lines,
}
use qidi_plus.Wifi.Scan.Order.{connected_first_lem, count}
use qidi_plus.Wifi.Pages.{WifiPages, get_ssid_list_pages, set_page_wifi_ssid_list}
use qidi_plus.Wifi.Pages.Shown.{
  IsShown, presses_next, presses_previous, rescans, run, run-IsShown,
  set_page_wifi_ssid_list_covers,
}

abbrev cafe : Bytes
cafe = codes "caf" ++ 195 ∷ 169 ∷ []

decodes_cafe : printf_decode 33 (codes "caf\\xc3\\xa9") ≡ some cafe
unfolding printf_decode
decodes_cafe = refl

printf_decode_bounds_example :
    (r : Bytes) × (printf_decode 4 (codes "a\\x41bcdef") ≡ some r) × (length r < 4)
printf_decode_bounds_example = printf_decode_bounds 4 (codes "a\\x41bcdef") (omega arith)

cafe-AreBytes : AreBytes cafe
cafe-AreBytes = (omega arith, (omega arith, (omega arith, (omega arith, (omega arith, tt)))))

printf_decode-escaped_example : printf_decode 33 (escaped cafe) ≡ some cafe
printf_decode-escaped_example = printf_decode-escaped 33 cafe cafe-AreBytes (omega arith)

abbrev scan_reply : Bytes
scan_reply =
    codes "bssid\t/ frequency\n00:11\t2412\t-40\t[WPA2]\tattic\n00:22\t2412\t-50\t[WPA2]\tcellar\n"

lines_reply :
    lines scan_reply
    ≡ codes "bssid\t/ frequency"
      ∷ codes "00:11\t2412\t-40\t[WPA2]\tattic"
      ∷ codes "00:22\t2412\t-50\t[WPA2]\tcellar"
      ∷ []
unfolding lines lines_loop skip token
lines_reply = refl

parses_reply :
    parse_scan_results (codes "cellar") scan_reply ≡ some (codes "cellar" ∷ codes "attic" ∷ [])
unfolding parse_scan_results lines lines_loop skip token scan_lines scan_line fields_loop c_str
    push_ssid connected_first front_loop swap_front bytes_eq printf_decode
parses_reply = refl

abbrev three : List Bytes
three = codes "attic" ∷ codes "cellar" ∷ codes "barn" ∷ []

connected_first_lem_example :
    ((x : Bytes) → count x (connected_first (codes "barn") three) ≡ count x three)
    × ((k : ℕ)
        → k < length three
        → get_or three k [] ≡ codes "barn"
        → get_or (connected_first (codes "barn") three) 0 [] ≡ codes "barn")
connected_first_lem_example = connected_first_lem (codes "barn") three

abbrev six : List Bytes
six = codes "a" ∷ codes "b" ∷ codes "c" ∷ codes "d" ∷ codes "e" ∷ codes "f" ∷ []

abbrev first_page : WifiPages
first_page = record {
  ssid_list = six;
  ssid_list_pages = 2;
  current_pages = 0;
  shown = slots 5 [] six;
}

first_page-IsShown : IsShown first_page
first_page-IsShown = record { counted = refl; within = inr refl; shown = refl }

run-IsShown_example :
    (t : WifiPages) × (run
        (presses_next ∷ presses_next ∷ rescans three ∷ presses_previous ∷ [])
        first_page
      ≡ some t)
    × IsShown t
run-IsShown_example =
    run-IsShown (presses_next ∷ presses_next ∷ rescans three ∷ presses_previous ∷ []) first_page
      first_page-IsShown

set_page_wifi_ssid_list_covers_example :
    (t : WifiPages) × (set_page_wifi_ssid_list 1 (get_ssid_list_pages first_page) ≡ some t)
    × (1 < t.ssid_list_pages)
    × (get_or t.shown 0 [] ≡ codes "f")
set_page_wifi_ssid_list_covers_example =
    set_page_wifi_ssid_list_covers first_page 5 (omega arith) (omega arith)
