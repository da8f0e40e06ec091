-- ===== src/Ui/FirstRow.antt =====
-- src/event.cpp: `refresh_page_wifi_list` and the button of its first row.
use qidi_plus.Base.{
  ℕ, suc, ◌+◌, ◌==◌, ◌≡◌, refl, ap, Bool, true, false, not, ◌&&◌, List, [], ◌∷◌, Option, some,
  Bytes, codes, bytes_eq, subst, ◌++◌, get_or, set, some_inj, >>=-eq-some, arith, to_string,
}
use qidi_plus.Ui.Panel.{World, Panel, ◌▸◌, act, when, show}
use qidi_plus.SendMsg.Widget.{send_cmd_txt}
use qidi_plus.Wifi.Pages.{WifiPages}
use qidi_plus.Ui.Network.{
  wlan0, connected, first_row, lock_row, turn_pictures, wifi_row, set_button,
  refresh_page_wifi_list, row_name,
}

-- Whether the button of the first row is to work: not on the row of the connected network.
abbrev pub may_join : Panel → Bool
may_join p = not (p.wifi.current_pages == 0 && connected p)

-- The first button, the world and the list that a panel has.
record Has (first : Bool) (world : World) (wifi : WifiPages) (p : Panel) : Type 0 where
  others : List Bool
  buttons_are : p.ssid_buttons ≡ first ∷ others
  world_is : p.world ≡ world
  wifi_is : p.wifi ≡ wifi

-- Whether the first button is to work, of a world and a list.
abbrev to_join : World → WifiPages → Bool
to_join w l = not (l.current_pages == 0 && bytes_eq w.wpa_state (codes "COMPLETED"))

first_row-Has :
    (b : Bool) (w : World) (l : WifiPages) (p q : Panel)
    → Has b w l p
    → first_row p ≡ some q
    → Has (to_join w l) w l q
unfolding first_row when ◌▸◌ show set_button act connected
first_row-Has b w l p q has h = record {
  others = has.others;
  buttons_are =
      let bs = has.buttons_are in let ws = has.world_is in let ls = has.wifi_is in ground arith;
  world_is = let ws = has.world_is in ground arith;
  wifi_is = let ls = has.wifi_is in ground arith;
}

-- The other rows leave the first button alone; row 0 sets it by the name.
lock_row-Has :
    (i : ℕ) (b : Bool) (w : World) (l : WifiPages) (p q : Panel)
    → Has b w l p
    → lock_row (suc i) p ≡ some q
    → Has b w l q
unfolding lock_row when ◌▸◌ show set_button act
lock_row-Has i b w l p q has h = record {
  others = set has.others i (not (bytes_eq (get_or p.wifi.shown (suc i) []) []));
  buttons_are = let bs = has.buttons_are in ground arith;
  world_is = let ws = has.world_is in ground arith;
  wifi_is = let ls = has.wifi_is in ground arith;
}

lock_first-Has :
    (b : Bool) (w : World) (l : WifiPages) (p q : Panel)
    → Has b w l p
    → lock_row 0 p ≡ some q
    → Has (not (bytes_eq (get_or p.wifi.shown 0 []) [])) w l q
unfolding lock_row when ◌▸◌ show set_button act
lock_first-Has b w l p q has h = record {
  others = has.others;
  buttons_are = let bs = has.buttons_are in ground arith;
  world_is = let ws = has.world_is in ground arith;
  wifi_is = let ls = has.wifi_is in ground arith;
}

shown-Has :
    (b : Bool) (w : World) (l : WifiPages) (c : List Bytes) (p q : Panel)
    → Has b w l p
    → show c p ≡ some q
    → Has b w l q
unfolding show
shown-Has b w l c p q has h = subst (Has b w l) (some_inj h) record {
  others = has.others;
  buttons_are = has.buttons_are;
  world_is = has.world_is;
  wifi_is = has.wifi_is;
}

turn-Has :
    (b : Bool) (w : World) (l : WifiPages) (p q : Panel)
    → Has b w l p
    → turn_pictures p ≡ some q
    → Has b w l q
unfolding turn_pictures
turn-Has b w l p q has h = shown-Has b w l _ p q has h

row-Has :
    (i : ℕ) (b : Bool) (w : World) (l : WifiPages) (p q : Panel)
    → Has b w l p
    → wifi_row (suc i) p ≡ some q
    → Has (to_join w l) w l q
unfolding wifi_row ◌▸◌
row-Has i b w l p q has h =
    let (p1, h1, k1) = >>=-eq-some (name p) (first_row ▸ lock_row (suc i) ▸ turn_pictures) h in
    let (p2, h2, k2) = >>=-eq-some (first_row p1) (lock_row (suc i) ▸ turn_pictures) k1 in
    let (p3, h3, k3) = >>=-eq-some (lock_row (suc i) p2) turn_pictures k2 in
    let has1 = shown-Has b w l _ p p1 has h1 in
    let has2 = first_row-Has b w l p1 p2 has1 h2 in
    turn-Has _ w l p3 q (lock_row-Has i _ w l p2 p3 has2 h3) k3
  where
    name : Panel → Option Panel
    name r = show (send_cmd_txt (codes "t" ++ to_string (suc i + 1)) (row_name (suc i) r) ∷ []) r

first-Has :
    (b : Bool) (w : World) (l : WifiPages) (p q : Panel)
    → Has b w l p
    → wifi_row 0 p ≡ some q
    → (c : Bool) × Has c w l q
unfolding wifi_row ◌▸◌
first-Has b w l p q has h =
    let (p1, h1, k1) = >>=-eq-some (name p) (first_row ▸ lock_row 0 ▸ turn_pictures) h in
    let (p2, h2, k2) = >>=-eq-some (first_row p1) (lock_row 0 ▸ turn_pictures) k1 in
    let (p3, h3, k3) = >>=-eq-some (lock_row 0 p2) turn_pictures k2 in
    let has1 = shown-Has b w l _ p p1 has h1 in
    let has2 = first_row-Has b w l p1 p2 has1 h2 in
    (_, turn-Has _ w l p3 q (lock_first-Has _ w l p2 p3 has2 h3) k3)
  where
    name : Panel → Option Panel
    name r = show (send_cmd_txt (codes "t" ++ to_string (0 + 1)) (row_name 0 r) ∷ []) r

rows-Has :
    (b : Bool) (w : World) (l : WifiPages) (p q : Panel)
    → Has b w l p
    → (wifi_row 0 ▸ wifi_row 1 ▸ wifi_row 2 ▸ wifi_row 3 ▸ wifi_row 4) p ≡ some q
    → Has (to_join w l) w l q
unfolding ◌▸◌
rows-Has b w l p q has h =
    let (p1, h1, k1) =
      >>=-eq-some (wifi_row 0 p) (wifi_row 1 ▸ wifi_row 2 ▸ wifi_row 3 ▸ wifi_row 4) h in
    let (p2, h2, k2) = >>=-eq-some (wifi_row 1 p1) (wifi_row 2 ▸ wifi_row 3 ▸ wifi_row 4) k1 in
    let (p3, h3, k3) = >>=-eq-some (wifi_row 2 p2) (wifi_row 3 ▸ wifi_row 4) k2 in
    let (p4, h4, k4) = >>=-eq-some (wifi_row 3 p3) (wifi_row 4) k3 in
    let (c, has1) = first-Has b w l p p1 has h1 in
    let has2 = row-Has 0 c w l p1 p2 has1 h2 in
    let has3 = row-Has 1 _ w l p2 p3 has2 h3 in
    row-Has 3 _ w l p4 q (row-Has 2 _ w l p3 p4 has3 h4) k4

-- After a refresh of the networks, with an interface and with a button for the first row, that
-- button works on every page unless the first row is the connected network on the first page: the
-- name of the row, empty or not, makes no difference.
pub refresh_first_button :
    (b : Bool) (others : List Bool) (p q : Panel)
    → p.ssid_buttons ≡ b ∷ others
    → wlan0 p ≡ true
    → refresh_page_wifi_list p ≡ some q
    → get_or q.ssid_buttons 0 false ≡ not (p.wifi.current_pages == 0 && connected p)
unfolding refresh_page_wifi_list when connected
refresh_first_button b others p q bs on h =
    let start : Has b p.world p.wifi p = record {
      others = others;
      buttons_are = bs;
      world_is = refl;
      wifi_is = refl;
    } in
    let end = rows-Has b p.world p.wifi p q start (rw on at h) in
    ap (λ xs. get_or xs 0 false) end.buttons_are
