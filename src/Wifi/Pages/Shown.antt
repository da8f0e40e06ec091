-- ===== src/Wifi/Pages/Shown.antt =====
-- src/MakerbaseWiFi.cpp: the pages of the network list and what they show.
use qidi_plus.Base.{
  ℕ, ◌+◌, ◌-◌, ◌*◌, ◌/◌, ◌%◌, ◌≤◌, ◌<◌, min, ◌≡◌, refl, ap, ◌∙◌, List, [], ◌∷◌, Option, some, ltb,
  ◌>>=◌, Bytes, length, slots, drop, get_or, advance-drop, get_or-slots, get_or-drop, arith,
  Bool-cases, inl, inr, ◌⊎◌,
}
use qidi_plus.Wifi.Pages.{
  WifiPages, get_ssid_list_pages, set_page_wifi_ssid_list, previous, next, scan_ssid_and_show,
}

-- The number of pages is the number that `get_ssid_list_pages` sets, the current page is one of
-- them or the first, and the slots show the networks of the current page.
pub record IsShown (s : WifiPages) : Type 0 where
  pub counted : s.ssid_list_pages ≡ min 6 ((length s.ssid_list + 4) / 5)
  pub within : (s.current_pages < s.ssid_list_pages) ⊎ (s.current_pages ≡ 0)
  pub shown : s.shown ≡ slots 5 [] (drop (s.current_pages * 5) s.ssid_list)

pages_lem :
    (s : WifiPages) → (get_ssid_list_pages s).ssid_list_pages ≡ min 6 ((length s.ssid_list + 4) / 5)
unfolding get_ssid_list_pages
pages_lem s = ground arith

set_page_lem :
    (p : ℕ) (s : WifiPages)
    → p * 5 ≤ length s.ssid_list
    → set_page_wifi_ssid_list p s
      ≡ some (record s { shown = slots 5 [] (drop (p * 5) s.ssid_list) })
unfolding set_page_wifi_ssid_list
set_page_lem p s h = rw (advance-drop (p * 5) s.ssid_list h)

abbrev turned : ℕ → WifiPages → WifiPages
turned p s = record s { current_pages = p; shown = slots 5 [] (drop (p * 5) s.ssid_list) }

abbrev Turns : Option WifiPages → Type 0
Turns r = (t : WifiPages) × (r ≡ some t) × IsShown t

next-Turns : (s : WifiPages) → IsShown s → Turns (next s)
unfolding next
next-Turns s v = elim (Bool-cases (ltb (s.current_pages + 1) s.ssid_list_pages)) [
  | inl more ↦ (
    turned (s.current_pages + 1) s,
    (rw more (
        set_page_lem (s.current_pages + 1) (record s { current_pages = s.current_pages + 1 })
          (ground (arith, v.counted)))),
    record { counted = v.counted; within = inl (ground arith); shown = refl },
  )
  | inr last ↦ (s, rw last, v)
]

previous-Turns : (s : WifiPages) → IsShown s → Turns (previous s)
unfolding previous
previous-Turns s v = elim (Bool-cases (ltb 0 s.current_pages)) [
  | inl more ↦ (
    turned (s.current_pages - 1) s,
    (rw more (
        set_page_lem (s.current_pages - 1) (record s { current_pages = s.current_pages - 1 })
          (ground (arith, v.counted, v.within)))),
    record { counted = v.counted; within = ground (arith, v.within); shown = refl },
  )
  | inr first ↦ (s, rw first, v)
]

scan-Turns : (found : List Bytes) (s : WifiPages) → Turns (scan_ssid_and_show found s)
unfolding scan_ssid_and_show
scan-Turns found s = (
  _,
  set_page_lem 0 _ (omega arith),
  record { counted = pages_lem (record s { ssid_list = found }); within = inr refl; shown = refl },
)

-- What a user does with the page.
pub data Press : Type 0 where
  presses_next presses_previous : Press
  rescans : List Bytes → Press

pub press : Press → WifiPages → Option WifiPages
press presses_next s = next s
press presses_previous s = previous s
press (rescans found) s = scan_ssid_and_show found s

pub run : List Press → WifiPages → Option WifiPages
run [] s = some s
run (p ∷ ps) s = do t ← press p s; run ps t

press-Turns : (p : Press) (s : WifiPages) → IsShown s → Turns (press p s)
unfolding press
press-Turns presses_next s v = next-Turns s v
press-Turns presses_previous s v = previous-Turns s v
press-Turns (rescans found) s v = scan-Turns found s

-- From a state where the slots show the current page, no sequence of turns and rescans passes the
-- end of the list, and the slots show the current page again.
pub run-IsShown :
    (ps : List Press) (s : WifiPages)
    → IsShown s
    → (t : WifiPages) × (run ps s ≡ some t) × IsShown t
unfolding run
run-IsShown [] s v = (s, refl, v)
run-IsShown (p ∷ ps) s v =
    let (t, e, w) = press-Turns p s v in let (u, d, x) = run-IsShown ps t w in (u, rw e d, x)

-- Each of the first thirty networks found stands on page k / 5, which is one of the pages counted,
-- in slot k % 5.
pub set_page_wifi_ssid_list_covers :
    (s : WifiPages) (k : ℕ)
    → k < length s.ssid_list
    → k < 30
    → (t : WifiPages) × (set_page_wifi_ssid_list (k / 5) (get_ssid_list_pages s) ≡ some t)
      × (k / 5 < t.ssid_list_pages)
      × (get_or t.shown (k % 5) [] ≡ get_or s.ssid_list k [])
set_page_wifi_ssid_list_covers s k h l = (
  record (get_ssid_list_pages s) { shown = slots 5 [] (drop (k / 5 * 5) s.ssid_list) },
  kept,
  omega (arith, pages_lem s),
  get_or-slots 5 (k % 5) [] (drop (k / 5 * 5) s.ssid_list) (omega arith)
      ∙ get_or-drop (k / 5 * 5) (k % 5) [] s.ssid_list
      ∙ ap (λ (i : ℕ). get_or s.ssid_list i []) (omega arith),
)
  where
    kept :
        set_page_wifi_ssid_list (k / 5) (get_ssid_list_pages s)
        ≡ some
            (record (get_ssid_list_pages s) { shown = slots 5 [] (drop (k / 5 * 5) s.ssid_list) })
    kept = unfold get_ssid_list_pages in set_page_lem (k / 5) (get_ssid_list_pages s) (omega arith)
