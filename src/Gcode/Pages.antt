-- ===== src/Gcode/Pages.antt =====
-- src/mks_gcode.cpp: the pages that a response leads to.
use qidi_plus.Base.{
  ℕ, ◌≡◌, ◌≢◌, refl, subst, some_inj, Bool, true, false, ◌==◌, Bool-cases, inl, inr, Option, some,
  >>=-eq-some, Bytes, drop, arith,
}
use qidi_plus.Screen.{write_all, page_to, tjc_page_screen_sleep, tjc_page_memory_warning}
use qidi_plus.Gcode.{
  Dist, tenth, one, ten, Client, to_page, calls, led_on_off, light_again, wake, pop_for,
  move_home_tips, filament_tips, is_printing, move_tips, show_error, detect_error, klipper_ready,
  print_from_web, respond, parse_gcode_response, Line, line_of, ready, disconnect, printed_only,
  must_home, extrude_below, shaper_x, shaper_y, z_position, out_of_range, mcu_shutdown, disk_full,
  metadata,
}

-- The result, if there is one, has the property.
abbrev Ends {ℓ} : {A : Type ℓ} → (A → Type 0) → Option A → Type ℓ
Ends {A = A} P o = (d : A) → o ≡ some d → P d

module _ {ℓ} {A : Type ℓ} where
  some-Ends : (P : A → Type 0) (a : A) → P a → Ends P (some a)
  some-Ends P a h d e = subst P (some_inj e) h

-- The four kinds of lines that lead to a page whatever the state of the print.
unfoldable pub names_page : Line → Bool
names_page must_home = true
names_page extrude_below = true
names_page out_of_range = true
names_page disk_full = true
names_page _ = false

module _ {Json : Type 0} (parse : Bytes → Option Json) (decimal : Bytes → Option Bytes) where
  -- The screen is not asleep.
  abbrev pub Awake : Client parse decimal → Type 0
  Awake c = c.screen.current_page_id ≢ tjc_page_screen_sleep

  to_page-Awake :
      (page : ℕ) (c : Client parse decimal)
      → page ≢ tjc_page_screen_sleep
      → Awake (to_page parse decimal page c)
  unfolding to_page page_to
  to_page-Awake page c h = h

  light_again_lem : (c : Client parse decimal) → (light_again parse decimal c).screen ≡ c.screen
  unfolding light_again led_on_off calls
  light_again_lem c = ground arith

  wake-Awake :
      (c : Client parse decimal)
      → c.screen.previous_page_id ≢ tjc_page_screen_sleep
      → Awake (wake parse decimal c)
  unfolding wake
  wake-Awake c h = elim (Bool-cases (c.screen.current_page_id == tjc_page_screen_sleep)) [
    | inl asleep ↦
        rw (asleep, light_again_lem (to_page parse decimal c.screen.previous_page_id c))
          (to_page-Awake c.screen.previous_page_id c h)
    | inr awake ↦ rw awake (ground arith)
  ]

  pop_for-Awake :
      (d : Dist) (c : Client parse decimal) → Awake c → Awake (pop_for parse decimal d c)
  unfolding pop_for
  pop_for-Awake tenth c h = to_page-Awake 23 c (omega arith)
  pop_for-Awake one c h = to_page-Awake 24 c (omega arith)
  pop_for-Awake ten c h = to_page-Awake 25 c (omega arith)
  pop_for-Awake Dist.other c h = h

  filament_tips-Awake : (c : Client parse decimal) → Awake c → Awake (filament_tips parse decimal c)
  unfolding filament_tips to_page page_to
  filament_tips-Awake c h = ground arith

  move_tips-Awake : (c : Client parse decimal) → Awake c → Awake (move_tips parse decimal c)
  unfolding move_tips to_page page_to
  move_tips-Awake c h = ground arith

  detect_error-Awake : (c : Client parse decimal) → Awake c → Awake (detect_error parse decimal c)
  unfolding detect_error show_error to_page page_to write_all
  detect_error-Awake c h = ground arith

  print_from_web-Awake :
      (s : Bytes) (c : Client parse decimal)
      → Awake c
      → Ends Awake (print_from_web parse decimal s c)
  unfolding print_from_web calls
  print_from_web-Awake s c h d e =
      let (values, f, g) = >>=-eq-some (parse s) _ e in some-Ends Awake _ h d g

  respond-Awake :
      (l : Line) (p : Bytes) (c : Client parse decimal)
      → Awake c
      → Ends Awake (respond parse decimal l p c)
  unfolding respond klipper_ready calls move_home_tips
  respond-Awake must_home p c h = some-Ends Awake _ (pop_for-Awake c.move_dist c h)
  respond-Awake extrude_below p c h = some-Ends Awake _ (filament_tips-Awake c h)
  respond-Awake out_of_range p c h = some-Ends Awake _ (move_tips-Awake c h)
  respond-Awake disk_full p c h =
      some-Ends Awake _ (to_page-Awake tjc_page_memory_warning c (omega arith))
  respond-Awake Line.error p c h =
      some-Ends Awake _ (detect_error-Awake (record c { output_console = p }) h)
  respond-Awake metadata p c h = print_from_web-Awake (drop 12 p) c h
  respond-Awake ready p c h = some-Ends Awake _ h
  respond-Awake disconnect p c h = some-Ends Awake _ h
  respond-Awake printed_only p c h = some-Ends Awake _ h
  respond-Awake shaper_x p c h = some-Ends Awake _ h
  respond-Awake shaper_y p c h = some-Ends Awake _ h
  respond-Awake z_position p c h = some-Ends Awake _ h
  respond-Awake mcu_shutdown p c h = some-Ends Awake _ h

  -- When the page before the sleep was not the sleep itself, every line wakes the screen: where it
  -- is read without an exception, the page behind it is not the sleep.
  pub parse_gcode_response-Awake :
      (p : Bytes) (c d : Client parse decimal)
      → c.screen.previous_page_id ≢ tjc_page_screen_sleep
      → parse_gcode_response parse decimal (some p) c ≡ some d
      → d.screen.current_page_id ≢ tjc_page_screen_sleep
  unfolding parse_gcode_response
  parse_gcode_response-Awake p c d h e =
      respond-Awake (line_of p) p (wake parse decimal c) (wake-Awake c h) d e

  -- The screen is as it was.
  abbrev Keeps : Client parse decimal → Client parse decimal → Type 0
  Keeps c d = d.screen ≡ c.screen

  wake_printing :
      (c : Client parse decimal)
      → is_printing c.screen.current_page_id ≡ true
      → wake parse decimal c ≡ c
  unfolding wake is_printing
  wake_printing c h = ground arith

  detect_error-Keeps :
      (c : Client parse decimal)
      → is_printing c.screen.current_page_id ≡ true
      → Keeps c (detect_error parse decimal c)
  unfolding detect_error
  detect_error-Keeps c h = rw h refl

  print_from_web-Keeps :
      (s : Bytes) (c : Client parse decimal) → Ends (Keeps c) (print_from_web parse decimal s c)
  unfolding print_from_web calls
  print_from_web-Keeps s c d e =
      let (values, f, g) = >>=-eq-some (parse s) _ e in some-Ends (Keeps c) _ refl d g

  respond-Keeps :
      (l : Line) (p : Bytes) (c : Client parse decimal)
      → is_printing c.screen.current_page_id ≡ true
      → names_page l ≡ false
      → Ends (Keeps c) (respond parse decimal l p c)
  unfolding respond klipper_ready calls names_page
  respond-Keeps must_home p c h n = cc
  respond-Keeps extrude_below p c h n = cc
  respond-Keeps out_of_range p c h n = cc
  respond-Keeps disk_full p c h n = cc
  respond-Keeps Line.error p c h n =
      some-Ends (Keeps c) _ (detect_error-Keeps (record c { output_console = p }) h)
  respond-Keeps metadata p c h n = print_from_web-Keeps (drop 12 p) c
  respond-Keeps ready p c h n = some-Ends (Keeps c) _ refl
  respond-Keeps disconnect p c h n = some-Ends (Keeps c) _ refl
  respond-Keeps printed_only p c h n = some-Ends (Keeps c) _ refl
  respond-Keeps shaper_x p c h n = some-Ends (Keeps c) _ refl
  respond-Keeps shaper_y p c h n = some-Ends (Keeps c) _ refl
  respond-Keeps z_position p c h n = some-Ends (Keeps c) _ refl
  respond-Keeps mcu_shutdown p c h n = some-Ends (Keeps c) _ refl

  -- On the pages of a running print, every line but those of the four kinds that name a page leaves
  -- the screen as it is, any other error of Klipper's among them.
  pub parse_gcode_response_printing :
      (p : Bytes) (c d : Client parse decimal)
      → is_printing c.screen.current_page_id ≡ true
      → names_page (line_of p) ≡ false
      → parse_gcode_response parse decimal (some p) c ≡ some d
      → d.screen ≡ c.screen
  unfolding parse_gcode_response
  parse_gcode_response_printing p c d h n e =
      respond-Keeps (line_of p) p c h n d (rw (wake_printing c h) at e)
