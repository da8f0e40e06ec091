-- ===== src/Power.antt =====
-- src/mks_gpio.cpp: `monitor_GPIO1_C3`, which watches the power supply's pin and switches off.
pub mod Debounce
mod Tests
use qidi_plus.Base.{ℕ, zero, suc, ◌+◌, Bool, true, false, leb, ◌==◌, if◌then◌else◌, List, [], ◌∷◌}

-- One round of the loop: `poll` times out, it reports something else than POLLPRI, or the pin is
-- read, with the character that `val` then holds.
pub data Round : Type 0 where
  timeout other : Round
  reads : ℕ → Round

-- The counter and, where the block that switches off is run, the pages, commands and pins that it
-- writes, in order.
pub data Effect : Type 0 where
  go_to_page_power_off shutdown_mcu set_gpio1_b3_low sync : Effect

abbrev pub switch_off : List Effect
switch_off = go_to_page_power_off ∷ shutdown_mcu ∷ set_gpio1_b3_low ∷ sync ∷ []

abbrev pub debounce_limit : ℕ
debounce_limit = 5

unfoldable pub debounce : Round → ℕ → List Effect × ℕ
debounce timeout cnt = ([], cnt)
debounce other cnt = ([], cnt)
debounce (reads val) cnt =
    if val == b'1'
    then (if leb debounce_limit cnt then (switch_off, 0) else ([], cnt + 1))
    else ([], 0)

-- The loop, for so many rounds: the effects of each.
unfoldable pub monitor_gpio1_c3 : List Round → ℕ → List (List Effect)
monitor_gpio1_c3 [] cnt = []
monitor_gpio1_c3 (r ∷ rs) cnt =
    let (effects, next) = debounce r cnt in effects ∷ monitor_gpio1_c3 rs next
