-- ===== src/Power/Tests.antt =====
-- The monitor on concrete inputs.
use qidi_plus.Base.{◌≡◌, refl, List, [], ◌∷◌}
use qidi_plus.Power.{Round, timeout, reads, switch_off, debounce, monitor_gpio1_c3}
use qidi_plus.Power.Debounce.{expected, monitor_gpio1_c3-expected}

abbrev high : Round
high = reads b'1'

abbrev bounces : List Round
bounces = high ∷ high ∷ reads b'0' ∷ high ∷ high ∷ high ∷ timeout ∷ high ∷ high ∷ high ∷ high ∷ []

switches_off_once :
    monitor_gpio1_c3 bounces 0 ≡ [] ∷ [] ∷ [] ∷ [] ∷ [] ∷ [] ∷ [] ∷ [] ∷ [] ∷ switch_off ∷ [] ∷ []
unfolding monitor_gpio1_c3 debounce
switches_off_once = refl

monitor_gpio1_c3-expected_example : monitor_gpio1_c3 bounces 0 ≡ expected bounces 0
monitor_gpio1_c3-expected_example = monitor_gpio1_c3-expected bounces 0
