-- ===== src/Config/Tests.antt =====
-- Saving the configuration on a file that is free at the third attempt.
use qidi_plus.Base.{ℕ, ◌<◌, ◌≡◌, refl, ◌⊎◌, Bool, true, false, ltb}
use qidi_plus.Config.{mksini_save, attempts, after_sleep}
use qidi_plus.Config.Attempts.{mksini_save_lem}

abbrev free_at_two : ℕ → Bool
free_at_two k = ltb k 2

waits_two : (mksini_save free_at_two true).slept ≡ 2
unfolding mksini_save attempts after_sleep
waits_two = refl

mksini_save_lem_example :
    ((i : ℕ) × (i < 5)
      × ((j : ℕ) → j < i → free_at_two j ≡ true)
      × (free_at_two i ≡ false)
      × ((mksini_save free_at_two true).written ≡ true)
      × ((mksini_save free_at_two true).slept ≡ i))
    ⊎ (((j : ℕ) → j < 5 → free_at_two j ≡ true)
        × ((mksini_save free_at_two true).written ≡ false)
        × ((mksini_save free_at_two true).slept ≡ 5))
mksini_save_lem_example = mksini_save_lem free_at_two true
