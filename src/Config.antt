-- ===== src/Config.antt =====
-- src/MakerbaseParseIni.cpp: the attempts of `mksini_save` to write the configuration file.
pub mod Attempts
mod Tests
use qidi_plus.Base.{ℕ, zero, suc, ◌+◌, Bool, true, false, if◌then◌else◌}

-- Whether the file was written, and the seconds waited.
pub record Saved : Type 0 where
  pub written : Bool
  pub slept : ℕ

-- `sleep (1)` before what comes then.
unfoldable pub after_sleep : Saved → Saved
after_sleep s = record s { slept = s.slept + 1 }

-- The loop, with the attempts left and the number of the next one: `locked` says how
-- `is_file_locked` answers each of them, `opens` that `fopen` succeeds.
unfoldable pub attempts : (ℕ → Bool) → Bool → ℕ → ℕ → Saved
attempts locked opens zero k = record { written = false; slept = 0 }
attempts locked opens (suc retries) k =
    let rest = attempts locked opens retries (k + 1) in
    if locked k then after_sleep rest else record { written = opens; slept = 0 }

unfoldable pub mksini_save : (ℕ → Bool) → Bool → Saved
mksini_save locked opens = attempts locked opens 5 0
