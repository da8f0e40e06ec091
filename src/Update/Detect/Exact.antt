-- ===== src/Update/Detect/Exact.antt =====
-- src/mks_update.cpp: the reports of `detect_update` over several calls.
use Prim.Native.String.{String}
use qidi_plus.Base.{
  Bool, ◌||◌, ◌≡◌, refl, ap, ◌∙◌, if◌then◌else◌, Bool-cases, inl, inr, Option, none, some, List, [],
  ◌∷◌,
}
use qidi_plus.Update.Detect.{
  Detected, detect, any, soc_path, mcu_path, ui_path, printer_cfg_path, thr_cfg_path, gcode_path,
  factory_path, deb_path,
}

-- One of the files that are looked for in any mode is there.
abbrev pub some_file : (String → Bool) → Bool
some_file access =
    access soc_path
    || access mcu_path
    || access ui_path
    || access printer_cfg_path
    || access thr_cfg_path
    || access gcode_path

-- One call after the other, each with the files that are there at its time.
pub detects : List (String → Bool) → Detected → Detected
detects [] d = d
detects (access ∷ later) d = detects later (detect access d)

-- The files at the last of the calls in factory mode.
unfoldable pub last_factory : List (String → Bool) → Option (String → Bool)
last_factory [] = none
last_factory (access ∷ later) =
    let last = last_factory later in
    elim last [ some a ↦ some a | none ↦ if access factory_path then some access else none ]

-- Whether the deb file was there at that call; before any, what the flag was.
abbrev pub deb_or : Option (String → Bool) → Bool → Bool
deb_or none flag = flag
deb_or (some access) flag = access deb_path

detects_deb :
    (earlier : List (String → Bool)) (d : Detected)
    → (detects earlier d).soc_deb ≡ deb_or (last_factory earlier) d.soc_deb
unfolding detects last_factory detect
detects_deb [] d = refl
detects_deb (access ∷ later) d = detects_deb later (detect access d) ∙ by_last (last_factory later)
  where
    by_last :
        (last : Option (String → Bool))
        → deb_or last (if access factory_path then access deb_path else d.soc_deb)
          ≡ deb_or
              (elim last [
                | some a ↦ some a
                | none ↦ if access factory_path then some access else none
              ])
              d.soc_deb
    by_last none = elim (Bool-cases (access factory_path)) [ inl e ↦ rw e refl | inr e ↦ rw e refl ]
    by_last (some a) = refl

-- After any sequence of calls, an update is reported exactly when one of the six files is there or,
-- in factory mode, the deb file, or, outside it, the deb file was there at the last call in factory
-- mode: with the stick gone, a deb file that was detected once goes on being reported.
pub detect_exact :
    (earlier : List (String → Bool)) (access : String → Bool) (d : Detected)
    → any (detect access (detects earlier d)) ≡ (
        some_file access
        || (if access factory_path
            then access deb_path
            else deb_or (last_factory earlier) d.soc_deb))
unfolding any detect
detect_exact earlier access d =
    ap (λ flag. some_file access || (if access factory_path then access deb_path else flag))
      (detects_deb earlier d)
