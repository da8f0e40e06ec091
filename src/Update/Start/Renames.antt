-- ===== src/Update/Start/Renames.antt =====
-- src/mks_update.cpp: the files that the commands of `start_update` rename to a `.bak`.
use Prim.Native.String.{String}
use qidi_plus.Base.{
  ℕ, ◌+◌, Bool, true, false, ◌||◌, ◌≡◌, refl, if◌then◌else◌, arith, Bool-cases, inl, inr, List, [],
  ◌∷◌, ◌++◌, codes, contains,
}
use qidi_plus.Update.Detect.{Detected, factory_path}
use qidi_plus.Update.Start.{
  Effect, system, update_factory_path, by_mode, flash_mcu, update_mcu, update_printer_cfg,
  update_thr_cfg, update_gcode, update_ui, update_soc, update_deb, start_update, when,
}

-- The number of commands that rename a file to a `.bak`.
pub renames : List Effect → ℕ
renames [] = 0
renames (system command ∷ es) =
    (if contains (codes ".bak") (codes command) then 1 else 0) + renames es
renames (_ ∷ es) = renames es

abbrev pub one_if : Bool → ℕ
one_if b = if b then 1 else 0

-- A marker of factory mode is on the stick.
abbrev pub marked : (String → Bool) → Bool
marked access = access factory_path || access update_factory_path

renames-append : (xs ys : List Effect) → renames (xs ++ ys) ≡ renames xs + renames ys
unfolding renames
renames-append [] ys = omega arith
renames-append (system command ∷ xs) ys = omega (arith, renames-append xs ys)
renames-append (Effect.reset_firmware ∷ xs) ys = renames-append xs ys
renames-append (_ ∷ xs) ys = renames-append xs ys

module _ (access : String → Bool) where
  renames-by_mode :
      (root folder plain : List Effect)
      → renames root ≡ 0
      → renames folder ≡ 0
      → renames plain ≡ 1
      → renames (by_mode access root folder plain) ≡ (if marked access then 0 else 1)
  unfolding by_mode
  renames-by_mode root folder plain r f p = ground arith

  renames-mcu : renames (update_mcu access) ≡ (if marked access then 0 else 1)
  unfolding update_mcu flash_mcu renames contains
  renames-mcu = renames-by_mode _ _ _ refl refl refl

  renames-printer_cfg : renames (update_printer_cfg access) ≡ (if marked access then 0 else 1)
  unfolding update_printer_cfg renames contains
  renames-printer_cfg = renames-by_mode _ _ _ refl refl refl

  renames-thr_cfg : renames (update_thr_cfg access) ≡ (if marked access then 0 else 1)
  unfolding update_thr_cfg renames contains
  renames-thr_cfg = renames-by_mode _ _ _ refl refl refl

  renames-ui : renames (update_ui access) ≡ (if marked access then 0 else 1)
  unfolding update_ui renames contains
  renames-ui = renames-by_mode _ _ _ refl refl refl

  renames-soc : renames (update_soc access) ≡ (if marked access then 0 else 1)
  unfolding update_soc renames contains
  renames-soc = renames-by_mode _ _ _ refl refl refl

  renames-deb : renames (update_deb access) ≡ 0
  unfolding update_deb
  renames-deb = elim (Bool-cases (access factory_path)) [
    | inl m ↦ rw m (unfold renames contains in refl)
    | inr m ↦ rw m (unfold renames in refl)
  ]

renames-gcode : renames update_gcode ≡ 0
unfolding update_gcode renames contains
renames-gcode = refl

renames-nil : renames [] ≡ 0
unfolding renames
renames-nil = refl

renames_first :
    (es : List Effect) → renames (system "rm /home/mks/gcode_files/.cache/*" ∷ es) ≡ renames es
unfolding renames contains
renames_first es = omega arith

renames_last : renames (Effect.update_finished_tips ∷ []) ≡ 0
unfolding renames
renames_last = refl

renames-when : (b : Bool) (es : List Effect) → renames (when b es) ≡ (if b then renames es else 0)
renames-when true es = refl
renames-when false es = renames-nil

renames_packages :
    (access : String → Bool) (d : Detected)
    → renames (if d.plus3_soc_data then update_soc access else when d.soc_deb (update_deb access))
      ≡ (if d.plus3_soc_data then (if marked access then 0 else 1) else 0)
renames_packages access d = ground (arith, renames-soc access, renames-deb access, renames-nil)

-- With a marker of factory mode on the stick, no command of the update renames a file to a `.bak`.
-- Without one, as many do as were detected of the MCU's firmware, the two configurations, the
-- screen's firmware and the package.
pub renames-start_update :
    (access : String → Bool) (d : Detected)
    → renames (start_update access d) ≡ (
        if marked access
        then 0
        else one_if d.mcu_data
          + one_if d.printer_cfg
          + one_if d.mks_thr_cfg
          + one_if d.plus3_ui_data
          + one_if d.plus3_soc_data)
unfolding start_update
renames-start_update access d = rw renames_first (
    simp
      (
        renames-append, renames-when, renames_packages, renames-mcu, renames-printer_cfg,
        renames-thr_cfg, renames-ui, renames-gcode, renames_last,
      )
      (ground arith))
