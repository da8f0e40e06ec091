-- ===== src/Heat.antt =====
-- src/event.cpp: the buttons that set the temperatures, with the targets saved in the configuration;
-- src/ui.cpp: the numbers entered for them.
pub mod Limits
mod Tests
use qidi_plus.Base.{
  ℕ, ◌+◌, ◌-◌, Bool, true, false, ltb, leb, ◌==◌, if◌then◌else◌, List, [], ◌∷◌, ◌++◌,
}

pub data Heater : Type 0 where
  extruder heater_bed hot : Heater

-- The configuration's targets, the two globals that the buttons for plus and minus work on, and the
-- targets sent to the printer, oldest first.
pub record Targets : Type 0 where
  pub mks_extruder_target : ℕ
  pub mks_heater_bed_target : ℕ
  pub mks_hot_target : ℕ
  pub filament_extruder : ℕ
  pub auto_level_heater_bed : ℕ
  pub sent : List (Heater × ℕ)

-- `set_extruder_target`, `set_heater_bed_target` and `set_hot_target`.
unfoldable pub set_target : Heater → ℕ → Targets → Targets
set_target heater target t = record t { sent = t.sent ++ (heater, target) ∷ [] }

-- Plus or minus three degrees; `positive` tells which. Below 0 is `true` in the second component,
-- which the source then replaces by 0.
unfoldable pub shifted : Bool → ℕ → ℕ × Bool
shifted positive target =
    if positive
    then (target + 3, false)
    else if ltb target 3
    then (0, true)
    else (target - 3, false)

unfoldable pub set_filament_extruder_target : Bool → Targets → Targets
set_filament_extruder_target positive t =
    let (moved, negative) = shifted positive t.mks_extruder_target in
    let target = if leb 350 moved then 350 else moved in
    let shown = set_target extruder target (record t { filament_extruder = target }) in
    if negative
    then shown
    else if ltb 170 target
    then record shown { mks_extruder_target = target }
    else shown

unfoldable pub set_auto_level_heater_bed_target : Bool → Targets → Targets
set_auto_level_heater_bed_target positive t =
    let moved = (shifted positive t.mks_heater_bed_target).0 in
    let target = if ltb 120 moved then 120 else moved in
    record (set_target heater_bed target (record t { auto_level_heater_bed = target })) {
      mks_heater_bed_target = target;
    }

-- The three switches, with the target that the printer reports: off, or to the saved target.
unfoldable pub filament_extruder_target : ℕ → Targets → Targets
filament_extruder_target printer_extruder_target t =
    set_target extruder (if printer_extruder_target == 0 then t.mks_extruder_target else 0) t

unfoldable pub filament_heater_bed_target : ℕ → Targets → Targets
filament_heater_bed_target printer_heater_bed_target t =
    set_target heater_bed (if printer_heater_bed_target == 0 then t.mks_heater_bed_target else 0) t

unfoldable pub filament_hot_target : ℕ → Targets → Targets
filament_hot_target printer_hot_target t =
    set_target hot (if printer_hot_target == 0 then t.mks_hot_target else 0) t

-- The numbers entered on the page of the print and on the one of the filament, which alone saves them.
unfoldable pub printing_set_extruder : ℕ → Targets → Targets
printing_set_extruder number t = set_target extruder (if ltb 350 number then 350 else number) t

unfoldable pub printing_set_heater_bed : ℕ → Targets → Targets
printing_set_heater_bed number t = set_target heater_bed (if ltb 120 number then 120 else number) t

unfoldable pub printing_set_hot : ℕ → Targets → Targets
printing_set_hot number t = set_target hot (if ltb 65 number then 65 else number) t

unfoldable pub filament_set_extruder : ℕ → Targets → Targets
filament_set_extruder number t =
    let target = if ltb 350 number then 350 else number in
    let shown = set_target extruder target t in
    if ltb 170 target then record shown { mks_extruder_target = target } else shown

unfoldable pub filament_set_heater_bed : ℕ → Targets → Targets
filament_set_heater_bed number t =
    let target = if ltb 120 number then 120 else number in
    record (set_target heater_bed target t) { mks_heater_bed_target = target }

-- `level_mode_printing_set_target`, with the two globals that were entered, which have no upper limit.
unfoldable pub level_set_target : ℕ → ℕ → Targets → Targets
level_set_target bed_target extruder_target t =
    set_target extruder extruder_target (set_target heater_bed bed_target t)
