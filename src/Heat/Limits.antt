-- ===== src/Heat/Limits.antt =====
-- src/event.cpp, src/ui.cpp: the limits of the targets over presses.
use qidi_plus.Base.{◌⊎◌, ℕ, ◌≤◌, ◌<◌, ◌≡◌, Bool, List, [], ◌∷◌, ◌++◌}
use qidi_plus.Heat.{
  Heater, extruder, heater_bed, hot, Targets, set_filament_extruder_target,
  set_auto_level_heater_bed_target, filament_extruder_target, filament_heater_bed_target,
  filament_hot_target, printing_set_extruder, printing_set_heater_bed, printing_set_hot,
  filament_set_extruder, filament_set_heater_bed, level_set_target,
}

-- The buttons, with the targets that the printer reports, and the numbers entered: those of the page
-- of the print, those of the page of the filament, and at the enter button of the levelling
-- temperatures those for the bed and the extruder.
pub data Press : Type 0 where
  extruder_step bed_step : Bool → Press
  extruder_switch bed_switch hot_switch : ℕ → Press
  printing_extruder printing_bed printing_hot filament_extruder_number filament_bed : ℕ → Press
  level_enter : ℕ → ℕ → Press

pub press : Press → Targets → Targets
press (extruder_step positive) t = set_filament_extruder_target positive t
press (bed_step positive) t = set_auto_level_heater_bed_target positive t
press (extruder_switch reported) t = filament_extruder_target reported t
press (bed_switch reported) t = filament_heater_bed_target reported t
press (hot_switch reported) t = filament_hot_target reported t
press (printing_extruder number) t = printing_set_extruder number t
press (printing_bed number) t = printing_set_heater_bed number t
press (printing_hot number) t = printing_set_hot number t
press (filament_extruder_number number) t = filament_set_extruder number t
press (filament_bed number) t = filament_set_heater_bed number t
press (level_enter bed_target extruder_target) t = level_set_target bed_target extruder_target t

pub run : List Press → Targets → Targets
run [] t = t
run (p ∷ ps) t = run ps (press p t)

-- The targets entered for the levelling.
abbrev pub entered : List Press → List (Heater × ℕ)
entered [] = []
entered (level_enter bed_target extruder_target ∷ ps) =
    (heater_bed, bed_target) ∷ (extruder, extruder_target) ∷ entered ps
entered (_ ∷ ps) = entered ps

-- Within the limit of the heater; what is sent to the chamber's is not bounded here.
abbrev pub Limited : Heater × ℕ → Type 0
Limited (extruder, n) = n ≤ 350
Limited (heater_bed, n) = n ≤ 120
Limited (hot, n) = Unit

-- One of the targets of a list.
abbrev pub OneOf : Heater × ℕ → List (Heater × ℕ) → Type 0
OneOf x [] = ⊥
OneOf x (y ∷ ys) = (x ≡ y) ⊎ OneOf x ys

abbrev pub Allowed : List (Heater × ℕ) → Heater × ℕ → Type 0
Allowed extra x = Limited x ⊎ OneOf x extra

abbrev pub AllAllowed : List (Heater × ℕ) → List (Heater × ℕ) → Type 0
AllAllowed extra [] = Unit
AllAllowed extra (x ∷ xs) = Allowed extra x × AllAllowed extra xs

-- The saved targets are in their limits, and everything sent is in its limit or one of `extra`.
pub record InLimits (extra : List (Heater × ℕ)) (t : Targets) : Type 0 where
  pub above : 170 < t.mks_extruder_target
  pub extruder_limit : t.mks_extruder_target ≤ 350
  pub bed_limit : t.mks_heater_bed_target ≤ 120
  pub all_sent : AllAllowed extra t.sent

-- What a press sends is one target behind the others.
abbrev Sends : Heater → ℕ → Targets → Targets → Type 0
Sends heater target t u = u.sent ≡ t.sent ++ (heater, target) ∷ []

-- Both targets of the levelling are among those allowed besides.
abbrev Within : List (Heater × ℕ) → Press → Type 0
Within extra (level_enter bed_target extruder_target) =
    OneOf (heater_bed, bed_target) extra × OneOf (extruder, extruder_target) extra
Within extra _ = Unit

abbrev AllWithin : List (Heater × ℕ) → List Press → Type 0
AllWithin extra [] = Unit
AllWithin extra (p ∷ ps) = Within extra p × AllWithin extra ps
