-- ===== src/Heat/Tests.antt =====
-- The temperature buttons on concrete inputs.
use qidi_plus.Base.{List, true, false, [], ◌∷◌}
use qidi_plus.Heat.{Targets}
use qidi_plus.Heat.Limits.{
  Press, extruder_step, bed_step, extruder_switch, level_enter, filament_extruder_number,
}

abbrev saved : Targets
saved = record {
  mks_extruder_target = 349;
  mks_heater_bed_target = 2;
  mks_hot_target = 40;
  filament_extruder = 0;
  auto_level_heater_bed = 0;
  sent = [];
}

-- A press of each kind of input, with a target entered for the levelling that is over the limit.
abbrev pressed : List Press
pressed =
    extruder_step true
    ∷ bed_step false
    ∷ extruder_switch 0
    ∷ level_enter 130 400
    ∷ filament_extruder_number 500
    ∷ []
