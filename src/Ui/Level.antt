-- ===== src/Ui/Level.antt =====
-- src/event.cpp: what the buttons of the levelling, the offset and the vibration test start. Their
-- replies come back as messages of the printer, not here.
use qidi_plus.Base.{
  ◌==◌, Bool, false, not, ◌||◌, ◌&&◌, if◌then◌else◌, ◌++◌, Bytes, codes, bytes_eq, contains,
}
use qidi_plus.Screen.{tjc_page_open_video_4, tjc_page_main}
use qidi_plus.Ui.Pages.{
  tjc_page_open_levelinit, tjc_page_open_leveling, tjc_page_open_syntony, tjc_page_leveling_init,
  tjc_page_auto_move, tjc_page_syntony_move, tjc_page_set_zoffset_2, tjc_page_saving,
}
use qidi_plus.Ui.Panel.{
  Distance, twentieth, distance_text, Effect, Panel, Action, done, ◌▸◌, act, when, page, goto, emit,
  gcode, set_flags,
}
use qidi_plus.Ui.Motion.{set_extruder_target}
use qidi_plus.Ui.Store.{get_mks_babystep, set_mks_babystep, set_mks_oobe_enabled}

-- `printer_idle_timeout_state = "Printing"`
unfoldable pub busy : Action
busy = act (λ p. record p { printer_idle_timeout_state = codes "Printing" })

unfoldable pub set_auto_level_dist : Distance → Action
set_auto_level_dist dist = act (λ p. record p { auto_level_dist = dist })

-- The saved offset, raised by 0.45.
unfoldable pub raise_zoffset : Action
raise_zoffset =
    get_mks_babystep ▸ act (λ p. record p { previous_zoffset = p.world.add_0_45 p.babystep_value })

unfoldable pub probe_offset : Action
probe_offset =
    gcode (codes "SET_GCODE_OFFSET Z=0 MOVE=0\n")
    ▸ gcode (codes "M4029\n")
    ▸ gcode (codes "SET_GCODE_OFFSET Z=0.15 MOVE=1\n")

unfoldable pub auto_level_reset : Action
auto_level_reset =
    set_auto_level_dist twentieth ▸ set_flags (λ f. record f { auto_level_finished = false })

-- What the tests before the levelling begin with.
unfoldable pub claim_printer : Action
claim_printer = when (λ p. not p.flags.start_pre_auto_level) busy done

unfoldable pub pre_auto_level_init : Action
pre_auto_level_init =
    auto_level_reset
    ▸ claim_printer
    ▸ goto tjc_page_leveling_init
    ▸ emit (Effect.sleep 1)
    ▸ raise_zoffset
    ▸ probe_offset

unfoldable pub pre_open_auto_level_init : Action
pre_open_auto_level_init =
    goto tjc_page_open_levelinit ▸ auto_level_reset ▸ claim_printer ▸ raise_zoffset ▸ probe_offset

unfoldable pub start_auto_level : Action
start_auto_level =
    busy
    ▸ set_flags (λ f. record f { auto_level_finished = false })
    ▸ gcode (codes "SET_GCODE_OFFSET Z=0 MOVE=1")
    ▸ gcode (codes "BED_MESH_CALIBRATE\n")
    ▸ gcode (codes "G0 X0 Y0 Z50 F6000\n")

unfoldable pub finish_auto_level : Action
finish_auto_level =
    when
      (λ p. not p.flags.auto_level_finished || bytes_eq p.printer_idle_timeout_state (codes "Idle"))
      (gcode (codes "G0 Z50 F600\nG1 X0 Y0 G9000\nSAVE_CONFIG\n")
        ▸ set_flags (λ f. record f { all_level_saving = false })
        ▸ goto tjc_page_saving)
      done

unfoldable pub pre_manual_level_init : Action
pre_manual_level_init =
    act (λ p. record p { manual_level_count = 16 })
    ▸ set_flags (λ f. record f { manual_level_finished = false })
    ▸ set_mks_babystep (codes "-0.150")
    ▸ goto tjc_page_leveling_init
    ▸ gcode (codes "G28\nABORT\nBED_MESH_CLEAR\n")
    ▸ busy
    ▸ gcode (codes "G30")
    ▸ gcode (codes "TESTZ z=-9")

-- The end of `pre_set_zoffset_init`; the positions that it computes first are not in the panel, and
-- `probe_start` is the script with the middle of the bed.
unfoldable pub pre_set_zoffset_init : Action
pre_set_zoffset_init =
    goto tjc_page_leveling_init ▸ busy ▸ gcode (codes "G28\n") ▸ (λ p. gcode p.world.probe_start p)

unfoldable pub start_auto_level_dist : Bool → Action
start_auto_level_dist positive = λ p.
    gcode
      (codes (if positive then "SET_GCODE_OFFSET Z_ADJUST=" else "SET_GCODE_OFFSET Z_ADJUST=-")
        ++ distance_text p.auto_level_dist
        ++ codes " MOVE=1")
      p

unfoldable pub go_to_syntony_move : Action
go_to_syntony_move =
    set_flags (λ f. record f { syntony_finished = false })
    ▸ busy
    ▸ goto tjc_page_syntony_move
    ▸ busy
    ▸ gcode (codes "M901\n")

unfoldable pub open_go_to_syntony_move : Action
open_go_to_syntony_move =
    set_flags (λ f. record f { syntony_finished = false })
    ▸ busy
    ▸ goto tjc_page_open_syntony
    ▸ gcode (codes "M901\n")

unfoldable pub open_more_level_finish : Action
open_more_level_finish =
    gcode (codes "G28\n") ▸ set_extruder_target 0 ▸ set_mks_oobe_enabled false ▸ goto tjc_page_main

unfoldable pub open_heater_bed_up : Action
open_heater_bed_up =
    goto tjc_page_open_video_4
    ▸ gcode (codes "G91\nG1 Z-30 F600\nG1 X-30 Y-30 F1200\nG90\n")
    ▸ gcode (codes "SET_KINEMATIC_POSITION Z=130\n")

-- `mks_babystep_value = z_offset; set_mks_babystep (mks_babystep_value)`
unfoldable pub keep_offset : Bytes → Action
keep_offset z = act (λ p. record p { babystep_value = z }) ▸ set_mks_babystep z

-- `z - 0.15`
unfoldable pub lowered : Panel → Bytes
lowered p = p.world.sub_0_15 p.world.homing_origin_z

-- `if (z > -5 && z < 5) …`
unfoldable pub keep_lowered : Action
keep_lowered = when (λ p. p.world.below_5 (lowered p)) (λ p. keep_offset (lowered p) p) done

-- The cases AUTO_MOVE and OPEN_LEVELING, SET_ZOFFSET_2, and the default. `homing_origin_z` is the
-- text of the origin, cut to three decimals.
unfoldable pub save_current_zoffset : Action
save_current_zoffset =
    when (λ p. page p == tjc_page_auto_move || page p == tjc_page_open_leveling)
      (busy ▸ keep_lowered)
      (when (λ p. page p == tjc_page_set_zoffset_2)
        (busy
          ▸ goto tjc_page_saving
          ▸ keep_lowered
          ▸ gcode (codes "G0 X0 Y0 Z50 F5000\n")
          ▸ gcode (codes "SAVE_CONFIG\n"))
        (when
          (λ p.
            not (bytes_eq p.world.homing_origin_z p.babystep_value)
            && contains (codes "0.000") p.world.homing_origin_z
            && p.world.below_5 p.world.homing_origin_z)
          (λ p. keep_offset p.world.homing_origin_z p) done))
