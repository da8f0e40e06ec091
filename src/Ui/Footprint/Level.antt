-- ===== src/Ui/Footprint/Level.antt =====
-- The footprints of the functions of `Ui.Level`.
use qidi_plus.Base.{ℕ, List, Bool, Bytes, ◌≡◌, true}
use qidi_plus.Ui.Footprint.{Footprint, footprints, Footprint-at, among}
use qidi_plus.Screen.{tjc_page_open_video_4, tjc_page_main}
use qidi_plus.Ui.Pages.{
  tjc_page_open_levelinit, tjc_page_open_syntony, tjc_page_leveling_init, tjc_page_syntony_move,
  tjc_page_saving,
}
use qidi_plus.Ui.Panel.{Distance, Panel}
use qidi_plus.Ui.Level.{
  busy, set_auto_level_dist, raise_zoffset, probe_offset, auto_level_reset, claim_printer,
  pre_auto_level_init, pre_open_auto_level_init, start_auto_level, finish_auto_level,
  pre_manual_level_init, pre_set_zoffset_init, start_auto_level_dist, go_to_syntony_move,
  open_go_to_syntony_move, open_more_level_finish, open_heater_bed_up, keep_offset, keep_lowered,
  save_current_zoffset,
}
use qidi_plus.Ui.Footprint.Motion.{set_extruder_target-Footprint}
use qidi_plus.Ui.Footprint.Store.{
  get_mks_babystep-Footprint, set_mks_babystep-Footprint, set_mks_oobe_enabled-Footprint,
}

keep_offset-Footprint : {l : List ℕ} {loud : Bool} (z : Bytes) → Footprint l loud (keep_offset z)
unfolding keep_offset
keep_offset-Footprint z = search (footprints, set_mks_babystep-Footprint)

Footprint-keep :
    {l : List ℕ} {loud : Bool} (z : Panel → Bytes) → Footprint l loud (λ p. keep_offset (z p) p)
Footprint-keep z = Footprint-at (λ p. keep_offset-Footprint (z p))

pub busy-Footprint : {l : List ℕ} {loud : Bool} → Footprint l loud busy
unfolding busy
busy-Footprint = search (footprints)

pub set_auto_level_dist-Footprint :
    {l : List ℕ} {loud : Bool} (dist : Distance) → Footprint l loud (set_auto_level_dist dist)
unfolding set_auto_level_dist
set_auto_level_dist-Footprint dist = search (footprints)

pub raise_zoffset-Footprint : {l : List ℕ} {loud : Bool} → Footprint l loud raise_zoffset
unfolding raise_zoffset
raise_zoffset-Footprint = search (footprints, get_mks_babystep-Footprint)

pub probe_offset-Footprint : {l : List ℕ} {loud : Bool} → Footprint l loud probe_offset
unfolding probe_offset
probe_offset-Footprint = search (footprints)

pub auto_level_reset-Footprint : {l : List ℕ} {loud : Bool} → Footprint l loud auto_level_reset
unfolding auto_level_reset
auto_level_reset-Footprint = search (footprints, set_auto_level_dist-Footprint)

pub claim_printer-Footprint : {l : List ℕ} {loud : Bool} → Footprint l loud claim_printer
unfolding claim_printer
claim_printer-Footprint = search (footprints, busy-Footprint)

pub pre_auto_level_init-Footprint :
    {l : List ℕ} {loud : Bool}
    → among tjc_page_leveling_init l ≡ true
    → Footprint l loud pre_auto_level_init
unfolding pre_auto_level_init
pre_auto_level_init-Footprint h0 =
    search
      (
        footprints, auto_level_reset-Footprint, claim_printer-Footprint, raise_zoffset-Footprint,
        probe_offset-Footprint,
      )
      depth 9

pub pre_open_auto_level_init-Footprint :
    {l : List ℕ} {loud : Bool}
    → among tjc_page_open_levelinit l ≡ true
    → Footprint l loud pre_open_auto_level_init
unfolding pre_open_auto_level_init
pre_open_auto_level_init-Footprint h0 =
    search
      (
        footprints, auto_level_reset-Footprint, claim_printer-Footprint, raise_zoffset-Footprint,
        probe_offset-Footprint,
      )
      depth 8

pub start_auto_level-Footprint : {l : List ℕ} {loud : Bool} → Footprint l loud start_auto_level
unfolding start_auto_level
start_auto_level-Footprint = search (footprints, busy-Footprint) depth 8

pub finish_auto_level-Footprint :
    {l : List ℕ} {loud : Bool} → among tjc_page_saving l ≡ true → Footprint l loud finish_auto_level
unfolding finish_auto_level
finish_auto_level-Footprint h0 = search (footprints)

pub pre_manual_level_init-Footprint :
    {l : List ℕ} {loud : Bool}
    → among tjc_page_leveling_init l ≡ true
    → Footprint l loud pre_manual_level_init
unfolding pre_manual_level_init
pre_manual_level_init-Footprint h0 =
    search (footprints, set_mks_babystep-Footprint, busy-Footprint) depth 11

pub pre_set_zoffset_init-Footprint :
    {l : List ℕ} {loud : Bool}
    → among tjc_page_leveling_init l ≡ true
    → Footprint l loud pre_set_zoffset_init
unfolding pre_set_zoffset_init
pre_set_zoffset_init-Footprint h0 = search (footprints, busy-Footprint)

pub start_auto_level_dist-Footprint :
    {l : List ℕ} {loud : Bool} (positive : Bool) → Footprint l loud (start_auto_level_dist positive)
unfolding start_auto_level_dist
start_auto_level_dist-Footprint positive = search (footprints)

pub go_to_syntony_move-Footprint :
    {l : List ℕ} {loud : Bool}
    → among tjc_page_syntony_move l ≡ true
    → Footprint l loud go_to_syntony_move
unfolding go_to_syntony_move
go_to_syntony_move-Footprint h0 = search (footprints, busy-Footprint) depth 8

pub open_go_to_syntony_move-Footprint :
    {l : List ℕ} {loud : Bool}
    → among tjc_page_open_syntony l ≡ true
    → Footprint l loud open_go_to_syntony_move
unfolding open_go_to_syntony_move
open_go_to_syntony_move-Footprint h0 = search (footprints, busy-Footprint)

pub open_more_level_finish-Footprint :
    {l : List ℕ} {loud : Bool}
    → among tjc_page_main l ≡ true
    → Footprint l loud open_more_level_finish
unfolding open_more_level_finish
open_more_level_finish-Footprint h0 =
    search (footprints, set_extruder_target-Footprint, set_mks_oobe_enabled-Footprint)

pub open_heater_bed_up-Footprint :
    {l : List ℕ} {loud : Bool}
    → among tjc_page_open_video_4 l ≡ true
    → Footprint l loud open_heater_bed_up
unfolding open_heater_bed_up
open_heater_bed_up-Footprint h0 = search (footprints)

pub keep_lowered-Footprint : {l : List ℕ} {loud : Bool} → Footprint l loud keep_lowered
unfolding keep_lowered
keep_lowered-Footprint = search (footprints, Footprint-keep)

pub save_current_zoffset-Footprint :
    {l : List ℕ} {loud : Bool}
    → among tjc_page_saving l ≡ true
    → Footprint l loud save_current_zoffset
unfolding save_current_zoffset
save_current_zoffset-Footprint h0 =
    search (footprints, busy-Footprint, keep_lowered-Footprint, Footprint-keep) depth 12

pub ruleset level_footprints = (
  busy-Footprint, set_auto_level_dist-Footprint, raise_zoffset-Footprint, probe_offset-Footprint,
  auto_level_reset-Footprint, claim_printer-Footprint, pre_auto_level_init-Footprint,
  pre_open_auto_level_init-Footprint, start_auto_level-Footprint, finish_auto_level-Footprint,
  pre_manual_level_init-Footprint, pre_set_zoffset_init-Footprint, start_auto_level_dist-Footprint,
  go_to_syntony_move-Footprint, open_go_to_syntony_move-Footprint, open_more_level_finish-Footprint,
  open_heater_bed_up-Footprint, keep_lowered-Footprint, save_current_zoffset-Footprint,
)
