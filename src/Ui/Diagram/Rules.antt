-- ===== src/Ui/Diagram/Rules.antt =====
-- The rules that find the footprint of a page's buttons.
use qidi_plus.Ui.Footprint.{footprints}
use qidi_plus.Ui.Footprint.Motion.{motion_footprints}
use qidi_plus.Ui.Footprint.Store.{store_footprints}
use qidi_plus.Ui.Footprint.Level.{level_footprints}
use qidi_plus.Ui.Footprint.Print.{print_footprints}
use qidi_plus.Ui.Footprint.Network.{network_footprints, Footprint-wifi_at}
use qidi_plus.Ui.Footprint.Files.{files}

pub ruleset pages = (
  footprints, motion_footprints, store_footprints, level_footprints, print_footprints,
  network_footprints, Footprint-wifi_at, files,
)
