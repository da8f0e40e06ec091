-- ===== src/Update/Detect.antt =====
-- src/mks_update.cpp: `detect_update`, over the global flags. `access path` says that the file is
-- there.
pub mod Exact
use Prim.Native.String.{String}
use qidi_plus.Base.{Bool, true, false, ◌||◌, if◌then◌else◌}

pub record Detected : Type 0 where
  pub plus3_soc_data : Bool
  pub mcu_data : Bool
  pub plus3_ui_data : Bool
  pub printer_cfg : Bool
  pub mks_thr_cfg : Bool
  pub gcode : Bool
  pub soc_deb : Bool

abbrev pub soc_path : String
soc_path = "/home/mks/gcode_files/sda1/QD_Update/QD_Plus_SOC"

abbrev pub mcu_path : String
mcu_path = "/home/mks/gcode_files/sda1/QD_MCU/MCU"

abbrev pub ui_path : String
ui_path = "/home/mks/gcode_files/sda1/QD_Update/QD_Plus3_UI5.0"

abbrev pub printer_cfg_path : String
printer_cfg_path = "/home/mks/gcode_files/sda1/QD_Update/printer.cfg"

abbrev pub thr_cfg_path : String
thr_cfg_path = "/home/mks/gcode_files/sda1/QD_Update/MKS_THR.cfg"

abbrev pub gcode_path : String
gcode_path = "/home/mks/gcode_files/sda1/QD_Update/QD_Gcode"

abbrev pub factory_path : String
factory_path = "/home/mks/gcode_files/sda1/QD_factory_mode.txt"

abbrev pub deb_path : String
deb_path = "/home/mks/gcode_files/sda1/QD_Update/mks.deb"

-- The flags behind the call; that for the deb file is only set in factory mode.
pub detect : (String → Bool) → Detected → Detected
detect access d = record {
  plus3_soc_data = access soc_path;
  mcu_data = access mcu_path;
  plus3_ui_data = access ui_path;
  printer_cfg = access printer_cfg_path;
  mks_thr_cfg = access thr_cfg_path;
  gcode = access gcode_path;
  soc_deb = if access factory_path then access deb_path else d.soc_deb;
}

-- The result: the flags joined by `|`.
pub any : Detected → Bool
any d =
    d.plus3_soc_data || d.mcu_data || d.plus3_ui_data || d.printer_cfg || d.mks_thr_cfg || d.gcode
    || d.soc_deb
