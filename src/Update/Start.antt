-- ===== src/Update/Start.antt =====
-- src/mks_update.cpp: `start_update`, as the sequence of its effects.
pub mod Renames
use Prim.Native.String.{String}
use qidi_plus.Base.{Bool, true, false, List, [], ◌∷◌, ◌++◌, if◌then◌else◌}
use qidi_plus.Update.Detect.{Detected, factory_path}

pub data Effect : Type 0 where
  system : String → Effect
  reset_firmware close_mcu_port update_finished_tips : Effect
  sleep_1 sleep_3 : Effect
  get_mks_babystep set_mks_babystep : Effect

abbrev pub update_factory_path : String
update_factory_path = "/home/mks/gcode_files/sda1/QD_Update/QD_factory_mode.txt"

-- The three ways of each block: the marker at the root of the stick, the marker in its update
-- folder, or none. The commands touch neither marker.
pub by_mode : (String → Bool) → List Effect → List Effect → List Effect → List Effect
by_mode access root folder plain =
    if access factory_path then root else if access update_factory_path then folder else plain

pub flash_mcu : String → List Effect
flash_mcu command =
    system "cp /home/mks/gcode_files/sda1/QD_MCU/MCU /root/klipper.bin;"
    ∷ reset_firmware
    ∷ sleep_1
    ∷ close_mcu_port
    ∷ system command
    ∷ []

pub update_mcu : (String → Bool) → List Effect
update_mcu access =
    by_mode access (flash_mcu "/root/hid-flash /root/klipper.bin ttyS0; systemctl start klipper; ")
      (flash_mcu "/root/hid-flash /root/klipper.bin ttyS0; systemctl start klipper; ")
      (flash_mcu
        "/root/hid-flash /root/klipper.bin ttyS0; systemctl start klipper; mv /home/mks/gcode_files/sda1/QD_MCU/MCU /home/mks/gcode_files/sda1/QD_MCU/MCU.bak")

pub update_printer_cfg : (String → Bool) → List Effect
update_printer_cfg access =
    by_mode access
      (system
          "cp /home/mks/gcode_files/sda1/QD_Update/printer.cfg /home/mks/klipper_config/printer.cfg; chmod 777 /home/mks/klipper_config/printer.cfg; sync"
        ∷ [])
      (system
          "cp /home/mks/gcode_files/sda1/QD_Update/printer.cfg /home/mks/klipper_config/printer.cfg; chmod 777 /home/mks/klipper_config/printer.cfg; sync"
        ∷ [])
      (system
          "cp /home/mks/gcode_files/sda1/QD_Update/printer.cfg /home/mks/klipper_config/printer.cfg; chmod 777 /home/mks/klipper_config/printer.cfg; mv /home/mks/gcode_files/sda1/QD_Update/printer.cfg /home/mks/gcode_files/sda1/QD_Update/printer.cfg.bak; sync"
        ∷ [])

pub update_thr_cfg : (String → Bool) → List Effect
update_thr_cfg access =
    by_mode access
      (system
          "cp /home/mks/gcode_files/sda1/QD_Update/MKS_THR.cfg /home/mks/klipper_config/MKS_THR.cfg; chmod 777 /home/mks/klipper_config/MKS_THR.cfg; sync"
        ∷ [])
      (system
          "cp /home/mks/gcode_files/sda1/QD_Update/MKS_THR.cfg /home/mks/klipper_config/MKS_THR.cfg; chmod 777 /home/mks/klipper_config/MKS_THR.cfg; sync"
        ∷ [])
      (system
          "cp /home/mks/gcode_files/sda1/QD_Update/MKS_THR.cfg /home/mks/klipper_config/MKS_THR.cfg; chmod 777 /home/mks/klipper_config/MKS_THR.cfg; mv /home/mks/gcode_files/sda1/QD_Update/MKS_THR.cfg /home/mks/gcode_files/sda1/QD_Update/MKS_THR.cfg.bak; sync"
        ∷ [])

pub update_gcode : List Effect
update_gcode =
    system "rm /home/mks/gcode_files/*"
    ∷ system "rm /home/mks/gcode_files/.thumbs/*\n"
    ∷ system "systemctl stop moonraker.service\n"
    ∷ system
        "find /home/mks/gcode_files -maxdepth 1 -type d ! -name sd* -a ! -name '.*' | grep gcode_files/ | xargs rm -rf"
    ∷ system
        "cp /home/mks/gcode_files/sda1/QD_Update/QD_gcode/*.gcode /home/mks/gcode_files; chmod 777 /home/mks/gcode_files/*.gcode; sync"
    ∷ system "chown -R mks:mks /home/mks/gcode_files\n"
    ∷ sleep_3
    ∷ system "systemctl restart moonraker.service\n"
    ∷ []

pub update_ui : (String → Bool) → List Effect
update_ui access =
    by_mode access
      (system "cp /home/mks/gcode_files/sda1/QD_Update/QD_Plus3_UI5.0 /root/800_480.tft; sync" ∷ [])
      (system "cp /home/mks/gcode_files/sda1/QD_Update/QD_Plus3_UI5.0  /root/800_480.tft; sync"
        ∷ [])
      (system
          "cp /home/mks/gcode_files/sda1/QD_Update/QD_Plus3_UI5.0 /root/800_480.tft; mv /home/mks/gcode_files/sda1/QD_Update/QD_Plus3_UI5.0 /home/mks/gcode_files/sda1/QD_Update/QD_Plus3_UI5.0.bak; sync"
        ∷ [])

abbrev pub install_soc : String
install_soc =
    "mv /home/mks/gcode_files/sda1/QD_Update/QD_Plus_SOC /home/mks/gcode_files/sda1/QD_Update/mks.deb; dpkg -i /home/mks/gcode_files/sda1/QD_Update/mks.deb; mv /home/mks/gcode_files/sda1/QD_Update/mks.deb /home/mks/gcode_files/sda1/QD_Update/QD_Plus_SOC; sync;"

-- The last `system` call of the plain way leaves the package under another name.
pub update_soc : (String → Bool) → List Effect
update_soc access =
    by_mode access (system install_soc ∷ [])
      (get_mks_babystep ∷ system install_soc ∷ set_mks_babystep ∷ [])
      (get_mks_babystep
        ∷ system
            "mv /home/mks/gcode_files/sda1/QD_Update/QD_Plus_SOC /home/mks/gcode_files/sda1/QD_Update/mks.deb; dpkg -i /home/mks/gcode_files/sda1/QD_Update/mks.deb; mv /home/mks/gcode_files/sda1/QD_Update/mks.deb /home/mks/gcode_files/sda1/QD_Update/QD_Plus_SOC.bak; sync;"
        ∷ set_mks_babystep
        ∷ [])

pub update_deb : (String → Bool) → List Effect
update_deb access =
    if access factory_path
    then system "dpkg -i /home/mks/gcode_files/sda1/QD_Update/mks.deb;sync" ∷ []
    else []

abbrev pub when : Bool → List Effect → List Effect
when b es = if b then es else []

pub start_update : (String → Bool) → Detected → List Effect
start_update access d =
    system "rm /home/mks/gcode_files/.cache/*"
    ∷ (when d.mcu_data (update_mcu access)
        ++ (when d.printer_cfg (update_printer_cfg access)
            ++ (when d.mks_thr_cfg (update_thr_cfg access)
                ++ (when d.gcode update_gcode
                    ++ (when d.plus3_ui_data (update_ui access)
                        ++ ((if d.plus3_soc_data
                              then update_soc access
                              else when d.soc_deb (update_deb access))
                            ++ update_finished_tips ∷ []))))))
