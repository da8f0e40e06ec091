-- ===== src/Update/Tests.antt =====
-- The update on concrete inputs.
use Prim.Native.String.{String}
use qidi_plus.Base.{Bool, ◌∷◌, ◌≡◌, true, false, [], some, codes, joined, arith}
use qidi_plus.Update.Transfer.{initial, init_download_to_screen, serve}
use qidi_plus.Update.Transfer.Sent.{transfer_sends, second_transfer_silent}
use qidi_plus.Update.Detect.{Detected, detect, any}
use qidi_plus.Update.Detect.Exact.{detects, last_factory, detect_exact}
use qidi_plus.Update.Start.{start_update}
use qidi_plus.Update.Start.Renames.{renames-start_update, renames}

-- A file of 5 bytes is received twice.
transfer_sends_example :
    joined (serve 1 (init_download_to_screen (some (codes "tft-5")) initial)).0 ≡ codes "tft-5tft-5"
transfer_sends_example = transfer_sends (codes "tft-5") 1 (omega arith) (omega arith)

second_transfer_silent_example :
    let done = (serve 1 (init_download_to_screen (some (codes "tft-5")) initial)).1 in
    joined (serve 3 (init_download_to_screen (some (codes "tft")) done)).0 ≡ []
second_transfer_silent_example =
    second_transfer_silent (codes "tft-5") (codes "tft") 1 3 (omega arith) (omega arith)

abbrev none_found : Detected
none_found = record {
  plus3_soc_data = false;
  mcu_data = false;
  plus3_ui_data = false;
  printer_cfg = false;
  mks_thr_cfg = false;
  gcode = false;
  soc_deb = false;
}

-- In factory mode with the deb file, and then without the stick.
abbrev factory : String → Bool
factory path = true

detect_exact_example : any (detect (λ path. false) (detects (factory ∷ []) none_found)) ≡ true
unfolding last_factory
detect_exact_example = detect_exact (factory ∷ []) (λ path. false) none_found

renames-start_update_example :
    renames
      (start_update (λ path. false) (record none_found { mcu_data = true; plus3_ui_data = true }))
    ≡ 2
renames-start_update_example =
    renames-start_update (λ path. false)
      (record none_found { mcu_data = true; plus3_ui_data = true })
