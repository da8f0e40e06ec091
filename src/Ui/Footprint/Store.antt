-- ===== src/Ui/Footprint/Store.antt =====
-- The footprints of the functions of `Ui.Store`.
use qidi_plus.Base.{ℕ, List, Bool, Bytes}
use qidi_plus.Ui.Footprint.{Footprint, footprints, Footprint-at}
use qidi_plus.Ui.Panel.{Panel}
use qidi_plus.Ui.Store.{
  write, get_mks_fila_status, set_mks_fila_status, set_filament_sensor, get_mks_oobe_enabled,
  set_mks_oobe_enabled, get_mks_babystep, set_mks_babystep, get_mks_total_printed_time,
  set_mks_total_printed_time, set_mks_net_eth,
}

pub write-Footprint :
    {l : List ℕ} {loud : Bool} (key value : Bytes) → Footprint l loud (write key value)
unfolding write
write-Footprint key value = search (footprints)

Footprint-write_at :
    {l : List ℕ} {loud : Bool} (key : Bytes) (value : Panel → Bytes)
    → Footprint l loud (λ p. write key (value p) p)
Footprint-write_at key value = Footprint-at (λ p. write-Footprint key (value p))

pub get_mks_fila_status-Footprint :
    {l : List ℕ} {loud : Bool} → Footprint l loud get_mks_fila_status
unfolding get_mks_fila_status
get_mks_fila_status-Footprint = search (footprints)

pub set_mks_fila_status-Footprint :
    {l : List ℕ} {loud : Bool} → Footprint l loud set_mks_fila_status
unfolding set_mks_fila_status
set_mks_fila_status-Footprint = search (footprints, Footprint-write_at)

pub set_filament_sensor-Footprint :
    {l : List ℕ} {loud : Bool} → Footprint l loud set_filament_sensor
unfolding set_filament_sensor
set_filament_sensor-Footprint = search (footprints, set_mks_fila_status-Footprint)

pub get_mks_oobe_enabled-Footprint :
    {l : List ℕ} {loud : Bool} → Footprint l loud get_mks_oobe_enabled
unfolding get_mks_oobe_enabled
get_mks_oobe_enabled-Footprint = search (footprints)

pub set_mks_oobe_enabled-Footprint :
    {l : List ℕ} {loud : Bool} (enable : Bool) → Footprint l loud (set_mks_oobe_enabled enable)
unfolding set_mks_oobe_enabled
set_mks_oobe_enabled-Footprint enable = search (footprints, write-Footprint)

pub get_mks_babystep-Footprint : {l : List ℕ} {loud : Bool} → Footprint l loud get_mks_babystep
unfolding get_mks_babystep
get_mks_babystep-Footprint = search (footprints)

pub set_mks_babystep-Footprint :
    {l : List ℕ} {loud : Bool} (value : Bytes) → Footprint l loud (set_mks_babystep value)
unfolding set_mks_babystep
set_mks_babystep-Footprint value = search (footprints, write-Footprint)

pub get_mks_total_printed_time-Footprint :
    {l : List ℕ} {loud : Bool} → Footprint l loud get_mks_total_printed_time
unfolding get_mks_total_printed_time
get_mks_total_printed_time-Footprint = search (footprints)

pub set_mks_total_printed_time-Footprint :
    {l : List ℕ} {loud : Bool} (minutes : ℕ) → Footprint l loud (set_mks_total_printed_time minutes)
unfolding set_mks_total_printed_time
set_mks_total_printed_time-Footprint minutes = search (footprints, write-Footprint)

pub set_mks_net_eth-Footprint : {l : List ℕ} {loud : Bool} → Footprint l loud set_mks_net_eth
unfolding set_mks_net_eth
set_mks_net_eth-Footprint = search (footprints)

pub ruleset store_footprints = (
  get_mks_fila_status-Footprint, set_mks_fila_status-Footprint, set_filament_sensor-Footprint,
  get_mks_oobe_enabled-Footprint, set_mks_oobe_enabled-Footprint, get_mks_babystep-Footprint,
  set_mks_babystep-Footprint, get_mks_total_printed_time-Footprint,
  set_mks_total_printed_time-Footprint, set_mks_net_eth-Footprint,
)
