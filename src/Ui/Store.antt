-- ===== src/Ui/Store.antt =====
-- src/event.cpp: the functions that read or write the configuration file. `MakerbaseParseIni` is
-- the file as a list of entries.
use qidi_plus.Base.{ℕ, Bool, false, not, if◌then◌else◌, none, some, Bytes, codes, to_string}
use qidi_plus.Ui.Panel.{Effect, Panel, Action, ◌▸◌, act, emit, set_flags, ini_set, ini_get, lookup}

unfoldable pub write : Bytes → Bytes → Action
write key value = ini_set key value ▸ emit (Effect.system (codes "sync"))

-- `mksini_getboolean`, over the library's reading of the text.
unfoldable pub ini_bool : Bytes → Bool → Panel → Bool
ini_bool key default p = p.world.boolean_of (lookup key p.config) default

unfoldable pub flag_text : Bool → Bytes
flag_text b = codes (if b then "1" else "0")

unfoldable pub get_mks_fila_status : Action
get_mks_fila_status =
    λ p. set_flags (λ f. record f { fila_status = ini_bool (codes "fila:enable") false p }) p

unfoldable pub set_mks_fila_status : Action
set_mks_fila_status = λ p. write (codes "fila:enable") (flag_text p.flags.fila_status) p

unfoldable pub set_filament_sensor : Action
set_filament_sensor =
    set_flags (λ f. record f { fila_status = not f.fila_status }) ▸ set_mks_fila_status

unfoldable pub get_mks_oobe_enabled : Action
get_mks_oobe_enabled =
    λ p. set_flags (λ f. record f { oobe_enabled = ini_bool (codes "oobe:enable") false p }) p

unfoldable pub set_mks_oobe_enabled : Bool → Action
set_mks_oobe_enabled enable = write (codes "oobe:enable") (flag_text enable)

unfoldable pub get_mks_babystep : Action
get_mks_babystep =
    act (λ p. record p { babystep_value = ini_get (codes "babystep:value") (codes "0.000") p })

unfoldable pub set_mks_babystep : Bytes → Action
set_mks_babystep value = write (codes "babystep:value") value

unfoldable pub get_mks_total_printed_time : Action
get_mks_total_printed_time = act (λ p. record p {
  total_printed_minutes = elim (lookup (codes "total:time") p.config) [
    | none ↦ 0
    | some text ↦ p.world.number_of text
  ];
})

unfoldable pub set_mks_total_printed_time : ℕ → Action
set_mks_total_printed_time minutes = write (codes "total:time") (to_string minutes)

-- `1` is written, whatever the switch says, and nothing is synced.
unfoldable pub set_mks_net_eth : Action
set_mks_net_eth = ini_set (codes "mks_ethernet:enable") (codes "1")
