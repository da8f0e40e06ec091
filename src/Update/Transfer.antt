-- ===== src/Update/Transfer.antt =====
-- src/mks_update.cpp: `init_download_to_screen` and `download_to_screen`, over the globals that
-- begin with `tft_`. The screen asks for the next block by the byte 0x05.
pub mod Sent
use qidi_plus.Base.{
  ℕ, zero, suc, ◌+◌, ◌-◌, List, [], ◌∷◌, ◌++◌, Option, none, some, ltb, if◌then◌else◌, Bytes,
  length,
}
use qidi_plus.SendMsg.Download.{substr}

pub record Transfer : Type 0 where
  pub tft_start : ℕ
  pub tft_end : ℕ
  pub tft_data : Bytes

-- The globals before the first transfer.
abbrev pub initial : Transfer
initial = record { tft_start = 0; tft_end = 0; tft_data = [] }

-- With the file's contents; `none` is a missing file. `tft_len` is the length of `tft_data`, and
-- `tft_start` is not reset.
pub init_download_to_screen : Option Bytes → Transfer → Transfer
init_download_to_screen none s = s
init_download_to_screen (some contents) s = record s { tft_data = contents; tft_end = 4096 }

-- The blocks given to `send_cmd_download_data`, and the new state. Past the end of the data the
-- first `if` sends the rest, and the lines below it are run as well.
pub download_to_screen : Transfer → List Bytes × Transfer
download_to_screen s =
    let len = length s.tft_data in
    let tail =
      if ltb len s.tft_end then substr s.tft_start (len - s.tft_start) s.tft_data ∷ [] else [] in
    let block = substr s.tft_start 4096 s.tft_data in
    if ltb s.tft_start len
    then (tail ++ block ∷ [], record s { tft_start = s.tft_end; tft_end = s.tft_end + 4096 })
    else ([], s)

-- The blocks sent for so many requests of the screen.
pub serve : ℕ → Transfer → List Bytes × Transfer
serve zero s = ([], s)
serve (suc n) s =
    let (sent, t) = download_to_screen s in let (later, u) = serve n t in (sent ++ later, u)
