-- ===== src/SendMsg/Download.antt =====
-- src/send_msg.cpp: `send_cmd_download_data`, which writes a block in pieces of 512 bytes, and the
-- functions that write something other than one whole command.
pub mod Pieces
use qidi_plus.Base.{
  ℕ, zero, suc, ◌+◌, ◌-◌, List, [], ◌∷◌, ◌++◌, Option, none, some, ltb, if◌then◌else◌, Bytes, codes,
  length, take, drop, ◌>>=◌,
}
use qidi_plus.SendMsg.Widget.{send_cmd_write, send_cmd_write_end}
use qidi_plus.SendMsg.Frame.{terminator}

-- `s.substr(pos, n)`
abbrev pub substr : ℕ → ℕ → Bytes → Bytes
substr pos n s = take n (drop pos s)

-- The `for` loop over `start` and `end`, on fuel: the pieces in the order they are written.
unfoldable pub pieces : ℕ → ℕ → ℕ → Bytes → Option (List Bytes)
pieces zero start finish bytes = none
pieces (suc f) start finish bytes =
    let rest = pieces f finish (finish + 512) bytes in
    if ltb start (length bytes)
    then (if ltb (length bytes) finish
        then some (substr start (length bytes - start) bytes ∷ [])
        else (rest >>= λ later. some (substr start 512 bytes ∷ later)))
    else some []

unfoldable pub send_cmd_download_data : Bytes → Option (List Bytes)
unfolding pieces
send_cmd_download_data bytes = pieces (length bytes + 1) 0 512 bytes

-- `write(fd, cmd.data(), sizeof(cmd))`: the size of the string object, `string_size`, and not the
-- length; `beyond` is what lies behind the text in memory.
pub send_cmd_click : ℕ → Bytes → Bytes → Bytes → Bytes
send_cmd_click string_size beyond obj event =
    take string_size ((codes "click " ++ (obj ++ (codes "," ++ (event ++ terminator)))) ++ beyond)

-- Fifteen bytes, the NUL of the literal among them; the argument is not looked at.
pub send_cmd_baud : ℕ → Bytes
send_cmd_baud baud = (codes "baud=921600" ++ terminator) ++ 0 ∷ []

pub send_cmd_cp_write : Bytes → Bytes → Bytes
send_cmd_cp_write obj bytes = bytes

pub send_cmd_byte_data : ℕ → Bytes
send_cmd_byte_data byte = byte ∷ []

pub send_cmd_txt_data : Bytes → Bytes
send_cmd_txt_data txt = txt

pub send_cmd_cp_image : Bytes → Bytes → Bytes
send_cmd_cp_image obj image = send_cmd_write obj ++ (image ++ send_cmd_write_end)
