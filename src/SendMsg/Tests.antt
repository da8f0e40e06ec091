-- ===== src/SendMsg/Tests.antt =====
-- The commands for the screen on concrete inputs.
use qidi_plus.Base.{negsuc, ◌≡◌, refl, List, [], ◌∷◌, ◌++◌, map, some, Bytes, codes, joined, arith}
use qidi_plus.SendMsg.Frame.{terminator, frames}
use qidi_plus.SendMsg.Control.{send_cmd_page}
use qidi_plus.SendMsg.Calls.{Call, page, vid_en, txt, bytes_of}
use qidi_plus.SendMsg.Calls.Stream.{stream, frames-stream}
use qidi_plus.SendMsg.Download.{send_cmd_download_data}
use qidi_plus.SendMsg.Download.Pieces.{send_cmd_download_data_lem, AllWithin}

page_bytes : send_cmd_page (codes "3") ≡ codes "page 3" ++ 255 ∷ 255 ∷ 255 ∷ []
unfolding send_cmd_page
page_bytes = refl

abbrev calls : List Call
calls =
    page (codes "3")
    ∷ vid_en (codes "v0") (negsuc 0)
    ∷ txt (codes "t0") (codes "QIDI")
    ∷ page (codes "0")
    ∷ []

frames-stream_example :
    map (λ body. body ++ terminator) (frames (stream calls)) ≡ map bytes_of calls
frames-stream_example = frames-stream calls (ground arith)

send_cmd_download_data_lem_example :
    (ps : List Bytes) × (send_cmd_download_data (codes "firmware") ≡ some ps)
    × (joined ps ≡ codes "firmware")
    × AllWithin 512 ps
send_cmd_download_data_lem_example = send_cmd_download_data_lem (codes "firmware")
