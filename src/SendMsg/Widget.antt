-- ===== src/SendMsg/Widget.antt =====
-- src/send_msg.cpp: the commands that set attributes of widgets. Each function gives the bytes that one
-- call of `write` sends, and no file descriptor.
use qidi_plus.Base.{◌++◌, Bytes, codes, ℤ, int_to_string}
use qidi_plus.SendMsg.Frame.{terminator}

unfoldable pub send_cmd_beep : Bytes → Bytes
send_cmd_beep time = codes "beep " ++ (time ++ terminator)

unfoldable pub send_cmd_txt : Bytes → Bytes → Bytes
send_cmd_txt obj txt = obj ++ (codes ".txt=\"" ++ (txt ++ (codes "\"" ++ terminator)))

unfoldable pub send_cmd_pic : Bytes → Bytes → Bytes
send_cmd_pic obj pic = obj ++ (codes ".pic=" ++ (pic ++ terminator))

unfoldable pub send_cmd_picc : Bytes → Bytes → Bytes
send_cmd_picc obj picc = obj ++ (codes ".picc=" ++ (picc ++ terminator))

unfoldable pub send_cmd_picc2 : Bytes → Bytes → Bytes
send_cmd_picc2 obj picc = obj ++ (codes ".picc2=" ++ (picc ++ terminator))

unfoldable pub send_cmd_val : Bytes → Bytes → Bytes
send_cmd_val obj val = obj ++ (codes ".val=" ++ (val ++ terminator))

unfoldable pub send_cmd_pco : Bytes → Bytes → Bytes
send_cmd_pco obj poc = obj ++ (codes ".pco=" ++ (poc ++ terminator))

unfoldable pub send_cmd_pco2 : Bytes → Bytes → Bytes
send_cmd_pco2 obj poc2 = obj ++ (codes ".pco2=" ++ (poc2 ++ terminator))

unfoldable pub send_cmd_bpic : Bytes → Bytes → Bytes
send_cmd_bpic obj bpic = obj ++ (codes ".bpic=" ++ (bpic ++ terminator))

unfoldable pub send_cmd_cp : Bytes → Bytes
send_cmd_cp obj = obj ++ codes ".write(\""

unfoldable pub send_cmd_vid : Bytes → Bytes → Bytes
send_cmd_vid obj vid = obj ++ (codes ".vid=" ++ (vid ++ terminator))

unfoldable pub send_cmd_cp_end : Bytes
send_cmd_cp_end = codes "\")" ++ terminator

unfoldable pub send_cmd_cp_close : Bytes → Bytes
send_cmd_cp_close obj = obj ++ (codes ".close()" ++ terminator)

unfoldable pub send_cmd_write : Bytes → Bytes
send_cmd_write obj = obj ++ codes ".write(\""

unfoldable pub send_cmd_write_end : Bytes
send_cmd_write_end = codes "\")" ++ terminator

unfoldable pub send_cmd_txt_start : Bytes → Bytes
send_cmd_txt_start obj = obj ++ codes ".txt=\""

unfoldable pub send_cmd_txt_end : Bytes
send_cmd_txt_end = codes "\"" ++ terminator

unfoldable pub send_cmd_txt_plus : Bytes → Bytes → Bytes → Bytes
send_cmd_txt_plus obj1 obj2 obj3 =
    obj1 ++ (codes ".txt=" ++ (obj2 ++ (codes ".txt+" ++ (obj3 ++ (codes ".txt" ++ terminator)))))

unfoldable pub send_cmd_download : ℤ → Bytes
send_cmd_download filesize =
    codes "whmi-wri " ++ (int_to_string filesize ++ (codes ",115200,0" ++ terminator))

unfoldable pub send_cmd_vid_en : Bytes → ℤ → Bytes
send_cmd_vid_en obj value = obj ++ (codes ".en=" ++ (int_to_string value ++ terminator))

unfoldable pub send_cmd_bauds : ℤ → Bytes
send_cmd_bauds bauds = codes "bauds=" ++ (int_to_string bauds ++ terminator)
