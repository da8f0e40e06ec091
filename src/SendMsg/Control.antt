-- ===== src/SendMsg/Control.antt =====
-- src/send_msg.cpp: the commands that control the screen and its objects. Each function gives the bytes that one
-- call of `write` sends, and no file descriptor.
use qidi_plus.Base.{◌++◌, Bytes, codes, ℤ, int_to_string}
use qidi_plus.SendMsg.Frame.{terminator}

unfoldable pub send_cmd_page : Bytes → Bytes
send_cmd_page pageid = codes "page " ++ (pageid ++ terminator)

unfoldable pub send_cmd_ref : Bytes → Bytes
send_cmd_ref obj = codes "ref " ++ (obj ++ terminator)

unfoldable pub send_cmd_get : Bytes → Bytes
send_cmd_get att = codes "get " ++ (att ++ terminator)

unfoldable pub send_cmd_prints : Bytes → ℤ → Bytes
send_cmd_prints att lenth =
    codes "prints " ++ (att ++ (codes "," ++ (int_to_string lenth ++ terminator)))

unfoldable pub send_cmd_vis : Bytes → Bytes → Bytes
send_cmd_vis obj state = codes "vis " ++ (obj ++ (codes "," ++ (state ++ terminator)))

unfoldable pub send_cmd_tsw : Bytes → Bytes → Bytes
send_cmd_tsw obj state = codes "tsw " ++ (obj ++ (codes "," ++ (state ++ terminator)))

unfoldable pub send_cmd_randset : Bytes → Bytes → Bytes
send_cmd_randset minval maxval =
    codes "randset " ++ (minval ++ (codes "," ++ (maxval ++ terminator)))

unfoldable pub send_cmd_add : Bytes → Bytes → Bytes → Bytes
send_cmd_add objid ch val =
    codes "add " ++ (objid ++ (codes "," ++ (ch ++ (codes "," ++ (val ++ terminator)))))

unfoldable pub send_cmd_cle : Bytes → Bytes → Bytes
send_cmd_cle objid ch = codes "cle " ++ (objid ++ (codes "," ++ (ch ++ terminator)))

unfoldable pub send_cmd_addt : Bytes → Bytes → Bytes → Bytes
send_cmd_addt objid ch qyt =
    codes "addt " ++ (objid ++ (codes "," ++ (ch ++ (codes "," ++ (qyt ++ terminator)))))

unfoldable pub send_cmd_doevents : Bytes
send_cmd_doevents = codes "doevents" ++ terminator

unfoldable pub send_cmd_sendme : Bytes
send_cmd_sendme = codes "sendme" ++ terminator

unfoldable pub send_cmd_covx : Bytes → Bytes → Bytes → Bytes
send_cmd_covx att1 att2 lenth =
    codes "covx " ++ (att1 ++ (codes "," ++ (att2 ++ (codes "," ++ (lenth ++ terminator)))))

unfoldable pub send_cmd_strlen : Bytes → Bytes → Bytes
send_cmd_strlen att0 att1 = codes "strlen " ++ (att0 ++ (codes "," ++ (att1 ++ terminator)))

unfoldable pub send_cmd_btlen : Bytes → Bytes → Bytes
send_cmd_btlen att0 att1 = codes "btlen " ++ (att0 ++ (codes "," ++ (att1 ++ terminator)))

unfoldable pub send_cmd_substr : Bytes → Bytes → Bytes → Bytes → Bytes
send_cmd_substr att0 att1 star lenth =
    codes "substr "
    ++ (att0
        ++ (codes "," ++ (att1 ++ (codes "," ++ (star ++ (codes "," ++ (lenth ++ terminator)))))))

unfoldable pub send_cmd_spstr : Bytes → Bytes → Bytes → Bytes → Bytes
send_cmd_spstr src dec key indec =
    codes "spstr "
    ++ (src ++ (codes "," ++ (dec ++ (codes "," ++ (key ++ (codes "," ++ (indec ++ terminator)))))))

unfoldable pub send_cmd_touch_j : Bytes
send_cmd_touch_j = codes "touch_j" ++ terminator

unfoldable pub send_cmd_ref_stop : Bytes
send_cmd_ref_stop = codes "ref_stop" ++ terminator

unfoldable pub send_cmd_ref_star : Bytes
send_cmd_ref_star = codes "ref_star" ++ terminator

unfoldable pub send_cmd_com_stop : Bytes
send_cmd_com_stop = codes "com_stop" ++ terminator

unfoldable pub send_cmd_com_star : Bytes
send_cmd_com_star = codes "com_star" ++ terminator

unfoldable pub send_cmd_code_c : Bytes
send_cmd_code_c = codes "code_c" ++ terminator

unfoldable pub send_cmd_rest : Bytes
send_cmd_rest = codes "rest" ++ terminator
