-- ===== src/SendMsg/Calls.antt =====
-- src/send_msg.cpp: the calls that send one whole command, with their arguments.
pub mod Stream
use qidi_plus.Base.{ℤ, Bytes}
use qidi_plus.SendMsg.Control.{
  send_cmd_page, send_cmd_ref, send_cmd_get, send_cmd_prints, send_cmd_vis, send_cmd_tsw,
  send_cmd_randset, send_cmd_add, send_cmd_cle, send_cmd_addt, send_cmd_doevents, send_cmd_sendme,
  send_cmd_covx, send_cmd_strlen, send_cmd_btlen, send_cmd_substr, send_cmd_spstr, send_cmd_touch_j,
  send_cmd_ref_stop, send_cmd_ref_star, send_cmd_com_stop, send_cmd_com_star, send_cmd_code_c,
  send_cmd_rest,
}
use qidi_plus.SendMsg.Storage.{
  send_cmd_wepo, send_cmd_repo, send_cmd_wept, send_cmd_rept, send_cmd_cfgpio, send_cmd_crcrest,
  send_cmd_crcputs, send_cmd_crcputh, send_cmd_crcputu, send_cmd_setlayer, send_cmd_move,
  send_cmd_play, send_cmd_twfile, send_cmd_delfile, send_cmd_refile, send_cmd_findfile,
  send_cmd_rdfile, send_cmd_newfile, send_cmd_newdir, send_cmd_deldir, send_cmd_redir,
  send_cmd_finddir,
}
use qidi_plus.SendMsg.Widget.{
  send_cmd_beep, send_cmd_txt, send_cmd_pic, send_cmd_picc, send_cmd_picc2, send_cmd_val,
  send_cmd_pco, send_cmd_pco2, send_cmd_bpic, send_cmd_vid, send_cmd_cp_end, send_cmd_cp_close,
  send_cmd_write_end, send_cmd_txt_end, send_cmd_txt_plus, send_cmd_download, send_cmd_vid_en,
  send_cmd_bauds,
}
use qidi_plus.SendMsg.Frame.{IsClean}

-- The calls that send one command with its terminator. Not among them: `send_cmd_click`,
-- `send_cmd_baud`, and those that write the start or the data of a transfer (`send_cmd_cp`,
-- `send_cmd_cp_write`, `send_cmd_cp_image`, `send_cmd_write`, `send_cmd_txt_start`,
-- `send_cmd_txt_data`, `send_cmd_byte_data`, `send_cmd_download_data`): what they write is not one
-- terminated command.
pub data Call : Type 0 where
  page : Bytes → Call
  ref : Bytes → Call
  get : Bytes → Call
  prints : Bytes → ℤ → Call
  vis : Bytes → Bytes → Call
  tsw : Bytes → Bytes → Call
  randset : Bytes → Bytes → Call
  add : Bytes → Bytes → Bytes → Call
  cle : Bytes → Bytes → Call
  addt : Bytes → Bytes → Bytes → Call
  doevents : Call
  sendme : Call
  covx : Bytes → Bytes → Bytes → Call
  strlen : Bytes → Bytes → Call
  btlen : Bytes → Bytes → Call
  substr : Bytes → Bytes → Bytes → Bytes → Call
  spstr : Bytes → Bytes → Bytes → Bytes → Call
  touch_j : Call
  ref_stop : Call
  ref_star : Call
  com_stop : Call
  com_star : Call
  code_c : Call
  rest : Call
  wepo : Bytes → Bytes → Call
  repo : Bytes → Bytes → Call
  wept : Bytes → Bytes → Call
  rept : Bytes → Bytes → Call
  cfgpio : Bytes → Bytes → Bytes → Call
  crcrest : Bytes → Bytes → Call
  crcputs : Bytes → Bytes → Call
  crcputh : Bytes → Call
  crcputu : Bytes → Bytes → Call
  setlayer : Bytes → Bytes → Call
  move : Bytes → Bytes → Bytes → Bytes → Bytes → Bytes → Bytes → Call
  play : Bytes → Bytes → Bytes → Call
  twfile : Bytes → Bytes → Call
  delfile : Bytes → Call
  refile : Bytes → Bytes → Call
  findfile : Bytes → Bytes → Call
  rdfile : Bytes → Bytes → Bytes → Bytes → Call
  newfile : Bytes → Bytes → Call
  newdir : Bytes → Call
  deldir : Bytes → Call
  redir : Bytes → Bytes → Call
  finddir : Bytes → Bytes → Call
  beep : Bytes → Call
  txt : Bytes → Bytes → Call
  pic : Bytes → Bytes → Call
  picc : Bytes → Bytes → Call
  picc2 : Bytes → Bytes → Call
  val : Bytes → Bytes → Call
  pco : Bytes → Bytes → Call
  pco2 : Bytes → Bytes → Call
  bpic : Bytes → Bytes → Call
  vid : Bytes → Bytes → Call
  cp_end : Call
  cp_close : Bytes → Call
  write_end : Call
  txt_end : Call
  txt_plus : Bytes → Bytes → Bytes → Call
  download : ℤ → Call
  vid_en : Bytes → ℤ → Call
  bauds : ℤ → Call

-- What the call writes.
pub bytes_of : Call → Bytes
bytes_of (page pageid) = send_cmd_page pageid
bytes_of (ref obj) = send_cmd_ref obj
bytes_of (get att) = send_cmd_get att
bytes_of (prints att lenth) = send_cmd_prints att lenth
bytes_of (vis obj state) = send_cmd_vis obj state
bytes_of (tsw obj state) = send_cmd_tsw obj state
bytes_of (randset minval maxval) = send_cmd_randset minval maxval
bytes_of (add objid ch val_arg) = send_cmd_add objid ch val_arg
bytes_of (cle objid ch) = send_cmd_cle objid ch
bytes_of (addt objid ch qyt) = send_cmd_addt objid ch qyt
bytes_of doevents = send_cmd_doevents
bytes_of sendme = send_cmd_sendme
bytes_of (covx att1 att2 lenth) = send_cmd_covx att1 att2 lenth
bytes_of (strlen att0 att1) = send_cmd_strlen att0 att1
bytes_of (btlen att0 att1) = send_cmd_btlen att0 att1
bytes_of (substr att0 att1 star lenth) = send_cmd_substr att0 att1 star lenth
bytes_of (spstr src dec key indec) = send_cmd_spstr src dec key indec
bytes_of touch_j = send_cmd_touch_j
bytes_of ref_stop = send_cmd_ref_stop
bytes_of ref_star = send_cmd_ref_star
bytes_of com_stop = send_cmd_com_stop
bytes_of com_star = send_cmd_com_star
bytes_of code_c = send_cmd_code_c
bytes_of rest = send_cmd_rest
bytes_of (wepo att add_arg) = send_cmd_wepo att add_arg
bytes_of (repo att add_arg) = send_cmd_repo att add_arg
bytes_of (wept add_arg lenth) = send_cmd_wept add_arg lenth
bytes_of (rept add_arg lenth) = send_cmd_rept add_arg lenth
bytes_of (cfgpio id state obj) = send_cmd_cfgpio id state obj
bytes_of (crcrest crctype initval) = send_cmd_crcrest crctype initval
bytes_of (crcputs att length_arg) = send_cmd_crcputs att length_arg
bytes_of (crcputh hex) = send_cmd_crcputh hex
bytes_of (crcputu star length_arg) = send_cmd_crcputu star length_arg
bytes_of (setlayer obj0 obj1) = send_cmd_setlayer obj0 obj1
bytes_of (move obj startx starty endx endy first time) =
    send_cmd_move obj startx starty endx endy first time
bytes_of (play ch audio loop) = send_cmd_play ch audio loop
bytes_of (twfile filepath filesize) = send_cmd_twfile filepath filesize
bytes_of (delfile filepath) = send_cmd_delfile filepath
bytes_of (refile srcfilepath decfilepath) = send_cmd_refile srcfilepath decfilepath
bytes_of (findfile filepath att) = send_cmd_findfile filepath att
bytes_of (rdfile filepath addr size crc) = send_cmd_rdfile filepath addr size crc
bytes_of (newfile filepath size) = send_cmd_newfile filepath size
bytes_of (newdir dir) = send_cmd_newdir dir
bytes_of (deldir dir) = send_cmd_deldir dir
bytes_of (redir srcdir decdir) = send_cmd_redir srcdir decdir
bytes_of (finddir dir att) = send_cmd_finddir dir att
bytes_of (beep time) = send_cmd_beep time
bytes_of (txt obj txt_arg) = send_cmd_txt obj txt_arg
bytes_of (pic obj pic_arg) = send_cmd_pic obj pic_arg
bytes_of (picc obj picc_arg) = send_cmd_picc obj picc_arg
bytes_of (picc2 obj picc_arg) = send_cmd_picc2 obj picc_arg
bytes_of (val obj val_arg) = send_cmd_val obj val_arg
bytes_of (pco obj poc) = send_cmd_pco obj poc
bytes_of (pco2 obj poc2) = send_cmd_pco2 obj poc2
bytes_of (bpic obj bpic_arg) = send_cmd_bpic obj bpic_arg
bytes_of (vid obj vid_arg) = send_cmd_vid obj vid_arg
bytes_of cp_end = send_cmd_cp_end
bytes_of (cp_close obj) = send_cmd_cp_close obj
bytes_of write_end = send_cmd_write_end
bytes_of txt_end = send_cmd_txt_end
bytes_of (txt_plus obj1 obj2 obj3) = send_cmd_txt_plus obj1 obj2 obj3
bytes_of (download filesize) = send_cmd_download filesize
bytes_of (vid_en obj value) = send_cmd_vid_en obj value
bytes_of (bauds bauds_arg) = send_cmd_bauds bauds_arg

-- No argument holds the byte 0xff.
abbrev pub AreClean : Call → Type 0
AreClean (page pageid) = IsClean pageid
AreClean (ref obj) = IsClean obj
AreClean (get att) = IsClean att
AreClean (prints att lenth) = IsClean att
AreClean (vis obj state) = IsClean obj × IsClean state
AreClean (tsw obj state) = IsClean obj × IsClean state
AreClean (randset minval maxval) = IsClean minval × IsClean maxval
AreClean (add objid ch val_arg) = IsClean objid × IsClean ch × IsClean val_arg
AreClean (cle objid ch) = IsClean objid × IsClean ch
AreClean (addt objid ch qyt) = IsClean objid × IsClean ch × IsClean qyt
AreClean doevents = Unit
AreClean sendme = Unit
AreClean (covx att1 att2 lenth) = IsClean att1 × IsClean att2 × IsClean lenth
AreClean (strlen att0 att1) = IsClean att0 × IsClean att1
AreClean (btlen att0 att1) = IsClean att0 × IsClean att1
AreClean (substr att0 att1 star lenth) = IsClean att0 × IsClean att1 × IsClean star × IsClean lenth
AreClean (spstr src dec key indec) = IsClean src × IsClean dec × IsClean key × IsClean indec
AreClean touch_j = Unit
AreClean ref_stop = Unit
AreClean ref_star = Unit
AreClean com_stop = Unit
AreClean com_star = Unit
AreClean code_c = Unit
AreClean rest = Unit
AreClean (wepo att add_arg) = IsClean att × IsClean add_arg
AreClean (repo att add_arg) = IsClean att × IsClean add_arg
AreClean (wept add_arg lenth) = IsClean add_arg × IsClean lenth
AreClean (rept add_arg lenth) = IsClean add_arg × IsClean lenth
AreClean (cfgpio id state obj) = IsClean id × IsClean state × IsClean obj
AreClean (crcrest crctype initval) = IsClean crctype × IsClean initval
AreClean (crcputs att length_arg) = IsClean att × IsClean length_arg
AreClean (crcputh hex) = IsClean hex
AreClean (crcputu star length_arg) = IsClean star × IsClean length_arg
AreClean (setlayer obj0 obj1) = IsClean obj0 × IsClean obj1
AreClean (move obj startx starty endx endy first time) =
    IsClean obj
    × IsClean startx
    × IsClean starty
    × IsClean endx
    × IsClean endy
    × IsClean first
    × IsClean time
AreClean (play ch audio loop) = IsClean ch × IsClean audio × IsClean loop
AreClean (twfile filepath filesize) = IsClean filepath × IsClean filesize
AreClean (delfile filepath) = IsClean filepath
AreClean (refile srcfilepath decfilepath) = IsClean srcfilepath × IsClean decfilepath
AreClean (findfile filepath att) = IsClean filepath × IsClean att
AreClean (rdfile filepath addr size crc) =
    IsClean filepath × IsClean addr × IsClean size × IsClean crc
AreClean (newfile filepath size) = IsClean filepath × IsClean size
AreClean (newdir dir) = IsClean dir
AreClean (deldir dir) = IsClean dir
AreClean (redir srcdir decdir) = IsClean srcdir × IsClean decdir
AreClean (finddir dir att) = IsClean dir × IsClean att
AreClean (beep time) = IsClean time
AreClean (txt obj txt_arg) = IsClean obj × IsClean txt_arg
AreClean (pic obj pic_arg) = IsClean obj × IsClean pic_arg
AreClean (picc obj picc_arg) = IsClean obj × IsClean picc_arg
AreClean (picc2 obj picc_arg) = IsClean obj × IsClean picc_arg
AreClean (val obj val_arg) = IsClean obj × IsClean val_arg
AreClean (pco obj poc) = IsClean obj × IsClean poc
AreClean (pco2 obj poc2) = IsClean obj × IsClean poc2
AreClean (bpic obj bpic_arg) = IsClean obj × IsClean bpic_arg
AreClean (vid obj vid_arg) = IsClean obj × IsClean vid_arg
AreClean cp_end = Unit
AreClean (cp_close obj) = IsClean obj
AreClean write_end = Unit
AreClean txt_end = Unit
AreClean (txt_plus obj1 obj2 obj3) = IsClean obj1 × IsClean obj2 × IsClean obj3
AreClean (download filesize) = Unit
AreClean (vid_en obj value) = IsClean obj
AreClean (bauds bauds_arg) = Unit
