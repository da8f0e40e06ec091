-- ===== src/SendMsg/Calls/Stream.antt =====
-- src/send_msg.cpp: streams of commands, as the screen reads them.
use qidi_plus.Base.{◌≡◌, ap, List, [], ◌∷◌, ◌++◌, map, Bytes, codes, arith, int_to_string}
use qidi_plus.SendMsg.Control.{
  send_cmd_page, send_cmd_ref, send_cmd_get, send_cmd_prints, send_cmd_vis, send_cmd_tsw,
  send_cmd_randset, send_cmd_add, send_cmd_cle, send_cmd_addt, send_cmd_doevents, send_cmd_sendme,
  send_cmd_covx, send_cmd_strlen, send_cmd_btlen, send_cmd_substr, send_cmd_spstr, send_cmd_touch_j,
  send_cmd_ref_stop, send_cmd_ref_star, send_cmd_com_stop, send_cmd_com_star, send_cmd_code_c,
  send_cmd_rest,
}
use qidi_plus.SendMsg.Storage.{
  send_cmd_wepo, send_cmd_repo, send_cmd_wept, send_cmd_rept, send_cmd_cfgpio, send_cmd_crcrest,
  send_cmd_crcputs, send_cmd_crcputh, send_cmd_crcputu, send_cmd_setlayer, send_cmd_move,
  send_cmd_play, send_cmd_twfile, send_cmd_delfile, send_cmd_refile, send_cmd_findfile,
  send_cmd_rdfile, send_cmd_newfile, send_cmd_newdir, send_cmd_deldir, send_cmd_redir,
  send_cmd_finddir,
}
use qidi_plus.SendMsg.Widget.{
  send_cmd_beep, send_cmd_txt, send_cmd_pic, send_cmd_picc, send_cmd_picc2, send_cmd_val,
  send_cmd_pco, send_cmd_pco2, send_cmd_bpic, send_cmd_vid, send_cmd_cp_end, send_cmd_cp_close,
  send_cmd_write_end, send_cmd_txt_end, send_cmd_txt_plus, send_cmd_download, send_cmd_vid_en,
  send_cmd_bauds,
}
use qidi_plus.SendMsg.Frame.{
  terminator, frames, frames_nil, frames_frame, IsFrame, IsFrame-append, IsFrame-terminator,
  int_to_string-IsClean,
}
use qidi_plus.SendMsg.Calls.{
  Call, bytes_of, AreClean, page, ref, get, prints, vis, tsw, randset, add, cle, addt, doevents,
  sendme, covx, strlen, btlen, substr, spstr, touch_j, ref_stop, ref_star, com_stop, com_star,
  code_c, rest, wepo, repo, wept, rept, cfgpio, crcrest, crcputs, crcputh, crcputu, setlayer, move,
  play, twfile, delfile, refile, findfile, rdfile, newfile, newdir, deldir, redir, finddir, beep,
  txt, pic, picc, picc2, val, pco, pco2, bpic, vid, cp_end, cp_close, write_end, txt_end, txt_plus,
  download, vid_en, bauds,
}

bytes_of-IsFrame : (c : Call) → AreClean c → IsFrame (bytes_of c)
unfolding bytes_of send_cmd_page send_cmd_ref send_cmd_get send_cmd_prints send_cmd_vis send_cmd_tsw
    send_cmd_randset send_cmd_add send_cmd_cle send_cmd_addt send_cmd_doevents send_cmd_sendme
    send_cmd_covx send_cmd_strlen send_cmd_btlen send_cmd_substr send_cmd_spstr send_cmd_touch_j
    send_cmd_ref_stop send_cmd_ref_star send_cmd_com_stop send_cmd_com_star send_cmd_code_c
    send_cmd_rest send_cmd_wepo send_cmd_repo send_cmd_wept send_cmd_rept send_cmd_cfgpio
    send_cmd_crcrest send_cmd_crcputs send_cmd_crcputh send_cmd_crcputu send_cmd_setlayer
    send_cmd_move send_cmd_play send_cmd_twfile send_cmd_delfile send_cmd_refile send_cmd_findfile
    send_cmd_rdfile send_cmd_newfile send_cmd_newdir send_cmd_deldir send_cmd_redir send_cmd_finddir
    send_cmd_beep send_cmd_txt send_cmd_pic send_cmd_picc send_cmd_picc2 send_cmd_val send_cmd_pco
    send_cmd_pco2 send_cmd_bpic send_cmd_vid send_cmd_cp_end send_cmd_cp_close send_cmd_write_end
    send_cmd_txt_end send_cmd_txt_plus send_cmd_download send_cmd_vid_en send_cmd_bauds
bytes_of-IsFrame (page pageid) h =
    IsFrame-append (codes "page ") _ (omega arith) (IsFrame-append pageid _ h IsFrame-terminator)
bytes_of-IsFrame (ref obj) h =
    IsFrame-append (codes "ref ") _ (omega arith) (IsFrame-append obj _ h IsFrame-terminator)
bytes_of-IsFrame (get att) h =
    IsFrame-append (codes "get ") _ (omega arith) (IsFrame-append att _ h IsFrame-terminator)
bytes_of-IsFrame (prints att lenth) h = IsFrame-append (codes "prints ") _ (omega arith) (
    IsFrame-append att _ h (
      IsFrame-append (codes ",") _ (omega arith)
        (IsFrame-append (int_to_string lenth) _ (int_to_string-IsClean lenth) IsFrame-terminator)))
bytes_of-IsFrame (vis obj state) h = IsFrame-append (codes "vis ") _ (omega arith) (
    IsFrame-append obj _ h.0
      (IsFrame-append (codes ",") _ (omega arith) (IsFrame-append state _ h.1 IsFrame-terminator)))
bytes_of-IsFrame (tsw obj state) h = IsFrame-append (codes "tsw ") _ (omega arith) (
    IsFrame-append obj _ h.0
      (IsFrame-append (codes ",") _ (omega arith) (IsFrame-append state _ h.1 IsFrame-terminator)))
bytes_of-IsFrame (randset minval maxval) h = IsFrame-append (codes "randset ") _ (omega arith) (
    IsFrame-append minval _ h.0
      (IsFrame-append (codes ",") _ (omega arith) (IsFrame-append maxval _ h.1 IsFrame-terminator)))
bytes_of-IsFrame (add objid ch val_arg) h = IsFrame-append (codes "add ") _ (omega arith) (
    IsFrame-append objid _ h.0 (
      IsFrame-append (codes ",") _ (omega arith) (
        IsFrame-append ch _ h.1 (
          IsFrame-append (codes ",") _ (omega arith)
            (IsFrame-append val_arg _ h.2 IsFrame-terminator)))))
bytes_of-IsFrame (cle objid ch) h = IsFrame-append (codes "cle ") _ (omega arith) (
    IsFrame-append objid _ h.0
      (IsFrame-append (codes ",") _ (omega arith) (IsFrame-append ch _ h.1 IsFrame-terminator)))
bytes_of-IsFrame (addt objid ch qyt) h = IsFrame-append (codes "addt ") _ (omega arith) (
    IsFrame-append objid _ h.0 (
      IsFrame-append (codes ",") _ (omega arith) (
        IsFrame-append ch _ h.1 (
          IsFrame-append (codes ",") _ (omega arith)
            (IsFrame-append qyt _ h.2 IsFrame-terminator)))))
bytes_of-IsFrame doevents h = IsFrame-append (codes "doevents") _ (omega arith) IsFrame-terminator
bytes_of-IsFrame sendme h = IsFrame-append (codes "sendme") _ (omega arith) IsFrame-terminator
bytes_of-IsFrame (covx att1 att2 lenth) h = IsFrame-append (codes "covx ") _ (omega arith) (
    IsFrame-append att1 _ h.0 (
      IsFrame-append (codes ",") _ (omega arith) (
        IsFrame-append att2 _ h.1 (
          IsFrame-append (codes ",") _ (omega arith)
            (IsFrame-append lenth _ h.2 IsFrame-terminator)))))
bytes_of-IsFrame (strlen att0 att1) h = IsFrame-append (codes "strlen ") _ (omega arith) (
    IsFrame-append att0 _ h.0
      (IsFrame-append (codes ",") _ (omega arith) (IsFrame-append att1 _ h.1 IsFrame-terminator)))
bytes_of-IsFrame (btlen att0 att1) h = IsFrame-append (codes "btlen ") _ (omega arith) (
    IsFrame-append att0 _ h.0
      (IsFrame-append (codes ",") _ (omega arith) (IsFrame-append att1 _ h.1 IsFrame-terminator)))
bytes_of-IsFrame (substr att0 att1 star lenth) h =
    IsFrame-append (codes "substr ") _ (omega arith) (
      IsFrame-append att0 _ h.0 (
        IsFrame-append (codes ",") _ (omega arith) (
          IsFrame-append att1 _ h.1 (
            IsFrame-append (codes ",") _ (omega arith) (
              IsFrame-append star _ h.2 (
                IsFrame-append (codes ",") _ (omega arith)
                  (IsFrame-append lenth _ h.3 IsFrame-terminator)))))))
bytes_of-IsFrame (spstr src dec key indec) h = IsFrame-append (codes "spstr ") _ (omega arith) (
    IsFrame-append src _ h.0 (
      IsFrame-append (codes ",") _ (omega arith) (
        IsFrame-append dec _ h.1 (
          IsFrame-append (codes ",") _ (omega arith) (
            IsFrame-append key _ h.2 (
              IsFrame-append (codes ",") _ (omega arith)
                (IsFrame-append indec _ h.3 IsFrame-terminator)))))))
bytes_of-IsFrame touch_j h = IsFrame-append (codes "touch_j") _ (omega arith) IsFrame-terminator
bytes_of-IsFrame ref_stop h = IsFrame-append (codes "ref_stop") _ (omega arith) IsFrame-terminator
bytes_of-IsFrame ref_star h = IsFrame-append (codes "ref_star") _ (omega arith) IsFrame-terminator
bytes_of-IsFrame com_stop h = IsFrame-append (codes "com_stop") _ (omega arith) IsFrame-terminator
bytes_of-IsFrame com_star h = IsFrame-append (codes "com_star") _ (omega arith) IsFrame-terminator
bytes_of-IsFrame code_c h = IsFrame-append (codes "code_c") _ (omega arith) IsFrame-terminator
bytes_of-IsFrame rest h = IsFrame-append (codes "rest") _ (omega arith) IsFrame-terminator
bytes_of-IsFrame (wepo att add_arg) h = IsFrame-append (codes "wepo ") _ (omega arith) (
    IsFrame-append att _ h.0 (
      IsFrame-append (codes ",") _ (omega arith) (IsFrame-append add_arg _ h.1 IsFrame-terminator)))
bytes_of-IsFrame (repo att add_arg) h = IsFrame-append (codes "repo ") _ (omega arith) (
    IsFrame-append att _ h.0 (
      IsFrame-append (codes ",") _ (omega arith) (IsFrame-append add_arg _ h.1 IsFrame-terminator)))
bytes_of-IsFrame (wept add_arg lenth) h = IsFrame-append (codes "wept ") _ (omega arith) (
    IsFrame-append add_arg _ h.0
      (IsFrame-append (codes ",") _ (omega arith) (IsFrame-append lenth _ h.1 IsFrame-terminator)))
bytes_of-IsFrame (rept add_arg lenth) h = IsFrame-append (codes "rept ") _ (omega arith) (
    IsFrame-append add_arg _ h.0
      (IsFrame-append (codes ",") _ (omega arith) (IsFrame-append lenth _ h.1 IsFrame-terminator)))
bytes_of-IsFrame (cfgpio id state obj) h = IsFrame-append (codes "cfgpio ") _ (omega arith) (
    IsFrame-append id _ h.0 (
      IsFrame-append (codes ",") _ (omega arith) (
        IsFrame-append state _ h.1 (
          IsFrame-append (codes ",") _ (omega arith)
            (IsFrame-append obj _ h.2 IsFrame-terminator)))))
bytes_of-IsFrame (crcrest crctype initval) h = IsFrame-append (codes "crcrest ") _ (omega arith) (
    IsFrame-append crctype _ h.0 (
      IsFrame-append (codes ",") _ (omega arith) (IsFrame-append initval _ h.1 IsFrame-terminator)))
bytes_of-IsFrame (crcputs att length_arg) h = IsFrame-append (codes "crcputs ") _ (omega arith) (
    IsFrame-append att _ h.0 (
      IsFrame-append (codes ",") _ (omega arith)
        (IsFrame-append length_arg _ h.1 IsFrame-terminator)))
bytes_of-IsFrame (crcputh hex) h =
    IsFrame-append (codes "crcputh ") _ (omega arith) (IsFrame-append hex _ h IsFrame-terminator)
bytes_of-IsFrame (crcputu star length_arg) h = IsFrame-append (codes "crcputu ") _ (omega arith) (
    IsFrame-append star _ h.0 (
      IsFrame-append (codes ",") _ (omega arith)
        (IsFrame-append length_arg _ h.1 IsFrame-terminator)))
bytes_of-IsFrame (setlayer obj0 obj1) h = IsFrame-append (codes "setplayer ") _ (omega arith) (
    IsFrame-append obj0 _ h.0
      (IsFrame-append (codes ",") _ (omega arith) (IsFrame-append obj1 _ h.1 IsFrame-terminator)))
bytes_of-IsFrame (move obj startx starty endx endy first time) h =
    IsFrame-append (codes "move ") _ (omega arith) (
      IsFrame-append obj _ h.0 (
        IsFrame-append (codes ",") _ (omega arith) (
          IsFrame-append startx _ h.1 (
            IsFrame-append (codes ",") _ (omega arith) (
              IsFrame-append starty _ h.2 (
                IsFrame-append (codes ",") _ (omega arith) (
                  IsFrame-append endx _ h.3 (
                    IsFrame-append (codes ",") _ (omega arith) (
                      IsFrame-append endy _ h.4 (
                        IsFrame-append (codes ",") _ (omega arith) (
                          IsFrame-append first _ h.5 (
                            IsFrame-append (codes ",") _ (omega arith)
                              (IsFrame-append time _ h.6 IsFrame-terminator)))))))))))))
bytes_of-IsFrame (play ch audio loop) h = IsFrame-append (codes "play ") _ (omega arith) (
    IsFrame-append ch _ h.0 (
      IsFrame-append (codes ",") _ (omega arith) (
        IsFrame-append audio _ h.1 (
          IsFrame-append (codes ",") _ (omega arith)
            (IsFrame-append loop _ h.2 IsFrame-terminator)))))
bytes_of-IsFrame (twfile filepath filesize) h = IsFrame-append (codes "twfile ") _ (omega arith) (
    IsFrame-append filepath _ h.0 (
      IsFrame-append (codes ",") _ (omega arith)
        (IsFrame-append filesize _ h.1 IsFrame-terminator)))
bytes_of-IsFrame (delfile filepath) h =
    IsFrame-append (codes "delfile ") _ (omega arith)
      (IsFrame-append filepath _ h IsFrame-terminator)
bytes_of-IsFrame (refile srcfilepath decfilepath) h =
    IsFrame-append (codes "refile ") _ (omega arith) (
      IsFrame-append srcfilepath _ h.0 (
        IsFrame-append (codes ",") _ (omega arith)
          (IsFrame-append decfilepath _ h.1 IsFrame-terminator)))
bytes_of-IsFrame (findfile filepath att) h = IsFrame-append (codes "findfile ") _ (omega arith) (
    IsFrame-append filepath _ h.0
      (IsFrame-append (codes ",") _ (omega arith) (IsFrame-append att _ h.1 IsFrame-terminator)))
bytes_of-IsFrame (rdfile filepath addr size crc) h =
    IsFrame-append (codes "rdfile ") _ (omega arith) (
      IsFrame-append filepath _ h.0 (
        IsFrame-append (codes ",") _ (omega arith) (
          IsFrame-append addr _ h.1 (
            IsFrame-append (codes ",") _ (omega arith) (
              IsFrame-append size _ h.2 (
                IsFrame-append (codes ",") _ (omega arith)
                  (IsFrame-append crc _ h.3 IsFrame-terminator)))))))
bytes_of-IsFrame (newfile filepath size) h = IsFrame-append (codes "newfile ") _ (omega arith) (
    IsFrame-append filepath _ h.0
      (IsFrame-append (codes ",") _ (omega arith) (IsFrame-append size _ h.1 IsFrame-terminator)))
bytes_of-IsFrame (newdir dir) h =
    IsFrame-append (codes "newdir ") _ (omega arith) (IsFrame-append dir _ h IsFrame-terminator)
bytes_of-IsFrame (deldir dir) h =
    IsFrame-append (codes "deldir ") _ (omega arith) (IsFrame-append dir _ h IsFrame-terminator)
bytes_of-IsFrame (redir srcdir decdir) h = IsFrame-append (codes "redir ") _ (omega arith) (
    IsFrame-append srcdir _ h.0
      (IsFrame-append (codes ",") _ (omega arith) (IsFrame-append decdir _ h.1 IsFrame-terminator)))
bytes_of-IsFrame (finddir dir att) h = IsFrame-append (codes "finddir ") _ (omega arith) (
    IsFrame-append dir _ h.0
      (IsFrame-append (codes ",") _ (omega arith) (IsFrame-append att _ h.1 IsFrame-terminator)))
bytes_of-IsFrame (beep time) h =
    IsFrame-append (codes "beep ") _ (omega arith) (IsFrame-append time _ h IsFrame-terminator)
bytes_of-IsFrame (txt obj txt_arg) h = IsFrame-append obj _ h.0 (
    IsFrame-append (codes ".txt=\"") _ (omega arith) (
      IsFrame-append txt_arg _ h.1
        (IsFrame-append (codes "\"") _ (omega arith) IsFrame-terminator)))
bytes_of-IsFrame (pic obj pic_arg) h = IsFrame-append obj _ h.0 (
    IsFrame-append (codes ".pic=") _ (omega arith)
      (IsFrame-append pic_arg _ h.1 IsFrame-terminator))
bytes_of-IsFrame (picc obj picc_arg) h = IsFrame-append obj _ h.0 (
    IsFrame-append (codes ".picc=") _ (omega arith)
      (IsFrame-append picc_arg _ h.1 IsFrame-terminator))
bytes_of-IsFrame (picc2 obj picc_arg) h = IsFrame-append obj _ h.0 (
    IsFrame-append (codes ".picc2=") _ (omega arith)
      (IsFrame-append picc_arg _ h.1 IsFrame-terminator))
bytes_of-IsFrame (val obj val_arg) h = IsFrame-append obj _ h.0 (
    IsFrame-append (codes ".val=") _ (omega arith)
      (IsFrame-append val_arg _ h.1 IsFrame-terminator))
bytes_of-IsFrame (pco obj poc) h =
    IsFrame-append obj _ h.0
      (IsFrame-append (codes ".pco=") _ (omega arith) (IsFrame-append poc _ h.1 IsFrame-terminator))
bytes_of-IsFrame (pco2 obj poc2) h =
    IsFrame-append obj _ h.0 (
      IsFrame-append (codes ".pco2=") _ (omega arith)
        (IsFrame-append poc2 _ h.1 IsFrame-terminator))
bytes_of-IsFrame (bpic obj bpic_arg) h = IsFrame-append obj _ h.0 (
    IsFrame-append (codes ".bpic=") _ (omega arith)
      (IsFrame-append bpic_arg _ h.1 IsFrame-terminator))
bytes_of-IsFrame (vid obj vid_arg) h = IsFrame-append obj _ h.0 (
    IsFrame-append (codes ".vid=") _ (omega arith)
      (IsFrame-append vid_arg _ h.1 IsFrame-terminator))
bytes_of-IsFrame cp_end h = IsFrame-append (codes "\")") _ (omega arith) IsFrame-terminator
bytes_of-IsFrame (cp_close obj) h =
    IsFrame-append obj _ h (IsFrame-append (codes ".close()") _ (omega arith) IsFrame-terminator)
bytes_of-IsFrame write_end h = IsFrame-append (codes "\")") _ (omega arith) IsFrame-terminator
bytes_of-IsFrame txt_end h = IsFrame-append (codes "\"") _ (omega arith) IsFrame-terminator
bytes_of-IsFrame (txt_plus obj1 obj2 obj3) h = IsFrame-append obj1 _ h.0 (
    IsFrame-append (codes ".txt=") _ (omega arith) (
      IsFrame-append obj2 _ h.1 (
        IsFrame-append (codes ".txt+") _ (omega arith) (
          IsFrame-append obj3 _ h.2
            (IsFrame-append (codes ".txt") _ (omega arith) IsFrame-terminator)))))
bytes_of-IsFrame (download filesize) h = IsFrame-append (codes "whmi-wri ") _ (omega arith) (
    IsFrame-append (int_to_string filesize) _ (int_to_string-IsClean filesize)
      (IsFrame-append (codes ",115200,0") _ (omega arith) IsFrame-terminator))
bytes_of-IsFrame (vid_en obj value) h = IsFrame-append obj _ h (
    IsFrame-append (codes ".en=") _ (omega arith)
      (IsFrame-append (int_to_string value) _ (int_to_string-IsClean value) IsFrame-terminator))
bytes_of-IsFrame (bauds bauds_arg) h = IsFrame-append (codes "bauds=") _ (omega arith) (
    IsFrame-append (int_to_string bauds_arg) _ (int_to_string-IsClean bauds_arg) IsFrame-terminator)

-- The bytes of a sequence of calls.
pub stream : List Call → Bytes
stream [] = []
stream (c ∷ cs) = bytes_of c ++ stream cs

abbrev pub AllClean : List Call → Type 0
AllClean [] = Unit
AllClean (c ∷ cs) = AreClean c × AllClean cs

-- For every sequence of calls of the functions that `Call` lists, each of which sends one command
-- with its terminator, with texts that hold no byte 0xff, the screen takes the stream apart into as
-- many commands as there were calls, each the bytes of its call without the terminator.
pub frames-stream :
    (cs : List Call)
    → AllClean cs
    → map (λ body. body ++ terminator) (frames (stream cs)) ≡ map bytes_of cs
unfolding stream
frames-stream [] h = ap (map (λ body. body ++ terminator)) frames_nil
frames-stream (c ∷ cs) h =
    let (body, e, split) = frames_frame (bytes_of c) (stream cs) (bytes_of-IsFrame c h.0) in
    rw split (ground (arith, e, frames-stream cs h.1))
