-- ===== src/SendMsg/Storage.antt =====
-- src/send_msg.cpp: the commands on the screen's memory, ports and files. Each function gives the bytes that one
-- call of `write` sends, and no file descriptor.
use qidi_plus.Base.{◌++◌, Bytes, codes}
use qidi_plus.SendMsg.Frame.{terminator}

unfoldable pub send_cmd_wepo : Bytes → Bytes → Bytes
send_cmd_wepo att add = codes "wepo " ++ (att ++ (codes "," ++ (add ++ terminator)))

unfoldable pub send_cmd_repo : Bytes → Bytes → Bytes
send_cmd_repo att add = codes "repo " ++ (att ++ (codes "," ++ (add ++ terminator)))

unfoldable pub send_cmd_wept : Bytes → Bytes → Bytes
send_cmd_wept add lenth = codes "wept " ++ (add ++ (codes "," ++ (lenth ++ terminator)))

unfoldable pub send_cmd_rept : Bytes → Bytes → Bytes
send_cmd_rept add lenth = codes "rept " ++ (add ++ (codes "," ++ (lenth ++ terminator)))

unfoldable pub send_cmd_cfgpio : Bytes → Bytes → Bytes → Bytes
send_cmd_cfgpio id state obj =
    codes "cfgpio " ++ (id ++ (codes "," ++ (state ++ (codes "," ++ (obj ++ terminator)))))

unfoldable pub send_cmd_crcrest : Bytes → Bytes → Bytes
send_cmd_crcrest crctype initval =
    codes "crcrest " ++ (crctype ++ (codes "," ++ (initval ++ terminator)))

unfoldable pub send_cmd_crcputs : Bytes → Bytes → Bytes
send_cmd_crcputs att length = codes "crcputs " ++ (att ++ (codes "," ++ (length ++ terminator)))

unfoldable pub send_cmd_crcputh : Bytes → Bytes
send_cmd_crcputh hex = codes "crcputh " ++ (hex ++ terminator)

unfoldable pub send_cmd_crcputu : Bytes → Bytes → Bytes
send_cmd_crcputu star length = codes "crcputu " ++ (star ++ (codes "," ++ (length ++ terminator)))

unfoldable pub send_cmd_setlayer : Bytes → Bytes → Bytes
send_cmd_setlayer obj0 obj1 = codes "setplayer " ++ (obj0 ++ (codes "," ++ (obj1 ++ terminator)))

unfoldable pub send_cmd_move : Bytes → Bytes → Bytes → Bytes → Bytes → Bytes → Bytes → Bytes
send_cmd_move obj startx starty endx endy first time =
    codes "move "
    ++ (obj
        ++ (codes ","
            ++ (startx
                ++ (codes ","
                    ++ (starty
                        ++ (codes ","
                            ++ (endx
                                ++ (codes ","
                                    ++ (endy
                                        ++ (codes ","
                                            ++ (first
                                                ++ (codes "," ++ (time ++ terminator)))))))))))))

unfoldable pub send_cmd_play : Bytes → Bytes → Bytes → Bytes
send_cmd_play ch audio loop =
    codes "play " ++ (ch ++ (codes "," ++ (audio ++ (codes "," ++ (loop ++ terminator)))))

unfoldable pub send_cmd_twfile : Bytes → Bytes → Bytes
send_cmd_twfile filepath filesize =
    codes "twfile " ++ (filepath ++ (codes "," ++ (filesize ++ terminator)))

unfoldable pub send_cmd_delfile : Bytes → Bytes
send_cmd_delfile filepath = codes "delfile " ++ (filepath ++ terminator)

unfoldable pub send_cmd_refile : Bytes → Bytes → Bytes
send_cmd_refile srcfilepath decfilepath =
    codes "refile " ++ (srcfilepath ++ (codes "," ++ (decfilepath ++ terminator)))

unfoldable pub send_cmd_findfile : Bytes → Bytes → Bytes
send_cmd_findfile filepath att =
    codes "findfile " ++ (filepath ++ (codes "," ++ (att ++ terminator)))

unfoldable pub send_cmd_rdfile : Bytes → Bytes → Bytes → Bytes → Bytes
send_cmd_rdfile filepath addr size crc =
    codes "rdfile "
    ++ (filepath
        ++ (codes "," ++ (addr ++ (codes "," ++ (size ++ (codes "," ++ (crc ++ terminator)))))))

unfoldable pub send_cmd_newfile : Bytes → Bytes → Bytes
send_cmd_newfile filepath size =
    codes "newfile " ++ (filepath ++ (codes "," ++ (size ++ terminator)))

unfoldable pub send_cmd_newdir : Bytes → Bytes
send_cmd_newdir dir = codes "newdir " ++ (dir ++ terminator)

unfoldable pub send_cmd_deldir : Bytes → Bytes
send_cmd_deldir dir = codes "deldir " ++ (dir ++ terminator)

unfoldable pub send_cmd_redir : Bytes → Bytes → Bytes
send_cmd_redir srcdir decdir = codes "redir " ++ (srcdir ++ (codes "," ++ (decdir ++ terminator)))

unfoldable pub send_cmd_finddir : Bytes → Bytes → Bytes
send_cmd_finddir dir att = codes "finddir " ++ (dir ++ (codes "," ++ (att ++ terminator)))
