-- ===== src/Lib.antt =====
-- A model of the QIDI Plus 3's screen client, the C++ program that stands between Klipper's server,
-- the serial touch screen and the machine it runs on.
--
-- The program runs a loop per thread over global variables. Messages of the server change the
-- globals of the printer's state (src/mks_printer.cpp); bytes of the screen run the handler of a
-- button (src/ui.cpp), which calls the components: the file browser (src/mks_file.cpp), the Wi-Fi
-- list (src/MakerbaseWiFi.cpp), the update from a USB stick (src/mks_update.cpp). They answer by
-- commands to the screen (src/send_msg.cpp, src/event.cpp). A thread watches the power supply's pin
-- (src/mks_gpio.cpp).
--
-- Files and parts:
--   Base         Boolean tests, lists over native numbers, texts as lists of bytes, paging.
--   SendMsg      src/send_msg.cpp. A `send_cmd_…` gives the bytes that the function of that name
--                writes; `frames` is how the screen takes a stream apart, and `Call` lists the
--                functions that send one command with its terminator.
--   Screen       `page_to` of src/ui.cpp and the page numbers of include/ui.h, over the current
--                page and the commands written so far.
--   Wifi         src/MakerbaseWiFi.cpp: Decode is `printf_decode`, Scan `parse_scan_results`, Pages
--                the five slots of the list page with its buttons.
--   Files        src/mks_file.cpp: Listing is `get_page_files_filelist`, Show
--                `set_page_files_show_list`, Browser the folders, with the buttons of src/ui.cpp and
--                the refreshes of src/event.cpp.
--   Update       src/mks_update.cpp: Detect is `detect_update`, Start the commands of
--                `start_update`, Transfer the sending of the screen's firmware.
--   Printer      src/mks_printer.cpp: Objects and Mesh are the parsers of the objects of a status
--                message, Status `parse_subscribe_objects_status`.
--   Gcode        src/mks_gcode.cpp: `parse_gcode_response`, with the functions of src/event.cpp that
--                change the page and the light for it.
--   Heat         src/event.cpp, src/ui.cpp: the buttons and the numbers entered for the temperatures,
--                and their limits.
--   Power        src/mks_gpio.cpp: the loop of `monitor_GPIO1_C3`.
--   Ui           src/ui.cpp: `tjc_event_clicked_handler`. Handler has a table of buttons for each page,
--                over the numbers of Buttons and Pages; Motion, Store, Level, Print and Network are
--                the functions that the tables call, of src/event.cpp and, in Network, of
--                src/online_update.cpp and src/mks_wpa_cli.cpp; Panel is the state and the effects.
--                Watch is the first half of `refresh_page_show`. Footprint says which pages and which
--                effects an action can have, and Diagram puts that together for all pages.
--   Config       src/MakerbaseParseIni.cpp: the attempts of `mksini_save` at a locked file.
--   A child of a part holds its proofs, and its Tests run it on concrete inputs.
--
-- A function that reads and writes globals takes them as a record and gives the new record. An
-- exception that nobody catches, and undefined behaviour as a read past the end of a list, are
-- `none`. A text is the list of its bytes, each a number below 256. What the shell, the server and
-- the stick answer are arguments; the JSON library and the floating-point numbers are the record
-- `JsonLib` of operations, of which nothing is assumed. A regular expression's first match is an
-- argument too.
--
-- Fuel: `decode_loop` takes one unit more than the text has bytes, as each round reads at least one
-- of them, and `pieces` one more than the block has bytes, as each round moves on by 512. The loops of
-- the mesh take seven, as a break ends them at 6. `lines` takes the length of the reply, as each
-- line takes at least one byte. `fields_loop` takes five rounds, as a break ends it at five fields.
--
-- The panel of Ui holds what the world answers while a press is handled, as a record `World`: the
-- file server, the stick, the network, the reports of the printer and the texts of floating-point
-- sums. Its configuration file can always be read and written. Effects are listed oldest first.
--
-- The file server answers a request emptily or with a listing; on any other reply the JSON library
-- throws in `get_page_files_filelist`, nothing catches that, and the program ends: this is left out.
--
-- Not modelled: the refreshes of the single pages, the dispatch of messages, the WebSocket and HTTP
-- clients, the terminal settings, the copies of iniparser, qrcodegen and stb_image_write, and the log.
-- The list of the servers, the log-in and the threads of the online update are effects of the panel,
-- of which the call alone is kept; `clear_page_printing_arg` and the numbers of `clear_page_preview`
-- and of the offset page's positions are left out of it. In Files, `get_object_status`, which only
-- asks the server for the printer's state, is left out of the button that opens the file list, and so
-- is the flag for the folder of the last print in `get_page_files_filelist`, which nothing reads.
mod Base
pub mod Config
pub mod Ui
pub mod Wifi
pub mod Files
pub mod SendMsg
pub mod Update
pub mod Screen
pub mod Printer
pub mod Power
pub mod Heat
pub mod Gcode
