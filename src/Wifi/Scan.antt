-- ===== src/Wifi/Scan.antt =====
-- src/MakerbaseWiFi.cpp: `parse_scan_results`, with its fixed buffers, and the two globals
-- `ssid_list` and `current_connected_ssid_name` that it works on. A write past a buffer is `none`.
pub mod Order
use qidi_plus.Base.{
  ℕ, zero, suc, ◌+◌, ◌-◌, ◌≡◌, refl, Bool, true, false, not, ◌&&◌, ◌||◌, List, [], ◌∷◌, ◌++◌,
  Option, none, some, ltb, leb, ◌==◌, if◌then◌else◌, ◌>>=◌, Bytes, bytes_eq, length, get_or, set,
}
use qidi_plus.Wifi.Decode.{printf_decode}

abbrev pub is_newline : ℕ → Bool
is_newline c = c == 10

abbrev pub is_blank : ℕ → Bool
is_blank c = c == b' ' || c == 9

-- `strtok`: leading delimiters are passed over.
unfoldable pub skip : (ℕ → Bool) → Bytes → Bytes
skip delim [] = []
skip delim (c ∷ s) = if delim c then skip delim s else c ∷ s

-- The token at the head of a text, and what follows the delimiter that ends it.
unfoldable pub token : (ℕ → Bool) → Bytes → Bytes × Bytes
token delim [] = ([], [])
token delim (c ∷ s) = let (t, rest) = token delim s in if delim c then ([], s) else (c ∷ t, rest)

-- `while (line != NULL)` over `strtok(…, "\n")`, on fuel that the length bounds.
unfoldable pub lines_loop : ℕ → Bytes → List Bytes
lines_loop zero s = []
lines_loop (suc f) s =
    let start = skip is_newline s in
    let rest = lines_loop f (token is_newline start).1 in
    elim start [ [] ↦ [] | c ∷ t ↦ (token is_newline (c ∷ t)).0 ∷ rest ]

unfoldable pub lines : Bytes → List Bytes
lines s = lines_loop (length s) s

-- The loop over the fields of a line: how many there are, and `ssid_line + ssid_line_index`, which is
-- the text from the fifth field on once there is one. `none` is a write past `fields[4]`. The break
-- at five ends it, so five rounds are enough.
unfoldable pub fields_loop : ℕ → ℕ → Bytes → Bytes → Option (ℕ × Bytes)
fields_loop zero num_fields rest ssid = some (num_fields, ssid)
fields_loop (suc n) num_fields rest ssid = elim (skip is_blank rest) [
  | [] ↦ some (num_fields, ssid)
  | c ∷ t ↦
      let found = if num_fields == 4 then c ∷ t else ssid in
      let more = fields_loop n (num_fields + 1) (token is_blank (c ∷ t)).1 found in
      if ltb num_fields 5
      then if num_fields + 1 == 5 then some (num_fields + 1, found) else more
      else none
]

-- `(char *)ssid_name`: up to the first NUL.
unfoldable pub c_str : Bytes → Bytes
c_str [] = []
c_str (c ∷ s) = if c == 0 then [] else c ∷ c_str s

-- `ssid_name[0] == '\x00'` keeps a name out of the list.
unfoldable pub push_ssid : List Bytes → Bytes → List Bytes
push_ssid ssids [] = ssids
push_ssid ssids (c ∷ s) = if c == 0 then ssids else ssids ++ c_str (c ∷ s) ∷ []

-- One round of the loop over the lines: `ssid_line` has 256 bytes, `ssid_name` 192.
unfoldable pub scan_line : List Bytes → Bytes → Option (List Bytes)
scan_line ssids line =
    if ltb (length line) 256
    then (do
      (num_fields, text) ← fields_loop 5 0 line line
      if ltb num_fields 5
          then some ssids
          else (do name ← printf_decode 192 text; some (push_ssid ssids name)))
    else none

unfoldable pub scan_lines : List Bytes → List Bytes → Option (List Bytes)
scan_lines ssids [] = some ssids
scan_lines ssids (l ∷ ls) = do next ← scan_line ssids l; scan_lines next ls

-- `ssid_list[j]` and `ssid_list[0]` change places.
unfoldable pub swap_front : ℕ → List Bytes → List Bytes
swap_front j ssids = let temp = get_or ssids j [] in set (set ssids j (get_or ssids 0 [])) 0 temp

-- `for (int j = 0; j < ssid_list.size(); j++)`, with the rounds left.
unfoldable pub front_loop : ℕ → ℕ → Bytes → List Bytes → List Bytes
front_loop zero j connected ssids = ssids
front_loop (suc n) j connected ssids =
    front_loop n (j + 1) connected
      (if bytes_eq connected (get_or ssids j []) then swap_front j ssids else ssids)

unfoldable pub connected_first : Bytes → List Bytes → List Bytes
connected_first connected ssids = front_loop (length ssids) 0 connected ssids

-- `for (int i = 1; …)`: the first line is the header.
abbrev pub behind_header : List Bytes → List Bytes
behind_header [] = []
behind_header (l ∷ ls) = ls

-- `buffer` has 4096 bytes and `lines` 128 places. The result is the new `ssid_list`.
unfoldable pub parse_scan_results : Bytes → Bytes → Option (List Bytes)
parse_scan_results connected scan_results =
    if ltb (length scan_results) 4096 && leb (length (lines scan_results)) 128
    then (do
      ssids ← scan_lines [] (behind_header (lines scan_results))
      some (connected_first connected ssids))
    else none
