-- ===== src/Files/Listing.antt =====
-- src/mks_file.cpp: `get_page_files_filelist`, which fills the sorted set
-- `page_files_dirname_filename_list` from two replies of the server. The empty reply is `none`; any
-- other is taken to be a listing, that is JSON whose "result" has the names of folders and files as
-- texts. On a reply that is not, the JSON library throws, and the program ends: that is not modelled.
pub mod Sorted
use qidi_plus.Base.{
  ℕ, zero, suc, ◌+◌, ◌-◌, ◌/◌, ◌%◌, ◌≡◌, refl, Bool, true, false, not, ◌&&◌, ◌||◌, List, [], ◌∷◌,
  ◌++◌, map, Option, none, some, ltb, ◌==◌, if◌then◌else◌, Bytes, codes, bytes_eq, contains, length,
}

-- `std::less<std::string>`
unfoldable pub bytes_lt : Bytes → Bytes → Bool
bytes_lt xs [] = false
bytes_lt [] (y ∷ ys) = true
bytes_lt (x ∷ xs) (y ∷ ys) = ltb x y || (x == y && bytes_lt xs ys)

-- `std::set::insert`: the elements stand in order, and an equal one is kept.
unfoldable pub insert : Bytes → List Bytes → List Bytes
insert x [] = x ∷ []
insert x (y ∷ ys) =
    if bytes_lt x y then x ∷ y ∷ ys else if bytes_lt y x then y ∷ insert x ys else y ∷ ys

unfoldable pub insert_all : List Bytes → List Bytes → List Bytes
insert_all [] s = s
insert_all (x ∷ xs) s = insert_all xs (insert x s)

-- `s.find(".") != 0`
unfoldable pub is_hidden : Bytes → Bool
is_hidden [] = false
is_hidden (c ∷ s) = c == b'.'

-- The names under "dirs" and "files" of a listing.
pub record Reply : Type 0 where
  pub dirs : List Bytes
  pub files : List Bytes

-- The test on a folder's name. The third part follows from the second.
unfoldable pub keeps_dir : Bytes → Bool
unfolding is_hidden
keeps_dir name =
    not (bytes_eq name (codes "System Volume Information"))
    && not (is_hidden name)
    && not (bytes_eq name (codes ".cache"))

unfoldable pub keeps_file : Bytes → Bool
unfolding is_hidden contains
keeps_file name = contains (codes ".gcode") name && not (is_hidden name)

-- The loop that inserts the names that pass a test.
unfoldable pub insert_kept : (Bytes → Bool) → List Bytes → List Bytes → List Bytes
insert_kept keeps [] s = s
insert_kept keeps (x ∷ xs) s = insert_kept keeps xs (if keeps x then insert x s else s)

-- The file printed last, from the listing of the cache folder: only its first file counts.
unfoldable pub cached : List Bytes → List Bytes
cached [] = []
cached (name ∷ rest) = if keeps_file name then insert (codes "[c] " ++ name) [] else []

abbrev pub nothing : Reply
nothing = record { dirs = []; files = [] }

-- `result` before the second request: the cache's listing, if it was read.
unfoldable pub first_result : Option Reply → ℕ → Reply
first_result none layers = nothing
first_result (some r) layers = if layers == 0 then r else nothing

-- `result` after the second request, which keeps the old value on an empty reply.
unfoldable pub second_result : Option Reply → Reply → Reply
second_result none r = r
second_result (some r) old = r

-- `page_files_dirname_filename_list`, from the replies for the cache folder and the folder shown.
unfoldable pub filelist : ℕ → Option Reply → Option Reply → List Bytes
filelist layers cache dir =
    let first = first_result cache layers in
    let result = second_result dir first in
    let dirnames = insert_kept keeps_dir result.dirs [] in
    let filenames = insert_kept keeps_file result.files [] in
    insert_all (map (λ n. codes "[f] " ++ n) filenames)
      (insert_all (map (λ n. codes "[d] " ++ n) dirnames) (cached first.files))

-- `page_files_pages`, the number of the last page.
unfoldable pub last_page : ℕ → ℕ
last_page size = if size % 8 == 0 then size / 8 - 1 else size / 8
