-- ===== src/Files/Show.antt =====
-- src/mks_file.cpp: `set_page_files_show_list`, the eight entries of a page.
pub mod Covers
use qidi_plus.Base.{
  ℕ, zero, suc, ◌+◌, ◌-◌, ◌*◌, Bool, List, [], ◌∷◌, ◌++◌, map, Option, none, some, ltb, ◌==◌,
  if◌then◌else◌, ◌>>=◌, Bytes, codes, length, take, drop, slots,
}

-- `it++; std::cout << *it`: past the last element the dereference is undefined.
unfoldable pub advance_printed : ℕ → List Bytes → Option (List Bytes)
advance_printed zero xs = some xs
advance_printed (suc n) [] = none
advance_printed (suc n) (x ∷ []) = none
advance_printed (suc n) (x ∷ y ∷ ys) = advance_printed n (y ∷ ys)

-- The type and the name of one entry; `substr(4)` throws on a shorter text.
unfoldable pub show_entry : Bytes → Option (Bytes × Bytes)
show_entry [] = some (codes "[n]", [])
show_entry (c ∷ s) = if ltb (length (c ∷ s)) 4 then none else some (take 3 (c ∷ s), drop 4 (c ∷ s))

unfoldable pub show_entries : List Bytes → Option (List (Bytes × Bytes))
show_entries [] = some []
show_entries (e ∷ es) = do shown ← show_entry e; rest ← show_entries es; some (shown ∷ rest)

-- `page_files_list_name`, and with it `page_files_list_show_type` and `page_files_list_show_name`.
unfoldable pub set_page_files_show_list :
    ℕ → List Bytes → Option (List Bytes × List (Bytes × Bytes))
set_page_files_show_list pages entries = do
  it ← advance_printed (pages * 8) entries
  shown ← show_entries (slots 8 [] it)
  some (slots 8 [] it, shown)
