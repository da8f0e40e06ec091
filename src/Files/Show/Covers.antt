-- ===== src/Files/Show/Covers.antt =====
-- src/mks_file.cpp: the rows of `set_page_files_show_list` and its page numbers.
use qidi_plus.Base.{
  ℕ, zero, suc, ◌*◌, ◌/◌, ◌%◌, ◌≤◌, ◌<◌, ◌≡◌, refl, ap, ◌∙◌, List, [], ◌∷◌, map, Option, none, some,
  Bytes, codes, length, take, drop, slots, get_or, get_or-slots, get_or-drop, arith, ◌⊎◌, inl, inr,
}
use qidi_plus.Files.Listing.{last_page, filelist, Reply, insert, insert_all, cached}
use qidi_plus.Files.Show.{advance_printed, show_entry, show_entries, set_page_files_show_list}

-- Every entry has its four characters in front.
abbrev pub AllTagged : List Bytes → Type 0
AllTagged [] = Unit
AllTagged (e ∷ es) = (4 ≤ length e) × AllTagged es

pub advance_printed-drop :
    (n : ℕ) (xs : List Bytes) → n < length xs → advance_printed n xs ≡ some (drop n xs)
unfolding advance_printed
advance_printed-drop zero xs h = refl
advance_printed-drop (suc n) [] h = absurd (omega arith)
advance_printed-drop (suc n) (x ∷ []) h = absurd (omega arith)
advance_printed-drop (suc n) (x ∷ y ∷ ys) h = advance_printed-drop n (y ∷ ys) (omega arith)

pub advance_printed_past :
    (n : ℕ) (xs : List Bytes) → 0 < n → length xs ≤ n → advance_printed n xs ≡ none
unfolding advance_printed
advance_printed_past zero xs p h = absurd (omega arith)
advance_printed_past (suc n) [] p h = refl
advance_printed_past (suc n) (x ∷ []) p h = refl
advance_printed_past (suc zero) (x ∷ y ∷ ys) p h = absurd (omega arith)
advance_printed_past (suc (suc n)) (x ∷ y ∷ ys) p h =
    advance_printed_past (suc n) (y ∷ ys) (omega arith) (omega arith)

-- What a row shows of an entry; the empty entry is an empty row.
abbrev pub row_of : Bytes → Bytes × Bytes
row_of [] = (codes "[n]", [])
row_of (c ∷ s) = (take 3 (c ∷ s), drop 4 (c ∷ s))

abbrev Rows : List Bytes → Type 0
Rows [] = Unit
Rows (e ∷ es) = ((e ≡ []) ⊎ (4 ≤ length e)) × Rows es

show_entry_lem : (e : Bytes) → (e ≡ []) ⊎ (4 ≤ length e) → show_entry e ≡ some (row_of e)
unfolding show_entry
show_entry_lem [] h = refl
show_entry_lem (c ∷ s) h = ground arith

show_entries_lem : (es : List Bytes) → Rows es → show_entries es ≡ some (map row_of es)
unfolding show_entries
show_entries_lem [] h = refl
show_entries_lem (e ∷ es) h = rw (show_entry_lem e h.0, show_entries_lem es h.1)

slots-Rows : (n : ℕ) (es : List Bytes) → AllTagged es → Rows (slots n [] es)
unfolding slots
slots-Rows zero es h = tt
slots-Rows (suc n) [] h = (inl refl, slots-Rows n [] tt)
slots-Rows (suc n) (e ∷ es) h = (inr h.0, slots-Rows n es h.1)

drop-AllTagged : (n : ℕ) (es : List Bytes) → AllTagged es → AllTagged (drop n es)
drop-AllTagged zero es h = h
drop-AllTagged (suc n) [] h = tt
drop-AllTagged (suc n) (e ∷ es) h = drop-AllTagged n es h.1

get_or-map :
    (es : List Bytes) (i : ℕ) → get_or (map row_of es) i (row_of []) ≡ row_of (get_or es i [])
get_or-map [] i = refl
get_or-map (e ∷ es) zero = refl
get_or-map (e ∷ es) (suc i) = get_or-map es i

-- The rows of a page whose entries are tagged.
abbrev pub rows : ℕ → List Bytes → List Bytes × List (Bytes × Bytes)
rows p es = (slots 8 [] (drop (p * 8) es), map row_of (slots 8 [] (drop (p * 8) es)))

advance_within :
    (p : ℕ) (es : List Bytes)
    → (p ≡ 0) ⊎ (p * 8 < length es)
    → advance_printed (p * 8) es ≡ some (drop (p * 8) es)
advance_within p es (inl e) = rw e (unfold advance_printed in refl)
advance_within p es (inr l) = advance_printed-drop (p * 8) es l

pub set_page_lem :
    (p : ℕ) (es : List Bytes)
    → AllTagged es
    → (p ≡ 0) ⊎ (p * 8 < length es)
    → set_page_files_show_list p es ≡ some (rows p es)
unfolding set_page_files_show_list
set_page_lem p es t h = rw (
  advance_within p es h,
  show_entries_lem (slots 8 [] (drop (p * 8) es))
      (slots-Rows 8 (drop (p * 8) es) (drop-AllTagged (p * 8) es t)),
)

-- A page number whose first row would lie at or behind the end of the list, as after the only file
-- of the last page has been deleted, makes the code read past the end.
pub set_page_files_show_list_stale :
    (p : ℕ) (es : List Bytes) → 0 < p → length es ≤ p * 8 → set_page_files_show_list p es ≡ none
unfolding set_page_files_show_list
set_page_files_show_list_stale p es h l = rw (advance_printed_past (p * 8) es (omega arith) l)

insert-AllTagged :
    (e : Bytes) (es : List Bytes) → 4 ≤ length e → AllTagged es → AllTagged (insert e es)
unfolding insert
insert-AllTagged e [] h t = (h, tt)
insert-AllTagged e (x ∷ es) h t = ground (arith, insert-AllTagged e es h t.1)

insert_all-AllTagged :
    (xs es : List Bytes) → AllTagged xs → AllTagged es → AllTagged (insert_all xs es)
unfolding insert_all
insert_all-AllTagged [] es h t = t
insert_all-AllTagged (x ∷ xs) es h t =
    insert_all-AllTagged xs (insert x es) h.1 (insert-AllTagged x es h.0 t)

tagged-AllTagged : (t : ℕ) (ns : List Bytes) → AllTagged (map (λ n. b'[' ∷ t ∷ b']' ∷ b' ' ∷ n) ns)
tagged-AllTagged t [] = tt
tagged-AllTagged t (n ∷ ns) = (omega arith, tagged-AllTagged t ns)

cached-AllTagged : (ns : List Bytes) → AllTagged (cached ns)
unfolding cached insert
cached-AllTagged [] = tt
cached-AllTagged (n ∷ ns) = ground arith

pub filelist-AllTagged :
    (layers : ℕ) (cache dir : Option Reply) → AllTagged (filelist layers cache dir)
unfolding filelist
filelist-AllTagged layers cache dir =
    insert_all-AllTagged _ _ (tagged-AllTagged b'f' _)
      (insert_all-AllTagged _ _ (tagged-AllTagged b'd' _) (cached-AllTagged _))

get_or-AllTagged :
    (es : List Bytes) (k : ℕ) → AllTagged es → k < length es → 4 ≤ length (get_or es k [])
get_or-AllTagged [] k t h = absurd (omega arith)
get_or-AllTagged (e ∷ es) zero t h = t.0
get_or-AllTagged (e ∷ es) (suc k) t h = get_or-AllTagged es k t.1 (omega arith)

row_of_lem : (e : Bytes) → 4 ≤ length e → row_of e ≡ (take 3 e, drop 4 e)
row_of_lem [] h = absurd (omega arith)
row_of_lem (c ∷ s) h = refl

-- Each entry of the list stands on page k / 8, which is at most the last page counted, in row
-- k % 8, by its first three characters as the type and what follows the fourth as the name.
pub set_page_files_show_list_covers :
    (layers : ℕ) (cache dir : Option Reply) (k : ℕ)
    → let es = filelist layers cache dir in
      k < length es
      → (r : List Bytes × List (Bytes × Bytes)) × (set_page_files_show_list (k / 8) es ≡ some r)
        × (k / 8 ≤ last_page (length es))
        × (get_or r.1 (k % 8) (codes "[n]", [])
            ≡ (take 3 (get_or es k []), drop 4 (get_or es k [])))
set_page_files_show_list_covers layers cache dir k h =
    let es = filelist layers cache dir in
    let tagged = filelist-AllTagged layers cache dir in
    (
      rows (k / 8) es,
      set_page_lem (k / 8) es tagged (inr (omega arith)),
      unfold last_page in ground arith,
      get_or-map (slots 8 [] (drop (k / 8 * 8) es)) (k % 8)
          ∙ ap row_of (
              get_or-slots 8 (k % 8) [] (drop (k / 8 * 8) es) (omega arith)
              ∙ get_or-drop (k / 8 * 8) (k % 8) [] es
              ∙ ap (λ (i : ℕ). get_or es i []) (omega arith))
          ∙ row_of_lem (get_or es k []) (get_or-AllTagged es k tagged h),
    )
