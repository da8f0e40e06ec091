-- ===== src/Files/Listing/Sorted.antt =====
-- src/mks_file.cpp: the order and the members of the file browser's list.
use qidi_plus.Base.{
  ℕ, ◌≡◌, refl, ◌∙◌, Bool, List, [], ◌∷◌, ◌++◌, map, Option, ◌==◌, ◌&&◌, ◌||◌, Bytes, codes,
  bytes_eq, bytes_eq_iff, arith, Bool-cases, inl, inr, true, false,
}
use qidi_plus.Files.Listing.{
  bytes_lt, insert, insert_all, insert_kept, filelist, cached, keeps_file, keeps_dir, Reply,
  first_result, second_result,
}

-- Each element is below the next.
abbrev pub IsSorted : List Bytes → Type 0
IsSorted [] = Unit
IsSorted (x ∷ []) = Unit
IsSorted (x ∷ y ∷ ys) = (bytes_lt x y ≡ true) × IsSorted (y ∷ ys)

pub member : Bytes → List Bytes → Bool
member x [] = false
member x (y ∷ ys) = bytes_eq x y || member x ys

bytes_lt_total : (a b : Bytes) → bytes_lt a b ≡ false → bytes_lt b a ≡ false → a ≡ b
unfolding bytes_lt
bytes_lt_total [] [] h k = refl
bytes_lt_total [] (y ∷ b) h k = cc
bytes_lt_total (x ∷ a) [] h k = cc
bytes_lt_total (x ∷ a) (y ∷ b) h k = ground (arith, bytes_lt_total a b)

insert-IsSorted_below :
    (w x : Bytes) (ys : List Bytes)
    → bytes_lt w x ≡ true
    → IsSorted (w ∷ ys)
    → IsSorted (w ∷ insert x ys)
unfolding insert
insert-IsSorted_below w x [] h s = (h, tt)
insert-IsSorted_below w x (y ∷ ys) h s = elim (Bool-cases (bytes_lt x y)) [
  | inl below ↦ rw below (h, (below, s.1))
  | inr notbelow ↦ rw notbelow (elim (Bool-cases (bytes_lt y x)) [
    | inl above ↦ rw above (s.0, insert-IsSorted_below y x ys above s.1)
    | inr same ↦ rw same s
  ])
]

insert-IsSorted : (x : Bytes) (ys : List Bytes) → IsSorted ys → IsSorted (insert x ys)
unfolding insert
insert-IsSorted x [] s = tt
insert-IsSorted x (y ∷ ys) s = elim (Bool-cases (bytes_lt x y)) [
  | inl below ↦ rw below (below, s)
  | inr notbelow ↦ rw notbelow (elim (Bool-cases (bytes_lt y x)) [
    | inl above ↦ rw above (insert-IsSorted_below y x ys above s)
    | inr same ↦ rw same s
  ])
]

insert_all-IsSorted : (xs ys : List Bytes) → IsSorted ys → IsSorted (insert_all xs ys)
unfolding insert_all
insert_all-IsSorted [] ys s = s
insert_all-IsSorted (x ∷ xs) ys s = insert_all-IsSorted xs (insert x ys) (insert-IsSorted x ys s)

pub member-insert :
    (z x : Bytes) (ys : List Bytes) → member z (insert x ys) ≡ (bytes_eq z x || member z ys)
unfolding insert member
member-insert z x [] = refl
member-insert z x (y ∷ ys) = ground (arith, bytes_lt_total x y, member-insert z x ys)

member-insert_all :
    (z : Bytes) (xs ys : List Bytes) → member z (insert_all xs ys) ≡ (member z xs || member z ys)
unfolding insert_all member
member-insert_all z [] ys = refl
member-insert_all z (x ∷ xs) ys =
    ground (arith, member-insert_all z xs (insert x ys), member-insert z x ys)

member-insert_kept :
    (keeps : Bytes → Bool) (z : Bytes) (xs ys : List Bytes)
    → member z (insert_kept keeps xs ys) ≡ ((keeps z && member z xs) || member z ys)
unfolding insert_kept member
member-insert_kept keeps z [] ys = ground arith
member-insert_kept keeps z (x ∷ xs) ys = ground (
  arith,
  bytes_eq_iff z x,
  member-insert_kept keeps z xs ys,
  member-insert_kept keeps z xs (insert x ys),
  member-insert z x ys,
)

-- The four characters in front of a name tell the kinds apart.
abbrev tagged : ℕ → Bytes → Bytes
tagged t n = b'[' ∷ t ∷ b']' ∷ b' ' ∷ n

member-tagged :
    (t : ℕ) (n : Bytes) (xs : List Bytes) → member (tagged t n) (map (tagged t) xs) ≡ member n xs
unfolding member bytes_eq
member-tagged t n [] = refl
member-tagged t n (x ∷ xs) = ground (arith, member-tagged t n xs)

member-tagged_other :
    (t u : ℕ) (n : Bytes) (xs : List Bytes)
    → (t == u) ≡ false
    → member (tagged t n) (map (tagged u) xs) ≡ false
unfolding member bytes_eq
member-tagged_other t u n [] h = refl
member-tagged_other t u n (x ∷ xs) h = ground (arith, member-tagged_other t u n xs)

member-cached :
    (t : ℕ) (n : Bytes) (xs : List Bytes)
    → (t == b'c') ≡ false
    → member (tagged t n) (cached xs) ≡ false
unfolding member bytes_eq cached insert
member-cached t n [] h = refl
member-cached t n (x ∷ xs) h = ground arith

member_joined :
    (z : Bytes) (fs ds cs : List Bytes)
    → member z (insert_all fs (insert_all ds cs)) ≡ (member z fs || (member z ds || member z cs))
member_joined z fs ds cs = simp member-insert_all

member_kept :
    (keeps : Bytes → Bool) (z : Bytes) (xs : List Bytes)
    → member z (insert_kept keeps xs []) ≡ (keeps z && member z xs)
member_kept keeps z xs = member-insert_kept keeps z xs [] ∙ unfold member in ground arith

module _ (fs ds cs : List Bytes) (n : Bytes) where
  member_file :
      member
        (tagged b'f' n)
        (insert_all (map (tagged b'f') fs) (insert_all (map (tagged b'd') ds) (cached cs)))
      ≡ member n fs
  member_file = ground (
    arith,
    member_joined (tagged b'f' n) (map (tagged b'f') fs) (map (tagged b'd') ds) (cached cs),
    member-tagged b'f' n fs,
    member-tagged_other b'f' b'd' n ds refl,
    member-cached b'f' n cs refl,
  )

  member_dir :
      member
        (tagged b'd' n)
        (insert_all (map (tagged b'f') fs) (insert_all (map (tagged b'd') ds) (cached cs)))
      ≡ member n ds
  member_dir = ground (
    arith,
    member_joined (tagged b'd' n) (map (tagged b'f') fs) (map (tagged b'd') ds) (cached cs),
    member-tagged b'd' n ds,
    member-tagged_other b'd' b'f' n fs refl,
    member-cached b'd' n cs refl,
  )

cached-IsSorted : (cs : List Bytes) → IsSorted (cached cs)
unfolding cached insert
cached-IsSorted [] = tt
cached-IsSorted (c ∷ cs) = elim (Bool-cases (keeps_file c)) [ inl k ↦ rw k tt | inr k ↦ rw k tt ]

-- The list is sorted without repetition; among its entries, "[f] " with a name stands for exactly
-- the files of the reply that are shown, and "[d] " for exactly the folders that are shown, where
-- the reply is the second one or, if that is empty, the cache folder's at the root.
pub filelist_lem :
    (layers : ℕ) (cache dir : Option Reply)
    → let result = second_result dir (first_result cache layers) in
      let list = filelist layers cache dir in
      IsSorted list
      × ((n : Bytes) → member (codes "[f] " ++ n) list ≡ (keeps_file n && member n result.files))
      × ((n : Bytes) → member (codes "[d] " ++ n) list ≡ (keeps_dir n && member n result.dirs))
unfolding filelist
filelist_lem layers cache dir =
    let first = first_result cache layers in
    let result = second_result dir first in
    let ds = insert_kept keeps_dir result.dirs [] in
    let fs = insert_kept keeps_file result.files [] in
    (
      insert_all-IsSorted (map (tagged b'f') fs) _ (
          insert_all-IsSorted (map (tagged b'd') ds) (cached first.files)
            (cached-IsSorted first.files)),
      (λ n. member_file fs ds first.files n ∙ member_kept keeps_file n result.files),
      (λ n. member_dir fs ds first.files n ∙ member_kept keeps_dir n result.dirs),
    )
