-- ===== src/Wifi/Scan/Order.antt =====
-- src/MakerbaseWiFi.cpp: the last loop of `parse_scan_results`, which moves a network.
use qidi_plus.Base.{
  ℕ, zero, suc, ◌+◌, ◌≤◌, ◌<◌, ◌≡◌, refl, sym, ap, ◌∙◌, List, [], ◌∷◌, inl, inr, Bool-cases,
  if◌then◌else◌, Bytes, bytes_eq, bytes_eq_iff, length, get_or, set, arith,
}
use qidi_plus.Wifi.Scan.{swap_front, front_loop, connected_first}

-- How often a name stands in a list.
pub count : Bytes → List Bytes → ℕ
count x [] = 0
count x (y ∷ ys) = (if bytes_eq x y then 1 else 0) + count x ys

count-set :
    (x v : Bytes) (i : ℕ) (ys : List Bytes)
    → i < length ys
    → count x (set ys i v) + (if bytes_eq x (get_or ys i []) then 1 else 0)
      ≡ count x ys + (if bytes_eq x v then 1 else 0)
unfolding count
count-set x v i [] h = absurd (omega arith)
count-set x v zero (y ∷ ys) h = omega arith
count-set x v (suc i) (y ∷ ys) h = omega (arith, count-set x v i ys (omega arith))

length-set : (ys : List Bytes) (i : ℕ) (v : Bytes) → length (set ys i v) ≡ length ys
length-set [] i v = refl
length-set (y ∷ ys) zero v = refl
length-set (y ∷ ys) (suc i) v = ap suc (length-set ys i v)

get_or-set_zero :
    (ys : List Bytes) (i : ℕ) → get_or (set ys i (get_or ys 0 [])) 0 [] ≡ get_or ys 0 []
get_or-set_zero [] i = refl
get_or-set_zero (y ∷ ys) zero = refl
get_or-set_zero (y ∷ ys) (suc i) = refl

swap_front-count :
    (x : Bytes) (j : ℕ) (ys : List Bytes) → j < length ys → count x (swap_front j ys) ≡ count x ys
unfolding swap_front
swap_front-count x j ys h =
    let head = get_or ys 0 [] in
    let moved = count-set x head j ys h in
    let back =
      count-set x (get_or ys j []) 0 (set ys j head) (omega (arith, length-set ys j head)) in
    omega (arith, moved, rw (get_or-set_zero ys j) at back)

swap_front_len : (j : ℕ) (ys : List Bytes) → length (swap_front j ys) ≡ length ys
unfolding swap_front
swap_front_len j ys = length-set (set ys j (get_or ys 0 [])) 0 _ ∙ length-set ys j _

swap_front_head : (j : ℕ) (ys : List Bytes) → get_or (swap_front j ys) 0 [] ≡ get_or ys j []
unfolding swap_front
swap_front_head j [] = refl
swap_front_head zero (y ∷ ys) = refl
swap_front_head (suc j) (y ∷ ys) = refl

swap_front_above :
    (j k : ℕ) (ys : List Bytes) → j < k → get_or (swap_front j ys) k [] ≡ get_or ys k []
unfolding swap_front
swap_front_above j k [] h = refl
swap_front_above zero zero (y ∷ ys) h = absurd (omega arith)
swap_front_above zero (suc k) (y ∷ ys) h = refl
swap_front_above (suc j) zero (y ∷ ys) h = absurd (omega arith)
swap_front_above (suc j) (suc k) (y ∷ ys) h = get_or_set j k ys (omega arith)
  where
    get_or_set : (i k : ℕ) (zs : List Bytes) → i < k → get_or (set zs i y) k [] ≡ get_or zs k []
    get_or_set i k [] h = refl
    get_or_set zero zero (z ∷ zs) h = absurd (omega arith)
    get_or_set zero (suc k) (z ∷ zs) h = refl
    get_or_set (suc i) zero (z ∷ zs) h = refl
    get_or_set (suc i) (suc k) (z ∷ zs) h = get_or_set i k zs (omega arith)

front_loop-count :
    (n j : ℕ) (c x : Bytes) (ys : List Bytes)
    → j + n ≤ length ys
    → count x (front_loop n j c ys) ≡ count x ys
unfolding front_loop
front_loop-count zero j c x ys h = refl
front_loop-count (suc n) j c x ys h = elim (Bool-cases (bytes_eq c (get_or ys j []))) [
  | inl same ↦ rw same (
      front_loop-count n (j + 1) c x (swap_front j ys) (omega (arith, swap_front_len j ys))
      ∙ swap_front-count x j ys (omega arith))
  | inr other ↦ rw other (front_loop-count n (j + 1) c x ys (omega arith))
]

front_loop_stays :
    (n j : ℕ) (c : Bytes) (ys : List Bytes)
    → get_or ys 0 [] ≡ c
    → get_or (front_loop n j c ys) 0 [] ≡ c
unfolding front_loop
front_loop_stays zero j c ys h = h
front_loop_stays (suc n) j c ys h = elim (Bool-cases (bytes_eq c (get_or ys j []))) [
  | inl same ↦ rw same (
      front_loop_stays n (j + 1) c (swap_front j ys)
        (swap_front_head j ys ∙ sym ((bytes_eq_iff _ _).0 same)))
  | inr other ↦ rw other (front_loop_stays n (j + 1) c ys h)
]

front_loop_head :
    (n j k : ℕ) (c : Bytes) (ys : List Bytes)
    → j ≤ k
    → k < j + n
    → get_or ys k [] ≡ c
    → get_or (front_loop n j c ys) 0 [] ≡ c
unfolding front_loop
front_loop_head zero j k c ys l u e = absurd (omega arith)
front_loop_head (suc n) j k c ys l u e = elim (Bool-cases (bytes_eq c (get_or ys j []))) [
  | inl same ↦ rw same (
      front_loop_stays n (j + 1) c (swap_front j ys)
        (swap_front_head j ys ∙ sym ((bytes_eq_iff _ _).0 same)))
  | inr other ↦ rw other (
      front_loop_head n (j + 1) k c ys (ground (arith, bytes_eq_iff c (get_or ys j [])))
        (omega arith) e)
]

-- Moving the connected network to the front keeps every name as often as it was scanned, and puts
-- the connected network first whenever it stands at some place of the list.
pub connected_first_lem :
    (c : Bytes) (ssids : List Bytes)
    → ((x : Bytes) → count x (connected_first c ssids) ≡ count x ssids)
      × ((k : ℕ)
          → k < length ssids
          → get_or ssids k [] ≡ c
          → get_or (connected_first c ssids) 0 [] ≡ c)
unfolding connected_first
connected_first_lem c ssids = (
  (λ x. front_loop-count (length ssids) 0 c x ssids (omega arith)),
  (λ k u e. front_loop_head (length ssids) 0 k c ssids (omega arith) (omega arith) e),
)
