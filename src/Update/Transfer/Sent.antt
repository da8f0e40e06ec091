-- ===== src/Update/Transfer/Sent.antt =====
-- src/mks_update.cpp: what the screen receives in a transfer.
use qidi_plus.Base.{
  ℕ, zero, suc, ◌+◌, ◌-◌, ◌*◌, ◌/◌, ◌%◌, ◌≤◌, ◌<◌, ◌≡◌, refl, ap, ◌∙◌, sym, [], ◌∷◌, ◌++◌, some,
  ltb, Bytes, length, take, drop, take_all, take-append-drop, length-drop, arith, Bool-cases, inl,
  inr, drop-drop, joined, drop_past, append-nil, append_assoc,
}
use qidi_plus.Update.Transfer.{
  Transfer, initial, init_download_to_screen, download_to_screen, serve,
}

-- A transfer in which every earlier request was for a full block.
abbrev Aligned : Transfer → Type 0
Aligned s = (s.tft_end ≡ s.tft_start + 4096) × (s.tft_start % 4096 ≡ 0)

-- The bytes behind the last full block.
abbrev rest_of : Bytes → Bytes
rest_of s = drop (length s / 4096 * 4096) s

serve_past : (n : ℕ) (s : Transfer) → length s.tft_data ≤ s.tft_start → joined (serve n s).0 ≡ []
unfolding serve download_to_screen
serve_past zero s h = refl
serve_past (suc n) s h = elim (Bool-cases (ltb s.tft_start (length s.tft_data))) [
  | inl more ↦ absurd (ground arith)
  | inr done ↦ rw done (serve_past n s h)
]

module _ (s : Transfer) (al : Aligned s) where
  block_full :
      s.tft_start + 4096 ≤ length s.tft_data
      → download_to_screen s ≡ (
        take 4096 (drop s.tft_start s.tft_data) ∷ [],
        record s { tft_start = s.tft_start + 4096; tft_end = s.tft_start + 4096 + 4096 },
      )
  unfolding download_to_screen
  block_full h = ground arith

  block_last :
      s.tft_start < length s.tft_data
      → length s.tft_data < s.tft_start + 4096
      → download_to_screen s ≡ (
        rest_of s.tft_data ∷ rest_of s.tft_data ∷ [],
        record s { tft_start = s.tft_start + 4096; tft_end = s.tft_start + 4096 + 4096 },
      )
  unfolding download_to_screen
  block_last h k =
      let here : s.tft_start ≡ length s.tft_data / 4096 * 4096 = omega arith in
      let one =
        take_all (length s.tft_data - s.tft_start) (drop s.tft_start s.tft_data)
          (omega (arith, length-drop s.tft_start s.tft_data)) in
      let two =
        take_all 4096 (drop s.tft_start s.tft_data)
          (omega (arith, length-drop s.tft_start s.tft_data)) in
      ground (arith, one, two, ap (λ (k : ℕ). drop k s.tft_data) here)

-- The state behind one request.
abbrev advanced : Transfer → Transfer
advanced s = record s { tft_start = s.tft_start + 4096; tft_end = s.tft_start + 4096 + 4096 }

serve_last :
    (n : ℕ) (s : Transfer)
    → Aligned s
    → s.tft_start < length s.tft_data
    → length s.tft_data < s.tft_start + 4096
    → joined (serve (suc n) s).0 ≡ drop s.tft_start s.tft_data ++ rest_of s.tft_data
unfolding serve
serve_last n s al h k =
    let here : s.tft_start ≡ length s.tft_data / 4096 * 4096 = omega arith in
    let silent = serve_past n (advanced s) (omega arith) in
    rw (block_last s al h k, silent, append-nil)
      (ap (λ (k : ℕ). drop k s.tft_data ++ rest_of s.tft_data) (sym here))

take-drop_step : (k : ℕ) (s : Bytes) → take 4096 (drop k s) ++ drop (k + 4096) s ≡ drop k s
take-drop_step k s =
    ap (◌++◌ (take 4096 (drop k s))) (sym (drop-drop 4096 k s)) ∙ take-append-drop 4096 (drop k s)

serve_full :
    (n : ℕ) (s : Transfer)
    → Aligned s
    → s.tft_start + 4096 ≤ length s.tft_data
    → joined (serve n (advanced s)).0 ≡ drop (s.tft_start + 4096) s.tft_data ++ rest_of s.tft_data
    → joined (serve (suc n) s).0 ≡ drop s.tft_start s.tft_data ++ rest_of s.tft_data
unfolding serve
serve_full n s al h later =
    rw (block_full s al h, later)
      (sym (append_assoc (take 4096 (drop s.tft_start s.tft_data)) _ _)
        ∙ ap (λ (b : Bytes). b ++ rest_of s.tft_data) (take-drop_step s.tft_start s.tft_data))

-- All full blocks are sent.
serve_even :
    (n : ℕ) (s : Transfer)
    → Aligned s
    → length s.tft_data ≡ s.tft_start + 4096
    → joined (serve n (advanced s)).0 ≡ drop (s.tft_start + 4096) s.tft_data ++ rest_of s.tft_data
serve_even n s al e =
    serve_past n (advanced s) (omega arith)
    ∙ sym (drop_past (length s.tft_data / 4096 * 4096) s.tft_data (omega arith))
    ∙ ap (λ (b : Bytes). b ++ rest_of s.tft_data)
        (sym (drop_past (s.tft_start + 4096) s.tft_data (omega arith)))

serve_lem :
    (n : ℕ) (s : Transfer)
    → Aligned s
    → s.tft_start < length s.tft_data
    → length s.tft_data ≤ s.tft_start + n * 4096
    → joined (serve n s).0 ≡ drop s.tft_start s.tft_data ++ rest_of s.tft_data
serve_lem zero s al h k = absurd (omega arith)
serve_lem (suc n) s al h k = elim (Bool-cases (ltb (length s.tft_data) (s.tft_start + 4096))) [
  | inl last ↦ serve_last n s al h (ground arith)
  | inr full ↦ elim (Bool-cases (ltb (s.tft_start + 4096) (length s.tft_data))) [
    | inl more ↦
        serve_full n s al (ground arith)
          (serve_lem n (advanced s) (omega arith) (ground arith) (omega arith))
    | inr done ↦ serve_full n s al (ground arith) (serve_even n s al (ground arith))
  ]
]

-- In the first transfer, once the screen has asked for enough blocks, it has received the whole
-- file and behind it, once more, the bytes behind the last full block of 4096.
pub transfer_sends :
    (contents : Bytes) (n : ℕ)
    → 0 < length contents
    → length contents ≤ n * 4096
    → joined (serve n (init_download_to_screen (some contents) initial)).0
      ≡ contents ++ drop (length contents / 4096 * 4096) contents
unfolding init_download_to_screen
transfer_sends contents n h k =
    serve_lem n (record { tft_start = 0; tft_end = 4096; tft_data = contents }) (omega arith)
      (omega arith) (omega arith)

advances :
    (s : Transfer)
    → Aligned s
    → s.tft_start < length s.tft_data
    → (download_to_screen s).1 ≡ advanced s
unfolding download_to_screen
advances s al h = ground arith

idles : (s : Transfer) → length s.tft_data ≤ s.tft_start → (download_to_screen s).1 ≡ s
unfolding download_to_screen
idles s h = ground arith

serve_start :
    (n : ℕ) (s : Transfer)
    → Aligned s
    → length s.tft_data ≤ s.tft_start + n * 4096
    → length s.tft_data ≤ (serve n s).1.tft_start
unfolding serve
serve_start zero s al k = omega arith
serve_start (suc n) s al k = elim (Bool-cases (ltb s.tft_start (length s.tft_data))) [
  | inl more ↦
      rw (advances s al (ground arith)) (serve_start n (advanced s) (omega arith) (omega arith))
  | inr done ↦ rw (idles s (ground arith)) (serve_start n s al (ground arith))
]

-- The start of the transfer is never set back: once a file has been sent, a second transfer of a
-- file that is no longer sends nothing, whatever the number of requests.
pub second_transfer_silent :
    (first second : Bytes) (n m : ℕ)
    → length first ≤ n * 4096
    → length second ≤ length first
    → let done = (serve n (init_download_to_screen (some first) initial)).1 in
      joined (serve m (init_download_to_screen (some second) done)).0 ≡ []
unfolding init_download_to_screen
second_transfer_silent first second n m k l =
    let start : Transfer = record { tft_start = 0; tft_end = 4096; tft_data = first } in
    serve_past m _ (omega (arith, serve_start n start (omega arith) (omega arith)))
