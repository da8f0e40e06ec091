-- ===== src/SendMsg/Download/Pieces.antt =====
-- src/send_msg.cpp: the pieces that `send_cmd_download_data` writes.
use qidi_plus.Base.{
  ℕ, zero, suc, ◌+◌, ◌-◌, ◌≤◌, ◌<◌, ◌≡◌, ap, ◌∙◌, sym, List, [], ◌∷◌, ◌++◌, Option, some, ltb,
  Bytes, length, take, drop, take_all, take-append-drop, length-drop, length-take, arith,
  Bool-cases, inl, inr, drop-drop, joined, drop_past, append-nil,
}
use qidi_plus.SendMsg.Download.{pieces, substr, send_cmd_download_data}

abbrev pub AllWithin : ℕ → List Bytes → Type 0
AllWithin n [] = Unit
AllWithin n (p ∷ ps) = (0 < length p) × (length p ≤ n) × AllWithin n ps

abbrev Splits : Bytes → Option (List Bytes) → Type 0
Splits s r = (ps : List Bytes) × (r ≡ some ps) × (joined ps ≡ s) × AllWithin 512 ps

take_rest : (start : ℕ) (s : Bytes) → take (length s - start) (drop start s) ≡ drop start s
take_rest start s = take_all (length s - start) (drop start s) (omega (arith, length-drop start s))

pieces_lem :
    (f start : ℕ) (s : Bytes)
    → start ≤ length s
    → length s < start + f
    → Splits (drop start s) (pieces f start (start + 512) s)
unfolding pieces
pieces_lem zero start s h l = absurd (omega arith)
pieces_lem (suc f) start s h l = elim (Bool-cases (ltb start (length s))) [
  | inr done ↦ ([], rw done, sym (drop_past start s (ground arith)), tt)
  | inl more ↦ elim (Bool-cases (ltb (length s) (start + 512))) [
    | inl last ↦ (
      substr start (length s - start) s ∷ [],
      rw (more, last),
      append-nil _ ∙ take_rest start s,
      (
        ground (arith, take_rest start s, length-drop start s),
        ground (arith, take_rest start s, length-drop start s),
        tt,
      ),
    )
    | inr full ↦
        let (ps, e, j, a) = pieces_lem f (start + 512) s (ground arith) (ground arith) in
        (
          substr start 512 s ∷ ps,
          rw (more, full, e),
          ap (◌++◌ (substr start 512 s)) (j ∙ sym (drop-drop 512 start s))
              ∙ take-append-drop 512 (drop start s),
          (
            ground (arith, length-take 512 (drop start s), length-drop start s),
            ground (arith, length-take 512 (drop start s)),
            a,
          ),
        )
  ]
]

-- Every block is written in pieces of 1 to 512 bytes, and the pieces one behind the other are the
-- block.
pub send_cmd_download_data_lem :
    (s : Bytes)
    → (ps : List Bytes) × (send_cmd_download_data s ≡ some ps) × (joined ps ≡ s) × AllWithin 512 ps
unfolding send_cmd_download_data
send_cmd_download_data_lem s = pieces_lem (length s + 1) 0 s (omega arith) (omega arith)
