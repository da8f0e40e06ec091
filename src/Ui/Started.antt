-- ===== src/Ui/Started.antt =====
-- src/ui.cpp: the button of the preview that starts the print of the file, on every branch.
use qidi_plus.Base.{
  ℕ, ◌++◌, append-nil, Bool, true, false, not, ◌||◌, ◌&&◌, if◌then◌else◌, List, [], ◌∷◌, codes,
  bytes_eq, ◌≡◌, refl, sym, ap, ◌∙◌, some, some_inj, >>=-eq-some, arith, Option,
}
use qidi_plus.Screen.{
  page_to, write_all, tjc_page_printing, tjc_page_print_f_pop, tjc_page_preview_pop_1,
  tjc_page_preview_pop_2,
}
use qidi_plus.Ui.Buttons.Printing.{tjc_page_preview_btn_start}
use qidi_plus.Ui.Panel.{
  Effect, Panel, Action, ◌▸◌, act, when, switch, done, goto, emit, gcode, set_flags,
}
use qidi_plus.Ui.Motion.{filament_sensor_switch}
use qidi_plus.Ui.Store.{get_mks_fila_status, ini_bool}
use qidi_plus.Ui.Print.{
  check_filament_type, start_printing, set_preview_complete, set_jump_to_print,
}
use qidi_plus.Ui.Handler.Printing.{preview_clicked}
use qidi_plus.Ui.Footprint.{Footprint, notables, notables-append}
use qidi_plus.Ui.Diagram.Rules.{pages}

-- `Adds f a`: where `a` ends, the notable effects are those before and behind them those that `f`
-- says of the state before.
record Adds (f : Panel → List Effect) (a : Action) : Type 0 where
  added : (p q : Panel) → a p ≡ some q → notables q.effects ≡ notables p.effects ++ f p

Adds-quiet : (l : List ℕ) {a : Action} → Footprint l false a → Adds (λ _. []) a
Adds-quiet l f = record {
  added = λ p q h. f.effects_within p q h refl ∙ sym (append-nil (notables p.effects));
}

Adds-before :
    {f : Panel → List Effect} {a b : Action} (l : List ℕ)
    → Adds f a
    → Footprint l false b
    → Adds f (a ▸ b)
unfolding ◌▸◌
Adds-before {f} {a} {b} l u v = record {
  added = λ p q h.
      let (r, h1, h2) = >>=-eq-some (a p) b h in v.effects_within r q h2 refl ∙ u.added p r h1;
}

-- An action that leaves alone what the next one adds.
Adds-behind :
    {f : Panel → List Effect} {a b : Action} (l : List ℕ)
    → Footprint l false a
    → ((p r : Panel) → a p ≡ some r → f r ≡ f p)
    → Adds f b
    → Adds f (a ▸ b)
unfolding ◌▸◌
Adds-behind {f} {a} {b} l u keeps v = record {
  added = λ p q h.
      let (r, h1, h2) = >>=-eq-some (a p) b h in
      v.added r q h2
      ∙ ap (λ m. m ++ f r) (u.effects_within p r h1 refl)
      ∙ ap (λ m. notables p.effects ++ m) (keeps p r h1);
}

Adds-when :
    {f g : Panel → List Effect} {a b : Action} (t : Panel → Bool)
    → Adds f a
    → Adds g b
    → Adds (λ p. if t p then f p else g p) (when t a b)
unfolding when
Adds-when {f} {g} {a} {b} t u v = record {
  added = λ p q. either p (f p) (g p) (t p) (u.added p q) (v.added p q);
}
  where
    either :
        {x y : Option Panel} {q : Panel} (p : Panel) (m n : List Effect) (c : Bool)
        → (x ≡ some q → notables q.effects ≡ notables p.effects ++ m)
        → (y ≡ some q → notables q.effects ≡ notables p.effects ++ n)
        → (if c then x else y) ≡ some q
        → notables q.effects ≡ notables p.effects ++ (if c then m else n)
    either p m n true h k = h
    either p m n false h k = k

-- The print of the file at the path of the preview.
abbrev pub print_of : Panel → List Effect
print_of p = Effect.print_a_file p.files.print_files_path ∷ []

start_printing-Adds : Adds print_of start_printing
unfolding start_printing emit notables
start_printing-Adds = record {
  added = λ p q h.
      ap (λ r. notables r.effects) (sym (some_inj h)) ∙ notables-append p.effects (print_of p);
}

check_filament_type-print_of :
    (p r : Panel) → check_filament_type p ≡ some r → print_of r ≡ print_of p
unfolding check_filament_type when goto page_to write_all
check_filament_type-print_of p r h = ground arith

-- The two orders in which a print is started, and the pages that they can lead to.
abbrev to_pages : List ℕ
to_pages =
    tjc_page_printing ∷ tjc_page_preview_pop_1 ∷ tjc_page_preview_pop_2 ∷ tjc_page_print_f_pop ∷ []

checked-Footprint : Footprint to_pages false check_filament_type
checked-Footprint = search (pages) depth 12

abbrev mark : Action
mark = act (λ p. record p { printer_print_stats_state = codes "printing" })

mark-print_of : (p r : Panel) → mark p ≡ some r → print_of r ≡ print_of p
unfolding act
mark-print_of p r h = ap print_of (sym (some_inj h))

sensor-print_of : (p r : Panel) → filament_sensor_switch true p ≡ some r → print_of r ≡ print_of p
unfolding filament_sensor_switch gcode emit
sensor-print_of p r h = ap print_of (sym (some_inj h))

abbrev with_sensor : Action
with_sensor = check_filament_type ▸ mark ▸ filament_sensor_switch true ▸ start_printing

abbrev without_sensor : Action
without_sensor = start_printing ▸ mark ▸ check_filament_type

abbrev sensed : Action
sensed =
    when (λ p. p.flags.fila_status)
      (when (λ p. p.flags.filament_detected) with_sensor (goto tjc_page_print_f_pop)) without_sensor
    ▸ set_flags (λ f. record f { printer_ready = false })
    ▸ set_preview_complete false

sensed-Adds :
    Adds
      (λ p.
        if p.flags.fila_status
        then if p.flags.filament_detected then print_of p else []
        else print_of p)
      sensed
sensed-Adds =
    Adds-before []
      (Adds-when (λ p. p.flags.fila_status)
        (Adds-when (λ p. p.flags.filament_detected)
          (Adds-behind to_pages checked-Footprint check_filament_type-print_of (
            Adds-behind [] (search (pages)) mark-print_of
              (Adds-behind [] (search (pages)) sensor-print_of start_printing-Adds)))
          (Adds-quiet to_pages (search (pages))))
        (Adds-before to_pages start_printing-Adds (search (pages) depth 12)))
      (search (pages))

asked-Adds :
    Adds
      (λ p.
        if ini_bool (codes "fila:enable") false p
        then if p.flags.filament_detected then print_of p else []
        else print_of p)
      (get_mks_fila_status ▸ sensed)
unfolding ◌▸◌ get_mks_fila_status set_flags
asked-Adds = record {
  added = λ p q h.
      sensed-Adds.added
        (record p {
          flags = record p.flags { fila_status = ini_bool (codes "fila:enable") false p };
        })
        q h;
}

-- A print runs or is paused.
abbrev pub running : Panel → Bool
running p =
    bytes_eq p.printer_print_stats_state (codes "printing")
    || bytes_eq p.printer_print_stats_state (codes "paused")

-- Whether the button starts a print: none runs or is paused, the preview is complete, and there is
-- filament, where the configuration has the sensor on.
abbrev pub starts : Panel → Bool
starts p =
    not (running p)
    && p.files.show_preview_complete
    && (if ini_bool (codes "fila:enable") false p then p.flags.filament_detected else true)

-- The button of the preview that starts the print adds exactly one notable effect, the print of the
-- file at the path of the preview, when no print runs or is paused, the preview is complete and,
-- where the configuration has the filament sensor on, the sensor has detected filament; otherwise it
-- adds none: no print, no deletion by the server and no update.
pub preview-starts :
    (p q : Panel)
    → preview_clicked tjc_page_preview_btn_start p ≡ some q
    → notables q.effects
      ≡ notables p.effects
        ++ (if starts p then Effect.print_a_file p.files.print_files_path ∷ [] else [])
unfolding preview_clicked switch
preview-starts p q h =
    button-Adds.added p q h
    ∙ ap (λ m. notables p.effects ++ m)
        (same_test (running p) p.files.show_preview_complete
          (ini_bool (codes "fila:enable") false p) p.flags.filament_detected (print_of p))
  where
    same_test :
        (a b c d : Bool) (es : List Effect)
        → (if a then [] else if b then if c then if d then es else [] else es else [])
          ≡ (if not a && b && (if c then d else true) then es else [])
    same_test true b c d es = refl
    same_test false false c d es = refl
    same_test false true true true es = refl
    same_test false true true false es = refl
    same_test false true false d es = refl

    button-Adds :
        Adds
          (λ r.
            if running r
            then []
            else if r.files.show_preview_complete
            then if ini_bool (codes "fila:enable") false r
              then if r.flags.filament_detected then print_of r else []
              else print_of r
            else [])
          (when running
            (goto tjc_page_printing ▸ set_jump_to_print false)
            (when (λ r. r.files.show_preview_complete) (get_mks_fila_status ▸ sensed) done))
    button-Adds =
        Adds-when running (Adds-quiet (tjc_page_printing ∷ []) (search (pages))) (
          Adds-when (λ r. r.files.show_preview_complete) asked-Adds
            (Adds-quiet [] (search (pages))))
