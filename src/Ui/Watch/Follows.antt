-- ===== src/Ui/Watch/Follows.antt =====
-- src/event.cpp: which page `refresh_page_show` brings up, in every state.
use qidi_plus.Base.{
  ℕ, ◌==◌, Bool, true, false, not, if◌then◌else◌, List, [], ◌∷◌, codes, bytes_eq, ◌≡◌, sym, ap, ◌∙◌,
  some, some_inj, >>=-eq-some, arith, Option,
}
use qidi_plus.Screen.{
  page_to, write_all, tjc_page_preview, tjc_page_level_print, tjc_page_reset, tjc_page_sys_ok,
}
use qidi_plus.Ui.Panel.{
  Effect, Flags, emit, gcode, set_flags, Panel, show, Action, done, ◌▸◌, act, when, goto, page,
}
use qidi_plus.Ui.Footprint.{Footprint, footprints, among, if_holds}
use qidi_plus.Ui.Footprint.Motion.{motion_footprints}
use qidi_plus.Ui.Motion.{led_on_off, filament_sensor_switch}
use qidi_plus.Ui.Watch.{
  light_again, print_pages, prints, to_print, join_print, down, show_message, kept_pages, to_reset,
  on_reset, watch_printer,
}

-- `Shows f a`: where `a` ends, the page is the one that `f` says of the state before.
record Shows (f : Panel → ℕ) (a : Action) : Type 0 where
  shown : (p q : Panel) → a p ≡ some q → page q ≡ f p

among-one : (m n : ℕ) → among m (n ∷ []) ≡ true → m ≡ n
among-one m n h = ground arith

Shows-same : {a : Action} → Footprint [] true a → Shows page a
Shows-same {a} f = record { shown = λ p q h. among-one (page q) (page p) (f.page_within p q h) }

Shows-goto : (n : ℕ) → Shows (λ _. n) (goto n)
unfolding goto page_to write_all
Shows-goto n = record { shown = λ p q h. ap page (sym (some_inj h)) }

Shows-last : {n : ℕ} {b : Action} (a : Action) → Shows (λ _. n) b → Shows (λ _. n) (a ▸ b)
unfolding ◌▸◌
Shows-last {b} a g = record {
  shown = λ p q h. let (r, _, h2) = >>=-eq-some (a p) b h in g.shown r q h2;
}

Shows-first : {f : Panel → ℕ} {a b : Action} → Shows f a → Footprint [] true b → Shows f (a ▸ b)
unfolding ◌▸◌
Shows-first {a} {b} f g = record {
  shown = λ p q h.
      let (r, h1, h2) = >>=-eq-some (a p) b h in
      among-one (page q) (page r) (g.page_within r q h2) ∙ f.shown p r h1;
}

Shows-when :
    {f g : Panel → ℕ} {a b : Action} (t : Panel → Bool)
    → Shows f a
    → Shows g b
    → Shows (λ p. if t p then f p else g p) (when t a b)
unfolding when
Shows-when {f} {g} {a} {b} t u v = record {
  shown = λ p q. either (t p) (u.shown p q) (v.shown p q);
}
  where
    either :
        {x y : Option Panel} {q : Panel} {m n : ℕ} (c : Bool)
        → (x ≡ some q → page q ≡ m)
        → (y ≡ some q → page q ≡ n)
        → (if c then x else y) ≡ some q
        → page q ≡ (if c then m else n)
    either true h k = h
    either false h k = k

same_page : Shows page done
same_page = Shows-same (search (footprints))

light_again-Footprint : {l : List ℕ} {loud : Bool} → Footprint l loud light_again
unfolding light_again
light_again-Footprint = search (footprints, motion_footprints) depth 12

show_message-Footprint : {l : List ℕ} {loud : Bool} → Footprint l loud show_message
unfolding show_message
show_message-Footprint = search (footprints) depth 12

to_reset-Shows : Shows (λ _. tjc_page_reset) to_reset
unfolding to_reset
to_reset-Shows = Shows-last _ (Shows-first (Shows-goto tjc_page_reset) show_message-Footprint)

message_keeps :
    (p r : Panel)
    → when down show_message done p ≡ some r
    → r.printer_webhooks_state ≡ p.printer_webhooks_state
unfolding when show_message ◌▸◌ act show
message_keeps p r h = ground arith

ready : Panel → Bool
ready p = bytes_eq p.printer_webhooks_state (codes "ready")

on_reset-Shows : Shows (λ p. if ready p then tjc_page_sys_ok else page p) on_reset
unfolding on_reset ready ◌▸◌
on_reset-Shows = record {
  shown = λ p q h.
      let (r, h1, h2) =
        >>=-eq-some (when down show_message done p) (when ready (goto tjc_page_sys_ok) done) h in
      let here = (Shows-same (quiet)).shown p r h1 in
      let there = (Shows-when ready (Shows-goto tjc_page_sys_ok) same_page).shown r q h2 in
      let state = message_keeps p r h1 in ground arith;
}
  where
    quiet : Footprint [] true (when down show_message done)
    quiet = search (footprints, show_message-Footprint)

-- After a check of the printer's state, the page of the reset is left for the one that offers to go
-- on when the printer is ready, and only then; a printer that is down brings up the page of the
-- reset from every page but the five that it leaves alone; and every other page stays.
pub watch-page :
    (p q : Panel)
    → watch_printer p ≡ some q
    → page q ≡ (
        if page p == tjc_page_reset
        then if bytes_eq p.printer_webhooks_state (codes "ready") then tjc_page_sys_ok else page p
        else if among (page p) kept_pages
        then page p
        else if down p
        then tjc_page_reset
        else page p)
unfolding watch_printer ready
watch-page p q h =
    (Shows-when (λ p. page p == tjc_page_reset) on_reset-Shows
        (Shows-when (λ p. among (page p) kept_pages) same_page
          (Shows-when down to_reset-Shows same_page))).shown
      p q h

to_print-Shows :
    Shows
      (λ p.
        if p.files.jump_to_print
        then tjc_page_preview
        else if not p.flags.level_mode_printing_is_printing_level
        then tjc_page_preview
        else tjc_page_level_print)
      to_print
unfolding to_print
to_print-Shows =
    Shows-when (λ p. p.files.jump_to_print)
      (Shows-last _ (Shows-last _ (Shows-goto tjc_page_preview)))
      (Shows-when (λ p. not p.flags.level_mode_printing_is_printing_level)
        (Shows-last _ (Shows-goto tjc_page_preview)) (Shows-goto tjc_page_level_print))

-- What decides between the pages: the two flags, which the parts before `to_print` leave alone.
abbrev choice : Panel → Bool × Bool
choice p = (p.files.jump_to_print, p.flags.level_mode_printing_is_printing_level)

record Chooses (a : Action) : Type 0 where
  kept : (p q : Panel) → a p ≡ some q → choice q ≡ choice p

Chooses-seq : {a b : Action} → Chooses a → Chooses b → Chooses (a ▸ b)
unfolding ◌▸◌
Chooses-seq {a} {b} f g = record {
  kept = λ p q h. let (r, h1, h2) = >>=-eq-some (a p) b h in g.kept r q h2 ∙ f.kept p r h1;
}

Chooses-when : {a b : Action} (t : Panel → Bool) → Chooses a → Chooses b → Chooses (when t a b)
unfolding when
Chooses-when t f g = record { kept = λ p q. if_holds (t p) (f.kept p q) (g.kept p q) }

Chooses-done : Chooses done
Chooses-done = record { kept = λ p q h. ap choice (sym (some_inj h)) }

Chooses-emit : (e : Effect) → Chooses (emit e)
unfolding emit
Chooses-emit e = record { kept = λ p q h. ap choice (sym (some_inj h)) }

Chooses-flags :
    (f : Flags → Flags)
    → ((g : Flags)
        → (f g).level_mode_printing_is_printing_level ≡ g.level_mode_printing_is_printing_level)
    → Chooses (set_flags f)
unfolding set_flags
Chooses-flags f same = record {
  kept =
      λ p q h. ap choice (sym (some_inj h)) ∙ ap (λ b. (p.files.jump_to_print, b)) (same p.flags);
}

ruleset chooses = (refl, Chooses-seq, Chooses-when, Chooses-done, Chooses-emit, Chooses-flags)

light_again-Chooses : Chooses light_again
unfolding light_again led_on_off gcode
light_again-Chooses = search (chooses) depth 12

sensor-Chooses : Chooses (when (λ p. p.flags.fila_status) (filament_sensor_switch true) done)
unfolding filament_sensor_switch gcode
sensor-Chooses = search (chooses) depth 12

-- The page of a print that was started elsewhere.
abbrev pub page_of_print : Panel → ℕ
page_of_print p =
    if p.files.jump_to_print
    then tjc_page_preview
    else if not p.flags.level_mode_printing_is_printing_level
    then tjc_page_preview
    else tjc_page_level_print

Shows-behind :
    {f : Panel → ℕ} {a b : Action}
    → ((p q : Panel) → a p ≡ some q → f q ≡ f p)
    → Shows f b
    → Shows f (a ▸ b)
unfolding ◌▸◌
Shows-behind {a} {b} same g = record {
  shown = λ p q h. let (r, h1, h2) = >>=-eq-some (a p) b h in g.shown r q h2 ∙ same p r h1;
}

-- The page of a print follows from the choice.
chosen : Bool × Bool → ℕ
chosen (jump, level) =
    if jump then tjc_page_preview else if not level then tjc_page_preview else tjc_page_level_print

page_of_print-same :
    {a : Action} → Chooses a → (p q : Panel) → a p ≡ some q → page_of_print q ≡ page_of_print p
unfolding chosen
page_of_print-same f p q h = ap chosen (f.kept p q h)

-- When the printer prints a file that has a name and the page shown is none of the fifteen that a
-- print leaves alone, the page of the levelling print comes up, where the print is one for the
-- levelling and is not to be joined from the preview, and otherwise the preview; when it does not, or
-- on one of the fifteen, the page stays.
pub join_print-page :
    (p q : Panel)
    → join_print p ≡ some q
    → page q ≡ (
        if among (page p) print_pages
        then page p
        else if prints p
        then if p.files.jump_to_print
          then tjc_page_preview
          else if not p.flags.level_mode_printing_is_printing_level
          then tjc_page_preview
          else tjc_page_level_print
        else page p)
unfolding join_print
join_print-page p q h =
    (Shows-when (λ p. among (page p) print_pages) same_page
        (Shows-when prints taken same_page)).shown
      p q h
  where
    taken : Shows page_of_print (
        emit (Effect.sleep 5)
        ▸ when (λ p. p.flags.fila_status) (filament_sensor_switch true) done
        ▸ light_again
        ▸ to_print)
    taken = Shows-behind (page_of_print-same (Chooses-emit (Effect.sleep 5))) (
        Shows-behind (page_of_print-same sensor-Chooses)
          (Shows-behind (page_of_print-same light_again-Chooses) to_print-Shows))
