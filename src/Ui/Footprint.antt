-- ===== src/Ui/Footprint.antt =====
-- What an action of the panel can do to the page and which effects it can have: a footprint lists
-- the pages that it can lead to and says whether a notable effect can be among its effects.
pub mod Motion
pub mod Store
pub mod Level
pub mod Network
pub mod Files
pub mod Print
use qidi_plus.Base.{
  ℕ, ◌==◌, Bool, true, false, not, ◌||◌, ◌&&◌, if◌then◌else◌, List, [], ◌∷◌, ◌++◌, append-nil,
  Option, none, some, ◌>>=◌, ◌+◌, subst, >>=-eq-some, Bytes, Bool-cases, ◌≡◌, refl, ap, sym, ◌∙◌,
  map, drop, length, ==_iff, some_inj, ◌⊎◌, inl, inr, tests, arith,
}
use qidi_plus.Screen.{page_to, write_all}
use qidi_plus.Ui.Panel.{
  Effect, World, Flags, Panel, Action, done, ◌▸◌, act, when, switch, goto, page, show, emit, gcode,
  set_flags, ini_set, on_heat, set_heater_temp,
}
use qidi_plus.Heat.{Targets}

-- A print, a deletion of a file by the server, or an update, from a stick or over the network.
abbrev pub notable : Effect → Bool
notable (Effect.print_a_file file) = true
notable (Effect.file_delete path) = true
notable Effect.start_update = true
notable Effect.execute_download_update_event = true
notable _ = false

abbrev pub among : ℕ → List ℕ → Bool
among n [] = false
among n (m ∷ ms) = if n == m then true else among n ms

-- The notable effects, in their order.
unfoldable pub notables : List Effect → List Effect
notables [] = []
notables (e ∷ es) = if notable e then e ∷ notables es else notables es

-- `Footprint l loud a`: wherever `a` ends, the page is the one before or one of `l`, and, unless
-- `loud`, the notable effects are those before.
pub record Footprint (l : List ℕ) (loud : Bool) (a : Action) : Type 0 where
  pub page_within : (p q : Panel) → a p ≡ some q → among (page q) (page p ∷ l) ≡ true
  pub effects_within :
      (p q : Panel) → a p ≡ some q → loud ≡ false → notables q.effects ≡ notables p.effects

pub among-here : (n : ℕ) (l : List ℕ) → among n (n ∷ l) ≡ true
among-here n l = ground arith

pub among_trans :
    (a b c : ℕ) (l : List ℕ)
    → among b (a ∷ l) ≡ true
    → among c (b ∷ l) ≡ true
    → among c (a ∷ l) ≡ true
among_trans a b c l h k = ground arith

pub among-there : (n m : ℕ) (l : List ℕ) → among n l ≡ true → among n (m ∷ l) ≡ true
among-there n m l h = ground arith

pub if_holds :
    {a b : Option Panel} {q : Panel} {P : Type 0} (t : Bool)
    → (a ≡ some q → P)
    → (b ≡ some q → P)
    → (if t then a else b) ≡ some q
    → P
if_holds true f g = f
if_holds false f g = g

-- An action that always ends, with the page and the effects of `f`.
pub Footprint-act :
    {l : List ℕ} {loud : Bool} (f : Panel → Panel)
    → ((p : Panel) → among (page (f p)) (page p ∷ l) ≡ true)
    → ((p : Panel) → loud ≡ false → notables (f p).effects ≡ notables p.effects)
    → Footprint l loud (act f)
unfolding act
Footprint-act {l} f s e = record {
  page_within = λ p q h. subst (λ r. among (page r) (page p ∷ l) ≡ true) (some_inj h) (s p);
  effects_within = λ p q h n. ap (λ r. notables r.effects) (sym (some_inj h)) ∙ e p n;
}

pub Footprint-seq :
    {l : List ℕ} {loud : Bool} {a b : Action}
    → Footprint l loud a
    → Footprint l loud b
    → Footprint l loud (a ▸ b)
unfolding ◌▸◌
Footprint-seq {l} {loud} {a} {b} f g = record {
  page_within = λ p q h.
      let (r, h1, h2) = >>=-eq-some (a p) b h in
      among_trans (page p) (page r) (page q) l (f.page_within p r h1) (g.page_within r q h2);
  effects_within = λ p q h n.
      let (r, h1, h2) = >>=-eq-some (a p) b h in
      g.effects_within r q h2 n ∙ f.effects_within p r h1 n;
}

-- Either of two actions, for any result of the test.
Footprint-if :
    {l : List ℕ} {loud : Bool} {a b : Action} (t : Panel → Bool)
    → Footprint l loud a
    → Footprint l loud b
    → Footprint l loud (λ p. if t p then a p else b p)
Footprint-if {l} {loud} {a} {b} t f g = record {
  page_within = λ p q. if_holds (t p) (f.page_within p q) (g.page_within p q);
  effects_within = λ p q. if_holds (t p) (f.effects_within p q) (g.effects_within p q);
}

pub Footprint-when :
    {l : List ℕ} {loud : Bool} {a b : Action} (t : Panel → Bool)
    → Footprint l loud a
    → Footprint l loud b
    → Footprint l loud (when t a b)
unfolding when
Footprint-when t f g = Footprint-if t f g

pub Footprint-at :
    {l : List ℕ} {loud : Bool} {f : Panel → Action}
    → ((p : Panel) → Footprint l loud (f p))
    → Footprint l loud (λ p. f p p)
Footprint-at h = record {
  page_within = λ p. (h p).page_within p;
  effects_within = λ p. (h p).effects_within p;
}

pub Footprint-done : {l : List ℕ} {loud : Bool} → Footprint l loud done
unfolding act
Footprint-done {l} = Footprint-act _ (λ p. among-here (page p) l) (λ p _. refl)

pub Footprint-none : {l : List ℕ} {loud : Bool} (n : ℕ) → Footprint l loud (switch n [])
unfolding switch
Footprint-none n = Footprint-done

pub Footprint-case :
    {l : List ℕ} {loud : Bool} {a : Action} (n label : ℕ) (rest : List (ℕ × Action))
    → Footprint l loud a
    → Footprint l loud (switch n rest)
    → Footprint l loud (switch n ((label, a) ∷ rest))
unfolding switch
Footprint-case {l} {loud} {a} n label rest f g = elim (Bool-cases (n == label)) [
  | inl h ↦ subst (λ t. Footprint l loud (if t then a else switch n rest)) (sym h) f
  | inr h ↦ subst (λ t. Footprint l loud (if t then a else switch n rest)) (sym h) g
]

pub Footprint-goto :
    {l : List ℕ} {loud : Bool} (n : ℕ) → among n l ≡ true → Footprint l loud (goto n)
unfolding goto act page_to write_all
Footprint-goto {l} n m = Footprint-act _ (λ p. among-there n (page p) l m) (λ p _. refl)

pub Footprint-show : {l : List ℕ} {loud : Bool} (c : List Bytes) → Footprint l loud (show c)
unfolding show act
Footprint-show {l} c = Footprint-act _ (λ p. among-here (page p) l) (λ p _. refl)

pub Footprint-flags :
    {l : List ℕ} {loud : Bool} (f : Flags → Flags) → Footprint l loud (set_flags f)
unfolding set_flags act
Footprint-flags {l} f = Footprint-act _ (λ p. among-here (page p) l) (λ p _. refl)

pub Footprint-ini :
    {l : List ℕ} {loud : Bool} (key value : Bytes) → Footprint l loud (ini_set key value)
unfolding ini_set act
Footprint-ini {l} key value = Footprint-act _ (λ p. among-here (page p) l) (λ p _. refl)

pub Footprint-loud : {l : List ℕ} (e : Effect) → Footprint l true (emit e)
unfolding emit act
Footprint-loud {l} e = Footprint-act _ (λ p. among-here (page p) l) (λ p h. cc)

if_cons :
    (t : Bool) (x : Effect) (xs ys : List Effect)
    → (if t then x ∷ (xs ++ ys) else xs ++ ys) ≡ (if t then x ∷ xs else xs) ++ ys
if_cons true x xs ys = refl
if_cons false x xs ys = refl

pub notables-append : (xs ys : List Effect) → notables (xs ++ ys) ≡ notables xs ++ notables ys
unfolding notables
notables-append [] ys = refl
notables-append (x ∷ xs) ys =
    rw (notables-append xs ys) (if_cons (notable x) x (notables xs) (notables ys))

-- Effects that are not notable leave the notable ones alone.
notables-quiet : (es more : List Effect) → notables more ≡ [] → notables (es ++ more) ≡ notables es
notables-quiet es more h =
    notables-append es more ∙ ap (λ m. notables es ++ m) h ∙ append-nil (notables es)

one_quiet : (e : Effect) → notable e ≡ false → notables (e ∷ []) ≡ []
unfolding notables
one_quiet e h = rw h refl

pub Footprint-emit :
    {l : List ℕ} {loud : Bool} (e : Effect) → notable e ≡ false → Footprint l loud (emit e)
unfolding emit act
Footprint-emit {l} e quiet =
    Footprint-act _ (λ p. among-here (page p) l)
      (λ p _. notables-quiet p.effects (e ∷ []) (one_quiet e quiet))

pub Footprint-gcode : {l : List ℕ} {loud : Bool} (script : Bytes) → Footprint l loud (gcode script)
unfolding gcode
Footprint-gcode script = Footprint-emit (Effect.run_a_gcode script) refl

notables-map :
    {A : Type 0} (f : A → Effect)
    → ((a : A) → notable (f a) ≡ false)
    → (xs : List A) → notables (map f xs) ≡ []
unfolding notables
notables-map f quiet [] = refl
notables-map f quiet (x ∷ xs) = rw (quiet x) (notables-map f quiet xs)

pub Footprint-heat :
    {l : List ℕ} {loud : Bool} (f : Targets → Targets) → Footprint l loud (on_heat f)
unfolding on_heat act
Footprint-heat {l} f =
    Footprint-act _ (λ p. among-here (page p) l)
      (λ p _.
        let sent = drop (length p.heat.sent) (f p.heat).sent in
        notables-quiet p.effects (map (λ h. Effect.run_a_gcode (set_heater_temp h)) sent)
          (notables-map (λ h. Effect.run_a_gcode (set_heater_temp h)) (λ _. refl) sent))

-- A change of the globals that leaves the page and the effects alone.
pub Footprint-set :
    {l : List ℕ} {loud : Bool} (f : Panel → Panel)
    → ((p : Panel) → page (f p) ≡ page p)
    → ((p : Panel) → (f p).effects ≡ p.effects)
    → Footprint l loud (act f)
Footprint-set {l} f same quiet =
    Footprint-act f
      (λ p. subst (λ n. among n (page p ∷ l) ≡ true) (sym (same p)) (among-here (page p) l))
      (λ p _. ap notables (quiet p))

-- The parts whose text is read from the panel.
pub Footprint-gcode_at :
    {l : List ℕ} {loud : Bool} (s : Panel → Bytes) → Footprint l loud (λ p. gcode (s p) p)
Footprint-gcode_at s = Footprint-at (λ p. Footprint-gcode (s p))

pub Footprint-show_at :
    {l : List ℕ} {loud : Bool} (c : Panel → List Bytes) → Footprint l loud (λ p. show (c p) p)
Footprint-show_at c = Footprint-at (λ p. Footprint-show (c p))

pub Footprint-ini_at :
    {l : List ℕ} {loud : Bool} (key : Bytes) (value : Panel → Bytes)
    → Footprint l loud (λ p. ini_set key (value p) p)
Footprint-ini_at key value = Footprint-at (λ p. Footprint-ini key (value p))

pub Footprint-flags_at :
    {l : List ℕ} {loud : Bool} (f : Panel → Flags → Flags)
    → Footprint l loud (λ p. set_flags (f p) p)
Footprint-flags_at f = Footprint-at (λ p. Footprint-flags (f p))

pub Footprint-heat_at :
    {l : List ℕ} {loud : Bool} (f : Panel → Targets → Targets)
    → Footprint l loud (λ p. on_heat (f p) p)
Footprint-heat_at f = Footprint-at (λ p. Footprint-heat (f p))

pub Footprint-update_server_at :
    {l : List ℕ} {loud : Bool} (n : Panel → ℕ)
    → Footprint l loud (λ p. emit (Effect.update_server (n p)) p)
Footprint-update_server_at n = Footprint-at (λ p. Footprint-emit (Effect.update_server (n p)) refl)

pub Footprint-switch_at :
    {l : List ℕ} {loud : Bool} (n : Panel → ℕ) (table : List (ℕ × Action))
    → ((m : ℕ) → Footprint l loud (switch m table))
    → Footprint l loud (λ p. switch (n p) table p)
Footprint-switch_at n table each = Footprint-at (λ p. each (n p))

-- The rules for the parts of an action; a premise on a literal is closed by `refl`.
pub ruleset footprints = (
  refl, Footprint-seq, Footprint-when, Footprint-loud, Footprint-done, Footprint-none,
  Footprint-case, Footprint-goto, Footprint-show, Footprint-flags, Footprint-ini, Footprint-emit,
  Footprint-gcode, Footprint-heat, Footprint-set, Footprint-gcode_at, Footprint-show_at,
  Footprint-ini_at, Footprint-update_server_at, Footprint-heat_at, Footprint-flags_at,
  Footprint-switch_at,
)
