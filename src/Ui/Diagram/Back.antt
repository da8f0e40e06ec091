-- ===== src/Ui/Diagram/Back.antt =====
-- The buttons that lead back to the page before, which a footprint cannot name: what an action does
-- from one state.
use qidi_plus.Base.{
  ℕ, ◌==◌, Bool, true, false, List, [], ◌∷◌, some, ◌≡◌, ◌∙◌, sym, ap, subst, if◌then◌else◌,
  >>=-eq-some, some_inj, Bool-cases, inl, inr,
}
use qidi_plus.Screen.{page_to, write_all}
use qidi_plus.Ui.Panel.{Panel, Action, ◌▸◌, when, switch, goto, page, previous_page}
use qidi_plus.Ui.Footprint.{
  Footprint, Footprint-done, among, among_trans, among-there, notables, if_holds,
}

-- What a footprint says, of the state `p` alone.
pub record Lands (l : List ℕ) (loud : Bool) (p : Panel) (a : Action) : Type 0 where
  pub page_within : (q : Panel) → a p ≡ some q → among (page q) (page p ∷ l) ≡ true
  pub effects_within :
      (q : Panel) → a p ≡ some q → loud ≡ false → notables q.effects ≡ notables p.effects

pub Lands-of :
    {l : List ℕ} {loud : Bool} {p : Panel} {a : Action} → Footprint l loud a → Lands l loud p a
Lands-of {p} f = record { page_within = f.page_within p; effects_within = f.effects_within p }

Lands-if :
    {l : List ℕ} {loud : Bool} {p : Panel} {a b : Action} (t : Bool)
    → Lands l loud p a
    → Lands l loud p b
    → Lands l loud p (λ r. if t then a r else b r)
Lands-if t f g = record {
  page_within = λ q. if_holds t (f.page_within q) (g.page_within q);
  effects_within = λ q. if_holds t (f.effects_within q) (g.effects_within q);
}

pub Lands-when :
    {l : List ℕ} {loud : Bool} {p : Panel} {a b : Action} (t : Panel → Bool)
    → Lands l loud p a
    → Lands l loud p b
    → Lands l loud p (when t a b)
unfolding when
Lands-when {p} t f g = record {
  page_within = λ q. if_holds (t p) (f.page_within q) (g.page_within q);
  effects_within = λ q. if_holds (t p) (f.effects_within q) (g.effects_within q);
}

pub Lands-none : {l : List ℕ} {loud : Bool} {p : Panel} (n : ℕ) → Lands l loud p (switch n [])
unfolding switch
Lands-none n = Lands-of Footprint-done

pub Lands-case :
    {l : List ℕ} {loud : Bool} {p : Panel} {a : Action} (n label : ℕ) (rest : List (ℕ × Action))
    → Lands l loud p a
    → Lands l loud p (switch n rest)
    → Lands l loud p (switch n ((label, a) ∷ rest))
unfolding switch
Lands-case {l} {loud} {p} {a} n label rest f g = elim (Bool-cases (n == label)) [
  | inl h ↦ subst (λ t. Lands l loud p (if t then a else switch n rest)) (sym h) f
  | inr h ↦ subst (λ t. Lands l loud p (if t then a else switch n rest)) (sym h) g
]

-- Only the first of two actions starts from the state.
pub Lands-seq :
    {l : List ℕ} {loud : Bool} {p : Panel} {a b : Action}
    → Lands l loud p a
    → Footprint l loud b
    → Lands l loud p (a ▸ b)
unfolding ◌▸◌
Lands-seq {l} {p} {a} {b} f g = record {
  page_within = λ q h.
      let (r, h1, h2) = >>=-eq-some (a p) b h in
      among_trans (page p) (page r) (page q) l (f.page_within r h1) (g.page_within r q h2);
  effects_within = λ q h n.
      let (r, h1, h2) = >>=-eq-some (a p) b h in
      g.effects_within r q h2 n ∙ f.effects_within r h1 n;
}

pub Lands-back :
    {l : List ℕ} {loud : Bool} (p : Panel)
    → among (previous_page p) l ≡ true
    → Lands l loud p (λ r. goto (previous_page r) r)
unfolding goto page_to write_all
Lands-back {l} p m = record {
  page_within = λ q h.
      subst (λ r. among (page r) (page p ∷ l) ≡ true) (some_inj h)
        (among-there (previous_page p) (page p) l m);
  effects_within = λ q h _. ap (λ r. notables r.effects) (sym (some_inj h));
}

pub ruleset backs =
    (among-there, Lands-of, Lands-when, Lands-none, Lands-case, Lands-seq, Lands-back)
