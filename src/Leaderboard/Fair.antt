-- ===== src/Leaderboard/Fair.antt =====
-- leaderboard.py: what a board that was parsed says.
use mt.Base.{
  String, Bool, true, false, ◌||◌, not, ◌≡◌, refl, sym, ap, ◌∙◌, subst, ◌⊎◌, inl, inr, ◌↔◌, Option,
  none, some, List, [], ◌∷◌, ℤ, pos, int_eqb, int_ltb, int_eqb-eq, int_eqb_refl, not-false, ◌==◌,
  eq_iff, ltb, length, arith, if◌then◌else◌,
}
use mt.Json.{Fields, Items, Python, get}
use mt.Errors.{ok}
use mt.Errors.Ensures.{
  Ensures, Ensures-ok, Ensures-known, Ensures-bind, Ensures-refuse, Ensures-want,
}
use mt.Leaderboard.{
  Standing, Board, standings, placed, repeated, best, better, named, head_of, is_first, leaderless,
  as_items, board, parse_leaderboard,
}

abbrev pub Among : Standing → List Standing → Type 0
Among s [] = ⊥
Among s (t ∷ l) = (s ≡ t) ⊎ Among s l

placed-Among :
    (s : Standing) (l : List Standing) (n : ℤ) → Among s l → n ≡ s.place → placed n l ≡ true
unfolding placed
placed-Among s [] n h e = absurd h
placed-Among s (t ∷ l) n (inl p) e =
    first (int_eqb n t.place) (placed n l) (same-place n t (e ∙ ap (λ r. r.place) p))
  where
    first : (a b : Bool) → a ≡ true → (a || b) ≡ true
    first a b h = ground arith

    same-place : (m : ℤ) (r : Standing) → m ≡ r.place → int_eqb m r.place ≡ true
    same-place m r q = subst (λ k. int_eqb m k ≡ true) q (int_eqb_refl m)
placed-Among s (t ∷ l) n (inr h) e = later (int_eqb n t.place) (placed n l) (placed-Among s l n h e)
  where
    later : (a b : Bool) → b ≡ true → (a || b) ≡ true
    later a b h = ground arith

-- Of distinct ranks, one rank is one standing.
distinct :
    (l : List Standing) (a b : Standing)
    → repeated l ≡ false
    → Among a l
    → Among b l
    → a.place ≡ b.place
    → a ≡ b
unfolding repeated
distinct [] a b r h g e = absurd h
distinct (t ∷ l) a b r (inl p) (inl q) e = p ∙ sym q
distinct (t ∷ l) a b r (inl p) (inr g) e =
    let seen = placed-Among b l t.place g (sym (ap (λ s. s.place) p) ∙ e) in cc
distinct (t ∷ l) a b r (inr h) (inl q) e =
    let seen = placed-Among a l t.place h (sym (ap (λ s. s.place) q) ∙ sym e) in cc
distinct (t ∷ l) a b r (inr h) (inr g) e =
    distinct l a b (rest (placed t.place l) (repeated l) r) h g e
  where
    rest : (x y : Bool) → (x || y) ≡ false → y ≡ false
    rest x y h = ground arith

best-Among : (l : List Standing) (s : Standing) → best l ≡ some s → Among s l
unfolding best
best-Among [] s e = cc
best-Among (t ∷ l) s e = by_rest (λ r p. best-Among l r p) (best l) refl e
  where
    by_rest :
        ((r : Standing) → best l ≡ some r → Among r l)
        → (o : Option Standing) → best l ≡ o
        → some (better t o) ≡ some s
        → Among s (t ∷ l)
    by_rest again none p q = inl (cc)
    by_rest again (some r) p q = by_test (int_ltb r.place t.place) refl q
      where
        by_test :
            (x : Bool)
            → int_ltb r.place t.place ≡ x
            → some (if x then r else t) ≡ some s
            → Among s (t ∷ l)
        by_test true f g = inr (again s (p ∙ g))
        by_test false f g = inl (cc)

named-Among :
    (h : String) (l : List Standing) (s : Standing)
    → Among s (named h l)
    → Among s l × (s.hotkey ≡ h)
unfolding named
named-Among h [] s a = absurd a
named-Among h (t ∷ l) s a = by_test (λ g. named-Among h l s g) (t.hotkey == h) refl a
  where
    by_test :
        (Among s (named h l) → Among s l × (s.hotkey ≡ h))
        → (x : Bool) → (t.hotkey == h) ≡ x
        → Among s (if x then t ∷ named h l else named h l)
        → Among s (t ∷ l) × (s.hotkey ≡ h)
    by_test again true e (inl p) = (inl p, ap (λ r. r.hotkey) p ∙ (eq_iff t.hotkey h).0 e)
    by_test again true e (inr g) = let k = again g in (inr k.0, k.1)
    by_test again false e g = let k = again g in (inr k.0, k.1)

Among-named :
    (h : String) (l : List Standing) (s : Standing) → Among s l → s.hotkey ≡ h → Among s (named h l)
unfolding named
Among-named h [] s a e = absurd a
Among-named h (t ∷ l) s a e = by_test (λ g. Among-named h l s g e) (t.hotkey == h) refl a
  where
    by_test :
        (Among s l → Among s (named h l))
        → (x : Bool) → (t.hotkey == h) ≡ x
        → Among s (t ∷ l)
        → Among s (if x then t ∷ named h l else named h l)
    by_test again true q (inl p) = inl p
    by_test again true q (inr g) = inr (again g)
    by_test again false q (inl p) =
        let same = (eq_iff t.hotkey h).1 (sym (ap (λ r. r.hotkey) p) ∙ e) in cc
    by_test again false q (inr g) = again g

-- In a list of at most one standing, a standing is the first.
only :
    (l : List Standing) (s : Standing) → ltb 1 (length l) ≡ false → Among s l → head_of l ≡ some s
only [] s e a = absurd a
only (t ∷ []) s e (inl p) = ap some (sym p)
only (t ∷ []) s e (inr a) = absurd a
only (t ∷ u ∷ l) s e a = absurd (ground arith)

head-Among : (l : List Standing) (s : Standing) → head_of l ≡ some s → Among s l
head-Among [] s e = cc
head-Among (t ∷ l) s e = inl (cc)

-- The first of a list that holds a standing.
best-some : (l : List Standing) (s : Standing) → Among s l → (b : Standing) × (best l ≡ some b)
unfolding best
best-some [] s a = absurd a
best-some (t ∷ l) s a = (better t (best l), refl)

first-place : (s : Standing) → not (int_eqb s.place (pos 1)) ≡ false → s.place ≡ pos 1
first-place s e = int_eqb-eq s.place (pos 1) (not-false _ e)

-- What a board says of the standings that it was made from.
pub record IsFair (rows : List Standing) (hotkey : String) (b : Board) : Type 0 where
  pub counted : b.systems ≡ length rows
  pub leads :
      (l : Standing)
      → b.leader ≡ some l
      → Among l rows × (l.place ≡ pos 1) × ((s : Standing) → Among s rows → s.place ≡ pos 1 → s ≡ l)
  pub own : (s : Standing) → b.mine ≡ some s → Among s rows × (s.hotkey ≡ hotkey)
  pub listed : (s : Standing) → Among s rows → s.hotkey ≡ hotkey → b.mine ≡ some s
  pub goal :
      (b.goal_achieved ≡ true) ↔ ((l : Standing) × ((b.leader ≡ some l) × (l.hotkey ≡ hotkey)))

module _ (rows : List Standing) (hotkey : String) (apart : repeated rows ≡ false)
    (led : leaderless (best rows) ≡ false) (once : ltb 1 (length (named hotkey rows)) ≡ false) where
  place-best : (l : Standing) → best rows ≡ some l → l.place ≡ pos 1
  place-best l e = first-place l (subst (λ o. leaderless o ≡ false) e led)

  listed-mine :
      (s : Standing) → Among s rows → s.hotkey ≡ hotkey → head_of (named hotkey rows) ≡ some s
  listed-mine s a e = only (named hotkey rows) s once (Among-named hotkey rows s a e)

  own-mine :
      (s : Standing) → head_of (named hotkey rows) ≡ some s → Among s rows × (s.hotkey ≡ hotkey)
  own-mine s e = named-Among hotkey rows s (head-Among _ s e)

  lone-leader :
      (l : Standing) → best rows ≡ some l → (s : Standing) → Among s rows → s.place ≡ pos 1 → s ≡ l
  lone-leader l e s a p = distinct rows s l apart a (best-Among rows l e) (p ∙ sym (place-best l e))

  achieved :
      (o : Option Standing)
      → head_of (named hotkey rows) ≡ o
      → is_first o ≡ true
      → (l : Standing) × ((best rows ≡ some l) × (l.hotkey ≡ hotkey))
  achieved none e f = cc
  achieved (some s) e f =
      let known = own-mine s e in
      let top = best-some rows s known.0 in
      let same = lone-leader top.0 top.1 s known.0 (int_eqb-eq s.place (pos 1) f) in
      (top.0, (top.1, sym (ap (λ r. r.hotkey) same) ∙ known.1))

  reached :
      (l : Standing)
      → best rows ≡ some l
      → l.hotkey ≡ hotkey
      → is_first (head_of (named hotkey rows)) ≡ true
  reached l e h =
      subst (λ o. is_first o ≡ true) (sym (listed-mine l (best-Among rows l e) h))
        (subst (λ n. int_eqb n (pos 1) ≡ true) (sym (place-best l e)) refl)

board-IsFair :
    (py : Python) (payload : Fields) (hotkey : String) (rows : List Standing)
    → Ensures (IsFair rows hotkey) (board py payload hotkey rows)
unfolding board
board-IsFair py payload hotkey rows = Ensures-refuse _ _ _ λ apart. Ensures-refuse _ _ _ λ led.
    Ensures-refuse _ _ _ λ once. Ensures-bind λ round _. Ensures-ok (record {
      counted = refl;
      leads = λ l e. (
        best-Among rows l e,
        place-best rows hotkey apart led once l e,
        lone-leader rows hotkey apart led once l e,
      );
      own = own-mine rows hotkey apart led once;
      listed = listed-mine rows hotkey apart led once;
      goal = (
        achieved rows hotkey apart led once (head_of (named hotkey rows)) refl,
        λ w. reached rows hotkey apart led once w.0 w.1.0 w.1.1,
      );
    })

-- A board that was parsed is fair to the standings of the response: it counts them, its leader is
-- the one standing of rank 1, its own standing is the one standing of the hotkey, where there is one,
-- and the goal is achieved exactly where the leader has the hotkey.
pub parse_leaderboard-IsFair :
    (py : Python) (payload : Fields) (track hardware_class hotkey : String) (b : Board)
    → parse_leaderboard py payload track hardware_class hotkey ≡ ok b
    → (raw : Items) × ((rows : List Standing) × ((as_items (get "systems" payload) ≡ some raw)
          × ((standings py raw ≡ ok rows) × IsFair rows hotkey b)))
unfolding parse_leaderboard
parse_leaderboard-IsFair py payload track hardware_class hotkey b e = parsed.holds b e
  where
    parsed :
        Ensures
          (λ c.
            (raw : Items) × ((rows : List Standing) × ((as_items (get "systems" payload) ≡ some raw)
                × ((standings py raw ≡ ok rows) × IsFair rows hotkey c))))
          (parse_leaderboard py payload track hardware_class hotkey)
    parsed = Ensures-refuse _ _ _ λ _. Ensures-want _ _ _ λ raw given. Ensures-bind λ rows read.
        Ensures-known
          λ c f. (raw, (rows, (given, (read, (board-IsFair py payload hotkey rows).holds c f))))
