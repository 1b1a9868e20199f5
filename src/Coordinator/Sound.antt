-- ===== src/Coordinator/Sound.antt =====
-- What the accepted bounds, config and limits of a served round satisfy.
use mt.Base.{
  subst, refl, ◌<>◌, ◌≡◌, String, true, false, not, ◌&&◌, ◌||◌, some, ◌⊎◌, inl, inr, ℤ, pos, ◌≤ℤ◌,
  ◌<ℤ◌, arith, eq_iff, Bool-cases, ◌==◌, hex_tag, int_ltb, int_leb, int_ltb_true, int_ltb_false,
  int_leb_false, &&_true, ||_false, not-false,
}
use mt.Json.{
  list, Items, nil, cons, as_int, eq_text, Fields, Python, get, Value, dict, as_dict, as_text, str,
}
use mt.Errors.{ok}
use mt.Errors.Ensures.{
  Ensures, Ensures-ok, Ensures-want, Ensures-want_last, Ensures-bind, Ensures-refuse,
  Ensures-refuse_last,
}
use mt.Coordinator.Fields.{canonical_hash, is_pair, has_pair, opens, strict_int, nested}
use mt.Coordinator.Round.{
  Profile, Bounds, Served, check_bounds, served_bounds, served_config, served_arena, ceiling,
  ceiling_value, phase_text,
}

-- Submissions are open before the close block, and evaluation runs from it on.
abbrev pub Phase : String → ℤ → ℤ → Type 0
Phase phase close head =
    ((phase ≡ "submissions") × (head <ℤ close)) ⊎ ((phase ≡ "evaluation") × (close ≤ℤ head))

pub record InWindow (b : Bounds) (head : ℤ) : Type 0 where
  pub nonneg : pos 0 ≤ℤ b.index
  pub opens_first : b.start <ℤ b.close
  pub closes_first : b.close <ℤ b.end_block
  pub started : b.start ≤ℤ head
  pub current : head <ℤ b.end_block
  pub phase : Phase b.phase b.close head

phase_cases :
    (b : Bounds) (head : ℤ)
    → not (b.phase == "submissions" || b.phase == "evaluation") ≡ false
    → (b.phase == "submissions" && int_leb b.close head) ≡ false
    → (b.phase == "evaluation" && int_ltb head b.close) ≡ false
    → Phase b.phase b.close head
phase_cases b head t u v = elim (Bool-cases (b.phase == "submissions")) [
  | inl s ↦ inl ((eq_iff _ _).0 s, int_leb_false b.close head (ground arith))
  | inr n ↦
      let e : (b.phase == "evaluation") ≡ true = ground arith in
      inr ((eq_iff _ _).0 e, int_ltb_false head b.close (ground arith))
]

check_bounds-InWindow :
    (py : Python) (b : Bounds) (head : ℤ) → Ensures (λ _. InWindow b head) (check_bounds py b head)
unfolding check_bounds
check_bounds-InWindow py b head = Ensures-refuse _ _ _ λ t1. Ensures-refuse _ _ _ λ t2.
    Ensures-refuse _ _ _ λ t3. Ensures-refuse _ _ _ λ t4. Ensures-refuse _ _ _ λ t5.
      Ensures-refuse_last _ _ _ λ t6.
        let (n, r) = ||_false _ _ t1 in
        let (o, c) = &&_true _ _ (not-false _ r) in
        record {
          nonneg = int_ltb_false b.index (pos 0) n;
          opens_first = int_ltb_true b.start b.close o;
          closes_first = int_ltb_true b.close b.end_block c;
          started = int_ltb_false head b.start t2;
          current = int_leb_false b.end_block head t3;
          phase = phase_cases b head t4 t5 t6;
        }

-- The bounds are those of the served document.
pub record IsServed (py : Python) (payload : Fields) (b : Bounds) : Type 0 where
  pub index : as_int (get "round" payload) ≡ some b.index
  pub start : as_int (get "start_block" payload) ≡ some b.start
  pub close : as_int (get "close_block" payload) ≡ some b.close
  pub end_block : as_int (get "end_block" payload) ≡ some b.end_block
  pub phase : b.phase ≡ phase_text py (get "phase" payload)
  pub unscheduled :
      (eq_text (get "phase" payload) "scheduled" || eq_text (get "state" payload) "scheduled")
      ≡ false

field-eq :
    (d : Fields) (key context : String)
    → Ensures (λ n. as_int (get key d) ≡ some n) (strict_int d key context)
unfolding strict_int
field-eq d key context = Ensures-want_last _ _ _ λ n e. e

pub served_bounds-InWindow :
    (py : Python) (payload : Fields) (head : ℤ)
    → Ensures (λ b. InWindow b head × IsServed py payload b) (served_bounds py payload head)
unfolding served_bounds
served_bounds-InWindow py payload head = Ensures-refuse _ _ _ λ open_now. Ensures-bind λ index i.
    Ensures-bind λ start s. Ensures-bind λ close c. Ensures-bind λ last l. Ensures-bind λ u checked.
      Ensures-ok (
        (check_bounds-InWindow py _ head).holds u checked,
        record {
          index = (field-eq payload _ "round").holds index i;
          start = (field-eq payload _ "round").holds start s;
          close = (field-eq payload _ "round").holds close c;
          end_block = (field-eq payload _ "round").holds last l;
          phase = refl;
          unscheduled = open_now;
        },
      )

as_dict-eq_some : (v : Value) {d : Fields} → as_dict v ≡ some d → v ≡ dict d
as_dict-eq_some (dict e) h = cc
as_dict-eq_some Value.null h = cc
as_dict-eq_some _ h = cc

as_text-eq_some : (v : Value) {t : String} → as_text v ≡ some t → v ≡ str t
as_text-eq_some (str u) h = cc
as_text-eq_some Value.null h = cc
as_text-eq_some _ h = cc

-- The config is served beside its own hash.
pub record IsHashed (py : Python) (payload : Fields) (s : Served) : Type 0 where
  pub config : get "config" payload ≡ dict s.config
  pub stated : get "config_hash" payload ≡ str s.config_hash
  pub shape : hex_tag "sha256:" 64 s.config_hash ≡ true
  pub hashes : canonical_hash py s.config ≡ ok s.config_hash

pub served_config-IsHashed :
    (py : Python) (payload : Fields) → Ensures (IsHashed py payload) (served_config py payload)
unfolding served_config
served_config-IsHashed py payload = Ensures-want _ _ _ λ config c.
    Ensures-want _ _ _ λ config_hash t. Ensures-refuse _ _ _ λ shape. Ensures-bind λ actual a.
      Ensures-refuse _ _ _ λ same. Ensures-ok (record {
        config = as_dict-eq_some (get "config" payload) c;
        stated = as_text-eq_some (get "config_hash" payload) t;
        shape = not-false _ shape;
        hashes = rw (← (eq_iff _ _).0 (not-false _ same)) a;
      })

-- A value is one of the items.
pub data IsIn (v : Value) : Items → Type 0 where
  first : (l : Items) → IsIn v (cons v l)
  later : (u : Value) (l : Items) → IsIn v l → IsIn v (cons u l)

-- The list of competitions has the pair of the track and the class.
abbrev pub IsOpen : String → String → Value → Type 0
IsOpen a b v = (l : Items) × (v ≡ list l) × IsIn (list (cons (str a) (cons (str b) nil))) l

is_pair-eq :
    (a b : String) (v : Value) → is_pair a b v ≡ true → v ≡ list (cons (str a) (cons (str b) nil))
is_pair-eq a b (list (cons (str s) (cons (str t) nil))) e =
    let (x, y) = &&_true _ _ e in rw ((eq_iff s a).0 x, (eq_iff t b).0 y) (refl)
is_pair-eq a b _ e = cc

has_pair-IsIn :
    (a b : String) (l : Items)
    → has_pair a b l ≡ true
    → IsIn (list (cons (str a) (cons (str b) nil))) l
unfolding has_pair
has_pair-IsIn a b nil e = cc
has_pair-IsIn a b (cons v l) e = elim (Bool-cases (is_pair a b v)) [
  | inl p ↦ subst (λ u. IsIn u (cons v l)) (is_pair-eq a b v p) (first l)
  | inr n ↦ later v l (has_pair-IsIn a b l (ground arith))
]

opens-IsOpen : (a b : String) (v : Value) → opens a b v ≡ true → IsOpen a b v
unfolding opens
opens-IsOpen a b (list l) e = (l, refl, has_pair-IsIn a b l e)
opens-IsOpen a b Value.null e = cc
opens-IsOpen a b _ e = cc

-- The config opens the competition and holds the rules of its arena.
pub served_arena-opens :
    (p : Profile) (config : Fields)
    → Ensures
        (λ arena.
          IsOpen p.track p.hardware_class (get "competitions" config)
          × (nested (get "arenas" config) (p.track <> "/" <> p.hardware_class) ≡ some arena))
        (served_arena p config)
unfolding served_arena
served_arena-opens p config =
    Ensures-refuse _ _ _
      λ o. Ensures-want_last _ _ _ λ arena e. (opens-IsOpen _ _ _ (not-false _ o), e)

-- A ceiling is the positive one that the config states for the arena.
abbrev pub IsCeiling : Profile → Fields → Fields → String → ℤ → Type 0
IsCeiling p config arena name n =
    (as_int (ceiling_value p config arena name) ≡ some n) × (pos 0 <ℤ n)

pub ceiling-IsCeiling :
    (p : Profile) (config arena : Fields) (name : String)
    → Ensures (IsCeiling p config arena name) (ceiling p config arena name)
unfolding ceiling
ceiling-IsCeiling p config arena name =
    Ensures-want _ _ _ λ n e. Ensures-refuse _ _ _ λ t. Ensures-ok (e, int_leb_false n (pos 0) t)
