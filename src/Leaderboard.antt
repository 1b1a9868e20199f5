-- ===== src/Leaderboard.antt =====
-- leaderboard.py: `parse_leaderboard` and its readers.
pub mod Fair
use mt.Base.{
  ℕ, String, ◌<>◌, Bool, true, false, ◌||◌, not, Option, none, some, List, [], ◌∷◌, ℤ, pos, int_eqb,
  int_ltb, show_int, strip, ◌==◌, ltb, length, if◌then◌else◌,
}
use mt.Json.{
  Value, null, bool, int, float, str, list, dict, Items, nil, cons, Fields, Python, get, has,
  eq_text,
}
use mt.Errors.{exception, Result, ok, fail, refuse_if, want, ◌>>=◌, ◌>>◌}

-- `str(value)`
unfoldable pub text_of : Python → Value → String
text_of py (str s) = s
text_of py (int n) = show_int n
text_of py v = py.repr v

module _ (py : Python) where
  -- `float(value)` behind the test for a bool.
  unfoldable pub as_float : String → Value → Result ℕ
  as_float t (int n) = want (py.float_of_int n) exception "int too large to convert to float"
  as_float t (float f) = ok f
  as_float t (str s) = want (py.float_of_text s) exception t
  as_float t v = fail exception t

  -- `_number`
  unfoldable pub number : String → Value → Result ℕ
  number field v = do
    f ← as_float ("leaderboard " <> (field <> " must be numeric")) v
    refuse_if (not (py.float_is_finite f) || py.float_ltb f 0) exception
        ("leaderboard " <> (field <> " must be finite and non-negative"))
    ok f

  -- `int(value)` behind the test for a bool.
  unfoldable pub as_whole : String → Value → Result ℤ
  as_whole t (int n) = ok n
  as_whole t (float f) =
      want (py.int_of_float f) exception
        (if py.float_eqb f f then "cannot convert float infinity to integer" else t)
  as_whole t (str s) = want (py.int_of_text s) exception t
  as_whole t v = fail exception t

  -- The number is at least the bound, and the value is written as it.
  unfoldable pub whole : ℤ → String → Value → Result ℤ
  whole least t v = do
    n ← as_whole t v
    refuse_if
        (int_ltb n least
          || not (strip (text_of py v) == show_int n || strip (text_of py v) == show_int n <> ".0"))
        exception t
    ok n

  -- `_rank`
  unfoldable pub rank : Value → Result ℤ
  rank v = whole (pos 1) "leaderboard rank must be a positive integer" v

  -- `_round_index`
  unfoldable pub round_index : Value → Result ℤ
  round_index v = whole (pos 0) "leaderboard round_index must be a non-negative integer" v

pub record Standing : Type 0 where
  pub hotkey : String
  pub place : ℤ
  pub quality : ℕ
  pub cost : ℕ
  pub frontier : Bool
  pub share : ℕ

abbrev pub as_bool : Value → Option Bool
as_bool (bool b) = some b
as_bool _ = none

-- The dict that `parse_leaderboard` returns. `mine` stands for its entries `found`, `rank`, `quality`,
-- `cost`, `frontier` and `share`; `reachability`, which is always true, is left out.
pub record Board : Type 0 where
  pub round : ℤ
  pub mine : Option Standing
  pub leader : Option Standing
  pub goal_achieved : Bool
  pub systems : ℕ

-- `str(row.get("hotkey", ""))`
unfoldable pub hotkey_text : Python → Fields → String
hotkey_text py row = if has "hotkey" row then text_of py (get "hotkey" row) else ""

-- `_standing`
unfoldable pub standing : Python → Fields → Result Standing
standing py row = do
  let hotkey = strip (hotkey_text py row)
  refuse_if (hotkey == "") exception "leaderboard system is missing its hotkey"
  frontier ←
      want (as_bool (get "on_frontier" row)) exception "leaderboard on_frontier must be boolean"
  place ← rank py (get "rank" row)
  quality ← number py "quality" (get "quality" row)
  cost ← number py "expected_ms" (get "expected_ms" row)
  share ← number py "exclusive_hv" (get "exclusive_hv" row)
  ok (record {
    hotkey = hotkey;
    place = place;
    quality = quality;
    cost = cost;
    frontier = frontier;
    share = share;
  })

unfoldable pub standings : Python → Items → Result (List Standing)
standings py nil = ok []
standings py (cons (dict row) l) = do s ← standing py row; rest ← standings py l; ok (s ∷ rest)
standings py (cons _ l) = fail exception "the public leaderboard contains a malformed system"

-- A rank stands among the standings.
unfoldable pub placed : ℤ → List Standing → Bool
placed n [] = false
placed n (s ∷ l) = int_eqb n s.place || placed n l

-- `len(set(ranks)) != len(ranks)`
unfoldable pub repeated : List Standing → Bool
repeated [] = false
repeated (s ∷ l) = placed s.place l || repeated l

abbrev better : Standing → Option Standing → Standing
better s none = s
better s (some t) = if int_ltb t.place s.place then t else s

-- `min(standings, key=…, default=None)`, the first of the least.
unfoldable pub best : List Standing → Option Standing
best [] = none
best (s ∷ l) = let rest = best l in some (better s rest)

unfoldable pub named : String → List Standing → List Standing
named hotkey [] = []
named hotkey (s ∷ l) = let rest = named hotkey l in if s.hotkey == hotkey then s ∷ rest else rest

abbrev pub head_of : List Standing → Option Standing
head_of [] = none
head_of (s ∷ l) = some s

abbrev pub is_first : Option Standing → Bool
is_first none = false
is_first (some s) = int_eqb s.place (pos 1)

abbrev pub leaderless : Option Standing → Bool
leaderless none = false
leaderless (some s) = not (int_eqb s.place (pos 1))

abbrev pub as_items : Value → Option Items
as_items (list l) = some l
as_items _ = none

-- The part behind the standings.
unfoldable pub board : Python → Fields → String → List Standing → Result Board
board py payload hotkey rows = do
  refuse_if (repeated rows) exception "the public leaderboard contains duplicate ranks"
  refuse_if (leaderless (best rows)) exception
      "the public leaderboard has systems but no rank-1 leader"
  refuse_if (ltb 1 (length (named hotkey rows))) exception
      "the public leaderboard contains duplicate rows for the hotkey"
  round ← round_index py (get "round_index" payload)
  ok (record {
    round = round;
    mine = head_of (named hotkey rows);
    leader = best rows;
    goal_achieved = is_first (head_of (named hotkey rows));
    systems = length rows;
  })

-- `parse_leaderboard`
unfoldable pub parse_leaderboard : Python → Fields → String → String → String → Result Board
parse_leaderboard py payload track hardware_class hotkey = do
  refuse_if
      (not (eq_text (get "track" payload) track)
        || not (eq_text (get "class" payload) hardware_class))
      exception "the public leaderboard names a different competition"
  raw ←
      want (as_items (get "systems" payload)) exception
        "the public leaderboard systems field must be a list"
  rows ← standings py raw
  board py payload hotkey rows
