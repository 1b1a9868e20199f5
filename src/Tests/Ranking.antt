-- ===== src/Tests/Ranking.antt =====
-- The theorem about the leaderboard, at a board of two systems.
use mt.Base.{String, Bool, true, false, ◌≡◌, refl, some, List, ℤ, pos}
use mt.Json.{Value, bool, int, float, str, list, dict, Items, nil, cons, Fields, end, field, get}
use mt.Errors.{ok}
use mt.Leaderboard.{Standing, Board, as_items, standings, parse_leaderboard}
use mt.Leaderboard.Fair.{IsFair, parse_leaderboard-IsFair}
use mt.Tests

abbrev row : String → ℤ → Value
row hotkey n = dict (
    field "hotkey" (str hotkey) (
      field "rank" (int n) (
        field "quality" (float 3) (
          field "expected_ms" (float 9)
            (field "on_frontier" (bool true) (field "exclusive_hv" (float 1) end))))))

abbrev served : Fields
served = field "track" (str "extract") (
    field "class" (str "mt-3g") (
      field "systems" (list (cons (row "other" (pos 2)) (cons (row "mine" (pos 1)) nil)))
        (field "round_index" (int (pos 4)) end)))

abbrev mine : Standing
mine = record { hotkey = "mine"; place = pos 1; quality = 3; cost = 9; frontier = true; share = 1 }

abbrev led : Board
led = record {
  round = pos 4;
  mine = some mine;
  leader = some mine;
  goal_achieved = true;
  systems = 2;
}

parses_board : parse_leaderboard Tests.py served "extract" "mt-3g" "mine" ≡ ok led
unfolding mt.Json.get mt.Json.has mt.Errors.◌>>=◌ mt.Errors.refuse_if mt.Errors.want
    mt.Base.show_int mt.Base.strip mt.Base.lstrip mt.Base.rstrip mt.Base.is_space
    mt.Leaderboard.text_of mt.Leaderboard.as_float mt.Leaderboard.number mt.Leaderboard.as_whole
    mt.Leaderboard.whole mt.Leaderboard.rank mt.Leaderboard.round_index mt.Leaderboard.hotkey_text
    mt.Leaderboard.standing mt.Leaderboard.standings mt.Leaderboard.placed mt.Leaderboard.repeated
    mt.Leaderboard.best mt.Leaderboard.named mt.Leaderboard.board mt.Leaderboard.parse_leaderboard
parses_board = refl

parse_leaderboard-IsFair_example :
    (raw : Items) × ((rows : List Standing) × ((as_items (get "systems" served) ≡ some raw)
        × ((standings Tests.py raw ≡ ok rows) × IsFair rows "mine" led)))
parse_leaderboard-IsFair_example =
    parse_leaderboard-IsFair Tests.py served "extract" "mt-3g" "mine" led parses_board
