-- ===== src/Config/Template.antt =====
-- config.py: `_validate_template`, and the rendering of a template. A template is read by
-- `string.Formatter().parse`; what is no plain field, malformed text included, is one refusal here.
use Prim.Native.Char.{Char, code}
use mt.Base.{
  String, ◌<>◌, Bool, true, false, ◌&&◌, ◌||◌, not, Option, none, some, List, [], ◌∷◌, eqb, ◌==◌,
  if◌then◌else◌,
}
use mt.Errors.{config, Result, refuse_if, want, ◌>>=◌, ◌>>◌}

pub data Piece : Type 0 where
  literal : String → Piece
  hole : String → Piece

-- Where the reader stands: in text, behind `{` or `}`, in a field's name, or behind its colon.
pub data Mode : Type 0 where
  plain opened closed : Mode
  inside colon : String → Mode

abbrev char_text : Char → String
char_text c = String.◌∷◌ c String.[]

-- One character: the new place and what was completed, or a refusal.
step : Mode → Char → Option (Mode × List Piece)
step plain c =
    if eqb (code c) b'{'
    then some (opened, [])
    else if eqb (code c) b'}'
    then some (closed, [])
    else some (plain, literal (char_text c) ∷ [])
step opened c =
    if eqb (code c) b'{'
    then some (plain, literal "{" ∷ [])
    else if eqb (code c) b'}'
    then some (plain, hole "" ∷ [])
    else if eqb (code c) b'!' || eqb (code c) b':' || eqb (code c) b'['
    then none
    else some (inside (char_text c), [])
step closed c = if eqb (code c) b'}' then some (plain, literal "}" ∷ []) else none
step (inside name) c =
    if eqb (code c) b'}'
    then some (plain, hole name ∷ [])
    else if eqb (code c) b':'
    then some (colon name, [])
    else if eqb (code c) b'!' || eqb (code c) b'[' || eqb (code c) b'{'
    then none
    else some (inside (name <> char_text c), [])
step (colon name) c = if eqb (code c) b'}' then some (plain, hole name ∷ []) else none

append : List Piece → Option (List Piece) → Option (List Piece)
append [] rest = rest
append (p ∷ l) none = none
append (p ∷ l) (some rest) = some (p ∷ rest)

at_end : Mode → Option (List Piece)
at_end plain = some []
at_end _ = none

pieces_in : Mode → String → Option (List Piece)
pieces_in m String.[] = at_end m
pieces_in m (String.◌∷◌ c s) = elim (step m c) [
  | none ↦ none
  | some (next, out) ↦ append out (pieces_in next s)
]

-- The pieces of a template, where it has none but plain fields.
unfoldable pub pieces : String → Option (List Piece)
unfolding step append at_end pieces_in
pieces s = pieces_in plain s

abbrev allowed : String → Bool
allowed name = name == "round" || name == "uid" || name == "hotkey"

unfoldable pub all_allowed : List Piece → Bool
all_allowed [] = true
all_allowed (literal t ∷ l) = all_allowed l
all_allowed (hole name ∷ l) = allowed name && all_allowed l

unfoldable pub names_round : List Piece → Bool
names_round [] = false
names_round (literal t ∷ l) = names_round l
names_round (hole name ∷ l) = name == "round" || names_round l

-- `_validate_template`
unfoldable pub validate_template : String → Result (Unit {0})
validate_template template = do
  let refusal : String =
      "MMC_SOURCE_TEMPLATE permits only plain {round}, {uid}, and {hotkey} fields"
  found ← want (pieces template) config refusal
  refuse_if (not (all_allowed found)) config refusal
  refuse_if (not (names_round found)) config
      "MMC_SOURCE_TEMPLATE must contain {round} to isolate each round"

-- The keyword arguments of `str.format`.
pub record Arguments : Type 0 where
  pub round : String
  pub uid : String
  pub hotkey : String

unfoldable pub argument : Arguments → String → Option String
argument a name =
    if name == "round"
    then some a.round
    else if name == "uid"
    then some a.uid
    else if name == "hotkey"
    then some a.hotkey
    else none

abbrev prefixed : String → Option String → Option String
prefixed t none = none
prefixed t (some s) = some (t <> s)

abbrev joined : Option String → Option String → Option String
joined none rest = none
joined (some t) rest = prefixed t rest

unfoldable pub render : Arguments → List Piece → Option String
unfolding argument
render a [] = some ""
render a (literal t ∷ l) = prefixed t (render a l)
render a (hole name ∷ l) = joined (argument a name) (render a l)

render_found : Arguments → Option (List Piece) → Option String
render_found a none = none
render_found a (some l) = render a l

-- `template.format(…)`; a field without an argument is a `KeyError`.
unfoldable pub format : Arguments → String → Option String
unfolding render_found
format a template = render_found a (pieces template)
