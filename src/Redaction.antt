-- ===== src/Redaction.antt =====
-- redaction.py, `sanitize`: the walk over a document before it is written. The rules for one text,
-- `redact_text` and `safe_source`, are regular expressions and URL parsing over the secrets of the
-- store; they are the two functions of a `Redactor`. Keys are compared as ASCII.
pub mod Laws
use mt.Base.{
  ℕ, ◌-◌, String, Bool, true, false, ◌&&◌, ◌||◌, List, [], ◌∷◌, map, leb, eqb, codes, if◌then◌else◌,
}
use mt.Json.{
  Value, null, bool, int, float, str, list, dict, Items, nil, cons, Fields, end, field, Python,
  truthy,
}

pub record Redactor : Type 0 where
  pub redact_text : String → String
  pub safe_source : String → String

upper : ℕ → ℕ
upper c = if leb b'a' c && leb c b'z' then c - 32 else c

is_prefix : List ℕ → List ℕ → Bool
is_prefix [] s = true
is_prefix (p ∷ ps) [] = false
is_prefix (p ∷ ps) (c ∷ s) = eqb p c && is_prefix ps s

-- `p in s`
is_infix : List ℕ → List ℕ → Bool
is_infix p [] = is_prefix p []
is_infix p (c ∷ s) = is_prefix p (c ∷ s) || is_infix p s

any_infix : List String → List ℕ → Bool
any_infix [] s = false
any_infix (m ∷ ms) s = is_infix (codes m) s || any_infix ms s

abbrev secret_markers : List String
secret_markers = "TOKEN" ∷ "SECRET" ∷ "PASSWORD" ∷ "API_KEY" ∷ "CREDENTIAL" ∷ []

-- The key names a secret.
unfoldable pub is_secret : String → Bool
unfolding upper is_prefix is_infix any_infix
is_secret key = any_infix secret_markers (map upper (codes key))

same_codes : List ℕ → List ℕ → Bool
same_codes [] [] = true
same_codes (c ∷ s) (d ∷ t) = eqb c d && same_codes s t
same_codes _ _ = false

-- `key.lower() == "source"`
unfoldable pub is_source : String → Bool
unfolding upper same_codes
is_source key = same_codes (map upper (codes key)) (codes "SOURCE")

module _ (py : Python) (r : Redactor) where
  unfoldable pub sanitize_text : String → String → String
  sanitize_text key s = if is_source key then r.safe_source s else r.redact_text s

  unfoldable mutual
    pub sanitize : String → Value → Value
    sanitize key (str s) =
        if is_secret key
        then if truthy py (str s) then str "[REDACTED]" else str s
        else str (sanitize_text key s)
    sanitize key (list l) =
        let rest = list (sanitize_items l) in
        if is_secret key then if truthy py (list l) then str "[REDACTED]" else list l else rest
    sanitize key (dict d) =
        let rest = dict (sanitize_fields d) in
        if is_secret key then if truthy py (dict d) then str "[REDACTED]" else dict d else rest
    sanitize key null = null
    sanitize key (bool b) = if is_secret key && truthy py (bool b) then str "[REDACTED]" else bool b
    sanitize key (int n) = if is_secret key && truthy py (int n) then str "[REDACTED]" else int n
    sanitize key (float f) =
        if is_secret key && truthy py (float f) then str "[REDACTED]" else float f

    pub sanitize_items : Items → Items
    sanitize_items nil = nil
    sanitize_items (cons v l) = cons (sanitize "" v) (sanitize_items l)

    pub sanitize_fields : Fields → Fields
    sanitize_fields end = end
    sanitize_fields (field k v d) = field k (sanitize k v) (sanitize_fields d)
