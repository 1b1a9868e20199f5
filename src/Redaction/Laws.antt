-- ===== src/Redaction/Laws.antt =====
-- redaction.py: reading a sanitized document.
use mt.Base.{String, ◌≡◌, refl, arith, eq_iff}
use mt.Json.{Fields, end, field, Python, get, is_end}
use mt.Redaction.{Redactor, sanitize, sanitize_fields}

-- An entry of the sanitized document is the sanitized entry.
pub get-sanitize_fields :
    (py : Python) (r : Redactor) (k : String) (d : Fields)
    → get k (sanitize_fields py r d) ≡ sanitize py r k (get k d)
unfolding get sanitize sanitize_fields
get-sanitize_fields py r k end = refl
get-sanitize_fields py r k (field j v d) = ground (arith, eq_iff j k, get-sanitize_fields py r k d)

pub is_end-sanitize_fields :
    (py : Python) (r : Redactor) (d : Fields) → is_end (sanitize_fields py r d) ≡ is_end d
unfolding sanitize_fields
is_end-sanitize_fields py r end = refl
is_end-sanitize_fields py r (field k v d) = refl
