-- ===== src/Json/Laws.antt =====
-- Reading a dict after it was written.
use mt.Base.{
  ap, ◌∙◌, List, [], ◌∷◌, contains, ◌≡◌, refl, true, false, String, arith, ◌==◌, eq_iff, Bool,
  if◌then◌else◌,
}
use mt.Json.{Value, Fields, null, end, field, get, has, put, update, without}

pub get-put :
    (j k : String) (v : Value) (d : Fields) → get j (put k v d) ≡ (if k == j then v else get j d)
unfolding get put
get-put j k v end = refl
get-put j k v (field i w d) = ground (arith, eq_iff k j, eq_iff i k, eq_iff i j, get-put j k v d)

pub has-put :
    (j k : String) (v : Value) (d : Fields) → has j (put k v d) ≡ (if k == j then true else has j d)
unfolding has put
has-put j k v end = refl
has-put j k v (field i w d) = ground (arith, eq_iff k j, eq_iff i k, eq_iff i j, has-put j k v d)

-- An update with an entry that lacks the key leaves the key alone.
pub get-update_absent : (j : String) (d e : Fields) → has j e ≡ false → get j (update d e) ≡ get j d
unfolding get update has
get-update_absent j d end h = refl
get-update_absent j d (field k v e) h =
    ground (arith, get-update_absent j (put k v d) e, get-put j k v d)

pub get-without :
    (drops : String → Bool) (j : String) (d : Fields)
    → get j (without drops d) ≡ (if drops j then null else get j d)
unfolding get without
get-without drops j end = ground arith
get-without drops j (field k v d) = ground (arith, eq_iff k j, get-without drops j d)

pub has-without :
    (drops : String → Bool) (j : String) (d : Fields)
    → has j (without drops d) ≡ (if drops j then false else has j d)
unfolding has without
has-without drops j end = ground arith
has-without drops j (field k v d) = ground (arith, eq_iff k j, has-without drops j d)

-- An update reads as the second dict where that has the key, if no key occurs twice there.
abbrev pub Unique : Fields → Type 0
Unique end = Unit
Unique (field k v e) = (has k e ≡ false) × Unique e

pub get-update :
    (j : String) (d e : Fields)
    → Unique e
    → get j (update d e) ≡ (if has j e then get j e else get j d)
unfolding get update has
get-update j d end u = refl
get-update j d (field k v e) u =
    ground (arith, eq_iff k j, get-update j (put k v d) e u.1, get-put j k v d)

pub get-update_present :
    (j : String) (d e : Fields) → Unique e → has j e ≡ true → get j (update d e) ≡ get j e
get-update_present j d e u p =
    get-update j d e u ∙ ap (λ (b : Bool). if b then get j e else get j d) p

pub Unique-without : (drops : String → Bool) (d : Fields) → Unique d → Unique (without drops d)
unfolding without
Unique-without drops end u = tt
Unique-without drops (field k v d) u =
    ground (arith, Unique-without drops d u.1, has-without drops k d)

-- The keys of a dict, in order.
abbrev pub keys : Fields → List String
keys end = []
keys (field k v d) = k ∷ keys d

pub has-contains : (k : String) (d : Fields) → has k d ≡ contains k (keys d)
unfolding has contains
has-contains k end = refl
has-contains k (field j v d) = ground (arith, eq_iff j k, eq_iff k j, has-contains k d)
