-- ===== src/Chain/Objects.antt =====
-- backend.py: the objects that the chain client returns, Python's equality of them, and
-- `_authorization_integer`. A dict is its entries in insertion order, with distinct texts as keys.
use mt.Base.{
  ℕ, String, ◌<>◌, Bool, true, false, ◌&&◌, Option, none, some, List, [], ◌∷◌, ℤ, pos, int_eqb,
  int_ltb, ◌==◌, eqb, contains, if◌then◌else◌,
}
use mt.Errors.{authorization_refused, Result, ok, refuse_if, want, ◌>>=◌, ◌>>◌}

mutual
  -- An `opaque` is any other object, with what its attributes `rao` and `value` give; it is no
  -- `Integral`.
  pub data Obj : Type 0 where
    null : Obj
    bool : Bool → Obj
    int : ℤ → Obj
    str : String → Obj
    bytes : String → Obj
    list : Objs → Obj
    dict : Entries → Obj
    opaque : Attribute → Attribute → Obj

  pub data Objs : Type 0 where
    nil : Objs
    cons : Obj → Objs → Objs

  pub data Entries : Type 0 where
    end : Entries
    entry : String → Obj → Entries → Entries

  -- Reading an attribute: an `AttributeError`, another exception, or its value.
  pub data Attribute : Type 0 where
    absent broken : Attribute
    given : Obj → Attribute

unfoldable pub lookup : String → Entries → Option Obj
lookup k end = none
lookup k (entry j v d) = if j == k then some v else lookup k d

unfoldable pub keys : Entries → List String
keys end = []
keys (entry k v d) = k ∷ keys d

unfoldable pub size : Entries → ℕ
size end = 0
size (entry k v d) = ℕ.suc (size d)

unfoldable pub all_in : List String → List String → Bool
all_in [] l = true
all_in (k ∷ ks) l = contains k l && all_in ks l

-- `set(d) == keys`
unfoldable pub has_keys : Entries → List String → Bool
unfolding keys all_in
has_keys d ks = all_in (keys d) ks && all_in ks (keys d)

-- The two integers that are Booleans.
abbrev pub as_number : Bool → ℤ
as_number true = pos 1
as_number false = pos 0

-- A test of the value under a key, which a missing key fails.
abbrev at_entry : (Obj → Bool) → Option Obj → Bool
at_entry test none = false
at_entry test (some o) = test o

module _ (equals : Obj → Obj → Bool) where
  -- `a == b`; the equality of other objects is their own.
  unfoldable mutual
    pub same : Obj → Obj → Bool
    same null null = true
    same (bool a) (bool b) = int_eqb (as_number a) (as_number b)
    same (bool a) (int n) = int_eqb (as_number a) n
    same (int n) (bool b) = int_eqb n (as_number b)
    same (int m) (int n) = int_eqb m n
    same (str s) (str t) = s == t
    same (bytes s) (bytes t) = s == t
    same (list l) (list m) = same_items l m
    same (dict d) (dict e) = eqb (size d) (size e) && within_entries d e
    same (opaque r v) o = equals (opaque r v) o
    same o (opaque r v) = equals o (opaque r v)
    same _ _ = false

    same_items : Objs → Objs → Bool
    same_items nil nil = true
    same_items (cons a l) (cons b m) = same a b && same_items l m
    same_items _ _ = false

    within_entries : Entries → Entries → Bool
    within_entries end e = true
    within_entries (entry k v d) e = at_entry (λ w. same v w) (lookup k e) && within_entries d e

-- What `_authorization_integer` takes for the number: `rao`, else `value`, else the object.
unfoldable pub raw_of : Obj → Option Obj
raw_of (opaque (given o) v) = some o
raw_of (opaque broken v) = none
raw_of (opaque absent (given o)) = some o
raw_of (opaque absent broken) = none
raw_of o = some o

abbrev pub integral : Obj → Option ℤ
integral (int n) = some n
integral _ = none

-- `_authorization_integer`
unfoldable pub authorization_integer : String → Obj → Result ℤ
authorization_integer label o = do
  raw ← want (raw_of o) authorization_refused (label <> " could not be proven")
  n ← want (integral raw) authorization_refused (label <> " was not an exact integer")
  refuse_if (int_ltb n (pos 0)) authorization_refused (label <> " was negative")
  ok n

-- `d[k]` where the key is known to be there.
unfoldable pub item : String → Entries → Obj
item k end = null
item k (entry j v d) = if j == k then v else item k d
