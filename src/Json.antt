-- ===== src/Json.antt =====
-- Values that `json.loads` gives: tool arguments, and the values that schemas hold. They are what
-- packages/fss-mcp/src/fss_mcp/security/sanitization.py and validation.py walk through.
-- A finite float is `m / 2^e`, which is exact; the infinities and NaN are left out.
use fss_chassis.Base.{
  ℕ, ◌^◌, Bool, true, false, ◌&&◌, Text, text_eq, ◌==◌, Option, none, some, List, [], ◌∷◌, length,
  nat_eq,
}
use fss_chassis.Base.Dict.{Dict, lookup}
use fss_chassis.Base.Int.{ℤ, pos, scale, int_same}

mutual
  pub data Json : Type 0 where
    null : Json
    bool : Bool → Json
    int : ℤ → Json
    float : ℤ → ℕ → Json
    str : Text → Json
    arr : Items → Json
    obj : Fields → Json

  pub data Items : Type 0 where
    nil : Items
    cons : Json → Items → Items

  pub data Fields : Type 0 where
    end : Fields
    field : Text → Json → Fields → Fields

abbrev pub items : Items → List Json
items nil = []
items (cons v vs) = v ∷ items vs

abbrev pub fields : Fields → Dict Text Json
fields end = []
fields (field k v fs) = (k, v) ∷ fields fs

-- A number as the fraction `m / 2^e`; Python's `True` and `False` are the integers 1 and 0.
abbrev pub as_number : Json → Option (ℤ × ℕ)
as_number (bool true) = some (pos 1, 0)
as_number (bool false) = some (pos 0, 0)
as_number (int n) = some (n, 0)
as_number (float m e) = some (m, e)
as_number _ = none

abbrev same_number : Option (ℤ × ℕ) → Option (ℤ × ℕ) → Bool
same_number (some (m, e)) (some (n, f)) = int_same (scale (2 ^ f) m) (scale (2 ^ e) n)
same_number _ _ = false

abbrev holds_at : (Json → Bool) → Option Json → Bool
holds_at test none = false
holds_at test (some v) = test v

-- Python's `==`: numbers by value, dicts without regard to order.
unfoldable mutual
  pub json_same : Json → Json → Bool
  json_same null null = true
  json_same (str s) (str t) = s == t
  json_same (arr xs) (arr ys) = items_same xs (items ys)
  json_same (obj fs) (obj gs) =
      nat_eq (length (fields fs)) (length (fields gs)) && fields_same fs (fields gs)
  json_same (bool b) w = same_number (as_number (bool b)) (as_number w)
  json_same (int n) w = same_number (as_number (int n)) (as_number w)
  json_same (float m e) w = same_number (as_number (float m e)) (as_number w)
  json_same _ _ = false

  pub items_same : Items → List Json → Bool
  items_same nil [] = true
  items_same (cons v vs) (w ∷ ws) = json_same v w && items_same vs ws
  items_same _ _ = false

  pub fields_same : Fields → Dict Text Json → Bool
  fields_same end d = true
  fields_same (field k v fs) d = holds_at (json_same v) (lookup k d) && fields_same fs d
