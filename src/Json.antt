-- ===== src/Json.antt =====
-- The values of encoding/json that a message holds (`map[string]interface{}` and what stands in
-- it), with the map operations that the program makes.
use pmb.Base.{String, ◌≡◌, refl, Bool, Option, none, some, arith, ◌==◌, eq_iff, if◌then◌else◌}
use pmb.Base.Float.{Float64}

-- `Fields` is a Go map: a key stands in it once, if it was built by `put`.
mutual
  pub data Value : Type 0 where
    null : Value
    bool : Bool → Value
    num : Float64 → Value
    str : String → Value
    arr : Array → Value
    obj : Fields → Value

  pub data Fields : Type 0 where
    end : Fields
    field : String → Value → Fields → Fields

  pub data Array : Type 0 where
    empty : Array
    element : Value → Array → Array

-- `m[k]`, with `none` for a key that is not there.
unfoldable pub get : String → Fields → Option Value
get k end = none
get k (field j v m) = if j == k then some v else get k m

-- `m[k] = v`
unfoldable pub put : String → Value → Fields → Fields
put k v end = field k v end
put k v (field j w m) = if j == k then field k v m else field j w (put k v m)

-- `x.(string)`, `x.(float64)`, `x.(bool)`, `x.(map[string]interface{})` of an element that may be missing.
abbrev pub as_text : Option Value → Option String
as_text (some (str s)) = some s
as_text _ = none

abbrev pub as_num : Option Value → Option Float64
as_num (some (num x)) = some x
as_num _ = none

abbrev pub as_bool : Option Value → Option Bool
as_bool (some (bool b)) = some b
as_bool _ = none

abbrev pub as_object : Value → Option Fields
as_object (obj m) = some m
as_object _ = none

abbrev pub text_at : String → Fields → Option String
text_at k m = as_text (get k m)

pub get-put :
    (k j : String) (v : Value) (m : Fields)
    → get j (put k v m) ≡ (if k == j then some v else get j m)
unfolding get put
get-put k j v end = refl
get-put k j v (field i w m) = ground (arith, eq_iff k j, eq_iff i k, eq_iff i j, get-put k j v m)

-- A successful assertion says what the element was.
pub as_num_lem : (o : Option Value) (x : Float64) → as_num o ≡ some x → o ≡ some (num x)
as_num_lem o x h = ground arith

pub as_bool_lem : (o : Option Value) (b : Bool) → as_bool o ≡ some b → o ≡ some (bool b)
as_bool_lem o b h = ground arith
