-- ===== src/Js/Value.antt =====
-- Numbers and the values of `any`: what `JSON.parse` and a caller can hand to the sources.
-- Of the numbers the model has the integers, the infinities and NaN; fractions are left out.
use code_bridge.Base.{List, [], ◌∷◌, ℕ, String, Bool, true, false, ◌==◌, if◌then◌else◌, not, nat_eq}

pub data Number : Type 0 where
  nan infinity neg_infinity : Number
  int : ℕ → Number
  neg : ℕ → Number

mutual
  pub data Value : Type 0 where
    undefined null : Value
    bool : Bool → Value
    number : Number → Value
    string : String → Value
    array : Values → Value
    object : Fields → Value

  pub data Values : Type 0 where
    nil : Values
    cons : Value → Values → Values

  pub data Fields : Type 0 where
    end : Fields
    field : String → Value → Fields → Fields

-- `obj[key]` of an object's own fields
unfoldable pub get : String → Fields → Value
get key end = undefined
get key (field k v fs) = if k == key then v else get key fs

-- `raw?.key`
unfoldable pub get_field : String → Value → Value
unfolding get
get_field key (object fs) = get key fs
get_field key v = undefined

-- `neg n` is -n, so `neg 0` is negative zero.
abbrev pub is_nonzero : Number → Bool
is_nonzero nan = false
is_nonzero infinity = true
is_nonzero neg_infinity = true
is_nonzero (int n) = not (nat_eq n 0)
is_nonzero (neg n) = not (nat_eq n 0)

-- `Boolean(v)`
unfoldable pub truthy : Value → Bool
truthy undefined = false
truthy null = false
truthy (bool b) = b
truthy (number n) = is_nonzero n
truthy (string s) = if s == "" then false else true
truthy (array vs) = true
truthy (object fs) = true

-- `a || b`
unfoldable pub or_value : Value → Value → Value
unfolding truthy
or_value a b = if truthy a then a else b

-- `obj.key = v`: a key that is there keeps its place.
unfoldable pub set : String → Value → Fields → Fields
set key v end = field key v end
set key v (field k w fs) = if k == key then field k v fs else field k w (set key v fs)

-- An array of texts.
abbrev pub strings : List String → Values
strings [] = nil
strings (s ∷ ss) = cons (string s) (strings ss)
