-- ===== src/Js/Print.antt =====
-- `String(v)` of what JSON can hold. An integer has its decimal digits also where JavaScript would
-- write an exponent, and an object has no `toString` of its own.
use Prim.Native.String.{◌++◌}
use Prim.Native.Nat.{◌/◌, ◌%◌}
use code_bridge.Base.{◌≡◌, refl, ◌≡◌, ℕ, zero, suc, String, true, false, ltb, nat_eq, if◌then◌else◌}
use code_bridge.Js.Text.{to_lower_case}
use code_bridge.Js.Value.{
  Value, Values, Number, nan, infinity, neg_infinity, int, neg, undefined, null, bool, number,
  string, array, object, nil, cons,
}

abbrev digit : ℕ → String
digit n =
    if nat_eq n 0
    then "0"
    else if nat_eq n 1
    then "1"
    else if nat_eq n 2
    then "2"
    else if nat_eq n 3
    then "3"
    else if nat_eq n 4
    then "4"
    else if nat_eq n 5
    then "5"
    else if nat_eq n 6
    then "6"
    else if nat_eq n 7
    then "7"
    else if nat_eq n 8
    then "8"
    else "9"

-- As many rounds as the number says are enough.
digits : ℕ → ℕ → String
digits zero n = ""
digits (suc fuel) n = elim (ltb n 10) [
  | true ↦ digit n
  | false ↦ digits fuel (n / 10) ++ digit (n % 10)
]

unfoldable pub decimal : ℕ → String
unfolding digits
decimal n = digits (suc n) n

unfoldable pub number_text : Number → String
unfolding decimal
number_text nan = "NaN"
number_text infinity = "Infinity"
number_text neg_infinity = "-Infinity"
number_text (int n) = decimal n
number_text (neg n) = if nat_eq n 0 then "0" else "-" ++ decimal n

-- An entry of an array that is joined.
abbrev entry_text : Value → String → String
entry_text undefined text = ""
entry_text null text = ""
entry_text _ text = text

unfoldable mutual
  unfolding number_text

  pub to_text : Value → String
  to_text undefined = "undefined"
  to_text null = "null"
  to_text (bool true) = "true"
  to_text (bool false) = "false"
  to_text (number n) = number_text n
  to_text (string s) = s
  to_text (array nil) = ""
  to_text (array (cons v vs)) = entry_text v (to_text v) ++ rest_text vs
  to_text (object fs) = "[object Object]"

  pub rest_text : Values → String
  rest_text nil = ""
  rest_text (cons v vs) = "," ++ entry_text v (to_text v) ++ rest_text vs

-- `lower` of the host: a missing value is the empty text.
unfoldable pub lower_value : Value → String
unfolding to_text
lower_value undefined = ""
lower_value null = ""
lower_value v = to_lower_case (to_text v)

prints : to_text (array (cons (number (int 1024)) (cons null (cons (string "a") nil)))) ≡ "1024,,a"
unfolding to_text rest_text number_text decimal digits
prints = refl
