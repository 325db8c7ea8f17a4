-- ===== src/Mcp/Validation/Ranges.antt =====
-- What the checked arguments are known to be.
use code_bridge.Base.{
  ℕ, zero, suc, ◌∙◌, Bool-cases, ◌⊎◌, [], ◌∷◌, none, some, true, refl, eq_iff, inl, inr, ◌≢◌, arith,
  keep, none, some, true, All, Bool, Option, ◌∷◌, ◌≡◌, List, String,
}
use code_bridge.Js.Text.{includes}
use code_bridge.Js.Value.{
  get_field, array, cons, Value, Values, Number, int, undefined, null, bool, number, object, string,
  nil, cons,
}
use code_bridge.Mcp.Validation.{
  number_of, Problem, when_given, ◌>>=◌, is_positive, timeout_of, action_of, checked_control,
  Checked, ok, failed, SubscribeArgs, ControlArgs, validate_subscribe_args, validate_control_args,
  normalize_array, normalize_one, levels_allowed, caps_allowed, filters_allowed,
  coerce_positive_int,
}
use code_bridge.Mcp.Validation.Entries.{first_problem, lowered, firsts, normalize_array-entries}

-- Every text of a list is one of the allowed ones.
abbrev pub AllAllowed : List String → List String → Type 0
AllAllowed allowed = All (λ s. includes allowed s ≡ true)

AllAllowed-keep :
    (allowed : List String) (p : String → Bool) (xs : List String)
    → AllAllowed allowed xs
    → AllAllowed allowed (keep p xs)
AllAllowed-keep allowed p [] h = tt
AllAllowed-keep allowed p (x ∷ xs) (q, h) = ground (arith, AllAllowed-keep allowed p xs h)

AllAllowed-firsts :
    (allowed : List String) (xs : List String)
    → AllAllowed allowed xs
    → AllAllowed allowed (firsts xs)
AllAllowed-firsts allowed [] h = tt
AllAllowed-firsts allowed (x ∷ xs) (q, h) =
    (q, AllAllowed-keep allowed _ (firsts xs) (AllAllowed-firsts allowed xs h))

AllAllowed-lowered :
    (name : String) (allowed : List String) (vs : Values)
    → first_problem name allowed vs ≡ none
    → AllAllowed allowed (lowered vs)
AllAllowed-lowered name allowed nil h = tt
AllAllowed-lowered name allowed (cons (string s) vs) h =
    ground (arith, AllAllowed-lowered name allowed vs)
AllAllowed-lowered name allowed (cons v vs) h = absurd (ground arith)

AllAllowed-normalize_array :
    (name : String) (allowed : List String) (v : Value) (xs : List String)
    → normalize_array v allowed name ≡ ok xs
    → AllAllowed allowed xs
unfolding normalize_array
AllAllowed-normalize_array name allowed undefined xs h = ground arith
AllAllowed-normalize_array name allowed (array vs) xs h = ground (
  arith,
  normalize_array-entries name allowed vs,
  AllAllowed-lowered name allowed vs,
  AllAllowed-firsts allowed (lowered vs),
)
AllAllowed-normalize_array name allowed v xs h = absurd (ground arith)

abbrev pub OneAllowed : List String → Option String → Type 0
OneAllowed allowed none = Unit
OneAllowed allowed (some s) = includes allowed s ≡ true

abbrev pub ListAllowed : List String → Option (List String) → Type 0
ListAllowed allowed none = Unit
ListAllowed allowed (some xs) = AllAllowed allowed xs

OneAllowed-normalize_one :
    (name : String) (allowed : List String) (v : Value) (s : String)
    → normalize_one v allowed name ≡ ok s
    → includes allowed s ≡ true
unfolding normalize_one
OneAllowed-normalize_one name allowed (string s) t h = ground arith
OneAllowed-normalize_one name allowed v t h = absurd (ground arith)

Checked-cases :
    {A : Type 0} → (m : Checked A) → ((x : A) × (m ≡ ok x)) ⊎ ((p : Problem) × (m ≡ failed p))
Checked-cases (ok x) = inl (x, refl)
Checked-cases (failed p) = inr (p, refl)

ListAllowed-when_given :
    (allowed : List String) (v : Value) (check : Checked (List String)) (o : Option (List String))
    → ((xs : List String) → check ≡ ok xs → AllAllowed allowed xs)
    → when_given v check ≡ ok o
    → ListAllowed allowed o
ListAllowed-when_given allowed v check none h e = tt
ListAllowed-when_given allowed v check (some xs) h e = elim (Checked-cases check) [
  | inl (ys, q) ↦ ground (arith, q, h ys q)
  | inr (p, q) ↦ absurd (ground (arith, q))
]

OneAllowed-when_given :
    (allowed : List String) (v : Value) (check : Checked String) (o : Option String)
    → ((s : String) → check ≡ ok s → includes allowed s ≡ true)
    → when_given v check ≡ ok o
    → OneAllowed allowed o
OneAllowed-when_given allowed v check none h e = tt
OneAllowed-when_given allowed v check (some s) h e = elim (Checked-cases check) [
  | inl (t, q) ↦ ground (arith, q, h t q)
  | inr (p, q) ↦ absurd (ground (arith, q))
]

subscribe_parts :
    (ls : Checked (List String)) (cs : Checked (Option (List String))) (f : Checked (Option String))
    (a : SubscribeArgs)
    → (do l ← ls; c ← cs; o ← f; ok (record { levels = l; capabilities = c; llm_filter = o }))
      ≡ ok a
    → (ls ≡ ok a.levels) × (cs ≡ ok a.capabilities) × (f ≡ ok a.llm_filter)
subscribe_parts (ok l) (ok c) (ok o) a h = ground arith
subscribe_parts (ok l) (ok c) (failed p) a h = absurd (ground arith)
subscribe_parts (ok l) (failed p) f a h = absurd (ground arith)
subscribe_parts (failed p) cs f a h = absurd (ground arith)

-- Arguments that are accepted for a subscription ask for levels, capabilities and a filter of the
-- protocol only, all in lower case.
pub validate_subscribe_args-AllAllowed :
    (raw : Value) (a : SubscribeArgs)
    → validate_subscribe_args raw ≡ ok a
    → AllAllowed levels_allowed a.levels
      × ListAllowed caps_allowed a.capabilities
      × OneAllowed filters_allowed a.llm_filter
unfolding validate_subscribe_args
validate_subscribe_args-AllAllowed raw a h =
    let (l, c, o) = subscribe_parts _ _ _ a h in
    (
      AllAllowed-normalize_array "levels" levels_allowed _ a.levels l,
      ListAllowed-when_given caps_allowed (get_field "capabilities" raw) _ a.capabilities
          (AllAllowed-normalize_array "capabilities" caps_allowed (get_field "capabilities" raw)) c,
      OneAllowed-when_given filters_allowed (get_field "llm_filter" raw) _ a.llm_filter
          (OneAllowed-normalize_one "llm_filter" filters_allowed (get_field "llm_filter" raw)) o,
    )

-- An action is the text that was given, and not the empty one.
abbrev pub IsAction : Value → String → Type 0
IsAction v s = (v ≡ string s) × (s ≢ "")

action_of-IsAction : (v : Value) (s : String) → action_of v ≡ ok s → IsAction v s
unfolding action_of
action_of-IsAction (string t) s h = (ground arith, ground (arith, eq_iff t ""))
action_of-IsAction v s h = absurd (ground arith)

-- A number above 0 that is no infinity and no NaN.
abbrev pub IsPositive : Number → Type 0
IsPositive n = (k : ℕ) × (n ≡ int (suc k))

-- The timeout for what was given.
abbrev pub IsTimeout : (Value → Number) → Value → Number → Type 0
IsTimeout to_number undefined n = n ≡ int 10_000
IsTimeout to_number (number m) n = (n ≡ m) × IsPositive n
IsTimeout to_number v n = (n ≡ to_number v) × IsPositive n

IsPositive-is_positive : (n : Number) → is_positive n ≡ true → IsPositive n
IsPositive-is_positive (int zero) h = absurd (ground arith)
IsPositive-is_positive (int (suc k)) h = (k, refl)
IsPositive-is_positive n h = absurd (ground arith)

coerced :
    (to_number : Value → Number) (v : Value) (m n : Number)
    → number_of to_number v ≡ m
    → coerce_positive_int to_number v "timeoutMs" ≡ ok n
    → (n ≡ m) × IsPositive n
unfolding coerce_positive_int
coerced to_number v m n e h = elim (Bool-cases (is_positive (number_of to_number v))) [
  | inl p ↦
      let same : n ≡ number_of to_number v = ground (arith, p, h) in
      (same ∙ e, IsPositive-is_positive n (rw same p))
  | inr p ↦ absurd (ground (arith, p, h))
]

timeout_of-IsTimeout :
    (to_number : Value → Number) (v : Value) (n : Number)
    → timeout_of to_number v ≡ ok n
    → IsTimeout to_number v n
unfolding timeout_of
timeout_of-IsTimeout to_number undefined n h = ground arith
timeout_of-IsTimeout to_number (number m) n h = coerced to_number (number m) m n refl h
timeout_of-IsTimeout to_number null n h = coerced to_number null _ n refl h
timeout_of-IsTimeout to_number (bool b) n h = coerced to_number (bool b) _ n refl h
timeout_of-IsTimeout to_number (string s) n h = coerced to_number (string s) _ n refl h
timeout_of-IsTimeout to_number (array vs) n h = coerced to_number (array vs) _ n refl h
timeout_of-IsTimeout to_number (object fs) n h = coerced to_number (object fs) _ n refl h

control_parts :
    (act : Checked String) (t : Checked Number) (args : Value) (code : Option String) (e : Bool)
    (a : ControlArgs)
    → (do
      action ← act
      n ← t
      ok (record { action = action; args = args; code = code; timeout_ms = n; expect_result = e }))
      ≡ ok a
    → (act ≡ ok a.action) × (t ≡ ok a.timeout_ms)
control_parts (ok s) (ok n) args code e a h = ground arith
control_parts (ok s) (failed p) args code e a h = absurd (ground arith)
control_parts (failed p) t args code e a h = absurd (ground arith)

-- Arguments that are accepted for a control request have an action that is the text given, and not
-- empty. Where the caller gives no timeout it is 10000 milliseconds; otherwise it is the number
-- given, or what `Number` makes of another value, and that is finite and above 0.
pub validate_control_args-ranges :
    (to_number : Value → Number) (raw : Value) (a : ControlArgs)
    → validate_control_args to_number raw ≡ ok a
    → IsAction (get_field "action" raw) a.action
      × IsTimeout to_number (get_field "timeoutMs" raw) a.timeout_ms
unfolding validate_control_args checked_control
validate_control_args-ranges to_number raw a h =
    let checked : checked_control to_number raw ≡ ok a = ground arith in
    let (act, t) = control_parts _ _ _ _ _ a checked in
    (
      action_of-IsAction (get_field "action" raw) a.action act,
      timeout_of-IsTimeout to_number (get_field "timeoutMs" raw) a.timeout_ms t,
    )
