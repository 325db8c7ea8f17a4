-- ===== src/Mcp/Validation/Entries.antt =====
-- `normalizeArray` against a description of its result.
use mathlib.Core.List.{append_assoc, append-nil}
use code_bridge.Base.{
  true, sym, ap, ◌∙◌, eq_iff, refl, Bool-cases, inl, inr, arith, not, some, ◌++◌, ◌==◌,
  if◌then◌else◌, keep, none, ◌&&◌, ◌||◌, Option, [], ◌∷◌, ◌≡◌, Bool, List, String,
}
use code_bridge.Js.Text.{to_lower_case, includes}
use code_bridge.Js.Value.{Value, Values, nil, cons, string, array}
use code_bridge.Mcp.Validation.{
  Problem, ok, failed, invalid_entry, must_contain_strings, push_new, add_entry, add_entries,
  normalize_array,
}

-- What is wrong with one entry.
abbrev pub problem_of : String → List String → Value → Option Problem
problem_of name allowed (string s) =
    if includes allowed (to_lower_case s) then none else some (invalid_entry name s)
problem_of name allowed v = some (must_contain_strings name)

-- What is wrong with the first bad entry.
abbrev pub first_problem : String → List String → Values → Option Problem
first_problem name allowed nil = none
first_problem name allowed (cons v vs) = elim (problem_of name allowed v) [
  | none ↦ first_problem name allowed vs
  | some p ↦ some p
]

abbrev pub lowered : Values → List String
lowered nil = []
lowered (cons (string s) vs) = to_lower_case s ∷ lowered vs
lowered (cons v vs) = lowered vs

-- Each text once, where it comes first.
abbrev pub firsts : List String → List String
firsts [] = []
firsts (s ∷ ss) = s ∷ keep (λ t. not (s == t)) (firsts ss)

includes-append :
    (s t : String) (xs : List String) → includes (xs ++ s ∷ []) t ≡ (includes xs t || s == t)
unfolding includes
includes-append s t [] = ground arith
includes-append s t (x ∷ xs) = ground (arith, includes-append s t xs)

includes-push :
    (s t : String) (xs : List String) → includes (push_new s xs) t ≡ (includes xs t || s == t)
unfolding push_new
includes-push s t xs = ground (arith, eq_iff s t, includes-append s t xs)

keep-keep :
    (p q r : String → Bool) (xs : List String)
    → ((s : String) → r s ≡ (p s && q s))
    → keep p (keep q xs) ≡ keep r xs
keep-keep p q r [] h = refl
keep-keep p q r (x ∷ xs) h = ground (arith, h x, keep-keep p q r xs h)

unseen : List String → String → Bool
unseen xs s = not (includes xs s)

keep-append :
    (s : String) (acc F : List String)
    → (acc ++ s ∷ []) ++ keep (unseen (acc ++ s ∷ [])) F
      ≡ acc ++ s ∷ keep (unseen acc) (keep (λ t. not (s == t)) F)
unfolding unseen
keep-append s acc F =
    append_assoc acc (s ∷ []) (keep (unseen (acc ++ s ∷ [])) F)
    ∙ ap (λ xs. acc ++ s ∷ xs)
        (sym (
          keep-keep (unseen acc) (λ t. not (s == t)) (unseen (acc ++ s ∷ [])) F
            (λ t. ground (arith, includes-append s t acc))))

unseen-seen :
    (s : String) (acc : List String)
    → includes acc s ≡ true
    → (t : String) → unseen acc t ≡ (unseen acc t && not (s == t))
unfolding unseen
unseen-seen s acc seen t = ground (arith, eq_iff s t, seen)

keep-push :
    (s : String) (acc F : List String)
    → push_new s acc ++ keep (unseen (push_new s acc)) F
      ≡ acc ++ keep (unseen acc) (s ∷ keep (λ t. not (s == t)) F)
unfolding push_new unseen
keep-push s acc F = elim (Bool-cases (includes acc s)) [
  | inl seen ↦ ground (
    arith,
    seen,
    keep-keep (unseen acc) (λ t. not (s == t)) (unseen acc) F (unseen-seen s acc seen),
  )
  | inr new ↦ ground (arith, new, keep-append s acc F)
]

-- The entries of a list, given what has been taken before.
add_entries_lem :
    (name : String) (allowed : List String) (vs : Values) (acc : List String)
    → add_entries name allowed vs acc ≡ elim (first_problem name allowed vs) [
      | none ↦ ok (acc ++ keep (unseen acc) (firsts (lowered vs)))
      | some p ↦ failed p
    ]
unfolding add_entries add_entry
add_entries_lem name allowed nil acc = ap ok (sym (append-nil acc))
add_entries_lem name allowed (cons (string s) vs) acc = ground (
  arith,
  add_entries_lem name allowed vs (push_new (to_lower_case s) acc),
  keep-push (to_lower_case s) acc (firsts (lowered vs)),
)
add_entries_lem name allowed (cons v vs) acc = refl

keep-all : (xs : List String) → keep (unseen []) xs ≡ xs
unfolding unseen includes
keep-all [] = refl
keep-all (x ∷ xs) = ap (λ ys. x ∷ ys) (keep-all xs)

-- On an array, the normalized list is the entries in lower case, each once and where it comes
-- first, if every entry is a text that in lower case is allowed. Otherwise it is the problem of
-- the first entry that is not.
pub normalize_array-entries :
    (name : String) (allowed : List String) (vs : Values)
    → normalize_array (array vs) allowed name
      ≡ elim (first_problem name allowed vs) [ none ↦ ok (firsts (lowered vs)) | some p ↦ failed p ]
unfolding normalize_array
normalize_array-entries name allowed vs =
    ground (arith, add_entries_lem name allowed vs [], keep-all (firsts (lowered vs)))
