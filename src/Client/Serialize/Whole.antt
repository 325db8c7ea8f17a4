-- ===== src/Client/Serialize/Whole.antt =====
-- What `safeSerialize` of src/client.ts keeps whole.
use Prim.Native.String.{◌++◌ as ◌<>◌}
use code_bridge.Base.{
  arith, ℕ, zero, suc, ◌≡◌, refl, ap, sym, ◌∙◌, Bool, true, false, ◌&&◌, List, [], ◌∷◌, ◌++◌, any,
  nat_eq, if-false,
}
use code_bridge.Js.Value.{Value, Values, Fields, string, array, object, nil, cons, end, field}
use code_bridge.Client.Serialize.{
  value_of, Node, plain, error, function, symbol, list, dictionary, Nodes, no_items, item, Entries,
  no_entries, entry, throwing, Serializer, map_items, map_entries, error_object, name_shown,
  safe_serialize,
}

-- The numbers of the arrays and objects of a node, from the outside in and from the left.
unfoldable mutual
  pub numbers : Node → List ℕ
  numbers (plain p) = []
  numbers (error name message stack) = []
  numbers (function name) = []
  numbers (symbol s) = []
  numbers (list i vs) = i ∷ numbers_of vs
  numbers (dictionary i es) = i ∷ numbers_in es

  numbers_of : Nodes → List ℕ
  numbers_of no_items = []
  numbers_of (item v vs) = numbers v ++ numbers_of vs

  numbers_in : Entries → List ℕ
  numbers_in no_entries = []
  numbers_in (entry k v es) = numbers v ++ numbers_in es
  numbers_in (throwing k message es) = numbers_in es

-- The value that a node reads as.
unfoldable mutual
  pub whole : Node → Value
  whole (plain p) = value_of p
  whole (error name message stack) = error_object name message stack
  whole (function name) = string ("[function " <> name_shown name <> "]")
  whole (symbol s) = string s
  whole (list i vs) = array (whole_items vs)
  whole (dictionary i es) = object (whole_entries es)

  whole_items : Nodes → Values
  whole_items no_items = nil
  whole_items (item v vs) = cons (whole v) (whole_items vs)

  whole_entries : Entries → Fields
  whole_entries no_entries = end
  whole_entries (entry k v es) = field k (whole v) (whole_entries es)
  whole_entries (throwing k message es) =
      field k (string ("[error serializing: " <> message <> "]")) (whole_entries es)

abbrev few_items : (Node → Bool) → ℕ → Nodes → Bool
few_items p n no_items = true
few_items p zero (item v vs) = false
few_items p (suc n) (item v vs) = p v && few_items p n vs

abbrev few_entries : (Node → Bool) → ℕ → Entries → Bool
few_entries p n no_entries = true
few_entries p zero (entry k v es) = false
few_entries p zero (throwing k message es) = false
few_entries p (suc n) (entry k v es) = p v && few_entries p n es
few_entries p (suc n) (throwing k message es) = few_entries p n es

-- Arrays and objects nest at most `depth` deep, and have at most 20 entries each.
abbrev pub nests : ℕ → Node → Bool
nests zero (list i vs) = false
nests zero (dictionary i es) = false
nests (suc depth) (list i vs) = few_items (nests depth) 20 vs
nests (suc depth) (dictionary i es) = few_entries (nests depth) 20 es
nests depth v = true

-- The numbers are all different, and none of them was met before.
abbrev pub AllNew : List ℕ → List ℕ → Type 0
AllNew seen [] = Unit {0}
AllNew seen (i ∷ is) = (any (nat_eq i) seen ≡ false) × AllNew (i ∷ seen) is

-- What was met after these numbers.
met_after : List ℕ → List ℕ → List ℕ
met_after [] seen = seen
met_after (i ∷ is) seen = met_after is (i ∷ seen)

met_after-append :
    (is js seen : List ℕ) → met_after (is ++ js) seen ≡ met_after js (met_after is seen)
unfolding met_after
met_after-append [] js seen = refl
met_after-append (i ∷ is) js seen = met_after-append is js (i ∷ seen)

AllNew-append :
    (is js seen : List ℕ) → AllNew seen (is ++ js) → AllNew seen is × AllNew (met_after is seen) js
unfolding met_after
AllNew-append [] js seen h = (tt, h)
AllNew-append (i ∷ is) js seen (q, h) =
    let (front, back) = AllNew-append is js (i ∷ seen) h in ((q, front), back)

module _ (f : Serializer) (p : Node → Bool)
    (h : (seen : List ℕ) (v : Node)
      → p v ≡ true
      → AllNew seen (numbers v)
      → f seen v ≡ (whole v, met_after (numbers v) seen)) where
  items-whole :
      (n : ℕ) (seen : List ℕ) (vs : Nodes)
      → few_items p n vs ≡ true
      → AllNew seen (numbers_of vs)
      → map_items f n seen vs ≡ (whole_items vs, met_after (numbers_of vs) seen)
  unfolding map_items numbers whole met_after
  items-whole zero seen no_items q a = refl
  items-whole zero seen (item v vs) q a = absurd (ground arith)
  items-whole (suc n) seen no_items q a = refl
  items-whole (suc n) seen (item v vs) q a =
      let (first, rest) = AllNew-append (numbers v) (numbers_of vs) seen a in
      let met = met_after (numbers v) seen in
      ap (λ (r : Value × List ℕ). (cons r.0 (map_items f n r.1 vs).0, (map_items f n r.1 vs).1))
        (h seen v (ground (arith, q)) first)
      ∙ ap (λ (r : Values × List ℕ). (cons (whole v) r.0, r.1))
          (items-whole n met vs (ground (arith, q)) rest)
      ∙ ap (λ m. (cons (whole v) (whole_items vs), m))
          (sym (met_after-append (numbers v) (numbers_of vs) seen))

  entries-whole :
      (n : ℕ) (seen : List ℕ) (es : Entries)
      → few_entries p n es ≡ true
      → AllNew seen (numbers_in es)
      → map_entries f n seen es ≡ (whole_entries es, met_after (numbers_in es) seen)
  unfolding map_entries numbers whole met_after
  entries-whole zero seen no_entries q a = refl
  entries-whole zero seen (entry k v es) q a = absurd (ground arith)
  entries-whole zero seen (throwing k message es) q a = absurd (ground arith)
  entries-whole (suc n) seen no_entries q a = refl
  entries-whole (suc n) seen (entry k v es) q a =
      let (first, rest) = AllNew-append (numbers v) (numbers_in es) seen a in
      let met = met_after (numbers v) seen in
      ap
        (λ (r : Value × List ℕ).
          (field k r.0 (map_entries f n r.1 es).0, (map_entries f n r.1 es).1))
        (h seen v (ground (arith, q)) first)
      ∙ ap (λ (r : Fields × List ℕ). (field k (whole v) r.0, r.1))
          (entries-whole n met es (ground (arith, q)) rest)
      ∙ ap (λ m. (field k (whole v) (whole_entries es), m))
          (sym (met_after-append (numbers v) (numbers_in es) seen))
  entries-whole (suc n) seen (throwing k message es) q a =
      ap
        (λ (r : Fields × List ℕ).
          (field k (string ("[error serializing: " <> message <> "]")) r.0, r.1))
        (entries-whole n seen es q a)

serialized :
    (depth : ℕ) (seen : List ℕ) (v : Node)
    → nests depth v ≡ true
    → AllNew seen (numbers v)
    → safe_serialize (suc depth) seen v ≡ (whole v, met_after (numbers v) seen)
unfolding safe_serialize numbers whole met_after
serialized zero seen (list i vs) q a = absurd (ground arith)
serialized zero seen (dictionary i es) q a = absurd (ground arith)
serialized (suc depth) seen (list i vs) q (new, a) =
    if-false (any (nat_eq i) seen) _ _ new
    ∙ ap (λ (r : Values × List ℕ). (array r.0, r.1))
        (items-whole (safe_serialize (suc depth)) (nests depth) (serialized depth) 20 (i ∷ seen) vs
          q a)
serialized (suc depth) seen (dictionary i es) q (new, a) =
    if-false (any (nat_eq i) seen) _ _ new
    ∙ ap (λ (r : Fields × List ℕ). (object r.0, r.1))
        (entries-whole (safe_serialize (suc depth)) (nests depth) (serialized depth) 20 (i ∷ seen)
          es q a)
serialized depth seen (plain p) q a = refl
serialized depth seen (error name message stack) q a = refl
serialized depth seen (function name) q a = refl
serialized depth seen (symbol s) q a = refl

-- A value that nests at most `depth` deep, with at most 20 entries in each array and object, and in
-- which no array or object occurs twice, is serialised whole when a depth of one more is asked for: an
-- array or object holds the serialisations of all its entries in their order, and only errors,
-- functions, symbols, big integers and getters that throw are replaced, by their descriptions.
pub safe_serialize-whole :
    (depth : ℕ) (v : Node)
    → nests depth v ≡ true
    → AllNew [] (numbers v)
    → (safe_serialize (suc depth) [] v).0 ≡ whole v
safe_serialize-whole depth v q a = ap (λ (r : Value × List ℕ). r.0) (serialized depth [] v q a)
