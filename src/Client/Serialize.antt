-- ===== src/Client/Serialize.antt =====
-- `safeSerialize` of src/client.ts. Each array and object has a number, its identity: a node with a
-- number that was met before is another occurrence of the same array or object, and what stands below
-- it there is never read, so that a cycle is a node whose second occurrence is cut off anywhere.
pub mod Whole
use Prim.Native.String.{◌++◌ as ◌<>◌}
use code_bridge.Base.{
  arith, ℕ, zero, suc, ◌≡◌, refl, String, Bool, true, false, ◌&&◌, ◌==◌, Option, none, some, List,
  [], ◌∷◌, any, nat_eq, if◌then◌else◌, Bool-cases, inl, inr,
}
use code_bridge.Js.Value.{
  Value, Values, Fields, Number, undefined, null, bool, number, string, array, object, nil, cons,
  end, field,
}

-- null, undefined, a truth value, a number or a text
pub data Plain : Type 0 where
  missing nothing : Plain
  flag : Bool → Plain
  amount : Number → Plain
  text : String → Plain

abbrev pub value_of : Plain → Value
value_of missing = undefined
value_of nothing = null
value_of (flag b) = bool b
value_of (amount n) = number n
value_of (text s) = string s

mutual
  pub data Node : Type 0 where
    plain : Plain → Node
    -- an Error with its name, its message and its stack
    error : String → String → Plain → Node
    -- a function with its name, and a symbol or a big integer with its text
    function symbol : String → Node
    list : ℕ → Nodes → Node
    dictionary : ℕ → Entries → Node

  pub data Nodes : Type 0 where
    no_items : Nodes
    item : Node → Nodes → Nodes

  -- The own keys of an object; the getter of a key may throw an error with a message.
  pub data Entries : Type 0 where
    no_entries : Entries
    entry : String → Node → Entries → Entries
    throwing : String → String → Entries → Entries

-- A node and the numbers that were met, to a value and the numbers that are met then.
abbrev pub Serializer : Type 0
Serializer = List ℕ → Node → Value × List ℕ

-- `value.slice(0, n).map((item) => safeSerialize(item, depth - 1, seen))`
unfoldable pub map_items : Serializer → ℕ → List ℕ → Nodes → Values × List ℕ
map_items f zero seen vs = (nil, seen)
map_items f (suc n) seen no_items = (nil, seen)
map_items f (suc n) seen (item v vs) =
    let (w, met) = f seen v in let (ws, all_met) = map_items f n met vs in (cons w ws, all_met)

-- The loop over the first n keys.
unfoldable pub map_entries : Serializer → ℕ → List ℕ → Entries → Fields × List ℕ
map_entries f zero seen es = (end, seen)
map_entries f (suc n) seen no_entries = (end, seen)
map_entries f (suc n) seen (entry k v es) =
    let (w, met) = f seen v in let (fs, all_met) = map_entries f n met es in (field k w fs, all_met)
map_entries f (suc n) seen (throwing k message es) =
    let (fs, all_met) = map_entries f n seen es in
    (field k (string ("[error serializing: " <> message <> "]")) fs, all_met)

abbrev pub error_object : String → String → Plain → Value
error_object name message stack = object (
    field "name" (string name)
      (field "message" (string message) (field "stack" (value_of stack) end)))

-- `value.name || 'anonymous'`
abbrev pub name_shown : String → String
name_shown s = if s == "" then "anonymous" else s

unfoldable pub safe_serialize : ℕ → Serializer
safe_serialize zero seen v = (string "[depth limit]", seen)
safe_serialize (suc depth) seen (plain p) = (value_of p, seen)
safe_serialize (suc depth) seen (error name message stack) = (error_object name message stack, seen)
safe_serialize (suc depth) seen (function name) =
    (string ("[function " <> name_shown name <> "]"), seen)
safe_serialize (suc depth) seen (symbol s) = (string s, seen)
safe_serialize (suc depth) seen (list i vs) =
    let (ws, met) = map_items (safe_serialize depth) 20 (i ∷ seen) vs in
    if any (nat_eq i) seen then (string "[circular]", seen) else (array ws, met)
safe_serialize (suc depth) seen (dictionary i es) =
    let (fs, met) = map_entries (safe_serialize depth) 20 (i ∷ seen) es in
    if any (nat_eq i) seen then (string "[circular]", seen) else (object fs, met)

-- At most n entries, each of them with the property p.
abbrev pub few_values : (Value → Bool) → ℕ → Values → Bool
few_values p n nil = true
few_values p zero (cons v vs) = false
few_values p (suc n) (cons v vs) = p v && few_values p n vs

abbrev pub few_fields : (Value → Bool) → ℕ → Fields → Bool
few_fields p n end = true
few_fields p zero (field k v fs) = false
few_fields p (suc n) (field k v fs) = p v && few_fields p n fs

-- Arrays and objects nest at most `depth` deep, and have at most 20 entries each.
abbrev pub fits : ℕ → Value → Bool
fits zero (array vs) = false
fits zero (object fs) = false
fits (suc depth) (array vs) = few_values (fits depth) 20 vs
fits (suc depth) (object fs) = few_fields (fits depth) 20 fs
fits depth v = true

module _ (f : Serializer) (p : Value → Bool) (texts : (s : String) → p (string s) ≡ true)
    (h : (seen : List ℕ) (v : Node) → p (f seen v).0 ≡ true) where
  few-map_items :
      (n : ℕ) (seen : List ℕ) (vs : Nodes) → few_values p n (map_items f n seen vs).0 ≡ true
  unfolding map_items
  few-map_items zero seen vs = refl
  few-map_items (suc n) seen no_items = refl
  few-map_items (suc n) seen (item v vs) = ground (arith, h seen v, few-map_items n (f seen v).1 vs)

  few-map_entries :
      (n : ℕ) (seen : List ℕ) (es : Entries) → few_fields p n (map_entries f n seen es).0 ≡ true
  unfolding map_entries
  few-map_entries zero seen es = refl
  few-map_entries (suc n) seen no_entries = refl
  few-map_entries (suc n) seen (entry k v es) =
      ground (arith, h seen v, few-map_entries n (f seen v).1 es)
  few-map_entries (suc n) seen (throwing k message es) =
      ground (arith, texts ("[error serializing: " <> message <> "]"), few-map_entries n seen es)

fits-text : (depth : ℕ) (s : String) → fits depth (string s) ≡ true
fits-text zero s = refl
fits-text (suc depth) s = refl

fits-plain : (depth : ℕ) (p : Plain) → fits depth (value_of p) ≡ true
fits-plain zero missing = refl
fits-plain zero nothing = refl
fits-plain zero (flag b) = refl
fits-plain zero (amount n) = refl
fits-plain zero (text s) = refl
fits-plain (suc depth) missing = refl
fits-plain (suc depth) nothing = refl
fits-plain (suc depth) (flag b) = refl
fits-plain (suc depth) (amount n) = refl
fits-plain (suc depth) (text s) = refl

-- For every node, also one that stands below itself, and whatever numbers were met, the serialised
-- value nests at most as deep as the depth asked for, and no array or object in it has more than 20
-- entries.
pub safe_serialize-fits :
    (depth : ℕ) (seen : List ℕ) (v : Node) → fits depth (safe_serialize depth seen v).0 ≡ true
unfolding safe_serialize
safe_serialize-fits zero seen v = refl
safe_serialize-fits (suc depth) seen (plain p) = fits-plain (suc depth) p
safe_serialize-fits (suc depth) seen (error name message stack) =
    ground (arith, fits-text depth name, fits-text depth message, fits-plain depth stack)
safe_serialize-fits (suc depth) seen (function name) = refl
safe_serialize-fits (suc depth) seen (symbol s) = refl
safe_serialize-fits (suc depth) seen (list i vs) =
    let few =
      few-map_items (safe_serialize depth) (fits depth) (fits-text depth)
        (safe_serialize-fits depth) 20 (i ∷ seen) vs in
    elim (Bool-cases (any (nat_eq i) seen)) [ inl e ↦ rw e refl | inr e ↦ rw e few ]
safe_serialize-fits (suc depth) seen (dictionary i es) =
    let few =
      few-map_entries (safe_serialize depth) (fits depth) (fits-text depth)
        (safe_serialize-fits depth) 20 (i ∷ seen) es in
    elim (Bool-cases (any (nat_eq i) seen)) [ inl e ↦ rw e refl | inr e ↦ rw e few ]
