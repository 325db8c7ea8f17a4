-- ===== src/Js/Spread.antt =====
-- `{ ...v }`: the own fields of a value. The places of a text are those of its code points.
use Prim.Native.String.{[], ◌∷◌}
use code_bridge.Base.{ℕ, suc, String}
use code_bridge.Js.Value.{Value, Values, Fields, string, array, object, nil, cons, end, field}
use code_bridge.Js.Print.{decimal}

-- The entries of an array by their places.
unfoldable pub spread_array : ℕ → Values → Fields
spread_array n nil = end
spread_array n (cons v vs) = field (decimal n) v (spread_array (suc n) vs)

-- The letters of a text by their places.
unfoldable pub spread_text : ℕ → String → Fields
spread_text n [] = end
spread_text n (c ∷ s) = field (decimal n) (string (c ∷ [])) (spread_text (suc n) s)

-- `{ ...v }`
unfoldable pub spread : Value → Value
spread (object fs) = object fs
spread (array vs) = object (spread_array 0 vs)
spread (string s) = object (spread_text 0 s)
spread v = object end
