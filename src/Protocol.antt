-- ===== src/Protocol.antt =====
-- src/types.ts: the events of the wire. A union of string literals is a text here, since what
-- comes over the wire is not checked against the union. A message is its UTF-16 code units.
use Prim.Native.Nat.{◌%◌, ◌/◌}
use Prim.Native.Char.{code}
use code_bridge.Base.{ℕ, ◌+◌, ◌-◌, String, Bool, Option, List, [], ◌∷◌, ltb, if◌then◌else◌}
use code_bridge.Js.Value.{Values}

abbrev pub Text : Type 0
Text = List ℕ

-- One unit, or a surrogate pair above U+FFFF.
abbrev units : ℕ → List ℕ → List ℕ
units c rest =
    if ltb c 0x10000
    then c ∷ rest
    else (0xd800 + (c - 0x10000) / 1024) ∷ (0xdc00 + (c - 0x10000) % 1024) ∷ rest

abbrev pub utf16 : String → Text
utf16 String.[] = []
utf16 (String.◌∷◌ c s) = units (code c) (utf16 s)

pub record NetworkInfo : Type 0 where
  pub request_id : String
  pub url : String
  pub method : String
  pub status : Option ℕ
  pub ok : Option Bool
  pub duration_ms : Option ℕ
  pub request_size : Option ℕ
  pub response_size : Option ℕ
  pub transport : Option String
  pub error_message : Option String

pub record NavigationInfo : Type 0 where
  pub from : Option String
  pub to : String
  pub route : Option String
  pub initiator : String

pub record Breadcrumb : Type 0 where
  pub timestamp : ℕ
  pub level : String
  pub message : Text

pub record BridgeEvent : Type 0 where
  pub type : String
  pub level : String
  pub message : Text
  pub stack : Option String
  pub timestamp : ℕ
  pub platform : String
  pub project_id : Option String
  pub breadcrumbs : Option (List Breadcrumb)
  pub url : Option String
  pub route : Option String
  pub mime : Option String
  pub body : Option String
  pub args : Option Values
  pub navigation : Option NavigationInfo
  pub network : Option NetworkInfo

-- An event with nothing but its type, level, message and time.
abbrev pub plain : String → String → Text → ℕ → BridgeEvent
plain type level message timestamp = record {
  type = type;
  level = level;
  message = message;
  stack = Option.none;
  timestamp = timestamp;
  platform = "node";
  project_id = Option.none;
  breadcrumbs = Option.none;
  url = Option.none;
  route = Option.none;
  mime = Option.none;
  body = Option.none;
  args = Option.none;
  navigation = Option.none;
  network = Option.none;
}
