-- ===== src/HostUtils/Hierarchy.antt =====
-- The level hierarchy of docs/subscriptions.md against `subscriptionIncludesLevel`.
use code_bridge.Base.{ℕ, String, List, [], ◌∷◌, ◌==◌, leb, if◌then◌else◌}
use code_bridge.Js.Text.{to_lower_case}

-- The place of a subscription level: errors < warn < info < trace; 0 is no level at all.
unfoldable pub rank : String → ℕ
rank level =
    if level == "errors"
    then 1
    else if level == "warn"
    then 2
    else if level == "info"
    then 3
    else if level == "trace"
    then 4
    else 0

-- The place that an event of a log level needs.
unfoldable pub needed : String → ℕ
needed log_level =
    if log_level == "error"
    then 1
    else if log_level == "warn"
    then 2
    else if log_level == "debug"
    then 4
    else 3

abbrev larger : ℕ → ℕ → ℕ
larger a b = if leb a b then b else a

-- The highest level that a subscription names, in any spelling of its letters.
unfoldable pub highest : List String → ℕ
highest [] = 0
highest (l ∷ ls) = larger (rank (to_lower_case l)) (highest ls)
