-- ===== src/Mcp/Mappers/Tally.antt =====
-- What the counts of `projectStats` are.
use code_bridge.Base.{
  arith, keep, length, ◌+◌, if◌then◌else◌, ◌==◌, ◌≡◌, Bool, List, ℕ, String, [], ◌∷◌, refl, eq_iff,
}
use code_bridge.Mcp.EventBuffer.{is_error, BufferedEvent}
use code_bridge.Mcp.Mappers.{statistics, Projection, project_stats, add_one, tally}

-- The count of a type, 0 if it has none.
abbrev pub count_of : String → List (String × ℕ) → ℕ
count_of t [] = 0
count_of t ((k, n) ∷ rest) = if k == t then n else count_of t rest

count_of-add_one :
    (t u : String) (counts : List (String × ℕ))
    → count_of t (add_one u counts) ≡ (if u == t then 1 else 0) + count_of t counts
unfolding add_one
count_of-add_one t u [] = ground arith
count_of-add_one t u ((k, n) ∷ rest) =
    ground (arith, eq_iff k u, eq_iff k t, eq_iff u t, count_of-add_one t u rest)

abbrev of_type : String → BufferedEvent → Bool
of_type t e = e.type == t

count_of-tally :
    (t : String) (es : List BufferedEvent) (counts : List (String × ℕ))
    → count_of t (tally es counts) ≡ length (keep (of_type t) es) + count_of t counts
unfolding tally
count_of-tally t [] counts = omega arith
count_of-tally t (e ∷ es) counts =
    ground (arith, count_of-tally t es (add_one e.type counts), count_of-add_one t e.type counts)

abbrev pub events_of_type : String → List BufferedEvent → ℕ
events_of_type t es = length (keep (of_type t) es)

-- The statistics of a list of events: its `total` is the number of events, its `errors` the number
-- of those of level `error`, and its `by_type` has for every type the number of events of that
-- type, 0 standing for a type that is missing.
pub project_stats-counts :
    (es : List BufferedEvent)
    → (p : Projection) × (project_stats es ≡ statistics p)
      × (p.total ≡ length es)
      × (p.errors ≡ length (keep is_error es))
      × ((t : String) → count_of t p.by_type ≡ events_of_type t es)
unfolding project_stats
project_stats-counts es = (_, refl, refl, refl, λ t. omega (arith, count_of-tally t es []))
