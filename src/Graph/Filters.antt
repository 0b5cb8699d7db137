-- ===== src/Graph/Filters.antt =====
-- packages/tekmemo/src/graph/utils/time.ts, and the tests that neighbors makes of an edge and of a
-- node. `date_of` gives the time of `new Date(value)`, none where it is NaN; `clock` is the time of
-- `new Date()`.
use tekbreed_oss.Prelude.{
  ℕ, String, Bool, true, false, not, Option, none, some, List, [], ◌∷◌, ◌==◌, leb, ltb, eqb,
  if◌then◌else◌, includes,
}
use tekbreed_oss.Prelude.Floats.{Floats}
use tekbreed_oss.Prelude.Number.{JsNumber, pos}
use tekbreed_oss.Prelude.Result.{Result, ok, throw, ◌>>=◌}
use tekbreed_oss.Graph.{GraphError, invalid}

pub data GraphFactStatus : Type 0 where
  active deprecated conflicted deleted : GraphFactStatus

-- TemporalRecord, of a stored node or edge
pub record TemporalRecord : Type 0 where
  pub status : GraphFactStatus
  pub valid_from : Option String
  pub valid_until : Option String
  pub expires_at : Option String

abbrev pub same_status : GraphFactStatus → GraphFactStatus → Bool
same_status active active = true
same_status deprecated deprecated = true
same_status conflicted conflicted = true
same_status deleted deleted = true
same_status s t = false

-- isInactive
unfoldable pub is_inactive : TemporalRecord → Bool
is_inactive r = not (same_status r.status active)

module _ (date_of : String → Option ℕ) (clock : ℕ) where
  -- toDate, on a text
  unfoldable pub to_date : String → String → Result GraphError ℕ
  to_date value field = elim (date_of value) [ none ↦ throw (invalid field) | some t ↦ ok t ]

  -- `toDate(nowInput, "now") ?? new Date()`
  abbrev now_date : Option String → Result GraphError ℕ
  now_date none = ok clock
  now_date (some value) = to_date value "now"

  -- `value && test(toDate(value, field))`, where no value and an empty one fail the test
  abbrev date_passes : Option String → String → (ℕ → Bool) → Result GraphError Bool
  date_passes none field test = ok false
  date_passes (some value) field test =
      if value == "" then ok false else (do t ← to_date value field; ok (test t))

  -- isExpired: the first of the three tests that holds ends it
  unfoldable pub is_expired : TemporalRecord → Option String → Result GraphError Bool
  is_expired r now_input = do
    now ← now_date now_input
    expired ← date_passes r.expires_at "expiresAt" (λ t. leb t now)
    if expired then ok true else (do
      early ← date_passes r.valid_from "validFrom" (λ t. ltb now t)
      if early then ok true else date_passes r.valid_until "validUntil" (λ t. leb t now))

  -- `!includeExpired && isExpired(record, now)`
  abbrev pub expired_out : Bool → TemporalRecord → Option String → Result GraphError Bool
  expired_out true r now = ok false
  expired_out false r now = is_expired r now

-- validateLimit
unfoldable pub validate_limit : Option JsNumber → ℕ → ℕ → Result GraphError ℕ
validate_limit none default max = ok default
validate_limit (some (pos n)) default max =
    if eqb n 0 then throw (invalid "limit") else if ltb max n then throw (invalid "limit") else ok n
validate_limit (some _) default max = throw (invalid "limit")

-- validateDepth
unfoldable pub validate_depth : Option JsNumber → ℕ → ℕ → Result GraphError ℕ
validate_depth none default max = ok default
validate_depth (some (pos n)) default max = if ltb max n then throw (invalid "depth") else ok n
validate_depth (some _) default max = throw (invalid "depth")

abbrev has_status : List GraphFactStatus → GraphFactStatus → Bool
has_status [] s = false
has_status (t ∷ ts) s = if same_status t s then true else has_status ts s

-- `types && !types.has(type)`, and the same with the statuses and the least weight
abbrev pub type_out : Option (List String) → String → Bool
type_out none type = false
type_out (some types) type = not (includes types type)

abbrev pub status_out : Option (List GraphFactStatus) → GraphFactStatus → Bool
status_out none s = false
status_out (some statuses) s = not (has_status statuses s)

abbrev pub weight_out : (F : Floats) → Option F.Float → F.Float → Bool
weight_out F none weight = false
weight_out F (some least) weight = F.lt weight least
