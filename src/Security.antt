-- ===== src/Security.antt =====
-- packages/tekmemo/src/security: the blocklist that every memory write passes, and the tier that
-- says whether a written memory steers retrieval. The match of a rule's pattern is a parameter,
-- as are the operations on texts and fractions.
use tekbreed_oss.Prelude.{
  ℕ, String, Bool, true, false, ◌&&◌, Option, none, some, List, [], ◌∷◌, ◌++◌, ◌==◌, ltb,
  if◌then◌else◌, includes,
}
use tekbreed_oss.Prelude.Floats.{Floats}
use tekbreed_oss.Prelude.Result.{Result, ok, throw}

-- The operations on texts; `slice s a b` is s.slice(a, b) and `last s` is s.slice(-1).
pub record Texts : Type 0 where
  pub length : String → ℕ
  pub slice : String → ℕ → ℕ → String
  pub last : String → String
  pub concat : String → String → String
  pub trim : String → String

-- `exec` is the first match of the pattern, match[0].
pub record BlocklistRule : Type 0 where
  pub id : String
  pub description : String
  pub exec : String → Option String

pub record BlocklistViolation : Type 0 where
  pub rule_id : String
  pub description : String
  pub preview : String

abbrev rule : (String → String → Option String) → String → String → BlocklistRule
rule exec id description = record { id = id; description = description; exec = exec id }

-- BLOCKLIST_RULES; `exec id text` matches the pattern of the rule with this id
abbrev pub blocklist_rules : (String → String → Option String) → List BlocklistRule
blocklist_rules exec =
    rule exec "aws_access_key_id" "AWS access key ID"
    ∷ rule exec "aws_secret_access_key" "AWS secret access key in assignment context"
    ∷ rule exec "github_token" "GitHub personal access / OAuth / app token"
    ∷ rule exec "openai_api_key" "OpenAI-style API key"
    ∷ rule exec "google_api_key" "Google API key"
    ∷ rule exec "slack_token" "Slack token"
    ∷ rule exec "stripe_key" "Stripe secret/restricted key"
    ∷ rule exec "private_key_block" "PEM private key block"
    ∷ rule exec "jwt_token" "JWT (three base64url segments)"
    ∷ rule exec "connection_string_credentials"
        "Connection string with embedded credentials (user:pass@host)"
    ∷ rule exec "secret_assignment" "Secret material in a key=value / key: value assignment"
    ∷ []

module _ (texts : Texts) where
  open texts use {length, slice, last, concat, trim}

  unfoldable pub redact : String → String
  redact match_ =
      if ltb (length match_) 5 then match_ else concat (concat (slice match_ 0 3) "…") (last match_)

  abbrev pub violation : BlocklistRule → String → BlocklistViolation
  violation r match_ = record {
    rule_id = r.id;
    description = r.description;
    preview = redact match_;
  }

  -- `match?.[0]`, where the empty text is no match
  abbrev pub matched : Option String → Option String
  matched none = none
  matched (some s) = if s == "" then none else some s

  -- the loop of detectBlockedContent, with the rules that have been seen
  unfoldable pub detect : String → List String → List BlocklistRule → List BlocklistViolation
  detect text seen [] = []
  detect text seen (r ∷ rules) =
      let skipped = detect text seen rules in
      let reported = detect text (r.id ∷ seen) rules in
      if includes seen r.id then skipped else elim (matched (r.exec text)) [
        | none ↦ skipped
        | some match_ ↦ violation r match_ ∷ reported
      ]

  unfoldable pub detect_blocked_content : List BlocklistRule → String → List BlocklistViolation
  unfolding detect
  detect_blocked_content rules text = if text == "" then [] else detect text [] rules

  -- the violations of all texts
  unfoldable pub violations_of : List BlocklistRule → List String → List BlocklistViolation
  violations_of rules [] = []
  violations_of rules (t ∷ ts) = detect_blocked_content rules t ++ violations_of rules ts

  -- assertWriteAllowed: the error thrown carries the violations
  unfoldable pub assert_write_allowed :
      List BlocklistRule → List String → Result (List BlocklistViolation) (Unit {0})
  unfolding violations_of
  assert_write_allowed rules written = elim (violations_of rules written) [
    | [] ↦ ok tt
    | v ∷ vs ↦ throw (v ∷ vs)
  ]

pub data DurabilityTier : Type 0 where
  durable transient : DurabilityTier

pub data DurabilityReason : Type 0 where
  explicit_override durable_kind transient_kind low_confidence : DurabilityReason
  low_signal_content default_durable : DurabilityReason

pub data MemoryKind : Type 0 where
  decision constraint goal preference reference summary note : MemoryKind

abbrev pub DurabilityDecision : Type 0
DurabilityDecision = DurabilityTier × DurabilityReason

-- DURABLE_KINDS
abbrev pub is_durable_kind : MemoryKind → Bool
is_durable_kind MemoryKind.summary = false
is_durable_kind MemoryKind.note = false
is_durable_kind _ = true

module _ (texts : Texts) (floats : Floats) where
  open floats use {Float, lt, div, finite, of_nat}

  -- TRANSIENT_CONFIDENCE_THRESHOLD, 0.4
  abbrev pub transient_confidence_threshold : Float
  transient_confidence_threshold = div (of_nat 4) (of_nat 10)

  abbrev pub transient_content_min_length : ℕ
  transient_content_min_length = 20

  abbrev pub is_low : Option Float → Bool
  is_low none = false
  is_low (some c) = finite c && lt c transient_confidence_threshold

  abbrev pub by_kind : Option MemoryKind → DurabilityDecision
  by_kind none = (DurabilityTier.durable, DurabilityReason.default_durable)
  by_kind (some k) =
      if is_durable_kind k
      then (DurabilityTier.durable, DurabilityReason.durable_kind)
      else (DurabilityTier.transient, DurabilityReason.transient_kind)

  unfoldable pub classify_durability :
      Option DurabilityTier → Option Float → String → Option MemoryKind → DurabilityDecision
  classify_durability (some tier) confidence content kind =
      (tier, DurabilityReason.explicit_override)
  classify_durability none confidence content kind =
      if is_low confidence
      then (DurabilityTier.transient, DurabilityReason.low_confidence)
      else if ltb (texts.length (texts.trim content)) transient_content_min_length
      then (DurabilityTier.transient, DurabilityReason.low_signal_content)
      else by_kind kind
