-- ===== src/Memory/Jsonl.antt =====
-- What reading a log file comes to, with malformed lines skipped or not.
use tekbreed_oss.Prelude.{
  ℕ, suc, ◌+◌, String, ◌≡◌, refl, Option, some, none, List, [], ◌∷◌, ◌==◌, arith, if◌then◌else◌,
  length, inl, inr, Bool-cases, Option-cases,
}
use tekbreed_oss.Prelude.Json.{Json}
use tekbreed_oss.Prelude.Result.{Result, ok, throw}
use tekbreed_oss.Memory.Records.{
  JsonlParseIssue, ParseJsonlResult, MalformedJsonlMode, parse_lines, parse_jsonl, and_then,
}

module _ (split : String → List String) (trim : String → String) (json_parse : String → Option Json)
    {T : Type 0} (validate : Json → Option T) where
  -- The values of the lines that are not blank, and how many these are.
  abbrev pub values : List String → List T
  values [] = []
  values (raw ∷ lines) =
      let rest = values lines in
      if trim raw == ""
      then rest
      else elim (and_then (json_parse (trim raw)) validate) [ none ↦ rest | some v ↦ v ∷ rest ]

  abbrev pub filled : List String → ℕ
  filled [] = 0
  filled (raw ∷ lines) = let rest = filled lines in if trim raw == "" then rest else suc rest

  -- What a caller that skips no line makes of a reading that skips.
  abbrev pub strict :
      Result JsonlParseIssue (ParseJsonlResult T) → Result JsonlParseIssue (ParseJsonlResult T)
  strict (throw issue) = throw issue
  strict (ok r) = elim r.issues [ [] ↦ ok r | issue ∷ later ↦ throw issue ]

  abbrev Skips : List String → ℕ → Type 0
  Skips lines n =
      (r : ParseJsonlResult T) × (parse_lines split trim json_parse validate MalformedJsonlMode.skip
          n lines
        ≡ ok r)
      × (r.entries ≡ values lines)
      × (length r.entries + length r.issues ≡ filled lines)
      × (parse_lines split trim json_parse validate MalformedJsonlMode.throws n lines
          ≡ strict (ok r))

  parse_lines-Skips : (lines : List String) (n : ℕ) → Skips lines n
  unfolding parse_lines
  parse_lines-Skips [] n = (record { entries = []; issues = [] }, refl, refl, refl, refl)
  parse_lines-Skips (raw ∷ lines) n =
      let (r, returns, same, count, agrees) = parse_lines-Skips lines (suc n) in
      elim (Bool-cases (trim raw == "")) [
        | inl e ↦ (
          r,
          ground (arith, returns),
          ground (arith, same),
          ground (arith, count),
          ground (arith, agrees),
        )
        | inr e ↦ elim (Option-cases (and_then (json_parse (trim raw)) validate)) [
          | inr (v, d) ↦ (
            record r { entries = v ∷ r.entries },
            ground (arith, returns, d),
            ground (arith, same, d),
            ground (arith, count, d),
            ground (arith, agrees, d),
          )
          | inl d ↦ (
            record r { issues = record { line_number = n; line = trim raw } ∷ r.issues },
            ground (arith, returns, d),
            ground (arith, same, d),
            ground (arith, count, d),
            ground (arith, agrees, d),
          )
        ]
      ]

  -- parseJsonl that skips malformed lines returns: its entries are the values of the lines that
  -- are not blank, parse and pass the validator, in order, and every other line that is not blank
  -- gives one issue. parseJsonl that does not skip returns the same if there are no issues, and
  -- otherwise throws the first of them.
  pub parse_jsonl_lem :
      (content : String)
      → (r : ParseJsonlResult T) × (parse_jsonl split trim json_parse validate
            MalformedJsonlMode.skip content
          ≡ ok r)
        × (r.entries ≡ values (split content))
        × (length r.entries + length r.issues ≡ filled (split content))
        × (parse_jsonl split trim json_parse validate MalformedJsonlMode.throws content
            ≡ strict (ok r))
  unfolding parse_jsonl
  parse_jsonl_lem content = parse_lines-Skips (split content) 1
