-- ===== src/Orchestration/Envelope.antt =====
-- provider-response-envelope.js: what is kept of a provider's usage and citations. `finite` and `text`
-- of the source are applied to what comes before it stands here.
pub mod Listed
use magento2_chat_ai.Prelude.{
  ℕ, ◌+◌, ◌≤◌, ◌≡◌, refl, Bool, true, false, ◌&&◌, ◌||◌, not, Option, none, some, List, [], ◌∷◌,
  ◌++◌, any, length, max, ltb, leb, ◌==◌, if◌then◌else◌, Bool-cases, inl, inr, arith, ap, sym, ◌∙◌,
}
use magento2_chat_ai.Text.{Text, codes, text_eq, text_eq_iff, after_prefix, fold_case}

pub record Usage : Type 0 where
  pub input_tokens : ℕ
  pub output_tokens : ℕ
  pub total_tokens : ℕ
  pub cached_input_tokens : ℕ
  pub reasoning_tokens : ℕ

-- The numbers of a source, each `none` where none of its names is there.
pub record UsageSource : Type 0 where
  pub input : Option ℕ
  pub output : Option ℕ
  pub total : Option ℕ
  pub cached : Option ℕ
  pub reasoning : Option ℕ

unfoldable pub raise : ℕ → Option ℕ → ℕ
raise old none = old
raise old (some n) = max old n

unfoldable pub merge_provider_usage : Usage → UsageSource → Usage
unfolding raise
merge_provider_usage usage source =
    let input = raise usage.input_tokens source.input in
    let output = raise usage.output_tokens source.output in
    let total = raise usage.total_tokens source.total in
    record {
      input_tokens = input;
      output_tokens = output;
      total_tokens = if total == 0 && (ltb 0 input || ltb 0 output) then input + output else total;
      cached_input_tokens = raise usage.cached_input_tokens source.cached;
      reasoning_tokens = raise usage.reasoning_tokens source.reasoning;
    }

-- `MAX_CITATIONS`.
abbrev pub max_citations : ℕ
max_citations = 20

pub record Citation : Type 0 where
  pub url : Text
  pub title : Text
  pub snippet : Text

-- `/^https:\/\//i`.
unfoldable pub is_https : Text → Bool
unfolding after_prefix fold_case
is_https url = elim (after_prefix fold_case (codes "https://") url) [
  | none ↦ false
  | some rest ↦ true
]

unfoldable pub has_url : Text → List Citation → Bool
unfolding any text_eq
has_url url citations = any (λ (c : Citation). text_eq c.url url) citations

-- `for (const candidate of candidates)`.
unfoldable pub add_provider_citations : List Citation → List Citation → List Citation
unfolding is_https has_url
add_provider_citations citations [] = citations
add_provider_citations citations (c ∷ cs) =
    let skipped = add_provider_citations citations cs in
    let more = citations ++ c ∷ [] in
    let rest = add_provider_citations more cs in
    if not (is_https c.url) || has_url c.url citations
    then skipped
    else if leb max_citations (length more)
    then more
    else rest
