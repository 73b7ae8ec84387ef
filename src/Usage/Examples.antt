-- ===== src/Usage/Examples.antt =====
-- The theorems on the token counts at concrete logs, with a toy reader of a line: two bytes are an
-- entry with these numbers of tokens, and every other line is an error.
use agent_dashboard.Common.{
  str_eq, ℕ, ◌+◌, ◌*◌, ◌≡◌, refl, inl, inr, true, false, Option, none, some, List, [], ◌∷◌, map,
  arith,
}
use agent_dashboard.Common.Dict.{lookup}
use agent_dashboard.Common.Text.{cut_prefix}
use agent_dashboard.Harness.Input.{contains}
use agent_dashboard.Usage.{
  short_lines, Env, UsageEntry, lookup_pricing, split_lines, drop_cr, add_cost, add_entry,
  count_entry, scan_line, scan,
}
use agent_dashboard.Usage.Lines.{full_scan}
use agent_dashboard.Usage.Resume.{Version, full_usage, read_versions, read_versions-full_scan}
use agent_dashboard.Usage.Halves.{half_written, completed, read_versions-half_line}

abbrev parse_pair : List ℕ → Option UsageEntry
parse_pair [] = none
parse_pair (i ∷ []) = none
parse_pair (i ∷ o ∷ []) = some (record {
  id = "";
  model = "claude-opus-4";
  input_tokens = i;
  output_tokens = o;
  cache_read_input_tokens = 0;
  cache_creation_input_tokens = 0;
})
parse_pair (i ∷ o ∷ c ∷ rest) = none

-- The cost in hundredths of a millionth.
abbrev toy : Env ℕ
toy = record {
  free = 0;
  plus = λ a b. a + b;
  amount = λ n p. n * p;
  to_lower = λ s. s;
  parse_line = parse_pair;
  line_bound = 100;
}

abbrev first : Version
first = record { content = 65 ∷ 66 ∷ 10 ∷ []; mtime = 1; seekable = true }

abbrev longer : Version
longer = record { content = 65 ∷ 66 ∷ 10 ∷ 67 ∷ 68 ∷ 10 ∷ []; mtime = 2; seekable = true }

abbrev truncated : Version
truncated = record { content = 70 ∷ 71 ∷ 10 ∷ []; mtime = 3; seekable = true }

abbrev rewritten : Version
rewritten = record { content = 72 ∷ 73 ∷ 10 ∷ []; mtime = 4; seekable = false }

cost_test : (full_usage toy longer).cost_usd ≡ 65 * 1500 + 66 * 7500 + 67 * 1500 + 68 * 7500
unfolding scan split_lines drop_cr scan_line count_entry add_entry add_cost lookup_pricing str_eq
    contains cut_prefix
cost_test = refl

read_versions-full_scan_example :
    read_versions toy "p:s" (first ∷ longer ∷ longer ∷ truncated ∷ rewritten ∷ []) []
    ≡ map (full_usage toy) (first ∷ longer ∷ longer ∷ truncated ∷ rewritten ∷ [])
unfolding lookup short_lines split_lines
read_versions-full_scan_example =
    read_versions-full_scan toy "p:s" first (longer ∷ longer ∷ truncated ∷ rewritten ∷ []) [] refl (
      inr (inl (refl, refl, 67 ∷ 68 ∷ 10 ∷ [], refl)),
      (
        inl (refl, refl),
        (inr (inr (inl (omega arith))), (inr (inr (inr (refl, omega arith))), tt)),
      ),
    )

read_versions-half_line_example :
    read_versions toy "p:s"
      (half_written (65 ∷ 66 ∷ 10 ∷ []) (67 ∷ []) 1
        ∷ completed (65 ∷ 66 ∷ 10 ∷ []) (67 ∷ []) (68 ∷ []) 2
        ∷ [])
      []
    ≡ (full_scan toy (65 ∷ 66 ∷ 10 ∷ [])).usage ∷ (full_scan toy (65 ∷ 66 ∷ 10 ∷ [])).usage ∷ []
unfolding lookup drop_cr
read_versions-half_line_example =
    read_versions-half_line toy "p:s" (65 ∷ 66 ∷ 10 ∷ []) (67 ∷ []) (68 ∷ []) 1 2 [] refl refl
      (refl, refl) (refl, refl)

-- The line that is lost has tokens.
whole_line_test :
    (full_usage toy (completed (65 ∷ 66 ∷ 10 ∷ []) (67 ∷ []) (68 ∷ []) 2)).input_tokens ≡ 65 + 67
unfolding scan split_lines drop_cr scan_line count_entry add_entry str_eq
whole_line_test = refl
