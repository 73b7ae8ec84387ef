-- ===== src/Usage.antt =====
-- internal/usage/usage.go and usage_cache.go: `ReadUsage` with its cache, and `ReadAllUsage`.
-- A log is its bytes. Parameters, in `Env`: the floating-point sums, `json.Unmarshal` of one line
-- with `none` for an error, and `strings.ToLower`; `amount n p` is `float64(n) / 1_000_000` times a
-- price of `p` hundredths. `line_bound` is the buffer that the scanner is given, 10 MB: at the first
-- line that is not shorter it gives up, and its error is ignored.
pub mod Lines
pub mod Resume
pub mod Halves
mod Examples
use Prim.Native.String.{◌++◌}
use mathlib.Core.List.{foldl}
use agent_dashboard.Common.{
  ℕ, ◌+◌, String, Bool, true, false, ◌&&◌, ◌||◌, Option, none, some, List, [], ◌∷◌, map, drop,
  length, str_eq, is_empty, non_empty, ltb, ◌==◌, if◌then◌else◌,
}
use agent_dashboard.Common.Dict.{lookup, insert}
use agent_dashboard.Domain.{Agent}
use agent_dashboard.Harness.Input.{contains}

-- internal/domain/types.go: `Usage`, with the money in `F`.
pub record Usage (F : Type 0) : Type 0 where
  pub input_tokens : ℕ
  pub output_tokens : ℕ
  pub cache_read_tokens : ℕ
  pub cache_write_tokens : ℕ
  pub cost_usd : F
  pub model : String

-- `ModelPricing`, in hundredths of a dollar for a million tokens.
pub record ModelPricing : Type 0 where
  pub input : ℕ
  pub output : ℕ
  pub cache_read : ℕ
  pub cache_write : ℕ

pub record UsageEntry : Type 0 where
  pub id : String
  pub model : String
  pub input_tokens : ℕ
  pub output_tokens : ℕ
  pub cache_read_input_tokens : ℕ
  pub cache_creation_input_tokens : ℕ

pub record Env (F : Type 0) : Type 0 where
  pub free : F
  pub plus : F → F → F
  pub amount : ℕ → ℕ → F
  pub to_lower : String → String
  pub parse_line : List ℕ → Option UsageEntry
  pub line_bound : ℕ

abbrev pub opus_pricing : ModelPricing
opus_pricing = record { input = 1500; output = 7500; cache_read = 150; cache_write = 1875 }

abbrev pub sonnet_pricing : ModelPricing
sonnet_pricing = record { input = 300; output = 1500; cache_read = 30; cache_write = 375 }

abbrev pub haiku_pricing : ModelPricing
haiku_pricing = record { input = 80; output = 400; cache_read = 8; cache_write = 100 }

-- The range over `pricingTable`, in one order; the order matters for a name with two keys only.
unfoldable pub lookup_pricing : (String → String) → String → ModelPricing
lookup_pricing to_lower model =
    if contains (to_lower model) "opus"
    then opus_pricing
    else if contains (to_lower model) "sonnet"
    then sonnet_pricing
    else if contains (to_lower model) "haiku"
    then haiku_pricing
    else sonnet_pricing

-- `bufio.ScanLines`: the tokens of a text without their newlines.
abbrev pub prepend : ℕ → List (List ℕ) → List (List ℕ)
prepend c [] = (c ∷ []) ∷ []
prepend c (l ∷ ls) = (c ∷ l) ∷ ls

unfoldable pub split_lines : List ℕ → List (List ℕ)
split_lines [] = []
split_lines (c ∷ s) = let rest = split_lines s in if c == b'\n' then [] ∷ rest else prepend c rest

unfoldable pub drop_cr : List ℕ → List ℕ
drop_cr [] = []
drop_cr (c ∷ []) = if c == b'\r' then [] else c ∷ []
drop_cr (c ∷ d ∷ s) = c ∷ drop_cr (d ∷ s)

-- The lines that are shorter than the scanner's bound, up to the first that is not: there
-- `bufio.Scanner` gives up.
unfoldable pub short_lines : ℕ → List (List ℕ) → List (List ℕ)
short_lines bound [] = []
short_lines bound (l ∷ ls) =
    let rest = short_lines bound ls in if ltb (length l) bound then l ∷ rest else []

unfoldable pub mem_string : String → List String → Bool
mem_string x [] = false
mem_string x (y ∷ ys) = let rest = mem_string x ys in if str_eq y x then true else rest

pub data Hit {ℓ} (A : Type ℓ) : Type ℓ where
  miss : Hit A
  full : A → Hit A
  resume : A → Hit A

pub record Scan (F : Type 0) : Type 0 where
  pub usage : Usage F
  pub seen_ids : List String

-- `usageCacheEntry`; `mtime` in any unit.
pub record Entry (F : Type 0) : Type 0 where
  pub usage : Usage F
  pub seen_ids : List String
  pub offset : ℕ
  pub size : ℕ
  pub mtime : ℕ

abbrev pub Cache : Type 0 → Type 0
Cache F = List (String × Entry F)

-- One call sees the size and the time that `stat` gave, then the bytes that it reads, and whether
-- the file can be sought to the offset, or else back to its start.
pub record Look : Type 0 where
  pub stat : Option (ℕ × ℕ)
  pub opened : Option (List ℕ)
  pub seekable : Bool
  pub rewindable : Bool

module _ {F : Type 0} where
  unfoldable pub get : Cache F → String → ℕ → ℕ → Hit (Entry F)
  get c key size mtime = elim (lookup key c) [
    | none ↦ miss
    | some e ↦
        if ltb size e.size
        then miss
        else if size == e.size
        then (if e.mtime == mtime then full e else miss)
        else resume e
  ]

module _ {F : Type 0} (env : Env F) where
  unfoldable pub add_cost : UsageEntry → F → F
  unfolding lookup_pricing
  add_cost e cost =
      let p = lookup_pricing env.to_lower e.model in
      env.plus
        (env.plus
          (env.plus (env.plus cost (env.amount e.input_tokens p.input))
            (env.amount e.output_tokens p.output))
          (env.amount e.cache_read_input_tokens p.cache_read))
        (env.amount e.cache_creation_input_tokens p.cache_write)

  unfoldable pub add_entry : UsageEntry → Usage F → Usage F
  add_entry e u = record {
    input_tokens = u.input_tokens + e.input_tokens;
    output_tokens = u.output_tokens + e.output_tokens;
    cache_read_tokens = u.cache_read_tokens + e.cache_read_input_tokens;
    cache_write_tokens = u.cache_write_tokens + e.cache_creation_input_tokens;
    cost_usd = if non_empty e.model then add_cost e u.cost_usd else u.cost_usd;
    model = if non_empty e.model then e.model else u.model;
  }

  abbrev pub no_usage : Usage F
  no_usage = record {
    input_tokens = 0;
    output_tokens = 0;
    cache_read_tokens = 0;
    cache_write_tokens = 0;
    cost_usd = env.free;
    model = "";
  }

  abbrev pub start : Scan F
  start = record { usage = no_usage; seen_ids = [] }

  -- The part of the loop after the line is read.
  unfoldable pub count_entry : Scan F → UsageEntry → Scan F
  count_entry s e =
      if e.input_tokens == 0 && e.output_tokens == 0
      then s
      else if is_empty e.id
      then record s { usage = add_entry e s.usage }
      else if mem_string e.id s.seen_ids
      then s
      else record { usage = add_entry e s.usage; seen_ids = e.id ∷ s.seen_ids }

  unfoldable pub scan_line : Scan F → List ℕ → Scan F
  scan_line s [] = s
  scan_line s (c ∷ line) = elim (env.parse_line (c ∷ line)) [ none ↦ s | some e ↦ count_entry s e ]

  -- The scanner's loop.
  unfoldable pub scan : Scan F → List ℕ → Scan F
  unfolding short_lines
  scan s bytes = foldl scan_line s (map drop_cr (short_lines env.line_bound (split_lines bytes)))

  -- What the call scans: the counts to start from, and the bytes; `none` if no seek succeeds.
  unfoldable pub starting : Hit (Entry F) → Look → List ℕ → Option (Scan F × List ℕ)
  starting (resume e) look bytes =
      if look.seekable
      then some (record { usage = e.usage; seen_ids = e.seen_ids }, drop e.offset bytes)
      else if look.rewindable
      then some (start, bytes)
      else none
  starting (full e) look bytes = some (start, bytes)
  starting miss look bytes = some (start, bytes)

  unfoldable pub rescan : String → ℕ → ℕ → Hit (Entry F) → Look → Cache F → Usage F × Cache F
  rescan key size mtime hit look c = elim look.opened [
    | none ↦ (no_usage, c)
    | some bytes ↦ elim (starting hit look bytes) [
      | none ↦ (no_usage, c)
      | some (s, rest) ↦
          let t = scan s rest in
          let entry : Entry F = record {
            usage = t.usage;
            seen_ids = t.seen_ids;
            offset = size;
            size = size;
            mtime = mtime;
          } in
          (t.usage, insert key entry c)
    ]
  ]

  unfoldable pub read_usage : String → Look → Cache F → Usage F × Cache F
  read_usage key look c = elim look.stat [
    | none ↦ (no_usage, c)
    | some (size, mtime) ↦ elim (get c key size mtime) [
      | full e ↦ (e.usage, c)
      | miss ↦ rescan key size mtime miss look c
      | resume e ↦ rescan key size mtime (resume e) look c
    ]
  ]

  unfoldable pub add_total : Usage F → Usage F → Usage F
  add_total total u = record total {
    input_tokens = total.input_tokens + u.input_tokens;
    output_tokens = total.output_tokens + u.output_tokens;
    cache_read_tokens = total.cache_read_tokens + u.cache_read_tokens;
    cache_write_tokens = total.cache_write_tokens + u.cache_write_tokens;
    cost_usd = env.plus total.cost_usd u.cost_usd;
  }

  -- `files` says what each call sees of the log of a directory and a session.
  unfoldable pub read_all_from :
      (String → String → Look)
      → List Agent
      → List (String × Usage F)
      → Usage F
      → Cache F
      → (List (String × Usage F) × Usage F) × Cache F
  read_all_from files [] per_agent total c = ((per_agent, total), c)
  read_all_from files (a ∷ agents) per_agent total c =
      let skipped = read_all_from files agents per_agent total c in
      let (u, c') =
        read_usage (a.proj_dir ++ (":" ++ a.session_id)) (files a.proj_dir a.session_id) c in
      let counted =
        read_all_from files agents (insert a.target u per_agent) (add_total total u) c' in
      if is_empty a.proj_dir || is_empty a.session_id then skipped else counted

  unfoldable pub read_all_usage :
      (String → String → Look)
      → List Agent
      → Cache F
      → (List (String × Usage F) × Usage F) × Cache F
  unfolding read_all_from
  read_all_usage files agents c = read_all_from files agents [] no_usage c
