-- ===== src/Usage/Halves.antt =====
-- A line that a call sees half-written is lost: the call counts nothing for its first half, stores
-- the size of the file as the offset, and the next call starts in the middle of the line.
use agent_dashboard.Common.{
  length, ltb, inl, inr, Bool-cases, ℕ, String, length-append, ◌≡◌, refl, none, List, [], ◌∷◌, ◌++◌,
  true, ◌&&◌, not, Bool, ◌==◌, arith,
}
use agent_dashboard.Common.Dict.{lookup}
use agent_dashboard.Usage.{
  Env, split_lines, drop_cr, Scan, Cache, start, scan_line, scan, read_usage,
}
use agent_dashboard.Usage.Lines.{is_whole, full_scan, scan-append-idle}
use agent_dashboard.Usage.Resume.{read_usage-new, read_usage-seek, Version, look_at, read_versions}

-- No newline in it.
abbrev is_line_part : List ℕ → Bool
is_line_part [] = true
is_line_part (c ∷ s) = not (c == b'\n') && is_line_part s

part_split : (c : ℕ) (s : List ℕ) → is_line_part (c ∷ s) ≡ true → split_lines (c ∷ s) ≡ (c ∷ s) ∷ []
unfolding split_lines
part_split c [] h = ground arith
part_split c (d ∷ s) h = ground (arith, part_split d s)

line_split : (s : List ℕ) → is_line_part s ≡ true → split_lines (s ++ (b'\n' ∷ [])) ≡ s ∷ []
unfolding split_lines
line_split [] h = refl
line_split (c ∷ s) h = ground (arith, line_split s)

-- The log with half a line at its end, and then with the whole line.
abbrev pub half_written : List ℕ → List ℕ → ℕ → Version
half_written whole a m = record { content = whole ++ a; mtime = m; seekable = true }

abbrev pub completed : List ℕ → List ℕ → List ℕ → ℕ → Version
completed whole a b n = record {
  content = (whole ++ a) ++ (b ++ (b'\n' ∷ []));
  mtime = n;
  seekable = true;
}

module _ {F : Type 0} (env : Env F) where
  scan_line-none : (s : Scan F) (l : List ℕ) → env.parse_line l ≡ none → scan_line env s l ≡ s
  unfolding scan_line
  scan_line-none s [] h = refl
  scan_line-none s (c ∷ l) h = rw (h, scan_line) refl

  scan_part :
      (s : Scan F) (a : List ℕ)
      → is_line_part a ≡ true
      → env.parse_line (drop_cr a) ≡ none
      → scan env s a ≡ s
  unfolding scan split_lines
  scan_part s [] h p = refl
  scan_part s (c ∷ a) h p =
      rw (part_split c a h) (elim (Bool-cases (ltb (length (c ∷ a)) env.line_bound)) [
        | inl e ↦ rw e (scan_line-none s (drop_cr (c ∷ a)) p)
        | inr e ↦ rw e refl
      ])

  scan_rest :
      (s : Scan F) (b : List ℕ)
      → is_line_part b ≡ true
      → env.parse_line (drop_cr b) ≡ none
      → scan env s (b ++ (b'\n' ∷ [])) ≡ s
  unfolding scan
  scan_rest s b h p = rw (line_split b h) (elim (Bool-cases (ltb (length b) env.line_bound)) [
    | inl e ↦ rw e (scan_line-none s (drop_cr b) p)
    | inr e ↦ rw e refl
  ])

  -- A line that a call sees half-written, with halves that do not parse, is never counted: also
  -- when it is complete, the counts are those of the log without it.
  pub read_versions-half_line :
      (key : String) (whole a b : List ℕ) (m n : ℕ) (c : Cache F)
      → lookup key c ≡ none
      → is_whole whole ≡ true
      → (is_line_part a ≡ true) × (env.parse_line (drop_cr a) ≡ none)
      → (is_line_part b ≡ true) × (env.parse_line (drop_cr b) ≡ none)
      → read_versions env key (half_written whole a m ∷ completed whole a b n ∷ []) c
        ≡ (full_scan env whole).usage ∷ (full_scan env whole).usage ∷ []
  unfolding read_versions
  read_versions-half_line key whole a b m n c new h (pa, na) (pb, nb) =
      let v = half_written whole a m in
      let w = completed whole a b n in
      let (u, held) = read_usage-new env key v c new in
      let c' = (read_usage env key (look_at v) c).1 in
      let first : full_scan env (whole ++ a) ≡ full_scan env whole =
        scan-append-idle env (start env) whole a h (λ t. scan_part t a pa na) in
      let next =
        read_usage-seek env key v w (b ++ (b'\n' ∷ [])) c' held
          (omega
            (arith, length-append (whole ++ a) (b ++ (b'\n' ∷ [])), length-append b (b'\n' ∷ [])))
          refl refl in
      rw (u, next, first, scan_rest (full_scan env whole) b pb nb) refl
