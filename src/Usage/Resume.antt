-- ===== src/Usage/Resume.antt =====
-- What the cache gives where a log grows by whole lines, shrinks or is replaced between calls.
use agent_dashboard.Usage.Lines.{AreShort, is_whole, full_scan, scan-append}
use mathlib.Core.List.{append-nil}
use agent_dashboard.Common.{
  ℕ, ◌<◌, String, ◌≡◌, ◌≢◌, refl, sym, ap, ◌∙◌, ◌⊎◌, inl, inr, Bool, true, none, some, List, [],
  ◌∷◌, ◌++◌, map, length, length-append, drop, drop-length-append, str_eq_refl, ltb, ◌==◌, arith,
  Bool-cases,
}
use agent_dashboard.Common.Dict.{lookup, insert, lookup-insert}
use agent_dashboard.Usage.{
  Usage, Env, miss, full, resume, Scan, Entry, Cache, Look, get, start, scan, starting, rescan,
  read_usage,
}

-- A state of the log, and whether the seek to an offset works on it; one back to the start does.
pub record Version : Type 0 where
  pub content : List ℕ
  pub mtime : ℕ
  pub seekable : Bool

-- What a call sees of a log that does not change while it is read.
abbrev pub look_at : Version → Look
look_at v = record {
  stat = some (length v.content, v.mtime);
  opened = some v.content;
  seekable = v.seekable;
  rewindable = true;
}

-- What can happen to a log between two calls: nothing; more bytes after a whole log whose lines are
-- all shorter than the scanner's bound; a truncation; or a new content of the same size, with a new
-- time.
abbrev pub Evolves : ℕ → Version → Version → Type 0
Evolves bound v w =
    ((w.content ≡ v.content) × (w.mtime ≡ v.mtime))
    ⊎ (((is_whole v.content ≡ true)
          × AreShort bound v.content
          × (more : List ℕ) × (w.content ≡ v.content ++ more))
        ⊎ ((length w.content < length v.content)
            ⊎ ((length w.content ≡ length v.content) × (w.mtime ≢ v.mtime))))

module _ {F : Type 0} (env : Env F) where
  abbrev pub entry_from : Scan F → Version → Entry F
  entry_from s v = record {
    usage = s.usage;
    seen_ids = s.seen_ids;
    offset = length v.content;
    size = length v.content;
    mtime = v.mtime;
  }

  -- What a scan of the whole version leaves in the cache.
  abbrev pub entry_of : Version → Entry F
  entry_of v = entry_from (full_scan env v.content) v

  abbrev scanned : String → Version → Cache F → Usage F × Cache F
  scanned key v c = ((full_scan env v.content).usage, insert key (entry_of v) c)

  rescan_miss :
      (key : String) (v : Version) (c : Cache F)
      → rescan env key (length v.content) v.mtime miss (look_at v) c ≡ scanned key v c
  unfolding rescan starting
  rescan_miss key v c = refl

  -- A scan of the rest of the log from the counts of the version before.
  abbrev pub resumed : String → Version → Version → List ℕ → Cache F → Usage F × Cache F
  resumed key v w more c =
      let t = scan env (full_scan env v.content) more in (t.usage, insert key (entry_from t w) c)

  rescan_seek :
      (key : String) (v w : Version) (more : List ℕ) (c : Cache F)
      → w.seekable ≡ true
      → w.content ≡ v.content ++ more
      → rescan env key (length w.content) w.mtime (resume (entry_of v)) (look_at w) c
        ≡ resumed key v w more c
  unfolding rescan starting
  rescan_seek key v w more c s e =
      let rest : drop (length v.content) w.content ≡ more =
        ap (λ (x : List ℕ). drop (length v.content) x) e ∙ drop-length-append v.content more in
      simp s (ap (λ (x : List ℕ). resumed key v w x c) rest)

  rescan_resume :
      (key : String) (v w : Version) (more : List ℕ) (c : Cache F)
      → is_whole v.content ≡ true
      → AreShort env.line_bound v.content
      → w.content ≡ v.content ++ more
      → rescan env key (length w.content) w.mtime (resume (entry_of v)) (look_at w) c
        ≡ scanned key w c
  unfolding rescan starting
  rescan_resume key v w more c h short e = elim (Bool-cases w.seekable) [
    | inl s ↦
        let same : scan env (full_scan env v.content) more ≡ full_scan env w.content =
          sym (scan-append env (start env) v.content more h short) ∙ ap (full_scan env) (sym e) in
        rescan_seek key v w more c s e
        ∙ ap (λ (t : Scan F). (t.usage, insert key (entry_from t w) c)) same
    | inr s ↦ simp s refl
  ]

  -- A call gave the counts of the whole version and left them in the cache.
  abbrev pub IsRead : String → Version → Usage F × Cache F → Type 0
  IsRead key v p = (p.0 ≡ (full_scan env v.content).usage) × (lookup key p.1 ≡ some (entry_of v))

  scanned-IsRead : (key : String) (v : Version) (c : Cache F) → IsRead key v (scanned key v c)
  scanned-IsRead key v c = (refl, rw (lookup-insert key key (entry_of v) c, str_eq_refl key) refl)

  read_usage-miss :
      (key : String) (v : Version) (c : Cache F)
      → get c key (length v.content) v.mtime ≡ miss
      → read_usage env key (look_at v) c ≡ scanned key v c
  unfolding read_usage
  read_usage-miss key v c h = rw (h, read_usage, rescan_miss key v c) refl

  read_usage-full :
      (key : String) (v : Version) (c : Cache F) (e : Entry F)
      → get c key (length v.content) v.mtime ≡ full e
      → read_usage env key (look_at v) c ≡ (e.usage, c)
  unfolding read_usage
  read_usage-full key v c e h = rw (h, read_usage) refl

  read_usage-resume :
      (key : String) (v w : Version) (more : List ℕ) (c : Cache F)
      → is_whole v.content ≡ true
      → AreShort env.line_bound v.content
      → w.content ≡ v.content ++ more
      → get c key (length w.content) w.mtime ≡ resume (entry_of v)
      → read_usage env key (look_at w) c ≡ scanned key w c
  unfolding read_usage
  read_usage-resume key v w more c whole short e h =
      rw (h, read_usage, rescan_resume key v w more c whole short e) refl

  -- What the cache answers about a version, by the size and the time of the one that it holds.
  get-held :
      (key : String) (v w : Version) (c : Cache F)
      → lookup key c ≡ some (entry_of v)
      → ((get c key (length w.content) w.mtime ≡ miss)
          ⊎ ((get c key (length w.content) w.mtime ≡ full (entry_of v))
              × (length w.content ≡ length v.content)
              × (w.mtime ≡ v.mtime)))
        ⊎ ((get c key (length w.content) w.mtime ≡ resume (entry_of v))
            × (length v.content < length w.content))
  unfolding get
  get-held key v w c h =
      rw (h, get)
        (elim (Bool-cases (ltb (length w.content) (length v.content))) [
          | inl e ↦ rw e (inl (inl refl))
          | inr e ↦ elim (Bool-cases (length w.content == length v.content)) [
            | inr d ↦ rw (e, d) (inr (refl, ground arith))
            | inl d ↦ elim (Bool-cases (v.mtime == w.mtime)) [
              | inl t ↦ rw (e, d, t) (inl (inr (refl, ground arith, ground arith)))
              | inr t ↦ rw (e, d, t) (inl (inl refl))
            ]
          ]
        ])

  pub read_usage-seek :
      (key : String) (v w : Version) (more : List ℕ) (c : Cache F)
      → lookup key c ≡ some (entry_of v)
      → length v.content < length w.content
      → w.seekable ≡ true
      → w.content ≡ v.content ++ more
      → read_usage env key (look_at w) c ≡ resumed key v w more c
  unfolding read_usage get
  read_usage-seek key v w more c h lt s e =
      let hit : get c key (length w.content) w.mtime ≡ resume (entry_of v) =
        rw (h, get) (ground arith) in
      rw (hit, read_usage, rescan_seek key v w more c s e) refl

  -- A log of the size and the time of the version before is that version.
  same_version :
      (v w : Version)
      → Evolves env.line_bound v w
      → length w.content ≡ length v.content
      → w.mtime ≡ v.mtime
      → w.content ≡ v.content
  same_version v w (inl (same, t)) s m = same
  same_version v w (inr (inl (whole, short, [], grown))) s m = grown ∙ append-nil v.content
  same_version v w (inr (inl (whole, short, x ∷ more, grown))) s m =
      ground (arith, s, ap length grown, length-append v.content (x ∷ more))
  same_version v w (inr (inr (inl shrunk))) s m = ground arith
  same_version v w (inr (inr (inr (size, t)))) s m = elim (t m) [ ]

  -- A longer log is the version before with bytes at its end.
  grown_version :
      (v w : Version)
      → Evolves env.line_bound v w
      → length v.content < length w.content
      → (is_whole v.content ≡ true)
        × AreShort env.line_bound v.content
        × (more : List ℕ) × (w.content ≡ v.content ++ more)
  grown_version v w (inl (same, t)) lt = ground (arith, ap length same)
  grown_version v w (inr (inl grown)) lt = grown
  grown_version v w (inr (inr (inl shrunk))) lt = ground arith
  grown_version v w (inr (inr (inr (size, t)))) lt = ground arith

  read_usage-next :
      (key : String) (v w : Version) (c : Cache F)
      → lookup key c ≡ some (entry_of v)
      → Evolves env.line_bound v w
      → IsRead key w (read_usage env key (look_at w) c)
  read_usage-next key v w c h ev = elim (get-held key v w c h) [
    | inl (inl e) ↦ rw (read_usage-miss key w c e) (scanned-IsRead key w c)
    | inl (inr (e, s, m)) ↦
        rw (read_usage-full key w c (entry_of v) e, same_version v w ev s m, m) (refl, h)
    | inr (e, lt) ↦
        let (whole, short, more, grown) = grown_version v w ev lt in
        rw (read_usage-resume key v w more c whole short grown e) (scanned-IsRead key w c)
  ]

  pub read_usage-new :
      (key : String) (v : Version) (c : Cache F)
      → lookup key c ≡ none
      → IsRead key v (read_usage env key (look_at v) c)
  unfolding get
  read_usage-new key v c h =
      rw (read_usage-miss key v c (rw (h, get) refl)) (scanned-IsRead key v c)

  abbrev EvolvesFrom : Version → List Version → Type 0
  EvolvesFrom v [] = Unit
  EvolvesFrom v (w ∷ ws) = Evolves env.line_bound v w × EvolvesFrom w ws

  -- The reads of the versions one after another, each with the cache of the one before.
  unfoldable pub read_versions : String → List Version → Cache F → List (Usage F)
  read_versions key [] c = []
  read_versions key (v ∷ vs) c =
      let (u, c') = read_usage env key (look_at v) c in u ∷ read_versions key vs c'

  abbrev pub full_usage : Version → Usage F
  full_usage v = (full_scan env v.content).usage

  read_after :
      (key : String) (v : Version) (vs : List Version) (c : Cache F)
      → lookup key c ≡ some (entry_of v)
      → EvolvesFrom v vs
      → read_versions key vs c ≡ map full_usage vs
  unfolding read_versions
  read_after key v [] c h ev = refl
  read_after key v (w ∷ ws) c h (ev, evs) =
      let (u, held) = read_usage-next key v w c h ev in
      rw (u, read_after key w ws (read_usage env key (look_at w) c).1 held evs) refl

  -- From a cache without an entry of the log, every read of a log that evolves between the reads
  -- gives the counts and the cost of a scan of all its bytes. Between two reads the log stays the
  -- same, or gets more bytes behind whole lines that are shorter than the scanner's bound, or gets
  -- shorter, or is written again in the same size with another time.
  pub read_versions-full_scan :
      (key : String) (v : Version) (vs : List Version) (c : Cache F)
      → lookup key c ≡ none
      → EvolvesFrom v vs
      → read_versions key (v ∷ vs) c ≡ map full_usage (v ∷ vs)
  unfolding read_versions
  read_versions-full_scan key v vs c h evs =
      let (u, held) = read_usage-new key v c h in
      rw (u, read_after key v vs (read_usage env key (look_at v) c).1 held evs) refl
