-- ===== src/State/SpawnPin/Collection.antt =====
-- `GCSpawnPins` removes the expired pins and no other file.
use agent_dashboard.Common.{
  ℕ, String, ◌≡◌, refl, Bool, ◌&&◌, Option, none, some, [], ◌∷◌, str_eq_iff, arith, if◌then◌else◌,
}
use agent_dashboard.Common.Dict.{lookup, erase, lookup-erase}
use agent_dashboard.Common.Text.{has_suffix}
use agent_dashboard.State.SpawnPin.{Staged, Staging, is_expired, gc_loop, gc_spawn_pins}

-- A folder holds no two files of one name.
abbrev pub HasDistinctFiles : Staging → Type 0
HasDistinctFiles [] = Unit
HasDistinctFiles ((k, f) ∷ st) = (lookup k st ≡ none) × HasDistinctFiles st

module _ (parse_time : String → Option ℕ) (removable : String → Bool) (now older_than : ℕ) where
  abbrev gone : String → Staged → Bool
  gone name f =
      has_suffix name ".json" && is_expired parse_time removable now older_than f && removable name

  -- What becomes of one name, given the file that the listing has under it.
  abbrev kept : String → Option Staged → Option Staged → Option Staged
  kept name none now_there = now_there
  kept name (some f) now_there = if gone name f then none else now_there

  lookup-gc_loop :
      (fs st : Staging) (name : String)
      → HasDistinctFiles fs
      → lookup name (gc_loop parse_time removable now older_than fs st).0
        ≡ kept name (lookup name fs) (lookup name st)
  unfolding gc_loop lookup
  lookup-gc_loop [] st name h = refl
  lookup-gc_loop ((k, f) ∷ fs) st name (absent, h) = ground (
    arith,
    lookup-gc_loop fs (if gone k f then erase k st else st) name h,
    lookup-erase k name st,
    str_eq_iff k name,
  )

  -- After the collection a staging file is there, with what it held, exactly if it is no `.json`
  -- file, or holds a pin that is not expired, or cannot be removed; and no new file is there.
  lookup-gc_spawn_pins :
      (st : Staging) (name : String)
      → HasDistinctFiles st
      → lookup name (gc_spawn_pins parse_time removable now older_than st).0
        ≡ elim (lookup name st) [ none ↦ none | some f ↦ if gone name f then none else some f ]
  unfolding gc_spawn_pins
  lookup-gc_spawn_pins st name h = ground (arith, lookup-gc_loop st st name h)
