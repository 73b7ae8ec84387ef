-- ===== src/Conversation/Examples.antt =====
-- The theorems on transcripts at concrete inputs, and tests by evaluation.
use agent_dashboard.Common.{
  ℕ, ◌≡◌, ◌≢◌, refl, true, some, List, [], ◌∷◌, ◌++◌, map, str_eq, inl, inr, arith,
}
use agent_dashboard.Common.Text.{codes}
use agent_dashboard.Usage.{split_lines, drop_cr}
use agent_dashboard.Conversation.{entries_of}
use agent_dashboard.Conversation.Texts.{contains, clean_slash_command, strip_tag}
use agent_dashboard.Conversation.Texts.Stripped.{pair_in, strip_tag-no_pair}
use agent_dashboard.Conversation.Entries.{
  plan_saved_emitted, parse_user_entry, parse_assistant_entry, extract_plan_saved_entry,
  mark_notifications,
}
use agent_dashboard.Conversation.Reader.{scan_entry, read_conversation}
use agent_dashboard.Conversation.Reader.Chunks.{shown, has_slug}
use agent_dashboard.Conversation.Reader.Marks.{waits, waits_after}
use agent_dashboard.Conversation.Reader.Boundary.{but_last}
use agent_dashboard.Conversation.Samples.{env}
use agent_dashboard.Conversation.Reader.Increments.{
  Version, look_at, EvolvesFrom, read_versions, read_versions-full_read,
}

abbrev first_part : List ℕ
first_part = codes "uhi" ++ (b'\n' ∷ (codes "tyes" ++ b'\n' ∷ []))

abbrev second_part : List ℕ
second_part = codes "e" ++ (b'\n' ∷ (codes "tdone" ++ b'\n' ∷ []))

abbrev version : List ℕ → Version
version content = record { content = content; seekable = true }

command_example :
    clean_slash_command
      (λ s. s)
      (codes "<command-name>/fix</command-name> <command-args>it</command-args>")
    ≡ codes "/fix it"
unfolding clean_slash_command
command_example = refl

strip_example : strip_tag (codes "b") (codes "x<b>y</b>z<b></b>") ≡ codes "xz"
unfolding strip_tag
strip_example = refl

strip_tag-no_pair_example :
    strip_tag (codes "b") (codes "x<b>y</b>z<b></b>")
    ≢ pair_in b'<' b'<' (codes "b") (codes "/b>") (codes "x") (codes ">") (codes "z")
strip_tag-no_pair_example =
    strip_tag-no_pair (codes "b") (codes "x<b>y</b>z<b></b>") (codes "x") (codes ">") (codes "z")

grows :
    EvolvesFrom env
      (version first_part)
      (version (first_part ++ second_part) ∷ version first_part ∷ [])
unfolding entries_of split_lines drop_cr str_eq parse_user_entry parse_assistant_entry
    extract_plan_saved_entry shown has_slug waits_after waits but_last contains
grows = (
  inr (inr ((refl, refl), refl, (λ h. cc), (λ h. cc), second_part, refl)),
  (inr (inl (omega arith)), tt),
)

read_example :
    map
      (λ e. e.content)
      (read_conversation env 2 (some (look_at (version (first_part ++ second_part)))))
    ≡ [] ∷ codes "done" ∷ []
unfolding read_conversation entries_of split_lines drop_cr str_eq scan_entry parse_user_entry
    parse_assistant_entry extract_plan_saved_entry mark_notifications plan_saved_emitted
read_example = refl

-- The transcript grows behind a whole line, and is then written again.
read_versions-full_read_example :
    read_versions env 2
      (version first_part ∷ version (first_part ++ second_part) ∷ version first_part ∷ [])
      []
      0
    ≡ map
        (λ v. read_conversation env 2 (some (look_at v)))
        (version first_part ∷ version (first_part ++ second_part) ∷ version first_part ∷ [])
read_versions-full_read_example =
    read_versions-full_read env 2 (version first_part)
      (version (first_part ++ second_part) ∷ version first_part ∷ []) grows
