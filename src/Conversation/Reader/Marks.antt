-- ===== src/Conversation/Reader/Marks.antt =====
-- internal/conversation/conversation.go: the tags of `markNotifications` in one pass.
use agent_dashboard.Common.{
  ℕ, zero, suc, ◌≤◌, ◌≡◌, refl, ap, Bool, true, false, ◌&&◌, List, [], ◌∷◌, ◌++◌, length, inl, inr,
  if◌then◌else◌, arith, Bool-cases,
}
use agent_dashboard.Conversation.Entries.{
  Role, human, assistant, plan_saved, ConversationEntry, is_human, is_assistant,
  is_task_notification, flagged, mark_reply, mark_rounds, mark_notifications, plan_saved_emitted,
}

-- Whether a notification waits for an answer, after an entry and after a list.
unfoldable pub waits : Bool → ConversationEntry → Bool
waits before e =
    if is_task_notification e then true else if is_assistant e.role then false else before

unfoldable pub waits_after : Bool → List ConversationEntry → Bool
waits_after before [] = before
waits_after before (e ∷ es) = waits_after (waits before e) es

-- An entry is tagged if it is a notification, or an answer while a notification waits.
unfoldable pub tag : Bool → ConversationEntry → ConversationEntry
tag before e =
    if is_task_notification e
    then flagged e
    else if is_assistant e.role && before
    then flagged e
    else e

unfoldable pub tag_all : Bool → List ConversationEntry → List ConversationEntry
unfolding tag waits
tag_all before [] = []
tag_all before (e ∷ es) = tag before e ∷ tag_all (waits before e) es

not_both : (e : ConversationEntry) → is_task_notification e ≡ true → is_assistant e.role ≡ false
not_both e h = role_case e.role (is_human-of e h)
  where
    role_case : (r : Role) → is_human r ≡ true → is_assistant r ≡ false
    role_case human h = refl
    role_case assistant h = cc
    role_case plan_saved h = refl

    is_human-of : (e : ConversationEntry) → is_task_notification e ≡ true → is_human e.role ≡ true
    is_human-of e h = ground arith

mark_reply-twice : (es : List ConversationEntry) → mark_reply (mark_reply es) ≡ mark_reply es
unfolding mark_reply
mark_reply-twice [] = refl
mark_reply-twice (e ∷ es) = ground (arith, mark_reply-twice es)

-- The rounds over a list, and over a list whose first answer is tagged before.
rounds-eq-tag_all :
    (n : ℕ) (es : List ConversationEntry)
    → length es ≤ n
    → (mark_rounds n es ≡ tag_all false es) × (mark_rounds n (mark_reply es) ≡ tag_all true es)
unfolding mark_rounds mark_reply tag_all tag waits
rounds-eq-tag_all zero [] h = (refl, refl)
rounds-eq-tag_all zero (e ∷ es) h = absurd (omega arith)
rounds-eq-tag_all (suc n) [] h = (refl, refl)
rounds-eq-tag_all (suc n) (e ∷ es) h = elim (Bool-cases (is_task_notification e)) [
  | inl note ↦ ground (arith, not_both e note, mark_reply-twice es, rounds-eq-tag_all n es)
  | inr other ↦ ground (arith, rounds-eq-tag_all n es)
]

-- The two loops tag exactly what one pass over the entries tags.
pub mark_notifications-eq-tag_all :
    (es : List ConversationEntry) → mark_notifications es ≡ tag_all false es
unfolding mark_notifications
mark_notifications-eq-tag_all es = (rounds-eq-tag_all (length es) es (omega arith)).0

pub tag_all-append :
    (before : Bool) (es more : List ConversationEntry)
    → tag_all before (es ++ more) ≡ tag_all before es ++ tag_all (waits_after before es) more
unfolding tag_all waits_after
tag_all-append before [] more = refl
tag_all-append before (e ∷ es) more =
    ap (λ l. tag before e ∷ l) (tag_all-append (waits before e) es more)

pub length-tag_all :
    (before : Bool) (es : List ConversationEntry) → length (tag_all before es) ≡ length es
unfolding tag_all
length-tag_all before [] = refl
length-tag_all before (e ∷ es) = ap suc (length-tag_all (waits before e) es)

-- A tag changes nothing that tags depend on.
pub tag-tag : (before : Bool) (e : ConversationEntry) → tag false (tag before e) ≡ tag before e
unfolding tag
tag-tag before e = ground arith

pub waits-tag : (before : Bool) (e : ConversationEntry) → waits false (tag before e) ≡ waits false e
unfolding tag waits
waits-tag before e = ground arith

pub plan_saved_emitted-tag_all :
    (before : Bool) (es more : List ConversationEntry)
    → plan_saved_emitted (tag_all before es ++ more) ≡ plan_saved_emitted (es ++ more)
unfolding tag_all tag plan_saved_emitted
plan_saved_emitted-tag_all before [] more = refl
plan_saved_emitted-tag_all before (e ∷ es) more =
    ground (arith, plan_saved_emitted-tag_all (waits before e) es more)
