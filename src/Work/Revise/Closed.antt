-- ===== src/Work/Revise/Closed.antt =====
-- `revised_work_record` of work.py on work in a terminal state.
use mncs_commons.Base.{
  String, ◌≡◌, refl, ◌∙◌, ap, Bool, true, false, ◌&&◌, ◌||◌, List, [], ◌∷◌, arith, eq_iff, ◌==◌,
  contains, Bool-cases, inl, inr, ◌⊎◌,
}
use mncs_commons.Json.{Fields, text, get, has, fields_of}
use mncs_commons.Result.{Runtime, ok}
use mncs_commons.Models.{str}
use mncs_commons.Work.States.{allowed_work_transitions}
use mncs_commons.Work.Revise.{revised_work_record}
use mncs_commons.Work.Revise.Inversion.{revised_work_record-Parts}
use mncs_commons.Work.Revise.Request.{details_of_next, state_of_next}
use mncs_commons.Work.Revise.Successor.{target_state-allowed}

-- `TERMINAL_WORK_STATES`
abbrev pub terminal_states : List String
terminal_states = "completed" ∷ "failed" ∷ "cancelled" ∷ []

terminal-cases :
    (s : String)
    → contains terminal_states s ≡ true
    → (s ≡ "completed") ⊎ ((s ≡ "failed") ⊎ (s ≡ "cancelled"))
terminal-cases s h = elim (Bool-cases ("completed" == s)) [
  | inl e ↦ inl (ground (arith, eq_iff "completed" s))
  | inr n ↦ elim (Bool-cases ("failed" == s)) [
    | inl e ↦ inr (inl (ground (arith, eq_iff "failed" s)))
    | inr m ↦ inr (inr (ground (arith, eq_iff "cancelled" s)))
  ]
]

-- No move leads out of a terminal state.
allowed-terminal :
    (s t : String)
    → contains terminal_states s ≡ true
    → contains (allowed_work_transitions s) t ≡ false
unfolding allowed_work_transitions
allowed-terminal s t h = elim (terminal-cases s h) [
  | inl e ↦ rw e refl
  | inr other ↦ elim other [ inl e ↦ rw e refl | inr e ↦ rw e refl ]
]

only_attachments :
    (s t : String) (attached : Bool) (listed : Bool)
    → listed ≡ false
    → (listed || (t == s && attached)) ≡ true
    → (t ≡ s) × (attached ≡ true)
only_attachments s t attached listed l h = (ground (arith, eq_iff t s), ground arith)

-- A revision of work in a terminal state keeps the state, and only comes with attachments.
pub revised-terminal :
    (R : Runtime) (now : String) (current transition next : Fields)
    → revised_work_record R now current transition ≡ ok next
    → contains terminal_states (str R (get "state" (fields_of (get "details" current)))) ≡ true
    → (get "state" (fields_of (get "details" next))
        ≡ text (str R (get "state" (fields_of (get "details" current)))))
      × (has "attachments" transition ≡ true)
revised-terminal R now current transition next h m =
    let p = revised_work_record-Parts R now current transition next h in
    let previous = str R (get "state" p.details) in
    let m' : contains terminal_states previous ≡ true = rw p.has_details at m in
    let kept =
      only_attachments previous p.target (has "attachments" transition) _
        (allowed-terminal previous p.target m')
        (target_state-allowed previous p.target transition p.target_ok) in
    rw (details_of_next p, p.has_details) ((state_of_next p ∙ ap text kept.0, kept.1))
