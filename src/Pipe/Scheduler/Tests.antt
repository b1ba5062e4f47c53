-- ===== src/Pipe/Scheduler/Tests.antt =====
-- A run of the scheduler's set: a claim, a refused claim and a drop.
use toradb.Prelude.{◌≡◌, refl, none, some, [], ◌∷◌, text, text_eq}
use toradb.Pipe.Scheduler.{claim}
use toradb.Pipe.Scheduler.Exclusion.{State, Step, Reach, IsExclusive, Reach-IsExclusive}

abbrev one_running : State
one_running = record { running = text "p" ∷ []; guards = text "p" ∷ [] }

claim_first : claim (text "p") [] ≡ some (text "p" ∷ [])
unfolding claim
claim_first = refl

claim_again : claim (text "p") (text "p" ∷ []) ≡ none
unfolding claim
claim_again = refl

Reach-one : Reach one_running
Reach-one =
    Reach.next (Reach.next Reach.start (Step.claimed (text "p") claim_first))
      (Step.refused (text "p") claim_again)

Reach-IsExclusive_example : IsExclusive one_running
Reach-IsExclusive_example = Reach-IsExclusive one_running Reach-one
