-- ===== src/Pipe/Scheduler/Exclusion.antt =====
-- Claims and drops of guards, as steps in any order.
use toradb.Prelude.{
  ◌+◌, ◌≤◌, ◌≡◌, refl, true, false, none, some, List, [], ◌∷◌, arith, if◌then◌else◌, Text, text_eq,
  text_beq_iff, ◌=?◌,
}
use toradb.Collections.Keys.{count, contains, count-without}
use toradb.Pipe.Scheduler.{claim, release}

-- The set of running pipelines, and the guards that are alive.
pub record State : Type 0 where
  pub running : List Text
  pub guards : List Text

-- One guard less under that id.
unfoldable pub drop_one : Text → List Text → List Text
drop_one id [] = []
drop_one id (g ∷ gs) = if g =? id then gs else g ∷ drop_one id gs

pub data Step : State → State → Type 0 where
  claimed :
      {s : State} {running : List Text} (id : Text)
      → claim id s.running ≡ some running
      → Step s (record { running = running; guards = id ∷ s.guards })
  refused : {s : State} (id : Text) → claim id s.running ≡ none → Step s s
  dropped :
      {s : State} (id : Text)
      → contains id s.guards ≡ true
      → Step s (record { running = release id s.running; guards = drop_one id s.guards })

pub data Reach : State → Type 0 where
  start : Reach (record { running = []; guards = [] })
  next : {s t : State} → Reach s → Step s t → Reach t

-- Every running pipeline has just one guard.
abbrev pub IsExclusive : State → Type 0
IsExclusive s = (id : Text) → (count id s.running ≡ count id s.guards) × (count id s.guards ≤ 1)

count-drop_one :
    (id j : Text) (gs : List Text)
    → contains id gs ≡ true
    → count j gs ≡ count j (drop_one id gs) + (if id =? j then 1 else 0)
unfolding count drop_one contains
count-drop_one id j [] h = absurd (ground arith)
count-drop_one id j (g ∷ gs) h =
    ground (arith, count-drop_one id j gs, text_beq_iff g id, text_beq_iff g j, text_beq_iff id j)

contains-count : (id : Text) (gs : List Text) → contains id gs ≡ false → count id gs ≡ 0
unfolding contains count
contains-count id [] h = refl
contains-count id (g ∷ gs) h = ground (arith, contains-count id gs)

claim-some :
    (id : Text) (r r' : List Text) → claim id r ≡ some r' → (contains id r ≡ false) × (r' ≡ id ∷ r)
unfolding claim
claim-some id r r' h = ground arith

count_cons :
    (id j : Text) (gs : List Text) → count j (id ∷ gs) ≡ count j gs + (if id =? j then 1 else 0)
unfolding count
count_cons id j gs = ground arith

Step-IsExclusive : (s t : State) → IsExclusive s → Step s t → IsExclusive t
unfolding release
Step-IsExclusive s t h (refused id e) j = h j
Step-IsExclusive s t h (claimed {running = r} id e) j =
    let (free, new) = claim-some id s.running r e in
    rw (new) (
      ground (
        arith,
        h j,
        count_cons id j s.running,
        count_cons id j s.guards,
        contains-count id s.running free,
        text_beq_iff id j,
      ))
Step-IsExclusive s t h (dropped id e) j =
    ground
      (arith, h j, count-drop_one id j s.guards e, count-without id j s.running, text_beq_iff id j)

no_guard : (j : Text) → count j [] ≤ 1
unfolding count
no_guard j = omega arith

-- Whatever the order of claims and drops, a pipeline is in the running set just as often as a guard of it is
-- alive, which is at most once.
pub Reach-IsExclusive : (s : State) → Reach s → IsExclusive s
Reach-IsExclusive s start j = (refl, no_guard j)
Reach-IsExclusive s (next {s = r} p k) j = Step-IsExclusive r s (Reach-IsExclusive r p) k j
