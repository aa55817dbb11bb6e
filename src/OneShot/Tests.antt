-- ===== src/OneShot/Tests.antt =====
-- A one-shot request over a socket that takes two bytes of each write.
use wormdb.Base.{Option, ℕ, ◌≡◌, [], ◌∷◌, some, ok, List}
use wormdb.OneShot.{Shot, ShotEvent, new_shot, shot_run, writable, chunk_in, timer}
use wormdb.OneShot.Laws.{outgoing, Stays, shot_run-Follows}

abbrev two : ℕ → Option ℕ
two k = some 2

abbrev asked : Shot
asked = new_shot (4 ∷ 0 ∷ 0 ∷ 0 ∷ 0 ∷ [])

-- The response comes in two chunks, the timeout after it.
abbrev story : List ShotEvent
story = writable ∷ writable ∷ chunk_in (0 ∷ 0 ∷ []) ∷ chunk_in (0 ∷ 0 ∷ 0 ∷ []) ∷ timer 9 ∷ []

shot_run-Follows_example :
    (t : Shot) × (shot_run two story asked ≡ ok t)
    × (outgoing t ≡ outgoing asked)
    × Stays asked.outcome t.outcome
shot_run-Follows_example = shot_run-Follows two story asked
