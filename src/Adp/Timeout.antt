-- ===== src/Adp/Timeout.antt =====
-- `tick` of the discovery state machine: the first entity that has timed out leaves, and no other.
use avdecc_lib.Prelude.{ℕ, ◌≡◌, true, false, some, List, ◌∷◌, ◌++◌, map, length, All}
use avdecc_lib.Adp.{Entities, poll, poll_entities}

abbrev Expired : ℕ → Entities → Type 0
Expired now e = (poll now e).inflight_timer.elapsed ≡ true

abbrev Live : ℕ → Entities → Type 0
Live now e = (poll now e).inflight_timer.elapsed ≡ false

-- Where the polls stop.
Split : ℕ → List Entities → Type 0
Split now es =
    (xs : List Entities) × (x : Entities) × (ys : List Entities) × (es ≡ xs ++ x ∷ ys)
    × All (Live now) xs
    × Expired now x
    × (poll_entities now es ≡ (map (poll now) xs ++ poll now x ∷ ys, some (length xs)))
