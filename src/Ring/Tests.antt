-- ===== src/Ring/Tests.antt =====
-- Runs of a ring buffer, and the theorems at inputs that meet their hypotheses.
use avdecc_lib.Prelude.{ℕ, ◌≡◌, refl, List, [], ◌∷◌, ◌++◌, arith}
use avdecc_lib.Ring.{Ring, new_ring, post, dispatch, delivered}
use avdecc_lib.Ring.Order.{
  IsRing, Op, posts, dispatches, serve, serve_in_order, pending, advance, post_overruns,
}

abbrev empty : Ring ℕ
empty = new_ring (λ i. 0)

-- An empty ring whose indices are about to wrap.
abbrev worn : Ring ℕ
worn = record empty { read_index = 4294967295; write_index = 4294967295 }

worn-IsRing : IsRing worn
worn-IsRing = omega arith

abbrev traffic : List (Op ℕ)
traffic = posts 5 ∷ posts 6 ∷ dispatches ∷ posts 7 ∷ dispatches ∷ dispatches ∷ []

traffic-delivered : (serve traffic worn).0 ≡ 5 ∷ 6 ∷ 7 ∷ []
unfolding post dispatch
traffic-delivered = refl

serve_in_order_example : (serve traffic worn).0 ++ pending (serve traffic worn).1 ≡ 5 ∷ 6 ∷ 7 ∷ []
unfolding post dispatch
serve_in_order_example = serve_in_order traffic worn worn-IsRing (omega arith)

-- 32 undelivered entries, of which the oldest is 0.
abbrev full : Ring ℕ
full = record empty { write_index = 32; signals = 32; buf = λ i. i }

full-IsRing : IsRing full
full-IsRing = omega arith

post_overruns_example : dispatch (post 99 full) ≡ delivered 99 (advance (post 99 full))
post_overruns_example = (post_overruns 99 full full-IsRing refl).1
