-- ===== src/Inflight/Budget.antt =====
-- How many expiries the commands in flight have left: two for a command that was sent once, one for
-- a command that was sent again.
use avdecc_lib.Prelude.{
  ℕ, zero, suc, ◌+◌, ◌-◌, ◌*◌, ◌≤◌, ◌≡◌, refl, false, List, [], ◌∷◌, some, arith, length, get_elem?,
  erase_at, modify_at, All,
}
use avdecc_lib.Inflight.{Inflight, start_timer, poll, retried}

module _ {F : Type 0} where
  abbrev pub budget : List (Inflight F) → ℕ
  budget [] = 0
  budget (c ∷ cs) = (3 - c.start_timer_cnt) + budget cs

  pub budget-poll :
      (now : ℕ) (cs : List (Inflight F)) (i : ℕ) → budget (modify_at cs i (poll now)) ≡ budget cs
  budget-poll now [] i = refl
  budget-poll now (x ∷ cs) zero = refl
  budget-poll now (x ∷ cs) (suc i) = omega (arith, budget-poll now cs i)

  pub budget-start_timer :
      (now : ℕ) (cs : List (Inflight F)) (i : ℕ) (c : Inflight F)
      → get_elem? cs i ≡ some c
      → retried c ≡ false
      → suc (budget (modify_at cs i (start_timer now))) ≤ budget cs
  budget-start_timer now [] i c e r = absurd (cc)
  budget-start_timer now (x ∷ cs) zero c e r = ground arith
  budget-start_timer now (x ∷ cs) (suc i) c e r = omega (arith, budget-start_timer now cs i c e r)

  pub budget-erase_at :
      (cs : List (Inflight F)) (i : ℕ) (c : Inflight F)
      → get_elem? cs i ≡ some c
      → c.start_timer_cnt ≤ 2
      → suc (budget (erase_at cs i)) ≤ budget cs
  budget-erase_at [] i c e h = absurd (cc)
  budget-erase_at (x ∷ cs) zero c e h = ground arith
  budget-erase_at (x ∷ cs) (suc i) c e h = omega (arith, budget-erase_at cs i c e h)

  pub budget-le :
      (cs : List (Inflight F))
      → All (λ (c : Inflight F). 1 ≤ c.start_timer_cnt) cs
      → budget cs ≤ 2 * length cs
  budget-le [] h = omega arith
  budget-le (c ∷ cs) h = omega (arith, budget-le cs h.1)

  -- Only an empty list has nothing left.
  pub budget-zero :
      (cs : List (Inflight F))
      → All (λ (c : Inflight F). c.start_timer_cnt ≤ 2) cs
      → budget cs ≡ 0
      → cs ≡ []
  budget-zero [] h e = refl
  budget-zero (c ∷ cs) h e = absurd (omega (arith, h.0))

  pub length-erase_at-some :
      (cs : List (Inflight F)) (i : ℕ) (c : Inflight F)
      → get_elem? cs i ≡ some c
      → suc (length (erase_at cs i)) ≡ length cs
  length-erase_at-some [] i c e = cc
  length-erase_at-some (x ∷ cs) zero c e = refl
  length-erase_at-some (x ∷ cs) (suc i) c e = omega (arith, length-erase_at-some cs i c e)
