-- ===== src/Aecp/Expiry.antt =====
-- Commands that are not answered: each is repeated once, then given up and reported.
use avdecc_lib.Prelude.{
  ℕ, suc, ◌+◌, ◌-◌, ◌*◌, ◌≤◌, ◌<◌, ◌≡◌, refl, ap, true, List, [], ◌∷◌, some, arith, u32_mod, length,
  sum_of, sum_of-one, sum_of-modify_at, sum_of-erase_at, if◌then◌else◌, ◌==◌, get_elem?, modify_at,
  get_elem?-modify_at, All, All-modify_at, All-erase_at, All-get_elem?, All-map, sym, ◌∙◌, false,
  none, Option, inl, inr, Option-cases,
}
use avdecc_lib.Timer.{Timer, start, timeout}
use avdecc_lib.Output.{Output, post_notification_msg, command_timeout, NotificationType}
use avdecc_lib.Inflight.{Inflight, start_timer, poll, retried}
use avdecc_lib.Inflight.Budget.{
  budget, budget-poll, budget-start_timer, budget-erase_at, budget-le, budget-zero,
}
use avdecc_lib.Aecp.Pdu.{Aecpdu}
use avdecc_lib.Aecp.Cases.{state_timeout_cases, tick_at-keeps, tick_loop-keeps}
use avdecc_lib.Aecp.Invariant.{
  Inv, IsSent, poll_inflight-Inv, resend-inflight_cmds, state_timeout-Inv,
}
use avdecc_lib.Aecp.Machine.{
  Aecp, callback, transmit, tx_cmd, give_up, resend, state_timeout, poll_inflight, tick_at,
  tick_loop, tick,
}

-- The number for a COMMAND_TIMEOUT notification.
abbrev if_timeout : NotificationType → ℕ → ℕ
if_timeout command_timeout k = k
if_timeout _ k = 0

-- The COMMAND_TIMEOUT notifications of a trace, each counted by its id.
abbrev timeouts_of : {F : Type 0} → (ℕ → ℕ) → List (Output F) → ℕ
timeouts_of w [] = 0
timeouts_of w (post_notification_msg n ∷ es) =
    if_timeout n.notification_type (w n.notification_id) + timeouts_of w es
timeouts_of w (_ ∷ es) = timeouts_of w es

abbrev is_id : ℕ → ℕ → ℕ
is_id x i = if i == x then 1 else 0

-- How many COMMAND_TIMEOUT notifications a trace has, and how many with an id.
abbrev pub timeouts : {F : Type 0} → List (Output F) → ℕ
timeouts es = timeouts_of (λ i. 1) es

abbrev pub timeouts_with : {F : Type 0} → ℕ → List (Output F) → ℕ
timeouts_with x es = timeouts_of (is_id x) es

-- The commands in flight with an id.
abbrev pub inflight_with : {F : Type 0} → ℕ → List (Inflight F) → ℕ
inflight_with x cs = sum_of (λ c. is_id x c.cmd_notification_id) cs

fires_after :
    (t now : ℕ) (c : Timer)
    → c.running ≡ true
    → c.count ≡ 250
    → c.start_time ≤ t
    → t + 250 < now
    → now < u32_mod
    → (timeout now c).elapsed ≡ true
unfolding timeout
fires_after t now c r k b late lt = ground arith

module _ {F : Type 0} (p : Aecpdu F) where
  -- Ticks one after another, each more than 250 ms after the one before.
  abbrev pub Spaced : ℕ → List ℕ → Type 0
  Spaced t [] = Unit
  Spaced t (u ∷ us) = (t + 250 < u) × (u < u32_mod) × Spaced u us

  abbrev pub ticks_at : List ℕ → Aecp F → Aecp F
  ticks_at [] m = m
  ticks_at (u ∷ us) m = ticks_at us (tick p u m)

module _ {F : Type 0} (p : Aecpdu F) (w : ℕ → ℕ) where
  abbrev weight : Inflight F → ℕ
  weight c = w c.cmd_notification_id

  timeouts-callback :
      (id flag : ℕ) (f : F) (m : Aecp F)
      → timeouts_of w (callback p id flag f m).out ≡ timeouts_of w m.out
  unfolding callback
  timeouts-callback id flag f m = ground arith

  timeouts-resend :
      (now : ℕ) (c : Inflight F) (m : Aecp F)
      → timeouts_of w (resend p now c m).out ≡ timeouts_of w m.out
  unfolding resend tx_cmd transmit
  timeouts-resend now c m = rw timeouts-callback (ground arith)

  -- No timer was started after t, and the commands in flight and the timeouts reported add up to
  -- `total`.
  record Waits (t total : ℕ) (m : Aecp F) : Type 0 where
    inv : Inv p m
    before : All (λ (c : Inflight F). c.cmd_timer.start_time ≤ t) m.inflight_cmds
    conserved : timeouts_of w m.out + sum_of weight m.inflight_cmds ≡ total

  poll-Waits :
      (t total now i : ℕ) (m : Aecp F) → Waits t total m → Waits t total (poll_inflight p now i m)
  unfolding timeout
  poll-Waits t total now i m h = record {
    inv = poll_inflight-Inv p now i m h.inv;
    before = All-modify_at _ (poll now) m.inflight_cmds i (λ x b. ground arith) h.before;
    conserved =
        omega
          (arith, sum_of-modify_at weight (poll now) m.inflight_cmds i (λ x. refl), h.conserved);
  }

  -- What an expiry at a time `now` no earlier than t leaves of m.
  abbrev UsesUp : ℕ → ℕ → Aecp F → Aecp F → Type 0
  UsesUp now total m n = Waits now total n × (suc (budget n.inflight_cmds) ≤ budget m.inflight_cmds)

  give_up-UsesUp :
      (t total now i : ℕ) (m : Aecp F) (c : Inflight F)
      → t ≤ now
      → get_elem? m.inflight_cmds i ≡ some c
      → Waits t total m
      → Inv p (give_up p i c m)
      → UsesUp now total m (give_up p i c m)
  unfolding give_up
  give_up-UsesUp t total now i m c le e h k = (
    record {
      inv = k;
      before =
          All-erase_at _ m.inflight_cmds i
            (All-map _ _ m.inflight_cmds (λ x b. omega arith) h.before);
      conserved = omega (arith, sum_of-erase_at weight m.inflight_cmds i e, h.conserved);
    },
    budget-erase_at m.inflight_cmds i c e
        (All-get_elem? (IsSent p) m.inflight_cmds i h.inv.entries e).at_most_twice,
  )

  resend-UsesUp :
      (t total now i : ℕ) (m : Aecp F) (c : Inflight F)
      → t ≤ now
      → get_elem? m.inflight_cmds i ≡ some c
      → retried c ≡ false
      → Waits t total m
      → Inv p (resend p now c m)
      → UsesUp now total m (resend p now c m)
  unfolding start
  resend-UsesUp t total now i m c le e r h k = (
    record {
      inv = k;
      before = rw items (
          All-modify_at _ (start_timer now) m.inflight_cmds i (λ x b. omega arith)
            (All-map _ _ m.inflight_cmds (λ x b. omega arith) h.before));
      conserved =
          rw
            (
              items,
              timeouts-resend now c m,
              sum_of-modify_at weight (start_timer now) m.inflight_cmds i (λ x. refl),
            )
            h.conserved;
    },
    rw items (budget-start_timer now m.inflight_cmds i c e r),
  )
    where
      items : (resend p now c m).inflight_cmds ≡ modify_at m.inflight_cmds i (start_timer now)
      items = resend-inflight_cmds p now i c m h.inv e

  state_timeout-UsesUp :
      (t total now i : ℕ) (m : Aecp F) (c : Inflight F)
      → t ≤ now
      → get_elem? m.inflight_cmds i ≡ some c
      → Waits t total m
      → UsesUp now total m (state_timeout p now i m)
  state_timeout-UsesUp t total now i m c le e h =
      (state_timeout_cases p (λ n. Inv p n → UsesUp now total m n) now i m
          (λ no. absurd (differ (sym no ∙ e))) (λ d f r. give_up-UsesUp t total now i m d le f h)
          (λ d f r. resend-UsesUp t total now i m d le f r h))
        (state_timeout-Inv p now i m h.inv)
    where
      differ : ◌≡◌ {A = Option (Inflight F)} none (some c) → ⊥
      differ q = cc

  -- A later visit of the same tick keeps what is left.
  visit-Waits :
      (total now left i : ℕ) (m : Aecp F)
      → Waits now total m × (budget m.inflight_cmds ≤ left)
      → Waits now total (tick_at p now i m) × (budget (tick_at p now i m).inflight_cmds ≤ left)
  visit-Waits total now left i m h =
      tick_at-keeps p (λ n. Waits now total n × (budget n.inflight_cmds ≤ left)) now i m
        (poll-Waits now total now i m h.0, omega (arith, budget-poll now m.inflight_cmds i, h.1))
        (λ k. elim (Option-cases (get_elem? (poll_inflight p now i m).inflight_cmds i)) [
          | inl e ↦
              state_timeout_cases p (λ n. Waits now total n × (budget n.inflight_cmds ≤ left)) now i
                (poll_inflight p now i m) (λ q. k) (λ c f r. absurd (differ c (sym e ∙ f)))
                (λ c f r. absurd (differ c (sym e ∙ f)))
          | inr (c, e) ↦
              let (k1, b) = state_timeout-UsesUp now total now i _ c (omega arith) e k.0 in
              (k1, omega (arith, b, k.1))
        ])
    where
      differ : (c : Inflight F) → ◌≡◌ {A = Option (Inflight F)} none (some c) → ⊥
      differ c q = cc

  -- The first command in flight has expired.
  first-UsesUp :
      (t total now : ℕ) (m : Aecp F) (c : Inflight F) (cs : List (Inflight F))
      → m.inflight_cmds ≡ c ∷ cs
      → t + 250 < now
      → now < u32_mod
      → Waits t total m
      → UsesUp now total m (tick_at p now 0 m)
  unfolding tick_at
  first-UsesUp t total now m c cs e late lt h =
      rw (found, tick_at, fires)
        (let (k1, b) =
            state_timeout-UsesUp t total now 0 (poll_inflight p now 0 m) (poll now c) (omega arith)
              found (poll-Waits t total now 0 m h) in
          (k1, omega (arith, b, budget-poll now m.inflight_cmds 0)))
    where
      at_head : get_elem? m.inflight_cmds 0 ≡ some c
      at_head = rw e

      found : get_elem? (poll_inflight p now 0 m).inflight_cmds 0 ≡ some (poll now c)
      found = get_elem?-modify_at m.inflight_cmds 0 (poll now) at_head

      fires : (timeout now c.cmd_timer).elapsed ≡ true
      fires =
          fires_after t now c.cmd_timer
            (All-get_elem? (IsSent p) m.inflight_cmds 0 h.inv.entries at_head).timed
            (All-get_elem? (IsSent p) m.inflight_cmds 0 h.inv.entries at_head).counts
            (All-get_elem? _ m.inflight_cmds 0 h.before at_head) late lt

  tick-Waits :
      (t total now : ℕ) (m : Aecp F) (cs : List (Inflight F))
      → m.inflight_cmds ≡ cs
      → t + 250 < now
      → now < u32_mod
      → Waits t total m
      → Waits now total (tick p now m)
        × (budget (tick p now m).inflight_cmds ≤ budget m.inflight_cmds - 1)
  unfolding tick tick_loop
  tick-Waits t total now m [] e late lt h =
      rw (ap length e, tick_loop)
        (
          record {
            inv = h.inv;
            before = All-map _ _ m.inflight_cmds (λ x b. omega arith) h.before;
            conserved = h.conserved;
          },
          omega (arith, ap budget e),
        )
  tick-Waits t total now m (c ∷ cs) e late lt h =
      rw (ap length e, tick_loop, ap (λ l. get_elem? l 0) e)
        (tick_loop-keeps p
          (λ n. Waits now total n × (budget n.inflight_cmds ≤ budget m.inflight_cmds - 1))
          (length cs) now 1 (tick_at p now 0 m) (λ j n k. visit-Waits total now _ j n k)
          (let (k1, b) = first-UsesUp t total now m c cs e late lt h in (k1, omega (arith, b))))

  ticks_at-Waits :
      (t total : ℕ) (us : List ℕ) (m : Aecp F)
      → Spaced p t us
      → Waits t total m
      → budget m.inflight_cmds ≤ length us
      → (u : ℕ) × Waits u total (ticks_at p us m) × (budget (ticks_at p us m).inflight_cmds ≡ 0)
  ticks_at-Waits t total [] m s h b = (t, h, omega arith)
  ticks_at-Waits t total (u ∷ us) m s h b =
      let (k1, d) = tick-Waits t total u m m.inflight_cmds refl s.0 s.1 h in
      ticks_at-Waits u total us (tick p u m) s.2 k1 (omega (arith, d))

  finish :
      (t : ℕ) (us : List ℕ) (m : Aecp F)
      → Inv p m
      → All (λ (c : Inflight F). c.cmd_timer.start_time ≤ t) m.inflight_cmds
      → Spaced p t us
      → 2 * length m.inflight_cmds ≤ length us
      → ((ticks_at p us m).inflight_cmds ≡ [])
        × (timeouts_of w (ticks_at p us m).out
            ≡ timeouts_of w m.out + sum_of weight m.inflight_cmds)
  finish t us m i b s enough =
      let (u, k1, z) =
        ticks_at-Waits t (timeouts_of w m.out + sum_of weight m.inflight_cmds) us m s
          (record { inv = i; before = b; conserved = refl })
          (omega (
            arith,
            budget-le m.inflight_cmds
                (All-map _ _ m.inflight_cmds (λ x k. k.at_least_once) i.entries),
          )) in
      let none_left =
        budget-zero (ticks_at p us m).inflight_cmds
          (All-map _ _ (ticks_at p us m).inflight_cmds (λ x k. k.at_most_twice) k1.inv.entries) z in
      (none_left, omega (arith, k1.conserved, ap (sum_of weight) none_left))

module _ {F : Type 0} (p : Aecpdu F) where
  -- From a state in which the invariant holds and no timer was started after time t, if no response comes, any ticks that are more than 250 ms apart on an unwrapped clock, two for each command in flight, leave no command in flight, and add exactly one COMMAND_TIMEOUT notification for each command that was, under the notification id of that command.
  pub ticks_at_finish :
      (t : ℕ) (us : List ℕ) (m : Aecp F) (x : ℕ)
      → Inv p m
      → All (λ (c : Inflight F). c.cmd_timer.start_time ≤ t) m.inflight_cmds
      → Spaced p t us
      → 2 * length m.inflight_cmds ≤ length us
      → ((ticks_at p us m).inflight_cmds ≡ [])
        × (timeouts (ticks_at p us m).out ≡ timeouts m.out + length m.inflight_cmds)
        × (timeouts_with x (ticks_at p us m).out
            ≡ timeouts_with x m.out + inflight_with x m.inflight_cmds)
  ticks_at_finish t us m x i b s enough =
      let (none_left, all) = finish p (λ i. 1) t us m i b s enough in
      (
        none_left,
        omega (arith, all, sum_of-one m.inflight_cmds),
        (finish p (is_id x) t us m i b s enough).1,
      )
