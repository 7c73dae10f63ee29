-- ===== src/Acmp/Account.antt =====
-- Each command of the application is answered by one notification: a response or a time-out.
use avdecc_lib.Prelude.{
  ℕ, zero, suc, ◌+◌, ◌≡◌, refl, true, false, some, List, [], ◌∷◌, arith, inl, inr, length,
  get_elem?, modify_first, find_if, All, All-append, All-erase_at, All-erase_first, All-modify_at,
  All-get_elem?, All-modify_first, All-find_if, sum_of, sum_of-one, sum_of-append, sum_of-erase_at,
  sum_of-erase_first, sum_of-modify_at, sum_of-modify_first, Bool, Bool-cases, Option-cases,
  if◌then◌else◌, ◌==◌,
}
use mathlib.Core.Path.{◌∙◌}
use avdecc_lib.Output.{posted, Notification, NotificationType, response_received}
use avdecc_lib.Inflight.{Inflight, seq_id_comp, start_timer, poll, retried}
use avdecc_lib.Acmp.Machine.{
  Acmpdu, MessageClass, unlisted, Acmp, response, new_acmp, respond, callback_class, callback,
  transmit, tx_cmd, state_command, proc_resp, state_resp, give_up, resend, state_timeout,
  poll_inflight, tick_at, tick_loop, tick,
}

-- A message that `callback` reports.
abbrev pub is_listed : MessageClass → Bool
is_listed unlisted = false
is_listed _ = true

-- The application sends commands with notification; a response is one that is reported.
pub data Call (F : Type 0) : Type 0 where
  sends : ℕ → ℕ → F → Call F
  receives : ℕ → F → Call F
  ticks : ℕ → Call F

abbrev pub apply : {F : Type 0} → Acmpdu F → Call F → Acmp F → Acmp F
apply p (sends now nid f) m = state_command p now nid 1 f m
apply p (receives nid f) m = (state_resp p nid f m).0
apply p (ticks now) m = tick p now m

abbrev pub run : {F : Type 0} → Acmpdu F → List (Call F) → Acmp F → Acmp F
run p [] m = m
run p (c ∷ cs) m = run p cs (apply p c m)

abbrev pub Meant : {F : Type 0} → Acmpdu F → Call F → Type 0
Meant p (sends now nid f) = is_listed (p.class (p.message_type f)) ≡ false
Meant p (receives nid f) = is_listed (p.class (p.message_type f)) ≡ true
Meant p (ticks now) = Unit {0}

-- The sequence id is no part of the message type.
pub record IsAcmpdu {F : Type 0} (p : Acmpdu F) : Type 0 where
  pub message_type-set_sequence_id :
      (n : ℕ) (f : F) → p.message_type (p.set_sequence_id n f) ≡ p.message_type f

-- What is counted: each command by its notification id.
abbrev commands_of : {F : Type 0} → (ℕ → ℕ) → List (Call F) → ℕ
commands_of w [] = 0
commands_of w (sends _ nid _ ∷ cs) = w nid + commands_of w cs
commands_of w (receives _ _ ∷ cs) = commands_of w cs
commands_of w (ticks _ ∷ cs) = commands_of w cs

abbrev is_id : ℕ → ℕ → ℕ
is_id x i = if i == x then 1 else 0

abbrev is_received : NotificationType → Bool
is_received response_received = true
is_received _ = false

-- 1 for a RESPONSE_RECEIVED notification with the id.
abbrev is_answer : ℕ → Notification → ℕ
is_answer x n = if is_received n.notification_type then is_id x n.notification_id else 0

-- The commands that are sent, all of them and those with an id.
abbrev pub commands : {F : Type 0} → List (Call F) → ℕ
commands cs = commands_of (λ i. 1) cs

abbrev pub commands_with : {F : Type 0} → ℕ → List (Call F) → ℕ
commands_with x cs = commands_of (is_id x) cs

-- The RESPONSE_RECEIVED notifications with an id, and the commands in flight with it.
abbrev pub answers_with : {F : Type 0} → ℕ → Acmp F → ℕ
answers_with x m = sum_of (is_answer x) (posted m.out)

abbrev pub inflight_with : {F : Type 0} → ℕ → Acmp F → ℕ
inflight_with x m = sum_of (λ c. is_id x c.cmd_notification_id) m.inflight_cmds

-- A number for each notification, that for a RESPONSE_RECEIVED notification depends on its id.
module _ {F : Type 0} (p : Acmpdu F) (v : Notification → ℕ) (w : ℕ → ℕ)
    (weighs : (e t s i : ℕ) → v (response p e t s i) ≡ w i) where
  -- A command in flight wants a notification and is no reported message.
  abbrev IsWanted : Inflight F → Type 0
  IsWanted c =
      (c.cmd_notification_flag ≡ 1) × (is_listed (p.class (p.message_type c.cmd_frame)) ≡ false)

  abbrev weight : Inflight F → ℕ
  weight c = w c.cmd_notification_id

  -- What is answered or in flight.
  abbrev accounted : Acmp F → ℕ
  accounted m = sum_of v (posted m.out) + sum_of weight m.inflight_cmds

  callback-inflight_cmds :
      (id flag : ℕ) (f : F) (m : Acmp F) → (callback p id flag f m).inflight_cmds ≡ m.inflight_cmds
  unfolding callback callback_class respond
  callback-inflight_cmds id flag f m = ground arith

  posted-callback :
      (id flag : ℕ) (f : F) (m : Acmp F)
      → sum_of v (posted (callback p id flag f m).out) ≡ (
          if is_listed (p.class (p.message_type f))
          then (if flag == 1 then w id + sum_of v (posted m.out) else sum_of v (posted m.out))
          else sum_of v (posted m.out))
  unfolding callback callback_class respond
  posted-callback id flag f m = ground (
    arith,
    weighs (p.talker_entity_id f) (p.message_type f) (p.status f) id,
    weighs (p.listener_entity_id f) (p.message_type f) (p.status f) id,
  )

  transmit-inflight_cmds :
      (id flag : ℕ) (f : F) (m : Acmp F) → (transmit p id flag f m).inflight_cmds ≡ m.inflight_cmds
  unfolding transmit
  transmit-inflight_cmds id flag f m = rw callback-inflight_cmds (ground arith)

  posted-transmit :
      (id flag : ℕ) (f : F) (m : Acmp F)
      → is_listed (p.class (p.message_type f)) ≡ false
      → sum_of v (posted (transmit p id flag f m).out) ≡ sum_of v (posted m.out)
  unfolding transmit
  posted-transmit id flag f m e = rw (posted-callback, e) (ground arith)

  resend-inflight_cmds :
      (now : ℕ) (c : Inflight F) (m : Acmp F)
      → (resend p now c m).inflight_cmds
        ≡ modify_first (seq_id_comp (p.sequence_id c.cmd_frame)) (start_timer now) m.inflight_cmds
  unfolding resend tx_cmd
  resend-inflight_cmds now c m = transmit-inflight_cmds _ _ _ _

  accounted-resend :
      (now : ℕ) (c : Inflight F) (m : Acmp F)
      → IsWanted c
      → accounted (resend p now c m) ≡ accounted m
  unfolding resend tx_cmd
  accounted-resend now c m wanted =
      rw
        (
          transmit-inflight_cmds,
          posted-transmit c.cmd_notification_id c.cmd_notification_flag c.cmd_frame _ wanted.1,
          sum_of-modify_first weight (seq_id_comp (p.sequence_id c.cmd_frame)) (start_timer now)
              m.inflight_cmds (λ x. refl),
        )
        refl

  -- The commands in flight are wanted, and those and the notifications are n.
  record Account (n : ℕ) (m : Acmp F) : Type 0 where
    wanted : All IsWanted m.inflight_cmds
    total : accounted m ≡ n

  state_command-Account :
      (n : ℕ)
      → IsAcmpdu p
      → (now nid : ℕ) (f : F) (m : Acmp F) → is_listed (p.class (p.message_type f)) ≡ false
      → Account n m
      → Account (w nid + n) (state_command p now nid 1 f m)
  unfolding state_command tx_cmd
  state_command-Account n law now nid f m e h = record {
    wanted =
        rw transmit-inflight_cmds
          (All-append IsWanted m.inflight_cmds _ h.wanted ((refl, meant), tt));
    total =
        rw
          (
            transmit-inflight_cmds,
            posted-transmit nid 1 (p.set_sequence_id m.acmp_seq_id f) _ meant,
            sum_of-append weight m.inflight_cmds,
          )
          (omega (arith, h.total));
  }
    where
      meant : is_listed (p.class (p.message_type (p.set_sequence_id m.acmp_seq_id f))) ≡ false
      meant = rw (law.message_type-set_sequence_id m.acmp_seq_id f) e

  state_resp-Account :
      (n : ℕ)
      → (nid : ℕ) (f : F) (m : Acmp F) → is_listed (p.class (p.message_type f)) ≡ true
      → Account n m
      → Account n (state_resp p nid f m).0
  unfolding state_resp proc_resp
  state_resp-Account n nid f m e h =
      elim (Option-cases (find_if (seq_id_comp (p.sequence_id f)) m.inflight_cmds)) [
        | inl q ↦ rw q h
        | inr (c, q) ↦ rw q (record {
          wanted =
              rw (callback-inflight_cmds) (All-erase_first IsWanted _ m.inflight_cmds h.wanted);
          total =
              rw
                (
                  callback-inflight_cmds,
                  posted-callback c.cmd_notification_id c.cmd_notification_flag f m,
                  e,
                  (All-find_if IsWanted _ m.inflight_cmds h.wanted q).0,
                )
                (omega (arith, h.total, sum_of-erase_first weight _ m.inflight_cmds q));
        })
      ]

  give_up-Account :
      (n : ℕ)
      → (i : ℕ) (c : Inflight F) (m : Acmp F) → get_elem? m.inflight_cmds i ≡ some c
      → Account n m
      → Account n (give_up p i c m)
  unfolding give_up
  give_up-Account n i c m e h = record {
    wanted = All-erase_at IsWanted m.inflight_cmds i h.wanted;
    total = omega (arith, h.total, sum_of-erase_at weight m.inflight_cmds i e);
  }

  resend-Account :
      (n : ℕ)
      → (now : ℕ) (c : Inflight F) (m : Acmp F) → IsWanted c
      → Account n m
      → Account n (resend p now c m)
  resend-Account n now c m k h = record {
    wanted =
        rw resend-inflight_cmds
          (All-modify_first IsWanted _ (start_timer now) m.inflight_cmds (λ x y. y) h.wanted);
    total = accounted-resend now c m k ∙ h.total;
  }

  state_timeout-Account :
      (n : ℕ) → (now i : ℕ) (m : Acmp F) → Account n m → Account n (state_timeout p now i m)
  unfolding state_timeout
  state_timeout-Account n now i m h = elim (Option-cases (get_elem? m.inflight_cmds i)) [
    | inl e ↦ rw (e, state_timeout) h
    | inr (c, e) ↦ elim (Bool-cases (retried c)) [
      | inl r ↦ rw (e, state_timeout, r) (give_up-Account n i c m e h)
      | inr r ↦
          rw (e, state_timeout, r)
            (resend-Account n now c m (All-get_elem? IsWanted m.inflight_cmds i h.wanted e) h)
    ]
  ]

  polled-Account :
      (n : ℕ) → (now i : ℕ) (m : Acmp F) → Account n m → Account n (poll_inflight p now i m)
  polled-Account n now i m h = record {
    wanted = All-modify_at IsWanted (poll now) m.inflight_cmds i (λ x y. y) h.wanted;
    total = rw (sum_of-modify_at weight (poll now) m.inflight_cmds i (λ x. refl)) h.total;
  }

  tick_at-Account : (n : ℕ) → (now i : ℕ) (m : Acmp F) → Account n m → Account n (tick_at p now i m)
  unfolding tick_at
  tick_at-Account n now i m h =
      elim (Option-cases (get_elem? (poll_inflight p now i m).inflight_cmds i)) [
        | inl e ↦ rw (e, tick_at) (polled-Account n now i m h)
        | inr (c, e) ↦ elim (Bool-cases c.cmd_timer.elapsed) [
          | inl r ↦
              rw (e, tick_at, r) (state_timeout-Account n now i _ (polled-Account n now i m h))
          | inr r ↦ rw (e, tick_at, r) (polled-Account n now i m h)
        ]
      ]

  tick_loop-Account :
      (n : ℕ)
      → (rounds now i : ℕ) (m : Acmp F) → Account n m
      → Account n (tick_loop p rounds now i m)
  unfolding tick_loop
  tick_loop-Account n zero now i m h = h
  tick_loop-Account n (suc rounds) now i m h = elim (Option-cases (get_elem? m.inflight_cmds i)) [
    | inl e ↦ rw (e, tick_loop) h
    | inr (c, e) ↦
        rw (e, tick_loop) (tick_loop-Account n rounds now (i + 1) _ (tick_at-Account n now i m h))
  ]

  tick-Account : (n : ℕ) → (now : ℕ) (m : Acmp F) → Account n m → Account n (tick p now m)
  unfolding tick
  tick-Account n now m h = tick_loop-Account n _ now 0 m h

  run-Account :
      (n : ℕ) (cs : List (Call F)) (m : Acmp F)
      → IsAcmpdu p
      → All (Meant p) cs
      → Account n m
      → Account (n + commands_of w cs) (run p cs m)
  run-Account n [] m law k h = record { wanted = h.wanted; total = omega (arith, h.total) }
  run-Account n (sends now nid f ∷ cs) m law k h =
      rw (later (w nid) (commands_of w cs))
        (run-Account (w nid + n) cs _ law k.1 (state_command-Account n law now nid f m k.0 h))
    where
      later : (x y : ℕ) → n + (x + y) ≡ x + n + y
      later x y = omega arith
  run-Account n (receives nid f ∷ cs) m law k h =
      run-Account n cs _ law k.1 (state_resp-Account n nid f m k.0 h)
  run-Account n (ticks now ∷ cs) m law k h = run-Account n cs _ law k.1 (tick-Account n now m h)

  accounted-run :
      (cs : List (Call F))
      → IsAcmpdu p
      → All (Meant p) cs
      → accounted (run p cs new_acmp) ≡ commands_of w cs
  accounted-run cs law k =
      (run-Account 0 cs new_acmp law k (record { wanted = tt; total = refl })).total ∙ omega arith

module _ {F : Type 0} (p : Acmpdu F) (law : IsAcmpdu p) where
  -- In every history of the ACMP state machine from its start, in which every command is sent with notification and is not of a type that `callback` reports, and every response is of such a type: for every notification id, the RESPONSE_RECEIVED notifications posted with it, of responses and of time-outs together, and the commands in flight with it are exactly as many as the commands sent with it, and no other notification is posted: each command is answered once, under its id, and none is forgotten.
  pub answers-run :
      (cs : List (Call F)) (x : ℕ)
      → All (Meant p) cs
      → (answers_with x (run p cs new_acmp) + inflight_with x (run p cs new_acmp)
          ≡ commands_with x cs)
        × (length (posted (run p cs new_acmp).out) + length (run p cs new_acmp).inflight_cmds
            ≡ commands cs)
  answers-run cs x k = (
    accounted-run p (is_answer x) (is_id x) (λ e t s i. refl) cs law k,
    omega (
      arith,
      accounted-run p (λ n. 1) (λ i. 1) (λ e t s i. refl) cs law k,
      sum_of-one (posted (run p cs new_acmp).out),
      sum_of-one (run p cs new_acmp).inflight_cmds,
    ),
  )
