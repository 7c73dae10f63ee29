-- ===== src/EndStation/Order.antt =====
-- Background reads are sent in the order in which they are queued, each once.
use avdecc_lib.Prelude.{
  ℕ, zero, suc, ◌+◌, ◌≡◌, refl, sym, ap, Option, List, [], ◌∷◌, ◌++◌, map, u16, inl, inr, arith,
  Bool-cases, ◌==◌,
}
use mathlib.Core.List.{append_assoc, append-nil}
use mathlib.Core.Path.{◌∙◌}
use avdecc_lib.Output.{error}
use avdecc_lib.EndStation.Requests.{
  Request, Background, Action, read_desc_init, read_completed, no_match_found, post_log_msg,
  requests, queue_background_read_request, update_timeouts, background_read_update_timeouts,
  background_read_update_inflight, submit, submit_same, submit_list, is_empty,
  background_read_submit_pending,
}

-- What happens to the two lists.
pub data Step : Type 0 where
  queues : ℕ → ℕ → ℕ → Step
  times_out : ℕ → Step
  is_answered : ℕ → Option ℕ → Step
  submits : ℕ → Step

abbrev pub apply : Step → Background → Background
apply (queues t i n) b = queue_background_read_request t i n b
apply (times_out now) b = background_read_update_timeouts now b
apply (is_answered t i) b = background_read_update_inflight t i b
apply (submits now) b = background_read_submit_pending now b

abbrev pub run : List Step → Background → Background
run [] b = b
run (s ∷ ss) b = run ss (apply s b)

-- The descriptors asked for: type and index of each, `n` indices from `i` on.
abbrev pub range : ℕ → ℕ → ℕ → List (ℕ × ℕ)
range t i zero = []
range t i (suc n) = (t, u16 i) ∷ range t (i + 1) n

abbrev pub asked : List Step → List (ℕ × ℕ)
asked [] = []
asked (queues t i n ∷ ss) = range t i n ++ asked ss
asked (times_out _ ∷ ss) = asked ss
asked (is_answered _ _ ∷ ss) = asked ss
asked (submits _ ∷ ss) = asked ss

-- The reads of a trace, the oldest first.
abbrev pub reads : List Action → List (ℕ × ℕ)
reads [] = []
reads (read_desc_init t i ∷ es) = reads es ++ (t, i) ∷ []
reads (read_completed _ ∷ es) = reads es
reads (no_match_found _ ∷ es) = reads es
reads (post_log_msg _ ∷ es) = reads es

abbrev pub keys : List Request → List (ℕ × ℕ)
keys = map (λ r. (r.desc_type, r.index))

-- All that was asked for, in order: sent or pending.
abbrev line : Background → List (ℕ × ℕ)
line b = reads b.actions ++ keys b.pending

keys-append : (xs ys : List Request) → keys (xs ++ ys) ≡ keys xs ++ keys ys
keys-append [] ys = refl
keys-append (x ∷ xs) ys = ap (λ z. (x.desc_type, x.index) ∷ z) (keys-append xs ys)

keys-requests : (t i n : ℕ) → keys (requests t i n) ≡ range t i n
unfolding requests
keys-requests t i zero = refl
keys-requests t i (suc n) = ap (λ z. (t, u16 i) ∷ z) (keys-requests t (i + 1) n)

reads-update_timeouts :
    (now : ℕ) (rs : List Request) (es : List Action)
    → reads (update_timeouts now rs es).1 ≡ reads es
unfolding update_timeouts
reads-update_timeouts now [] es = refl
reads-update_timeouts now (r ∷ rs) es =
    ground (
      arith,
      reads-update_timeouts now rs es,
      reads-update_timeouts now rs (post_log_msg error ∷ es),
    )

line-submit :
    (now : ℕ) (r : Request) (rest : List Request) (b : Background)
    → b.pending ≡ r ∷ rest
    → line (submit now r rest b) ≡ line b
unfolding submit
line-submit now r rest b e =
    rw e (append_assoc (reads b.actions) ((r.desc_type, r.index) ∷ []) (keys rest))

pending-submit :
    (now : ℕ) (r : Request) (rest : List Request) (b : Background)
    → (submit now r rest b).pending ≡ rest
unfolding submit
pending-submit now r rest b = refl

line-submit_same :
    (now t : ℕ) (rs : List Request) (b : Background)
    → b.pending ≡ rs
    → line (submit_same now t rs b) ≡ line b
unfolding submit_same
line-submit_same now t [] b e = refl
line-submit_same now t (r ∷ rest) b e = elim (Bool-cases (r.desc_type == t)) [
  | inl q ↦
      rw (q, submit_same)
        (line-submit_same now t rest (submit now r rest b) (pending-submit now r rest b)
          ∙ line-submit now r rest b e)
  | inr q ↦ rw (q, submit_same) refl
]

line-submit_list :
    (now : ℕ) (rs : List Request) (b : Background)
    → b.pending ≡ rs
    → line (submit_list now rs b) ≡ line b
unfolding submit_list
line-submit_list now [] b e = refl
line-submit_list now (r ∷ rest) b e =
    line-submit_same now r.desc_type rest (submit now r rest b) (pending-submit now r rest b)
    ∙ line-submit now r rest b e

line-apply :
    (s : Step) (ss : List Step) (b : Background)
    → line b ++ asked (s ∷ ss) ≡ line (apply s b) ++ asked ss
unfolding queue_background_read_request background_read_update_timeouts
    background_read_update_inflight background_read_submit_pending
line-apply (queues t i n) ss b =
    rw (keys-append b.pending (requests t i n), keys-requests t i n)
      (sym (append_assoc (reads b.actions ++ keys b.pending) (range t i n) (asked ss))
        ∙ ap (λ z. z ++ asked ss) (append_assoc (reads b.actions) (keys b.pending) (range t i n)))
line-apply (times_out now) ss b = rw (reads-update_timeouts now b.inflight b.actions) refl
line-apply (is_answered t i) ss b = refl
line-apply (submits now) ss b = elim (Bool-cases (is_empty b.inflight)) [
  | inl q ↦ rw q (ap (λ z. z ++ asked ss) (sym (line-submit_list now b.pending b refl)))
  | inr q ↦ rw q refl
]

-- In every history of queueing, answers, time-outs and submissions, the READ_DESCRIPTOR commands sent so far, followed by the pending requests, are the descriptors asked for, in the order they were asked for: each is sent once, in that order, and none is lost before it is sent.
pub reads-run :
    (ss : List Step) (b : Background)
    → reads (run ss b).actions ++ keys (run ss b).pending
      ≡ (reads b.actions ++ keys b.pending) ++ asked ss
reads-run [] b = sym (append-nil (line b))
reads-run (s ∷ ss) b = reads-run ss (apply s b) ∙ sym (line-apply s ss b)
