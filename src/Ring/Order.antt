-- ===== src/Ring/Order.antt =====
-- The order of the entries of a ring buffer.
use avdecc_lib.Prelude.{
  ℕ, zero, suc, ◌+◌, ◌-◌, ◌%◌, ◌≤◌, ◌<◌, ◌≡◌, ◌≢◌, refl, sym, ap, ◌∙◌, true, false, List, [], ◌∷◌,
  ◌++◌, arith, u32, u32_mod, ltb, ◌==◌, ◌⊎◌, inl, inr, zero_or_suc,
}
use mathlib.Core.List.{append-nil, append_assoc}
use avdecc_lib.Ring.{Ring, used, store, post, blocked, delivered, ended, dispatch}

module _ {A : Type 0} where
  -- k entries from index i on.
  abbrev pub slots : (ℕ → A) → ℕ → ℕ → List A
  slots buf zero i = []
  slots buf (suc k) i = buf (i % 32) ∷ slots buf k (suc i)

  -- The abstract queue: what was posted and is not delivered, oldest first.
  abbrev pub pending : Ring A → List A
  pending r = slots r.buf (used r) r.read_index

  pub record IsRing (r : Ring A) : Type 0 where
    pub read-lt : r.read_index < u32_mod
    pub write-lt : r.write_index < u32_mod
    pub signalled : r.signals ≡ used r
    pub bounded : used r ≤ 33

  -- Only the place of an index matters.
  slots_place : (buf : ℕ → A) (k i j : ℕ) → i % 32 ≡ j % 32 → slots buf k i ≡ slots buf k j
  slots_place buf zero i j e = refl
  slots_place buf (suc k) i j e =
      ground (arith, ap buf e, slots_place buf k (suc i) (suc j) (omega arith))

  -- A store outside the places leaves them.
  slots-store :
      (buf : ℕ → A) (a : A) (k i w : ℕ)
      → ((d : ℕ) → d < k → (i + d) % 32 ≢ w)
      → slots (store buf w a) k i ≡ slots buf k i
  slots-store buf a zero i w n = refl
  slots-store buf a (suc k) i w n = ground (
    arith,
    n 0 (omega arith),
    slots-store buf a k (suc i) w (λ d l e. n (suc d) (omega arith) (omega (arith, e))),
  )

  slots_snoc :
      (buf : ℕ → A) (k i : ℕ) → slots buf (suc k) i ≡ slots buf k i ++ buf ((i + k) % 32) ∷ []
  slots_snoc buf zero i = ap (λ n. buf (n % 32) ∷ []) (omega arith)
  slots_snoc buf (suc k) i =
      ap (λ l. buf (i % 32) ∷ l)
        (slots_snoc buf k (suc i)
          ∙ ap (λ n. slots buf k (suc i) ++ buf (n % 32) ∷ []) (omega arith))

  pub post-IsRing : (a : A) (r : Ring A) → IsRing r → IsRing (post a r)
  unfolding post
  post-IsRing a r h = ground arith

  -- A post onto a ring with fewer than 32 undelivered entries appends to the queue and misses nothing, also where the 32-bit indices wrap.
  pub pending-post :
      (a : A) (r : Ring A)
      → IsRing r
      → used r < 32
      → (pending (post a r) ≡ pending r ++ a ∷ [])
        × ((post a r).missed_event_cnt ≡ r.missed_event_cnt)
  unfolding post
  pending-post a r h lt = rw room (
    ap (λ k. slots (store r.buf (r.write_index % 32) a) k r.read_index) grows
        ∙ slots_snoc (store r.buf (r.write_index % 32) a) (used r) r.read_index
        ∙ ap (λ l. l ++ store r.buf (r.write_index % 32) a ((r.read_index + used r) % 32) ∷ [])
            (slots-store r.buf a (used r) r.read_index (r.write_index % 32)
              (λ d l. apart d r.read_index r.write_index l lt h.read-lt h.write-lt))
        ∙ ap (λ x. pending r ++ x ∷ []) stored,
    refl,
  )
    where
      room : ltb 32 (used r) ≡ false
      room = ground arith

      grows : u32 (u32 (r.write_index + 1) + u32_mod - r.read_index) ≡ suc (used r)
      grows = omega (arith, h.read-lt, h.write-lt)

      stored : store r.buf (r.write_index % 32) a ((r.read_index + used r) % 32) ≡ a
      stored = ground (arith, h.read-lt, h.write-lt)

      apart :
          (d i w : ℕ)
          → d < u32 (w + u32_mod - i)
          → u32 (w + u32_mod - i) < 32
          → i < u32_mod
          → w < u32_mod
          → (i + d) % 32 ≢ w % 32
      apart d i w l m hi hw e = omega arith

  dispatch_idle : (r : Ring A) → IsRing r → used r ≡ 0 → dispatch r ≡ blocked
  unfolding dispatch
  dispatch_idle r h e = ground (arith, h.signalled)

  -- The ring after its oldest entry is delivered.
  abbrev pub advance : Ring A → Ring A
  advance r = record r { read_index = u32 (r.read_index + 1); signals = r.signals - 1 }

  dispatch_busy :
      (r : Ring A) (k : ℕ)
      → IsRing r
      → used r ≡ suc k
      → dispatch r ≡ delivered (r.buf (r.read_index % 32)) (advance r)
  unfolding dispatch
  dispatch_busy r k h e = rw (waiting, filled)
    where
      waiting : (r.signals == 0) ≡ false
      waiting = ground (arith, h.signalled)

      filled : ltb 0 (used r) ≡ true
      filled = ground arith

  used-advance : (r : Ring A) (k : ℕ) → IsRing r → used r ≡ suc k → used (advance r) ≡ k
  used-advance r k h e = omega (arith, h.read-lt, h.write-lt)

  advance-IsRing : (r : Ring A) (k : ℕ) → IsRing r → used r ≡ suc k → IsRing (advance r)
  advance-IsRing r k h e = omega (arith, used-advance r k h e, h)

  pending-advance :
      (r : Ring A) (k : ℕ)
      → IsRing r
      → used r ≡ suc k
      → pending r ≡ r.buf (r.read_index % 32) ∷ pending (advance r)
  pending-advance r k h e =
      ap (λ n. slots r.buf n r.read_index) e
      ∙ ap (λ l. r.buf (r.read_index % 32) ∷ l)
          (slots_place r.buf k (suc r.read_index) (u32 (r.read_index + 1))
              (omega (arith, h.read-lt))
            ∙ ap (λ n. slots r.buf n (u32 (r.read_index + 1))) (sym (used-advance r k h e)))

  -- A round of the dispatch thread blocks where the queue is empty, and otherwise takes its head.
  pending-dispatch :
      (r : Ring A)
      → IsRing r
      → ((pending r ≡ []) × (dispatch r ≡ blocked))
        ⊎ ((a : A) × (s : Ring A) × (dispatch r ≡ delivered a s)
            × (pending r ≡ a ∷ pending s)
            × IsRing s)
  pending-dispatch r h = elim (zero_or_suc (used r)) [
    | inl e ↦ inl (ap (λ k. slots r.buf k r.read_index) e, dispatch_idle r h e)
    | inr (k, e) ↦ inr (
      r.buf (r.read_index % 32),
      advance r,
      dispatch_busy r k h e,
      pending-advance r k h e,
      advance-IsRing r k h e,
    )
  ]

  -- A post onto a consistent ring that holds 32 undelivered entries, all there is room for, is accepted and counted as no miss, and the next entry that is delivered is the new one: it took the place of the oldest.
  pub post_overruns :
      (a : A) (r : Ring A)
      → IsRing r
      → used r ≡ 32
      → ((post a r).missed_event_cnt ≡ r.missed_event_cnt)
        × (dispatch (post a r) ≡ delivered a (advance (post a r)))
  post_overruns a r h e = (
    unfold post in ground arith,
    dispatch_busy (post a r) 32 (post-IsRing a r h)
          (unfold post in ground (arith, h.read-lt, h.write-lt))
        ∙ ap (λ x. delivered x (advance (post a r)))
            (unfold post in ground (arith, h.read-lt, h.write-lt)),
  )

  -- Only when 33 are undelivered is a post refused, and counted.
  pub post_refused :
      (a : A) (r : Ring A)
      → 33 ≤ used r
      → post a r ≡ record r { missed_event_cnt = u32 (r.missed_event_cnt + 1) }
  unfolding post
  post_refused a r h = ground arith

-- What the threads do to a ring, one step after another.
pub data Op (A : Type 0) : Type 0 where
  posts : A → Op A
  dispatches : Op A

module _ {A : Type 0} where
  -- What the callback is given, oldest first, and the ring at the end.
  abbrev pub serve : List (Op A) → Ring A → List A × Ring A
  serve [] r = ([], r)
  serve (posts a ∷ os) r = serve os (post a r)
  serve (dispatches ∷ os) r = elim (dispatch r) [
    | blocked ↦ serve os r
    | delivered a s ↦ let (l, t) = serve os s in (a ∷ l, t)
    | ended s ↦ ([], s)
  ]

  abbrev pub all_posted : List (Op A) → List A
  all_posted [] = []
  all_posted (posts a ∷ os) = a ∷ all_posted os
  all_posted (dispatches ∷ os) = all_posted os

  -- The dispatch thread keeps up: fewer than 32 entries are undelivered at each post.
  abbrev pub HasRoom : List (Op A) → Ring A → Type 0
  HasRoom [] r = Unit
  HasRoom (posts a ∷ os) r = (used r < 32) × HasRoom os (post a r)
  HasRoom (dispatches ∷ os) r = elim (dispatch r) [
    | blocked ↦ HasRoom os r
    | delivered a s ↦ HasRoom os s
    | ended s ↦ Unit
  ]

  -- In any interleaving of posts and dispatches from a consistent ring, if fewer than 32 entries are undelivered at each post, what the callback was given, followed by what is still undelivered, is what was undelivered before followed by all that was posted, in order: nothing is lost, doubled or reordered.
  pub serve_in_order :
      (os : List (Op A)) (r : Ring A)
      → IsRing r
      → HasRoom os r
      → (serve os r).0 ++ pending (serve os r).1 ≡ pending r ++ all_posted os
  serve_in_order [] r h room = sym (append-nil (pending r))
  serve_in_order (posts a ∷ os) r h room =
      serve_in_order os (post a r) (post-IsRing a r h) room.1
      ∙ ap (λ l. l ++ all_posted os) (pending-post a r h room.0).0
      ∙ append_assoc (pending r) (a ∷ []) (all_posted os)
  serve_in_order (dispatches ∷ os) r h room = elim (pending-dispatch r h) [
    | inl (e, d) ↦ rw (d, serve) (serve_in_order os r h (rw (d, HasRoom) at room))
    | inr (a, s, d, e, k) ↦
        rw (d, serve, e) (ap (λ l. a ∷ l) (serve_in_order os s k (rw (d, HasRoom) at room)))
  ]
