-- ===== src/Inflight/Keys.antt =====
-- Lists of commands in flight whose sequence ids are distinct: a search by the id of an entry finds
-- that entry, and the operations of the state machines keep the ids distinct.
use avdecc_lib.Prelude.{
  ap, ℕ, zero, suc, ◌≡◌, ◌≢◌, sym, ◌∙◌, Bool, List, [], ◌∷◌, ◌++◌, some, arith, get_elem?, erase_at,
  erase_first, modify_at, modify_first, All,
}
use mathlib.Core.Path.{subst}
use mathlib.Core.Option.{some-injective}
use avdecc_lib.Inflight.{Inflight, seq_id_comp}

module _ {F : Type 0} where
  -- No entry has the id.
  abbrev pub Absent : ℕ → List (Inflight F) → Type 0
  Absent v = All (λ c. c.cmd_seq_id ≢ v)

  abbrev pub Distinct : List (Inflight F) → Type 0
  Distinct [] = Unit {0}
  Distinct (c ∷ cs) = Absent c.cmd_seq_id cs × Distinct cs

module _ {F : Type 0} where
  Absent-get_elem? :
      (v i : ℕ) (cs : List (Inflight F)) {c : Inflight F}
      → Absent v cs
      → get_elem? cs i ≡ some c
      → c.cmd_seq_id ≢ v
  Absent-get_elem? v i [] a e = cc
  Absent-get_elem? v zero (x ∷ cs) a e = ground (arith, a.0)
  Absent-get_elem? v (suc i) (x ∷ cs) a e = Absent-get_elem? v i cs a.1 e

  -- With distinct ids the first entry of the id of entry i is entry i.
  pub modify_first-eq-modify_at :
      (f : Inflight F → Inflight F) (cs : List (Inflight F)) (i : ℕ) (c : Inflight F)
      → Distinct cs
      → get_elem? cs i ≡ some c
      → modify_first (seq_id_comp c.cmd_seq_id) f cs ≡ modify_at cs i f
  modify_first-eq-modify_at f [] i c d e = cc
  modify_first-eq-modify_at f (x ∷ cs) zero c d e = ground arith
  modify_first-eq-modify_at f (x ∷ cs) (suc i) c d e =
      ground
        (arith, Absent-get_elem? x.cmd_seq_id i cs d.0 e, modify_first-eq-modify_at f cs i c d.1 e)

  Absent-modify_at :
      (f : Inflight F → Inflight F) (v : ℕ) (cs : List (Inflight F)) (i : ℕ)
      → ((c : Inflight F) → (f c).cmd_seq_id ≡ c.cmd_seq_id)
      → Absent v cs
      → Absent v (modify_at cs i f)
  Absent-modify_at f v [] i k a = a
  Absent-modify_at f v (x ∷ cs) zero k a = ((λ e. a.0 (sym (k x) ∙ e)), a.1)
  Absent-modify_at f v (x ∷ cs) (suc i) k a = (a.0, Absent-modify_at f v cs i k a.1)

  pub Distinct-modify_at :
      (f : Inflight F → Inflight F) (cs : List (Inflight F)) (i : ℕ)
      → ((c : Inflight F) → (f c).cmd_seq_id ≡ c.cmd_seq_id)
      → Distinct cs
      → Distinct (modify_at cs i f)
  Distinct-modify_at f [] i k d = d
  Distinct-modify_at f (x ∷ cs) zero k d = (rw (k x) d.0, d.1)
  Distinct-modify_at f (x ∷ cs) (suc i) k d =
      (Absent-modify_at f x.cmd_seq_id cs i k d.0, Distinct-modify_at f cs i k d.1)

  Absent-erase_at :
      (v : ℕ) (cs : List (Inflight F)) (i : ℕ) → Absent v cs → Absent v (erase_at cs i)
  Absent-erase_at v [] i a = a
  Absent-erase_at v (x ∷ cs) zero a = a.1
  Absent-erase_at v (x ∷ cs) (suc i) a = (a.0, Absent-erase_at v cs i a.1)

  pub Distinct-erase_at : (cs : List (Inflight F)) (i : ℕ) → Distinct cs → Distinct (erase_at cs i)
  Distinct-erase_at [] i d = d
  Distinct-erase_at (x ∷ cs) zero d = d.1
  Distinct-erase_at (x ∷ cs) (suc i) d =
      (Absent-erase_at x.cmd_seq_id cs i d.0, Distinct-erase_at cs i d.1)

  Absent-erase_first :
      (v : ℕ) (p : Inflight F → Bool) (cs : List (Inflight F))
      → Absent v cs
      → Absent v (erase_first p cs)
  Absent-erase_first v p [] a = a
  Absent-erase_first v p (x ∷ cs) a = ground (arith, Absent-erase_first v p cs a.1)

  pub Distinct-erase_first :
      (p : Inflight F → Bool) (cs : List (Inflight F)) → Distinct cs → Distinct (erase_first p cs)
  Distinct-erase_first p [] d = d
  Distinct-erase_first p (x ∷ cs) d =
      ground (arith, Absent-erase_first x.cmd_seq_id p cs d.0, Distinct-erase_first p cs d.1)

  pub Distinct-append :
      (cs : List (Inflight F)) (c : Inflight F)
      → Distinct cs
      → Absent c.cmd_seq_id cs
      → Distinct (cs ++ c ∷ [])
  Distinct-append [] c d a = (tt, tt)
  Distinct-append (x ∷ cs) c d a =
      (Absent-snoc x.cmd_seq_id cs c d.0 (λ e. a.0 (sym e)), Distinct-append cs c d.1 a.1)
    where
      Absent-snoc :
          (v : ℕ) (xs : List (Inflight F)) (y : Inflight F)
          → Absent v xs
          → y.cmd_seq_id ≢ v
          → Absent v (xs ++ y ∷ [])
      Absent-snoc v [] y b n = (n, tt)
      Absent-snoc v (z ∷ xs) y b n = (b.0, Absent-snoc v xs y b.1 n)

  -- After the first entry of an id is erased none with that id is left.
  pub Absent-erase_first_self :
      (v : ℕ) (cs : List (Inflight F)) → Distinct cs → Absent v (erase_first (seq_id_comp v) cs)
  Absent-erase_first_self v [] d = tt
  Absent-erase_first_self v (x ∷ cs) d = ground (arith, Absent-erase_first_self v cs d.1)

  -- A change of entry i, and a change of what is asked that the other ids do not feel.
  pub All-modify_at_ne {κ} :
      (P Q : Inflight F → Type κ) (f : Inflight F → Inflight F) (cs : List (Inflight F)) (i : ℕ)
      (c : Inflight F)
      → Distinct cs
      → get_elem? cs i ≡ some c
      → (P c → Q (f c))
      → ((x : Inflight F) → x.cmd_seq_id ≢ c.cmd_seq_id → P x → Q x)
      → All P cs
      → All Q (modify_at cs i f)
  All-modify_at_ne P Q f [] i c d e k n h = tt
  All-modify_at_ne P Q f (x ∷ cs) zero c d e k n h = (
    subst (λ y. P y → Q (f y)) (sym (some-injective _ _ e)) k h.0,
    All_rest c.cmd_seq_id cs (rw (ap (λ y. y.cmd_seq_id) (some-injective _ _ e)) at d.0) n h.1,
  )
    where
      All_rest :
          (v : ℕ) (xs : List (Inflight F))
          → Absent v xs
          → ((y : Inflight F) → y.cmd_seq_id ≢ v → P y → Q y)
          → All P xs
          → All Q xs
      All_rest v [] a m g = tt
      All_rest v (y ∷ xs) a m g = (m y a.0 g.0, All_rest v xs a.1 m g.1)
  All-modify_at_ne P Q f (x ∷ cs) (suc i) c d e k n h = (
    n x (λ q. Absent-get_elem? x.cmd_seq_id i cs d.0 e (sym q)) h.0,
    All-modify_at_ne P Q f cs i c d.1 e k n h.1,
  )
