-- ===== src/Cli/Steps.antt =====
-- The rounds of the loop of run_command, and what the greedy matching does in the same place.
use Prim.Native.String.{String}
use avdecc_lib.Prelude.{
  ℕ, suc, ◌+◌, ◌≤◌, ◌≡◌, refl, true, false, not, ◌&&◌, Option, none, some, List, [], ◌∷◌,
  if◌then◌else◌, ◌==◌, leb, length, uint_max, arith, inl, inr, Bool-cases,
}
use avdecc_lib.Cli.Argument.{CText, Argument, set_value}
use avdecc_lib.Cli.Format.{match_word, match_loop, rejoin, have_enough, matched, ended}
use avdecc_lib.Cli.Words.{with_first, greedy, set_value-taken, set_value-refused, accept-full}

module _ (t : CText) (ids : List ℕ) where
  abbrev pub Bounded : Argument → Type 0
  Bounded a = a.match_min ≤ a.match_max

  -- match_count counts the values of the argument at m_i; those behind it are clear.
  abbrev pub Counted : ℕ → List Argument → Type 0
  Counted count [] = Unit {0}
  Counted count (a ∷ rest) = (length a.values ≡ count) × Counted 0 rest

  abbrev pub result : List Argument → ℕ → Option (List Argument) → Option (ℕ × List Argument)
  result before total none = none
  result before total (some args) = some (total, rejoin t ids before args)

  pub result-with_first :
      (before : List Argument) (a : Argument) (total : ℕ) (x : Option (List Argument))
      → result (a ∷ before) total x ≡ result before total (with_first t ids a x)
  result-with_first before a total none = refl
  result-with_first before a total (some args) = refl

  pub greedy-nil :
      (rest : List Argument)
      → greedy t ids rest [] ≡ (if have_enough t ids rest then some rest else none)
  unfolding have_enough
  greedy-nil [] = refl
  greedy-nil (a ∷ rest) = rw (greedy-nil rest) (ground arith)

  pub stopped :
      (before rest : List Argument) (count total : ℕ)
      → matched t ids (record {
        before = before;
        rest = rest;
        match_count = count;
        total_matched = total;
        words = [];
        args_ok = true;
      })
        ≡ result before (total + 0) (if have_enough t ids rest then some rest else none)
  unfolding matched
  stopped before rest count total = elim (Bool-cases (have_enough t ids rest)) [
    | inl e ↦ rw (matched, e) (ground arith)
    | inr e ↦ rw (matched, e) refl
  ]

  -- The word in front is taken, and fills the argument.
  pub greedy-full :
      (a : Argument) (rest : List Argument) (w : String) (words : List String)
      → (set_value t ids w a).1 ≡ true
      → Bounded a
      → a.match_max ≤ suc (length a.values)
      → greedy t ids (a ∷ rest) (w ∷ words)
        ≡ with_first t ids (set_value t ids w a).0 (greedy t ids rest words)
  greedy-full a rest w words e b f =
      let (m, k, l) = set_value-taken t ids w a e in
      rw (e, accept-full t ids words (set_value t ids w a).0 (omega (arith, f, k, l)))
        (ground (arith, b, f, m, k, l))

  pub greedy-taken :
      (a : Argument) (rest : List Argument) (w : String) (words : List String)
      → (set_value t ids w a).1 ≡ true
      → greedy t ids (a ∷ rest) (w ∷ words) ≡ greedy t ids ((set_value t ids w a).0 ∷ rest) words
  greedy-taken a rest w words e = rw e refl

  pub greedy-next :
      (a : Argument) (rest : List Argument) (w : String) (words : List String)
      → (set_value t ids w a).1 ≡ false
      → leb a.match_min (length a.values) ≡ true
      → greedy t ids (a ∷ rest) (w ∷ words) ≡ with_first t ids a (greedy t ids rest (w ∷ words))
  greedy-next a rest w words e f = rw (e, f) refl

  pub greedy-stop :
      (a : Argument) (rest : List Argument) (w : String) (words : List String)
      → (set_value t ids w a).1 ≡ false
      → leb a.match_min (length a.values) ≡ false
      → greedy t ids (a ∷ rest) (w ∷ words) ≡ none
  greedy-stop a rest w words e f = rw (e, f) refl

  pub result-same :
      (before : List Argument) (m n : ℕ) (x y : Option (List Argument))
      → m ≡ n
      → y ≡ x
      → result before m x ≡ result before n y
  result-same before m n x y e f = rw (e, f) refl

  module _ (before : List Argument) (a : Argument) (rest : List Argument) (count total : ℕ)
      (w : String) (words : List String) where
    word-full :
        (set_value t ids w a).1 ≡ true
        → (not (a.match_max == uint_max) && leb a.match_max (count + 1)) ≡ true
        → match_word t ids before a rest count total w words ≡ record {
          before = (set_value t ids w a).0 ∷ before;
          rest = rest;
          match_count = 0;
          total_matched = total + 1;
          words = words;
          args_ok = true;
        }
    unfolding match_word
    word-full e f = rw (match_word, e, f) refl

    word-more :
        (set_value t ids w a).1 ≡ true
        → (not (a.match_max == uint_max) && leb a.match_max (count + 1)) ≡ false
        → match_word t ids before a rest count total w words ≡ record {
          before = before;
          rest = (set_value t ids w a).0 ∷ rest;
          match_count = count + 1;
          total_matched = total + 1;
          words = words;
          args_ok = true;
        }
    unfolding match_word
    word-more e f = rw (match_word, e, f) refl

    word-next :
        (set_value t ids w a).1 ≡ false
        → leb a.match_min count ≡ true
        → match_word t ids before a rest count total w words ≡ record {
          before = a ∷ before;
          rest = rest;
          match_count = 0;
          total_matched = total;
          words = w ∷ words;
          args_ok = true;
        }
    unfolding match_word
    word-next e f = rw (match_word, e, f, set_value-refused t ids w a e) refl

    word-stop :
        (set_value t ids w a).1 ≡ false
        → leb a.match_min count ≡ false
        → match_word t ids before a rest count total w words ≡ record {
          before = before;
          rest = a ∷ rest;
          match_count = count;
          total_matched = total;
          words = w ∷ words;
          args_ok = false;
        }
    unfolding match_word
    word-stop e f = rw (match_word, e, f, set_value-refused t ids w a e) refl

    pub step-full :
        (n : ℕ)
        → (set_value t ids w a).1 ≡ true
        → (not (a.match_max == uint_max) && leb a.match_max (count + 1)) ≡ true
        → match_loop t ids (suc n) before (a ∷ rest) count total (w ∷ words)
          ≡ match_loop t ids n ((set_value t ids w a).0 ∷ before) rest 0 (total + 1) words
    unfolding match_loop
    step-full n e f = rw (match_loop, word-full e f, word-full e f) refl

    pub step-more :
        (n : ℕ)
        → (set_value t ids w a).1 ≡ true
        → (not (a.match_max == uint_max) && leb a.match_max (count + 1)) ≡ false
        → match_loop t ids (suc n) before (a ∷ rest) count total (w ∷ words)
          ≡ match_loop t ids n before ((set_value t ids w a).0 ∷ rest) (count + 1) (total + 1) words
    unfolding match_loop
    step-more n e f = rw (match_loop, word-more e f, word-more e f) refl

    pub step-next :
        (n : ℕ)
        → (set_value t ids w a).1 ≡ false
        → leb a.match_min count ≡ true
        → match_loop t ids (suc n) before (a ∷ rest) count total (w ∷ words)
          ≡ match_loop t ids n (a ∷ before) rest 0 total (w ∷ words)
    unfolding match_loop
    step-next n e f = rw (match_loop, word-next e f, word-next e f) refl

    pub step-stop :
        (n : ℕ)
        → (set_value t ids w a).1 ≡ false
        → leb a.match_min count ≡ false
        → ended t ids (match_loop t ids (suc n) before (a ∷ rest) count total (w ∷ words)) ≡ none
    unfolding match_loop matched
    step-stop n e f = rw (match_loop, word-stop e f, word-stop e f) refl
