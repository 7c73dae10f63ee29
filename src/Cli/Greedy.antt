-- ===== src/Cli/Greedy.antt =====
-- The loop of run_command ends, and finds what a greedy matching finds: each argument takes the words
-- that it accepts up to its maximum, the next goes on behind them, and no word is left.
use Prim.Native.String.{String}
use avdecc_lib.Prelude.{
  ℕ, zero, suc, ◌+◌, ◌≤◌, ◌≡◌, refl, ap, sym, true, not, ◌&&◌, Option, none, some, List, [], ◌∷◌,
  ◌==◌, leb, length, map, uint_max, arith, inl, inr, All, Bool-cases,
}
use mathlib.Core.Path.{◌∙◌}
use avdecc_lib.Cli.Argument.{CText, Argument, clear, set_value}
use avdecc_lib.Cli.Format.{
  Format, run_command, Matching, match_word, match_loop, have_enough, matched, ended, call,
  enough_fuel,
}
use avdecc_lib.Cli.Words.{greedy, set_value-taken}
use avdecc_lib.Cli.Steps.{
  Bounded, Counted, result, result-with_first, greedy-nil, stopped, greedy-full, greedy-taken,
  greedy-next, greedy-stop, result-same, step-full, step-more, step-next, step-stop,
}

module _ (t : CText) (ids : List ℕ) where
  -- A round that goes on takes a word or an argument.
  match_word-progress :
      (before : List Argument) (a : Argument) (rest : List Argument) (count total : ℕ) (w : String)
      → (words : List String) → (match_word t ids before a rest count total w words).args_ok ≡ true
      → suc (
          length (match_word t ids before a rest count total w words).rest
          + length (match_word t ids before a rest count total w words).words)
        ≤ suc (length rest) + suc (length words)
  unfolding match_word
  match_word-progress before a rest count total w words e = ground arith

  -- Fuel of one more than the number of words and of arguments still to be matched is enough: the loop of run_command ends by its own conditions, from every state that it can be in.
  pub match_loop-ends :
      (n : ℕ) (before rest : List Argument) (count total : ℕ) (words : List String)
      → suc (length rest + length words) ≤ n
      → (s : Matching) × (match_loop t ids n before rest count total words ≡ some s)
  unfolding match_loop match_word
  match_loop-ends zero before rest count total words h = ground (arith, h)
  match_loop-ends (suc n) before [] count total words h = (_, refl)
  match_loop-ends (suc n) before (a ∷ rest) count total [] h = (_, refl)
  match_loop-ends (suc n) before (a ∷ rest) count total (w ∷ words) h =
      let s = match_word t ids before a rest count total w words in
      elim (Bool-cases s.args_ok) [
        | inl e ↦
            let (r, q) =
              match_loop-ends n s.before s.rest s.match_count s.total_matched s.words
                (omega (arith, h, match_word-progress before a rest count total w words e)) in
            (r, rw (match_loop, e) q)
        | inr e ↦ (s, rw (match_loop, e) refl)
      ]

  loop-greedy :
      (n : ℕ) (before rest : List Argument) (count total : ℕ) (words : List String)
      → suc (length rest + length words) ≤ n
      → All (Bounded t ids) rest
      → Counted t ids count rest
      → ended t ids (match_loop t ids n before rest count total words)
        ≡ result t ids before (total + length words) (greedy t ids rest words)
  unfolding match_loop match_word matched have_enough
  loop-greedy zero before rest count total words h b c = ground (arith, h)
  loop-greedy (suc n) before [] count total [] h b c = ground arith
  loop-greedy (suc n) before [] count total (w ∷ words) h b c = ground arith
  loop-greedy (suc n) before (a ∷ rest) count total [] h b c =
      stopped t ids before (a ∷ rest) count total
      ∙ sym (ap (result t ids before (total + 0)) (greedy-nil t ids (a ∷ rest)))
  loop-greedy (suc n) before (a ∷ rest) count total (w ∷ words) h b c =
      elim (Bool-cases (set_value t ids w a).1) [
        | inl e ↦
            let (m, k, l) = set_value-taken t ids w a e in
            elim (Bool-cases (not (a.match_max == uint_max) && leb a.match_max (count + 1))) [
              | inl f ↦
                  ap (ended t ids) (step-full t ids before a rest count total w words n e f)
                  ∙ loop-greedy n ((set_value t ids w a).0 ∷ before) rest 0 (total + 1) words
                      (omega (arith, h)) b.1 c.1
                  ∙ result-with_first t ids before (set_value t ids w a).0
                      (total + 1 + length words) (greedy t ids rest words)
                  ∙ result-same t ids before (total + 1 + length words) (total + suc (length words))
                      _ _ (omega arith)
                      (greedy-full t ids a rest w words e b.0 (ground (arith, f, c.0)))
              | inr f ↦
                  ap (ended t ids) (step-more t ids before a rest count total w words n e f)
                  ∙ loop-greedy n before ((set_value t ids w a).0 ∷ rest) (count + 1) (total + 1)
                      words (omega (arith, h)) (omega (arith, b.0, m, k), b.1)
                      (omega (arith, l, c.0), c.1)
                  ∙ result-same t ids before (total + 1 + length words) (total + suc (length words))
                      _ _ (omega arith) (greedy-taken t ids a rest w words e)
            ]
        | inr e ↦ elim (Bool-cases (leb a.match_min count)) [
          | inl f ↦
              ap (ended t ids) (step-next t ids before a rest count total w words n e f)
              ∙ loop-greedy n (a ∷ before) rest 0 total (w ∷ words) (omega (arith, h)) b.1 c.1
              ∙ result-with_first t ids before a (total + suc (length words))
                  (greedy t ids rest (w ∷ words))
              ∙ result-same t ids before _ _ _ _ refl
                  (greedy-next t ids a rest w words e (ground (arith, f, c.0)))
          | inr f ↦
              step-stop t ids before a rest count total w words n e f
              ∙ result-same t ids before (total + suc (length words)) _ none _ refl
                  (greedy-stop t ids a rest w words e (ground (arith, f, c.0)))
        ]
      ]

  Counted-clear : (args : List Argument) → Counted t ids 0 (map clear args)
  Counted-clear [] = tt
  Counted-clear (a ∷ args) = (refl, Counted-clear args)

  Bounded-clear :
      (args : List Argument) → All (Bounded t ids) args → All (Bounded t ids) (map clear args)
  Bounded-clear [] b = tt
  Bounded-clear (a ∷ args) b = (b.0, Bounded-clear args b.1)

  length-clear : (args : List Argument) → length (map clear args) ≡ length args
  length-clear [] = refl
  length-clear (a ∷ args) = ap suc (length-clear args)

  result-nil :
      (total : ℕ) (x : Option (List Argument))
      → result t ids [] total x ≡ (elim x [ none ↦ none | some args ↦ some (total, args) ])
  result-nil total none = refl
  result-nil total (some args) = refl

  -- If no argument of a format has a minimum above its maximum, run_command calls the action of the format, if there is one, exactly when the greedy matching of the words with the cleared arguments succeeds, with the number of all words and with the arguments as that matching fills them.
  pub run_command-greedy :
      (f : Format) (words : List String)
      → All (Bounded t ids) f.args
      → run_command t ids f words
        ≡ call t ids f.action (elim (greedy t ids (map clear f.args) words) [
          | none ↦ none
          | some args ↦ some (length words, args)
        ])
  unfolding run_command
  run_command-greedy f words b = ap (call t ids f.action) (
      loop-greedy (enough_fuel t ids f.args words) [] (map clear f.args) 0 0 words
        (omega (arith, length-clear f.args)) (Bounded-clear f.args b) (Counted-clear f.args)
      ∙ result-same t ids [] (0 + length words) (length words)
          (greedy t ids (map clear f.args) words) (greedy t ids (map clear f.args) words)
          (omega arith) refl
      ∙ result-nil (length words) (greedy t ids (map clear f.args) words))
