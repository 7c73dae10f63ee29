-- ===== src/Cli/Fits.antt =====
-- What an action is called with: the arguments of one format of the tree, each with a number of values
-- between its bounds.
use Prim.Native.String.{String}
use avdecc_lib.Prelude.{
  ℕ, ◌≤◌, ◌≡◌, refl, sym, Bool, true, ◌&&◌, Option, none, some, List, [], ◌∷◌, leb, length, map,
  arith, inl, inr, All, Bool-cases, Option-cases, ltb,
}
use mathlib.Core.Path.{◌∙◌, subst}
use avdecc_lib.Cli.Argument.{CText, Argument, clear, set_value, value_of}
use avdecc_lib.Cli.Format.{Format, CliFptr, call}
use avdecc_lib.Cli.Format as Format
use avdecc_lib.Cli.Words.{accept, with_first, greedy, set_value_cases, set_value-taken}
use avdecc_lib.Cli.Steps.{Bounded}
use avdecc_lib.Cli.Greedy.{run_command-greedy}
use avdecc_lib.Cli.Command.{CliCommand, action, run_command}
use avdecc_lib.Cli.Calls.{all_formats, all_formats-both, From, run_command-From}

abbrev pub all_bounded : List Argument → Bool
all_bounded [] = true
all_bounded (a ∷ args) = leb a.match_min a.match_max && all_bounded args

abbrev pub bounded : Format → Bool
bounded f = all_bounded f.args

-- The argument that an action gets for an argument of its format.
abbrev pub Fits : Argument → Argument → Type 0
Fits a b =
    (b.kind ≡ a.kind)
    × (b.name ≡ a.name)
    × (a.match_min ≤ length b.values)
    × (length b.values ≤ a.match_max)

abbrev pub AllFit : List Argument → List Argument → Type 0
AllFit [] [] = Unit {0}
AllFit [] (b ∷ args) = ⊥
AllFit (a ∷ params) [] = ⊥
AllFit (a ∷ params) (b ∷ args) = Fits a b × AllFit params args

-- What set_value leaves of an argument.
abbrev Same : Argument → Argument → Type 0
Same a b =
    (b.kind ≡ a.kind)
    × (b.name ≡ a.name)
    × (b.match_min ≡ a.match_min)
    × (b.match_max ≡ a.match_max)

module _ (t : CText) (ids : List ℕ) where
  set_value-Same : (w : String) (a : Argument) → Same a (set_value t ids w a).0
  unfolding set_value
  set_value-Same w a = elim (Bool-cases (ltb (length a.values) a.match_max)) [
    | inl e ↦ elim (Option-cases (value_of t ids a.kind w)) [
      | inl q ↦ rw (set_value, e, q) (refl, refl, refl, refl)
      | inr (v, q) ↦ rw (set_value, e, q) (refl, refl, refl, refl)
    ]
    | inr e ↦ rw (set_value, e) (refl, refl, refl, refl)
  ]

  Same-trans : (a b c : Argument) → Same a b → Same b c → Same a c
  Same-trans a b c (k, n, l, u) (k', n', l', u') = (k' ∙ k, n' ∙ n, l' ∙ l, u' ∙ u)

  accept-Same : (words : List String) (a : Argument) → Same a (accept t ids words a).0
  accept-Same [] a = (refl, refl, refl, refl)
  accept-Same (w ∷ words) a = elim (Bool-cases (set_value t ids w a).1) [
    | inl e ↦ rw e (
        Same-trans a (set_value t ids w a).0 (accept t ids words (set_value t ids w a).0).0
          (set_value-Same w a) (accept-Same words (set_value t ids w a).0))
    | inr e ↦ rw e (refl, refl, refl, refl)
  ]

  set_value-room :
      (w : String) (a : Argument)
      → (set_value t ids w a).1 ≡ true
      → length (set_value t ids w a).0.values ≤ a.match_max
  set_value-room w a =
      set_value_cases t ids (λ x. x.1 ≡ true → length x.0.values ≤ a.match_max) w a (λ e. cc)
        (λ b m k l h e. omega (arith, l, h))

  accept-bound :
      (words : List String) (a : Argument)
      → length a.values ≤ a.match_max
      → length (accept t ids words a).0.values ≤ a.match_max
  accept-bound [] a h = h
  accept-bound (w ∷ words) a h = elim (Bool-cases (set_value t ids w a).1) [
    | inl e ↦
        let (m, k, l) = set_value-taken t ids w a e in
        rw e (
          subst (λ x. length (accept t ids words (set_value t ids w a).0).0.values ≤ x) k
            (accept-bound words (set_value t ids w a).0
              (omega (arith, l, k, set_value-room w a e))))
    | inr e ↦ rw e h
  ]

  some-inj : (x y : List Argument) → some x ≡ some y → x ≡ y
  some-inj x y e = cc

  with_first-some :
      (a : Argument) (x : Option (List Argument)) (args : List Argument)
      → with_first t ids a x ≡ some args
      → (r : List Argument) × (x ≡ some r) × (a ∷ r ≡ args)
  with_first-some a none args e = cc
  with_first-some a (some r) args e = (r, refl, some-inj (a ∷ r) args e)

  greedy-AllFit :
      (params : List Argument) (words : List String) (args : List Argument)
      → greedy t ids (map clear params) words ≡ some args
      → AllFit params args
  greedy-AllFit [] [] args e = subst (AllFit []) (some-inj [] args e) tt
  greedy-AllFit [] (w ∷ words) args e = cc
  greedy-AllFit (a ∷ params) words args e =
      let c = accept t ids words (clear a) in
      elim (Bool-cases (leb c.0.match_min (length c.0.values))) [
        | inl f ↦
            let (r, q, p) =
              with_first-some c.0 (greedy t ids (map clear params) c.1) args (rw f at e) in
            let (k, n, l, u) = accept-Same words (clear a) in
            subst (AllFit (a ∷ params)) p (
              (k, n, ground (arith, f, l), accept-bound words (clear a) (omega arith)),
              greedy-AllFit params c.1 r q,
            )
        | inr f ↦ cc (rw f at e)
      ]

  all_bounded-All : (args : List Argument) → all_bounded args ≡ true → All (Bounded t ids) args
  all_bounded-All [] h = tt
  all_bounded-All (a ∷ args) h = (ground (arith, h), all_bounded-All args (ground (arith, h)))

  pub call-some :
      (x : Option CliFptr) (y : Option (ℕ × List Argument)) (act : CliFptr) (n : ℕ)
      → (args : List Argument) → call t ids x y ≡ some (act, n, args)
      → (x ≡ some act) × (y ≡ some (n, args))
  call-some x none act n args e = cc
  call-some none (some y) act n args e = cc
  call-some (some x) (some y) act n args e = (cc, cc)

  counted-some :
      (x : Option (List Argument)) (k n : ℕ) (args : List Argument)
      → ◌≡◌ {A = Option (ℕ × List Argument)}
          (elim x [ none ↦ none | some r ↦ some (k, r) ])
          (some (n, args))
      → (n ≡ k) × (x ≡ some args)
  counted-some none k n args e = cc
  counted-some (some r) k n args e = (cc, cc)

  -- What is known of the format and the words that led to a call.
  abbrev Called : (Format → Bool) → CliFptr → ℕ → List Argument → Format → List String → Type 0
  Called q act n args f ws =
      (q f ≡ true)
      × (f.action ≡ some act)
      × (n ≡ length ws)
      × (greedy t ids (map clear f.args) ws ≡ some args)
      × AllFit f.args args

  run_command-Called :
      (q : Format → Bool) (act : CliFptr) (n : ℕ) (args : List Argument) (f : Format)
      → (ws : List String) → (bounded f && q f) ≡ true
      → Format.run_command t ids f ws ≡ some (act, n, args)
      → Called q act n args f ws
  run_command-Called q act n args f ws k g =
      let b : bounded f ≡ true = ground (arith, k) in
      let (x, y) =
        call-some f.action _ act n args
          (sym (run_command-greedy t ids f ws (all_bounded-All f.args b)) ∙ g) in
      let (m, z) = counted-some (greedy t ids (map clear f.args) ws) (length ws) n args y in
      (ground (arith, k), x, m, z, greedy-AllFit f.args ws args z)

  -- If no argument in the tree has a minimum above its maximum and run_command calls an action, then there is a format, which passes every test that all formats of the tree pass, and a list of words, such that the action is the one of the format, the count that it gets is the number of the words, and the arguments that it gets are those of the greedy matching: those of the format, by name and class, each with a number of values between its minimum and its maximum.
  pub run_command-AllFit :
      (q : Format → Bool) (c : CliCommand) (words : List String)
      → (act : CliFptr) (n : ℕ) (args : List Argument) → all_formats bounded c ≡ true
      → all_formats q c ≡ true
      → run_command t ids c words ≡ some (action act n args)
      → (f : Format) × (ws : List String) × (q f ≡ true)
        × (f.action ≡ some act)
        × (n ≡ length ws)
        × (greedy t ids (map clear f.args) ws ≡ some args)
        × AllFit f.args args
  run_command-AllFit q c words act n args b h e =
      let (f, ws, k, g) = subst (From t ids (λ f. bounded f && q f)) e (
        run_command-From t ids (λ f. bounded f && q f) c words
          (all_formats-both bounded q c b h)) in
      let (x, a, m, z, fit) = run_command-Called q act n args f ws k g in (f, ws, x, a, m, z, fit)
