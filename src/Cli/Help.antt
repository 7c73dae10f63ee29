-- ===== src/Cli/Help.antt =====
-- cli_command::get_sub_command and get_args, which the help and the completion of words use.
use Prim.Native.String.{String}
use Prim.Native.String as String
use text.Mathlib.Text.{◌==◌}
use avdecc_lib.Prelude.{
  ℕ, ◌≡◌, ◌≢◌, refl, ap, sym, false, Option, none, some, List, [], ◌∷◌, if◌then◌else◌, get_elem?,
  All, Bool-cases, inl, inr,
}
use mathlib.Core.Path.{◌∙◌, subst}
use mathlib.Core.Option.{some-injective}
use avdecc_lib.Cli.Argument.{CText, Argument}
use avdecc_lib.Cli.Format.{Format}
use avdecc_lib.Cli.Command.{
  CliCommand, SubCommands, command, no_more, sub_command, run_command, try_formats,
}
use avdecc_lib.Cli.Resolve.{resolve, resolve_sub, reached, run_command-resolve}

-- The first loop: blanks in front are ignored.
abbrev pub skip_blanks : List String → List String
skip_blanks [] = []
skip_blanks (w ∷ words) = let rest = skip_blanks words in if w == "" then rest else w ∷ words

-- The command, NULL as none, and what the two references hold afterwards.
abbrev pub Found : Type 0
Found = Option CliCommand × List String × String

-- What a command returns for the rest of the path; the last argument is what its sub-command with the
-- name returns, if there is one.
abbrev pub found : CliCommand → List String → String → (String → List String → Option Found) → Found
found c [] prefix below = (some c, [], prefix)
found (command no_more formats) (w ∷ words) prefix below =
    (some (command no_more formats), w ∷ words, prefix)
found (command (sub_command n c subs) formats) (w ∷ words) prefix below = elim (below w words) [
  | none ↦ (none, w ∷ words, prefix)
  | some r ↦ r
]

unfoldable mutual
  pub get_sub_command : CliCommand → List String → String → Found
  get_sub_command (command subs formats) path prefix =
      found (command subs formats) (skip_blanks path) prefix
        (λ w words. get_sub_command_in subs w words prefix)

  -- The call for the sub-command with the name.
  pub get_sub_command_in : SubCommands → String → List String → String → Option Found
  get_sub_command_in no_more w words prefix = none
  get_sub_command_in (sub_command n c subs) w words prefix =
      let here = get_sub_command c words (String.◌++◌ (String.◌++◌ prefix w) " ") in
      let rest = get_sub_command_in subs w words prefix in if n == w then some here else rest

-- The arguments of the formats at a position.
abbrev pub get_args : ℕ → List Format → List Argument
get_args index [] = []
get_args index (f ∷ formats) =
    let rest = get_args index formats in
    elim (get_elem? f.args index) [ none ↦ rest | some a ↦ a ∷ rest ]

-- The deepest command along the names of sub-commands, and the words behind its name.
abbrev deeper :
    Option (CliCommand × List String) → CliCommand → String → List String → CliCommand × List String
deeper none c w words = (c, w ∷ words)
deeper (some r) c w words = r

abbrev mutual
  pub reach : CliCommand → List String → CliCommand × List String
  reach (command subs formats) [] = (command subs formats, [])
  reach (command subs formats) (w ∷ words) =
      deeper (reach_sub subs w words) (command subs formats) w words

  pub reach_sub : SubCommands → String → List String → Option (CliCommand × List String)
  reach_sub no_more w words = none
  reach_sub (sub_command n c subs) w words =
      let here = reach c words in
      let rest = reach_sub subs w words in if n == w then some here else rest

-- The command that is found, and the words that are left.
abbrev pub command_of : Found → Option CliCommand × List String
command_of (c, words, prefix) = (c, words)

abbrev pub as_found : CliCommand × List String → Option CliCommand × List String
as_found (c, words) = (some c, words)

skip_blanks-none :
    (words : List String) → All (λ w. (w == "") ≡ false) words → skip_blanks words ≡ words
skip_blanks-none [] a = refl
skip_blanks-none (w ∷ words) a = rw (a.0) refl

-- What is known of a sub-command that is found.
abbrev Reaches : Found → Option (CliCommand × List String) → Type 0
Reaches y r = (s : CliCommand × List String) × (r ≡ some s) × (as_found s ≡ command_of y)

found-reached :
    (n : String) (c : CliCommand) (subs : SubCommands) (formats : List Format) (w : String)
    → (words : List String) (prefix : String) (x : Option Found)
    → (r : Option (CliCommand × List String))
    → ((y : Found) → x ≡ some y → y.0 ≢ none → Reaches y r)
    → (found (command (sub_command n c subs) formats) (w ∷ words) prefix (λ v ws. x)).0 ≢ none
    → as_found (deeper r (command (sub_command n c subs) formats) w words)
      ≡ command_of (found (command (sub_command n c subs) formats) (w ∷ words) prefix (λ v ws. x))
found-reached n c subs formats w words prefix none r a h = absurd (h refl)
found-reached n c subs formats w words prefix (some y) r a h =
    let (s, e, q) = a y refl h in
    ap (λ z. as_found (deeper z (command (sub_command n c subs) formats) w words)) e ∙ q

mutual
  unfolding get_sub_command get_sub_command_in

  get_sub_command-reached :
      (c : CliCommand) (words : List String) (prefix : String)
      → All (λ w. (w == "") ≡ false) words
      → (get_sub_command c words prefix).0 ≢ none
      → as_found (reach c words) ≡ command_of (get_sub_command c words prefix)
  get_sub_command-reached (command subs formats) [] prefix a h = refl
  get_sub_command-reached (command no_more formats) (w ∷ words) prefix a h = rw (a.0) refl
  get_sub_command-reached (command (sub_command n c subs) formats) (w ∷ words) prefix a h =
      rw (a.0) (
        found-reached n c subs formats w words prefix
          (get_sub_command_in (sub_command n c subs) w words prefix)
          (reach_sub (sub_command n c subs) w words)
          (get_sub_command_in-reached (sub_command n c subs) w words prefix a.1) (rw (a.0) at h))

  get_sub_command_in-reached :
      (subs : SubCommands) (w : String) (words : List String) (prefix : String)
      → All (λ v. (v == "") ≡ false) words
      → (y : Found) → get_sub_command_in subs w words prefix ≡ some y
      → y.0 ≢ none
      → Reaches y (reach_sub subs w words)
  get_sub_command_in-reached no_more w words prefix a y e h = cc
  get_sub_command_in-reached (sub_command n c subs) w words prefix a y e h =
      elim (Bool-cases (n == w)) [
        | inl k ↦
            let q : get_sub_command c words (String.◌++◌ (String.◌++◌ prefix w) " ") ≡ y =
              some-injective _ _ (rw k at e) in
            rw k (
              reach c words,
              refl,
              get_sub_command-reached c words (String.◌++◌ (String.◌++◌ prefix w) " ") a
                    (subst (λ z. z.0 ≢ none) (sym q) h)
                  ∙ ap command_of q,
            )
        | inr k ↦ rw k (get_sub_command_in-reached subs w words prefix a y (rw k at e) h)
      ]

-- On a path without blanks, if get_sub_command finds a command, that is the deepest command along the names of sub-commands, with its sub-commands and its formats, and the words behind its name are left.
pub get_sub_command-reach :
    (c : CliCommand) (words : List String) (prefix : String)
    → All (λ w. (w == "") ≡ false) words
    → (get_sub_command c words prefix).0 ≢ none
    → command_of (get_sub_command c words prefix) ≡ as_found (reach c words)
get_sub_command-reach c words prefix a h = sym (get_sub_command-reached c words prefix a h)

abbrev pub formats_of : CliCommand → List Format
formats_of (command subs formats) = formats

abbrev formats_at : CliCommand × List String → List Format × List String
formats_at (c, words) = (formats_of c, words)

deeper-reached :
    (r : Option (CliCommand × List String)) (q : Option (List Format × List String))
    → (subs : SubCommands) (formats : List Format) (w : String) (words : List String)
    → q ≡ (elim r [ none ↦ none | some s ↦ some (formats_at s) ])
    → reached q formats w words ≡ formats_at (deeper r (command subs formats) w words)
deeper-reached none q subs formats w words e = ap (λ z. reached z formats w words) e
deeper-reached (some s) q subs formats w words e = ap (λ z. reached z formats w words) e

mutual
  resolve-reach :
      (c : CliCommand) (words : List String) → resolve c words ≡ formats_at (reach c words)
  resolve-reach (command subs formats) [] = refl
  resolve-reach (command subs formats) (w ∷ words) =
      deeper-reached (reach_sub subs w words) (resolve_sub subs w words) subs formats w words
        (resolve_sub-reach_sub subs w words)

  resolve_sub-reach_sub :
      (subs : SubCommands) (w : String) (words : List String)
      → ◌≡◌ {A = Option (List Format × List String)}
          (resolve_sub subs w words)
          (elim (reach_sub subs w words) [ none ↦ none | some s ↦ some (formats_at s) ])
  resolve_sub-reach_sub no_more w words = refl
  resolve_sub-reach_sub (sub_command n c subs) w words = elim (Bool-cases (n == w)) [
    | inl k ↦ rw k (ap some (resolve-reach c words))
    | inr k ↦ rw k (resolve_sub-reach_sub subs w words)
  ]

-- On a path without blanks, if get_sub_command finds a command that has formats, run_command does with the same words what the formats of that command do with the words that get_sub_command leaves.
pub get_sub_command-run_command :
    (t : CText) (ids : List ℕ) (c d : CliCommand) (words rest : List String) (prefix : String)
    → All (λ w. (w == "") ≡ false) words
    → command_of (get_sub_command c words prefix) ≡ (some d, rest)
    → formats_of d ≢ []
    → run_command t ids c words ≡ try_formats t ids (formats_of d) rest
get_sub_command-run_command t ids c d words rest prefix a e h =
    let found : (get_sub_command c words prefix).0 ≢ none = λ q. cc (sym (ap (λ z. z.0) e) ∙ q) in
    let s : as_found (reach c words) ≡ (some d, rest) =
      get_sub_command-reached c words prefix a found ∙ e in
    let k : (reach c words).0 ≡ d = some-injective _ _ (ap (λ z. z.0) s) in
    let l : (reach c words).1 ≡ rest = ap (λ z. z.1) s in
    let r : resolve c words ≡ (formats_of d, rest) =
      resolve-reach c words
      ∙ ap (λ z. (formats_of z, (reach c words).1)) k
      ∙ ap (λ z. (formats_of d, z)) l in
    run_command-resolve t ids c words (λ q. h (sym (ap (λ z. z.0) r) ∙ q))
    ∙ ap (λ z. try_formats t ids z.0 z.1) r
