-- ===== src/Cli/Shadowed.antt =====
-- An action that no command line calls: each format that has it stands behind one that takes the same
-- words.
use Prim.Native.String.{String}
use text.Mathlib.Text.{◌==◌}
use text.Mathlib.TextEquality.{eq_iff}
use avdecc_lib.Prelude.{
  ℕ, ◌≡◌, ◌≢◌, refl, ap, sym, ◌∙◌, Bool, true, false, not, ◌&&◌, ◌||◌, Option, none, some, List, [],
  ◌∷◌, length, map, arith, inl, inr, Bool-cases, Option-cases,
}
use avdecc_lib.Prelude as Prelude
use mathlib.Core.Path.{subst}
use mathlib.Core.Option.{some-injective}
use avdecc_lib.Cli.Argument.{
  CText, Kind, cli_argument_int, cli_argument_end_station, cli_argument_string, Argument, clear,
}
use avdecc_lib.Cli.Format.{
  Format, CliFptr, call, match_args, match_loop, ended, cmd_get_tx_connection,
}
use avdecc_lib.Cli.Format as Format
use avdecc_lib.Cli.Fits.{call-some}
use avdecc_lib.Cli.Command.{
  CliCommand, SubCommands, command, no_more, sub_command, Outcome, action, try_formats,
  with_formats, run_command, run_sub_command,
}
use avdecc_lib.Cli.Calls.{all_list, From, try_formats-From}
use avdecc_lib.Cli.Tree.All.{commands}

abbrev same_kind : Kind → Kind → Bool
same_kind cli_argument_int cli_argument_int = true
same_kind cli_argument_end_station cli_argument_end_station = true
same_kind cli_argument_string cli_argument_string = true
same_kind _ _ = false

same_kind-eq : (a b : Kind) → same_kind a b ≡ true → a ≡ b
same_kind-eq cli_argument_int cli_argument_int e = refl
same_kind-eq cli_argument_int cli_argument_end_station e = cc
same_kind-eq cli_argument_int cli_argument_string e = cc
same_kind-eq cli_argument_end_station cli_argument_int e = cc
same_kind-eq cli_argument_end_station cli_argument_end_station e = refl
same_kind-eq cli_argument_end_station cli_argument_string e = cc
same_kind-eq cli_argument_string cli_argument_int e = cc
same_kind-eq cli_argument_string cli_argument_end_station e = cc
same_kind-eq cli_argument_string cli_argument_string e = refl

abbrev same_argument : Argument → Argument → Bool
same_argument a b =
    same_kind a.kind b.kind
    && (a.name == b.name)
    && Prelude.◌==◌ a.match_min b.match_min
    && Prelude.◌==◌ a.match_max b.match_max

clear-same : (a b : Argument) → same_argument a b ≡ true → clear a ≡ clear b
clear-same a b h =
    let k : a.kind ≡ b.kind = same_kind-eq a.kind b.kind (ground (arith, h)) in
    let n : a.name ≡ b.name = (eq_iff a.name b.name).0 (ground (arith, h)) in
    let l : a.match_min ≡ b.match_min = ground (arith, h) in
    let u : a.match_max ≡ b.match_max = ground (arith, h) in
    λ i. record { kind = k i; name = n i; match_min = l i; match_max = u i; values = [] }

abbrev same_arguments : List Argument → List Argument → Bool
same_arguments [] [] = true
same_arguments [] (b ∷ ys) = false
same_arguments (a ∷ xs) [] = false
same_arguments (a ∷ xs) (b ∷ ys) = same_argument a b && same_arguments xs ys

same_arguments-clear :
    (xs ys : List Argument)
    → same_arguments xs ys ≡ true
    → (map clear xs ≡ map clear ys) × (length xs ≡ length ys)
same_arguments-clear [] [] h = (refl, refl)
same_arguments-clear [] (b ∷ ys) h = cc
same_arguments-clear (a ∷ xs) [] h = cc
same_arguments-clear (a ∷ xs) (b ∷ ys) h =
    let (m, l) = same_arguments-clear xs ys (ground (arith, h)) in
    let c = clear-same a b (ground (arith, h)) in
    (ap (λ x. x ∷ map clear xs) c ∙ ap (λ zs. clear b ∷ zs) m, omega (arith, l))

abbrev has_action : Option CliFptr → Bool
has_action none = false
has_action (some _) = true

module _ (t : CText) (ids : List ℕ) where
  match_args-same :
      (xs ys : List Argument) (ws : List String)
      → same_arguments xs ys ≡ true
      → match_args t ids xs ws ≡ match_args t ids ys ws
  match_args-same xs ys ws h =
      let (m, l) = same_arguments-clear xs ys h in
      λ i.
        ended t ids (match_loop t ids (Prelude.suc (Prelude.◌+◌ (l i) (length ws))) [] (m i) 0 0 ws)

-- A test of actions that the action meets.
module _ (t : CText) (ids : List ℕ) (is_act : Option CliFptr → Bool) (act : CliFptr)
    (meets : is_act (some act) ≡ true) where
  abbrev Never : Option Outcome → Type 0
  Never o = (n : ℕ) (args : List Argument) → o ≢ some (action act n args)

  abbrev without : Format → Bool
  without f = not (is_act f.action)

  try_formats-without :
      (formats : List Format) (ws : List String)
      → all_list without formats ≡ true
      → Never (try_formats t ids formats ws)
  unfolding Format.run_command
  try_formats-without formats ws h n args e =
      let (f, vs, q, r) =
        subst (From t ids without) e (try_formats-From t ids without formats ws h) in
      let (a, m) = call-some t ids f.action (match_args t ids f.args vs) act n args r in
      ground (arith, ap is_act a ∙ meets, q)

  -- The second of two formats takes the same words xs the first, which has another action.
  abbrev shadowed : List Format → Bool
  shadowed (f ∷ g ∷ []) = without f && has_action f.action && same_arguments f.args g.args
  shadowed _ = false

  call-none : (x : Option CliFptr) → call t ids x none ≡ none
  call-none none = refl
  call-none (some x) = refl

  try_two :
      (f g : Format) (ws : List String) (x : Option CliFptr)
      → (y z : Option (ℕ × List Argument)) → f.action ≡ x
      → match_args t ids f.args ws ≡ y
      → match_args t ids g.args ws ≡ z
      → y ≡ z
      → not (is_act x) ≡ true
      → has_action x ≡ true
      → Never (try_formats t ids (f ∷ g ∷ []) ws)
  unfolding try_formats Format.run_command
  try_two f g ws none y z ex ey ez eq q h n args e = cc
  try_two f g ws (some b) none (some z) ex ey ez eq q h n args e = cc
  try_two f g ws (some b) (some y) none ex ey ez eq q h n args e = cc
  try_two f g ws (some b) none none ex ey ez eq q h n args e =
      let rf : Format.run_command t ids f ws ≡ none = rw (ex, ey) refl in
      let rg : Format.run_command t ids g ws ≡ none = rw ez (call-none g.action) in
      cc (rw (try_formats, rf, rg) at e)
  try_two f g ws (some b) (some (total, ys)) (some z) ex ey ez eq q h n args e =
      let rf : Format.run_command t ids f ws ≡ some (b, total, ys) = rw (ex, ey) refl in
      let same : action b total ys ≡ action act n args =
        some-injective _ _ (rw (try_formats, rf) at e) in
      let k : b ≡ act = cc in ground (arith, q, ap (λ c. is_act (some c)) k ∙ meets)

  shadowed-Never :
      (formats : List Format) (ws : List String)
      → shadowed formats ≡ true
      → Never (try_formats t ids formats ws)
  shadowed-Never [] ws h = cc
  shadowed-Never (f ∷ []) ws h = cc
  shadowed-Never (f ∷ g ∷ []) ws h =
      try_two f g ws f.action (match_args t ids f.args ws) (match_args t ids g.args ws) refl refl
        refl (match_args-same t ids f.args g.args ws (ground (arith, h))) (ground (arith, h))
        (ground (arith, h))
  shadowed-Never (f ∷ g ∷ k ∷ fs) ws h = cc

  abbrev harmless : List Format → Bool
  harmless formats = all_list without formats || shadowed formats

  abbrev mutual
    all_nodes : CliCommand → Bool
    all_nodes (command subs formats) = harmless formats && all_sub_nodes subs

    all_sub_nodes : SubCommands → Bool
    all_sub_nodes no_more = true
    all_sub_nodes (sub_command n c subs) = all_nodes c && all_sub_nodes subs

  harmless-Never :
      (formats : List Format) (ws : List String)
      → harmless formats ≡ true
      → Never (try_formats t ids formats ws)
  harmless-Never formats ws h = elim (Bool-cases (all_list without formats)) [
    | inl e ↦ try_formats-without formats ws e
    | inr e ↦ shadowed-Never formats ws (ground (arith, h, e))
  ]

  abbrev NeverSub : Option (Option Outcome) → Type 0
  NeverSub none = Unit {0}
  NeverSub (some o) = Never o

  with_formats-Never :
      (x : Option (Option Outcome)) (formats : List Format) (w : String) (words : List String)
      → NeverSub x
      → harmless formats ≡ true
      → Never (with_formats t ids x formats w words)
  with_formats-Never none formats w words a h = harmless-Never formats (w ∷ words) h
  with_formats-Never (some none) formats w words a h = harmless-Never formats words h
  with_formats-Never (some (some o)) formats w words a h = a

  mutual
    unfolding run_command run_sub_command

    run_command-Never :
        (c : CliCommand) (words : List String)
        → all_nodes c ≡ true
        → Never (run_command t ids c words)
    run_command-Never (command subs formats) [] h = harmless-Never formats [] (ground (arith, h))
    run_command-Never (command subs formats) (w ∷ words) h =
        with_formats-Never (run_sub_command t ids subs w words) formats w words
          (run_sub_command-Never subs w words (ground (arith, h))) (ground (arith, h))

    run_sub_command-Never :
        (subs : SubCommands) (w : String) (words : List String)
        → all_sub_nodes subs ≡ true
        → NeverSub (run_sub_command t ids subs w words)
    run_sub_command-Never no_more w words h = tt
    run_sub_command-Never (sub_command n c subs) w words h = elim (Bool-cases (n == w)) [
      | inl e ↦ rw e (run_command-Never c words (ground (arith, h)))
      | inr e ↦ rw e (run_sub_command-Never subs w words (ground (arith, h)))
    ]

abbrev gets_tx_connection : Option CliFptr → Bool
gets_tx_connection none = false
gets_tx_connection (some cmd_get_tx_connection) = true
gets_tx_connection (some act) = false

-- No command line calls cmd_get_tx_connection: its one format is tried behind the format of cmd_get_tx_state, which takes the same words.
pub commands_never_get_tx_connection :
    (t : CText) (ids : List ℕ) (words : List String) (n : ℕ) (args : List Argument)
    → run_command t ids commands words ≢ some (action cmd_get_tx_connection n args)
commands_never_get_tx_connection t ids words n args =
    run_command-Never t ids gets_tx_connection cmd_get_tx_connection refl commands words refl n args
