-- ===== src/Cmd/Command.antt =====
-- main of cmd/mobydig/main.go, and the command of cmd/mobydig/cmdroot.go. cobra and pflag are not of
-- this repository: how they execute a command is a parameter.
use mobydig.Prelude.{
  List, Option-cases, Text, [], ap, arith, codes, inl, inr, length, none, refl, some, subst, sym, ℕ,
  ◌↔◌, ◌∙◌, ◌∷◌, ◌≡◌, ◌≢◌,
}
use mobydig.Cmd.Flags.{Flags, InRange, default_flags, pre_run, pre_run-InRange}
use mobydig.Cmd.Report.{Prepared, crashed, prepare, ready, refused_with}
use mobydig.Dig.AddrMap.View.{report}
use mobydig.Dig.Networks.{DockerNetwork}
use mobydig.DnsWorker.Dial.{Opened}
use mobydig.Mobynet.{Client}
use mobydig.Types.Addr.{Error}

-- How a call ends.
pub data Outcome : Type 0 where
  gives : Error → Outcome
  breaks : Outcome  -- a panic

-- What DigAndReport returns. After its start that is nothing but nil.
unfoldable pub outcome_of : Prepared → Outcome
outcome_of (ready nets netnsref) = gives none
outcome_of (refused_with e) = gives (some e)
outcome_of crashed = breaks

unfoldable pub dig_and_report :
    (client_error : Error) → Client → (open_pool : Text → Opened) → Text → Outcome
dig_and_report client_error moby open_pool startpoint =
    outcome_of (prepare client_error moby open_pool startpoint)

-- What newRootCmd gives to cobra.
pub record Command : Type 0 where
  pub use_line : Text
  pub short : Text
  pub version : Text
  pub exact_args : ℕ
  pub flags : Flags
  pub persistent_pre_run_e : Flags → Error
  pub run_e : Flags → List Text → Outcome

-- RunE; with the flag `debug` it also sets a log level.
unfoldable pub run_root : (report : Text → Outcome) → Flags → List Text → Outcome
run_root report f [] = breaks
run_root report f (startpoint ∷ args) = report startpoint

unfoldable pub new_root_cmd : (report : Text → Outcome) → Command
new_root_cmd report = record {
  use_line = codes "mobydig [flags] containername";
  short =
      codes "mobydig digs and validates DNS names on all networks attached to a specific container";
  version = codes "0.9";
  exact_args = 1;
  flags = default_flags;
  persistent_pre_run_e = pre_run;
  run_e = run_root report;
}

pub data Exit : Type 0 where
  exits_with : ℕ → Exit
  aborts : Exit

unfoldable pub exit_of : Outcome → Exit
exit_of (gives none) = exits_with 0
exit_of (gives (some e)) = exits_with 1
exit_of breaks = aborts

unfoldable pub main :
    (execute : Command → List Text → Outcome) → (report : Text → Outcome) → List Text → Exit
main execute report argv = exit_of (execute (new_root_cmd report) argv)

-- What cobra makes of the arguments of the program: flags and positional arguments, the refusal of a
-- flag, or a text to show, such as the help.
pub data Parsed : Type 0 where
  accepted : Flags → List Text → Parsed
  refused_flag : Text → Parsed
  shown : Parsed

-- How cobra executes a command, by its documentation: it parses the flags, checks the number of
-- arguments, calls PersistentPreRunE and then RunE, and returns the first error.
pub record IsCobra (parse : Flags → List Text → Parsed) (args_error : ℕ → List Text → Error)
    (execute : Command → List Text → Outcome) : Type 0 where
  pub exact : (n : ℕ) (args : List Text) → (args_error n args ≡ none) ↔ (length args ≡ n)
  pub shows :
      (c : Command) (argv : List Text) → parse c.flags argv ≡ shown → execute c argv ≡ gives none
  pub refuses_flag :
      (c : Command) (argv : List Text) (e : Text)
      → parse c.flags argv ≡ refused_flag e
      → execute c argv ≡ gives (some e)
  pub refuses_args :
      (c : Command) (argv : List Text) (f : Flags) (args : List Text) (e : Text)
      → parse c.flags argv ≡ accepted f args
      → args_error c.exact_args args ≡ some e
      → execute c argv ≡ gives (some e)
  pub refuses_early :
      (c : Command) (argv : List Text) (f : Flags) (args : List Text) (e : Text)
      → parse c.flags argv ≡ accepted f args
      → args_error c.exact_args args ≡ none
      → c.persistent_pre_run_e f ≡ some e
      → execute c argv ≡ gives (some e)
  pub runs :
      (c : Command) (argv : List Text) (f : Flags) (args : List Text)
      → parse c.flags argv ≡ accepted f args
      → args_error c.exact_args args ≡ none
      → c.persistent_pre_run_e f ≡ none
      → execute c argv ≡ c.run_e f args

-- The startpoint is the one argument, and DigAndReport goes on after its start.
abbrev pub GoesOn :
    (client_error : Error) → Client → (open_pool : Text → Opened) → (args : List Text) → Type 0
GoesOn client_error moby open_pool args =
    (startpoint : Text) × (args ≡ startpoint ∷ [])
    × (nets : List DockerNetwork) × (netnsref : Text) × (prepare client_error moby open_pool
          startpoint
        ≡ ready nets netnsref)

exits_apart : exits_with 1 ≢ exits_with 0
exits_apart e = ground (arith, e)

head_same : {a b : Text} → a ∷ [] ≡ b ∷ [] → a ≡ b
head_same e = cc

one_arg : (args : List Text) → length args ≡ 1 → (startpoint : Text) × (args ≡ startpoint ∷ [])
one_arg [] h = cc
one_arg (a ∷ []) h = (a, refl)
one_arg (a ∷ b ∷ args) h = absurd (omega (arith, h))

exit_of-outcome_of :
    (r : Prepared)
    → (exit_of (outcome_of r) ≡ exits_with 0)
      ↔ ((nets : List DockerNetwork) × (netnsref : Text) × (r ≡ ready nets netnsref))
unfolding exit_of outcome_of
exit_of-outcome_of (ready nets netnsref) = (λ h. (nets, netnsref, refl), λ h. refl)
exit_of-outcome_of (refused_with e) = (λ h. absurd (exits_apart h), λ (nets, netnsref, h). cc)
exit_of-outcome_of crashed = (λ h. cc, λ (nets, netnsref, h). cc)

module _ {parse : Flags → List Text → Parsed} {args_error : ℕ → List Text → Error}
    {execute : Command → List Text → Outcome} (cobra : IsCobra parse args_error execute)
    (client_error : Error) (moby : Client) (open_pool : Text → Opened) (argv : List Text) where
  abbrev command : Command
  command = new_root_cmd (dig_and_report client_error moby open_pool)

  abbrev exit : Exit
  exit = main execute (dig_and_report client_error moby open_pool) argv

  main-refused : (e : Text) → execute command argv ≡ gives (some e) → exit ≢ exits_with 0
  unfolding main exit_of
  main-refused e h exited = exits_apart (sym (ap exit_of h) ∙ exited)

  main-run :
      (f : Flags) (startpoint : Text)
      → execute command argv
        ≡ run_root (dig_and_report client_error moby open_pool) f (startpoint ∷ [])
      → exit ≡ exit_of (outcome_of (prepare client_error moby open_pool startpoint))
  unfolding main run_root dig_and_report
  main-run f startpoint h = ap exit_of h

  -- Where cobra executes a command as documented, and reads flags and arguments in the command line:
  -- the program exits with status 0 exactly if the flags are in their ranges, there is one argument,
  -- and DigAndReport goes on after its start from the container of that name.
  pub main-GoesOn :
      (f : Flags) (args : List Text)
      → parse default_flags argv ≡ accepted f args
      → (main execute (dig_and_report client_error moby open_pool) argv ≡ exits_with 0)
        ↔ (InRange f × GoesOn client_error moby open_pool args)
  unfolding new_root_cmd
  main-GoesOn f args h = elim (Option-cases (args_error 1 args)) [
    | inl fits ↦ elim (Option-cases (pre_run f)) [
      | inl checked ↦
          let (startpoint, one) = one_arg args ((cobra.exact 1 args).0 fits) in
          let ran =
            cobra.runs command argv f args h fits checked
            ∙ ap (run_root (dig_and_report client_error moby open_pool) f) one in
          let (to_start, from_start) =
            exit_of-outcome_of (prepare client_error moby open_pool startpoint) in
          (
            λ exited.
                let (nets, netnsref, ready_for) =
                  to_start (sym (main-run f startpoint ran) ∙ exited) in
                ((pre_run-InRange f).0 checked, (startpoint, one, nets, netnsref, ready_for)),
            λ (_, (named_again, alike, nets, netnsref, ready_for)).
                let same : named_again ≡ startpoint = head_same (sym alike ∙ one) in
                main-run f startpoint ran
                ∙ from_start (
                  nets,
                  netnsref,
                  subst (λ x. prepare client_error moby open_pool x ≡ ready nets netnsref) same
                      ready_for,
                ),
          )
      | inr (e, failed) ↦ (
        λ exited.
            absurd
              (main-refused e (cobra.refuses_early command argv f args e h fits failed) exited),
        λ (checked, _). cc (failed, (pre_run-InRange f).1 checked),
      )
    ]
    | inr (e, extra) ↦ (
      λ exited. absurd (main-refused e (cobra.refuses_args command argv f args e h extra) exited),
      λ (_, (startpoint, one, _, _, _)). cc (extra, (cobra.exact 1 args).1 (ap length one)),
    )
  ]
