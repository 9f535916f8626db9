-- ===== src/Tests/Main.antt =====
-- main of cmd/mobydig/main.go, with a stand-in for cobra that knows no flags.
use mobydig.Prelude.{
  List, Text, [], arith, codes, length, none, refl, some, ℕ, ℕ_discrete, ◌↔◌, ◌∷◌, ◌≡◌,
}
use mobydig.Cmd.Command.{
  Command, GoesOn, IsCobra, Outcome, Parsed, accepted, dig_and_report, exit_of, exits_with, gives,
  main, main-GoesOn, new_root_cmd, outcome_of, run_root,
}
use mobydig.Cmd.Flags.{Flags, InRange, default_flags, pre_run}
use mobydig.Dig.AddrMap.Tracking.{outcome}
use mobydig.Tests.Report.{any_server, pair, pair-ready}
use mobydig.Types.Addr.{Error}

abbrev parse : Flags → List Text → Parsed
parse f argv = accepted f argv

abbrev args_error : ℕ → List Text → Error
args_error n args = elim (ℕ_discrete (length args) n) [
  | yes _ ↦ none
  | no _ ↦ some (codes "accepts 1 arg(s)")
]

abbrev run_checked : Error → Outcome → Outcome
run_checked none outcome = outcome
run_checked (some e) outcome = gives (some e)

abbrev execute : Command → List Text → Outcome
execute c argv =
    run_checked (args_error c.exact_args argv)
      (run_checked (c.persistent_pre_run_e c.flags) (c.run_e c.flags argv))

args_error-exact : (n : ℕ) (args : List Text) → (args_error n args ≡ none) ↔ (length args ≡ n)
args_error-exact n args = elim (ℕ_discrete (length args) n) [
  | yes e ↦ (λ _. e, λ _. ground (arith, e))
  | no ne ↦ (λ h. ground (arith, h, ne), λ e. absurd (ne e))
]

accepted-same :
    {f g : Flags} {args argv : List Text}
    → accepted f args ≡ accepted g argv
    → (f ≡ g) × (args ≡ argv)
accepted-same e = (cc, cc)

execute-IsCobra : IsCobra parse args_error execute
execute-IsCobra = record {
  exact = args_error-exact;
  shows = λ c argv h. cc;
  refuses_flag = λ c argv e h. cc;
  refuses_args = λ c argv f args e h k. let (p, q) = accepted-same h in rw (q, k);
  refuses_early = λ c argv f args e h k l. let (p, q) = accepted-same h in rw (q, k, p, l);
  runs = λ c argv f args h k l. let (p, q) = accepted-same h in rw (q, k, p, l);
}

main-GoesOn_example :
    (main execute (dig_and_report none pair any_server) (codes "center" ∷ []) ≡ exits_with 0)
    ↔ (InRange default_flags × GoesOn none pair any_server (codes "center" ∷ []))
main-GoesOn_example =
    main-GoesOn execute-IsCobra none pair any_server (codes "center" ∷ []) default_flags
      (codes "center" ∷ []) refl

-- The program goes on to dig around this container.
exits_well : main execute (dig_and_report none pair any_server) (codes "center" ∷ []) ≡ exits_with 0
unfolding main new_root_cmd run_root dig_and_report exit_of outcome_of pre_run ℕ_discrete
exits_well = rw pair-ready
