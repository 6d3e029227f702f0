-- ===== src/Cli/Commands.antt =====
-- main.go of the command line tool: which command a name runs. The flags library has taken -json from
-- the arguments, which only the two info commands of contracts know.
use x4c.Base.{String, List, [], ◌∷◌, Bool, Action, pure, ◌>>=◌}
use x4c.Base.Dict.{Dict}
use x4c.Host.{Host}
use x4c.Ledgers.{add_operator, remove_operator}
use x4c.Cli.Setup.{Outside, Command}
use x4c.Cli.Calls.{
  internal_mint_command, internal_transfer_command, retire_command, update_operators_command,
  add_token_command, mint_command,
}
use x4c.Cli.Originate.{custodian_originate_command, fa2_originate_command}
use x4c.Cli.Info.{info_command}
use x4c.Cli.Output.{Shown, as_lines, custodian_info_command, fa2_info_command}

module _ {H : Host} {S : Type 0} (W : Outside H S) where
  abbrev plain : (List String → Command S) → Bool → List String → Action S String Shown
  plain command _ args = do lines ← command args; pure (as_lines lines)

  unfoldable pub commands : Dict String (Bool → List String → Action S String Shown)
  unfolding info_command fa2_info_command fa2_originate_command add_token_command mint_command
      custodian_info_command custodian_originate_command internal_mint_command
      internal_transfer_command update_operators_command retire_command
  commands =
      ("info", plain (info_command W))
      ∷ ("fa2 info", fa2_info_command W)
      ∷ ("fa2 originate", plain (fa2_originate_command W))
      ∷ ("fa2 add_token", plain (add_token_command W))
      ∷ ("fa2 mint", plain (mint_command W))
      ∷ ("custodian info", custodian_info_command W)
      ∷ ("custodian originate", plain (custodian_originate_command W))
      ∷ ("custodian internal_mint", plain (internal_mint_command W))
      ∷ ("custodian internal_transfer", plain (internal_transfer_command W))
      ∷ ("custodian add_operator", plain (update_operators_command W add_operator))
      ∷ ("custodian remove_operator", plain (update_operators_command W remove_operator))
      ∷ ("custodian retire", plain (retire_command W))
      ∷ []
