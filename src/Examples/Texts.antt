-- ===== src/Examples/Texts.antt =====
-- A host for the SSH configuration, and the name of an agent.
use ditch.Prelude.{◌≡◌, refl, none, [], ◌∷◌, ◌++◌, text, Text, ok}
use ditch.Protocol.Requests.{NewSshHost}
use ditch.Ssh.{render_config_entry, Finding, host_line, read_line, fixed_lines}
use ditch.Ssh.Entry.{render-read_line}
use ditch.SessionTitle.{display_name}
use ditch.SessionTitle.Limit.{IsTitle, display_name-IsTitle}
use ditch.Examples.Requests.{helper_run}
use ditch.Ssh.{concrete_alias}
use ditch.Ssh.{identity_line}

abbrev box : NewSshHost
box = record {
  alias = text "box-1";
  hostname = text "box.example.org";
  user = text "ada";
  port = 2222;
  identity_file = none;
}

abbrev box_entry : Text
box_entry = host_line box ++ (10 ∷ (fixed_lines box ++ []))

box_ok : render_config_entry box ≡ ok box_entry
unfolding render_config_entry concrete_alias text identity_line
box_ok = refl

render-read_line_example :
    (rest : Text) × (box_entry ≡ host_line box ++ (10 ∷ rest))
    × (read_line (host_line box) ≡ Finding.found_alias (text "box-1") ∷ [])
render-read_line_example = render-read_line box box_entry box_ok

display_name-IsTitle_example : IsTitle (display_name helper_run)
display_name-IsTitle_example = display_name-IsTitle helper_run
