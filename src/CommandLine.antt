-- ===== src/CommandLine.antt =====
-- cmd/csi-plugin/main.go: what the command line starts.
use subprovisioner.Base.{String, ◌==◌, List, [], ◌∷◌, if◌then◌else◌}

-- `usage` is the exit with status 2.
pub data Start : Type 0 where
  usage : Start
  controller_plugin : String → Start
  node_plugin : String → String → Start

abbrev start_controller : List String → Start
start_controller (image ∷ []) = controller_plugin image
start_controller _ = usage

abbrev start_node : List String → Start
start_node (node_name ∷ image ∷ []) = node_plugin node_name image
start_node _ = usage

-- `os.Args`, the program's name first.
unfoldable pub main : List String → Start
main [] = usage
main (program ∷ []) = usage
main (program ∷ command ∷ args) =
    if command == "controller-plugin"
    then start_controller args
    else if command == "node-plugin"
    then start_node args
    else usage
