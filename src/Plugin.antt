-- ===== src/Plugin.antt =====
-- pkg/csiplugin/run.go: the set-up of the two plugins, and the interceptor of the gRPC server.
pub mod Order
pub mod Interceptor
use subprovisioner.Base.{String, ◌<>◌, [], ◌∷◌}
use subprovisioner.Kube.Errors.{Result, ok, err, plain}
use subprovisioner.Kube.Calls.{
  identity_server, controller_server, node_server, in_cluster_config, new_clientset,
  new_snapshot_clientset, listen, start_monitor, serve, log_printf,
}
use subprovisioner.Kube.Prog.{Prog, ret, fail, call, catch, lift, ◌>>=◌, ◌>>◌}
use subprovisioner.Node.Stage.{remove_if_exists}

-- The error of `net.Listen` goes into the text of a new one, which is left out here.
abbrev pub listened : Result (Unit {0}) → Prog (Unit {0})
listened (ok _) = ret tt
listened (err _) = fail (plain "failed to listen")

unfoldable pub setup : String → Prog (Unit {0})
setup csi_socket_path = do
  call in_cluster_config lift
  call new_clientset lift
  call new_snapshot_clientset lift
  remove_if_exists csi_socket_path
  call (listen csi_socket_path) listened

unfoldable pub run_controller_plugin : String → String → Prog (Unit {0})
run_controller_plugin csi_socket_path image = do
  setup csi_socket_path
  call (start_monitor image) ret
  call (serve (identity_server ∷ controller_server image ∷ [])) lift

unfoldable pub run_node_plugin : String → String → String → Prog (Unit {0})
run_node_plugin csi_socket_path node_name image = do
  setup csi_socket_path
  call (serve (identity_server ∷ node_server node_name image ∷ [])) lift

-- What the interceptor does with the handler's result. The values are left out of the messages.
abbrev pub report {ℓ} : {A : Type ℓ} → String → Result A → Prog A
report full_method (ok resp) = call (log_printf (full_method <> "(...) --> {")) λ _. ret resp
report full_method (err e) = call (log_printf (full_method <> "(...) -->")) λ _. fail e

unfoldable pub interceptor {ℓ} : {A : Type ℓ} → String → Prog A → Prog A
interceptor full_method handler =
    call (log_printf (full_method <> "({")) λ _. (catch handler >>= report full_method)
