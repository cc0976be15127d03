-- ===== src/Node/Publish.antt =====
-- pkg/csiplugin/node/csi.go, `NodePublishVolume`, `NodeUnpublishVolume` and the requests that call
-- nothing.
pub mod Modes
pub mod Order
use Prim.Native.Nat.{bit_and}
use subprovisioner.Base.{ℕ, ◌-◌, String, Bool, List, [], ◌∷◌, if◌then◌else◌}
use subprovisioner.Kube.Calls.{symlink, stat, chmod}
use subprovisioner.Kube.Prog.{Prog, ret, call, lift, ◌>>=◌, ◌>>◌}
use subprovisioner.Node.Stage.{remove_if_exists}

pub record NodePublishVolumeRequest : Type 0 where
  pub staging_target_path : String
  pub target_path : String
  pub readonly : Bool

-- `mode & ^fs.FileMode(0222)`, on 32 bits.
unfoldable pub clear_write_bits : ℕ → ℕ
clear_write_bits mode = bit_and mode (0xffffffff - 0o222)

-- The branch for `req.Readonly`.
unfoldable pub make_readonly : String → Prog (Unit {0})
make_readonly target_path = do
  mode ← call (stat target_path) lift
  call (chmod target_path (clear_write_bits mode)) lift

unfoldable pub node_publish_volume : NodePublishVolumeRequest → Prog (Unit {0})
unfolding remove_if_exists make_readonly
node_publish_volume req = do
  remove_if_exists req.target_path
  call (symlink req.staging_target_path req.target_path) lift
  if req.readonly then make_readonly req.target_path else ret tt

unfoldable pub node_unpublish_volume : String → Prog (Unit {0})
unfolding remove_if_exists
node_unpublish_volume target_path = remove_if_exists target_path

pub data NodeCapability : Type 0 where
  stage_unstage_volume single_node_multi_writer : NodeCapability

unfoldable pub node_get_capabilities : List NodeCapability
node_get_capabilities = stage_unstage_volume ∷ single_node_multi_writer ∷ []

-- The node's identity is the name that it was started with.
unfoldable pub node_get_info : String → String
node_get_info node_name = node_name
