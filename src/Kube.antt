-- ===== src/Kube.antt =====
-- What the plugin asks of its surroundings: the Kubernetes objects, the calls and their answers, and
-- programs as trees of calls. Nothing here is a server: a program is judged over every answer.
pub mod Objects
pub mod Errors
pub mod Calls
pub mod Prog
pub mod Contract
pub mod Libraries
pub mod Retries
pub mod Run
pub mod Ends
