-- ===== src/Api.antt =====
-- The effects of the program: calls of the Kubernetes API, the clock, the metrics, and the calls
-- of client-go and controller-runtime that connect and start it.
--
-- The API server, the clock and whatever else changes the cluster are not this program's. A
-- program is therefore a tree: at each call it waits for an answer and goes on with whatever
-- answer comes. A statement about every answer covers failed calls, lost races and objects that
-- others write between two calls. Log lines are left out.
pub mod Calls
pub mod Safe
pub mod Server
pub mod Reach
pub mod Store
use argocd_cluster_registrar.Common.{ℕ, List, Option, Bytes, Bool}
use argocd_cluster_registrar.Kube.{Namespace, Secret, Preconditions}
use argocd_cluster_registrar.Runtime.{RestConfig, ManagerOptions, Probe, Watch}

-- A label selector that is a conjunction of equations.
abbrev pub Selector : Type 0
Selector = List (Bytes × Bytes)

-- The reasons by which refusals are counted.
pub data Reason : Type 0 where
  not_managed orphan_cluster_mismatch incumbent contested_name create_race server_collision : Reason

pub data RegistrationState : Type 0 where
  active demoted : RegistrationState

pub data Bucket : Type 0 where
  expired lt_24h lt_7d lt_30d ok token exec unreadable absent : Bucket

-- A read of one object.
pub data Found (A : Type 0) : Type 0 where
  found : A → Found A
  not_found : Found A
  failed : Found A

pub data Created : Type 0 where
  created already_exists create_failed : Created

pub data Deleted : Type 0 where
  deleted already_gone conflicted delete_failed : Deleted

pub data Op : Type 0 where
  get_namespace : Bytes → Op
  list_namespaces : Selector → Op
  get_secret : (namespace name : Bytes) → Op
  list_secrets : (namespace : Bytes) → Selector → Op
  create_secret : (namespace : Bytes) → Secret → Op
  update_secret : (namespace : Bytes) → Secret → Op
  delete_secret : (namespace name : Bytes) → Preconditions → Op
  now : Op
  count_conflict : Reason → Op
  count_adoption : Op
  set_registrations : RegistrationState → Bucket → ℕ → Op
  set_unrouted : ℕ → Op
  -- how the process connects: rest.InClusterConfig, the rules of clientcmd, and
  -- kubernetes.NewForConfig
  in_cluster_config kubeconfig_config : Op
  new_client : RestConfig → Op
  -- clientgoscheme.AddToScheme, and the manager of controller-runtime
  add_to_scheme : Op
  new_manager : RestConfig → ManagerOptions → Op
  add_check : Probe → Op
  complete : List Watch → Op
  add_seeder run_manager : Op

-- What comes back. A list that failed is `none`, and so is a connection that there is not; an
-- update answers whether it was accepted, and a call of controller-runtime whether it succeeded.
abbrev pub Answer : Op → Type 0
Answer (get_namespace _) = Found Namespace
Answer (list_namespaces _) = Option (List Namespace)
Answer (get_secret _ _) = Found Secret
Answer (list_secrets _ _) = Option (List Secret)
Answer (create_secret _ _) = Created
Answer (update_secret _ _) = Bool
Answer (delete_secret _ _ _) = Deleted
Answer now = ℕ
Answer (count_conflict _) = Unit {0}
Answer count_adoption = Unit {0}
Answer (set_registrations _ _ _) = Unit {0}
Answer (set_unrouted _) = Unit {0}
Answer in_cluster_config = Option RestConfig
Answer kubeconfig_config = Option RestConfig
Answer (new_client _) = Bool
Answer add_to_scheme = Bool
Answer (new_manager _ _) = Bool
Answer (add_check _) = Bool
Answer (complete _) = Bool
Answer add_seeder = Bool
Answer run_manager = Bool

pub data Prog (A : Type 0) : Type 0 where
  ret : A → Prog A
  call : (o : Op) → (Answer o → Prog A) → Prog A

infixl 5 ◌>>=◌ ◌>>◌
unfoldable pub ◌>>=◌ : {A B : Type 0} → Prog A → (A → Prog B) → Prog B
ret a >>= f = f a
call o k >>= f = call o (λ r. k r >>= f)

abbrev pub ◌>>◌ : {A B : Type 0} → Prog A → Prog B → Prog B
m >> n = m >>= λ _. n

unfoldable pub perform : (o : Op) → Prog (Answer o)
perform o = call o ret

-- Run a program against a handler that answers from a state of its own.
unfoldable pub run : {W A : Type 0} → ((o : Op) → W → Answer o × W) → Prog A → W → A × W
run handle (ret a) w = (a, w)
run handle (call o k) w = let (r, w') = handle o w in run handle (k r) w'
